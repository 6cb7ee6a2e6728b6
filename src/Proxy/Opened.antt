-- ===== src/Proxy/Opened.antt =====
-- Which listeners `Run` and `Close` of pkg/proxy/proxy.go open and close.
use csi.Prelude.{
  ℕ, String, ◌≡◌, ◌≢◌, refl, sym, ◌∙◌, Bool, true, false, Option, none, some, ◌⊎◌, inl, inr, nat_eq,
  if◌then◌else◌, arith, ◌||◌, Bool-cases,
}
use csi.Exec.{Result, ok, err, panicked, OsError, continue}
use csi.Endpoint.Listening.{Sockets, Cleanup, Listened}
use csi.Endpoint.Listening.Opens.{IsTracked, Same, Same-clean, Binds, Listens, listen-Listens}
use csi.Proxy.{
  live, Proxy, first, second, Session, close, close_one, clean_one, bound_on, listened, listen_on,
  finish, run, with_cancel, assign, new_proxy,
}

-- The proxy owns the listener.
abbrev pub owns : Option ℕ → ℕ → Bool
owns none k = false
owns (some l) k = nat_eq l k

abbrev pub held : Proxy → ℕ → Bool
held p k = owns p.s1 k || owns p.s2 k

module _ {W : Type 0} (net : Sockets W) (is_open : ℕ → W → Bool)
    (laws : IsTracked net is_open) where
  close_one-open :
      (s : Option ℕ) (w : W) (k : ℕ)
      → is_open k (close_one net s w) ≡ (if owns s k then false else is_open k w)
  unfolding close_one
  close_one-open none w k = refl
  close_one-open (some l) w k = laws.closed l w k

  clean_one-open : (c : Option Cleanup) (w : W) → Same net is_open laws w (clean_one net c w)
  unfolding clean_one
  clean_one-open none w k = refl
  clean_one-open (some c) w k = Same-clean net is_open laws c w k

  -- `Close` closes the listeners of the proxy and no others.
  pub close-open :
      (p : Proxy) (w : W) (k : ℕ)
      → is_open k (close net p w).1 ≡ (if held p k then false else is_open k w)
  unfolding close
  close-open p w k =
      let w1 = close_one net p.s1 w in
      let w2 = close_one net p.s2 w1 in
      let w3 = clean_one net p.cleanup1 w2 in
      ground (
        arith,
        clean_one-open p.cleanup2 w3 k,
        clean_one-open p.cleanup1 w2 k,
        close_one-open p.s2 w1 k,
        close_one-open p.s1 w k,
      )

  -- What a proxy that is running holds, from `w` when `Run` was called.
  pub record Opened (w : W) (p : Proxy) (w' : W) : Type 0 where
    pub l1 : ℕ
    pub l2 : ℕ
    pub first_is : p.s1 ≡ some l1
    pub second_is : p.s2 ≡ some l2
    pub differ : l1 ≢ l2
    pub new1 : is_open l1 w ≡ false
    pub new2 : is_open l2 w ≡ false
    pub running : p.ctx ≡ live
    pub opens : (k : ℕ) → is_open k w' ≡ (if held p k then true else is_open k w)
    -- `Close`, whenever it is called
    pub closes :
        (v : W) (k : ℕ) → is_open k (close net p v).1 ≡ (if held p k then false else is_open k v)

  -- `Run` answers a proxy that holds two new listeners, or an error with all as it was.
  abbrev pub Balanced : W → Result Proxy × W → Type 0
  Balanced w (ok p, w') = Opened w p w'
  Balanced w (err e, w') = (k : ℕ) → is_open k w' ≡ is_open k w
  Balanced w (panicked, w') = ⊥

  -- `Close` undoes what the proxy opened.
  undo :
      (p : Proxy) (w v : W)
      → ((k : ℕ) → held p k ≡ true → is_open k w ≡ false)
      → ((k : ℕ) → is_open k v ≡ (if held p k then true else is_open k w))
      → (k : ℕ) → is_open k (close net p v).1 ≡ is_open k w
  undo p w v new opened k = elim (Bool-cases (held p k)) [
    | inl h ↦ close-open p v k ∙ rw h (sym (new k h))
    | inr h ↦ close-open p v k ∙ rw h (opened k ∙ rw h refl)
  ]

  module _ {w : W} {l : ℕ} (new : is_open l w ≡ false) where
    -- A proxy whose first listener is open
    abbrev half : Cleanup → W → Session W
    half c v = record { proxy = assign first (some l) c (with_cancel new_proxy); world = v }

    second-Balanced :
        (c d : Cleanup) (w1 : W) (b : OsError ⊎ ℕ) (w2 : W)
        → ((k : ℕ) → is_open k w1 ≡ (if nat_eq l k then true else is_open k w))
        → Binds net is_open laws w1 b w2
        → let (r, s) = bound_on net second b d (half c w2) in Balanced w (finish net r s)
    unfolding finish bound_on assign with_cancel
    second-Balanced c d w1 (inl e) w2 one h =
        undo _ w w2 (λ k e. ground (arith, new)) (λ k. ground (arith, h k, one k))
    second-Balanced c d w1 (inr m) w2 one h = record {
      l1 = l;
      l2 = m;
      first_is = refl;
      second_is = refl;
      differ = ground (arith, h.0, one m);
      new1 = new;
      new2 = ground (arith, h.0, one m);
      running = refl;
      opens = λ k. ground (arith, h.1 k, one k);
      closes = close-open _;
    }

    both-Balanced :
        (c : Cleanup) (w1 : W) (r : Result Listened) (w2 : W)
        → ((k : ℕ) → is_open k w1 ≡ (if nat_eq l k then true else is_open k w))
        → Listens net is_open laws w1 (r, w2)
        → let (r', s) = listened net second r (half c w2) in Balanced w (finish net r' s)
    unfolding listened finish assign with_cancel
    both-Balanced c w1 (ok a) w2 one h = second-Balanced c a.cleanup w1 a.bound w2 one h
    both-Balanced c w1 (err e) w2 one h =
        undo _ w w2 (λ k e. ground (arith, new)) (λ k. ground (arith, h k, one k))
    both-Balanced c w1 panicked w2 one h = h

  abbrev then_second : String → Result (Unit {0}) × Session W → Result Proxy × W
  then_second endpoint2 (r, s) =
      let (r', s') = continue r (λ _. listen_on net second endpoint2) s in finish net r' s'

  bound-Balanced :
      (endpoint2 : String) (w : W) (c : Cleanup) (b : OsError ⊎ ℕ) (w1 : W)
      → Binds net is_open laws w b w1
      → let s : Session W = record { proxy = with_cancel new_proxy; world = w1 } in
        Balanced w (then_second endpoint2 (bound_on net first b c s))
  unfolding bound_on listen_on finish assign with_cancel
  bound-Balanced endpoint2 w c (inl e) w1 h =
      undo _ w w1 (λ k e. ground arith) (λ k. ground (arith, h k))
  bound-Balanced endpoint2 w c (inr l) w1 h =
      both-Balanced h.0 c w1 _ _ h.1 (listen-Listens net is_open laws endpoint2 w1)

  listened-Balanced :
      (endpoint2 : String) (w : W) (r : Result Listened) (w1 : W)
      → Listens net is_open laws w (r, w1)
      → let s : Session W = record { proxy = with_cancel new_proxy; world = w1 } in
        Balanced w (then_second endpoint2 (listened net first r s))
  unfolding listened finish with_cancel
  listened-Balanced endpoint2 w (ok a) w1 h = bound-Balanced endpoint2 w a.cleanup a.bound w1 h
  listened-Balanced endpoint2 w (err e) w1 h =
      undo _ w w1 (λ k e. ground arith) (λ k. ground (arith, h k))
  listened-Balanced endpoint2 w panicked w1 h = h

  -- Where net.Listen and Close of a listener open and close what they say, Run never panics. If it
  -- fails, the same listeners are open as before. If not, the proxy holds two different listeners,
  -- which were not open, and no other has changed; a later Close closes these two and no others.
  pub run-Balanced :
      (endpoint1 endpoint2 : String) (w : W) → Balanced w (run net endpoint1 endpoint2 w)
  unfolding run listen_on
  run-Balanced endpoint1 endpoint2 w =
      listened-Balanced endpoint2 w _ _ (listen-Listens net is_open laws endpoint1 w)
