-- ===== src/Endpoint/Listening/Opens.antt =====
-- What `Listen` of pkg/endpoint/endpoint.go opens.
use csi.Prelude.{
  ℕ, String, ◌≡◌, refl, ◌∙◌, Bool, true, false, ◌⊎◌, inl, inr, ◌≢◌, ◌<>◌, nat_eq, ◌==◌,
  if◌then◌else◌, arith, Bool-cases,
}
use csi.Exec.{Result, ok, err, panicked, OsError, continue, ◌>>=◌}
use csi.Endpoint.{parse}
use csi.Endpoint.Parsing.{parse-calm}
use csi.Endpoint.Listening.{
  Sockets, Cleanup, do_nothing, remove_path, Listened, listen, clean, remove_stale, prepare,
  bind_to, refuses,
}

-- What is documented of listeners: `is_open l w` says that the listener is open. `Listen` answers
-- one that was not open, and opens it; `Close` closes it; neither nor the removal of a file changes
-- any other.
pub record IsTracked {W : Type 0} (net : Sockets W) (is_open : ℕ → W → Bool) : Type 0 where
  pub fresh :
      (proto addr : String) (w w' : W) (l : ℕ)
      → net.listen proto addr w ≡ (inr l, w')
      → is_open l w ≡ false
  pub opened :
      (proto addr : String) (w w' : W) (l : ℕ)
      → net.listen proto addr w ≡ (inr l, w')
      → (k : ℕ) → is_open k w' ≡ (if nat_eq l k then true else is_open k w)
  pub refused :
      (proto addr : String) (w w' : W) (e : OsError)
      → net.listen proto addr w ≡ (inl e, w')
      → (k : ℕ) → is_open k w' ≡ is_open k w
  pub closed :
      (l : ℕ) (w : W) (k : ℕ)
      → is_open k (net.close_listener l w) ≡ (if nat_eq l k then false else is_open k w)
  pub removed : (path : String) (w : W) (k : ℕ) → is_open k (net.remove path w).1 ≡ is_open k w

module _ {W : Type 0} (net : Sockets W) (is_open : ℕ → W → Bool)
    (laws : IsTracked net is_open) where
  abbrev pub Same : W → W → Type 0
  Same w w' = (k : ℕ) → is_open k w' ≡ is_open k w

  abbrev pub Binds : W → OsError ⊎ ℕ → W → Type 0
  Binds w (inl e) w' = Same w w'
  Binds w (inr l) w' =
      (is_open l w ≡ false) × ((k : ℕ) → is_open k w' ≡ (if nat_eq l k then true else is_open k w))

  -- What a call of `Listen` does, by its answer.
  abbrev pub Listens : W → Result Listened × W → Type 0
  Listens w (ok l, w') = Binds w l.bound w'
  Listens w (err e, w') = Same w w'
  Listens w (panicked, w') = ⊥

  pub Same-clean : (c : Cleanup) (w : W) → Same w (clean net c w)
  unfolding clean
  Same-clean do_nothing w k = refl
  Same-clean (remove_path path) w k = laws.removed path w k

  answer-Binds :
      (proto addr : String) (w : W) (r : OsError ⊎ ℕ) (w' : W)
      → net.listen proto addr w ≡ (r, w')
      → Binds w r w'
  answer-Binds proto addr w (inl e) w' h = laws.refused proto addr w w' e h
  answer-Binds proto addr w (inr l) w' h =
      (laws.fresh proto addr w w' l h, laws.opened proto addr w w' l h)

  Binds-trans : (v w w' : W) (r : OsError ⊎ ℕ) → Same v w → Binds w r w' → Binds v r w'
  Binds-trans v w w' (inl e) s b = λ k. b k ∙ s k
  Binds-trans v w w' (inr l) s b = (ground (arith, s l, b.0), λ k. ground (arith, s k, b.1 k))

  bind_to-Listens :
      (v w : W) (proto : String) (t : String × Cleanup)
      → Same v w
      → Listens v (bind_to net proto t w)
  unfolding bind_to
  bind_to-Listens v w proto (addr, c) s =
      let (r, w') = net.listen proto addr w in
      Binds-trans v w w' r s (answer-Binds proto addr w r w' refl)

  prepared-Listens :
      (proto addr : String) (w : W)
      → Listens w ((prepare net (proto, addr) >>= bind_to net proto) w)
  unfolding prepare remove_stale
  prepared-Listens proto addr w = elim (Bool-cases (proto == "unix")) [
    | inl unix ↦ elim (Bool-cases (refuses (net.remove ("/" <> addr) w).0)) [
      | inl fails ↦ rw (unix, fails) (laws.removed ("/" <> addr) w)
      | inr passes ↦
          rw (unix, passes)
            (bind_to-Listens w (net.remove ("/" <> addr) w).1 proto
              ("/" <> addr, remove_path ("/" <> addr)) (laws.removed ("/" <> addr) w))
    ]
    | inr plain ↦ rw plain (bind_to-Listens w w proto (addr, do_nothing) (λ k. refl))
  ]

  parsed-Listens :
      (r : Result (String × String)) (w : W)
      → r ≢ panicked
      → Listens w (continue r (λ parsed. prepare net parsed >>= bind_to net parsed.0) w)
  parsed-Listens (ok (proto, addr)) w calm = prepared-Listens proto addr w
  parsed-Listens (err e) w calm = λ k. refl
  parsed-Listens panicked w calm = calm refl

  -- `Listen` never panics, and opens one listener, new, if it answers one, and none otherwise.
  pub listen-Listens : (endpoint : String) (w : W) → Listens w (listen net endpoint w)
  unfolding listen
  listen-Listens endpoint w = parsed-Listens (parse endpoint) w (parse-calm endpoint)
