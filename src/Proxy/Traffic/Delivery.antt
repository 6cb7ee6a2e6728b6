-- ===== src/Proxy/Traffic/Delivery.antt =====
-- What the clients of a proxy get, and which of their connections are open (pkg/proxy/proxy.go).
use csi.Prelude.{
  ℕ, ◌<◌, ◌≡◌, ◌≢◌, ◌↔◌, refl, ◌∙◌, Bool, true, false, Option, none, some, List, [], ◌⊎◌, inl, inr,
  arith, Option-cases,
}
use mathlib.Core.List.{append-nil}
use csi.Proxy.Traffic.{Phase, idle, copying, returned, ended, Traffic, Reach}
use csi.Proxy.Traffic.Invariant.{holds, is_ended, IsPrefix, prefix, Forwards, Inv}
use csi.Proxy.Traffic.Kept.{Reach-Inv}

-- `io.Copy` has returned without an error.
abbrev pub is_whole : Phase → Bool
is_whole idle = false
is_whole copying = false
is_whole (returned flag) = flag
is_whole (ended flag) = flag

Forwards-IsPrefix :
    (p : Phase) (sent unread received : List ℕ) (eof : Bool)
    → Forwards p sent unread received eof
    → IsPrefix received sent × (is_whole p ≡ true → received ≡ sent)
Forwards-IsPrefix idle sent unread received eof h = absurd h
Forwards-IsPrefix copying sent unread received eof h = (prefix unread h, λ e. cc)
Forwards-IsPrefix (returned true) sent unread received eof h =
    (prefix [] (append-nil received ∙ h.0), λ e. h.0)
Forwards-IsPrefix (returned false) sent unread received eof h = (h, λ e. cc)
Forwards-IsPrefix (ended true) sent unread received eof h =
    (prefix [] (append-nil received ∙ h.0), λ e. h.0)
Forwards-IsPrefix (ended false) sent unread received eof h = (h, λ e. cc)

-- Of a connection and its partner, if it has one
abbrev pub Delivers : Traffic → ℕ → Option ℕ → Type 0
Delivers t i none = (t.conn i).received ≡ []
Delivers t i (some j) =
    (i ≢ j)
    × ((t.conn j).partner ≡ some i)
    × IsPrefix (t.conn j).received (t.conn i).sent
    × (is_whole (t.conn i).phase ≡ true → (t.conn j).received ≡ (t.conn i).sent)

partner-Delivers :
    (t : Traffic) → Inv t → (i : ℕ) (o : Option ℕ) → (t.conn i).partner ≡ o → Delivers t i o
partner-Delivers t inv i none e = (inv.alone i e).nothing
partner-Delivers t inv i (some j) e =
    let p = inv.pair i j e in
    let (begins, all) = Forwards-IsPrefix _ _ _ _ _ p.forwards in
    (p.differ, p.mutual_pair, begins, all)

-- At every moment of a proxy's life a connection without a partner has received nothing, and of
-- two that are partners each is the only partner of the other, and each has received, in order,
-- the first bytes that the other's client has sent: all of them once io.Copy has come to their end
-- without an error.
pub Reach-Delivers : (t : Traffic) → Reach t → (i : ℕ) → Delivers t i (t.conn i).partner
Reach-Delivers t r i = partner-Delivers t (Reach-Inv r) i _ refl

-- A connection that somebody still needs: the goroutine that accepts holds it, or its partner's data
-- may still be copied to it.
abbrev pub IsNeeded : Traffic → ℕ → Type 0
IsNeeded t i =
    (holds t.acceptor ≡ some i)
    ⊎ ((j : ℕ) × ((t.conn i).partner ≡ some j) × (is_ended (t.conn j).phase ≡ false))

needed : (t : Traffic) → Inv t → (i : ℕ) → i < t.accepted → (t.conn i).closed ≡ false → IsNeeded t i
needed t inv i l c = elim (Option-cases (t.conn i).partner) [
  | inl e ↦ elim ((inv.alone i e).settled l) [ inl h ↦ inl h | inr h ↦ cc ]
  | inr (j, e) ↦ inr (j, e, ground (arith, inv.pair i j e, inv.pair j i))
]

still_open : (t : Traffic) → Inv t → (i : ℕ) → IsNeeded t i → (t.conn i).closed ≡ false
still_open t inv i (inl h) = (inv.held i h).2
still_open t inv i (inr (j, e, h)) = ground (arith, inv.pair i j e, inv.pair j i)

-- At every moment of a proxy's life, a connection that was accepted is open exactly when the
-- goroutine that accepts holds it as the first of two, or the goroutine that copies from its
-- partner to it has not ended.
pub open_iff :
    (t : Traffic) → Reach t → (i : ℕ) → i < t.accepted → ((t.conn i).closed ≡ false) ↔ IsNeeded t i
open_iff t r i l = (needed t (Reach-Inv r) i l, still_open t (Reach-Inv r) i)
