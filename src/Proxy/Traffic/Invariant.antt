-- ===== src/Proxy/Traffic/Invariant.antt =====
-- What holds at every moment of a proxy's life (pkg/proxy/proxy.go).
use csi.Prelude.{
  ℕ, ◌<◌, ◌≡◌, ◌≢◌, sym, ap, ◌∙◌, Bool, true, false, Option, none, some, List, [], ◌++◌, ◌⊎◌,
}
use mathlib.Core.List.{append_assoc}
use csi.Proxy.Traffic.{
  Phase, idle, copying, returned, ended, Conn, Acceptor, first, first_failed, second, second_failed,
  stopped, Traffic,
}

-- `conn1`, while there is no `conn2`
abbrev pub holds : Acceptor → Option ℕ
holds first = none
holds first_failed = none
holds (second c) = some c
holds (second_failed c) = some c
holds stopped = none

abbrev pub is_ended : Phase → Bool
is_ended idle = false
is_ended copying = false
is_ended (returned _) = false
is_ended (ended _) = true

pub data IsPrefix (xs ys : List ℕ) : Type 0 where
  prefix : (rest : List ℕ) → xs ++ rest ≡ ys → IsPrefix xs ys

-- The bytes of a client that its partner has received, by how far the goroutine between them is.
abbrev pub Forwards : Phase → (sent unread received : List ℕ) → (eof : Bool) → Type 0
Forwards idle sent unread received eof = ⊥
Forwards copying sent unread received eof = received ++ unread ≡ sent
Forwards (returned true) sent unread received eof = (received ≡ sent) × (eof ≡ true)
Forwards (returned false) sent unread received eof = IsPrefix received sent
Forwards (ended true) sent unread received eof = (received ≡ sent) × (eof ≡ true)
Forwards (ended false) sent unread received eof = IsPrefix received sent

-- Of a connection and its partner
pub record IsPair (n i j : ℕ) (c d : Conn) : Type 0 where
  pub below : i < n
  pub differ : i ≢ j
  pub mutual_pair : d.partner ≡ some i
  pub forwards : Forwards c.phase c.sent c.unread d.received c.eof
  pub shuts : d.closed ≡ is_ended c.phase

-- Of a connection without a partner
pub record IsAlone (n i : ℕ) (held : Option ℕ) (c : Conn) : Type 0 where
  pub nothing : c.received ≡ []
  pub kept : c.unread ≡ c.sent
  pub unpaired : c.phase ≡ idle
  pub settled : i < n → (held ≡ some i) ⊎ (c.closed ≡ true)

pub record Inv (t : Traffic) : Type 0 where
  pub order1 : t.open1 ≡ false → t.done ≡ true
  pub order2 : t.open2 ≡ false → t.open1 ≡ false
  pub stops : t.acceptor ≡ stopped → t.done ≡ true
  pub held :
      (c : ℕ)
      → holds t.acceptor ≡ some c
      → (c < t.accepted) × ((t.conn c).partner ≡ none) × ((t.conn c).closed ≡ false)
  pub pair : (i j : ℕ) → (t.conn i).partner ≡ some j → IsPair t.accepted i j (t.conn i) (t.conn j)
  pub alone :
      (i : ℕ) → (t.conn i).partner ≡ none → IsAlone t.accepted i (holds t.acceptor) (t.conn i)

pub Forwards-send :
    (p : Phase) (sent unread received bytes : List ℕ) (eof : Bool)
    → eof ≡ false
    → Forwards p sent unread received eof
    → Forwards p (sent ++ bytes) (unread ++ bytes) received eof
Forwards-send idle sent unread received bytes eof e h = h
Forwards-send copying sent unread received bytes eof e h =
    sym (append_assoc received unread bytes) ∙ ap (λ (l : List ℕ). l ++ bytes) h
Forwards-send (returned true) sent unread received bytes eof e h = cc
Forwards-send (returned false) sent unread received bytes eof e (prefix rest h) =
    prefix (rest ++ bytes)
      (sym (append_assoc received rest bytes) ∙ ap (λ (l : List ℕ). l ++ bytes) h)
Forwards-send (ended true) sent unread received bytes eof e h = cc
Forwards-send (ended false) sent unread received bytes eof e (prefix rest h) =
    prefix (rest ++ bytes)
      (sym (append_assoc received rest bytes) ∙ ap (λ (l : List ℕ). l ++ bytes) h)

-- All that was not written before an error of `io.Copy` may be lost.
pub Forwards-part :
    (p : Phase) (sent unread received rest : List ℕ) (eof : Bool)
    → p ≡ copying
    → Forwards p sent unread received eof
    → Forwards (returned false) sent rest received eof
Forwards-part idle sent unread received rest eof e h = cc
Forwards-part copying sent unread received rest eof e h = prefix unread h
Forwards-part (returned flag) sent unread received rest eof e h = cc
Forwards-part (ended flag) sent unread received rest eof e h = cc
