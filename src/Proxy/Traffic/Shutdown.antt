-- ===== src/Proxy/Traffic/Shutdown.antt =====
-- What `Close` of pkg/proxy/proxy.go brings about.
use csi.Prelude.{ℕ, suc, ◌+◌, ◌<◌, ◌≤◌, ◌≡◌, ◌≢◌, refl, true, false, arith}
use csi.Proxy.Traffic.{
  Acceptor, first, first_failed, second, second_failed, stopped, Traffic, accept_first, establish,
  shut_down, copy_chunk, return_copy, close_to, send, send_eof, Accepts, takes_first, fails_first,
  retries_first, stops_first, takes_second, fails_second, retries_second, stops_second, Copies,
  Others, Reach,
}
use csi.Proxy.Traffic.Invariant.{Inv}
use csi.Proxy.Traffic.Kept.{Reach-Inv}

-- Steps from `t` to `u` in any order, `n` of them by the goroutine that accepts.
pub data Run (t : Traffic) : ℕ → Traffic → Type 0 where
  rests : Run t 0 t
  accepts : {n : ℕ} {u v : Traffic} → Run t n u → Accepts u v → Run t (suc n) v
  copies : {n : ℕ} {u v : Traffic} → Run t n u → Copies u v → Run t n v
  others : {n : ℕ} {u v : Traffic} → Run t n u → Others u v → Run t n v

abbrev left : Acceptor → ℕ
left first = 2
left first_failed = 1
left (second _) = 2
left (second_failed _) = 1
left stopped = 0

-- Both listeners are closed, and the context is done.
record IsShut (t : Traffic) : Type 0 where
  over : t.done ≡ true
  shut1 : t.open1 ≡ false
  shut2 : t.open2 ≡ false

Inv-IsShut : {t : Traffic} → Inv t → t.open2 ≡ false → IsShut t
Inv-IsShut inv h = record { over = inv.order1 (inv.order2 h); shut1 = inv.order2 h; shut2 = h }

Accepts-left :
    {t u : Traffic} → IsShut t → Accepts t u → IsShut u × (left u.acceptor < left t.acceptor)
unfolding accept_first establish shut_down
Accepts-left s (takes_first a o) = ground arith
Accepts-left s (fails_first a) = ground arith
Accepts-left s (retries_first a d) = ground arith
Accepts-left s (stops_first a d) = ground arith
Accepts-left s (takes_second c a o) = ground arith
Accepts-left s (fails_second c a) = ground arith
Accepts-left s (retries_second c a d) = ground arith
Accepts-left s (stops_second c a d) = ground arith

Copies-left : {t u : Traffic} → IsShut t → Copies t u → IsShut u × (u.acceptor ≡ t.acceptor)
unfolding copy_chunk return_copy close_to
Copies-left s (Copies.chunk c d bytes rest p f o1 o2 e) = ground arith
Copies-left s m = ground arith

Others-left : {t u : Traffic} → IsShut t → Others t u → IsShut u × (u.acceptor ≡ t.acceptor)
unfolding send send_eof
Others-left s (Others.cancels) = ground arith
Others-left s m = ground arith

Run-left :
    {t u : Traffic} {n : ℕ}
    → IsShut t
    → Run t n u
    → IsShut u × (left u.acceptor + n ≤ left t.acceptor)
Run-left s rests = (s, omega arith)
Run-left s (accepts r m) = let (s', l) = Run-left s r in ground (arith, Accepts-left s' m)
Run-left s (copies r m) = let (s', l) = Run-left s r in ground (arith, Copies-left s' m)
Run-left s (others r m) = let (s', l) = Run-left s r in ground (arith, Others-left s' m)

moves :
    (t : Traffic) (a : Acceptor)
    → t.acceptor ≡ a
    → t.done ≡ true
    → a ≢ stopped
    → (u : Traffic) × Accepts t u
moves t first e d h = (_, fails_first e)
moves t first_failed e d h = (_, stops_first e d)
moves t (second c) e d h = (_, fails_second c e)
moves t (second_failed c) e d h = (_, stops_second c e d)
moves t stopped e d h = absurd (h refl)

-- Once Close has closed both listeners, and however the steps of the goroutines, of clients and of
-- others follow each other, the goroutine that accepts takes two steps at most: after two of its
-- own it has stopped, and until it has stopped it can take one.
pub close-stops :
    (t u : Traffic) (n : ℕ)
    → Reach t
    → t.open2 ≡ false
    → Run t n u
    → (n ≤ 2)
      × (n ≡ 2 → u.acceptor ≡ stopped)
      × (u.acceptor ≢ stopped → (v : Traffic) × Accepts u v)
close-stops t u n r closed run =
    let (s, l) = Run-left (Inv-IsShut (Reach-Inv r) closed) run in
    (ground arith, λ e. ground arith, λ h. moves u u.acceptor refl s.over h)
