-- ===== src/Tests/Sockets.antt =====
-- A table of open listeners, and runs of a proxy on it.
use csi.Prelude.{
  ℕ, suc, ◌+◌, ◌≤◌, ◌≡◌, ◌≢◌, ◌↔◌, refl, Bool, true, false, Option, none, some, List, [], ◌∷◌, inl,
  inr, nat_eq, if◌then◌else◌, arith,
}
use csi.Exec.{OsError}
use csi.Endpoint.Listening.{Sockets}
use csi.Endpoint.Listening.Opens.{IsTracked}
use csi.Proxy.{run}
use csi.Proxy.Opened.{Balanced, run-Balanced}
use csi.Proxy.Traffic.{
  Traffic, Acceptor, start, accept_first, establish, copy_chunk, send, Accepts, Copies, Others,
  acceptor, copier, other, Reach, here, next,
}
use csi.Proxy.Traffic.Delivery.{Delivers, Reach-Delivers, IsNeeded, open_iff}
use csi.Proxy.Traffic.Shutdown.{Run, rests, accepts, close-stops}
use csi.HostPath.Start.{Host}
use csi.Main.{Flags}

-- The handles of the open listeners
abbrev pub Table : Type 0
Table = List ℕ

abbrev pub is_open : ℕ → Table → Bool
is_open k [] = false
is_open k (l ∷ ls) = if nat_eq l k then true else is_open k ls

-- A number above all handles
abbrev pub above : Table → ℕ
above [] = 1
above (l ∷ ls) = suc l + above ls

abbrev pub shut : ℕ → Table → Table
shut l [] = []
shut l (k ∷ ks) = if nat_eq l k then shut l ks else k ∷ shut l ks

abbrev pub sockets : Sockets Table
sockets = record {
  listen = λ proto addr w. (inr (above w), above w ∷ w);
  close_listener = shut;
  remove = λ path w. (none, w);
}

is_open-above : (n : ℕ) (w : Table) → above w ≤ n → is_open n w ≡ false
is_open-above n [] h = refl
is_open-above n (l ∷ ls) h = ground (arith, is_open-above n ls)

is_open-shut :
    (l : ℕ) (w : Table) (k : ℕ) → is_open k (shut l w) ≡ (if nat_eq l k then false else is_open k w)
is_open-shut l [] k = ground arith
is_open-shut l (j ∷ js) k = ground (arith, is_open-shut l js k)

sockets-IsTracked : IsTracked sockets is_open
sockets-IsTracked = record {
  fresh = λ proto addr w w' l h. ground (arith, is_open-above (above w) w);
  opened = λ proto addr w w' l h k. ground arith;
  refused = λ proto addr w w' e h k. cc;
  closed = is_open-shut;
  removed = λ path w k. refl;
}

run-Balanced_example :
    Balanced sockets is_open sockets-IsTracked
      (5 ∷ [])
      (run sockets "unix://csi.sock" "tcp://127.0.0.1:9000" (5 ∷ []))
run-Balanced_example =
    run-Balanced sockets is_open sockets-IsTracked "unix://csi.sock" "tcp://127.0.0.1:9000" (5 ∷ [])

-- A client waits on the first endpoint, one comes on the second, and the first sends two bytes, of
-- which one is copied.
abbrev met : Traffic
met = establish 0 (accept_first start)

met-Reach : Reach met
unfolding establish accept_first
met-Reach =
    next (next here (acceptor (Accepts.takes_first refl refl)))
      (acceptor (Accepts.takes_second 0 refl refl))

abbrev talking : Traffic
talking = copy_chunk 0 1 (7 ∷ []) (8 ∷ []) (send 0 (7 ∷ 8 ∷ []) met)

talking-Reach : Reach talking
unfolding establish accept_first send copy_chunk
talking-Reach =
    next (next met-Reach (other (Others.sends 0 (7 ∷ 8 ∷ []) (omega arith) refl)))
      (copier (Copies.chunk 0 1 (7 ∷ []) (8 ∷ []) refl refl refl refl refl))

Reach-Delivers_example : Delivers talking 0 (some 1)
unfolding establish accept_first send copy_chunk
Reach-Delivers_example = Reach-Delivers talking talking-Reach 0

open_iff_example : ((talking.conn 1).closed ≡ false) ↔ IsNeeded talking 1
unfolding establish accept_first send copy_chunk
open_iff_example = open_iff talking talking-Reach 1 (omega arith)

-- `Close` while a client waits on the first endpoint.
abbrev waited : Traffic
waited = accept_first start

abbrev gone : Traffic
gone = record waited { done = true; open1 = false; open2 = false }

gone-Reach : Reach gone
unfolding accept_first
gone-Reach =
    next
      (next (next (next here (acceptor (Accepts.takes_first refl refl))) (other Others.cancels))
        (other (Others.closes_first refl)))
      (other (Others.closes_second refl))

abbrev failed : Traffic
failed = record gone { acceptor = Acceptor.second_failed 0 }

failing : Run gone 1 failed
unfolding accept_first
failing = accepts rests (Accepts.fails_second 0 refl)

close-stops_example :
    (1 ≤ 2)
    × (◌≡◌ {A = ℕ} 1 2 → failed.acceptor ≡ Acceptor.stopped)
    × (failed.acceptor ≢ Acceptor.stopped → (v : Traffic) × Accepts failed v)
close-stops_example = close-stops gone failed 1 gone-Reach refl failing

-- A host that the proxy does not use.
abbrev host : Host Table
host = record {
  join = λ a b. b;
  mkdir_all = λ path w. (none, w);
  disk = record {
    marshal = λ r. none;
    unmarshal = λ text. none;
    write_file = λ path text w. (none, w);
    read_file = λ path w. (inl OsError.not_exist, w);
  };
  system = λ path. record {
    xfs_path = path;
    projects_file = path;
    clean_path = path;
    stat = λ p w. (none, w);
    run = λ command w. (none, w);
    output = λ command w. (inr "ext2/ext3", w);
    get_mounts = λ w. (inr [], w);
    look_path = λ name w. (none, w);
    create_file = λ p w. (none, w);
    read_file = λ p w. (inl OsError.not_exist, w);
    write_file = λ p text w. (none, w);
    range = λ projects w. (projects, w);
  };
}

-- A command line with a proxy endpoint
abbrev as_proxy : Flags → Option Flags
as_proxy flags = some (record flags { proxy_endpoint = "tcp://127.0.0.1:9000" })
