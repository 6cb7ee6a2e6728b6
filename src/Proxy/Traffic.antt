-- ===== src/Proxy/Traffic.antt =====
-- The goroutines of pkg/proxy/proxy.go: the one of `Run` that accepts connections and pairs them, and
-- the two `copy` of each pair, with what clients and the owner of the proxy do meanwhile.
pub mod Invariant
pub mod Kept
pub mod Delivery
pub mod Shutdown
use csi.Prelude.{
  ℕ, suc, ◌<◌, ◌≡◌, Bool, true, false, Option, none, some, List, [], ◌++◌, nat_eq, if◌then◌else◌,
}

-- The goroutine that copies from a connection: there is none yet, `io.Copy` runs, it has returned, and
-- `to.Close()` is done. The flag says that `io.Copy` came to the end of the data without an error.
pub data Phase : Type 0 where
  idle copying : Phase
  returned ended : (whole : Bool) → Phase

-- A connection that the proxy accepted.
pub record Conn : Type 0 where
  pub sent : List ℕ  -- all bytes that the client has sent
  pub unread : List ℕ  -- those of them that the proxy has not read
  pub received : List ℕ  -- the bytes that the proxy has written to the client
  pub eof : Bool  -- the client will send no more
  pub closed : Bool  -- the proxy has closed the connection
  pub partner : Option ℕ  -- the `to` of the goroutine that copies from here
  pub phase : Phase

abbrev pub new_conn : Conn
new_conn = record {
  sent = [];
  unread = [];
  received = [];
  eof = false;
  closed = false;
  partner = none;
  phase = idle;
}

-- Where the goroutine of `Run` stands: in `Accept` of a listener, or after an error of it. In `second`
-- it holds `conn1`.
pub data Acceptor : Type 0 where
  first first_failed : Acceptor
  second second_failed : (conn1 : ℕ) → Acceptor
  stopped : Acceptor

-- `done` is `ctx.Err() != nil`. Connections are numbered as they are accepted.
pub record Traffic : Type 0 where
  pub done : Bool
  pub open1 : Bool
  pub open2 : Bool
  pub acceptor : Acceptor
  pub accepted : ℕ
  pub conn : ℕ → Conn

abbrev pub update : (ℕ → Conn) → ℕ → Conn → ℕ → Conn
update f i c j = if nat_eq i j then c else f j

-- When `Run` returns.
abbrev pub start : Traffic
start = record {
  done = false;
  open1 = true;
  open2 = true;
  acceptor = first;
  accepted = 0;
  conn = λ i. new_conn;
}

-- `conn1 := accept(…)`
unfoldable pub accept_first : Traffic → Traffic
accept_first t = record t {
  acceptor = second t.accepted;
  accepted = suc t.accepted;
  conn = update t.conn t.accepted new_conn;
}

-- `conn2 := accept(…)`, the two `go copy(…)`, and back to the first listener
unfoldable pub establish : ℕ → Traffic → Traffic
establish c t = record t {
  acceptor = first;
  accepted = suc t.accepted;
  conn =
      update (update t.conn t.accepted (record new_conn { partner = some c; phase = copying })) c
        (record (t.conn c) { partner = some t.accepted; phase = copying });
}

-- `conn1.Close()` and the return of the goroutine
unfoldable pub shut_down : ℕ → Traffic → Traffic
shut_down c t = record t {
  acceptor = stopped;
  conn = update t.conn c (record (t.conn c) { closed = true });
}

-- One round of `io.Copy` from `c` to `d`
unfoldable pub copy_chunk : (c d : ℕ) (chunk rest : List ℕ) → Traffic → Traffic
copy_chunk c d chunk rest t = record t {
  conn =
      update (update t.conn d (record (t.conn d) { received = (t.conn d).received ++ chunk })) c
        (record (t.conn c) { unread = rest });
}

-- The return of `io.Copy`
unfoldable pub return_copy : (c : ℕ) (whole : Bool) (rest : List ℕ) → Traffic → Traffic
return_copy c whole rest t = record t {
  conn = update t.conn c (record (t.conn c) { unread = rest; phase = returned whole });
}

-- `to.Close()`, where `d` is `to`
unfoldable pub close_to : (c d : ℕ) (whole : Bool) → Traffic → Traffic
close_to c d whole t = record t {
  conn =
      update (update t.conn d (record (t.conn d) { closed = true })) c
        (record (t.conn c) { phase = ended whole });
}

unfoldable pub send : (c : ℕ) → List ℕ → Traffic → Traffic
send c bytes t = record t {
  conn =
      update t.conn c (record (t.conn c) {
        sent = (t.conn c).sent ++ bytes;
        unread = (t.conn c).unread ++ bytes;
      });
}

unfoldable pub send_eof : ℕ → Traffic → Traffic
send_eof c t = record t { conn = update t.conn c (record (t.conn c) { eof = true }) }

-- A step of the goroutine that accepts. `Accept` may fail at any time, and a listener that is closed
-- accepts nothing.
pub data Accepts (t : Traffic) : Traffic → Type 0 where
  takes_first : t.acceptor ≡ first → t.open1 ≡ true → Accepts t (accept_first t)
  fails_first : t.acceptor ≡ first → Accepts t (record t { acceptor = first_failed })
  retries_first :
      t.acceptor ≡ first_failed → t.done ≡ false → Accepts t (record t { acceptor = first })
  stops_first :
      t.acceptor ≡ first_failed → t.done ≡ true → Accepts t (record t { acceptor = stopped })
  takes_second : (c : ℕ) → t.acceptor ≡ second c → t.open2 ≡ true → Accepts t (establish c t)
  fails_second :
      (c : ℕ) → t.acceptor ≡ second c → Accepts t (record t { acceptor = second_failed c })
  retries_second :
      (c : ℕ)
      → t.acceptor ≡ second_failed c
      → t.done ≡ false
      → Accepts t (record t { acceptor = second c })
  stops_second : (c : ℕ) → t.acceptor ≡ second_failed c → t.done ≡ true → Accepts t (shut_down c t)

-- A step of a goroutine that copies. `io.Copy` reads and writes in order; it returns without an error
-- at the end of the data, and with one at any time, with what it has read and not written lost.
pub data Copies (t : Traffic) : Traffic → Type 0 where
  chunk :
      (c d : ℕ) (bytes rest : List ℕ)
      → (t.conn c).partner ≡ some d
      → (t.conn c).phase ≡ copying
      → (t.conn c).closed ≡ false
      → (t.conn d).closed ≡ false
      → (t.conn c).unread ≡ bytes ++ rest
      → Copies t (copy_chunk c d bytes rest t)
  whole :
      (c d : ℕ)
      → (t.conn c).partner ≡ some d
      → (t.conn c).phase ≡ copying
      → (t.conn c).closed ≡ false
      → (t.conn c).unread ≡ []
      → (t.conn c).eof ≡ true
      → Copies t (return_copy c true [] t)
  part :
      (c d : ℕ) (lost rest : List ℕ)
      → (t.conn c).partner ≡ some d
      → (t.conn c).phase ≡ copying
      → (t.conn c).unread ≡ lost ++ rest
      → Copies t (return_copy c false rest t)
  closes :
      (c d : ℕ) (flag : Bool)
      → (t.conn c).partner ≡ some d
      → (t.conn c).phase ≡ returned flag
      → Copies t (close_to c d flag t)

-- What others do. The context is done when its parent is, or by the first part of `Close`, which then
-- closes one listener after the other.
pub data Others (t : Traffic) : Traffic → Type 0 where
  cancels : Others t (record t { done = true })
  closes_first : t.done ≡ true → Others t (record t { open1 = false })
  closes_second : t.open1 ≡ false → Others t (record t { open2 = false })
  sends :
      (c : ℕ) (bytes : List ℕ) → c < t.accepted → (t.conn c).eof ≡ false → Others t (send c bytes t)
  finishes : (c : ℕ) → c < t.accepted → Others t (send_eof c t)

pub data Step (t u : Traffic) : Type 0 where
  acceptor : Accepts t u → Step t u
  copier : Copies t u → Step t u
  other : Others t u → Step t u

-- What a proxy may come to.
pub data Reach : Traffic → Type 0 where
  here : Reach start
  next : {t u : Traffic} → Reach t → Step t u → Reach u
