-- ===== src/Proxy.antt =====
-- `Run` and `Close` of pkg/proxy/proxy.go: how a proxy opens and closes its listeners. What its
-- goroutines do in between is in Proxy.Traffic.
pub mod Opened
pub mod Traffic
use csi.Prelude.{ℕ, String, Option, none, some, ◌⊎◌, inl, inr}
use csi.Exec.{Exec, Result, ok, err, panicked, OsError, formatted, ◌>>=◌, ◌>>◌}
use csi.Endpoint.Listening.{Sockets, Cleanup, Listened, listen, clean}

-- `ctx` and `cancel`, which are set together.
pub data Context : Type 0 where
  no_context live cancelled : Context

-- `proxy`: a field that is nil is `none`.
pub record Proxy : Type 0 where
  pub ctx : Context
  pub s1 : Option ℕ
  pub s2 : Option ℕ
  pub cleanup1 : Option Cleanup
  pub cleanup2 : Option Cleanup

-- `&proxy{}`
abbrev pub new_proxy : Proxy
new_proxy = record { ctx = no_context; s1 = none; s2 = none; cleanup1 = none; cleanup2 = none }

-- `context.WithCancel`
with_cancel : Proxy → Proxy
with_cancel p = record p { ctx = live }

cancel : Context → Context
cancel no_context = no_context
cancel live = cancelled
cancel cancelled = cancelled

pub data Side : Type 0 where
  first second : Side

-- The assignment of the results of `endpoint.Listen` to the fields of one side.
assign : Side → Option ℕ → Cleanup → Proxy → Proxy
assign first s c p = record p { s1 = s; cleanup1 = some c }
assign second s c p = record p { s2 = s; cleanup2 = some c }

pub record Session (W : Type 0) : Type 0 where
  pub proxy : Proxy
  pub world : W

module _ {W : Type 0} (net : Sockets W) where
  close_one : Option ℕ → W → W
  close_one none w = w
  close_one (some l) w = net.close_listener l w

  clean_one : Option Cleanup → W → W
  clean_one none w = w
  clean_one (some c) w = clean net c w

  -- `Close`
  unfoldable pub close : Proxy → W → Proxy × W
  unfolding cancel close_one clean_one
  close p w =
      let p' = record p { ctx = cancel p.ctx } in
      let w' = close_one p.s2 (close_one p.s1 w) in
      (p', clean_one p.cleanup2 (clean_one p.cleanup1 w'))

  -- What `net.Listen` answered, with the cleanup. After an error of it there is no listener.
  bound_on : Side → OsError ⊎ ℕ → Cleanup → Exec (Session W) (Unit {0})
  unfolding assign
  bound_on side (inl e) c s = (err formatted, record s { proxy = assign side none c s.proxy })
  bound_on side (inr l) c s = (ok tt, record s { proxy = assign side (some l) c s.proxy })

  listened : Side → Result Listened → Exec (Session W) (Unit {0})
  unfolding bound_on
  listened side (ok l) s = bound_on side l.bound l.cleanup s
  listened side (err e) s = (err formatted, s)
  listened side panicked s = (panicked, s)

  -- `proxy.s1, proxy.cleanup1, err = endpoint.Listen(endpoint1)`, and the same for the second.
  listen_on : Side → String → Exec (Session W) (Unit {0})
  unfolding listened
  listen_on side endpoint s =
      let (r, w) = listen net endpoint s.world in listened side r (record s { world = w })

  -- The deferred function closes the proxy unless `Run` came to its end.
  finish : Result (Unit {0}) → Session W → Result Proxy × W
  finish (ok _) s = (ok s.proxy, s.world)
  finish (err e) s = (err e, (close s.proxy s.world).1)
  finish panicked s = (panicked, (close s.proxy s.world).1)

  -- `Run`, but for the goroutine that it starts
  unfoldable pub run : String → String → W → Result Proxy × W
  unfolding with_cancel listen_on finish
  run endpoint1 endpoint2 w =
      let s : Session W = record { proxy = with_cancel new_proxy; world = w } in
      let (r, s') = (listen_on first endpoint1 >> listen_on second endpoint2) s in finish r s'
