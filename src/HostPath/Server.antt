-- ===== src/HostPath/Server.antt =====
-- The server of pkg/hostpath/server.go, and `Run` of pkg/hostpath/hostpath.go, which starts it and waits
-- for it. What `logGRPC` does is in HostPath.Server.Log.
pub mod Process
pub mod Log
use csi.Prelude.{
  ℕ, suc, String, ◌≡◌, Bool, true, false, Option, none, some, ◌⊎◌, inl, inr, if◌then◌else◌,
}
use csi.Exec.{Result, ok, err, panicked, OsError}
use csi.Endpoint.Listening.{Sockets, Cleanup, Listened, listen, clean}

pub data Service : Type 0 where
  identity controller node group_controller : Service

-- google.golang.org/grpc: a server is its handle. The two ways to stop one, which may be nil, say when
-- they are over whether they panicked.
pub record Grpc (W : Type 0) : Type 0 where
  pub new_server : W → ℕ × W
  pub register : Service → ℕ → W → W
  pub graceful_stop : Option ℕ → W → Bool × W
  pub stop : Option ℕ → W → Bool × W

-- `nonBlockingGRPCServer`, with the counter of the wait group. What is nil is `none`.
pub record Server : Type 0 where
  pub wg : ℕ
  pub server : Option ℕ
  pub cleanup : Option Cleanup

-- `NewNonBlockingGRPCServer`
abbrev pub new_non_blocking_grpc_server : Server
new_non_blocking_grpc_server = record { wg = 0; server = none; cleanup = none }

-- Which of the four services are not nil.
pub record Services : Type 0 where
  pub ids : Bool
  pub cs : Bool
  pub ns : Bool
  pub gcs : Bool

-- Where the goroutine of `serve` stands: there is none, it has not listened yet, `Serve` runs with a
-- listener, `Serve` has returned.
pub data Goroutine : Type 0 where
  no_goroutine launched : Goroutine
  serving : (listener : ℕ) → Goroutine
  returned : Goroutine

-- `Start` adds to the wait group and starts the goroutine.
unfoldable pub start : Server → Server × Goroutine
start s = (record s { wg = suc s.wg }, launched)

-- How the part of `serve` before `Serve` ends: with a listener, by `glog.Fatalf`, which ends the
-- process, or by a panic.
pub data Opening : Type 0 where
  opened : Server → ℕ → Opening
  fatal crashed : Opening

module _ {W : Type 0} (net : Sockets W) (grpc : Grpc W) where
  register_if : Bool → Service → ℕ → W → W
  register_if b service server w = if b then grpc.register service server w else w

  register_all : Services → ℕ → W → W
  unfolding register_if
  register_all services server w = register_if services.gcs group_controller server (
      register_if services.ns node server
        (register_if services.cs controller server (register_if services.ids identity server w)))

  -- A new server with its services, once `endpoint.Listen` has a listener.
  set_up : Services → Server → Cleanup → OsError ⊎ ℕ → W → Opening × W
  unfolding register_all
  set_up services s cleanup (inl e) w = (fatal, w)
  set_up services s cleanup (inr listener) w =
      let (server, w') = grpc.new_server w in
      (
        opened (record s { server = some server; cleanup = some cleanup }) listener,
        register_all services server w',
      )

  opening : Services → Server → Result Listened → W → Opening × W
  unfolding set_up
  opening services s (ok l) w = set_up services s l.cleanup l.bound w
  opening services s (err e) w = (fatal, w)
  opening services s panicked w = (crashed, w)

  -- `serve`, up to the call of `Serve`
  unfoldable pub open_server : Services → String → Server → W → Opening × W
  unfolding opening
  open_server services endpoint s w = let (r, w') = listen net endpoint w in opening services s r w'

  -- `s.cleanup()`, a panic where it is nil
  run_cleanup : Option Cleanup → W → Result (Unit {0}) × W
  run_cleanup none w = (panicked, w)
  run_cleanup (some c) w = (ok tt, clean net c w)

  stop_by : (Option ℕ → W → Bool × W) → Server → W → Result (Unit {0}) × W
  unfolding run_cleanup
  stop_by halt s w =
      let (panics, w') = halt s.server w in
      if panics then (panicked, w') else run_cleanup s.cleanup w'

  -- `Stop`
  unfoldable pub stop : Server → W → Result (Unit {0}) × W
  unfolding stop_by
  stop = stop_by grpc.graceful_stop

  -- `ForceStop`
  unfoldable pub force_stop : Server → W → Result (Unit {0}) × W
  unfolding stop_by
  force_stop = stop_by grpc.stop
