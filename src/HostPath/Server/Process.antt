-- ===== src/HostPath/Server/Process.antt =====
-- The process of a driver: the goroutine of `Run` (pkg/hostpath/hostpath.go), which starts a server and
-- waits for it, that of `serve` (pkg/hostpath/server.go), and whoever stops the server.
pub mod Lifetime
use csi.Prelude.{
  ℕ, String, ◌≡◌, ◌≢◌, refl, ◌∙◌, subst, Bool, true, false, Option, none, some, ◌⊎◌, inl, inr,
  arith, Bool-cases,
}
use csi.Exec.{Result, ok, err, panicked, OsError}
use csi.Endpoint.Listening.{Sockets, Cleanup, Listened, listen}
use csi.HostPath.Server.{
  Grpc, Server, new_non_blocking_grpc_server, Services, Goroutine, no_goroutine, launched, serving,
  returned, start, Opening, opened, fatal, crashed, set_up, opening, open_server, run_cleanup,
  stop_by, stop, force_stop,
}

-- Where `Run` stands: before `Start`, in `Wait`, past it.
pub data RunPhase : Type 0 where
  at_start waiting ran : RunPhase

pub record Process (W : Type 0) : Type 0 where
  pub alive : Bool
  pub main : RunPhase
  pub server : Server
  pub goroutine : Goroutine
  pub world : W

-- `hp` is all four services.
abbrev pub all_services : Services
all_services = record { ids = true; cs = true; ns = true; gcs = true }

module _ {W : Type 0} (net : Sockets W) (grpc : Grpc W) (endpoint : String) where
  abbrev pub begin : W → Process W
  begin w = record {
    alive = true;
    main = at_start;
    server = new_non_blocking_grpc_server;
    goroutine = no_goroutine;
    world = w;
  }

  -- `s.Start(…)`
  unfoldable pub run_start : Process W → Process W
  unfolding start
  run_start p = record p {
    main = waiting;
    server = (start p.server).0;
    goroutine = (start p.server).1;
  }

  -- What `serve` comes to before `Serve`
  after_opening : Process W → Opening × W → Process W
  after_opening p (opened s listener, w) = record p {
    server = s;
    goroutine = serving listener;
    world = w;
  }
  after_opening p (fatal, w) = record p { alive = false; world = w }
  after_opening p (crashed, w) = record p { alive = false; world = w }

  unfoldable pub serve : Process W → Process W
  unfolding after_opening
  serve p = after_opening p (open_server net grpc all_services endpoint p.server p.world)

  -- `Serve` has returned, and `serve` with it.
  unfoldable pub serve_return : W → Process W → Process W
  serve_return w p = record p { goroutine = returned; world = w }

  pub after_stop : Process W → Result (Unit {0}) × W → Process W
  after_stop p (ok _, w) = record p { world = w }
  after_stop p (err e, w) = record p { world = w }
  after_stop p (panicked, w) = record p { alive = false; world = w }

  -- A step of some goroutine. `Wait` returns once the counter is zero, and everything else may change
  -- the world at any time.
  pub data Step (p : Process W) : Process W → Type 0 where
    starts : p.alive ≡ true → p.main ≡ at_start → Step p (run_start p)
    serves : p.alive ≡ true → p.goroutine ≡ launched → Step p (serve p)
    returns :
        (listener : ℕ) (w : W)
        → p.alive ≡ true
        → p.goroutine ≡ serving listener
        → Step p (serve_return w p)
    stops : p.alive ≡ true → Step p (after_stop p (stop net grpc p.server p.world))
    force_stops : p.alive ≡ true → Step p (after_stop p (force_stop net grpc p.server p.world))
    waits : p.alive ≡ true → p.main ≡ waiting → p.server.wg ≡ 0 → Step p (record p { main = ran })
    passes : (w : W) → Step p (record p { world = w })

  pub data Reach (v : W) : Process W → Type 0 where
    here : Reach v (begin v)
    next : {p q : Process W} → Reach v p → Step p q → Reach v q
