-- ===== src/HostPath/Server/Process/Lifetime.antt =====
-- What holds as long as the process of a driver lives (pkg/hostpath/server.go, `Run` of
-- pkg/hostpath/hostpath.go).
use csi.Prelude.{
  ℕ, String, ◌≡◌, ◌≢◌, refl, ◌∙◌, subst, Bool, Option, none, some, ◌⊎◌, inl, inr, arith,
}
use csi.Exec.{Result, ok, err, panicked, OsError}
use csi.Endpoint.Listening.{Sockets, Cleanup, Listened, listen}
use csi.HostPath.Server.{
  Grpc, Server, Goroutine, no_goroutine, launched, serving, returned, start, Opening, opened, fatal,
  crashed, set_up, opening, open_server, run_cleanup, stop_by, stop, force_stop,
}
use csi.HostPath.Server.Process.{
  RunPhase, at_start, waiting, ran, Process, all_services, run_start, after_opening, serve,
  serve_return, after_stop, Step, starts, serves, returns, stops, force_stops, waits, passes, Reach,
  here, next,
}

module _ {W : Type 0} (net : Sockets W) (grpc : Grpc W) (endpoint : String) where
  -- The counter of the wait group, by where `Run` stands
  abbrev pub Counts : Server → RunPhase → Goroutine → Type 0
  Counts s at_start g = (s.wg ≡ 0) × (g ≡ no_goroutine)
  Counts s waiting g = s.wg ≡ 1
  Counts s ran g = ⊥

  -- Whether the server is there, by where `serve` stands
  abbrev pub Has : Server → Goroutine → Type 0
  Has s no_goroutine = (s.server ≡ none) × (s.cleanup ≡ none)
  Has s launched = (s.server ≡ none) × (s.cleanup ≡ none)
  Has s (serving _) = (n : ℕ) × (c : Cleanup) × (s.server ≡ some n) × (s.cleanup ≡ some c)
  Has s returned = (n : ℕ) × (c : Cleanup) × (s.server ≡ some n) × (s.cleanup ≡ some c)

  record Inv (p : Process W) : Type 0 where
    counts : Counts p.server p.main p.goroutine
    has : Has p.server p.goroutine

  -- What `serve` makes of the server before it calls `Serve`
  abbrev Readies : Server → Opening × W → Type 0
  Readies s (opened s' listener, w) = (s'.wg ≡ s.wg) × Has s' (serving listener)
  Readies s (fatal, w) = Unit
  Readies s (crashed, w) = Unit

  set_up-Readies :
      (s : Server) (c : Cleanup) (b : OsError ⊎ ℕ) (w : W)
      → Readies s (set_up net grpc all_services s c b w)
  unfolding set_up
  set_up-Readies s c (inl e) w = tt
  set_up-Readies s c (inr listener) w = (refl, ((grpc.new_server w).0, c, refl, refl))

  opening-Readies :
      (s : Server) (r : Result Listened) (w : W) → Readies s (opening net grpc all_services s r w)
  unfolding opening
  opening-Readies s (ok l) w = set_up-Readies s l.cleanup l.bound w
  opening-Readies s (err e) w = tt
  opening-Readies s panicked w = tt

  open_server-Readies :
      (s : Server) (w : W) → Readies s (open_server net grpc all_services endpoint s w)
  unfolding open_server
  open_server-Readies s w = let (r, w') = listen net endpoint w in opening-Readies s r w'

  start-Inv : {p : Process W} → p.main ≡ at_start → Inv p → Inv (run_start net grpc endpoint p)
  unfolding run_start start
  start-Inv m inv = ground arith

  Counts-later :
      (m : RunPhase) (s s' : Server) (g g' : Goroutine)
      → g ≢ no_goroutine
      → s'.wg ≡ s.wg
      → Counts s m g
      → Counts s' m g'
  Counts-later at_start s s' g g' n e h = absurd (n h.1)
  Counts-later waiting s s' g g' n e h = e ∙ h
  Counts-later ran s s' g g' n e h = h

  after-Inv :
      {p : Process W} (o : Opening × W)
      → p.goroutine ≡ launched
      → Readies p.server o
      → Inv p
      → Inv (after_opening net grpc endpoint p o)
  unfolding after_opening
  after-Inv {p} (opened s l, w) g h inv = record {
    counts = Counts-later p.main p.server s _ _ (λ e. ground arith) h.0 inv.counts;
    has = h.1;
  }
  after-Inv (fatal, w) g h inv = record { counts = inv.counts; has = inv.has }
  after-Inv (crashed, w) g h inv = record { counts = inv.counts; has = inv.has }

  stopped-Inv :
      {p : Process W} (o : Result (Unit {0}) × W) → Inv p → Inv (after_stop net grpc endpoint p o)
  unfolding after_stop
  stopped-Inv (ok _, w) inv = record { counts = inv.counts; has = inv.has }
  stopped-Inv (err e, w) inv = record { counts = inv.counts; has = inv.has }
  stopped-Inv (panicked, w) inv = record { counts = inv.counts; has = inv.has }

  step-Inv : {p q : Process W} → Step net grpc endpoint p q → Inv p → Inv q
  unfolding serve serve_return
  step-Inv (starts a m) inv = start-Inv m inv
  step-Inv {p} (serves a g) inv = after-Inv _ g (open_server-Readies p.server p.world) inv
  step-Inv {p} (returns l w a g) inv = record {
    counts = Counts-later p.main p.server p.server _ _ (λ e. ground arith) refl inv.counts;
    has = subst (Has p.server) g inv.has;
  }
  step-Inv (stops a) inv = stopped-Inv _ inv
  step-Inv (force_stops a) inv = stopped-Inv _ inv
  step-Inv (waits a m z) inv = ground arith
  step-Inv (passes w) inv = record { counts = inv.counts; has = inv.has }

  Reach-Inv : {v : W} {p : Process W} → Reach net grpc endpoint v p → Inv p
  Reach-Inv here = record { counts = (refl, refl); has = (refl, refl) }
  Reach-Inv (next r m) = step-Inv m (Reach-Inv r)

  -- A stop that comes before `serve` has set the cleanup
  stop-early :
      (halt : Option ℕ → W → Bool × W) (s : Server) (w : W)
      → s.cleanup ≡ none
      → (stop_by net grpc halt s w).0 ≡ panicked
  unfolding stop_by run_cleanup
  stop-early halt s w e = ground arith

  -- What `Run` and the two ways to stop come to, by where `serve` stands
  abbrev pub Stops : Server → Goroutine → Type 0
  Stops s (serving _) = (n : ℕ) × (c : Cleanup) × (s.server ≡ some n) × (s.cleanup ≡ some c)
  Stops s returned = (n : ℕ) × (c : Cleanup) × (s.server ≡ some n) × (s.cleanup ≡ some c)
  Stops s g =
      (w : W) → ((stop net grpc s w).0 ≡ panicked) × ((force_stop net grpc s w).0 ≡ panicked)

  Has-Stops : (s : Server) (g : Goroutine) → Has s g → Stops s g
  unfolding stop force_stop
  Has-Stops s no_goroutine h =
      λ w. (stop-early grpc.graceful_stop s w h.1, stop-early grpc.stop s w h.1)
  Has-Stops s launched h =
      λ w. (stop-early grpc.graceful_stop s w h.1, stop-early grpc.stop s w h.1)
  Has-Stops s (serving _) h = h
  Has-Stops s returned h = h

  Counts-endless :
      (s : Server) (m : RunPhase) (g : Goroutine)
      → Counts s m g
      → (m ≢ ran) × (m ≡ waiting → s.wg ≡ 1)
  Counts-endless s at_start g h = (λ e. cc, λ e. cc)
  Counts-endless s waiting g h = (λ e. cc, λ e. h)
  Counts-endless s ran g h = absurd h

  -- At every moment of a driver's process Run has not returned, also after Serve has, and while
  -- Run waits the wait group counts one. Until serve has set up the server, Stop and ForceStop
  -- panic, if not in grpc then after it; from then on neither the server nor the cleanup is nil.
  pub run-endless :
      (v : W) (p : Process W)
      → Reach net grpc endpoint v p
      → (p.main ≢ ran) × (p.main ≡ waiting → p.server.wg ≡ 1) × Stops p.server p.goroutine
  run-endless v p r =
      let inv = Reach-Inv r in
      let (endless, counted) = Counts-endless p.server p.main p.goroutine inv.counts in
      (endless, counted, Has-Stops p.server p.goroutine inv.has)
