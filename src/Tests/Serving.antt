-- ===== src/Tests/Serving.antt =====
-- The process of a driver, and the log of a call, on concrete inputs.
use csi.Prelude.{String, ◌≡◌, ◌≢◌, refl, false, Option, some, []}
use csi.Exec.{Error, formatted}
use csi.HostPath.Server.{Grpc, Goroutine, open_server}
use csi.HostPath.Server.Process.{
  Process, waiting, ran, begin, run_start, serve, serve_return, Step as Progress, Reach as Comes,
}
use csi.Endpoint.{parse}
use csi.Prelude.Cut.{has_lower_prefix}
use csi.Endpoint.Listening.{listen}
use csi.Prelude.{String-discrete}
use csi.HostPath.Server.Process.Lifetime.{Stops, run-endless}
use csi.HostPath.Server.Log.{LogMessage}
use csi.Tests.Sockets.{Table, sockets}

abbrev grpc : Grpc Table
grpc = record {
  new_server = λ w. (0, w);
  register = λ service server w. w;
  graceful_stop = λ server w. (false, w);
  stop = λ server w. (false, w);
}

-- A driver whose `Serve` has returned: `Run` still waits.
abbrev begun : Process Table
begun = begin sockets grpc "/csi.sock" []

abbrev set : Process Table
set = serve sockets grpc "/csi.sock" (run_start sockets grpc "/csi.sock" begun)

set-serving : set.goroutine ≡ Goroutine.serving 1
unfolding serve run_start open_server listen parse String-discrete has_lower_prefix
set-serving = refl

over : Comes sockets grpc "/csi.sock" [] (serve_return sockets grpc "/csi.sock" [] set)
unfolding serve run_start open_server listen parse String-discrete has_lower_prefix
over =
    Comes.next
      (Comes.next (Comes.next Comes.here (Progress.starts refl refl)) (Progress.serves refl refl))
      (Progress.returns 1 [] refl set-serving)

run-endless_example :
    let p = serve_return sockets grpc "/csi.sock" [] set in
    (p.main ≢ ran)
    × (p.main ≡ waiting → p.server.wg ≡ 1)
    × Stops sockets grpc "/csi.sock" p.server p.goroutine
run-endless_example = run-endless sockets grpc "/csi.sock" [] _ over

abbrev marshal : LogMessage String String → Option String
marshal m = some m.method

abbrev get_info : String → Table → Option (String × Option Error) × Table
get_info req w = (some ("node-1", some formatted), w)
