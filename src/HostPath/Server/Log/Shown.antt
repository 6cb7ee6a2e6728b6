-- ===== src/HostPath/Server/Log/Shown.antt =====
-- What `logGRPC` of pkg/hostpath/server.go shows of a call, and that it changes nothing.
use csi.Prelude.{
  ℕ, String, ◌≡◌, Bool, true, false, Option, none, some, List, [], ◌∷◌, ◌++◌, ◌==◌, leb,
  if◌then◌else◌,
}
use csi.Exec.{Error}
use csi.HostPath.Server.Log.{
  LogMessage, Line, grpc_call, grpc_request, grpc_error, grpc_response, grpc_json, lines_before,
  lines_after,
}

-- The error that a handler returned
abbrev pub error_of : {Resp : Type 0} → Option (Resp × Option Error) → List Error
error_of none = []
error_of (some (resp, none)) = []
error_of (some (resp, some e)) = e ∷ []

module _ {Req Resp : Type 0} where
  -- Lines that show a request or a response
  abbrev pub shows_content : List (Line Req Resp) → Bool
  shows_content [] = false
  shows_content (grpc_call m ∷ ls) = shows_content ls
  shows_content (grpc_error e ∷ ls) = shows_content ls
  shows_content (grpc_request r ∷ ls) = true
  shows_content (grpc_response r ∷ ls) = true
  shows_content (grpc_json t ∷ ls) = true

  abbrev pub methods_of : List (Line Req Resp) → List String
  methods_of [] = []
  methods_of (grpc_call m ∷ ls) = m ∷ methods_of ls
  methods_of (grpc_error e ∷ ls) = methods_of ls
  methods_of (grpc_request r ∷ ls) = methods_of ls
  methods_of (grpc_response r ∷ ls) = methods_of ls
  methods_of (grpc_json t ∷ ls) = methods_of ls

  abbrev pub errors_of : List (Line Req Resp) → List Error
  errors_of [] = []
  errors_of (grpc_call m ∷ ls) = errors_of ls
  errors_of (grpc_error e ∷ ls) = e ∷ errors_of ls
  errors_of (grpc_request r ∷ ls) = errors_of ls
  errors_of (grpc_response r ∷ ls) = errors_of ls
  errors_of (grpc_json t ∷ ls) = errors_of ls

  module _ (marshal : LogMessage Req Resp → Option String) (verbosity : ℕ) (method : String) where
    lines : Req → Option (Resp × Option Error) → List (Line Req Resp)
    lines req r =
        lines_before marshal verbosity method req ++ lines_after marshal verbosity method req r

    -- The lines, by what the handler answered
    abbrev Shows : Req → Option (Resp × Option Error) → Type 0
    Shows req r =
        (shows_content (lines req r) ≡ leb 5 verbosity)
        × (errors_of (lines req r) ≡ error_of r)
        × (methods_of (lines req r) ≡ (
            if leb (if method == "/csi.v1.Identity/Probe" then 5 else 3) verbosity
            then method ∷ []
            else []))
