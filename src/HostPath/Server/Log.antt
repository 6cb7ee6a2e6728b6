-- ===== src/HostPath/Server/Log.antt =====
-- `logGRPC` and `logGRPCJson` of pkg/hostpath/server.go.
pub mod Shown
use csi.Prelude.{
  ℕ, ◌≤◌, String, ◌≡◌, ◌≢◌, ◌↔◌, refl, Bool, true, false, Option, none, some, List, [], ◌∷◌, ◌++◌,
  ◌==◌, leb, if◌then◌else◌, arith, Bool-cases, ◌&&◌, not, inl, inr,
}
use csi.Exec.{Error}

-- `glog.V(level)`
verbose : (verbosity level : ℕ) → Bool
verbose verbosity level = leb level verbosity

-- Probes are frequent, so they are logged at a higher level.
unfoldable pub priority : String → ℕ
priority method = if method == "/csi.v1.Identity/Probe" then 5 else 3

module _ (Req Resp : Type 0) where
  -- `logMessage`. Its field Error is the text of FullError.
  pub record LogMessage : Type 0 where
    pub method : String
    pub request : Req
    pub response : Resp
    pub full_error : Option Error

  -- A line of the log. Requests and responses have their secrets
  -- stripped, but in the last kind of line, which has the text of a message, if `json.Marshal` gave one.
  pub data Line : Type 0 where
    grpc_call : (method : String) → Line
    grpc_request : Req → Line
    grpc_error : Error → Line
    grpc_response : Resp → Line
    grpc_json : Option String → Line

module _ {Req Resp : Type 0} where
  log_if : Bool → Line Req Resp → List (Line Req Resp)
  log_if b line = if b then line ∷ [] else []

  log_error : Option Error → List (Line Req Resp)
  log_error none = []
  log_error (some e) = grpc_error e ∷ []

  module _ (marshal : LogMessage Req Resp → Option String) (verbosity : ℕ) where
    -- `logGRPCJson`
    log_grpc_json : String → Req → Resp → Option Error → List (Line Req Resp)
    unfolding log_if verbose priority
    log_grpc_json method request reply e =
        let message : LogMessage Req Resp = record {
          method = method;
          request = request;
          response = reply;
          full_error = e;
        } in
        log_if (verbose verbosity 5) (grpc_json (marshal message))

    lines_before : String → Req → List (Line Req Resp)
    unfolding log_if verbose priority
    lines_before method req =
        log_if (verbose verbosity (priority method)) (grpc_call method)
        ++ log_if (verbose verbosity 5) (grpc_request req)

    -- After a panic of the handler nothing more is logged.
    lines_after : String → Req → Option (Resp × Option Error) → List (Line Req Resp)
    unfolding log_grpc_json log_error verbose
    lines_after method req none = []
    lines_after method req (some (resp, e)) =
        log_error e
        ++ (if verbose verbosity 5
            then grpc_response resp ∷ log_grpc_json method req resp e
            else [])

    -- `logGRPC`: what the handler answers, unless it panics, and the lines of the log
    unfoldable pub log_grpc :
        {W : Type 0}
        → String
        → (Req → W → Option (Resp × Option Error) × W)
        → Req
        → W
        → Option (Resp × Option Error) × List (Line Req Resp) × W
    unfolding lines_before lines_after
    log_grpc method handler req w =
        let (r, w') = handler req w in (r, lines_before method req ++ lines_after method req r, w')
