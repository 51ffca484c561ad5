-- ===== src/Agent.antt =====
-- cmd/kernlet-agent and internal/guestproto: requests of the host and their responses.
pub mod Answer
pub mod Bundles
pub mod Status
pub mod Interfaces
pub mod NetworkCheck
pub mod Connection
pub mod Tidy
pub mod Serve
pub mod Identity
pub mod Main
mod Tests
use kernlet.Common.{
  ℕ, List, [], ◌∷◌, Bytes, codes, Bool, true, false, Option, none, some, Error, fault, wrap,
  join as join_errors, Result, ok, err, equal, if◌then◌else◌,
}
use kernlet.Sys.{Os, Io, pure, attempt, ◌>>=◌}
use kernlet.Oci.Image.{Bundle, Codecs}
use kernlet.Oci.Prepare.{prepare}
use kernlet.Oci.Bundle.{close}
use kernlet.Runtime.Config.{Config, Limits}
use kernlet.Runtime.Run.{Outcome, outcome_of, run}

pub record Request : Type 0 where
  pub id : ℕ
  pub method : Bytes
  pub args : List Bytes
  pub hostname : Bytes
  pub image : Bytes
  pub memory_max : ℕ
  pub pids_max : ℕ
  pub cpu_quota : ℕ
  pub cpu_period : ℕ

-- `error` is the text of an error, or the empty string.
pub record Response : Type 0 where
  pub id : ℕ
  pub success : Bool
  pub message : Bytes
  pub error : Option Error

-- `if len(request.Args) > 0 { command = request.Args }`
abbrev pub command_or : List Bytes → List Bytes → List Bytes
command_or command [] = command
command_or command (arg ∷ args) = arg ∷ args

pub run_config : Request → Bundle → Config
run_config request bundle = record {
  command = command_or bundle.command request.args;
  environment = bundle.environment;
  working_dir = bundle.working_dir;
  hostname = request.hostname;
  rootfs = bundle.rootfs;
  uid = bundle.uid;
  gid = bundle.gid;
  limits = record {
    memory_max = request.memory_max;
    pids_max = request.pids_max;
    cpu_quota = request.cpu_quota;
    cpu_period = request.cpu_period;
  };
}

abbrev pub failure : ℕ → Bytes → Error → Response
failure id message e = record { id = id; success = false; message = message; error = some e }

-- The response to a run, from `runErr` and `cleanupErr`.
abbrev pub run_response : ℕ → Bytes → Option Error → Result (Unit {0}) → Response
run_response id output (some e) (ok _) = failure id output e
run_response id output (some e) (err c) =
    failure id output (join_errors e (wrap "remove image bundle" c))
run_response id output none (err c) = failure id output (wrap "remove image bundle" c)
run_response id output none (ok _) = record {
  id = id;
  success = true;
  message = output;
  error = none;
}

module _ (os : Os) (codecs : Codecs) (order : List (Bytes × Bytes) → List (Bytes × Bytes))
    (sequence : ℕ) where
  -- The bundle is closed whether the run succeeds or fails.
  run_bundle : Request → Result Bundle → Io Response
  run_bundle request (err e) = pure (failure request.id [] (wrap "prepare image" e))
  run_bundle request (ok bundle) = do
    result ← attempt (run os order sequence (run_config request bundle))
    closed ← attempt (close os (some bundle))
    pure (run_response request.id (outcome_of result).output (outcome_of result).error closed)

  handle_run : Request → Io Response
  handle_run request = do
    prepared ← attempt (prepare os codecs request.image)
    run_bundle request prepared

  -- `order` and `sequence` are those of Run.
  pub handle_request : Request → Io Response
  handle_request request =
      if equal request.method (codes "ping")
      then pure (record { id = request.id; success = true; message = codes "pong"; error = none })
      else if equal request.method (codes "run")
      then handle_run request
      else pure (failure request.id [] (fault "unknown method"))
