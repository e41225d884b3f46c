-- ===== src/Cli.antt =====
-- The command line of src/effectprobe/_cli.py: its commands, and the checks of their paths. The
-- world is the state; what the operating system does to it is a parameter.
pub mod Output
pub mod Execute
pub mod Main
use effect_probe.Prelude.{
  ℕ, String, Bool, List, [], ◌∷◌, map, length, ◌==◌, not, str_eq, if◌then◌else◌,
}
use effect_probe.Exception.{
  Exc, other, Outcome, value, raised, M, pure, raise, ◌>>=◌, ◌>>◌, type_name, is_exception,
}
use effect_probe.Exception.Catch.{catch}
use effect_probe.Store.{Mode}
use effect_probe.Artifact.Objects.{member}
use effect_probe.Report.Checks.{distinct}

pub data FailureCategory : Type 0 where
  run report replay output : FailureCategory

abbrev category_text : FailureCategory → String
category_text FailureCategory.run = "run"
category_text FailureCategory.report = "report"
category_text FailureCategory.replay = "replay"
category_text FailureCategory.output = "output"

-- `_CliFailure(category)`
abbrev pub cli_failure : FailureCategory → Exc
cli_failure category = other (record { type_name = "_CliFailure"; text = category_text category })

pub data ReportFormat : Type 0 where
  terminal json junit : ReportFormat

pub data Command : Type 0 where
  run_command : Mode → String → ReportFormat → String → Command
  report_command : String → ReportFormat → String → Command
  replay_command : String → String → ReportFormat → String → Command

-- The functions that a command calls; `W` is the world, and `R` the type of reports.
pub record Services (W R : Type 0) : Type 0 where
  pub record_evidence : Mode → String → M W Unit
  pub replay_evidence : String → String → M W Unit
  pub build_report : String → M W R
  pub render_terminal : R → M W String
  pub render_json : R → M W String
  pub render_junit : R → M W String

-- The calls of the operating system. `lstat` says whether a path names a directory.
pub record Host (W : Type 0) : Type 0 where
  pub lstat : String → M W Bool
  pub abspath : String → M W String
  pub parent : String → String
  pub file_name : String → String
  pub encode : String → Outcome (List ℕ)
  pub mkstemp : String → String → M W (ℕ × String)
  pub fchmod : ℕ → M W Unit
  pub write : ℕ → List ℕ → M W ℕ
  pub fsync : ℕ → M W Unit
  pub close : ℕ → M W Unit
  pub link : String → String → M W Unit
  pub open_directory : String → M W ℕ
  pub unlink : String → M W Unit
  pub write_stdout : String → M W Unit
  pub flush_stdout : M W Unit
  pub write_stderr : String → M W Unit
  pub flush_stderr : M W Unit

-- The classes that `except OSError` and `except UnicodeError` catch.
abbrev os_errors : List String
os_errors =
    "OSError" ∷ "BlockingIOError" ∷ "ChildProcessError" ∷ "ConnectionError" ∷ "BrokenPipeError"
    ∷ "ConnectionAbortedError" ∷ "ConnectionRefusedError" ∷ "ConnectionResetError"
    ∷ "FileExistsError" ∷ "FileNotFoundError" ∷ "InterruptedError" ∷ "IsADirectoryError"
    ∷ "NotADirectoryError" ∷ "PermissionError" ∷ "ProcessLookupError" ∷ "TimeoutError"
    ∷ "UnsupportedOperation" ∷ []

abbrev pub unicode_errors : List String
unicode_errors =
    "UnicodeError" ∷ "UnicodeEncodeError" ∷ "UnicodeDecodeError" ∷ "UnicodeTranslateError" ∷ []

abbrev pub is_os_error : Exc → Bool
is_os_error e = member (type_name e) os_errors

abbrev pub is_cli_failure : Exc → Bool
is_cli_failure e = str_eq (type_name e) "_CliFailure"

module _ {W : Type 0} where
  -- `except OSError as error: raise _CliFailure("output") from error`
  abbrev pub or_output_failure : {A : Type 0} → M W A → M W A
  or_output_failure body = catch is_os_error (λ e. raise (cli_failure FailureCategory.output)) body

  -- `_require_artifact_path`
  unfoldable pub require_artifact_path : String → M W Unit
  require_artifact_path path =
      if str_eq path "-" then raise (cli_failure FailureCategory.output) else pure tt

module _ {W : Type 0} (host : Host W) where
  -- The `lstat` of a destination: it has to raise `FileNotFoundError`.
  abbrev pub absent : Outcome Bool × W → Outcome Unit × W
  absent (value status, w) = (raised (cli_failure FailureCategory.output), w)
  absent (raised e, w) =
      if str_eq (type_name e) "FileNotFoundError"
      then (value tt, w)
      else if is_os_error e
      then (raised (cli_failure FailureCategory.output), w)
      else (raised e, w)

  unfoldable pub require_absent : String → M W Unit
  require_absent path w = absent (host.lstat path w)

  -- `_preflight_destination`
  unfoldable pub preflight_destination : String → M W Unit
  preflight_destination path = do
    require_artifact_path path
    require_absent path
    is_directory ← or_output_failure (host.lstat (host.parent path))
    if not is_directory then raise (cli_failure FailureCategory.output) else pure tt

  unfoldable pub path_keys : List String → M W (List String)
  path_keys [] = pure []
  path_keys (path ∷ paths) = do key ← host.abspath path; keys ← path_keys paths; pure (key ∷ keys)

  -- `_require_distinct`
  unfoldable pub require_distinct : List String → M W Unit
  require_distinct paths = do
    keys ← path_keys paths
    if not (length (distinct keys) == length keys)
        then raise (cli_failure FailureCategory.output)
        else pure tt

  -- `_preflight_report_output`
  unfoldable pub preflight_report_output : String → List String → M W Unit
  preflight_report_output destination others =
      let checks = require_distinct (destination ∷ others) >> preflight_destination destination in
      if str_eq destination "-" then pure tt else checks
