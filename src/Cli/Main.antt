-- ===== src/Cli/Main.antt =====
-- `main` of src/effectprobe/_cli.py. What `_parser().parse_args` does is a parameter; the streams
-- are those of the host, to which the redirection sends what the services print.
pub mod Status
use effect_probe.Prelude.{
  ℕ, String, Bool, ◌||◌, ◌&&◌, not, List, [], ◌∷◌, str_eq, format, if◌then◌else◌,
}
use effect_probe.Exception.{
  Exc, Outcome, value, raised, M, pure, ◌>>=◌, ◌>>◌, type_name, text_of, is_exception,
}
use effect_probe.Exception.Catch.{catch}
use effect_probe.Store.{Mode}
use effect_probe.Artifact.Objects.{member}
use effect_probe.Cli.{
  ReportFormat, Command, run_command, report_command, replay_command, Services, Host,
  unicode_errors, is_os_error, is_cli_failure,
}
use effect_probe.Cli.Execute.{execute}

-- The values that the parser gives, and the end that it may make with an exit status.
pub record Values : Type 0 where
  pub command : String
  pub mode : Mode
  pub source : String
  pub artifact : String
  pub report_format : ReportFormat
  pub destination : String

pub data Parsed : Type 0 where
  parsed : Values → Parsed
  exited : ℕ → Parsed

-- `_parse`, after the parser.
unfoldable pub command_of : Values → Command
command_of v =
    if str_eq v.command "run"
    then run_command v.mode v.artifact v.report_format v.destination
    else if str_eq v.command "report"
    then report_command v.artifact v.report_format v.destination
    else replay_command v.source v.artifact v.report_format v.destination

module _ {W : Type 0} (host : Host W) where
  -- `_diagnostic`
  unfoldable pub diagnostic : String → M W Unit
  diagnostic message =
      catch (λ e. is_os_error e || member (type_name e) unicode_errors) (λ e. pure tt)
        (host.write_stderr (format ("effectprobe: " ∷ message ∷ "\n" ∷ [])) >> host.flush_stderr)

  -- The `except` clauses of `main`: the status of an exception.
  unfoldable pub status_of : Exc → M W ℕ
  status_of e =
      if is_cli_failure e
      then diagnostic (format (text_of e ∷ " failed" ∷ [])) >> pure 1
      else if is_exception e
      then diagnostic "internal failure" >> pure 1
      else diagnostic "interrupted" >> pure 130

-- What the `except` clauses catch.
abbrev pub is_caught : Exc → Bool
is_caught e = is_exception e || str_eq (type_name e) "KeyboardInterrupt"

module _ {W R : Type 0} (host : Host W) (services : Services W R)
    (parse_args : List String → M W Parsed) where
  abbrev pub perform : Parsed → M W ℕ
  perform (exited code) = pure code
  perform (parsed values) = execute host services (command_of values) >> pure 0

  unfoldable pub main : List String → M W ℕ
  main argv = catch is_caught (status_of host) (parse_args argv >>= perform)
