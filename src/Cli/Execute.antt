-- ===== src/Cli/Execute.antt =====
-- How a command is executed (src/effectprobe/_cli.py, _render, _build_report and _execute).
pub mod Preflight
pub mod Runs
use effect_probe.Prelude.{String, List, [], ◌∷◌}
use effect_probe.Exception.{M, pure, raise, ◌>>=◌, ◌>>◌, is_exception}
use effect_probe.Exception.Catch.{catch}
use effect_probe.Cli.{
  FailureCategory, cli_failure, ReportFormat, Command, run_command, report_command, replay_command,
  Services, Host, require_artifact_path, preflight_destination, require_distinct,
  preflight_report_output,
}
use effect_probe.Cli.Output.{emit}

module _ {W : Type 0} where
  -- `except Exception as error: raise _CliFailure(category) from error`
  abbrev or_failure : {A : Type 0} → FailureCategory → M W A → M W A
  or_failure category body = catch is_exception (λ e. raise (cli_failure category)) body

module _ {W R : Type 0} where
  abbrev rendering : Services W R → ReportFormat → R → M W String
  rendering services ReportFormat.terminal r = services.render_terminal r
  rendering services ReportFormat.json r = services.render_json r
  rendering services ReportFormat.junit r = services.render_junit r

  -- `_render`
  unfoldable pub render : R → ReportFormat → Services W R → M W String
  render r wanted services = or_failure FailureCategory.report (rendering services wanted r)

  -- `_build_report`
  unfoldable pub build : String → Services W R → M W R
  build path services = or_failure FailureCategory.report (services.build_report path)

  -- What all commands end with.
  unfoldable pub report_on : Host W → Services W R → String → ReportFormat → String → M W Unit
  report_on host services artifact wanted destination = do
    r ← build artifact services
    rendered ← render r wanted services
    emit host rendered destination

  -- `_execute`
  unfoldable pub execute : Host W → Services W R → Command → M W Unit
  execute host services (run_command mode artifact wanted destination) = do
    preflight_destination host artifact
    preflight_report_output host destination (artifact ∷ [])
    or_failure FailureCategory.run (services.record_evidence mode artifact)
    report_on host services artifact wanted destination
  execute host services (report_command artifact wanted destination) = do
    require_artifact_path artifact
    preflight_report_output host destination (artifact ∷ [])
    report_on host services artifact wanted destination
  execute host services (replay_command source artifact wanted destination) = do
    require_artifact_path source
    require_distinct host (source ∷ artifact ∷ [])
    preflight_destination host artifact
    preflight_report_output host destination (source ∷ artifact ∷ [])
    or_failure FailureCategory.replay (services.replay_evidence source artifact)
    report_on host services artifact wanted destination
