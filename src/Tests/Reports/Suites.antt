-- ===== src/Tests/Reports/Suites.antt =====
-- The theorems on the JUnit report, at the report of the small artifact.
use effect_probe.Prelude.{◌+◌, ◌<◌, ◌≡◌, ◌↔◌, map, length, arith, ◌⊎◌}
use effect_probe.Report.{ReportVerdict}
use effect_probe.Report.Junit.{junit_cases, count_verdict, case_element}
use effect_probe.Report.Junit.Cases.{
  Has, Undeclared, holding, junit_cases-Has, case_element-accounts,
}
use effect_probe.Tests.Reports.Builds.{build_runs}

junit_cases-Has_example : (0 < count_verdict ReportVerdict.fail (junit_cases build_runs.0)) ↔ (
    Has ReportVerdict.fail build_runs.0.clean_validity
    ⊎ (Has ReportVerdict.fail build_runs.0.retry_safety
        ⊎ ((ReportVerdict.fail ≡ ReportVerdict.inconclusive)
            × Undeclared build_runs.0.clean_validity)))
junit_cases-Has_example = junit_cases-Has build_runs.0 ReportVerdict.fail (ground arith)

case_element-accounts_example :
    (holding "failure" (map case_element (junit_cases build_runs.0))
      ≡ count_verdict ReportVerdict.fail (junit_cases build_runs.0))
    × (holding "error" (map case_element (junit_cases build_runs.0))
        ≡ count_verdict ReportVerdict.error (junit_cases build_runs.0))
    × (holding "skipped" (map case_element (junit_cases build_runs.0))
        ≡ count_verdict ReportVerdict.inconclusive (junit_cases build_runs.0))
    × (length (junit_cases build_runs.0)
        ≡ count_verdict ReportVerdict.pass (junit_cases build_runs.0)
          + count_verdict ReportVerdict.fail (junit_cases build_runs.0)
          + count_verdict ReportVerdict.error (junit_cases build_runs.0)
          + count_verdict ReportVerdict.inconclusive (junit_cases build_runs.0))
case_element-accounts_example = case_element-accounts (junit_cases build_runs.0)
