-- ===== src/Report/Lines.antt =====
-- The lines of the terminal report (src/effectprobe/_mcp_reports.py, _axis_statement and
-- render_terminal_report).

use effect_probe.Prelude.{
  ℕ, String, Bool, List, [], ◌∷◌, ◌++◌, map, Option, some, none, format, decimal, str_eq,
  if◌then◌else◌,
}
use effect_probe.Prelude.Int.{ℤ}
use effect_probe.Artifact.Objects.{join}
use effect_probe.Report.{
  ReportAxisName, ReportComponent, ReportDistribution, ReportNamedContract, ReportInvariant,
  ReportAxis, ReportTrial, McpReport,
}
use effect_probe.Report.Encode.{verdict_text, mode_text}
use effect_probe.Report.Statements.{axis_statement, decimal_ℤ, name_text}

-- `value or 'none'`
abbrev or_none : Option String → String
or_none none = "none"
or_none (some s) = if str_eq s "" then "none" else s

-- `str(b)`, and `str(b).lower()`.
abbrev capital_bool : Bool → String
capital_bool b = if b then "True" else "False"

abbrev small_bool : Bool → String
small_bool b = if b then "true" else "false"

abbrev reproduced : Option Bool → String
reproduced none = "not_applicable"
reproduced (some b) = capital_bool b

abbrev ordinal_text : Option ℕ → String
ordinal_text none = "None"
ordinal_text (some n) = decimal n

abbrev line : List String → String
line parts = format parts

abbrev fault_text : ReportTrial → Option String → String
fault_text t none = ""
fault_text t (some boundary) = format (
    "; fault_boundary="
    ∷ boundary
    ∷ "; reached="
    ∷ small_bool t.fault_reached
    ∷ "; injected_attempt_ordinal="
    ∷ ordinal_text t.injected_attempt_ordinal
    ∷ [])

abbrev trial_line : ReportTrial → String
trial_line t = line (
    "  trial: "
    ∷ t.trial_id
    ∷ "; history_delta_count="
    ∷ decimal t.history_delta_count
    ∷ "; attempts="
    ∷ decimal t.attempt_count
    ∷ "; transport_deliveries="
    ∷ decimal t.transport_delivery_count
    ∷ "; cleanup="
    ∷ t.cleanup_status
    ∷ fault_text t t.fault_boundary
    ∷ [])

abbrev contract_names : List ReportNamedContract → String
contract_names contracts = join ", " (map (λ (c : ReportNamedContract). c.name) contracts)

abbrev invariant_lines : ReportAxisName → ReportAxis → List String
invariant_lines name axis =
    map
      (λ (i : ReportInvariant). line (
        "    "
        ∷ name_text name
        ∷ "."
        ∷ i.name
        ∷ ": "
        ∷ verdict_text i.verdict
        ∷ " — "
        ∷ i.explanation
        ∷ []))
      axis.invariants

abbrev header_lines : McpReport → List String
header_lines r =
    "EffectProbe controlled MCP report (private report v1)"
    ∷ ""
    ∷ "Source"
    ∷ line ("  artifact_sha256: " ∷ r.source_sha256 ∷ [])
    ∷ line ("  size_bytes: " ∷ decimal r.source_size_bytes ∷ [])
    ∷ line ("  lineage: " ∷ r.lineage ∷ [])
    ∷ line ("  source_artifact_sha256: " ∷ or_none r.source_artifact_sha256 ∷ [])
    ∷ line ("  reproduction_matched: " ∷ reproduced r.reproduction_matched ∷ [])
    ∷ ""
    ∷ []

abbrev scope_lines : McpReport → List String
scope_lines r =
    "Scope"
    ∷ line ("  subject: " ∷ r.scope.subject_name ∷ [])
    ∷ line ("  mode: " ∷ mode_text r.scope.mode ∷ [])
    ∷ line ("  input.payment_id: " ∷ r.scope.payment_id ∷ [])
    ∷ line ("  input.amount_minor_units: " ∷ decimal_ℤ r.scope.amount_minor_units ∷ [])
    ∷ line ("  logical_operation_id: " ∷ r.scope.logical_operation_id ∷ [])
    ∷ line ("  operation_key: " ∷ or_none r.scope.operation_key ∷ [])
    ∷ line ("  schedule: " ∷ r.scope.schedule ∷ [])
    ∷ line (
        "  observer: " ∷ r.scope.observer.surface ∷ " (" ∷ r.scope.observer.provenance ∷ "; "
        ∷ r.scope.observer.observation_interval ∷ ")" ∷ [])
    ∷ line (
        "  fixture: "
        ∷ r.scope.contract.fixture_id
        ∷ "@"
        ∷ decimal_ℤ r.scope.contract.fixture_version
        ∷ [])
    ∷ line ("  clean_assertions: " ∷ contract_names r.scope.contract.clean_assertions ∷ [])
    ∷ line ("  retry_invariants: " ∷ contract_names r.scope.contract.retry_invariants ∷ [])
    ∷ ""
    ∷ []

abbrev versioned : String → ℤ → String
versioned name version = format (name ∷ "@" ∷ decimal_ℤ version ∷ [])

abbrev component_lines : String → List ReportComponent → List String
component_lines label components =
    map (λ (c : ReportComponent). line ("  " ∷ label ∷ ": " ∷ c.path ∷ " sha256=" ∷ c.sha256 ∷ []))
      components

abbrev compatibility_lines : McpReport → List String
compatibility_lines r =
    let c = r.compatibility in
    ("Compatibility"
      ∷ line
          ("  evidence_schema: " ∷ versioned c.evidence_schema_name c.evidence_schema_version ∷ [])
      ∷ line ("  producer: " ∷ versioned c.producer_id c.producer_version ∷ [])
      ∷ line ("  case: " ∷ versioned c.case_registry_id c.case_version ∷ [])
      ∷ line ("  dependency_lock_sha256: " ∷ c.dependency_lock_sha256 ∷ [])
      ∷ [])
    ++ (component_lines "subject_component" c.subject_components
        ++ (component_lines "runner_component" c.runner_components
            ++ (map
                  (λ (d : ReportDistribution).
                    line ("  locked_distribution: " ∷ d.name ∷ "==" ∷ d.version ∷ []))
                  c.installed_locked_distributions
                ++ (line (
                      "  runtime.python: " ∷ c.runtime.python_implementation ∷ " "
                      ∷ c.runtime.python_version ∷ [])
                    ∷ line (
                        "  runtime.os: " ∷ c.runtime.operating_system ∷ " "
                        ∷ c.runtime.operating_system_release ∷ [])
                    ∷ line ("  runtime.architecture: " ∷ c.runtime.architecture ∷ [])
                    ∷ line ("  runtime.sqlite: " ∷ c.runtime.sqlite_version ∷ [])
                    ∷ line ("  runtime.mcp_protocol: " ∷ c.runtime.mcp_protocol_revision ∷ [])
                    ∷ ""
                    ∷ []))))

-- The lines of the axes: their statements, and one line for each invariant.
abbrev axes_lines : McpReport → List String
axes_lines r =
    ("Axes"
      ∷ line ("  " ∷ axis_statement ReportAxisName.clean_validity r.clean_validity r ∷ [])
      ∷ line ("  " ∷ axis_statement ReportAxisName.retry_safety r.retry_safety r ∷ [])
      ∷ [])
    ++ (invariant_lines ReportAxisName.clean_validity r.clean_validity
        ++ invariant_lines ReportAxisName.retry_safety r.retry_safety)

abbrev evidence_lines : McpReport → List String
evidence_lines r =
    (""
      ∷ "Evidence"
      ∷ line ("  applicable_pair_count: " ∷ decimal r.applicable_pair_count ∷ [])
      ∷ line ("  confirmation_count: " ∷ decimal r.confirmation_count ∷ [])
      ∷ [])
    ++ map trial_line r.trials

abbrev closing_lines : McpReport → List String
closing_lines r =
    ("" ∷ "Redaction" ∷ [])
    ++ (map (λ name. line ("  omitted: " ∷ name ∷ [])) r.omitted_categories
        ++ (("" ∷ "Limitations" ∷ [])
            ++ map (λ limitation. line ("  - " ∷ limitation ∷ [])) r.limitations))

unfoldable pub terminal_lines : McpReport → List String
terminal_lines r =
    header_lines r
    ++ (scope_lines r
        ++ (compatibility_lines r ++ (axes_lines r ++ (evidence_lines r ++ closing_lines r))))
