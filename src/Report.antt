-- ===== src/Report.antt =====
-- The report model of src/effectprobe/_mcp_reports.py.
pub mod Checks
pub mod Decoders
pub mod Encode
pub mod Payload
pub mod Expected
pub mod Evidence
pub mod Seen
pub mod Attempts
pub mod Pairs
pub mod Text
pub mod Registered
pub mod Sections
pub mod Build
pub mod Statements
pub mod Lines
pub mod Render
pub mod Junit
pub mod RoundTrip
use effect_probe.Prelude.{ℕ, String, Bool, List, [], ◌∷◌, Option}
use effect_probe.Prelude.Int.{ℤ, pos}
use effect_probe.Store.{Mode}

abbrev pub report_schema_name : String
report_schema_name = "effectprobe.private.report"

abbrev pub report_schema_version : ℤ
report_schema_version = pos 1

abbrev pub evidence_schema_name : String
evidence_schema_name = "effectprobe.private.evidence"

abbrev pub evidence_schema_version : ℤ
evidence_schema_version = pos 1

abbrev pub runner_id : String
runner_id = "effectprobe.private.mcp-evidence-replay"

abbrev pub reportable_runner_version : ℤ
reportable_runner_version = pos 2

abbrev pub registry_id : String
registry_id = "effectprobe.private.mcp-refund"

abbrev pub case_version : ℤ
case_version = pos 1

abbrev pub redaction_id : String
redaction_id = "effectprobe.private.redaction/mcp-refund-v1"

abbrev pub redaction_version : ℤ
redaction_version = pos 1

abbrev pub expected_provider : String
expected_provider = "harness-controlled SQLite MCP refund fixture"

abbrev pub expected_limitations : List String
expected_limitations =
    "private provisional MCP stdio outcome"
    ∷ "trusted local harness-controlled server and SQLite provider"
    ∷ "MCP request identity is transport evidence, not a domain operation key"
    ∷ "private experimental evidence schema and replay registry"
    ∷ "compatibility covers only the enumerated runtime and environment dimensions"
    ∷ "unmodelled host state remains unknown" ∷ []

abbrev pub expected_omitted_categories : List String
expected_omitted_categories =
    "absolute_paths" ∷ "command_lines" ∷ "environment_names_and_values"
    ∷ "exception_messages_and_tracebacks" ∷ "process_identifiers" ∷ "subprocess_stderr" ∷ []

abbrev pub report_limitation : String
report_limitation = "private experimental terminal, JSON, and JUnit report contract"

pub data ReportVerdict : Type 0 where
  pass fail inconclusive error : ReportVerdict

-- `ReportVerdict | Literal["UNVERIFIED"]`
pub data ReportAxisStatus : Type 0 where
  judged : ReportVerdict → ReportAxisStatus
  unverified : ReportAxisStatus

pub data ReportAxisName : Type 0 where
  clean_validity retry_safety : ReportAxisName

pub data ReportTrialKind : Type 0 where
  clean perturbed : ReportTrialKind

pub record ReportComponent : Type 0 where
  pub path : String
  pub sha256 : String

pub record ReportDistribution : Type 0 where
  pub name : String
  pub version : String

pub record ReportRuntime : Type 0 where
  pub python_implementation : String
  pub python_version : String
  pub operating_system : String
  pub operating_system_release : String
  pub architecture : String
  pub sqlite_version : String
  pub mcp_protocol_revision : String

pub record ReportCompatibility : Type 0 where
  pub evidence_schema_name : String
  pub evidence_schema_version : ℤ
  pub producer_id : String
  pub producer_version : ℤ
  pub case_registry_id : String
  pub case_version : ℤ
  pub subject_components : List ReportComponent
  pub runner_components : List ReportComponent
  pub dependency_lock_sha256 : String
  pub installed_locked_distributions : List ReportDistribution
  pub runtime : ReportRuntime

pub record ReportRequirement : Type 0 where
  pub kind : String
  pub surface : Option String

pub record ReportNamedContract : Type 0 where
  pub name : String
  pub requirements : List ReportRequirement

pub record ReportContract : Type 0 where
  pub fixture_id : String
  pub fixture_version : ℤ
  pub fixture_seed_payment_id : String
  pub fixture_seed_payment_minor_units : ℤ
  pub fixture_seed_refunded_minor_units : ℤ
  pub fixture_seed_key_mapping_count : ℤ
  pub fixture_seed_history_count : ℕ
  pub clean_assertions : List ReportNamedContract
  pub retry_invariants : List ReportNamedContract
  pub state_canonicalization : String
  pub history_canonicalization : String
  pub mcp_tool_name : String

pub record ReportObserver : Type 0 where
  pub surface : String
  pub state : Bool
  pub history : Bool
  pub complete_history : Bool
  pub observation_interval : String
  pub provenance : String
  pub limitations : List String

pub record ReportScope : Type 0 where
  pub subject_name : String
  pub mode : Mode
  pub payment_id : String
  pub amount_minor_units : ℤ
  pub logical_operation_id : String
  pub operation_key : Option String
  pub schedule : String
  pub observer : ReportObserver
  pub contract : ReportContract

pub record ReportInvariant : Type 0 where
  pub name : String
  pub verdict : ReportVerdict
  pub explanation : String
  pub missing_evidence : List String

pub record ReportAxis : Type 0 where
  pub status : ReportAxisStatus
  pub invariants : List ReportInvariant

pub record ReportTrial : Type 0 where
  pub pair_id : String
  pub kind : ReportTrialKind
  pub trial_id : String
  pub history_delta_count : ℕ
  pub attempt_count : ℕ
  pub transport_delivery_count : ℕ
  pub cleanup_status : String
  pub resource_closed : Bool
  pub database_removed : Bool
  pub fault_boundary : Option String
  pub fault_reached : Bool
  pub injected_attempt_ordinal : Option ℕ

pub record McpReport : Type 0 where
  pub source_sha256 : String
  pub source_size_bytes : ℕ
  pub lineage : String
  pub source_artifact_sha256 : Option String
  pub reproduction_matched : Option Bool
  pub compatibility : ReportCompatibility
  pub scope : ReportScope
  pub clean_validity : ReportAxis
  pub retry_safety : ReportAxis
  pub applicable_pair_count : ℕ
  pub confirmation_count : ℕ
  pub trials : List ReportTrial
  pub omitted_categories : List String
  pub limitations : List String
