-- ===== src/Report/Payload.antt =====
-- The JSON projection of a report (src/effectprobe/_mcp_reports.py, report_payload).
use effect_probe.Prelude.{String, [], ◌∷◌}
use effect_probe.Prelude.Int.{ℤ}
use effect_probe.Artifact.{JsonValue, int, str, list, dict, JsonFields}
use effect_probe.Report.{
  report_schema_name, report_schema_version, ReportRuntime, ReportCompatibility, ReportContract,
  ReportScope, McpReport,
}
use effect_probe.Report.Encode.{
  axis_payload, component_payload, count_of, distribution_payload, items_of, mode_text,
  named_contract_payload, nullable, nullable_bool, object_of, observer_payload, strings_of,
  trial_payload,
}

abbrev fixture_payload : ReportContract → JsonValue
fixture_payload c = dict (
    object_of (
      ("id", str c.fixture_id)
      ∷ ("version", int c.fixture_version)
      ∷ (
        "seed",
        dict (
            object_of (
              ("payment_id", str c.fixture_seed_payment_id)
              ∷ ("payment_minor_units", int c.fixture_seed_payment_minor_units)
              ∷ ("refunded_minor_units", int c.fixture_seed_refunded_minor_units)
              ∷ ("key_mapping_count", int c.fixture_seed_key_mapping_count)
              ∷ ("history_count", count_of c.fixture_seed_history_count)
              ∷ [])),
      )
      ∷ []))

abbrev scope_contract_payload : ReportContract → JsonValue
scope_contract_payload c = dict (
    object_of (
      ("fixture", fixture_payload c)
      ∷ ("clean_assertions", named_contract_payload c.clean_assertions)
      ∷ ("retry_invariants", named_contract_payload c.retry_invariants)
      ∷ (
        "canonicalization",
        dict (
            object_of (
              ("state", str c.state_canonicalization)
              ∷ ("history", str c.history_canonicalization)
              ∷ [])),
      )
      ∷ ("mcp_tool_name", str c.mcp_tool_name)
      ∷ []))

abbrev scope_payload : ReportScope → JsonValue
scope_payload s = dict (
    object_of (
      ("subject_name", str s.subject_name)
      ∷ ("mode", str (mode_text s.mode))
      ∷ (
        "input",
        dict (
            object_of (
              ("payment_id", str s.payment_id)
              ∷ ("amount_minor_units", int s.amount_minor_units)
              ∷ [])),
      )
      ∷ ("logical_operation_id", str s.logical_operation_id)
      ∷ ("operation_key", nullable s.operation_key)
      ∷ ("schedule", str s.schedule)
      ∷ ("observer", observer_payload s.observer)
      ∷ ("contract", scope_contract_payload s.contract)
      ∷ []))

abbrev runtime_payload : ReportRuntime → JsonValue
runtime_payload r = dict (
    object_of (
      ("python_implementation", str r.python_implementation)
      ∷ ("python_version", str r.python_version)
      ∷ ("operating_system", str r.operating_system)
      ∷ ("operating_system_release", str r.operating_system_release)
      ∷ ("architecture", str r.architecture)
      ∷ ("sqlite_version", str r.sqlite_version)
      ∷ ("mcp_protocol_revision", str r.mcp_protocol_revision)
      ∷ []))

abbrev pub named_version : String → String → ℤ → JsonValue
named_version key name version = dict (object_of ((key, str name) ∷ ("version", int version) ∷ []))

abbrev compatibility_payload : ReportCompatibility → JsonValue
compatibility_payload c = dict (
    object_of (
      ("evidence_schema", named_version "name" c.evidence_schema_name c.evidence_schema_version)
      ∷ ("producer", named_version "id" c.producer_id c.producer_version)
      ∷ ("case", named_version "registry_id" c.case_registry_id c.case_version)
      ∷ ("subject_components", list (items_of component_payload c.subject_components))
      ∷ ("runner_components", list (items_of component_payload c.runner_components))
      ∷ (
        "dependencies",
        dict (
            object_of (
              ("lock_sha256", str c.dependency_lock_sha256)
              ∷ (
                "installed_locked_distributions",
                list (items_of distribution_payload c.installed_locked_distributions),
              )
              ∷ [])),
      )
      ∷ ("runtime", runtime_payload c.runtime)
      ∷ []))

-- `report_payload`
unfoldable pub report_payload : McpReport → JsonFields
report_payload r = object_of (
    ("schema", named_version "name" report_schema_name report_schema_version)
    ∷ (
      "source",
      dict (
          object_of (
            ("artifact_sha256", str r.source_sha256)
            ∷ ("size_bytes", count_of r.source_size_bytes)
            ∷ ("lineage", str r.lineage)
            ∷ ("source_artifact_sha256", nullable r.source_artifact_sha256)
            ∷ ("reproduction_matched", nullable_bool r.reproduction_matched)
            ∷ [])),
    )
    ∷ ("scope", scope_payload r.scope)
    ∷ ("compatibility", compatibility_payload r.compatibility)
    ∷ (
      "axes",
      dict (
          object_of (
            ("clean_validity", axis_payload r.clean_validity)
            ∷ ("retry_safety", axis_payload r.retry_safety)
            ∷ [])),
    )
    ∷ (
      "evidence",
      dict (
          object_of (
            ("applicable_pair_count", count_of r.applicable_pair_count)
            ∷ ("confirmation_count", count_of r.confirmation_count)
            ∷ ("trials", list (items_of trial_payload r.trials))
            ∷ [])),
    )
    ∷ ("redaction", dict (object_of (("omitted_categories", strings_of r.omitted_categories) ∷ [])))
    ∷ ("limitations", strings_of r.limitations)
    ∷ [])
