-- ===== src/Tests/Reports/Artifact.antt =====
-- The rest of the small artifact of the keyed mode.
use effect_probe.Prelude.{String, List, true, [], ◌∷◌, some}
use effect_probe.Prelude.Int.{pos}
use effect_probe.Store.{Mode}
use effect_probe.Artifact.{JsonValue, null, bool, int, str, dict, JsonFields}
use effect_probe.Report.{
  evidence_schema_name, evidence_schema_version, runner_id, reportable_runner_version, registry_id,
  case_version, redaction_id, redaction_version, expected_provider, expected_limitations,
  expected_omitted_categories, ReportComponent, ReportNamedContract, ReportObserver,
}
use effect_probe.Report.Payload.{named_version}
use effect_probe.Report.Encode.{
  object_of, strings_of, component_payload, named_contract_payload, observer_payload,
}
use effect_probe.Report.Expected.{expected_clean_axis, expected_retry_axis}
use effect_probe.Report.Registered.{ReadEvidenceArtifact}
use effect_probe.Tests.Reports.Data.{object, items, digest, input, pair}

abbrev pub subject_components : List ReportComponent
subject_components = record { path = "src/effectprobe/_mcp_refund_server.py"; sha256 = digest } ∷ []

abbrev runtime : JsonValue
runtime = object (
    ("python_implementation", str "CPython")
    ∷ ("python_version", str "3.12.1")
    ∷ ("operating_system", str "Linux")
    ∷ ("operating_system_release", str "6.1")
    ∷ ("architecture", str "x86_64")
    ∷ ("sqlite_version", str "3.45.0")
    ∷ ("mcp_protocol_revision", str "2025-06-18")
    ∷ [])

abbrev dependencies : JsonValue
dependencies = object (
    ("lock_sha256", str digest)
    ∷ (
      "installed_locked_distributions",
      items (object (("name", str "anyio") ∷ ("version", str "4.0") ∷ []) ∷ []),
    )
    ∷ [])

abbrev pub compatibility : JsonFields
compatibility = object_of (
    ("schema", named_version "name" evidence_schema_name evidence_schema_version)
    ∷ ("redaction", named_version "id" redaction_id redaction_version)
    ∷ ("case", named_version "registry_id" registry_id case_version)
    ∷ (
      "subject",
      object (
          ("id", str "mcp_keyed_refund_tool")
          ∷ ("mode", str "keyed")
          ∷ (
            "components",
            items (
                component_payload
                  (record { path = "src/effectprobe/_mcp_refund_server.py"; sha256 = digest })
                ∷ []),
          )
          ∷ []),
    )
    ∷ (
      "runner",
      object (
          ("id", str runner_id)
          ∷ ("version", int reportable_runner_version)
          ∷ (
            "components",
            items (
                component_payload
                  (record { path = "src/effectprobe/_mcp_stdio.py"; sha256 = digest })
                ∷ []),
          )
          ∷ []),
    )
    ∷ ("dependencies", dependencies)
    ∷ ("runtime", runtime)
    ∷ ("input", input)
    ∷ ("contracts", object [])
    ∷ ("observer", object [])
    ∷ ("schedule", str "commit_then_lose_first_client_result")
    ∷ [])

abbrev pub watcher : ReportObserver
watcher = record {
  surface = "refund_provider";
  state = true;
  history = true;
  complete_history = true;
  observation_interval = "after_each_attempt";
  provenance = "harness";
  limitations = "one provider" ∷ [];
}

abbrev artifact_scope : JsonValue
artifact_scope = object (
    ("reportable", bool true)
    ∷ ("subject_name", str "keyed refund tool")
    ∷ ("operation_id", str "operation-1")
    ∷ ("operation_key", str "key-1")
    ∷ ("input", input)
    ∷ ("schedule", str "commit_then_lose_first_client_result")
    ∷ ("observer_coverage", observer_payload watcher)
    ∷ ("limitations", strings_of expected_limitations)
    ∷ [])

abbrev pub declared : String → List ReportNamedContract
declared name =
    record {
      name = name;
      requirements = record { kind = "state"; surface = some "refund_provider" } ∷ [];
    }
    ∷ []

abbrev contracts : JsonValue
contracts = object (
    (
      "fixture",
      object (
          ("id", str "mcp-refund")
          ∷ ("version", int (pos 1))
          ∷ (
            "seed",
            object (
                ("payment_id", str "payment-1")
                ∷ ("payment_minor_units", int (pos 10000))
                ∷ ("refunded_minor_units", int (pos 0))
                ∷ ("key_mapping_count", int (pos 0))
                ∷ ("history", items [])
                ∷ []),
          )
          ∷ []),
    )
    ∷ ("clean_assertions", named_contract_payload (declared "one_mcp_refund_matches_request"))
    ∷ ("retry_invariants", named_contract_payload (declared "no_additional_mcp_refund_after_retry"))
    ∷ ("canonicalization", object (("state", str "exact") ∷ ("history", str "exact") ∷ []))
    ∷ ("mcp_tool", object (("name", str "refund") ∷ []))
    ∷ [])

abbrev pub payload : JsonFields
payload = object_of (
    ("producer", named_version "id" runner_id reportable_runner_version)
    ∷ (
      "replay",
      object (("mode", str "keyed") ∷ ("lineage", str "original") ∷ ("source_sha256", null) ∷ []),
    )
    ∷ ("compatibility", dict compatibility)
    ∷ ("scope", artifact_scope)
    ∷ ("contracts", contracts)
    ∷ (
      "outcomes",
      object (
          ("clean_validity", expected_clean_axis)
          ∷ ("retry_safety", expected_retry_axis Mode.keyed)
          ∷ []),
    )
    ∷ ("evidence", object (("primary", pair) ∷ ("confirmations", items []) ∷ []))
    ∷ (
      "provenance",
      object (
          ("provider", str expected_provider)
          ∷ ("runner", str runner_id)
          ∷ ("known_limitations", strings_of expected_limitations)
          ∷ []),
    )
    ∷ (
      "redaction",
      object (
          ("id", str redaction_id)
          ∷ ("version", int redaction_version)
          ∷ ("omitted_categories", strings_of expected_omitted_categories)
          ∷ []),
    )
    ∷ ("reproduction", null)
    ∷ [])

abbrev pub artifact : ReadEvidenceArtifact
artifact = record { payload = payload; sha256 = digest; size_bytes = 4096 }
