-- ===== src/Report/Sections.antt =====
-- The parts of `_build_report` of src/effectprobe/_mcp_reports.py that decode one section of an
-- artifact each.
use effect_probe.Prelude.{Bool, [], ◌∷◌, Option, some, none}
use effect_probe.Exception.{M, pure, ◌>>=◌, ◌>>◌}
use effect_probe.Store.{Mode}
use effect_probe.Artifact.{JsonValue, null, int, str, JsonFields, require_object}
use effect_probe.Artifact.Envelope.{subscript}
use effect_probe.Report.{
  runner_id, redaction_id, redaction_version, expected_provider, expected_limitations,
  expected_omitted_categories, ReportRuntime, ReportCompatibility, ReportScope, ReportAxis,
}
use effect_probe.Report.Checks.{
  expect_that, all_of, field_is, string_at, int_at, bool_at, object_at,
}
use effect_probe.Report.Decoders.{
  decode_sha256, strings, components, distributions, contract, observer, decode_axis,
}
use effect_probe.Report.Expected.{expected_clean_axis, expected_retry_axis}
use effect_probe.Report.Seen.{strings_eq}
use effect_probe.Report.Registered.{Limits, Operation, Registration, Sections}

module _ {S : Type 0} where
  unfoldable pub decode_runtime : JsonFields → M S ReportRuntime
  decode_runtime v = do
    implementation ←
        string_at v "python_implementation" "artifact.compatibility.runtime.python_implementation"
    version ← string_at v "python_version" "artifact.compatibility.runtime.python_version"
    system ← string_at v "operating_system" "artifact.compatibility.runtime.operating_system"
    release ←
        string_at v "operating_system_release"
          "artifact.compatibility.runtime.operating_system_release"
    architecture ← string_at v "architecture" "artifact.compatibility.runtime.architecture"
    sqlite ← string_at v "sqlite_version" "artifact.compatibility.runtime.sqlite_version"
    protocol ←
        string_at v "mcp_protocol_revision" "artifact.compatibility.runtime.mcp_protocol_revision"
    pure (record {
      python_implementation = implementation;
      python_version = version;
      operating_system = system;
      operating_system_release = release;
      architecture = architecture;
      sqlite_version = sqlite;
      mcp_protocol_revision = protocol;
    })

  unfoldable pub decode_compatibility :
      Registration → JsonFields → ReportRuntime → M S ReportCompatibility
  decode_compatibility r producer runtime = do
    schema_name ← string_at r.schema "name" "artifact.compatibility.schema.name"
    schema_version ← int_at r.schema "version" "artifact.compatibility.schema.version"
    producer_id ← string_at producer "id" "artifact.producer.id"
    producer_version ← int_at producer "version" "artifact.producer.version"
    case_registry ← string_at r.case "registry_id" "artifact.compatibility.case.registry_id"
    case_number ← int_at r.case "version" "artifact.compatibility.case.version"
    subject_value ← subscript r.subject "components"
    subject_components ← components subject_value "artifact.compatibility.subject.components"
    runner_value ← subscript r.runner "components"
    runner_components ← components runner_value "artifact.compatibility.runner.components"
    lock_value ← subscript r.dependencies "lock_sha256"
    lock ← decode_sha256 lock_value "artifact.compatibility.dependencies.lock_sha256"
    installed_value ← subscript r.dependencies "installed_locked_distributions"
    installed ←
        distributions installed_value
          "artifact.compatibility.dependencies.installed_locked_distributions"
    pure (record {
      evidence_schema_name = schema_name;
      evidence_schema_version = schema_version;
      producer_id = producer_id;
      producer_version = producer_version;
      case_registry_id = case_registry;
      case_version = case_number;
      subject_components = subject_components;
      runner_components = runner_components;
      dependency_lock_sha256 = lock;
      installed_locked_distributions = installed;
      runtime = runtime;
    })

  unfoldable pub decode_scope : Mode → JsonFields → Sections → Operation → M S ReportScope
  decode_scope mode payload sections o = do
    subject_name ← string_at sections.scope "subject_name" "artifact.scope.subject_name"
    schedule ← string_at sections.scope "schedule" "artifact.scope.schedule"
    coverage ← subscript sections.scope "observer_coverage"
    seen_by ← observer coverage
    contracts ← subscript payload "contracts"
    agreed ← contract contracts
    pure (record {
      subject_name = subject_name;
      mode = mode;
      payment_id = o.payment_id;
      amount_minor_units = o.amount_minor_units;
      logical_operation_id = o.operation_id;
      operation_key = some o.operation_key;
      schedule = schedule;
      observer = seen_by;
      contract = agreed;
    })

  unfoldable pub decode_axes : Mode → JsonFields → M S (ReportAxis × ReportAxis)
  decode_axes mode payload = do
    outcomes ← object_at payload "outcomes" "artifact.outcomes"
    expect_that (field_is outcomes "clean_validity" expected_clean_axis)
        "clean axis and invariant evidence disagree"
    expect_that (field_is outcomes "retry_safety" (expected_retry_axis mode))
        "retry axis and invariant evidence disagree"
    clean_value ← subscript outcomes "clean_validity"
    clean ← decode_axis clean_value "artifact.outcomes.clean_validity"
    retry_value ← subscript outcomes "retry_safety"
    retry ← decode_axis retry_value "artifact.outcomes.retry_safety"
    pure (clean, retry)

  unfoldable pub decode_limits : JsonFields → Sections → M S Limits
  decode_limits payload sections = do
    redaction ← object_at payload "redaction" "artifact.redaction"
    omitted_value ← subscript redaction "omitted_categories"
    omitted ← strings omitted_value "artifact.redaction.omitted_categories"
    scope_value ← subscript sections.scope "limitations"
    limitations ← strings scope_value "artifact.scope.limitations"
    provenance ← object_at payload "provenance" "artifact.provenance"
    known_value ← subscript provenance "known_limitations"
    known ← strings known_value "artifact.provenance.known_limitations"
    expect_that
        (all_of (
          field_is redaction "id" (str redaction_id)
          ∷ field_is redaction "version" (int redaction_version)
          ∷ pure (strings_eq omitted expected_omitted_categories)
          ∷ []))
        "artifact redaction declaration is unsupported"
    expect_that
        (all_of (
          field_is provenance "provider" (str expected_provider)
          ∷ field_is provenance "runner" (str runner_id)
          ∷ pure (strings_eq known expected_limitations)
          ∷ pure (strings_eq limitations expected_limitations)
          ∷ []))
        "artifact provenance or limitations are unsupported"
    pure (record { omitted_categories = omitted; limitations = limitations })

  unfoldable pub decode_reproduction : JsonValue → M S (Option Bool)
  decode_reproduction null = pure none
  decode_reproduction v = do
    reproduction ← require_object v "artifact.reproduction"
    matched ← bool_at reproduction "matched" "artifact.reproduction.matched"
    pure (some matched)
