-- ===== src/Report/Registered.antt =====
-- What `_build_report` of src/effectprobe/_mcp_reports.py reads and requires of an artifact first.
use effect_probe.Prelude.{
  ℕ, String, List, [], ◌∷◌, Option, some, none, format, str_eq, if◌then◌else◌,
}
use effect_probe.Prelude.Int.{ℤ}
use effect_probe.Exception.{M, pure, ◌>>=◌, ◌>>◌}
use effect_probe.Store.{Mode}
use effect_probe.Artifact.{JsonValue, int, str, dict, JsonFields, require_string}
use effect_probe.Artifact.Equality.{json_eq}
use effect_probe.Artifact.Envelope.{subscript}
use effect_probe.Report.{
  evidence_schema_name, evidence_schema_version, runner_id, reportable_runner_version, registry_id,
  case_version, redaction_id, redaction_version,
}
use effect_probe.Report.Checks.{
  reject, expect, expect_that, all_of, field_is, string_at, int_at, bool_at, nullable_string_at,
  object_at,
}
use effect_probe.Report.Encode.{object_of, mode_text}

-- `ReadEvidenceArtifact`, with the payload that `artifact_payload` gives of it.
pub record ReadEvidenceArtifact : Type 0 where
  pub payload : JsonFields
  pub sha256 : String
  pub size_bytes : ℕ

-- The objects of a payload that `_build_report` reads first.
pub record Sections : Type 0 where
  pub compatibility : JsonFields
  pub replay : JsonFields
  pub scope : JsonFields
  pub producer : JsonFields

-- The objects of its compatibility.
pub record Registration : Type 0 where
  pub schema : JsonFields
  pub redaction : JsonFields
  pub case : JsonFields
  pub subject : JsonFields
  pub runner : JsonFields
  pub dependencies : JsonFields
  pub runtime : JsonFields

-- The registered operation.
pub record Operation : Type 0 where
  pub operation_key : String
  pub payment_id : String
  pub amount_minor_units : ℤ
  pub operation_id : String

-- What an artifact says of its redaction and limits.
pub record Limits : Type 0 where
  pub omitted_categories : List String
  pub limitations : List String

abbrev named : String → String → ℤ → JsonValue
named key name version = dict (object_of ((key, str name) ∷ ("version", int version) ∷ []))

module _ {S : Type 0} where
  -- `_supported_mode`
  unfoldable pub supported_mode : JsonValue → String → M S Mode
  supported_mode v path = do
    mode ← require_string v path
    if str_eq mode "unsafe"
        then pure Mode.unsafe
        else if str_eq mode "keyed"
        then pure Mode.keyed
        else reject (format (path ∷ " is not a registered mode" ∷ []))

  unfoldable pub decode_sections : JsonFields → M S Sections
  decode_sections payload = do
    compatibility ← object_at payload "compatibility" "artifact.compatibility"
    replay ← object_at payload "replay" "artifact.replay"
    scope ← object_at payload "scope" "artifact.scope"
    producer ← object_at payload "producer" "artifact.producer"
    pure (record {
      compatibility = compatibility;
      replay = replay;
      scope = scope;
      producer = producer;
    })

  unfoldable pub decode_registration : JsonFields → M S Registration
  decode_registration compatibility = do
    schema ← object_at compatibility "schema" "artifact.compatibility.schema"
    redaction ← object_at compatibility "redaction" "artifact.compatibility.redaction"
    case ← object_at compatibility "case" "artifact.compatibility.case"
    subject ← object_at compatibility "subject" "artifact.compatibility.subject"
    runner ← object_at compatibility "runner" "artifact.compatibility.runner"
    dependencies ← object_at compatibility "dependencies" "artifact.compatibility.dependencies"
    runtime ← object_at compatibility "runtime" "artifact.compatibility.runtime"
    pure (record {
      schema = schema;
      redaction = redaction;
      case = case;
      subject = subject;
      runner = runner;
      dependencies = dependencies;
      runtime = runtime;
    })

  -- The loop over the fields that have to be those of the running registration.
  unfoldable pub require_live : JsonFields → JsonFields → List String → M S Unit
  require_live compatibility live [] = pure tt
  require_live compatibility live (key ∷ rest) = do
    v ← subscript compatibility key
    w ← subscript live key
    expect (json_eq v w) (format ("artifact registered " ∷ key ∷ " contract is unsupported" ∷ []))
    require_live compatibility live rest

  unfoldable pub require_registered : Mode → JsonFields → Sections → Registration → M S Unit
  require_registered mode live sections r = do
    expect (json_eq (dict r.schema) (named "name" evidence_schema_name evidence_schema_version))
        "artifact evidence schema is not reportable"
    expect (json_eq (dict r.redaction) (named "id" redaction_id redaction_version))
        "artifact redaction policy is not reportable"
    expect (json_eq (dict r.case) (named "registry_id" registry_id case_version))
        "artifact case is not reportable"
    expect_that
        (all_of (
          field_is r.subject "id" (str (format ("mcp_" ∷ mode_text mode ∷ "_refund_tool" ∷ [])))
          ∷ field_is r.subject "mode" (str (mode_text mode))
          ∷ []))
        "artifact subject is not the registered report source"
    expect_that
        (all_of (
          field_is r.runner "id" (str runner_id)
          ∷ field_is r.runner "version" (int reportable_runner_version)
          ∷ []))
        "artifact runner is not reportable"
    expect (json_eq (dict sections.producer) (named "id" runner_id reportable_runner_version))
        "artifact producer is not reportable"
    reportable ← bool_at sections.scope "reportable" "artifact.scope.reportable"
    expect reportable "artifact scope is not reportable"
    require_live sections.compatibility live ("input" ∷ "contracts" ∷ "observer" ∷ "schedule" ∷ [])

  abbrev available : Option String → M S String
  available none = reject "artifact operation key is unavailable"
  available (some key) = pure key

  unfoldable pub decode_operation : Sections → M S Operation
  decode_operation sections = do
    selected ← nullable_string_at sections.scope "operation_key" "artifact.scope.operation_key"
    operation_key ← available selected
    input ← object_at sections.scope "input" "artifact.scope.input"
    visible ← string_at input "operation_key" "artifact.scope.input.operation_key"
    registered ← object_at sections.compatibility "input" "artifact.compatibility.input"
    expect_that
        (all_of (
          pure (str_eq operation_key visible)
          ∷ field_is registered "operation_key" (str visible)
          ∷ []))
        "artifact selected and subject-visible operation keys disagree"
    payment_id ← string_at input "payment_id" "artifact.scope.input.payment_id"
    amount ← int_at input "amount_minor_units" "artifact.scope.input.amount_minor_units"
    operation_id ← string_at sections.scope "operation_id" "artifact.scope.operation_id"
    pure (record {
      operation_key = operation_key;
      payment_id = payment_id;
      amount_minor_units = amount;
      operation_id = operation_id;
    })
