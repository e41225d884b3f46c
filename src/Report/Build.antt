-- ===== src/Report/Build.antt =====
-- `_build_report` and `build_mcp_report` of src/effectprobe/_mcp_reports.py.
--
-- `live` is the compatibility of the running registration for a mode (`build_mcp_compatibility`),
-- and `unsafe_character` says of which characters `unicodedata.category` is Cc, Cf or Cs.
pub mod Eligible
pub mod Separate
pub mod Axes
use Prim.Native.Char.{Char}
use effect_probe.Prelude.{
  ℕ, suc, String, Bool, true, false, ◌&&◌, not, List, [], ◌∷◌, ◌++◌, any, length, Option, some,
  none, format, decimal, ◌==◌, str_eq, if◌then◌else◌,
}
use effect_probe.Prelude.Int.{ℤ}
use effect_probe.Exception.{
  Exc, other, Outcome, value, raised, M, pure, raise, ◌>>=◌, ◌>>◌, type_name, text_of,
}
use effect_probe.Store.{Mode}
use effect_probe.Artifact.{
  JsonValue, null, int, str, dict, JsonItems, nil, item, JsonFields, items_length, require_object,
  require_bool, require_string,
}
use effect_probe.Artifact.Equality.{json_eq}
use effect_probe.Artifact.Envelope.{subscript}
use effect_probe.Artifact.Objects.{member}
use effect_probe.Report.{
  evidence_schema_name, evidence_schema_version, runner_id, reportable_runner_version, registry_id,
  case_version, redaction_id, redaction_version, expected_provider, expected_limitations,
  expected_omitted_categories, report_limitation, ReportRuntime, ReportCompatibility, ReportScope,
  ReportAxis, ReportTrial, McpReport,
}
use effect_probe.Report.Checks.{
  value_errors, at_index, input_error, reject, expect, expect_that, all_of, field_is, string_at,
  int_at, bool_at, nullable_string_at, object_at, list_at,
}
use effect_probe.Report.Decoders.{
  decode_sha256, strings, components, distributions, contract, observer, decode_axis,
}
use effect_probe.Report.Payload.{report_payload}
use effect_probe.Report.Encode.{object_of, mode_text}
use effect_probe.Report.Expected.{expected_clean_axis, expected_retry_axis}
use effect_probe.Report.Evidence.{RefundScope}
use effect_probe.Report.Pairs.{validate_pair}
use effect_probe.Report.Seen.{Seen, nothing_seen, PairScope, strings_eq}
use effect_probe.Report.Text.{validate_projected_text}
use effect_probe.Report.Sections.{
  decode_runtime, decode_compatibility, decode_scope, decode_axes, decode_limits,
  decode_reproduction,
}
use effect_probe.Report.Registered.{
  ReadEvidenceArtifact, Sections, Registration, Operation, Limits, supported_mode, decode_sections,
  decode_registration, require_live, require_registered, decode_operation,
}

abbrev pub expected_confirmations : Mode → ℕ
expected_confirmations Mode.keyed = 0
expected_confirmations Mode.unsafe = 2

-- The loop over the confirmations, from an index on.
unfoldable pub validate_confirmations : PairScope → JsonItems → ℕ → M Seen (List ReportTrial)
validate_confirmations scope nil index = pure []
validate_confirmations scope (item v rest) index = do
  trials ← validate_pair scope (format ("confirmation/" ∷ decimal index ∷ [])) v
  more ← validate_confirmations scope rest (suc index)
  pure (trials ++ more)

-- `set()` and `[]` for what the pairs share.
abbrev forget : M Seen Unit
forget seen = pure tt nothing_seen

abbrev seen_now : M Seen Seen
seen_now seen = pure seen seen

-- The trials of an artifact's pairs, and how many confirmations it has.
unfoldable pub decode_evidence : PairScope → JsonFields → M Seen (List ReportTrial × ℕ)
decode_evidence scope payload = do
  evidence ← object_at payload "evidence" "artifact.evidence"
  confirmations ← list_at evidence "confirmations" "artifact.evidence.confirmations"
  expect (items_length confirmations == expected_confirmations scope.refund.mode)
      "artifact confirmation evidence does not support its final retry axis"
  forget
  primary ← subscript evidence "primary"
  trials ← validate_pair scope "primary" primary
  more ← validate_confirmations scope confirmations 1
  seen ← seen_now
  let semantic =
      scope.operation_id
      ∷ scope.refund.operation_key
      ∷ (seen.trial_ids ++ (seen.delivery_ids ++ seen.attempt_ids))
  expect (not (any (λ id. member id semantic) seen.request_ids))
      "artifact MCP request identity aliases a semantic identity"
  pure (trials ++ more, items_length confirmations)

-- The unsafe text of a report is an input error.
abbrev safe_or_reject : {S : Type 0} → Outcome Unit × Unit {0} → M S Unit
safe_or_reject (value u, _) = pure tt
safe_or_reject (raised e, _) =
    reject (format ("artifact contains unsafe report text: " ∷ text_of e ∷ []))

module _ (live : Mode → M Seen JsonFields) (unsafe_character : Char → Bool) where
  -- `_build_report`
  unfoldable pub build_report : ReadEvidenceArtifact → M Seen McpReport
  build_report read = do
    sections ← decode_sections read.payload
    mode_value ← subscript sections.replay "mode"
    mode ← supported_mode mode_value "artifact.replay.mode"
    current ← live mode
    registration ← decode_registration sections.compatibility
    require_registered mode current sections registration
    operation ← decode_operation sections
    runtime ← decode_runtime registration.runtime
    compatibility ← decode_compatibility registration sections.producer runtime
    scope ← decode_scope mode read.payload sections operation
    (clean, retry) ← decode_axes mode read.payload
    input ← subscript sections.scope "input"
    (trials, confirmations) ←
        decode_evidence
          (record {
            refund = record {
              mode = mode;
              payment_id = operation.payment_id;
              amount_minor_units = operation.amount_minor_units;
              operation_key = operation.operation_key;
            };
            expected_input = input;
            operation_id = operation.operation_id;
            protocol = runtime.mcp_protocol_revision;
          })
          read.payload
    limits ← decode_limits read.payload sections
    reproduction_value ← subscript read.payload "reproduction"
    matched ← decode_reproduction reproduction_value
    lineage ← string_at sections.replay "lineage" "artifact.replay.lineage"
    source ← nullable_string_at sections.replay "source_sha256" "artifact.replay.source_sha256"
    let report : McpReport = record {
      source_sha256 = read.sha256;
      source_size_bytes = read.size_bytes;
      lineage = lineage;
      source_artifact_sha256 = source;
      reproduction_matched = matched;
      compatibility = compatibility;
      scope = scope;
      clean_validity = clean;
      retry_safety = retry;
      applicable_pair_count = 1;
      confirmation_count = confirmations;
      trials = trials;
      omitted_categories = limits.omitted_categories;
      limitations = limits.limitations ++ (scope.observer.limitations ++ (report_limitation ∷ []));
    }
    safe_or_reject
        (validate_projected_text unsafe_character (dict (report_payload report)) "report" tt)
    pure report

-- The exception classes that `validate_reportable_mcp_artifact` turns into an input error, with the
-- standard subclasses of `ValueError`.
abbrev decoding_error_names : List String
decoding_error_names =
    "McpEvidenceCaptureError" ∷ "KeyError" ∷ "IndexError" ∷ "TypeError" ∷ value_errors

-- Those of `build_mcp_report`, with the subclasses of `EvidenceArtifactError`.
abbrev pub input_error_names : List String
input_error_names =
    "EvidenceArtifactError" ∷ "ArtifactFormatError" ∷ "ArtifactWriteError"
    ∷ "ArtifactCompatibilityError" ∷ decoding_error_names

abbrev pub translated : List String → Exc → Exc
translated names e =
    if member (type_name e) names
    then input_error (format ("artifact is not reportable: " ∷ text_of e ∷ []))
    else e

abbrev pub translate : {S A : Type 0} → List String → Outcome A × S → Outcome A × S
translate names (value a, s) = (value a, s)
translate names (raised e, s) = (raised (translated names e), s)

module _ (live : Mode → M Seen JsonFields) (unsafe_character : Char → Bool)
    (read_mcp_evidence : String → M Seen ReadEvidenceArtifact) where
  -- `build_mcp_report`
  unfoldable pub build_mcp_report : String → M Seen McpReport
  build_mcp_report path seen =
      translate input_error_names
        ((do read ← read_mcp_evidence path; build_report live unsafe_character read) seen)

-- `artifact_sha256` and the length of `canonical_artifact_bytes` are parameters: they hash and print
-- a payload.
module _ (live : Mode → M Seen JsonFields) (unsafe_character : Char → Bool)
    (artifact_sha256 : JsonFields → String) (encoded_size : JsonFields → M Seen ℕ) where
  -- `validate_reportable_mcp_artifact`
  unfoldable pub validate_reportable_mcp_artifact : JsonFields → M Seen Unit
  validate_reportable_mcp_artifact payload = do
    size ← encoded_size payload
    report ← λ seen. translate decoding_error_names (
        build_report live unsafe_character
          (record { payload = payload; sha256 = artifact_sha256 payload; size_bytes = size }) seen)
    pure tt
