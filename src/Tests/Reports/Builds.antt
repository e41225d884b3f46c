-- ===== src/Tests/Reports/Builds.antt =====
-- The report that is built of the small artifact.
use Prim.Native.Char.{Char}
use effect_probe.Prelude.{refl, ◌≡◌, false, Bool}
use effect_probe.Exception.{value, M, pure, ◌>>=◌}
use effect_probe.Store.{Mode}
use effect_probe.Artifact.{JsonFields}
use effect_probe.Report.{McpReport}
use effect_probe.Report.Seen.{Seen, nothing_seen}
use effect_probe.Report.Build.{validate_confirmations, decode_evidence, build_report}
use effect_probe.Report.Sections.{
  decode_runtime, decode_compatibility, decode_scope, decode_axes, decode_limits,
  decode_reproduction,
}
use effect_probe.Report.Registered.{
  supported_mode, decode_sections, decode_registration, require_live, require_registered,
  decode_operation,
}
use effect_probe.Report.Checks.{
  expect, expect_that, all_of, field_is, string_at, int_at, bool_at, nullable_string_at, object_at,
  list_at, each, distinct, all_hex, is_absolute, path_parts,
}
use effect_probe.Report.Decoders.{
  sorted_by_name, distributions_eq, decode_sha256, strings, component, components, distribution,
  distributions, requirement, requirements, named_contract, named_contracts, contract, observer,
  decode_verdict, decode_axis_status, decode_invariant, decode_axis,
}
use effect_probe.Report.Evidence.{
  times, subscript_item, decode_cleanup, history_growth, decode_attempt, request_ids_of, transport,
  refund_ids_of, validate_observed_refunds, fields_agree, same_refund,
  validate_receipt_matches_history, validate_baseline,
}
use effect_probe.Report.Pairs.{
  validate_clean, validate_identities, validate_perturbed, validate_pair,
}
use effect_probe.Report.Attempts.{validate_attempts, validate_effects, validate_schedule}
use effect_probe.Report.Text.{has_unsafe, check_text, validate_projected_text}
use effect_probe.Report.Payload.{report_payload}
use effect_probe.Report.Encode.{items_of}
use effect_probe.Artifact.{
  require_object, require_list, require_string, require_bool, require_int, require_nullable_string,
}
use effect_probe.Artifact.Equality.{json_eq}
use effect_probe.Artifact.Envelope.{get, subscript}
use effect_probe.Prelude.Int.{◌+ℤ◌}
use effect_probe.Prelude.{decimal}
use effect_probe.Report.Build.Eligible.{IsEligible, build_report-IsEligible}
use effect_probe.Report.Build.Separate.{decode_evidence-IsSeparate}
use effect_probe.Report.Pairs.Marks.{IsSeparate, nothing_IsSeparate}
use effect_probe.Tests.Reports.Data.{scope}
use effect_probe.Tests.Reports.Artifact.{artifact, payload, compatibility}

abbrev live : Mode → M Seen JsonFields
live mode = pure compatibility

abbrev no_unsafe : Char → Bool
no_unsafe c = false

pub build_runs :
    (r : McpReport) × (s : Seen) × (build_report live no_unsafe artifact nothing_seen
      ≡ (value r, s))
unfolding supported_mode decode_sections decode_registration require_live require_registered
    decode_operation decode_runtime decode_compatibility decode_scope decode_axes decode_limits
    decode_reproduction validate_confirmations decode_evidence build_report expect expect_that
    all_of field_is string_at int_at bool_at nullable_string_at object_at list_at each distinct
    all_hex is_absolute path_parts sorted_by_name distributions_eq decode_sha256 strings component
    components distribution distributions requirement requirements named_contract named_contracts
    contract observer decode_verdict decode_axis_status decode_invariant decode_axis times
    subscript_item decode_cleanup history_growth decode_attempt request_ids_of transport
    refund_ids_of validate_observed_refunds fields_agree same_refund
    validate_receipt_matches_history validate_baseline validate_clean validate_attempts
    validate_effects validate_schedule validate_identities validate_perturbed validate_pair
    has_unsafe check_text validate_projected_text items_of report_payload require_object
    require_list require_string require_bool require_int require_nullable_string json_eq get
    subscript ◌+ℤ◌ decimal ◌>>=◌
build_runs = (_, _, refl)

build_report-IsEligible_example : IsEligible build_runs.0
build_report-IsEligible_example =
    build_report-IsEligible live no_unsafe artifact nothing_seen build_runs.2

decode_evidence-IsSeparate_example : IsSeparate (decode_evidence scope payload nothing_seen).1
decode_evidence-IsSeparate_example =
    decode_evidence-IsSeparate scope payload nothing_seen nothing_IsSeparate
