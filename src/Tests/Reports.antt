-- ===== src/Tests/Reports.antt =====
-- The theorems on reports, at a small artifact.
mod Data
mod Artifact
mod Builds
mod Suites
use effect_probe.Prelude.Int.{◌+ℤ◌}
use Prim.Native.Char.{Char, code}
use effect_probe.Prelude.{◌==◌, ◌↔◌, some, Bool, arith, refl, decimal, ◌≡◌, [], ◌∷◌, ◌≤◌}
use effect_probe.Exception.{value, ◌>>=◌}
use effect_probe.Artifact.{
  require_object, require_list, require_string, require_bool, require_int, require_nullable_string,
}
use effect_probe.Artifact.Equality.{json_eq}
use effect_probe.Artifact.Envelope.{get, subscript}
use effect_probe.Report.Checks.{
  expect, expect_that, all_of, field_is, string_at, int_at, bool_at, nullable_string_at, object_at,
  list_at, each, distinct,
}
use effect_probe.Report.Decoders.{strings}
use effect_probe.Report.Encode.{items_of}
use effect_probe.Report.Evidence.{
  times, subscript_item, decode_cleanup, history_growth, decode_attempt, request_ids_of, transport,
  refund_ids_of, validate_observed_refunds, fields_agree, same_refund,
  validate_receipt_matches_history, validate_baseline,
}
use effect_probe.Report.Pairs.{
  validate_clean, validate_identities, validate_perturbed, validate_pair,
}
use effect_probe.Report.Attempts.{validate_attempts, validate_effects, validate_schedule}
use effect_probe.Report.Seen.{Seen, nothing_seen}
use effect_probe.Report.Pairs.Contents.{IsPair, validate_pair-IsPair}
use effect_probe.Report.Evidence.Histories.{history_of, Grown, history_growth_iff}
use effect_probe.Report.RoundTrip.{named_contracts-named_contract_payload}
use effect_probe.Report.Text.{validate_projected_text}
use effect_probe.Report.Text.Safe.{AllTexts, IsSafe, validate_projected_text_iff}
use effect_probe.Report.Decoders.{named_contracts, observer, components}
use effect_probe.Report.Encode.{named_contract_payload, observer_payload, component_payload}
use effect_probe.Report.Checks.{is_absolute, path_parts, all_hex}
use effect_probe.Store.{Mode}
use effect_probe.Artifact.{JsonItems, list}
use effect_probe.Tests.Reports.Data.{scope, pair, baseline, observation}
use effect_probe.Tests.Reports.Artifact.{declared, watcher, subject_components}

abbrev no_tabs : Char → Bool
no_tabs c = code c == 9

pair_runs : (r : _) × (s : Seen) × (validate_pair scope "primary" pair nothing_seen ≡ (value r, s))
unfolding validate_pair ◌>>=◌ require_object expect_that field_is subscript get expect json_eq
    items_of validate_clean object_at validate_baseline list_at require_list decode_attempt all_of
    string_at require_string require_bool require_nullable_string ◌+ℤ◌ decimal bool_at distinct each
    nullable_string_at strings decode_cleanup fields_agree history_growth refund_ids_of
    request_ids_of same_refund subscript_item times transport validate_observed_refunds
    validate_receipt_matches_history validate_attempts validate_effects validate_identities
    validate_perturbed validate_schedule
pair_runs = (_, _, refl)

validate_pair-IsPair_example : IsPair Mode.keyed pair
validate_pair-IsPair_example = validate_pair-IsPair scope "primary" pair nothing_seen pair_runs.2

history_growth_iff_example :
    ((s : Unit) × (history_growth baseline observation "trial" tt ≡ (value 1, s))) ↔ (
      (before : JsonItems) × (after : JsonItems) × (history_of baseline ≡ some before)
      × (history_of observation ≡ some after)
      × Grown before after 1)
history_growth_iff_example = history_growth_iff baseline observation "trial" 1 tt

named_contracts-named_contract_payload_example :
    named_contracts (named_contract_payload (declared "one")) "contracts" tt
    ≡ (value (declared "one"), tt)
named_contracts-named_contract_payload_example =
    named_contracts-named_contract_payload (declared "one") "contracts" tt (ground arith)
      (ground arith, tt)

validate_projected_text_iff_example :
    (validate_projected_text no_tabs observation "report" tt ≡ (value tt, tt))
    ↔ (AllTexts (IsSafe no_tabs) observation × Path (Unit {0}) tt tt)
validate_projected_text_iff_example = validate_projected_text_iff no_tabs observation "report" tt tt
