-- ===== src/Report/Pairs.antt =====
-- `_validate_pair` of src/effectprobe/_mcp_reports.py. The sets and the list that the calls share
-- are the state; what one block of the function hands to a later one is a record.
pub mod Trials
pub mod Attempted
pub mod Contents
pub mod Separate
pub mod Marks
use effect_probe.Prelude.{
  ℕ, String, Bool, true, false, ◌&&◌, ◌||◌, not, List, [], ◌∷◌, ◌++◌, length, Option, some, none,
  format, ◌==◌, str_eq, if◌then◌else◌,
}
use effect_probe.Exception.{other, M, pure, raise, ◌>>=◌, ◌>>◌}
use effect_probe.Store.{Mode}
use effect_probe.Artifact.{
  JsonValue, null, str, list, JsonItems, nil, JsonFields, items_length, require_object,
}
use effect_probe.Artifact.Equality.{json_eq}
use effect_probe.Artifact.Envelope.{subscript}
use effect_probe.Report.{ReportTrialKind, ReportTrial}
use effect_probe.Report.Checks.{
  at_key, expect, expect_that, all_of, field_is, string_at, object_at, list_at, each, distinct,
  isdisjoint,
}
use effect_probe.Report.Decoders.{strings}
use effect_probe.Report.Expected.{expected_clean_results, expected_retry_results}
use effect_probe.Report.Evidence.{
  CleanupEvidence, ParsedAttempt, RefundScope, subscript_item, decode_cleanup, history_growth,
  decode_attempt, transport, validate_observed_refunds, same_refund,
  validate_receipt_matches_history, validate_baseline,
}
use effect_probe.Report.Seen.{
  PairScope, Seen, all_seen, final_count, first_two, incremental, is_null, mark, nothing_seen,
  record_requests, strings_eq,
}
use effect_probe.Report.Attempts.{validate_attempts, validate_effects, validate_schedule}

-- The clean trial's identities and its trial.
pub record CleanPart : Type 0 where
  pub trial_id : String
  pub delivery_id : String
  pub attempt_id : String
  pub trial : ReportTrial

unfoldable pub validate_clean : PairScope → String → String → JsonFields → M Seen CleanPart
validate_clean scope pair_id path pair = do
  clean ← object_at pair "clean" (at_key path "clean")
  let trial_id = format (pair_id ∷ "/clean" ∷ [])
  expect_that (field_is clean "trial_id" (str trial_id))
      (format (path ∷ ".clean trial identity is inconsistent" ∷ []))
  baseline ← subscript clean "baseline"
  validate_baseline baseline (at_key path "clean.baseline") scope.refund.payment_id
  attempt_value ← subscript clean "attempt"
  attempt ←
      decode_attempt scope.expected_input scope.operation_id trial_id attempt_value
        (at_key path "clean.attempt")
  expect (str_eq attempt.outcome "returned" && not (is_null attempt.returned_result))
      (format (path ∷ ".clean did not return" ∷ []))
  validate_observed_refunds scope.refund attempt.observer_truth
      (at_key path "clean.attempt.observer_truth") 1
  validate_receipt_matches_history attempt.returned_result attempt.observer_truth
      (at_key path "clean") 0
  growth ← history_growth baseline attempt.observer_truth (at_key path "clean.history")
  delta ← subscript clean "history_delta"
  observed ← require_object attempt.observer_truth (at_key path "clean.observation")
  history ← subscript observed "history"
  expect (json_eq delta history) (format (path ∷ ".clean history delta is inconsistent" ∷ []))
  delivery_id ← string_at attempt.identity "delivery_id" (at_key path "clean.delivery_id")
  attempt_id ← string_at attempt.identity "attempt_id" (at_key path "clean.attempt_id")
  let ids =
      scope.operation_id ∷ scope.refund.operation_key ∷ trial_id ∷ delivery_id ∷ attempt_id ∷ []
  expect (length (distinct ids) == 5)
      (format (path ∷ ".clean aliases logical, key, trial, delivery, or attempt identity" ∷ []))
  deliveries ← subscript clean "transport_truth"
  requests ←
      transport deliveries (at_key path "clean.transport_truth") 1 scope.refund.operation_key ids
  record_requests requests
  cleanup_value ← subscript clean "cleanup"
  cleanup ← decode_cleanup cleanup_value (at_key path "clean.cleanup") scope.protocol
  pure (record {
    trial_id = trial_id;
    delivery_id = delivery_id;
    attempt_id = attempt_id;
    trial = record {
      pair_id = pair_id;
      kind = ReportTrialKind.clean;
      trial_id = trial_id;
      history_delta_count = growth;
      attempt_count = 1;
      transport_delivery_count = 1;
      cleanup_status = cleanup.status;
      resource_closed = cleanup.resource_closed;
      database_removed = cleanup.database_removed;
      fault_boundary = none;
      fault_reached = false;
      injected_attempt_ordinal = none;
    };
  })

-- The identities of a pair, which no other pair may use, and their record in the sets.
unfoldable pub validate_identities :
    PairScope
    → String
    → CleanPart
    → String
    → String × String
    → ParsedAttempt
    → ParsedAttempt
    → M Seen (List String)
validate_identities scope path clean trial_id (first_id, second_id) first second = do
  first_delivery ←
      string_at first.identity "delivery_id" (at_key path "perturbed.first.delivery_id")
  second_delivery ←
      string_at second.identity "delivery_id" (at_key path "perturbed.second.delivery_id")
  let delivery_ids = distinct (first_delivery ∷ second_delivery ∷ [])
  let attempt_ids = distinct (first_id ∷ second_id ∷ [])
  expect (length delivery_ids == length attempt_ids && length attempt_ids == 2)
      (format (path ∷ ".perturbed aliases identities" ∷ []))
  expect (isdisjoint delivery_ids attempt_ids)
      (format (path ∷ ".perturbed aliases delivery and attempt" ∷ []))
  let pair_trial_ids = distinct (clean.trial_id ∷ trial_id ∷ [])
  let pair_delivery_ids = distinct (clean.delivery_id ∷ delivery_ids)
  let pair_attempt_ids = distinct (clean.attempt_id ∷ attempt_ids)
  let all_ids = distinct (
      scope.operation_id
      ∷ scope.refund.operation_key
      ∷ (pair_trial_ids ++ (pair_delivery_ids ++ pair_attempt_ids)))
  expect
      ((length pair_trial_ids == 2)
        && (length pair_delivery_ids == 3)
        && (length pair_attempt_ids == 3)
        && (length all_ids == 10))
      (format (path ∷ " aliases logical, key, trial, delivery, or attempt identity" ∷ []))
  seen ← all_seen
  expect (isdisjoint all_ids (seen.trial_ids ++ (seen.delivery_ids ++ seen.attempt_ids)))
      (format (path ∷ " reuses trial, delivery, or attempt identity across pairs" ∷ []))
  mark pair_trial_ids pair_delivery_ids pair_attempt_ids
  pure all_ids

-- What follows the clean trial of a pair, and the perturbed trial.
unfoldable pub validate_perturbed :
    PairScope → String → String → JsonFields → CleanPart → M Seen ReportTrial
validate_perturbed scope pair_id path pair clean = do
  perturbed ← object_at pair "perturbed" (at_key path "perturbed")
  let trial_id = format (pair_id ∷ "/perturbed" ∷ [])
  expect_that
      (all_of (
        field_is perturbed "operation_id" (str scope.operation_id)
        ∷ field_is perturbed "trial_id" (str trial_id)
        ∷ []))
      (format (path ∷ ".perturbed changes operation or trial identity" ∷ []))
  baseline ← subscript perturbed "baseline"
  validate_baseline baseline (at_key path "perturbed.baseline") scope.refund.payment_id
  (first, second) ← validate_attempts scope trial_id path perturbed
  growth ← validate_effects scope path perturbed first second
  named ← validate_schedule path perturbed first second
  all_ids ← validate_identities scope path clean trial_id named first second
  deliveries ← subscript perturbed "transport_truth"
  requests ←
      transport deliveries (at_key path "perturbed.transport_truth") 2 scope.refund.operation_key
        all_ids
  record_requests requests
  cleanup_value ← subscript perturbed "cleanup"
  cleanup ← decode_cleanup cleanup_value (at_key path "perturbed.cleanup") scope.protocol
  pure (record {
    pair_id = pair_id;
    kind = ReportTrialKind.perturbed;
    trial_id = trial_id;
    history_delta_count = growth;
    attempt_count = 2;
    transport_delivery_count = 2;
    cleanup_status = cleanup.status;
    resource_closed = cleanup.resource_closed;
    database_removed = cleanup.database_removed;
    fault_boundary = some "mcp_client_result_delivery";
    fault_reached = true;
    injected_attempt_ordinal = some 1;
  })

-- `_validate_pair`
unfoldable pub validate_pair : PairScope → String → JsonValue → M Seen (List ReportTrial)
validate_pair scope pair_id v = do
  let path = at_key "artifact.evidence" pair_id
  pair ← require_object v path
  expect_that (field_is pair "pair_id" (str pair_id))
      (format (path ∷ ".pair_id is inconsistent" ∷ []))
  expect_that (field_is pair "clean_results" expected_clean_results)
      (format (path ∷ ".clean_results are inconsistent" ∷ []))
  expect_that (field_is pair "retry_results" (expected_retry_results scope.refund.mode))
      (format (path ∷ ".retry_results are inconsistent" ∷ []))
  expect_that (field_is pair "errors" (list nil))
      (format (path ∷ ".errors prevents registered report eligibility" ∷ []))
  clean ← validate_clean scope pair_id path pair
  perturbed ← validate_perturbed scope pair_id path pair clean
  pure (clean.trial ∷ perturbed ∷ [])
