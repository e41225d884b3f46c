-- ===== src/Report/Attempts.antt =====
-- The attempts of a perturbed trial, their effects and their schedule (src/effectprobe/_mcp_reports.py,
-- _validate_pair).
use effect_probe.Prelude.{ℕ, String, ◌&&◌, not, [], ◌∷◌, format, ◌==◌, str_eq}
use effect_probe.Exception.{M, pure, ◌>>=◌, ◌>>◌}
use effect_probe.Artifact.{str, JsonFields, items_length, require_object}
use effect_probe.Artifact.Envelope.{subscript}
use effect_probe.Report.Checks.{
  at_key, expect, expect_that, all_of, field_is, string_at, object_at, list_at, each,
}
use effect_probe.Report.Decoders.{strings}
use effect_probe.Report.Evidence.{
  ParsedAttempt, subscript_item, history_growth, decode_attempt, validate_observed_refunds,
  same_refund, validate_receipt_matches_history,
}
use effect_probe.Report.Seen.{
  PairScope, Seen, final_count, first_two, incremental, is_null, strings_eq,
}

-- The two attempts of a perturbed trial: the first was lost, the second returned.
unfoldable pub validate_attempts :
    PairScope → String → String → JsonFields → M Seen (ParsedAttempt × ParsedAttempt)
validate_attempts scope trial_id path perturbed = do
  attempts ← list_at perturbed "attempts" (at_key path "perturbed.attempts")
  expect (items_length attempts == 2) (format (path ∷ ".perturbed must contain two attempts" ∷ []))
  parsed ←
      each (decode_attempt scope.expected_input scope.operation_id trial_id) attempts
        (at_key path "perturbed.attempts") 0
  (first, second) ← first_two parsed
  expect (str_eq first.outcome "client_result_lost" && is_null first.returned_result)
      (format (path ∷ ".perturbed first result was not lost at the client boundary" ∷ []))
  expect_that
      (all_of (
        pure (str_eq second.outcome "returned")
        ∷ pure (not (is_null second.returned_result))
        ∷ field_is perturbed "subject_result" second.returned_result
        ∷ []))
      (format (path ∷ ".perturbed second result was not returned" ∷ []))
  pure (first, second)

-- The committed effects of a perturbed trial: how far its history has grown.
unfoldable pub validate_effects :
    PairScope → String → JsonFields → ParsedAttempt → ParsedAttempt → M Seen ℕ
validate_effects scope path perturbed first second = do
  validate_observed_refunds scope.refund first.observer_truth
      (at_key path "perturbed.attempts[0].observer_truth") 1
  validate_observed_refunds scope.refund second.observer_truth
      (at_key path "perturbed.attempts[1].observer_truth") (final_count scope.refund.mode)
  validate_receipt_matches_history second.returned_result second.observer_truth
      (at_key path "perturbed.second_result") (incremental scope.refund.mode)
  growth ←
      history_growth first.observer_truth second.observer_truth
        (at_key path "perturbed.first_to_final_history")
  expect (growth == incremental scope.refund.mode)
      (format (path ∷ ".perturbed first-to-final history growth is inconsistent" ∷ []))
  baseline ← subscript perturbed "baseline"
  history_growth baseline second.observer_truth (at_key path "perturbed.history")

-- The harness evidence of a perturbed trial, and the attempt identities that it names.
unfoldable pub validate_schedule :
    String → JsonFields → ParsedAttempt → ParsedAttempt → M Seen (String × String)
validate_schedule path perturbed first second = do
  harness ← object_at perturbed "harness_truth" (at_key path "perturbed.harness_truth")
  first_id ←
      string_at first.identity "attempt_id"
        (at_key path "perturbed.attempts[0].identity.attempt_id")
  reached_value ← subscript harness "reached_attempt_ids"
  reached ← strings reached_value (at_key path "perturbed.harness_truth.reached_attempt_ids")
  second_id ←
      string_at second.identity "attempt_id"
        (at_key path "perturbed.attempts[1].identity.attempt_id")
  expect_that
      (all_of (
        field_is harness "boundary_name" (str "mcp_client_result_delivery")
        ∷ field_is harness "injected_attempt_id" (str first_id)
        ∷ pure (strings_eq reached (first_id ∷ second_id ∷ []))
        ∷ []))
      (format (path ∷ ".perturbed does not prove the declared injected schedule" ∷ []))
  undelivered ←
      object_at harness "undelivered_result"
        (at_key path "perturbed.harness_truth.undelivered_result")
  observed ← require_object first.observer_truth (at_key path "perturbed.first_observation")
  history ← list_at observed "history" (at_key path "perturbed.first_observation.history")
  event_value ← subscript_item history 0
  event ← require_object event_value (at_key path "perturbed.first_observation.history[0]")
  expect_that (same_refund undelivered event)
      (format (path ∷ ".perturbed undelivered result and committed-effect evidence disagree" ∷ []))
  pure (first_id, second_id)
