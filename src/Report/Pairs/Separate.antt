-- ===== src/Report/Pairs/Separate.antt =====
-- The identities of the pairs of one artifact (src/effectprobe/_mcp_reports.py, _validate_pair): no
-- trial, delivery or attempt id that the checks have seen stands for two things.
use effect_probe.Prelude.{String, List, [], ◌∷◌}
use effect_probe.Exception.Keeps.{Keeps, Keeps-pure, Keeps-raise, Keeps-bind, Keeps-step}
use effect_probe.Artifact.{JsonValue, JsonFields}
use effect_probe.Report.Checks.{distinct}
use effect_probe.Report.Checks.Passed.{expect-value}
use effect_probe.Report.Checks.Kept.{
  subscript-Keeps, require_object-Keeps, expect-Keeps, expect_that-Keeps, all_of-Keeps,
  field_is-Keeps, expect_field-Keeps, string_at-Keeps, object_at-Keeps, list_at-Keeps, each-Keeps,
}
use effect_probe.Report.Evidence.{ParsedAttempt}
use effect_probe.Report.Evidence.Kept.{
  subscript_item-Keeps, strings-Keeps, decode_cleanup-Keeps, history_growth-Keeps,
  decode_attempt-Keeps, transport-Keeps, observed_refunds-Keeps, same_refund-Keeps, receipt-Keeps,
  validate_baseline-Keeps,
}
use effect_probe.Report.Pairs.{
  CleanPart, validate_clean, validate_identities, validate_perturbed, validate_pair,
}
use effect_probe.Report.Attempts.{validate_attempts, validate_effects, validate_schedule}
use effect_probe.Report.Seen.{Seen, PairScope, first_two, record_requests}
use effect_probe.Report.Pairs.Marks.{
  IsSeparate, mark-IsSeparate, marking-Keeps, eight_ids, four_equal,
}

first_two-Keeps : (parsed : List ParsedAttempt) → Keeps IsSeparate (first_two parsed)
first_two-Keeps [] = Keeps-raise _
first_two-Keeps (a ∷ []) = Keeps-raise _
first_two-Keeps (a ∷ b ∷ rest) = Keeps-pure _

record_requests-Keeps : (ids : List String) → Keeps IsSeparate (record_requests ids)
record_requests-Keeps ids = record { at = λ s h. h }

module _ (scope : PairScope) where
  identities-Keeps :
      (path : String) (clean : CleanPart) (trial_id : String) (named : String × String)
      (first second : ParsedAttempt)
      → Keeps IsSeparate (validate_identities scope path clean trial_id named first second)
  unfolding validate_identities
  identities-Keeps path clean trial_id (first_id, second_id) first second =
      Keeps-bind (string_at-Keeps IsSeparate first.identity _ _) (λ first_delivery.
        Keeps-bind (string_at-Keeps IsSeparate second.identity _ _) (λ second_delivery.
          Keeps-bind (expect-Keeps IsSeparate _ _) (λ _.
            Keeps-bind (expect-Keeps IsSeparate _ _) (λ _.
              Keeps-step (expect-Keeps IsSeparate _ _) (λ _ s₁ _ counted.
                let ts = distinct (clean.trial_id ∷ trial_id ∷ []) in
                let ds =
                  distinct (clean.delivery_id ∷ distinct (first_delivery ∷ second_delivery ∷ [])) in
                let tries = distinct (clean.attempt_id ∷ distinct (first_id ∷ second_id ∷ [])) in
                let (a, b, c, d) = four_equal _ _ _ _ (expect-value s₁ _ _ counted) in
                marking-Keeps _ ts ds tries _ (λ seen.
                  mark-IsSeparate seen scope.operation_id scope.refund.operation_key ts ds tries
                    (eight_ids ts ds tries a b c) d))))))

  clean-Keeps :
      (pair_id path : String) (pair : JsonFields)
      → Keeps IsSeparate (validate_clean scope pair_id path pair)
  unfolding validate_clean
  clean-Keeps pair_id path pair = Keeps-bind (object_at-Keeps IsSeparate pair _ _) (λ clean.
      Keeps-bind (expect_field-Keeps IsSeparate clean _ _ _) (λ _.
        Keeps-bind (subscript-Keeps IsSeparate clean _) (λ baseline.
          Keeps-bind (validate_baseline-Keeps IsSeparate baseline _ _) (λ _.
            Keeps-bind (subscript-Keeps IsSeparate clean _) (λ attempt_value.
              Keeps-bind (decode_attempt-Keeps IsSeparate _ _ _ attempt_value _) (λ attempt.
                Keeps-bind (expect-Keeps IsSeparate _ _) (λ _.
                  Keeps-bind (observed_refunds-Keeps IsSeparate _ attempt.observer_truth _ _) (λ _.
                    Keeps-bind
                      (receipt-Keeps IsSeparate attempt.returned_result attempt.observer_truth _ _)
                      (λ _.
                        Keeps-bind
                          (history_growth-Keeps IsSeparate baseline attempt.observer_truth _)
                          (λ growth. Keeps-bind (subscript-Keeps IsSeparate clean _) (λ delta.
                            Keeps-bind (require_object-Keeps IsSeparate attempt.observer_truth _)
                              (λ observed.
                                Keeps-bind (subscript-Keeps IsSeparate observed _) (λ history.
                                  Keeps-bind (expect-Keeps IsSeparate _ _) (λ _.
                                    Keeps-bind (string_at-Keeps IsSeparate attempt.identity _ _)
                                      (λ delivery_id.
                                        Keeps-bind (string_at-Keeps IsSeparate attempt.identity _ _)
                                          (λ attempt_id.
                                            Keeps-bind (expect-Keeps IsSeparate _ _) (λ _.
                                              Keeps-bind (subscript-Keeps IsSeparate clean _)
                                                (λ deliveries.
                                                  Keeps-bind
                                                    (transport-Keeps IsSeparate deliveries _ _ _ _)
                                                    (λ requests.
                                                      Keeps-bind (record_requests-Keeps requests)
                                                        (λ _.
                                                          Keeps-bind
                                                            (subscript-Keeps IsSeparate clean _)
                                                            (λ cleanup_value.
                                                            Keeps-bind
                                                            (decode_cleanup-Keeps IsSeparate
                                                            cleanup_value _ _)
                                                            (λ cleanup.
                                                            Keeps-pure _))))))))))))))))))))))

  attempts-Keeps :
      (trial_id path : String) (perturbed : JsonFields)
      → Keeps IsSeparate (validate_attempts scope trial_id path perturbed)
  unfolding validate_attempts
  attempts-Keeps trial_id path perturbed =
      Keeps-bind (list_at-Keeps IsSeparate perturbed _ _) (λ attempts.
        Keeps-bind (expect-Keeps IsSeparate _ _) (λ _.
          Keeps-bind
            (each-Keeps IsSeparate _ (decode_attempt-Keeps IsSeparate _ _ trial_id) attempts _ 0)
            (λ parsed. Keeps-bind (first_two-Keeps parsed) (λ (first, second).
              Keeps-bind (expect-Keeps IsSeparate _ _) (λ _.
                Keeps-bind
                  (expect_that-Keeps IsSeparate _ _ (
                    all_of-Keeps IsSeparate _ (
                      Keeps-pure _,
                      (Keeps-pure _, (field_is-Keeps IsSeparate perturbed _ _, tt)),
                    )))
                  (λ _. Keeps-pure _))))))

  effects-Keeps :
      (path : String) (perturbed : JsonFields) (first second : ParsedAttempt)
      → Keeps IsSeparate (validate_effects scope path perturbed first second)
  unfolding validate_effects
  effects-Keeps path perturbed first second =
      Keeps-bind (observed_refunds-Keeps IsSeparate _ first.observer_truth _ _) (λ _.
        Keeps-bind (observed_refunds-Keeps IsSeparate _ second.observer_truth _ _) (λ _.
          Keeps-bind (receipt-Keeps IsSeparate second.returned_result second.observer_truth _ _)
            (λ _.
              Keeps-bind
                (history_growth-Keeps IsSeparate first.observer_truth second.observer_truth _)
                (λ growth. Keeps-bind (expect-Keeps IsSeparate _ _) (λ _.
                  Keeps-bind (subscript-Keeps IsSeparate perturbed _) (λ baseline.
                    history_growth-Keeps IsSeparate baseline second.observer_truth _))))))

schedule-Keeps :
    (path : String) (perturbed : JsonFields) (first second : ParsedAttempt)
    → Keeps IsSeparate (validate_schedule path perturbed first second)
unfolding validate_schedule
schedule-Keeps path perturbed first second =
    Keeps-bind (object_at-Keeps IsSeparate perturbed _ _) (λ harness.
      Keeps-bind (string_at-Keeps IsSeparate first.identity _ _) (λ first_id.
        Keeps-bind (subscript-Keeps IsSeparate harness _) (λ reached_value.
          Keeps-bind (strings-Keeps IsSeparate reached_value _) (λ reached.
            Keeps-bind (string_at-Keeps IsSeparate second.identity _ _) (λ second_id.
              Keeps-bind
                (expect_that-Keeps IsSeparate _ _ (
                  all_of-Keeps IsSeparate _ (
                    field_is-Keeps IsSeparate harness _ _,
                    (field_is-Keeps IsSeparate harness _ _, (Keeps-pure _, tt)),
                  )))
                (λ _. Keeps-bind (object_at-Keeps IsSeparate harness _ _) (λ undelivered.
                  Keeps-bind (require_object-Keeps IsSeparate first.observer_truth _) (λ observed.
                    Keeps-bind (list_at-Keeps IsSeparate observed _ _) (λ history.
                      Keeps-bind (subscript_item-Keeps IsSeparate history 0) (λ event_value.
                        Keeps-bind (require_object-Keeps IsSeparate event_value _) (λ event.
                          Keeps-bind
                            (expect_that-Keeps IsSeparate _ _
                              (same_refund-Keeps IsSeparate undelivered event))
                            (λ _. Keeps-pure _))))))))))))

module _ (scope : PairScope) where
  perturbed-Keeps :
      (pair_id path : String) (pair : JsonFields) (clean : CleanPart)
      → Keeps IsSeparate (validate_perturbed scope pair_id path pair clean)
  unfolding validate_perturbed
  perturbed-Keeps pair_id path pair clean =
      Keeps-bind (object_at-Keeps IsSeparate pair _ _) (λ perturbed.
        Keeps-bind
          (expect_that-Keeps IsSeparate _ _ (
            all_of-Keeps IsSeparate _ (
              field_is-Keeps IsSeparate perturbed _ _,
              (field_is-Keeps IsSeparate perturbed _ _, tt),
            )))
          (λ _. Keeps-bind (subscript-Keeps IsSeparate perturbed _) (λ baseline.
            Keeps-bind (validate_baseline-Keeps IsSeparate baseline _ _) (λ _.
              Keeps-bind (attempts-Keeps scope _ path perturbed) (λ (first, second).
                Keeps-bind (effects-Keeps scope path perturbed first second) (λ growth.
                  Keeps-bind (schedule-Keeps path perturbed first second) (λ named.
                    Keeps-bind (identities-Keeps scope path clean _ named first second) (λ all_ids.
                      Keeps-bind (subscript-Keeps IsSeparate perturbed _) (λ deliveries.
                        Keeps-bind (transport-Keeps IsSeparate deliveries _ _ _ _) (λ requests.
                          Keeps-bind (record_requests-Keeps requests) (λ _.
                            Keeps-bind (subscript-Keeps IsSeparate perturbed _) (λ cleanup_value.
                              Keeps-bind (decode_cleanup-Keeps IsSeparate cleanup_value _ _)
                                (λ cleanup. Keeps-pure _)))))))))))))

  pair-Keeps : (pair_id : String) (v : JsonValue) → Keeps IsSeparate (validate_pair scope pair_id v)
  unfolding validate_pair
  pair-Keeps pair_id v = Keeps-bind (require_object-Keeps IsSeparate v _) (λ pair.
      Keeps-bind (expect_field-Keeps IsSeparate pair _ _ _) (λ _.
        Keeps-bind (expect_field-Keeps IsSeparate pair _ _ _) (λ _.
          Keeps-bind (expect_field-Keeps IsSeparate pair _ _ _) (λ _.
            Keeps-bind (expect_field-Keeps IsSeparate pair _ _ _) (λ _.
              Keeps-bind (clean-Keeps scope pair_id _ pair) (λ clean.
                Keeps-bind (perturbed-Keeps pair_id _ pair clean) (λ perturbed. Keeps-pure _)))))))

pub validate_pair-IsSeparate :
    (scope : PairScope) (pair_id : String) (v : JsonValue) (seen : Seen)
    → IsSeparate seen
    → IsSeparate (validate_pair scope pair_id v seen).1
validate_pair-IsSeparate scope pair_id v seen h = (pair-Keeps scope pair_id v).at seen h
