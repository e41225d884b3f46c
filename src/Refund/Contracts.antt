-- ===== src/Refund/Contracts.antt =====
-- The fixture check and the two contracts of src/effectprobe/_refund_comparison.py.
use effect_probe.Prelude.{
  Bool, false, ◌&&◌, ◌||◌, not, List, [], ◌∷◌, none, some, is_empty, str_eq, if◌then◌else◌,
}
use effect_probe.Prelude.Int.{pos, ◌-ℤ◌, eq_ℤ}
use effect_probe.Exception.{Exc, Outcome, value, raised, other}
use effect_probe.Kernel.Types.{
  Types, EvaluationDecision, CleanEvaluationContext, RetryEvaluationContext,
}
use effect_probe.Kernel.Contracts.{list_eq}
use effect_probe.Refund.Model.{
  RefundCommand, RefundEvent, RefundReceipt, RefundState, RefundObservation, CanonicalRefundEvent,
  CanonicalRefundState, payment_id, payment_minor_units, event_eq, event_eq_iff, state_eq,
  canonical_event_eq, canonical_state_eq, canonical_state_eq_iff,
}

-- The types of a refund case over an outer state.
abbrev pub RefundTypes : Type 0 → Types
RefundTypes S = record {
  Outer = S;
  Input = RefundCommand;
  Return = RefundReceipt;
  State = RefundState;
  Event = RefundEvent;
  CanonState = CanonicalRefundState;
  CanonEvent = CanonicalRefundEvent;
  event_eq = event_eq;
  event_eq_iff = event_eq_iff;
  state_eq = canonical_state_eq;
  state_eq_iff = canonical_state_eq_iff;
}

abbrev pub not_fresh : Exc
not_fresh =
    other
      (record { type_name = "ValueError"; text = "refund world fixture is not fresh and empty" })

-- `validate_refund_fixture`
unfoldable pub validate_refund_fixture : RefundObservation → Outcome Unit
validate_refund_fixture o =
    if not (
        state_eq o.state (record {
          payment_id = payment_id;
          payment_minor_units = payment_minor_units;
          refunded_minor_units = pos 0;
          key_index_size = 0;
        }))
      || not (is_empty o.history)
    then raised not_fresh
    else value tt

-- An attribute of `None`.
abbrev pub no_receipt : Exc
no_receipt = other (record {
  type_name = "AttributeError";
  text = "'NoneType' object has no attribute 'refund_id'";
})

-- `len(delta) == 1 and delta[0] == expected`, where `expected` takes its key from `delta[0]`.
abbrev pub is_only_event : RefundReceipt → RefundCommand → List RefundEvent → Bool
is_only_event receipt command [] = false
is_only_event receipt command (e ∷ []) = event_eq e (record {
  refund_id = receipt.refund_id;
  payment_id = command.payment_id;
  amount_minor_units = command.amount_minor_units;
  operation_key = e.operation_key;
})
is_only_event receipt command (e ∷ f ∷ rest) = false

abbrev pub clean_decision : Bool → EvaluationDecision
clean_decision passed = record {
  passed = passed;
  explanation =
      if passed
      then "one committed refund, returned receipt, and final state match the request"
      else "clean refund evidence does not match exactly one requested commit";
}

-- `only_perturbed_event is not None and subject_result.refund_id == only_perturbed_event.refund_id`
abbrev pub names_only_event : RefundReceipt → List RefundEvent → Bool
names_only_event receipt [] = false
names_only_event receipt (e ∷ []) = str_eq receipt.refund_id e.refund_id
names_only_event receipt (e ∷ f ∷ rest) = false

module _ {S : Type 0} where
  -- `passed` of `_one_refund_matches_request`
  unfoldable pub clean_refund_passed : CleanEvaluationContext (RefundTypes S) → RefundReceipt → Bool
  clean_refund_passed context receipt =
      is_only_event receipt context.input context.history_delta
      && str_eq receipt.payment_id context.input.payment_id
      && eq_ℤ receipt.amount_minor_units context.input.amount_minor_units
      && eq_ℤ
          (context.final.state.refunded_minor_units -ℤ context.baseline.state.refunded_minor_units)
          context.input.amount_minor_units

  -- `_one_refund_matches_request`
  unfoldable pub one_refund_matches_request :
      CleanEvaluationContext (RefundTypes S) → Outcome EvaluationDecision
  one_refund_matches_request context = elim context.returned_result [
    | none ↦ raised no_receipt
    | some receipt ↦ value (clean_decision (clean_refund_passed context receipt))
  ]

  -- `passed` of `_no_additional_refund_after_retry`
  unfoldable pub retry_refund_passed : RetryEvaluationContext (RefundTypes S) → Bool
  retry_refund_passed context =
      let clean_delta =
        context.clean.final.state.refunded_minor_units
        -ℤ context.clean.baseline.state.refunded_minor_units in
      let perturbed_delta =
        context.perturbed_final.state.refunded_minor_units
        -ℤ context.perturbed_baseline.state.refunded_minor_units in
      let subject_result = context.run.subject_result in
      list_eq canonical_event_eq context.canonical_clean_history_delta
        context.canonical_perturbed_history_delta
      && (eq_ℤ clean_delta perturbed_delta && eq_ℤ perturbed_delta context.input.amount_minor_units)
      && names_only_event subject_result context.perturbed_history_delta
      && str_eq subject_result.payment_id context.input.payment_id
      && eq_ℤ subject_result.amount_minor_units context.input.amount_minor_units

  -- `_no_additional_refund_after_retry`
  unfoldable pub no_additional_refund_after_retry :
      RetryEvaluationContext (RefundTypes S) → Outcome EvaluationDecision
  no_additional_refund_after_retry context =
      let passed = retry_refund_passed context in
      value (record {
        passed = passed;
        explanation =
            if passed
            then "perturbed retry preserved the clean committed-effect and receipt semantics"
            else "perturbed retry produced an additional or inconsistent committed refund";
      })
