-- ===== src/Tests/Evidence.antt =====
-- The theorems on identities, runs, histories, coverage, axes and the refund provider, at inputs.
use effect_probe.Prelude.{
  ℕ, String, ◌≡◌, ◌≢◌, refl, ◌↔◌, ◌⊎◌, true, false, List, [], ◌∷◌, ◌++◌, none, some, All, Any,
  str_eq, str_eq_iff,
}
use effect_probe.Prelude.Int.{pos, ◌+ℤ◌}
use effect_probe.Identity.{AttemptId, TrialId, provider_result_loss, identity_for, AttemptOutcome}
use effect_probe.Identity.Distinct.{identity_for-first-second}
use effect_probe.Exception.{value, raised, boundary_not_reached, fault_not_propagated, ◌>>=◌}
use effect_probe.Exception.Triple.{Leaves}
use effect_probe.LostResult.{
  AttemptEvidence, RunEvidence, Controller, Subject, finish, deliver, invoke, new_controller,
  delivery_for, attempt, after_first, record_baseline, finish_second, retry_once,
  run_commit_then_lose_first_provider_result,
}
use effect_probe.LostResult.Alone.{undisturbed, count_deliveries}
use effect_probe.LostResult.Delivery.{crossings, IsSpent, invoke-IsSpent}
use effect_probe.LostResult.Runs.{LostOnce, run-LostOnce, run-first-returned}
use effect_probe.Kernel.Verdicts.{InvariantVerdict, AxisStatus, InvariantResult, aggregate}
use effect_probe.Kernel.Verdicts.Axes.{Verdict, aggregate-fail, aggregate-pass}
use effect_probe.Kernel.Types.{SurfaceObservation}
use effect_probe.Kernel.Contracts.{history_delta, missing_requirements}
use effect_probe.Kernel.Deltas.{check_attempts}
use effect_probe.Kernel.History.{history_delta_iff, Extends, check_attempts_iff}
use effect_probe.Kernel.Coverage.{Met, missing_requirements_iff}
use effect_probe.Refund.Model
use effect_probe.Refund.Model.{RefundCommand, RefundReceipt, RefundObservation}
use effect_probe.Refund.Provider.{
  lookup, new_provider, refund, RefundWorld, new_world, invoke_subject,
}
use effect_probe.Refund.Comparison.{refund_coverage, state_requirement, history_requirement}
use effect_probe.Refund.Idempotence.{
  refund_idempotent, event_of, receipt_of, committed, observe_world, Committed, keyed_retry,
  unsafe_retry,
}

abbrev trial : TrialId
trial = record { value = "primary/perturbed" }

identity_for-first-second_example :
    (identity_for Model.operation_id trial 1).attempt_id
    ≢ (identity_for Model.operation_id trial 2).attempt_id
identity_for-first-second_example = identity_for-first-second Model.operation_id trial

abbrev command : RefundCommand
command = record {
  payment_id = Model.payment_id;
  amount_minor_units = pos 2500;
  operation_key = "refund-key-001";
}

-- The keyed subject under the schedule returns this evidence and this world.
keyed_run :
    (ev : RunEvidence RefundReceipt RefundObservation) × (w : RefundWorld)
    × (run_commit_then_lose_first_provider_result Model.operation_id
          (invoke_subject command)
          observe_world
          trial
          none
          provider_result_loss
          (new_world true)
        ≡ (value ev, w))
unfolding run_commit_then_lose_first_provider_result retry_once attempt after_first record_baseline
    finish_second delivery_for invoke invoke_subject refund lookup ◌>>=◌
keyed_run = (_, _, refl)

run-LostOnce_example :
    LostOnce
      (invoke_subject command)
      observe_world
      Model.operation_id
      trial
      none
      (new_world true)
      keyed_run.0
      keyed_run.1
unfolding invoke_subject
run-LostOnce_example =
    run-LostOnce Model.operation_id (invoke_subject command) observe_world trial
      provider_result_loss none (new_world true) ((λ s. ((λ x s'. tt), λ e. refl))) keyed_run.2

-- A subject that catches the lost result and answers by itself.
abbrev catching : Subject ℕ ℕ
catching = deliver 7 (λ o. finish (value 0))

run-first-returned_example :
    let (_, s₁, c) =
      invoke
        (delivery_for (identity_for Model.operation_id trial 1).attempt_id)
        catching
        3
        (new_controller provider_result_loss) in
    let ended =
      run_commit_then_lose_first_provider_result Model.operation_id catching
        (λ s. (value s, s))
        trial
        (some 3)
        provider_result_loss
        3 in
    ((c ≡ new_controller provider_result_loss)
      × (ended ≡ (
        raised (
            boundary_not_reached
              (identity_for Model.operation_id trial 1)
              provider_result_loss.boundary_name),
        s₁,
      )))
    ⊎ ((c ≢ new_controller provider_result_loss)
        × (ended ≡ (
          raised (
              fault_not_propagated
                (identity_for Model.operation_id trial 1)
                provider_result_loss.boundary_name),
          s₁,
        )))
unfolding invoke delivery_for
run-first-returned_example =
    run-first-returned Model.operation_id catching (λ s. (value s, s)) trial provider_result_loss 3
      3 0 refl

abbrev first_id : AttemptId
first_id = record { value = "attempt/1" }

abbrev second_id : AttemptId
second_id = record { value = "attempt/2" }

abbrev spent : Controller ℕ
spent = record {
  schedule = provider_result_loss;
  reached_attempt_ids = first_id ∷ [];
  injected_attempt_id = some first_id;
  undelivered_result = some 7;
}

invoke-IsSpent_example :
    let (o, s', c') = invoke (delivery_for second_id) catching 3 spent in
    (o ≡ (undisturbed catching 3).0)
    × (s' ≡ (undisturbed catching 3).1)
    × IsSpent first_id 7 c'
    × (c'.reached_attempt_ids
        ≡ (first_id ∷ []) ++ crossings second_id (count_deliveries catching 3))
invoke-IsSpent_example =
    invoke-IsSpent second_id first_id 7 catching 3 spent
      (record { injected_by = refl; payload = refl })

refund_idempotent_example :
    refund
      (record command { amount_minor_units = pos 9 })
      (some "k")
      (refund command (some "k") new_provider).1
    ≡ refund command (some "k") new_provider
refund_idempotent_example =
    refund_idempotent "k" new_provider command (record command { amount_minor_units = pos 9 })

keyed_retry_example :
    Leaves
      (λ ev w'.
        Committed
          (event_of command (some "refund-key-001") new_provider ∷ [])
          (receipt_of command new_provider)
          (new_world true)
          ev
          w'
        × (w'.provider.refunded_minor_units ≡ pos 0 +ℤ pos 2500))
      (λ w'. ⊥)
      (run_commit_then_lose_first_provider_result Model.operation_id
        (invoke_subject command)
        observe_world
        trial
        none
        provider_result_loss
        (new_world true))
unfolding lookup
keyed_retry_example =
    keyed_retry Model.operation_id trial provider_result_loss command new_provider [] refl

unsafe_retry_example :
    Leaves
      (λ ev w'.
        Committed
          (event_of command none new_provider
            ∷ event_of command none (committed command none new_provider)
            ∷ [])
          (receipt_of command (committed command none new_provider))
          (new_world false)
          ev
          w'
        × (w'.provider.refunded_minor_units ≡ pos 0 +ℤ pos 2500 +ℤ pos 2500))
      (λ w'. ⊥)
      (run_commit_then_lose_first_provider_result Model.operation_id
        (invoke_subject command)
        observe_world
        trial
        none
        provider_result_loss
        (new_world false))
unsafe_retry_example =
    unsafe_retry Model.operation_id trial provider_result_loss command new_provider []

history_delta_iff_example :
    (history_delta str_eq ("a" ∷ []) ("a" ∷ "b" ∷ []) ≡ value ("b" ∷ []))
    ↔ (◌≡◌ {A = List String} ("a" ∷ "b" ∷ []) (("a" ∷ []) ++ ("b" ∷ [])))
history_delta_iff_example =
    history_delta_iff str_eq str_eq_iff ("a" ∷ []) ("a" ∷ "b" ∷ []) ("b" ∷ [])

-- An attempt that observed a history.
abbrev attempt_with : List String → AttemptEvidence ℕ (SurfaceObservation ℕ String)
attempt_with h = record {
  identity = identity_for Model.operation_id trial 1;
  outcome = AttemptOutcome.returned;
  observation = record { state = 0; history = h };
  returned_result = none;
}

check_attempts_iff_example :
    (check_attempts str_eq [] (attempt_with ("a" ∷ []) ∷ attempt_with ("a" ∷ "b" ∷ []) ∷ [])
      ≡ value tt)
    ↔ Extends str_eq str_eq_iff [] (attempt_with ("a" ∷ []) ∷ attempt_with ("a" ∷ "b" ∷ []) ∷ [])
check_attempts_iff_example =
    check_attempts_iff str_eq str_eq_iff []
      (attempt_with ("a" ∷ []) ∷ attempt_with ("a" ∷ "b" ∷ []) ∷ [])

missing_requirements_iff_example :
    (missing_requirements (state_requirement ∷ history_requirement ∷ []) refund_coverage ≡ [])
    ↔ All (Met refund_coverage) (state_requirement ∷ history_requirement ∷ [])
missing_requirements_iff_example =
    missing_requirements_iff (state_requirement ∷ history_requirement ∷ []) refund_coverage

abbrev failed : InvariantResult
failed = record {
  name = "no_additional_refund_after_retry";
  verdict = InvariantVerdict.fail;
  explanation = "reproduced";
  missing_evidence = [];
  candidate = false;
}

aggregate-fail_example :
    ((aggregate (failed ∷ []) false true).status ≡ AxisStatus.fail)
    ↔ Any (Verdict InvariantVerdict.fail) (failed ∷ [])
aggregate-fail_example = aggregate-fail (failed ∷ []) false true

aggregate-pass_example :
    ((aggregate (failed ∷ []) false true).status ≡ AxisStatus.pass)
    ↔ ((failed ∷ [] ≢ []) × All (Verdict InvariantVerdict.pass) (failed ∷ []) × (true ≡ false))
aggregate-pass_example = aggregate-pass (failed ∷ []) false true
