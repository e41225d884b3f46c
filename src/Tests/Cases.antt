-- ===== src/Tests/Cases.antt =====
-- The two registered refund comparisons, run from a new tracker (src/tests/test_refund_comparison.py
-- runs the same two cases).
use effect_probe.Prelude.{
  ℕ, ◌≡◌, ◌≢◌, refl, Bool, true, false, [], All, Any, decimal, length, some, none, arith,
}
use effect_probe.Prelude.Int.{◌+ℤ◌, ◌-ℤ◌}
use effect_probe.Identity.{identity_for}
use effect_probe.Exception.{value, interrupt, raise, M, ◌>>=◌, is_exception, type_name, text_of}
use effect_probe.LostResult.{
  invoke, delivery_for, attempt, after_first, record_baseline, finish_second, retry_once, zoom,
  run_commit_then_lose_first_provider_result,
}
use effect_probe.Kernel.Verdicts.{
  InvariantVerdict, AxisStatus, CleanupStatus, error_results, inconclusive_results, aggregate,
}
use effect_probe.Kernel.Verdicts.Axes.{Verdict}
use effect_probe.Kernel.Types.{
  CaseResult, CaseDefinition, World, WorldSession, CleanTrialEvidence, Perturbed,
}
use effect_probe.Kernel.Contracts.{
  error_record, missing_requirement, missing_requirements, history_delta, evaluate_clean_contract,
  evaluate_clean_contracts, evaluate_retry_contract, evaluate_retry_contracts,
}
use effect_probe.Kernel.Session.{enter, exit}
use effect_probe.Kernel.Frames.{Frame, new_frame, set_stage, with_session}
use effect_probe.Kernel.Deltas.{
  caught_errors, check_attempts, observed_delta, assertion_names, invariant_names,
}
use effect_probe.Kernel.Clean.{
  invoke_clean, clean_body, clean_try, conclude_clean, settle_clean, run_clean,
}
use effect_probe.Kernel.Perturbed.{
  compare_baselines, perturbed_history, canonicalize_events, perturbed_body, perturbed_try,
  catch_perturbed, conclude_perturbed, settle_perturbed, run_perturbed,
}
use effect_probe.Kernel.Evaluate.{
  confirmation_result, resolve_candidate, resolve, resolve_candidates, unpaired, paired, run_second,
  run_pair, run_confirmations, case_result, evaluate_case,
}
use effect_probe.Kernel.Cleanup.{Counts, with_session-cleanups}
use effect_probe.Kernel.Accounting.Pairs.{run_pair-raised}
use effect_probe.Kernel.Accounting.Shapes.{names_of}
use effect_probe.Kernel.Confirmation.{Confirmed}
use effect_probe.Kernel.Outcomes.{
  evaluate_case-names, evaluate_case-fail, evaluate_case-pass, evaluate_case-clean_pass,
}
use effect_probe.Refund.Provider.{lookup, insert, refund, observe, invoke_subject}
use effect_probe.Refund.Contracts.{
  validate_refund_fixture, clean_refund_passed, one_refund_matches_request, retry_refund_passed,
  no_additional_refund_after_retry,
}
use effect_probe.Refund.Comparison.{
  RefundWorldTracker, new_tracker, Tracked, world_at, provision, cleanup, world_factory,
  build_refund_case, evaluate_vulnerable_refund, evaluate_keyed_refund,
}

-- Opening this opens every operation that a refund comparison runs.
all_open : ℕ
unfolding decimal ◌+ℤ◌ ◌-ℤ◌ identity_for ◌>>=◌ type_name text_of invoke delivery_for attempt
    after_first record_baseline finish_second retry_once zoom
    run_commit_then_lose_first_provider_result error_results inconclusive_results aggregate
    error_record missing_requirement missing_requirements history_delta evaluate_clean_contract
    evaluate_clean_contracts evaluate_retry_contract evaluate_retry_contracts enter exit
    with_session caught_errors check_attempts observed_delta invoke_clean clean_body clean_try
    conclude_clean settle_clean run_clean compare_baselines perturbed_history canonicalize_events
    perturbed_body perturbed_try catch_perturbed conclude_perturbed settle_perturbed run_perturbed
    confirmation_result resolve_candidate resolve resolve_candidates unpaired paired run_second
    run_pair run_confirmations case_result evaluate_case lookup insert refund observe invoke_subject
    validate_refund_fixture clean_refund_passed one_refund_matches_request retry_refund_passed
    no_additional_refund_after_retry world_at provision cleanup world_factory build_refund_case
    evaluate_vulnerable_refund evaluate_keyed_refund
all_open = 0

-- The evaluation of a case returns, with these results.
abbrev Returned : Bool → Type 0
Returned keyed =
    (result : CaseResult Tracked) × (t : RefundWorldTracker) × (evaluate_case
        (build_refund_case keyed) new_tracker
      ≡ (value result, t))

vulnerable : Returned false
unfolding all_open
vulnerable = (_, _, refl)

keyed : Returned true
unfolding all_open
keyed = (_, _, refl)

-- The vulnerable subject is clean and unsafe, on six worlds with six cleanups.
vulnerable_run :
    (vulnerable.0.clean_validity.status ≡ AxisStatus.pass)
    × (vulnerable.0.retry_safety.status ≡ AxisStatus.fail)
    × (length vulnerable.1.worlds ≡ 6)
    × (vulnerable.1.cleanup_attempts ≡ 6)
unfolding vulnerable all_open
vulnerable_run = (refl, refl, refl, refl)

evaluate_case-fail_example :
    Any (Confirmed vulnerable.0.confirmations) vulnerable.0.primary.retry_results
unfolding vulnerable all_open
evaluate_case-fail_example =
    evaluate_case-fail (build_refund_case false) new_tracker vulnerable.2 refl

evaluate_case-pass_example :
    (keyed.0.primary.retry_results ≢ [])
    × All (Verdict InvariantVerdict.pass) keyed.0.primary.retry_results
    × ((run : Perturbed Tracked) × (keyed.0.primary.perturbed ≡ some run))
unfolding keyed all_open
evaluate_case-pass_example = evaluate_case-pass (build_refund_case true) new_tracker keyed.2 refl

evaluate_case-clean_pass_example :
    (vulnerable.0.primary.clean_results ≢ [])
    × All (Verdict InvariantVerdict.pass) vulnerable.0.primary.clean_results
    × ((evidence : CleanTrialEvidence Tracked) × (vulnerable.0.primary.clean ≡ some evidence))
unfolding vulnerable all_open
evaluate_case-clean_pass_example =
    evaluate_case-clean_pass (build_refund_case false) new_tracker vulnerable.2 refl

evaluate_case-names_example :
    (names_of vulnerable.0.clean_validity.invariants ≡ assertion_names (build_refund_case false))
    × (names_of vulnerable.0.retry_safety.invariants ≡ invariant_names (build_refund_case false))
evaluate_case-names_example = evaluate_case-names (build_refund_case false) new_tracker vulnerable.2

-- A case whose world factory is interrupted.
abbrev interrupted_case : CaseDefinition Tracked
interrupted_case =
    let case = build_refund_case true in
    record case {
      world_factory =
          λ trial_id. raise (interrupt (record { type_name = "KeyboardInterrupt"; text = "" }));
    }

run_pair-raised_example :
    is_exception (interrupt (record { type_name = "KeyboardInterrupt"; text = "" })) ≡ false
unfolding all_open
run_pair-raised_example =
    run_pair-raised interrupted_case "primary" new_tracker {w' = new_tracker} refl

-- The session of a keyed refund world, with a block that only notes its stage.
abbrev keyed_session : WorldSession Tracked
keyed_session = record {
  provision = provision true (record { value = "primary/clean" });
  cleanup = cleanup;
  world = none;
  cleanup_status = CleanupStatus.not_attempted;
}

abbrev noting_block : World Tracked → M (Frame Tracked (CleanTrialEvidence Tracked)) Unit
noting_block world = set_stage "baseline_observer"

noting-Counts : Counts (λ t. t.cleanup_attempts) keyed_session noting_block
unfolding provision cleanup
noting-Counts = record {
  by_cleanup = λ world w. omega arith;
  by_provision = λ w. refl;
  by_body = λ world fr. refl;
}

with_session-cleanups_example :
    (with_session keyed_session noting_block (new_frame new_tracker)).1.outer.cleanup_attempts ≡ 1
unfolding provision
with_session-cleanups_example =
    with_session-cleanups (λ t. t.cleanup_attempts) keyed_session noting_block
      (new_frame new_tracker) noting-Counts (λ x e. cc e)
