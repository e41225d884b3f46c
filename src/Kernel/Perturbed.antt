-- ===== src/Kernel/Perturbed.antt =====
-- `_run_perturbed` of src/effectprobe/_semantic_kernel.py.
use effect_probe.Prelude.{◌&&◌, List, [], ◌∷◌, ◌++◌, some, if◌then◌else◌}
use effect_probe.Identity.{TrialId}
use effect_probe.Exception.{
  Exc, Outcome, value, raised, M, pure, raise, ◌>>=◌, ◌>>◌, is_exception, text_of, other,
  boundary_not_reached, fault_not_propagated,
}
use effect_probe.LostResult.{run_commit_then_lose_first_provider_result}
use effect_probe.Kernel.Verdicts.{retry, error_results, inconclusive_results}
use effect_probe.Kernel.Types.{Types, CleanTrialEvidence, World, CaseDefinition, Perturbed}
use effect_probe.Kernel.Contracts.{error_record, history_delta, evaluate_retry_contracts}
use effect_probe.Kernel.Deltas.{
  from_outcome, tail_from, caught_errors, default_results, check_attempts, last_observation,
  invariant_names,
}
use effect_probe.Kernel.Frames.{
  Frame, new_frame, on_outer, set_stage, set_session, set_evidence, set_evaluated, with_session,
  Trial, session_status,
}

abbrev pub baselines_differ : Exc
baselines_differ = other (record {
  type_name = "ValueError";
  text = "clean and perturbed canonical state baselines differ";
})

module _ {T : Types} where
  -- The comparison of the canonical baselines.
  unfoldable pub compare_baselines : CaseDefinition T → T.State → T.State → M T.Outer Unit
  compare_baselines case perturbed_state clean_state = do
    left ← case.canonicalize_state perturbed_state
    right ← case.canonicalize_state clean_state
    if T.state_eq left right then pure tt else raise baselines_differ

  -- `perturbed_delta`
  unfoldable pub perturbed_history :
      CaseDefinition T → List T.Event → Perturbed T → List T.Event → Outcome (List T.Event)
  perturbed_history case baseline run final =
      if case.coverage.history && case.coverage.complete_history
      then (elim (check_attempts T.event_eq baseline run.attempts) [
        | value u ↦ history_delta T.event_eq baseline final
        | raised e ↦ raised e
      ])
      else value (tail_from baseline final)

  -- `tuple(case.canonicalize_event(event) for event in events)`
  unfoldable pub canonicalize_events :
      CaseDefinition T → List T.Event → M T.Outer (List T.CanonEvent)
  canonicalize_events case [] = pure []
  canonicalize_events case (event ∷ events) = do
    c ← case.canonicalize_event event
    cs ← canonicalize_events case events
    pure (c ∷ cs)

  -- The body of the `with` statement of `_run_perturbed`.
  unfoldable pub perturbed_body :
      CaseDefinition T → TrialId → CleanTrialEvidence T → World T → M (Frame T (Perturbed T)) Unit
  perturbed_body case trial_id clean_evidence world = do
    set_stage "baseline_observer"
    baseline ← on_outer world.observe
    set_stage "fixture_validation"
    on_outer (world.validate_fixture baseline)
    set_stage "baseline_comparison"
    on_outer (compare_baselines case baseline.state clean_evidence.baseline.state)
    set_stage "lost_result_schedule"
    run ← on_outer (
        run_commit_then_lose_first_provider_result case.operation_id (world.invoke case.input)
          world.observe trial_id (some baseline) case.schedule)
    set_evidence run
    let final = last_observation run.baseline run.attempts
    set_stage "history_validation"
    delta ← from_outcome (perturbed_history case baseline.history run final.history)
    canonical_clean ← on_outer (canonicalize_events case clean_evidence.history_delta)
    canonical_perturbed ← on_outer (canonicalize_events case delta)
    set_stage "retry_evaluation"
    evaluated ← on_outer (
        evaluate_retry_contracts case.coverage
          (record {
            input = case.input;
            clean = record {
              input = case.input;
              baseline = clean_evidence.baseline;
              final = clean_evidence.attempt.observation;
              history_delta = clean_evidence.history_delta;
              returned_result = clean_evidence.attempt.returned_result;
            };
            perturbed_baseline = baseline;
            perturbed_final = final;
            perturbed_history_delta = delta;
            canonical_clean_history_delta = canonical_clean;
            canonical_perturbed_history_delta = canonical_perturbed;
            run = run;
          })
          case.retry_invariants)
    set_evaluated evaluated

  -- The `try` block of `_run_perturbed`.
  unfoldable pub perturbed_try :
      CaseDefinition T → TrialId → CleanTrialEvidence T → M (Frame T (Perturbed T)) Unit
  perturbed_try case trial_id clean_evidence = do
    session ← on_outer (case.world_factory trial_id)
    set_session session
    set_stage "provision"
    with_session session (perturbed_body case trial_id clean_evidence)

  -- The `except` clauses of `_run_perturbed` for an `Exception`.
  unfoldable pub catch_perturbed :
      CaseDefinition T → Exc → Frame T (Perturbed T) → Frame T (Perturbed T)
  catch_perturbed case (boundary_not_reached identity boundary) fr = record fr {
    results =
        inconclusive_results (invariant_names case)
          (text_of (boundary_not_reached identity boundary));
  }
  catch_perturbed case (fault_not_propagated identity boundary) fr = record fr {
    errors =
        fr.errors
        ++ (error_record retry "fault_propagation" (fault_not_propagated identity boundary) ∷ []);
    results = error_results (invariant_names case) "fault was caught before configured retry";
  }
  catch_perturbed case e fr = record fr { errors = fr.errors ++ caught_errors retry fr.stage e }

  -- What follows the `try` statement of `_run_perturbed`.
  unfoldable pub conclude_perturbed : CaseDefinition T → Frame T (Perturbed T) → Trial (Perturbed T)
  conclude_perturbed case fr = record {
    evidence = fr.evidence;
    results =
        default_results (invariant_names case) "perturbed trial did not complete validly" fr.errors
          fr.results;
    errors = fr.errors;
    cleanup = session_status fr.session;
  }

  unfoldable pub settle_perturbed :
      CaseDefinition T
      → Outcome Unit
      → Frame T (Perturbed T)
      → Outcome (Trial (Perturbed T)) × T.Outer
  settle_perturbed case (value u) fr = (value (conclude_perturbed case fr), fr.outer)
  settle_perturbed case (raised e) fr =
      if is_exception e
      then (value (conclude_perturbed case (catch_perturbed case e fr)), fr.outer)
      else (raised e, fr.outer)

  -- `_run_perturbed`
  unfoldable pub run_perturbed :
      CaseDefinition T → TrialId → CleanTrialEvidence T → M T.Outer (Trial (Perturbed T))
  run_perturbed case trial_id clean_evidence w =
      let (o, fr) = perturbed_try case trial_id clean_evidence (new_frame w) in
      settle_perturbed case o fr
