-- ===== src/Kernel/Clean.antt =====
-- `_run_clean` of src/effectprobe/_semantic_kernel.py.
use effect_probe.Prelude.{◌++◌, Option, none, some, if◌then◌else◌}
use effect_probe.Identity.{TrialId, AttemptOutcome, identity_for}
use effect_probe.Exception.{Outcome, value, raised, M, ◌>>=◌, ◌>>◌, is_exception}
use effect_probe.LostResult.{invoke}
use effect_probe.Kernel.Verdicts.{CleanupStatus, clean}
use effect_probe.Kernel.Types.{Types, CleanTrialEvidence, World, CaseDefinition}
use effect_probe.Kernel.Contracts.{evaluate_clean_contracts}
use effect_probe.Kernel.Deltas.{
  from_outcome, caught_errors, default_results, assertion_names, observed_delta,
}
use effect_probe.Kernel.Frames.{
  Frame, new_frame, on_outer, set_stage, set_session, set_evidence, set_evaluated, with_session,
  Trial, session_status,
}

module _ {T : Types} where
  -- An invocation whose delivery callback is `lambda result: result`.
  unfoldable pub invoke_clean : World T → T.Input → M T.Outer T.Return
  invoke_clean world input w =
      let (o, w', _) = invoke {C = Unit {0}} (λ r c. (value r, c)) (world.invoke input) w tt in
      (o, w')

  -- The body of the `with` statement of `_run_clean`.
  unfoldable pub clean_body :
      CaseDefinition T → TrialId → World T → M (Frame T (CleanTrialEvidence T)) Unit
  clean_body case trial_id world = do
    set_stage "baseline_observer"
    baseline ← on_outer world.observe
    set_stage "fixture_validation"
    on_outer (world.validate_fixture baseline)
    set_stage "subject_invocation"
    returned ← on_outer (invoke_clean world case.input)
    set_stage "final_observer"
    final ← on_outer world.observe
    set_stage "history_validation"
    delta ← from_outcome (observed_delta case baseline.history final.history)
    set_evidence (record {
      trial_id = trial_id;
      baseline = baseline;
      attempt = record {
        identity = identity_for case.operation_id trial_id 1;
        outcome = AttemptOutcome.returned;
        observation = final;
        returned_result = some returned;
      };
      history_delta = delta;
      cleanup = CleanupStatus.not_attempted;
    })
    set_stage "clean_evaluation"
    evaluated ← on_outer (
        evaluate_clean_contracts case.coverage
          (record {
            input = case.input;
            baseline = baseline;
            final = final;
            history_delta = delta;
            returned_result = some returned;
          })
          case.clean_assertions)
    set_evaluated evaluated

  -- The `try` block of `_run_clean`.
  unfoldable pub clean_try : CaseDefinition T → TrialId → M (Frame T (CleanTrialEvidence T)) Unit
  clean_try case trial_id = do
    session ← on_outer (case.world_factory trial_id)
    set_session session
    set_stage "provision"
    with_session session (clean_body case trial_id)

  -- `replace(evidence, cleanup=cleanup)`
  abbrev pub with_cleanup :
      CleanupStatus → Option (CleanTrialEvidence T) → Option (CleanTrialEvidence T)
  with_cleanup status none = none
  with_cleanup status (some e) = some (record e { cleanup = status })

  -- What follows the `try` statement of `_run_clean`.
  unfoldable pub conclude_clean :
      CaseDefinition T → Frame T (CleanTrialEvidence T) → Trial (CleanTrialEvidence T)
  conclude_clean case fr =
      let cleanup = session_status fr.session in
      record {
        evidence = with_cleanup cleanup fr.evidence;
        results =
            default_results (assertion_names case) "clean trial did not complete validly" fr.errors
              fr.results;
        errors = fr.errors;
        cleanup = cleanup;
      }

  -- The `except` clauses of `_run_clean`.
  unfoldable pub settle_clean :
      CaseDefinition T
      → Outcome Unit
      → Frame T (CleanTrialEvidence T)
      → Outcome (Trial (CleanTrialEvidence T)) × T.Outer
  settle_clean case (value u) fr = (value (conclude_clean case fr), fr.outer)
  settle_clean case (raised e) fr =
      if is_exception e
      then (
        value (
            conclude_clean case
              (record fr { errors = fr.errors ++ caught_errors clean fr.stage e })),
        fr.outer,
      )
      else (raised e, fr.outer)

  -- `_run_clean`
  unfoldable pub run_clean : CaseDefinition T → TrialId → M T.Outer (Trial (CleanTrialEvidence T))
  run_clean case trial_id w =
      let (o, fr) = clean_try case trial_id (new_frame w) in settle_clean case o fr
