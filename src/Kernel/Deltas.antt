-- ===== src/Kernel/Deltas.antt =====
-- The parts of `_run_clean` and `_run_perturbed` (src/effectprobe/_semantic_kernel.py) that the two
-- share or that look at histories and failures alone.
use effect_probe.Prelude.{
  String, Bool, ◌&&◌, not, List, [], ◌∷◌, map, length, drop, is_empty, if◌then◌else◌,
}
use effect_probe.Exception.{
  Exc, Outcome, value, raised, M, provision_error, provision_rollback_error, cleanup_error,
  cleanup_body_error,
}
use effect_probe.LostResult.{AttemptEvidence}
use effect_probe.Kernel.Verdicts.{InvariantResult, ErrorRecord, Axis, error_results}
use effect_probe.Kernel.Types.{
  Types, SurfaceObservation, CleanAssertion, RetryInvariant, CaseDefinition,
}
use effect_probe.Kernel.Contracts.{error_record, history_delta}

-- A value that was computed, or the exception that ended its computation.
abbrev pub from_outcome : {S A : Type 0} → Outcome A → M S A
from_outcome o s = (o, s)

-- `final.history[len(baseline.history):]`
abbrev pub tail_from : {A : Type 0} → List A → List A → List A
tail_from baseline later = drop (length baseline) later

-- The errors that the `except` clauses append, by the stage that was reached.
unfoldable pub caught_errors : Axis → String → Exc → List ErrorRecord
caught_errors axis stage (provision_error cause) = error_record axis "provision" cause ∷ []
caught_errors axis stage (provision_rollback_error cause cleanup) =
    error_record axis "provision" cause ∷ error_record axis "cleanup_after_provision" cleanup ∷ []
caught_errors axis stage (cleanup_error cause) = error_record axis "cleanup" cause ∷ []
caught_errors axis stage (cleanup_body_error cause body) =
    error_record axis stage body ∷ error_record axis "cleanup" cause ∷ []
caught_errors axis stage e = error_record axis stage e ∷ []

-- `if errors and not results: results = _error_results(...)`
abbrev pub default_results :
    List String → String → List ErrorRecord → List InvariantResult → List InvariantResult
default_results names explanation errors results =
    if not (is_empty errors) && is_empty results then error_results names explanation else results

module _ {R St E : Type 0} where
  -- The loop over the attempts: each one must extend the history seen before it.
  unfoldable pub check_attempts :
      (E → E → Bool) → List E → List (AttemptEvidence R (SurfaceObservation St E)) → Outcome Unit
  check_attempts eq previous [] = value tt
  check_attempts eq previous (attempt ∷ attempts) =
      elim (history_delta eq previous attempt.observation.history) [
        | value d ↦ check_attempts eq attempt.observation.history attempts
        | raised e ↦ raised e
      ]

  -- `run.attempts[-1].observation`; the run has two attempts, so the default is never taken.
  abbrev pub last_observation :
      SurfaceObservation St E
      → List (AttemptEvidence R (SurfaceObservation St E))
      → SurfaceObservation St E
  last_observation o [] = o
  last_observation o (attempt ∷ attempts) = last_observation attempt.observation attempts

module _ {T : Types} where
  abbrev pub assertion_names : CaseDefinition T → List String
  assertion_names case = map (λ (a : CleanAssertion T). a.name) case.clean_assertions

  abbrev pub invariant_names : CaseDefinition T → List String
  invariant_names case = map (λ (i : RetryInvariant T). i.name) case.retry_invariants

  -- The delta of the declared history: checked where the coverage claims a complete history.
  unfoldable pub observed_delta :
      CaseDefinition T → List T.Event → List T.Event → Outcome (List T.Event)
  observed_delta case baseline later =
      if case.coverage.history && case.coverage.complete_history
      then history_delta T.event_eq baseline later
      else value (tail_from baseline later)
