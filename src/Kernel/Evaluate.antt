-- ===== src/Kernel/Evaluate.antt =====
-- `_run_pair`, `_resolve_candidates` and `evaluate_case` of src/effectprobe/_semantic_kernel.py.
use effect_probe.Prelude.{
  String, Bool, true, false, ◌||◌, not, List, [], ◌∷◌, ◌++◌, map, Option, none, some, length, any,
  all, find, is_empty, ◌==◌, format, str_eq, if◌then◌else◌,
}
use effect_probe.Identity.{TrialId}
use effect_probe.Exception.{M, pure, raise, ◌>>=◌, ◌>>◌, configuration_error, preflight_error}
use effect_probe.Kernel.Verdicts.{
  InvariantVerdict, InvariantResult, ErrorRecord, CleanupStatus, Axis, is_error, is_axis,
  error_results, aggregate,
}
use effect_probe.Kernel.Types.{
  Types, CleanTrialEvidence, CaseDefinition, Perturbed, PairResult, CaseResult, PrivateScope,
}
use effect_probe.Kernel.Contracts.{try_except}
use effect_probe.Kernel.Frames.{Trial}
use effect_probe.Kernel.Deltas.{invariant_names}
use effect_probe.Kernel.Clean.{run_clean}
use effect_probe.Kernel.Perturbed.{run_perturbed}

-- The record of a retry comparison that has no clean evidence to compare with.
abbrev pub missing_clean_evidence : ErrorRecord
missing_clean_evidence = record {
  axis = Axis.retry;
  phase = "clean_reference";
  error_type = "MissingCleanEvidence";
  message = "retry comparison requires completed clean evidence";
}

abbrev pub trial_id_for : String → String → TrialId
trial_id_for pair_id kind = record { value = format (pair_id ∷ kind ∷ []) }

-- The result of a confirmation for a candidate, or the error that it has none.
unfoldable pub confirmation_result : {T : Types} → String → PairResult T → InvariantResult
confirmation_result name pair = elim (find (λ r. str_eq r.name name) pair.retry_results) [
  | some match ↦ match
  | none ↦ record {
    name = name;
    verdict = InvariantVerdict.error;
    explanation = "confirmation omitted the candidate invariant";
    missing_evidence = [];
    candidate = false;
  }
]

-- `result.verdict is InvariantVerdict.ERROR or result.missing_evidence`
abbrev pub is_unusable : InvariantResult → Bool
is_unusable r = is_error r || not (is_empty r.missing_evidence)

-- The four ways to resolve a candidate, from its confirmation results and whether any confirmation
-- pair had errors.
unfoldable pub resolve_candidate : InvariantResult → List InvariantResult → Bool → InvariantResult
resolve_candidate r confirmation_results has_error =
    if not (length confirmation_results == 2)
    then record r {
      verdict = InvariantVerdict.error;
      explanation = "candidate did not receive exactly two confirmations";
      candidate = false;
    }
    else if has_error || any is_unusable confirmation_results
    then record r {
      verdict = InvariantVerdict.error;
      explanation = "confirmation infrastructure or evaluation failed";
      candidate = false;
    }
    else if all (λ c. c.candidate) confirmation_results
    then record r {
      verdict = InvariantVerdict.fail;
      explanation = format (r.explanation ∷ "; reproduced in two confirmations" ∷ []);
      candidate = false;
    }
    else record r {
      verdict = InvariantVerdict.inconclusive;
      explanation = format (r.explanation ∷ "; a valid confirmation did not reproduce" ∷ []);
      candidate = false;
    }

module _ {T : Types} where
  -- One round of the loop of `_resolve_candidates`.
  unfoldable pub resolve : List (PairResult T) → InvariantResult → InvariantResult
  resolve confirmations r =
      if not r.candidate
      then r
      else resolve_candidate r (map (confirmation_result r.name) confirmations)
          (any (λ (pair : PairResult T). not (is_empty pair.errors)) confirmations)

  -- `_resolve_candidates`
  unfoldable pub resolve_candidates : PairResult T → List (PairResult T) → List InvariantResult
  resolve_candidates primary confirmations = map (resolve confirmations) primary.retry_results

  -- The pair of a clean trial that recorded no evidence.
  unfoldable pub unpaired : CaseDefinition T → String → Trial (CleanTrialEvidence T) → PairResult T
  unpaired case pair_id trial = record {
    pair_id = pair_id;
    clean = none;
    perturbed = none;
    clean_results = trial.results;
    retry_results =
        error_results (invariant_names case) "retry comparison requires completed clean evidence";
    errors = trial.errors ++ (missing_clean_evidence ∷ []);
    clean_cleanup = trial.cleanup;
    perturbed_cleanup = CleanupStatus.not_attempted;
  }

  unfoldable pub paired :
      String
      → Trial (CleanTrialEvidence T)
      → CleanTrialEvidence T
      → Trial (Perturbed T)
      → PairResult T
  paired pair_id trial evidence perturbed = record {
    pair_id = pair_id;
    clean = some evidence;
    perturbed = perturbed.evidence;
    clean_results = trial.results;
    retry_results = perturbed.results;
    errors = trial.errors ++ perturbed.errors;
    clean_cleanup = trial.cleanup;
    perturbed_cleanup = perturbed.cleanup;
  }

  -- What follows the clean trial of a pair.
  unfoldable pub run_second :
      CaseDefinition T
      → String
      → Trial (CleanTrialEvidence T)
      → Option (CleanTrialEvidence T)
      → M T.Outer (PairResult T)
  run_second case pair_id trial none = pure (unpaired case pair_id trial)
  run_second case pair_id trial (some evidence) = do
    perturbed ← run_perturbed case (trial_id_for pair_id "/perturbed") evidence
    pure (paired pair_id trial evidence perturbed)

  -- `_run_pair`
  unfoldable pub run_pair : CaseDefinition T → String → M T.Outer (PairResult T)
  run_pair case pair_id = do
    trial ← run_clean case (trial_id_for pair_id "/clean")
    run_second case pair_id trial trial.evidence

  -- The confirmations, which are run only where the primary pair has a candidate.
  unfoldable pub run_confirmations :
      CaseDefinition T → PairResult T → M T.Outer (List (PairResult T))
  run_confirmations case primary =
      if any (λ (r : InvariantResult). r.candidate) primary.retry_results
      then (do
        first ← run_pair case "confirmation/1"
        second ← run_pair case "confirmation/2"
        pure (first ∷ second ∷ []))
      else pure []

  unfoldable pub case_result : PrivateScope T → PairResult T → List (PairResult T) → CaseResult T
  case_result scope primary confirmations = record {
    scope = scope;
    clean_validity = aggregate primary.clean_results true (any (is_axis Axis.clean) primary.errors);
    retry_safety =
        aggregate (resolve_candidates primary confirmations) false
          (any (is_axis Axis.retry) primary.errors);
    primary = primary;
    confirmations = confirmations;
  }

  -- The check of the configuration.
  abbrev pub require_invariants : CaseDefinition T → M T.Outer Unit
  require_invariants case =
      if is_empty case.retry_invariants
      then raise (configuration_error "a private case requires at least one retry invariant")
      else pure tt

  -- `evaluate_case`
  unfoldable pub evaluate_case : CaseDefinition T → M T.Outer (CaseResult T)
  evaluate_case case = do
    require_invariants case
    try_except case.preflight (λ e. raise (preflight_error e))
    operation_key ← case.operation_key_selector case.input
    primary ← run_pair case "primary"
    confirmations ← run_confirmations case primary
    pure (
        case_result
          (record {
            subject_name = case.subject_name;
            input = case.input;
            operation_id = case.operation_id;
            operation_key = operation_key;
            schedule = case.schedule.scope_name;
            coverage = case.coverage;
            reportable = false;
            limitations = case.scope_limitations;
          })
          primary confirmations)
