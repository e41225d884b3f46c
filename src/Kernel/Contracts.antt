-- ===== src/Kernel/Contracts.antt =====
-- What src/effectprobe/_semantic_kernel.py asks of the evidence: `_error`,
-- `_missing_requirements`, `_history_delta` and the two contract evaluators.
use effect_probe.Prelude.{
  String, Bool, true, false, ◌&&◌, ◌||◌, not, List, [], ◌∷◌, ◌++◌, Option, some, none, length, take,
  drop, ltb, format, str_eq, if◌then◌else◌,
}
use effect_probe.Exception.{
  Exc, Outcome, value, raised, M, pure, ◌>>=◌, is_exception, type_name, text_of, other,
}
use effect_probe.Kernel.Verdicts.{
  InvariantResult, InvariantVerdict, ErrorRecord, Axis, clean, retry,
}
use effect_probe.Kernel.Types.{
  Types, EvidenceKind, state, history, complete_history, subject_result, EvidenceRequirement,
  SurfaceCoverage, CleanEvaluationContext, RetryEvaluationContext, CleanAssertion, RetryInvariant,
}

-- `_error`
unfoldable pub error_record : Axis → String → Exc → ErrorRecord
error_record axis phase e = record {
  axis = axis;
  phase = phase;
  error_type = type_name e;
  message = text_of e;
}

-- `try: m` with `except Exception as error: handler(error)`
abbrev pub try_except : {S A : Type 0} → M S A → (Exc → M S A) → M S A
try_except m handler s =
    let (o, s') = m s in
    elim o [
      | value a ↦ (value a, s')
      | raised e ↦ if is_exception e then handler e s' else (raised e, s')
    ]

-- `EvidenceKind(...).value`
abbrev pub kind_value : EvidenceKind → String
kind_value state = "state"
kind_value history = "history"
kind_value complete_history = "complete_history"
kind_value subject_result = "subject_result"

-- `requirement.surface == coverage.surface`
abbrev pub on_surface : Option String → String → Bool
on_surface none covered = false
on_surface (some surface) covered = str_eq surface covered

-- `requirement.surface or '<none>'`
abbrev pub surface_or_none : Option String → String
surface_or_none none = "<none>"
surface_or_none (some surface) = if str_eq surface "" then "<none>" else surface

-- Whether the coverage of the surface has evidence of a kind.
abbrev pub covers : EvidenceKind → SurfaceCoverage → Bool
covers state coverage = coverage.state
covers history coverage = coverage.history
covers complete_history coverage = coverage.history && coverage.complete_history
covers subject_result coverage = true

-- One round of the loop: the texts that it appends to `missing`.
unfoldable pub missing_requirement : EvidenceRequirement → SurfaceCoverage → List String
missing_requirement requirement coverage = elim requirement.kind [
  | subject_result ↦ []
  | state ↦
      if not (on_surface requirement.surface coverage.surface)
      then format (surface_or_none requirement.surface ∷ ":" ∷ "state" ∷ []) ∷ []
      else if not coverage.state
      then format (coverage.surface ∷ ":state" ∷ []) ∷ []
      else []
  | history ↦
      if not (on_surface requirement.surface coverage.surface)
      then format (surface_or_none requirement.surface ∷ ":" ∷ "history" ∷ []) ∷ []
      else if not coverage.history
      then format (coverage.surface ∷ ":history" ∷ []) ∷ []
      else []
  | complete_history ↦
      if not (on_surface requirement.surface coverage.surface)
      then format (surface_or_none requirement.surface ∷ ":" ∷ "complete_history" ∷ []) ∷ []
      else if not (coverage.history && coverage.complete_history)
      then format (coverage.surface ∷ ":complete_history" ∷ []) ∷ []
      else []
]

-- `_missing_requirements`
unfoldable pub missing_requirements : List EvidenceRequirement → SurfaceCoverage → List String
missing_requirements [] coverage = []
missing_requirements (requirement ∷ requirements) coverage =
    missing_requirement requirement coverage ++ missing_requirements requirements coverage

-- `==` on two tuples, given `==` on their elements.
abbrev pub list_eq : {A : Type 0} → (A → A → Bool) → List A → List A → Bool
list_eq eq [] [] = true
list_eq eq [] (y ∷ ys) = false
list_eq eq (x ∷ xs) [] = false
list_eq eq (x ∷ xs) (y ∷ ys) = eq x y && list_eq eq xs ys

abbrev pub history_error : Exc
history_error = other (record {
  type_name = "ValueError";
  text = "declared append-only history does not preserve its recorded baseline";
})

-- `_history_delta`
unfoldable pub history_delta : {A : Type 0} → (A → A → Bool) → List A → List A → Outcome (List A)
history_delta eq baseline later =
    if ltb (length later) (length baseline)
      || not (list_eq eq (take (length baseline) later) baseline)
    then raised history_error
    else value (drop (length baseline) later)

module _ {T : Types} where
  -- The body of the loop of `_evaluate_clean_contracts` on one assertion: its result, and what it
  -- adds to the errors.
  unfoldable pub evaluate_clean_contract :
      SurfaceCoverage
      → CleanEvaluationContext T
      → CleanAssertion T
      → M T.Outer (InvariantResult × List ErrorRecord)
  evaluate_clean_contract coverage context assertion =
      elim (missing_requirements assertion.requirements coverage) [
        | m ∷ ms ↦ pure (
          record {
            name = assertion.name;
            verdict = InvariantVerdict.inconclusive;
            explanation = "required clean evidence is unavailable";
            missing_evidence = m ∷ ms;
            candidate = false;
          },
          [],
        )
        | [] ↦
            try_except
              (do
                decision ← assertion.evaluate context
                pure (
                  record {
                    name = assertion.name;
                    verdict =
                        if decision.passed then InvariantVerdict.pass else InvariantVerdict.fail;
                    explanation = decision.explanation;
                    missing_evidence = [];
                    candidate = false;
                  },
                  [],
                ))
              (λ e. pure (
                record {
                  name = assertion.name;
                  verdict = InvariantVerdict.error;
                  explanation = "clean assertion evaluator malfunctioned";
                  missing_evidence = [];
                  candidate = false;
                },
                error_record clean (format ("clean_evaluator:" ∷ assertion.name ∷ [])) e ∷ [],
              ))
      ]

  -- `_evaluate_clean_contracts`
  unfoldable pub evaluate_clean_contracts :
      SurfaceCoverage
      → CleanEvaluationContext T
      → List (CleanAssertion T)
      → M T.Outer (List InvariantResult × List ErrorRecord)
  evaluate_clean_contracts coverage context [] = pure ([], [])
  evaluate_clean_contracts coverage context (assertion ∷ assertions) = do
    (result, new_errors) ← evaluate_clean_contract coverage context assertion
    (results, errors) ← evaluate_clean_contracts coverage context assertions
    pure (result ∷ results, new_errors ++ errors)

  -- The body of the loop of `_evaluate_retry_contracts`: a decision that did not pass is a candidate.
  unfoldable pub evaluate_retry_contract :
      SurfaceCoverage
      → RetryEvaluationContext T
      → RetryInvariant T
      → M T.Outer (InvariantResult × List ErrorRecord)
  evaluate_retry_contract coverage context invariant =
      elim (missing_requirements invariant.requirements coverage) [
        | m ∷ ms ↦ pure (
          record {
            name = invariant.name;
            verdict = InvariantVerdict.inconclusive;
            explanation = "required retry evidence is unavailable";
            missing_evidence = m ∷ ms;
            candidate = false;
          },
          [],
        )
        | [] ↦
            try_except
              (do
                decision ← invariant.evaluate context
                pure (
                  record {
                    name = invariant.name;
                    verdict =
                        if decision.passed
                        then InvariantVerdict.pass
                        else InvariantVerdict.inconclusive;
                    explanation = decision.explanation;
                    missing_evidence = [];
                    candidate = not decision.passed;
                  },
                  [],
                ))
              (λ e. pure (
                record {
                  name = invariant.name;
                  verdict = InvariantVerdict.error;
                  explanation = "retry invariant evaluator malfunctioned";
                  missing_evidence = [];
                  candidate = false;
                },
                error_record retry (format ("retry_evaluator:" ∷ invariant.name ∷ [])) e ∷ [],
              ))
      ]

  -- `_evaluate_retry_contracts`
  unfoldable pub evaluate_retry_contracts :
      SurfaceCoverage
      → RetryEvaluationContext T
      → List (RetryInvariant T)
      → M T.Outer (List InvariantResult × List ErrorRecord)
  evaluate_retry_contracts coverage context [] = pure ([], [])
  evaluate_retry_contracts coverage context (invariant ∷ invariants) = do
    (result, new_errors) ← evaluate_retry_contract coverage context invariant
    (results, errors) ← evaluate_retry_contracts coverage context invariants
    pure (result ∷ results, new_errors ++ errors)
