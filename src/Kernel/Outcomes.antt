-- ===== src/Kernel/Outcomes.antt =====
-- What the two axes of an evaluated case rest on (src/effectprobe/_semantic_kernel.py,
-- evaluate_case).
use effect_probe.Prelude.{
  ◌≡◌, ◌≢◌, refl, ap, ◌∙◌, inl, inr, true, false, List, [], ◌∷◌, map, some, All, Any, any,
}
use effect_probe.Exception.{value}
use effect_probe.Exception.Bind.{bind-value, value_eq}
use effect_probe.Kernel.Verdicts.{
  InvariantVerdict, AxisStatus, InvariantResult, Axis, is_axis, aggregate,
}
use effect_probe.Kernel.Verdicts.Axes.{
  Verdict, aggregate-fail, aggregate-pass, invariants-aggregate,
}
use effect_probe.Kernel.Types.{
  Types, CaseDefinition, CleanTrialEvidence, Perturbed, PairResult, CaseResult,
}
use effect_probe.Kernel.Deltas.{assertion_names, invariant_names}
use effect_probe.Kernel.Evaluate.{
  run_pair, run_confirmations, resolve, resolve_candidates, case_result, evaluate_case,
}
use effect_probe.Kernel.Accounting.Shapes.{names_of, Provisional}
use effect_probe.Kernel.Accounting.Pairs.{Tallied, run_pair-Tallied}
use effect_probe.Kernel.Confirmation.{Confirmed, resolve-fail, name-resolve, resolve-pass}

module _ {T : Types} where
  map-name-resolve :
      (pairs : List (PairResult T)) (rs : List InvariantResult)
      → names_of (map (resolve pairs) rs) ≡ names_of rs
  map-name-resolve pairs [] = refl
  map-name-resolve pairs (r ∷ rs) = cc (name-resolve pairs r, map-name-resolve pairs rs)

  failing-resolve :
      (pairs : List (PairResult T)) (rs : List InvariantResult)
      → All Provisional rs
      → Any (Verdict InvariantVerdict.fail) (map (resolve pairs) rs)
      → Any (Confirmed pairs) rs
  failing-resolve pairs [] h e = absurd e
  failing-resolve pairs (r ∷ rs) (h, hs) (inl e) = inl (resolve-fail pairs r h e)
  failing-resolve pairs (r ∷ rs) (h, hs) (inr e) = inr (failing-resolve pairs rs hs e)

  passing-resolve :
      (pairs : List (PairResult T)) (rs : List InvariantResult)
      → All (Verdict InvariantVerdict.pass) (map (resolve pairs) rs)
      → All (Verdict InvariantVerdict.pass) rs
  passing-resolve pairs [] h = tt
  passing-resolve pairs (r ∷ rs) (e, h) = ((resolve-pass pairs r e).1, passing-resolve pairs rs h)

  -- The parts of an evaluated case.
  pub record Evaluation (case : CaseDefinition T) (result : CaseResult T) : Type 0 where
    pub tallied : Tallied case result.primary
    pub clean_axis :
        result.clean_validity
        ≡ aggregate result.primary.clean_results true
            (any (is_axis Axis.clean) result.primary.errors)
    pub retry_axis :
        result.retry_safety
        ≡ aggregate
            (map (resolve result.confirmations) result.primary.retry_results)
            false
            (any (is_axis Axis.retry) result.primary.errors)

  module _ (case : CaseDefinition T) (w : T.Outer) {result : CaseResult T} {w' : T.Outer}
      (done : evaluate_case case w ≡ (value result, w')) where
    evaluate_case-Evaluation : Evaluation case result
    unfolding evaluate_case case_result resolve_candidates
    evaluate_case-Evaluation =
        let (_, w₁, _, e₁) = bind-value _ _ w done in
        let (_, w₂, _, e₂) = bind-value _ _ w₁ e₁ in
        let (key, w₃, _, e₃) = bind-value _ _ w₂ e₂ in
        let (primary, w₄, ran, e₄) = bind-value (run_pair case "primary") _ w₃ e₃ in
        let (confirmations, w₅, _, e₅) = bind-value (run_confirmations case primary) _ w₄ e₄ in
        rw (← value_eq e₅) (record {
          tallied = run_pair-Tallied case "primary" w₃ ran;
          clean_axis = refl;
          retry_axis = refl;
        })

    -- Whenever evaluate_case returns, its clean axis has exactly one result for each declared
    -- assertion and its retry axis exactly one for each declared invariant, in the order of
    -- declaration, whatever failed on the way.
    pub evaluate_case-names :
        (names_of result.clean_validity.invariants ≡ assertion_names case)
        × (names_of result.retry_safety.invariants ≡ invariant_names case)
    evaluate_case-names =
        let ev = evaluate_case-Evaluation in
        (
          ap (λ a. names_of a.invariants) ev.clean_axis
              ∙ ap names_of (invariants-aggregate _ _ _)
              ∙ ev.tallied.clean_named,
          ap (λ a. names_of a.invariants) ev.retry_axis
              ∙ ap names_of (invariants-aggregate _ _ _)
              ∙ map-name-resolve result.confirmations result.primary.retry_results
              ∙ ev.tallied.retry.named,
        )

    -- Whenever evaluate_case returns with a retry axis that fails, some result of the primary pair
    -- is a candidate that both of exactly two confirmation pairs reproduced, each without errors
    -- and on full evidence.
    pub evaluate_case-fail :
        result.retry_safety.status ≡ AxisStatus.fail
        → Any (Confirmed result.confirmations) result.primary.retry_results
    evaluate_case-fail failed =
        let ev = evaluate_case-Evaluation in
        failing-resolve result.confirmations result.primary.retry_results
          ev.tallied.retry.provisional ((aggregate-fail _ false _).0 (rw ev.retry_axis at failed))

    -- Whenever evaluate_case returns with a retry axis that passes, the primary pair has evidence
    -- of a completed lost-result run, and its retry results are some and all PASS.
    pub evaluate_case-pass :
        result.retry_safety.status ≡ AxisStatus.pass
        → (result.primary.retry_results ≢ [])
          × All (Verdict InvariantVerdict.pass) result.primary.retry_results
          × ((run : Perturbed T) × (result.primary.perturbed ≡ some run))
    evaluate_case-pass passed =
        let ev = evaluate_case-Evaluation in
        let (some_result, all, no_error) =
          (aggregate-pass _ false _).0 (rw ev.retry_axis at passed) in
        let nonempty = λ (e : result.primary.retry_results ≡ []). some_result (rw e) in
        let passes = passing-resolve result.confirmations result.primary.retry_results all in
        (nonempty, passes, ev.tallied.retry_passes nonempty passes)

    -- Whenever evaluate_case returns with a clean axis that passes, the primary pair has evidence
    -- of a completed clean trial, and its clean results are some and all PASS.
    pub evaluate_case-clean_pass :
        result.clean_validity.status ≡ AxisStatus.pass
        → (result.primary.clean_results ≢ [])
          × All (Verdict InvariantVerdict.pass) result.primary.clean_results
          × ((evidence : CleanTrialEvidence T) × (result.primary.clean ≡ some evidence))
    evaluate_case-clean_pass passed =
        let ev = evaluate_case-Evaluation in
        let (some_result, all, no_error) =
          (aggregate-pass _ true _).0 (rw ev.clean_axis at passed) in
        (some_result, all, ev.tallied.clean_passes some_result all)
