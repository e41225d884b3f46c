-- ===== src/Kernel/Accounting/Pairs.antt =====
-- A pair of trials accounts for every declared contract (src/effectprobe/_semantic_kernel.py,
-- _run_pair).
use effect_probe.Prelude.{
  String, ◌≡◌, ◌≢◌, refl, List, [], ◌∷◌, Option, some, none, All, arith, false, inl, inr,
}
use effect_probe.Exception.{Exc, value, raised, is_exception}
use effect_probe.Exception.Bind.{bind-value, bind-raised, value_eq}
use effect_probe.Kernel.Verdicts.{InvariantVerdict, error_results}
use effect_probe.Kernel.Verdicts.Axes.{Verdict}
use effect_probe.Kernel.Types.{Types, CaseDefinition, CleanTrialEvidence, Perturbed, PairResult}
use effect_probe.Kernel.Frames.{Trial}
use effect_probe.Kernel.Deltas.{assertion_names, invariant_names}
use effect_probe.Kernel.Clean.{run_clean}
use effect_probe.Kernel.Perturbed.{run_perturbed}
use effect_probe.Kernel.Evaluate.{unpaired, paired, run_second, run_pair}
use effect_probe.Kernel.Accounting.Shapes.{
  names_of, TrialShape, TrialShape-names, TrialShape-Provisional, TrialShape-pass,
  names_of-error_results, error_results-Provisional,
}
use effect_probe.Kernel.Accounting.Contracts.{
  Accounted, evaluate_clean_contracts-names, evaluate_retry_contracts-Accounted,
}
use effect_probe.Kernel.Accounting.Trials.{
  run_clean-TrialShape, run_perturbed-TrialShape, run_clean-raised, run_perturbed-raised,
}

-- Each contract has one result; passing results rest on the evidence of their trial.
pub record Tallied {T : Types} (case : CaseDefinition T) (p : PairResult T) : Type 0 where
  pub clean_named : names_of p.clean_results ≡ assertion_names case
  pub retry : Accounted (invariant_names case) p.retry_results
  pub clean_passes :
      p.clean_results ≢ []
      → All (Verdict InvariantVerdict.pass) p.clean_results
      → (ev : CleanTrialEvidence T) × (p.clean ≡ some ev)
  pub retry_passes :
      p.retry_results ≢ []
      → All (Verdict InvariantVerdict.pass) p.retry_results
      → (run : Perturbed T) × (p.perturbed ≡ some run)

-- Results of one error for each name do not all pass, unless there are none.
error_results-pass :
    (names : List String) (x : String)
    → error_results names x ≢ []
    → ¬ All (Verdict InvariantVerdict.pass) (error_results names x)
unfolding error_results
error_results-pass [] x some_result h = some_result refl
error_results-pass (n ∷ names) x some_result h = cc h.0

module _ {T : Types} (case : CaseDefinition T) (pair_id : String) where
  run_second-Tallied :
      (t : Trial (CleanTrialEvidence T)) (ev : Option (CleanTrialEvidence T)) (w : T.Outer)
      {p : PairResult T} {w' : T.Outer}
      → t.evidence ≡ ev
      → TrialShape (λ rs. names_of rs ≡ assertion_names case) (assertion_names case) t
      → run_second case pair_id t ev w ≡ (value p, w')
      → Tallied case p
  unfolding run_second unpaired paired
  run_second-Tallied t none w same shape e = rw (← value_eq e) (record {
    clean_named = TrialShape-names _ t (λ rs h. h) shape;
    retry = record {
      named = names_of-error_results (invariant_names case) _;
      provisional = error_results-Provisional (invariant_names case) _;
    };
    clean_passes = λ n h.
        let (c, has) =
          TrialShape-pass (λ rs. names_of rs ≡ assertion_names case) (assertion_names case) t shape
            n h in
        cc (same, has);
    retry_passes = λ n h. absurd (error_results-pass (invariant_names case) _ n h);
  })
  run_second-Tallied t (some ev) w same shape e =
      let (t', w₁, ran, e₁) = bind-value (run_perturbed case _ ev) _ w e in
      let shape' =
        run_perturbed-TrialShape case (Accounted (invariant_names case)) _ ev w
          (λ context.
            evaluate_retry_contracts-Accounted case.coverage context case.retry_invariants)
          ran in
      rw (← value_eq e₁) (record {
        clean_named = TrialShape-names _ t (λ rs h. h) shape;
        retry = record {
          named =
              TrialShape-names _ t' {G = Accounted (invariant_names case)} (λ rs h. h.named) shape';
          provisional =
              TrialShape-Provisional _ t' {G = Accounted (invariant_names case)}
                (λ rs h. h.provisional) shape';
        };
        clean_passes = λ n h. (ev, refl);
        retry_passes =
            TrialShape-pass (Accounted (invariant_names case)) (invariant_names case) t' shape';
      })

  pub run_pair-Tallied :
      (w : T.Outer) {p : PairResult T} {w' : T.Outer}
      → run_pair case pair_id w ≡ (value p, w')
      → Tallied case p
  unfolding run_pair
  run_pair-Tallied w e =
      let (t, w₁, ran, e₁) = bind-value (run_clean case _) _ w e in
      run_second-Tallied t t.evidence w₁ refl
        (run_clean-TrialShape case (λ rs. names_of rs ≡ assertion_names case) _ w
          (λ context. evaluate_clean_contracts-names case.coverage context case.clean_assertions)
          ran)
        e₁

  run_second-raised :
      (t : Trial (CleanTrialEvidence T)) (ev : Option (CleanTrialEvidence T)) (w : T.Outer)
      {x : Exc} {w' : T.Outer}
      → run_second case pair_id t ev w ≡ (raised x, w')
      → is_exception x ≡ false
  unfolding run_second
  run_second-raised t none w e = ground arith
  run_second-raised t (some ev) w e = elim (bind-raised (run_perturbed case _ ev) _ w e) [
    | inl first ↦ run_perturbed-raised case _ ev w first
    | inr (t', w₁, ran, e₁) ↦ ground (arith, e₁)
  ]

  -- A pair is cut short by a raised interrupt alone: whatever Exception is raised in its worlds,
  -- observers, contracts or cleanups, the pair returns its result.
  pub run_pair-raised :
      (w : T.Outer) {x : Exc} {w' : T.Outer}
      → run_pair case pair_id w ≡ (raised x, w')
      → is_exception x ≡ false
  unfolding run_pair
  run_pair-raised w e = elim (bind-raised (run_clean case _) _ w e) [
    | inl first ↦ run_clean-raised case _ w first
    | inr (t, w₁, ran, e₁) ↦ run_second-raised t t.evidence w₁ e₁
  ]
