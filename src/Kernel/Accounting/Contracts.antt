-- ===== src/Kernel/Accounting/Contracts.antt =====
-- The contract evaluators give each contract its result (src/effectprobe/_semantic_kernel.py,
-- _evaluate_clean_contracts and _evaluate_retry_contracts).
use effect_probe.Prelude.{String, ◌≡◌, refl, List, [], ◌∷◌, map, All, arith}
use effect_probe.Exception.{◌>>=◌}
use effect_probe.Exception.Bind.{bind-value}
use effect_probe.Kernel.Verdicts.{InvariantResult}
use effect_probe.Kernel.Types.{
  Types, SurfaceCoverage, CleanEvaluationContext, RetryEvaluationContext, CleanAssertion,
  RetryInvariant,
}
use effect_probe.Kernel.Contracts.{
  evaluate_clean_contract, evaluate_clean_contracts, evaluate_retry_contract,
  evaluate_retry_contracts,
}
use effect_probe.Kernel.Accounting.Shapes.{names_of, Provisional}
use effect_probe.Kernel.Accounting.Phases.{Returns}

-- The results of a retry evaluation: one for each invariant, none of them a FAIL.
pub record Accounted (names : List String) (rs : List InvariantResult) : Type 0 where
  pub named : names_of rs ≡ names
  pub provisional : All Provisional rs

module _ {T : Types} (coverage : SurfaceCoverage) where
  evaluate_clean_contract-name :
      (context : CleanEvaluationContext T) (assertion : CleanAssertion T)
      → Returns
          (λ a. a.0.name ≡ assertion.name)
          (evaluate_clean_contract coverage context assertion)
  unfolding evaluate_clean_contract ◌>>=◌
  evaluate_clean_contract-name context assertion s s' a e = ground arith

  pub evaluate_clean_contracts-names :
      (context : CleanEvaluationContext T) (assertions : List (CleanAssertion T))
      → Returns
          (λ a. names_of a.0 ≡ map (λ (c : CleanAssertion T). c.name) assertions)
          (evaluate_clean_contracts coverage context assertions)
  unfolding evaluate_clean_contracts
  evaluate_clean_contracts-names context [] s s' a e = ground arith
  evaluate_clean_contracts-names context (c ∷ cs) s s' a e =
      let (x, s₁, first, e₁) = bind-value _ _ s e in
      let (y, s₂, rest, e₂) = bind-value _ _ s₁ e₁ in
      ground (
        arith,
        evaluate_clean_contract-name context c s s₁ x first,
        evaluate_clean_contracts-names context cs s₁ s₂ y rest,
        e₂,
      )

  evaluate_retry_contract-Provisional :
      (context : RetryEvaluationContext T) (invariant : RetryInvariant T)
      → Returns
          (λ a. (a.0.name ≡ invariant.name) × Provisional a.0)
          (evaluate_retry_contract coverage context invariant)
  unfolding evaluate_retry_contract ◌>>=◌
  evaluate_retry_contract-Provisional context invariant s s' a e = ground arith

  pub evaluate_retry_contracts-Accounted :
      (context : RetryEvaluationContext T) (invariants : List (RetryInvariant T))
      → Returns
          (λ a. Accounted (map (λ (i : RetryInvariant T). i.name) invariants) a.0)
          (evaluate_retry_contracts coverage context invariants)
  unfolding evaluate_retry_contracts
  evaluate_retry_contracts-Accounted context [] s s' a e =
      let none_left : a.0 ≡ [] = ground arith in
      rw none_left (record { named = refl; provisional = tt })
  evaluate_retry_contracts-Accounted context (c ∷ cs) s s' a e =
      let (x, s₁, first, e₁) = bind-value _ _ s e in
      let (y, s₂, rest, e₂) = bind-value _ _ s₁ e₁ in
      let head = evaluate_retry_contract-Provisional context c s s₁ x first in
      let tail = evaluate_retry_contracts-Accounted context cs s₁ s₂ y rest in
      let all_of : a.0 ≡ x.0 ∷ y.0 = ground (arith, e₂) in
      rw all_of
        (record { named = cc (head.0, tail.named); provisional = (head.1, tail.provisional) })
