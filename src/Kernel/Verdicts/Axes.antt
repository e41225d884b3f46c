-- ===== src/Kernel/Verdicts/Axes.antt =====
-- What the status of an axis says of its results (src/effectprobe/_semantic_kernel.py, _aggregate).
use effect_probe.Prelude.{
  ◌≡◌, ◌≢◌, refl, ◌↔◌, inl, inr, Bool, true, false, List, [], ◌∷◌, any, All, Any, arith, Bool-cases,
}
use effect_probe.Kernel.Verdicts.{
  InvariantVerdict, AxisStatus, InvariantResult, is_fail, is_error, is_inconclusive, aggregate,
}

abbrev pub Verdict : InvariantVerdict → InvariantResult → Type 0
Verdict v r = r.verdict ≡ v

any-is_fail :
    (rs : List InvariantResult) → any is_fail rs ≡ true → Any (Verdict InvariantVerdict.fail) rs
any-is_fail [] e = cc e
any-is_fail (r ∷ rs) e = elim (Bool-cases (is_fail r)) [
  | inl yes_fail ↦ inl (ground arith)
  | inr no_fail ↦ inr (any-is_fail rs (ground arith))
]

Any-fail :
    (rs : List InvariantResult) → Any (Verdict InvariantVerdict.fail) rs → any is_fail rs ≡ true
Any-fail [] h = absurd h
Any-fail (r ∷ rs) (inl e) = ground arith
Any-fail (r ∷ rs) (inr h) = ground (arith, Any-fail rs h)

-- No verdict is FAIL, ERROR or INCONCLUSIVE exactly when every verdict is PASS.
no_fail-passing :
    (rs : List InvariantResult)
    → any is_fail rs ≡ false
    → any is_error rs ≡ false
    → any is_inconclusive rs ≡ false
    → All (Verdict InvariantVerdict.pass) rs
no_fail-passing [] f e i = tt
no_fail-passing (r ∷ rs) f e i =
    (ground arith, no_fail-passing rs (ground arith) (ground arith) (ground arith))

pass_none :
    (rs : List InvariantResult)
    → All (Verdict InvariantVerdict.pass) rs
    → (any is_fail rs ≡ false) × (any is_error rs ≡ false) × (any is_inconclusive rs ≡ false)
pass_none [] h = (refl, refl, refl)
pass_none (r ∷ rs) (p, h) =
    let (f, e, i) = pass_none rs h in (ground arith, ground arith, ground arith)

-- An axis fails exactly when one of its results has the verdict FAIL, whatever errors there were.
pub aggregate-fail :
    (rs : List InvariantResult) (allow has_error : Bool)
    → ((aggregate rs allow has_error).status ≡ AxisStatus.fail)
      ↔ Any (Verdict InvariantVerdict.fail) rs
unfolding aggregate
aggregate-fail [] allow has_error = (ground arith, λ h. absurd h)
aggregate-fail (r ∷ rs) allow has_error =
    (λ e. any-is_fail (r ∷ rs) (ground arith), λ h. ground (arith, Any-fail (r ∷ rs) h))

-- An axis passes exactly when it has a result, all its results are PASS, and no error was recorded
-- for it.
pub aggregate-pass :
    (rs : List InvariantResult) (allow has_error : Bool)
    → ((aggregate rs allow has_error).status ≡ AxisStatus.pass)
      ↔ ((rs ≢ []) × All (Verdict InvariantVerdict.pass) rs × (has_error ≡ false))
unfolding aggregate
aggregate-pass [] allow has_error = (ground arith, λ h. absurd (h.0 refl))
aggregate-pass (r ∷ rs) allow has_error = (
  λ e. (
    λ p. cc p,
    no_fail-passing (r ∷ rs) (ground arith) (ground arith) (ground arith),
    ground arith,
  ),
  λ h. ground (arith, pass_none (r ∷ rs) h.1),
)

-- An axis is unverified exactly when it may be, has no result, and there was no error.
pub aggregate-unverified :
    (rs : List InvariantResult) (allow has_error : Bool)
    → ((aggregate rs allow has_error).status ≡ AxisStatus.unverified)
      ↔ ((rs ≡ []) × (allow ≡ true) × (has_error ≡ false))
unfolding aggregate
aggregate-unverified [] allow has_error = (ground arith, ground arith)
aggregate-unverified (r ∷ rs) allow has_error = (ground arith, λ h. cc h.0)

pub invariants-aggregate :
    (rs : List InvariantResult) (allow has_error : Bool)
    → (aggregate rs allow has_error).invariants ≡ rs
unfolding aggregate
invariants-aggregate [] allow has_error = refl
invariants-aggregate (r ∷ rs) allow has_error = refl
