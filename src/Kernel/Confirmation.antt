-- ===== src/Kernel/Confirmation.antt =====
-- What a resolved candidate rests on (src/effectprobe/_semantic_kernel.py, _resolve_candidates).
use effect_probe.Prelude.{
  String, ◌≡◌, refl, inl, inr, true, false, not, List, [], ◌∷◌, find, Any, is_empty, arith,
  Bool-cases, Option-cases, str_eq, str_eq_iff, some,
}
use effect_probe.Kernel.Verdicts.{InvariantVerdict, InvariantResult}
use effect_probe.Kernel.Types.{Types, PairResult}
use effect_probe.Kernel.Evaluate.{confirmation_result, is_unusable, resolve_candidate, resolve}
use effect_probe.Kernel.Accounting.Shapes.{Provisional}

-- A confirmation pair without errors that shows the candidate of a name, on full evidence.
pub record Reproduces {T : Types} (name : String) (pair : PairResult T) : Type 0 where
  pub clear : pair.errors ≡ []
  pub shown :
      Any
        (λ (c : InvariantResult).
          (c.name ≡ name) × (c.candidate ≡ true) × (c.missing_evidence ≡ []))
        pair.retry_results

-- The two confirmations of a failure.
abbrev pub Confirmed : {T : Types} → List (PairResult T) → InvariantResult → Type 0
Confirmed {T} pairs r =
    (r.candidate ≡ true)
    × ((first : PairResult T) × (second : PairResult T) × (pairs ≡ first ∷ second ∷ [])
        × Reproduces r.name first
        × Reproduces r.name second)

-- What `find` returns is in the list.
found :
    (name : String) (rs : List InvariantResult) {c : InvariantResult}
    → find (λ r. str_eq r.name name) rs ≡ some c
    → c.candidate ≡ true
    → c.missing_evidence ≡ []
    → Any
        (λ (x : InvariantResult).
          (x.name ≡ name) × (x.candidate ≡ true) × (x.missing_evidence ≡ []))
        rs
found name [] e h k = cc e
found name (r ∷ rs) {c} e h k = elim (Bool-cases (str_eq r.name name)) [
  | inl same ↦ inl ((str_eq_iff r.name name).0 same, ground arith, ground arith)
  | inr differs ↦ inr (found name rs {c = c} (ground arith) h k)
]

nil_of_empty : {A : Type 0} (xs : List A) → is_empty xs ≡ true → xs ≡ []
nil_of_empty [] e = refl
nil_of_empty (x ∷ xs) e = cc e

module _ {T : Types} where
  -- A usable confirmation result that is a candidate comes from the pair itself.
  confirmation_result-Reproduces :
      (name : String) (pair : PairResult T)
      → not (is_empty pair.errors) ≡ false
      → is_unusable (confirmation_result name pair) ≡ false
      → (confirmation_result name pair).candidate ≡ true
      → Reproduces name pair
  unfolding confirmation_result
  confirmation_result-Reproduces name pair clear usable candidate = record {
    clear = nil_of_empty pair.errors (ground arith);
    shown = elim (Option-cases (find (λ c. str_eq c.name name) pair.retry_results)) [
      | inl missing ↦ absurd (ground arith)
      | inr (c, e) ↦ found name pair.retry_results e (ground arith) (nil_of_empty _ (ground arith))
    ];
  }

  -- A candidate resolves to FAIL only if exactly two confirmations reproduced it without errors.
  pub resolve-fail :
      (pairs : List (PairResult T)) (r : InvariantResult)
      → Provisional r
      → (resolve pairs r).verdict ≡ InvariantVerdict.fail
      → Confirmed pairs r
  unfolding resolve resolve_candidate
  resolve-fail [] r h e = absurd (ground (arith, h.no_fail))
  resolve-fail (a ∷ []) r h e = absurd (ground (arith, h.no_fail))
  resolve-fail (a ∷ b ∷ []) r h e = (
    ground (arith, h.no_fail),
    (
      a,
      b,
      refl,
      confirmation_result-Reproduces r.name a (ground (arith, h.no_fail))
          (ground (arith, h.no_fail)) (ground (arith, h.no_fail)),
      confirmation_result-Reproduces r.name b (ground (arith, h.no_fail))
          (ground (arith, h.no_fail)) (ground (arith, h.no_fail)),
    ),
  )
  resolve-fail (a ∷ b ∷ c ∷ rest) r h e = absurd (ground (arith, h.no_fail))

  pub name-resolve :
      (pairs : List (PairResult T)) (r : InvariantResult) → (resolve pairs r).name ≡ r.name
  unfolding resolve resolve_candidate
  name-resolve pairs r = ground arith

  -- A candidate never resolves to PASS.
  pub resolve-pass :
      (pairs : List (PairResult T)) (r : InvariantResult)
      → (resolve pairs r).verdict ≡ InvariantVerdict.pass
      → (r.candidate ≡ false) × (r.verdict ≡ InvariantVerdict.pass)
  unfolding resolve resolve_candidate
  resolve-pass pairs r e = ground arith
