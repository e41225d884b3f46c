-- ===== src/Kernel/Coverage.antt =====
-- Which evidence is missing (src/effectprobe/_semantic_kernel.py, _missing_requirements).
use effect_probe.Prelude.{
  String, ◌≡◌, refl, ◌↔◌, ◌⊎◌, inl, inr, true, List, [], ◌∷◌, ◌++◌, Option, some, none, All, arith,
  str_eq_iff,
}
use effect_probe.Kernel.Types.{EvidenceKind, subject_result, EvidenceRequirement, SurfaceCoverage}
use effect_probe.Kernel.Contracts.{covers, missing_requirement, missing_requirements}

-- A requirement that a coverage meets: the subject's own result is always at hand, and any other
-- evidence has to be of the covered surface and of a covered kind.
abbrev pub Met : SurfaceCoverage → EvidenceRequirement → Type 0
Met coverage requirement =
    (requirement.kind ≡ subject_result)
    ⊎ ((requirement.surface ≡ some coverage.surface) × (covers requirement.kind coverage ≡ true))

missing_requirement-Met :
    (coverage : SurfaceCoverage) (kind : EvidenceKind) (surface : Option String)
    → missing_requirement (record { kind = kind; surface = surface }) coverage ≡ []
    → Met coverage (record { kind = kind; surface = surface })
unfolding missing_requirement
missing_requirement-Met coverage subject_result surface e = inl refl
missing_requirement-Met coverage kind (some s) e =
    inr (ground (arith, str_eq_iff s coverage.surface), ground arith)
missing_requirement-Met coverage kind none e = absurd (ground arith)

Met-missing_requirement :
    (coverage : SurfaceCoverage) (kind : EvidenceKind) (surface : Option String)
    → Met coverage (record { kind = kind; surface = surface })
    → missing_requirement (record { kind = kind; surface = surface }) coverage ≡ []
unfolding missing_requirement
Met-missing_requirement coverage subject_result surface h = refl
Met-missing_requirement coverage kind (some s) h = ground (arith, str_eq_iff s coverage.surface)
Met-missing_requirement coverage kind none h = absurd (ground arith)

append-eq-nil : {A : Type 0} (xs ys : List A) → xs ++ ys ≡ [] → (xs ≡ []) × (ys ≡ [])
append-eq-nil [] ys e = (refl, e)
append-eq-nil (x ∷ xs) ys e = cc e

-- No evidence is missing exactly when the coverage meets every requirement: subject results always
-- are at hand, other kinds have to be of the covered surface and of a covered kind.
pub missing_requirements_iff :
    (requirements : List EvidenceRequirement) (coverage : SurfaceCoverage)
    → (missing_requirements requirements coverage ≡ []) ↔ All (Met coverage) requirements
unfolding missing_requirements
missing_requirements_iff [] coverage = (λ e. tt, λ h. refl)
missing_requirements_iff (r ∷ rs) coverage = (
  λ e.
      let (first, rest) = append-eq-nil _ _ e in
      (
        missing_requirement-Met coverage r.kind r.surface first,
        (missing_requirements_iff rs coverage).0 rest,
      ),
  λ h. cc (
    Met-missing_requirement coverage r.kind r.surface h.0,
    (missing_requirements_iff rs coverage).1 h.1,
  ),
)
