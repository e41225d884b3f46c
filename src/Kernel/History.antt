-- ===== src/Kernel/History.antt =====
-- Append-only histories (src/effectprobe/_semantic_kernel.py, _history_delta, and the check of the
-- attempts in _run_perturbed).
use effect_probe.Prelude.{
  ◌≡◌, refl, sym, ap, ◌∙◌, ◌↔◌, Bool, true, List, [], ◌∷◌, ◌++◌, length, take, drop, take-append,
  drop-append, take-append-drop, length-append, arith, inl, inr,
}
use effect_probe.Exception.{value}
use effect_probe.Exception.Bind.{Outcome-cases}
use effect_probe.LostResult.{AttemptEvidence}
use effect_probe.Kernel.Types.{SurfaceObservation}
use effect_probe.Kernel.Contracts.{list_eq, history_delta}
use effect_probe.Kernel.Deltas.{check_attempts}

module _ {A : Type 0} (eq : A → A → Bool) (eq_iff : (a b : A) → (eq a b ≡ true) ↔ (a ≡ b)) where
  list_eq_sound : (xs ys : List A) → list_eq eq xs ys ≡ true → xs ≡ ys
  list_eq_sound [] [] e = refl
  list_eq_sound [] (y ∷ ys) e = cc e
  list_eq_sound (x ∷ xs) [] e = cc e
  list_eq_sound (x ∷ xs) (y ∷ ys) e = ground (arith, eq_iff x y, list_eq_sound xs ys)

  list_eq_refl : (xs : List A) → list_eq eq xs xs ≡ true
  list_eq_refl [] = refl
  list_eq_refl (x ∷ xs) = ground (arith, eq_iff x x, list_eq_refl xs)

  -- The delta of two histories is defined exactly when the later one is the baseline followed by
  -- the delta, for events with a decidable equality.
  pub history_delta_iff :
      (baseline later delta : List A)
      → (history_delta eq baseline later ≡ value delta) ↔ (later ≡ baseline ++ delta)
  unfolding history_delta
  history_delta_iff baseline later delta = (
    λ e.
        let same : take (length baseline) later ≡ baseline = list_eq_sound _ _ (ground arith) in
        let rest : drop (length baseline) later ≡ delta = ground arith in
        sym (take-append-drop (length baseline) later)
        ∙ ap (λ l. l ++ drop (length baseline) later) same
        ∙ ap (λ l. baseline ++ l) rest,
    λ e. rw e (
        ground (
          arith,
          take-append baseline delta,
          drop-append baseline delta,
          list_eq_refl baseline,
          length-append baseline delta,
        )),
  )

  module _ {R St : Type 0} where
    -- Each attempt observed a history that extends the one seen before it.
    abbrev pub Extends : List A → List (AttemptEvidence R (SurfaceObservation St A)) → Type 0
    Extends previous [] = Unit
    Extends previous (a ∷ rest) =
        ((delta : List A) × (a.observation.history ≡ previous ++ delta))
        × Extends a.observation.history rest

    -- The attempts of a run pass the append-only check exactly when each observed history extends
    -- the one before it, the first of them the baseline, for events with a decidable equality.
    pub check_attempts_iff :
        (previous : List A) (attempts : List (AttemptEvidence R (SurfaceObservation St A)))
        → (check_attempts eq previous attempts ≡ value tt) ↔ Extends previous attempts
    unfolding check_attempts
    check_attempts_iff previous [] = (λ e. tt, λ h. refl)
    check_attempts_iff previous (a ∷ rest) = (
      λ e. elim (Outcome-cases (history_delta eq previous a.observation.history)) [
        | inl (delta, p) ↦ (
          (delta, (history_delta_iff previous a.observation.history delta).0 p),
          (check_attempts_iff a.observation.history rest).0 (ground (arith, p)),
        )
        | inr (x, p) ↦ absurd (ground (arith, p))
      ],
      λ h.
          let found = (history_delta_iff previous a.observation.history h.0.0).1 h.0.1 in
          rw (found, check_attempts) ((check_attempts_iff a.observation.history rest).1 h.1),
    )
