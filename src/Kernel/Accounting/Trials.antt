-- ===== src/Kernel/Accounting/Trials.antt =====
-- `_run_clean` and `_run_perturbed` (src/effectprobe/_semantic_kernel.py) account for every declared
-- contract, and let nothing but an interrupt escape.
use effect_probe.Prelude.{
  String, ◌≡◌, refl, ◌⊎◌, inl, inr, false, ◌&&◌, not, List, [], ◌∷◌, ◌++◌, arith, is_empty,
  Bool-cases,
}
use effect_probe.Identity.{TrialId}
use effect_probe.Exception.{
  Exc, Outcome, value, raised, is_exception, boundary_not_reached, fault_not_propagated,
  provision_error, provision_rollback_error, cleanup_error, cleanup_body_error,
}
use effect_probe.Exception.Bind.{value_eq, raised-ne-value}
use effect_probe.Exception.Triple.{Leaves}
use effect_probe.Kernel.Verdicts.{
  InvariantResult, ErrorRecord, Axis, clean, retry, error_results, inconclusive_results,
}
use effect_probe.Kernel.Types.{
  Types, CleanEvaluationContext, RetryEvaluationContext, CaseDefinition, CleanTrialEvidence,
  Perturbed,
}
use effect_probe.Kernel.Contracts.{evaluate_clean_contracts, evaluate_retry_contracts}
use effect_probe.Kernel.Frames.{Frame, Trial, new_frame, session_status}
use effect_probe.Kernel.Deltas.{caught_errors, assertion_names, invariant_names}
use effect_probe.Kernel.Clean.{clean_try, conclude_clean, settle_clean, run_clean}
use effect_probe.Kernel.Perturbed.{
  perturbed_try, catch_perturbed, conclude_perturbed, settle_perturbed, run_perturbed,
}
use effect_probe.Kernel.Accounting.Shapes.{TrialShape}
use effect_probe.Kernel.Accounting.Phases.{Evaluated, Ended, Returns}
use effect_probe.Kernel.Accounting.Blocks.{clean_try-Ended, perturbed_try-Ended}

is_empty-append : {A : Type 0} (x : A) (xs ys : List A) → is_empty (xs ++ (x ∷ ys)) ≡ false
is_empty-append x [] ys = refl
is_empty-append x (y ∷ xs) ys = refl

-- Every caught exception leaves an error record.
caught_errors-append :
    (xs : List ErrorRecord) (axis : Axis) (stage : String) (e : Exc)
    → is_empty (xs ++ caught_errors axis stage e) ≡ false
unfolding caught_errors
caught_errors-append xs axis stage (provision_error c) = is_empty-append _ xs _
caught_errors-append xs axis stage (provision_rollback_error c d) = is_empty-append _ xs _
caught_errors-append xs axis stage (cleanup_error c) = is_empty-append _ xs _
caught_errors-append xs axis stage (cleanup_body_error c d) = is_empty-append _ xs _
caught_errors-append xs axis stage e = is_empty-append _ xs _

-- A frame at the end of a trial: evaluated, or with an error on record.
abbrev Accountable : {T : Types} {E : Type 0} → (List InvariantResult → Type 0) → Frame T E → Type 0
Accountable G fr = Evaluated G fr ⊎ ((fr.results ≡ []) × (is_empty fr.errors ≡ false))

with_errors :
    {T : Types} {E : Type 0} {G : List InvariantResult → Type 0} (fr : Frame T E) (axis : Axis)
    (e : Exc)
    → Ended G fr
    → Accountable G (record fr { errors = fr.errors ++ caught_errors axis fr.stage e })
with_errors fr axis e (inl h) = inr (h.results, caught_errors-append fr.errors axis fr.stage e)
with_errors fr axis e (inr h) = inl (record { good = h.good; evidence = h.evidence })

module _ {T : Types} (case : CaseDefinition T) (G : List InvariantResult → Type 0) where
  conclude_clean-TrialShape :
      (fr : Frame T (CleanTrialEvidence T))
      → Accountable G fr
      → TrialShape G (assertion_names case) (conclude_clean case fr)
  unfolding conclude_clean
  conclude_clean-TrialShape fr (inl h) =
      elim (Bool-cases (not (is_empty fr.errors) && is_empty fr.results)) [
        | inl replaced ↦ inr (inl ("clean trial did not complete validly", rw replaced))
        | inr kept ↦ inl (
          rw kept h.good,
          (record h.evidence.0 { cleanup = session_status fr.session }, rw h.evidence.1),
        )
      ]
  conclude_clean-TrialShape fr (inr (none_yet, some_error)) =
      inr (inl ("clean trial did not complete validly", ground arith))

  settle_clean-TrialShape :
      (o : Outcome Unit) (fr : Frame T (CleanTrialEvidence T)) {t : Trial (CleanTrialEvidence T)}
      {w : T.Outer}
      → Leaves (λ _. Evaluated G) (Ended G) (o, fr)
      → settle_clean case o fr ≡ (value t, w)
      → TrialShape G (assertion_names case) t
  unfolding settle_clean
  settle_clean-TrialShape (value u) fr h e =
      rw (← value_eq e) (conclude_clean-TrialShape fr (inl h))
  settle_clean-TrialShape (raised x) fr h e = elim (Bool-cases (is_exception x)) [
    | inl caught ↦
        let e' = rw caught at e in
        rw (← value_eq e') (conclude_clean-TrialShape _ (with_errors fr clean x h))
    | inr interrupt ↦ absurd (raised-ne-value (rw interrupt at e))
  ]

  pub run_clean-TrialShape :
      (trial_id : TrialId) (w : T.Outer) {t : Trial (CleanTrialEvidence T)} {w' : T.Outer}
      → ((context : CleanEvaluationContext T)
          → Returns
              (λ a. G a.0)
              (evaluate_clean_contracts case.coverage context case.clean_assertions))
      → run_clean case trial_id w ≡ (value t, w')
      → TrialShape G (assertion_names case) t
  unfolding run_clean
  run_clean-TrialShape trial_id w g e =
      let (o, fr) = clean_try case trial_id (new_frame w) in
      settle_clean-TrialShape o fr
        ((clean_try-Ended case trial_id G g).at (new_frame w)
          (record { results = refl; errors = refl; evidence = tt }))
        e

  conclude_perturbed-TrialShape :
      (fr : Frame T (Perturbed T))
      → Accountable G fr
      → TrialShape G (invariant_names case) (conclude_perturbed case fr)
  unfolding conclude_perturbed
  conclude_perturbed-TrialShape fr (inl h) =
      elim (Bool-cases (not (is_empty fr.errors) && is_empty fr.results)) [
        | inl replaced ↦ inr (inl ("perturbed trial did not complete validly", rw replaced))
        | inr kept ↦ inl (rw kept h.good, h.evidence)
      ]
  conclude_perturbed-TrialShape fr (inr (none_yet, some_error)) =
      inr (inl ("perturbed trial did not complete validly", ground arith))

  -- The default leaves results of one kind as they are, or puts errors in their place.
  conclude_replaced :
      (fr : Frame T (Perturbed T)) (x : String)
      → (fr.results ≡ error_results (invariant_names case) x)
        ⊎ (fr.results ≡ inconclusive_results (invariant_names case) x)
      → TrialShape G (invariant_names case) (conclude_perturbed case fr)
  unfolding conclude_perturbed
  conclude_replaced fr x h = elim (Bool-cases (not (is_empty fr.errors) && is_empty fr.results)) [
    | inl replaced ↦ inr (inl ("perturbed trial did not complete validly", rw replaced))
    | inr kept ↦ elim h [ inl e ↦ inr (inl (x, rw kept e)) | inr e ↦ inr (inr (x, rw kept e)) ]
  ]

  caught_perturbed-TrialShape :
      (x : Exc) (fr : Frame T (Perturbed T))
      → Ended G fr
      → TrialShape G (invariant_names case) (conclude_perturbed case (catch_perturbed case x fr))
  unfolding catch_perturbed
  caught_perturbed-TrialShape (boundary_not_reached i b) fr h = conclude_replaced _ _ (inr refl)
  caught_perturbed-TrialShape (fault_not_propagated i b) fr h = conclude_replaced _ _ (inl refl)
  caught_perturbed-TrialShape e fr h = conclude_perturbed-TrialShape _ (with_errors fr retry e h)

  settle_perturbed-TrialShape :
      (o : Outcome Unit) (fr : Frame T (Perturbed T)) {t : Trial (Perturbed T)} {w : T.Outer}
      → Leaves (λ _. Evaluated G) (Ended G) (o, fr)
      → settle_perturbed case o fr ≡ (value t, w)
      → TrialShape G (invariant_names case) t
  unfolding settle_perturbed
  settle_perturbed-TrialShape (value u) fr h e =
      rw (← value_eq e) (conclude_perturbed-TrialShape fr (inl h))
  settle_perturbed-TrialShape (raised x) fr h e = elim (Bool-cases (is_exception x)) [
    | inl caught ↦
        let e' = rw caught at e in rw (← value_eq e') (caught_perturbed-TrialShape x fr h)
    | inr interrupt ↦ absurd (raised-ne-value (rw interrupt at e))
  ]

  pub run_perturbed-TrialShape :
      (trial_id : TrialId) (evidence : CleanTrialEvidence T) (w : T.Outer) {t : Trial (Perturbed T)}
      {w' : T.Outer}
      → ((context : RetryEvaluationContext T)
          → Returns
              (λ a. G a.0)
              (evaluate_retry_contracts case.coverage context case.retry_invariants))
      → run_perturbed case trial_id evidence w ≡ (value t, w')
      → TrialShape G (invariant_names case) t
  unfolding run_perturbed
  run_perturbed-TrialShape trial_id evidence w g e =
      let (o, fr) = perturbed_try case trial_id evidence (new_frame w) in
      settle_perturbed-TrialShape o fr
        ((perturbed_try-Ended case trial_id evidence G g).at (new_frame w)
          (record { results = refl; errors = refl; evidence = tt }))
        e

module _ {T : Types} (case : CaseDefinition T) where
  settle_clean-raised :
      (o : Outcome Unit) (fr : Frame T (CleanTrialEvidence T)) {x : Exc} {w : T.Outer}
      → settle_clean case o fr ≡ (raised x, w)
      → is_exception x ≡ false
  unfolding settle_clean
  settle_clean-raised (value u) fr e = ground arith
  settle_clean-raised (raised y) fr e = ground arith

  settle_perturbed-raised :
      (o : Outcome Unit) (fr : Frame T (Perturbed T)) {x : Exc} {w : T.Outer}
      → settle_perturbed case o fr ≡ (raised x, w)
      → is_exception x ≡ false
  unfolding settle_perturbed
  settle_perturbed-raised (value u) fr e = ground arith
  settle_perturbed-raised (raised y) fr e = ground arith

  pub run_clean-raised :
      (trial_id : TrialId) (w : T.Outer) {x : Exc} {w' : T.Outer}
      → run_clean case trial_id w ≡ (raised x, w')
      → is_exception x ≡ false
  unfolding run_clean
  run_clean-raised trial_id w e =
      let (o, fr) = clean_try case trial_id (new_frame w) in settle_clean-raised o fr e

  pub run_perturbed-raised :
      (trial_id : TrialId) (evidence : CleanTrialEvidence T) (w : T.Outer) {x : Exc} {w' : T.Outer}
      → run_perturbed case trial_id evidence w ≡ (raised x, w')
      → is_exception x ≡ false
  unfolding run_perturbed
  run_perturbed-raised trial_id evidence w e =
      let (o, fr) = perturbed_try case trial_id evidence (new_frame w) in
      settle_perturbed-raised o fr e
