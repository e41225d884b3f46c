-- ===== src/Kernel/Accounting/Blocks.antt =====
-- The `with` statement and the two `try` blocks keep to the phases.
use effect_probe.Prelude.{inl, inr, List, Option, some}
use effect_probe.Identity.{TrialId}
use effect_probe.Exception.{Outcome, value, raised, M}
use effect_probe.Exception.Triple.{Leaves, Triple, Triple-bind}
use effect_probe.Kernel.Verdicts.{InvariantResult}
use effect_probe.Kernel.Types.{
  Types, World, CleanEvaluationContext, RetryEvaluationContext, WorldSession, CaseDefinition,
  CleanTrialEvidence,
}
use effect_probe.Kernel.Contracts.{evaluate_clean_contracts, evaluate_retry_contracts}
use effect_probe.Kernel.Session.{enter, exit, ended_by}
use effect_probe.Kernel.Frames.{Frame, overridden_by, leave, entered_with, with_session}
use effect_probe.Kernel.Clean.{clean_body, clean_try}
use effect_probe.Kernel.Perturbed.{perturbed_body, perturbed_try}
use effect_probe.Kernel.Accounting.Phases.{
  Before, Evaluated, Anything, Ended, Returns, on_outer-Before, from_outcome-Before,
  set_stage-Before, set_session-Before, set_evidence-Before, evaluate-Evaluated,
}

-- A `with` statement changes no local variable of its own, so its body decides the phase.
module _ {T : Types} {E : Type 0} (G : List InvariantResult → Type 0) where
  overridden_by-Ended :
      (x o : Outcome Unit) (fr : Frame T E)
      → Leaves (λ _. Evaluated G) (Before Anything) (o, fr)
      → Leaves (λ _. Evaluated G) (Ended G) (overridden_by x o fr)
  overridden_by-Ended (value v) (value u) fr h = h
  overridden_by-Ended (value v) (raised e) fr h = inl h
  overridden_by-Ended (raised x) (value u) fr h = inr h
  overridden_by-Ended (raised x) (raised e) fr h = inl h

  -- `leave` sets the outer state and the session alone.
  outer_change :
      (o : Outcome Unit) (fr : Frame T E) (w : T.Outer) (s : Option (WorldSession T))
      → Leaves (λ _. Evaluated G) (Before Anything) (o, fr)
      → Leaves (λ _. Evaluated G) (Before Anything) (o, record fr { outer = w; session = s })
  outer_change (value u) fr w s h = record { good = h.good; evidence = h.evidence }
  outer_change (raised e) fr w s h = record {
    results = h.results;
    errors = h.errors;
    evidence = h.evidence;
  }

  entered_with-Ended :
      (o : Outcome (World T)) (session : WorldSession T) (body : World T → M (Frame T E) Unit)
      (fr : Frame T E)
      → ((world : World T)
          → Triple (Before Anything) (body world) (λ _. Evaluated G) (Before Anything))
      → Before Anything fr
      → Leaves (λ _. Evaluated G) (Ended G) (entered_with o session body fr)
  unfolding leave
  entered_with-Ended (value world) session body fr t h =
      let (b, after) = body world fr in
      let (x, session', w) = exit session (ended_by b) after.outer in
      overridden_by-Ended x b (record after { outer = w; session = some session' })
        (outer_change b after w (some session') ((t world).at fr h))
  entered_with-Ended (raised e) session body fr t h = inl h

  pub with_session-Ended :
      (session : WorldSession T) (body : World T → M (Frame T E) Unit)
      → ((world : World T)
          → Triple (Before Anything) (body world) (λ _. Evaluated G) (Before Anything))
      → Triple (Before Anything) (with_session session body) (λ _. Evaluated G) (Ended G)
  unfolding with_session
  with_session-Ended session body t = record {
    at = λ fr h.
        let (o, session', w) = enter session fr.outer in
        entered_with-Ended o session' body (record fr { outer = w; session = some session' }) t
          (record { results = h.results; errors = h.errors; evidence = h.evidence });
  }

-- A step before the `with` block, in the phases of the whole `try` block.
early-Leaves :
    {T : Types} {E A : Type 0} (G : List InvariantResult → Type 0) (Q : A → Frame T E → Type 0)
    (o : Outcome A) (fr : Frame T E)
    → Leaves Q (Before Anything) (o, fr)
    → Leaves Q (Ended G) (o, fr)
early-Leaves G Q (value a) fr h = h
early-Leaves G Q (raised e) fr h = inl h

early :
    {T : Types} {E A : Type 0} {G : List InvariantResult → Type 0} {P : Frame T E → Type 0}
    {Q : A → Frame T E → Type 0} {m : M (Frame T E) A}
    → Triple P m Q (Before Anything)
    → Triple P m Q (Ended G)
early {G = G} {Q = Q} {m = m} t = record {
  at = λ fr h. let (o, fr') = m fr in early-Leaves G Q o fr' (t.at fr h);
}

module _ {T : Types} (case : CaseDefinition T) (trial_id : TrialId)
    (G : List InvariantResult → Type 0) where
  clean_body-Evaluated :
      ((context : CleanEvaluationContext T)
        → Returns
            (λ a. G a.0)
            (evaluate_clean_contracts case.coverage context case.clean_assertions))
      → (world : World T)
      → Triple
          (Before Anything)
          (clean_body case trial_id world)
          (λ _. Evaluated G)
          (Before Anything)
  unfolding clean_body
  clean_body-Evaluated g world = Triple-bind (set_stage-Before _) λ _.
      Triple-bind (on_outer-Before _) λ baseline. Triple-bind (set_stage-Before _) λ _.
        Triple-bind (on_outer-Before _) λ _. Triple-bind (set_stage-Before _) λ _.
          Triple-bind (on_outer-Before _) λ result. Triple-bind (set_stage-Before _) λ _.
            Triple-bind (on_outer-Before _) λ final. Triple-bind (set_stage-Before _) λ _.
              Triple-bind (from_outcome-Before _) λ delta.
                Triple-bind (set_evidence-Before _)
                  λ _. Triple-bind (set_stage-Before _) λ _. evaluate-Evaluated G _ (g _)

  pub clean_try-Ended :
      ((context : CleanEvaluationContext T)
        → Returns
            (λ a. G a.0)
            (evaluate_clean_contracts case.coverage context case.clean_assertions))
      → Triple (Before Anything) (clean_try case trial_id) (λ _. Evaluated G) (Ended G)
  unfolding clean_try
  clean_try-Ended g = Triple-bind (early (on_outer-Before _)) λ session.
      Triple-bind (early (set_session-Before _)) λ _.
        Triple-bind (early (set_stage-Before _))
          λ _. with_session-Ended G session _ (clean_body-Evaluated g)

module _ {T : Types} (case : CaseDefinition T) (trial_id : TrialId) (clean : CleanTrialEvidence T)
    (G : List InvariantResult → Type 0) where
  perturbed_body-Evaluated :
      ((context : RetryEvaluationContext T)
        → Returns
            (λ a. G a.0)
            (evaluate_retry_contracts case.coverage context case.retry_invariants))
      → (world : World T)
      → Triple
          (Before Anything)
          (perturbed_body case trial_id clean world)
          (λ _. Evaluated G)
          (Before Anything)
  unfolding perturbed_body
  perturbed_body-Evaluated g world = Triple-bind (set_stage-Before _) λ _.
      Triple-bind (on_outer-Before _) λ baseline. Triple-bind (set_stage-Before _) λ _.
        Triple-bind (on_outer-Before _) λ _. Triple-bind (set_stage-Before _) λ _.
          Triple-bind (on_outer-Before _) λ _. Triple-bind (set_stage-Before _) λ _.
            Triple-bind (on_outer-Before _) λ run. Triple-bind (set_evidence-Before _) λ _.
              Triple-bind (set_stage-Before _) λ _. Triple-bind (from_outcome-Before _) λ delta.
                Triple-bind (on_outer-Before _) λ canonical_clean.
                  Triple-bind (on_outer-Before _) λ canonical_perturbed.
                    Triple-bind (set_stage-Before _) λ _. evaluate-Evaluated G _ (g _)

  pub perturbed_try-Ended :
      ((context : RetryEvaluationContext T)
        → Returns
            (λ a. G a.0)
            (evaluate_retry_contracts case.coverage context case.retry_invariants))
      → Triple (Before Anything) (perturbed_try case trial_id clean) (λ _. Evaluated G) (Ended G)
  unfolding perturbed_try
  perturbed_try-Ended g = Triple-bind (early (on_outer-Before _)) λ session.
      Triple-bind (early (set_session-Before _)) λ _.
        Triple-bind (early (set_stage-Before _))
          λ _. with_session-Ended G session _ (perturbed_body-Evaluated g)
