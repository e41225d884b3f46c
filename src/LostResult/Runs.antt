-- ===== src/LostResult/Runs.antt =====
-- What a run of src/effectprobe/_lost_result.py records, and how a run that is not one ends.
use effect_probe.Prelude.{
  ◌≡◌, ◌≢◌, refl, sym, ap, ◌∙◌, ◌⊎◌, inl, inr, false, [], ◌∷◌, ◌++◌, map, Option, none, some, arith,
}
use effect_probe.Identity.{OperationId, TrialId, AttemptIdentity, LostResultSchedule, identity_for}
use effect_probe.Exception.{
  Outcome, ◌>>=◌, value, raised, result_lost, boundary_not_reached, fault_not_propagated, M,
}
use effect_probe.Exception.Bind.{bind-value}
use effect_probe.LostResult.{
  AttemptEvidence, RunEvidence, Controller, Subject, invoke, new_controller, delivery_for, attempt,
  after_first, record_baseline, finish_second, retry_once,
  run_commit_then_lose_first_provider_result,
}
use effect_probe.LostResult.Alone.{
  undisturbed, count_deliveries, first_delivered, losing_first, count_losing_first,
}
use effect_probe.LostResult.Delivery.{
  crossings, Relays, IsSpent, invoke-IsSpent, invoke-FirstRun, invoke-lost,
}

module _ {S R O : Type 0} where
  -- An observation is taken behind the first invocation only if the private signal left it.
  after_first-value :
      (observe : M S O) (identity : AttemptIdentity) (schedule : LostResultSchedule) (o : Outcome R)
      (c : Controller R) (s : S) {x : O} {s' : S}
      → after_first observe identity schedule o c s ≡ (value x, s')
      → (o ≡ raised result_lost) × (observe s ≡ (value x, s'))
  unfolding after_first
  after_first-value observe identity schedule (raised result_lost) c s e = (refl, e)
  after_first-value observe identity schedule (raised x) c s e = ground arith
  after_first-value observe identity schedule (value r) c s e = ground arith

-- The state in which the first invocation begins: the one behind the observation of the baseline,
-- which is only taken where none is given.
abbrev pub begun_at : {S O : Type 0} → M S O → Option O → S → S
begun_at observe none s = (observe s).1
begun_at observe (some b) s = s

-- A run that lost exactly the first delivered result of a subject and retried once.
pub record LostOnce {S R O : Type 0} (p : Subject S R) (observe : M S O)
    (operation_id : OperationId) (trial_id : TrialId) (baseline : Option O) (s : S)
    (ev : RunEvidence R O) (s' : S) : Type 0 where
  pub payload : R
  pub lost_seen : O
  pub resumed_at : S
  pub injected_once :
      ev.harness.injected_attempt_id ≡ some (identity_for operation_id trial_id 1).attempt_id
  pub withheld : ev.harness.undelivered_result ≡ some payload
  pub delivered_first : first_delivered p (begun_at observe baseline s) ≡ some payload
  pub reached :
      ev.harness.reached_attempt_ids
      ≡ crossings
          (identity_for operation_id trial_id 1).attempt_id
          (count_losing_first p (begun_at observe baseline s))
        ++ crossings
            (identity_for operation_id trial_id 2).attempt_id
            (count_deliveries p resumed_at)
  -- the lost result left the first invocation, and was observed
  pub lost : (losing_first p (begun_at observe baseline s)).0 ≡ raised result_lost
  pub lost_observed :
      observe (losing_first p (begun_at observe baseline s)).1 ≡ (value lost_seen, resumed_at)
  -- the retry is the undisturbed subject, and is observed at its end
  pub retried : (undisturbed p resumed_at).0 ≡ value ev.subject_result
  pub observed :
      (final : O) × (observe (undisturbed p resumed_at).1 ≡ (value final, s'))
      × (map (λ (a : AttemptEvidence R O). a.observation) ev.attempts ≡ lost_seen ∷ final ∷ [])
  pub results :
      map (λ (a : AttemptEvidence R O). a.returned_result) ev.attempts
      ≡ none ∷ some ev.subject_result ∷ []

record_baseline-value :
    {S O : Type 0} (observe : M S O) (baseline : Option O) (s : S) {b : O} {s' : S}
    → record_baseline observe baseline s ≡ (value b, s')
    → begun_at observe baseline s ≡ s'
unfolding record_baseline
record_baseline-value observe none s e = ground (arith, e)
record_baseline-value observe (some b) s e = ground (arith, e)

module _ {S R O : Type 0} (operation_id : OperationId) (p : Subject S R) (observe : M S O)
    (trial_id : TrialId) (schedule : LostResultSchedule) where
  -- What the evidence of a run says from the lost result on.
  record Retried (c : Controller R) (x : O) (s : S) (ev : RunEvidence R O) (s' : S) : Type 0 where
    harness :
        (ev.harness.injected_attempt_id ≡ c.injected_attempt_id)
        × (ev.harness.undelivered_result ≡ c.undelivered_result)
    reached :
        ev.harness.reached_attempt_ids
        ≡ c.reached_attempt_ids
          ++ crossings (identity_for operation_id trial_id 2).attempt_id (count_deliveries p s)
    retried : (undisturbed p s).0 ≡ value ev.subject_result
    observed :
        (final : O) × (observe (undisturbed p s).1 ≡ (value final, s'))
        × (map (λ (a : AttemptEvidence R O). a.observation) ev.attempts ≡ x ∷ final ∷ [])
    results :
        map (λ (a : AttemptEvidence R O). a.returned_result) ev.attempts
        ≡ none ∷ some ev.subject_result ∷ []

  retry_once-Retried :
      (b x : O) (c : Controller R) (payload : R) (s : S) {ev : RunEvidence R O} {s' : S}
      → IsSpent (identity_for operation_id trial_id 1).attempt_id payload c
      → retry_once operation_id p observe trial_id schedule b c x s ≡ (value ev, s')
      → Retried c x s ev s'
  unfolding ◌>>=◌ retry_once attempt finish_second
  retry_once-Retried b x c payload s spent e =
      let id = (identity_for operation_id trial_id 2).attempt_id in
      let (same, states, spent', counted) =
        invoke-IsSpent id (identity_for operation_id trial_id 1).attempt_id payload p s c spent in
      let (r, s1, _, e1) = bind-value (finish_second (invoke (delivery_for id) p s c).0) _ _ e in
      let (final, _, seen, _) = bind-value observe _ s1 e1 in
      record {
        harness = (
          ground (arith, spent'.injected_by, spent.injected_by),
          ground (arith, spent'.payload, spent.payload),
        );
        reached = ground (arith, counted);
        retried = ground (arith, same);
        observed = (final, ground (arith, seen, states), ground (arith, seen));
        results = ground arith;
      }

  -- For a subject that raises the private signal only after a delivery raised it, a run that
  -- returns has lost exactly the first result that the subject delivers from the state behind the
  -- baseline: that result is the withheld one, the first attempt is the injected one, the subject
  -- whose first delivery is lost ends with the private signal, the recorded crossings are each of
  -- its deliveries and then each of the retry, and the retry is the undisturbed subject, of which
  -- the result and the final observation are recorded.
  pub run-LostOnce :
      (baseline : Option O) (s : S) {ev : RunEvidence R O} {s' : S}
      → Relays false p
      → run_commit_then_lose_first_provider_result operation_id p observe trial_id baseline schedule
          s
        ≡ (value ev, s')
      → LostOnce p observe operation_id trial_id baseline s ev s'
  unfolding ◌>>=◌ run_commit_then_lose_first_provider_result attempt
  run-LostOnce baseline s relays e =
      let id = (identity_for operation_id trial_id 1).attempt_id in
      let (b, s₀, started, e₀) = bind-value (record_baseline observe baseline) _ s e in
      let (o, s₁, c) = invoke (delivery_for id) p s₀ (new_controller schedule) in
      let (x, s₂, seen, e₁) =
        bind-value (after_first observe (identity_for operation_id trial_id 1) schedule o c) _ s₁
          e₀ in
      let (lost, observed) = after_first-value observe _ schedule o c s₁ seen in
      let (out, state, armed) = invoke-FirstRun id schedule p s₀ in
      let begun = record_baseline-value observe baseline s started in
      elim armed [
        | inl (same, _) ↦ absurd (invoke-lost id schedule p s₀ relays lost same)
        | inr (payload, first, spent, reached) ↦
            let retry = retry_once-Retried b x c payload s₂ spent e₁ in
            (record {
              payload = payload;
              lost_seen = x;
              resumed_at = s₂;
              injected_once = retry.harness.0 ∙ spent.injected_by;
              withheld = retry.harness.1 ∙ spent.payload;
              delivered_first = ap (first_delivered p) begun ∙ first;
              reached = rw begun (ground (arith, retry.reached, reached));
              lost = rw begun (sym out ∙ lost);
              lost_observed = rw (begun, ← state) observed;
              retried = retry.retried;
              observed = retry.observed;
              results = retry.results;
            })
      ]

  -- With a baseline given and a first invocation that returns, the run ends there: as a boundary
  -- that was not reached where the controller is as new, and as a fault that was caught where it
  -- was armed.
  pub run-first-returned :
      (b : O) (s : S) (r : R)
      → (invoke
          (delivery_for (identity_for operation_id trial_id 1).attempt_id)
          p
          s
          (new_controller schedule)).0
        ≡ value r
      → let (_, s₁, c) =
          invoke
            (delivery_for (identity_for operation_id trial_id 1).attempt_id)
            p
            s
            (new_controller schedule) in
        let ended =
          run_commit_then_lose_first_provider_result operation_id p observe trial_id
            (some b)
            schedule
            s in
        ((c ≡ new_controller schedule)
          × (ended ≡ (
            raised (
                boundary_not_reached (identity_for operation_id trial_id 1) schedule.boundary_name),
            s₁,
          )))
        ⊎ ((c ≢ new_controller schedule)
            × (ended ≡ (
              raised (
                  fault_not_propagated
                    (identity_for operation_id trial_id 1)
                    schedule.boundary_name),
              s₁,
            )))
  unfolding ◌>>=◌ run_commit_then_lose_first_provider_result attempt record_baseline after_first
  run-first-returned b s r returns =
      elim (invoke-FirstRun (identity_for operation_id trial_id 1).attempt_id schedule p s).2 [
        | inl (same, _) ↦
            inl (same, ground (arith, ap (λ (c : Controller R). c.injected_attempt_id) same))
        | inr (payload, _, spent, _) ↦ inr (
          (λ same. cc (spent.injected_by, ap (λ (c : Controller R). c.injected_attempt_id) same)),
          ground (arith, spent.injected_by),
        )
      ]
