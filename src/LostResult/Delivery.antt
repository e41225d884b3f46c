-- ===== src/LostResult/Delivery.antt =====
-- What the delivery callback does to its controller, and what a subject sees of it.
use effect_probe.Prelude.{
  ℕ, zero, suc, ◌≡◌, ◌≢◌, refl, sym, ap, ◌∙◌, ◌⊎◌, inl, inr, Bool, true, false, List, [], ◌∷◌, ◌++◌,
  none, some,
}
use mathlib.Core.List.{append-nil, append_assoc}
use effect_probe.Identity.{AttemptId, LostResultSchedule}
use effect_probe.Exception.{Outcome, value, raised, raised-injective, result_lost}
use effect_probe.LostResult.{
  Controller, Subject, finish, act, deliver, invoke, new_controller, delivery_for,
}
use effect_probe.LostResult.Alone.{
  undisturbed, count_deliveries, first_delivered, losing_first, count_losing_first,
}

-- `n` crossings by one attempt.
abbrev pub crossings : AttemptId → ℕ → List AttemptId
crossings a zero = []
crossings a (suc n) = a ∷ crossings a n

-- A subject raises the private signal only after a delivery has raised it.
abbrev pub Relays : {S R : Type 0} → Bool → Subject S R → Type 0
Relays seen (finish (value r)) = Unit
Relays seen (finish (raised e)) = e ≡ result_lost → seen ≡ true
Relays {S} seen (act change next) = (s : S) → Relays seen (next s)
Relays {R} seen (deliver r next) =
    ((x : R) → Relays seen (next (value x))) × Relays true (next (raised result_lost))

-- What the controller has recorded once it has been armed by `a` with the payload `r`.
pub record IsSpent {R : Type 0} (a : AttemptId) (r : R) (c : Controller R) : Type 0 where
  pub injected_by : c.injected_attempt_id ≡ some a
  pub payload : c.undelivered_result ≡ some r

-- The crossing that a delivery records.
abbrev reach : {R : Type 0} → AttemptId → Controller R → Controller R
reach id c = record c { reached_attempt_ids = c.reached_attempt_ids ++ (id ∷ []) }

module _ {R : Type 0} (id : AttemptId) where
  delivery_for-IsSpent :
      (first : AttemptId) (payload r : R) (c : Controller R)
      → IsSpent first payload c
      → delivery_for id r c ≡ (value r, reach id c)
  unfolding delivery_for
  delivery_for-IsSpent first payload r c h = rw h.injected_by

  delivery_for-new :
      (schedule : LostResultSchedule) (r : R)
      → delivery_for id r (new_controller schedule) ≡ (
        raised result_lost,
        record {
          schedule = schedule;
          reached_attempt_ids = id ∷ [];
          injected_attempt_id = some id;
          undelivered_result = some r;
        },
      )
  unfolding delivery_for
  delivery_for-new schedule r = refl

module _ {S R : Type 0} (id first : AttemptId) (payload : R) where
  -- Behind a controller that has already injected its fault, an invocation has the outcome and the
  -- final state of the undisturbed subject, whose deliveries all return their results, and the
  -- controller keeps the injected attempt and the withheld payload and records one crossing for
  -- each delivery of the undisturbed subject.
  pub invoke-IsSpent :
      (p : Subject S R) (s : S) (c : Controller R)
      → IsSpent first payload c
      → let (o, s', c') = invoke (delivery_for id) p s c in
        (o ≡ (undisturbed p s).0)
        × (s' ≡ (undisturbed p s).1)
        × IsSpent first payload c'
        × (c'.reached_attempt_ids ≡ c.reached_attempt_ids ++ crossings id (count_deliveries p s))
  unfolding invoke undisturbed count_deliveries
  invoke-IsSpent (finish o) s c h = (refl, refl, h, sym (append-nil c.reached_attempt_ids))
  invoke-IsSpent (act change next) s c h = invoke-IsSpent (next s) (change s) c h
  invoke-IsSpent (deliver r next) s c h =
      rw (delivery_for-IsSpent id first payload r c h, invoke)
        (let (o, s', spent, e) =
            invoke-IsSpent (next (value r)) s (reach id c)
              (record { injected_by = h.injected_by; payload = h.payload }) in
          (
            o,
            s',
            spent,
            e
                ∙ append_assoc c.reached_attempt_ids (id ∷ [])
                    (crossings id (count_deliveries (next (value r)) s)),
          ))

-- How a first invocation leaves the new controller: untouched, or armed by the first crossing.
abbrev pub FirstController :
    {S R : Type 0} → AttemptId → LostResultSchedule → Subject S R → S → Controller R → Type 0
FirstController {S} {R} id schedule p s c =
    ((c ≡ new_controller schedule) × (first_delivered p s ≡ none))
    ⊎ ((r : R) × (first_delivered p s ≡ some r)
        × IsSpent id r c
        × (c.reached_attempt_ids ≡ crossings id (count_losing_first p s)))

-- How a first invocation ends: as the subject whose first delivery is lost.
abbrev pub FirstRun :
    {S R : Type 0}
    → AttemptId
    → LostResultSchedule
    → Subject S R
    → S
    → Outcome R × S × Controller R
    → Type 0
FirstRun id schedule p s (o, s', c) =
    (o ≡ (losing_first p s).0) × (s' ≡ (losing_first p s).1) × FirstController id schedule p s c

module _ {S R : Type 0} (id : AttemptId) (schedule : LostResultSchedule) where
  -- A delivery arms the new controller, whatever the subject does behind it.
  pub invoke-deliver :
      (r : R) (next : Outcome R → Subject S R) (s : S)
      → let (o, s', c') = invoke (delivery_for id) (deliver r next) s (new_controller schedule) in
        let lost = next (raised result_lost) in
        (o ≡ (undisturbed lost s).0)
        × (s' ≡ (undisturbed lost s).1)
        × IsSpent id r c'
        × (c'.reached_attempt_ids ≡ crossings id (suc (count_deliveries lost s)))
  unfolding invoke
  invoke-deliver r next s =
      rw (delivery_for-new id schedule r, invoke)
        (invoke-IsSpent id id r (next (raised result_lost)) s
          (record {
            schedule = schedule;
            reached_attempt_ids = id ∷ [];
            injected_attempt_id = some id;
            undelivered_result = some r;
          })
          (record { injected_by = refl; payload = refl }))

  pub invoke-FirstRun :
      (p : Subject S R) (s : S)
      → FirstRun id schedule p s (invoke (delivery_for id) p s (new_controller schedule))
  unfolding invoke losing_first first_delivered count_losing_first
  invoke-FirstRun (finish o) s = (refl, refl, inl (refl, refl))
  invoke-FirstRun (act change next) s = invoke-FirstRun (next s) (change s)
  invoke-FirstRun (deliver r next) s =
      let (o, s', spent, e) = invoke-deliver r next s in (o, s', inr (r, refl, spent, e))

  -- The private signal leaves a first invocation only if it reached the boundary.
  pub invoke-lost :
      (p : Subject S R) (s : S)
      → Relays false p
      → (invoke (delivery_for id) p s (new_controller schedule)).0 ≡ raised result_lost
      → (invoke (delivery_for id) p s (new_controller schedule)).2 ≢ new_controller schedule
  unfolding invoke
  invoke-lost (finish (value r)) s h e same = cc e
  invoke-lost (finish (raised x)) s h e same = cc (h (raised-injective e))
  invoke-lost (act change next) s h e same = invoke-lost (next s) (change s) (h s) e same
  invoke-lost (deliver r next) s h e same =
      let (_, _, spent, _) = invoke-deliver r next s in
      cc (spent.injected_by, ap (λ (c : Controller R). c.injected_attempt_id) same)
