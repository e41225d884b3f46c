-- ===== src/LostResult.antt =====
-- src/effectprobe/_lost_result.py: one invocation whose result is lost at the armed boundary, and
-- one retry.
--
-- A subject is Python code that is not under src/. It acts on the outside world and calls the
-- delivery callback, so it is a tree of such actions: any code that keeps to the callback of its own
-- invocation and comes to an end is one.
pub mod Alone
pub mod Delivery
pub mod Runs
use effect_probe.Prelude.{
  String, Bool, true, false, List, [], ◌∷◌, ◌++◌, Option, none, some, if◌then◌else◌,
}
use effect_probe.Identity.{
  OperationId, TrialId, AttemptId, AttemptIdentity, AttemptOutcome, returned, LostResultSchedule,
  identity_for,
}
use effect_probe.Exception.{
  result_lost, boundary_not_reached, fault_not_propagated, Outcome, value, raised, M, pure, raise,
  ◌>>=◌,
}

pub record AttemptEvidence (R O : Type 0) : Type 0 where
  pub identity : AttemptIdentity
  pub outcome : AttemptOutcome
  pub observation : O
  pub returned_result : Option R

-- The two casts of the source change no value, so these are `None` where nothing was injected.
pub record HarnessEvidence (R : Type 0) : Type 0 where
  pub boundary_name : String
  pub reached_attempt_ids : List AttemptId
  pub injected_attempt_id : Option AttemptId
  pub undelivered_result : Option R

pub record RunEvidence (R O : Type 0) : Type 0 where
  pub operation_id : OperationId
  pub trial_id : TrialId
  pub baseline : O
  pub attempts : List (AttemptEvidence R O)
  pub harness : HarnessEvidence R
  pub subject_result : R

-- `_ResultDeliveryController`
pub record Controller (R : Type 0) : Type 0 where
  pub schedule : LostResultSchedule
  pub reached_attempt_ids : List AttemptId
  pub injected_attempt_id : Option AttemptId
  pub undelivered_result : Option R

-- A subject over an outer state `S` with results in `R`.
pub data Subject (S R : Type 0) : Type 0 where
  -- returns a result or raises
  finish : Outcome R → Subject S R
  -- reads and changes the outer state
  act : (S → S) → (S → Subject S R) → Subject S R
  -- calls `deliver_result` and goes on from what that returned or raised
  deliver : R → (Outcome R → Subject S R) → Subject S R

module _ {S R C : Type 0} where
  -- An invocation, with the callback that the subject is handed.
  unfoldable pub invoke : (R → M C R) → Subject S R → S → C → Outcome R × S × C
  invoke callback (finish r) s c = (r, s, c)
  invoke callback (act change next) s c = invoke callback (next s) (change s) c
  invoke callback (deliver r next) s c = let (o, c') = callback r c in invoke callback (next o) s c'

module _ {R : Type 0} where
  abbrev pub new_controller : LostResultSchedule → Controller R
  new_controller schedule = record {
    schedule = schedule;
    reached_attempt_ids = [];
    injected_attempt_id = none;
    undelivered_result = none;
  }

  abbrev pub injected : Controller R → Bool
  injected c = elim c.injected_attempt_id [ none ↦ false | some a ↦ true ]

  unfoldable pub delivery_for : AttemptId → R → M (Controller R) R
  delivery_for attempt_id r c =
      let reached : Controller R = record c {
        reached_attempt_ids = c.reached_attempt_ids ++ (attempt_id ∷ []);
      } in
      if injected c then (value r, reached) else (
        raised result_lost,
        record reached { injected_attempt_id = some attempt_id; undelivered_result = some r },
      )

module _ {S R : Type 0} where
  -- One call of `invoke(controller.delivery_for(attempt_id))`.
  unfoldable pub attempt : Subject S R → AttemptId → Controller R → M S (Outcome R × Controller R)
  attempt subject attempt_id c s =
      let (o, s', c') = invoke (delivery_for attempt_id) subject s c in (value (o, c'), s')

-- The observation taken before the run, where the caller gives none.
unfoldable pub record_baseline : {S O : Type 0} → M S O → Option O → M S O
record_baseline observe none = observe
record_baseline observe (some baseline) = pure baseline

-- What the second invocation raised leaves the run.
unfoldable pub finish_second : {S R : Type 0} → Outcome R → M S R
finish_second o s = (o, s)

module _ {S R O : Type 0} where
  -- The `try` statement on the first invocation: its `except` clause, and its `else` clause.
  unfoldable pub after_first :
      M S O → AttemptIdentity → LostResultSchedule → Outcome R → Controller R → M S O
  after_first observe identity schedule (raised result_lost) c = observe
  after_first observe identity schedule (raised e) c = raise e
  after_first observe identity schedule (value r) c =
      if injected c
      then raise (fault_not_propagated identity schedule.boundary_name)
      else raise (boundary_not_reached identity schedule.boundary_name)

  -- From the lost result on: the one retry, and the evidence of the whole run.
  unfoldable pub retry_once :
      OperationId
      → Subject S R
      → M S O
      → TrialId
      → LostResultSchedule
      → O
      → Controller R
      → O
      → M S (RunEvidence R O)
  retry_once operation_id subject observe trial_id schedule recorded_baseline c after_lost_result =
      let second_identity = identity_for operation_id trial_id 2 in
      do
        (outcome, c') ← attempt subject second_identity.attempt_id c
        subject_result ← finish_second outcome
        final_observation ← observe
        pure (record {
          operation_id = operation_id;
          trial_id = trial_id;
          baseline = recorded_baseline;
          attempts =
              record {
                identity = identity_for operation_id trial_id 1;
                outcome = schedule.lost_outcome;
                observation = after_lost_result;
                returned_result = none;
              }
              ∷ record {
                identity = second_identity;
                outcome = returned;
                observation = final_observation;
                returned_result = some subject_result;
              }
              ∷ [];
          harness = record {
            boundary_name = schedule.boundary_name;
            reached_attempt_ids = c'.reached_attempt_ids;
            injected_attempt_id = c'.injected_attempt_id;
            undelivered_result = c'.undelivered_result;
          };
          subject_result = subject_result;
        })

  unfoldable pub run_commit_then_lose_first_provider_result :
      OperationId
      → Subject S R
      → M S O
      → TrialId
      → Option O
      → LostResultSchedule
      → M S (RunEvidence R O)
  run_commit_then_lose_first_provider_result operation_id subject observe trial_id baseline
        schedule =
      let first_identity = identity_for operation_id trial_id 1 in
      do
        recorded_baseline ← record_baseline observe baseline
        (outcome, c) ← attempt subject first_identity.attempt_id (new_controller schedule)
        after_lost_result ← after_first observe first_identity schedule outcome c
        retry_once operation_id subject observe trial_id schedule recorded_baseline c
            after_lost_result

-- A subject on a part of the outer state.
unfoldable pub zoom : {S S' R : Type 0} → (S' → S) → (S → S' → S') → Subject S R → Subject S' R
zoom get put (finish o) = finish o
zoom get put (act change next) =
    act (λ s. put (change (get s)) s) (λ s. zoom get put (next (get s)))
zoom get put (deliver r next) = deliver r (λ o. zoom get put (next o))
