-- ===== src/Refund/Comparison.antt =====
-- `build_refund_case` and the two evaluations of src/effectprobe/_refund_comparison.py.
--
-- The outer state is the tracker, whose records hold the objects of each world, and the variable
-- `record` of the latest world factory.
use effect_probe.Prelude.{
  ℕ, zero, suc, ◌+◌, Bool, true, false, List, [], ◌∷◌, ◌++◌, Option, none, some, length,
  if◌then◌else◌,
}
use effect_probe.Identity.{TrialId, provider_result_loss}
use effect_probe.Exception.{Outcome, value, M, pure}
use effect_probe.LostResult.{zoom}
use effect_probe.Kernel.Verdicts.{CleanupStatus}
use effect_probe.Kernel.Types.{
  Types, EvidenceKind, EvidenceRequirement, SurfaceCoverage, World, WorldSession, CaseDefinition,
  CaseResult,
}
use effect_probe.Kernel.Deltas.{from_outcome}
use effect_probe.Kernel.Evaluate.{evaluate_case}
use effect_probe.Refund.Model
use effect_probe.Refund.Model.{
  RefundCommand, RefundObservation, canonicalize_state, canonicalize_event,
}
use effect_probe.Refund.Provider.{RefundWorld, new_world, observe, invoke_subject}
use effect_probe.Refund.Contracts.{
  RefundTypes, validate_refund_fixture, one_refund_matches_request,
  no_additional_refund_after_retry,
}

pub record RefundWorldRecord : Type 0 where
  pub trial_id : TrialId
  pub world : RefundWorld
  pub cleaned : Bool

pub record RefundWorldTracker : Type 0 where
  pub worlds : List RefundWorldRecord
  pub cleanup_attempts : ℕ
  -- the place in `worlds` of the object that `record` names
  pub current : Option ℕ

abbrev pub new_tracker : RefundWorldTracker
new_tracker = record { worlds = []; cleanup_attempts = 0; current = none }

-- The record at a place; only places that a provision has returned are read.
abbrev pub record_at : ℕ → List RefundWorldRecord → RefundWorld
record_at i [] = new_world false
record_at zero (r ∷ rs) = r.world
record_at (suc i) (r ∷ rs) = record_at i rs

abbrev pub change_at :
    (RefundWorldRecord → RefundWorldRecord) → ℕ → List RefundWorldRecord → List RefundWorldRecord
change_at f i [] = []
change_at f zero (r ∷ rs) = f r ∷ rs
change_at f (suc i) (r ∷ rs) = r ∷ change_at f i rs

abbrev pub get_world : ℕ → RefundWorldTracker → RefundWorld
get_world i t = record_at i t.worlds

abbrev pub put_world : ℕ → RefundWorld → RefundWorldTracker → RefundWorldTracker
put_world i w t = record t { worlds = change_at (λ r. record r { world = w }) i t.worlds }

abbrev pub Tracked : Types
Tracked = RefundTypes RefundWorldTracker

-- The `World` over the provider and the subject at a place.
unfoldable pub world_at : ℕ → World Tracked
world_at i = record {
  invoke = λ command. zoom (get_world i) (put_world i) (invoke_subject command);
  observe = λ t. (value (observe (get_world i t).provider), t);
  validate_fixture = λ o. from_outcome (validate_refund_fixture o);
}

-- `provision`
unfoldable pub provision : Bool → TrialId → M RefundWorldTracker (World Tracked)
provision keyed trial_id t = (
  value (world_at (length t.worlds)),
  record t {
    worlds =
        t.worlds ++ (record { trial_id = trial_id; world = new_world keyed; cleaned = false } ∷ []);
    current = some (length t.worlds);
  },
)

abbrev pub mark_cleaned : Option ℕ → List RefundWorldRecord → List RefundWorldRecord
mark_cleaned none worlds = worlds
mark_cleaned (some i) worlds = change_at (λ r. record r { cleaned = true }) i worlds

-- `cleanup`
unfoldable pub cleanup : Option (World Tracked) → M RefundWorldTracker Unit
cleanup world t = (
  value tt,
  record t { cleanup_attempts = t.cleanup_attempts + 1; worlds = mark_cleaned t.current t.worlds },
)

-- `world_factory`
unfoldable pub world_factory : Bool → TrialId → M RefundWorldTracker (WorldSession Tracked)
world_factory keyed trial_id t = (
  value (record {
    provision = provision keyed trial_id;
    cleanup = cleanup;
    world = none;
    cleanup_status = CleanupStatus.not_attempted;
  }),
  record t { current = none },
)

abbrev pub state_requirement : EvidenceRequirement
state_requirement = record { kind = EvidenceKind.state; surface = some "refunds" }

abbrev pub history_requirement : EvidenceRequirement
history_requirement = record { kind = EvidenceKind.complete_history; surface = some "refunds" }

abbrev pub result_requirement : EvidenceRequirement
result_requirement = record { kind = EvidenceKind.subject_result; surface = none }

abbrev pub refund_coverage : SurfaceCoverage
refund_coverage = record {
  surface = "refunds";
  state = true;
  history = true;
  complete_history = true;
  observation_interval = "baseline_to_final";
  provenance = "harness_controlled_model";
  limitations = "does not validate production-provider semantics" ∷ [];
}

-- `build_refund_case`, without the tracker that it returns beside the case.
unfoldable pub build_refund_case : Bool → CaseDefinition Tracked
build_refund_case keyed = record {
  subject_name = if keyed then "keyed_refund_subject" else "vulnerable_refund_subject";
  input = record {
    payment_id = Model.payment_id;
    amount_minor_units = Model.refund_minor_units;
    operation_key = Model.operation_key;
  };
  operation_id = Model.operation_id;
  operation_key_selector = λ command. pure (some command.operation_key);
  world_factory = world_factory keyed;
  coverage = refund_coverage;
  canonicalize_state = λ s. pure (canonicalize_state s);
  canonicalize_event = λ e. pure (canonicalize_event e);
  clean_assertions =
      record {
        name = "one_refund_matches_request";
        requirements = state_requirement ∷ history_requirement ∷ result_requirement ∷ [];
        evaluate = λ context. from_outcome (one_refund_matches_request context);
      }
      ∷ [];
  retry_invariants =
      record {
        name = "no_additional_refund_after_retry";
        requirements = state_requirement ∷ history_requirement ∷ [];
        evaluate = λ context. from_outcome (no_additional_refund_after_retry context);
      }
      ∷ [];
  scope_limitations =
      "private provisional semantic outcome" ∷ "code and dependency identity are not recorded"
      ∷ "runtime and environment fingerprints are not recorded"
      ∷ "runner and evidence-schema versions are not recorded" ∷ [];
  schedule = provider_result_loss;
  preflight = pure tt;
}

-- `evaluate_vulnerable_refund`
unfoldable pub evaluate_vulnerable_refund : Outcome (CaseResult Tracked) × RefundWorldTracker
evaluate_vulnerable_refund = evaluate_case (build_refund_case false) new_tracker

-- `evaluate_keyed_refund`
unfoldable pub evaluate_keyed_refund : Outcome (CaseResult Tracked) × RefundWorldTracker
evaluate_keyed_refund = evaluate_case (build_refund_case true) new_tracker
