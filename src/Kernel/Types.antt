-- ===== src/Kernel/Types.antt =====
-- The data model of src/effectprobe/_semantic_kernel.py.
--
-- The type parameters of the source's classes are the fields of `Types`. `Outer` is the state of
-- everything outside the kernel; every callable of a case is an action on it.
use effect_probe.Prelude.{String, ◌≡◌, ◌↔◌, Bool, true, List, Option}
use effect_probe.Identity.{OperationId, TrialId, LostResultSchedule}
use effect_probe.Exception.{M}
use effect_probe.LostResult.{AttemptEvidence, RunEvidence, Subject}
use effect_probe.Kernel.Verdicts.{InvariantResult, ErrorRecord, AxisResult, CleanupStatus}

-- The parameters `InputT`, `ResultT`, `StateT`, `EventT`, `CanonicalStateT` and `CanonicalEventT`,
-- and `==` on events and on canonical states, which decides equality of values.
pub record Types : Type 1 where
  pub Outer : Type 0
  pub Input : Type 0
  pub Return : Type 0
  pub State : Type 0
  pub Event : Type 0
  pub CanonState : Type 0
  pub CanonEvent : Type 0
  pub event_eq : Event → Event → Bool
  pub event_eq_iff : (a b : Event) → (event_eq a b ≡ true) ↔ (a ≡ b)
  pub state_eq : CanonState → CanonState → Bool
  pub state_eq_iff : (a b : CanonState) → (state_eq a b ≡ true) ↔ (a ≡ b)

pub data EvidenceKind : Type 0 where
  state history complete_history subject_result : EvidenceKind

pub record EvidenceRequirement : Type 0 where
  pub kind : EvidenceKind
  pub surface : Option String

pub record SurfaceCoverage : Type 0 where
  pub surface : String
  pub state : Bool
  pub history : Bool
  pub complete_history : Bool
  pub observation_interval : String
  pub provenance : String
  pub limitations : List String

pub record SurfaceObservation (State Event : Type 0) : Type 0 where
  pub state : State
  pub history : List Event

pub record EvaluationDecision : Type 0 where
  pub passed : Bool
  pub explanation : String

abbrev pub Observation : Types → Type 0
Observation T = SurfaceObservation T.State T.Event

-- `cast` changes no value: the result is the `Option` that the attempt recorded.
pub record CleanEvaluationContext (T : Types) : Type 0 where
  pub input : T.Input
  pub baseline : Observation T
  pub final : Observation T
  pub history_delta : List T.Event
  pub returned_result : Option T.Return

pub record RetryEvaluationContext (T : Types) : Type 0 where
  pub input : T.Input
  pub clean : CleanEvaluationContext T
  pub perturbed_baseline : Observation T
  pub perturbed_final : Observation T
  pub perturbed_history_delta : List T.Event
  pub canonical_clean_history_delta : List T.CanonEvent
  pub canonical_perturbed_history_delta : List T.CanonEvent
  pub run : RunEvidence T.Return (Observation T)

pub record CleanAssertion (T : Types) : Type 0 where
  pub name : String
  pub requirements : List EvidenceRequirement
  pub evaluate : CleanEvaluationContext T → M T.Outer EvaluationDecision

pub record RetryInvariant (T : Types) : Type 0 where
  pub name : String
  pub requirements : List EvidenceRequirement
  pub evaluate : RetryEvaluationContext T → M T.Outer EvaluationDecision

pub record CleanTrialEvidence (T : Types) : Type 0 where
  pub trial_id : TrialId
  pub baseline : Observation T
  pub attempt : AttemptEvidence T.Return (Observation T)
  pub history_delta : List T.Event
  pub cleanup : CleanupStatus

pub record World (T : Types) : Type 0 where
  pub invoke : T.Input → Subject T.Outer T.Return
  pub observe : M T.Outer (Observation T)
  pub validate_fixture : Observation T → M T.Outer Unit

-- The object of `WorldSession`: its capabilities, and its mutable `_world` and `cleanup_status`.
pub record WorldSession (T : Types) : Type 0 where
  pub provision : M T.Outer (World T)
  pub cleanup : Option (World T) → M T.Outer Unit
  pub world : Option (World T)
  pub cleanup_status : CleanupStatus

pub record PrivateScope (T : Types) : Type 0 where
  pub subject_name : String
  pub input : T.Input
  pub operation_id : OperationId
  pub operation_key : Option String
  pub schedule : String
  pub coverage : SurfaceCoverage
  pub reportable : Bool
  pub limitations : List String

pub record CaseDefinition (T : Types) : Type 0 where
  pub subject_name : String
  pub input : T.Input
  pub operation_id : OperationId
  pub operation_key_selector : T.Input → M T.Outer (Option String)
  pub world_factory : TrialId → M T.Outer (WorldSession T)
  pub coverage : SurfaceCoverage
  pub canonicalize_state : T.State → M T.Outer T.CanonState
  pub canonicalize_event : T.Event → M T.Outer T.CanonEvent
  pub clean_assertions : List (CleanAssertion T)
  pub retry_invariants : List (RetryInvariant T)
  pub scope_limitations : List String
  pub schedule : LostResultSchedule
  pub preflight : M T.Outer Unit

abbrev pub Perturbed : Types → Type 0
Perturbed T = RunEvidence T.Return (Observation T)

pub record PairResult (T : Types) : Type 0 where
  pub pair_id : String
  pub clean : Option (CleanTrialEvidence T)
  pub perturbed : Option (Perturbed T)
  pub clean_results : List InvariantResult
  pub retry_results : List InvariantResult
  pub errors : List ErrorRecord
  pub clean_cleanup : CleanupStatus
  pub perturbed_cleanup : CleanupStatus

pub record CaseResult (T : Types) : Type 0 where
  pub scope : PrivateScope T
  pub clean_validity : AxisResult
  pub retry_safety : AxisResult
  pub primary : PairResult T
  pub confirmations : List (PairResult T)
