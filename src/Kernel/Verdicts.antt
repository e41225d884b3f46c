-- ===== src/Kernel/Verdicts.antt =====
-- The enumerations and the recorded results of src/effectprobe/_semantic_kernel.py, and the two
-- functions over results alone, `_aggregate` among them.
pub mod Axes
use effect_probe.Prelude.{
  String, Bool, true, false, ◌&&◌, ◌||◌, not, List, [], ◌∷◌, map, any, if◌then◌else◌,
}

pub data InvariantVerdict : Type 0 where
  pass fail inconclusive error : InvariantVerdict

pub data AxisStatus : Type 0 where
  pass fail inconclusive error unverified : AxisStatus

pub data CleanupStatus : Type 0 where
  not_attempted pass error : CleanupStatus

-- The `axis` of an `ErrorRecord`.
pub data Axis : Type 0 where
  clean retry : Axis

pub record InvariantResult : Type 0 where
  pub name : String
  pub verdict : InvariantVerdict
  pub explanation : String
  pub missing_evidence : List String
  pub candidate : Bool

pub record ErrorRecord : Type 0 where
  pub axis : Axis
  pub phase : String
  pub error_type : String
  pub message : String

pub record AxisResult : Type 0 where
  pub status : AxisStatus
  pub invariants : List InvariantResult

abbrev pub is_fail : InvariantResult → Bool
is_fail r = elim r.verdict [ pass ↦ false | fail ↦ true | inconclusive ↦ false | error ↦ false ]

abbrev pub is_error : InvariantResult → Bool
is_error r = elim r.verdict [ pass ↦ false | fail ↦ false | inconclusive ↦ false | error ↦ true ]

abbrev pub is_inconclusive : InvariantResult → Bool
is_inconclusive r = elim r.verdict [
  | pass ↦ false
  | fail ↦ false
  | inconclusive ↦ true
  | error ↦ false
]

abbrev pub is_axis : Axis → ErrorRecord → Bool
is_axis clean e = elim e.axis [ clean ↦ true | retry ↦ false ]
is_axis retry e = elim e.axis [ clean ↦ false | retry ↦ true ]

-- `_error_results`
unfoldable pub error_results : List String → String → List InvariantResult
error_results names explanation =
    map
      (λ name. record {
        name = name;
        verdict = error;
        explanation = explanation;
        missing_evidence = [];
        candidate = false;
      })
      names

-- `_inconclusive_results`
unfoldable pub inconclusive_results : List String → String → List InvariantResult
inconclusive_results names explanation =
    map
      (λ name. record {
        name = name;
        verdict = inconclusive;
        explanation = explanation;
        missing_evidence = [];
        candidate = false;
      })
      names

-- `_aggregate`
unfoldable pub aggregate : List InvariantResult → Bool → Bool → AxisResult
aggregate [] allow_unverified has_error = record {
  status = if allow_unverified && not has_error then unverified else error;
  invariants = [];
}
aggregate (r ∷ rs) allow_unverified has_error =
    let results : List InvariantResult = r ∷ rs in
    record {
      status =
          if any is_fail results
          then fail
          else if has_error || any is_error results
          then error
          else if any is_inconclusive results
          then inconclusive
          else pass;
      invariants = results;
    }
