-- ===== src/Report/Encode.antt =====
-- The parts of the JSON projection of a report (src/effectprobe/_mcp_reports.py, from
-- `_requirements_payload` to `_trial_payload`).
use effect_probe.Prelude.{ℕ, String, Bool, List, [], ◌∷◌, Option, some, none}
use effect_probe.Prelude.Int.{pos}
use effect_probe.Store.{Mode}
use effect_probe.Artifact.{
  JsonValue, null, bool, int, str, list, dict, JsonItems, nil, item, JsonFields, end, field,
}
use effect_probe.Report.{
  ReportVerdict, ReportAxisStatus, ReportTrialKind, ReportComponent, ReportDistribution,
  ReportRequirement, ReportNamedContract, ReportObserver, ReportInvariant, ReportAxis, ReportTrial,
}

-- `[encode(x) for x in xs]`
unfoldable pub items_of : {A : Type 0} → (A → JsonValue) → List A → JsonItems
items_of encode [] = nil
items_of encode (x ∷ xs) = item (encode x) (items_of encode xs)

-- A dict display `{"k": v, ...}`.
abbrev pub object_of : List (String × JsonValue) → JsonFields
object_of [] = end
object_of ((k, v) ∷ rest) = field k v (object_of rest)

abbrev pub count_of : ℕ → JsonValue
count_of n = int (pos n)

abbrev pub nullable : Option String → JsonValue
nullable none = null
nullable (some s) = str s

abbrev pub nullable_bool : Option Bool → JsonValue
nullable_bool none = null
nullable_bool (some b) = bool b

abbrev pub strings_of : List String → JsonValue
strings_of names = list (items_of str names)

abbrev pub verdict_text : ReportVerdict → String
verdict_text ReportVerdict.pass = "PASS"
verdict_text ReportVerdict.fail = "FAIL"
verdict_text ReportVerdict.inconclusive = "INCONCLUSIVE"
verdict_text ReportVerdict.error = "ERROR"

abbrev pub status_text : ReportAxisStatus → String
status_text (ReportAxisStatus.judged v) = verdict_text v
status_text ReportAxisStatus.unverified = "UNVERIFIED"

abbrev pub mode_text : Mode → String
mode_text Mode.unsafe = "unsafe"
mode_text Mode.keyed = "keyed"

abbrev kind_text : ReportTrialKind → String
kind_text ReportTrialKind.clean = "clean"
kind_text ReportTrialKind.perturbed = "perturbed"

abbrev pub requirement_payload : ReportRequirement → JsonValue
requirement_payload r =
    dict (object_of (("kind", str r.kind) ∷ ("surface", nullable r.surface) ∷ []))

-- `_requirements_payload`
abbrev pub requirements_payload : List ReportRequirement → JsonValue
requirements_payload rs = list (items_of requirement_payload rs)

abbrev pub contract_payload : ReportNamedContract → JsonValue
contract_payload c =
    dict (
      object_of (("name", str c.name) ∷ ("requirements", requirements_payload c.requirements) ∷ []))

-- `_named_contract_payload`
abbrev pub named_contract_payload : List ReportNamedContract → JsonValue
named_contract_payload cs = list (items_of contract_payload cs)

abbrev invariant_payload : ReportInvariant → JsonValue
invariant_payload i = dict (
    object_of (
      ("name", str i.name)
      ∷ ("verdict", str (verdict_text i.verdict))
      ∷ ("explanation", str i.explanation)
      ∷ ("missing_evidence", strings_of i.missing_evidence)
      ∷ []))

-- `_axis_payload`
abbrev pub axis_payload : ReportAxis → JsonValue
axis_payload a = dict (
    object_of (
      ("status", str (status_text a.status))
      ∷ ("invariants", list (items_of invariant_payload a.invariants))
      ∷ []))

abbrev nullable_count : Option ℕ → JsonValue
nullable_count none = null
nullable_count (some n) = count_of n

abbrev fault_payload : ReportTrial → Option String → JsonValue
fault_payload t none = null
fault_payload t (some boundary) = dict (
    object_of (
      ("boundary", str boundary)
      ∷ ("reached", bool t.fault_reached)
      ∷ ("injected_attempt_ordinal", nullable_count t.injected_attempt_ordinal)
      ∷ []))

-- `_trial_payload`
abbrev pub trial_payload : ReportTrial → JsonValue
trial_payload t = dict (
    object_of (
      ("pair_id", str t.pair_id)
      ∷ ("kind", str (kind_text t.kind))
      ∷ ("trial_id", str t.trial_id)
      ∷ ("history_delta_count", count_of t.history_delta_count)
      ∷ ("attempt_count", count_of t.attempt_count)
      ∷ ("transport_delivery_count", count_of t.transport_delivery_count)
      ∷ (
        "cleanup",
        dict (
            object_of (
              ("status", str t.cleanup_status)
              ∷ ("resource_closed", bool t.resource_closed)
              ∷ ("database_removed", bool t.database_removed)
              ∷ [])),
      )
      ∷ ("fault", fault_payload t t.fault_boundary)
      ∷ []))

abbrev pub observer_payload : ReportObserver → JsonValue
observer_payload o = dict (
    object_of (
      ("surface", str o.surface)
      ∷ ("state", bool o.state)
      ∷ ("history", bool o.history)
      ∷ ("complete_history", bool o.complete_history)
      ∷ ("observation_interval", str o.observation_interval)
      ∷ ("provenance", str o.provenance)
      ∷ ("limitations", strings_of o.limitations)
      ∷ []))

abbrev pub component_payload : ReportComponent → JsonValue
component_payload c = dict (object_of (("path", str c.path) ∷ ("sha256", str c.sha256) ∷ []))

abbrev pub distribution_payload : ReportDistribution → JsonValue
distribution_payload d = dict (object_of (("name", str d.name) ∷ ("version", str d.version) ∷ []))
