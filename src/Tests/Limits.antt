-- ===== src/Tests/Limits.antt =====
-- The theorems on the checks of artifacts, at a small object.
use effect_probe.Prelude.{refl, String, ◌+◌, ◌≤◌, ◌≡◌, ◌↔◌, true, arith, All, [], ◌∷◌}
use effect_probe.Prelude.Int.{pos}
use effect_probe.Exception.{value, ◌>>=◌}
use effect_probe.Artifact.{
  JsonValue, JsonFields, null, str, require_object, require_string, require_int, bool, int, list,
  dict, nil, item, end, field, max_total_nodes, validate_limits,
}
use effect_probe.Artifact.Objects.{keys, without, require_exact_fields, object_without_duplicates}
use effect_probe.Artifact.Envelope.{
  get, subscript, require_name, require_version, require_object_at, require_objects,
  require_reproduction, validate_envelope, IsEnvelope,
}
use effect_probe.Artifact.Equality.{json_eq}
use effect_probe.Artifact.Frozen.{freeze, thaw}
use effect_probe.Artifact.Frozen.Thawed.{IsDict, json_eq-thaw}
use effect_probe.Artifact.Envelope.Checks.{validate_envelope_iff}
use effect_probe.Artifact.Fields.{
  IsMember, Distinct, require_exact_fields_iff, object_without_duplicates_iff,
}
use effect_probe.Artifact.Limits.{size, Within, validate_limits_iff}

abbrev payload : JsonValue
payload = dict (field "numbers" (list (item (int (pos 7)) (item (bool true) nil))) end)

validate_limits_iff_example :
    (validate_limits payload "artifact" 0 0 ≡ (value tt, 4))
    ↔ (Within 0 payload × (0 + size payload ≤ max_total_nodes) × (4 ≡ 0 + size payload))
validate_limits_iff_example = validate_limits_iff payload "artifact" 0 0 4 (omega arith)

abbrev schema : JsonFields
schema = field "name" (bool true) (field "version" (int (pos 1)) end)

require_exact_fields_iff_example :
    (require_exact_fields schema ("version" ∷ "name" ∷ []) "artifact.schema" tt ≡ (value tt, tt))
    ↔ (All (IsMember (keys schema)) ("version" ∷ "name" ∷ [])
        × All (IsMember ("version" ∷ "name" ∷ [])) (keys schema))
require_exact_fields_iff_example =
    require_exact_fields_iff schema ("version" ∷ "name" ∷ []) "artifact.schema" tt

object_without_duplicates_iff_example :
    (object_without_duplicates schema tt ≡ (value schema, tt))
    ↔ (Distinct schema × (schema ≡ schema))
object_without_duplicates_iff_example = object_without_duplicates_iff schema schema tt

-- A payload whose objects are all empty but the schema.
abbrev envelope : JsonFields
envelope =
    let top = λ (key : String) (rest : JsonFields). field key (dict end) rest in
    field "schema"
      (dict (field "name" (str "effectprobe.private.evidence") (field "version" (int (pos 1)) end)))
      (field "reproduction" null (
        top "producer" (
          top "replay" (
            top "compatibility" (
              top "scope" (
                top "contracts"
                  (top "outcomes" (top "evidence" (top "provenance" (top "redaction" end))))))))))

validate_envelope_iff_example :
    (validate_envelope envelope tt ≡ (value tt, tt)) ↔ IsEnvelope envelope
validate_envelope_iff_example = validate_envelope_iff envelope

-- The check accepts it.
envelope_runs : validate_envelope envelope tt ≡ (value tt, tt)
unfolding validate_envelope require_exact_fields without require_object_at require_objects
    require_object require_string require_int require_name require_version require_reproduction
    subscript get ◌>>=◌
envelope_runs = refl

-- An object whose fields are not in the order of their names.
abbrev unsorted : JsonValue
unsorted = dict (field "version" (int (pos 1)) (field "name" payload end))

unsorted-IsDict : IsDict unsorted
unfolding IsDict get
unsorted-IsDict = (refl, tt, (refl, (refl, (tt, (tt, tt)), tt), tt))

json_eq-thaw_example : json_eq unsorted (thaw (freeze unsorted)) ≡ true
json_eq-thaw_example = json_eq-thaw unsorted unsorted-IsDict
