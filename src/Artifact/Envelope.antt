-- ===== src/Artifact/Envelope.antt =====
-- `_validate_envelope` of src/effectprobe/_evidence_artifact.py. The order in which Python visits
-- the fields of a frozenset is not defined: here it is the order in which the source lists them.
pub mod Checks
use effect_probe.Prelude.{
  String, ◌≡◌, ◌≢◌, ◌↔◌, refl, Bool, true, false, not, List, [], ◌∷◌, All, Option, none, some,
  arith, format, str_eq, str_eq_iff, if◌then◌else◌,
}
use effect_probe.Prelude.Int.{ℤ, pos, eq_ℤ, eq_ℤ_iff}
use effect_probe.Exception.{Outcome, other, value, raised, M, pure, raise, ◌>>=◌, ◌>>◌}
use effect_probe.Exception.Bind.{bind-value}
use effect_probe.Artifact.{
  JsonValue, null, bool, int, str, list, dict, JsonFields, end, field, format_error, require_object,
  require_string, require_int,
}
use effect_probe.Artifact.Objects.{keys, require_exact_fields}
use effect_probe.Artifact.Fields.{IsMember, require_exact_fields_iff}

abbrev pub schema_name : String
schema_name = "effectprobe.private.evidence"

abbrev pub schema_version : ℤ
schema_version = pos 1

-- `_TOP_LEVEL_FIELDS - {"schema", "reproduction"}`
abbrev pub object_fields : List String
object_fields =
    "producer" ∷ "replay" ∷ "compatibility" ∷ "scope" ∷ "contracts" ∷ "outcomes" ∷ "evidence"
    ∷ "provenance" ∷ "redaction" ∷ []

abbrev pub top_level_fields : List String
top_level_fields = "schema" ∷ "reproduction" ∷ object_fields

-- `object.get(key)`
unfoldable pub get : String → JsonFields → Option JsonValue
get key end = none
get key (field k v rest) = if str_eq k key then some v else get key rest

abbrev pub found : {S : Type 0} → String → Option JsonValue → M S JsonValue
found key none s =
    (raised (other (record { type_name = "KeyError"; text = format ("'" ∷ key ∷ "'" ∷ []) })), s)
found key (some v) s = (value v, s)

module _ {S : Type 0} where
  -- `object[key]`
  unfoldable pub subscript : JsonFields → String → M S JsonValue
  subscript object key = found key (get key object)

  unfoldable pub require_name : String → M S Unit
  require_name name =
      if not (str_eq name schema_name)
      then raise (format_error "unsupported artifact schema name")
      else pure tt

  unfoldable pub require_version : ℤ → M S Unit
  require_version version =
      if not (eq_ℤ version schema_version)
      then raise (format_error "unsupported artifact schema version")
      else pure tt

  unfoldable pub require_object_at : JsonFields → String → M S JsonFields
  require_object_at payload key = do
    v ← subscript payload key
    require_object v (format ("artifact." ∷ key ∷ []))

  unfoldable pub require_objects : JsonFields → List String → M S Unit
  require_objects payload [] = pure tt
  require_objects payload (key ∷ rest) = do
    fields ← require_object_at payload key
    require_objects payload rest

  unfoldable pub require_reproduction : JsonValue → M S Unit
  require_reproduction null = pure tt
  require_reproduction v = do fields ← require_object v "artifact.reproduction"; pure tt

  -- `_validate_envelope`
  unfoldable pub validate_envelope : JsonFields → M S Unit
  validate_envelope payload = do
    require_exact_fields payload top_level_fields "artifact"
    schema ← require_object_at payload "schema"
    require_exact_fields schema ("name" ∷ "version" ∷ []) "artifact.schema"
    name_value ← subscript schema "name"
    name ← require_string name_value "artifact.schema.name"
    require_name name
    version_value ← subscript schema "version"
    version ← require_int version_value "artifact.schema.version"
    require_version version
    require_objects payload object_fields
    reproduction ← subscript payload "reproduction"
    require_reproduction reproduction

abbrev pub IsObjectAt : JsonFields → String → Type 0
IsObjectAt object key = (fields : JsonFields) × (get key object ≡ some (dict fields))

-- A payload with exactly the top-level fields, the schema's name and version, and objects in all
-- other fields but a reproduction that is null.
pub record IsEnvelope (payload : JsonFields) : Type 0 where
  pub schema : JsonFields
  pub has_schema : get "schema" payload ≡ some (dict schema)
  pub name : get "name" schema ≡ some (str schema_name)
  pub version : get "version" schema ≡ some (int schema_version)
  pub present : All (IsMember (keys payload)) top_level_fields
  pub known : All (IsMember top_level_fields) (keys payload)
  pub schema_present : All (IsMember (keys schema)) ("name" ∷ "version" ∷ [])
  pub schema_known : All (IsMember ("name" ∷ "version" ∷ [])) (keys schema)
  pub objects : All (IsObjectAt payload) object_fields
  pub reproduction :
      (v : JsonValue) × (get "reproduction" payload ≡ some v)
      × (v ≢ null → IsObjectAt payload "reproduction")
