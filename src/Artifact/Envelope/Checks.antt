-- ===== src/Artifact/Envelope/Checks.antt =====
-- Which payloads pass `_validate_envelope` (src/effectprobe/_evidence_artifact.py).
use effect_probe.Prelude.{String, ◌≡◌, ◌≢◌, ◌↔◌, refl, List, [], ◌∷◌, All, some, arith, str_eq_iff}
use effect_probe.Prelude.Int.{ℤ, eq_ℤ_iff}
use effect_probe.Exception.{value, ◌>>=◌}
use effect_probe.Exception.Bind.{bind_passes, bind-value}
use effect_probe.Artifact.{
  JsonValue, null, bool, int, str, list, dict, JsonFields, require_object, require_string,
  require_int,
}
use effect_probe.Artifact.Objects.{require_exact_fields}
use effect_probe.Artifact.Fields.{require_exact_fields_iff}
use effect_probe.Artifact.Envelope.{
  schema_name, schema_version, object_fields, top_level_fields, get, subscript, require_name,
  require_version, require_object_at, require_objects, require_reproduction, validate_envelope,
  IsObjectAt, IsEnvelope,
}

subscript-value :
    (object : JsonFields) (key : String) {v : JsonValue}
    → subscript object key tt ≡ (value v, tt)
    → get key object ≡ some v
unfolding subscript
subscript-value object key e = ground arith

require_object-value :
    (v : JsonValue) (path : String) {fields : JsonFields}
    → require_object v path tt ≡ (value fields, tt)
    → v ≡ dict fields
unfolding require_object
require_object-value v path e = ground arith

require_string-value :
    (v : JsonValue) (path : String) {s : String}
    → require_string v path tt ≡ (value s, tt)
    → v ≡ str s
unfolding require_string
require_string-value v path e = ground arith

require_int-value :
    (v : JsonValue) (path : String) {n : ℤ} → require_int v path tt ≡ (value n, tt) → v ≡ int n
unfolding require_int
require_int-value v path e = ground arith

require_object_at-value :
    (payload : JsonFields) (key : String) {fields : JsonFields}
    → require_object_at payload key tt ≡ (value fields, tt)
    → get key payload ≡ some (dict fields)
unfolding require_object_at
require_object_at-value payload key e =
    let (v, _, e₁, e₂) = bind-value (subscript payload key) _ tt e in
    ground (arith, subscript-value payload key e₁, require_object-value v _ e₂)

require_objects-value :
    (payload : JsonFields) (names : List String)
    → require_objects payload names tt ≡ (value tt, tt)
    → All (IsObjectAt payload) names
unfolding require_objects
require_objects-value payload [] e = tt
require_objects-value payload (key ∷ rest) e =
    let (fields, _, e₁, e₂) = bind-value (require_object_at payload key) _ tt e in
    ((fields, require_object_at-value payload key e₁), require_objects-value payload rest e₂)

require_reproduction-value :
    (v : JsonValue)
    → require_reproduction v tt ≡ (value tt, tt)
    → v ≢ null
    → (fields : JsonFields) × (v ≡ dict fields)
unfolding require_reproduction require_object ◌>>=◌
require_reproduction-value null e n = absurd (n refl)
require_reproduction-value (dict fields) e n = (fields, refl)
require_reproduction-value (str x) e n = absurd (ground arith)
require_reproduction-value v e n = absurd (ground arith)

require_name-value : (name : String) → require_name name tt ≡ (value tt, tt) → name ≡ schema_name
unfolding require_name
require_name-value name e = ground (arith, str_eq_iff name schema_name)

require_version-value :
    (version : ℤ) → require_version version tt ≡ (value tt, tt) → version ≡ schema_version
unfolding require_version
require_version-value version e = ground (arith, eq_ℤ_iff version schema_version)

subscript-passes :
    (object : JsonFields) (key : String) (v : JsonValue)
    → get key object ≡ some v
    → subscript object key tt ≡ (value v, tt)
unfolding subscript
subscript-passes object key v e = rw e refl

require_object_at-passes :
    (payload : JsonFields) (key : String) (fields : JsonFields)
    → get key payload ≡ some (dict fields)
    → require_object_at payload key tt ≡ (value fields, tt)
unfolding require_object_at require_object
require_object_at-passes payload key fields e =
    bind_passes _ _ (subscript-passes payload key (dict fields) e) refl

require_objects-passes :
    (payload : JsonFields) (names : List String)
    → All (IsObjectAt payload) names
    → require_objects payload names tt ≡ (value tt, tt)
unfolding require_objects
require_objects-passes payload [] h = refl
require_objects-passes payload (key ∷ rest) ((fields, e), h) =
    bind_passes _ _ (require_object_at-passes payload key fields e)
      (require_objects-passes payload rest h)

require_reproduction-passes :
    (payload : JsonFields) (v : JsonValue)
    → get "reproduction" payload ≡ some v
    → (v ≢ null → IsObjectAt payload "reproduction")
    → require_reproduction v tt ≡ (value tt, tt)
unfolding require_reproduction require_object ◌>>=◌
require_reproduction-passes payload null e h = refl
require_reproduction-passes payload (dict fields) e h = refl
require_reproduction-passes payload (bool b) e h = let (f, o) = h (λ p. cc p) in cc (e, o)
require_reproduction-passes payload (int n) e h = let (f, o) = h (λ p. cc p) in cc (e, o)
require_reproduction-passes payload (str x) e h = let (f, o) = h (λ p. cc p) in cc (e, o)
require_reproduction-passes payload (list items) e h = let (f, o) = h (λ p. cc p) in cc (e, o)

IsEnvelope-passes :
    (payload : JsonFields) → IsEnvelope payload → validate_envelope payload tt ≡ (value tt, tt)
unfolding validate_envelope require_string require_int require_name require_version
IsEnvelope-passes payload h =
    let (r, at_reproduction, object) = h.reproduction in
    bind_passes _ _
      ((require_exact_fields_iff payload top_level_fields _ tt).1 (h.present, h.known))
      (bind_passes _ _ (require_object_at-passes payload "schema" h.schema h.has_schema) (
        bind_passes _ _
          ((require_exact_fields_iff h.schema _ _ tt).1 (h.schema_present, h.schema_known))
          (bind_passes _ _ (subscript-passes h.schema "name" _ h.name) (
            bind_passes _ _ refl (
              bind_passes _ _ refl (
                bind_passes _ _ (subscript-passes h.schema "version" _ h.version) (
                  bind_passes _ _ refl (
                    bind_passes _ _ refl (
                      bind_passes _ _ (require_objects-passes payload object_fields h.objects) (
                        bind_passes _ _ (subscript-passes payload "reproduction" r at_reproduction)
                          (require_reproduction-passes payload r at_reproduction object)))))))))))

validate_envelope-IsEnvelope :
    (payload : JsonFields) → validate_envelope payload tt ≡ (value tt, tt) → IsEnvelope payload
unfolding validate_envelope
validate_envelope-IsEnvelope payload e =
    let (_, _, exact, e₁) = bind-value (require_exact_fields payload top_level_fields _) _ tt e in
    let (schema, _, has, e₂) = bind-value (require_object_at payload "schema") _ tt e₁ in
    let (_, _, exact', e₃) = bind-value (require_exact_fields schema _ _) _ tt e₂ in
    let (n, _, at_name, e₄) = bind-value (subscript schema "name") _ tt e₃ in
    let (name, _, named, e₅) = bind-value (require_string n _) _ tt e₄ in
    let (_, _, right_name, e₆) = bind-value (require_name name) _ tt e₅ in
    let (v, _, at_version, e₇) = bind-value (subscript schema "version") _ tt e₆ in
    let (version, _, numbered, e₈) = bind-value (require_int v _) _ tt e₇ in
    let (_, _, right_version, e₉) = bind-value (require_version version) _ tt e₈ in
    let (_, _, objects, rest) = bind-value (require_objects payload object_fields) _ tt e₉ in
    let (r, _, at_reproduction, last) = bind-value (subscript payload "reproduction") _ tt rest in
    let (present, known) = (require_exact_fields_iff payload top_level_fields _ tt).0 exact in
    let (present', known') = (require_exact_fields_iff schema _ _ tt).0 exact' in
    record {
      schema = schema;
      has_schema = require_object_at-value payload "schema" has;
      name = ground (
        arith,
        subscript-value schema "name" at_name,
        require_string-value n _ named,
        require_name-value name right_name,
      );
      version = ground (
        arith,
        subscript-value schema "version" at_version,
        require_int-value v _ numbered,
        require_version-value version right_version,
      );
      present = present;
      known = known;
      schema_present = present';
      schema_known = known';
      objects = require_objects-value payload object_fields objects;
      reproduction = (
        r,
        subscript-value payload "reproduction" at_reproduction,
        λ n.
            let (fields, same) = require_reproduction-value r last n in
            (fields, ground (arith, same, subscript-value payload "reproduction" at_reproduction)),
      );
    }

-- The check of the envelope passes exactly when a payload has exactly the top-level fields, the
-- name and the version of the schema in an object of these two fields alone, and objects in all
-- other fields but a reproduction that may be null.
pub validate_envelope_iff :
    (payload : JsonFields) → (validate_envelope payload tt ≡ (value tt, tt)) ↔ IsEnvelope payload
validate_envelope_iff payload = (validate_envelope-IsEnvelope payload, IsEnvelope-passes payload)
