-- ===== src/Report/Checks/Passed.antt =====
-- What the checks of src/effectprobe/_mcp_reports.py say of the values that they let pass.
use effect_probe.Prelude.{◌≡◌, String, Bool, true, some, arith}
use effect_probe.Exception.{value}
use effect_probe.Exception.Bind.{bind-value, value_eq}
use effect_probe.Artifact.{
  JsonValue, list, dict, JsonItems, JsonFields, require_object, require_list,
}
use effect_probe.Artifact.Equality.{json_eq}
use effect_probe.Artifact.Envelope.{get, subscript}
use effect_probe.Report.Checks.{expect, expect_that, field_is, object_at, list_at}

module _ {S : Type 0} (s : S) {s' : S} where
  pub expect-value :
      (condition : Bool) (message : String) {u : Unit}
      → expect condition message s ≡ (value u, s')
      → condition ≡ true
  unfolding expect
  expect-value condition message e = ground arith

  pub subscript-value :
      (object : JsonFields) (key : String) {v : JsonValue}
      → subscript object key s ≡ (value v, s')
      → get key object ≡ some v
  unfolding subscript
  subscript-value object key e = ground arith

  pub require_object-value :
      (v : JsonValue) (path : String) {fields : JsonFields}
      → require_object v path s ≡ (value fields, s')
      → v ≡ dict fields
  unfolding require_object
  require_object-value v path e = ground arith

  pub require_list-value :
      (v : JsonValue) (path : String) {items : JsonItems}
      → require_list v path s ≡ (value items, s')
      → v ≡ list items
  unfolding require_list
  require_list-value v path e = ground arith

module _ {S : Type 0} (s : S) {s' : S} where
  pub object_at-value :
      (object : JsonFields) (key path : String) {fields : JsonFields}
      → object_at object key path s ≡ (value fields, s')
      → get key object ≡ some (dict fields)
  unfolding object_at
  object_at-value object key path e =
      let (v, s₁, e₁, e₂) = bind-value (subscript object key) _ s e in
      ground (arith, subscript-value s object key e₁, require_object-value s₁ v path e₂)

  pub list_at-value :
      (object : JsonFields) (key path : String) {items : JsonItems}
      → list_at object key path s ≡ (value items, s')
      → get key object ≡ some (list items)
  unfolding list_at
  list_at-value object key path e =
      let (v, s₁, e₁, e₂) = bind-value (subscript object key) _ s e in
      ground (arith, subscript-value s object key e₁, require_list-value s₁ v path e₂)

  pub field_is-value :
      (object : JsonFields) (key : String) (expected : JsonValue) {b : Bool}
      → field_is object key expected s ≡ (value b, s')
      → (v : JsonValue) × (get key object ≡ some v) × (json_eq v expected ≡ b)
  unfolding field_is
  field_is-value object key expected e =
      let (v, s₁, e₁, e₂) = bind-value (subscript object key) _ s e in
      (v, subscript-value s object key e₁, value_eq e₂)

module _ {S : Type 0} (s : S) {s' : S} where
  -- A field that was found to be equal to a value.
  pub expect-field :
      (object : JsonFields) (key : String) (expected : JsonValue) (message : String) {u : Unit}
      → expect_that (field_is object key expected) message s ≡ (value u, s')
      → (v : JsonValue) × (get key object ≡ some v) × (json_eq v expected ≡ true)
  unfolding expect_that
  expect-field object key expected message e =
      let (b, s₁, e₁, e₂) = bind-value (field_is object key expected) _ s e in
      let (v, found, same) = field_is-value s object key expected e₁ in
      (v, found, ground (arith, expect-value s₁ b message e₂))
