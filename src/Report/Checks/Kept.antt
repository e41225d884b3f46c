-- ===== src/Report/Checks/Kept.antt =====
-- The checks of src/effectprobe/_mcp_reports.py change no state: they keep every condition on it.
use effect_probe.Prelude.{ℕ, suc, String, Bool, List, [], ◌∷◌, Option, none, some, All}
use effect_probe.Exception.{M}
use effect_probe.Exception.Keeps.{Keeps, Keeps-pure, Keeps-raise, Keeps-if, Keeps-bind}
use effect_probe.Artifact.{
  JsonValue, null, bool, str, list, dict, JsonItems, nil, item, JsonFields, require_object,
  require_list, require_string, require_bool, require_nullable_string,
}
use effect_probe.Artifact.Envelope.{get, subscript, found}
use effect_probe.Report.Checks.{
  expect, expect_that, all_of, field_is, string_at, bool_at, nullable_string_at, object_at, list_at,
  each,
}

module _ {S : Type 0} (I : S → Type 0) where
  found-Keeps : (key : String) (o : Option JsonValue) → Keeps I (found key o)
  found-Keeps key none = Keeps-raise _
  found-Keeps key (some v) = Keeps-pure v

  pub subscript-Keeps : (object : JsonFields) (key : String) → Keeps I (subscript object key)
  unfolding subscript
  subscript-Keeps object key = found-Keeps key (get key object)

  pub require_object-Keeps : (v : JsonValue) (path : String) → Keeps I (require_object v path)
  unfolding require_object
  require_object-Keeps (dict fields) path = Keeps-pure _
  require_object-Keeps v path = Keeps-raise _

  pub require_list-Keeps : (v : JsonValue) (path : String) → Keeps I (require_list v path)
  unfolding require_list
  require_list-Keeps (list items) path = Keeps-pure _
  require_list-Keeps v path = Keeps-raise _

  pub require_string-Keeps : (v : JsonValue) (path : String) → Keeps I (require_string v path)
  unfolding require_string
  require_string-Keeps (str s) path = Keeps-pure _
  require_string-Keeps v path = Keeps-raise _

  require_bool-Keeps : (v : JsonValue) (path : String) → Keeps I (require_bool v path)
  unfolding require_bool
  require_bool-Keeps (bool b) path = Keeps-pure _
  require_bool-Keeps v path = Keeps-raise _

  require_nullable_string-Keeps :
      (v : JsonValue) (path : String) → Keeps I (require_nullable_string v path)
  unfolding require_nullable_string
  require_nullable_string-Keeps null path = Keeps-pure _
  require_nullable_string-Keeps v path =
      Keeps-bind (require_string-Keeps v path) (λ s. Keeps-pure _)

  pub expect-Keeps : (condition : Bool) (message : String) → Keeps I (expect condition message)
  unfolding expect
  expect-Keeps condition message = Keeps-if condition (Keeps-pure _) (Keeps-raise _)

  pub expect_that-Keeps :
      (condition : M S Bool) (message : String)
      → Keeps I condition
      → Keeps I (expect_that condition message)
  unfolding expect_that
  expect_that-Keeps condition message k = Keeps-bind k (λ holds. expect-Keeps holds message)

  pub all_of-Keeps :
      (conditions : List (M S Bool)) → All (Keeps I) conditions → Keeps I (all_of conditions)
  unfolding all_of
  all_of-Keeps [] ks = Keeps-pure _
  all_of-Keeps (condition ∷ conditions) (k, ks) =
      Keeps-bind k (λ holds. Keeps-if holds (all_of-Keeps conditions ks) (Keeps-pure _))

  pub field_is-Keeps :
      (object : JsonFields) (key : String) (expected : JsonValue)
      → Keeps I (field_is object key expected)
  unfolding field_is
  field_is-Keeps object key expected = Keeps-bind (subscript-Keeps object key) (λ v. Keeps-pure _)

  -- `_expect` on one field.
  pub expect_field-Keeps :
      (object : JsonFields) (key : String) (expected : JsonValue) (message : String)
      → Keeps I (expect_that (field_is object key expected) message)
  expect_field-Keeps object key expected message =
      expect_that-Keeps _ message (field_is-Keeps object key expected)

  pub string_at-Keeps :
      (object : JsonFields) (key path : String) → Keeps I (string_at object key path)
  unfolding string_at
  string_at-Keeps object key path =
      Keeps-bind (subscript-Keeps object key) (λ v. require_string-Keeps v path)

  pub bool_at-Keeps : (object : JsonFields) (key path : String) → Keeps I (bool_at object key path)
  unfolding bool_at
  bool_at-Keeps object key path =
      Keeps-bind (subscript-Keeps object key) (λ v. require_bool-Keeps v path)

  pub nullable_string_at-Keeps :
      (object : JsonFields) (key path : String) → Keeps I (nullable_string_at object key path)
  unfolding nullable_string_at
  nullable_string_at-Keeps object key path =
      Keeps-bind (subscript-Keeps object key) (λ v. require_nullable_string-Keeps v path)

  pub object_at-Keeps :
      (object : JsonFields) (key path : String) → Keeps I (object_at object key path)
  unfolding object_at
  object_at-Keeps object key path =
      Keeps-bind (subscript-Keeps object key) (λ v. require_object-Keeps v path)

  pub list_at-Keeps : (object : JsonFields) (key path : String) → Keeps I (list_at object key path)
  unfolding list_at
  list_at-Keeps object key path =
      Keeps-bind (subscript-Keeps object key) (λ v. require_list-Keeps v path)

  pub each-Keeps :
      {A : Type 0} (decode : JsonValue → String → M S A)
      → ((v : JsonValue) (path : String) → Keeps I (decode v path))
      → (items : JsonItems) (path : String) (index : ℕ) → Keeps I (each decode items path index)
  unfolding each
  each-Keeps decode k nil path index = Keeps-pure _
  each-Keeps decode k (item v rest) path index =
      Keeps-bind (k v _)
        (λ x. Keeps-bind (each-Keeps decode k rest path (suc index)) (λ xs. Keeps-pure _))
