-- ===== src/Artifact.antt =====
-- JSON values and the checks of src/effectprobe/_evidence_artifact.py that look at them alone.
pub mod Limits
pub mod Objects
pub mod Fields
pub mod Envelope
pub mod Equality
pub mod Frozen
use Prim.Native.String.{count}
use effect_probe.Prelude.{
  ℕ, suc, ◌+◌, String, Bool, ◌&&◌, not, [], ◌∷◌, Option, none, some, format, decimal, ltb, leb,
  if◌then◌else◌,
}
use effect_probe.Prelude.Int.{ℤ, pos, negsuc, leb_ℤ, ltb_ℤ}
use effect_probe.Exception.{Exc, other, value, raised, M, pure, raise, ◌>>=◌, ◌>>◌}

mutual
  -- `JsonValue`
  pub data JsonValue : Type 0 where
    null : JsonValue
    bool : Bool → JsonValue
    int : ℤ → JsonValue
    str : String → JsonValue
    list : JsonItems → JsonValue
    dict : JsonFields → JsonValue

  pub data JsonItems : Type 0 where
    nil : JsonItems
    item : JsonValue → JsonItems → JsonItems

  -- The items of a dict, in the order of insertion.
  pub data JsonFields : Type 0 where
    end : JsonFields
    field : String → JsonValue → JsonFields → JsonFields

abbrev pub max_depth : ℕ
max_depth = 32

abbrev pub max_container_items : ℕ
max_container_items = 256

abbrev pub max_string_chars : ℕ
max_string_chars = 65536

abbrev pub max_total_nodes : ℕ
max_total_nodes = 50000

abbrev pub max_field_chars : ℕ
max_field_chars = 256

-- `_format_error`
abbrev pub format_error : String → Exc
format_error message = other (record { type_name = "ArtifactFormatError"; text = message })

abbrev refused : {S A : Type 0} → String → String → M S A
refused path message = raise (format_error (format (path ∷ message ∷ [])))

module _ {S : Type 0} where
  unfoldable pub require_object : JsonValue → String → M S JsonFields
  require_object (dict fields) path = pure fields
  require_object _ path = refused path " must be an object"

  unfoldable pub require_list : JsonValue → String → M S JsonItems
  require_list (list items) path = pure items
  require_list _ path = refused path " must be an array"

  unfoldable pub require_string : JsonValue → String → M S String
  require_string (str s) path = pure s
  require_string _ path = refused path " must be a string"

  unfoldable pub require_bool : JsonValue → String → M S Bool
  require_bool (bool b) path = pure b
  require_bool _ path = refused path " must be a boolean"

  unfoldable pub require_int : JsonValue → String → M S ℤ
  require_int (int n) path = pure n
  require_int _ path = refused path " must be an integer"

  unfoldable pub require_nullable_string : JsonValue → String → M S (Option String)
  require_nullable_string null path = pure none
  require_nullable_string v path = do s ← require_string v path; pure (some s)

-- `len` of a list and of a dict.
abbrev pub items_length : JsonItems → ℕ
items_length nil = 0
items_length (item v rest) = suc (items_length rest)

abbrev pub fields_length : JsonFields → ℕ
fields_length end = 0
fields_length (field key v rest) = suc (fields_length rest)

-- `-(2**63) <= value < 2**63`
abbrev pub in_int64 : ℤ → Bool
in_int64 n = leb_ℤ (negsuc 9223372036854775807) n && ltb_ℤ n (pos 9223372036854775808)

-- What `_validate_limits` does with every value: it counts it, and looks at the count and the depth.
unfoldable pub count_node : String → ℕ → M ℕ Unit
count_node path depth nodes =
    if ltb max_total_nodes (suc nodes)
    then (raised (format_error "artifact contains too many JSON values"), suc nodes)
    else if ltb max_depth depth
    then refused path " exceeds the maximum nesting depth" (suc nodes)
    else (value tt, suc nodes)

-- A check that raises where the limit is exceeded.
unfoldable pub limit : Bool → String → String → M ℕ Unit
limit exceeded path message nodes =
    if exceeded then refused path message nodes else (value tt, nodes)

-- `_validate_limits`, on the count of the values met so far.
unfoldable mutual
  pub validate_limits : JsonValue → String → ℕ → M ℕ Unit
  validate_limits null path depth = count_node path depth
  validate_limits (bool b) path depth = count_node path depth
  validate_limits (int n) path depth =
      count_node path depth
      >> limit (not (in_int64 n)) path " integer is outside the signed 64-bit range"
  validate_limits (str s) path depth =
      count_node path depth >> limit (ltb max_string_chars (count s)) path " string is too long"
  validate_limits (list items) path depth =
      count_node path depth
      >> limit (ltb max_container_items (items_length items)) path " array contains too many items"
      >> validate_items items path 0 (suc depth)
  validate_limits (dict fields) path depth =
      count_node path depth
      >> limit (ltb max_container_items (fields_length fields)) path
          " object contains too many fields"
      >> validate_fields fields path (suc depth)

  pub validate_items : JsonItems → String → ℕ → ℕ → M ℕ Unit
  validate_items nil path index depth = pure tt
  validate_items (item v rest) path index depth =
      validate_limits v (format (path ∷ "[" ∷ decimal index ∷ "]" ∷ [])) depth
      >> validate_items rest path (suc index) depth

  pub validate_fields : JsonFields → String → ℕ → M ℕ Unit
  validate_fields end path depth = pure tt
  validate_fields (field key v rest) path depth =
      limit (ltb max_field_chars (count key)) path " contains an overlong field name"
      >> validate_limits v (format (path ∷ "." ∷ key ∷ [])) depth
      >> validate_fields rest path depth
