-- ===== src/Report/Checks.antt =====
-- The small checks that the decoders of src/effectprobe/_mcp_reports.py are made of.
pub mod Passed
pub mod Read
pub mod Names
pub mod Kept
use Prim.Native.String as Str
use Prim.Native.String.{count}
use Prim.Native.Char.{code}
use effect_probe.Prelude.{
  ℕ, zero, suc, String, Bool, true, false, ◌&&◌, ◌||◌, not, List, [], ◌∷◌, any, length, Option,
  some, none, format, decimal, leb, ◌==◌, if◌then◌else◌,
}
use effect_probe.Prelude.Int.{ℤ}
use effect_probe.Exception.{Exc, other, M, pure, raise, ◌>>=◌, ◌>>◌}
use effect_probe.Artifact.{
  JsonValue, JsonItems, nil, item, JsonFields, require_object, require_list, require_string,
  require_bool, require_int, require_nullable_string,
}
use effect_probe.Artifact.Equality.{json_eq}
use effect_probe.Artifact.Envelope.{subscript}
use effect_probe.Artifact.Objects.{member}

abbrev pub input_error : String → Exc
input_error message = other (record { type_name = "McpReportInputError"; text = message })

-- The classes that `except ValueError` catches, of those that the source's calls raise.
abbrev pub value_errors : List String
value_errors =
    "ValueError" ∷ "UnicodeError" ∷ "UnicodeEncodeError" ∷ "UnicodeDecodeError" ∷ "JSONDecodeError"
    ∷ []

-- A path of a field, `f"{path}.{key}"`, and of an item, `f"{path}[{index}]"`.
abbrev pub at_key : String → String → String
at_key path key = format (path ∷ "." ∷ key ∷ [])

abbrev pub at_index : String → ℕ → String
at_index path index = format (path ∷ "[" ∷ decimal index ∷ "]" ∷ [])

module _ {S : Type 0} where
  -- `_reject`
  abbrev pub reject : {A : Type 0} → String → M S A
  reject message = raise (input_error message)

  -- `_expect`
  unfoldable pub expect : Bool → String → M S Unit
  expect condition message = if condition then pure tt else reject message

  -- `_expect` on a condition that may itself raise, such as one that reads a field.
  unfoldable pub expect_that : M S Bool → String → M S Unit
  expect_that condition message = do holds ← condition; expect holds message

  -- `first and second and ...`
  unfoldable pub all_of : List (M S Bool) → M S Bool
  all_of [] = pure true
  all_of (condition ∷ conditions) = do
    holds ← condition
    if holds then all_of conditions else pure false

  -- `object[key] == expected`
  unfoldable pub field_is : JsonFields → String → JsonValue → M S Bool
  field_is object key expected = do v ← subscript object key; pure (json_eq v expected)

  -- `require_string(object[key], path)` and the like.
  unfoldable pub string_at : JsonFields → String → String → M S String
  string_at object key path = do v ← subscript object key; require_string v path

  unfoldable pub int_at : JsonFields → String → String → M S ℤ
  int_at object key path = do v ← subscript object key; require_int v path

  unfoldable pub bool_at : JsonFields → String → String → M S Bool
  bool_at object key path = do v ← subscript object key; require_bool v path

  unfoldable pub nullable_string_at : JsonFields → String → String → M S (Option String)
  nullable_string_at object key path = do v ← subscript object key; require_nullable_string v path

  unfoldable pub object_at : JsonFields → String → String → M S JsonFields
  object_at object key path = do v ← subscript object key; require_object v path

  unfoldable pub list_at : JsonFields → String → String → M S JsonItems
  list_at object key path = do v ← subscript object key; require_list v path

  -- `decode(item, f"{path}[{index}]")` for each item, with its index.
  unfoldable pub each :
      {A : Type 0} → (JsonValue → String → M S A) → JsonItems → String → ℕ → M S (List A)
  each decode nil path index = pure []
  each decode (item v rest) path index = do
    x ← decode v (at_index path index)
    xs ← each decode rest path (suc index)
    pure (x ∷ xs)

-- The members of a set, `{*names}`.
unfoldable pub distinct : List String → List String
distinct [] = []
distinct (name ∷ names) =
    let rest = distinct names in if member name rest then rest else name ∷ rest

-- `len(set(names)) == len(names)`
abbrev pub all_distinct : List String → Bool
all_distinct names = length (distinct names) == length names

-- `left.isdisjoint(right)`
abbrev pub isdisjoint : List String → List String → Bool
isdisjoint left right = not (any (λ name. member name right) left)

-- The regular expression `[0-9a-f]{64}`, for a whole text.
abbrev is_hex : ℕ → Bool
is_hex c = (leb b'0' c && leb c b'9') || (leb b'a' c && leb c b'f')

unfoldable pub all_hex : String → Bool
all_hex Str.[] = true
all_hex (Str.◌∷◌ c s) = is_hex (code c) && all_hex s

abbrev pub is_sha256 : String → Bool
is_sha256 s = all_hex s && (count s == 64)

-- `Path(path).is_absolute()`
unfoldable pub is_absolute : String → Bool
is_absolute Str.[] = false
is_absolute (Str.◌∷◌ c s) = code c == b'/'

abbrev in_front : String → List String → List String
in_front c [] = c ∷ []
in_front c (part ∷ parts) = Str.◌++◌ c part ∷ parts

-- The parts of a path between its slashes. (`Path.parts` leaves out "" and "." parts.)
unfoldable pub path_parts : String → List String
path_parts Str.[] = "" ∷ []
path_parts (Str.◌∷◌ c s) =
    let rest = path_parts s in
    if code c == b'/' then "" ∷ rest else in_front (Str.◌∷◌ c Str.[]) rest
