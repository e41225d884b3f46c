-- ===== src/Artifact/Objects.antt =====
-- The names of the fields of an object (src/effectprobe/_evidence_artifact.py,
-- _require_exact_fields and _object_without_duplicates). A set is a list of which only the members
-- count.
use Prim.Native.String.{compare}
use Prim.Native.Nat.{Ordering}
use effect_probe.Prelude.{
  String, Bool, ◌&&◌, List, [], ◌∷◌, ◌++◌, any, is_empty, format, str_eq, if◌then◌else◌,
}
use effect_probe.Exception.{M, pure, raise}
use effect_probe.Artifact.{JsonValue, JsonFields, end, field, format_error}

abbrev pub keys : JsonFields → List String
keys end = []
keys (field key v rest) = key ∷ keys rest

-- `result[key] = value` for a new key.
abbrev pub append_field : JsonFields → String → JsonValue → JsonFields
append_field end key v = field key v end
append_field (field k w rest) key v = field k w (append_field rest key v)

abbrev pub member : String → List String → Bool
member name names = any (str_eq name) names

-- `left - right`
unfoldable pub without : List String → List String → List String
without [] right = []
without (name ∷ left) right =
    let rest = without left right in if member name right then rest else name ∷ rest

insert_sorted : String → List String → List String
insert_sorted name [] = name ∷ []
insert_sorted name (first ∷ rest) =
    let below = insert_sorted name rest in
    elim (compare name first) [ Ordering.gt ↦ first ∷ below | _ ↦ name ∷ first ∷ rest ]

-- `sorted(names)`
unfoldable pub sorted : List String → List String
unfolding insert_sorted
sorted [] = []
sorted (name ∷ names) = insert_sorted name (sorted names)

-- `separator.join(parts)`
abbrev pub join : String → List String → String
join separator [] = ""
join separator (part ∷ []) = part
join separator (part ∷ next ∷ parts) =
    format (part ∷ separator ∷ join separator (next ∷ parts) ∷ [])

-- What a set of names adds to the message.
abbrev pub detail : String → List String → List String
detail kind [] = []
detail kind (name ∷ names) = format (kind ∷ " " ∷ join ", " (sorted (name ∷ names)) ∷ []) ∷ []

module _ {S : Type 0} where
  -- `_require_exact_fields`
  unfoldable pub require_exact_fields : JsonFields → List String → String → M S Unit
  require_exact_fields value expected path =
      let missing = without expected (keys value) in
      let unknown = without (keys value) expected in
      if is_empty missing && is_empty unknown
      then pure tt
      else raise (
          format_error (
            format (
              path
              ∷ " fields are invalid: "
              ∷ join "; " (detail "missing" missing ++ detail "unknown" unknown)
              ∷ [])))

  -- The loop of `_object_without_duplicates` over the pairs, with the object built so far.
  unfoldable pub add_pairs : JsonFields → JsonFields → M S JsonFields
  add_pairs result end = pure result
  add_pairs result (field key v rest) =
      let more = add_pairs (append_field result key v) rest in
      if member key (keys result)
      then raise (format_error (format ("duplicate JSON object key: " ∷ key ∷ [])))
      else more

  -- `_object_without_duplicates`, given the pairs of an object in the order of the text.
  unfoldable pub object_without_duplicates : JsonFields → M S JsonFields
  object_without_duplicates pairs = add_pairs end pairs
