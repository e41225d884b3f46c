-- ===== src/Artifact/Fields.antt =====
-- Which objects have exactly the expected fields, and which texts give an object
-- (src/effectprobe/_evidence_artifact.py).
use effect_probe.Prelude.{
  String, ◌≡◌, refl, ap, ◌∙◌, ◌↔◌, true, false, List, [], ◌∷◌, ◌++◌, All, is_empty, arith, str_eq,
  str_eq_iff, Bool-cases, inl, inr,
}
use effect_probe.Exception.{value}
use effect_probe.Artifact.{JsonValue, JsonFields, end, field}
use effect_probe.Artifact.Objects.{
  keys, append_field, member, without, require_exact_fields, add_pairs, object_without_duplicates,
}

abbrev pub IsMember : List String → String → Type 0
IsMember names name = member name names ≡ true

without-empty :
    (left right : List String) → is_empty (without left right) ≡ true → All (IsMember right) left
unfolding without
without-empty [] right e = tt
without-empty (name ∷ left) right e = elim (Bool-cases (member name right)) [
  | inl here ↦ (here, without-empty left right (ground (arith, here)))
  | inr absent ↦ absurd (ground (arith, absent))
]

empty-without :
    (left right : List String) → All (IsMember right) left → is_empty (without left right) ≡ true
unfolding without
empty-without [] right h = refl
empty-without (name ∷ left) right (here, h) = ground (arith, here, empty-without left right h)

module _ {S : Type 0} where
  -- The check of the fields of an object passes exactly when each expected name is one of its
  -- fields and each of its fields is an expected name.
  pub require_exact_fields_iff :
      (object : JsonFields) (expected : List String) (path : String) (s : S)
      → (require_exact_fields object expected path s ≡ (value tt, s))
        ↔ (All (IsMember (keys object)) expected × All (IsMember expected) (keys object))
  unfolding require_exact_fields
  require_exact_fields_iff object expected path s = (
    λ e. (
      without-empty expected (keys object) (ground arith),
      without-empty (keys object) expected (ground arith),
    ),
    λ h.
        ground (
          arith,
          empty-without expected (keys object) h.0,
          empty-without (keys object) expected h.1,
        ),
  )

-- No two fields have the same name.
abbrev pub Distinct : JsonFields → Type 0
Distinct end = Unit
Distinct (field key v rest) = (member key (keys rest) ≡ false) × Distinct rest

-- No name of the first list is one of the second.
abbrev Apart : List String → List String → Type 0
Apart left right = All (λ name. member name right ≡ false) left

keys-append_field :
    (fields : JsonFields) (key : String) (v : JsonValue)
    → keys (append_field fields key v) ≡ keys fields ++ (key ∷ [])
keys-append_field end key v = refl
keys-append_field (field k w rest) key v = ap (λ l. k ∷ l) (keys-append_field rest key v)

member-append :
    (name key : String) (names : List String)
    → (member name (names ++ (key ∷ [])) ≡ false)
      ↔ ((member name names ≡ false) × (str_eq name key ≡ false))
member-append name key [] = (λ e. (refl, ground arith), λ h. ground arith)
member-append name key (first ∷ names) = (
  λ e. ground (arith, member-append name key names),
  λ h. ground (arith, member-append name key names),
)

str_eq_flip : (a b : String) → str_eq a b ≡ false → str_eq b a ≡ false
str_eq_flip a b e = ground (arith, str_eq_iff a b, str_eq_iff b a)

-- Names are apart from a list with one more name exactly when they are apart from the list and the
-- name is none of them.
Apart-more :
    (left right : List String) (key : String)
    → Apart left (right ++ (key ∷ [])) ↔ (Apart left right × (member key left ≡ false))
Apart-more [] right key = (λ h. (tt, refl), λ h. tt)
Apart-more (name ∷ left) right key = (
  λ h.
      let (a, b) = (member-append name key right).0 h.0 in
      let (c, d) = (Apart-more left right key).0 h.1 in
      ((a, c), ground (arith, str_eq_flip name key b, d)),
  λ h.
      let away : str_eq key name ≡ false = ground arith in
      let rest : member key left ≡ false = ground arith in
      (
        (member-append name key right).1 (h.0.0, str_eq_flip key name away),
        (Apart-more left right key).1 (h.0.1, rest),
      ),
)

-- The fields of both objects, one behind the other.
abbrev behind : JsonFields → JsonFields → JsonFields
behind fields end = fields
behind fields (field key v rest) = behind (append_field fields key v) rest

behind-append_field :
    (k : String) (w : JsonValue) (fields rest : JsonFields)
    → behind (field k w fields) rest ≡ field k w (behind fields rest)
behind-append_field k w fields end = refl
behind-append_field k w fields (field key v rest) =
    behind-append_field k w (append_field fields key v) rest

behind-end : (pairs : JsonFields) → behind end pairs ≡ pairs
behind-end end = refl
behind-end (field key v rest) =
    behind-append_field key v end rest ∙ ap (field key v) (behind-end rest)

Apart-nil : (names : List String) → Apart names []
Apart-nil [] = tt
Apart-nil (name ∷ names) = (refl, Apart-nil names)

module _ {S : Type 0} where
  add_pairs-value :
      (fields pairs : JsonFields) (s : S) {object : JsonFields}
      → add_pairs fields pairs s ≡ (value object, s)
      → Apart (keys pairs) (keys fields) × Distinct pairs × (object ≡ behind fields pairs)
  unfolding add_pairs
  add_pairs-value fields end s e = (tt, tt, ground arith)
  add_pairs-value fields (field key v rest) s {object = object} e =
      elim (Bool-cases (member key (keys fields))) [
        | inl twice ↦ absurd (ground (arith, twice))
        | inr new ↦
            let (apart, distinct, same) =
              add_pairs-value (append_field fields key v) rest s {object = object}
                (ground (arith, new)) in
            let (before, other) =
              (Apart-more (keys rest) (keys fields) key).0
                (rw (keys-append_field fields key v) at apart) in
            ((new, before), (other, distinct), same)
      ]

  add_pairs-adds :
      (fields pairs : JsonFields) (s : S)
      → Apart (keys pairs) (keys fields)
      → Distinct pairs
      → add_pairs fields pairs s ≡ (value (behind fields pairs), s)
  unfolding add_pairs
  add_pairs-adds fields end s apart distinct = refl
  add_pairs-adds fields (field key v rest) s (new, apart) (other, distinct) =
      let apart' : Apart (keys rest) (keys (append_field fields key v)) =
        rw (keys-append_field fields key v)
          ((Apart-more (keys rest) (keys fields) key).1 (apart, other)) in
      ground (arith, new, add_pairs-adds (append_field fields key v) rest s apart' distinct)

  -- The pairs of a text give an object exactly when no two of them have the same key, and it is
  -- the object of these pairs in their order.
  pub object_without_duplicates_iff :
      (pairs object : JsonFields) (s : S)
      → (object_without_duplicates pairs s ≡ (value object, s))
        ↔ (Distinct pairs × (object ≡ pairs))
  unfolding object_without_duplicates
  object_without_duplicates_iff pairs object s = (
    λ e.
        let (_, distinct, same) = add_pairs-value end pairs s e in
        (distinct, same ∙ behind-end pairs),
    λ h. rw h.1 (
        add_pairs-adds end pairs s (Apart-nil (keys pairs)) h.0
        ∙ ap (λ (o : JsonFields). (value o, s)) (behind-end pairs)),
  )
