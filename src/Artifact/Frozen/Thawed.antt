-- ===== src/Artifact/Frozen/Thawed.antt =====
-- Freezing and thawing gives an equal value (src/effectprobe/_evidence_artifact.py).

use effect_probe.Prelude.{
  suc, ==_iff, ◌≡◌, refl, ap, sym, ◌∙◌, String, Bool, true, false, ◌&&◌, Option, none, some, arith,
  str_eq, str_eq_iff, Bool-cases, inl, inr, if◌then◌else◌,
}
use effect_probe.Prelude.Int.{eq_ℤ_iff}
use effect_probe.Artifact.{
  JsonValue, null, bool, int, str, list, dict, JsonItems, nil, item, JsonFields, end, field,
  fields_length,
}
use effect_probe.Artifact.Equality.{as_int, json_eq, items_eq, fields_in}
use effect_probe.Artifact.Envelope.{get}
use effect_probe.Artifact.Frozen.{
  FrozenValue, FrozenFields, no_fields, frozen_field, insert_field, freeze, freeze_items,
  freeze_fields, thaw, thaw_items, thaw_fields,
}

-- At every depth of a value, no two fields of an object have the same name, as in a dict.
unfoldable mutual
  pub IsDict : JsonValue → Type 0
  IsDict (list items) = AreDicts items
  IsDict (dict fields) = FieldsDicts fields
  IsDict _ = Unit

  pub AreDicts : JsonItems → Type 0
  AreDicts nil = Unit
  AreDicts (item v rest) = IsDict v × AreDicts rest

  pub FieldsDicts : JsonFields → Type 0
  FieldsDicts end = Unit
  FieldsDicts (field key v rest) = (get key rest ≡ none) × IsDict v × FieldsDicts rest

get-insert_field :
    (k key : String) (v : FrozenValue) (fs : FrozenFields)
    → get key (thaw_fields fs) ≡ none
    → get k (thaw_fields (insert_field key v fs))
      ≡ (if str_eq key k then some (thaw v) else get k (thaw_fields fs))
unfolding get thaw
get-insert_field k key v no_fields absent = refl
get-insert_field k key v (frozen_field first w rest) absent = ground (
  arith,
  get-insert_field k key v rest,
  str_eq_iff key k,
  str_eq_iff first k,
  str_eq_iff first key,
)

length-insert_field :
    (key : String) (v : FrozenValue) (fs : FrozenFields)
    → fields_length (thaw_fields (insert_field key v fs)) ≡ suc (fields_length (thaw_fields fs))
unfolding thaw
length-insert_field key v no_fields = refl
length-insert_field key v (frozen_field first w rest) =
    ground (arith, length-insert_field key v rest)

both : {a b : Bool} → a ≡ true → b ≡ true → (a && b) ≡ true
both e f = rw (e, f) refl

abbrev thawed_fields : JsonFields → JsonFields
thawed_fields fields = thaw_fields (freeze_fields fields)

abbrev thawed_option : Option JsonValue → Option JsonValue
thawed_option none = none
thawed_option (some v) = some (thaw (freeze v))

get-thawed :
    (k : String) (fields : JsonFields)
    → FieldsDicts fields
    → get k (thawed_fields fields) ≡ thawed_option (get k fields)
unfolding get freeze thaw IsDict
get-thawed k end h = refl
get-thawed k (field key v rest) (fresh, hv, hs) =
    get-insert_field k key (freeze v) (freeze_fields rest)
      (get-thawed key rest hs ∙ ap thawed_option fresh)
    ∙ elim (Bool-cases (str_eq key k)) [
      | inl here ↦ rw here refl
      | inr other ↦ rw other (get-thawed k rest hs)
    ]

length-thawed : (fields : JsonFields) → fields_length (thawed_fields fields) ≡ fields_length fields
unfolding freeze thaw
length-thawed end = refl
length-thawed (field key v rest) =
    length-insert_field key (freeze v) (freeze_fields rest) ∙ ap suc (length-thawed rest)

-- Each field of the first object is found in the second.
Inside : JsonFields → JsonFields → Type 0
Inside end full = Unit
Inside (field key v rest) full = (get key full ≡ some v) × Inside rest full

Inside-field :
    (key : String) (v : JsonValue) (xs full : JsonFields)
    → get key xs ≡ none
    → Inside xs full
    → Inside xs (field key v full)
unfolding Inside get
Inside-field key v end full absent h = tt
Inside-field key v (field k x xs) full absent (here, h) = (
  ground (arith, str_eq_iff key k, str_eq_iff k key),
  Inside-field key v xs full (ground arith) h,
)

Inside-self : (fields : JsonFields) → FieldsDicts fields → Inside fields fields
unfolding Inside get IsDict
Inside-self end h = tt
Inside-self (field key v rest) (fresh, _, hs) =
    (ground (arith, str_eq_iff key key), Inside-field key v rest rest fresh (Inside-self rest hs))

found-equal :
    (found : Option JsonValue) (x y : JsonValue) (more : Bool)
    → found ≡ some y
    → json_eq x y ≡ true
    → more ≡ true
    → (elim found [ none ↦ false | some z ↦ json_eq x z ] && more) ≡ true
found-equal found x y more f e m = rw (f, e, m) refl

mutual
  unfolding json_eq freeze thaw IsDict Inside

  json_eq-thawed : (v : JsonValue) → IsDict v → json_eq v (thaw (freeze v)) ≡ true
  json_eq-thawed null h = refl
  json_eq-thawed (bool b) h = (eq_ℤ_iff (as_int b) (as_int b)).1 refl
  json_eq-thawed (int n) h = (eq_ℤ_iff n n).1 refl
  json_eq-thawed (str s) h = (str_eq_iff s s).1 refl
  json_eq-thawed (list items) h = items_eq-thawed items h
  json_eq-thawed (dict fields) h =
      both
        ((==_iff (fields_length fields) (fields_length (thawed_fields fields))).1
          (sym (length-thawed fields)))
        (fields_in-thawed fields fields (Inside-self fields h) h h)

  items_eq-thawed :
      (items : JsonItems) → AreDicts items → items_eq items (thaw_items (freeze_items items)) ≡ true
  items_eq-thawed nil h = refl
  items_eq-thawed (item v rest) (h, hs) = both (json_eq-thawed v h) (items_eq-thawed rest hs)

  fields_in-thawed :
      (xs full : JsonFields)
      → Inside xs full
      → FieldsDicts xs
      → FieldsDicts full
      → fields_in xs (thawed_fields full) ≡ true
  fields_in-thawed end full inside h g = refl
  fields_in-thawed (field key x xs) full (here, inside) (_, hx, h) g =
      found-equal (get key (thawed_fields full)) x (thaw (freeze x)) _
        (get-thawed key full g ∙ ap thawed_option here) (json_eq-thawed x hx)
        (fields_in-thawed xs full inside h g)

-- Every JSON value whose objects have no name twice, at any depth, is equal in the sense of Python
-- to what thawing gives of its frozen form.
pub json_eq-thaw : (v : JsonValue) → IsDict v → json_eq v (thaw (freeze v)) ≡ true
json_eq-thaw v h = json_eq-thawed v h
