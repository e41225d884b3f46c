-- ===== src/Artifact/Equality.antt =====
-- Python's `==` on JSON values: a bool is the int that it counts as, and dicts are compared by key.
use effect_probe.Prelude.{Bool, true, false, ◌&&◌, ◌==◌, none, some, str_eq, if◌then◌else◌}
use effect_probe.Prelude.Int.{ℤ, pos, eq_ℤ}
use effect_probe.Artifact.{
  JsonValue, null, bool, int, str, list, dict, JsonItems, nil, item, JsonFields, end, field,
  fields_length,
}
use effect_probe.Artifact.Envelope.{get}

-- `int(b)`
abbrev pub as_int : Bool → ℤ
as_int b = if b then pos 1 else pos 0

unfoldable mutual
  unfolding get

  pub json_eq : JsonValue → JsonValue → Bool
  json_eq null null = true
  json_eq (bool a) (bool b) = eq_ℤ (as_int a) (as_int b)
  json_eq (bool a) (int n) = eq_ℤ (as_int a) n
  json_eq (int m) (bool b) = eq_ℤ m (as_int b)
  json_eq (int m) (int n) = eq_ℤ m n
  json_eq (str s) (str t) = str_eq s t
  json_eq (list xs) (list ys) = items_eq xs ys
  json_eq (dict xs) (dict ys) = (fields_length xs == fields_length ys) && fields_in xs ys
  json_eq _ _ = false

  pub items_eq : JsonItems → JsonItems → Bool
  items_eq nil nil = true
  items_eq (item x xs) (item y ys) = json_eq x y && items_eq xs ys
  items_eq _ _ = false

  -- Each field of the first dict is in the second, with an equal value.
  pub fields_in : JsonFields → JsonFields → Bool
  fields_in end ys = true
  fields_in (field k x xs) ys =
      elim (get k ys) [ none ↦ false | some y ↦ json_eq x y ] && fields_in xs ys
