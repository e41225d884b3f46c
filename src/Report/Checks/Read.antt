-- ===== src/Report/Checks/Read.antt =====
-- What the compound checks of src/effectprobe/_mcp_reports.py say of the values that they let pass.
use effect_probe.Prelude.{
  ℕ, suc, ◌≡◌, refl, ap, String, Bool, true, Bool-cases, inl, inr, List, [], ◌∷◌, some, arith,
  str_eq_iff,
}
use effect_probe.Exception.{value, M, ◌>>=◌}
use effect_probe.Exception.Bind.{bind-value, value_eq}
use effect_probe.Exception.Returns.{Returns}
use effect_probe.Artifact.{
  JsonValue, null, bool, int, str, list, dict, JsonItems, nil, item, JsonFields, items_length,
  require_string,
}
use effect_probe.Artifact.Equality.{json_eq}
use effect_probe.Artifact.Envelope.{get, subscript}
use effect_probe.Report.Checks.{expect_that, all_of, field_is, string_at, each}
use effect_probe.Report.Checks.Passed.{expect-value, subscript-value, field_is-value}

-- A string is equal to no other value.
pub json_eq-str : (v : JsonValue) (t : String) → json_eq v (str t) ≡ true → v ≡ str t
unfolding json_eq
json_eq-str (str s) t e = ap str ((str_eq_iff s t).0 e)
json_eq-str null t e = cc e
json_eq-str (bool b) t e = cc e
json_eq-str (int n) t e = cc e
json_eq-str (list items) t e = cc e
json_eq-str (dict fields) t e = cc e

module _ {S : Type 0} (s : S) {s' : S} where
  pub expect_that-value :
      (condition : M S Bool) (message : String) {u : Unit}
      → expect_that condition message s ≡ (value u, s')
      → (s₁ : S) × (condition s ≡ (value true, s₁))
  unfolding expect_that
  expect_that-value condition message e =
      let (b, s₁, e₁, e₂) = bind-value condition _ s e in
      (s₁, ground (arith, expect-value s₁ b message e₂, e₁))

  pub all_of-value :
      (condition : M S Bool) (conditions : List (M S Bool))
      → all_of (condition ∷ conditions) s ≡ (value true, s')
      → (s₁ : S) × (condition s ≡ (value true, s₁)) × (all_of conditions s₁ ≡ (value true, s'))
  unfolding all_of
  all_of-value condition conditions e =
      let (b, s₁, e₁, e₂) = bind-value condition _ s e in
      elim (Bool-cases b) [
        | inl held ↦ (s₁, ground (arith, e₁, held), rw held at e₂)
        | inr failed ↦ absurd (cc (value_eq (rw failed at e₂)))
      ]

  pub string_at-value :
      (object : JsonFields) (key path : String) {t : String}
      → string_at object key path s ≡ (value t, s')
      → get key object ≡ some (str t)
  unfolding string_at require_string
  string_at-value object key path e =
      let (v, s₁, e₁, e₂) = bind-value (subscript object key) _ s e in
      ground (arith, subscript-value s object key e₁)

  -- A field that was found to be a string.
  pub field_is-str :
      (object : JsonFields) (key t : String)
      → field_is object key (str t) s ≡ (value true, s')
      → get key object ≡ some (str t)
  field_is-str object key t e =
      let (v, found, same) = field_is-value s object key (str t) e in
      ground (arith, json_eq-str v t same)

-- Two items, each of which was decoded.
pub record AreTwo {A : Type 0} (Q : JsonValue → A → Type 0) (items : JsonItems) (xs : List A)
    : Type 0 where
  pub first : JsonValue
  pub second : JsonValue
  pub first_value : A
  pub second_value : A
  pub items_are : items ≡ item first (item second nil)
  pub values_are : xs ≡ first_value ∷ second_value ∷ []
  pub first_decoded : Q first first_value
  pub second_decoded : Q second second_value

module _ {S A : Type 0} (decode : JsonValue → String → M S A) (Q : JsonValue → A → Type 0)
    (decodes : (v : JsonValue) (path : String) → Returns (decode v path) (Q v)) where
  pub each-AreTwo :
      (items : JsonItems) (path : String) (index : ℕ) (s : S) {xs : List A} {s' : S}
      → items_length items ≡ 2
      → each decode items path index s ≡ (value xs, s')
      → AreTwo Q items xs
  unfolding each ◌>>=◌
  each-AreTwo nil path index s n e = absurd (omega arith)
  each-AreTwo (item a nil) path index s n e = absurd (omega arith)
  each-AreTwo (item a (item b (item c rest))) path index s n e = absurd (omega arith)
  each-AreTwo (item a (item b nil)) path index s n e =
      let (x, s₁, e₁, e₂) = bind-value (decode a _) _ s e in
      let (ys, s₂, e₃, e₄) = bind-value (each decode (item b nil) path (suc index)) _ s₁ e₂ in
      let (y, s₃, e₅, e₆) = bind-value (decode b _) _ s₁ e₃ in
      let inner = value_eq e₆ in
      let outer = value_eq e₄ in
      record {
        first = a;
        second = b;
        first_value = x;
        second_value = y;
        items_are = refl;
        values_are = ground (arith, inner, outer);
        first_decoded = (decodes a _).at s e₁;
        second_decoded = (decodes b _).at s₁ e₅;
      }
