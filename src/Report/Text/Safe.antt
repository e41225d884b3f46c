-- ===== src/Report/Text/Safe.antt =====
-- The check of the texts of a report (src/effectprobe/_mcp_reports.py, _validate_projected_text)
-- and the texts that it is about.
use Prim.Native.Char.{Char}
use Prim.Native.String as Str
use effect_probe.Prelude.{
  ℕ, suc, String, ◌≡◌, ◌↔◌, ◌⊎◌, inl, inr, refl, Bool, false, ap, ◌∙◌, arith,
}
use effect_probe.Exception.{Outcome, value}
use effect_probe.Exception.Bind.{bind-value, bind_passes}
use effect_probe.Artifact.{
  JsonValue, null, bool, int, str, list, dict, JsonItems, nil, item, JsonFields, end, field,
}
use effect_probe.Report.Text.{
  has_unsafe, check_text, validate_projected_text, validate_items_text, validate_fields_text,
}

-- Every text of a value, and every key, satisfies a predicate.
mutual
  pub AllTexts : (String → Type 0) → JsonValue → Type 0
  AllTexts P (str s) = P s
  AllTexts P (list items) = ItemsTexts P items
  AllTexts P (dict fields) = FieldsTexts P fields
  AllTexts P _ = Unit

  pub ItemsTexts : (String → Type 0) → JsonItems → Type 0
  ItemsTexts P nil = Unit
  ItemsTexts P (item v rest) = AllTexts P v × ItemsTexts P rest

  pub FieldsTexts : (String → Type 0) → JsonFields → Type 0
  FieldsTexts P end = Unit
  FieldsTexts P (field key v rest) = P key × AllTexts P v × FieldsTexts P rest

-- A character of a text.
pub Occurs : Char → String → Type 0
Occurs c Str.[] = ⊥
Occurs c (Str.◌∷◌ d rest) = (c ≡ d) ⊎ Occurs c rest

module _ (unsafe_character : Char → Bool) where
  -- No character of a text is an unsafe one.
  abbrev pub IsSafe : String → Type 0
  IsSafe t = (c : Char) → Occurs c t → unsafe_character c ≡ false

  has_unsafe-IsSafe : (t : String) → has_unsafe unsafe_character t ≡ false → IsSafe t
  unfolding has_unsafe Occurs
  has_unsafe-IsSafe Str.[] e c h = absurd h
  has_unsafe-IsSafe (Str.◌∷◌ d rest) e c (inl same) = ground (arith, same)
  has_unsafe-IsSafe (Str.◌∷◌ d rest) e c (inr later) =
      has_unsafe-IsSafe rest (ground (arith, e)) c later

  IsSafe-has_unsafe : (t : String) → IsSafe t → has_unsafe unsafe_character t ≡ false
  unfolding has_unsafe Occurs
  IsSafe-has_unsafe Str.[] h = refl
  IsSafe-has_unsafe (Str.◌∷◌ d rest) h =
      let here = h d (inl refl) in
      let there = IsSafe-has_unsafe rest (λ c m. h c (inr m)) in ground (arith, here, there)

value_state :
    {S : Type 0} {s s' : S} → Path (Outcome Unit × S) (value tt, s) (value tt, s') → s ≡ s'
value_state e = ap (λ (p : Outcome Unit × _). p.1) e

module _ (unsafe_character : Char → Bool) {S : Type 0} where
  check_text_iff :
      (t path : String) (s : S) {s' : S}
      → (check_text unsafe_character t path s ≡ (value tt, s'))
        ↔ (IsSafe unsafe_character t × (s ≡ s'))
  unfolding check_text
  check_text_iff t path s = (
    λ e. (has_unsafe-IsSafe unsafe_character t (ground (arith, e)), ground (arith, e)),
    λ p. let clean = IsSafe-has_unsafe unsafe_character t p.0 in ground (arith, clean, p.1),
  )

  mutual
    unfolding validate_projected_text AllTexts

    texts-AllTexts :
        (v : JsonValue) (path : String) (s : S) {s' : S}
        → validate_projected_text unsafe_character v path s ≡ (value tt, s')
        → AllTexts (IsSafe unsafe_character) v × (s ≡ s')
    texts-AllTexts null path s e = (tt, value_state e)
    texts-AllTexts (bool b) path s e = (tt, value_state e)
    texts-AllTexts (int n) path s e = (tt, value_state e)
    texts-AllTexts (str t) path s e = (check_text_iff t path s).0 e
    texts-AllTexts (list items) path s e = texts-ItemsTexts items path 0 s e
    texts-AllTexts (dict fields) path s e = texts-FieldsTexts fields path s e

    texts-ItemsTexts :
        (items : JsonItems) (path : String) (index : ℕ) (s : S) {s' : S}
        → validate_items_text unsafe_character items path index s ≡ (value tt, s')
        → ItemsTexts (IsSafe unsafe_character) items × (s ≡ s')
    texts-ItemsTexts nil path index s e = (tt, value_state e)
    texts-ItemsTexts (item v rest) path index s e =
        let (_, s₁, e₁, e₂) = bind-value _ _ s e in
        let (p, same) = texts-AllTexts v _ s e₁ in
        let (ps, same') = texts-ItemsTexts rest path _ s₁ e₂ in ((p, ps), same ∙ same')

    texts-FieldsTexts :
        (fields : JsonFields) (path : String) (s : S) {s' : S}
        → validate_fields_text unsafe_character fields path s ≡ (value tt, s')
        → FieldsTexts (IsSafe unsafe_character) fields × (s ≡ s')
    texts-FieldsTexts end path s e = (tt, value_state e)
    texts-FieldsTexts (field key v rest) path s e =
        let (_, s₂, e₂, e₃) = bind-value _ _ s e in
        let (_, s₁, e₀, e₁) = bind-value _ _ s e₂ in
        let (k, same) = (check_text_iff key _ s).0 e₀ in
        let (p, same') = texts-AllTexts v _ s₁ e₁ in
        let (ps, same'') = texts-FieldsTexts rest path s₂ e₃ in ((k, p, ps), same ∙ same' ∙ same'')

  mutual
    unfolding validate_projected_text AllTexts

    AllTexts-passes :
        (v : JsonValue) (path : String) (s : S)
        → AllTexts (IsSafe unsafe_character) v
        → validate_projected_text unsafe_character v path s ≡ (value tt, s)
    AllTexts-passes null path s h = refl
    AllTexts-passes (bool b) path s h = refl
    AllTexts-passes (int n) path s h = refl
    AllTexts-passes (str t) path s h = (check_text_iff t path s).1 (h, refl)
    AllTexts-passes (list items) path s h = ItemsTexts-passes items path 0 s h
    AllTexts-passes (dict fields) path s h = FieldsTexts-passes fields path s h

    ItemsTexts-passes :
        (items : JsonItems) (path : String) (index : ℕ) (s : S)
        → ItemsTexts (IsSafe unsafe_character) items
        → validate_items_text unsafe_character items path index s ≡ (value tt, s)
    ItemsTexts-passes nil path index s h = refl
    ItemsTexts-passes (item v rest) path index s (h, hs) =
        bind_passes _ _ (AllTexts-passes v _ s h) (ItemsTexts-passes rest path (suc index) s hs)

    FieldsTexts-passes :
        (fields : JsonFields) (path : String) (s : S)
        → FieldsTexts (IsSafe unsafe_character) fields
        → validate_fields_text unsafe_character fields path s ≡ (value tt, s)
    FieldsTexts-passes end path s h = refl
    FieldsTexts-passes (field key v rest) path s (k, h, hs) =
        bind_passes _ _
          (bind_passes _ _ ((check_text_iff key _ s).1 (k, refl)) (AllTexts-passes v _ s h))
          (FieldsTexts-passes rest path s hs)

-- The check of the texts of a value passes and leaves the state as it is exactly when no character
-- of any text and of any key in the value, at any depth, is an unsafe one; it never passes with
-- another state.
pub validate_projected_text_iff :
    (unsafe_character : Char → Bool) {S : Type 0} (v : JsonValue) (path : String) (s s' : S)
    → (validate_projected_text unsafe_character v path s ≡ (value tt, s'))
      ↔ (AllTexts (IsSafe unsafe_character) v × (s ≡ s'))
validate_projected_text_iff unsafe_character v path s s' = (
  texts-AllTexts unsafe_character v path s,
  λ p. AllTexts-passes unsafe_character v path s p.0 ∙ ap (λ t. (value tt, t)) p.1,
)
