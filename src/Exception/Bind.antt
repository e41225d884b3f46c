-- ===== src/Exception/Bind.antt =====
-- Inversion of a bind: which step returned, and which one raised.
use effect_probe.Prelude.{◌≡◌, refl, ap, ◌∙◌, arith, ◌⊎◌, inl, inr}
use effect_probe.Exception.{Exc, Outcome, value, raised, M, resume, ◌>>=◌}

module _ {S A : Type 0} {s s' : S} where
  -- Two returns that are equal return the same.
  pub value_eq : {a b : A} → Path (Outcome A × S) (value a, s) (value b, s') → a ≡ b
  value_eq e = ground arith

  pub raised_eq : {x y : Exc} → Path (Outcome A × S) (raised x, s) (raised y, s') → x ≡ y
  raised_eq e = ground arith

  -- What raises does not return.
  pub raised-ne-value : {x : Exc} {a : A} → Path (Outcome A × S) (raised x, s) (value a, s') → ⊥
  raised-ne-value e = ground arith

pub Outcome-cases :
    {A : Type 0} (o : Outcome A) → ((a : A) × (o ≡ value a)) ⊎ ((x : Exc) × (o ≡ raised x))
Outcome-cases (value a) = inl (a, refl)
Outcome-cases (raised x) = inr (x, refl)

module _ {S A B : Type 0} where
  resume-value :
      (r : Outcome A) (f : A → M S B) (s : S) {b : B} {s' : S}
      → resume r f s ≡ (value b, s')
      → (a : A) × (r ≡ value a) × (f a s ≡ (value b, s'))
  resume-value (value a) f s e = (a, refl, e)
  resume-value (raised x) f s e = cc (ap (λ (p : Outcome B × S). p.0) e)

  -- A bind that returns has returned at both steps.
  pub bind-value :
      (m : M S A) (f : A → M S B) (s : S) {b : B} {s' : S}
      → (m >>= f) s ≡ (value b, s')
      → (a : A) × (s₁ : S) × (m s ≡ (value a, s₁)) × (f a s₁ ≡ (value b, s'))
  unfolding ◌>>=◌
  bind-value m f s {b} {s'} e =
      let (r, s₁) = m s in
      let (a, ra, rest) = resume-value r f s₁ e in (a, s₁, ap (λ (o : Outcome A). (o, s₁)) ra, rest)

module _ {S A B : Type 0} where
  resume-raised :
      (r : Outcome A) (f : A → M S B) (s : S) {x : Exc} {s' : S}
      → resume r f s ≡ (raised x, s')
      → ((r ≡ raised x) × (s ≡ s')) ⊎ ((a : A) × (r ≡ value a) × (f a s ≡ (raised x, s')))
  resume-raised (value a) f s e = inr (a, refl, e)
  resume-raised (raised y) f s e = inl (ground arith, ground arith)

  -- A bind that raises has raised at its first step, or at its second.
  pub bind-raised :
      (m : M S A) (f : A → M S B) (s : S) {x : Exc} {s' : S}
      → (m >>= f) s ≡ (raised x, s')
      → (m s ≡ (raised x, s'))
        ⊎ ((a : A) × (s₁ : S) × (m s ≡ (value a, s₁)) × (f a s₁ ≡ (raised x, s')))
  unfolding ◌>>=◌
  bind-raised m f s e =
      let (r, s₁) = m s in
      elim (resume-raised r f s₁ e) [
        | inl (rx, same) ↦ inl (cc (rx, same))
        | inr (a, ra, rest) ↦ inr (a, s₁, ap (λ (o : Outcome A). (o, s₁)) ra, rest)
      ]

module _ {S A B : Type 0} (m : M S A) (f : A → M S B) {s s' : S} {a : A} where
  -- After a step that returns, a bind is what it goes on with.
  pub bind_returns : m s ≡ (value a, s') → (m >>= f) s ≡ f a s'
  unfolding ◌>>=◌
  bind_returns e = rw e refl

  pub bind_passes : {r : Outcome B × S} → m s ≡ (value a, s') → f a s' ≡ r → (m >>= f) s ≡ r
  bind_passes e h = bind_returns e ∙ h
