-- ===== src/Exception/Returns.antt =====
-- What holds of the value that an action returns, step by step along its binds.
use effect_probe.Prelude.{◌≡◌}
use effect_probe.Exception.{value, M, pure, ◌>>=◌}
use effect_probe.Exception.Bind.{bind-value, value_eq}

pub record Returns {S A : Type 0} (m : M S A) (Q : A → Type 0) : Type 0 where
  pub at : (s : S) {a : A} {s' : S} → m s ≡ (value a, s') → Q a

pub Returns-pure : {S A : Type 0} {Q : A → Type 0} (a : A) → Q a → Returns (pure {S = S} a) Q
Returns-pure a q = record { at = λ s e. rw (value_eq e) at q }

module _ {S A B : Type 0} {Q : B → Type 0} {m : M S A} {f : A → M S B} where
  -- A step, with the fact that it has returned.
  pub Returns-step :
      ((a : A) (s s' : S) → m s ≡ (value a, s') → Returns (f a) Q) → Returns (m >>= f) Q
  Returns-step k = record {
    at = λ s e. let (a, s₁, e₁, e₂) = bind-value m f s e in (k a s s₁ e₁).at s₁ e₂;
  }

module _ {S A B : Type 0} {Q : B → Type 0} (m : M S A) {f : A → M S B} where
  -- A step of which only the value counts.
  pub Returns-skip : ((a : A) → Returns (f a) Q) → Returns (m >>= f) Q
  Returns-skip k = Returns-step (λ a s s' e. k a)
