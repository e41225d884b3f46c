-- ===== src/Exception/Triple.antt =====
-- Conditions on an action: what holds when it returns, and what holds when it raises.

use effect_probe.Exception.{Outcome, value, raised, M, resume, ◌>>=◌}

abbrev pub Leaves : {S A : Type 0} → (A → S → Type 0) → (S → Type 0) → Outcome A × S → Type 0
Leaves Q R (value a, s) = Q a s
Leaves Q R (raised e, s) = R s

pub record Triple {S A : Type 0} (P : S → Type 0) (m : M S A) (Q : A → S → Type 0) (R : S → Type 0)
    : Type 0 where
  pub at : (s : S) → P s → Leaves Q R (m s)

module _ {S A B : Type 0} {R : S → Type 0} where
  resume-Leaves :
      {Q : A → S → Type 0} {Q' : B → S → Type 0} {f : A → M S B} (o : Outcome A) (s : S)
      → ((a : A) → Triple (Q a) (f a) Q' R)
      → Leaves Q R (o, s)
      → Leaves Q' R (resume o f s)
  resume-Leaves (value a) s k h = (k a).at s h
  resume-Leaves (raised e) s k h = h

module _ {S A B : Type 0} {P : S → Type 0} {R : S → Type 0} where
  pub Triple-bind :
      {Q : A → S → Type 0} {Q' : B → S → Type 0} {m : M S A} {f : A → M S B}
      → Triple P m Q R
      → ((a : A) → Triple (Q a) (f a) Q' R)
      → Triple P (m >>= f) Q' R
  unfolding ◌>>=◌
  Triple-bind {m = m} t k = record {
    at = λ s h. let (o, s') = m s in resume-Leaves o s' k (t.at s h);
  }
