-- ===== src/Exception/Keeps.antt =====
-- Conditions on the state that an action keeps, whether it returns or raises.
use effect_probe.Prelude.{◌≡◌, refl, ap, Bool, true, false, if◌then◌else◌}
use effect_probe.Exception.{Exc, Outcome, value, raised, M, pure, raise, resume, ◌>>=◌}

pub record Keeps {S A : Type 0} (I : S → Type 0) (m : M S A) : Type 0 where
  pub at : (s : S) → I s → I (m s).1

module _ {S : Type 0} {I : S → Type 0} where
  pub Keeps-pure : {A : Type 0} (a : A) → Keeps I (pure a)
  Keeps-pure a = record { at = λ s h. h }

  pub Keeps-raise : {A : Type 0} (e : Exc) → Keeps {A = A} I (raise e)
  Keeps-raise e = record { at = λ s h. h }

  pub Keeps-if :
      {A : Type 0} {m n : M S A} (b : Bool) → Keeps I m → Keeps I n → Keeps I (if b then m else n)
  Keeps-if true k l = k
  Keeps-if false k l = l

module _ {S A B : Type 0} {I : S → Type 0} {f : A → M S B} where
  resume-kept :
      (r : Outcome A) (s : S) → I s → ((a : A) → r ≡ value a → Keeps I (f a)) → I (resume r f s).1
  resume-kept (value a) s h k = (k a refl).at s h
  resume-kept (raised e) s h k = h

module _ {S A B : Type 0} {I : S → Type 0} {m : M S A} {f : A → M S B} where
  -- A step that keeps a condition, with the fact that it has returned.
  pub Keeps-step :
      Keeps I m → ((a : A) (s s' : S) → m s ≡ (value a, s') → Keeps I (f a)) → Keeps I (m >>= f)
  unfolding ◌>>=◌
  Keeps-step k l = record {
    at = λ s h.
        let (r, s') = m s in
        resume-kept r s' (k.at s h) (λ a e. l a s s' (ap (λ (o : Outcome A). (o, s')) e));
  }

  pub Keeps-bind : Keeps I m → ((a : A) → Keeps I (f a)) → Keeps I (m >>= f)
  Keeps-bind k l = Keeps-step k (λ a _ _ _. l a)
