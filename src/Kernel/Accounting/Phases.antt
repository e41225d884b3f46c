-- ===== src/Kernel/Accounting/Phases.antt =====
-- The phases of the `try` block of a trial: blank until the evaluation has been recorded, and
-- evaluated from then on, also where the cleanup raises.
use effect_probe.Prelude.{String, ◌≡◌, refl, ap, ◌⊎◌, List, [], Option, some}
use effect_probe.Exception.{Outcome, value, raised, M, resume, ◌>>=◌}
use effect_probe.Exception.Triple.{Leaves, Triple}
use effect_probe.Kernel.Verdicts.{InvariantResult, ErrorRecord}
use effect_probe.Kernel.Types.{Types, WorldSession}
use effect_probe.Kernel.Frames.{
  Frame, on_outer, set_stage, set_session, set_evidence, set_evaluated,
}
use effect_probe.Kernel.Deltas.{from_outcome}

module _ {T : Types} {E : Type 0} where
  -- Nothing has been evaluated, and `P` holds of the evidence.
  pub record Before (P : Option E → Type 0) (fr : Frame T E) : Type 0 where
    pub results : fr.results ≡ []
    pub errors : fr.errors ≡ []
    pub evidence : P fr.evidence

  -- The contracts have been evaluated, with results in `G`, and the trial has its evidence.
  pub record Evaluated (G : List InvariantResult → Type 0) (fr : Frame T E) : Type 0 where
    pub good : G fr.results
    pub evidence : (ev : E) × (fr.evidence ≡ some ev)

abbrev pub Anything : {E : Type 0} → Option E → Type 0
Anything o = Unit

abbrev pub Present : {E : Type 0} → Option E → Type 0
Present {E} o = (ev : E) × (o ≡ some ev)

-- What an action returns, if it returns, is in `G`.
abbrev pub Returns : {S A : Type 0} → (A → Type 0) → M S A → Type 0
Returns {S} {A} G m = (s s' : S) (a : A) → m s ≡ (value a, s') → G a

Leaves-both :
    {S A : Type 0} (P Q : S → Type 0) (o : Outcome A) (s : S) → P s → Q s → Leaves (λ _. P) Q (o, s)
Leaves-both P Q (value a) s p q = p
Leaves-both P Q (raised e) s p q = q

module _ {T : Types} {E : Type 0} {P : Option E → Type 0} where
  pub Before-weaken : {fr : Frame T E} → Before P fr → Before Anything fr
  Before-weaken h = record { results = h.results; errors = h.errors; evidence = tt }

  pub on_outer-Before :
      {A : Type 0} (m : M T.Outer A)
      → Triple (Before P) (on_outer {T = T} {E = E} m) (λ _. Before P) (Before Anything)
  on_outer-Before m = record {
    at = λ fr h.
        let (o, w) = m fr.outer in
        Leaves-both (Before P) (Before Anything) o (record fr { outer = w })
          (record { results = h.results; errors = h.errors; evidence = h.evidence })
          (record { results = h.results; errors = h.errors; evidence = tt });
  }

  pub from_outcome-Before :
      {A : Type 0} (o : Outcome A)
      → Triple (Before {T = T} P) (from_outcome o) (λ _. Before P) (Before Anything)
  from_outcome-Before o = record {
    at = λ fr h. Leaves-both (Before P) (Before Anything) o fr h (Before-weaken h);
  }

  pub set_stage-Before :
      (stage : String)
      → Triple (Before {T = T} P) (set_stage stage) (λ _. Before P) (Before Anything)
  set_stage-Before stage = record {
    at = λ fr h. record { results = h.results; errors = h.errors; evidence = h.evidence };
  }

  pub set_session-Before :
      (session : WorldSession T)
      → Triple (Before P) (set_session session) (λ _. Before P) (Before Anything)
  set_session-Before session = record {
    at = λ fr h. record { results = h.results; errors = h.errors; evidence = h.evidence };
  }

  pub set_evidence-Before :
      (ev : E) → Triple (Before {T = T} P) (set_evidence ev) (λ _. Before Present) (Before Anything)
  set_evidence-Before ev = record {
    at = λ fr h. record { results = h.results; errors = h.errors; evidence = (ev, refl) };
  }

-- The last two steps of a block: the evaluation, and its record.
module _ {T : Types} {E : Type 0} (G : List InvariantResult → Type 0) where
  Evaluated-Leaves :
      (o : Outcome (List InvariantResult × List ErrorRecord)) (fr : Frame T E)
      → ((a : List InvariantResult × List ErrorRecord) → o ≡ value a → G a.0)
      → Before Present fr
      → Leaves (λ _. Evaluated G) (Before Anything) (resume o set_evaluated fr)
  Evaluated-Leaves (value a) fr g h = record { good = g a refl; evidence = h.evidence }
  Evaluated-Leaves (raised e) fr g h = Before-weaken h

  pub evaluate-Evaluated :
      (m : M T.Outer (List InvariantResult × List ErrorRecord))
      → Returns (λ a. G a.0) m
      → Triple
          (Before Present)
          (on_outer {T = T} {E = E} m >>= set_evaluated)
          (λ _. Evaluated G)
          (Before Anything)
  unfolding ◌>>=◌
  evaluate-Evaluated m g = record {
    at = λ fr h.
        let (o, w) = m fr.outer in
        Evaluated-Leaves o (record fr { outer = w })
          (λ a e. g fr.outer w a (ap (λ (x : Outcome _). (x, w)) e))
          (record { results = h.results; errors = h.errors; evidence = h.evidence });
  }

  -- Where a block raises, the cleanup has raised behind an evaluation, or nothing is evaluated.
  abbrev pub Ended : Frame T E → Type 0
  Ended fr = Before Anything fr ⊎ Evaluated G fr
