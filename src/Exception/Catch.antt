-- ===== src/Exception/Catch.antt =====
-- Python's `try`: with an `except` clause, and with a `finally` clause.
use effect_probe.Prelude.{Bool, if◌then◌else◌}
use effect_probe.Exception.{Exc, Outcome, value, raised, M}

module _ {S A : Type 0} where
  abbrev pub handled : (Exc → Bool) → (Exc → M S A) → Outcome A → M S A
  handled caught handler (value a) s = (value a, s)
  handled caught handler (raised e) s = if caught e then handler e s else (raised e, s)

  -- `try: body` and `except ... as e: handler` for the exceptions that a test takes.
  unfoldable pub catch : (Exc → Bool) → (Exc → M S A) → M S A → M S A
  catch caught handler body s = let (o, s') = body s in handled caught handler o s'

  abbrev concluded : Outcome A → Outcome Unit × S → Outcome A × S
  concluded o (value u, s) = (o, s)
  concluded o (raised e, s) = (raised e, s)

  -- `try: body` and `finally: closing`: an exception of the closing replaces the outcome.
  unfoldable pub finally : M S Unit → M S A → M S A
  finally closing body s = let (o, s') = body s in concluded o (closing s')
