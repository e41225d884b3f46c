-- ===== src/LostResult/Alone.antt =====
-- What a subject of src/effectprobe/_lost_result.py does by itself, told without a controller: how
-- often it delivers, what it delivers first, and how it goes on behind a lost result.
use effect_probe.Prelude.{ℕ, suc, Option, none, some}
use effect_probe.Exception.{Outcome, value, raised, result_lost}
use effect_probe.LostResult.{Subject, finish, act, deliver}

module _ {S R : Type 0} where
  -- The outcome and the final state where every delivery returns the result it was given.
  unfoldable pub undisturbed : Subject S R → S → Outcome R × S
  undisturbed (finish o) s = (o, s)
  undisturbed (act change next) s = undisturbed (next s) (change s)
  undisturbed (deliver r next) s = undisturbed (next (value r)) s

  -- How many results it delivers then.
  unfoldable pub count_deliveries : Subject S R → S → ℕ
  count_deliveries (finish o) s = 0
  count_deliveries (act change next) s = count_deliveries (next s) (change s)
  count_deliveries (deliver r next) s = suc (count_deliveries (next (value r)) s)

  -- The first result it delivers.
  unfoldable pub first_delivered : Subject S R → S → Option R
  first_delivered (finish o) s = none
  first_delivered (act change next) s = first_delivered (next s) (change s)
  first_delivered (deliver r next) s = some r

  -- The outcome and the final state where the first delivery raises the private signal and every
  -- later one returns the result it was given.
  unfoldable pub losing_first : Subject S R → S → Outcome R × S
  losing_first (finish o) s = (o, s)
  losing_first (act change next) s = losing_first (next s) (change s)
  losing_first (deliver r next) s = undisturbed (next (raised result_lost)) s

  -- How many results it delivers then, the lost one included.
  unfoldable pub count_losing_first : Subject S R → S → ℕ
  count_losing_first (finish o) s = 0
  count_losing_first (act change next) s = count_losing_first (next s) (change s)
  count_losing_first (deliver r next) s = suc (count_deliveries (next (raised result_lost)) s)
