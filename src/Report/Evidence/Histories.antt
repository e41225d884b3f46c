-- ===== src/Report/Evidence/Histories.antt =====
-- The committed histories that src/effectprobe/_mcp_reports.py counts and compares.
use effect_probe.Prelude.{
  ℕ, ◌+◌, ◌≡◌, ◌↔◌, String, true, Option, none, some, ◌∙◌, ap, refl, leb, ◌-◌, arith, ==_iff,
}
use effect_probe.Exception.{value, ◌>>=◌}
use effect_probe.Exception.Bind.{bind-value, value_eq}
use effect_probe.Artifact.{
  JsonValue, list, dict, JsonItems, nil, JsonFields, items_length, require_object, require_list,
}
use effect_probe.Artifact.Equality.{items_eq}
use effect_probe.Artifact.Envelope.{get, subscript}
use effect_probe.Report.Checks.{expect, list_at}
use effect_probe.Report.Checks.Passed.{expect-value, require_object-value, list_at-value}
use effect_probe.Report.Evidence.{
  take_items, RefundScope, history_growth, validate_observed_refunds, validate_baseline,
}

abbrev as_items : Option JsonValue → Option JsonItems
as_items (some (list items)) = some items
as_items _ = none

-- The history of an observation.
abbrev pub history_of : JsonValue → Option JsonItems
history_of (dict fields) = as_items (get "history" fields)
history_of _ = none

-- A history that consists of the items of an earlier one and a number of new ones.
pub record Grown (before after : JsonItems) (n : ℕ) : Type 0 where
  pub longer : items_length after ≡ items_length before + n
  pub kept : items_eq (take_items (items_length before) after) before ≡ true

history-of :
    {v : JsonValue} {fields : JsonFields} {items : JsonItems}
    → v ≡ dict fields
    → get "history" fields ≡ some (list items)
    → history_of v ≡ some items
history-of e f = rw (e, f)

items_eq-nil : (items : JsonItems) → items_eq items nil ≡ true → items ≡ nil
unfolding items_eq
items_eq-nil items e = ground arith

module _ {S : Type 0} (s : S) where
  growth-Grown :
      (baseline final : JsonValue) (path : String) {n : ℕ} {s' : S}
      → history_growth baseline final path s ≡ (value n, s')
      → (before : JsonItems) × (after : JsonItems) × (history_of baseline ≡ some before)
        × (history_of final ≡ some after)
        × Grown before after n
  unfolding history_growth
  growth-Grown baseline final path e =
      let (earlier, s₁, e₁, e₂) = bind-value (require_object baseline _) _ s e in
      let (before, s₂, e₃, e₄) = bind-value (list_at earlier "history" _) _ s₁ e₂ in
      let (later, s₃, e₅, e₆) = bind-value (require_object final _) _ s₂ e₄ in
      let (after, s₄, e₇, e₈) = bind-value (list_at later "history" _) _ s₃ e₆ in
      let (_, s₅, e₉, e₁₀) = bind-value (expect _ _) _ s₄ e₈ in
      let same = expect-value s₄ _ _ e₉ in
      let counted = value_eq e₁₀ in
      (
        before,
        after,
        history-of (require_object-value s baseline _ e₁) (list_at-value s₁ earlier _ _ e₃),
        history-of (require_object-value s₂ final _ e₅) (list_at-value s₃ later _ _ e₇),
        record { longer = ground arith; kept = ground arith },
      )

  pub baseline-empty :
      (v : JsonValue) (path payment_id : String) {u : Unit} {s' : S}
      → validate_baseline v path payment_id s ≡ (value u, s')
      → history_of v ≡ some nil
  unfolding validate_baseline
  baseline-empty v path payment_id e =
      let (object, s₁, e₁, e₂) = bind-value (require_object v path) _ s e in
      let (history, s₂, e₃, e₄) = bind-value (list_at object "history" _) _ s₁ e₂ in
      let (_, s₃, e₅, e₆) = bind-value (expect _ _) _ s₂ e₄ in
      let none_yet = items_eq-nil history (expect-value s₂ _ _ e₅) in
      history-of (require_object-value s v path e₁) (list_at-value s₁ object _ _ e₃)
      ∙ ap some none_yet

  pub observed-length :
      (scope : RefundScope) (observation : JsonValue) (path : String) (count : ℕ) {u : Unit}
      {s' : S}
      → validate_observed_refunds scope observation path count s ≡ (value u, s')
      → (history : JsonItems) × (history_of observation ≡ some history)
        × (items_length history ≡ count)
  unfolding validate_observed_refunds
  observed-length scope observation path count e =
      let (object, s₁, e₁, e₂) = bind-value (require_object observation path) _ s e in
      let (history, s₂, e₃, e₄) = bind-value (list_at object "history" _) _ s₁ e₂ in
      let (_, s₃, e₅, e₆) = bind-value (expect _ _) _ s₂ e₄ in
      (
        history,
        history-of (require_object-value s observation path e₁) (list_at-value s₁ object _ _ e₃),
        (==_iff (items_length history) count).0 (expect-value s₂ _ _ e₅),
      )

  -- How far a history with a number of items has grown from another.
  pub growth-lengths :
      (baseline final : JsonValue) (path : String) {n : ℕ} {s' : S} {before after : JsonItems}
      → history_growth baseline final path s ≡ (value n, s')
      → history_of baseline ≡ some before
      → history_of final ≡ some after
      → items_length after ≡ items_length before + n
  growth-lengths baseline final path e b a =
      let (_, _, b', a', grown) = growth-Grown baseline final path e in
      let longer = grown.longer in ground arith

as_items-inverse :
    (o : Option JsonValue) {items : JsonItems} → as_items o ≡ some items → o ≡ some (list items)
as_items-inverse none e = absurd (ground arith)
as_items-inverse (some v) e = ground arith

of-history :
    (v : JsonValue) {items : JsonItems}
    → history_of v ≡ some items
    → (fields : JsonFields) × (v ≡ dict fields) × (get "history" fields ≡ some (list items))
of-history (dict fields) e = (fields, refl, as_items-inverse (get "history" fields) e)
of-history v e = absurd (ground arith)

Grown-passes :
    {S : Type 0} (s : S) (before after : JsonItems) (earlier later : JsonFields) (path : String)
    {n : ℕ}
    → get "history" earlier ≡ some (list before)
    → get "history" later ≡ some (list after)
    → Grown before after n
    → history_growth (dict earlier) (dict later) path s ≡ (value n, s)
unfolding history_growth require_object list_at subscript require_list expect ◌>>=◌
Grown-passes s before after earlier later path {n} b a grown =
    let longer = grown.longer in
    let kept = grown.kept in
    let fits : leb (items_length before) (items_length after) ≡ true = ground arith in
    let count : items_length after - items_length before ≡ n = omega arith in
    rw (b, a, kept, fits, count)

-- The growth of two observations is returned as a number exactly when both have a history and the
-- later history is item by item equal to the earlier one, followed by that number of items.
pub history_growth_iff :
    {S : Type 0} (baseline final : JsonValue) (path : String) (n : ℕ) (s : S)
    → ((s' : S) × (history_growth baseline final path s ≡ (value n, s'))) ↔ (
        (before : JsonItems) × (after : JsonItems) × (history_of baseline ≡ some before)
        × (history_of final ≡ some after)
        × Grown before after n)
history_growth_iff baseline final path n s = (
  λ (s', e). growth-Grown s baseline final path e,
  λ (before, after, b, a, grown).
      let (earlier, be, bg) = of-history baseline b in
      let (later, le, lg) = of-history final a in
      (s, rw (be, le) (Grown-passes s before after earlier later path bg lg grown)),
)
