-- ===== src/Artifact/Limits.antt =====
-- Which values pass `_validate_limits` (src/effectprobe/_evidence_artifact.py).
use Prim.Native.String.{count}
use effect_probe.Prelude.{ℕ, suc, ◌+◌, ◌≤◌, String, ◌≡◌, refl, ◌↔◌, Bool, false, arith}
use effect_probe.Prelude.Int.{pos, negsuc, ◌≤ℤ◌}
use effect_probe.Exception.{value, M, ◌>>=◌, ◌>>◌}
use effect_probe.Exception.Bind.{bind-value}
use effect_probe.Artifact.{
  JsonValue, null, bool, int, str, list, dict, JsonItems, nil, item, JsonFields, end, field,
  max_depth, max_container_items, max_string_chars, max_total_nodes, max_field_chars, items_length,
  fields_length, count_node, limit, validate_limits, validate_items, validate_fields,
}

-- How many values a value consists of.
unfoldable mutual
  pub size : JsonValue → ℕ
  size null = 1
  size (bool b) = 1
  size (int n) = 1
  size (str s) = 1
  size (list items) = suc (size_items items)
  size (dict fields) = suc (size_fields fields)

  pub size_items : JsonItems → ℕ
  size_items nil = 0
  size_items (item v rest) = size v + size_items rest

  pub size_fields : JsonFields → ℕ
  size_fields end = 0
  size_fields (field key v rest) = size v + size_fields rest

-- A value at a depth is within the limits on depths, lengths and integers.
unfoldable mutual
  pub Within : ℕ → JsonValue → Type 0
  Within depth null = depth ≤ max_depth
  Within depth (bool b) = depth ≤ max_depth
  Within depth (int n) =
      (depth ≤ max_depth) × (negsuc 9223372036854775807 ≤ℤ n) × (n ≤ℤ pos 9223372036854775807)
  Within depth (str s) = (depth ≤ max_depth) × (count s ≤ max_string_chars)
  Within depth (list items) =
      (depth ≤ max_depth)
      × (items_length items ≤ max_container_items)
      × WithinItems (suc depth) items
  Within depth (dict fields) =
      (depth ≤ max_depth)
      × (fields_length fields ≤ max_container_items)
      × WithinFields (suc depth) fields

  pub WithinItems : ℕ → JsonItems → Type 0
  WithinItems depth nil = Unit
  WithinItems depth (item v rest) = Within depth v × WithinItems depth rest

  pub WithinFields : ℕ → JsonFields → Type 0
  WithinFields depth end = Unit
  WithinFields depth (field key v rest) =
      (count key ≤ max_field_chars) × Within depth v × WithinFields depth rest

count_node-value :
    (path : String) (depth n : ℕ) {m : ℕ}
    → count_node path depth n ≡ (value tt, m)
    → (depth ≤ max_depth) × (suc n ≤ max_total_nodes) × (m ≡ suc n)
unfolding count_node
count_node-value path depth n e = (ground arith, ground arith, ground arith)

count_node-passes :
    (path : String) (depth n : ℕ)
    → depth ≤ max_depth
    → suc n ≤ max_total_nodes
    → count_node path depth n ≡ (value tt, suc n)
unfolding count_node
count_node-passes path depth n shallow few = ground arith

limit-value :
    (exceeded : Bool) (path message : String) (n : ℕ) {m : ℕ}
    → limit exceeded path message n ≡ (value tt, m)
    → (exceeded ≡ false) × (m ≡ n)
unfolding limit
limit-value exceeded path message n e = (ground arith, ground arith)

limit-passes :
    (exceeded : Bool) (path message : String) (n : ℕ)
    → exceeded ≡ false
    → limit exceeded path message n ≡ (value tt, n)
unfolding limit
limit-passes exceeded path message n within = ground arith

-- The two checks that come first for a value with a limit of its own.
checked-value :
    (exceeded : Bool) (path message : String) (depth n : ℕ) {m : ℕ}
    → (count_node path depth >> limit exceeded path message) n ≡ (value tt, m)
    → (depth ≤ max_depth) × (suc n ≤ max_total_nodes) × (exceeded ≡ false) × (m ≡ suc n)
checked-value exceeded path message depth n e =
    let (_, n₁, e₁, e₂) = bind-value (count_node path depth) _ n e in
    let (shallow, few, counted) = count_node-value path depth n e₁ in
    let (within, same) = limit-value exceeded path message n₁ e₂ in
    (shallow, few, within, ground arith)

checked-passes :
    (exceeded : Bool) (path message : String) (depth n : ℕ)
    → depth ≤ max_depth
    → suc n ≤ max_total_nodes
    → exceeded ≡ false
    → (count_node path depth >> limit exceeded path message) n ≡ (value tt, suc n)
unfolding ◌>>=◌
checked-passes exceeded path message depth n shallow few within =
    rw (count_node-passes path depth n shallow few)
      (limit-passes exceeded path message (suc n) within)

-- What passing the checks says of a value, met at a count of `n`.
abbrev Passed : Type 0 → ℕ → ℕ → ℕ → Type 0
Passed within nodes n m = within × (n + nodes ≤ max_total_nodes) × (m ≡ n + nodes)

mutual
  unfolding validate_limits size Within

  validate_limits-Passed :
      (v : JsonValue) (path : String) (depth n m : ℕ)
      → n ≤ max_total_nodes
      → validate_limits v path depth n ≡ (value tt, m)
      → Passed (Within depth v) (size v) n m
  validate_limits-Passed null path depth n m h e =
      let (shallow, few, counted) = count_node-value path depth n e in
      (shallow, ground arith, ground arith)
  validate_limits-Passed (bool b) path depth n m h e =
      let (shallow, few, counted) = count_node-value path depth n e in
      (shallow, ground arith, ground arith)
  validate_limits-Passed (int i) path depth n m h e =
      let (shallow, few, within, counted) = checked-value _ path _ depth n e in
      ((shallow, ground arith, ground arith), ground arith, ground arith)
  validate_limits-Passed (str s) path depth n m h e =
      let (shallow, few, within, counted) = checked-value _ path _ depth n e in
      ((shallow, ground arith), ground arith, ground arith)
  validate_limits-Passed (list items) path depth n m h e =
      let (_, n₁, e₁, e₂) = bind-value _ _ n e in
      let (shallow, few, within, counted) = checked-value _ path _ depth n e₁ in
      let (p, fews, counteds) =
        validate_items-Passed items path 0 (suc depth) n₁ m (ground arith) e₂ in
      ((shallow, ground arith, p), ground arith, ground arith)
  validate_limits-Passed (dict fields) path depth n m h e =
      let (_, n₁, e₁, e₂) = bind-value _ _ n e in
      let (shallow, few, within, counted) = checked-value _ path _ depth n e₁ in
      let (p, fews, counteds) =
        validate_fields-Passed fields path (suc depth) n₁ m (ground arith) e₂ in
      ((shallow, ground arith, p), ground arith, ground arith)

  validate_items-Passed :
      (items : JsonItems) (path : String) (index depth n m : ℕ)
      → n ≤ max_total_nodes
      → validate_items items path index depth n ≡ (value tt, m)
      → Passed (WithinItems depth items) (size_items items) n m
  validate_items-Passed nil path index depth n m h e = (tt, ground arith, ground arith)
  validate_items-Passed (item v rest) path index depth n m h e =
      let (_, n₁, e₁, e₂) = bind-value (validate_limits v _ depth) _ n e in
      let (p, few, counted) = validate_limits-Passed v _ depth n n₁ h e₁ in
      let (ps, fews, counteds) =
        validate_items-Passed rest path (suc index) depth n₁ m (ground arith) e₂ in
      ((p, ps), ground arith, ground arith)

  validate_fields-Passed :
      (fields : JsonFields) (path : String) (depth n m : ℕ)
      → n ≤ max_total_nodes
      → validate_fields fields path depth n ≡ (value tt, m)
      → Passed (WithinFields depth fields) (size_fields fields) n m
  validate_fields-Passed end path depth n m h e = (tt, ground arith, ground arith)
  validate_fields-Passed (field key v rest) path depth n m h e =
      let (_, n₂, e₂, e₃) = bind-value _ _ n e in
      let (_, n₁, e₀, e₁) = bind-value (limit _ path _) _ n e₂ in
      let (short, same) = limit-value _ path _ n e₀ in
      let (p, few, counted) = validate_limits-Passed v _ depth n₁ n₂ (ground arith) e₁ in
      let (ps, fews, counteds) = validate_fields-Passed rest path depth n₂ m (ground arith) e₃ in
      ((ground arith, p, ps), ground arith, ground arith)

-- Two checks pass where the first does, and the second at the count that the first leaves.
then_passes :
    (first second : M ℕ Unit) {n k m : ℕ}
    → first n ≡ (value tt, k)
    → second k ≡ (value tt, m)
    → (first >> second) n ≡ (value tt, m)
unfolding ◌>>=◌
then_passes first second e f = rw e f

mutual
  unfolding validate_limits size Within

  Within-passes :
      (v : JsonValue) (path : String) (depth n m : ℕ)
      → Within depth v
      → n + size v ≤ max_total_nodes
      → m ≡ n + size v
      → validate_limits v path depth n ≡ (value tt, m)
  Within-passes null path depth n m shallow few e = ground (arith, count_node-passes path depth n)
  Within-passes (bool b) path depth n m shallow few e =
      ground (arith, count_node-passes path depth n)
  Within-passes (int i) path depth n m (shallow, low, high) few e =
      let counted : m ≡ suc n = omega arith in
      rw counted (checked-passes _ path _ depth n shallow (omega arith) (ground arith))
  Within-passes (str s) path depth n m (shallow, short) few e =
      let counted : m ≡ suc n = omega arith in
      rw counted (checked-passes _ path _ depth n shallow (omega arith) (ground arith))
  Within-passes (list items) path depth n m (shallow, short, ps) few e =
      then_passes _ _ (checked-passes _ path _ depth n shallow (omega arith) (ground arith))
        (WithinItems-passes items path 0 (suc depth) (suc n) m ps (omega arith) (omega arith))
  Within-passes (dict fields) path depth n m (shallow, short, ps) few e =
      then_passes _ _ (checked-passes _ path _ depth n shallow (omega arith) (ground arith))
        (WithinFields-passes fields path (suc depth) (suc n) m ps (omega arith) (omega arith))

  WithinItems-passes :
      (items : JsonItems) (path : String) (index depth n m : ℕ)
      → WithinItems depth items
      → n + size_items items ≤ max_total_nodes
      → m ≡ n + size_items items
      → validate_items items path index depth n ≡ (value tt, m)
  WithinItems-passes nil path index depth n m h few e = ground arith
  WithinItems-passes (item v rest) path index depth n m (h, hs) few e =
      then_passes _ _ (Within-passes v _ depth n (n + size v) h (omega arith) refl) (
        WithinItems-passes rest path (suc index) depth (n + size v) m hs (omega arith)
          (omega arith))

  WithinFields-passes :
      (fields : JsonFields) (path : String) (depth n m : ℕ)
      → WithinFields depth fields
      → n + size_fields fields ≤ max_total_nodes
      → m ≡ n + size_fields fields
      → validate_fields fields path depth n ≡ (value tt, m)
  WithinFields-passes end path depth n m h few e = ground arith
  WithinFields-passes (field key v rest) path depth n m (short, h, hs) few e =
      then_passes _ _
        (then_passes _ _ (limit-passes _ path _ n (ground arith))
          (Within-passes v _ depth n (n + size v) h (omega arith) refl))
        (WithinFields-passes rest path depth (n + size v) m hs (omega arith) (omega arith))

-- From a count of values that is within its limit, the check of a JSON value passes with a new
-- count exactly when the value is within the limits on depths, lengths, field names and integers,
-- it consists of no more values than are left, and the new count is the old one and its number of
-- values.
pub validate_limits_iff :
    (v : JsonValue) (path : String) (depth n m : ℕ)
    → n ≤ max_total_nodes
    → (validate_limits v path depth n ≡ (value tt, m))
      ↔ (Within depth v × (n + size v ≤ max_total_nodes) × (m ≡ n + size v))
validate_limits_iff v path depth n m h =
    (validate_limits-Passed v path depth n m h, λ p. Within-passes v path depth n m p.0 p.1 p.2)
