-- ===== src/Report/Build/Axes.antt =====
-- The axes of a report (src/effectprobe/_mcp_reports.py, _build_report): an axis that is equal to the
-- expected one has its status.
use effect_probe.Prelude.{
  ◌≡◌, refl, ap, ◌∙◌, sym, [], ◌∷◌, String, true, some, arith, str_eq_iff, Option-cases, Bool-cases,
  str_eq, inl, inr,
}
use effect_probe.Exception.Bind.{value_eq}
use effect_probe.Exception.Returns.{Returns, Returns-pure, Returns-step, Returns-skip}
use effect_probe.Store.{Mode}
use effect_probe.Artifact.{JsonValue, str, list, dict, nil, item, JsonFields, end, field}
use effect_probe.Artifact.Equality.{json_eq, fields_in}
use effect_probe.Artifact.Envelope.{get}
use effect_probe.Report.{ReportVerdict, ReportAxisStatus}
use effect_probe.Report.Checks.{at_key}
use effect_probe.Report.Checks.Passed.{require_object-value, subscript-value, expect-field}
use effect_probe.Report.Decoders.{decode_axis, decode_axis_status}
use effect_probe.Report.Expected.{
  expected_axis, expected_clean_invariant, expected_retry_invariant, expected_clean_axis,
  expected_retry_axis,
}
use effect_probe.Report.Encode.{object_of, verdict_text}
use effect_probe.Report.RoundTrip.{decode_axis_status-status_text}
use effect_probe.Report.Sections.{decode_axes}

-- A field of the first of two equal objects is in the second, with an equal value.
fields_in-get :
    (xs ys : JsonFields) (key : String) {x : JsonValue}
    → fields_in xs ys ≡ true
    → get key xs ≡ some x
    → (y : JsonValue) × (get key ys ≡ some y) × (json_eq x y ≡ true)
unfolding fields_in get
fields_in-get end ys key e found = absurd (ground arith)
fields_in-get (field k v rest) ys key {x} e found = elim (Option-cases (get k ys)) [
  | inl missing ↦ absurd (ground (arith, missing))
  | inr (y, there) ↦ elim (Bool-cases (str_eq k key)) [
    | inl here ↦ (y, ground (arith, str_eq_iff k key), ground arith)
    | inr other ↦ fields_in-get rest ys key (ground arith) (ground arith)
  ]
]

json_eq-dict :
    (v : JsonValue) (fields : JsonFields)
    → json_eq v (dict fields) ≡ true
    → (own : JsonFields) × (v ≡ dict own) × (fields_in own fields ≡ true)
unfolding json_eq
json_eq-dict (dict own) fields e = (own, refl, ground arith)
json_eq-dict v fields e = absurd (ground arith)

json_eq-str : (v : JsonValue) (t : String) → json_eq v (str t) ≡ true → v ≡ str t
unfolding json_eq
json_eq-str (str s) t e = ap str ((str_eq_iff s t).0 e)
json_eq-str v t e = absurd (ground arith)

-- The fields of an expected axis.
abbrev axis_fields : ReportVerdict → JsonValue → JsonFields
axis_fields verdict invariant =
    object_of
      (("status", str (verdict_text verdict)) ∷ ("invariants", list (item invariant nil)) ∷ [])

status_of :
    (verdict : ReportVerdict) (invariant : JsonValue)
    → get "status" (axis_fields verdict invariant) ≡ some (str (verdict_text verdict))
unfolding get
status_of verdict invariant = refl

status-equal :
    (object : JsonFields) (invariant v : JsonValue) (verdict : ReportVerdict)
    → json_eq (dict object) (expected_axis (verdict_text verdict) invariant) ≡ true
    → get "status" object ≡ some v
    → v ≡ str (verdict_text verdict)
unfolding json_eq
status-equal object invariant v verdict same found =
    let inside : fields_in object (axis_fields verdict invariant) ≡ true = ground arith in
    let (y, there, alike) =
      fields_in-get object (axis_fields verdict invariant) "status" inside found in
    let text : y ≡ str (verdict_text verdict) = ground (arith, status_of verdict invariant) in
    json_eq-str v (verdict_text verdict) (rw text at alike)

module _ {S : Type 0} where
  -- An axis decoded from an object that is equal to the expected one of a verdict.
  axis-status :
      (v invariant : JsonValue) (verdict : ReportVerdict) (path : String)
      → json_eq v (expected_axis (verdict_text verdict) invariant) ≡ true
      → Returns {S = S} (decode_axis v path) (λ axis. axis.status ≡ ReportAxisStatus.judged verdict)
  unfolding decode_axis
  axis-status v invariant verdict path same = Returns-step (λ object s₁ _ e₁.
      Returns-step (λ status_value s₂ _ e₂.
        let is_object = require_object-value s₁ v path e₁ in
        let text =
          status-equal object invariant status_value verdict (rw is_object at same)
            (subscript-value s₂ object "status" e₂) in
        Returns-step (λ status s₃ _ e₃.
          let trip = decode_axis_status-status_text (ReportAxisStatus.judged verdict) _ s₃ in
          let decoded : status ≡ ReportAxisStatus.judged verdict =
            value_eq
              (sym e₃ ∙ ap (λ w. decode_axis_status w (at_key path "status") s₃) text ∙ trip) in
          Returns-skip _ (λ items. Returns-skip _ (λ invariants. Returns-pure _ decoded)))))

-- The verdict that the retry axis of a mode ends with.
abbrev pub final_verdict : Mode → ReportVerdict
final_verdict Mode.keyed = ReportVerdict.pass
final_verdict Mode.unsafe = ReportVerdict.fail

expected_retry_axis-verdict :
    (mode : Mode)
    → expected_retry_axis mode
      ≡ expected_axis (verdict_text (final_verdict mode)) (expected_retry_invariant mode)
expected_retry_axis-verdict Mode.keyed = refl
expected_retry_axis-verdict Mode.unsafe = refl

module _ {S : Type 0} where
  -- The axes that are decoded have the statuses of the mode.
  pub axes-judged :
      (mode : Mode) (payload : JsonFields)
      → Returns {S = S} (decode_axes mode payload) (λ axes.
        (axes.0.status ≡ ReportAxisStatus.judged ReportVerdict.pass)
        × (axes.1.status ≡ ReportAxisStatus.judged (final_verdict mode)))
  unfolding decode_axes
  axes-judged mode payload = Returns-skip _ (λ outcomes. Returns-step (λ _ s₁ _ e₁.
      Returns-step (λ _ s₂ _ e₂. Returns-step (λ clean_value s₃ _ e₃. Returns-step (λ clean s₄ _ e₄.
        Returns-step (λ retry_value s₅ _ e₅. Returns-step (λ retry s₆ _ e₆.
          let (v, found, same) = expect-field s₁ outcomes _ _ _ e₁ in
          let (w, found', same') = expect-field s₂ outcomes _ _ _ e₂ in
          let read : clean_value ≡ v = ground (arith, subscript-value s₃ outcomes _ e₃) in
          let read' : retry_value ≡ w = ground (arith, subscript-value s₅ outcomes _ e₅) in
          let equal = ap (λ x. json_eq x expected_clean_axis) read ∙ same in
          let equal' =
            ap (λ x. json_eq retry_value x) (sym (expected_retry_axis-verdict mode))
            ∙ ap (λ x. json_eq x (expected_retry_axis mode)) read'
            ∙ same' in
          Returns-pure _ (
            (axis-status clean_value expected_clean_invariant ReportVerdict.pass _ equal).at s₄ e₄,
            (axis-status retry_value (expected_retry_invariant mode) (final_verdict mode) _
                  equal').at
                s₆ e₆,
          ))))))))
