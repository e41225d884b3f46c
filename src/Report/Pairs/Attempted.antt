-- ===== src/Report/Pairs/Attempted.antt =====
-- What the recorded attempts of a pair contain when they pass their checks
-- (src/effectprobe/_mcp_reports.py, _attempt, _transport and _validate_pair).
use effect_probe.Prelude.{ℕ, ◌≡◌, ap, ◌∙◌, String, str_eq_iff, List, some, ==_iff, arith}
use effect_probe.Exception.Bind.{value_eq}
use effect_probe.Exception.Returns.{Returns, Returns-pure, Returns-step, Returns-skip}
use effect_probe.Artifact.{
  JsonValue, str, list, dict, JsonItems, nil, item, JsonFields, items_length,
}
use effect_probe.Artifact.Envelope.{get}
use effect_probe.Report.Checks.Passed.{
  expect-value, subscript-value, require_object-value, require_list-value, object_at-value,
  list_at-value,
}
use effect_probe.Report.Checks.Read.{
  expect_that-value, all_of-value, string_at-value, field_is-str, each-AreTwo,
}
use effect_probe.Report.Evidence.{ParsedAttempt, decode_attempt, transport}
use effect_probe.Report.Evidence.Histories.{history_of, observed-length}
use effect_probe.Report.Attempts.{validate_attempts, validate_effects, validate_schedule}
use effect_probe.Report.Seen.{PairScope, final_count}

-- The JSON of an attempt, and what was read from it.
pub record IsRead (v : JsonValue) (p : ParsedAttempt) : Type 0 where
  pub fields : JsonFields
  pub view : JsonFields
  pub is_object : v ≡ dict fields
  pub identified : get "identity" fields ≡ some (dict p.identity)
  pub viewed : get "subject_view" fields ≡ some (dict view)
  pub ended : get "outcome" view ≡ some (str p.outcome)
  pub observed : get "observer_truth" fields ≡ some p.observer_truth

-- An observation of a number of committed refunds.
abbrev pub Commits : ℕ → JsonValue → Type 0
Commits n observation =
    (history : JsonItems) × (history_of observation ≡ some history) × (items_length history ≡ n)

module _ {S : Type 0} where
  pub decode_attempt-IsRead :
      (expected_input : JsonValue) (operation_id trial_id : String) (v : JsonValue) (path : String)
      → Returns (decode_attempt {S = S} expected_input operation_id trial_id v path) (IsRead v)
  unfolding decode_attempt
  decode_attempt-IsRead expected_input operation_id trial_id v path =
      Returns-step (λ fields s₁ _ e₁. Returns-step (λ identity s₂ _ e₂. Returns-skip _ (λ _.
        Returns-skip _ (λ delivery_id. Returns-skip _ (λ attempt_id. Returns-skip _ (λ _.
          Returns-step (λ view s₃ _ e₃. Returns-skip _ (λ _. Returns-step (λ outcome s₄ _ e₄.
            Returns-skip _ (λ result. Returns-step (λ truth s₅ _ e₅. Returns-pure _ (record {
              fields = fields;
              view = view;
              is_object = require_object-value s₁ v _ e₁;
              identified = object_at-value s₂ fields _ _ e₂;
              viewed = object_at-value s₃ fields _ _ e₃;
              ended = string_at-value s₄ view _ _ e₄;
              observed = subscript-value s₅ fields _ e₅;
            }))))))))))))

  pub transport-length :
      (v : JsonValue) (path : String) (n : ℕ) (key : String) (forbidden : List String)
      → Returns
          (transport {S = S} v path n key forbidden)
          (λ _. (items : JsonItems) × (v ≡ list items) × (items_length items ≡ n))
  unfolding transport
  transport-length v path n key forbidden = Returns-step (λ items s₁ _ e₁.
      Returns-step (λ _ s₂ _ e₂. record {
        at = λ s e. (
          items,
          require_list-value s₁ v path e₁,
          (==_iff (items_length items) n).0 (expect-value s₂ _ _ e₂),
        );
      }))

-- The two attempts of a perturbed trial: the first lost its result, and the second returned.
pub record AreAttempts (perturbed : JsonFields) (read : ParsedAttempt × ParsedAttempt)
    : Type 0 where
  pub first : JsonValue
  pub second : JsonValue
  pub attempted : get "attempts" perturbed ≡ some (list (item first (item second nil)))
  pub first_read : IsRead first read.0
  pub second_read : IsRead second read.1
  pub lost : read.0.outcome ≡ "client_result_lost"
  pub returned : read.1.outcome ≡ "returned"

-- The schedule that the harness recorded.
pub record IsScheduled (perturbed : JsonFields) (first second : ParsedAttempt)
    (ids : String × String) : Type 0 where
  pub harness : JsonFields
  pub first_named : get "attempt_id" first.identity ≡ some (str ids.0)
  pub second_named : get "attempt_id" second.identity ≡ some (str ids.1)
  pub recorded : get "harness_truth" perturbed ≡ some (dict harness)
  pub boundary : get "boundary_name" harness ≡ some (str "mcp_client_result_delivery")
  pub injected : get "injected_attempt_id" harness ≡ some (str ids.0)

module _ (scope : PairScope) (path : String) (perturbed : JsonFields) where
  pub validate_schedule-IsScheduled :
      (first second : ParsedAttempt)
      → Returns (validate_schedule path perturbed first second) (IsScheduled perturbed first second)
  unfolding validate_schedule
  validate_schedule-IsScheduled first second = Returns-step (λ harness s₁ _ e₁.
      Returns-step (λ first_id s₂ _ e₂. Returns-skip _ (λ _. Returns-skip _ (λ reached.
        Returns-step (λ second_id s₃ _ e₃. Returns-step (λ _ s₄ _ e₄.
          let (_, held) = expect_that-value s₄ _ _ e₄ in
          let (s₅, boundary, rest) = all_of-value s₄ _ _ held in
          let (_, injected, _) = all_of-value s₅ _ _ rest in
          Returns-skip _ (λ _. Returns-skip _ (λ _. Returns-skip _ (λ _. Returns-skip _ (λ _.
            Returns-skip _ (λ _. Returns-skip _ (λ _. Returns-pure _ (record {
              harness = harness;
              first_named = string_at-value s₂ first.identity _ _ e₂;
              second_named = string_at-value s₃ second.identity _ _ e₃;
              recorded = object_at-value s₁ perturbed _ _ e₁;
              boundary = field_is-str s₄ harness _ _ boundary;
              injected = field_is-str s₅ harness _ _ injected;
            })))))))))))))

  pub validate_attempts-AreAttempts :
      (trial_id : String)
      → Returns (validate_attempts scope trial_id path perturbed) (AreAttempts perturbed)
  unfolding validate_attempts
  validate_attempts-AreAttempts trial_id = Returns-step (λ attempts s₁ _ e₁.
      Returns-step (λ _ s₂ _ e₂. Returns-step (λ parsed s₃ _ e₃.
        let length_two = (==_iff (items_length attempts) 2).0 (expect-value s₂ _ _ e₂) in
        let two =
          each-AreTwo _ IsRead
            (decode_attempt-IsRead scope.expected_input scope.operation_id trial_id) attempts _ 0 s₃
            length_two e₃ in
        Returns-step (λ (first, second) s₄ _ e₄. Returns-step (λ _ s₅ _ e₅.
          Returns-step (λ _ s₆ _ e₆.
            let taken = value_eq (rw two.values_are at e₄) in
            let lost : first.outcome ≡ "client_result_lost" =
              ground
                (arith, expect-value s₅ _ _ e₅, str_eq_iff first.outcome "client_result_lost") in
            let (_, held) = expect_that-value s₆ _ _ e₆ in
            let (_, ended, _) = all_of-value s₆ _ _ held in
            Returns-pure _ (record {
              first = two.first;
              second = two.second;
              attempted = list_at-value s₁ perturbed _ _ e₁ ∙ ap (λ l. some (list l)) two.items_are;
              first_read =
                  rw (← ap (λ (p : ParsedAttempt × ParsedAttempt). p.0) taken) two.first_decoded;
              second_read =
                  rw (← ap (λ (p : ParsedAttempt × ParsedAttempt). p.1) taken) two.second_decoded;
              lost = lost;
              returned = (str_eq_iff second.outcome "returned").0 (value_eq ended);
            })))))))

  pub validate_effects-Commits :
      (first second : ParsedAttempt)
      → Returns (validate_effects scope path perturbed first second) (λ _.
        Commits 1 first.observer_truth
        × Commits (final_count scope.refund.mode) second.observer_truth)
  unfolding validate_effects
  validate_effects-Commits first second = Returns-step (λ _ s₁ _ e₁. Returns-step (λ _ s₂ _ e₂.
      let early = observed-length s₁ scope.refund first.observer_truth _ 1 e₁ in
      let late = observed-length s₂ scope.refund second.observer_truth _ _ e₂ in
      Returns-skip _ (λ _.
        Returns-skip _
          (λ _. Returns-skip _ (λ _. Returns-skip _ (λ _. record { at = λ s e. (early, late) }))))))
