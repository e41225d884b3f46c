-- ===== src/Report/Pairs/Contents.antt =====
-- What the evidence of a pair contains when the pair passes its checks
-- (src/effectprobe/_mcp_reports.py, _validate_pair).
use effect_probe.Prelude.{ℕ, ◌≡◌, refl, String, some, str_eq_iff, List, arith}
use effect_probe.Exception.{value}
use effect_probe.Exception.Returns.{Returns, Returns-pure, Returns-step, Returns-skip}
use effect_probe.Store.{Mode}
use effect_probe.Artifact.{
  JsonValue, str, list, dict, JsonItems, nil, item, JsonFields, items_length, require_object,
}
use effect_probe.Artifact.Envelope.{get}
use effect_probe.Report.{ReportTrial}
use effect_probe.Report.Checks.Passed.{
  expect-value, subscript-value, require_object-value, object_at-value,
}
use effect_probe.Report.Evidence.{ParsedAttempt}
use effect_probe.Report.Evidence.Histories.{history_of, baseline-empty, observed-length}
use effect_probe.Report.Pairs.{CleanPart, validate_clean, validate_perturbed, validate_pair}
use effect_probe.Report.Pairs.Attempted.{
  IsRead, Commits, decode_attempt-IsRead, transport-length, validate_schedule-IsScheduled,
  validate_attempts-AreAttempts, validate_effects-Commits,
}
use effect_probe.Report.Seen.{Seen, PairScope, final_count}

-- A recorded attempt that ended in a way, after which a number of refunds was committed.
pub record IsAttempt (outcome : String) (refunds : ℕ) (v : JsonValue) : Type 0 where
  pub fields : JsonFields
  pub view : JsonFields
  pub truth : JsonValue
  pub is_object : v ≡ dict fields
  pub viewed : get "subject_view" fields ≡ some (dict view)
  pub ended : get "outcome" view ≡ some (str outcome)
  pub observed : get "observer_truth" fields ≡ some truth
  pub committed : Commits refunds truth

-- A recorded trial that began without refunds and made a number of deliveries.
pub record IsTrial (deliveries : ℕ) (trial : JsonFields) : Type 0 where
  pub baseline : JsonValue
  pub items : JsonItems
  pub began : get "baseline" trial ≡ some baseline
  pub fresh : Commits 0 baseline
  pub delivered : get "transport_truth" trial ≡ some (list items)
  pub counted : items_length items ≡ deliveries

-- The refunds that a perturbed trial ends with.
abbrev pub refunds_after_retry : Mode → ℕ
refunds_after_retry Mode.keyed = 1
refunds_after_retry Mode.unsafe = 2

final_count-lem : (mode : Mode) → refunds_after_retry mode ≡ final_count mode
final_count-lem Mode.keyed = refl
final_count-lem Mode.unsafe = refl

-- A recorded clean trial: one attempt, which returned.
pub record IsCleanTrial (trial : JsonFields) : Type 0 where
  pub attempt : JsonValue
  pub trial_of : IsTrial 1 trial
  pub attempted : get "attempt" trial ≡ some attempt
  pub returned : IsAttempt "returned" 1 attempt

-- A recorded perturbed trial: two attempts, of which the first was injected and lost its result,
-- and the second returned.
pub record IsPerturbedTrial (mode : Mode) (trial : JsonFields) : Type 0 where
  pub first : JsonValue
  pub second : JsonValue
  pub harness : JsonFields
  pub first_fields : JsonFields
  pub identity : JsonFields
  pub first_id : String
  pub trial_of : IsTrial 2 trial
  pub attempted : get "attempts" trial ≡ some (list (item first (item second nil)))
  pub lost : IsAttempt "client_result_lost" 1 first
  pub returned : IsAttempt "returned" (refunds_after_retry mode) second
  pub recorded : get "harness_truth" trial ≡ some (dict harness)
  pub boundary : get "boundary_name" harness ≡ some (str "mcp_client_result_delivery")
  pub injected : get "injected_attempt_id" harness ≡ some (str first_id)
  pub first_object : first ≡ dict first_fields
  pub first_identity : get "identity" first_fields ≡ some (dict identity)
  pub first_named : get "attempt_id" identity ≡ some (str first_id)

pub record IsPair (mode : Mode) (v : JsonValue) : Type 0 where
  pub pair : JsonFields
  pub clean : JsonFields
  pub perturbed : JsonFields
  pub is_object : v ≡ dict pair
  pub has_clean : get "clean" pair ≡ some (dict clean)
  pub has_perturbed : get "perturbed" pair ≡ some (dict perturbed)
  pub clean_trial : IsCleanTrial clean
  pub perturbed_trial : IsPerturbedTrial mode perturbed

IsRead-IsAttempt :
    {v : JsonValue} {p : ParsedAttempt} {outcome : String} {n : ℕ}
    → IsRead v p
    → p.outcome ≡ outcome
    → Commits n p.observer_truth
    → IsAttempt outcome n v
IsRead-IsAttempt {p = p} read ended committed = record {
  fields = read.fields;
  view = read.view;
  truth = p.observer_truth;
  is_object = read.is_object;
  viewed = read.viewed;
  ended = rw (← ended) read.ended;
  observed = read.observed;
  committed = committed;
}

fresh-Commits : (v : JsonValue) → history_of v ≡ some nil → Commits 0 v
fresh-Commits v e = (nil, e, refl)

module _ (scope : PairScope) where
  clean-contents :
      (pair_id path : String) (pair : JsonFields)
      → Returns
          (validate_clean scope pair_id path pair)
          (λ _. (clean : JsonFields) × (get "clean" pair ≡ some (dict clean)) × IsCleanTrial clean)
  unfolding validate_clean
  clean-contents pair_id path pair = Returns-step (λ clean s₁ _ e₁. Returns-skip _ (λ _.
      Returns-step (λ baseline s₂ _ e₂. Returns-step (λ _ s₃ _ e₃.
        Returns-step (λ attempt_value s₄ _ e₄. Returns-step (λ attempt s₅ _ e₅.
          Returns-step (λ _ s₆ _ e₆. Returns-step (λ _ s₇ _ e₇.
            let read = (decode_attempt-IsRead _ _ _ attempt_value _).at s₅ e₅ in
            let ended : attempt.outcome ≡ "returned" =
              ground (arith, expect-value s₆ _ _ e₆, str_eq_iff attempt.outcome "returned") in
            let one = observed-length s₇ scope.refund attempt.observer_truth _ 1 e₇ in
            Returns-skip _ (λ _. Returns-skip _ (λ _. Returns-skip _ (λ _. Returns-skip _ (λ _.
              Returns-skip _ (λ _. Returns-skip _ (λ _. Returns-skip _ (λ _. Returns-skip _ (λ _.
                Returns-skip _ (λ _. Returns-step (λ deliveries s₈ _ e₈. Returns-step (λ _ s₉ _ e₉.
                  Returns-skip _ (λ _. Returns-skip _ (λ _. Returns-skip _ (λ _.
                    let (items, is_list, count) = (transport-length deliveries _ 1 _ _).at s₉ e₉ in
                    Returns-pure _ (
                      clean,
                      object_at-value s₁ pair _ _ e₁,
                      record {
                        attempt = attempt_value;
                        trial_of = record {
                          baseline = baseline;
                          items = items;
                          began = subscript-value s₂ clean _ e₂;
                          fresh = fresh-Commits baseline (baseline-empty s₃ baseline _ _ e₃);
                          delivered =
                              rw (← is_list) (subscript-value s₈ clean "transport_truth" e₈);
                          counted = count;
                        };
                        attempted = subscript-value s₄ clean _ e₄;
                        returned = IsRead-IsAttempt read ended one;
                      },
                    )))))))))))))))))))))))

  perturbed-contents :
      (pair_id path : String) (pair : JsonFields) (clean : CleanPart)
      → Returns (validate_perturbed scope pair_id path pair clean) (λ _.
        (perturbed : JsonFields) × (get "perturbed" pair ≡ some (dict perturbed))
        × IsPerturbedTrial scope.refund.mode perturbed)
  unfolding validate_perturbed
  perturbed-contents pair_id path pair clean = Returns-step (λ perturbed s₁ _ e₁.
      Returns-skip _ (λ _. Returns-step (λ baseline s₂ _ e₂. Returns-step (λ _ s₃ _ e₃.
        Returns-step (λ (first, second) s₄ _ e₄. Returns-step (λ growth s₅ _ e₅.
          Returns-step (λ named s₆ _ e₆. Returns-skip _ (λ all_ids.
            Returns-step (λ deliveries s₇ _ e₇. Returns-step (λ _ s₈ _ e₈.
              let attempts = (validate_attempts-AreAttempts scope path perturbed _).at s₄ e₄ in
              let (one, final) =
                (validate_effects-Commits scope path perturbed first second).at s₅ e₅ in
              let schedule =
                (validate_schedule-IsScheduled scope path perturbed first second).at s₆ e₆ in
              let (items, is_list, count) = (transport-length deliveries _ 2 _ _).at s₈ e₈ in
              Returns-skip _ (λ _. Returns-skip _ (λ _. Returns-skip _ (λ _. Returns-pure _ (
                perturbed,
                object_at-value s₁ pair _ _ e₁,
                record {
                  first = attempts.first;
                  second = attempts.second;
                  harness = schedule.harness;
                  first_fields = attempts.first_read.fields;
                  identity = first.identity;
                  first_id = named.0;
                  trial_of = record {
                    baseline = baseline;
                    items = items;
                    began = subscript-value s₂ perturbed _ e₂;
                    fresh = fresh-Commits baseline (baseline-empty s₃ baseline _ _ e₃);
                    delivered = rw (← is_list) (subscript-value s₇ perturbed "transport_truth" e₇);
                    counted = count;
                  };
                  attempted = attempts.attempted;
                  lost = IsRead-IsAttempt attempts.first_read attempts.lost one;
                  returned =
                      IsRead-IsAttempt attempts.second_read attempts.returned
                        (rw (← final_count-lem scope.refund.mode) final);
                  recorded = schedule.recorded;
                  boundary = schedule.boundary;
                  injected = schedule.injected;
                  first_object = attempts.first_read.is_object;
                  first_identity = attempts.first_read.identified;
                  first_named = schedule.first_named;
                },
              ))))))))))))))

-- The JSON of a pair that passes its checks has a clean trial with an empty baseline, one delivery
-- and one attempt, which returned and after which one refund was committed, and a perturbed trial
-- with an empty baseline, two deliveries and exactly two attempts: the first is the one that the
-- harness recorded as injected at the result delivery, lost its result, and is followed by one
-- committed refund, and the second returned and is followed by one committed refund in the keyed
-- mode and two in the unsafe one.
pub validate_pair-IsPair :
    (scope : PairScope) (pair_id : String) (v : JsonValue) (seen : Seen) {trials : List ReportTrial}
    {seen' : Seen}
    → validate_pair scope pair_id v seen ≡ (value trials, seen')
    → IsPair scope.refund.mode v
unfolding validate_pair
validate_pair-IsPair scope pair_id v seen e =
    let all =
      Returns-step {Q = λ _. IsPair scope.refund.mode v} {m = require_object v _} (λ pair s₁ _ e₁.
        Returns-skip _ (λ _. Returns-skip _ (λ _. Returns-skip _ (λ _. Returns-skip _ (λ _.
          Returns-step (λ part s₂ _ e₂. Returns-step (λ perturbed_trial s₃ _ e₃.
            let (clean, has_clean, clean_trial) = (clean-contents scope pair_id _ pair).at s₂ e₂ in
            let (perturbed, has_perturbed, retried) =
              (perturbed-contents scope pair_id _ pair part).at s₃ e₃ in
            Returns-pure _ (record {
              pair = pair;
              clean = clean;
              perturbed = perturbed;
              is_object = require_object-value s₁ v _ e₁;
              has_clean = has_clean;
              has_perturbed = has_perturbed;
              clean_trial = clean_trial;
              perturbed_trial = retried;
            })))))))) in
    all.at seen e
