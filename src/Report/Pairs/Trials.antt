-- ===== src/Report/Pairs/Trials.antt =====
-- The trials of a pair that passes its checks (src/effectprobe/_mcp_reports.py, _validate_pair).
use effect_probe.Prelude.{◌≡◌, refl, String, ap, ◌∙◌, ◌++◌, true, List, [], ◌∷◌, some, none, arith}
use effect_probe.Exception.{value}
use effect_probe.Exception.Returns.{Returns, Returns-pure, Returns-step, Returns-skip}
use effect_probe.Store.{Mode}
use effect_probe.Artifact.{JsonValue, JsonFields, nil}
use effect_probe.Artifact.{require_object}
use effect_probe.Artifact.Envelope.{get}
use effect_probe.Report.Checks.Passed.{subscript-value}
use effect_probe.Report.{ReportTrialKind, ReportTrial}
use effect_probe.Report.Evidence.{ParsedAttempt}
use effect_probe.Report.Evidence.Histories.{
  history_of, baseline-empty, observed-length, growth-lengths,
}
use effect_probe.Report.Pairs.{CleanPart, validate_clean, validate_perturbed, validate_pair}
use effect_probe.Report.Attempts.{validate_effects}
use effect_probe.Report.Seen.{Seen, PairScope, final_count}

-- A clean trial of a pair: one attempt, one delivery, one committed refund, no fault.
pub record IsClean (pair_id : String) (t : ReportTrial) : Type 0 where
  pub pair : t.pair_id ≡ pair_id
  pub kind : t.kind ≡ ReportTrialKind.clean
  pub growth : t.history_delta_count ≡ 1
  pub attempts : t.attempt_count ≡ 1
  pub deliveries : t.transport_delivery_count ≡ 1
  pub no_fault : t.fault_boundary ≡ none

-- A perturbed trial of a pair: two attempts, two deliveries, the fault at the first attempt, and the
-- committed refunds that its mode ends with.
pub record IsPerturbed (mode : Mode) (pair_id : String) (t : ReportTrial) : Type 0 where
  pub pair : t.pair_id ≡ pair_id
  pub kind : t.kind ≡ ReportTrialKind.perturbed
  pub growth : t.history_delta_count ≡ final_count mode
  pub attempts : t.attempt_count ≡ 2
  pub deliveries : t.transport_delivery_count ≡ 2
  pub fault : t.fault_boundary ≡ some "mcp_client_result_delivery"
  pub reached : t.fault_reached ≡ true
  pub injected : t.injected_attempt_ordinal ≡ some 1

module _ (scope : PairScope) where
  validate_clean-IsClean :
      (pair_id path : String) (pair : JsonFields)
      → Returns (validate_clean scope pair_id path pair) (λ part. IsClean pair_id part.trial)
  unfolding validate_clean
  validate_clean-IsClean pair_id path pair = Returns-skip _ (λ clean. Returns-skip _ (λ _.
      Returns-skip _ (λ baseline. Returns-step (λ _ s₁ _ fresh. Returns-skip _ (λ attempt_value.
        Returns-skip _ (λ attempt. Returns-skip _ (λ _. Returns-step (λ _ s₂ _ observed.
          Returns-skip _ (λ _. Returns-step (λ growth s₃ _ grown.
            let empty = baseline-empty s₁ baseline _ _ fresh in
            let (history, found, one) =
              observed-length s₂ scope.refund attempt.observer_truth _ 1 observed in
            let longer = growth-lengths s₃ baseline attempt.observer_truth _ grown empty found in
            Returns-skip _ (λ _. Returns-skip _ (λ _. Returns-skip _ (λ _. Returns-skip _ (λ _.
              Returns-skip _ (λ delivery_id. Returns-skip _ (λ attempt_id. Returns-skip _ (λ _.
                Returns-skip _ (λ _. Returns-skip _ (λ _. Returns-skip _ (λ _. Returns-skip _ (λ _.
                  Returns-skip _ (λ cleanup. Returns-pure _ (record {
                    pair = refl;
                    kind = refl;
                    growth = omega arith;
                    attempts = refl;
                    deliveries = refl;
                    no_fault = refl;
                  })))))))))))))))))))))))

  effects-growth :
      (path : String) (perturbed : JsonFields) (first second : ParsedAttempt) {baseline : JsonValue}
      → get "baseline" perturbed ≡ some baseline
      → history_of baseline ≡ some nil
      → Returns
          (validate_effects scope path perturbed first second)
          (λ n. n ≡ final_count scope.refund.mode)
  unfolding validate_effects
  effects-growth path perturbed first second {baseline} found empty = Returns-skip _ (λ _.
      Returns-step (λ _ s₁ _ observed. Returns-skip _ (λ _. Returns-skip _ (λ _.
        Returns-skip _ (λ _. Returns-step (λ b s₂ _ read.
          let same : b ≡ baseline = ground (arith, subscript-value s₂ perturbed "baseline" read) in
          let (history, at_end, count) =
            observed-length s₁ scope.refund second.observer_truth _ _ observed in
          record {
            at = λ s e.
                let longer =
                  growth-lengths s b second.observer_truth _ e (ap history_of same ∙ empty)
                    at_end in
                omega arith;
          }))))))

  validate_perturbed-IsPerturbed :
      (pair_id path : String) (pair : JsonFields) (clean : CleanPart)
      → Returns
          (validate_perturbed scope pair_id path pair clean)
          (IsPerturbed scope.refund.mode pair_id)
  unfolding validate_perturbed
  validate_perturbed-IsPerturbed pair_id path pair clean = Returns-skip _ (λ perturbed.
      Returns-skip _ (λ _. Returns-step (λ baseline s₁ _ read. Returns-step (λ _ s₂ _ fresh.
        let found = subscript-value s₁ perturbed "baseline" read in
        let empty = baseline-empty s₂ baseline _ _ fresh in
        Returns-skip _ (λ (first, second). Returns-step (λ growth s₃ _ grown.
          let count = (effects-growth path perturbed first second found empty).at s₃ grown in
          Returns-skip _ (λ named. Returns-skip _ (λ all_ids. Returns-skip _ (λ _.
            Returns-skip _ (λ _. Returns-skip _ (λ _. Returns-skip _ (λ _.
              Returns-skip _ (λ cleanup. Returns-pure _ (record {
                pair = refl;
                kind = refl;
                growth = count;
                attempts = refl;
                deliveries = refl;
                fault = refl;
                reached = refl;
                injected = refl;
              }))))))))))))))

-- The trials of pairs, in their order: a clean and a perturbed one for each.
pub ArePairs : Mode → List String → List ReportTrial → Type 0
ArePairs mode [] ts = ts ≡ []
ArePairs mode (pair_id ∷ pair_ids) ts =
    (clean : ReportTrial) × (perturbed : ReportTrial) × (rest : List ReportTrial) × (ts
      ≡ clean ∷ perturbed ∷ rest)
    × IsClean pair_id clean
    × IsPerturbed mode pair_id perturbed
    × ArePairs mode pair_ids rest

pub nothing-ArePairs : (mode : Mode) → ArePairs mode [] []
unfolding ArePairs
nothing-ArePairs mode = refl

pub ArePairs-append :
    (mode : Mode) (left right : List String) (ts us : List ReportTrial)
    → ArePairs mode left ts
    → ArePairs mode right us
    → ArePairs mode (left ++ right) (ts ++ us)
unfolding ArePairs
ArePairs-append mode [] right ts us e h = rw e h
ArePairs-append mode (pair_id ∷ left) right ts us (clean, perturbed, rest, e, c, p, more) h = (
  clean,
  perturbed,
  rest ++ us,
  ap (λ l. l ++ us) e,
  c,
  p,
  ArePairs-append mode left right rest us more h,
)

-- What is returned for a pair that passes its checks is a clean and a perturbed trial of its kind.
pub validate_pair-ArePairs :
    (scope : PairScope) (pair_id : String) (v : JsonValue) (seen : Seen) {trials : List ReportTrial}
    {seen' : Seen}
    → validate_pair scope pair_id v seen ≡ (value trials, seen')
    → ArePairs scope.refund.mode (pair_id ∷ []) trials
unfolding validate_pair ArePairs
validate_pair-ArePairs scope pair_id v seen e =
    let all =
      Returns-skip {Q = ArePairs scope.refund.mode (pair_id ∷ [])} (require_object v _) (λ pair.
        Returns-skip _ (λ _. Returns-skip _ (λ _. Returns-skip _ (λ _. Returns-skip _ (λ _.
          Returns-step (λ clean s₁ _ e₁. Returns-step (λ perturbed s₂ _ e₂. Returns-pure _ (
            clean.trial,
            perturbed,
            [],
            refl,
            (validate_clean-IsClean scope pair_id _ pair).at s₁ e₁,
            (validate_perturbed-IsPerturbed scope pair_id _ pair clean).at s₂ e₂,
            refl,
          )))))))) in
    all.at seen e
