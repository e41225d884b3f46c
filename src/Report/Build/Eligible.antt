-- ===== src/Report/Build/Eligible.antt =====
-- Which artifacts are reported (src/effectprobe/_mcp_reports.py, _build_report), and what leaves
-- build_mcp_report.
use Prim.Native.Char.{Char}
use effect_probe.Prelude.{
  ℕ, zero, suc, ◌≡◌, refl, String, List, [], ◌∷◌, Bool, ==_iff, format, decimal,
}
use effect_probe.Exception.{value, M}
use effect_probe.Exception.Returns.{Returns, Returns-pure, Returns-step, Returns-skip}
use effect_probe.Store.{Mode}
use effect_probe.Artifact.{JsonItems, nil, item, JsonFields, items_length}
use effect_probe.Report.{ReportVerdict, ReportAxisStatus, McpReport}
use effect_probe.Report.Checks.Passed.{expect-value}
use effect_probe.Report.Seen.{Seen, PairScope}
use effect_probe.Report.Pairs.Trials.{
  ArePairs, nothing-ArePairs, ArePairs-append, validate_pair-ArePairs,
}
use effect_probe.Report.Build.{
  expected_confirmations, validate_confirmations, decode_evidence, build_report,
}
use effect_probe.Report.Sections.{decode_scope}
use effect_probe.Report.Registered.{ReadEvidenceArtifact, Sections, Operation}
use effect_probe.Report.Build.Axes.{final_verdict, axes-judged}

-- The ids of a number of confirmations, from an index on.
abbrev pub confirmation_ids : ℕ → ℕ → List String
confirmation_ids zero index = []
confirmation_ids (suc n) index =
    format ("confirmation/" ∷ decimal index ∷ []) ∷ confirmation_ids n (suc index)

-- The pairs that an artifact of a mode consists of.
abbrev pub pair_ids : Mode → List String
pair_ids mode = "primary" ∷ confirmation_ids (expected_confirmations mode) 1

module _ (scope : PairScope) where
  confirmations-ArePairs :
      (items : JsonItems) (index : ℕ)
      → Returns
          (validate_confirmations scope items index)
          (ArePairs scope.refund.mode (confirmation_ids (items_length items) index))
  unfolding validate_confirmations
  confirmations-ArePairs nil index = Returns-pure _ (nothing-ArePairs scope.refund.mode)
  confirmations-ArePairs (item v rest) index = Returns-step (λ trials s₁ _ e₁.
      Returns-step (λ more s₂ _ e₂. Returns-pure _ (
        ArePairs-append scope.refund.mode (_ ∷ [])
          (confirmation_ids (items_length rest) (suc index)) trials more
          (validate_pair-ArePairs scope _ v s₁ e₁)
          ((confirmations-ArePairs rest (suc index)).at s₂ e₂))))

  evidence-ArePairs :
      (payload : JsonFields)
      → Returns (decode_evidence scope payload) (λ found.
        ArePairs scope.refund.mode (pair_ids scope.refund.mode) found.0
        × (found.1 ≡ expected_confirmations scope.refund.mode))
  unfolding decode_evidence
  evidence-ArePairs payload =
      let mode = scope.refund.mode in
      Returns-skip _ (λ evidence. Returns-skip _ (λ confirmations. Returns-step (λ _ s₁ _ e₁.
        let count = (==_iff (items_length confirmations) _).0 (expect-value s₁ _ _ e₁) in
        Returns-skip _ (λ _. Returns-skip _ (λ primary. Returns-step (λ trials s₂ _ e₂.
          Returns-step (λ more s₃ _ e₃.
            let first = validate_pair-ArePairs scope "primary" primary s₂ e₂ in
            let others = (confirmations-ArePairs confirmations 1).at s₃ e₃ in
            let others' : ArePairs mode (confirmation_ids (expected_confirmations mode) 1) more =
              rw count at others in
            Returns-skip _ (λ seen. Returns-skip _ (λ _. Returns-pure _ (
              ArePairs-append mode ("primary" ∷ [])
                  (confirmation_ids (expected_confirmations mode) 1) trials more first others',
              count,
            ))))))))))

-- A report that proves what it says: the pairs and confirmations of its mode, and the axes that the
-- mode ends with.
pub record IsEligible (r : McpReport) : Type 0 where
  pub pairs : ArePairs r.scope.mode (pair_ids r.scope.mode) r.trials
  pub confirmations : r.confirmation_count ≡ expected_confirmations r.scope.mode
  pub applicable : r.applicable_pair_count ≡ 1
  pub clean : r.clean_validity.status ≡ ReportAxisStatus.judged ReportVerdict.pass
  pub retry : r.retry_safety.status ≡ ReportAxisStatus.judged (final_verdict r.scope.mode)

scope-mode :
    {S : Type 0} (mode : Mode) (payload : JsonFields) (sections : Sections) (o : Operation)
    → Returns {S = S} (decode_scope mode payload sections o) (λ scope. scope.mode ≡ mode)
unfolding decode_scope
scope-mode mode payload sections o = Returns-skip _ (λ _. Returns-skip _ (λ _.
    Returns-skip _
      (λ _. Returns-skip _ (λ _. Returns-skip _ (λ _. Returns-skip _ (λ _. Returns-pure _ refl))))))

module _ (live : Mode → M Seen JsonFields) (unsafe_character : Char → Bool) where
  report-IsEligible :
      (read : ReadEvidenceArtifact) → Returns (build_report live unsafe_character read) IsEligible
  unfolding build_report
  report-IsEligible read = Returns-skip _ (λ sections. Returns-skip _ (λ mode_value.
      Returns-skip _ (λ mode. Returns-skip _ (λ current. Returns-skip _ (λ registration.
        Returns-skip _ (λ _. Returns-skip _ (λ operation. Returns-skip _ (λ runtime.
          Returns-skip _ (λ compatibility. Returns-step (λ scope s₁ _ e₁.
            let own = (scope-mode mode read.payload sections operation).at s₁ e₁ in
            Returns-step (λ (clean, retry) s₂ _ e₂.
              let (clean_status, retry_status) = (axes-judged mode read.payload).at s₂ e₂ in
              Returns-skip _ (λ input. Returns-step (λ (trials, confirmations) s₃ _ e₃.
                let (pairs, count) = (evidence-ArePairs _ read.payload).at s₃ e₃ in
                Returns-skip _ (λ limits. Returns-skip _ (λ _. Returns-skip _ (λ matched.
                  Returns-skip _ (λ lineage. Returns-skip _ (λ source. Returns-skip _ (λ _.
                    Returns-pure _ (record {
                      pairs = rw own pairs;
                      confirmations = rw own count;
                      applicable = refl;
                      clean = clean_status;
                      retry = rw own retry_status;
                    }))))))))))))))))))))

-- A report that is built counts one applicable pair, has the confirmations of its mode (none for
-- the keyed one, two for the unsafe one), a clean and a perturbed trial for the primary pair and
-- for each confirmation in their order, each with the attempts, deliveries, fault and committed
-- growth of its kind and mode, a clean axis with the status PASS, and a retry axis with the status
-- PASS in the keyed mode and FAIL in the unsafe one.
pub build_report-IsEligible :
    (live : Mode → M Seen JsonFields) (unsafe_character : Char → Bool) (read : ReadEvidenceArtifact)
    (seen : Seen) {r : McpReport} {seen' : Seen}
    → build_report live unsafe_character read seen ≡ (value r, seen')
    → IsEligible r
build_report-IsEligible live unsafe_character read seen e =
    (report-IsEligible live unsafe_character read).at seen e
