-- ===== src/Report/Build/Separate.antt =====
-- The identities of all pairs of an artifact (src/effectprobe/_mcp_reports.py, _build_report).
use effect_probe.Prelude.{ℕ, suc}
use effect_probe.Exception.Keeps.{Keeps, Keeps-pure, Keeps-bind}
use effect_probe.Artifact.{JsonItems, nil, item, JsonFields}
use effect_probe.Report.Checks.Kept.{subscript-Keeps, expect-Keeps, object_at-Keeps, list_at-Keeps}
use effect_probe.Report.Seen.{PairScope, Seen}
use effect_probe.Report.Pairs.Marks.{IsSeparate, nothing_IsSeparate}
use effect_probe.Report.Pairs.Separate.{validate_pair-IsSeparate}
use effect_probe.Report.Build.{validate_confirmations, decode_evidence}

confirmations-Keeps :
    (scope : PairScope) (items : JsonItems) (index : ℕ)
    → Keeps IsSeparate (validate_confirmations scope items index)
unfolding validate_confirmations
confirmations-Keeps scope nil index = Keeps-pure _
confirmations-Keeps scope (item v rest) index =
    Keeps-bind (record { at = validate_pair-IsSeparate scope _ v })
      (λ trials. Keeps-bind (confirmations-Keeps scope rest (suc index)) (λ more. Keeps-pure _))

evidence-Keeps :
    (scope : PairScope) (payload : JsonFields) → Keeps IsSeparate (decode_evidence scope payload)
unfolding decode_evidence
evidence-Keeps scope payload = Keeps-bind (object_at-Keeps IsSeparate payload _ _) (λ evidence.
    Keeps-bind (list_at-Keeps IsSeparate evidence _ _) (λ confirmations.
      Keeps-bind (expect-Keeps IsSeparate _ _) (λ _.
        Keeps-bind (record { at = λ s h. nothing_IsSeparate })
          (λ _. Keeps-bind (subscript-Keeps IsSeparate evidence _) (λ primary.
            Keeps-bind (record { at = validate_pair-IsSeparate scope "primary" primary })
              (λ trials. Keeps-bind (confirmations-Keeps scope confirmations 1) (λ more.
                Keeps-bind (record { at = λ s h. h })
                  (λ seen. Keeps-bind (expect-Keeps IsSeparate _ _) (λ _. Keeps-pure _)))))))))

-- The checks of the evidence of an artifact, whether they return or raise, preserve that no text
-- has been seen twice among the trial, delivery and attempt ids of the pairs, neither as two of a
-- kind nor as two kinds.
pub decode_evidence-IsSeparate :
    (scope : PairScope) (payload : JsonFields) (seen : Seen)
    → IsSeparate seen
    → IsSeparate (decode_evidence scope payload seen).1
decode_evidence-IsSeparate scope payload seen h = (evidence-Keeps scope payload).at seen h
