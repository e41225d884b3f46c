-- ===== src/Report/Expected.antt =====
-- The outcomes that a reportable artifact has (src/effectprobe/_mcp_reports.py, from
-- `_expected_invariant` to `_expected_pair_results`).
use effect_probe.Prelude.{String, Bool, true, false, [], ◌∷◌}
use effect_probe.Store.{Mode}
use effect_probe.Artifact.{JsonValue, bool, str, list, dict, nil, item}
use effect_probe.Report.Encode.{object_of}

-- `_expected_invariant`
abbrev expected_invariant : String → String → String → Bool → JsonValue
expected_invariant name verdict explanation candidate = dict (
    object_of (
      ("name", str name)
      ∷ ("verdict", str verdict)
      ∷ ("explanation", str explanation)
      ∷ ("missing_evidence", list nil)
      ∷ ("candidate", bool candidate)
      ∷ []))

abbrev pub expected_clean_invariant : JsonValue
expected_clean_invariant =
    expected_invariant "one_mcp_refund_matches_request" "PASS"
      "clean MCP refund committed and returned once" false

-- The verdict and the status that a mode ends with.
abbrev expected_verdict : Mode → String
expected_verdict Mode.keyed = "PASS"
expected_verdict Mode.unsafe = "FAIL"

abbrev expected_explanation : Mode → String
expected_explanation Mode.keyed =
    "MCP retry preserved the clean committed-effect and receipt semantics"
expected_explanation Mode.unsafe =
    "MCP retry produced an additional or inconsistent committed refund; reproduced in two confirmations"

abbrev pub expected_retry_invariant : Mode → JsonValue
expected_retry_invariant mode =
    expected_invariant "no_additional_mcp_refund_after_retry" (expected_verdict mode)
      (expected_explanation mode) false

abbrev pub expected_axis : String → JsonValue → JsonValue
expected_axis status invariant =
    dict (object_of (("status", str status) ∷ ("invariants", list (item invariant nil)) ∷ []))

-- The two parts of `_expected_outcomes`.
abbrev pub expected_clean_axis : JsonValue
expected_clean_axis = expected_axis "PASS" expected_clean_invariant

abbrev pub expected_retry_axis : Mode → JsonValue
expected_retry_axis mode = expected_axis (expected_verdict mode) (expected_retry_invariant mode)

-- The two parts of `_expected_pair_results`. The invariants are those of the axes, whose decoding by
-- the source returns them as they are, but for the candidate of the unsafe mode.
abbrev pub expected_clean_results : JsonValue
expected_clean_results = list (item expected_clean_invariant nil)

abbrev expected_retry_result : Mode → JsonValue
expected_retry_result Mode.keyed = expected_retry_invariant Mode.keyed
expected_retry_result Mode.unsafe =
    expected_invariant "no_additional_mcp_refund_after_retry" "INCONCLUSIVE"
      "MCP retry produced an additional or inconsistent committed refund" true

abbrev pub expected_retry_results : Mode → JsonValue
expected_retry_results mode = list (item (expected_retry_result mode) nil)
