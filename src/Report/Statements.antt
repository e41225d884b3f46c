-- ===== src/Report/Statements.antt =====
-- What a report says of its axes (src/effectprobe/_mcp_reports.py, _axis_statement).
use effect_probe.Prelude.{
  suc, String, Bool, true, false, List, [], ◌∷◌, ◌++◌, find, Option, some, none, format, decimal,
}
use effect_probe.Prelude.Int.{ℤ, pos, negsuc}
use effect_probe.Artifact.Objects.{sorted, join}
use effect_probe.Report.{
  ReportVerdict, ReportAxisStatus, ReportAxisName, ReportInvariant, ReportAxis, McpReport,
}
use effect_probe.Report.Checks.{distinct}

-- `str(n)` of an integer.
abbrev pub decimal_ℤ : ℤ → String
decimal_ℤ (pos n) = decimal n
decimal_ℤ (negsuc n) = format ("-" ∷ decimal (suc n) ∷ [])

abbrev pub name_text : ReportAxisName → String
name_text ReportAxisName.clean_validity = "clean_validity"
name_text ReportAxisName.retry_safety = "retry_safety"

-- `name.replace('_', ' ')`
abbrev spaced : ReportAxisName → String
spaced ReportAxisName.clean_validity = "clean validity"
spaced ReportAxisName.retry_safety = "retry safety"

abbrev pub verdict_eq : ReportVerdict → ReportVerdict → Bool
verdict_eq ReportVerdict.pass ReportVerdict.pass = true
verdict_eq ReportVerdict.fail ReportVerdict.fail = true
verdict_eq ReportVerdict.inconclusive ReportVerdict.inconclusive = true
verdict_eq ReportVerdict.error ReportVerdict.error = true
verdict_eq _ _ = false

-- `next((item for item in axis.invariants if item.verdict == verdict), None)`
abbrev first_with : ReportVerdict → ReportAxis → Option ReportInvariant
first_with v axis = find (λ (i : ReportInvariant). verdict_eq i.verdict v) axis.invariants

abbrev explained : String → Option ReportInvariant → String
explained otherwise none = otherwise
explained otherwise (some i) = i.explanation

abbrev all_missing : List ReportInvariant → List String
all_missing [] = []
all_missing (i ∷ rest) = i.missing_evidence ++ all_missing rest

abbrev detail_of : List String → String
detail_of [] = "the recorded evidence could not justify pass or fail"
detail_of (name ∷ names) = join ", " (name ∷ names)

-- `_axis_statement`, by the name and the status of the axis.
unfoldable pub statement : ReportAxisName → ReportAxisStatus → ReportAxis → McpReport → String
statement ReportAxisName.retry_safety (ReportAxisStatus.judged ReportVerdict.pass) axis r = format (
    "retry_safety=PASS: Every declared retry invariant evaluated PASS for all "
    ∷ decimal r.applicable_pair_count
    ∷ " applicable recorded input and scenario pairs, using evidence declared sufficient for each invariant. This conclusion is limited to the recorded subject, contract, inputs, environment, observer coverage, and failure schedules."
    ∷ [])
statement ReportAxisName.clean_validity ReportAxisStatus.unverified axis r =
    "clean_validity=UNVERIFIED: No clean functional assertions were declared. The retry-safety result does not establish that one ordinary execution performs the intended operation correctly."
statement name (ReportAxisStatus.judged ReportVerdict.fail) axis r = format (
    name_text name
    ∷ "=FAIL: "
    ∷ explained "confirmed invariant violation" (first_with ReportVerdict.fail axis)
    ∷ "."
    ∷ [])
statement name (ReportAxisStatus.judged ReportVerdict.inconclusive) axis r = format (
    name_text name
    ∷ "=INCONCLUSIVE: "
    ∷ detail_of (sorted (distinct (all_missing axis.invariants)))
    ∷ "."
    ∷ [])
statement name (ReportAxisStatus.judged ReportVerdict.error) axis r = format (
    name_text name
    ∷ "=ERROR: "
    ∷ explained "evaluation infrastructure malfunctioned" (first_with ReportVerdict.error axis)
    ∷ "."
    ∷ [])
statement name (ReportAxisStatus.judged ReportVerdict.pass) axis r = format (
    name_text name
    ∷ "=PASS: Every declared "
    ∷ spaced name
    ∷ " assertion evaluated PASS for "
    ∷ decimal r.applicable_pair_count
    ∷ " applicable recorded input and scenario pairs."
    ∷ [])
statement name ReportAxisStatus.unverified axis r = format (name_text name ∷ "=UNVERIFIED." ∷ [])

-- `_axis_statement`
abbrev pub axis_statement : ReportAxisName → ReportAxis → McpReport → String
axis_statement name axis r = statement name axis.status axis r
