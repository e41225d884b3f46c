-- ===== src/Report/Junit/Cases.antt =====
-- The cases of the JUnit report of src/effectprobe/_mcp_reports.py: what the axes show in them, and
-- what the suite says of their number.
use effect_probe.Prelude.{
  ℕ, ◌+◌, ◌<◌, ◌≡◌, ◌≢◌, ◌↔◌, refl, String, Bool, true, false, List, [], ◌∷◌, ◌++◌, map, any,
  length, arith, Bool-cases, ◌⊎◌, str_eq, if◌then◌else◌, suc,
}
use effect_probe.Report.{
  ReportVerdict, ReportAxisStatus, ReportAxisName, ReportInvariant, ReportAxis, McpReport,
}
use effect_probe.Report.Statements.{verdict_eq}
use effect_probe.Report.Junit.{
  Element, Elements, element, childless, child, JunitCase, extra_cases, axis_cases, junit_cases,
  count_verdict, verdict_elements, case_element,
}

abbrev pub has_verdict : ReportVerdict → List ReportInvariant → Bool
has_verdict v invariants = any (λ (i : ReportInvariant). verdict_eq i.verdict v) invariants

-- An axis has a verdict as its status or as that of one of its invariants.
abbrev pub Has : ReportVerdict → ReportAxis → Type 0
Has v axis = (axis.status ≡ ReportAxisStatus.judged v) ⊎ (has_verdict v axis.invariants ≡ true)

verdict_eq_refl : (v : ReportVerdict) → verdict_eq v v ≡ true
verdict_eq_refl v = ground arith

verdict_eq_sound : (v w : ReportVerdict) → verdict_eq v w ≡ true → v ≡ w
verdict_eq_sound v w e = ground arith

count-append :
    (v : ReportVerdict) (xs ys : List JunitCase)
    → count_verdict v (xs ++ ys) ≡ count_verdict v xs + count_verdict v ys
unfolding count_verdict
count-append v [] ys = omega arith
count-append v ((n, i) ∷ xs) ys = ground (arith, count-append v xs ys)

count-map :
    (v : ReportVerdict) (name : ReportAxisName) (is : List ReportInvariant)
    → (0 < count_verdict v (map (λ i. (name, i)) is)) ↔ (has_verdict v is ≡ true)
unfolding count_verdict
count-map v name [] = ground arith
count-map v name (i ∷ is) = ground (arith, count-map v name is)

-- A status other than a pass that no invariant shows has a case of its own.
extra_cases-shows :
    (name : ReportAxisName) (status : ReportAxisStatus) (is : List ReportInvariant)
    (v : ReportVerdict)
    → v ≢ ReportVerdict.pass
    → (0 < count_verdict v (extra_cases name status is))
      ↔ ((status ≡ ReportAxisStatus.judged v) × (has_verdict v is ≡ false))
unfolding count_verdict extra_cases
extra_cases-shows name ReportAxisStatus.unverified is v not_pass = ground arith
extra_cases-shows name (ReportAxisStatus.judged ReportVerdict.pass) is v not_pass = ground arith
extra_cases-shows name (ReportAxisStatus.judged w) is v not_pass = ground arith

Has-decided :
    (v : ReportVerdict) (axis : ReportAxis)
    → Has v axis
    → (has_verdict v axis.invariants ≡ true)
      ⊎ ((axis.status ≡ ReportAxisStatus.judged v) × (has_verdict v axis.invariants ≡ false))
Has-decided v axis h = ground (arith, Bool-cases (has_verdict v axis.invariants))

-- The cases that an axis has for its invariants and its status.
abbrev own_cases : ReportAxisName → ReportAxis → List JunitCase
own_cases name axis =
    map (λ i. (name, i)) axis.invariants ++ extra_cases name axis.status axis.invariants

own_cases-Has :
    (name : ReportAxisName) (axis : ReportAxis) (v : ReportVerdict)
    → v ≢ ReportVerdict.pass
    → (0 < count_verdict v (own_cases name axis)) ↔ Has v axis
own_cases-Has name axis v not_pass =
    let sum =
      count-append v (map (λ i. (name, i)) axis.invariants)
        (extra_cases name axis.status axis.invariants) in
    let of_map = count-map v name axis.invariants in
    let extra = extra_cases-shows name axis.status axis.invariants v not_pass in
    ground (arith, sum, of_map, extra, Has-decided v axis)

-- The clean axis has no status and no invariant.
abbrev pub Undeclared : ReportAxis → Type 0
Undeclared axis = (axis.status ≡ ReportAxisStatus.unverified) × (axis.invariants ≡ [])

axis_cases-retry :
    (axis : ReportAxis)
    → axis_cases ReportAxisName.retry_safety axis.status axis
      ≡ own_cases ReportAxisName.retry_safety axis
unfolding axis_cases
axis_cases-retry axis = refl

axis_cases-clean :
    (axis : ReportAxis) (v : ReportVerdict)
    → v ≢ ReportVerdict.pass
    → (0 < count_verdict v (axis_cases ReportAxisName.clean_validity axis.status axis))
      ↔ (Has v axis ⊎ ((v ≡ ReportVerdict.inconclusive) × Undeclared axis))
unfolding axis_cases count_verdict
axis_cases-clean axis v not_pass =
    ground (arith, own_cases-Has ReportAxisName.clean_validity axis v not_pass)

-- For every verdict but PASS, the cases of the JUnit report contain that verdict exactly when it
-- is the status of an axis or the verdict of an invariant of an axis, or it is INCONCLUSIVE and
-- the clean axis is unverified and has no invariants.
pub junit_cases-Has :
    (r : McpReport) (v : ReportVerdict)
    → v ≢ ReportVerdict.pass
    → (0 < count_verdict v (junit_cases r)) ↔ (
        Has v r.clean_validity
        ⊎ (Has v r.retry_safety ⊎ ((v ≡ ReportVerdict.inconclusive) × Undeclared r.clean_validity)))
unfolding junit_cases
junit_cases-Has r v not_pass =
    let clean = axis_cases-clean r.clean_validity v not_pass in
    let retry = own_cases-Has ReportAxisName.retry_safety r.retry_safety v not_pass in
    let sum =
      count-append v
        (axis_cases ReportAxisName.clean_validity r.clean_validity.status r.clean_validity)
        (axis_cases ReportAxisName.retry_safety r.retry_safety.status r.retry_safety) in
    ground (arith, clean, retry, sum, axis_cases-retry r.retry_safety)

-- The tag of the element that an element holds, if it is the given one.
abbrev tagged : String → Elements → Bool
tagged tag childless = false
tagged tag (child (element t attributes text below) rest) = str_eq t tag

-- How many elements of a list hold an element with a tag first.
abbrev pub holding : String → List Element → ℕ
holding tag [] = 0
holding tag (element t attributes text below ∷ es) =
    let rest = holding tag es in if tagged tag below then suc rest else rest

-- For every list of cases, the numbers of test case elements that hold a failure, an error and a
-- skipped element are the counted numbers of FAIL, ERROR and INCONCLUSIVE verdicts, and the counts
-- of the four verdicts add up to the number of cases.
pub case_element-accounts :
    (cases : List JunitCase)
    → (holding "failure" (map case_element cases) ≡ count_verdict ReportVerdict.fail cases)
      × (holding "error" (map case_element cases) ≡ count_verdict ReportVerdict.error cases)
      × (holding "skipped" (map case_element cases)
          ≡ count_verdict ReportVerdict.inconclusive cases)
      × (length cases
          ≡ count_verdict ReportVerdict.pass cases
            + count_verdict ReportVerdict.fail cases
            + count_verdict ReportVerdict.error cases
            + count_verdict ReportVerdict.inconclusive cases)
unfolding count_verdict case_element verdict_elements
case_element-accounts [] = (refl, refl, refl, omega arith)
case_element-accounts ((name, i) ∷ cases) =
    let (fails, errors, skips, sum) = case_element-accounts cases in
    (ground arith, ground arith, ground arith, ground arith)
