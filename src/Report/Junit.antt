-- ===== src/Report/Junit.antt =====
-- The JUnit report of src/effectprobe/_mcp_reports.py: the cases, and the tree of XML elements.
-- `tostring` is `ET.indent` and `ET.tostring`.
pub mod Cases
use Prim.Native.Char.{Char}
use effect_probe.Prelude.{
  ℕ, zero, suc, String, Bool, true, false, ◌&&◌, not, List, [], ◌∷◌, ◌++◌, map, any, is_empty,
  length, Option, some, none, format, decimal, if◌then◌else◌,
}
use effect_probe.Exception.{Outcome, M, pure, ◌>>=◌}
use effect_probe.Artifact.Objects.{join}
use effect_probe.Report.{
  ReportVerdict, ReportAxisStatus, ReportAxisName, ReportComponent, ReportDistribution,
  ReportInvariant, ReportAxis, McpReport,
}
use effect_probe.Report.Encode.{verdict_text, status_text}
use effect_probe.Report.Statements.{decimal_ℤ, name_text, verdict_eq}
use effect_probe.Report.Render.{serialized, require_renderable}

mutual
  -- `ET.Element`
  pub data Element : Type 0 where
    element : String → List (String × String) → Option String → Elements → Element

  pub data Elements : Type 0 where
    childless : Elements
    child : Element → Elements → Elements

abbrev elements_of : List Element → Elements
elements_of [] = childless
elements_of (e ∷ es) = child e (elements_of es)

-- A case: an axis and one of its invariants.
abbrev pub JunitCase : Type 0
JunitCase = ReportAxisName × ReportInvariant

abbrev undeclared : JunitCase
undeclared = (
  ReportAxisName.clean_validity,
  record {
    name = "clean_contract_not_declared";
    verdict = ReportVerdict.inconclusive;
    explanation = "clean validity is unverified because no clean assertions were declared";
    missing_evidence = [];
  },
)

-- `axis.status.lower()`
abbrev small_text : ReportVerdict → String
small_text ReportVerdict.pass = "pass"
small_text ReportVerdict.fail = "fail"
small_text ReportVerdict.inconclusive = "inconclusive"
small_text ReportVerdict.error = "error"

abbrev aggregated : ReportAxisName → ReportVerdict → JunitCase
aggregated name v = (
  name,
  record {
    name = format (name_text name ∷ "_axis_" ∷ small_text v ∷ []);
    verdict = v;
    explanation = format (name_text name ∷ " aggregated to " ∷ verdict_text v ∷ []);
    missing_evidence = [];
  },
)

-- The case that is added where no invariant shows the status of its axis.
unfoldable pub extra_cases :
    ReportAxisName → ReportAxisStatus → List ReportInvariant → List JunitCase
extra_cases name ReportAxisStatus.unverified invariants = []
extra_cases name (ReportAxisStatus.judged ReportVerdict.pass) invariants = []
extra_cases name (ReportAxisStatus.judged v) invariants =
    if any (λ (i : ReportInvariant). verdict_eq i.verdict v) invariants
    then []
    else aggregated name v ∷ []

abbrev cases_of : ReportAxisName → ReportAxis → List JunitCase
cases_of name axis =
    map (λ i. (name, i)) axis.invariants ++ extra_cases name axis.status axis.invariants

-- One round of the loop of `_junit_cases`.
unfoldable pub axis_cases : ReportAxisName → ReportAxisStatus → ReportAxis → List JunitCase
axis_cases ReportAxisName.clean_validity ReportAxisStatus.unverified axis =
    if is_empty axis.invariants
    then undeclared ∷ []
    else cases_of ReportAxisName.clean_validity axis
axis_cases name status axis = cases_of name axis

-- `_junit_cases`
unfoldable pub junit_cases : McpReport → List JunitCase
junit_cases r =
    axis_cases ReportAxisName.clean_validity r.clean_validity.status r.clean_validity
    ++ axis_cases ReportAxisName.retry_safety r.retry_safety.status r.retry_safety

-- `sum(item.verdict == verdict for _, item in cases)`
unfoldable pub count_verdict : ReportVerdict → List JunitCase → ℕ
count_verdict v [] = 0
count_verdict v ((name, i) ∷ cases) =
    let rest = count_verdict v cases in if verdict_eq i.verdict v then suc rest else rest

-- `_property`
abbrev property : String → String → Element
property name value = element "property" (("name", name) ∷ ("value", value) ∷ []) none childless

abbrev component_properties : String → List ReportComponent → List Element
component_properties label components =
    map
      (λ (c : ReportComponent).
        property (format ("effectprobe." ∷ label ∷ "." ∷ c.path ∷ ".sha256" ∷ [])) c.sha256)
      components

abbrev distribution_properties : List ReportDistribution → List Element
distribution_properties ds =
    map
      (λ (d : ReportDistribution).
        property (format ("effectprobe.locked_distribution." ∷ d.name ∷ ".version" ∷ [])) d.version)
      ds

-- A property for each text, numbered from an index on.
unfoldable pub numbered_properties : String → ℕ → List String → List Element
numbered_properties label index [] = []
numbered_properties label index (text ∷ rest) =
    property (format ("effectprobe." ∷ label ∷ "." ∷ decimal index ∷ [])) text
    ∷ numbered_properties label (suc index) rest

unfoldable pub suite_properties : McpReport → List Element
suite_properties r =
    let c = r.compatibility in
    (property "effectprobe.clean_validity" (status_text r.clean_validity.status)
      ∷ property "effectprobe.retry_safety" (status_text r.retry_safety.status)
      ∷ property "effectprobe.artifact_sha256" r.source_sha256
      ∷ property "effectprobe.schedule" r.scope.schedule
      ∷ property "effectprobe.observer.surface" r.scope.observer.surface
      ∷ property "effectprobe.observer.provenance" r.scope.observer.provenance
      ∷ property "effectprobe.evidence_schema"
          (format (c.evidence_schema_name ∷ "@" ∷ decimal_ℤ c.evidence_schema_version ∷ []))
      ∷ property "effectprobe.producer"
          (format (c.producer_id ∷ "@" ∷ decimal_ℤ c.producer_version ∷ []))
      ∷ property "effectprobe.dependency_lock_sha256" c.dependency_lock_sha256
      ∷ property "effectprobe.runtime.python_implementation" c.runtime.python_implementation
      ∷ property "effectprobe.runtime.python_version" c.runtime.python_version
      ∷ property "effectprobe.runtime.operating_system" c.runtime.operating_system
      ∷ property "effectprobe.runtime.operating_system_release" c.runtime.operating_system_release
      ∷ property "effectprobe.runtime.architecture" c.runtime.architecture
      ∷ property "effectprobe.runtime.sqlite_version" c.runtime.sqlite_version
      ∷ property "effectprobe.runtime.mcp_protocol_revision" c.runtime.mcp_protocol_revision
      ∷ [])
    ++ (component_properties "subject_component" c.subject_components
        ++ (component_properties "runner_component" c.runner_components
            ++ (distribution_properties c.installed_locked_distributions
                ++ (numbered_properties "limitation" 1 r.limitations
                    ++ numbered_properties "redaction.omitted" 1 r.omitted_categories))))

abbrev skipped_detail : ReportInvariant → String
skipped_detail i =
    if is_empty i.missing_evidence
    then i.explanation
    else format (i.explanation ∷ "; missing evidence: " ∷ join ", " i.missing_evidence ∷ [])

abbrev verdict_element : String → String → String → Elements
verdict_element tag kind message =
    child (element tag (("type", kind) ∷ ("message", message) ∷ []) (some message) childless)
      childless

-- The child that shows the verdict of a case.
unfoldable pub verdict_elements : ReportVerdict → ReportInvariant → Elements
verdict_elements ReportVerdict.fail i =
    verdict_element "failure" "confirmed_invariant_failure" i.explanation
verdict_elements ReportVerdict.error i = verdict_element "error" "evaluation_error" i.explanation
verdict_elements ReportVerdict.inconclusive i =
    verdict_element "skipped" "inconclusive" (skipped_detail i)
verdict_elements ReportVerdict.pass i = childless

unfoldable pub case_element : JunitCase → Element
case_element (name, i) =
    element "testcase"
      (("classname", format ("effectprobe." ∷ name_text name ∷ []))
        ∷ ("name", i.name)
        ∷ ("time", "0")
        ∷ [])
      none (verdict_elements i.verdict i)

-- The tree that `render_junit_report` builds.
unfoldable pub junit_suite : McpReport → Element
junit_suite r =
    let cases = junit_cases r in
    element "testsuite"
      (("name", "effectprobe.controlled_mcp")
        ∷ ("tests", decimal (length cases))
        ∷ ("failures", decimal (count_verdict ReportVerdict.fail cases))
        ∷ ("errors", decimal (count_verdict ReportVerdict.error cases))
        ∷ ("skipped", decimal (count_verdict ReportVerdict.inconclusive cases))
        ∷ ("time", "0")
        ∷ [])
      none
      (elements_of
        (element "properties" [] none (elements_of (suite_properties r)) ∷ map case_element cases))

-- `render_junit_report`
unfoldable pub render_junit_report :
    {S : Type 0} → (Char → Bool) → (Element → Outcome String) → McpReport → M S String
render_junit_report unsafe_character tostring r = do
  payload ← require_renderable unsafe_character r
  serialized "private JUnit report serialization failed" (tostring (junit_suite r))
