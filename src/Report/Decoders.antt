-- ===== src/Report/Decoders.antt =====
-- The decoders of src/effectprobe/_mcp_reports.py, from `_sha256` to `_axis`.
use Prim.Native.String.{compare}
use Prim.Native.Nat.{Ordering}
use effect_probe.Prelude.{
  String, Bool, true, false, ◌&&◌, not, List, [], ◌∷◌, map, is_empty, format, str_eq, if◌then◌else◌,
}
use effect_probe.Exception.{M, pure, ◌>>=◌, ◌>>◌}
use effect_probe.Artifact.{
  JsonValue, str, items_length, require_object, require_list, require_string,
}
use effect_probe.Artifact.Envelope.{subscript}
use effect_probe.Artifact.Objects.{member}
use effect_probe.Report.{
  ReportVerdict, ReportAxisStatus, ReportComponent, ReportDistribution, ReportRequirement,
  ReportNamedContract, ReportContract, ReportObserver, ReportInvariant, ReportAxis,
}
use effect_probe.Report.Checks.{
  at_key, reject, expect, string_at, int_at, bool_at, nullable_string_at, object_at, list_at, each,
  all_distinct, is_sha256, is_absolute, path_parts,
}

insert_by_name : ReportDistribution → List ReportDistribution → List ReportDistribution
insert_by_name d [] = d ∷ []
insert_by_name d (first ∷ rest) =
    let below = insert_by_name d rest in
    elim (compare d.name first.name) [ Ordering.gt ↦ first ∷ below | _ ↦ d ∷ first ∷ rest ]

-- `sorted(items, key=lambda item: item.name)`, which keeps the order of equal names.
unfoldable pub sorted_by_name : List ReportDistribution → List ReportDistribution
unfolding insert_by_name
sorted_by_name [] = []
sorted_by_name (d ∷ ds) = insert_by_name d (sorted_by_name ds)

-- `==` on tuples of distributions.
unfoldable pub distributions_eq : List ReportDistribution → List ReportDistribution → Bool
distributions_eq [] [] = true
distributions_eq (d ∷ ds) (e ∷ es) =
    str_eq d.name e.name && str_eq d.version e.version && distributions_eq ds es
distributions_eq _ _ = false

module _ {S : Type 0} where
  -- `_sha256`
  unfoldable pub decode_sha256 : JsonValue → String → M S String
  decode_sha256 v path = do
    result ← require_string v path
    expect (is_sha256 result) (format (path ∷ " is not a SHA-256 digest" ∷ []))
    pure result

  -- `_strings`
  unfoldable pub strings : JsonValue → String → M S (List String)
  strings v path = do items ← require_list v path; each require_string items path 0

  unfoldable pub component : JsonValue → String → M S ReportComponent
  component v item_path = do
    object ← require_object v item_path
    path ← string_at object "path" (at_key item_path "path")
    expect (not (is_absolute path)) (format (item_path ∷ ".path must be relative" ∷ []))
    expect (not (member ".." (path_parts path)))
        (format (item_path ∷ ".path escapes the repository" ∷ []))
    digest ← subscript object "sha256"
    sha256 ← decode_sha256 digest (at_key item_path "sha256")
    pure (record { path = path; sha256 = sha256 })

  -- `_components`
  unfoldable pub components : JsonValue → String → M S (List ReportComponent)
  components v path = do
    items ← require_list v path
    result ← each component items path 0
    expect (not (is_empty result)) (format (path ∷ " must not be empty" ∷ []))
    expect (all_distinct (map (λ (c : ReportComponent). c.path) result))
        (format (path ∷ " contains duplicates" ∷ []))
    pure result

  unfoldable pub distribution : JsonValue → String → M S ReportDistribution
  distribution v item_path = do
    object ← require_object v item_path
    name ← string_at object "name" (at_key item_path "name")
    version ← string_at object "version" (at_key item_path "version")
    pure (record { name = name; version = version })

  -- `_distributions`
  unfoldable pub distributions : JsonValue → String → M S (List ReportDistribution)
  distributions v path = do
    items ← require_list v path
    result ← each distribution items path 0
    expect (not (is_empty result)) (format (path ∷ " must not be empty" ∷ []))
    expect (distributions_eq (sorted_by_name result) result) (format (path ∷ " is unsorted" ∷ []))
    expect (all_distinct (map (λ (d : ReportDistribution). d.name) result))
        (format (path ∷ " contains duplicates" ∷ []))
    pure result

  unfoldable pub requirement : JsonValue → String → M S ReportRequirement
  requirement v item_path = do
    object ← require_object v item_path
    kind ← string_at object "kind" (at_key item_path "kind")
    surface ← nullable_string_at object "surface" (at_key item_path "surface")
    pure (record { kind = kind; surface = surface })

  -- `_requirements`
  unfoldable pub requirements : JsonValue → String → M S (List ReportRequirement)
  requirements v path = do
    items ← require_list v path
    result ← each requirement items path 0
    expect (not (is_empty result)) (format (path ∷ " must not be empty" ∷ []))
    pure result

  unfoldable pub named_contract : JsonValue → String → M S ReportNamedContract
  named_contract v item_path = do
    object ← require_object v item_path
    name ← string_at object "name" (at_key item_path "name")
    required ← subscript object "requirements"
    needs ← requirements required (at_key item_path "requirements")
    pure (record { name = name; requirements = needs })

  -- `_named_contracts`
  unfoldable pub named_contracts : JsonValue → String → M S (List ReportNamedContract)
  named_contracts v path = do
    items ← require_list v path
    result ← each named_contract items path 0
    expect (not (is_empty result)) (format (path ∷ " must not be empty" ∷ []))
    pure result

  -- `_contract`
  unfoldable pub contract : JsonValue → M S ReportContract
  contract v = do
    contracts ← require_object v "artifact.contracts"
    fixture ← object_at contracts "fixture" "artifact.contracts.fixture"
    seed ← object_at fixture "seed" "artifact.contracts.fixture.seed"
    canonicalization ← object_at contracts "canonicalization" "artifact.contracts.canonicalization"
    tool ← object_at contracts "mcp_tool" "artifact.contracts.mcp_tool"
    fixture_id ← string_at fixture "id" "artifact.contracts.fixture.id"
    fixture_version ← int_at fixture "version" "artifact.contracts.fixture.version"
    payment_id ← string_at seed "payment_id" "artifact.contracts.fixture.seed.payment_id"
    payment_minor_units ←
        int_at seed "payment_minor_units" "artifact.contracts.fixture.seed.payment_minor_units"
    refunded_minor_units ←
        int_at seed "refunded_minor_units" "artifact.contracts.fixture.seed.refunded_minor_units"
    key_mapping_count ←
        int_at seed "key_mapping_count" "artifact.contracts.fixture.seed.key_mapping_count"
    history ← list_at seed "history" "artifact.contracts.fixture.seed.history"
    clean_value ← subscript contracts "clean_assertions"
    clean_assertions ← named_contracts clean_value "artifact.contracts.clean_assertions"
    retry_value ← subscript contracts "retry_invariants"
    retry_invariants ← named_contracts retry_value "artifact.contracts.retry_invariants"
    state ← string_at canonicalization "state" "artifact.contracts.canonicalization.state"
    of_history ← string_at canonicalization "history" "artifact.contracts.canonicalization.history"
    tool_name ← string_at tool "name" "artifact.contracts.mcp_tool.name"
    pure (record {
      fixture_id = fixture_id;
      fixture_version = fixture_version;
      fixture_seed_payment_id = payment_id;
      fixture_seed_payment_minor_units = payment_minor_units;
      fixture_seed_refunded_minor_units = refunded_minor_units;
      fixture_seed_key_mapping_count = key_mapping_count;
      fixture_seed_history_count = items_length history;
      clean_assertions = clean_assertions;
      retry_invariants = retry_invariants;
      state_canonicalization = state;
      history_canonicalization = of_history;
      mcp_tool_name = tool_name;
    })

  -- `_observer`
  unfoldable pub observer : JsonValue → M S ReportObserver
  observer v = do
    object ← require_object v "artifact.scope.observer_coverage"
    surface ← string_at object "surface" "artifact.scope.observer_coverage.surface"
    state ← bool_at object "state" "artifact.scope.observer_coverage.state"
    history ← bool_at object "history" "artifact.scope.observer_coverage.history"
    complete_history ←
        bool_at object "complete_history" "artifact.scope.observer_coverage.complete_history"
    observation_interval ←
        string_at object "observation_interval"
          "artifact.scope.observer_coverage.observation_interval"
    provenance ← string_at object "provenance" "artifact.scope.observer_coverage.provenance"
    limits ← subscript object "limitations"
    limitations ← strings limits "artifact.scope.observer_coverage.limitations"
    pure (record {
      surface = surface;
      state = state;
      history = history;
      complete_history = complete_history;
      observation_interval = observation_interval;
      provenance = provenance;
      limitations = limitations;
    })

  -- `_verdict`
  unfoldable pub decode_verdict : JsonValue → String → M S ReportVerdict
  decode_verdict v path = do
    result ← require_string v path
    if str_eq result "PASS"
        then pure ReportVerdict.pass
        else if str_eq result "FAIL"
        then pure ReportVerdict.fail
        else if str_eq result "INCONCLUSIVE"
        then pure ReportVerdict.inconclusive
        else if str_eq result "ERROR"
        then pure ReportVerdict.error
        else reject (format (path ∷ " is unsupported" ∷ []))

  -- `_axis_status`
  unfoldable pub decode_axis_status : JsonValue → String → M S ReportAxisStatus
  decode_axis_status v path = do
    result ← require_string v path
    if str_eq result "UNVERIFIED"
        then pure ReportAxisStatus.unverified
        else (do verdict ← decode_verdict (str result) path; pure (ReportAxisStatus.judged verdict))

  -- What `_invariant` does with `final=True`, the one way in which it is called.
  unfoldable pub decode_invariant : JsonValue → String → M S ReportInvariant
  decode_invariant v path = do
    object ← require_object v path
    candidate ← bool_at object "candidate" (at_key path "candidate")
    expect (not candidate) (format (path ∷ " is unresolved" ∷ []))
    name ← string_at object "name" (at_key path "name")
    verdict_value ← subscript object "verdict"
    verdict ← decode_verdict verdict_value (at_key path "verdict")
    explanation ← string_at object "explanation" (at_key path "explanation")
    missing ← subscript object "missing_evidence"
    missing_evidence ← strings missing (at_key path "missing_evidence")
    pure (record {
      name = name;
      verdict = verdict;
      explanation = explanation;
      missing_evidence = missing_evidence;
    })

  -- `_axis`
  unfoldable pub decode_axis : JsonValue → String → M S ReportAxis
  decode_axis v path = do
    object ← require_object v path
    status_value ← subscript object "status"
    status ← decode_axis_status status_value (at_key path "status")
    items ← list_at object "invariants" (at_key path "invariants")
    invariants ← each decode_invariant items (at_key path "invariants") 0
    pure (record { status = status; invariants = invariants })
