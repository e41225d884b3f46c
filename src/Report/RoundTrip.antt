-- ===== src/Report/RoundTrip.antt =====
-- The payloads and the decoders of src/effectprobe/_mcp_reports.py: what a report shows of an
-- artifact decodes to the same values.
use effect_probe.Prelude.{
  ℕ, suc, String, ◌≡◌, ◌≢◌, refl, Bool, true, false, not, List, [], ◌∷◌, All, map, is_empty, arith,
}
use effect_probe.Exception.{value, M, ◌>>=◌}
use effect_probe.Exception.Bind.{bind_passes}
use effect_probe.Artifact.{
  JsonValue, str, list, require_object, require_list, require_string, require_bool,
  require_nullable_string,
}
use effect_probe.Artifact.Envelope.{get, subscript}
use effect_probe.Artifact.Objects.{member}
use effect_probe.Report.{
  ReportVerdict, ReportAxisStatus, ReportComponent, ReportRequirement, ReportNamedContract,
  ReportObserver,
}
use effect_probe.Report.Checks.{
  expect, string_at, bool_at, nullable_string_at, each, all_distinct, is_sha256, is_absolute,
  path_parts, at_index,
}
use effect_probe.Report.Decoders.{
  decode_sha256, strings, component, components, requirement, requirements, named_contract,
  named_contracts, observer, decode_verdict, decode_axis_status,
}
use effect_probe.Report.Encode.{
  items_of, strings_of, requirement_payload, requirements_payload, contract_payload,
  named_contract_payload, observer_payload, component_payload, status_text,
}

module _ {S A : Type 0} where
  -- A decoder that returns each of the values it is given the encoding of returns their list.
  each-items_of :
      (P : A → Type 0) (encode : A → JsonValue) (decode : JsonValue → String → M S A)
      → ((a : A) → P a → (path : String) (s : S) → decode (encode a) path s ≡ (value a, s))
      → (xs : List A) → All P xs
      → (path : String) (index : ℕ) (s : S)
      → each decode (items_of encode xs) path index s ≡ (value xs, s)
  unfolding each items_of
  each-items_of P encode decode trip [] hs path index s = refl
  each-items_of P encode decode trip (x ∷ xs) (h, hs) path index s =
      bind_passes _ _ (trip x h (at_index path index) s)
        (bind_passes _ _ (each-items_of P encode decode trip xs hs path (suc index) s) refl)

All-unit : {A : Type 0} (xs : List A) → All (λ _. Unit {0}) xs
All-unit [] = tt
All-unit (x ∷ xs) = (tt, All-unit xs)

-- Named contracts that each have a requirement.
abbrev pub Filled : List ReportNamedContract → Type 0
Filled cs = All (λ (c : ReportNamedContract). c.requirements ≢ []) cs

-- A component as the decoder accepts it.
abbrev pub IsComponent : ReportComponent → Type 0
IsComponent c =
    (is_absolute c.path ≡ false)
    × (member ".." (path_parts c.path) ≡ false)
    × (is_sha256 c.sha256 ≡ true)

module _ {S : Type 0} where
  expect_passes :
      (condition : Bool) (message : String) (s : S)
      → condition ≡ true
      → expect condition message s ≡ (value tt, s)
  unfolding expect
  expect_passes condition message s e = ground arith

  filled_passes :
      {A : Type 0} (xs : List A) (message : String) (s : S)
      → xs ≢ []
      → expect (not (is_empty xs)) message s ≡ (value tt, s)
  filled_passes xs message s filled = expect_passes _ message s (ground arith)

  require_string-str :
      (t : String)
      → Unit {0}
      → (path : String) (s : S) → require_string (str t) path s ≡ (value t, s)
  unfolding require_string
  require_string-str t _ path s = refl

  strings-strings_of :
      (names : List String) (path : String) (s : S)
      → strings (strings_of names) path s ≡ (value names, s)
  unfolding strings require_list
  strings-strings_of names path s = bind_passes _ _ refl (
      each-items_of (λ _. Unit) str require_string require_string-str names (All-unit names) path 0
        s)

  requirement-requirement_payload :
      (r : ReportRequirement)
      → Unit {0}
      → (path : String) (s : S) → requirement (requirement_payload r) path s ≡ (value r, s)
  unfolding requirement require_object string_at nullable_string_at subscript get require_string
      require_nullable_string ◌>>=◌
  requirement-requirement_payload r _ path s = ground arith

  requirements-requirements_payload :
      (rs : List ReportRequirement) (path : String) (s : S)
      → rs ≢ []
      → requirements (requirements_payload rs) path s ≡ (value rs, s)
  unfolding requirements require_list
  requirements-requirements_payload rs path s filled = bind_passes _ _ refl (
      bind_passes _ _
        (each-items_of (λ _. Unit) requirement_payload requirement requirement-requirement_payload
          rs (All-unit rs) path 0 s)
        (bind_passes _ _ (filled_passes rs _ s filled) refl))

  named_contract-contract_payload :
      (c : ReportNamedContract)
      → c.requirements ≢ []
      → (path : String) (s : S) → named_contract (contract_payload c) path s ≡ (value c, s)
  unfolding named_contract require_object string_at subscript get require_string ◌>>=◌
  named_contract-contract_payload c filled path s =
      rw (requirements-requirements_payload c.requirements _ s filled) refl

  -- Named contracts, of which there is at least one and each has at least one requirement, are
  -- decoded from their payload as they were, and the state is left as it is.
  pub named_contracts-named_contract_payload :
      (cs : List ReportNamedContract) (path : String) (s : S)
      → cs ≢ []
      → Filled cs
      → named_contracts (named_contract_payload cs) path s ≡ (value cs, s)
  unfolding named_contracts require_list
  named_contracts-named_contract_payload cs path s some_contract filled = bind_passes _ _ refl (
      bind_passes _ _
        (each-items_of _ contract_payload named_contract named_contract-contract_payload cs filled
          path 0 s)
        (bind_passes _ _ (filled_passes cs _ s some_contract) refl))

  -- Every observer is decoded from its payload as it was, and the state is left as it is.
  observer-observer_payload :
      (o : ReportObserver) (s : S) → observer (observer_payload o) s ≡ (value o, s)
  unfolding observer require_object string_at bool_at subscript get require_string require_bool
      ◌>>=◌
  observer-observer_payload o s =
      rw (strings-strings_of o.limitations "artifact.scope.observer_coverage.limitations" s) refl

  decode_sha256-str :
      (t path : String) (s : S) → is_sha256 t ≡ true → decode_sha256 (str t) path s ≡ (value t, s)
  unfolding decode_sha256 require_string
  decode_sha256-str t path s h = bind_passes _ _ refl (bind_passes _ _ (expect_passes _ _ s h) refl)

  component-component_payload :
      (c : ReportComponent)
      → IsComponent c
      → (path : String) (s : S) → component (component_payload c) path s ≡ (value c, s)
  unfolding component require_object string_at subscript get require_string ◌>>=◌ expect
  component-component_payload c (relative, inside, digest) path s =
      rw (relative, inside, decode_sha256-str c.sha256 _ s digest) refl

  -- Components, of which there is at least one and whose paths are relative, do not leave the
  -- repository and differ from each other, and whose digests are SHA-256 digests, are decoded from
  -- their payloads as they were, and the state is left as it is.
  components-component_payload :
      (cs : List ReportComponent) (path : String) (s : S)
      → cs ≢ []
      → All IsComponent cs
      → all_distinct (map (λ (c : ReportComponent). c.path) cs) ≡ true
      → components (list (items_of component_payload cs)) path s ≡ (value cs, s)
  unfolding components require_list
  components-component_payload cs path s some_component valid apart = bind_passes _ _ refl (
      bind_passes _ _
        (each-items_of _ component_payload component component-component_payload cs valid path 0 s)
        (bind_passes _ _ (filled_passes cs _ s some_component)
          (bind_passes _ _ (expect_passes _ _ s apart) refl)))

  pub decode_axis_status-status_text :
      (status : ReportAxisStatus) (path : String) (s : S)
      → decode_axis_status (str (status_text status)) path s ≡ (value status, s)
  unfolding decode_axis_status decode_verdict require_string ◌>>=◌
  decode_axis_status-status_text ReportAxisStatus.unverified path s = refl
  decode_axis_status-status_text (ReportAxisStatus.judged ReportVerdict.pass) path s = refl
  decode_axis_status-status_text (ReportAxisStatus.judged ReportVerdict.fail) path s = refl
  decode_axis_status-status_text (ReportAxisStatus.judged ReportVerdict.inconclusive) path s = refl
  decode_axis_status-status_text (ReportAxisStatus.judged ReportVerdict.error) path s = refl
