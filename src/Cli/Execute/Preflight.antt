-- ===== src/Cli/Execute/Preflight.antt =====
-- What a run of the command line has checked before it touches anything, and what it does then
-- (src/effectprobe/_cli.py, _preflight_destination, _preflight_report_output and _execute).
use effect_probe.Prelude.{
  ◌≡◌, ◌≢◌, ◌↔◌, ◌⊎◌, inl, inr, refl, sym, ap, ◌∙◌, arith, String, Bool, true, false, [], ◌∷◌,
  Bool-cases, List, length, not, ◌==◌, if◌then◌else◌, str_eq, str_eq_iff,
}
use effect_probe.Exception.{Exc, Outcome, value, raised, M, pure, raise, ◌>>=◌, type_name}
use effect_probe.Exception.Bind.{bind-value, value_eq, bind_passes, raised-ne-value}
use effect_probe.Exception.Catch.{catch, handled}
use effect_probe.Report.Checks.{distinct}
use effect_probe.Cli.{
  Host, require_artifact_path, require_absent, preflight_destination, path_keys, require_distinct,
  absent, is_os_error, or_output_failure,
}

module _ {W A : Type 0} (caught : Exc → Bool) (x : Exc) (body : M W A) where
  -- A `try` whose `except` clause raises returns what its body returned.
  pub catch-value :
      (w : W) {a : A} {w' : W}
      → catch caught (λ e. raise x) body w ≡ (value a, w')
      → body w ≡ (value a, w')
  unfolding catch
  catch-value w e = go (body w).0 (body w).1 e
    where
      go :
          (o : Outcome A) (s : W) {a : A} {w' : W}
          → handled caught (λ e. raise x) o s ≡ (value a, w')
          → Path (Outcome A × W) (o, s) (value a, w')
      go (value b) s e = e
      go (raised y) s e = elim (Bool-cases (caught y)) [
        | inl taken ↦ absurd (raised-ne-value (rw taken at e))
        | inr left ↦ absurd (raised-ne-value (rw left at e))
      ]

  pub catch_passes :
      (w : W) {a : A} {w' : W}
      → body w ≡ (value a, w')
      → catch caught (λ e. raise x) body w ≡ (value a, w')
  unfolding catch
  catch_passes w e = ap (λ (p : Outcome A × W). handled caught (λ e. raise x) p.0 p.1) e

module _ {W : Type 0} (host : Host W) where
  -- A path that can be created: it is not `-`, nothing is there, and its parent is a directory.
  pub record IsFree (path : String) (w w' : W) : Type 0 where
    pub cause : Exc
    pub inspected : W
    pub named : path ≢ "-"
    pub missing : host.lstat path w ≡ (raised cause, inspected)
    pub not_found : type_name cause ≡ "FileNotFoundError"
    pub directory : host.lstat (host.parent path) inspected ≡ (value true, w')

  -- Two paths with different absolute paths.
  pub record AreApart (path other : String) (w w' : W) : Type 0 where
    pub key : String
    pub other_key : String
    pub between : W
    pub first : host.abspath path w ≡ (value key, between)
    pub second : host.abspath other between ≡ (value other_key, w')
    pub different : key ≢ other_key

  -- A destination of the report that does not meet the artifact: the standard output, or a free
  -- path apart from it.
  abbrev pub IsClear : String → String → W → W → Type 0
  IsClear destination artifact w w' =
      ((destination ≡ "-") × (w ≡ w'))
      ⊎ ((destination ≢ "-")
          × ((w₁ : W) × AreApart destination artifact w w₁ × IsFree destination w₁ w'))

  absent-if :
      (missing os : Bool) (x y : Exc) (w w' : W)
      → Path
          (Outcome Unit × W)
          (if missing then (value tt, w) else if os then (raised x, w) else (raised y, w))
          (value tt, w')
      → (missing ≡ true) × (w ≡ w')
  absent-if true os x y w w' e = (refl, ap (λ (p : Outcome Unit × W). p.1) e)
  absent-if false true x y w w' e = absurd (raised-ne-value e)
  absent-if false false x y w w' e = absurd (raised-ne-value e)

  absent-value :
      (r : Outcome Bool × W) (w' : W)
      → absent host r ≡ (value tt, w')
      → (cause : Exc) × (r ≡ (raised cause, w')) × (type_name cause ≡ "FileNotFoundError")
  absent-value (value status, w) w' e = absurd (raised-ne-value e)
  absent-value (raised cause, w) w' e =
      let name = type_name cause in
      let (missing, same) =
        absent-if (str_eq name "FileNotFoundError") (is_os_error cause) _ cause w w' e in
      (cause, ap (λ s. (raised cause, s)) same, (str_eq_iff name "FileNotFoundError").0 missing)

  require_absent_iff :
      (path : String) (w w' : W)
      → (require_absent host path w ≡ (value tt, w')) ↔ (
          (cause : Exc) × (host.lstat path w ≡ (raised cause, w'))
          × (type_name cause ≡ "FileNotFoundError"))
  unfolding require_absent
  require_absent_iff path w w' = (
    absent-value (host.lstat path w) w',
    λ (cause, missing, named).
        let there = (str_eq_iff (type_name cause) "FileNotFoundError").1 named in
        rw (missing, there) refl,
  )

  require_artifact_path_iff :
      (path : String) (w w' : W)
      → (require_artifact_path path w ≡ (value tt, w')) ↔ ((path ≢ "-") × (w ≡ w'))
  unfolding require_artifact_path
  require_artifact_path_iff path w w' = elim (Bool-cases (str_eq path "-")) [
    | inl dash ↦ (
      λ e. absurd (raised-ne-value (rw dash at e)),
      λ p. absurd (p.0 ((str_eq_iff path "-").0 dash)),
    )
    | inr other ↦ (
      λ e. (
        λ dash. cc ((str_eq_iff path "-").1 dash, other),
        ap (λ (p : Outcome Unit × W). p.1) (rw other at e),
      ),
      λ p. rw other (ap (λ s. (value tt, s)) p.1),
    )
  ]

  pub preflight_destination_iff :
      (path : String) (w w' : W)
      → (preflight_destination host path w ≡ (value tt, w')) ↔ IsFree path w w'
  unfolding preflight_destination require_artifact_path
  preflight_destination_iff path w w' = (
    λ e.
        let (_, s₁, e₁, rest) = bind-value (require_artifact_path path) _ w e in
        let (named, same) = (require_artifact_path_iff path w s₁).0 e₁ in
        let (_, s₂, e₂, rest') = bind-value (require_absent host path) _ s₁ rest in
        let (cause, missing, not_found) = (require_absent_iff path s₁ s₂).0 e₂ in
        let (is_directory, s₃, e₃, ended) =
          bind-value (or_output_failure (host.lstat (host.parent path))) _ s₂ rest' in
        let looked = catch-value is_os_error _ (host.lstat (host.parent path)) s₂ e₃ in
        elim (Bool-cases is_directory) [
          | inr file ↦ absurd (raised-ne-value (rw file at ended))
          | inl folder ↦
              let done = ap (λ (p : Outcome Unit × W). p.1) (rw folder at ended) in
              record {
                cause = cause;
                inspected = s₂;
                named = named;
                missing = rw same missing;
                not_found = not_found;
                directory =
                    looked ∙ ap (λ b. (value b, s₃)) folder ∙ ap (λ s. (value true, s)) done;
              }
        ],
    λ free. bind_passes _ _ ((require_artifact_path_iff path w w).1 (free.named, refl)) (
        bind_passes _ _
          ((require_absent_iff path w free.inspected).1 (free.cause, free.missing, free.not_found))
          (bind_passes _ _ (catch_passes is_os_error _ _ free.inspected free.directory) refl)),
  )

  length-distinct : (a b : String) → (length (distinct (a ∷ b ∷ [])) == 2) ≡ not (str_eq a b)
  unfolding distinct
  length-distinct a b = elim (Bool-cases (str_eq a b)) [
    | inl same ↦ rw same refl
    | inr other ↦ rw other refl
  ]

  length-if :
      (b : Bool) (x : Exc) (w w' : W)
      → (if not (not b) then raise x else pure tt) w ≡ (value tt, w')
      → (b ≡ false) × (w ≡ w')
  length-if true x w w' e = absurd (raised-ne-value e)
  length-if false x w w' e = (refl, ap (λ (p : Outcome Unit × W). p.1) e)

  path_keys-two :
      (path other : String) (w : W) {keys : List String} {w' : W}
      → path_keys host (path ∷ other ∷ []) w ≡ (value keys, w')
      → (key : String) × (other_key : String) × (between : W) × (host.abspath path w
          ≡ (value key, between))
        × (host.abspath other between ≡ (value other_key, w'))
        × (keys ≡ key ∷ other_key ∷ [])
  unfolding path_keys ◌>>=◌
  path_keys-two path other w e =
      let (key, s₁, first, rest) = bind-value (host.abspath path) _ w e in
      let (keys', s₂, e₂, made) = bind-value (path_keys host (other ∷ [])) _ s₁ rest in
      let (other_key, s₃, second, rest') = bind-value (host.abspath other) _ s₁ e₂ in
      let inner : other_key ∷ [] ≡ keys' = value_eq rest' in
      let outer = value_eq made in
      let after = ap (λ (p : Outcome (List String) × W). p.1) rest' in
      let end = ap (λ (p : Outcome (List String) × W). p.1) made in
      (
        key,
        other_key,
        s₁,
        first,
        second ∙ ap (λ s. (value other_key, s)) (after ∙ end),
        sym outer ∙ ap (λ ks. key ∷ ks) (sym inner),
      )

  path_keys-runs :
      (path other : String) (w between w' : W) (key other_key : String)
      → host.abspath path w ≡ (value key, between)
      → host.abspath other between ≡ (value other_key, w')
      → path_keys host (path ∷ other ∷ []) w ≡ (value (key ∷ other_key ∷ []), w')
  unfolding path_keys ◌>>=◌
  path_keys-runs path other w between w' key other_key first second = rw (first, second) refl

  pub require_distinct_iff :
      (path other : String) (w w' : W)
      → (require_distinct host (path ∷ other ∷ []) w ≡ (value tt, w')) ↔ AreApart path other w w'
  unfolding require_distinct
  require_distinct_iff path other w w' = (
    λ e.
        let (keys, s, e₁, ended) = bind-value (path_keys host (path ∷ other ∷ [])) _ w e in
        let (key, other_key, between, first, second, two) = path_keys-two path other w e₁ in
        let (apart, same) =
          length-if (str_eq key other_key) _ s w'
            (rw (two, length-distinct key other_key) at ended) in
        record {
          key = key;
          other_key = other_key;
          between = between;
          first = first;
          second = second ∙ ap (λ s. (value other_key, s)) same;
          different = λ e. cc ((str_eq_iff key other_key).1 e, apart);
        },
    λ apart.
        let differ : str_eq apart.key apart.other_key ≡ false =
          ground (arith, str_eq_iff apart.key apart.other_key, apart.different) in
        bind_passes _ _
          (path_keys-runs path other w apart.between w' apart.key apart.other_key apart.first
            apart.second)
          (rw (length-distinct apart.key apart.other_key, differ) refl),
  )
