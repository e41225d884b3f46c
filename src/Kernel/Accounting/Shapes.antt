-- ===== src/Kernel/Accounting/Shapes.antt =====
-- The shapes of the results of a trial, and what each shape says of names and verdicts.
use effect_probe.Prelude.{
  String, ◌≡◌, ◌≢◌, refl, ap, ◌⊎◌, inl, inr, true, List, [], ◌∷◌, map, some, All,
}
use effect_probe.Kernel.Verdicts.{
  InvariantVerdict, InvariantResult, error_results, inconclusive_results,
}
use effect_probe.Kernel.Verdicts.Axes.{Verdict}
use effect_probe.Kernel.Frames.{Trial}

abbrev pub names_of : List InvariantResult → List String
names_of rs = map (λ (r : InvariantResult). r.name) rs

-- A result of a retry evaluation before its candidates are resolved: it is no FAIL, and a candidate
-- is inconclusive and misses no evidence.
pub record Provisional (r : InvariantResult) : Type 0 where
  pub no_fail : r.verdict ≢ InvariantVerdict.fail
  pub undecided : r.candidate ≡ true → r.verdict ≡ InvariantVerdict.inconclusive
  pub supported : r.candidate ≡ true → r.missing_evidence ≡ []

-- The results of a trial: those of its evaluation, with the evidence of the trial, or one result of
-- one kind for each declared contract.
abbrev pub TrialShape :
    {E : Type 0} → (List InvariantResult → Type 0) → List String → Trial E → Type 0
TrialShape {E} G names t =
    (G t.results × ((ev : E) × (t.evidence ≡ some ev)))
    ⊎ ((explanation : String) × (t.results ≡ error_results names explanation))
    ⊎ ((explanation : String) × (t.results ≡ inconclusive_results names explanation))

pub names_of-error_results :
    (names : List String) (x : String) → names_of (error_results names x) ≡ names
unfolding error_results
names_of-error_results [] x = refl
names_of-error_results (n ∷ names) x = ap (λ l. n ∷ l) (names_of-error_results names x)

pub names_of-inconclusive_results :
    (names : List String) (x : String) → names_of (inconclusive_results names x) ≡ names
unfolding inconclusive_results
names_of-inconclusive_results [] x = refl
names_of-inconclusive_results (n ∷ names) x =
    ap (λ l. n ∷ l) (names_of-inconclusive_results names x)

pub error_results-Provisional :
    (names : List String) (x : String) → All Provisional (error_results names x)
unfolding error_results
error_results-Provisional [] x = tt
error_results-Provisional (n ∷ names) x = (
  record { no_fail = λ e. cc e; undecided = λ e. cc e; supported = λ e. refl },
  error_results-Provisional names x,
)

pub inconclusive_results-Provisional :
    (names : List String) (x : String) → All Provisional (inconclusive_results names x)
unfolding inconclusive_results
inconclusive_results-Provisional [] x = tt
inconclusive_results-Provisional (n ∷ names) x = (
  record { no_fail = λ e. cc e; undecided = λ e. refl; supported = λ e. refl },
  inconclusive_results-Provisional names x,
)

module _ {E : Type 0} (names : List String) (t : Trial E) where
  pub TrialShape-names :
      {G : List InvariantResult → Type 0}
      → ((rs : List InvariantResult) → G rs → names_of rs ≡ names)
      → TrialShape G names t
      → names_of t.results ≡ names
  TrialShape-names g (inl (h, _)) = g t.results h
  TrialShape-names g (inr (inl (x, e))) = rw e (names_of-error_results names x)
  TrialShape-names g (inr (inr (x, e))) = rw e (names_of-inconclusive_results names x)

  pub TrialShape-Provisional :
      {G : List InvariantResult → Type 0}
      → ((rs : List InvariantResult) → G rs → All Provisional rs)
      → TrialShape G names t
      → All Provisional t.results
  TrialShape-Provisional g (inl (h, _)) = g t.results h
  TrialShape-Provisional g (inr (inl (x, e))) = rw e (error_results-Provisional names x)
  TrialShape-Provisional g (inr (inr (x, e))) = rw e (inconclusive_results-Provisional names x)

-- A trial whose results all pass, and are some, has recorded its evidence.
pub TrialShape-pass :
    {E : Type 0} (G : List InvariantResult → Type 0) (names : List String) (t : Trial E)
    → TrialShape G names t
    → t.results ≢ []
    → All (Verdict InvariantVerdict.pass) t.results
    → (ev : E) × (t.evidence ≡ some ev)
unfolding error_results inconclusive_results
TrialShape-pass G names t (inl (h, ev)) some_result h' = ev
TrialShape-pass G [] t (inr (inl (x, e))) some_result h = absurd (some_result e)
TrialShape-pass G [] t (inr (inr (x, e))) some_result h = absurd (some_result e)
TrialShape-pass G (n ∷ names) t (inr (inl (x, e))) some_result h =
    absurd (let h' = rw e at h in cc h'.0)
TrialShape-pass G (n ∷ names) t (inr (inr (x, e))) some_result h =
    absurd (let h' = rw e at h in cc h'.0)
