-- ===== src/Report/Pairs/Marks.antt =====
-- The marks that a pair leaves (src/effectprobe/_mcp_reports.py, _validate_pair): identities that
-- were found to differ from each other and from all that was seen.
use effect_probe.Prelude.{
  ℕ, ◌+◌, ◌≤◌, ◌≡◌, ◌&&◌, ◌==◌, String, true, List, ◌∷◌, ◌++◌, length, length-append, arith,
  Bool-cases, inl, inr,
}
use effect_probe.Exception.{pure, ◌>>=◌, ◌>>◌}
use effect_probe.Exception.Keeps.{Keeps}
use effect_probe.Artifact.Objects.{member}
use effect_probe.Report.Checks.{distinct, isdisjoint, expect}
use effect_probe.Report.Checks.Names.{
  occ, occ-append, occ-absent, distinct-absent, distinct-once, isdisjoint-absent,
}
use effect_probe.Report.Seen.{nothing_seen, Seen, all_seen, mark}

-- All the identities that were seen.
abbrev pub seen_ids : Seen → List String
seen_ids seen = seen.trial_ids ++ (seen.delivery_ids ++ seen.attempt_ids)

-- No identity was seen twice, as one kind or as two.
abbrev pub IsSeparate : Seen → Type 0
IsSeparate seen = (x : String) → occ x (seen_ids seen) ≤ 1

pub nothing_IsSeparate : IsSeparate nothing_seen
unfolding occ
nothing_IsSeparate x = omega arith

-- The identities of a pair, behind the operation and its key, as they are checked.
abbrev pair_ids_of : String → String → List String → List String → List String → List String
pair_ids_of operation key trials deliveries attempts =
    distinct (operation ∷ key ∷ (trials ++ (deliveries ++ attempts)))

occ-seen :
    (x : String) (a b c d e f : List String)
    → occ x ((a ++ b) ++ ((c ++ d) ++ (e ++ f))) ≡ occ x (a ++ (c ++ e)) + occ x (b ++ (d ++ f))
occ-seen x a b c d e f = omega (
  arith,
  occ-append x (a ++ b) ((c ++ d) ++ (e ++ f)),
  occ-append x a b,
  occ-append x (c ++ d) (e ++ f),
  occ-append x c d,
  occ-append x e f,
  occ-append x a (c ++ e),
  occ-append x c e,
  occ-append x b (d ++ f),
  occ-append x d f,
)

-- Ten different identities of a pair, none of which was seen, can be marked.
pub mark-IsSeparate :
    (seen : Seen) (operation key : String) (ts ds tries : List String)
    → length (ts ++ (ds ++ tries)) ≡ 8
    → length (pair_ids_of operation key ts ds tries) ≡ 10
    → isdisjoint (pair_ids_of operation key ts ds tries) (seen_ids seen) ≡ true
    → IsSeparate seen
    → IsSeparate (mark ts ds tries seen).1
unfolding occ
mark-IsSeparate seen operation key ts ds tries eight ten apart h x =
    let ids = ts ++ (ds ++ tries) in
    let once = distinct-once (operation ∷ key ∷ ids) (omega arith) x in
    let few : occ x ids ≤ 1 = ground arith in
    let sum = occ-seen x seen.trial_ids ts seen.delivery_ids ds seen.attempt_ids tries in
    elim (Bool-cases (member x (distinct (operation ∷ key ∷ ids)))) [
      | inl there ↦
          let fresh = occ-absent x (seen_ids seen) (isdisjoint-absent x _ _ apart there) in
          omega arith
      | inr other ↦
          let absent = occ-absent x (operation ∷ key ∷ ids) (distinct-absent x _ other) in
          let none_there : occ x ids ≡ 0 = ground arith in let old = h x in omega arith
    ]

-- The end of `validate_identities`: the test against what was seen, and the mark.
pub marking-Keeps :
    (ids ts ds tries : List String) (message : String)
    → ((seen : Seen)
        → isdisjoint ids (seen_ids seen) ≡ true
        → IsSeparate seen
        → IsSeparate (mark ts ds tries seen).1)
    → Keeps IsSeparate (
        all_seen >>= λ seen.
        expect (isdisjoint ids (seen_ids seen)) message >> (mark ts ds tries >> pure ids))
unfolding ◌>>=◌ expect
marking-Keeps ids ts ds tries message k = record {
  at = λ s h. elim (Bool-cases (isdisjoint ids (seen_ids s))) [
    | inl apart ↦ rw apart (k s apart h)
    | inr shared ↦ rw shared h
  ];
}

pub eight_ids :
    (ts ds tries : List String)
    → length ts ≡ 2
    → length ds ≡ 3
    → length tries ≡ 3
    → length (ts ++ (ds ++ tries)) ≡ 8
eight_ids ts ds tries a b c = omega (arith, length-append ts (ds ++ tries), length-append ds tries)

pub four_equal :
    (a b c d : ℕ)
    → ((a == 2) && (b == 3) && (c == 3) && (d == 10)) ≡ true
    → (a ≡ 2) × (b ≡ 3) × (c ≡ 3) × (d ≡ 10)
four_equal a b c d e = (ground arith, ground arith, ground arith, ground arith)
