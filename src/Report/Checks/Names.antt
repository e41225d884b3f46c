-- ===== src/Report/Checks/Names.antt =====
-- The sets of names that src/effectprobe/_mcp_reports.py compares, by how often a name occurs.
use effect_probe.Prelude.{
  ℕ, suc, ◌+◌, ◌≤◌, ◌≡◌, refl, String, true, false, List, [], ◌∷◌, ◌++◌, length, arith, str_eq,
  str_eq_iff, if◌then◌else◌, Bool-cases, inl, inr,
}
use effect_probe.Artifact.Objects.{member}
use effect_probe.Report.Checks.{distinct, isdisjoint}

-- How often a name is in a list.
unfoldable pub occ : String → List String → ℕ
occ name [] = 0
occ name (first ∷ rest) = let more = occ name rest in if str_eq name first then suc more else more

pub occ-append : (x : String) (xs ys : List String) → occ x (xs ++ ys) ≡ occ x xs + occ x ys
unfolding occ
occ-append x [] ys = omega arith
occ-append x (y ∷ xs) ys = ground (arith, occ-append x xs ys)

pub occ-absent : (x : String) (xs : List String) → member x xs ≡ false → occ x xs ≡ 0
unfolding occ
occ-absent x [] e = refl
occ-absent x (y ∷ xs) e = ground (arith, occ-absent x xs)

str_eq_self : (x : String) → str_eq x x ≡ true
str_eq_self x = (str_eq_iff x x).1 refl

-- A name that a set leaves out is not in the list either.
pub distinct-absent :
    (x : String) (xs : List String) → member x (distinct xs) ≡ false → member x xs ≡ false
unfolding distinct
distinct-absent x [] e = refl
distinct-absent x (y ∷ xs) e = elim (Bool-cases (member y (distinct xs))) [
  | inl there ↦ ground (arith, there, distinct-absent x xs, str_eq_iff x y)
  | inr new ↦ ground (arith, new, distinct-absent x xs)
]

distinct-shorter : (xs : List String) → length (distinct xs) ≤ length xs
unfolding distinct
distinct-shorter [] = omega arith
distinct-shorter (x ∷ xs) = ground (arith, distinct-shorter xs)

-- A list that is no longer than its set has each name at most once.
pub distinct-once :
    (xs : List String) → length (distinct xs) ≡ length xs → (x : String) → occ x xs ≤ 1
unfolding distinct occ
distinct-once [] e x = omega arith
distinct-once (y ∷ xs) e x = elim (Bool-cases (member y (distinct xs))) [
  | inl there ↦ absurd (ground (arith, there, distinct-shorter xs))
  | inr new ↦
      let absent = occ-absent y xs (distinct-absent y xs new) in
      ground (arith, distinct-once xs (ground (arith, new)) x, absent, str_eq_iff x y)
]

-- A name of one list is not in another that is disjoint from it.
pub isdisjoint-absent :
    (x : String) (left right : List String)
    → isdisjoint left right ≡ true
    → member x left ≡ true
    → member x right ≡ false
isdisjoint-absent x [] right e h = absurd (ground arith)
isdisjoint-absent x (y ∷ left) right e h =
    ground (arith, isdisjoint-absent x left right, str_eq_iff x y)
