-- ===== src/Sql/Graph/Pushes.antt =====
-- What the inner loop puts on the stack.
use elt_pipeline.Prelude.{
  ℕ, ◌+◌, ◌≤◌, ◌<◌, String, true, false, List, [], ◌∷◌, ◌==◌, ◌≡◌, sym, ◌∙◌, length, arith, eq_iff,
  Bool-cases, inl, inr, if◌then◌else◌, true-false,
}
use elt_pipeline.Prelude.Names.{elem}
use elt_pipeline.Sql.Graph.{push_new}

-- Every name of a list is in a set.
abbrev pub Within : List String → List String → Type 0
Within xs set = (x : String) → elem x xs ≡ true → elem x set ≡ true

pub first_elem : (d : String) (set : List String) → elem d (d ∷ set) ≡ true
unfolding elem
first_elem d set = ground (arith, eq_iff d d)

pub elem_more : (d x : String) (set : List String) → elem x set ≡ true → elem x (d ∷ set) ≡ true
unfolding elem
elem_more d x set i = ground (arith, i)

Within-tail : (d : String) (ds set : List String) → Within (d ∷ ds) set → Within ds set
Within-tail d ds set w = λ x i. w x (elem_more d x ds i)

-- How many names are not in a set.
abbrev pub outside : List String → List String → ℕ
outside set [] = 0
outside set (n ∷ ns) = (if elem n set then 0 else 1) + outside set ns

outside_mono : (d : String) (set names : List String) → outside (d ∷ set) names ≤ outside set names
unfolding elem
outside_mono d set [] = omega arith
outside_mono d set (n ∷ ns) = ground (arith, outside_mono d set ns)

outside_less :
    (d : String) (set names : List String)
    → elem d names ≡ true
    → elem d set ≡ false
    → outside (d ∷ set) names < outside set names
unfolding elem
outside_less d set [] i o = absurd cc
outside_less d set (n ∷ ns) i o =
    let rest = outside_less d set ns in
    ground (arith, i, o, rest, outside_mono d set ns, eq_iff d n, eq_iff n d)

pub push_keeps :
    (ds stack resolved : List String) (x : String)
    → elem x resolved ≡ true
    → elem x (push_new ds stack resolved).1 ≡ true
unfolding push_new elem
push_keeps [] stack resolved x i = i
push_keeps (d ∷ ds) stack resolved x i = elim (Bool-cases (elem d resolved)) [
  | inl e ↦ rw e (push_keeps ds stack resolved x i)
  | inr e ↦ rw e (push_keeps ds (d ∷ stack) (d ∷ resolved) x (ground (arith, i)))
]

pub push_covers :
    (ds stack resolved : List String) (x : String)
    → elem x ds ≡ true
    → elem x (push_new ds stack resolved).1 ≡ true
unfolding push_new elem
push_covers [] stack resolved x i = absurd cc
push_covers (d ∷ ds) stack resolved x i = elim (Bool-cases (elem d resolved)) [
  | inl e ↦ rw e (elim (Bool-cases (x == d)) [
    | inl same ↦ push_keeps ds stack resolved x (ground (arith, e, same, eq_iff x d))
    | inr apart ↦ push_covers ds stack resolved x (ground (arith, i, apart))
  ])
  | inr e ↦ rw e (elim (Bool-cases (x == d)) [
    | inl same ↦ push_keeps ds (d ∷ stack) (d ∷ resolved) x (ground (arith, same))
    | inr apart ↦ push_covers ds (d ∷ stack) (d ∷ resolved) x (ground (arith, i, apart))
  ])
]

-- Resolved names were there before or are dependencies.
pub push-Within :
    (ds stack resolved set : List String)
    → Within ds set
    → Within resolved set
    → Within (push_new ds stack resolved).1 set
unfolding push_new elem
push-Within [] stack resolved set w before = before
push-Within (d ∷ ds) stack resolved set w before = elim (Bool-cases (elem d resolved)) [
  | inl e ↦ rw e (push-Within ds stack resolved set (Within-tail d ds set w) before)
  | inr e ↦ rw e (
      push-Within ds (d ∷ stack) (d ∷ resolved) set (Within-tail d ds set w)
        (λ y j. ground (arith, j, before y, w d (first_elem d ds), eq_iff y d)))
]

-- What is on the stack stays there.
pub push_stack :
    (ds stack resolved : List String) (x : String)
    → elem x stack ≡ true
    → elem x (push_new ds stack resolved).0 ≡ true
unfolding push_new elem
push_stack [] stack resolved x i = i
push_stack (d ∷ ds) stack resolved x i = elim (Bool-cases (elem d resolved)) [
  | inl e ↦ rw e (push_stack ds stack resolved x i)
  | inr e ↦ rw e (push_stack ds (d ∷ stack) (d ∷ resolved) x (ground (arith, i)))
]

-- The two ways of a dependency, with the statement for those after it.
new_ones_by :
    (d : String) (ds stack resolved : List String) (x : String)
    → (elem x (push_new ds stack resolved).1 ≡ true
        → elem x resolved ≡ false
        → elem x (push_new ds stack resolved).0 ≡ true)
    → (elem x (push_new ds (d ∷ stack) (d ∷ resolved)).1 ≡ true
        → elem x (d ∷ resolved) ≡ false
        → elem x (push_new ds (d ∷ stack) (d ∷ resolved)).0 ≡ true)
    → elem x (push_new (d ∷ ds) stack resolved).1 ≡ true
    → elem x resolved ≡ false
    → elem x (push_new (d ∷ ds) stack resolved).0 ≡ true
unfolding push_new elem
new_ones_by d ds stack resolved x skip push = elim (Bool-cases (elem d resolved)) [
  | inl e ↦ rw e skip
  | inr e ↦ rw e (λ i o. elim (Bool-cases (x == d)) [
    | inl same ↦ push_stack ds (d ∷ stack) (d ∷ resolved) x (ground (arith, same))
    | inr apart ↦ push i (ground (arith, apart, o))
  ])
]

-- A name that is resolved after and not before is on the stack.
pub push_new_ones :
    (ds stack resolved : List String) (x : String)
    → elem x (push_new ds stack resolved).1 ≡ true
    → elem x resolved ≡ false
    → elem x (push_new ds stack resolved).0 ≡ true
unfolding push_new elem
push_new_ones [] stack resolved x i o = absurd (true-false (sym i ∙ o))
push_new_ones (d ∷ ds) stack resolved x i o =
    new_ones_by d ds stack resolved x (push_new_ones ds stack resolved x)
      (push_new_ones ds (d ∷ stack) (d ∷ resolved) x) i o

-- What is on the stack is resolved.
pub push_resolved :
    (ds stack resolved : List String)
    → Within stack resolved
    → Within (push_new ds stack resolved).0 (push_new ds stack resolved).1
unfolding push_new elem
push_resolved [] stack resolved w = w
push_resolved (d ∷ ds) stack resolved w = elim (Bool-cases (elem d resolved)) [
  | inl e ↦ rw e (push_resolved ds stack resolved w)
  | inr e ↦ rw e (push_resolved ds (d ∷ stack) (d ∷ resolved) (λ x i. ground (arith, i, w x)))
]

pub push_measure :
    (ds stack resolved names : List String)
    → Within ds names
    → length (push_new ds stack resolved).0 + outside (push_new ds stack resolved).1 names
      ≤ length stack + outside resolved names
unfolding push_new
push_measure [] stack resolved names w = omega arith
push_measure (d ∷ ds) stack resolved names w = elim (Bool-cases (elem d resolved)) [
  | inl e ↦ rw e (push_measure ds stack resolved names (Within-tail d ds names w))
  | inr e ↦ rw e (
      omega (
        arith,
        push_measure ds (d ∷ stack) (d ∷ resolved) names (Within-tail d ds names w),
        outside_less d resolved names (w d (first_elem d ds)) e,
      ))
]
