-- ===== src/Sql/Graph/Sort/Counts.antt =====
-- Lists of names compared by how often each name stands in them.
use elt_pipeline.Prelude.{
  suc, ◌+◌, ◌≤◌, String, true, List, [], ◌∷◌, ◌==◌, ◌≡◌, length, arith, eq_iff, Bool-cases, inl,
  inr, if◌then◌else◌,
}
use elt_pipeline.Prelude.Names.{elem, count, elem-of_count}

-- A list without one occurrence of a name.
without : String → List String → List String
without x [] = []
without x (y ∷ ys) = let rest = without x ys in if x == y then ys else y ∷ rest

count-without :
    (n x : String) (ys : List String)
    → elem x ys ≡ true
    → count n (without x ys) + (if n == x then 1 else 0) ≡ count n ys
unfolding without count elem
count-without n x [] i = cc
count-without n x (y ∷ ys) i = elim (Bool-cases (x == y)) [
  | inl same ↦ rw ((eq_iff x y).0 same) (ground (arith, eq_iff y y))
  | inr apart ↦ ground (arith, apart, i, count-without n x ys)
]

length-without :
    (x : String) (ys : List String) → elem x ys ≡ true → suc (length (without x ys)) ≡ length ys
unfolding without elem
length-without x [] i = cc
length-without x (y ∷ ys) i = ground (arith, i, length-without x ys)

-- A list with no name more often is no longer.
abbrev pub AtMost : List String → List String → Type 0
AtMost xs ys = (n : String) → count n xs ≤ count n ys

module _ (x : String) (xs ys : List String) (most : AtMost (x ∷ xs) ys) where
  head-elem : elem x ys ≡ true
  unfolding count
  head-elem = elem-of_count x ys (ground (arith, most x, eq_iff x x))

  tail-AtMost : AtMost xs (without x ys)
  unfolding count
  tail-AtMost = λ n. ground (arith, most n, count-without n x ys head-elem)

pub length-AtMost : (xs ys : List String) → AtMost xs ys → length xs ≤ length ys
length-AtMost [] ys most = omega arith
length-AtMost (x ∷ xs) ys most = omega (
  arith,
  length-AtMost xs (without x ys) (tail-AtMost x xs ys most),
  length-without x ys (head-elem x xs ys most),
)

-- And if it is as long, it has each name as often.
pub AtMost-full : (xs ys : List String) → AtMost xs ys → length ys ≤ length xs → AtMost ys xs
unfolding count
AtMost-full [] [] most long = λ n. omega arith
AtMost-full [] (y ∷ ys) most long = absurd (omega (arith, long))
AtMost-full (x ∷ xs) ys most long = λ n. omega (
  arith,
  count-without n x ys (head-elem x xs ys most),
  AtMost-full xs (without x ys) (tail-AtMost x xs ys most)
      (omega (arith, long, length-without x ys (head-elem x xs ys most))) n,
)
