-- ===== src/Prelude/Names.antt =====
-- Membership of names in lists and sets: Python's `in` on lists and sets of strings. A set is the
-- list of its elements.
use Prim.Native.Nat.{ℕ, ◌+◌, ◌<◌}
use Prim.Native.String.{String, compare}
use Prim.Native.Nat.{Ordering}
use mathlib.Core.Path.{◌≡◌, refl, sym, ◌∙◌}
use mathlib.Core.Logic.{inl, inr}
use mathlib.Core.Bool.{Bool, true, false, ◌||◌, ◌&&◌}
use mathlib.Core.List.{List, [], ◌∷◌, ◌++◌}
use native.Mathlib.Omega.{arith}
use text.Mathlib.Text.{◌==◌}
use text.Mathlib.TextEquality.{eq_iff}
use elt_pipeline.Prelude.Tests.{if◌then◌else◌, Bool-cases}
use elt_pipeline.Prelude.Lists.{insert_sorted, sort, filter}

-- `n in xs`
unfoldable pub elem : String → List String → Bool
elem n [] = false
elem n (x ∷ xs) = n == x || elem n xs

-- `s.add(n)`
unfoldable pub add : String → List String → List String
unfolding elem
add n s = if elem n s then s else s ++ n ∷ []

-- How often a name stands in a list.
unfoldable pub count : String → List String → ℕ
count n [] = 0
count n (x ∷ xs) = (if n == x then 1 else 0) + count n xs

pub elem-append : (n : String) (xs ys : List String) → elem n (xs ++ ys) ≡ (elem n xs || elem n ys)
unfolding elem
elem-append n [] ys = refl
elem-append n (x ∷ xs) ys = ground (arith, elem-append n xs ys)

pub elem-add : (n m : String) (s : List String) → elem n (add m s) ≡ (n == m || elem n s)
unfolding add
elem-add n m s = ground (arith, elem-append n s (m ∷ []), eq_iff n m)

pub count-append : (n : String) (xs ys : List String) → count n (xs ++ ys) ≡ count n xs + count n ys
unfolding count
count-append n [] ys = omega arith
count-append n (x ∷ xs) ys = omega (arith, count-append n xs ys)

pub elem-of_count : (n : String) (xs : List String) → 0 < count n xs → elem n xs ≡ true
unfolding count elem
elem-of_count n [] h = absurd (omega arith)
elem-of_count n (x ∷ xs) h = ground (arith, elem-of_count n xs)

pub count-of_elem : (n : String) (xs : List String) → elem n xs ≡ true → 0 < count n xs
unfolding count elem
count-of_elem n [] h = cc
count-of_elem n (x ∷ xs) h = ground (arith, count-of_elem n xs)

-- Code point order, in which Python compares texts.
unfoldable pub leb_name : String → String → Bool
leb_name s t = elim (compare s t) [ Ordering.gt ↦ false | _ ↦ true ]

-- `sorted(xs)`
unfoldable pub sorted : List String → List String
unfolding leb_name
sorted xs = sort leb_name xs

module _ (le : String → String → Bool) where
  count-insert_sorted :
      (n x : String) (xs : List String) → count n (insert_sorted le x xs) ≡ count n (x ∷ xs)
  unfolding count
  count-insert_sorted n x [] = refl
  count-insert_sorted n x (y ∷ ys) = ground (arith, count-insert_sorted n x ys)

  pub count-sort : (n : String) (xs : List String) → count n (sort le xs) ≡ count n xs
  unfolding count
  count-sort n [] = refl
  count-sort n (x ∷ xs) = omega (arith, count-insert_sorted n x (sort le xs), count-sort n xs)

pub count-of_not_elem : (n : String) (xs : List String) → elem n xs ≡ false → count n xs ≡ 0
unfolding count elem
count-of_not_elem n [] h = refl
count-of_not_elem n (x ∷ xs) h = ground (arith, count-of_not_elem n xs)

-- Membership decided by how often the name stands there.
pub elem-eq_of_count :
    (n : String) (xs ys : List String) → count n xs ≡ count n ys → elem n xs ≡ elem n ys
elem-eq_of_count n xs ys h = elim (Bool-cases (elem n xs)) [
  | inl i ↦ i ∙ sym (elem-of_count n ys (omega (arith, count-of_elem n xs i)))
  | inr o ↦ elim (Bool-cases (elem n ys)) [
    | inl i ↦ absurd (omega (arith, count-of_elem n ys i, count-of_not_elem n xs o))
    | inr o' ↦ o ∙ sym o'
  ]
]

pub elem-sorted : (n : String) (xs : List String) → elem n (sorted xs) ≡ elem n xs
unfolding sorted
elem-sorted n xs = elem-eq_of_count n (sort leb_name xs) xs (count-sort leb_name n xs)

pub elem-filter :
    (p : String → Bool) (n : String) (xs : List String) → elem n (filter p xs) ≡ (elem n xs && p n)
unfolding elem
elem-filter p n [] = refl
elem-filter p n (x ∷ xs) = elim (Bool-cases (n == x)) [
  | inr other ↦ ground (arith, elem-filter p n xs)
  | inl same ↦ rw ((eq_iff n x).0 same) (ground (arith, eq_iff x x, elem-filter p x xs))
]
