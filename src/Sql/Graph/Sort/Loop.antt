-- ===== src/Sql/Graph/Sort/Loop.antt =====
-- The loop of the sort: what it keeps, and its end.
use elt_pipeline.Prelude.{
  ℕ, ◌+◌, ◌≤◌, String, Bool, true, false, not, List, [], ◌∷◌, ◌++◌, ◌==◌, ◌&&◌, ◌||◌, ◌≡◌, refl,
  ◌∙◌, subst, is_empty, if◌then◌else◌, arith, eq_iff, Bool-cases, inl, inr,
}
use elt_pipeline.Prelude.Names.{elem, count, count-append, count-of_elem, elem-filter}
use elt_pipeline.Prelude.Dict.{Dict, get_or, put, get_or-put, IsUnique, put-IsUnique}
use elt_pipeline.Sql.Graph.Pushes.{Within}
use elt_pipeline.Sql.Graph.Sort.{Sorting, discard, visit_children}

abbrev pub one_if : Bool → ℕ
one_if true = 1
one_if false = 0

-- The set of an id.
abbrev pub set_of : Dict (List String) → String → List String
set_of d n = get_or d n []

elem-discard :
    (x d : String) (set : List String) → elem x (discard d set) ≡ (elem x set && not (x == d))
elem-discard x d set = elem-filter (λ y. not (y == d)) x set

pub empty_no_elem : (set : List String) → is_empty set ≡ true → (x : String) → elem x set ≡ false
unfolding elem
empty_no_elem [] h x = refl
empty_no_elem (y ∷ ys) h x = cc

nonempty_elem : (x : String) (set : List String) → elem x set ≡ true → is_empty set ≡ false
unfolding elem
nonempty_elem x [] h = cc
nonempty_elem x (y ∷ ys) h = refl

module _ (inbound : Dict (List String)) (ids : List String) where
  -- When an id is placed, its dependencies stand before it.
  abbrev pub Respects : List String → List String → Type 0
  Respects seen [] = Unit
  Respects seen (n ∷ rest) = Within (set_of inbound n) seen × Respects (seen ++ n ∷ []) rest

  -- What holds while the children `cs` of a placed id `d` are left to visit.
  pub record Inv (d : String) (cs : List String) (s : Sorting) : Type 0 where
    pub left :
        (n x : String)
        → elem x (set_of (Sorting.remaining_inbound s) n) ≡ (
            elem x (set_of inbound n)
            && (not (elem x (Sorting.ordered s)) || (x == d && elem n cs)))
    pub placed :
        (n : String)
        → count n (Sorting.ordered s)
            + count n (Sorting.ready s)
            + one_if (not (is_empty (set_of (Sorting.remaining_inbound s) n)))
          ≡ one_if (elem n ids)
    pub before : Respects [] (Sorting.ordered s)
    pub unique : IsUnique (Sorting.remaining_inbound s)

  -- One child.
  visited : String → String → Sorting → Sorting
  visited d c s =
      let left = discard d (set_of (Sorting.remaining_inbound s) c) in
      record s {
        remaining_inbound = put (Sorting.remaining_inbound s) c left;
        ready = if is_empty left then Sorting.ready s ++ c ∷ [] else Sorting.ready s;
      }

  module _ (d c : String) (cs : List String) (s : Sorting) (h : Inv d (c ∷ cs) s)
      (edge : elem d (set_of inbound c) ≡ true) (done : elem d (Sorting.ordered s) ≡ true)
      (once : elem c cs ≡ false) where
    left_child :
        (x : String)
        → elem x (discard d (set_of (Sorting.remaining_inbound s) c)) ≡ (
            elem x (set_of inbound c)
            && (not (elem x (Sorting.ordered s)) || (x == d && elem c cs)))
    unfolding elem
    left_child x =
        elem-discard x d (set_of (Sorting.remaining_inbound s) c)
        ∙ ground (arith, h.left c x, eq_iff c c, eq_iff x d, once, done)

    left_other :
        (n x : String)
        → (c == n) ≡ false
        → elem x (set_of (Sorting.remaining_inbound s) n) ≡ (
            elem x (set_of inbound n)
            && (not (elem x (Sorting.ordered s)) || (x == d && elem n cs)))
    unfolding elem
    left_other n x apart = ground (arith, h.left n x, apart, eq_iff c n, eq_iff n c)

    filled : is_empty (set_of (Sorting.remaining_inbound s) c) ≡ false
    unfolding elem
    filled =
        nonempty_elem d (set_of (Sorting.remaining_inbound s) c)
          (ground (arith, h.left c d, edge, eq_iff c c, eq_iff d d))

    visited-Inv : Inv d cs (visited d c s)
    unfolding visited count
    visited-Inv = record {
      left = λ n x.
          rw (get_or-put (Sorting.remaining_inbound s) c n _ []) (elim (Bool-cases (c == n)) [
            | inl same ↦ rw same (
                subst
                  (λ m. elem x (discard d (set_of (Sorting.remaining_inbound s) c)) ≡ (
                    elem x (set_of inbound m)
                    && (not (elem x (Sorting.ordered s)) || (x == d && elem m cs))))
                  ((eq_iff c n).0 same) (left_child x))
            | inr apart ↦ rw apart (left_other n x apart)
          ]);
      placed = λ n. ground (
        arith,
        h.placed n,
        filled,
        get_or-put (Sorting.remaining_inbound s) c n
            (discard d (set_of (Sorting.remaining_inbound s) c)) [],
        count-append n (Sorting.ready s) (c ∷ []),
        eq_iff c n,
        eq_iff n c,
      );
      before = h.before;
      unique = put-IsUnique (Sorting.remaining_inbound s) c _ h.unique;
    }

  pub visit_children-Inv :
      (d : String) (cs : List String) (s : Sorting)
      → Inv d cs s
      → ((c : String) → elem c cs ≡ true → elem d (set_of inbound c) ≡ true)
      → elem d (Sorting.ordered s) ≡ true
      → ((c : String) → count c cs ≤ 1)
      → Inv d [] (visit_children d cs s)
        × (Sorting.ordered (visit_children d cs s) ≡ Sorting.ordered s)
  unfolding visit_children elem count visited
  visit_children-Inv d [] s h edge done once = (h, refl)
  visit_children-Inv d (c ∷ cs) s h edge done once =
      visit_children-Inv d cs (visited d c s)
        (visited-Inv d c cs s h (edge c (ground (arith, eq_iff c c))) done (child_once c cs once))
        (λ n i. edge n (ground (arith, i))) done (λ n. omega (arith, once n))
    where
      child_once :
          (c : String) (cs : List String)
          → ((n : String) → count n (c ∷ cs) ≤ 1)
          → elem c cs ≡ false
      child_once c cs once =
          unfold count elem in ground (arith, once c, eq_iff c c, count-of_elem c cs)
