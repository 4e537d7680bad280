-- ===== src/Sql/Graph/Sort/Sets.antt =====
-- The empty sets that the sort starts with, and the ids whose set is empty.
use elt_pipeline.Prelude.{
  ◌≤◌, String, true, false, none, some, List, [], ◌∷◌, ◌&&◌, ◌≡◌, refl, is_some, is_empty,
  if◌then◌else◌, arith, eq_iff,
}
use elt_pipeline.Prelude.Names.{elem, count, count-of_elem}
use elt_pipeline.Prelude.Dict.{Dict, get, get_or, IsUnique}
use elt_pipeline.Sql.Graph.Sort.{empty_sets, with_sets}
use elt_pipeline.Sql.Graph.Sort.Loop.{one_if, set_of}

pub empty_sets-get :
    (ids : List String) (n : String)
    → get (empty_sets ids) n ≡ (if elem n ids then some [] else none)
unfolding get elem
empty_sets-get [] n = refl
empty_sets-get (id ∷ ids) n = ground (arith, empty_sets-get ids n, eq_iff id n, eq_iff n id)

pub empty_sets-set_of : (ids : List String) (n : String) → set_of (empty_sets ids) n ≡ []
unfolding get_or
empty_sets-set_of ids n = ground (arith, empty_sets-get ids n)

pub empty_sets-IsUnique :
    (ids : List String) → ((n : String) → count n ids ≤ 1) → IsUnique (empty_sets ids)
unfolding count get
empty_sets-IsUnique [] once = tt
empty_sets-IsUnique (id ∷ ids) once = (
  ground (arith, empty_sets-get ids id, once id, eq_iff id id, count-of_elem id ids),
  empty_sets-IsUnique ids (λ n. omega (arith, once n)),
)

-- The ids whose set is empty, each once.
pub count-with_sets :
    (d : Dict (List String)) (n : String)
    → IsUnique d
    → count n (with_sets true d) ≡ one_if (is_some (get d n) && is_empty (set_of d n))
unfolding count get get_or
count-with_sets [] n u = refl
count-with_sets ((id, set) ∷ d) n u =
    ground (arith, count-with_sets d n u.1, u.0, eq_iff id n, eq_iff n id)

pub unkeyed :
    (d : Dict (List String)) (n : String) → is_some (get d n) ≡ false → is_empty (set_of d n) ≡ true
unfolding get_or
unkeyed d n h = ground arith
