-- ===== src/Schedule/Order/Loop.antt =====
-- The loop of the sort ends with an empty queue, and what it keeps on the way.
use elt_pipeline.Prelude.{
  ℕ, zero, suc, String, ◌≡◌, refl, Bool, true, false, Option, none, some, List, [], ◌∷◌, ◌++◌, ◌+◌,
  ◌<◌, ◌≤◌, eq_iff, ltb, if◌then◌else◌, length, sort, insert_sorted, arith, ok, is_some, ◌∙◌, inl,
  inr, List-cases, ap, length-append,
}
use mathlib.Core.List.{append-nil, append_assoc}
use elt_pipeline.Prelude.Names.{elem, count, count-append, count-sort, count-of_elem}
use elt_pipeline.Prelude.Dict.{
  Dict, or_else, get, put, get_or, get_or-put, IsUnique, put-IsUnique, ==_comm,
}
use elt_pipeline.Schedule.Model.{ScheduledCliJob, bit, names}
use elt_pipeline.Schedule.Order.{
  Kahn, relax_at, relax, visit, drain, zero_names, indegrees, initial_queue, by_index,
}
use elt_pipeline.Schedule.Order.Edges.{open_deps, open_deps-snoc, get_or-indegrees}
use elt_pipeline.Schedule.Order.Tables.{
  positive, positive-put, indegrees-IsUnique, has-indegrees, count-zero_names, length-zero_names,
}
use elt_pipeline.Schedule.Order.Links.{IsLinked}

abbrev pub degree : Kahn → String → ℕ
degree k n = get_or k.indegree n 0

some_positive : (o : Option ℕ) → 0 < or_else o 0 → (m : ℕ) × (o ≡ some (suc m))
some_positive none h = absurd (omega arith)
some_positive (some zero) h = absurd (omega arith)
some_positive (some (suc m)) h = (m, refl)

some_present : {A : Type 0} (o : Option A) → is_some o ≡ true → (a : A) × (o ≡ some a)
some_present none h = cc
some_present (some a) h = (a, refl)

module _ (jobs : List ScheduledCliJob) where
  -- When a name is placed, none of its dependencies is open.
  abbrev pub Respects : List String → List String → Type 0
  Respects seen [] = Unit
  Respects seen (n ∷ rest) = (open_deps seen n jobs ≡ 0) × Respects (seen ++ n ∷ []) rest

  -- The loop of successors holds this with the names `ss` that are left to relax.
  pub record Inv (total : ℕ) (ss : List String) (k : Kahn) : Type 0 where
    pub degrees : (n : String) → degree k n ≡ open_deps k.ordered n jobs + count n ss
    pub placed :
        (n : String)
        → count n k.ordered + count n k.queue + bit (ltb 0 (degree k n)) ≡ bit (elem n (names jobs))
    pub work : length k.ordered + length k.queue + positive k.indegree ≡ total
    pub before : Respects [] k.ordered
    pub unique : IsUnique k.indegree

  -- Relaxing one successor.
  lower : Kahn → String → ℕ → Kahn
  lower k s m = record k {
    indegree = put k.indegree s m;
    queue = if ltb 0 m then k.queue else k.queue ++ s ∷ [];
  }

  lower-Inv :
      (total : ℕ) (s : String) (ss : List String) (k : Kahn) (m : ℕ)
      → get k.indegree s ≡ some (suc m)
      → Inv total (s ∷ ss) k
      → Inv total ss (lower k s m)
  unfolding lower count get_or
  lower-Inv total s ss k m e h = record {
    degrees = λ n.
        ground
          (arith, h.degrees n, h.degrees s, get_or-put k.indegree s n m 0, eq_iff s n, ==_comm s n);
    placed = λ n. ground (
      arith,
      h.placed n,
      get_or-put k.indegree s n m 0,
      count-append n k.queue (s ∷ []),
      eq_iff s n,
      ==_comm s n,
    );
    work = ground (arith, h.work, positive-put k.indegree s m e, length-append k.queue (s ∷ []));
    before = h.before;
    unique = put-IsUnique k.indegree s m h.unique;
  }

  relax_lem :
      (total : ℕ) (ss : List String) (k : Kahn)
      → Inv total ss k
      → (k' : Kahn) × (relax k ss ≡ ok k') × Inv total [] k' × (k'.ordered ≡ k.ordered)
  unfolding relax get_or lower
  relax_lem total [] k h = (k, refl, h, refl)
  relax_lem total (s ∷ ss) k h =
      let (m, e) = some_positive (get k.indegree s) (head_open s ss k h) in
      let (k', done, inv, same) = relax_lem total ss (lower k s m) (lower-Inv total s ss k m e h) in
      (k', rw (e, relax_at) (ground (arith, done)), inv, same)
    where
      head_open : (s : String) (ss : List String) (k : Kahn) → Inv total (s ∷ ss) k → 0 < degree k s
      head_open s ss k h = unfold count in ground (arith, h.degrees s, eq_iff s s)

  module _ (succs : Dict (List String)) (linked : IsLinked jobs succs) where
    -- The name at the head of the queue is not placed yet, has no open dependency, and is a key.
    record Ready (k : Kahn) (name : String) : Type 0 where
      fresh : elem name k.ordered ≡ false
      closed : open_deps k.ordered name jobs ≡ 0
      key : elem name (names jobs) ≡ true

    head-Ready :
        (total : ℕ) (k : Kahn) (name : String) (rest : List String)
        → Inv total [] k
        → k.queue ≡ name ∷ rest
        → Ready k name
    unfolding count
    head-Ready total k name rest h e =
        let placed : count name k.ordered + count name (name ∷ rest) + bit (ltb 0 (degree k name))
            ≡ bit (elem name (names jobs)) =
          rw e at h.placed name in
        record {
          fresh = ground (arith, placed, eq_iff name name, count-of_elem name k.ordered);
          closed = ground (arith, placed, eq_iff name name, h.degrees name);
          key = ground (arith, placed, eq_iff name name);
        }

    pop : Kahn → String → List String → Kahn
    pop k name rest = record k { queue = rest; ordered = k.ordered ++ name ∷ [] }

    Respects-snoc :
        (seen xs : List String) (n : String)
        → Respects seen xs
        → open_deps (seen ++ xs) n jobs ≡ 0
        → Respects seen (xs ++ n ∷ [])
    Respects-snoc seen [] n r h = (rw append-nil at h, tt)
    Respects-snoc seen (x ∷ xs) n r h =
        (r.0, Respects-snoc (seen ++ x ∷ []) xs n r.1 (rw append_assoc h))

    pop-Inv :
        (total : ℕ) (k : Kahn) (name : String) (rest : List String)
        → Inv total [] k
        → k.queue ≡ name ∷ rest
        → Inv total (get_or succs name []) (pop k name rest)
    unfolding pop count
    pop-Inv total k name rest h e =
        let r = head-Ready total k name rest h e in
        record {
          degrees = λ n. ground (
            arith,
            h.degrees n,
            open_deps-snoc k.ordered name n jobs r.fresh,
            linked.listed name n,
          );
          placed = λ n. ground (arith, (rw e at h.placed n), count-append n k.ordered (name ∷ []));
          work = ground (arith, h.work, ap length e, length-append k.ordered (name ∷ []));
          before = Respects-snoc [] k.ordered name h.before r.closed;
          unique = h.unique;
        }

    visit_lem :
        (total : ℕ) (k : Kahn) (name : String) (rest : List String)
        → Inv total [] k
        → k.queue ≡ name ∷ rest
        → (k' : Kahn) × (visit succs k name rest ≡ ok k')
          × Inv total [] k'
          × (length k'.ordered ≡ length k.ordered + 1)
    unfolding visit pop get_or
    visit_lem total k name rest h e =
        let r = head-Ready total k name rest h e in
        let (ss, at) = some_present (get succs name) (linked.keyed name ∙ r.key) in
        let inv : Inv total ss (pop k name rest) = rw at at (pop-Inv total k name rest h e) in
        let (k', done, inv', same) = relax_lem total ss (pop k name rest) inv in
        (
          k',
          rw (at, visit) done,
          inv',
          ground (arith, ap length same, length-append k.ordered (name ∷ [])),
        )

    -- With a round for each open or queued name the loop ends by its own test.
    pub drain_lem :
        (total fuel : ℕ) (k : Kahn)
        → Inv total [] k
        → total ≤ fuel + length k.ordered
        → (k' : Kahn) × (drain fuel succs k ≡ ok k') × Inv total [] k' × (k'.queue ≡ [])
    unfolding drain
    drain_lem total zero k h enough = elim (List-cases k.queue) [
      | inl empty ↦ (k, simp (empty, drain), h, empty)
      | inr (x, rest, e) ↦ absurd (omega (arith, h.work, ap length e))
    ]
    drain_lem total (suc fuel) k h enough = elim (List-cases k.queue) [
      | inl empty ↦ (k, simp (empty, drain), h, empty)
      | inr (x, rest, e) ↦
          let (k1, step, inv1, longer) = visit_lem total k x rest h e in
          let (k', done, inv, ends) = drain_lem total fuel k1 inv1 (omega arith) in
          (k', rw (e, drain) (rw step done), inv, ends)
    ]

abbrev pub start : List ScheduledCliJob → Kahn
start jobs = record { indegree = indegrees jobs; queue = initial_queue jobs; ordered = [] }

length-sort : (le : String → String → Bool) (xs : List String) → length (sort le xs) ≡ length xs
length-sort le [] = refl
length-sort le (x ∷ xs) = omega (arith, length-insert_sorted (sort le xs), length-sort le xs)
  where
    length-insert_sorted : (ys : List String) → length (insert_sorted le x ys) ≡ suc (length ys)
    length-insert_sorted [] = refl
    length-insert_sorted (y ∷ ys) = ground (arith, length-insert_sorted ys)

pub start-Inv : (jobs : List ScheduledCliJob) → Inv jobs (length (indegrees jobs)) [] (start jobs)
unfolding initial_queue count
start-Inv jobs = record {
  degrees = λ n. omega (arith, get_or-indegrees jobs n);
  placed = λ n. ground (
    arith,
    count-sort (by_index jobs) n (zero_names (indegrees jobs)),
    count-zero_names (indegrees jobs) n (indegrees-IsUnique jobs),
    has-indegrees jobs n,
  );
  work = omega (
    arith,
    length-sort (by_index jobs) (zero_names (indegrees jobs)),
    length-zero_names (indegrees jobs),
  );
  before = tt;
  unique = indegrees-IsUnique jobs;
}
