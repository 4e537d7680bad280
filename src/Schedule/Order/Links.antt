-- ===== src/Schedule/Order/Links.antt =====
-- `successors_of`: the table is built without a KeyError when every dependency is a job, and lists
-- under each name the jobs that depend on it.
use elt_pipeline.Prelude.{
  ℕ, String, ◌≡◌, refl, Bool, true, some, List, [], ◌∷◌, ◌++◌, ◌+◌, ◌==◌, ◌&&◌, eq_iff,
  if◌then◌else◌, arith, ok, is_some, ◌∙◌, inl, inr, Bool-cases, Option-cases, All, ap,
}
use elt_pipeline.Prelude.Names.{elem, count, count-append, count-sort}
use elt_pipeline.Prelude.Dict.{Dict, get, put, get_or, get_or-put, get-put, ==_comm}
use elt_pipeline.Schedule.Model.{ScheduledCliJob, names}
use elt_pipeline.Schedule.Order.{
  constant_from, append_at, link_deps, link_jobs, sort_entries, successors, by_index,
}
use elt_pipeline.Schedule.Order.Edges.{edge_count, has-constant_from, get_or-constant_from}

abbrev Links : Type 0
Links = Dict (List String)

-- What linking the names `ns e` under each `e` does to a table.
record Adds (d d' : Links) (more : String → String → ℕ) : Type 0 where
  listed : (e n : String) → count n (get_or d' e []) ≡ count n (get_or d e []) + more e n
  keyed : (e : String) → is_some (get d' e) ≡ is_some (get d e)

append_at-Adds :
    (d : Links) (dep name : String) (ns : List String)
    → get d dep ≡ some ns
    → Adds d (put d dep (ns ++ name ∷ [])) (λ e n. if dep == e && name == n then 1 else 0)
unfolding get_or count
append_at-Adds d dep name ns h = record {
  listed = λ e n. ground (
    arith,
    get_or-put d dep e (ns ++ name ∷ []) [],
    count-append n ns (name ∷ []),
    eq_iff dep e,
    ==_comm n name,
  );
  keyed = λ e. ground (arith, get-put d dep e (ns ++ name ∷ []), eq_iff dep e);
}

module _ (name : String) where
  abbrev deps_more : List String → String → String → ℕ
  deps_more deps e n = if name == n then count e deps else 0

  link_deps_lem :
      (d : Links) (deps : List String)
      → ((dep : String) → elem dep deps ≡ true → is_some (get d dep) ≡ true)
      → (d' : Links) × (link_deps name d deps ≡ ok d') × Adds d d' (deps_more deps)
  unfolding link_deps elem count
  link_deps_lem d [] known = (d, refl, record { listed = λ e n. ground arith; keyed = λ e. refl })
  link_deps_lem d (dep ∷ deps) known = elim (Option-cases (get d dep)) [
    | inl absent ↦ absurd (ground (arith, known dep, eq_iff dep dep))
    | inr (ns, e) ↦
        let step = append_at-Adds d dep name ns e in
        let (d', linked, rest) =
          link_deps_lem (put d dep (ns ++ name ∷ [])) deps
            (λ x i. ground (arith, step.keyed x, known x)) in
        (
          d',
          rw (e, append_at) linked,
          record {
            listed = λ x n. ground (arith, step.listed x n, rest.listed x n, ==_comm dep x);
            keyed = λ x. rest.keyed x ∙ step.keyed x;
          },
        )
  ]

module _ (P : String → Bool) where
  -- Every dependency of every job satisfies `P`.
  abbrev pub DepsAll : List ScheduledCliJob → Type 0
  DepsAll = All (λ job. (dep : String) → elem dep job.depends_on ≡ true → P dep ≡ true)

  link_jobs_lem :
      (d : Links) (jobs : List ScheduledCliJob)
      → DepsAll jobs
      → ((dep : String) → P dep ≡ true → is_some (get d dep) ≡ true)
      → (d' : Links) × (link_jobs d jobs ≡ ok d') × Adds d d' (λ e n. edge_count e n jobs)
  unfolding link_jobs edge_count
  link_jobs_lem d [] deps known =
      (d, refl, record { listed = λ e n. omega arith; keyed = λ e. refl })
  link_jobs_lem d (job ∷ jobs) deps known =
      let (d1, linked, first) =
        link_deps_lem job.name d job.depends_on (λ x i. known x (deps.0 x i)) in
      let (d', linked', rest) = link_jobs_lem d1 jobs deps.1 (λ x p. first.keyed x ∙ known x p) in
      (
        d',
        rw linked linked',
        record {
          listed = λ x n. ground (arith, first.listed x n, rest.listed x n);
          keyed = λ x. rest.keyed x ∙ first.keyed x;
        },
      )

module _ (le : String → String → Bool) where
  has-sort_entries :
      (d : Links) (e : String) → is_some (get (sort_entries le d) e) ≡ is_some (get d e)
  unfolding sort_entries get
  has-sort_entries [] e = refl
  has-sort_entries ((k, ns) ∷ d) e = ground (arith, has-sort_entries d e)

  count-sort_entries :
      (d : Links) (e n : String)
      → count n (get_or (sort_entries le d) e []) ≡ count n (get_or d e [])
  unfolding sort_entries get_or get
  count-sort_entries [] e n = refl
  count-sort_entries ((k, ns) ∷ d) e n = elim (Bool-cases (k == e)) [
    | inl same ↦ rw same (count-sort le n ns)
    | inr other ↦ rw other (count-sort_entries d e n)
  ]

-- The table of successors, as its readers see it.
pub record IsLinked (jobs : List ScheduledCliJob) (succs : Dict (List String)) : Type 0 where
  pub listed : (e n : String) → count n (get_or succs e []) ≡ edge_count e n jobs
  pub keyed : (e : String) → is_some (get succs e) ≡ elem e (names jobs)

pub successors_lem :
    (jobs : List ScheduledCliJob)
    → DepsAll (λ dep. elem dep (names jobs)) jobs
    → (succs : Dict (List String)) × (successors jobs ≡ ok succs) × IsLinked jobs succs
unfolding successors get_or get count
successors_lem jobs known =
    let start = constant_from {V = List String} [] [] jobs in
    let has = λ (e : String). has-constant_from {V = List String} [] [] jobs e in
    let (d, linked, adds) =
      link_jobs_lem (λ dep. elem dep (names jobs)) start jobs known
        (λ dep i. ground (arith, has dep)) in
    (
      sort_entries (by_index jobs) d,
      rw linked,
      record {
        listed = λ e n.
            omega (arith, count-sort_entries (by_index jobs) d e n, adds.listed e n, empty_row e n);
        keyed = λ e. has-sort_entries (by_index jobs) d e ∙ adds.keyed e ∙ ground (arith, has e);
      },
    )
  where
    empty_row :
        (e n : String) → count n (get_or (constant_from {V = List String} [] [] jobs) e []) ≡ 0
    empty_row e n = ap (count n) (get_or-constant_from {V = List String} [] [] jobs e refl)
