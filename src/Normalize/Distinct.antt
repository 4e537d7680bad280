-- ===== src/Normalize/Distinct.antt =====
-- Tables of different logical paths never share a name.
use elt_pipeline.Prelude.{
  String, true, Option, some, List, [], ◌∷◌, ◌==◌, ◌≡◌, ◌⊎◌, refl, sym, ap, ◌∙◌, subst, Bool-cases,
  inl, inr, eq_iff, eq_refl, Attempt, ok, raise, ◌>>=◌, >>=_returns,
}
use elt_pipeline.Prelude.Dict.{Dict, get, put, get-put}
use elt_pipeline.Normalize.Identifiers.{
  NamingError, Policy, Given, is_free, make_table_name, make_column_name,
}
use elt_pipeline.Normalize.Bounds.{name_table-Takes}

-- A table: the segments of its name and its logical path.
abbrev pub Table : Type 0
Table = List String × String

abbrev pub add_name : String → Attempt NamingError (List String) → Attempt NamingError (List String)
add_name name rest = rest >>= λ names. ok (name ∷ names)

-- The names of some tables, one after the other.
unfoldable pub name_all : Policy → List Table → Dict String → Attempt NamingError (List String)
unfolding make_table_name
name_all p [] names = ok []
name_all p (t ∷ ts) names =
    make_table_name p t.0 t.1 names >>= λ g. add_name g.1 (name_all p ts g.0)

-- One of the tables has this path and got this name.
abbrev pub Named : String → String → List Table → List String → Type 0
Named path name [] ns = ⊥
Named path name (t ∷ ts) [] = ⊥
Named path name (t ∷ ts) (n ∷ ns) = ((t.1 ≡ path) × (n ≡ name)) ⊎ Named path name ts ns

-- A name that was given to a path stays with it.
kept :
    (names : Dict String) (name path other_name other_path : String)
    → get names name ≡ some path
    → is_free (get names other_name) other_path ≡ true
    → get (put names other_name other_path) name ≡ some path
kept names name path other_name other_path has free = elim (Bool-cases (other_name == name)) [
  | inr apart ↦ get-put names other_name name other_path ∙ rw apart has
  | inl same ↦
      get-put names other_name name other_path
      ∙ rw same (
          ap (λ x. some x)
            (sym (
              (eq_iff path other_path).0 (
                subst (λ o. is_free o other_path ≡ true)
                  (ap (get names) ((eq_iff other_name name).0 same) ∙ has) free))))
]

abbrev pub Holds : Dict String → String → String → Type 0
Holds names name path = get names name ≡ some path

-- A name that is given now holds its path, and those given before still do.
pub make_table_name-Holds :
    (p : Policy) (segments : List String) (path : String) (names : Dict String) (g : Given)
    → make_table_name p segments path names ≡ ok g
    → ((name q : String) → Holds names name q → Holds g.0 name q) × Holds g.0 g.1 path
unfolding make_table_name
make_table_name-Holds p segments path names g returns =
    let takes = name_table-Takes p names (make_column_name p segments) path g returns in
    let names_eq = ap (λ (x : Given). x.0) takes.1 in
    (
      λ name q h.
          subst (λ d. get d name ≡ some q) (sym names_eq)
            (kept names name q takes.0 path h takes.2),
      subst (λ x. Holds x.0 x.1 path) (sym takes.1)
          (get-put names takes.0 takes.0 path ∙ rw (eq_refl takes.0) refl),
    )

-- After the names are given there are names that hold each of the tables, and those held before.
abbrev Held : Dict String → List Table → List String → Type 0
Held before ts ns =
    (after : Dict String) × ((name path : String) → Holds before name path → Holds after name path)
    × ((name path : String) → Named path name ts ns → Holds after name path)

add_name_ok :
    (name : String) (rest : Attempt NamingError (List String)) (ns : List String)
    → add_name name rest ≡ ok ns
    → (tail : List String) × (rest ≡ ok tail) × (ns ≡ name ∷ tail)
add_name_ok name (raise e) ns returns = absurd cc
add_name_ok name (ok tail) ns returns = (tail, refl, cc)

name_all-Held :
    (p : Policy) (ts : List Table) (names : Dict String) (ns : List String)
    → name_all p ts names ≡ ok ns
    → Held names ts ns
unfolding name_all
name_all-Held p [] names ns returns = (names, λ name path h. h, λ name path h. absurd h)
name_all-Held p (t ∷ ts) names ns returns =
    let first = >>=_returns (make_table_name p t.0 t.1 names) _ returns in
    let g = first.0 in
    let holds = make_table_name-Holds p t.0 t.1 names g first.1 in
    let split = add_name_ok g.1 (name_all p ts g.0) ns first.2 in
    let rest = name_all-Held p ts g.0 split.0 split.1 in
    subst (Held names (t ∷ ts)) (sym split.2) (
      rest.0,
      λ name path h. rest.1 name path (holds.0 name path h),
      λ name path h. elim h [
        | inl this ↦
            subst (λ n. Holds rest.0 n path) this.1
              (subst (Holds rest.0 g.1) this.0 (rest.1 g.1 t.1 holds.1))
        | inr later ↦ rest.2 name path later
      ],
    )

pub some_eq : {a b : String} → Path (Option String) (some a) (some b) → a ≡ b
some_eq {a} {b} e = cc

-- When a policy has named some tables from the start, two tables with one name have one logical path.
pub name_all_distinct :
    (p : Policy) (ts : List Table) (ns : List String) (name path other : String)
    → name_all p ts [] ≡ ok ns
    → Named path name ts ns
    → Named other name ts ns
    → path ≡ other
name_all_distinct p ts ns name path other returns one two =
    let held = name_all-Held p ts [] ns returns in
    some_eq (sym (held.2 name path one) ∙ held.2 name other two)
