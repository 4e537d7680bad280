-- ===== src/Normalize/Planner/Names.antt =====
-- Every table of a plan holds its physical name in the names that the policy has given.
use elt_pipeline.Prelude.{
  String, List, [], ◌∷◌, ◌++◌, ◌≡◌, subst, All, Attempt, ok, raise, >>=_returns,
}
use elt_pipeline.Prelude.Dict.{Dict}
use elt_pipeline.Normalize.Identifiers.{NamingError, Policy, Given, make_table_name}
use elt_pipeline.Normalize.Distinct.{Holds, make_table_name-Holds}
use elt_pipeline.Normalize.Plan.{
  SparkType, scalar_type, map_type, struct_type, array_type, StructFields, no_fields, struct_field,
  Schema, PlannedTable, join_path, lift_naming,
}
use elt_pipeline.Normalize.Planner.Described.{
  Below, tables_below, tables_below_element, tables_below_fields, element_of, described,
}

-- The name of a table belongs to its logical path.
abbrev pub IsNamed : Dict String → PlannedTable → Type 0
IsNamed names t = Holds names (PlannedTable.physical_table_name t) (PlannedTable.logical_path t)

abbrev Extends : Dict String → Dict String → Type 0
Extends names later = (name q : String) → Holds names name q → Holds later name q

-- Named tables, with names that extend those before.
abbrev AreNamed : Dict String → Below → Type 0
AreNamed names f = Extends names f.1 × All (IsNamed f.1) f.0

pub lift_naming_ok : (r : Attempt NamingError Given) {g : Given} → lift_naming r ≡ ok g → r ≡ ok g
lift_naming_ok (raise e) h = absurd cc
lift_naming_ok (ok g) h = cc

pub ok_eq : {E A : Type 0} {a b : A} → Path (Attempt E A) (ok a) (ok b) → a ≡ b
ok_eq h = cc

All-Extends :
    (ts : List PlannedTable) (names later : Dict String)
    → Extends names later
    → All (IsNamed names) ts
    → All (IsNamed later) ts
All-Extends [] names later more h = tt
All-Extends (t ∷ ts) names later more h = (more _ _ h.0, All-Extends ts names later more h.1)

All-both :
    (ts us : List PlannedTable) (names : Dict String)
    → All (IsNamed names) ts
    → All (IsNamed names) us
    → All (IsNamed names) (ts ++ us)
All-both [] us names h k = k
All-both (t ∷ ts) us names h k = (h.0, All-both ts us names h.1 k)

module _ (p : Policy) (value_column entity : String) where
  mutual
    unfolding tables_below

    below-AreNamed :
        (type : SparkType) (parent path : String) (segments : List String) (names : Dict String)
        (f : Below)
        → tables_below p value_column entity type parent path segments names ≡ ok f
        → AreNamed names f
    below-AreNamed scalar_type parent path segments names f h =
        subst (AreNamed names) (ok_eq h) (λ n q k. k, tt)
    below-AreNamed map_type parent path segments names f h =
        subst (AreNamed names) (ok_eq h) (λ n q k. k, tt)
    below-AreNamed (struct_type inner) parent path segments names f h =
        below_fields-AreNamed inner parent path segments names f h
    below-AreNamed (array_type element) parent path segments names f h =
        let naming =
          >>=_returns (lift_naming (make_table_name p (entity ∷ segments) path names)) _ h in
        let g = naming.0 in
        let holds =
          make_table_name-Holds p (entity ∷ segments) path names g (lift_naming_ok _ naming.1) in
        let rest =
          >>=_returns (tables_below_element p value_column entity element g.1 path g.0) _
            naming.2 in
        let named = below_element-AreNamed element g.1 path g.0 rest.0 rest.1 in
        subst (AreNamed names) (ok_eq rest.2)
          (λ n q k. named.0 n q (holds.0 n q k), (named.0 _ _ holds.1, named.1))

    pub below_element-AreNamed :
        (element : SparkType) (parent path : String) (names : Dict String) (f : Below)
        → tables_below_element p value_column entity element parent path names ≡ ok f
        → AreNamed names f
    below_element-AreNamed scalar_type parent path names f h =
        subst (AreNamed names) (ok_eq h) (λ n q k. k, tt)
    below_element-AreNamed map_type parent path names f h =
        subst (AreNamed names) (ok_eq h) (λ n q k. k, tt)
    below_element-AreNamed (struct_type inner) parent path names f h =
        below_fields-AreNamed inner parent path [] names f h
    below_element-AreNamed (array_type element) parent path names f h =
        subst (AreNamed names) (ok_eq h) (λ n q k. k, tt)

    below_fields-AreNamed :
        (inner : StructFields) (parent path : String) (segments : List String) (names : Dict String)
        (f : Below)
        → tables_below_fields p value_column entity inner parent path segments names ≡ ok f
        → AreNamed names f
    below_fields-AreNamed no_fields parent path segments names f h =
        subst (AreNamed names) (ok_eq h) (λ n q k. k, tt)
    below_fields-AreNamed (struct_field name type rest) parent path segments names f h =
        let first =
          >>=_returns
            (tables_below p value_column entity type parent (join_path path name)
              (segments ++ name ∷ []) names)
            _ h in
        let a =
          below-AreNamed type parent (join_path path name) (segments ++ name ∷ []) names first.0
            first.1 in
        let second =
          >>=_returns
            (tables_below_fields p value_column entity rest parent path segments first.0.1) _
            first.2 in
        let b = below_fields-AreNamed rest parent path segments first.0.1 second.0 second.1 in
        subst (AreNamed names) (ok_eq second.2) (
          λ n q k. b.0 n q (a.0 n q k),
          All-both first.0.0 second.0.0 second.0.1
              (All-Extends first.0.0 first.0.1 second.0.1 b.0 a.1) b.1,
        )

  pub described-AreNamed :
      (schema : Schema) (tables : List PlannedTable)
      → described p value_column entity schema ≡ ok tables
      → (names : Dict String) × All (IsNamed names) tables
  unfolding described
  described-AreNamed schema tables h =
      let naming = >>=_returns (lift_naming (make_table_name p (entity ∷ []) "$" [])) _ h in
      let g = naming.0 in
      let holds = make_table_name-Holds p (entity ∷ []) "$" [] g (lift_naming_ok _ naming.1) in
      let rest =
        >>=_returns (tables_below_element p value_column entity (element_of schema) g.1 "$" g.0) _
          naming.2 in
      let named = below_element-AreNamed (element_of schema) g.1 "$" g.0 rest.0 rest.1 in
      (rest.0.1, subst (All (IsNamed rest.0.1)) (ok_eq rest.2) (named.0 _ _ holds.1, named.1))
