-- ===== src/Normalize/Planner/Parents.antt =====
-- Each table below the root stands after its parent, which lists its array.
use elt_pipeline.Prelude.{
  String, none, some, List, [], ◌∷◌, ◌++◌, ◌≡◌, ◌⊎◌, inl, inr, refl, subst, ok, >>=_returns,
}
use elt_pipeline.Prelude.Dict.{Dict}
use elt_pipeline.Normalize.Identifiers.{Policy, make_table_name}
use elt_pipeline.Normalize.Plan.{
  SparkType, scalar_type, map_type, struct_type, array_type, StructFields, no_fields, struct_field,
  Schema, PlannedArrayExplosion, PlannedTable, join_path, lift_naming,
}
use elt_pipeline.Normalize.Planner.Described.{
  Below, arrays_of, arrays_of_fields, arrays_of_element, table_of, tables_below,
  tables_below_element, tables_below_fields, element_of, described,
}
use elt_pipeline.Normalize.Planner.Names.{ok_eq}

-- An explosion with this path is in a list.
abbrev pub Lists : String → List PlannedArrayExplosion → Type 0
Lists path [] = ⊥
Lists path (e ∷ es) = (PlannedArrayExplosion.child_table_logical_path e ≡ path) ⊎ Lists path es

Lists-left :
    (path : String) (es fs : List PlannedArrayExplosion) → Lists path es → Lists path (es ++ fs)
Lists-left path [] fs h = absurd h
Lists-left path (e ∷ es) fs (inl here) = inl here
Lists-left path (e ∷ es) fs (inr later) = inr (Lists-left path es fs later)

Lists-right :
    (path : String) (es fs : List PlannedArrayExplosion) → Lists path fs → Lists path (es ++ fs)
Lists-right path [] fs h = h
Lists-right path (e ∷ es) fs h = inr (Lists-right path es fs h)

-- Which arrays are on offer: the name of the table and the path.
abbrev pub Offers : Type 1
Offers = String → String → Type 0

-- A table with this name lists the path.
abbrev pub OfferedBy : PlannedTable → Offers
OfferedBy t name path =
    (PlannedTable.physical_table_name t ≡ name) × Lists path (PlannedTable.child_arrays t)

abbrev pub With : Offers → PlannedTable → Offers
With S t name path = S name path ⊎ OfferedBy t name path

-- Each table's array is on offer before it.
abbrev pub Hangs : Offers → List PlannedTable → Type 0
Hangs S [] = Unit
Hangs S (t ∷ ts) =
    ((name : String) × (PlannedTable.parent_table_name t ≡ some name)
      × S name (PlannedTable.logical_path t))
    × Hangs (With S t) ts

Hangs-more :
    (ts : List PlannedTable) (S R : Offers)
    → ((name path : String) → S name path → R name path)
    → Hangs S ts
    → Hangs R ts
Hangs-more [] S R more h = tt
Hangs-more (t ∷ ts) S R more ((name, parent, offered), rest) = (
  (name, parent, more name _ offered),
  Hangs-more ts (With S t) (With R t)
      (λ n q k. elim k [ inl before ↦ inl (more n q before) | inr this ↦ inr this ]) rest,
)

Hangs-both : (ts us : List PlannedTable) (S : Offers) → Hangs S ts → Hangs S us → Hangs S (ts ++ us)
Hangs-both [] us S h k = k
Hangs-both (t ∷ ts) us S h k =
    (h.0, Hangs-both ts us (With S t) h.1 (Hangs-more us S (With S t) (λ n q o. inl o) k))

-- A table offers all of some arrays.
abbrev OffersAll : Offers → String → List PlannedArrayExplosion → Type 0
OffersAll S parent es = (path : String) → Lists path es → S parent path

-- A plan is a root table without a parent, and tables below it.
abbrev pub IsTree : List PlannedTable → Type 0
IsTree [] = ⊥
IsTree (root ∷ rest) = (PlannedTable.parent_table_name root ≡ none) × Hangs (OfferedBy root) rest

module _ (p : Policy) (value_column entity : String) where
  mutual
    unfolding tables_below arrays_of

    below-Hangs :
        (type : SparkType) (parent path : String) (segments : List String) (names : Dict String)
        (f : Below) (S : Offers)
        → OffersAll S parent (arrays_of p value_column entity type path segments)
        → tables_below p value_column entity type parent path segments names ≡ ok f
        → Hangs S f.0
    below-Hangs scalar_type parent path segments names f S o h =
        subst (λ (x : Below). Hangs S x.0) (ok_eq h) tt
    below-Hangs map_type parent path segments names f S o h =
        subst (λ (x : Below). Hangs S x.0) (ok_eq h) tt
    below-Hangs (struct_type inner) parent path segments names f S o h =
        below_fields-Hangs inner parent path segments names f S o h
    below-Hangs (array_type element) parent path segments names f S o h =
        let naming =
          >>=_returns (lift_naming (make_table_name p (entity ∷ segments) path names)) _ h in
        let g = naming.0 in
        let rest =
          >>=_returns (tables_below_element p value_column entity element g.1 path g.0) _
            naming.2 in
        subst (λ (x : Below). Hangs S x.0) (ok_eq rest.2)
          (
            (parent, refl, o path (inl refl)),
            below_element-Hangs element g.1 path g.0 rest.0
                (With S (table_of p value_column entity element path g.1 (some parent)))
                (λ q l. inr (refl, l)) rest.1,
          )

    below_element-Hangs :
        (element : SparkType) (parent path : String) (names : Dict String) (f : Below) (S : Offers)
        → OffersAll S parent (arrays_of_element p value_column entity element path)
        → tables_below_element p value_column entity element parent path names ≡ ok f
        → Hangs S f.0
    below_element-Hangs scalar_type parent path names f S o h =
        subst (λ (x : Below). Hangs S x.0) (ok_eq h) tt
    below_element-Hangs map_type parent path names f S o h =
        subst (λ (x : Below). Hangs S x.0) (ok_eq h) tt
    below_element-Hangs (struct_type inner) parent path names f S o h =
        below_fields-Hangs inner parent path [] names f S o h
    below_element-Hangs (array_type element) parent path names f S o h =
        subst (λ (x : Below). Hangs S x.0) (ok_eq h) tt

    below_fields-Hangs :
        (inner : StructFields) (parent path : String) (segments : List String) (names : Dict String)
        (f : Below) (S : Offers)
        → OffersAll S parent (arrays_of_fields p value_column entity inner path segments)
        → tables_below_fields p value_column entity inner parent path segments names ≡ ok f
        → Hangs S f.0
    below_fields-Hangs no_fields parent path segments names f S o h =
        subst (λ (x : Below). Hangs S x.0) (ok_eq h) tt
    below_fields-Hangs (struct_field name type rest) parent path segments names f S o h =
        let first =
          >>=_returns
            (tables_below p value_column entity type parent (join_path path name)
              (segments ++ name ∷ []) names)
            _ h in
        let second =
          >>=_returns
            (tables_below_fields p value_column entity rest parent path segments first.0.1) _
            first.2 in
        subst (λ (x : Below). Hangs S x.0) (ok_eq second.2)
          (Hangs-both first.0.0 second.0.0 S
            (below-Hangs type parent (join_path path name) (segments ++ name ∷ []) names first.0 S
              (λ q l. o q (Lists-left q _ _ l)) first.1)
            (below_fields-Hangs rest parent path segments first.0.1 second.0 S
              (λ q l. o q (Lists-right q _ _ l)) second.1))

  pub described-IsTree :
      (schema : Schema) (tables : List PlannedTable)
      → described p value_column entity schema ≡ ok tables
      → IsTree tables
  unfolding described
  described-IsTree schema tables h =
      let naming = >>=_returns (lift_naming (make_table_name p (entity ∷ []) "$" [])) _ h in
      let g = naming.0 in
      let rest =
        >>=_returns (tables_below_element p value_column entity (element_of schema) g.1 "$" g.0) _
          naming.2 in
      subst IsTree (ok_eq rest.2) (
        refl,
        below_element-Hangs (element_of schema) g.1 "$" g.0 rest.0
            (OfferedBy (table_of p value_column entity (element_of schema) "$" g.1 none))
            (λ q l. (refl, l)) rest.1,
      )
