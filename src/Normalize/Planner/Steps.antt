-- ===== src/Normalize/Planner/Steps.antt =====
-- Single steps of the builder on its store of tables.
use elt_pipeline.Prelude.{
  ℕ, String, Bool, true, none, some, List, [], ◌∷◌, ◌++◌, ◌≡◌, refl, sym, ap, ◌∙◌, length,
  length-append, arith, Attempt, ok, raise, ◌>>=◌,
}
use mathlib.Core.List.{append-nil, append_assoc, map-append}
use elt_pipeline.Prelude.Dict.{Dict}
use elt_pipeline.Normalize.Identifiers.{Given, join}
use elt_pipeline.Normalize.Plan.{
  TableColumnMapping, PlannedArrayExplosion, PlannedTable, text, PlanningError, Builder, Frame,
  existing, get_existing, register_scalar, table_at, change_at, on_table, new_table,
}
use elt_pipeline.Normalize.Planner.Described.{Column, grow, Below}

-- Chains.
module _ {E A B : Type 0} where
  pub bind_same :
      (r : Attempt E A) (f g : A → Attempt E B) → ((a : A) → f a ≡ g a) → (r >>= f) ≡ (r >>= g)
  bind_same (raise e) f g h = refl
  bind_same (ok a) f g h = h a

  pub bind_assoc :
      {C : Type 0} (r : Attempt E A) (f : A → Attempt E B) (g : B → Attempt E C)
      → (r >>= f >>= g) ≡ (r >>= λ a. f a >>= g)
  bind_assoc (raise e) f g = refl
  bind_assoc (ok a) f g = refl

-- A lookup by a text finds no field of a model.
get_existing-none :
    (ms : List TableColumnMapping) (path : String) → get_existing (existing ms) (text path) ≡ none
unfolding get_existing
get_existing-none [] path = refl
get_existing-none (m ∷ ms) path = rw (get_existing-none ms path) refl

-- So a registered column is always added.
pub register_scalar-grow :
    (t : PlannedTable) (c : Column)
    → register_scalar t (Column.path c) (Column.physical_name c) (Column.accessor c)
      ≡ ok (grow t (c ∷ []) [])
unfolding register_scalar
register_scalar-grow t c =
    rw (get_existing-none (PlannedTable.column_mappings t) (Column.path c))
      (rw (append-nil {A = PlannedArrayExplosion}) refl)

pub table_at-length :
    (before after : List PlannedTable) (t : PlannedTable)
    → table_at (length before) (before ++ t ∷ after) ≡ ok t
unfolding table_at
table_at-length [] after t = refl
table_at-length (u ∷ us) after t = table_at-length us after t

pub change_at-length :
    (before after : List PlannedTable) (t t' : PlannedTable)
    (change : PlannedTable → Attempt PlanningError PlannedTable)
    → change t ≡ ok t'
    → change_at (length before) change (before ++ t ∷ after) ≡ ok (before ++ t' ∷ after)
unfolding change_at
change_at-length [] after t t' change h = rw h refl
change_at-length (u ∷ us) after t t' change h = rw (change_at-length us after t t' change h) refl

pub grow-nil : (t : PlannedTable) → grow t [] [] ≡ t
grow-nil t =
    rw (append-nil {A = TableColumnMapping})
      (rw (append-nil {A = String × String}) (rw (append-nil {A = PlannedArrayExplosion}) refl))

grow-grow :
    (t : PlannedTable) (cs ds : List Column) (es fs : List PlannedArrayExplosion)
    → grow (grow t cs es) ds fs ≡ grow t (cs ++ ds) (es ++ fs)
grow-grow t cs ds es fs = simp (map-append, append_assoc)

-- A store in which the frame's table stands between others.
abbrev pub store : List PlannedTable → PlannedTable → List PlannedTable → Dict String → Builder
store before t after names = record { tables = before ++ t ∷ after; names = names }

abbrev pub frame_at : List PlannedTable → Bool → Frame
frame_at before item = record { planned = length before; is_array_item = item }

abbrev pub item_frame_at : ℕ → Frame
item_frame_at i = record { planned = i; is_array_item = true }

-- The frame's table has grown, and tables stand at the end.
abbrev pub grown :
    List PlannedTable
    → PlannedTable
    → List PlannedTable
    → List Column
    → List PlannedArrayExplosion
    → Below
    → Attempt PlanningError Builder
grown before t after columns arrays f = ok (store before (grow t columns arrays) (after ++ f.0) f.1)

pub grown-column :
    (before after : List PlannedTable) (t : PlannedTable) (names : Dict String) (item : Bool)
    (c : Column)
    → on_table
        (frame_at before item)
        (λ u. register_scalar u (Column.path c) (Column.physical_name c) (Column.accessor c))
        (store before t after names)
      ≡ grown before t after (c ∷ []) [] ([], names)
grown-column before after t names item c =
    rw (change_at-length before after t (grow t (c ∷ []) []) _ (register_scalar-grow t c))
      (rw (append-nil {A = PlannedTable}) refl)

grown-grown :
    (before after : List PlannedTable) (t : PlannedTable) (cs ds : List Column)
    (es fs : List PlannedArrayExplosion) (f g : Below)
    → grown before (grow t cs es) (after ++ f.0) ds fs g
      ≡ grown before t after (cs ++ ds) (es ++ fs) (f.0 ++ g.0, g.1)
grown-grown before after t cs ds es fs f g =
    rw (grow-grow t cs ds es fs) (rw (append_assoc after f.0 g.0) refl)

-- A step that grows the table, and then one that grows it again.
module _ (before after : List PlannedTable) (t : PlannedTable) where
  pub grown_twice :
      (first : Attempt PlanningError Below) (cs ds : List Column)
      (es fs : List PlannedArrayExplosion) (walked : Attempt PlanningError Builder)
      (walk : Builder → Attempt PlanningError Builder)
      (second : Below → Attempt PlanningError Below)
      → walked ≡ (first >>= grown before t after cs es)
      → ((f : Below)
          → walk (store before (grow t cs es) (after ++ f.0) f.1)
            ≡ (second f >>= grown before (grow t cs es) (after ++ f.0) ds fs))
      → (walked >>= walk) ≡ (
          (first >>= λ f. second f >>= λ g. ok (f.0 ++ g.0, g.1))
          >>= grown before t after (cs ++ ds) (es ++ fs))
  grown_twice first cs ds es fs walked walk second walks walks_on =
      ap (λ r. r >>= walk) walks
      ∙ bind_assoc first _ walk
      ∙ bind_same first _ _ (λ f.
        walks_on f
        ∙ bind_same (second f) _ _ (grown-grown before after t cs ds es fs f)
        ∙ sym (bind_assoc (second f) _ _))
      ∙ sym (bind_assoc first _ _)

  -- The explosion of an array at a path.
  abbrev pub array_at : String → List String → PlannedArrayExplosion
  array_at path segments = record {
    array_accessor = join "." segments;
    child_table_logical_path = path;
  }

  -- The tables before the new one.
  abbrev pub with_array : PlannedArrayExplosion → List PlannedTable
  with_array e = before ++ grow t [] (e ∷ []) ∷ after

  abbrev pub child_table : String → Given → PlannedTable
  child_table path g = new_table path g.1 (some (PlannedTable.physical_table_name t))

  abbrev pub opened : String → PlannedArrayExplosion → Given → Attempt PlanningError Builder
  opened path e g = ok (store (with_array e) (child_table path g) [] g.0)

  pub item_frame-length :
      (e : PlannedArrayExplosion) → length (before ++ t ∷ after) ≡ length (with_array e)
  item_frame-length e =
      omega
        (arith, length-append before (t ∷ after), length-append before (grow t [] (e ∷ []) ∷ after))

  -- A child table is opened, and then filled with the tables below it after it.
  pub opened_below :
      (path : String) (e : PlannedArrayExplosion) (naming : Attempt PlanningError Given)
      (walk : Builder → Attempt PlanningError Builder)
      (second : Given → Attempt PlanningError Below) (cs : List Column)
      (es : List PlannedArrayExplosion)
      → ((g : Given)
          → walk (store (with_array e) (child_table path g) [] g.0)
            ≡ (second g >>= grown (with_array e) (child_table path g) [] cs es))
      → (naming >>= opened path e >>= walk) ≡ (
          (naming >>= λ g. second g >>= λ f. ok (grow (child_table path g) cs es ∷ f.0, f.1))
          >>= grown before t after [] (e ∷ []))
  opened_below path e naming walk second cs es walks =
      bind_assoc naming _ walk
      ∙ bind_same naming _ _ (λ g.
        walks g
        ∙ bind_same (second g) _ _ (λ f. rw append_assoc refl)
        ∙ sym (bind_assoc (second g) _ _))
      ∙ sym (bind_assoc naming _ _)
