-- ===== src/Config/Leaves.antt =====
-- What a path finds in merged configuration trees: the last layer that has something to say on it.
use elt_pipeline.Prelude.{
  String, Bool, true, false, Option, none, some, List, [], ◌∷◌, ◌==◌, ◌≡◌, refl, ap, ◌∙◌, subst,
  if◌then◌else◌, Bool-cases, inl, inr, All, arith, eq_iff, eq_refl,
}
use elt_pipeline.Prelude.Dict.{==_comm}
use elt_pipeline.Config.Tree.{
  Node, leaf, tree, Fields, empty, field, get_field, put_field, merge_two_dicts, merge_value,
  deep_merge, merge_from,
}

module _ {L : Type 0} where
  -- The leaf at a path below a value.
  unfoldable pub find_leaf : Option (Node L) → List String → Option L
  unfolding get_field
  find_leaf none ks = none
  find_leaf (some (leaf l)) [] = some l
  find_leaf (some (leaf l)) (k ∷ ks) = none
  find_leaf (some (tree d)) [] = none
  find_leaf (some (tree d)) (k ∷ ks) = find_leaf (get_field d k) ks

  -- A value settles a path if it has a value there or a leaf on the way.
  unfoldable pub settles : Option (Node L) → List String → Bool
  unfolding get_field
  settles none ks = false
  settles (some (leaf l)) ks = true
  settles (some (tree d)) [] = true
  settles (some (tree d)) (k ∷ ks) = settles (get_field d k) ks

  -- No dict in the tree has a key twice.
  unfoldable mutual
    pub IsTree : Node L → Type 0
    IsTree (leaf l) = Unit {0}
    IsTree (tree d) = IsFields d

    pub IsFields : Fields L → Type 0
    IsFields empty = Unit {0}
    IsFields (field k v rest) = (get_field rest k ≡ none) × IsTree v × IsFields rest

  abbrev pub IsTreeAt : Option (Node L) → Type 0
  IsTreeAt none = Unit {0}
  IsTreeAt (some v) = IsTree v

  pub get_field-IsTreeAt : (d : Fields L) (k : String) → IsFields d → IsTreeAt (get_field d k)
  unfolding get_field IsFields
  get_field-IsTreeAt empty k w = tt
  get_field-IsTreeAt (field j v rest) k w = elim (Bool-cases (j == k)) [
    | inl e ↦ rw e w.1
    | inr e ↦ rw e (get_field-IsTreeAt rest k w.2)
  ]

  get_field-put_field :
      (d : Fields L) (k other : String) (v : Node L)
      → get_field (put_field d k v) other ≡ (if k == other then some v else get_field d other)
  unfolding get_field put_field
  get_field-put_field empty k other v = refl
  get_field-put_field (field j w rest) k other v =
      let step = get_field-put_field rest k other v in
      ground (arith, step, eq_iff j other, eq_iff j k, eq_iff k other)

  abbrev merged_at : Option (Node L) → Option (Node L) → Option (Node L)
  merged_at old none = old
  merged_at old (some v) = some (merge_value old v)

  get_field-merge_two_dicts :
      (left right : Fields L) (k : String)
      → IsFields right
      → get_field (merge_two_dicts left right) k ≡ merged_at (get_field left k) (get_field right k)
  unfolding get_field merge_two_dicts IsFields
  get_field-merge_two_dicts left empty k w = refl
  get_field-merge_two_dicts left (field j v rest) k w =
      get_field-merge_two_dicts (put_field left j (merge_value (get_field left j) v)) rest k w.2
      ∙ rw (get_field-put_field left j k (merge_value (get_field left j) v))
          (elim (Bool-cases (j == k)) [
            | inl e ↦ rw ((eq_iff j k).0 e) (
                rw (eq_refl k)
                  (rw (subst (λ n. get_field rest n ≡ none) ((eq_iff j k).0 e) w.0) refl))
            | inr e ↦ rw e refl
          ])

  unsettled :
      (o : Option (Node L)) (ks : List String) → settles o ks ≡ false → find_leaf o ks ≡ none
  unfolding settles find_leaf
  unsettled none ks e = refl
  unsettled (some (leaf l)) ks e = absurd cc
  unsettled (some (tree d)) [] e = absurd cc
  unsettled (some (tree d)) (k ∷ ks) e = unsettled (get_field d k) ks e

  pub if_unsettled :
      (o : Option (Node L)) (ks : List String)
      → find_leaf o ks ≡ (if settles o ks then find_leaf o ks else none)
  if_unsettled o ks = elim (Bool-cases (settles o ks)) [
    | inl e ↦ rw e refl
    | inr e ↦ rw e (unsettled o ks e)
  ]

  pub find_leaf-merged_at :
      (old new : Option (Node L)) (ks : List String)
      → IsTreeAt new
      → find_leaf (merged_at old new) ks
        ≡ (if settles new ks then find_leaf new ks else find_leaf old ks)
  unfolding settles find_leaf merge_two_dicts IsFields
  find_leaf-merged_at old none ks w = refl
  find_leaf-merged_at old (some (leaf l)) ks w = refl
  find_leaf-merged_at none (some (tree d)) [] w = refl
  find_leaf-merged_at none (some (tree d)) (k ∷ ks) w = if_unsettled (get_field d k) ks
  find_leaf-merged_at (some (leaf l)) (some (tree d)) [] w = refl
  find_leaf-merged_at (some (leaf l)) (some (tree d)) (k ∷ ks) w = if_unsettled (get_field d k) ks
  find_leaf-merged_at (some (tree e)) (some (tree d)) [] w = refl
  find_leaf-merged_at (some (tree e)) (some (tree d)) (k ∷ ks) w =
      ap (λ o. find_leaf o ks) (get_field-merge_two_dicts e d k w)
      ∙ find_leaf-merged_at (get_field e k) (get_field d k) ks (get_field-IsTreeAt d k w)

  -- The leaf at a path of a dict.
  unfoldable pub leaf_at : Fields L → String → List String → Option L
  unfolding find_leaf
  leaf_at d k ks = find_leaf (get_field d k) ks

  abbrev pub settles_at : String → List String → Fields L → Bool
  settles_at k ks d = settles (get_field d k) ks

  -- The leaf that the last layer to settle the path has there, or that of the first.
  unfoldable pub last_leaf : Option L → List (Fields L) → String → List String → Option L
  unfolding leaf_at settles
  last_leaf before [] k ks = before
  last_leaf before (layer ∷ layers) k ks =
      last_leaf (if settles_at k ks layer then leaf_at layer k ks else before) layers k ks

  leaf_at-merge_from :
      (merged : Fields L) (layers : List (Fields L)) (k : String) (ks : List String)
      → All IsFields layers
      → leaf_at (merge_from merged layers) k ks ≡ last_leaf (leaf_at merged k ks) layers k ks
  unfolding leaf_at last_leaf
  leaf_at-merge_from merged [] k ks w = refl
  leaf_at-merge_from merged (layer ∷ layers) k ks w =
      leaf_at-merge_from (merge_two_dicts merged layer) layers k ks w.1
      ∙ ap (λ o. last_leaf o layers k ks)
          (ap (λ o. find_leaf o ks) (get_field-merge_two_dicts merged layer k w.0)
            ∙ find_leaf-merged_at (get_field merged k) (get_field layer k) ks
                (get_field-IsTreeAt layer k w.0))

  -- Merged layers whose dicts have no key twice have at each path the leaf of the last layer with
  -- a value there or with a leaf on the way to it, and none if there is no such layer.
  pub deep_merge_leaves :
      (layers : List (Fields L)) (k : String) (ks : List String)
      → All IsFields layers
      → leaf_at (deep_merge layers) k ks ≡ last_leaf none layers k ks
  unfolding deep_merge leaf_at
  deep_merge_leaves layers k ks w = leaf_at-merge_from empty layers k ks w

  put_field-IsFields :
      (d : Fields L) (k : String) (v : Node L) → IsFields d → IsTree v → IsFields (put_field d k v)
  unfolding put_field get_field IsFields
  put_field-IsFields empty k v w t = (refl, t, tt)
  put_field-IsFields (field j u rest) k v w t = elim (Bool-cases (j == k)) [
    | inl e ↦ rw e (w.0, t, w.2)
    | inr e ↦ rw e (
      (get_field-put_field rest k j v ∙ rw (==_comm k j) (rw e w.0)),
      w.1,
      put_field-IsFields rest k v w.2 t,
    )
  ]

  mutual
    unfolding merge_two_dicts IsFields

    merge_two_dicts-IsFields :
        (left right : Fields L)
        → IsFields left
        → IsFields right
        → IsFields (merge_two_dicts left right)
    merge_two_dicts-IsFields left empty l r = l
    merge_two_dicts-IsFields left (field k v rest) l r =
        merge_two_dicts-IsFields (put_field left k (merge_value (get_field left k) v)) rest
          (put_field-IsFields left k (merge_value (get_field left k) v) l
            (merge_value-IsTree (get_field left k) v (get_field-IsTreeAt left k l) r.1))
          r.2

    merge_value-IsTree :
        (old : Option (Node L)) (v : Node L) → IsTreeAt old → IsTree v → IsTree (merge_value old v)
    merge_value-IsTree old (leaf l) o w = tt
    merge_value-IsTree none (tree d) o w = w
    merge_value-IsTree (some (leaf l)) (tree d) o w = w
    merge_value-IsTree (some (tree e)) (tree d) o w = merge_two_dicts-IsFields e d o w

  merge_from-IsFields :
      (merged : Fields L) (layers : List (Fields L))
      → IsFields merged
      → All IsFields layers
      → IsFields (merge_from merged layers)
  merge_from-IsFields merged [] m w = m
  merge_from-IsFields merged (layer ∷ layers) m w =
      merge_from-IsFields (merge_two_dicts merged layer) layers
        (merge_two_dicts-IsFields merged layer m w.0) w.1

  -- Merged layers whose dicts have no key twice make a tree whose dicts have no key twice.
  pub deep_merge-IsFields :
      (layers : List (Fields L)) → All IsFields layers → IsFields (deep_merge layers)
  unfolding deep_merge IsFields
  deep_merge-IsFields layers w = merge_from-IsFields empty layers tt w
