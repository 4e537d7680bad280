-- ===== src/Config/Tree.antt =====
-- Configuration trees and `_deep_merge`. A dict's keys stand in the order of first insertion.
use elt_pipeline.Prelude.{String, Option, none, some, List, [], ◌∷◌, ◌==◌, if◌then◌else◌}

-- `leaf` is a value that is no dict: a text, a number, a list.
mutual
  pub data Node (L : Type 0) : Type 0 where
    leaf : L → Node L
    tree : Fields L → Node L

  pub data Fields (L : Type 0) : Type 0 where
    empty : Fields L
    field : String → Node L → Fields L → Fields L

module _ {L : Type 0} where
  -- `d.get(key)`
  unfoldable pub get_field : Fields L → String → Option (Node L)
  get_field empty key = none
  get_field (field k v rest) key =
      let later = get_field rest key in if k == key then some v else later

  -- `d[key] = value`
  unfoldable pub put_field : Fields L → String → Node L → Fields L
  put_field empty key new = field key new empty
  put_field (field k v rest) key new =
      let later = put_field rest key new in if k == key then field k new rest else field k v later

  unfoldable mutual
    unfolding get_field put_field

    -- `_merge_two_dicts(left, right)`
    pub merge_two_dicts : Fields L → Fields L → Fields L
    merge_two_dicts left empty = left
    merge_two_dicts left (field key value rest) =
        merge_two_dicts (put_field left key (merge_value (get_field left key) value)) rest

    -- The value that a key gets: two dicts are merged, and else the right one stands.
    pub merge_value : Option (Node L) → Node L → Node L
    merge_value old (leaf l) = leaf l
    merge_value none (tree right) = tree right
    merge_value (some (leaf l)) (tree right) = tree right
    merge_value (some (tree left)) (tree right) = tree (merge_two_dicts left right)

  abbrev pub merge_from : Fields L → List (Fields L) → Fields L
  merge_from merged [] = merged
  merge_from merged (layer ∷ layers) = merge_from (merge_two_dicts merged layer) layers

  -- `_deep_merge(*layers)`
  unfoldable pub deep_merge : List (Fields L) → Fields L
  unfolding merge_two_dicts
  deep_merge layers = merge_from empty layers
