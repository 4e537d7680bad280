-- ===== src/Quality/Unique.antt =====
-- The loop of `_check_uniqueness`.
use elt_pipeline.Prelude.{
  ℕ, String, Bool, true, false, not, Option, none, some, List, [], ◌∷◌, ◌++◌, ◌&&◌, all, any, map,
  if◌then◌else◌, Attempt, ok, raise, ◌>>=◌, zero, suc,
}
use elt_pipeline.Prelude.Dict.{Dict, get, or_else}
use elt_pipeline.Quality.Host.{Host}
use elt_pipeline.Quality.Values.{
  Value, null, Row, row, not_dict, shown, is_null, is_hashable, same_value, same_dict,
}
use elt_pipeline.Quality.Rows.{Unhashable, unhashable}

module _ (h : Host) where
  -- The tuple of `record.get(col)`.
  abbrev pub Key : Type 0
  Key = List (Value h)

  unfoldable pub key_of : List String → Dict (Value h) → Key
  unfolding get
  key_of cols d = map (λ col. or_else (get d col) null) cols

  -- `a == b` on tuples.
  unfoldable pub same_key : Key → Key → Bool
  unfolding same_value
  same_key [] [] = true
  same_key (v ∷ a) (w ∷ b) = same_value h v w && same_key a b
  same_key a b = false

  -- `seen`, and the number of times a key was seen again.
  abbrev pub Seen : Type 0
  Seen = List (Key × ℕ)

  unfoldable pub find_seen : Key → Seen → Option ℕ
  unfolding same_key
  find_seen key [] = none
  find_seen key ((k, n) ∷ seen) =
      let later = find_seen key seen in if same_key key k then some n else later

  -- `seen[key] = seen[key] + 1`
  unfoldable pub see_again : Key → Seen → Seen
  unfolding same_key
  see_again key [] = []
  see_again key ((k, n) ∷ seen) =
      let later = see_again key seen in if same_key key k then (k, suc n) ∷ seen else (k, n) ∷ later

  pub record Found : Type 0 where
    pub seen : Seen
    pub duplicates : List (Dict (Value h))

  -- The scan that adds the first record with the key that is not yet among the duplicates.
  unfoldable pub add_first :
      List String → Key → List (Row h) → List (Dict (Value h)) → List (Dict (Value h))
  unfolding key_of same_key same_dict
  add_first cols key [] duplicates = duplicates
  add_first cols key (not_dict v ∷ rows) duplicates = add_first cols key rows duplicates
  add_first cols key (row r ∷ rows) duplicates =
      let rest = add_first cols key rows duplicates in
      if same_key (key_of cols r) key && not (any (same_dict h r) duplicates)
      then duplicates ++ r ∷ []
      else rest

  abbrev pub again : List String → List (Row h) → Key → Dict (Value h) → ℕ → Found → Found
  again cols records key d zero found = record {
    seen = see_again key (Found.seen found);
    duplicates = add_first cols key records (Found.duplicates found ++ d ∷ []);
  }
  again cols records key d (suc n) found = record {
    seen = see_again key (Found.seen found);
    duplicates = Found.duplicates found ++ d ∷ [];
  }

  abbrev pub keyed : List String → List (Row h) → Key → Dict (Value h) → Option ℕ → Found → Found
  keyed cols records key d none found = record {
    seen = Found.seen found ++ (key, 0) ∷ [];
    duplicates = Found.duplicates found;
  }
  keyed cols records key d (some n) found = again cols records key d n found

  -- The body of the loop for a dict.
  unfoldable pub visit_row :
      List String → List (Row h) → Dict (Value h) → Found → Attempt Unhashable Found
  unfolding key_of find_seen add_first see_again
  visit_row cols records d found =
      let key = key_of cols d in
      if all (is_null h) key
      then ok (record { seen = Found.seen found; duplicates = Found.duplicates found ++ d ∷ [] })
      else if all (is_hashable h) key
      then ok (keyed cols records key d (find_seen key (Found.seen found)) found)
      else raise unhashable

  unfoldable pub visit_all :
      List String → List (Row h) → List (Row h) → Found → Attempt Unhashable Found
  unfolding visit_row
  visit_all cols records [] found = ok found
  visit_all cols records (not_dict v ∷ rows) found = visit_all cols records rows record {
    seen = Found.seen found;
    duplicates = Found.duplicates found ++ shown h (not_dict v) ∷ [];
  }
  visit_all cols records (row d ∷ rows) found =
      visit_row cols records d found >>= visit_all cols records rows

  unfoldable pub duplicates_of :
      List String → List (Row h) → Attempt Unhashable (List (Dict (Value h)))
  unfolding visit_all
  duplicates_of cols records =
      visit_all cols records records record { seen = []; duplicates = [] } >>= λ found.
      ok (Found.duplicates found)
