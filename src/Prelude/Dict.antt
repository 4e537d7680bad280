-- ===== src/Prelude/Dict.antt =====
-- Python's `dict` with string keys: the entries in the order of first insertion. Assignment to a
-- key that is there changes its value in place.
use Prim.Native.String.{String}
use mathlib.Core.Path.{◌≡◌, refl, ◌∙◌}
use mathlib.Core.Logic.{inl, inr}
use mathlib.Core.List.{List, [], ◌∷◌}
use mathlib.Core.Option.{Option, none, some}
use native.Mathlib.Omega.{arith}
use text.Mathlib.Text.{◌==◌}
use text.Mathlib.TextEquality.{eq_iff}
use elt_pipeline.Prelude.Tests.{if◌then◌else◌, Bool-cases}

abbrev pub Dict {ℓ} : Type ℓ → Type ℓ
Dict V = List (String × V)

pub ==_comm : (j k : String) → (j == k) ≡ (k == j)
==_comm j k = ground (arith, eq_iff j k, eq_iff k j)

module _ {ℓ} {V : Type ℓ} where
  -- `d.get(key)`
  unfoldable pub get : Dict V → String → Option V
  get [] key = none
  get ((first, value) ∷ rest) key =
      let later = get rest key in if first == key then some value else later

  -- `d[key] = value`
  unfoldable pub put : Dict V → String → V → Dict V
  put [] key new = (key, new) ∷ []
  put ((first, old) ∷ rest) key new =
      let later = put rest key new in
      if first == key then (first, new) ∷ rest else (first, old) ∷ later

  -- `d.get(key, default)`
  abbrev pub or_else : Option V → V → V
  or_else (some value) default = value
  or_else none default = default

  unfoldable pub get_or : Dict V → String → V → V
  unfolding get
  get_or d key default = or_else (get d key) default

  abbrev pub keys : Dict V → List String
  keys [] = []
  keys ((key, value) ∷ rest) = key ∷ keys rest

  pub get-put :
      (d : Dict V) (key other : String) (new : V)
      → get (put d key new) other ≡ (if key == other then some new else get d other)
  unfolding get put
  get-put [] key other new = refl
  get-put ((first, old) ∷ rest) key other new =
      let step = get-put rest key other new in
      ground (arith, step, eq_iff first other, eq_iff first key, eq_iff key other)

  pub get_or-put :
      (d : Dict V) (key other : String) (new default : V)
      → get_or (put d key new) other default
        ≡ (if key == other then new else get_or d other default)
  unfolding get_or
  get_or-put d key other new default = ground (arith, get-put d key other new)

  -- No key stands twice.
  abbrev pub IsUnique : Dict V → Type ℓ
  IsUnique [] = Unit
  IsUnique ((k, v) ∷ d) = (get d k ≡ none) × IsUnique d

  pub put-IsUnique : (d : Dict V) (k : String) (v : V) → IsUnique d → IsUnique (put d k v)
  unfolding put get
  put-IsUnique [] k v h = (refl, tt)
  put-IsUnique ((j, w) ∷ d) k v h = elim (Bool-cases (j == k)) [
    | inl same ↦ rw same h
    | inr other ↦
        rw other ((get-put d k j v ∙ rw (==_comm k j) (rw other h.0)), put-IsUnique d k v h.1)
  ]
