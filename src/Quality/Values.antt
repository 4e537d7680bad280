-- ===== src/Quality/Values.antt =====
-- The values of a record, and their coercion to numbers and times.
use elt_pipeline.Prelude.{
  ℕ, zero, suc, String, Bool, true, false, not, Option, none, some, [], ◌∷◌, ◌==◌, ◌&&◌, ◌||◌, eqb,
  length, if◌then◌else◌,
}
use Prim.Native.Char.{code}
use elt_pipeline.Prelude.Text.{strip, concat}
use elt_pipeline.Prelude.Dict.{Dict, get}
use elt_pipeline.Quality.Host.{Host}

module _ (h : Host) where
  open h use {
    Num, Time, Nested, same_num, same_time, same_nested, in_utc, of_bool, parse_float, parse_int,
    from_timestamp, from_isoformat,
  }

  -- `nested` is a list or a dict; it has no hash.
  pub data Value : Type 0 where
    null : Value
    boolean : Bool → Value
    number : Num → Value
    text : String → Value
    moment : Time → Value
    nested : Nested → Value

  -- An element of the list of records, which need not be a dict.
  pub data Row : Type 0 where
    row : Dict Value → Row
    not_dict : Value → Row

  abbrev pub is_null : Value → Bool
  is_null null = true
  is_null _ = false

  abbrev pub is_hashable : Value → Bool
  is_hashable (nested s) = false
  is_hashable _ = true

  abbrev same_bool : Bool → Bool → Bool
  same_bool true b = b
  same_bool false b = not b

  -- `a == b`: a bool is a number.
  unfoldable pub same_value : Value → Value → Bool
  same_value null null = true
  same_value (boolean a) (boolean b) = same_bool a b
  same_value (boolean a) (number n) = same_num (of_bool a) n
  same_value (number n) (boolean b) = same_num n (of_bool b)
  same_value (number m) (number n) = same_num m n
  same_value (text s) (text t) = s == t
  same_value (moment a) (moment b) = same_time a b
  same_value (nested s) (nested t) = same_nested s t
  same_value _ _ = false

  abbrev has_dot_or_e : String → Bool
  has_dot_or_e String.[] = false
  has_dot_or_e (String.◌∷◌ c s) =
      eqb (code c) 46 || eqb (code c) 101 || eqb (code c) 69 || has_dot_or_e s

  -- The number that a text spells.
  abbrev pub numeric_text : String → Option Num
  numeric_text s = if s == "" then none else if has_dot_or_e s then parse_float s else parse_int s

  -- `_coerce_numeric`, where `none` is a missing value too.
  unfoldable pub coerce_numeric : Option Value → Option Num
  unfolding strip
  coerce_numeric none = none
  coerce_numeric (some null) = none
  coerce_numeric (some (boolean b)) = some (of_bool b)
  coerce_numeric (some (number n)) = some n
  coerce_numeric (some (text s)) = numeric_text (strip s)
  coerce_numeric (some (moment t)) = none
  coerce_numeric (some (nested s)) = none

  abbrev size : String → ℕ
  size String.[] = 0
  size (String.◌∷◌ c s) = suc (size s)

  -- `s[i] == "-"`
  abbrev dash_at : ℕ → String → Bool
  dash_at i String.[] = false
  dash_at zero (String.◌∷◌ c s) = eqb (code c) 45
  dash_at (suc i) (String.◌∷◌ c s) = dash_at i s

  -- A text that ends with "Z" is read with "+00:00" in its place.
  abbrev zone : String → String
  zone String.[] = String.[]
  zone (String.◌∷◌ c String.[]) = if eqb (code c) 90 then "+00:00" else String.◌∷◌ c String.[]
  zone (String.◌∷◌ c (String.◌∷◌ d s)) = String.◌∷◌ c (zone (String.◌∷◌ d s))

  abbrev or_from : Option Time → Option Time → Option Time
  or_from (some t) later = some (in_utc t)
  or_from none later = later

  abbrev pub datetime_text : String → Option Time
  datetime_text s =
      if s == ""
      then none
      else or_from (from_isoformat (zone s)) (
          if eqb (size s) 10 && dash_at 4 s
          then or_from (from_isoformat (zone (concat s "T00:00:00Z"))) none
          else none)

  -- `_coerce_datetime`. A bool is a number there too.
  unfoldable pub coerce_datetime : Value → Option Time
  unfolding strip
  coerce_datetime null = none
  coerce_datetime (moment t) = some (in_utc t)
  coerce_datetime (boolean b) = from_timestamp (of_bool b)
  coerce_datetime (number n) = from_timestamp n
  coerce_datetime (text s) = datetime_text (strip s)
  coerce_datetime (nested s) = none

  -- A record as a list of violations shows it.
  abbrev pub shown : Row → Dict Value
  shown (row d) = d
  shown (not_dict v) = ("record", v) ∷ []

  abbrev holds_at : Value → Option Value → Bool
  holds_at v none = false
  holds_at v (some w) = same_value v w

  -- `a == b` on dicts.
  abbrev has_entries : Dict Value → Dict Value → Bool
  has_entries [] b = true
  has_entries ((k, v) ∷ a) b = holds_at v (get b k) && has_entries a b

  unfoldable pub same_dict : Dict Value → Dict Value → Bool
  unfolding get same_value
  same_dict a b = eqb (length a) (length b) && has_entries a b
