-- ===== src/Normalize/Identifiers.antt =====
-- IdentifierPolicy of src/elt_pipeline/normalize/_policy.py. The names given so far are a dict from
-- physical names to logical paths, which a request takes and gives back.
use elt_pipeline.Prelude.{
  ℕ, zero, suc, ◌-◌, String, Bool, true, false, Option, none, some, List, [], ◌∷◌, ◌==◌, ◌&&◌, ◌||◌,
  leb, eqb, if◌then◌else◌, Attempt, ok, raise, map,
}
use Prim.Native.Char.{Char, code}
use elt_pipeline.Prelude.Text.{strip, concat}
use elt_pipeline.Prelude.Dict.{Dict, get, put}

-- The PipelineErrors of the naming.
pub data NamingError : Type 0 where
  length_too_small : ℕ → NamingError
  name_collision : String → String → NamingError

-- `[A-Za-z0-9]`
unfoldable pub is_alphanumeric : Char → Bool
is_alphanumeric ch =
    let c = code ch in leb 65 c && leb c 90 || leb 97 c && leb c 122 || leb 48 c && leb c 57

-- `_SAFE_IDENTIFIER.sub("_", value)`; the flag says that a run is being replaced.
unfoldable pub sub_unsafe : Bool → String → String
unfolding is_alphanumeric
sub_unsafe in_run String.[] = String.[]
sub_unsafe in_run (String.◌∷◌ c s) =
    let kept = sub_unsafe false s in
    let cut = sub_unsafe true s in
    if is_alphanumeric c then String.◌∷◌ c kept else if in_run then cut else concat "_" cut

abbrev pub is_underscore : Char → Bool
is_underscore c = eqb (code c) 95

-- `s.lstrip("_")` and `s.rstrip("_")`
unfoldable pub drop_left : String → String
drop_left String.[] = String.[]
drop_left (String.◌∷◌ c s) =
    let rest = drop_left s in if is_underscore c then rest else String.◌∷◌ c s

abbrev pub cons_unless : Char → String → String
cons_unless c String.[] = if is_underscore c then String.[] else String.◌∷◌ c String.[]
cons_unless c (String.◌∷◌ d s) = String.◌∷◌ c (String.◌∷◌ d s)

unfoldable pub drop_right : String → String
drop_right String.[] = String.[]
drop_right (String.◌∷◌ c s) = cons_unless c (drop_right s)

-- `len(s)` and `s[:n]`
abbrev pub size : String → ℕ
size String.[] = 0
size (String.◌∷◌ c s) = suc (size s)

abbrev pub first_chars : ℕ → String → String
first_chars zero s = String.[]
first_chars (suc n) String.[] = String.[]
first_chars (suc n) (String.◌∷◌ c s) = String.◌∷◌ c (first_chars n s)

abbrev pub join : String → List String → String
join separator [] = ""
join separator (s ∷ []) = s
join separator (s ∷ t ∷ rest) = concat s (concat separator (join separator (t ∷ rest)))

-- IdentifierPolicy without the names given. `lower` is `str.lower`, and `digest` the first eight
-- hexadecimal digits of the SHA-256 hash.
pub record Policy : Type 0 where
  pub max_identifier_length : ℕ
  pub separator : String
  pub lower : String → String
  pub digest : String → String

unfoldable pub sanitize_identifier : Policy → String → String
unfolding strip sub_unsafe drop_left drop_right
sanitize_identifier p value =
    let cleaned = drop_right (drop_left (sub_unsafe false (Policy.lower p (strip value)))) in
    if cleaned == "" then "value" else cleaned

unfoldable pub make_column_name : Policy → List String → String
unfolding sanitize_identifier
make_column_name p field_segments =
    join (Policy.separator p) (map (sanitize_identifier p) field_segments)

-- The names given so far, with the name that is given now.
abbrev pub Given : Type 0
Given = Dict String × String

-- `used_path in (None, logical_path)`
abbrev pub is_free : Option String → String → Bool
is_free none logical_path = true
is_free (some used_path) logical_path = used_path == logical_path

abbrev pub take_name : Dict String → String → String → Given
take_name names name logical_path = (put names name logical_path, name)

-- The prefix of the base name that leaves room for the suffix, with the suffix.
unfoldable pub candidate_name : Policy → String → String → String
unfolding drop_right
candidate_name p base_name logical_path =
    let suffix = concat (Policy.separator p) (Policy.digest p logical_path) in
    concat (drop_right (first_chars (Policy.max_identifier_length p - size suffix) base_name))
      suffix

unfoldable pub build_hashed_identifier :
    Policy → Dict String → String → String → Attempt NamingError Given
unfolding get put candidate_name
build_hashed_identifier p names base_name logical_path =
    let candidate = candidate_name p base_name logical_path in
    if leb (Policy.max_identifier_length p)
      (size (concat (Policy.separator p) (Policy.digest p logical_path)))
    then raise (length_too_small (Policy.max_identifier_length p))
    else if is_free (get names candidate) logical_path
    then ok (take_name names candidate logical_path)
    else raise (name_collision logical_path candidate)

-- `make_table_name`, from the base name.
unfoldable pub name_table : Policy → Dict String → String → String → Attempt NamingError Given
unfolding get put build_hashed_identifier
name_table p names base_name logical_path =
    let hashed = build_hashed_identifier p names base_name logical_path in
    if leb (size base_name) (Policy.max_identifier_length p)
      && is_free (get names base_name) logical_path
    then ok (take_name names base_name logical_path)
    else hashed

unfoldable pub make_table_name :
    Policy → List String → String → Dict String → Attempt NamingError Given
unfolding make_column_name name_table
make_table_name p name_segments logical_path names =
    name_table p names (make_column_name p name_segments) logical_path
