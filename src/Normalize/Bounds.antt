-- ===== src/Normalize/Bounds.antt =====
-- The length of a table name.
use elt_pipeline.Prelude.{
  ℕ, zero, suc, ◌+◌, ◌-◌, ◌≤◌, String, Bool, true, false, List, ◌≡◌, refl, sym, ap, ◌∙◌, subst, leb,
  if◌then◌else◌, ◌&&◌, Bool-cases, inl, inr, arith, Attempt, ok, raise,
}
use Prim.Native.Char.{Char}
use Prim.Native.String.append
use elt_pipeline.Prelude.Text.{concat}
use elt_pipeline.Prelude.Dict.{Dict, get}
use elt_pipeline.Normalize.Identifiers.{
  NamingError, Policy, Given, size, first_chars, drop_right, cons_unless, is_underscore, is_free,
  candidate_name, build_hashed_identifier, name_table, make_table_name, make_column_name, take_name,
}

size-concat : (s t : String) → size (concat s t) ≡ size s + size t
size-concat String.[] t = ap size (append.nil t) ∙ omega arith
size-concat (String.◌∷◌ c s) t = ap size (append.cons c s t) ∙ omega (arith, size-concat s t)

size-first_chars : (n : ℕ) (s : String) → size (first_chars n s) ≤ n
size-first_chars zero s = omega arith
size-first_chars (suc n) String.[] = omega arith
size-first_chars (suc n) (String.◌∷◌ c s) = omega (arith, size-first_chars n s)

size-cons_unless : (c : Char) (s : String) → size (cons_unless c s) ≤ suc (size s)
size-cons_unless c String.[] = elim (Bool-cases (is_underscore c)) [
  | inl e ↦ rw e (omega arith)
  | inr e ↦ rw e (omega arith)
]
size-cons_unless c (String.◌∷◌ d s) = omega arith

size-drop_right : (s : String) → size (drop_right s) ≤ size s
unfolding drop_right
size-drop_right String.[] = omega arith
size-drop_right (String.◌∷◌ c s) =
    omega (arith, size-cons_unless c (drop_right s), size-drop_right s)

size-candidate_name :
    (p : Policy) (base_name logical_path : String)
    → leb
        (Policy.max_identifier_length p)
        (size (concat (Policy.separator p) (Policy.digest p logical_path)))
      ≡ false
    → size (candidate_name p base_name logical_path) ≤ Policy.max_identifier_length p
unfolding candidate_name
size-candidate_name p base_name logical_path room =
    let suffix = concat (Policy.separator p) (Policy.digest p logical_path) in
    let cut = first_chars (Policy.max_identifier_length p - size suffix) base_name in
    ground (
      arith,
      room,
      size-concat (drop_right cut) suffix,
      size-drop_right cut,
      size-first_chars (Policy.max_identifier_length p - size suffix) base_name,
    )

abbrev Tried : Type 0
Tried = Attempt NamingError Given

abbrev taken : Given → Tried
taken g = ok g

given_eq : {a b : Given} → taken a ≡ taken b → a ≡ b
given_eq {a} {b} e = cc

-- A name that a request took: it was free and is within the length.
abbrev pub Takes : Policy → Dict String → String → Given → Type 0
Takes p names logical_path g =
    (name : String) × (g ≡ take_name names name logical_path)
    × (is_free (get names name) logical_path ≡ true)
    × (size name ≤ Policy.max_identifier_length p)

-- The two tests of a request, with the name that each branch takes.
hashed-Takes :
    (p : Policy) (names : Dict String) (name logical_path : String) (small free : Bool)
    (e f : NamingError) (g : Given)
    → is_free (get names name) logical_path ≡ free
    → (small ≡ false → size name ≤ Policy.max_identifier_length p)
    → (if small
        then raise e
        else if free
        then taken (take_name names name logical_path)
        else raise f)
      ≡ taken g
    → Takes p names logical_path g
hashed-Takes p names name logical_path true free e f g is fits returns = absurd cc
hashed-Takes p names name logical_path false false e f g is fits returns = absurd cc
hashed-Takes p names name logical_path false true e f g is fits returns =
    (name, sym (given_eq returns), is, fits refl)

build_hashed_identifier-Takes :
    (p : Policy) (names : Dict String) (base_name logical_path : String) (g : Given)
    → build_hashed_identifier p names base_name logical_path ≡ ok g
    → Takes p names logical_path g
unfolding build_hashed_identifier
build_hashed_identifier-Takes p names base_name logical_path g returns =
    hashed-Takes p names (candidate_name p base_name logical_path) logical_path
      (leb (Policy.max_identifier_length p)
        (size (concat (Policy.separator p) (Policy.digest p logical_path))))
      (is_free (get names (candidate_name p base_name logical_path)) logical_path) _ _ g refl
      (size-candidate_name p base_name logical_path) returns

based-Takes :
    (p : Policy) (names : Dict String) (name logical_path : String) (short free : Bool)
    (hashed : Tried) (g : Given)
    → is_free (get names name) logical_path ≡ free
    → (short ≡ true → size name ≤ Policy.max_identifier_length p)
    → (hashed ≡ taken g → Takes p names logical_path g)
    → (if short && free then taken (take_name names name logical_path) else hashed) ≡ taken g
    → Takes p names logical_path g
based-Takes p names name logical_path false free hashed g is fits other returns = other returns
based-Takes p names name logical_path true false hashed g is fits other returns = other returns
based-Takes p names name logical_path true true hashed g is fits other returns =
    (name, sym (given_eq returns), is, fits refl)

pub name_table-Takes :
    (p : Policy) (names : Dict String) (base_name logical_path : String) (g : Given)
    → name_table p names base_name logical_path ≡ ok g
    → Takes p names logical_path g
unfolding name_table
name_table-Takes p names base_name logical_path g returns =
    based-Takes p names base_name logical_path
      (leb (size base_name) (Policy.max_identifier_length p))
      (is_free (get names base_name) logical_path)
      (build_hashed_identifier p names base_name logical_path) g refl (λ e. ground (arith, e))
      (build_hashed_identifier-Takes p names base_name logical_path g) returns

-- A table name that a policy gives is at most as long as it allows.
pub make_table_name_bounded :
    (p : Policy) (name_segments : List String) (logical_path : String) (names : Dict String)
    (g : Given)
    → make_table_name p name_segments logical_path names ≡ ok g
    → size g.1 ≤ Policy.max_identifier_length p
unfolding make_table_name
make_table_name_bounded p name_segments logical_path names g returns =
    let takes =
      name_table-Takes p names (make_column_name p name_segments) logical_path g returns in
    subst (λ (given : Given). size given.1 ≤ Policy.max_identifier_length p) (sym takes.1) takes.3
