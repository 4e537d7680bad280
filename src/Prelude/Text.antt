-- ===== src/Prelude/Text.antt =====
-- Python's `str.strip()` on texts.
use Prim.Native.Char.{Char, code}
use Prim.Native.String.{String, ◌++◌}
use Prim.Native.Nat.{ℕ, zero, suc, ◌-◌, ◌/◌, ◌%◌}
use mathlib.Core.Bool.{Bool, true, false, ◌&&◌, ◌||◌}
use elt_pipeline.Prelude.Tests.{leb, ltb, eqb, if◌then◌else◌}

-- The characters for which `str.isspace` holds.
unfoldable pub is_space : Char → Bool
is_space ch =
    let c = code ch in
    leb 9 c && leb c 13
    || leb 28 c && leb c 32
    || eqb c 0x85
    || eqb c 0xa0
    || eqb c 0x1680
    || leb 0x2000 c && leb c 0x200a
    || leb 0x2028 c && leb c 0x2029
    || eqb c 0x202f
    || eqb c 0x205f
    || eqb c 0x3000

unfoldable pub lstrip : String → String
unfolding is_space
lstrip String.[] = String.[]
lstrip (String.◌∷◌ c s) = let rest = lstrip s in if is_space c then rest else String.◌∷◌ c s

abbrev cons_strip : Char → String → String
cons_strip c String.[] = if is_space c then String.[] else String.◌∷◌ c String.[]
cons_strip c (String.◌∷◌ d s) = String.◌∷◌ c (String.◌∷◌ d s)

unfoldable pub rstrip : String → String
unfolding is_space
rstrip String.[] = String.[]
rstrip (String.◌∷◌ c s) = cons_strip c (rstrip s)

unfoldable pub strip : String → String
unfolding lstrip rstrip
strip s = rstrip (lstrip s)

abbrev starts_with : String → String → Bool
starts_with String.[] s = true
starts_with (String.◌∷◌ c old) String.[] = false
starts_with (String.◌∷◌ c old) (String.◌∷◌ d s) = eqb (code c) (code d) && starts_with old s

abbrev size : String → ℕ
size String.[] = 0
size (String.◌∷◌ c s) = suc (size s)

-- `s.replace(old, "")`, from the left, with the characters that are still to be passed over.
remove_from : String → String → ℕ → String
remove_from old String.[] skip = String.[]
remove_from old (String.◌∷◌ c s) (suc skip) = remove_from old s skip
remove_from old (String.◌∷◌ c s) zero =
    let cut = remove_from old s (size old - 1) in
    let kept = String.◌∷◌ c (remove_from old s 0) in
    if starts_with old (String.◌∷◌ c s) then cut else kept

unfoldable pub remove : String → String → String
unfolding remove_from
remove old s = remove_from old s 0

digit : ℕ → String
digit n =
    if eqb n 0
    then "0"
    else if eqb n 1
    then "1"
    else if eqb n 2
    then "2"
    else if eqb n 3
    then "3"
    else if eqb n 4
    then "4"
    else if eqb n 5
    then "5"
    else if eqb n 6
    then "6"
    else if eqb n 7
    then "7"
    else if eqb n 8
    then "8"
    else "9"

-- The decimal digits, with as many rounds as the number has units: each round divides by ten.
decimal_from : ℕ → ℕ → String
unfolding digit
decimal_from zero n = ""
decimal_from (suc rounds) n =
    let front = decimal_from rounds (n / 10) in
    if ltb n 10 then digit n else front ++ digit (n % 10)

unfoldable pub decimal : ℕ → String
unfolding decimal_from
decimal n = decimal_from (suc n) n

-- `s + t`, where `++` is that of lists.
abbrev pub concat : String → String → String
concat s t = s ++ t
