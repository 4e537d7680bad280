-- ===== src/Ingest/Kafka/Pending.antt =====
-- The messages that are left after some were consumed.
use elt_pipeline.Prelude.{
  ℕ, zero, suc, ◌+◌, ◌≤◌, ◌<◌, max, String, Bool, true, Option, none, some, List, [], ◌∷◌, ◌++◌,
  ◌==◌, ◌&&◌, ◌≡◌, ◌≢◌, refl, sym, ap, ◌∙◌, subst, leb, ltb, eqb, filter, sort, insert_sorted,
  if◌then◌else◌, All, Bool-cases, inl, inr, arith,
}
use elt_pipeline.Prelude.Int.{ℤ, pos, negsuc}
use elt_pipeline.Ingest.Kafka.{
  Config, Line, Message, from_start, read_line, add_message, read_log, by_offset, take, pending,
  max_offset,
}

-- The test of a message from an offset on.
abbrev pub reached : ℕ → Message → Bool
reached s m = leb s (Message.offset m)

-- No offset stands twice.
abbrev pub DistinctOffsets : List Message → Type 0
DistinctOffsets [] = Unit {0}
DistinctOffsets (m ∷ ms) = All (λ n. Message.offset n ≢ Message.offset m) ms × DistinctOffsets ms

-- The offsets rise.
abbrev pub Rising : List Message → Type 0
Rising [] = Unit {0}
Rising (m ∷ ms) = All (λ n. Message.offset m < Message.offset n) ms × Rising ms

All-insert_sorted :
    (P : Message → Type 0) (x : Message) (ms : List Message)
    → P x
    → All P ms
    → All P (insert_sorted by_offset x ms)
All-insert_sorted P x [] p a = (p, tt)
All-insert_sorted P x (m ∷ ms) p a = elim (Bool-cases (by_offset x m)) [
  | inl e ↦ rw e (p, a)
  | inr e ↦ rw e (a.0, All-insert_sorted P x ms p a.1)
]

above :
    (x m : Message) (ms : List Message)
    → Message.offset x < Message.offset m
    → All (λ n. Message.offset m < Message.offset n) ms
    → All (λ n. Message.offset x < Message.offset n) ms
above x m [] l a = tt
above x m (n ∷ ms) l a = (omega (arith, l, a.0), above x m ms l a.1)

lower_of :
    (x m : Message)
    → by_offset x m ≡ true
    → Message.offset m ≢ Message.offset x
    → Message.offset x < Message.offset m
lower_of x m e d = elim (Bool-cases (ltb (Message.offset x) (Message.offset m))) [
  | inl l ↦ ground (arith, l)
  | inr n ↦ absurd (d (ground (arith, e, n)))
]

Rising-insert_sorted :
    (x : Message) (ms : List Message)
    → All (λ n. Message.offset n ≢ Message.offset x) ms
    → Rising ms
    → Rising (insert_sorted by_offset x ms)
Rising-insert_sorted x [] d r = (tt, tt)
Rising-insert_sorted x (m ∷ ms) d r = elim (Bool-cases (by_offset x m)) [
  | inl e ↦ let lower = lower_of x m e d.0 in rw e ((lower, above x m ms lower r.0), r)
  | inr e ↦ rw e (
    All-insert_sorted (λ n. Message.offset m < Message.offset n) x ms (ground (arith, e)) r.0,
    Rising-insert_sorted x ms d.1 r.1,
  )
]

pub All-sort : (P : Message → Type 0) (ms : List Message) → All P ms → All P (sort by_offset ms)
All-sort P [] a = tt
All-sort P (m ∷ ms) a = All-insert_sorted P m (sort by_offset ms) a.0 (All-sort P ms a.1)

pub Rising-sort : (ms : List Message) → DistinctOffsets ms → Rising (sort by_offset ms)
Rising-sort [] d = tt
Rising-sort (m ∷ ms) d =
    Rising-insert_sorted m (sort by_offset ms)
      (All-sort (λ n. Message.offset n ≢ Message.offset m) ms d.0) (Rising-sort ms d.1)

-- Messages from an offset on can be taken out before or after the sort.
filter-insert_sorted :
    (s : ℕ) (x : Message) (ms : List Message)
    → filter (reached s) (insert_sorted by_offset x ms) ≡ (
        if reached s x
        then insert_sorted by_offset x (filter (reached s) ms)
        else filter (reached s) ms)
filter-insert_sorted s x [] = refl
filter-insert_sorted s x (m ∷ ms) = ground (arith, filter-insert_sorted s x ms)

filter-sort :
    (s : ℕ) (ms : List Message)
    → filter (reached s) (sort by_offset ms) ≡ sort by_offset (filter (reached s) ms)
filter-sort s [] = refl
filter-sort s (m ∷ ms) =
    filter-insert_sorted s m (sort by_offset ms) ∙ elim (Bool-cases (reached s m)) [
      | inl e ↦ rw e (ap (insert_sorted by_offset m) (filter-sort s ms))
      | inr e ↦ rw e (filter-sort s ms)
    ]

filter-add_message :
    (s : ℕ) (o : Option Message) (ms : List Message)
    → filter (reached s) (add_message o ms)
      ≡ filter (reached s) (add_message o []) ++ filter (reached s) ms
filter-add_message s none ms = refl
filter-add_message s (some m) ms = elim (Bool-cases (reached s m)) [
  | inl e ↦ rw e refl
  | inr e ↦ rw e refl
]

append_message :
    (o : Option Message) (ms : List Message) → add_message o ms ≡ add_message o [] ++ ms
append_message none ms = refl
append_message (some m) ms = refl

-- A line read from an earlier start, and then only if it is reached.
later_offset :
    (s s' : ℕ) (offset : ℤ) (content : String)
    → s ≤ s'
    → filter (reached s') (add_message (from_start s offset content) [])
      ≡ add_message (from_start s' offset content) []
later_offset s s' (negsuc n) content l = refl
later_offset s s' (pos n) content l = ground (arith, l)

later_line :
    (config : Config) (s s' : ℕ) (line : Line)
    → s ≤ s'
    → filter (reached s') (add_message (read_line config s line) [])
      ≡ add_message (read_line config s' line) []
later_line config s s' line l =
    elim (Bool-cases (
      Line.topic line == Config.topic config
      && eqb (Line.partition line) (Config.partition config))) [
        | inl e ↦ rw e (later_offset s s' (Line.offset line) (Line.content line) l)
        | inr e ↦ rw e refl
      ]

later_log :
    (config : Config) (s s' : ℕ) (lines : List Line)
    → s ≤ s'
    → filter (reached s') (read_log config s lines) ≡ read_log config s' lines
unfolding read_log
later_log config s s' [] l = refl
later_log config s s' (line ∷ lines) l =
    filter-add_message s' (read_line config s line) (read_log config s lines)
    ∙ rw (later_line config s s' line l, later_log config s s' lines l) refl
    ∙ sym (append_message (read_line config s' line) (read_log config s' lines))

pub later_pending :
    (config : Config) (s s' : ℕ) (lines : List Line)
    → s ≤ s'
    → filter (reached s') (pending config s lines) ≡ pending config s' lines
unfolding pending
later_pending config s s' lines l =
    filter-sort s' (read_log config s lines) ∙ ap (sort by_offset) (later_log config s s' lines l)

-- `messages[n:]`
abbrev pub drop : ℕ → List Message → List Message
drop zero ms = ms
drop (suc n) [] = []
drop (suc n) (m ∷ ms) = drop n ms

pub take-drop : (n : ℕ) (ms : List Message) → take n ms ++ drop n ms ≡ ms
take-drop zero ms = refl
take-drop (suc n) [] = refl
take-drop (suc n) (m ∷ ms) = ap (λ l. m ∷ l) (take-drop n ms)

pub max_offset-le : (best : ℕ) (ms : List Message) → best ≤ max_offset best ms
max_offset-le best [] = omega arith
max_offset-le best (m ∷ ms) = omega (arith, max_offset-le (max best (Message.offset m)) ms)

keep_all :
    (s : ℕ) (ms : List Message)
    → All (λ n. s < Message.offset n) ms
    → filter (reached (s + 1)) ms ≡ ms
keep_all s [] a = refl
keep_all s (m ∷ ms) a = ground (arith, a.0, keep_all s ms a.1)

bigger_is_max : (a b : ℕ) → a < b → max a b ≡ b
bigger_is_max a b l = omega (arith, l)

passed_over :
    (s : ℕ) (m : Message) (ms rest : List Message)
    → Message.offset m < s
    → filter (reached s) ms ≡ rest
    → filter (reached s) (m ∷ ms) ≡ rest
passed_over s m ms rest l e = ground (arith, l, e)

-- What lies behind the largest of the first messages, if the offsets rise: the rest.
pub behind_taken :
    (m : Message) (n : ℕ) (ms : List Message)
    → Rising (m ∷ ms)
    → filter (reached (max_offset (Message.offset m) (take n ms) + 1)) (m ∷ ms) ≡ drop n ms
behind_taken m zero ms r = let rest = keep_all (Message.offset m) ms r.0 in ground (arith, rest)
behind_taken m (suc n) [] r = ground arith
behind_taken m (suc n) (k ∷ ms) r =
    let bigger = bigger_is_max (Message.offset m) (Message.offset k) r.0.0 in
    let high = max_offset-le (Message.offset k) (take n ms) in
    let rest = behind_taken k n ms r.1 in
    subst (λ b. filter (reached (max_offset b (take n ms) + 1)) (m ∷ k ∷ ms) ≡ drop n ms)
      (sym bigger)
      (passed_over (max_offset (Message.offset k) (take n ms) + 1) m (k ∷ ms) (drop n ms)
        (omega (arith, high, r.0.0)) rest)
