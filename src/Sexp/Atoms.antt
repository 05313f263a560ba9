-- ===== src/Sexp/Atoms.antt =====
-- Strings and literals that are parsed, with the hashes that their accumulators compute.
use adam.Base.{
  ℕ, ◌+◌, ◌<◌, ◌^◌, ◌≡◌, ◌≢◌, refl, sym, ◌∙◌, ap, true, false, ◌==◌, [], ◌∷◌, ◌++◌, length, arith,
}
use adam.Stringpool.{Str, hash_func, Accumulator, accumulator_init, accumulator_next, accumulate}
use adam.Stringpool.Intern.{take}
use adam.Stringpool.Accumulate.{IsBytes, accumulator_hash-hash_func}
use adam.Sexp.{pooled, str, lit}
use adam.Sexp.Parse.{
  cursor, parsed, string_loop, parse_string, literal_loop, parse_literal, query_accumulator,
  ends_literal, minus,
}

-- The text before the pointer once `s` is read.
abbrev pub back : Str → Str → Str
back [] before = before
back (c ∷ cs) before = back cs (c ∷ before)

-- No byte ends or escapes a string.
abbrev pub IsPlain : Str → Type 0
IsPlain [] = Unit
IsPlain (c ∷ cs) = (c ≢ 34) × (c ≢ 92) × IsPlain cs

-- No byte ends a literal.
abbrev pub IsWord : Str → Type 0
IsWord [] = Unit
IsWord (c ∷ cs) = (ends_literal c ≡ false) × IsWord cs

accumulate_begin : (acc : Accumulator) (s : Str) → (accumulate acc s).begin ≡ acc.begin
unfolding accumulate accumulator_next
accumulate_begin acc [] = refl
accumulate_begin acc (c ∷ cs) = accumulate_begin (accumulator_next acc c) cs

accumulate_count : (acc : Accumulator) (s : Str) → (accumulate acc s).count ≡ acc.count + length s
unfolding accumulate accumulator_next
accumulate_count acc [] = omega arith
accumulate_count acc (c ∷ cs) = omega (arith, accumulate_count (accumulator_next acc c) cs)

take-append : (s t : Str) → take (length s) (s ++ t) ≡ s
take-append [] t = refl
take-append (c ∷ cs) t = ap (λ u. c ∷ u) (take-append cs t)

take_past : (s : Str) (c d : ℕ) (t : Str) → take (length (s ++ c ∷ [])) (s ++ (d ∷ t)) ≡ s ++ d ∷ []
take_past [] c d t = refl
take_past (x ∷ xs) c d t = ap (λ u. x ∷ u) (take_past xs c d t)

-- What the query of an accumulator gives: the bytes from the beginning, under the hash of those
-- that were accumulated.
accumulated :
    (garbage : ℕ) (begin s : Str)
    → garbage < 2 ^ 32
    → IsBytes s
    → query_accumulator (accumulate (accumulator_init garbage begin) s)
      ≡ record { hash = hash_func s; str = take (length s) begin }
unfolding query_accumulator
accumulated garbage begin s g h =
    let acc = accumulate (accumulator_init garbage begin) s in
    let n : acc.count ≡ length s =
      omega (arith, accumulate_count (accumulator_init garbage begin) s) in
    let b : acc.begin ≡ begin = accumulate_begin (accumulator_init garbage begin) s in
    λ i. record { hash = accumulator_hash-hash_func garbage begin s g h i; str = take (n i) (b i) }

string_loop-plain :
    (acc : Accumulator) (before s rest : Str)
    → IsPlain s
    → string_loop false acc before (s ++ rest)
      ≡ string_loop false (accumulate acc s) (back s before) rest
unfolding string_loop accumulate
string_loop-plain acc before [] rest p = refl
string_loop-plain acc before (c ∷ cs) rest (quote, slash, p) =
    let q : (c == 34) ≡ false = ground arith in
    let b : (c == 92) ≡ false = ground arith in
    rw (q, b) (string_loop-plain (accumulator_next acc c) (c ∷ before) cs rest p)

string_loop-end :
    (acc : Accumulator) (before rest : Str)
    → string_loop false acc before (34 ∷ rest)
      ≡ parsed (str (query_accumulator acc)) (cursor (34 ∷ before) rest)
unfolding string_loop
string_loop-end acc before rest = refl

-- A string of bytes without quotes and backslashes is read up to the quote that ends it, and
-- pooled, whatever the accumulator's uninitialised word holds.
pub parse_string-plain :
    (garbage : ℕ) (before s rest : Str)
    → garbage < 2 ^ 32
    → IsBytes s
    → IsPlain s
    → parse_string garbage (cursor before (s ++ 34 ∷ rest))
      ≡ parsed (str (pooled s)) (cursor (34 ∷ back s before) rest)
unfolding parse_string
parse_string-plain garbage before s rest g h p =
    let tail : Str = 34 ∷ rest in
    let acc = accumulator_init garbage (s ++ tail) in
    string_loop-plain acc before s tail p
    ∙ string_loop-end (accumulate acc s) (back s before) rest
    ∙ ap (λ u. parsed (str u) (cursor (34 ∷ back s before) rest))
        (accumulated garbage (s ++ tail) s g h ∙ rw (take-append s tail) refl)

accumulate-append :
    (acc : Accumulator) (s t : Str) → accumulate acc (s ++ t) ≡ accumulate (accumulate acc s) t
unfolding accumulate
accumulate-append acc [] t = refl
accumulate-append acc (c ∷ cs) t = accumulate-append (accumulator_next acc c) cs t

string_loop-escape :
    (acc : Accumulator) (before rest : Str) (c : ℕ)
    → string_loop false acc before (92 ∷ c ∷ rest)
      ≡ string_loop false (accumulate acc (c ∷ [])) (c ∷ 92 ∷ before) rest
unfolding string_loop accumulate
string_loop-escape acc before rest c = refl

-- A byte after a backslash is hashed, but it is not in the string that is pooled: after a plain
-- beginning there is the backslash instead.
pub parse_string-escape :
    (garbage : ℕ) (before s rest : Str) (c : ℕ)
    → garbage < 2 ^ 32
    → IsBytes (s ++ c ∷ [])
    → IsPlain s
    → parse_string garbage (cursor before (s ++ (92 ∷ c ∷ 34 ∷ rest)))
      ≡ parsed
          (str (record { hash = hash_func (s ++ c ∷ []); str = s ++ 92 ∷ [] }))
          (cursor (34 ∷ c ∷ 92 ∷ back s before) rest)
unfolding parse_string
parse_string-escape garbage before s rest c g h p =
    let tail : Str = 92 ∷ c ∷ 34 ∷ rest in
    let acc = accumulator_init garbage (s ++ tail) in
    string_loop-plain acc before s tail p
    ∙ string_loop-escape (accumulate acc s) (back s before) (34 ∷ rest) c
    ∙ string_loop-end (accumulate (accumulate acc s) (c ∷ [])) (c ∷ 92 ∷ back s before) rest
    ∙ ap (λ u. parsed (str u) (cursor (34 ∷ c ∷ 92 ∷ back s before) rest))
        (ap query_accumulator (sym (accumulate-append acc s (c ∷ [])))
          ∙ accumulated garbage (s ++ tail) (s ++ c ∷ []) g h
          ∙ ap (λ t. record { hash = hash_func (s ++ c ∷ []); str = t })
              (take_past s c 92 (c ∷ 34 ∷ rest)))

-- The text ends, or its next byte ends a literal.
abbrev pub Stops : Str → Type 0
Stops [] = Unit
Stops (c ∷ cs) = ends_literal c ≡ true

literal_loop-end :
    (acc : Accumulator) (before rest : Str)
    → Stops rest
    → literal_loop acc before rest ≡ parsed (lit (query_accumulator acc)) (cursor before rest)
unfolding literal_loop
literal_loop-end acc before [] h = refl
literal_loop-end acc before (c ∷ cs) h = rw h refl

literal_loop-word :
    (acc : Accumulator) (before s rest : Str)
    → IsWord s
    → literal_loop acc before (s ++ rest) ≡ literal_loop (accumulate acc s) (back s before) rest
unfolding literal_loop accumulate
literal_loop-word acc before [] rest h = refl
literal_loop-word acc before (c ∷ cs) rest (h, hs) =
    rw h (literal_loop-word (accumulator_next acc c) (c ∷ before) cs rest hs)

not_minus : (c : ℕ) → ends_literal c ≡ false → (c == minus) ≡ false
unfolding ends_literal
not_minus c h = ground arith

parse_literal_starts :
    (garbage : ℕ) (before : Str) (c : ℕ) (cs : Str)
    → (c == minus) ≡ false
    → parse_literal garbage (cursor before (c ∷ cs))
      ≡ literal_loop (accumulator_init garbage (c ∷ cs)) before (c ∷ cs)
unfolding parse_literal
parse_literal_starts garbage before c cs h = rw h refl

-- A word of bytes that do not end a literal is read up to the byte that ends it, or the end of the
-- text, and pooled.
pub parse_literal-word :
    (garbage : ℕ) (before : Str) (c : ℕ) (cs rest : Str)
    → garbage < 2 ^ 32
    → IsBytes (c ∷ cs)
    → IsWord (c ∷ cs)
    → Stops rest
    → parse_literal garbage (cursor before (c ∷ (cs ++ rest)))
      ≡ parsed (lit (pooled (c ∷ cs))) (cursor (back (c ∷ cs) before) rest)
parse_literal-word garbage before c cs rest g h w stop =
    let begin : Str = c ∷ (cs ++ rest) in
    let acc = accumulator_init garbage begin in
    parse_literal_starts garbage before c (cs ++ rest) (not_minus c w.0)
    ∙ literal_loop-word acc before (c ∷ cs) rest w
    ∙ literal_loop-end (accumulate acc (c ∷ cs)) (back (c ∷ cs) before) rest stop
    ∙ ap (λ u. parsed (lit u) (cursor (back (c ∷ cs) before) rest))
        (accumulated garbage begin (c ∷ cs) g h
          ∙ ap (λ t. record { hash = hash_func (c ∷ cs); str = t }) (take-append (c ∷ cs) rest))
