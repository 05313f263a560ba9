-- ===== src/Stringpool/Accumulate.antt =====
-- The accumulator computes the hash of the string that it is given byte by byte.
use adam.Base.{
  ℕ, zero, suc, ◌+◌, ◌-◌, ◌*◌, ◌/◌, ◌%◌, ◌^◌, ◌<◌, ◌≤◌, ◌≡◌, refl, sym, ap, ◌∙◌, [], ◌∷◌, ◌++◌,
  ◌&&◌, not, ◌==◌, if◌then◌else◌, Bool, length, bit_or, subst, arith, length-append, Bool-cases,
  inl, inr,
}
use adam.Base.Bits.{zero-or, bit_or_split}
use Prim.Native.Nat.{max}
use mathlib.Core.List.{append_assoc, append-nil}
use adam.Stringpool.{
  Str, Hash, byte_at, word_at, hash_loop, hash_func, Accumulator, accumulator_init,
  accumulator_next, accumulator_hash, accumulate, mix, add_byte, finish, remaining,
}

double_high : (n d : ℕ) → d * 2 ^ suc n ≡ d * 2 ^ n * 2
double_high n d = grind arith

-- Bits that do not overlap add up.
or_high : (n a d : ℕ) → a < 2 ^ n → bit_or a (d * 2 ^ n) ≡ a + d * 2 ^ n
or_high zero a d h = ap (λ (t : ℕ). bit_or t (d * 1)) (omega arith) ∙ zero-or (d * 1) ∙ omega arith
or_high (suc n) a d h =
    let e : d * 2 ^ suc n ≡ d * 2 ^ n * 2 = double_high n d in
    let ih : bit_or (a / 2) (d * 2 ^ n) ≡ a / 2 + d * 2 ^ n = or_high n (a / 2) d (omega arith) in
    let split : bit_or a (d * 2 ^ n * 2)
        ≡ bit_or (a / 2) (d * 2 ^ n * 2 / 2) * 2 + max (a % 2) (d * 2 ^ n * 2 % 2) =
      bit_or_split a (d * 2 ^ n * 2) in
    let half : d * 2 ^ n * 2 / 2 ≡ d * 2 ^ n = omega arith in
    let even : d * 2 ^ n * 2 % 2 ≡ 0 = omega arith in rw e (split ∙ rw (half, even, ih) omega arith)

abbrev pub IsBytes : Str → Type 0
IsBytes [] = Unit
IsBytes (d ∷ ds) = (d < 2 ^ 8) × IsBytes ds

-- The accumulator has read `read`: its last four bytes are in `last`.
record Follows (read : Str) (acc : Accumulator) : Type 0 where
  counted : acc.count ≡ length read
  small : acc.last < 2 ^ 32
  back_1 : 1 ≤ length read → acc.last / 2 ^ 24 ≡ byte_at read (length read - 1)
  back_2 : 2 ≤ length read → acc.last / 2 ^ 16 % 2 ^ 8 ≡ byte_at read (length read - 2)
  back_3 : 3 ≤ length read → acc.last / 2 ^ 8 % 2 ^ 8 ≡ byte_at read (length read - 3)
  back_4 : 4 ≤ length read → acc.last % 2 ^ 8 ≡ byte_at read (length read - 4)

byte_at-append : (xs ys : Str) (j : ℕ) → j < length xs → byte_at (xs ++ ys) j ≡ byte_at xs j
unfolding byte_at
byte_at-append [] ys j h = omega arith
byte_at-append (x ∷ xs) ys zero h = refl
byte_at-append (x ∷ xs) ys (suc j) h = byte_at-append xs ys j (omega arith)

byte_at-last : (xs : Str) (d : ℕ) → byte_at (xs ++ d ∷ []) (length xs) ≡ d
unfolding byte_at
byte_at-last [] d = refl
byte_at-last (x ∷ xs) d = byte_at-last xs d

-- The k-th byte from the end, before and after another one.
byte_at_back :
    (read : Str) (d k : ℕ)
    → 1 ≤ k
    → k ≤ length read
    → byte_at (read ++ d ∷ []) (length (read ++ d ∷ []) - suc k) ≡ byte_at read (length read - k)
byte_at_back read d k p q =
    let n : length (read ++ d ∷ []) ≡ length read + 1 = length-append read (d ∷ []) in
    ap (byte_at (read ++ d ∷ [])) (omega (arith, n))
    ∙ byte_at-append read (d ∷ []) (length read - k) (omega arith)

byte_at_end : (read : Str) (d : ℕ) → byte_at (read ++ d ∷ []) (length (read ++ d ∷ []) - 1) ≡ d
byte_at_end read d =
    let n : length (read ++ d ∷ []) ≡ length read + 1 = length-append read (d ∷ []) in
    ap (byte_at (read ++ d ∷ [])) (omega (arith, n)) ∙ byte_at-last read d

next_last :
    (acc : Accumulator) (d : ℕ)
    → acc.last < 2 ^ 32
    → (accumulator_next acc d).last ≡ acc.last / 2 ^ 8 + d * 2 ^ 24
unfolding accumulator_next
next_last acc d h = or_high 24 (acc.last / 2 ^ 8) d (omega arith)

next-Follows :
    (read : Str) (acc : Accumulator) (d : ℕ)
    → d < 2 ^ 8
    → Follows read acc
    → Follows (read ++ d ∷ []) (accumulator_next acc d)
unfolding accumulator_next
next-Follows read acc d h f =
    let n : length (read ++ d ∷ []) ≡ length read + 1 = length-append read (d ∷ []) in
    let l : bit_or (acc.last / 2 ^ 8) (d * 2 ^ 24) ≡ acc.last / 2 ^ 8 + d * 2 ^ 24 =
      or_high 24 (acc.last / 2 ^ 8) d (omega (arith, f.small)) in
    record {
      counted = omega (arith, n, f.counted);
      small = omega (arith, l, f.small);
      back_1 = λ p. omega (arith, l, f.small, byte_at_end read d);
      back_2 = λ p. omega (
        arith,
        l,
        f.small,
        byte_at_back read d 1 (omega arith) (omega (arith, n)),
        f.back_1 (omega (arith, n)),
      );
      back_3 = λ p. omega (
        arith,
        l,
        f.small,
        byte_at_back read d 2 (omega arith) (omega (arith, n)),
        f.back_2 (omega (arith, n)),
      );
      back_4 = λ p. omega (
        arith,
        l,
        f.small,
        byte_at_back read d 3 (omega arith) (omega (arith, n)),
        f.back_3 (omega (arith, n)),
      );
    }

byte_at-middle :
    (read rest : Str) (d j : ℕ)
    → j ≤ length read
    → byte_at (read ++ d ∷ rest) j ≡ byte_at (read ++ d ∷ []) j
byte_at-middle read rest d j h =
    sym (ap (λ t. byte_at t j) (append_assoc read (d ∷ []) rest))
    ∙ byte_at-append (read ++ d ∷ []) rest j (omega (arith, length-append read (d ∷ [])))

last-word_at :
    (read rest : Str) (d : ℕ) (acc : Accumulator)
    → Follows read acc
    → 4 ≤ length read
    → word_at (read ++ d ∷ rest) (length read - 4) ≡ acc.last
unfolding word_at
last-word_at read rest d acc f h =
    let at : (j : ℕ) → j < length read → byte_at (read ++ d ∷ rest) j ≡ byte_at read j =
      λ j p. byte_at-append read (d ∷ rest) j p in
    let at_1 : byte_at (read ++ d ∷ rest) (length read - 4 + 1) ≡ byte_at read (length read - 3) =
      at (length read - 4 + 1) (omega arith) ∙ ap (byte_at read) (omega arith) in
    let at_2 : byte_at (read ++ d ∷ rest) (length read - 4 + 2) ≡ byte_at read (length read - 2) =
      at (length read - 4 + 2) (omega arith) ∙ ap (byte_at read) (omega arith) in
    let at_3 : byte_at (read ++ d ∷ rest) (length read - 4 + 3) ≡ byte_at read (length read - 1) =
      at (length read - 4 + 3) (omega arith) ∙ ap (byte_at read) (omega arith) in
    omega (
      arith,
      at (length read - 4) (omega arith),
      at_1,
      at_2,
      at_3,
      f.small,
      f.back_1 (omega arith),
      f.back_2 (omega arith),
      f.back_3 (omega arith),
      f.back_4 (omega arith),
    )

whole : ℕ → Bool
whole n = (n % 4 == 0) && not (n == 0)

next_hash :
    (read rest : Str) (d : ℕ) (acc : Accumulator)
    → Follows read acc
    → (accumulator_next acc d).hash
      ≡ add_byte
          (record acc.hash {
            murmur =
                if whole (length read)
                then mix acc.hash.murmur (word_at (read ++ d ∷ rest) (length read - 4))
                else acc.hash.murmur;
          })
          d
unfolding accumulator_next whole
next_hash read rest d acc f = elim (Bool-cases (whole (length read))) [
  | inl y ↦ rw (f.counted, y, last-word_at read rest d acc f (ground (arith, y))) refl
  | inr n ↦ rw (f.counted, n) refl
]

accumulate-hash_loop :
    (read rest : Str) (acc : Accumulator)
    → IsBytes rest
    → Follows read acc
    → ((accumulate acc rest).hash ≡ hash_loop (read ++ rest) (length read) rest acc.hash)
      × Follows (read ++ rest) (accumulate acc rest)
unfolding accumulate hash_loop whole
accumulate-hash_loop read [] acc h f = (refl, rw append-nil f)
accumulate-hash_loop read (d ∷ rest) acc (small, h) f =
    let joined : (read ++ d ∷ []) ++ rest ≡ read ++ d ∷ rest = append_assoc read (d ∷ []) rest in
    let counted : length (read ++ d ∷ []) ≡ length read + 1 = length-append read (d ∷ []) in
    let (same, after) =
      accumulate-hash_loop (read ++ d ∷ []) rest (accumulator_next acc d) h
        (next-Follows read acc d small f) in
    (
      same
          ∙ ap (λ t. hash_loop t (length (read ++ d ∷ [])) rest (accumulator_next acc d).hash)
              joined
          ∙ ap (λ n. hash_loop (read ++ d ∷ rest) n rest (accumulator_next acc d).hash) counted
          ∙ ap (hash_loop (read ++ d ∷ rest) (length read + 1) rest) (next_hash read rest d acc f),
      subst (λ t. Follows t (accumulate (accumulator_next acc d) rest)) joined after,
    )

remaining_same :
    (n a1 a2 a3 a4 b1 b2 b3 b4 : ℕ)
    → 1 ≤ n
    → a1 ≡ b1
    → (2 ≤ n → a2 ≡ b2)
    → (3 ≤ n → a3 ≡ b3)
    → (4 ≤ n → a4 ≡ b4)
    → remaining n a1 a2 a3 a4 ≡ remaining n b1 b2 b3 b4
unfolding remaining
remaining_same n a1 a2 a3 a4 b1 b2 b3 b4 p q1 q2 q3 q4 = ground arith

finish_empty : (r s : ℕ) (h : Hash) → finish 0 r h ≡ finish 0 s h
unfolding finish
finish_empty r s h = refl

finish_read : Str → Hash → Hash
finish_read read h =
    finish (length read)
      (remaining (length read) (byte_at read (length read - 1)) (byte_at read (length read - 2))
        (byte_at read (length read - 3)) (byte_at read (length read - 4)))
      h

end_same :
    (read : Str) (acc : Accumulator)
    → Follows read acc
    → accumulator_hash acc ≡ finish_read read acc.hash
unfolding accumulator_hash finish_read
end_same [] acc f = rw f.counted (finish_empty _ _ acc.hash)
end_same (d ∷ ds) acc f =
    ap (λ r. finish acc.count r acc.hash)
      (remaining_same acc.count _ _ _ _ _ _ _ _ (omega (arith, f.counted)) (f.back_1 (omega arith))
        (λ p. f.back_2 (omega (arith, p, f.counted))) (λ p. f.back_3 (omega (arith, p, f.counted)))
        (λ p. f.back_4 (omega (arith, p, f.counted))))
    ∙ rw f.counted refl

-- Over the bytes of a string the accumulator computes the hash that `_stringpool_hash_func` does,
-- whatever its uninitialised word holds.
pub accumulator_hash-hash_func :
    (garbage : ℕ) (begin bytes : Str)
    → garbage < 2 ^ 32
    → IsBytes bytes
    → accumulator_hash (accumulate (accumulator_init garbage begin) bytes) ≡ hash_func bytes
unfolding hash_func finish_read
accumulator_hash-hash_func garbage begin bytes g h =
    let start : Follows [] (accumulator_init garbage begin) = record {
      counted = refl;
      small = g;
      back_1 = λ p. absurd (omega arith);
      back_2 = λ p. absurd (omega arith);
      back_3 = λ p. absurd (omega arith);
      back_4 = λ p. absurd (omega arith);
    } in
    let (same, f) = accumulate-hash_loop [] bytes (accumulator_init garbage begin) h start in
    end_same bytes (accumulate (accumulator_init garbage begin) bytes) f
    ∙ ap (finish_read bytes) same
