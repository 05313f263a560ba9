-- ===== src/Stringpool.antt =====
-- src/stringpool.c and include/stringpool.h: the pool that keeps one copy of each string. A string
-- is the list of its bytes, without the terminating 0.
pub mod Accumulate
pub mod Intern
pub mod Text
pub mod Unique
use adam.Base.{
  ℕ, zero, suc, ◌+◌, ◌-◌, ◌*◌, ◌/◌, ◌%◌, ◌^◌, Bool, true, false, not, ◌&&◌, ◌||◌, Option, none,
  some, List, [], ◌∷◌, ◌++◌, ◌==◌, if◌then◌else◌, length, bit_and, bit_or, bit_xor,
}

abbrev pub Str : Type 0
Str = List ℕ

-- The four words of a hash: h[0] to h[3].
pub record Hash : Type 0 where
  pub murmur : ℕ
  pub sum : ℕ
  pub square : ℕ
  pub elf : ℕ

abbrev pub hash_start : Hash
hash_start = record { murmur = 0xf3f53423; sum = 0; square = 0x23f4537; elf = 0 }

-- `(x << n) | (x >> (32 - n))`
unfoldable pub rotate : ℕ → ℕ → ℕ
rotate n x = bit_or (x * 2 ^ n % 2 ^ 32) (x / 2 ^ (32 - n))

unfoldable pub scramble : ℕ → ℕ
unfolding rotate
scramble k = rotate 15 (k * 0xcc9e2d51 % 2 ^ 32) * 0x1b873593 % 2 ^ 32

-- A word of four bytes goes into h[0].
unfoldable pub mix : ℕ → ℕ → ℕ
unfolding rotate scramble
mix h k =
    let a = bit_xor h (scramble k) in
    let b = a * rotate 13 a % 2 ^ 32 in bit_xor b ((b * 5 % 2 ^ 32 + 0xe6546b64) % 2 ^ 32)

-- A byte goes into the other words.
unfoldable pub add_byte : Hash → ℕ → Hash
add_byte h d =
    let e = (h.elf * 2 ^ 4 % 2 ^ 32 + d) % 2 ^ 32 in
    let g = bit_and e 0xf0000000 in
    let e' = if g == 0 then e else bit_xor e (g / 2 ^ 24) in
    record h {
      sum = (h.sum + d + d * 2 ^ 17 + d / 2 ^ 15) % 2 ^ 32 % 0xfffe7985;
      square = (h.square + d * d) % 2 ^ 32;
      elf = bit_and e' (2 ^ 32 - 1 - g);
    }

-- What is left after the last whole word: the last bytes, the latest one first. The cases of the
-- switch fall through.
unfoldable pub remaining : ℕ → ℕ → ℕ → ℕ → ℕ → ℕ
remaining count b1 b2 b3 b4 =
    let r4 = if count % 4 == 0 then b4 * 2 ^ 24 else 0 in
    let r3 = if (count % 4 == 0) || (count % 4 == 3) then bit_or r4 (b3 * 2 ^ 16) else r4 in
    let r2 = if count % 4 == 1 then r3 else bit_or r3 (b2 * 2 ^ 8) in bit_or r2 b1

unfoldable pub avalanche : ℕ → ℕ → ℕ
avalanche count h =
    let a = bit_xor h count in
    let b = bit_xor a (a / 2 ^ 16) * 0x85ebca6b % 2 ^ 32 in
    let c = bit_xor b (b / 2 ^ 13) * 0xc2b2ae35 % 2 ^ 32 in bit_xor c (c / 2 ^ 16)

-- `remaining` goes into h[0] if there is a byte, then h[0] is finished.
unfoldable pub finish : ℕ → ℕ → Hash → Hash
unfolding scramble avalanche
finish count r h = record h {
  murmur = avalanche count (if count == 0 then h.murmur else bit_xor h.murmur (scramble r));
}

-- `data[j]`, with the 0 at the end.
unfoldable pub byte_at : Str → ℕ → ℕ
byte_at [] j = 0
byte_at (d ∷ ds) zero = d
byte_at (d ∷ ds) (suc j) = byte_at ds j

-- `*(uint32_t*)(data + j)` on a little-endian machine.
unfoldable pub word_at : Str → ℕ → ℕ
unfolding byte_at
word_at bytes j =
    byte_at bytes j
    + byte_at bytes (j + 1) * 2 ^ 8
    + byte_at bytes (j + 2) * 2 ^ 16
    + byte_at bytes (j + 3) * 2 ^ 24

-- The loop of `_stringpool_hash_func` from index `i` on; the list is what is left of the string.
unfoldable pub hash_loop : Str → ℕ → Str → Hash → Hash
unfolding word_at mix add_byte
hash_loop bytes i [] h = h
hash_loop bytes i (d ∷ ds) h =
    let m =
      if (i % 4 == 0) && not (i == 0) then mix h.murmur (word_at bytes (i - 4)) else h.murmur in
    hash_loop bytes (i + 1) ds (add_byte (record h { murmur = m }) d)

unfoldable pub hash_func : Str → Hash
hash_func str =
    let i = length str in
    finish i
      (remaining i (byte_at str (i - 1)) (byte_at str (i - 2)) (byte_at str (i - 3))
        (byte_at str (i - 4)))
      (hash_loop str 0 str hash_start)

-- `begin` is what the pointer of that name points to.
pub record Accumulator : Type 0 where
  pub count : ℕ
  pub hash : Hash
  pub last : ℕ
  pub begin : Str

-- `last` is not initialised: it has some value.
abbrev pub accumulator_init : ℕ → Str → Accumulator
accumulator_init garbage begin = record {
  count = 0;
  hash = hash_start;
  last = garbage;
  begin = begin;
}

unfoldable pub accumulator_next : Accumulator → ℕ → Accumulator
unfolding mix add_byte
accumulator_next acc d =
    let m =
      if (acc.count % 4 == 0) && not (acc.count == 0)
      then mix acc.hash.murmur acc.last
      else acc.hash.murmur in
    record acc {
      count = acc.count + 1;
      hash = add_byte (record acc.hash { murmur = m }) d;
      last = bit_or (acc.last / 2 ^ 8) (d * 2 ^ 24);
    }

unfoldable pub accumulator_hash : Accumulator → Hash
accumulator_hash acc =
    finish acc.count
      (remaining acc.count (acc.last / 2 ^ 24) (acc.last / 2 ^ 16 % 2 ^ 8)
        (acc.last / 2 ^ 8 % 2 ^ 8) (acc.last % 2 ^ 8))
      acc.hash

-- Calls of `stringpool_accumulator_next` for the bytes of a string.
unfoldable pub accumulate : Accumulator → Str → Accumulator
unfolding accumulator_next
accumulate acc [] = acc
accumulate acc (d ∷ ds) = accumulate (accumulator_next acc d) ds
