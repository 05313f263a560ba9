-- ===== src/Arithmetic/Signs.antt =====
-- The sign sets that constant addresses stand for, and each function of cesk_arithmetic.h as a
-- function on sign sets. A truth value is a sign set too: its bits are those of + and 0.
use adam.Base.{ℕ, Bool, false, ◌&&◌, ◌||◌, ◌≡◌, ◌∙◌, ap, arith, if◌then◌else◌, bit_and}
use adam.Base.Bits.{and_assoc, bit_and-zero}
use adam.Address.{addr_neg, addr_zero, addr_pos, contain, const_set}
use adam.Arithmetic.{neg, add, mul, div, bool_not, bool_and, bool_or, bool_xor, sign_bit}

pub record Signs : Type 0 where
  pub negative : Bool
  pub null : Bool
  pub positive : Bool

abbrev pub signs : ℕ → Signs
signs a = record {
  negative = contain a addr_neg;
  null = contain a addr_zero;
  positive = contain a addr_pos;
}

-- The constant address with exactly the given signs.
unfoldable pub encode : Signs → ℕ
encode s =
    if s.negative
    then if s.null
      then if s.positive then 0xffffff07 else 0xffffff03
      else if s.positive
      then 0xffffff05
      else 0xffffff01
    else if s.null
    then if s.positive then 0xffffff06 else 0xffffff02
    else if s.positive
    then 0xffffff04
    else 0xffffff00

pub signs-encode : (s : Signs) → signs (encode s) ≡ s
unfolding contain encode
signs-encode s = ground arith

pub neg-encode :
    (a : ℕ)
    → neg a
      ≡ encode (record {
        negative = contain a addr_pos;
        null = contain a addr_zero;
        positive = contain a addr_neg;
      })
unfolding neg const_set encode
neg-encode a = ground arith

abbrev pub add_signs : Signs → Signs → Signs
add_signs s t = record {
  negative =
      s.negative && (t.negative || t.null || t.positive) || t.negative && (s.null || s.positive);
  null = s.null && t.null || s.negative && t.positive || s.positive && t.negative;
  positive =
      s.positive && (t.negative || t.null || t.positive) || t.positive && (s.null || s.negative);
}

pub add-encode : (a b : ℕ) → add a b ≡ encode (add_signs (signs a) (signs b))
unfolding add const_set encode
add-encode a b = ground arith

abbrev pub mul_signs : Signs → Signs → Signs
mul_signs s t = record {
  negative = s.negative && t.positive || s.positive && t.negative;
  null = s.null && (t.negative || t.null || t.positive) || t.null && (s.negative || s.positive);
  positive = s.negative && t.negative || s.positive && t.positive;
}

pub mul-encode : (a b : ℕ) → mul a b ≡ encode (mul_signs (signs a) (signs b))
unfolding mul const_set encode
mul-encode a b = ground arith

-- The mask that `div` puts on its divisor clears the bit of zero and no other.
pub signs-drop_zero :
    (b : ℕ)
    → signs (bit_and b 0xffffff05)
      ≡ record { negative = contain b addr_neg; null = false; positive = contain b addr_pos }
unfolding contain
signs-drop_zero b = ground (
  arith,
  and_assoc b 0xffffff05 0xffffff00,
  and_assoc b 0xffffff05 1,
  and_assoc b 0xffffff05 2,
  and_assoc b 0xffffff05 4,
  bit_and-zero b,
)

pub div-encode :
    (a b : ℕ)
    → div a b
      ≡ encode (
          mul_signs
            (signs a)
            (record { negative = contain b addr_neg; null = false; positive = contain b addr_pos }))
unfolding div
div-encode a b =
    mul-encode a (bit_and b 0xffffff05)
    ∙ ap (λ (t : Signs). encode (mul_signs (signs a) t)) (signs-drop_zero b)

abbrev pub not_signs : Signs → Signs
not_signs s = record { negative = false; null = s.positive; positive = s.null }

pub bool_not-encode : (a : ℕ) → bool_not a ≡ encode (not_signs (signs a))
unfolding bool_not const_set encode
bool_not-encode a = ground arith

pub bool_and-encode :
    (a b : ℕ)
    → let s = signs a in
      let t = signs b in
      bool_and a b
      ≡ encode (record {
        negative = false;
        null = s.null && (t.null || t.positive) || t.null && s.positive;
        positive = s.positive && t.positive;
      })
unfolding bool_and const_set encode
bool_and-encode a b = ground arith

pub bool_or-encode :
    (a b : ℕ)
    → let s = signs a in
      let t = signs b in
      bool_or a b
      ≡ encode (record {
        negative = false;
        null = s.null && t.null;
        positive = s.positive && (t.null || t.positive) || t.positive && s.null;
      })
unfolding bool_or const_set encode
bool_or-encode a b = ground arith

pub bool_xor-encode :
    (a b : ℕ)
    → let s = signs a in
      let t = signs b in
      bool_xor a b
      ≡ encode (record {
        negative = false;
        null = s.null && t.null || s.positive && t.positive;
        positive = s.positive && t.null || s.null && t.positive;
      })
unfolding bool_xor const_set encode
bool_xor-encode a b = ground arith

pub sign_bit-encode :
    (a : ℕ)
    → let s = signs a in
      sign_bit a
      ≡ encode (record { negative = false; null = s.null || s.positive; positive = s.negative })
unfolding sign_bit const_set encode
sign_bit-encode a = ground arith
