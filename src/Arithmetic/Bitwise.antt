-- ===== src/Arithmetic/Bitwise.antt =====
-- What the bitwise functions of cesk_arithmetic.h cover: they take the sign of the result from the
-- signs of the operands, and turn the sign bit back into a numeric address.
use adam.Base.{ℕ, zero, suc, ◌<◌, Bool, false, not, ◌&&◌, ◌≡◌, ◌∙◌, bit_and, arith}
use adam.Base.Int.{pos}
use adam.Address.{addr_neg, addr_pos, contain, const_set}
use adam.Arithmetic.{sign_bit_to_numeric, bitwise_and, bool_and}
use adam.Arithmetic.Signs.{signs, encode, sign_bit-encode}
use adam.Arithmetic.Sound.{Represents}

-- From a truth value with bits `f` (false) and `t` (true) the conversion gives - only if false is
-- out, 0 exactly if false is in, and + exactly if true is in.
pub sign_bit_to_numeric-signs :
    (f t : Bool)
    → signs (sign_bit_to_numeric (encode (record { negative = false; null = f; positive = t })))
      ≡ record { negative = t && not f; null = f; positive = t }
unfolding sign_bit_to_numeric encode contain const_set
sign_bit_to_numeric-signs f t = ground arith

-- The bits of the conjunction of two sign bits, turned back.
numeric_and-positive :
    (f t g u : Bool)
    → contain
        (sign_bit_to_numeric (
          bool_and
            (encode (record { negative = false; null = f; positive = t }))
            (encode (record { negative = false; null = g; positive = u }))))
        addr_pos
      ≡ (t && u)
unfolding sign_bit_to_numeric bool_and encode contain const_set
numeric_and-positive f t g u = ground arith

bitwise_and-positive :
    (a b : ℕ) → contain (bitwise_and a b) addr_pos ≡ (contain a addr_neg && contain b addr_neg)
unfolding bitwise_and
bitwise_and-positive a b =
    rw (sign_bit-encode a, sign_bit-encode b)
      (numeric_and-positive _ (contain a addr_neg) _ (contain b addr_neg))

not-Represents : (c n : ℕ) → contain c addr_pos ≡ false → 0 < n → ¬ Represents c (pos n)
not-Represents c zero h p = absurd (omega arith)
not-Represents c (suc n) h p = λ r. cc

-- Of operands of which one is never negative, `bitwise_and` represents no positive number: it
-- misses the value `x & y` wherever that is not zero.
pub bitwise_and-misses_positive :
    (a b x y : ℕ)
    → (contain a addr_neg && contain b addr_neg) ≡ false
    → 0 < bit_and x y
    → ¬ Represents (bitwise_and a b) (pos (bit_and x y))
bitwise_and-misses_positive a b x y h p =
    not-Represents (bitwise_and a b) (bit_and x y) (bitwise_and-positive a b ∙ h) p
