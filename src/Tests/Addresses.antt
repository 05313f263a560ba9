-- ===== src/Tests/Addresses.antt =====
-- Constant addresses: the arithmetic at single signs and small numbers.
use adam.Base.{ℕ, ◌≡◌, ◌↔◌, refl, none, bit_and, arith}
use adam.Base.Int.{ℤ, pos, ◌+ℤ◌, ◌*ℤ◌}
use adam.Address.{addr_neg, addr_zero, addr_pos, contain, const_set}
use adam.Arithmetic.{add, mul, bool_and, ge, lt, le, sign_bit, sign_bit_to_numeric, bitwise_and}
use adam.Arithmetic.Sound.{Represents, add_best, mul_best}
use adam.Arithmetic.Compare.{ge-diverges}
use adam.Arithmetic.Bitwise.{bitwise_and-misses_positive}

-- {-, +}
abbrev mixed : ℕ
mixed = 0xffffff05

adds_mixed : add mixed addr_zero ≡ mixed
unfolding add contain const_set
adds_mixed = refl

add_opposite : add addr_neg addr_pos ≡ 0xffffff07
unfolding add contain const_set
add_opposite = refl

bitwise_and_pos : bitwise_and addr_pos addr_pos ≡ addr_zero
unfolding bitwise_and bool_and sign_bit contain const_set sign_bit_to_numeric
bitwise_and_pos = refl

add_best_example :
    ((x y : ℤ) → Represents mixed x → Represents addr_zero y → Represents mixed (x +ℤ y))
    ↔ ((z : ℤ) → Represents (add mixed addr_zero) z → Represents mixed z)
add_best_example = add_best mixed addr_zero mixed

mul_best_example :
    ((x y : ℤ) → Represents mixed x → Represents addr_neg y → Represents mixed (x *ℤ y))
    ↔ ((z : ℤ) → Represents (mul mixed addr_neg) z → Represents mixed z)
mul_best_example = mul_best mixed addr_neg mixed

ge-diverges_example :
    (ge 9 addr_pos addr_zero ≡ none)
    × (lt 9 addr_pos addr_zero ≡ none)
    × (le 9 addr_pos addr_zero ≡ none)
ge-diverges_example = ge-diverges 9 addr_pos addr_zero

bitwise_and-misses_positive_example :
    ¬ Represents (bitwise_and addr_pos addr_pos) (pos (bit_and 5 7))
unfolding contain
bitwise_and-misses_positive_example =
    bitwise_and-misses_positive addr_pos addr_pos 5 7 refl (omega arith)
