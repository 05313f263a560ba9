-- ===== src/Arithmetic.antt =====
-- include/cesk/cesk_arithmetic.h: arithmetic on constant addresses. A constant address is a set
-- of signs of integers (or of truth values), one bit each; the C functions work on the bits.
pub mod Signs
pub mod Sound
pub mod Divide
pub mod Truth
pub mod Compare
pub mod Bitwise
use adam.Base.{
  ℕ, zero, suc, Bool, true, false, not, ◌&&◌, Option, none, some, ◌==◌, if◌then◌else◌, bit_and,
  bit_or,
}
use adam.Address.{
  const_prefix, addr_neg, addr_zero, addr_pos, addr_true, addr_false, contain, const_set,
  const_suffix,
}

-- `if(test) ret = CESK_STORE_ADDR_CONST_SET(ret, elem);`
unfoldable pub set_if : Bool → ℕ → ℕ → ℕ
set_if test elem ret = if test then const_set ret elem else ret

unfoldable pub neg : ℕ → ℕ
unfolding set_if
neg a =
    let r = set_if (contain a addr_neg) addr_pos const_prefix in
    let r = set_if (contain a addr_pos) addr_neg r in set_if (contain a addr_zero) addr_zero r

-- The result of adding operands of opposite sign.
abbrev set_all : Bool → ℕ → ℕ
set_all test ret = set_if test addr_zero (set_if test addr_pos (set_if test addr_neg ret))

unfoldable pub add : ℕ → ℕ → ℕ
unfolding set_if
add a b =
    let r = set_if (contain a addr_neg && contain b addr_neg) addr_neg const_prefix in
    let r = set_if (contain a addr_neg && contain b addr_zero) addr_neg r in
    let r = set_all (contain a addr_neg && contain b addr_pos) r in
    let r = set_if (contain a addr_zero && contain b addr_neg) addr_neg r in
    let r = set_if (contain a addr_zero && contain b addr_zero) addr_zero r in
    let r = set_if (contain a addr_zero && contain b addr_pos) addr_pos r in
    let r = set_all (contain a addr_pos && contain b addr_neg) r in
    let r = set_if (contain a addr_pos && contain b addr_zero) addr_pos r in
    set_if (contain a addr_pos && contain b addr_pos) addr_pos r

unfoldable pub sub : ℕ → ℕ → ℕ
sub a b = add a (neg b)

unfoldable pub mul : ℕ → ℕ → ℕ
unfolding set_if
mul a b =
    let r = set_if (contain a addr_neg && contain b addr_neg) addr_pos const_prefix in
    let r = set_if (contain a addr_neg && contain b addr_zero) addr_zero r in
    let r = set_if (contain a addr_neg && contain b addr_pos) addr_neg r in
    let r = set_if (contain a addr_zero && contain b addr_neg) addr_zero r in
    let r = set_if (contain a addr_zero && contain b addr_zero) addr_zero r in
    let r = set_if (contain a addr_zero && contain b addr_pos) addr_zero r in
    let r = set_if (contain a addr_pos && contain b addr_neg) addr_neg r in
    let r = set_if (contain a addr_pos && contain b addr_zero) addr_zero r in
    set_if (contain a addr_pos && contain b addr_pos) addr_pos r

-- `b` without its zero, before the product
unfoldable pub div : ℕ → ℕ → ℕ
unfolding const_suffix
div a b =
    mul a (bit_and b (bit_or (bit_or const_prefix (const_suffix addr_neg)) (const_suffix addr_pos)))

unfoldable pub bool_not : ℕ → ℕ
unfolding set_if
bool_not a =
    let r = set_if (contain a addr_true) addr_false const_prefix in
    set_if (contain a addr_false) addr_true r

unfoldable pub bool_and : ℕ → ℕ → ℕ
unfolding set_if
bool_and a b =
    let r = set_if (contain a addr_true && contain b addr_true) addr_true const_prefix in
    let r = set_if (contain a addr_true && contain b addr_false) addr_false r in
    let r = set_if (contain a addr_false && contain b addr_true) addr_false r in
    set_if (contain a addr_false && contain b addr_false) addr_false r

unfoldable pub bool_or : ℕ → ℕ → ℕ
unfolding set_if
bool_or a b =
    let r = set_if (contain a addr_true && contain b addr_true) addr_true const_prefix in
    let r = set_if (contain a addr_true && contain b addr_false) addr_true r in
    let r = set_if (contain a addr_false && contain b addr_true) addr_true r in
    set_if (contain a addr_false && contain b addr_false) addr_false r

unfoldable pub bool_xor : ℕ → ℕ → ℕ
unfolding set_if
bool_xor a b =
    let r = set_if (contain a addr_true && contain b addr_true) addr_false const_prefix in
    let r = set_if (contain a addr_true && contain b addr_false) addr_true r in
    let r = set_if (contain a addr_false && contain b addr_true) addr_true r in
    set_if (contain a addr_false && contain b addr_false) addr_false r

-- The value of a C condition, and a number as a C condition.
abbrev to_int : Bool → ℕ
to_int true = 1
to_int false = 0

abbrev truthy : ℕ → Bool
truthy n = not (n == 0)

-- The first two tests are on `CONST_SET`, and the second assignment is of a `CONST_CONTAIN`.
unfoldable pub gt : ℕ → ℕ → ℕ
unfolding set_if
gt a b =
    let tmp = sub a b in
    let r = set_if (truthy (const_set tmp addr_neg)) addr_false const_prefix in
    let r = if truthy (const_set tmp addr_zero) then to_int (contain r addr_false) else r in
    set_if (contain tmp addr_pos) addr_true r

unfoldable pub eq : ℕ → ℕ → ℕ
unfolding set_if
eq a b =
    let tmp = sub a b in
    let r = set_if (truthy (const_set tmp addr_neg)) addr_false const_prefix in
    let r = if truthy (const_set tmp addr_zero) then to_int (contain r addr_true) else r in
    set_if (contain tmp addr_pos) addr_false r

-- The function calls itself on its own arguments: `none` when the given depth is used up.
unfoldable pub ge : ℕ → ℕ → ℕ → Option ℕ
ge zero a b = none
ge (suc depth) a b = elim (ge depth a b) [ none ↦ none | some r ↦ some (bit_or r (eq a b)) ]

unfoldable pub lt : ℕ → ℕ → ℕ → Option ℕ
lt depth a b = ge depth b a

unfoldable pub le : ℕ → ℕ → ℕ → Option ℕ
le depth a b = ge depth b a

unfoldable pub neq : ℕ → ℕ → ℕ
neq a b = bool_not (eq a b)

unfoldable pub sign_bit : ℕ → ℕ
unfolding set_if
sign_bit a =
    let r = set_if (contain a addr_neg) addr_true const_prefix in
    let r = set_if (contain a addr_zero) addr_false r in set_if (contain a addr_pos) addr_false r

-- Every assignment starts from `sr`, so the last one that is made gives the result.
unfoldable pub sign_bit_to_numeric : ℕ → ℕ
sign_bit_to_numeric sr =
    let r = if contain sr addr_true then const_set sr addr_neg else const_prefix in
    if contain sr addr_false
    then (let r = const_set sr addr_pos in let r = const_set sr addr_zero in r)
    else r

unfoldable pub bitwise_and : ℕ → ℕ → ℕ
bitwise_and a b = sign_bit_to_numeric (bool_and (sign_bit a) (sign_bit b))

unfoldable pub bitwise_or : ℕ → ℕ → ℕ
bitwise_or a b = sign_bit_to_numeric (bool_or (sign_bit a) (sign_bit b))

unfoldable pub bitwise_xor : ℕ → ℕ → ℕ
bitwise_xor a b = sign_bit_to_numeric (bool_xor (sign_bit a) (sign_bit b))

unfoldable pub bitwise_neg : ℕ → ℕ
bitwise_neg a = sign_bit_to_numeric (bool_not (sign_bit a))
