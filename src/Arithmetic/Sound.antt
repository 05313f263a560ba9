-- ===== src/Arithmetic/Sound.antt =====
-- The meaning of a constant address, and what the arithmetic of cesk_arithmetic.h promises: each
-- function covers every value that the operation can have on unbounded integers.
use adam.Base.{ℕ, zero, suc, ◌+◌, ◌*◌, Bool, true, ◌≡◌, refl, ◌↔◌, arith}
use adam.Base.Int.{ℤ, pos, negsuc, -ℤ◌, ◌+ℤ◌, ◌-ℤ◌, ◌*ℤ◌}
use native.Mathlib.Nat.{mul-zero}
use adam.Address.{addr_neg, addr_zero, addr_pos, contain}
use adam.Arithmetic.{neg, add, sub, mul}
use adam.Arithmetic.Signs.{
  Signs, signs, encode, signs-encode, neg-encode, add_signs, add-encode, mul_signs, mul-encode,
}

-- The element of a constant address for the sign of an integer.
abbrev pub sign_addr : ℤ → ℕ
sign_addr (pos zero) = addr_zero
sign_addr (pos (suc n)) = addr_pos
sign_addr (negsuc n) = addr_neg

abbrev pub Represents : ℕ → ℤ → Type 0
Represents a x = contain a (sign_addr x) ≡ true

-- The same on sign sets.
abbrev pub has : Signs → ℤ → Bool
has s (pos zero) = s.null
has s (pos (suc n)) = s.positive
has s (negsuc n) = s.negative

pub contain-has : (a : ℕ) (x : ℤ) → contain a (sign_addr x) ≡ has (signs a) x
contain-has a (pos zero) = refl
contain-has a (pos (suc n)) = refl
contain-has a (negsuc n) = refl

pub contain-encode : (s : Signs) (x : ℤ) → contain (encode s) (sign_addr x) ≡ has s x
contain-encode s x = rw (contain-has (encode s) x, signs-encode s)

-- The sign of a product of numbers that are not zero.
suc-mul-suc : (m n : ℕ) → suc m * suc n ≡ suc (m * n + m + n)
suc-mul-suc m n = omega arith

-- The address of `- a` represents the opposite of every integer that `a` represents.
pub neg-Represents : (a : ℕ) (x : ℤ) → Represents a x → Represents (neg a) (-ℤ x)
unfolding -ℤ◌
neg-Represents a (pos zero) h = rw (neg-encode a, contain-encode) h
neg-Represents a (pos (suc n)) h = rw (neg-encode a, contain-encode) h
neg-Represents a (negsuc n) h = rw (neg-encode a, contain-encode) h

has-add :
    (s t : Signs) (x y : ℤ) → has s x ≡ true → has t y ≡ true → has (add_signs s t) (x +ℤ y) ≡ true
unfolding ◌+ℤ◌
has-add s t x y p q = ground arith

pub has-mul :
    (s t : Signs) (x y : ℤ) → has s x ≡ true → has t y ≡ true → has (mul_signs s t) (x *ℤ y) ≡ true
unfolding ◌*ℤ◌
has-mul s t (pos zero) (pos zero) p q = ground arith
has-mul s t (pos zero) (pos (suc n)) p q = ground arith
has-mul s t (pos zero) (negsuc n) p q = ground arith
has-mul s t (pos (suc m)) (pos zero) p q = rw (mul-zero (suc m)) (ground arith)
has-mul s t (pos (suc m)) (pos (suc n)) p q = rw (suc-mul-suc m n) (ground arith)
has-mul s t (pos (suc m)) (negsuc n) p q = rw (suc-mul-suc m n) (ground arith)
has-mul s t (negsuc m) (pos zero) p q = rw (mul-zero (suc m)) (ground arith)
has-mul s t (negsuc m) (pos (suc n)) p q = rw (suc-mul-suc m n) (ground arith)
has-mul s t (negsuc m) (negsuc n) p q = rw (suc-mul-suc m n) (ground arith)

module _ (a b : ℕ) (x y : ℤ) (p : Represents a x) (q : Represents b y) where
  left : has (signs a) x ≡ true
  left = rw (contain-has a x) at p

  right : has (signs b) y ≡ true
  right = rw (contain-has b y) at q

  -- The address of `a + b` represents every sum of integers that `a` and `b` represent.
  pub add-Represents : Represents (add a b) (x +ℤ y)
  add-Represents = rw (add-encode a b, contain-encode) (has-add (signs a) (signs b) x y left right)

  -- The address of `a * b` represents every product of integers that `a` and `b` represent.
  pub mul-Represents : Represents (mul a b) (x *ℤ y)
  mul-Represents = rw (mul-encode a b, contain-encode) (has-mul (signs a) (signs b) x y left right)

-- The address of `a - b` represents every difference of integers that `a` and `b` represent.
pub sub-Represents :
    (a b : ℕ) (x y : ℤ) → Represents a x → Represents b y → Represents (sub a b) (x -ℤ y)
unfolding sub ◌-ℤ◌
sub-Represents a b x y p q = add-Represents a (neg b) x (-ℤ y) p (neg-Represents b y q)

-- `c` represents all sums of what `a` and `b` represent exactly when it represents all that
-- `add a b` does: the result is sound, and the smallest sound one.
pub add_best :
    (a b c : ℕ)
    → ((x y : ℤ) → Represents a x → Represents b y → Represents c (x +ℤ y))
      ↔ ((z : ℤ) → Represents (add a b) z → Represents c z)
unfolding ◌+ℤ◌
add_best a b c = (
  λ sound z h. least sound z (rw (add-encode a b, contain-encode) at h),
  λ above x y p q. above (x +ℤ y) (add-Represents a b x y p q),
)
  where
    least :
        ((x y : ℤ) → Represents a x → Represents b y → Represents c (x +ℤ y))
        → (z : ℤ) → has (add_signs (signs a) (signs b)) z ≡ true
        → Represents c z
    least sound (pos zero) h =
        ground (arith, sound (pos 0) (pos 0), sound (pos 1) (negsuc 0), sound (negsuc 0) (pos 1))
    least sound (pos (suc n)) h = ground (
      arith,
      sound (pos 1) (pos 1),
      sound (pos 1) (pos 0),
      sound (pos 0) (pos 1),
      sound (pos 2) (negsuc 0),
      sound (negsuc 0) (pos 2),
    )
    least sound (negsuc n) h = ground (
      arith,
      sound (negsuc 0) (negsuc 0),
      sound (negsuc 0) (pos 0),
      sound (pos 0) (negsuc 0),
      sound (pos 1) (negsuc 1),
      sound (negsuc 1) (pos 1),
    )

-- `c` represents all products of what `a` and `b` represent exactly when it represents all that
-- `mul a b` does: the result is sound, and the smallest sound one.
pub mul_best :
    (a b c : ℕ)
    → ((x y : ℤ) → Represents a x → Represents b y → Represents c (x *ℤ y))
      ↔ ((z : ℤ) → Represents (mul a b) z → Represents c z)
unfolding ◌*ℤ◌
mul_best a b c = (
  λ sound z h. least sound z (rw (mul-encode a b, contain-encode) at h),
  λ above x y p q. above (x *ℤ y) (mul-Represents a b x y p q),
)
  where
    least :
        ((x y : ℤ) → Represents a x → Represents b y → Represents c (x *ℤ y))
        → (z : ℤ) → has (mul_signs (signs a) (signs b)) z ≡ true
        → Represents c z
    least sound (pos zero) h = ground (
      arith,
      sound (pos 0) (pos 0),
      sound (pos 0) (pos 1),
      sound (pos 0) (negsuc 0),
      sound (pos 1) (pos 0),
      sound (negsuc 0) (pos 0),
    )
    least sound (pos (suc n)) h = ground (arith, sound (pos 1) (pos 1), sound (negsuc 0) (negsuc 0))
    least sound (negsuc n) h = ground (arith, sound (pos 1) (negsuc 0), sound (negsuc 0) (pos 1))
