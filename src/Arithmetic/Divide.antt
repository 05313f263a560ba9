-- ===== src/Arithmetic/Divide.antt =====
-- What `cesk_arithmetic_div` covers of the quotient of integers, which is rounded towards zero.
use adam.Base.{ℕ, zero, suc, ◌-◌, ◌/◌, ◌≤◌, ◌<◌, true, false, ◌≡◌, ◌≢◌, refl, sym, ◌∙◌, arith}
use adam.Base.Int.{ℤ, pos, negsuc, ◌/ℤ◌}
use adam.Address.{addr_zero, contain}
use adam.Arithmetic.{div}
use adam.Arithmetic.Signs.{Signs, signs, div-encode, mul_signs}
use adam.Arithmetic.Sound.{sign_addr, Represents, has, contain-has, contain-encode}

abbrev pub abs_ℕ : ℤ → ℕ
abs_ℕ (pos n) = n
abs_ℕ (negsuc n) = suc n

-- The sign of a quotient of numbers.
zero-div : (n : ℕ) → 0 / n ≡ 0
zero-div n = grind arith

div_pos : (m n : ℕ) → n ≤ m → 0 < n → (k : ℕ) × (m / n ≡ suc k)
div_pos m n h p = (m / n - 1, grind arith)

div_small : (m n : ℕ) → m < n → m / n ≡ 0
div_small m n h = grind arith

-- The signs of what `div a b` represents: those of products with `b` less its zero.
nonzero : Signs → Signs
nonzero t = record t { null = false }

contain-div :
    (a b : ℕ) (z : ℤ)
    → contain (div a b) (sign_addr z) ≡ has (mul_signs (signs a) (nonzero (signs b))) z
unfolding nonzero
contain-div a b z = rw (div-encode a b, contain-encode)

has-div :
    (s t : Signs) (x y : ℤ)
    → has s x ≡ true
    → has t y ≡ true
    → abs_ℕ y ≤ abs_ℕ x
    → y ≢ pos 0
    → has (mul_signs s (nonzero t)) (x /ℤ y) ≡ true
unfolding ◌/ℤ◌ nonzero
has-div s t (pos m) (pos zero) p q h k = absurd (k refl)
has-div s t (negsuc m) (pos zero) p q h k = absurd (k refl)
has-div s t (pos zero) (pos (suc n)) p q h k = absurd (omega arith)
has-div s t (pos zero) (negsuc n) p q h k = absurd (omega arith)
has-div s t (pos (suc m)) (pos (suc n)) p q h k =
    let (d, e) = div_pos (suc m) (suc n) h (omega arith) in rw e (ground arith)
has-div s t (pos (suc m)) (negsuc n) p q h k =
    let (d, e) = div_pos (suc m) (suc n) h (omega arith) in rw e (ground arith)
has-div s t (negsuc m) (pos (suc n)) p q h k =
    let (d, e) = div_pos (suc m) (suc n) h (omega arith) in rw e (ground arith)
has-div s t (negsuc m) (negsuc n) p q h k =
    let (d, e) = div_pos (suc m) (suc n) h (omega arith) in rw e (ground arith)

-- `div a b` represents the quotient of `x` by `y`, rounded towards zero, if `y` is not zero and
-- not larger than `x` in absolute value.
pub div-Represents :
    (a b : ℕ) (x y : ℤ)
    → Represents a x
    → Represents b y
    → abs_ℕ y ≤ abs_ℕ x
    → y ≢ pos 0
    → Represents (div a b) (x /ℤ y)
div-Represents a b x y p q h k =
    contain-div a b (x /ℤ y)
    ∙ has-div (signs a) (signs b) x y (rw (contain-has a x) at p) (rw (contain-has b y) at q) h k

quotient_small : (x y : ℤ) → abs_ℕ x < abs_ℕ y → x /ℤ y ≡ pos 0
unfolding ◌/ℤ◌
quotient_small (pos m) (pos n) h = rw (div_small m n h)
quotient_small (pos m) (negsuc n) h = rw (div_small m (suc n) h)
quotient_small (negsuc m) (pos n) h = rw (div_small (suc m) n h)
quotient_small (negsuc m) (negsuc n) h = rw (div_small (suc m) (suc n) h)

has-div_zero : (s t : Signs) → s.null ≡ false → has (mul_signs s (nonzero t)) (pos 0) ≡ true → ⊥
unfolding nonzero
has-div_zero s t z h = ground arith

-- Where `y` is larger than `x` in absolute value, the quotient is rounded to zero, and `div a b`
-- does not represent it if `a` lacks zero.
pub div-misses_zero :
    (a b : ℕ) (x y : ℤ)
    → abs_ℕ x < abs_ℕ y
    → contain a addr_zero ≡ false
    → (x /ℤ y ≡ pos 0) × ¬ Represents (div a b) (x /ℤ y)
div-misses_zero a b x y small z =
    let e = quotient_small x y small in
    (e, rw e (λ r. has-div_zero (signs a) (signs b) z (sym (contain-div a b (pos 0)) ∙ r)))
