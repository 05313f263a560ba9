-- ===== src/Arithmetic/Truth.antt =====
-- The truth functions of cesk_arithmetic.h. Of truth values the address holds two bits, those of
-- + (true) and 0 (false).
use adam.Base.{ℕ, Bool, true, false, not, ◌&&◌, ◌||◌, ◌≡◌, sym, ◌∙◌, ap, ◌↔◌, arith}
use adam.Address.{addr_true, addr_false, contain}
use adam.Arithmetic.{bool_not, bool_and, bool_or, bool_xor}
use adam.Arithmetic.Signs.{
  Signs, encode, signs-encode, bool_not-encode, bool_and-encode, bool_or-encode, bool_xor-encode,
}

abbrev pub bool_addr : Bool → ℕ
bool_addr true = addr_true
bool_addr false = addr_false

-- `a` may stand for the truth value `x`.
abbrev pub May : ℕ → Bool → Type 0
May a x = contain a (bool_addr x) ≡ true

abbrev may : Signs → Bool → Bool
may s true = s.positive
may s false = s.null

contain-encode : (s : Signs) (x : Bool) → contain (encode s) (bool_addr x) ≡ may s x
contain-encode s true = ap (λ (t : Signs). t.positive) (signs-encode s)
contain-encode s false = ap (λ (t : Signs). t.null) (signs-encode s)

-- `bool_not a` may be `x` exactly when `a` may be the opposite.
pub bool_not-May :
    (a : ℕ) (x : Bool) → contain (bool_not a) (bool_addr x) ≡ contain a (bool_addr (not x))
bool_not-May a true = rw (bool_not-encode a, contain-encode)
bool_not-May a false = rw (bool_not-encode a, contain-encode)

abbrev pub same : Bool → Bool → Bool
same true y = y
same false y = not y

abbrev pub exclusive : Bool → Bool → Bool
exclusive x y = not (same x y)

abbrev both : ℕ → ℕ → Bool → Bool → Bool
both a b x y = contain a (bool_addr x) && contain b (bool_addr y)

-- Whether `z` is a value of `op` on what `a` and `b` may be.
abbrev image : (Bool → Bool → Bool) → ℕ → ℕ → Bool → Bool
image op a b z =
    both a b true true && same (op true true) z
    || both a b true false && same (op true false) z
    || both a b false true && same (op false true) z
    || both a b false false && same (op false false) z

-- An address covers `op` on `a` and `b`.
abbrev pub Covers : (Bool → Bool → Bool) → ℕ → ℕ → ℕ → Type 0
Covers op a b c = (x y : Bool) → May a x → May b y → May c (op x y)

image-May :
    (op : Bool → Bool → Bool) (a b c : ℕ)
    → Covers op a b c
    → (z : Bool) → image op a b z ≡ true
    → May c z
image-May op a b c sound true h =
    ground (arith, sound true true, sound true false, sound false true, sound false false)
image-May op a b c sound false h =
    ground (arith, sound true true, sound true false, sound false true, sound false false)

May-image :
    (op : Bool → Bool → Bool) (a b : ℕ)
    → (x y : Bool) → May a x
    → May b y
    → image op a b (op x y) ≡ true
May-image op a b true true p q = ground arith
May-image op a b true false p q = ground arith
May-image op a b false true p q = ground arith
May-image op a b false false p q = ground arith

best :
    (op : Bool → Bool → Bool) (a b r c : ℕ)
    → ((z : Bool) → contain r (bool_addr z) ≡ image op a b z)
    → Covers op a b c ↔ ((z : Bool) → May r z → May c z)
best op a b r c law = (
  λ sound z h. image-May op a b c sound z (sym (law z) ∙ h),
  λ above x y p q. above (op x y) (law (op x y) ∙ May-image op a b x y p q),
)

-- `c` covers the conjunctions of what `a` and `b` may be exactly when it covers all that
-- `bool_and a b` may be: the result is sound, and the smallest sound one.
pub bool_and_best : (a b c : ℕ) → Covers ◌&&◌ a b c ↔ ((z : Bool) → May (bool_and a b) z → May c z)
bool_and_best a b c = best ◌&&◌ a b (bool_and a b) c law
  where
    law : (z : Bool) → contain (bool_and a b) (bool_addr z) ≡ image ◌&&◌ a b z
    law true = rw (bool_and-encode a b, contain-encode) (ground arith)
    law false = rw (bool_and-encode a b, contain-encode) (ground arith)

-- `c` covers the disjunctions of what `a` and `b` may be exactly when it covers all that
-- `bool_or a b` may be: the result is sound, and the smallest sound one.
pub bool_or_best : (a b c : ℕ) → Covers ◌||◌ a b c ↔ ((z : Bool) → May (bool_or a b) z → May c z)
bool_or_best a b c = best ◌||◌ a b (bool_or a b) c law
  where
    law : (z : Bool) → contain (bool_or a b) (bool_addr z) ≡ image ◌||◌ a b z
    law true = rw (bool_or-encode a b, contain-encode) (ground arith)
    law false = rw (bool_or-encode a b, contain-encode) (ground arith)

-- `c` covers the exclusive disjunctions of what `a` and `b` may be exactly when it covers all that
-- `bool_xor a b` may be: the result is sound, and the smallest sound one.
pub bool_xor_best :
    (a b c : ℕ) → Covers exclusive a b c ↔ ((z : Bool) → May (bool_xor a b) z → May c z)
bool_xor_best a b c = best exclusive a b (bool_xor a b) c law
  where
    law : (z : Bool) → contain (bool_xor a b) (bool_addr z) ≡ image exclusive a b z
    law true = rw (bool_xor-encode a b, contain-encode) (ground arith)
    law false = rw (bool_xor-encode a b, contain-encode) (ground arith)
