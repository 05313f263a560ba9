-- ===== src/Arithmetic/Compare.antt =====
-- What the comparisons of cesk_arithmetic.h return.
use adam.Base.{ℕ, zero, suc, Bool, false, ◌≡◌, refl, ap, none, arith, if◌then◌else◌}
use adam.Address.{addr_pos, const_prefix, is_const, contain, const_set}
use adam.Arithmetic.{sub, neg, gt, eq, ge, lt, le, neq, bool_not}
use adam.Arithmetic.Signs.{Signs, signs, encode, add-encode, signs-encode, add_signs}

-- The difference is an encoded sign set, with + in it or not.
sub-encode : (a b : ℕ) → sub a b ≡ encode (add_signs (signs a) (signs (neg b)))
unfolding sub
sub-encode a b = add-encode a (neg b)

gt_of_sub : (a b : ℕ) (s : Signs) → sub a b ≡ encode s → gt a b ≡ (if s.positive then 5 else 1)
unfolding gt contain const_set encode
gt_of_sub a b s e = rw e (ground arith)

eq_of_sub : (a b : ℕ) (s : Signs) → sub a b ≡ encode s → eq a b ≡ (if s.positive then 2 else 0)
unfolding eq contain const_set encode
eq_of_sub a b s e = rw e (ground arith)

positive-sub :
    (a b : ℕ) → contain (sub a b) addr_pos ≡ (add_signs (signs a) (signs (neg b))).positive
positive-sub a b =
    rw (sub-encode a b)
      (ap (λ (t : Signs). t.positive) (signs-encode (add_signs (signs a) (signs (neg b)))))

values :
    (s : Signs) {g e : ℕ} {p : Bool}
    → g ≡ (if s.positive then 5 else 1)
    → e ≡ (if s.positive then 2 else 0)
    → p ≡ s.positive
    → (g ≡ (if p then 5 else 1))
      × (e ≡ (if p then 2 else 0))
      × (is_const g ≡ false)
      × (is_const e ≡ false)
unfolding is_const
values s h k q = (ground arith, ground arith, rw h (ground arith), rw k (ground arith))

-- `gt` and `eq` return 1 or 5, and 0 or 2, by whether the difference may be positive: never a
-- constant address, whatever the operands are.
pub gt-eq-values :
    (a b : ℕ)
    → (gt a b ≡ (if contain (sub a b) addr_pos then 5 else 1))
      × (eq a b ≡ (if contain (sub a b) addr_pos then 2 else 0))
      × (is_const (gt a b) ≡ false)
      × (is_const (eq a b) ≡ false)
gt-eq-values a b =
    values (add_signs (signs a) (signs (neg b))) (gt_of_sub a b _ (sub-encode a b))
      (eq_of_sub a b _ (sub-encode a b)) (positive-sub a b)

ge-none : (depth a b : ℕ) → ge depth a b ≡ none
unfolding ge
ge-none zero a b = refl
ge-none (suc depth) a b = rw (ge-none depth a b, ge)

-- `ge` never returns, however deep the recursion may go; nor do `lt` and `le`, which call it.
pub ge-diverges :
    (depth a b : ℕ) → (ge depth a b ≡ none) × (lt depth a b ≡ none) × (le depth a b ≡ none)
unfolding lt le
ge-diverges depth a b = (ge-none depth a b, ge-none depth b a, ge-none depth b a)

-- `neq` is empty: no truth value is left of the comparison.
pub neq_empty : (a b : ℕ) → neq a b ≡ const_prefix
unfolding neq bool_not contain is_const const_set
neq_empty a b = rw (eq_of_sub a b _ (sub-encode a b)) (ground arith)
