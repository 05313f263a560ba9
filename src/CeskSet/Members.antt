-- ===== src/CeskSet/Members.antt =====
-- Lists of distinct addresses as sets: their length and their hash.
use adam.Base.{
  ℕ, suc, ◌≤◌, ◌≡◌, refl, sym, ◌∙◌, ap, true, false, not, ◌&&◌, List, [], ◌∷◌, ◌==◌, if◌then◌else◌,
  arith, Bool-cases, inl, inr, length, bit_xor,
}
use adam.Base.Bits.{xor_right_comm}
use adam.CeskSet.{addr_code}
use adam.CeskSet.Change.{hash_elements}
use adam.CeskSet.Valid.{has, Distinct}
use adam.CeskSet.Copy.{has_apart}

abbrev pub Sub : List ℕ → List ℕ → Type 0
Sub xs ys = (a : ℕ) → has a xs ≡ true → has a ys ≡ true

abbrev remove : ℕ → List ℕ → List ℕ
remove a [] = []
remove a (x ∷ xs) = let rest = remove a xs in if x == a then xs else x ∷ rest

has-remove :
    (a b : ℕ) (xs : List ℕ) → Distinct xs → has b (remove a xs) ≡ (not (a == b) && has b xs)
has-remove a b [] d = ground arith
has-remove a b (x ∷ xs) (head, d) = elim (Bool-cases (x == a)) [
  | inl y ↦ elim (Bool-cases (a == b)) [
    | inl z ↦
        let gone : has b xs ≡ false = ap (λ t. has t xs) (ground (arith, y, z)) ∙ head in
        rw (y, z) gone
    | inr z ↦ let other : (x == b) ≡ false = ground (arith, y, z) in rw (y, z, other) refl
  ]
  | inr n ↦ rw (n, has-remove a b xs d) (ground (arith, n))
]

Distinct-remove : (a : ℕ) (xs : List ℕ) → Distinct xs → Distinct (remove a xs)
Distinct-remove a [] d = tt
Distinct-remove a (x ∷ xs) (head, d) = elim (Bool-cases (x == a)) [
  | inl y ↦ rw y d
  | inr n ↦ rw n (has-remove a x xs d ∙ rw head (ground arith), Distinct-remove a xs d)
]

length-remove : (a : ℕ) (xs : List ℕ) → has a xs ≡ true → suc (length (remove a xs)) ≡ length xs
length-remove a [] h = absurd (ground (arith, h))
length-remove a (x ∷ xs) h = elim (Bool-cases (x == a)) [
  | inl y ↦ rw y refl
  | inr n ↦ rw n (ap suc (length-remove a xs (ground (arith, n, h))))
]

-- What is left without the head is in the rest.
Sub-remove :
    (x : ℕ) (xs ys : List ℕ)
    → Distinct (x ∷ xs)
    → Distinct ys
    → Sub (x ∷ xs) ys
    → Sub xs (remove x ys)
Sub-remove x xs ys (head, d) e sub a h =
    let apart : (x == a) ≡ false = has_apart x a xs head h in
    has-remove x a ys e ∙ rw (apart, sub a (rw h (ground arith))) refl

pub Sub-length : (xs ys : List ℕ) → Distinct xs → Distinct ys → Sub xs ys → length xs ≤ length ys
Sub-length [] ys d e sub = omega arith
Sub-length (x ∷ xs) ys d e sub = omega (
  arith,
  length-remove x ys (sub x (ground arith)),
  Sub-length xs (remove x ys) d.1 (Distinct-remove x ys e) (Sub-remove x xs ys d e sub),
)

-- Distinct addresses that are in a list no longer than they are all of it.
pub Sub-converse :
    (xs ys : List ℕ) → Distinct xs → Distinct ys → Sub xs ys → length ys ≤ length xs → Sub ys xs
Sub-converse [] [] d e sub le a h = h
Sub-converse [] (y ∷ ys) d e sub le a h = absurd (omega arith)
Sub-converse (x ∷ xs) ys d e sub le a h = elim (Bool-cases (x == a)) [
  | inl same ↦ rw same refl
  | inr n ↦
      let shorter : length (remove x ys) ≤ length xs =
        omega (arith, length-remove x ys (sub x (ground arith)), le) in
      let left : has a (remove x ys) ≡ true = has-remove x a ys e ∙ rw (n, h) refl in
      rw n (
        Sub-converse xs (remove x ys) d.1 (Distinct-remove x ys e) (Sub-remove x xs ys d e sub)
          shorter a left)
]

pub hash_elements-xor :
    (h c : ℕ) (xs : List ℕ) → hash_elements (bit_xor h c) xs ≡ bit_xor (hash_elements h xs) c
unfolding hash_elements
hash_elements-xor h c [] = refl
hash_elements-xor h c (x ∷ xs) =
    ap (λ (t : ℕ). hash_elements t xs) (xor_right_comm h c (addr_code x))
    ∙ hash_elements-xor (bit_xor h (addr_code x)) c xs

hash_elements-remove :
    (h a : ℕ) (xs : List ℕ)
    → has a xs ≡ true
    → hash_elements h xs ≡ hash_elements (bit_xor h (addr_code a)) (remove a xs)
unfolding hash_elements
hash_elements-remove h a [] p = absurd (ground (arith, p))
hash_elements-remove h a (x ∷ xs) p = elim (Bool-cases (x == a)) [
  | inl y ↦
      let same : x ≡ a = ground (arith, y) in
      rw y (ap (λ (t : ℕ). hash_elements (bit_xor h (addr_code t)) xs) same)
  | inr n ↦ rw n (
      hash_elements-remove (bit_xor h (addr_code x)) a xs (ground (arith, n, p))
      ∙ ap (λ (t : ℕ). hash_elements t (remove a xs))
          (xor_right_comm h (addr_code x) (addr_code a)))
]

-- The hash does not depend on the order.
pub hash_elements-same :
    (h : ℕ) (xs ys : List ℕ)
    → Distinct xs
    → Distinct ys
    → Sub xs ys
    → Sub ys xs
    → hash_elements h xs ≡ hash_elements h ys
unfolding hash_elements
hash_elements-same h [] [] d e sub sup = refl
hash_elements-same h [] (y ∷ ys) d e sub sup = absurd (ground (arith, sup y (ground arith)))
hash_elements-same h (x ∷ xs) ys d e sub sup =
    hash_elements-same (bit_xor h (addr_code x)) xs (remove x ys) d.1 (Distinct-remove x ys e)
      (Sub-remove x xs ys d e sub)
      (λ a p.
        let left : (not (x == a) && has a ys) ≡ true = sym (has-remove x a ys e) ∙ p in
        let there = sup a (ground (arith, left)) in ground (arith, left, there))
    ∙ sym (hash_elements-remove h x ys (sub x (ground arith)))
