-- ===== src/CeskSet/Rename.antt =====
-- The list of a set in which an address gives way to another.
use adam.Base.{
  ℕ, suc, ◌+◌, ◌%◌, ◌^◌, ◌≡◌, refl, sym, ◌∙◌, ap, Bool, true, false, not, ◌&&◌, ◌||◌, List, [], ◌∷◌,
  ◌==◌, if◌then◌else◌, arith, Bool-cases, inl, inr, length,
}
use adam.Address.{is_reloc}
use adam.CeskSet.{Element}
use adam.CeskSet.Change.{rename, move_reloc}
use adam.CeskSet.Valid.{addrs, has, Distinct, relocs}

pub has-rename :
    (a c b : ℕ) (es : List Element)
    → Distinct (addrs es)
    → has a (addrs es) ≡ true
    → has b (addrs (rename a c es)) ≡ ((c == b) || (not (a == b) && has b (addrs es)))
unfolding rename
has-rename a c b [] d h = absurd (ground (arith, h))
has-rename a c b (e ∷ es) (head, d) h = elim (Bool-cases (e.addr == a)) [
  | inl y ↦
      let same : e.addr ≡ a = ground (arith, y) in
      let gone : has a (addrs es) ≡ false = ap (λ x. has x (addrs es)) (sym same) ∙ head in
      elim (Bool-cases (a == b)) [
        | inl z ↦
            let b_gone : has b (addrs es) ≡ false =
              ap (λ x. has x (addrs es)) (ground (arith, z)) ∙ gone in
            rw (y, z, b_gone) refl
        | inr z ↦ let other : (e.addr == b) ≡ false = ground (arith, y, z) in rw (y, z, other) refl
      ]
  | inr n ↦
      let more : has a (addrs es) ≡ true = ground (arith, n, h) in
      rw n (ap (λ t. (e.addr == b) || t) (has-rename a c b es d more) ∙ ground (arith, n))
]

pub Distinct-rename :
    (a c : ℕ) (es : List Element)
    → Distinct (addrs es)
    → has c (addrs es) ≡ false
    → has a (addrs es) ≡ true
    → Distinct (addrs (rename a c es))
unfolding rename
Distinct-rename a c [] d p h = absurd (ground (arith, h))
Distinct-rename a c (e ∷ es) (head, d) p h = elim (Bool-cases (e.addr == a)) [
  | inl y ↦ rw y (ground (arith, p), d)
  | inr n ↦
      let more : has a (addrs es) ≡ true = ground (arith, n, h) in
      rw n (
        has-rename a c e.addr es d more ∙ rw head ground (arith, p),
        Distinct-rename a c es d (ground (arith, p)) more,
      )
]

pub length-rename : (a c : ℕ) (es : List Element) → length (rename a c es) ≡ length es
unfolding rename
length-rename a c [] = refl
length-rename a c (e ∷ es) = elim (Bool-cases (e.addr == a)) [
  | inl y ↦ rw y refl
  | inr n ↦ rw n (ap suc (length-rename a c es))
]

abbrev pub one_if : Bool → ℕ
one_if b = if b then 1 else 0

pub relocs-rename :
    (a c : ℕ) (es : List Element)
    → has a (addrs es) ≡ true
    → relocs (addrs (rename a c es)) + one_if (is_reloc a) ≡ relocs (addrs es) + one_if (is_reloc c)
unfolding rename
relocs-rename a c [] h = absurd (ground (arith, h))
relocs-rename a c (e ∷ es) h = elim (Bool-cases (e.addr == a)) [
  | inl y ↦ let same : e.addr ≡ a = ground (arith, y) in rw (y, same) (omega arith)
  | inr n ↦ rw n (omega (arith, relocs-rename a c es (ground (arith, n, h))))
]

-- The count of relocated addresses follows, modulo 2 ^ 32.
pub move_reloc-follows :
    (from to n m : ℕ)
    → m + one_if (is_reloc from) ≡ n + one_if (is_reloc to)
    → move_reloc from to (n % 2 ^ 32) ≡ m % 2 ^ 32
move_reloc-follows from to n m h = elim (Bool-cases (is_reloc from)) [
  | inl y ↦ elim (Bool-cases (is_reloc to)) [
    | inl z ↦ rw (y, z) (omega (arith, rw (y, z) at h))
    | inr z ↦ rw (y, z) (omega (arith, rw (y, z) at h))
  ]
  | inr y ↦ elim (Bool-cases (is_reloc to)) [
    | inl z ↦ rw (y, z) (omega (arith, rw (y, z) at h))
    | inr z ↦ rw (y, z) (omega (arith, rw (y, z) at h))
  ]
]
