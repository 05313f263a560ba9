-- ===== src/Static/Entries.antt =====
-- The fields of a tree in the order of their indices.
use adam.Base.{
  ℕ, ◌-◌, ◌<◌, ◌≤◌, ◌≡◌, refl, Bool, true, false, ◌&&◌, Option, none, some, List, [], ◌∷◌, ◌++◌,
  ltb, arith, Bool-cases, inl, inr, if◌then◌else◌,
}
use adam.CeskSet.Methods.{Handle}
use adam.Static.{middle}
use adam.Static.Shape.{Tree, bare, field, branch}

abbrev pub Entry : Type 0
Entry = ℕ × Handle

unfoldable pub entries : ℕ → ℕ → Tree → List Entry
entries l r bare = []
entries l r (field v) = (l, v) ∷ []
entries l r (branch t u) = entries l (middle l r) t ++ entries (middle l r) r u

-- The first entry from an index on.
unfoldable pub first_from : ℕ → List Entry → Option Entry
first_from start [] = none
first_from start (e ∷ es) = let rest = first_from start es in if ltb e.0 start then rest else some e

abbrev pub is_bare : Tree → Bool
is_bare bare = true
is_bare (field v) = false
is_bare (branch t u) = false

-- No node without a field below it.
abbrev pub Proper : Tree → Type 0
Proper bare = Unit
Proper (field v) = Unit
Proper (branch t u) = Proper t × Proper u × ((is_bare t && is_bare u) ≡ false)

abbrev pub Within : ℕ → ℕ → List Entry → Type 0
Within a b [] = Unit
Within a b (e ∷ es) = (a ≤ e.0) × (e.0 < b) × Within a b es

Within-append :
    (a b c d l r : ℕ) (xs ys : List Entry)
    → l ≤ a
    → b ≤ r
    → l ≤ c
    → d ≤ r
    → Within a b xs
    → Within c d ys
    → Within l r (xs ++ ys)
Within-append a b c d l r [] [] p q p' q' h k = tt
Within-append a b c d l r [] (e ∷ ys) p q p' q' h (low, high, k) =
    (omega (arith, low, p'), omega (arith, high, q'), Within-append a b c d l r [] ys p q p' q' h k)
Within-append a b c d l r (e ∷ xs) ys p q p' q' (low, high, h) k =
    (omega (arith, low, p), omega (arith, high, q), Within-append a b c d l r xs ys p q p' q' h k)

-- Every node that is not a leaf has a segment of more than one index.
abbrev pub Splits : ℕ → ℕ → Tree → Type 0
Splits l r bare = Unit
Splits l r (field v) = Unit
Splits l r (branch t u) = (1 < r - l) × Splits l (middle l r) t × Splits (middle l r) r u

-- The entries lie in the segment, which is not empty and is split in two that are not.
pub entries-Within : (l r : ℕ) (t : Tree) → l < r → Splits l r t → Within l r (entries l r t)
unfolding entries
entries-Within l r bare h k = tt
entries-Within l r (field v) h k = (omega arith, h, tt)
entries-Within l r (branch t u) h (wide, left, right) =
    Within-append l (middle l r) (middle l r) r l r (entries l (middle l r) t)
      (entries (middle l r) r u) (omega arith) (omega (arith, h)) (omega (arith, h)) (omega arith)
      (entries-Within l (middle l r) t (omega (arith, wide)) left)
      (entries-Within (middle l r) r u (omega (arith, wide)) right)

pub first_from-append :
    (start : ℕ) (xs ys : List Entry)
    → first_from start (xs ++ ys)
      ≡ (elim (first_from start xs) [ none ↦ first_from start ys | some e ↦ some e ])
unfolding first_from
first_from-append start [] ys = refl
first_from-append start (e ∷ xs) ys = elim (Bool-cases (ltb e.0 start)) [
  | inl y ↦ rw (y, first_from-append start xs ys) refl
  | inr n ↦ rw n refl
]

pub first_from-passed :
    (a b start : ℕ) (es : List Entry) → Within a b es → b ≤ start → first_from start es ≡ none
unfolding first_from
first_from-passed a b start [] h p = refl
first_from-passed a b start (e ∷ es) (low, high, h) p =
    let before : ltb e.0 start ≡ true = ground (arith, high, p) in
    rw before (first_from-passed a b start es h p)

pub first_from-head :
    (a b start : ℕ) (e : Entry) (es : List Entry)
    → Within a b (e ∷ es)
    → start ≤ a
    → first_from start (e ∷ es) ≡ some e
unfolding first_from
first_from-head a b start e es (low, high, h) p =
    let after : ltb e.0 start ≡ false = ground (arith, low, p) in rw after refl
