-- ===== src/TagSet/Order.antt =====
-- Sorted arrays of items, and one side of a round of the merge loop of tag_set.c.
use adam.Base.{
  ℕ, ◌+◌, ◌^◌, ◌<◌, ◌≤◌, ◌≡◌, ◌≢◌, refl, sym, List, [], ◌∷◌, ◌==◌, if◌then◌else◌, bit_or, arith,
  Bool-cases, inl, inr,
}
use adam.Base.Bits.{bit_or-zero}
use adam.TagSet.Items.{Item, least_tid, join_resol, advance}

-- Strictly increasing tags from `lo` on, all of them 32-bit numbers.
abbrev pub Sorted : ℕ → List Item → Type 0
Sorted lo [] = Unit {0}
Sorted lo (x ∷ xs) = (lo ≤ x.tid) × (x.tid < 2 ^ 32) × Sorted (x.tid + 1) xs

-- The resolution of a tag: 0, `TAG_RES_NOTHING`, where the set does not have it.
abbrev pub resol_of : List Item → ℕ → ℕ
resol_of [] t = 0
resol_of (x ∷ xs) t = if x.tid == t then x.resol else resol_of xs t

pub resol_of_low : (lo : ℕ) (xs : List Item) (t : ℕ) → Sorted lo xs → t < lo → resol_of xs t ≡ 0
resol_of_low lo [] t s lt = refl
resol_of_low lo (x ∷ xs) t s lt = ground (arith, resol_of_low (x.tid + 1) xs t s.2 (omega arith))

pub Sorted-mono : (lo hi : ℕ) (xs : List Item) → lo ≤ hi → Sorted hi xs → Sorted lo xs
Sorted-mono lo hi [] h s = tt
Sorted-mono lo hi (x ∷ xs) h s = (omega arith, s.1, s.2)

-- One side of a round at a tag that is at most the first.
pub advance-Sorted :
    (lo c : ℕ) (xs : List Item) → Sorted lo xs → c ≤ least_tid xs c → Sorted (c + 1) (advance xs c)
unfolding advance least_tid
advance-Sorted lo c [] s h = tt
advance-Sorted lo c (x ∷ xs) s h = elim (Bool-cases (c == x.tid)) [
  | inl same ↦ rw same (Sorted-mono (c + 1) (x.tid + 1) xs (ground arith) s.2)
  | inr other ↦ rw other (ground arith, s.1, s.2)
]

pub resol_of-advance :
    (lo c t : ℕ) (xs : List Item) → Sorted lo xs → t ≢ c → resol_of (advance xs c) t ≡ resol_of xs t
unfolding advance
resol_of-advance lo c t [] s h = refl
resol_of-advance lo c t (x ∷ xs) s h = ground arith

pub join_resol-eq :
    (lo c r : ℕ) (xs : List Item)
    → Sorted lo xs
    → c ≤ least_tid xs c
    → join_resol xs c r ≡ bit_or r (resol_of xs c)
unfolding join_resol least_tid
join_resol-eq lo c r [] s h = sym (bit_or-zero r)
join_resol-eq lo c r (x ∷ xs) s h = ground (arith, bit_or-zero r, resol_of_low (x.tid + 1) xs c s.2)
