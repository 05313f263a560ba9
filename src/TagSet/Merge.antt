-- ===== src/TagSet/Merge.antt =====
-- The merge loop of tag_set.c joins two sets tag by tag.
use adam.Base.{
  ℕ, zero, suc, ◌+◌, ◌^◌, ◌<◌, ◌≤◌, Bool, true, false, ◌≡◌, ◌≢◌, ◌&&◌, refl, sym, ◌∙◌, ap, some,
  List, [], ◌∷◌, ◌++◌, ◌==◌, if◌then◌else◌, length, bit_or, bit_xor, arith, Bool-cases, inl, inr,
  subst, ==_iff,
}
use mathlib.Core.Path.{ap₂}
use mathlib.Core.List.{append_assoc, append-nil}
use adam.Base.Bits.{zero-or}
use adam.TagSet.Items.{
  Item, item, item_hashcode, hash_items, is_empty, least_tid, join_resol, advance, merge_loop,
}
use adam.TagSet.Order.{
  Sorted, resol_of, resol_of_low, Sorted-mono, advance-Sorted, resol_of-advance, join_resol-eq,
}

-- The tag of a round is at most the first tag of either side, and takes an item from one.
abbrev round_tid : List Item → List Item → ℕ
round_tid xs ys = least_tid ys (least_tid xs 0xffffffff)

round-le-left : (xs ys : List Item) → round_tid xs ys ≤ least_tid xs (round_tid xs ys)
unfolding least_tid
round-le-left [] ys = omega arith
round-le-left (x ∷ xs) [] = ground arith
round-le-left (x ∷ xs) (y ∷ ys) = ground arith

round-le-right : (xs ys : List Item) → round_tid xs ys ≤ least_tid ys (round_tid xs ys)
unfolding least_tid
round-le-right xs [] = omega arith
round-le-right [] (y ∷ ys) = ground arith
round-le-right (x ∷ xs) (y ∷ ys) = ground arith

abbrev both_empty : List Item → List Item → Bool
both_empty xs ys = is_empty xs && is_empty ys

le-round :
    (lo : ℕ) (xs ys : List Item)
    → Sorted lo xs
    → Sorted lo ys
    → both_empty xs ys ≡ false
    → (lo ≤ round_tid xs ys) × (round_tid xs ys < 2 ^ 32)
unfolding least_tid
le-round lo [] [] p q e = cc
le-round lo [] (y ∷ ys) p q e = ground arith
le-round lo (x ∷ xs) [] p q e = ground arith
le-round lo (x ∷ xs) (y ∷ ys) p q e = ground arith

round_progress :
    (lo n : ℕ) (xs ys : List Item)
    → Sorted lo xs
    → Sorted lo ys
    → both_empty xs ys ≡ false
    → length xs + length ys ≤ suc n
    → let c = round_tid xs ys in length (advance xs c) + length (advance ys c) ≤ n
unfolding least_tid advance
round_progress lo n [] [] p q e le = cc
round_progress lo n [] (y ∷ ys) p q e le = ground arith
round_progress lo n (x ∷ xs) [] p q e le = ground arith
round_progress lo n (x ∷ xs) (y ∷ ys) p q e le = ground arith

abbrev pub Each : (Item → Type 0) → List Item → Type 0
Each P [] = Unit {0}
Each P (x ∷ xs) = P x × Each P xs

-- What the merge of two sets is to have: their tags in order, each with the union of its
-- resolutions, and no tag without a resolution.
pub record Merged (lo : ℕ) (xs ys merged : List Item) : Type 0 where
  pub sorted : Sorted lo merged
  pub resols : (t : ℕ) → resol_of merged t ≡ bit_or (resol_of xs t) (resol_of ys t)
  pub informative : Each (λ i. i.resol ≢ 0) merged

join-union :
    (lo : ℕ) (xs ys : List Item)
    → Sorted lo xs
    → Sorted lo ys
    → let c = round_tid xs ys in
      join_resol ys c (join_resol xs c 0) ≡ bit_or (resol_of xs c) (resol_of ys c)
join-union lo xs ys p q =
    let c = round_tid xs ys in
    rw (
      join_resol-eq lo c 0 xs p (round-le-left xs ys),
      join_resol-eq lo c _ ys q (round-le-right xs ys),
      zero-or,
    )

abbrev front : ℕ → ℕ → List Item → List Item
front c r merged = if r == 0 then merged else item c r ∷ merged

resol_of-front :
    (c r t : ℕ) (merged : List Item)
    → Sorted (c + 1) merged
    → resol_of (front c r merged) t ≡ (if c == t then r else resol_of merged t)
resol_of-front c r t merged s = ground (arith, resol_of_low (c + 1) merged c s)

front-Sorted :
    (lo c r : ℕ) (merged : List Item)
    → lo ≤ c
    → c < 2 ^ 32
    → Sorted (c + 1) merged
    → Sorted lo (front c r merged)
front-Sorted lo c r merged low small s = elim (Bool-cases (r == 0)) [
  | inl void ↦ rw void (Sorted-mono lo (c + 1) merged (omega arith) s)
  | inr full ↦ rw full (low, small, s)
]

front-informative :
    (c r : ℕ) (merged : List Item)
    → Each (λ i. i.resol ≢ 0) merged
    → Each (λ i. i.resol ≢ 0) (front c r merged)
front-informative c r merged e = elim (Bool-cases (r == 0)) [
  | inl void ↦ rw void e
  | inr full ↦ rw full (ground arith, e)
]

-- A round in front of the merge of the rest.
Merged-round :
    (lo : ℕ) (xs ys merged : List Item)
    → Sorted lo xs
    → Sorted lo ys
    → both_empty xs ys ≡ false
    → let c = round_tid xs ys in
      Merged (c + 1) (advance xs c) (advance ys c) merged
      → Merged lo xs ys (front c (join_resol ys c (join_resol xs c 0)) merged)
Merged-round lo xs ys merged p q more m =
    let c = round_tid xs ys in
    let (low, small) = le-round lo xs ys p q more in
    record {
      sorted = front-Sorted lo c _ merged low small m.sorted;
      resols = λ t. resol_of-front c _ t merged m.sorted ∙ elim (Bool-cases (c == t)) [
        | inl same ↦ rw same (
            subst
              (λ (u : ℕ).
                join_resol ys c (join_resol xs c 0) ≡ bit_or (resol_of xs u) (resol_of ys u))
              ((==_iff c t).0 same) (join-union lo xs ys p q))
        | inr other ↦
            let apart : t ≢ c = ground arith in
            rw other (
              m.resols t
              ∙ ap₂ bit_or (resol_of-advance lo c t xs p apart)
                  (resol_of-advance lo c t ys q apart))
      ];
      informative = front-informative c _ merged m.informative;
    }

merge_loop-end :
    (n : ℕ) (xs ys out : List Item) (h : ℕ)
    → both_empty xs ys ≡ true
    → merge_loop n xs ys out h ≡ some (out, h)
unfolding merge_loop
merge_loop-end zero xs ys out h e = rw e refl
merge_loop-end (suc n) xs ys out h e = rw e refl

merge_loop-step :
    (n : ℕ) (xs ys out : List Item) (h : ℕ)
    → both_empty xs ys ≡ false
    → let c = round_tid xs ys in
      let r = join_resol ys c (join_resol xs c 0) in
      merge_loop (suc n) xs ys out h
      ≡ merge_loop n
          (advance xs c)
          (advance ys c)
          (if r == 0 then out else out ++ item c r ∷ [])
          (if r == 0 then h else bit_xor h (item_hashcode (item c r)))
unfolding merge_loop
merge_loop-step n xs ys out h e = rw e refl

Merged-end : (lo : ℕ) (xs ys : List Item) → both_empty xs ys ≡ true → Merged lo xs ys []
Merged-end lo [] [] e = record { sorted = tt; resols = λ t. sym (zero-or 0); informative = tt }
Merged-end lo [] (y ∷ ys) e = cc
Merged-end lo (x ∷ xs) ys e = cc

-- The accumulators of a round, with the rest of the merge.
front-accumulates :
    (c r h : ℕ) (out merged : List Item)
    → ◌≡◌ {A = List Item × ℕ}
        (
          (if r == 0 then out else out ++ item c r ∷ []) ++ merged,
          hash_items (if r == 0 then h else bit_xor h (item_hashcode (item c r))) merged,
        )
        (out ++ front c r merged, hash_items h (front c r merged))
unfolding hash_items
front-accumulates c r h out merged = elim (Bool-cases (r == 0)) [
  | inl void ↦ rw void refl
  | inr full ↦ rw (full, append_assoc) refl
]

not-both_empty : (xs ys : List Item) → both_empty xs ys ≡ false → 0 < length xs + length ys
not-both_empty [] [] e = cc
not-both_empty [] (y ∷ ys) e = omega arith
not-both_empty (x ∷ xs) ys e = omega arith

Merged-nothing :
    (n lo : ℕ) (xs ys out : List Item) (h : ℕ)
    → both_empty xs ys ≡ true
    → (merged : List Item) × (merge_loop n xs ys out h ≡ some (out ++ merged, hash_items h merged))
      × Merged lo xs ys merged
unfolding hash_items
Merged-nothing n lo xs ys out h e =
    ([], merge_loop-end n xs ys out h e ∙ rw append-nil refl, Merged-end lo xs ys e)

-- On sets in order, with as many rounds as there are items, the merge loop ends: the items that it
-- appends are in order, with the union of the two resolutions for each tag and none without, and
-- the hash goes on with them.
pub merge_loop-Merged :
    (n lo : ℕ) (xs ys out : List Item) (h : ℕ)
    → Sorted lo xs
    → Sorted lo ys
    → length xs + length ys ≤ n
    → (merged : List Item) × (merge_loop n xs ys out h ≡ some (out ++ merged, hash_items h merged))
      × Merged lo xs ys merged
merge_loop-Merged zero lo xs ys out h p q le = elim (Bool-cases (both_empty xs ys)) [
  | inl done ↦ Merged-nothing zero lo xs ys out h done
  | inr more ↦ absurd (omega (arith, not-both_empty xs ys more))
]
merge_loop-Merged (suc n) lo xs ys out h p q le = elim (Bool-cases (both_empty xs ys)) [
  | inl done ↦ Merged-nothing (suc n) lo xs ys out h done
  | inr more ↦
      let c = round_tid xs ys in
      let r = join_resol ys c (join_resol xs c 0) in
      let (merged, run, m) =
        merge_loop-Merged n (c + 1) (advance xs c) (advance ys c)
          (if r == 0 then out else out ++ item c r ∷ [])
          (if r == 0 then h else bit_xor h (item_hashcode (item c r)))
          (advance-Sorted lo c xs p (round-le-left xs ys))
          (advance-Sorted lo c ys q (round-le-right xs ys))
          (round_progress lo n xs ys p q more le) in
      (
        front c r merged,
        merge_loop-step n xs ys out h more ∙ run ∙ ap some (front-accumulates c r h out merged),
        Merged-round lo xs ys merged p q more m,
      )
]
