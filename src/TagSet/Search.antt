-- ===== src/TagSet/Search.antt =====
-- The binary search of tag_set.c finds what a scan finds.
use adam.Base.{
  ℕ, zero, suc, ◌+◌, ◌-◌, ◌/◌, ◌<◌, ◌≤◌, true, false, ◌||◌, ◌≡◌, refl, sym, ◌∙◌, ap, Option, none,
  some, List, [], ◌∷◌, ◌==◌, ltb, leb, if◌then◌else◌, length, arith, Bool-cases, inl, inr, subst,
}
use mathlib.Core.Option
use native.Mathlib.Nat.{le_refl}
use adam.TagSet.Items.{Item, tid_at, search_loop, settle, position}
use adam.TagSet.Order.{Sorted}

-- The index of the first item with the tag.
abbrev pub find_index : List Item → ℕ → Option ℕ
find_index [] t = none
find_index (x ∷ xs) t =
    let rest = find_index xs t in if x.tid == t then some 0 else Option.map suc rest

tid_at-le : (lo : ℕ) (xs : List Item) (i : ℕ) → Sorted lo xs → i < length xs → lo ≤ tid_at xs i
unfolding tid_at
tid_at-le lo [] i s h = absurd (omega arith)
tid_at-le lo (x ∷ xs) zero s h = s.0
tid_at-le lo (x ∷ xs) (suc i) s h = omega (arith, s.0, tid_at-le (x.tid + 1) xs i s.2 (omega arith))

find_index-below :
    (lo : ℕ) (xs : List Item) (t : ℕ) → Sorted lo xs → t < lo → find_index xs t ≡ none
find_index-below lo [] t s h = refl
find_index-below lo (x ∷ xs) t s h =
    ground (arith, find_index-below (x.tid + 1) xs t s.2 (omega arith))

find_index-at :
    (lo : ℕ) (xs : List Item) (i : ℕ)
    → Sorted lo xs
    → i < length xs
    → find_index xs (tid_at xs i) ≡ some i
unfolding tid_at
find_index-at lo [] i s h = absurd (omega arith)
find_index-at lo (x ∷ xs) zero s h = ground arith
find_index-at lo (x ∷ xs) (suc i) s h =
    let apart : (x.tid == tid_at xs i) ≡ false =
      ground (arith, tid_at-le (x.tid + 1) xs i s.2 (omega arith)) in
    rw (apart, find_index-at (x.tid + 1) xs i s.2 (omega arith)) refl

-- Between two neighbours there is nothing.
find_index-between :
    (lo : ℕ) (xs : List Item) (i t : ℕ)
    → Sorted lo xs
    → i < length xs
    → tid_at xs i < t
    → (suc i < length xs → t < tid_at xs (suc i))
    → find_index xs t ≡ none
unfolding tid_at
find_index-between lo [] i t s h p q = refl
find_index-between lo (x ∷ []) zero t s h p q = ground arith
find_index-between lo (x ∷ y ∷ xs) zero t s h p q =
    let apart : (x.tid == t) ≡ false = ground arith in
    rw (apart, find_index-below y.tid (y ∷ xs) t (le_refl _, s.2.1, s.2.2) (q (omega arith))) refl
find_index-between lo (x ∷ xs) (suc i) t s h p q =
    let apart : (x.tid == t) ≡ false =
      ground (arith, tid_at-le (x.tid + 1) xs i s.2 (omega arith)) in
    rw (apart, find_index-between (x.tid + 1) xs i t s.2 (omega arith) p (λ k. q (omega arith)))
      refl

-- The search ends in the last item whose tag is at most the one looked for.
search_loop_lem :
    (n : ℕ) (xs : List Item) (t l r : ℕ)
    → r ≤ length xs
    → l < r
    → r ≤ n + l
    → tid_at xs l ≤ t
    → (r < length xs → t < tid_at xs r)
    → (k : ℕ) × (search_loop n xs t l r ≡ some k)
      × (k < length xs)
      × (tid_at xs k ≤ t)
      × (suc k < length xs → t < tid_at xs (suc k))
unfolding search_loop
search_loop_lem zero xs t l r a b c d e = absurd (omega arith)
search_loop_lem (suc n) xs t l r a b c d e = elim (Bool-cases (ltb 1 (r - l))) [
  | inr done ↦
      let last : r ≡ suc l = ground arith in
      (l, rw done refl, omega arith, d, subst (λ (u : ℕ). u < length xs → t < tid_at xs u) last e)
  | inl more ↦
      let m = (l + r) / 2 in
      let wide : 1 < r - l = ground arith in
      elim (Bool-cases (leb (tid_at xs m) t)) [
        | inl low ↦
            rw (more, low)
              (search_loop_lem n xs t m r a (omega arith) (omega arith) (ground arith) e)
        | inr high ↦
            rw (more, high)
              (search_loop_lem n xs t l m (omega arith) (omega arith) (omega arith) d
                (λ h. ground arith))
      ]
]

settle-find_index :
    (lo : ℕ) (xs : List Item) (t k : ℕ)
    → Sorted lo xs
    → k < length xs
    → tid_at xs k ≤ t
    → (suc k < length xs → t < tid_at xs (suc k))
    → settle xs t (some k) ≡ some (find_index xs t)
unfolding settle
settle-find_index lo xs t k s h p q = elim (Bool-cases (tid_at xs k == t)) [
  | inl same ↦
      let e : tid_at xs k ≡ t = ground arith in
      rw same (ap some (sym (find_index-at lo xs k s h) ∙ ap (find_index xs) e))
  | inr other ↦ rw other (ap some (sym (find_index-between lo xs k t s h (ground arith) q)))
]

-- Nothing is found outside the range of the tags.
outside :
    (lo : ℕ) (x : Item) (xs : List Item) (t : ℕ)
    → Sorted lo (x ∷ xs)
    → (ltb t x.tid || ltb (tid_at (x ∷ xs) (length xs)) t) ≡ true
    → find_index (x ∷ xs) t ≡ none
outside lo x xs t s h = elim (Bool-cases (ltb t x.tid)) [
  | inl low ↦ find_index-below x.tid (x ∷ xs) t (le_refl _, s.1, s.2) (ground arith)
  | inr other ↦
      find_index-between lo (x ∷ xs) (length xs) t s (omega arith) (ground arith)
        (λ k. absurd (omega arith))
]

-- On an array in order the search agrees with the scan: it ends, and gives the index of the tag,
-- or says that the tag is not there.
pub position-find_index :
    (lo : ℕ) (items : List Item) (what : ℕ)
    → Sorted lo items
    → position items what ≡ some (find_index items what)
unfolding position
position-find_index lo [] what s = refl
position-find_index lo (x ∷ xs) what s =
    elim (Bool-cases (ltb what x.tid || ltb (tid_at (x ∷ xs) (length xs)) what)) [
      | inl out ↦ rw out (ap some (sym (outside lo x xs what s out)))
      | inr within ↦
          let first : tid_at (x ∷ xs) 0 ≡ x.tid = unfold tid_at in refl in
          let (k, run, inside, low, high) =
            search_loop_lem (suc (length xs)) (x ∷ xs) what 0 (suc (length xs)) (le_refl _)
              (omega arith) (omega arith) (ground arith) (λ h. absurd (omega arith)) in
          rw (within, run) (settle-find_index lo (x ∷ xs) what k s inside low high)
    ]
