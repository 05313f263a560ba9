-- ===== src/TagSet/Same.antt =====
-- The comparison of the items of two tag sets.
use adam.Base.{
  ◌≡◌, refl, sym, ◌∙◌, ap, Bool, true, false, ◌&&◌, List, [], ◌∷◌, ◌==◌, if◌then◌else◌, arith,
  length,
}
use adam.TagSet.{TagSet}
use adam.TagSet.Items.{Item, hash_init, hash_items, same_items}

same_items_refl : (xs : List Item) → same_items xs xs ≡ true
unfolding same_items
same_items_refl [] = refl
same_items_refl (x ∷ xs) = rw (same_items_refl xs) (ground arith)

same_items_sound : (xs ys : List Item) → length xs ≡ length ys → same_items xs ys ≡ true → xs ≡ ys
unfolding same_items
same_items_sound [] [] l h = refl
same_items_sound [] (y ∷ ys) l h = absurd (omega arith)
same_items_sound (x ∷ xs) [] l h = absurd (omega arith)
same_items_sound (x ∷ xs) (y ∷ ys) l h =
    let a : x.tid ≡ y.tid = ground (arith, h) in
    let b : x.resol ≡ y.resol = ground (arith, h) in
    let head : x ≡ y = (λ k. record { tid = a k; resol = b k }) in
    let tail = same_items_sound xs ys (omega arith) (ground (arith, h)) in
    ap (λ z. z ∷ xs) head ∙ ap (λ zs. y ∷ zs) tail

-- What the comparison of two tag sets comes to.
abbrev pub tags_agree : TagSet → TagSet → Bool
tags_agree t u =
    if (length t.items == length u.items) && (t.hashcode == u.hashcode)
    then same_items t.items u.items
    else false

pub tags_agree_sound : (t u : TagSet) → tags_agree t u ≡ true → t.items ≡ u.items
tags_agree_sound t u h = same_items_sound t.items u.items (ground (arith, h)) (ground (arith, h))

pub tags_agree_complete :
    (t u : TagSet)
    → t.hashcode ≡ hash_items hash_init t.items
    → u.hashcode ≡ hash_items hash_init u.items
    → t.items ≡ u.items
    → tags_agree t u ≡ true
tags_agree_complete t u h k e =
    let hash : t.hashcode ≡ u.hashcode = h ∙ ap (hash_items hash_init) e ∙ sym k in
    let n : length t.items ≡ length u.items = ap length e in
    let same : same_items t.items u.items ≡ true =
      ap (same_items t.items) (sym e) ∙ same_items_refl t.items in
    ground (arith, hash, n, same)
