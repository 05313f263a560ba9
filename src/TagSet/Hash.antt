-- ===== src/TagSet/Hash.antt =====
-- The hash of a tag set is kept up to date item by item.
use adam.Base.{ℕ, zero, suc, ◌<◌, ◌≡◌, refl, sym, ◌∙◌, ap, List, [], ◌∷◌, length, arith, bit_xor}
use adam.Base.Bits.{xor_right_comm, xor-xor_self}
use adam.TagSet.{set_resol, item_at}
use adam.TagSet.Items.{Item, item, item_hashcode, hash_items}

-- A number joined to the start of the hash is joined to its end.
hash_items-xor :
    (h x : ℕ) (xs : List Item) → hash_items (bit_xor h x) xs ≡ bit_xor (hash_items h xs) x
unfolding hash_items
hash_items-xor h x [] = refl
hash_items-xor h x (i ∷ is) =
    ap (λ (t : ℕ). hash_items t is) (xor_right_comm h x (item_hashcode i))
    ∙ hash_items-xor (bit_xor h (item_hashcode i)) x is

-- The hash without the old item and with the new one is the hash of the items after the write.
pub hash_items-set_resol :
    (h : ℕ) (xs : List Item) (l value : ℕ)
    → l < length xs
    → bit_xor
        (bit_xor (hash_items h xs) (item_hashcode (item_at xs l)))
        (item_hashcode (item (item_at xs l).tid value))
      ≡ hash_items h (set_resol xs l value)
unfolding hash_items set_resol item_at
hash_items-set_resol h [] l value p = absurd (omega arith)
hash_items-set_resol h (x ∷ xs) zero value p =
    let new = item_hashcode (item x.tid value) in
    ap (λ (t : ℕ). bit_xor (bit_xor t (item_hashcode x)) new)
      (hash_items-xor h (item_hashcode x) xs)
    ∙ ap (λ (t : ℕ). bit_xor t new) (xor-xor_self (hash_items h xs) (item_hashcode x))
    ∙ sym (hash_items-xor h new xs)
hash_items-set_resol h (x ∷ xs) (suc l) value p =
    hash_items-set_resol (bit_xor h (item_hashcode x)) xs l value (omega arith)
