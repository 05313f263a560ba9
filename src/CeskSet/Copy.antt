-- ===== src/CeskSet/Copy.antt =====
-- The copying loop of `_cesk_set_duplicate`.
use adam.Base.{
  ℕ, ◌+◌, ◌≡◌, refl, ◌∙◌, ap, true, false, ◌&&◌, ◌||◌, List, [], ◌∷◌, ◌==◌, arith, Bool-cases, inl,
  inr, length,
}
use adam.CeskSet.{key, Element, Sets, hash_insert, link_front, copy_elements}
use adam.CeskSet.Table.{IsTable, hash_find-hash_insert, hash_insert-IsTable}
use adam.CeskSet.Valid.{addrs, has, Distinct, relocs, keys_of, addrs-link_front, length-link_front}

-- An address that is on the list is not one that is not.
pub has_apart : (a b : ℕ) (xs : List ℕ) → has a xs ≡ false → has b xs ≡ true → (a == b) ≡ false
has_apart a b xs p q = elim (Bool-cases (a == b)) [
  | inl y ↦ let e : a ≡ b = ground (arith, y) in absurd (ground (arith, ap (λ x. has x xs) e, p, q))
  | inr n ↦ n
]

-- The new set's keys for the addresses are in the table.
pub copy_elements-keys :
    (new : ℕ) (es copied : List Element) (s : Sets) (j b : ℕ)
    → keys_of (copy_elements new es copied s).1 j b
      ≡ ((new == j) && has b (addrs es) || keys_of s j b)
unfolding copy_elements
copy_elements-keys new [] copied s j b = ground arith
copy_elements-keys new (e ∷ es) copied s j b =
    copy_elements-keys new es (link_front true e.addr copied) (hash_insert (key new e.addr) s) j b
    ∙ rw (hash_find-hash_insert (key new e.addr) (key j b) s) (ground arith)

pub copy_elements-IsTable :
    (new : ℕ) (es copied : List Element) (s : Sets)
    → IsTable s
    → Distinct (addrs es)
    → ((a : ℕ) → has a (addrs es) ≡ true → keys_of s new a ≡ false)
    → IsTable (copy_elements new es copied s).1
unfolding copy_elements
copy_elements-IsTable new [] copied s t d absent = t
copy_elements-IsTable new (e ∷ es) copied s t (head, d) absent =
    copy_elements-IsTable new es (link_front true e.addr copied) (hash_insert (key new e.addr) s)
      (hash_insert-IsTable (key new e.addr) s t (absent e.addr (ground arith))) d
      (λ a h.
        let other : (e.addr == a) ≡ false = has_apart e.addr a (addrs es) head h in
        let new_one : keys_of s new a ≡ false = absent a (rw h (ground arith)) in
        hash_find-hash_insert (key new e.addr) (key new a) s ∙ rw (new_one, other) (ground arith))

-- Nothing but the table changes.
pub copy_elements-rest :
    (new : ℕ) (es copied : List Element) (s : Sets)
    → ((copy_elements new es copied s).1.info ≡ s.info)
      × ((copy_elements new es copied s).1.next_idx ≡ s.next_idx)
      × ((copy_elements new es copied s).1.empty_set ≡ s.empty_set)
      × ((copy_elements new es copied s).1.tag_state ≡ s.tag_state)
unfolding copy_elements hash_insert
copy_elements-rest new [] copied s = (refl, refl, refl, refl)
copy_elements-rest new (e ∷ es) copied s =
    copy_elements-rest new es (link_front true e.addr copied) (hash_insert (key new e.addr) s)

-- The list of the copy has the addresses of the original.
pub copy_elements-has :
    (new : ℕ) (es copied : List Element) (s : Sets) (a : ℕ)
    → has a (addrs (copy_elements new es copied s).0) ≡ (has a (addrs es) || has a (addrs copied))
unfolding copy_elements
copy_elements-has new [] copied s a = refl
copy_elements-has new (e ∷ es) copied s a =
    copy_elements-has new es (link_front true e.addr copied) (hash_insert (key new e.addr) s) a
    ∙ rw (addrs-link_front true e.addr copied) (ground arith)

pub copy_elements-Distinct :
    (new : ℕ) (es copied : List Element) (s : Sets)
    → Distinct (addrs es)
    → Distinct (addrs copied)
    → ((a : ℕ) → has a (addrs es) ≡ true → has a (addrs copied) ≡ false)
    → Distinct (addrs (copy_elements new es copied s).0)
unfolding copy_elements
copy_elements-Distinct new [] copied s d c apart = c
copy_elements-Distinct new (e ∷ es) copied s (head, d) c apart =
    copy_elements-Distinct new es (link_front true e.addr copied) (hash_insert (key new e.addr) s) d
      (rw (addrs-link_front true e.addr copied) (apart e.addr (ground arith), c))
      (λ a h.
        let other : (e.addr == a) ≡ false = has_apart e.addr a (addrs es) head h in
        let new_one : has a (addrs copied) ≡ false = apart a (rw h (ground arith)) in
        rw (addrs-link_front true e.addr copied, other, new_one) refl)

pub copy_elements-length :
    (new : ℕ) (es copied : List Element) (s : Sets)
    → length (copy_elements new es copied s).0 ≡ length es + length copied
unfolding copy_elements
copy_elements-length new [] copied s = omega arith
copy_elements-length new (e ∷ es) copied s = omega (
  arith,
  copy_elements-length new es (link_front true e.addr copied) (hash_insert (key new e.addr) s),
  length-link_front true e.addr copied,
)

pub copy_elements-relocs :
    (new : ℕ) (es copied : List Element) (s : Sets)
    → relocs (addrs (copy_elements new es copied s).0) ≡ relocs (addrs es) + relocs (addrs copied)
unfolding copy_elements
copy_elements-relocs new [] copied s = omega arith
copy_elements-relocs new (e ∷ es) copied s =
    copy_elements-relocs new es (link_front true e.addr copied) (hash_insert (key new e.addr) s)
    ∙ rw (addrs-link_front true e.addr copied) (ground arith)
