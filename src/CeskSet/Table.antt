-- ===== src/CeskSet/Table.antt =====
-- The hash table of the address sets as a set of keys.
use adam.Base.{
  ℕ, ◌≡◌, refl, ◌∙◌, ap, subst, true, false, not, ◌&&◌, ◌||◌, List, [], ◌∷◌, ◌==◌, arith,
  Bool-cases, inl, inr,
}
use adam.CeskSet.{
  Key, Sets, slot_of, same_key, on_chain, hash_find, hash_insert, off_chain, hash_remove,
}

pub same_key_refl : (k : Key) → same_key k k ≡ true
same_key_refl k = ground arith

pub same_key_sound : (k l : Key) → same_key k l ≡ true → k ≡ l
same_key_sound k l h =
    let a : k.set_idx ≡ l.set_idx = ground (arith, h) in
    let b : k.addr ≡ l.addr = ground (arith, h) in λ i. record { set_idx = a i; addr = b i }

-- No key is twice on the chain.
abbrev pub Once : List Key → Type 0
Once [] = Unit
Once (k ∷ ks) = (on_chain ks k ≡ false) × Once ks

-- A number of a key on two chains: the same only for keys of one slot.
slots_differ : (k l : Key) → (slot_of l == slot_of k) ≡ false → same_key k l ≡ false
slots_differ k l h = elim (Bool-cases (same_key k l)) [
  | inl y ↦ absurd (ground (arith, ap slot_of (same_key_sound k l y), h))
  | inr n ↦ n
]

chain_with :
    (k l : Key) (s : Sets)
    → (slot_of l == slot_of k) ≡ true
    → s.slot (slot_of l) ≡ s.slot (slot_of k)
chain_with k l s h = let e : slot_of l ≡ slot_of k = ground (arith, h) in ap s.slot e

pub hash_find-hash_insert :
    (k l : Key) (s : Sets) → hash_find (hash_insert k s) l ≡ (same_key k l || hash_find s l)
unfolding hash_find hash_insert on_chain
hash_find-hash_insert k l s = elim (Bool-cases (slot_of l == slot_of k)) [
  | inl y ↦ rw (y, chain_with k l s y) refl
  | inr n ↦ rw (n, slots_differ k l n) refl
]

on_chain-off_chain :
    (k l : Key) (ks : List Key)
    → Once ks
    → on_chain (off_chain k ks) l ≡ (not (same_key k l) && on_chain ks l)
unfolding on_chain off_chain
on_chain-off_chain k l [] h = ground arith
on_chain-off_chain k l (m ∷ ms) (h, more) = elim (Bool-cases (same_key m k)) [
  | inl y ↦
      let e : m ≡ k = same_key_sound m k y in
      elim (Bool-cases (same_key k l)) [
        | inl z ↦
            let gone : on_chain ms l ≡ false =
              subst (λ x. on_chain ms x ≡ false) (e ∙ same_key_sound k l z) h in
            rw (y, z, gone) refl
        | inr w ↦ let other : same_key m l ≡ false = ground (arith, y, w) in rw (y, w, other) refl
      ]
  | inr n ↦ rw (n, on_chain-off_chain k l ms more) (ground (arith, n))
]

-- No key is twice in the table.
abbrev pub IsTable : Sets → Type 0
IsTable s = (h : ℕ) → Once (s.slot h)

pub hash_find-hash_remove :
    (k l : Key) (s : Sets)
    → IsTable s
    → hash_find (hash_remove k s) l ≡ (not (same_key k l) && hash_find s l)
unfolding hash_find hash_remove
hash_find-hash_remove k l s t = elim (Bool-cases (slot_of l == slot_of k)) [
  | inl y ↦ rw (y, chain_with k l s y) (on_chain-off_chain k l (s.slot (slot_of k)) (t (slot_of k)))
  | inr n ↦ rw (n, slots_differ k l n) refl
]

pub hash_insert-IsTable :
    (k : Key) (s : Sets) → IsTable s → hash_find s k ≡ false → IsTable (hash_insert k s)
unfolding hash_find hash_insert
hash_insert-IsTable k s t f h = elim (Bool-cases (h == slot_of k)) [
  | inl y ↦ rw y (f, t (slot_of k))
  | inr n ↦ rw n (t h)
]

off_chain-Once : (k : Key) (ks : List Key) → Once ks → Once (off_chain k ks)
unfolding off_chain
off_chain-Once k [] h = tt
off_chain-Once k (m ∷ ms) (h, more) = elim (Bool-cases (same_key m k)) [
  | inl y ↦ rw y more
  | inr n ↦
      let none_left : on_chain (off_chain k ms) m ≡ false =
        on_chain-off_chain k m ms more ∙ rw h (ground arith) in
      rw n (none_left, off_chain-Once k ms more)
]

pub hash_remove-IsTable : (k : Key) (s : Sets) → IsTable s → IsTable (hash_remove k s)
unfolding hash_remove
hash_remove-IsTable k s t h = elim (Bool-cases (h == slot_of k)) [
  | inl y ↦ rw y (off_chain-Once k (s.slot (slot_of k)) (t (slot_of k)))
  | inr n ↦ rw n (t h)
]
