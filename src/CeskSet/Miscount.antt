-- ===== src/CeskSet/Miscount.antt =====
-- Replacing an address of a set by another one of the same set.
use adam.Base.{
  ℕ, ◌<◌, ◌≤◌, ◌≡◌, ◌≢◌, refl, ◌∙◌, true, false, some, List, [], ◌∷◌, ◌==◌, ltb, arith, Bool-cases,
  inl, inr, ==_refl, length, bit_xor,
}
use adam.Address.{addr_null}
use adam.CeskSet.{key, Element, Info, Sets, hash_remove, set_info, addr_code}
use adam.CeskSet.Methods.{invalid, contain, unshare}
use adam.CeskSet.Change.{
  behind, find_element, unlink, unlink_head, move_reloc, replace_node, modify_element, modify,
  delete_node,
}
use adam.CeskSet.Table.{hash_find-hash_remove}
use adam.CeskSet.Valid.{keys_of, IsValid, born}
use adam.CeskSet.Union.{find_info-found}
use adam.CeskSet.Replace.{modify_runs}

length-unlink_head : (es : List Element) → length (unlink_head es) ≡ length es
length-unlink_head [] = refl
length-unlink_head (e ∷ es) = refl

behind-shorter :
    (a : ℕ) (es : List Element) (x : Element)
    → find_element a es ≡ some x
    → length (behind a es) < length es
unfolding behind find_element
behind-shorter a [] x h = absurd (ground (arith, h))
behind-shorter a (e ∷ es) x h = elim (Bool-cases (e.addr == a)) [
  | inl y ↦ rw y (omega arith)
  | inr n ↦ rw n (omega (arith, behind-shorter a es x (rw n at h)))
]

-- The entry after the node of `from`, which has no `prev`, is deleted.
deleted : Info → ℕ → ℕ → Info
deleted i from to = record i {
  reloc = move_reloc from to i.reloc;
  hashcode = bit_xor i.hashcode (addr_code from);
  first = unlink_head (behind from i.first);
}

unlink-first :
    (a : ℕ) (es : List Element) (x : Element)
    → find_element a es ≡ some x
    → x.linked ≡ false
    → unlink a es ≡ some (unlink_head (behind a es))
unfolding unlink
unlink-first a es x h k = ground (arith, h, k)

deletes :
    (s : Sets) (idx from to : ℕ) (i : Info)
    → keys_of s idx from ≡ true
    → keys_of (hash_remove (key idx from) s) idx to ≡ true
    → unlink from i.first ≡ some (unlink_head (behind from i.first))
    → modify_element idx i from to s
      ≡ some
          ((true, some idx), set_info idx (some (deleted i from to)) (hash_remove (key idx from) s))
unfolding modify_element replace_node delete_node deleted
deletes s idx from to i h k e = ground (arith, h, k, e)

unshare-alone : (s : Sets) (idx : ℕ) (i : Info) → i.refcnt ≤ 1 → unshare idx i s ≡ some (idx, s)
unfolding unshare
unshare-alone s idx i h = let b : ltb 1 i.refcnt ≡ false = ground (arith, h) in rw b refl

-- Where `from` and `to` are both in a set that is not shared, and the node of `from` has no `prev`,
-- as one that was pushed, the call succeeds and drops all elements before `from` from the list with
-- it, while the size of the set stays what it was: it is larger than the number of elements.
pub modify-miscounts :
    (s : Sets) (idx from to : ℕ) (i : Info) (x : Element)
    → IsValid s
    → s.info idx ≡ some i
    → s.next_idx < invalid
    → i.refcnt ≤ 1
    → from ≢ to
    → contain s (some idx) from ≡ true
    → contain s (some idx) to ≡ true
    → find_element from i.first ≡ some x
    → x.linked ≡ false
    → (t : Sets) × (k : Info) × (modify (some idx) from to s ≡ some ((true, some idx), t))
      × (t.info idx ≡ some k)
      × (k.size ≡ i.size)
      × (k.first ≡ unlink_head (behind from i.first))
      × (length k.first < length i.first)
unfolding contain deleted
modify-miscounts s idx from to i x v e room alone apart in_from in_to found unlinked =
    let p : from ≢ addr_null = ground (arith, in_from) in
    let q : to ≢ addr_null = ground (arith, in_to) in
    let there : keys_of s idx from ≡ true = ground (arith, in_from) in
    let there' : keys_of s idx to ≡ true = ground (arith, in_to) in
    let still : keys_of (hash_remove (key idx from) s) idx to ≡ true =
      hash_find-hash_remove (key idx from) (key idx to) s v.table
      ∙ rw there' (ground (arith, apart)) in
    (
      set_info idx (some (deleted i from to)) (hash_remove (key idx from) s),
      deleted i from to,
      modify_runs s s idx idx from to i i (omega (arith, born s idx i v e, room)) apart p q
            (find_info-found s idx i v e) (unshare-alone s idx i alone) e
          ∙ deletes s idx from to i there still (unlink-first from i.first x found unlinked),
      rw (==_refl idx) refl,
      refl,
      refl,
      omega (arith, length-unlink_head (behind from i.first), behind-shorter from i.first x found),
    )
