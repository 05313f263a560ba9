-- ===== src/CeskSet/Replace.antt =====
-- Replacing an address of a set.
use adam.Base.{
  ℕ, ◌<◌, ◌≡◌, ◌≢◌, refl, sym, ◌∙◌, ap, Bool, true, false, not, ◌&&◌, ◌||◌, some, ◌==◌, ltb, arith,
  Bool-cases, inl, inr, ==_refl, bit_xor,
}
use adam.Address.{addr_null}
use adam.CeskSet.{key, Info, Sets, hash_find, hash_insert, hash_remove, find_info, addr_code}
use adam.CeskSet.Methods.{invalid, contain, unshare}
use adam.CeskSet.Change.{rename, move_reloc, move_node, replace_node, modify_element, modify}
use adam.CeskSet.Table.{
  IsTable, hash_find-hash_insert, hash_insert-IsTable, hash_find-hash_remove, hash_remove-IsTable,
}
use adam.CeskSet.Valid.{addrs, has, relocs, keys_of, IsListed, IsValid, IsValid-write, born}
use adam.CeskSet.Duplicate.{
  Tagged, CopyOnWrite, CopyOnWrite-apart, CopyOnWrite-write, unshare-Unshared,
}
use adam.CeskSet.Union.{find_info-found, prepare_runs}
use adam.CeskSet.Rename.{
  has-rename, Distinct-rename, length-rename, relocs-rename, move_reloc-follows,
}

-- A set in which `from` is replaced by `to`.
moved : Info → ℕ → ℕ → Info
moved i from to = record i {
  reloc = move_reloc from to i.reloc;
  hashcode = bit_xor i.hashcode (bit_xor (addr_code from) (addr_code to));
  first = rename from to i.first;
}

moved-IsListed :
    (f g : ℕ → Bool) (i : Info) (from to : ℕ)
    → from ≢ addr_null
    → to ≢ addr_null
    → f from ≡ true
    → f to ≡ false
    → ((b : ℕ) → g b ≡ ((to == b) || (not (from == b) && f b)))
    → IsListed f i
    → IsListed g (moved i from to)
unfolding moved
moved-IsListed f g i from to p q there absent keys h =
    let has_from : has from (addrs i.first) ≡ true = sym (h.elements from p) ∙ there in
    let no_to : has to (addrs i.first) ≡ false = sym (h.elements to q) ∙ absent in
    record {
      entry = keys addr_null ∙ rw h.entry (ground (arith, p));
      elements = λ b r.
          keys b ∙ rw (h.elements b r) (sym (has-rename from to b i.first h.distinct has_from));
      no_null =
          has-rename from to addr_null i.first h.distinct has_from
          ∙ rw h.no_null (ground (arith, q));
      distinct = Distinct-rename from to i.first h.distinct no_to has_from;
      counted = omega (arith, h.counted, length-rename from to i.first);
      relocated =
          ap (move_reloc from to) h.relocated
          ∙ move_reloc-follows from to (relocs (addrs i.first))
              (relocs (addrs (rename from to i.first))) (relocs-rename from to i.first has_from);
    }

-- The table after the node is moved.
after_move : ℕ → Info → ℕ → ℕ → Sets → Sets
after_move idx i from to s = move_node idx i from to (hash_remove (key idx from) s)

module _ (s : Sets) (idx : ℕ) (i : Info) (from to : ℕ) (v : IsValid s) (e : s.info idx ≡ some i)
    (p : from ≢ addr_null) (q : to ≢ addr_null) (there : keys_of s idx from ≡ true)
    (absent : keys_of s idx to ≡ false) where
  removed : Sets
  removed = hash_remove (key idx from) s

  moved_state : Sets
  moved_state = after_move idx i from to s

  move_keys :
      (j b : ℕ)
      → keys_of moved_state j b
        ≡ ((idx == j) && (to == b) || (not ((idx == j) && (from == b)) && keys_of s j b))
  unfolding moved_state after_move move_node hash_find
  move_keys j b =
      hash_find-hash_insert (key idx to) (key j b) (hash_remove (key idx from) s)
      ∙ ap (λ c. (idx == j) && (to == b) || c)
          (hash_find-hash_remove (key idx from) (key j b) s v.table)

  still_absent : keys_of removed idx to ≡ false
  unfolding removed
  still_absent =
      hash_find-hash_remove (key idx from) (key idx to) s v.table ∙ rw absent (ground arith)

  move-IsTable : IsTable moved_state
  unfolding moved_state after_move move_node removed
  move-IsTable =
      hash_insert-IsTable (key idx to) removed (hash_remove-IsTable (key idx from) s v.table)
        still_absent

  move-IsValid : IsValid moved_state
  unfolding moved_state after_move move_node moved hash_remove
  move-IsValid =
      IsValid-write s moved_state idx (moved i from to) v (born s idx i v e) refl refl
        (λ j a n. move_keys j a ∙ ground (arith, n)) move-IsTable
        (moved-IsListed (keys_of s idx) (keys_of moved_state idx) i from to p q there absent
          (λ b. move_keys idx b ∙ rw (==_refl idx) refl) (v.sets idx i e))

modify_element_moves :
    (s : Sets) (idx : ℕ) (i : Info) (from to : ℕ)
    → keys_of s idx from ≡ true
    → keys_of (hash_remove (key idx from) s) idx to ≡ false
    → modify_element idx i from to s ≡ some ((true, some idx), after_move idx i from to s)
unfolding modify_element replace_node after_move
modify_element_moves s idx i from to h k = ground (arith, h, k)

pub modify_runs :
    (s t : Sets) (idx dest from to : ℕ) (i j : Info)
    → idx < invalid
    → from ≢ to
    → from ≢ addr_null
    → to ≢ addr_null
    → find_info s idx ≡ some i
    → unshare idx i s ≡ some (dest, t)
    → t.info dest ≡ some j
    → modify (some idx) from to s ≡ modify_element dest j from to t
unfolding modify
modify_runs s t idx dest from to i j lt apart p q e f g =
    let differ : (from == to) ≡ false = ground (arith, apart) in
    let here : ((from == addr_null) || (to == addr_null) || (idx == invalid)) ≡ false =
      ground (arith, lt, p, q) in
    rw (differ, here) (prepare_runs idx dest i j s t _ e f g)

-- The set at `dest` has `to` in place of `from`, and the others have what they had.
pub record Replaces (s : Sets) (idx from to dest : ℕ) (t : Sets) : Type 0 where
  pub valid : IsValid t
  pub members :
      (b : ℕ) → contain t (some dest) b ≡ ((to == b) || (not (from == b) && contain s (some idx) b))
  pub others : (k b : ℕ) → (k == dest) ≡ false → contain t (some k) b ≡ contain s (some k) b

Replaces-keys :
    (s t : Sets) (idx dest from to : ℕ)
    → IsValid t
    → to ≢ addr_null
    → ((b : ℕ)
        → b ≢ addr_null
        → keys_of t dest b ≡ ((to == b) || (not (from == b) && keys_of s idx b)))
    → ((k b : ℕ) → b ≢ addr_null → (k == dest) ≡ false → keys_of t k b ≡ keys_of s k b)
    → Replaces s idx from to dest t
unfolding contain
Replaces-keys s t idx dest from to v p this others = record {
  valid = v;
  members = λ b. elim (Bool-cases (b == addr_null)) [
    | inl y ↦ rw y (ground (arith, y, p))
    | inr n ↦ rw n (this b (ground (arith, n)))
  ];
  others = λ k b m. elim (Bool-cases (b == addr_null)) [
    | inl y ↦ rw y refl
    | inr n ↦ rw n (others k b (ground (arith, n)) m)
  ];
}

after_move-info :
    (s : Sets) (idx : ℕ) (i : Info) (from to : ℕ)
    → ((after_move idx i from to s).info idx ≡ some (moved i from to))
      × ((x : ℕ) → (x == idx) ≡ false → (after_move idx i from to s).info x ≡ s.info x)
unfolding after_move move_node moved hash_remove hash_insert
after_move-info s idx i from to = (rw (==_refl idx) refl, λ x n. rw n refl)

moved-refcnt : (i : Info) (from to : ℕ) → (moved i from to).refcnt ≡ i.refcnt
unfolding moved
moved-refcnt i from to = refl

-- In a valid table an address of a set can be replaced by one that is not in the set: the set
-- written has the new one in place of the old one, and every other set has what it had. Where the
-- reference count of the set is above 1, the one written is a new set with one reference, and the
-- old one keeps its addresses and loses one reference; otherwise it is the set itself. No other
-- entry changes. It takes that the new address is not CESK_STORE_ADDR_NULL, that an index is left,
-- and that the tags of the set and the empty tag set are on the heap.
pub modify-Replaces :
    (s : Sets) (idx from to : ℕ) (i : Info)
    → IsValid s
    → s.info idx ≡ some i
    → s.next_idx < invalid
    → Tagged s i
    → to ≢ addr_null
    → contain s (some idx) from ≡ true
    → contain s (some idx) to ≡ false
    → (dest : ℕ) × (t : Sets) × (modify (some idx) from to s ≡ some ((true, some dest), t))
      × Replaces s idx from to dest t
      × CopyOnWrite s idx i dest t
      × (ltb 1 i.refcnt ≡ true → (b : ℕ) → contain t (some idx) b ≡ contain s (some idx) b)
unfolding contain removed moved_state
modify-Replaces s idx from to i v e room tagged q in_from no_to =
    let p : from ≢ addr_null = ground (arith, in_from) in
    let there : keys_of s idx from ≡ true = ground (arith, in_from) in
    let absent : keys_of s idx to ≡ false = ground (arith, no_to, q) in
    let apart : from ≢ to = λ h. absurd (ground (arith, ap (keys_of s idx) h, there, absent)) in
    let (dest, t, j, run, u) = unshare-Unshared s idx i v e room tagged in
    let there' = u.keys from p ∙ there in
    let absent' = u.keys to q ∙ absent in
    let old = born s idx i v e in
    let info = after_move-info t dest j from to in
    let sets =
      Replaces-keys s (after_move dest j from to t) idx dest from to
        (move-IsValid t dest j from to u.valid u.at p q there' absent') q
        (λ b r.
          move_keys t dest j from to u.valid u.at p q there' absent' dest b
          ∙ rw (u.keys b r, ==_refl dest) refl)
        (λ k b r n.
          move_keys t dest j from to u.valid u.at p q there' absent' k b
          ∙ rw (u.others k b n) (ground (arith, n))) in
    (
      dest,
      after_move dest j from to t,
      modify_runs s t idx dest from to i j (omega (arith, born s idx i v e, room)) apart p q
            (find_info-found s idx i v e) run u.at
          ∙ modify_element_moves t dest j from to there'
              (still_absent t dest j from to u.valid u.at p q there' absent'),
      sets,
      CopyOnWrite-write s idx i dest j (moved j from to) t (after_move dest j from to t) u.sharing
          old u.at info.0 (moved-refcnt j from to) info.1,
      λ shared b. sets.others idx b (CopyOnWrite-apart s idx i dest u.sharing.place old shared),
    )
