-- ===== src/CeskSet/Duplicate.antt =====
-- A set that others use is copied before it is written.
use adam.Base.{
  ℕ, ◌+◌, ◌-◌, ◌%◌, ◌^◌, ◌<◌, ◌≤◌, ◌≡◌, ◌≢◌, refl, sym, ◌∙◌, ap, subst, true, false, ◌&&◌, ◌||◌,
  some, List, [], ◌==◌, ltb, if◌then◌else◌, arith, Bool-cases, inl, inr, ==_refl, bit_xor,
}
use mathlib.Core.Option.{some-injective}
use adam.Address.{addr_null}
use adam.TagSet
use adam.TagSet.{TagSet}
use adam.TagSet.Alive.{
  Kept, Kept-trans, referred, referred-Kept, empty-referred, fork-referred, load-found,
}
use adam.CeskSet.{
  key, Element, Info, Sets, same_key, hash_find, hash_insert, set_info, copy_elements, idx_alloc,
  duplicate, tag_hash, empty_hash,
}
use adam.CeskSet.Methods.{invalid, unshare}
use adam.CeskSet.Table.{IsTable, hash_find-hash_insert, hash_insert-IsTable}
use adam.CeskSet.Valid.{addrs, has, keys_of, IsListed, IsListed-frame, IsValid, born}
use adam.CeskSet.Copy.{
  copy_elements-keys, copy_elements-IsTable, copy_elements-rest, copy_elements-has,
  copy_elements-Distinct, copy_elements-length, copy_elements-relocs, has_apart,
}

-- The tags of a set and the empty tag set are on the heap.
pub record Tagged (s : Sets) (i : Info) : Type 0 where
  pub empty : (t : TagSet) × (s.tag_state.heap s.tag_state.empty_at ≡ some t)
  pub own : (t : TagSet) × (s.tag_state.heap i.tags ≡ some t)
  pub ne_null : i.tags ≢ 0

blank : ℕ → ℕ → Info
blank h tags = record {
  size = 0;
  refcnt = 0;
  reloc = 0;
  hashcode = bit_xor empty_hash h;
  tags = tags;
  first = [];
}

less : Info → Info
less i = record i { refcnt = (i.refcnt + 2 ^ 32 - 1) % 2 ^ 32 }

-- The state before the elements are copied.
before_copy : Sets → ℕ → Info → TagSet.State → Info → Sets
before_copy s idx i st b =
    let a = record (set_info s.next_idx (some b) (hash_insert (key s.next_idx addr_null) s)) {
      next_idx = (s.next_idx + 1) % 2 ^ 32;
    } in
    record (set_info idx (some (less i)) a) { tag_state = st }

copied_info : Info → List Element → Info
copied_info i es = record i { refcnt = 1; first = es }

after_copy : Sets → ℕ → Info → TagSet.State → Info → Sets
after_copy s idx i st b =
    let c = copy_elements s.next_idx i.first [] (before_copy s idx i st b) in
    set_info s.next_idx (some (copied_info i c.0)) c.1

alloc_state : Sets → TagSet.State → Info → Sets
alloc_state s st b =
    record (set_info s.next_idx (some b) (hash_insert (key s.next_idx addr_null) s)) {
      next_idx = (s.next_idx + 1) % 2 ^ 32;
      tag_state = st;
    }

idx_alloc_runs :
    (s : Sets) (st : TagSet.State) (p : ℕ) (t : TagSet)
    → TagSet.empty s.tag_state ≡ some (p, st)
    → TagSet.load p st ≡ some (t, st)
    → idx_alloc s ≡ some (s.next_idx, alloc_state s st (blank t.hashcode p))
unfolding idx_alloc tag_hash alloc_state blank hash_insert
idx_alloc_runs s st p t e f = ground (arith, e, f)

duplicate_steps :
    (s : Sets) (idx : ℕ) (i b : Info) (one two : TagSet.State)
    → idx_alloc s ≡ some (s.next_idx, alloc_state s one b)
    → TagSet.fork i.tags one ≡ some (i.tags, two)
    → duplicate idx i s ≡ some (s.next_idx, after_copy s idx i two b)
unfolding duplicate after_copy before_copy copied_info less alloc_state
duplicate_steps s idx i b one two e f = ground (arith, e, f)

duplicate_runs :
    (s : Sets) (idx : ℕ) (i : Info)
    → Tagged s i
    → (st : TagSet.State) × (b : Info) × (duplicate idx i s
        ≡ some (s.next_idx, after_copy s idx i st b))
      × Kept s.tag_state st
duplicate_runs s idx i h =
    let ts = s.tag_state in
    let (e, at_e) = h.empty in
    let (t, at_t) = h.own in
    let one = referred ts ts.empty_at e in
    let k = referred-Kept ts ts.empty_at e at_e in
    let (e', at_e', hash_e, items_e) = k ts.empty_at e at_e in
    let (t', at_t', hash_t, items_t) = k i.tags t at_t in
    let two = referred one i.tags t' in
    let b = blank e'.hashcode ts.empty_at in
    (
      two,
      b,
      duplicate_steps s idx i b one two
          (idx_alloc_runs s one ts.empty_at e' (empty-referred ts e at_e)
            (load-found one ts.empty_at e' at_e'))
          (fork-referred one i.tags t' h.ne_null at_t'),
      Kept-trans ts one two k (referred-Kept one i.tags t' at_t'),
    )

-- A write goes to a new set, with one reference, just when others use the set at `idx`; that one then
-- has a reference less and is otherwise as it was, and so are the entries of all other sets.
pub record CopyOnWrite (s : Sets) (idx : ℕ) (i : Info) (dest : ℕ) (t : Sets) : Type 0 where
  pub place : dest ≡ (if ltb 1 i.refcnt then s.next_idx else idx)
  pub writable :
      (k : Info) × (t.info dest ≡ some k) × (k.refcnt ≡ (if ltb 1 i.refcnt then 1 else i.refcnt))
  pub original :
      ltb 1 i.refcnt ≡ true
      → t.info idx ≡ some (record i { refcnt = (i.refcnt + 2 ^ 32 - 1) % 2 ^ 32 })
  pub rest : (j : ℕ) → (j == idx) ≡ false → (j == dest) ≡ false → t.info j ≡ s.info j

-- Where others use the set, the copy is another set.
pub CopyOnWrite-apart :
    (s : Sets) (idx : ℕ) (i : Info) (dest : ℕ)
    → dest ≡ (if ltb 1 i.refcnt then s.next_idx else idx)
    → idx < s.next_idx
    → ltb 1 i.refcnt ≡ true
    → (idx == dest) ≡ false
CopyOnWrite-apart s idx i dest place old shared =
    let at : dest ≡ s.next_idx = place ∙ rw shared refl in ground (arith, at, old)

-- A further step that writes the set at `dest` only.
pub CopyOnWrite-write :
    (s : Sets) (idx : ℕ) (i : Info) (dest : ℕ) (j k : Info) (t u : Sets)
    → CopyOnWrite s idx i dest t
    → idx < s.next_idx
    → t.info dest ≡ some j
    → u.info dest ≡ some k
    → k.refcnt ≡ j.refcnt
    → ((x : ℕ) → (x == dest) ≡ false → u.info x ≡ t.info x)
    → CopyOnWrite s idx i dest u
CopyOnWrite-write s idx i dest j k t u c old at now same others = record {
  place = c.place;
  writable =
      let (m, there, count) = c.writable in
      let one : j ≡ m = some-injective j m (sym at ∙ there) in
      (k, now, same ∙ ap (λ (x : Info). x.refcnt) one ∙ count);
  original =
      λ shared. others idx (CopyOnWrite-apart s idx i dest c.place old shared) ∙ c.original shared;
  rest = λ x n m. others x m ∙ c.rest x n m;
}

-- A set that may be written in place of one: the same addresses, and the other sets as they were.
pub record Unshared (s : Sets) (idx : ℕ) (i : Info) (dest : ℕ) (j : Info) (t : Sets) : Type 0 where
  pub valid : IsValid t
  pub at : t.info dest ≡ some j
  pub content :
      (j.size ≡ i.size) × (j.hashcode ≡ i.hashcode) × (j.reloc ≡ i.reloc) × (j.tags ≡ i.tags)
  pub alone : j.refcnt ≤ 1
  pub keys : (a : ℕ) → a ≢ addr_null → keys_of t dest a ≡ keys_of s idx a
  pub others : (k a : ℕ) → (k == dest) ≡ false → keys_of t k a ≡ keys_of s k a
  pub kept : Kept s.tag_state t.tag_state
  pub sharing : CopyOnWrite s idx i dest t

module _ (s : Sets) (idx : ℕ) (i b : Info) (st : TagSet.State) (v : IsValid s)
    (e : s.info idx ≡ some i) (room : s.next_idx < invalid) where
  before : Sets
  before = before_copy s idx i st b

  copies : List Element × Sets
  copies = copy_elements s.next_idx i.first [] before

  after : Sets
  after = after_copy s idx i st b

  before_keys :
      (j a : ℕ)
      → keys_of before j a ≡ (same_key (key s.next_idx addr_null) (key j a) || keys_of s j a)
  unfolding before before_copy hash_find
  before_keys j a = hash_find-hash_insert (key s.next_idx addr_null) (key j a) s

  after_keys :
      (j a : ℕ)
      → keys_of after j a
        ≡ ((s.next_idx == j) && ((addr_null == a) || has a (addrs i.first)) || keys_of s j a)
  unfolding after after_copy before_copy before copy_elements hash_find
  after_keys j a =
      copy_elements-keys s.next_idx i.first [] before j a ∙ rw (before_keys j a) (ground arith)

  after_info :
      (j : ℕ)
      → after.info j ≡ (
          if j == s.next_idx
          then some (copied_info i copies.0)
          else (if j == idx then some (less i) else s.info j))
  unfolding after after_copy copies before before_copy hash_insert
  after_info j = elim (Bool-cases (j == s.next_idx)) [
    | inl y ↦ rw y refl
    | inr n ↦ rw (n, (copy_elements-rest s.next_idx i.first [] before).0) (rw n refl)
  ]

  after_next : after.next_idx ≡ s.next_idx + 1
  unfolding after after_copy before before_copy
  after_next = (copy_elements-rest s.next_idx i.first [] before).1 ∙ omega (arith, room)

  old_keys : (j a : ℕ) → (s.next_idx == j) ≡ false → keys_of after j a ≡ keys_of s j a
  old_keys j a n = after_keys j a ∙ rw n refl

  new_unused : (a : ℕ) → keys_of s s.next_idx a ≡ false
  new_unused a = v.unused s.next_idx a (omega arith)

  before-IsTable : IsTable before
  unfolding before before_copy
  before-IsTable = hash_insert-IsTable (key s.next_idx addr_null) s v.table (new_unused addr_null)

  after-IsTable : IsTable after
  unfolding after after_copy before_copy before
  after-IsTable =
      copy_elements-IsTable s.next_idx i.first [] before before-IsTable (v.sets idx i e).distinct
        (λ a h.
          let other : (addr_null == a) ≡ false =
            has_apart addr_null a (addrs i.first) (v.sets idx i e).no_null h in
          before_keys s.next_idx a ∙ rw (new_unused a, other) (ground arith))

  after_copied : IsListed (keys_of after s.next_idx) (copied_info i copies.0)
  unfolding copied_info copies
  after_copied =
      let old = v.sets idx i e in
      record {
        entry = after_keys s.next_idx addr_null ∙ ground arith;
        elements = λ a p.
            after_keys s.next_idx a
            ∙ rw (new_unused a, ==_refl s.next_idx)
                (ground (arith, p) ∙ sym (copy_elements-has s.next_idx i.first [] before a));
        no_null = copy_elements-has s.next_idx i.first [] before addr_null ∙ rw old.no_null refl;
        distinct =
            copy_elements-Distinct s.next_idx i.first [] before old.distinct tt (λ a h. refl);
        counted = omega (arith, old.counted, copy_elements-length s.next_idx i.first [] before);
        relocated =
            old.relocated
            ∙ ap (λ (n : ℕ). n % 2 ^ 32)
                (omega (arith, copy_elements-relocs s.next_idx i.first [] before));
      }

  after_sets : (j : ℕ) (k : Info) → after.info j ≡ some k → IsListed (keys_of after j) k
  unfolding less
  after_sets j k h =
      let now = sym (after_info j) ∙ h in
      elim (Bool-cases (j == s.next_idx)) [
        | inl y ↦
            let same : s.next_idx ≡ j = ground (arith, y) in
            let held : some (copied_info i copies.0) ≡ some k = rw y at now in
            subst (IsListed (keys_of after j)) (some-injective _ k held)
              (subst (λ x. IsListed (keys_of after x) (copied_info i copies.0)) same after_copied)
        | inr n ↦
            let keys : (a : ℕ) → keys_of after j a ≡ keys_of s j a =
              λ a. old_keys j a (ground (arith, n)) in
            elim (Bool-cases (j == idx)) [
              | inl y ↦
                  let same : idx ≡ j = ground (arith, y) in
                  let held : some (less i) ≡ some k = rw (n, y) at now in
                  let k_is : k ≡ less i = sym (some-injective (less i) k held) in
                  IsListed-frame (keys_of s idx) (keys_of after j) i k
                    (λ a. keys a ∙ ap (λ x. keys_of s x a) (sym same)) (ap (λ x. x.first) k_is)
                    (ap (λ x. x.size) k_is) (ap (λ x. x.reloc) k_is) (v.sets idx i e)
              | inr m ↦
                  let held : s.info j ≡ some k = rw (n, m) at now in
                  IsListed-frame (keys_of s j) (keys_of after j) k k keys refl refl refl
                    (v.sets j k held)
            ]
      ]

  after-IsValid : IsValid after
  after-IsValid = record {
    table = after-IsTable;
    unused = λ j a le.
        old_keys j a (ground (arith, le, after_next))
        ∙ v.unused j a (omega (arith, le, after_next));
    unborn = λ j le.
        let old = born s idx i v e in
        let n : (j == s.next_idx) ≡ false = ground (arith, le, after_next) in
        let m : (j == idx) ≡ false = ground (arith, le, after_next, old) in
        after_info j ∙ rw (n, m) (v.unborn j (omega (arith, le, after_next)));
    sets = after_sets;
  }

  after_tags : after.tag_state ≡ st
  unfolding after after_copy before before_copy
  after_tags = (copy_elements-rest s.next_idx i.first [] before).3

  copy-CopyOnWrite : ltb 1 i.refcnt ≡ true → CopyOnWrite s idx i s.next_idx after
  unfolding copied_info less
  copy-CopyOnWrite shared =
      let old = born s idx i v e in
      let other : (idx == s.next_idx) ≡ false = ground (arith, old) in
      record {
        place = rw shared refl;
        writable = (
          copied_info i copies.0,
          after_info s.next_idx ∙ rw (==_refl s.next_idx) refl,
          rw shared refl,
        );
        original = λ _. after_info idx ∙ rw (other, ==_refl idx) refl;
        rest = λ j n m. after_info j ∙ rw (m, n) refl;
      }

  copy-Unshared :
      ltb 1 i.refcnt ≡ true
      → Kept s.tag_state st
      → Unshared s idx i s.next_idx (copied_info i copies.0) after
  unfolding copied_info
  copy-Unshared shared kept = record {
    valid = after-IsValid;
    at = after_info s.next_idx ∙ rw (==_refl s.next_idx) refl;
    content = (refl, refl, refl, refl);
    alone = omega arith;
    keys = λ a p.
        after_keys s.next_idx a
        ∙ rw (new_unused a, (v.sets idx i e).elements a p) (ground (arith, p));
    others = λ k a n. old_keys k a (ground (arith, n));
    kept = subst (Kept s.tag_state) (sym after_tags) kept;
    sharing = copy-CopyOnWrite shared;
  }

pub unshare-Unshared :
    (s : Sets) (idx : ℕ) (i : Info)
    → IsValid s
    → s.info idx ≡ some i
    → s.next_idx < invalid
    → Tagged s i
    → (dest : ℕ) × (t : Sets) × (j : Info) × (unshare idx i s ≡ some (dest, t))
      × Unshared s idx i dest j t
unfolding unshare copies after before_copy before
unshare-Unshared s idx i v e room h = elim (Bool-cases (ltb 1 i.refcnt)) [
  | inl shared ↦
      let (st, b, run, kept) = duplicate_runs s idx i h in
      let copied = (copy_elements s.next_idx i.first [] (before_copy s idx i st b)).0 in
      (
        s.next_idx,
        after_copy s idx i st b,
        copied_info i copied,
        rw shared run,
        copy-Unshared s idx i b st v e room shared kept,
      )
  | inr alone ↦ (
    idx,
    s,
    i,
    rw alone refl,
    record {
      valid = v;
      at = e;
      content = (refl, refl, refl, refl);
      alone = ground (arith, alone);
      keys = λ a p. refl;
      others = λ k a n. refl;
      kept = λ q t f. (t, f, refl, refl);
      sharing = record {
        place = rw alone refl;
        writable = (i, e, rw alone refl);
        original = λ shared. absurd (ground (arith, alone, shared));
        rest = λ j n m. refl;
      };
    },
  )
]
