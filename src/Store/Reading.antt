-- ===== src/Store/Reading.antt =====
-- Reading a store around the copy of a block.
use adam.Base.{
  ℕ, zero, suc, ◌/◌, ◌%◌, ◌<◌, ◌≤◌, ◌≡◌, ◌≢◌, refl, sym, ◌∙◌, ap, false, none, some, List, [], ◌∷◌,
  ◌==◌, ltb, leb, if◌then◌else◌, length, length-set, arith, Bool-cases, inl, inr, has, set,
}
use adam.Address.{addr_null}
use adam.Store.{n_slots, Slot, Memory, Store, block_at, getblock_rw}
use adam.Store.Allocated.{block_at-has}
use adam.Store.Shared.{
  copied, block_at-set, copied-others, copied-new, rw_copied, rw_alone, Writable,
}
use adam.Store.Access.{Tables, make_object_address, get_ro, get_reuse, get_refcnt, read_slot}

-- Two states in which a store has as many blocks, with the same slots.
pub record Agrees (s : Store) (mem : Memory) (t : Store) (after : Memory) : Type 0 where
  pub as_many : length t.blocks ≡ length s.blocks
  pub slots :
      (j : ℕ)
      → j < length s.blocks
      → (after.block (block_at t.blocks j)).slots ≡ (mem.block (block_at s.blocks j)).slots
  pub alloc_tab : t.alloc_tab ≡ s.alloc_tab
  pub alloc_token : t.alloc_token ≡ s.alloc_token

block_at-set_other :
    (qs : List ℕ) (i j q : ℕ) → (j == i) ≡ false → block_at (set qs i q) j ≡ block_at qs j
unfolding block_at
block_at-set_other [] i j q n = refl
block_at-set_other (r ∷ rs) zero zero q n = absurd (ground (arith, n))
block_at-set_other (r ∷ rs) zero (suc j) q n = refl
block_at-set_other (r ∷ rs) (suc i) zero q n = refl
block_at-set_other (r ∷ rs) (suc i) (suc j) q n = block_at-set_other rs i j q (ground (arith, n))

copied-Agrees :
    (fresh i : ℕ) (s : Store) (mem : Memory)
    → has fresh s.blocks ≡ false
    → i < length s.blocks
    → Agrees s mem
        (record s { blocks = set s.blocks i fresh })
        (copied fresh (block_at s.blocks i) mem)
copied-Agrees fresh i s mem unused lt =
    let differ : (j : ℕ) → j < length s.blocks → block_at s.blocks j ≢ fresh = λ j l e.
      absurd (ground (arith, ap (λ x. has x s.blocks) e, unused, block_at-has s.blocks j l)) in
    let after = copied fresh (block_at s.blocks i) mem in
    record {
      as_many = length-set s.blocks i fresh;
      slots = λ j l. elim (Bool-cases (j == i)) [
        | inl y ↦
            let same : j ≡ i = ground (arith, y) in
            ap (λ x. (after.block (block_at (set s.blocks i fresh) x)).slots) same
            ∙ ap (λ x. (after.block x).slots) (block_at-set s.blocks i fresh lt)
            ∙ (copied-new fresh (block_at s.blocks i) mem (differ i lt)).0
            ∙ ap (λ x. (mem.block (block_at s.blocks x)).slots) (sym same)
        | inr n ↦
            ap (λ x. (after.block x).slots) (block_at-set_other s.blocks i j fresh n)
            ∙ copied-others fresh (block_at s.blocks i) (block_at s.blocks j) mem (differ j l)
      ];
      alloc_tab = refl;
      alloc_token = refl;
    }

same_object_address :
    (tables : Tables) (s t : Store) (mem after : Memory) (addr : ℕ)
    → Agrees s mem t after
    → make_object_address tables t addr ≡ make_object_address tables s addr
unfolding make_object_address
same_object_address tables s t mem after addr h = rw (h.alloc_tab, h.alloc_token) refl

same_read :
    {A : Type 0}
    → (missing : A) (f : Slot → A) (s t : Store) (mem after : Memory) (a : ℕ) → Agrees s mem t after
    → read_slot missing f t after a ≡ read_slot missing f s mem a
same_read missing f s t mem after a h = elim (Bool-cases (leb (length s.blocks) (a / n_slots))) [
  | inl y ↦ rw (h.as_many, y) refl
  | inr n ↦
      rw (h.as_many, n) (ap (λ g. f (g (a % n_slots))) (h.slots (a / n_slots) (ground (arith, n))))
]

-- The readings of a store at all addresses are the same.
pub record SameReadings (s : Store) (mem : Memory) (t : Store) (after : Memory) : Type 0 where
  pub value : (tables : Tables) (addr : ℕ) → get_ro tables t after addr ≡ get_ro tables s mem addr
  pub reuse :
      (tables : Tables) (addr : ℕ) → get_reuse tables t after addr ≡ get_reuse tables s mem addr
  pub refcnt :
      (tables : Tables) (addr : ℕ) → get_refcnt tables t after addr ≡ get_refcnt tables s mem addr

read_at :
    {A : Type 0}
    → (null missing : A) (f : Slot → A) (s t : Store) (mem after : Memory) (a b : ℕ) → b ≡ a
    → Agrees s mem t after
    → (if b == addr_null then null else read_slot missing f t after b)
      ≡ (if a == addr_null then null else read_slot missing f s mem a)
read_at null missing f s t mem after a b e h = elim (Bool-cases (a == addr_null)) [
  | inl y ↦ rw (e, y) refl
  | inr n ↦ rw (e, n) (same_read missing f s t mem after a h)
]

Agrees-SameReadings :
    (s t : Store) (mem after : Memory) → Agrees s mem t after → SameReadings s mem t after
unfolding get_ro get_reuse get_refcnt
Agrees-SameReadings s t mem after h = record {
  value = λ tables addr.
      read_at 0 0 (λ x. x.value) s t mem after _ _ (same_object_address tables s t mem after addr h)
        h;
  reuse = λ tables addr.
      read_at none none (λ x. some x.reuse) s t mem after _ _
        (same_object_address tables s t mem after addr h) h;
  refcnt = λ tables addr.
      read_at 0xffffffff 0 (λ x. x.refcnt) s t mem after _ _
        (same_object_address tables s t mem after addr h) h;
}

-- A store that does not use the new block.
others-Agrees :
    (fresh i : ℕ) (q : ℕ) (s t u : Store) (mem after : Memory)
    → Writable fresh s mem i q t after
    → has fresh u.blocks ≡ false
    → Agrees u mem u after
others-Agrees fresh i q s t u mem after w unused = record {
  as_many = refl;
  slots = λ j l.
      w.others (block_at u.blocks j) (λ e.
        absurd (ground (arith, ap (λ x. has x u.blocks) e, unused, block_at-has u.blocks j l)));
  alloc_tab = refl;
  alloc_token = refl;
}

-- A block that is in use is one that can be written, or gives way to a copy at the address `fresh`:
-- what is returned has no other user, and no store sees another slot than before.
getblock_rw-Writable :
    (fresh addr : ℕ) (s : Store) (mem : Memory)
    → fresh ≢ 0
    → has fresh s.blocks ≡ false
    → addr ≢ addr_null
    → addr / n_slots < length s.blocks
    → (q : ℕ) × (t : Store) × (after : Memory) × (getblock_rw fresh addr s mem ≡ (q, (t, after)))
      × Writable fresh s mem (addr / n_slots) q t after
      × Agrees s mem t after
getblock_rw-Writable fresh addr s mem z unused p lt =
    let i = addr / n_slots in
    let old = block_at s.blocks i in
    elim (Bool-cases (ltb 1 (mem.block old).refcnt)) [
      | inl y ↦
          let differ : old ≢ fresh = λ e.
            absurd
              (ground (arith, ap (λ x. has x s.blocks) e, unused, block_at-has s.blocks i lt)) in
          let (slots, alone) = copied-new fresh old mem differ in
          (
            fresh,
            record s { blocks = set s.blocks i fresh },
            copied fresh old mem,
            rw_copied fresh addr s mem z p lt (ground (arith, y)),
            record {
              at = block_at-set s.blocks i fresh lt;
              alone = omega (arith, alone);
              same = slots;
              others = λ r n. copied-others fresh old r mem n;
            },
            copied-Agrees fresh i s mem unused lt,
          )
      | inr n ↦
          let one : (mem.block old).refcnt ≤ 1 = ground (arith, n) in
          (
            old,
            s,
            mem,
            rw_alone fresh addr s mem p lt one,
            record { at = refl; alone = one; same = refl; others = λ r m. refl },
            record { as_many = refl; slots = λ j l. refl; alloc_tab = refl; alloc_token = refl },
          )
    ]

-- What `getblock_rw` leaves reads as before: by the store that it is called for, and by every other
-- store `u` that does not use the memory of the copy.
pub getblock_rw-SameReadings :
    (fresh addr : ℕ) (s u : Store) (mem : Memory)
    → fresh ≢ 0
    → has fresh s.blocks ≡ false
    → has fresh u.blocks ≡ false
    → addr ≢ addr_null
    → addr / n_slots < length s.blocks
    → (q : ℕ) × (t : Store) × (after : Memory) × (getblock_rw fresh addr s mem ≡ (q, (t, after)))
      × ((after.block q).refcnt ≤ 1)
      × SameReadings s mem t after
      × SameReadings u mem u after
getblock_rw-SameReadings fresh addr s u mem z unused apart p lt =
    let i = addr / n_slots in
    let (q, t, after, run, w, agrees) = getblock_rw-Writable fresh addr s mem z unused p lt in
    (
      q,
      t,
      after,
      run,
      w.alone,
      Agrees-SameReadings s t mem after agrees,
      Agrees-SameReadings u u mem after (others-Agrees fresh i q s t u mem after w apart),
    )
