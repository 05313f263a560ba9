-- ===== src/Store/Shared.antt =====
-- Blocks that several stores use.
use adam.Base.{
  ℕ, zero, suc, ◌+◌, ◌-◌, ◌/◌, ◌%◌, ◌^◌, ◌<◌, ◌≤◌, ◌≡◌, ◌≢◌, refl, ◌∙◌, ap, true, false, List, [],
  ◌∷◌, ◌==◌, ltb, leb, length, arith, Bool-cases, inl, inr, ==_refl, set,
}
use adam.Address.{addr_null}
use adam.Store.{
  n_slots, attempts, Param, Slot, Memory, Store, put_block, block_at, slot_at, probe, address,
  allocate, getblock_rw, block_duplicate, incref_values, use_copy, set_refcnt, next_slot,
}
use adam.Store.Allocated.{given, given-here}
use adam.Store.Probing.{Ran, probe-Step}
use adam.Store.Stable.{start_slot, settle-empty, take_place-given}

probe-empty :
    (k : ℕ) (mem : Memory) (p : Param) (qs : List ℕ) (o : ℕ) (x : ℕ × ℕ)
    → Ran k mem p qs o x
    → (slot_at mem qs x.0 x.1).inuse ≡ false
unfolding probe
probe-empty zero mem p qs o x (found, missed) = absurd (ground (arith, found))
probe-empty (suc k) mem p qs o x r = elim (probe-Step k mem p qs o x r).2 [
  | inl place ↦
      let at : x.0 ≡ place.index = omega (arith, place.at) in
      ap (λ i. (slot_at mem qs i x.1).inuse) at
      ∙ ap (λ i. (slot_at mem qs place.index i).inuse) place.slot
      ∙ place.empty
  | inr (nothing, rest) ↦ probe-empty k mem p qs (next_slot o) x rest
]

-- An allocation in a store writes to a block without regard to its other users: a slot of a block
-- that was not in use for the other stores is in use for them afterwards.
pub allocate_shared :
    (fresh : ℕ) (p : Param) (s : Store) (mem : Memory) (x : ℕ × ℕ)
    → Ran attempts mem p s.blocks (start_slot p) x
    → 1 < (mem.block (block_at s.blocks x.0)).refcnt
    → (after : Memory) × (allocate fresh p s mem ≡ (address x, (s, after)))
      × ((slot_at mem s.blocks x.0 x.1).inuse ≡ false)
      × ((slot_at after s.blocks x.0 x.1).inuse ≡ true)
unfolding allocate
allocate_shared fresh p s mem x r shared = (
  given mem p (block_at s.blocks x.0) x.1,
  settle-empty fresh p (start_slot p) s mem _ x r.1 r.0 ∙ take_place-given p x s mem,
  probe-empty attempts mem p s.blocks (start_slot p) x r,
  ap (λ (t : Slot). t.inuse) (given-here mem p (block_at s.blocks x.0) x.1),
)

-- The block that may be written in place of the one of an address: it has one user, all blocks but
-- the new one have the slots that they had, and the store sees the slots that it saw.
pub record Writable (fresh : ℕ) (s : Store) (mem : Memory) (i q : ℕ) (t : Store) (after : Memory)
    : Type 0 where
  pub at : block_at t.blocks i ≡ q
  pub alone : (after.block q).refcnt ≤ 1
  pub same : (after.block q).slots ≡ (mem.block (block_at s.blocks i)).slots
  pub others : (r : ℕ) → r ≢ fresh → (after.block r).slots ≡ (mem.block r).slots

pub block_at-set : (qs : List ℕ) (i q : ℕ) → i < length qs → block_at (set qs i q) i ≡ q
unfolding block_at
block_at-set [] i q lt = absurd (omega arith)
block_at-set (r ∷ rs) zero q lt = refl
block_at-set (r ∷ rs) (suc i) q lt = block_at-set rs i q (omega arith)

pub rw_alone :
    (fresh addr : ℕ) (s : Store) (mem : Memory)
    → addr ≢ addr_null
    → addr / n_slots < length s.blocks
    → (mem.block (block_at s.blocks (addr / n_slots))).refcnt ≤ 1
    → getblock_rw fresh addr s mem ≡ (block_at s.blocks (addr / n_slots), (s, mem))
unfolding getblock_rw
rw_alone fresh addr s mem p lt le =
    let a : (addr == addr_null) ≡ false = ground (arith, p) in
    let b : leb (length s.blocks) (addr / n_slots) ≡ false = ground (arith, lt) in
    let c : ltb 1 (mem.block (block_at s.blocks (addr / n_slots))).refcnt ≡ false =
      ground (arith, le) in
    rw (a, b, c) refl

rw_shared :
    (fresh addr : ℕ) (s : Store) (mem : Memory)
    → addr ≢ addr_null
    → addr / n_slots < length s.blocks
    → 1 < (mem.block (block_at s.blocks (addr / n_slots))).refcnt
    → getblock_rw fresh addr s mem
      ≡ use_copy
          (addr / n_slots)
          (block_at s.blocks (addr / n_slots))
          (block_duplicate fresh (block_at s.blocks (addr / n_slots)) mem)
          s
unfolding getblock_rw
rw_shared fresh addr s mem p lt le =
    let a : (addr == addr_null) ≡ false = ground (arith, p) in
    let b : leb (length s.blocks) (addr / n_slots) ≡ false = ground (arith, lt) in
    let c : ltb 1 (mem.block (block_at s.blocks (addr / n_slots))).refcnt ≡ true =
      ground (arith, le) in
    rw (a, b, c) refl

-- The memory after the block at `p` is copied to `q`.
abbrev dup : ℕ → ℕ → Memory → Memory
dup q p mem = record (put_block q (record (mem.block p) { refcnt = 0 }) mem) {
  value_refcnt = incref_values n_slots (mem.block p).slots mem.value_refcnt;
}

abbrev pub copied : ℕ → ℕ → Memory → Memory
copied q p mem =
    let one = set_refcnt q 1 (dup q p mem) in
    set_refcnt p (((one.block p).refcnt + 2 ^ 32 - 1) % 2 ^ 32) one

block_duplicate-dup :
    (q p : ℕ) (mem : Memory) → block_duplicate (suc q) p mem ≡ (suc q, dup (suc q) p mem)
unfolding block_duplicate
block_duplicate-dup q p mem = let b : (suc q == 0) ≡ false = ground arith in rw b refl

pub rw_copied :
    (fresh addr : ℕ) (s : Store) (mem : Memory)
    → fresh ≢ 0
    → addr ≢ addr_null
    → addr / n_slots < length s.blocks
    → 1 < (mem.block (block_at s.blocks (addr / n_slots))).refcnt
    → getblock_rw fresh addr s mem ≡ (
      fresh,
      (
        record s { blocks = set s.blocks (addr / n_slots) fresh },
        copied fresh (block_at s.blocks (addr / n_slots)) mem,
      ),
    )
rw_copied zero addr s mem z p lt le = absurd (z refl)
rw_copied (suc q) addr s mem z p lt le =
    let i = addr / n_slots in
    rw_shared (suc q) addr s mem p lt le
    ∙ ap (λ r. use_copy i (block_at s.blocks i) r s)
        (block_duplicate-dup q (block_at s.blocks i) mem)

pub copied-others :
    (q p r : ℕ) (mem : Memory) → r ≢ q → ((copied q p mem).block r).slots ≡ (mem.block r).slots
copied-others q p r mem n =
    let a : (r == q) ≡ false = ground (arith, n) in
    elim (Bool-cases (r == p)) [
      | inl y ↦
          let same : p ≡ r = ground (arith, y) in
          let b : (p == q) ≡ false = ground (arith, same, n) in
          rw (y, b) (ap (λ x. (mem.block x).slots) same)
      | inr m ↦ rw (m, a) refl
    ]

pub copied-new :
    (q p : ℕ) (mem : Memory)
    → p ≢ q
    → (((copied q p mem).block q).slots ≡ (mem.block p).slots)
      × (((copied q p mem).block q).refcnt ≡ 1)
copied-new q p mem n =
    let a : (q == p) ≡ false = ground (arith, n) in (rw (a, ==_refl q) refl, rw (a, ==_refl q) refl)
