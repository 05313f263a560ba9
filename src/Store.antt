-- ===== src/Store.antt =====
-- src/cesk/cesk_store.c: the virtual store, an array of blocks of slots. Forked stores share blocks,
-- which are copied before a value in them is written. A pointer is a number, 0 is NULL; what
-- `malloc` returns is an argument. The blocks that a store points to are allocated.
pub mod Allocated
pub mod Probing
pub mod Stable
pub mod Shared
pub mod Access
pub mod Reading
pub mod Compact
use adam.Base.{
  ℕ, zero, suc, ◌+◌, ◌-◌, ◌*◌, ◌/◌, ◌%◌, ◌^◌, Bool, true, false, not, ◌&&◌, ◌||◌, Option, none,
  some, List, [], ◌∷◌, ◌++◌, ◌==◌, ltb, leb, if◌then◌else◌, length, set,
}
use adam.AllocTable
use adam.AllocTable.{mh_multiply}
use adam.Address.{addr_null, is_reloc}

-- `CESK_STORE_BLOCK_NSLOTS`, where pointers have 8 bytes: a block of 16384 bytes with a header of 16
-- holds slots of 24.
abbrev pub n_slots : ℕ
n_slots = 682

-- `CESK_STORE_ALLOC_ATTEMPT`
abbrev pub attempts : ℕ
attempts = 5

pub record Param : Type 0 where
  pub inst : ℕ
  pub offset : ℕ

unfoldable pub param_hash : Param → ℕ
param_hash p =
    (p.inst * p.inst % 2 ^ 32 * mh_multiply + p.offset * mh_multiply * mh_multiply)
    % 2 ^ 64
    % 2 ^ 32

abbrev pub param_equal : Param → Param → Bool
param_equal p q = (p.inst == q.inst) && (p.offset == q.offset)

pub record Slot : Type 0 where
  pub refcnt : ℕ
  pub reuse : Bool
  pub inuse : Bool
  pub param : Param
  pub value : ℕ

pub record Block : Type 0 where
  pub refcnt : ℕ
  pub num_ent : ℕ
  pub num_reloc : ℕ
  pub slots : ℕ → Slot

-- `nblocks` is the length of `blocks`.
pub record Store : Type 0 where
  pub blocks : List ℕ
  pub num_ent : ℕ
  pub hashcode : ℕ
  pub alloc_tab : ℕ
  pub alloc_token : ℕ

-- The blocks in memory, and the reference counts of the values.
pub record Memory : Type 0 where
  pub block : ℕ → Block
  pub value_refcnt : ℕ → ℕ

abbrev pub put_block : ℕ → Block → Memory → Memory
put_block p b mem = record mem { block = λ q. if q == p then b else mem.block q }

-- `store->blocks[i]`; the index is in range wherever the code reads it.
unfoldable pub block_at : List ℕ → ℕ → ℕ
block_at [] i = 0
block_at (p ∷ ps) zero = p
block_at (p ∷ ps) (suc i) = block_at ps i

abbrev pub slot_at : Memory → List ℕ → ℕ → ℕ → Slot
slot_at mem blocks b o = (mem.block (block_at blocks b)).slots o

abbrev pub set_slot : ℕ → ℕ → Slot → Memory → Memory
set_slot p o slot mem =
    let b = mem.block p in
    put_block p (record b { slots = λ i. if i == o then slot else b.slots i }) mem

-- `cesk_store_empty_store`, where there is memory.
abbrev pub empty_store : Store
empty_store = record {
  blocks = [];
  num_ent = 0;
  hashcode = 0x547f6a73;
  alloc_tab = 0;
  alloc_token = 0;
}

abbrev pub first_found : Option (ℕ × ℕ) → ℕ × ℕ → Option (ℕ × ℕ)
first_found none place = some place
first_found (some old) place = some old

-- The loop over the blocks from the one at `b`, at a slot: the first empty place that was seen, and
-- the first place with the parameter.
unfoldable pub scan_blocks :
    Memory → Param → ℕ → List ℕ → ℕ → Option (ℕ × ℕ) → Option (ℕ × ℕ) × Option (ℕ × ℕ)
scan_blocks mem p o [] b empty = (empty, none)
scan_blocks mem p o (q ∷ qs) b empty =
    let slot = (mem.block q).slots o in
    let seen = if slot.inuse then empty else first_found empty (b, o) in
    let rest = scan_blocks mem p o qs (b + 1) seen in
    if slot.inuse && param_equal p slot.param then (seen, some (b, o)) else rest

unfoldable pub next_slot : ℕ → ℕ
next_slot o = (o * o % 2 ^ 32 * mh_multiply + 100007 * o % 2 ^ 32 + 634567) % 2 ^ 64 % n_slots

-- The loop over the attempts.
unfoldable pub probe :
    ℕ → Memory → Param → List ℕ → ℕ → Option (ℕ × ℕ) → Option (ℕ × ℕ) × Option (ℕ × ℕ)
unfolding scan_blocks next_slot
probe zero mem p blocks o empty = (empty, none)
probe (suc left) mem p blocks o empty =
    let (seen, equal) = scan_blocks mem p o blocks 0 empty in
    let rest = probe left mem p blocks (next_slot o) seen in
    elim equal [ none ↦ rest | some place ↦ (seen, some place) ]

abbrev pub address : ℕ × ℕ → ℕ
address (b, o) = (b * n_slots + o) % 2 ^ 32

-- A slot that is given out.
abbrev pub taken : Param → Slot → Slot
taken p slot = record slot { param = p; reuse = false; inuse = true }

abbrev pub zero_slot : Slot
zero_slot = record {
  refcnt = 0;
  reuse = false;
  inuse = false;
  param = record { inst = 0; offset = 0 };
  value = 0;
}

-- A block as `memset` leaves it, with its first user.
abbrev pub new_block : Block
new_block = record { refcnt = 1; num_ent = 0; num_reloc = 0; slots = λ _. zero_slot }

abbrev pub Result : Type 0
Result = ℕ × (Store × Memory)

-- The slot at a place is given out.
unfoldable pub take_place : Param → ℕ × ℕ → Store → Memory → Result
unfolding block_at
take_place p (b, o) s mem =
    let q = block_at s.blocks b in
    (address (b, o), (s, set_slot q o (taken p ((mem.block q).slots o)) mem))

-- There is no place in the blocks: a new one is added, at the address `fresh` if `realloc` and
-- `malloc` succeed.
unfoldable pub add_block : ℕ → Param → ℕ → Store → Memory → Result
unfolding take_place
add_block fresh p o s mem =
    if fresh == 0
    then (addr_null, (s, mem))
    else take_place p (length s.blocks, o) (record s { blocks = s.blocks ++ fresh ∷ [] })
        (put_block fresh new_block mem)

-- What is done with the places that were found: the first empty one, and one with the parameter.
unfoldable pub settle : ℕ → Param → ℕ → Store → Memory → Option (ℕ × ℕ) × Option (ℕ × ℕ) → Result
unfolding take_place add_block
settle fresh p init_slot s mem (empty, some place) = (address place, (s, mem))
settle fresh p init_slot s mem (some place, none) = take_place p place s mem
settle fresh p init_slot s mem (none, none) = add_block fresh p init_slot s mem

unfoldable pub allocate : ℕ → Param → Store → Memory → Result
unfolding probe param_hash settle
allocate fresh p s mem =
    let init_slot = param_hash p % n_slots in
    settle fresh p init_slot s mem (probe attempts mem p s.blocks init_slot none)

-- The reference counts after `cesk_value_incref` on the values of the slots below `n`.
unfoldable pub incref_values : ℕ → (ℕ → Slot) → (ℕ → ℕ) → ℕ → ℕ
incref_values zero slots refs = refs
incref_values (suc n) slots refs =
    let before = incref_values n slots refs in
    let v = (slots n).value in
    if v == 0 then before else (λ q. if q == v then (before v + 1) % 2 ^ 32 else before q)

-- `_cesk_store_block_duplicate`, at the address `fresh`; 0 is the result NULL.
unfoldable pub block_duplicate : ℕ → ℕ → Memory → ℕ × Memory
block_duplicate fresh p mem =
    if fresh == 0
    then (0, mem)
    else let b = mem.block p in
      let copied = put_block fresh (record b { refcnt = 0 }) mem in
      (fresh, record copied { value_refcnt = incref_values n_slots b.slots mem.value_refcnt })

abbrev pub set_refcnt : ℕ → ℕ → Memory → Memory
set_refcnt p n mem = put_block p (record (mem.block p) { refcnt = n }) mem

-- The shared block at `i` gives way to its copy.
abbrev pub use_copy : ℕ → ℕ → ℕ × Memory → Store → Result
use_copy i p (zero, mem) s = (0, (s, mem))
use_copy i p (suc q, mem) s =
    let new = suc q in
    let counted = set_refcnt new 1 mem in
    let left = ((counted.block p).refcnt + 2 ^ 32 - 1) % 2 ^ 32 in
    (new, (record s { blocks = set s.blocks i new }, set_refcnt p left counted))

-- `_cesk_store_getblock_rw`; 0 is the result NULL.
unfoldable pub getblock_rw : ℕ → ℕ → Store → Memory → Result
unfolding block_at
getblock_rw fresh addr s mem =
    let i = addr / n_slots in
    let p = block_at s.blocks i in
    if addr == addr_null
    then (0, (s, mem))
    else if leb (length s.blocks) i
    then (0, (s, mem))
    else if ltb 1 (mem.block p).refcnt
    then use_copy i p (block_duplicate fresh p mem) s
    else (p, (s, mem))

unfoldable pub incref_blocks : List ℕ → Memory → Memory
incref_blocks [] mem = mem
incref_blocks (p ∷ ps) mem =
    incref_blocks ps (set_refcnt p (((mem.block p).refcnt + 1) % 2 ^ 32) mem)

-- `cesk_store_fork`, where there is memory.
unfoldable pub fork : Store → Memory → Store × Memory
unfolding incref_blocks
fork s mem = (s, incref_blocks s.blocks mem)
