-- ===== src/Store/Access.antt =====
-- src/cesk/cesk_store.c: reading a store, the reference counts of its slots, and giving blocks back.
-- `tables` has the allocation tables by their addresses; -1 is `none`, or `false`.
use adam.Base.{
  ℕ, zero, suc, ◌+◌, ◌-◌, ◌/◌, ◌%◌, ◌^◌, Bool, true, false, Option, none, some, List, [], ◌∷◌, ◌==◌,
  leb, if◌then◌else◌, length,
}
use adam.AllocTable
use adam.AllocTable.{Table}
use adam.Address.{addr_null, is_reloc, is_const}
use adam.Store.{n_slots, Slot, Memory, Store, block_at, slot_at, set_slot, set_refcnt, getblock_rw}

abbrev pub Tables : Type 0
Tables = ℕ → Option Table

-- `_cesk_store_make_object_address`
unfoldable pub make_object_address : Tables → Store → ℕ → ℕ
unfolding is_reloc AllocTable.query
make_object_address tables s addr =
    if is_reloc addr
    then if s.alloc_tab == 0
      then addr_null
      else AllocTable.query (tables s.alloc_tab) s.alloc_token addr
    else addr

-- What is read from the slot of an address of an object; `missing` if the address is no such one.
abbrev pub read_slot : {A : Type 0} → A → (Slot → A) → Store → Memory → ℕ → A
read_slot missing f s mem a =
    if leb (length s.blocks) (a / n_slots)
    then missing
    else f (slot_at mem s.blocks (a / n_slots) (a % n_slots))

unfoldable pub get_ro : Tables → Store → Memory → ℕ → ℕ
unfolding make_object_address block_at
get_ro tables s mem addr =
    let a = make_object_address tables s addr in
    if a == addr_null then 0 else read_slot 0 (λ x. x.value) s mem a

unfoldable pub get_reuse : Tables → Store → Memory → ℕ → Option Bool
unfolding make_object_address block_at
get_reuse tables s mem addr =
    let a = make_object_address tables s addr in
    if a == addr_null then none else read_slot none (λ x. some x.reuse) s mem a

unfoldable pub get_refcnt : Tables → Store → Memory → ℕ → ℕ
unfolding make_object_address block_at
get_refcnt tables s mem addr =
    let a = make_object_address tables s addr in
    if a == addr_null then 0xffffffff else read_slot 0 (λ x. x.refcnt) s mem a

-- `cesk_store_set_alloc_table`, with the address of the table.
unfoldable pub set_alloc_table : Option ℕ → Tables → Store → Store × Tables
unfolding AllocTable.get_token
set_alloc_table none tables s = (record s { alloc_tab = 0 }, tables)
set_alloc_table (some at) tables s = elim (tables at) [
  | none ↦ (record s { alloc_tab = at }, tables)
  | some table ↦
      let (token, next) = AllocTable.get_token table in
      (
        record s { alloc_tab = at; alloc_token = token },
        λ q. if q == at then some next else tables q,
      )
]

-- The count of the slot at `o` of the block that `getblock_rw` returned.
abbrev pub write_refcnt : ℕ → ℕ → ℕ → Memory → Memory
write_refcnt q o n mem =
    let slot = (mem.block q).slots o in set_slot q o (record slot { refcnt = n }) mem

unfoldable pub clear_refcnt : ℕ → Tables → ℕ → Store → Memory → Bool × (Store × Memory)
unfolding make_object_address
clear_refcnt fresh tables addr s mem =
    let a = make_object_address tables s addr in
    let (q, (t, after)) = getblock_rw fresh a s mem in
    if a == addr_null
    then (false, (s, mem))
    else if q == 0
    then (false, (t, after))
    else (true, (t, write_refcnt q (a % n_slots) 0 after))

-- The result of the increment of a count of 31 bits.
abbrev pub count_slot : ℕ → ℕ → Store → Memory → Option ℕ × (Store × Memory)
count_slot q o t mem =
    let slot = (mem.block q).slots o in
    if slot.value == 0
    then (none, (t, mem))
    else let n = (slot.refcnt + 1) % 2 ^ 31 in (some n, (t, write_refcnt q o n mem))

unfoldable pub incref : ℕ → Tables → ℕ → Store → Memory → Option ℕ × (Store × Memory)
unfolding make_object_address is_const
incref fresh tables addr s mem =
    let a = make_object_address tables s addr in
    let (q, (t, after)) = getblock_rw fresh a s mem in
    if a == addr_null
    then (none, (s, mem))
    else if is_const a
    then (some 0, (s, mem))
    else if q == 0
    then (none, (t, after))
    else count_slot q (a % n_slots) t after

-- The first `n` pointers of the array.
unfoldable pub keep : ℕ → List ℕ → List ℕ
keep zero qs = []
keep (suc n) [] = []
keep (suc n) (q ∷ qs) = q ∷ keep n qs

-- The loop of `cesk_store_compact_store`, with the number of blocks.
unfoldable pub compact_loop : ℕ → Store → Memory → Store × Memory
unfolding keep block_at
compact_loop zero s mem = (s, mem)
compact_loop (suc n) s mem =
    let p = block_at s.blocks n in
    let b = mem.block p in
    let rest =
      compact_loop n (record s { blocks = keep n s.blocks })
        (set_refcnt p ((b.refcnt + 2 ^ 32 - 1) % 2 ^ 32) mem) in
    if b.num_ent == 0 then rest else (s, mem)

unfoldable pub compact_store : Store → Memory → Store × Memory
unfolding compact_loop
compact_store s mem = compact_loop (length s.blocks) s mem
