-- ===== src/Tests/Stores.antt =====
-- A store of one block that another store uses too.
use adam.Base.{ℕ, ◌<◌, ◌≤◌, ◌≡◌, refl, true, false, [], ◌∷◌, arith}
use adam.Store.{
  attempts, Param, param_hash, Block, Memory, Store, new_block, block_at, slot_at, address,
  allocate, getblock_rw, probe, scan_blocks, next_slot,
}
use adam.Store.Probing.{Ran}
use adam.Store.Stable.{Stays, start_slot, allocate-Stays}
use adam.Store.Shared.{allocate_shared}
use adam.Store.Reading.{SameReadings, getblock_rw-SameReadings}
use adam.Store.Access.{compact_store}
use adam.Store.Compact.{Counted, Compacted, compact_store-Compacted}

abbrev shared_block : Block
shared_block = record new_block { refcnt = 2 }

abbrev memory : Memory
memory = record { block = λ q. shared_block; value_refcnt = λ q. 0 }

abbrev store : Store
store = record {
  blocks = 8 ∷ [];
  num_ent = 0;
  hashcode = 0x547f6a73;
  alloc_tab = 0;
  alloc_token = 0;
}

abbrev origin : Param
origin = record { inst = 0; offset = 0 }

abbrev other_param : Param
other_param = record { inst = 3; offset = 1 }

allocate-Stays_example : Stays 16 other_param store memory
allocate-Stays_example = allocate-Stays 16 other_param store memory (refl, tt) refl (omega arith)

origin_found : Ran attempts memory origin store.blocks (start_slot origin) (0, 0)
unfolding probe scan_blocks next_slot param_hash
origin_found = (refl, refl)

two_users : 1 < (memory.block (block_at store.blocks 0)).refcnt
two_users = omega arith

allocate_shared_example :
    (after : Memory) × (allocate 16 origin store memory ≡ (address (0, 0), (store, after)))
    × ((slot_at memory store.blocks 0 0).inuse ≡ false)
    × ((slot_at after store.blocks 0 0).inuse ≡ true)
allocate_shared_example = allocate_shared 16 origin store memory (0, 0) origin_found two_users

getblock_rw-SameReadings_example :
    (q : ℕ) × (t : Store) × (after : Memory) × (getblock_rw 16 5 store memory ≡ (q, (t, after)))
    × ((after.block q).refcnt ≤ 1)
    × SameReadings store memory t after
    × SameReadings store memory store after
getblock_rw-SameReadings_example =
    getblock_rw-SameReadings 16 5 store store memory (omega arith) refl refl (omega arith)
      (omega arith)

store-Counted : Counted store memory
store-Counted j o lt e = refl

compact_store-Compacted_example :
    Compacted store memory (compact_store store memory).0 (compact_store store memory).1
compact_store-Compacted_example = compact_store-Compacted store memory store-Counted
