-- ===== src/AllocTable/Lookup.antt =====
-- What a query finds after the operations of the allocation table.
use adam.Base.{ℕ, true, false, ◌&&◌, ◌≡◌, refl, Option, some, arith, ◌==◌, if◌then◌else◌, ◌||◌, ◌∙◌}
use adam.Base.Bits.{bit_and-le}
use adam.Address.{is_obj, is_reloc}
use adam.AllocTable.{Node, Table, hashcode, prepend, insert, query, map_addr}

-- A query of the table with a node more.
query-prepend :
    (table : Table) (node : Node) (token addr : ℕ)
    → query (some (prepend table (hashcode node.token node.key) node)) token addr ≡ (
        if (node.token == token) && (node.key == addr)
        then node.val
        else query (some table) token addr)
unfolding query prepend
query-prepend table node token addr = ground arith

-- No address is both relocated and an object's.
not-is_obj_of_is_reloc : (addr : ℕ) → is_reloc addr ≡ true → is_obj addr ≡ false
unfolding is_reloc is_obj
not-is_obj_of_is_reloc addr h = ground (arith, bit_and-le addr 0xff000000)

insert_runs :
    (table : Table) (token key_addr val_addr : ℕ)
    → (is_obj key_addr && is_reloc val_addr || is_reloc key_addr && is_obj val_addr) ≡ true
    → insert (some table) (some token) key_addr val_addr ≡ (
      some (
          prepend table
            (hashcode token key_addr)
            (record { token = token; key = key_addr; val = val_addr })),
      true,
    )
unfolding insert
insert_runs table token key_addr val_addr h = rw h

-- The table after a mapping has been entered in both directions.
unfoldable pub mapped : Table → ℕ → ℕ → ℕ → Table
mapped table token rel_addr obj_addr =
    prepend
      (prepend table (hashcode token rel_addr)
        (record { token = token; key = rel_addr; val = obj_addr }))
      (hashcode token obj_addr) (record { token = token; key = obj_addr; val = rel_addr })

pub map_addr_runs :
    (table : Table) (token rel_addr obj_addr : ℕ)
    → is_reloc rel_addr ≡ true
    → is_obj obj_addr ≡ true
    → map_addr (some table) (some token) rel_addr obj_addr
      ≡ (some (mapped table token rel_addr obj_addr), true)
unfolding map_addr mapped
map_addr_runs table token rel_addr obj_addr h k =
    rw (h, k, insert_runs table token rel_addr obj_addr (ground arith))
      (insert_runs _ token obj_addr rel_addr (ground arith))

-- For a relocated address and an object address `map_addr` succeeds, and relates them for its
-- token in both directions; every other query has the answer that it had before.
pub query-map_addr :
    (table : Table) (token rel_addr obj_addr : ℕ)
    → is_reloc rel_addr ≡ true
    → is_obj obj_addr ≡ true
    → let (table', done) = map_addr (some table) (some token) rel_addr obj_addr in
      (done ≡ true)
      × ((t addr : ℕ)
          → query table' t addr ≡ (
              if (token == t) && (obj_addr == addr)
              then rel_addr
              else if (token == t) && (rel_addr == addr)
              then obj_addr
              else query (some table) t addr))
unfolding mapped
query-map_addr table token rel_addr obj_addr h k =
    rw (map_addr_runs table token rel_addr obj_addr h k)
      (refl, λ t addr. query-prepend _ _ t addr ∙ rw (query-prepend table _ t addr))

-- An address that is not relocated, or one that is no object's, is refused, and nothing changes.
pub map_addr_refuses :
    (table : Option Table) (store : Option ℕ) (rel_addr obj_addr : ℕ)
    → (is_reloc rel_addr && is_obj obj_addr) ≡ false
    → map_addr table store rel_addr obj_addr ≡ (table, false)
unfolding map_addr
map_addr_refuses table store rel_addr obj_addr h = ground arith
