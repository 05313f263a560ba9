-- ===== src/AllocTable.antt =====
-- src/cesk/cesk_alloctab.c: the allocation table, a hash table that relates relocated addresses
-- and object addresses, shared by stores that are told apart by a token.
pub mod Lookup
pub mod Sharing
pub mod Tokens
use adam.Base.{
  ℕ, suc, ◌+◌, ◌-◌, ◌*◌, ◌%◌, ◌^◌, Bool, true, false, ◌&&◌, ◌||◌, not, Option, none, some, List, [],
  ◌∷◌, ◌==◌, ltb, if◌then◌else◌,
}
use adam.Address.{addr_null, is_obj, is_reloc}

abbrev pub n_slots : ℕ
n_slots = 100007

abbrev pub max_chain : ℕ
max_chain = 5

abbrev pub mh_multiply : ℕ
mh_multiply = 2654435761

pub record Node : Type 0 where
  pub token : ℕ
  pub key : ℕ
  pub val : ℕ

-- A chain is the list of its nodes; the two arrays are functions of the slot's index.
pub record Table : Type 0 where
  pub slot : ℕ → List Node
  pub chain_size : ℕ → ℕ
  pub next_token : ℕ
  pub max_chain_size : ℕ
  pub users : ℕ

-- A table as `memset` leaves it, with its first user.
abbrev pub fresh : Table
fresh = record {
  slot = λ h. [];
  chain_size = λ h. 0;
  next_token = 0;
  max_chain_size = 0;
  users = 1;
}

-- `old` may be NULL; `room` says whether `malloc` succeeds.
unfoldable pub new : Bool → Option Table → Option Table
new room none = if room then some fresh else none
new room (some old) =
    if ltb max_chain old.max_chain_size
    then (if room then some fresh else none)
    else some (record old { users = (old.users + 1) % 2 ^ 32 })

-- `none` is a table that is NULL or has been given back.
unfoldable pub free : Option Table → Option Table
free none = none
free (some mem) =
    let n = (mem.users + 2 ^ 32 - 1) % 2 ^ 32 in
    if n == 0 then none else some (record mem { users = n })

-- `MH_MULTIPLY` is an `unsigned long`, so all but `addr * addr` is computed modulo 2 ^ 64.
unfoldable pub hashcode : ℕ → ℕ → ℕ
hashcode token addr =
    (token * mh_multiply + (addr * addr % 2 ^ 32 + addr * mh_multiply)) % 2 ^ 64 % n_slots

unfoldable pub update {ℓ} : {A : Type ℓ} → (ℕ → A) → ℕ → A → ℕ → A
update f h v i = if i == h then v else f i

-- The new node at the head of its chain, which the counters follow.
unfoldable pub prepend : Table → ℕ → Node → Table
unfolding update
prepend table h node =
    let n = (table.chain_size h + 1) % 2 ^ 32 in
    record table {
      slot = update table.slot h (node ∷ table.slot h);
      chain_size = update table.chain_size h n;
      max_chain_size = if ltb table.max_chain_size n then n else table.max_chain_size;
    }

-- The table after the call, and whether the call succeeded. `store` is the token of the store,
-- if that is not NULL.
unfoldable pub insert : Option Table → Option ℕ → ℕ → ℕ → Option Table × Bool
unfolding prepend
insert none store key_addr val_addr = (none, false)
insert (some table) none key_addr val_addr = (some table, false)
insert (some table) (some token) key_addr val_addr =
    if is_obj key_addr && is_reloc val_addr || is_reloc key_addr && is_obj val_addr
    then (
      some (
          prepend table (hashcode token key_addr)
            (record { token = token; key = key_addr; val = val_addr })),
      true,
    )
    else (some table, false)

-- The walk along a chain.
unfoldable pub find : List Node → ℕ → ℕ → ℕ
find [] token addr = addr_null
find (n ∷ ns) token addr =
    if (n.token == token) && (n.key == addr) then n.val else find ns token addr

unfoldable pub query : Option Table → ℕ → ℕ → ℕ
unfolding find
query none token addr = addr_null
query (some table) token addr = find (table.slot (hashcode token addr)) token addr

-- The second insertion, after the first.
map_back : Option Table × Bool → Option ℕ → ℕ → ℕ → Option Table × Bool
map_back (table, false) store rel_addr obj_addr = (table, false)
map_back (table, true) store rel_addr obj_addr = insert table store obj_addr rel_addr

unfoldable pub map_addr : Option Table → Option ℕ → ℕ → ℕ → Option Table × Bool
unfolding map_back
map_addr table store rel_addr obj_addr =
    if not (is_reloc rel_addr)
    then (table, false)
    else if not (is_obj obj_addr)
    then (table, false)
    else map_back (insert table store rel_addr obj_addr) store rel_addr obj_addr

unfoldable pub get_token : Table → ℕ × Table
get_token table = (table.next_token, record table { next_token = (table.next_token + 1) % 2 ^ 32 })
