-- ===== src/CeskSet.antt =====
-- src/cesk/cesk_set.c: the sets of addresses that the values of the machine are. All sets share one
-- hash table, with a key for each element of each set and one for each set's info entry; the
-- elements of a set are also on a list. A pointer to a node is its key; a chain of the table is the
-- list of its keys. `none` is a fault. Allocation is taken to succeed.
pub mod Methods
pub mod Change
pub mod Table
pub mod Valid
pub mod Copy
pub mod Duplicate
pub mod Union
pub mod Rename
pub mod Replace
pub mod Miscount
pub mod Members
pub mod Same
pub mod Hash
use mathlib.Core.Option
use adam.Base.{
  ℕ, zero, suc, ◌+◌, ◌-◌, ◌*◌, ◌/◌, ◌%◌, ◌^◌, Bool, true, false, not, ◌&&◌, ◌||◌, Option, none,
  some, List, [], ◌∷◌, ◌==◌, ltb, if◌then◌else◌, bit_xor,
}
use adam.Base.State.{StateM, ◌>>=◌, ◌>>◌, pure, get_state, put_state}
use adam.AllocTable.{mh_multiply}
use adam.Address.{addr_null, is_reloc}
use adam.TagSet

pub record Key : Type 0 where
  pub set_idx : ℕ
  pub addr : ℕ

abbrev pub key : ℕ → ℕ → Key
key idx a = record { set_idx = idx; addr = a }

-- A node on the list of a set, in the order of the `next` pointers. `linked`: its `prev` is not
-- NULL, and then it is the node before.
pub record Element : Type 0 where
  pub addr : ℕ
  pub linked : Bool

pub record Info : Type 0 where
  pub size : ℕ
  pub refcnt : ℕ
  pub reloc : ℕ
  pub hashcode : ℕ
  pub tags : ℕ
  pub first : List Element

-- The table, the info entries, `next_idx`, the index of the empty set, and the tag sets.
pub record Sets : Type 0 where
  pub slot : ℕ → List Key
  pub info : ℕ → Option Info
  pub next_idx : ℕ
  pub empty_set : ℕ
  pub tag_state : TagSet.State

abbrev pub M : Type 0 → Type 0
M A = StateM Sets A

abbrev pub hash_size : ℕ
hash_size = 100007

unfoldable pub idx_hashcode : ℕ → ℕ → ℕ
idx_hashcode hashidx addr =
    bit_xor (bit_xor (hashidx * mh_multiply % 2 ^ 64) (addr % 2 ^ 16 * mh_multiply % 2 ^ 64))
      (addr / 2 ^ 16)
    % 2 ^ 32

unfoldable pub slot_of : Key → ℕ
unfolding idx_hashcode
slot_of k = idx_hashcode k.set_idx k.addr % hash_size

abbrev pub same_key : Key → Key → Bool
same_key k l = (k.set_idx == l.set_idx) && (k.addr == l.addr)

unfoldable pub on_chain : List Key → Key → Bool
on_chain [] k = false
on_chain (l ∷ ls) k = same_key l k || on_chain ls k

-- `_cesk_set_hash_find(..) != NULL`
unfoldable pub hash_find : Sets → Key → Bool
unfolding on_chain slot_of
hash_find s k = on_chain (s.slot (slot_of k)) k

abbrev pub set_slot : ℕ → List Key → Sets → Sets
set_slot h ks s = record s { slot = λ i. if i == h then ks else s.slot i }

-- `_cesk_set_hash_insert`
unfoldable pub hash_insert : Key → Sets → Sets
unfolding slot_of
hash_insert k s = set_slot (slot_of k) (k ∷ s.slot (slot_of k)) s

unfoldable pub off_chain : Key → List Key → List Key
off_chain k [] = []
off_chain k (l ∷ ls) = let rest = off_chain k ls in if same_key l k then ls else l ∷ rest

-- A node is taken off its chain.
unfoldable pub hash_remove : Key → Sets → Sets
unfolding slot_of off_chain
hash_remove k s = set_slot (slot_of k) (off_chain k (s.slot (slot_of k))) s

-- The info entry that the table leads to.
unfoldable pub find_info : Sets → ℕ → Option Info
unfolding hash_find
find_info s idx = if hash_find s (key idx addr_null) then s.info idx else none

abbrev pub set_info : ℕ → Option Info → Sets → Sets
set_info idx i s = record s { info = λ j. if j == idx then i else s.info j }

abbrev pub modify_state : (Sets → Sets) → M (Unit {0})
modify_state f s = some (tt, f s)

-- A call on the tag sets.
abbrev pub on_tags : {A : Type 0} → TagSet.M A → M A
on_tags m s = elim (m s.tag_state) [
  | none ↦ none
  | some (a, t) ↦ some (a, record s { tag_state = t })
]

-- `tag_set_hashcode`
unfoldable pub tag_hash : ℕ → M ℕ
tag_hash tags = on_tags (TagSet.load tags) >>= λ t. pure t.hashcode

abbrev pub empty_hash : ℕ
empty_hash = 0x9c7cba63

-- What an element adds to the hash of a set.
unfoldable pub addr_code : ℕ → ℕ
addr_code a = a * mh_multiply % 2 ^ 64 % 2 ^ 32

-- `_cesk_set_idx_alloc`; the empty tag set is not NULL.
unfoldable pub idx_alloc : M ℕ
idx_alloc = do
  s ← get_state
  modify_state (hash_insert (key s.next_idx addr_null))
  tags ← on_tags TagSet.empty
  h ← tag_hash tags
  modify_state (λ t.
      record (set_info s.next_idx
        (some (record {
          size = 0;
          refcnt = 0;
          reloc = 0;
          hashcode = bit_xor empty_hash h;
          tags = tags;
          first = [];
        }))
        t) { next_idx = (s.next_idx + 1) % 2 ^ 32 })
  pure s.next_idx

-- The node of the element that is put at the front; the old front gets it as `prev` if `link`.
unfoldable pub link_front : Bool → ℕ → List Element → List Element
link_front link a [] = record { addr = a; linked = false } ∷ []
link_front link a (e ∷ es) =
    record { addr = a; linked = false } ∷ record e { linked = link || e.linked } ∷ es

-- The copying loop of `_cesk_set_duplicate`: the elements that are left and those of the copy.
unfoldable pub copy_elements : ℕ → List Element → List Element → Sets → List Element × Sets
unfolding link_front hash_insert
copy_elements new [] copied s = (copied, s)
copy_elements new (e ∷ es) copied s =
    copy_elements new es (link_front true e.addr copied) (hash_insert (key new e.addr) s)

-- `_cesk_set_duplicate`
unfoldable pub duplicate : ℕ → Info → M ℕ
duplicate idx info = do
  new ← idx_alloc
  tags ← on_tags (TagSet.fork info.tags)
  modify_state (set_info idx (some (record info { refcnt = (info.refcnt + 2 ^ 32 - 1) % 2 ^ 32 })))
  s ← get_state
  let (copied, t) = copy_elements new info.first [] s
  put_state (
      set_info new
        (some (record {
          size = info.size;
          refcnt = 1;
          reloc = info.reloc;
          hashcode = info.hashcode;
          tags = tags;
          first = copied;
        }))
        t)
  pure new
