-- ===== src/Static.antt =====
-- src/cesk/cesk_static.c: the segment tree of the static fields. The nodes stand in a store, and a
-- pointer is the index of one; the tables of different frames share nodes, which are counted, and
-- a node with more than one reference is copied before it is written. `none` is a fault.
-- Allocation is taken to succeed. The number of fields is `dalvik_static_field_count`.
pub mod Insert
pub mod Shape
pub mod Extend
pub mod Counts
pub mod Duplicate
pub mod Acyclic
pub mod Relink
pub mod Counted
pub mod Reference
pub mod Prepare
pub mod Clear
pub mod Ready
pub mod Descent
pub mod Path
pub mod Search
pub mod Table
pub mod Iterate
pub mod Compare
pub mod Query
pub mod Entries
pub mod Leftmost
pub mod Backtrack
pub mod Next
pub mod Visit
pub mod Known
pub mod Unequal
use mathlib.Core.Option
use adam.Base.{
  ℕ, zero, suc, ◌+◌, ◌-◌, ◌/◌, ◌%◌, ◌^◌, Bool, true, false, Option, none, some, ◌==◌, ltb,
  if◌then◌else◌,
}
use adam.Base.State.{StateM, ◌>>=◌, ◌>>◌, pure, fault, get_state, deref}
use adam.Address.{addr_null}
use adam.CeskSet
use adam.CeskSet.Methods.{Handle}
use adam.CeskSet.Methods

-- `isleaf` tells which of `value` and `child` the node has.
pub data Body : Type 0 where
  leaf : Handle → Body
  inner : Option ℕ → Option ℕ → Body

pub record Node : Type 0 where
  pub reloc : Bool
  pub refcnt : ℕ
  pub body : Body

-- The nodes, the sets, and `_cesk_static_default_value`, which is NULL at the start.
pub record Statics : Type 0 where
  pub node : ℕ → Option Node
  pub next : ℕ
  pub sets : CeskSet.Sets
  pub default_value : Option (ℕ → ℕ)

abbrev pub M : Type 0 → Type 0
M A = StateM Statics A

abbrev pub modify_state : (Statics → Statics) → M (Unit {0})
modify_state f s = some (tt, f s)

-- A call on the sets.
abbrev pub on_sets : {A : Type 0} → CeskSet.M A → M A
on_sets m s = elim (m s.sets) [ none ↦ none | some (a, t) ↦ some (a, record s { sets = t }) ]

abbrev pub set_node : ℕ → Option Node → Statics → Statics
set_node p n s = record s { node = λ q. if q == p then n else s.node q }

abbrev pub write_node : ℕ → Node → M (Unit {0})
write_node p n = modify_state (set_node p (some n))

abbrev pub read_node : ℕ → M Node
read_node p = do s ← get_state; deref (s.node p)

-- malloc
abbrev pub alloc_node : Node → M ℕ
alloc_node n s = some (s.next, record (set_node s.next (some n) s) { next = s.next + 1 })

abbrev pub with_refcnt : Node → ℕ → Node
with_refcnt n k = record n { refcnt = k % 2 ^ 30 }

-- `_cesk_static_tree_node_incref`
unfoldable pub incref : Option ℕ → M (Unit {0})
incref none = pure tt
incref (some p) = do n ← read_node p; write_node p (with_refcnt n (n.refcnt + 1))

-- `_cesk_static_tree_node_decref`, on a tree of less levels than the fuel
unfoldable pub decref : ℕ → Option ℕ → M (Unit {0})
unfolding Methods.free
decref fuel none = pure tt
decref zero (some p) = fault
decref (suc fuel) (some p) = do
  n ← read_node p
  let left = with_refcnt n (n.refcnt + 2 ^ 30 - 1)
  write_node p left
  elim (left.refcnt == 0) [
    | false ↦ pure tt
    | true ↦ do
      elim n.body [ leaf v ↦ on_sets (Methods.free v) | inner c d ↦ decref fuel c >> decref fuel d ]
      modify_state (set_node p none)
  ]

-- `_cesk_static_tree_node_duplicate`: the copy does not get the flag `reloc`.
unfoldable pub duplicate : ℕ → M ℕ
unfolding incref Methods.fork
duplicate p = do
  n ← read_node p
  elim n.body [
    | leaf v ↦ do
      w ← on_sets (Methods.fork v)
      alloc_node (record { reloc = false; refcnt = 0; body = leaf w })
    | inner c d ↦ do
      q ← alloc_node (record { reloc = false; refcnt = 0; body = inner c d })
      incref c
      incref d
      pure q
  ]

-- A program is taken to have at most 2^30 static fields, so that the sum fits into the `int` or the
-- `uint32_t` in which the source computes it.
abbrev pub middle : ℕ → ℕ → ℕ
middle l r = (l + r) / 2

-- The children of the node at `p`; a leaf has none to read.
unfoldable pub children : Statics → ℕ → Option (Option ℕ × Option ℕ)
children s p = elim (s.node p) [
  | none ↦ none
  | some n ↦ elim n.body [ leaf v ↦ none | inner c d ↦ some (c, d) ]
]

-- `_cesk_static_tree_node_find` from the node of the segment [l, r) on
unfoldable pub find : Statics → ℕ → ℕ → ℕ → Option ℕ → ℕ → Option (Option ℕ)
unfolding children
find s fuel l r none idx = some none
find s zero l r (some p) idx = some (some p)
find s (suc fuel) l r (some p) idx = elim (ltb 1 (r - l)) [
  | false ↦ some (some p)
  | true ↦ elim (children s p) [
    | none ↦ none
    | some (c, d) ↦ elim (ltb idx (middle l r)) [
      | true ↦ find s fuel l (middle l r) c idx
      | false ↦ find s fuel (middle l r) r d idx
    ]
  ]
]

-- Where the reference to a node is: in a variable, or a child of a node (`true`: `child[1]`).
abbrev pub Slot : Type 0
Slot = Option (ℕ × Bool)

unfoldable pub with_child : Body → Bool → Option ℕ → Body
with_child (leaf v) right c = leaf v
with_child (inner a b) false c = inner c b
with_child (inner a b) true c = inner a c

-- `*reference = node`; the variable is assigned by the caller.
unfoldable pub set_reference : Slot → ℕ → M (Unit {0})
unfolding with_child
set_reference none p = pure tt
set_reference (some (q, right)) p = do
  n ← read_node q
  write_node q (record n { body = with_child n.body right (some p) })

-- `_cesk_static_tree_node_prepare_to_write`: the node that may be written in place of `p`
unfoldable pub prepare_node : ℕ → Slot → ℕ → M ℕ
unfolding duplicate set_reference decref incref
prepare_node count slot p = do
  n ← read_node p
  elim (n.refcnt == 1) [
    | true ↦ pure p
    | false ↦ do
      q ← duplicate p
      set_reference slot q
      decref (count + 1) (some p)
      incref (some q)
      pure q
  ]

-- The variable `ret` after its node was prepared.
abbrev pub new_root : Slot → ℕ → Option ℕ → Option ℕ
new_root none q ret = some q
new_root (some x) q ret = ret

-- The loop of `_cesk_static_tree_prepare_to_write`: the new root and the node of the index
unfoldable pub prepare_path :
    ℕ → ℕ → ℕ → ℕ → Slot → Option ℕ → Option ℕ → ℕ → M (Option ℕ × Option ℕ)
unfolding prepare_node children
prepare_path count fuel l r slot none ret idx = pure (ret, none)
prepare_path count zero l r slot (some p) ret idx = do
  q ← prepare_node count slot p
  pure (new_root slot q ret, some q)
prepare_path count (suc fuel) l r slot (some p) ret idx = do
  q ← prepare_node count slot p
  elim (ltb 1 (r - l)) [
    | false ↦ pure (new_root slot q ret, some q)
    | true ↦ do
      s ← get_state
      (c, d) ← deref (children s q)
      elim (ltb idx (middle l r)) [
        | true ↦
            prepare_path count fuel l (middle l r) (some (q, false)) c (new_root slot q ret) idx
        | false ↦
            prepare_path count fuel (middle l r) r (some (q, true)) d (new_root slot q ret) idx
      ]
  ]

-- `_cesk_static_tree_prepare_to_write`
unfoldable pub prepare_to_write : ℕ → Option ℕ → ℕ → M (Option ℕ × Option ℕ)
unfolding prepare_path
prepare_to_write count root idx = prepare_path count count 0 count none root root idx
