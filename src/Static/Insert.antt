-- ===== src/Static/Insert.antt =====
-- src/cesk/cesk_static.c: the insertion of a field into the tree of a table.
use adam.Base.{ℕ, zero, suc, ◌-◌, true, false, Option, none, some, ◌==◌, ltb, if◌then◌else◌}
use adam.Base.State.{◌>>=◌, ◌>>◌, pure, get_state, deref}
use adam.Address.{addr_null}
use adam.CeskSet.Methods.{Handle}
use adam.CeskSet.Methods
use adam.Static.{
  leaf, inner, Statics, M, on_sets, alloc_node, Slot, middle, children, set_reference, new_root,
  prepare_to_write,
}

-- Where the first loop of `_cesk_static_tree_insert` ends.
pub record Place : Type 0 where
  pub left : ℕ
  pub right : ℕ
  pub parent : Slot
  pub found : Option ℕ

abbrev pub place : ℕ → ℕ → Slot → Option ℕ → Place
place l r slot p = record { left = l; right = r; parent = slot; found = p }

unfoldable pub seek : Statics → ℕ → ℕ → ℕ → Slot → Option ℕ → ℕ → Option Place
unfolding children
seek s fuel l r slot none idx = some (place l r slot none)
seek s zero l r slot (some p) idx = some (place l r slot (some p))
seek s (suc fuel) l r slot (some p) idx = elim (ltb 1 (r - l)) [
  | false ↦ some (place l r slot (some p))
  | true ↦ elim (children s p) [
    | none ↦ none
    | some (c, d) ↦ elim (ltb idx (middle l r)) [
      | true ↦ seek s fuel l (middle l r) (some (p, false)) c idx
      | false ↦ seek s fuel (middle l r) r (some (p, true)) d idx
    ]
  ]
]

-- The set of a new leaf: NULL, or the set of the initial value; `none` is the result NULL.
unfoldable pub initial_set : ℕ → M (Option Handle)
unfolding Methods.push
initial_set initval = elim (initval == addr_null) [
  | true ↦ pure (some none)
  | false ↦ do
    e ← on_sets Methods.get_empty_set
    (ok, v) ← on_sets (Methods.push e initval)
    pure (if ok then some v else none)
]

-- The leaf at the end of the second loop. The node is made with what the loop writes into it.
unfoldable pub grow_leaf : Slot → Option ℕ → ℕ → M (Option ℕ × Option ℕ)
unfolding initial_set set_reference
grow_leaf slot tree initval = do
  v ← initial_set initval
  elim v [
    | none ↦ pure (none, none)
    | some w ↦ do
      p ← alloc_node (record { reloc = false; refcnt = 1; body = leaf w })
      set_reference slot p
      pure (new_root slot p tree, some p)
  ]

-- The second loop of `_cesk_static_tree_insert`
unfoldable pub grow : ℕ → ℕ → ℕ → Slot → Option ℕ → ℕ → ℕ → M (Option ℕ × Option ℕ)
unfolding grow_leaf set_reference
grow zero l r slot tree idx initval = grow_leaf slot tree initval
grow (suc fuel) l r slot tree idx initval = elim (ltb 1 (r - l)) [
  | false ↦ grow_leaf slot tree initval
  | true ↦ do
    p ← alloc_node (record { reloc = false; refcnt = 1; body = inner none none })
    set_reference slot p
    elim (ltb idx (middle l r)) [
      | true ↦ grow fuel l (middle l r) (some (p, false)) (new_root slot p tree) idx initval
      | false ↦ grow fuel (middle l r) r (some (p, true)) (new_root slot p tree) idx initval
    ]
]

-- `_cesk_static_tree_insert`: the tree, and the node that `p_target` gets. A duplicate is answered
-- with the node itself, which takes the place of the tree.
unfoldable pub insert : ℕ → Option ℕ → ℕ → ℕ → M (Option ℕ × Option ℕ)
unfolding prepare_to_write seek grow
insert count tree idx initval = do
  (new_tree, target) ← prepare_to_write count tree idx
  s ← get_state
  at ← deref (seek s count 0 count none new_tree idx)
  elim at.found [
    | some p ↦ pure (some p, none)
    | none ↦ grow count at.left at.right at.parent new_tree idx initval
  ]
