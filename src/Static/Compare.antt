-- ===== src/Static/Compare.antt =====
-- src/cesk/cesk_static.c: the comparison of two tables.
use adam.Base.{ℕ, zero, suc, ◌+◌, Bool, true, false, not, Option, none, some, ◌==◌}
use adam.Base.State.{◌>>=◌, pure, fault}
use adam.CeskSet.Change
use adam.Static.{M, on_sets}
use adam.Static.Table.{Table, static_idx, is_default}
use adam.Static.Iterate.{Iter, Item, iter_next}

-- The address and the set of an item, unless the set is NULL.
abbrev pub live_item : Item → Option (ℕ × ℕ)
live_item none = none
live_item (some (addr, none)) = none
live_item (some (addr, some v)) = some (addr, v)

unfoldable pub next_set : ℕ → Iter → M (Iter × Option (ℕ × ℕ))
unfolding iter_next
next_set count it = do (it', item) ← iter_next count it; pure (it', live_item item)

-- The loops over the right table in `cesk_static_table_equal`: fields with their default are skipped.
unfoldable pub strip : ℕ → ℕ → Iter → Option (ℕ × ℕ) → M (Iter × Option (ℕ × ℕ))
unfolding next_set is_default static_idx
strip count fuel it none = pure (it, none)
strip count zero it (some x) = fault
strip count (suc fuel) it (some (addr, v)) = do
  skip ← is_default (static_idx addr) (some v)
  elim skip [
    | false ↦ pure (it, some (addr, v))
    | true ↦ do (it', x) ← next_set count it; strip count fuel it' x
  ]

-- `laddr != raddr || !cesk_set_equal(lset, rset)`
unfoldable pub differs : ℕ × ℕ → ℕ × ℕ → M Bool
unfolding Change.equal
differs (a, v) (b, w) = elim (a == b) [
  | false ↦ pure true
  | true ↦ do
    same ← on_sets (Change.equal (some v) (some w))
    pure (elim same [ none ↦ false | some ok ↦ not ok ])
]

-- The loop over the left table: `none` for `return 0`, and the right iterator at its end.
unfoldable pub compare_fields :
    ℕ → ℕ → Iter → Option (ℕ × ℕ) → Iter → Option (ℕ × ℕ) → M (Option (Iter × Option (ℕ × ℕ)))
unfolding next_set strip differs is_default static_idx
compare_fields count fuel li none ri y = pure (some (ri, y))
compare_fields count zero li (some x) ri y = fault
compare_fields count (suc fuel) li (some x) ri y = do
  skip ← is_default (static_idx x.0) (some x.1)
  elim skip [
    | true ↦ do (li', x') ← next_set count li; compare_fields count fuel li' x' ri y
    | false ↦ do
      (ri', y') ← strip count (count + 1) ri y
      elim y' [
        | none ↦ do (li', x') ← next_set count li; compare_fields count fuel li' x' ri' none
        | some z ↦ do
          stop ← differs x z
          elim stop [
            | true ↦ pure none
            | false ↦ do
              (li', x') ← next_set count li
              compare_fields count fuel li' x' ri' (some z)
          ]
      ]
  ]

-- `cesk_static_table_equal`
unfoldable pub equal : ℕ → Option Table → Option Table → M Bool
unfolding next_set strip compare_fields
equal count none none = pure true
equal count none (some b) = pure false
equal count (some a) none = pure false
equal count (some a) (some b) = elim (a.hashcode == b.hashcode) [
  | false ↦ pure false
  | true ↦ do
    (ri, y) ← next_set count (record { table = b; begin = 0 })
    (li, x) ← next_set count (record { table = a; begin = 0 })
    end ← compare_fields count (count + 1) li x ri y
    elim end [
      | none ↦ pure false
      | some (ri', y') ↦ do
        (ri'', z) ← strip count (count + 1) ri' y'
        pure (elim z [ none ↦ true | some w ↦ false ])
    ]
]
