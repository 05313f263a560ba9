-- ===== src/Static/Table.antt =====
-- src/cesk/cesk_static.c: the operations on a table, which is a root with a hash code. `none` for a
-- table is NULL. The result of an operation that writes has the table as it then is.
use adam.Base.{
  ℕ, zero, suc, ◌+◌, ◌-◌, ◌*◌, ◌%◌, ◌^◌, Bool, true, false, not, ◌&&◌, Option, none, some, ◌==◌,
  ltb, if◌then◌else◌, bit_xor, bit_and,
}
use adam.Base.State.{◌>>=◌, ◌>>◌, pure, fault, get_state, deref}
use adam.Address.{addr_null}
use adam.AllocTable.{mh_multiply}
use adam.CeskSet.Methods
use adam.CeskSet.Methods.{Handle}
use adam.Static.Insert.{insert}
use adam.Static.{
  leaf, inner, Statics, M, on_sets, write_node, read_node, incref, decref, children, find, middle,
  prepare_to_write,
}

pub record Table : Type 0 where
  pub hashcode : ℕ
  pub root : Option ℕ

-- `CESK_FRAME_REG_STATIC_PREFIX`
abbrev pub static_prefix : ℕ
static_prefix = 0x80000000

-- `CESK_FRAME_REG_IS_STATIC`
unfoldable pub is_static : ℕ → Bool
is_static id = not (bit_and id static_prefix == 0)

-- `CESK_FRAME_REG_STATIC_IDX`; the complement has 64 bits.
unfoldable pub static_idx : ℕ → ℕ
static_idx id = bit_and id 0xffffffff7fffffff % 2 ^ 32

abbrev pub init_hashcode : ℕ
init_hashcode = 0x3c457fab

-- `_cesk_static_default_value[index]`
unfoldable pub default_of : ℕ → M ℕ
default_of idx = do s ← get_state; f ← deref s.default_value; pure (f idx)

-- `_cesk_static_table_init_field`: the table, and the new node or NULL
unfoldable pub init_field : ℕ → Table → ℕ → Bool → M (Table × Option ℕ)
unfolding default_of insert
init_field count t idx init = do
  init_val ← default_of idx
  elim (init_val == addr_null) [
    | true ↦ pure (t, none)
    | false ↦ do
      (new_tree, node) ← insert count t.root idx (if init then init_val else addr_null)
      elim new_tree [ none ↦ pure (t, none) | some q ↦ pure (record t { root = some q }, node) ]
  ]

-- `cesk_set_size(value) == 1 && cesk_set_contain(value, _cesk_static_default_value[index])`
unfoldable pub is_default : ℕ → Handle → M Bool
unfolding default_of Methods.size Methods.contain
is_default idx value = do
  s ← get_state
  elim (Methods.size s.sets value == 1) [
    | false ↦ pure false
    | true ↦ do v ← default_of idx; pure (Methods.contain s.sets value v)
  ]

-- `_cesk_static_field_hashcode`
unfoldable pub field_hashcode : ℕ → Handle → M ℕ
unfolding is_default Methods.hashcode
field_hashcode idx value = do
  skip ← is_default idx value
  elim skip [
    | true ↦ pure 0
    | false ↦ do
      h ← on_sets (Methods.hashcode value)
      pure (bit_xor (idx * idx % 2 ^ 32 * mh_multiply % 2 ^ 64) h % 2 ^ 32)
  ]

-- `_cesk_static_table_update_hashcode`
unfoldable pub update_hashcode : Table → ℕ → Handle → M Table
unfolding field_hashcode
update_hashcode t idx value = do
  h ← field_hashcode idx value
  pure (record t { hashcode = bit_xor t.hashcode h })

-- `cesk_static_table_fork`
unfoldable pub fork : Option Table → M Table
unfolding incref
fork none = pure (record { hashcode = init_hashcode; root = none })
fork (some t) = incref t.root >> pure t

-- `cesk_static_table_free`
unfoldable pub free : ℕ → Option Table → M (Unit {0})
unfolding decref
free count none = pure tt
free count (some t) = decref (count + 1) t.root

-- `node->value[0]`
unfoldable pub value_of : ℕ → M Handle
value_of p = do n ← read_node p; elim n.body [ leaf v ↦ pure v | inner c d ↦ fault ]

-- `cesk_static_table_get_ro`: the table, and the set or NULL
unfoldable pub get_ro : ℕ → Option Table → ℕ → Bool → M (Option Table × Handle)
unfolding find init_field value_of is_static static_idx
get_ro count none addr init = pure (none, none)
get_ro count (some t) addr init = elim (is_static addr && ltb (static_idx addr) count) [
  | false ↦ pure (some t, none)
  | true ↦ do
    s ← get_state
    node ← deref (find s count 0 count t.root (static_idx addr))
    elim node [
      | some p ↦ do v ← value_of p; pure (some t, v)
      | none ↦ elim init [
        | false ↦ pure (some t, none)
        | true ↦ do
          (t', made) ← init_field count t (static_idx addr) true
          elim made [ none ↦ pure (some t', none) | some p ↦ do v ← value_of p; pure (some t', v) ]
      ]
    ]
]

-- `cesk_static_table_get_rw`: the table, and the node with the pointer to the set
unfoldable pub get_rw : ℕ → Option Table → ℕ → Bool → M (Option Table × Option ℕ)
unfolding prepare_to_write init_field update_hashcode value_of is_static static_idx
get_rw count none addr init = pure (none, none)
get_rw count (some t) addr init = elim (is_static addr && ltb (static_idx addr) count) [
  | false ↦ pure (some t, none)
  | true ↦ do
    (new_root, target) ← prepare_to_write count t.root (static_idx addr)
    let t' = record t { root = new_root }
    elim target [
      | none ↦ do (t'', made) ← init_field count t' (static_idx addr) init; pure (some t'', made)
      | some p ↦ do
        v ← value_of p
        t'' ← update_hashcode t' (static_idx addr) v
        pure (some t'', some p)
    ]
]

-- `cesk_static_table_release_rw`; `true` is the result 0, `false` -1.
unfoldable pub release_rw : Option Table → ℕ → Handle → M (Option Table × Bool)
unfolding update_hashcode is_static static_idx
release_rw none addr value = pure (none, false)
release_rw (some t) addr none = pure (some t, false)
release_rw (some t) addr (some v) = elim (is_static addr) [
  | false ↦ pure (some t, false)
  | true ↦ do t' ← update_hashcode t (static_idx addr) (some v); pure (some t', true)
]

-- `child && child->reloc`
unfoldable pub is_marked : Statics → Option ℕ → Bool
is_marked s none = false
is_marked s (some p) = elim (s.node p) [ none ↦ false | some n ↦ n.reloc ]

-- The flag of a node from those of its children.
unfoldable pub remark : ℕ → M (Unit {0})
unfolding is_marked
remark p = do
  s ← get_state
  n ← read_node p
  elim n.body [
    | leaf v ↦ fault
    | inner c d ↦ write_node p (record n { reloc = if is_marked s c then true else is_marked s d })
  ]

-- The loops of `cesk_static_table_update_relocated_flag`; the nodes of the path are remarked from
-- the lowest one up. `false` is a result -1.
unfoldable pub mark_path : ℕ → ℕ → ℕ → Option ℕ → ℕ → Bool → M Bool
unfolding remark children
mark_path fuel l r none idx val = pure false
mark_path zero l r (some p) idx val = do
  n ← read_node p
  write_node p (record n { reloc = val })
  pure true
mark_path (suc fuel) l r (some p) idx val = do
  n ← read_node p
  elim (ltb 1 (r - l)) [
    | false ↦ do write_node p (record n { reloc = val }); pure true
    | true ↦ elim (ltb 1 n.refcnt) [
      | true ↦ pure false
      | false ↦ do
        s ← get_state
        (c, d) ← deref (children s p)
        ok ← elim (ltb idx (middle l r)) [
          | true ↦ mark_path fuel l (middle l r) c idx val
          | false ↦ mark_path fuel (middle l r) r d idx val
        ]
        elim ok [ false ↦ pure false | true ↦ do remark p; pure true ]
    ]
  ]

-- `cesk_static_table_update_relocated_flag`
unfoldable pub update_relocated_flag : ℕ → Option Table → ℕ → Bool → Bool → M (Option Table × Bool)
unfolding prepare_to_write mark_path is_static static_idx
update_relocated_flag count none addr val assume_writable = pure (none, false)
update_relocated_flag count (some t) addr val assume_writable =
    elim (is_static addr && ltb (static_idx addr) count) [
      | false ↦ pure (some t, false)
      | true ↦ elim assume_writable [
        | true ↦ do ok ← mark_path count 0 count t.root (static_idx addr) val; pure (some t, ok)
        | false ↦ do
          (new_root, target) ← prepare_to_write count t.root (static_idx addr)
          elim target [
            | none ↦ pure (some (record t { root = new_root }), true)
            | some p ↦ do
              ok ← mark_path count 0 count new_root (static_idx addr) val
              pure (some (record t { root = new_root }), ok)
          ]
      ]
    ]
