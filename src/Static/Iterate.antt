-- ===== src/Static/Iterate.antt =====
-- src/cesk/cesk_static.c: the iterator of a table, the search for a marked field, the hash code that is
-- computed anew, and the comparison of tables.
use adam.Base.{
  ℕ, zero, suc, ◌+◌, ◌-◌, ◌%◌, ◌^◌, Bool, true, false, ◌&&◌, Option, none, some, List, [], ◌∷◌,
  ◌==◌, ltb, if◌then◌else◌, bit_xor, bit_or,
}
use adam.Base.State.{◌>>=◌, pure, fault, get_state, deref}
use adam.Address.{addr_null}
use adam.CeskSet.Methods.{Handle}
use adam.Static.{leaf, inner, Statics, M, read_node, children, middle}
use adam.Static.Table.{Table, static_prefix, init_hashcode, field_hashcode, is_marked, value_of}

-- An element of the arrays `l`, `r` and `path`.
pub record Step : Type 0 where
  pub left : ℕ
  pub right : ℕ
  pub node : ℕ

abbrev pub step : ℕ → ℕ → ℕ → Step
step l r p = record { left = l; right = r; node = p }

abbrev pub same_pointer : Option ℕ → Option ℕ → Bool
same_pointer none none = true
same_pointer none (some q) = false
same_pointer (some p) none = false
same_pointer (some p) (some q) = p == q

-- `isleaf`
unfoldable pub is_leaf : Statics → ℕ → Option Bool
is_leaf s p = elim (s.node p) [
  | none ↦ none
  | some n ↦ elim n.body [ leaf v ↦ some true | inner c d ↦ some false ]
]

-- The inner loop of the second part of `_cesk_static_tree_next`: the index and the node of the first
-- leaf below `p`
unfoldable pub leftmost : Statics → ℕ → ℕ → ℕ → ℕ → Option (ℕ × ℕ)
unfolding is_leaf children
leftmost s zero l r p = elim (is_leaf s p) [
  | none ↦ none
  | some ends ↦ if ends then some (l, p) else none
]
leftmost s (suc fuel) l r p = elim (is_leaf s p) [
  | none ↦ none
  | some ends ↦ elim ends [
    | true ↦ some (l, p)
    | false ↦ elim (children s p) [
      | none ↦ none
      | some (c, d) ↦ elim c [
        | some q ↦ leftmost s fuel l (middle l r) q
        | none ↦ elim d [ none ↦ none | some q ↦ leftmost s fuel (middle l r) r q ]
      ]
    ]
  ]
]

-- The second part: back along the path, the last node first. `below` is `path[i + 1]`.
unfoldable pub back : Statics → List Step → Option ℕ → Option (Option (ℕ × ℕ))
unfolding children leftmost
back s [] below = some none
back s (st ∷ path) below = elim (children s st.node) [
  | none ↦ none
  | some (c, d) ↦ elim d [
    | none ↦ back s path (some st.node)
    | some q ↦ elim (same_pointer (some q) below) [
      | true ↦ back s path (some st.node)
      | false ↦ elim (leftmost s (st.right - st.left) (middle st.left st.right) st.right q) [
        | none ↦ none
        | some x ↦ some (some x)
      ]
    ]
  ]
]

-- Where the first loop ends: the index itself, or the second part.
unfoldable pub arrive : Statics → ℕ → ℕ → ℕ → List Step → Option (Option (ℕ × ℕ))
unfolding is_leaf back
arrive s l p start path = elim (is_leaf s p) [
  | none ↦ none
  | some ends ↦ elim (ends && (l == start)) [
    | true ↦ some (some (l, p))
    | false ↦ back s path (some p)
  ]
]

-- `_cesk_static_tree_next`: the index and the node of the first field from `start` on. The path is a
-- list; each step halves the interval of fields, whose number is an `int`, so that it fits into the
-- arrays of 32 elements that the source keeps it in.
unfoldable pub next : Statics → ℕ → ℕ → ℕ → Option ℕ → ℕ → List Step → Option (Option (ℕ × ℕ))
unfolding arrive back children
next s fuel l r none start path = back s path none
next s zero l r (some p) start path = arrive s l p start path
next s (suc fuel) l r (some p) start path = elim (ltb 1 (r - l)) [
  | false ↦ arrive s l p start path
  | true ↦ elim (children s p) [
    | none ↦ none
    | some (c, d) ↦ elim (ltb start (middle l r)) [
      | true ↦ next s fuel l (middle l r) c start (step l r p ∷ path)
      | false ↦ next s fuel (middle l r) r d start (step l r p ∷ path)
    ]
  ]
]

-- `_cesk_static_tree_first_reloc`: the index, or CESK_STORE_ADDR_NULL
unfoldable pub find_marked : Statics → ℕ → ℕ → ℕ → ℕ → Option ℕ
unfolding is_leaf children is_marked
find_marked s zero l r p = elim (is_leaf s p) [
  | none ↦ none
  | some ends ↦ if ends then some l else none
]
find_marked s (suc fuel) l r p = elim (is_leaf s p) [
  | none ↦ none
  | some ends ↦ elim ends [
    | true ↦ some l
    | false ↦ elim (children s p) [
      | none ↦ none
      | some (c, d) ↦ elim c [
        | some q ↦ elim (is_marked s (some q)) [
          | true ↦ find_marked s fuel l (middle l r) q
          | false ↦ elim d [ none ↦ none | some e ↦ find_marked s fuel (middle l r) r e ]
        ]
        | none ↦ elim d [ none ↦ none | some e ↦ find_marked s fuel (middle l r) r e ]
      ]
    ]
  ]
]

unfoldable pub tree_first_reloc : Statics → ℕ → Option ℕ → Option ℕ
unfolding find_marked is_marked
tree_first_reloc s count none = some addr_null
tree_first_reloc s count (some p) = elim (s.node p) [
  | none ↦ none
  | some n ↦ elim n.reloc [ false ↦ some addr_null | true ↦ find_marked s count 0 count p ]
]

-- `cesk_static_table_first_reloc`
unfoldable pub first_reloc : Statics → ℕ → Option Table → Option ℕ
unfolding tree_first_reloc
first_reloc s count none = some addr_null
first_reloc s count (some t) = elim (tree_first_reloc s count t.root) [
  | none ↦ none
  | some idx ↦ some (bit_or static_prefix idx)
]

-- `cesk_static_table_iter_t`
pub record Iter : Type 0 where
  pub table : Table
  pub begin : ℕ

-- `cesk_static_table_iter`
unfoldable pub iter : Option Table → Option Iter
iter none = none
iter (some t) = some (record { table = t; begin = 0 })

-- What `cesk_static_table_iter_next` gives: the address and the set, which is NULL at the end.
abbrev pub Item : Type 0
Item = Option (ℕ × Handle)

-- `cesk_static_table_iter_next`; the table of a valid iterator is not NULL.
unfoldable pub iter_next : ℕ → Iter → M (Iter × Item)
unfolding next value_of
iter_next count it = do
  s ← get_state
  found ← deref (next s count 0 count it.table.root it.begin [])
  elim found [
    | none ↦ pure (it, none)
    | some (idx, p) ↦ do
      v ← value_of p
      pure (record it { begin = (idx + 1) % 2 ^ 32 }, some (bit_or static_prefix idx, v))
  ]

-- The loop over all fields of `cesk_static_table_to_string` and `cesk_static_table_print_debug`, which
-- ends at a set that is NULL; the list is what it visits.
unfoldable pub visit : ℕ → ℕ → Iter → M (List (ℕ × Handle))
unfolding iter_next
visit count zero it = fault
visit count (suc fuel) it = do
  (it', item) ← iter_next count it
  elim item [
    | none ↦ pure []
    | some (addr, v) ↦ elim v [
      | none ↦ pure []
      | some idx ↦ do rest ← visit count fuel it'; pure ((addr, some idx) ∷ rest)
    ]
  ]

-- `_cesk_static_tree_compute_hash`
unfoldable pub compute_hash : ℕ → ℕ → ℕ → Option ℕ → M ℕ
unfolding field_hashcode
compute_hash fuel l r none = pure 0
compute_hash zero l r (some p) = do
  n ← read_node p
  elim n.body [ leaf v ↦ field_hashcode l v | inner c d ↦ fault ]
compute_hash (suc fuel) l r (some p) = do
  n ← read_node p
  elim n.body [
    | leaf v ↦ field_hashcode l v
    | inner c d ↦ do
      a ← compute_hash fuel l (middle l r) c
      b ← compute_hash fuel (middle l r) r d
      pure (bit_xor a b)
  ]

-- `cesk_static_table_compute_hashcode`
unfoldable pub compute_hashcode : ℕ → Table → M ℕ
unfolding compute_hash
compute_hashcode count t = do h ← compute_hash count 0 count t.root; pure (bit_xor h init_hashcode)
