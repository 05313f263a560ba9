-- ===== src/Tests/Statics.antt =====
-- Two tables of four static fields that share their tree; the fields 1 and 2 have values.
use adam.Base.{
  ℕ, ◌≡◌, ◌⊎◌, refl, false, Option, none, some, [], ◌∷◌, ◌++◌, ◌==◌, if◌then◌else◌, arith, length,
  ◌*◌, ◌≢◌, true, bit_or,
}
use adam.Address.{addr_null, addr_pos}
use adam.CeskSet.{Info, Sets, key, slot_of, find_info, hash_find, on_chain}
use adam.TagSet
use adam.Base.Int.{ℤ, pos}
use adam.Sexp.{Pooled, pooled}
use adam.DalvikType.{atom, int, Addresses}
use adam.Dalvik.MemberDict
use adam.Dalvik.MemberDict.{Name, Dict, register_field}
use adam.Static.Query.{Field, initial_addr, literal_addr, sign_addr, defaults, field_query}
use adam.CeskSet.Methods
use adam.CeskSet.Change
use adam.TagSet.Items.{hash_init}
use adam.Static.Table.{Table, static_prefix, static_idx, is_default}
use adam.Static.Compare.{equal}
use adam.Static.Unequal.{equal-itself}
use adam.Static.Known.{field_query-again}
use adam.Static.{Node, Body, leaf, inner, Statics, set_node, prepare_to_write}
use adam.Static.Shape.{
  Tree, bare, field, branch, Leads, Holds, Fresh, Fits, read, value_at, body_at,
}
use adam.Static.Extend.{Fits-set_node}
use adam.Static.Counted.{ids, refs, Counted}
use adam.Static.Clear.{Clear}
use adam.Static.Path.{prepare_to_write-Counted, prepare_to_write-Clear}
use adam.Static.Search.{prepare_to_write-reads}
use adam.Static.Iterate.{next, visit}
use adam.Static.Entries.{Entry, entries, first_from}
use adam.Static.Leftmost.{Forks, Forks-set_node}
use adam.Static.Next.{next-first_from}
use adam.Static.Visit.{shown, visit-entries}

abbrev tags : TagSet.State
tags = record {
  heap = λ q.
      if q == 30
      then some (record { id = 0; refcnt = 2; hashcode = hash_init; items = [] })
      else none;
  next_set_idx = 1;
  empty_at = 30;
  tracking = false;
}

abbrev three : Info
three = record { size = 0; refcnt = 2; reloc = 0; hashcode = 0; tags = 30; first = [] }

abbrev sets : Sets
sets = record {
  slot = λ i. key 3 addr_null ∷ [];
  info = λ i. if i == 3 then some three else none;
  next_idx = 4;
  empty_set = 0;
  tag_state = tags;
}

abbrev node : ℕ → Body → Node
node n b = record { reloc = false; refcnt = n; body = b }

abbrev empty : Statics
empty = record { node = λ p. none; next = 6; sets = sets; default_value = none }

abbrev start : Statics
start = set_node 1 (some (node 2 (inner (some 2) (some 3)))) (
    set_node 2 (some (node 1 (inner none (some 4)))) (
      set_node 3 (some (node 1 (inner (some 5) none))) (
        set_node 4 (some (node 1 (leaf (some 3))))
          (set_node 5 (some (node 1 (leaf (some 3)))) empty))))

abbrev tree : Tree
tree = branch (branch bare (field (some 3))) (branch (field (some 3)) bare)

start-Fresh : Fresh start
start-Fresh p le = ground (arith, le)

empty-Fits : Fits empty
empty-Fits p n h = absurd (ground (arith, h))

start-Fits : Fits start
start-Fits =
    let e4 = set_node 5 (some (node 1 (leaf (some 3)))) empty in
    let e3 = set_node 4 (some (node 1 (leaf (some 3)))) e4 in
    let e2 = set_node 3 (some (node 1 (inner (some 5) none))) e3 in
    let e1 = set_node 2 (some (node 1 (inner none (some 4)))) e2 in
    Fits-set_node e1 1 (node 2 (inner (some 2) (some 3))) (omega arith) (
      Fits-set_node e2 2 (node 1 (inner none (some 4))) (omega arith) (
        Fits-set_node e3 3 (node 1 (inner (some 5) none)) (omega arith) (
          Fits-set_node e4 4 (node 1 (leaf (some 3))) (omega arith)
            (Fits-set_node empty 5 (node 1 (leaf (some 3))) (omega arith) empty-Fits))))

leads : (p : ℕ) (b : Body) → body_at start p ≡ some b → Leads start (some p) b
leads p b h = record { target = p; pointer = refl; body = h }

start-Holds : Holds start 0 4 (some 1) tree
unfolding body_at find_info hash_find on_chain slot_of
start-Holds = (
  refl,
  some 2,
  some 3,
  leads 1 (inner (some 2) (some 3)) refl,
  (
    refl,
    none,
    some 4,
    leads 2 (inner none (some 4)) refl,
    refl,
    (refl, leads 4 (leaf (some 3)) refl, (three, refl)),
  ),
  (
    refl,
    some 5,
    none,
    leads 3 (inner (some 5) none) refl,
    (refl, leads 5 (leaf (some 3)) refl, (three, refl)),
    refl,
  ),
)

empty-Forks : Forks empty
unfolding body_at
empty-Forks p q h = absurd (ground (arith, h))

start-Forks : Forks start
start-Forks =
    let e4 = set_node 5 (some (node 1 (leaf (some 3)))) empty in
    let e3 = set_node 4 (some (node 1 (leaf (some 3)))) e4 in
    let e2 = set_node 3 (some (node 1 (inner (some 5) none))) e3 in
    let e1 = set_node 2 (some (node 1 (inner none (some 4)))) e2 in
    Forks-set_node e1 1 (node 2 (inner (some 2) (some 3))) refl (
      Forks-set_node e2 2 (node 1 (inner none (some 4))) refl (
        Forks-set_node e3 3 (node 1 (inner (some 5) none)) refl (
          Forks-set_node e4 4 (node 1 (leaf (some 3))) refl
            (Forks-set_node empty 5 (node 1 (leaf (some 3))) refl empty-Forks))))

prepare_to_write-reads_example :
    (root' target : Option ℕ) × (after : Statics) × (prepare_to_write 4 (some 1) 1 start
      ≡ some ((root', target), after))
    × ((j : ℕ) → read after 4 root' j ≡ read start 4 (some 1) j)
    × ((j : ℕ) → read after 4 (some 1) j ≡ read start 4 (some 1) j)
prepare_to_write-reads_example =
    prepare_to_write-reads start 4 1 (some 1) (some 1) tree tree start-Fresh start-Fits start-Holds
      start-Holds

next-first_from_example :
    ((e : Entry) × (q : ℕ) × (first_from 2 (entries 0 4 tree) ≡ some e)
      × (next start 4 0 4 (some 1) 2 [] ≡ some (some (e.0, q)))
      × (value_at start (some q) ≡ some (some e.1)))
    ⊎ ((first_from 2 (entries 0 4 tree) ≡ none) × (next start 4 0 4 (some 1) 2 [] ≡ some none))
next-first_from_example =
    next-first_from start 4 2 (some 1) tree start-Forks start-Holds
      ((tt, tt, refl), (tt, tt, refl), refl)

visit-entries_example :
    visit 4 5 (record { table = record { hashcode = 7; root = some 1 }; begin = 0 }) start
    ≡ some (shown (entries 0 4 tree), start)
unfolding entries
visit-entries_example =
    visit-entries start 4 7 (some 1) tree start-Forks start-Holds
      ((tt, tt, refl), (tt, tt, refl), refl) (3, refl, (3, refl, tt)) (omega arith) (omega arith)

start-Counted : Counted start (1 ∷ 1 ∷ []) []
unfolding refs
start-Counted x = ground arith

prepare_to_write-Counted_example :
    (root' target : Option ℕ) × (after : Statics) × (prepare_to_write 4 (some 1) 1 start
      ≡ some ((root', target), after))
    × Counted after (ids root' ++ 1 ∷ []) []
prepare_to_write-Counted_example =
    prepare_to_write-Counted start 4 1 (some 1) (1 ∷ []) tree start-Fresh start-Fits start-Holds
      start-Counted

abbrev memory : Addresses
memory = record { atom_at = λ _. 8; str_at = λ p. length p.str * 16 }

abbrev class_name : Name
class_name = some (pooled (97 ∷ 47 ∷ 98 ∷ []))

abbrev field_name : Name
field_name = some (pooled (102 ∷ []))

abbrev dict : Dict
dict =
    (register_field memory class_name (some (record { name = field_name; at = 40 }))
      MemberDict.init).1

-- `static int f = 5`
abbrev an_int : ℕ → Field
an_int at = record {
  attrs = 0x40;
  offset = 1;
  kind = atom int;
  default_value = some (pooled (53 ∷ []));
}

abbrev five : Pooled → ℤ
five text = pos 5

an_int-initial : (at : ℕ) → (a : ℕ) × (initial_addr five five (pooled []) (an_int at) ≡ some a)
unfolding initial_addr literal_addr sign_addr
an_int-initial at = (addr_pos, refl)

field_query-again_example :
    (r : ℕ) × (t : Statics) × (field_query 4 five five
        (pooled [])
        memory
        dict
        an_int
        class_name
        field_name
        start
      ≡ some (r, t))
    × (field_query 4 five five (pooled []) memory dict an_int class_name field_name t ≡ some (r, t))
    × ((i : ℕ) → defaults start i ≢ addr_null → defaults t i ≡ defaults start i)
field_query-again_example =
    field_query-again 4 five five (pooled []) memory dict an_int class_name field_name start
      an_int-initial

prepare_to_write-Clear_example :
    (root' target : Option ℕ) × (after : Statics) × (prepare_to_write 4 (some 1) 1 start
      ≡ some ((root', target), after))
    × Clear after 0 4 root' tree 1
prepare_to_write-Clear_example =
    prepare_to_write-Clear start 4 1 (some 1) tree start-Fresh start-Fits start-Holds

-- A table with the field 0 alone, with the empty set as its value.
abbrev one_field : Statics
one_field = set_node 5 (some (node 1 (leaf (some 3)))) empty

one_field-Forks : Forks one_field
one_field-Forks = Forks-set_node empty 5 (node 1 (leaf (some 3))) refl empty-Forks

one_field-Holds : Holds one_field 0 1 (some 5) (field (some 3))
unfolding body_at find_info hash_find on_chain slot_of
one_field-Holds = (refl, record { target = 5; pointer = refl; body = refl }, (three, refl))

abbrev its_table : Table
its_table = record { hashcode = 7; root = some 5 }

not_default :
    is_default (static_idx (bit_or static_prefix 0)) (some 3) one_field ≡ some (false, one_field)
unfolding is_default Methods.size find_info hash_find on_chain slot_of
not_default = refl

set_itself : Change.equal (some 3) (some 3) sets ≡ some (some true, sets)
unfolding Change.equal Methods.size Methods.hashcode Change.equal_sets find_info hash_find on_chain
    slot_of TagSet.equal TagSet.load
set_itself = refl

equal-itself_example : equal 1 (some its_table) (some its_table) one_field ≡ some (false, one_field)
unfolding entries
equal-itself_example =
    equal-itself one_field 1 its_table (field (some 3)) 0 3 one_field-Forks one_field-Holds tt refl
      (omega arith) (omega arith) not_default set_itself
