-- ===== src/Tests/AddressSets.antt =====
-- Address sets with a few addresses.
use adam.Base.{
  ℕ, ◌<◌, ◌≤◌, ◌≡◌, refl, ◌∙◌, ap, subst, ◌↔◌, Bool, true, false, ◌||◌, none, some, [], ◌∷◌, ◌==◌,
  ltb, if◌then◌else◌, arith, Bool-cases, inl, inr, length, bit_xor,
}
use mathlib.Core.Option.{some-injective}
use adam.Address.{addr_null, is_reloc}
use adam.TagSet
use adam.TagSet.{TagSet}
use adam.TagSet.Items.{hash_init, hash_items}
use adam.CeskSet.{
  key, Info, Sets, hash_find, hash_insert, find_info, empty_hash, addr_code, idx_hashcode, slot_of,
  on_chain, same_key, link_front, tag_hash,
}
use adam.CeskSet.Methods.{contain, iterate, hashcode, push, push_element, push_new}
use adam.CeskSet.Change.{
  modify, equal, compute_hashcode, find_element, behind, unlink_head, hash_elements,
}
use adam.CeskSet.Table.{IsTable, hash_find-hash_insert, hash_insert-IsTable}
use adam.CeskSet.Valid.{keys_of, IsListed, IsValid, pushed, push_element-IsValid}
use adam.CeskSet.Duplicate.{Tagged, CopyOnWrite}
use adam.CeskSet.Union.{Unions, push-Unions}
use adam.CeskSet.Replace.{Replaces, modify-Replaces}
use adam.CeskSet.Miscount.{modify-miscounts}
use adam.CeskSet.Same.{Hashed, equal_iff_same}
use adam.CeskSet.Hash.{push_element-hash}

abbrev no_tags : TagSet
no_tags = record { id = 0; refcnt = 4; hashcode = hash_init; items = [] }

abbrev nothing : ℕ → Info
nothing r = record {
  size = 0;
  refcnt = r;
  reloc = 0;
  hashcode = bit_xor empty_hash hash_init;
  tags = 30;
  first = [];
}

abbrev bare : Sets
bare = record {
  slot = λ _. [];
  info = λ j. if j == 0 then some (nothing 1) else if j == 1 then some (nothing 2) else none;
  next_idx = 2;
  empty_set = 0;
  tag_state = record {
    heap = λ q. if q == 30 then some no_tags else none;
    next_set_idx = 1;
    empty_at = 30;
    tracking = false;
  };
}

-- The set 0 is empty and has one user, the set 1 is empty and has two.
abbrev two_sets : Sets
two_sets = hash_insert (key 1 addr_null) (hash_insert (key 0 addr_null) bare)

two_sets_keys :
    (idx a : ℕ)
    → keys_of two_sets idx a
      ≡ (same_key (key 1 addr_null) (key idx a) || same_key (key 0 addr_null) (key idx a))
unfolding hash_find on_chain
two_sets_keys idx a =
    hash_find-hash_insert (key 1 addr_null) (key idx a) (hash_insert (key 0 addr_null) bare)
    ∙ ap (λ c. same_key (key 1 addr_null) (key idx a) || c)
        (hash_find-hash_insert (key 0 addr_null) (key idx a) bare ∙ ground arith)

two_sets-IsTable : IsTable two_sets
unfolding hash_find on_chain
two_sets-IsTable =
    hash_insert-IsTable (key 1 addr_null) (hash_insert (key 0 addr_null) bare)
      (hash_insert-IsTable (key 0 addr_null) bare (λ h. tt) refl)
      (hash_find-hash_insert (key 0 addr_null) (key 1 addr_null) bare ∙ ground arith)

nothing-IsListed : (idx r : ℕ) → idx < 2 → IsListed (keys_of two_sets idx) (nothing r)
nothing-IsListed idx r lt = record {
  entry = two_sets_keys idx addr_null ∙ ground (arith, lt);
  elements = λ a p. two_sets_keys idx a ∙ ground (arith, p);
  no_null = refl;
  distinct = tt;
  counted = refl;
  relocated = refl;
}

two_sets-sets :
    (idx : ℕ) (i : Info) → two_sets.info idx ≡ some i → IsListed (keys_of two_sets idx) i
unfolding hash_insert
two_sets-sets idx i e = elim (Bool-cases (idx == 0)) [
  | inl y ↦
      let held : nothing 1 ≡ i = some-injective _ _ (ground (arith, y, e)) in
      subst (IsListed (keys_of two_sets idx)) held (nothing-IsListed idx 1 (ground (arith, y)))
  | inr n ↦ elim (Bool-cases (idx == 1)) [
    | inl y ↦
        let held : nothing 2 ≡ i = some-injective _ _ (ground (arith, n, y, e)) in
        subst (IsListed (keys_of two_sets idx)) held (nothing-IsListed idx 2 (ground (arith, y)))
    | inr m ↦ absurd (ground (arith, n, m, e))
  ]
]

two_sets-IsValid : IsValid two_sets
unfolding hash_insert
two_sets-IsValid = record {
  table = two_sets-IsTable;
  unused = λ idx a le. two_sets_keys idx a ∙ ground (arith, le);
  unborn = λ idx le. ground (arith, le);
  sets = two_sets-sets;
}

-- The set 1 is given the addresses 5 and 9.
abbrev five : Info
five = pushed (nothing 2) 5

abbrev with_five : Sets
with_five = push_element 1 (nothing 2) 5 two_sets

abbrev five_nine : Info
five_nine = pushed five 9

abbrev filled : Sets
filled = push_element 1 five 9 with_five

with_five-info : with_five.info 1 ≡ some five
unfolding push_element push_new pushed hash_insert hash_find on_chain idx_hashcode slot_of
    link_front addr_code is_reloc
with_five-info = refl

filled-info : filled.info 1 ≡ some five_nine
unfolding push_element push_new pushed hash_insert hash_find on_chain idx_hashcode slot_of
    link_front addr_code is_reloc
filled-info = refl

filled_empty-info : filled.info 0 ≡ some (nothing 1)
unfolding push_element push_new pushed hash_insert hash_find on_chain idx_hashcode slot_of
    link_front addr_code is_reloc
filled_empty-info = refl

with_five-IsValid : IsValid with_five
unfolding hash_insert
with_five-IsValid =
    (push_element-IsValid two_sets 1 (nothing 2) 5 two_sets-IsValid refl (omega arith)).0

filled-IsValid : IsValid filled
filled-IsValid =
    (push_element-IsValid with_five 1 five 9 with_five-IsValid with_five-info (omega arith)).0

filled_next : filled.next_idx ≡ 2
unfolding push_element push_new pushed hash_insert hash_find on_chain idx_hashcode slot_of
    link_front addr_code is_reloc
filled_next = refl

filled-Tagged : Tagged filled five_nine
unfolding push_element push_new pushed hash_insert hash_find on_chain idx_hashcode slot_of
    link_front addr_code is_reloc
filled-Tagged = record { empty = (no_tags, refl); own = (no_tags, refl); ne_null = omega arith }

push-Unions_example :
    (dest : ℕ) × (t : Sets) × (push (some 1) 7 filled ≡ some ((true, some dest), t))
    × Unions filled 1 (7 ∷ []) dest t
    × CopyOnWrite filled 1 five_nine dest t
    × (ltb 1 five_nine.refcnt ≡ true → (b : ℕ) → contain t (some 1) b ≡ contain filled (some 1) b)
push-Unions_example =
    push-Unions filled 1 7 five_nine filled-IsValid filled-info (omega (arith, filled_next))
      filled-Tagged (omega arith)

filled_contains :
    (contain filled (some 1) 5 ≡ true)
    × (contain filled (some 1) 7 ≡ false)
    × (contain filled (some 1) 9 ≡ true)
unfolding push_element push_new pushed hash_insert hash_find on_chain idx_hashcode slot_of
    link_front addr_code is_reloc contain
filled_contains = (refl, refl, refl)

filled_tags : filled.tag_state.heap five_nine.tags ≡ some no_tags
unfolding push_element push_new pushed hash_insert hash_find on_chain idx_hashcode slot_of
    link_front addr_code is_reloc
filled_tags = refl

filled_hash : compute_hashcode (some 1) filled ≡ hashcode (some 1) filled
unfolding push_element push_new pushed hash_insert hash_find on_chain idx_hashcode slot_of
    link_front addr_code is_reloc compute_hashcode hashcode find_info iterate tag_hash hash_elements
    TagSet.load
filled_hash = refl

modify-Replaces_example :
    (dest : ℕ) × (t : Sets) × (modify (some 1) 5 7 filled ≡ some ((true, some dest), t))
    × Replaces filled 1 5 7 dest t
    × CopyOnWrite filled 1 five_nine dest t
    × (ltb 1 five_nine.refcnt ≡ true → (b : ℕ) → contain t (some 1) b ≡ contain filled (some 1) b)
modify-Replaces_example =
    modify-Replaces filled 1 5 7 five_nine filled-IsValid filled-info (omega (arith, filled_next))
      filled-Tagged (omega arith) filled_contains.0 filled_contains.1

push_element-hash_example :
    compute_hashcode (some 1) (push_element 1 five_nine 7 filled)
    ≡ hashcode (some 1) (push_element 1 five_nine 7 filled)
push_element-hash_example =
    push_element-hash filled 1 five_nine 7 no_tags filled-IsValid filled-info (omega arith)
      filled_tags filled_hash

-- The set 0 is given the same addresses in the other order.
abbrev nine : Info
nine = pushed (nothing 1) 9

abbrev with_nine : Sets
with_nine = push_element 0 (nothing 1) 9 filled

abbrev nine_five : Info
nine_five = pushed nine 5

abbrev both : Sets
both = push_element 0 nine 5 with_nine

with_nine-info : with_nine.info 0 ≡ some nine
unfolding push_element push_new pushed hash_insert hash_find on_chain idx_hashcode slot_of
    link_front addr_code is_reloc
with_nine-info = refl

both-info : (both.info 0 ≡ some nine_five) × (both.info 1 ≡ some five_nine)
unfolding push_element push_new pushed hash_insert hash_find on_chain idx_hashcode slot_of
    link_front addr_code is_reloc
both-info = (refl, refl)

both-IsValid : IsValid both
both-IsValid =
    let v =
      (push_element-IsValid filled 0 (nothing 1) 9 filled-IsValid filled_empty-info
        (omega arith)).0 in
    (push_element-IsValid with_nine 0 nine 5 v with_nine-info (omega arith)).0

both_next : both.next_idx ≡ 2
unfolding push_element push_new pushed hash_insert hash_find on_chain idx_hashcode slot_of
    link_front addr_code is_reloc
both_next = refl

five_nine-Hashed : Hashed both five_nine no_tags
unfolding push_element push_new pushed hash_insert hash_find on_chain idx_hashcode slot_of
    link_front addr_code is_reloc hash_elements hash_items
five_nine-Hashed = record {
  tags = refl;
  ne_null = omega arith;
  own = refl;
  hashed = refl;
  few = omega arith;
}

nine_five-Hashed : Hashed both nine_five no_tags
unfolding push_element push_new pushed hash_insert hash_find on_chain idx_hashcode slot_of
    link_front addr_code is_reloc hash_elements hash_items
nine_five-Hashed = record {
  tags = refl;
  ne_null = omega arith;
  own = refl;
  hashed = refl;
  few = omega arith;
}

both_contains : (contain both (some 0) 9 ≡ true) × (contain both (some 0) 5 ≡ true)
unfolding push_element push_new pushed hash_insert hash_find on_chain idx_hashcode slot_of
    link_front addr_code is_reloc contain
both_contains = (refl, refl)

nine_found : find_element 9 nine_five.first ≡ some (record { addr = 9; linked = false })
unfolding push_element push_new pushed hash_insert hash_find on_chain idx_hashcode slot_of
    link_front addr_code is_reloc find_element
nine_found = refl

few_users : nine_five.refcnt ≤ 1
unfolding pushed
few_users = omega arith

equal_iff_same_example :
    (r : Bool) × (equal (some 0) (some 1) both ≡ some (some r, both))
    × ((r ≡ true) ↔ (
        ((x : ℕ) → contain both (some 0) x ≡ contain both (some 1) x)
        × (no_tags.items ≡ no_tags.items)))
equal_iff_same_example =
    equal_iff_same both 0 1 nine_five five_nine no_tags no_tags both-IsValid both-info.0 both-info.1
      nine_five-Hashed five_nine-Hashed

modify-miscounts_example :
    (t : Sets) × (k : Info) × (modify (some 0) 9 5 both ≡ some ((true, some 0), t))
    × (t.info 0 ≡ some k)
    × (k.size ≡ nine_five.size)
    × (k.first ≡ unlink_head (behind 9 nine_five.first))
    × (length k.first < length nine_five.first)
modify-miscounts_example =
    modify-miscounts both 0 9 5 nine_five (record { addr = 9; linked = false }) both-IsValid
      both-info.0 (omega (arith, both_next)) few_users (omega arith) both_contains.0 both_contains.1
      nine_found refl
