-- ===== src/CeskSet/Change.antt =====
-- src/cesk/cesk_set.c: replacing an element, merging sets and their tags, and comparing sets.
use adam.Base.{
  ℕ, Bool, true, false, not, ◌&&◌, ◌||◌, Option, none, some, List, [], ◌∷◌, ◌==◌, if◌then◌else◌,
  bit_xor,
}
use adam.Base.State.{◌>>=◌, ◌>>◌, pure, get_state, deref}
use adam.Address.{addr_null, is_reloc}
use adam.TagSet
use adam.CeskSet.{
  key, Element, Info, Sets, M, hash_find, hash_insert, hash_remove, find_info, set_info,
  modify_state, on_tags, tag_hash, empty_hash, addr_code,
}
use adam.CeskSet.Methods.{
  Handle, invalid, count_up, count_down, unshare, prepare_to_write, push_element, size, hashcode,
  iterate, contain,
}

-- The list from the element behind the one with the address on.
unfoldable pub behind : ℕ → List Element → List Element
behind a [] = []
behind a (e ∷ es) = let rest = behind a es in if e.addr == a then es else rest

unfoldable pub without : ℕ → List Element → List Element
without a [] = []
without a (e ∷ es) = let rest = without a es in if e.addr == a then es else e ∷ rest

unfoldable pub find_element : ℕ → List Element → Option Element
find_element a [] = none
find_element a (e ∷ es) = let rest = find_element a es in if e.addr == a then some e else rest

abbrev pub unlink_head : List Element → List Element
unlink_head [] = []
unlink_head (e ∷ es) = record e { linked = false } ∷ es

-- The node is taken off the list: behind its `prev`, or as if it were the first one. `none`: the
-- node is not on the list any more, and its pointers may lead to freed memory.
unfoldable pub unlink : ℕ → List Element → Option (List Element)
unfolding behind without find_element
unlink a es = elim (find_element a es) [
  | none ↦ none
  | some e ↦ some (if e.linked then without a es else unlink_head (behind a es))
]

unfoldable pub rename : ℕ → ℕ → List Element → List Element
rename a b [] = []
rename a b (e ∷ es) =
    let rest = rename a b es in if e.addr == a then record e { addr = b } ∷ es else e ∷ rest

-- The count of relocated addresses after `from` became `to`.
abbrev pub move_reloc : ℕ → ℕ → ℕ → ℕ
move_reloc from to n =
    if is_reloc from then count_down (not (is_reloc to)) n else count_up (is_reloc to) n

-- `to` is in the set already: the node of `from` is deleted.
unfoldable pub delete_node : ℕ → Info → ℕ → ℕ → M (Unit {0})
unfolding unlink addr_code
delete_node idx i from to = do
  es ← deref (unlink from i.first)
  modify_state (
      set_info idx (
        some (record i {
          reloc = move_reloc from to i.reloc;
          hashcode = bit_xor i.hashcode (addr_code from);
          first = es;
        })))

-- The node of `from` is moved to the place of `to`.
unfoldable pub move_node : ℕ → Info → ℕ → ℕ → Sets → Sets
unfolding hash_insert rename addr_code
move_node idx i from to s =
    set_info idx
      (some (record i {
        reloc = move_reloc from to i.reloc;
        hashcode = bit_xor i.hashcode (bit_xor (addr_code from) (addr_code to));
        first = rename from to i.first;
      }))
      (hash_insert (key idx to) s)

-- The node of `from` is off its chain already.
unfoldable pub replace_node : ℕ → Info → ℕ → ℕ → M (Unit {0})
unfolding hash_find delete_node move_node
replace_node idx i from to s = elim (hash_find s (key idx to)) [
  | true ↦ delete_node idx i from to s
  | false ↦ some (tt, move_node idx i from to s)
]

unfoldable pub modify_element : ℕ → Info → ℕ → ℕ → M (Bool × Handle)
unfolding hash_find hash_remove replace_node
modify_element idx i from to s = elim (hash_find s (key idx from)) [
  | false ↦ some ((true, some idx), s)
  | true ↦
      (do
        modify_state (hash_remove (key idx from))
        replace_node idx i from to
        pure (true, some idx))
        s
]

unfoldable pub modify : Handle → ℕ → ℕ → M (Bool × Handle)
unfolding prepare_to_write modify_element
modify none from to = pure (from == to, none)
modify (some idx) from to =
    if from == to
    then pure (true, some idx)
    else if (from == addr_null) || (to == addr_null) || (idx == invalid)
    then pure (false, some idx)
    else prepare_to_write idx (λ dest i. modify_element dest i from to)

-- The loop of `cesk_set_merge` over the elements of the other set.
unfoldable pub push_all : ℕ → List Element → Sets → Option Sets
unfolding push_element
push_all dest [] s = some s
push_all dest (e ∷ es) s = elim (s.info dest) [
  | none ↦ none
  | some i ↦ push_all dest es (push_element dest i e.addr s)
]

abbrev pub joined : Option Sets → M (Unit {0})
joined none s = none
joined (some t) s = some (tt, t)

-- The new tags of a set, of which the hash leaves out those it had; NULL if they could not be made.
unfoldable pub put_tags : ℕ → ℕ → M Bool
unfolding tag_hash TagSet.free
put_tags dest tags = elim (tags == 0) [
  | true ↦ pure false
  | false ↦ do
    s ← get_state
    i ← deref (s.info dest)
    on_tags (TagSet.free i.tags)
    h ← tag_hash tags
    modify_state (set_info dest (some (record i { tags = tags; hashcode = bit_xor i.hashcode h })))
    pure true
]

-- The hash of the tags is taken out of the hash of the set.
unfoldable pub drop_tag_hash : ℕ → M ℕ
unfolding tag_hash
drop_tag_hash dest = do
  s ← get_state
  i ← deref (s.info dest)
  h ← tag_hash i.tags
  modify_state (set_info dest (some (record i { hashcode = bit_xor i.hashcode h })))
  pure i.tags

-- `_cesk_set_prepare_merge`, with what follows it on the two info entries.
unfoldable pub prepare_merge : ℕ → ℕ → (ℕ → Info → M Bool) → M (Bool × Handle)
unfolding find_info unshare
prepare_merge dest sour k =
    if (dest == invalid) || (sour == invalid) then pure (false, some dest) else do
      s ← get_state
      elim (find_info s dest) [
        | none ↦ pure (false, some dest)
        | some i ↦ elim (find_info s sour) [
          | none ↦ pure (false, some dest)
          | some j ↦ do new ← unshare dest i; rc ← k new j; pure (rc, some new)
        ]
      ]

-- `fresh` is what `malloc` returns for the new tag set.
unfoldable pub merge : ℕ → Handle → Handle → M (Bool × Handle)
unfolding prepare_merge push_all drop_tag_hash put_tags TagSet.merge
merge fresh none sour = pure (false, none)
merge fresh (some dest) none = pure (false, some dest)
merge fresh (some dest) (some sour) = prepare_merge dest sour (λ new j. do
  s ← get_state
  joined (push_all new j.first s)
  old ← drop_tag_hash new
  tags ← on_tags (TagSet.merge fresh j.tags old)
  put_tags new tags)

unfoldable pub merge_tags : ℕ → Handle → Handle → M (Bool × Handle)
unfolding prepare_merge drop_tag_hash put_tags TagSet.merge
merge_tags fresh none sour = pure (false, none)
merge_tags fresh (some dest) none = pure (false, some dest)
merge_tags fresh (some dest) (some sour) = prepare_merge dest sour (λ new j. do
  old ← drop_tag_hash new
  tags ← on_tags (TagSet.merge fresh old j.tags)
  put_tags new tags)

-- The old tags are given up; the hash is left as it is.
unfoldable pub assign_tags : Handle → ℕ → M (Bool × Handle)
unfolding prepare_to_write TagSet.free
assign_tags none tags = pure (false, none)
assign_tags (some idx) tags =
    if tags == 0
    then pure (false, some idx)
    else prepare_to_write idx (λ dest i. do
      on_tags (TagSet.free i.tags)
      modify_state (set_info dest (some (record i { tags = tags })))
      pure (true, some dest))

unfoldable pub hash_elements : ℕ → List ℕ → ℕ
unfolding addr_code
hash_elements h [] = h
hash_elements h (a ∷ more) = hash_elements (bit_xor h (addr_code a)) more

unfoldable pub compute_hashcode : Handle → M ℕ
unfolding find_info iterate hash_elements tag_hash
compute_hashcode none = pure 0
compute_hashcode (some idx) = do
  s ← get_state
  elim (find_info s idx) [
    | none ↦ pure 0
    | some i ↦ do h ← tag_hash i.tags; pure (bit_xor (hash_elements empty_hash (iterate i.first)) h)
  ]

-- Are all the addresses in the set?
unfoldable pub contain_all : Sets → ℕ → List ℕ → Bool
unfolding contain
contain_all s idx [] = true
contain_all s idx (a ∷ more) = let rest = contain_all s idx more in contain s (some idx) a && rest

-- The comparison once sizes and hashes agree; `none` as a result is -1.
unfoldable pub equal_sets : ℕ → ℕ → M (Option Bool)
unfolding find_info contain_all iterate TagSet.equal
equal_sets first second = do
  s ← get_state
  elim (find_info s first) [
    | none ↦ pure none
    | some i ↦ elim (find_info s second) [
      | none ↦ pure none
      | some j ↦ do
        rc ← on_tags (TagSet.equal i.tags j.tags)
        elim rc [
          | none ↦ pure none
          | some false ↦ pure (some false)
          | some true ↦ pure (some (contain_all s second (iterate i.first)))
        ]
    ]
  ]

unfoldable pub equal : Handle → Handle → M (Option Bool)
unfolding hashcode size equal_sets
equal none none = pure (some true)
equal none (some b) = pure (some false)
equal (some a) none = pure (some false)
equal (some a) (some b) = do
  s ← get_state
  h ← hashcode (some a)
  k ← hashcode (some b)
  if (h == k) && (size s (some a) == size s (some b)) then equal_sets a b else pure (some false)
