-- ===== src/CeskSet/Methods.antt =====
-- src/cesk/cesk_set.c: the functions on sets. A `cesk_set_t*` is NULL or the index that it holds;
-- a function that may give the set another index returns it. `true` is the result 0, `false` -1.
use adam.Base.{
  ℕ, ◌+◌, ◌-◌, ◌%◌, ◌^◌, Bool, true, false, ◌||◌, Option, none, some, List, [], ◌∷◌, ◌==◌, ltb,
  if◌then◌else◌, bit_xor,
}
use adam.Base.State.{◌>>=◌, ◌>>◌, pure, fault, get_state, deref}
use adam.Address.{addr_null, is_reloc}
use adam.TagSet
use adam.CeskSet.{
  key, Element, Info, Sets, M, hash_find, hash_insert, hash_remove, find_info, set_info,
  modify_state, on_tags, addr_code, link_front, duplicate,
}

abbrev pub invalid : ℕ
invalid = 0xffffffff

abbrev pub Handle : Type 0
Handle = Option ℕ

abbrev pub count_up : Bool → ℕ → ℕ
count_up b n = if b then (n + 1) % 2 ^ 32 else n

abbrev pub count_down : Bool → ℕ → ℕ
count_down b n = if b then (n + 2 ^ 32 - 1) % 2 ^ 32 else n

unfoldable pub fork : Handle → M Handle
unfolding find_info
fork none = pure none
fork (some idx) = do
  s ← get_state
  elim (find_info s idx) [
    | none ↦ pure none
    | some i ↦ do
      modify_state (set_info idx (some (record i { refcnt = (i.refcnt + 1) % 2 ^ 32 })))
      pure (some idx)
  ]

unfoldable pub get_empty_set : M Handle
get_empty_set = do
  s ← get_state
  i ← deref (s.info s.empty_set)
  modify_state (set_info s.empty_set (some (record i { refcnt = (i.refcnt + 1) % 2 ^ 32 })))
  pure (some s.empty_set)

abbrev pub of_info : {A : Type 0} → A → (Info → A) → Sets → Handle → A
of_info missing f s none = missing
of_info missing f s (some idx) = elim (find_info s idx) [ none ↦ missing | some i ↦ f i ]

unfoldable pub size : Sets → Handle → ℕ
unfolding find_info
size = of_info 0 (λ i. i.size)

-- NULL is not tested here, nor in `get_reloc`.
unfoldable pub hashcode : Handle → M ℕ
unfolding find_info
hashcode none = fault
hashcode (some idx) = do s ← get_state; pure (of_info 0 (λ i. i.hashcode) s (some idx))

unfoldable pub get_reloc : Handle → M ℕ
unfolding find_info
get_reloc none = fault
get_reloc (some idx) = do s ← get_state; pure (of_info 0 (λ i. i.reloc) s (some idx))

-- 0 is NULL.
unfoldable pub get_tags : Sets → Handle → ℕ
unfolding find_info
get_tags = of_info 0 (λ i. i.tags)

-- The loop over `cesk_set_iter_next`, which ends at the first result CESK_STORE_ADDR_NULL.
unfoldable pub iterate : List Element → List ℕ
iterate [] = []
iterate (e ∷ es) = let rest = iterate es in if e.addr == addr_null then [] else e.addr ∷ rest

unfoldable pub contain : Sets → Handle → ℕ → Bool
unfolding hash_find
contain s none addr = false
contain s (some idx) addr = if addr == addr_null then false else hash_find s (key idx addr)

-- The nodes of the list are taken off the table.
unfoldable pub remove_elements : ℕ → List Element → Sets → Sets
unfolding hash_remove
remove_elements idx [] s = s
remove_elements idx (e ∷ es) s = remove_elements idx es (hash_remove (key idx e.addr) s)

-- The reference that was the last one is given back.
unfoldable pub drop_set : ℕ → Info → M (Unit {0})
unfolding remove_elements hash_remove TagSet.free
drop_set idx i = do
  modify_state (remove_elements idx i.first)
  modify_state (λ s. set_info idx none (hash_remove (key idx addr_null) s))
  on_tags (TagSet.free i.tags)

unfoldable pub free : Handle → M (Unit {0})
unfolding find_info drop_set
free none = pure tt
free (some idx) = do
  s ← get_state
  elim (find_info s idx) [
    | none ↦ pure tt
    | some i ↦
        let n = (i.refcnt + 2 ^ 32 - 1) % 2 ^ 32 in
        elim (n == 0) [
          | true ↦ drop_set idx i
          | false ↦ modify_state (set_info idx (some (record i { refcnt = n })))
        ]
  ]

-- The set that may be written in place of the one at `idx`: a copy if it is shared.
unfoldable pub unshare : ℕ → Info → M ℕ
unfolding duplicate
unshare idx i = if ltb 1 i.refcnt then duplicate idx i else pure idx

-- `_cesk_set_prepare_to_write`, with what follows it; NULL is passed on as -1.
unfoldable pub prepare_to_write : ℕ → (ℕ → Info → M (Bool × Handle)) → M (Bool × Handle)
unfolding find_info unshare
prepare_to_write idx k = do
  s ← get_state
  elim (find_info s idx) [
    | none ↦ pure (false, some idx)
    | some i ↦ do dest ← unshare idx i; t ← get_state; j ← deref (t.info dest); k dest j
  ]

-- An element that is not in the set yet is put in front, without a `prev` for the old front.
unfoldable pub push_new : ℕ → Info → ℕ → Sets → Sets
unfolding hash_insert link_front addr_code
push_new idx i a s =
    set_info idx
      (some (record i {
        size = (i.size + 1) % 2 ^ 32;
        reloc = count_up (is_reloc a) i.reloc;
        hashcode = bit_xor i.hashcode (addr_code a);
        first = link_front false a i.first;
      }))
      (hash_insert (key idx a) s)

unfoldable pub push_element : ℕ → Info → ℕ → Sets → Sets
unfolding push_new hash_find
push_element idx i a s = if hash_find s (key idx a) then s else push_new idx i a s

unfoldable pub push : Handle → ℕ → M (Bool × Handle)
unfolding prepare_to_write push_element
push none addr = pure (false, none)
push (some idx) addr =
    if (addr == addr_null) || (idx == invalid)
    then pure (false, some idx)
    else prepare_to_write idx
        (λ dest i. do modify_state (push_element dest i addr); pure (true, some dest))
