-- ===== src/TagSet/Items.antt =====
-- src/tag/tag_set.c: the loops over the items of tag sets. An array is a list; a loop's place in
-- it is what is left of the list, or an index.
use adam.Base.{
  ℕ, zero, suc, ◌+◌, ◌-◌, ◌*◌, ◌/◌, ◌%◌, ◌^◌, Bool, true, false, ◌&&◌, ◌||◌, Option, none, some,
  List, [], ◌∷◌, ◌++◌, ◌==◌, ltb, leb, if◌then◌else◌, length, bit_or, bit_xor,
}
use adam.AllocTable.{mh_multiply}

pub record Item : Type 0 where
  pub tid : ℕ
  pub resol : ℕ

abbrev pub item : ℕ → ℕ → Item
item t r = record { tid = t; resol = r }

abbrev pub hash_init : ℕ
hash_init = 0x376514fb

-- The sum of the 32-bit products is an `unsigned int`, the rest an `unsigned long`.
unfoldable pub item_hashcode : Item → ℕ
item_hashcode i =
    (i.tid * mh_multiply
      + ((i.resol * i.resol % 2 ^ 32 + 0x23fc * i.resol % 2 ^ 32) % 2 ^ 32 + mh_multiply * i.resol))
    % 2 ^ 64
    % 2 ^ 32

-- The loop of `tag_set_compute_hashcode`, from any start.
unfoldable pub hash_items : ℕ → List Item → ℕ
hash_items h [] = h
hash_items h (i ∷ is) = hash_items (bit_xor h (item_hashcode i)) is

-- The loop of `tag_set_from_array` from the second element on: the items before, the last tag and
-- the hash so far. `none`: the tags are not strictly increasing.
unfoldable pub read_items : ℕ → List Item → ℕ → List Item → Option (List Item × ℕ)
read_items last [] h out = some (out, h)
read_items last (i ∷ is) h out =
    let rest = read_items i.tid is (bit_xor h (item_hashcode i)) (out ++ i ∷ []) in
    if leb i.tid last then none else rest

-- `if(i < size && data[i].tid < current_id) current_id = data[i].tid;`
unfoldable pub least_tid : List Item → ℕ → ℕ
least_tid [] current_id = current_id
least_tid (x ∷ xs) current_id = if ltb x.tid current_id then x.tid else current_id

-- `if(i < size && current_id == data[i].tid) { resol |= data[i].resol; i ++; }`
unfoldable pub join_resol : List Item → ℕ → ℕ → ℕ
join_resol [] current_id resol = resol
join_resol (x ∷ xs) current_id resol = if current_id == x.tid then bit_or resol x.resol else resol

unfoldable pub advance : List Item → ℕ → List Item
advance [] current_id = []
advance (x ∷ xs) current_id = if current_id == x.tid then xs else x ∷ xs

abbrev pub is_empty : List Item → Bool
is_empty [] = true
is_empty (x ∷ xs) = false

-- The merge loop: what is left of both sets, the items and the hash of the result so far.
-- `none` means that the rounds given ran out.
unfoldable pub merge_loop : ℕ → List Item → List Item → List Item → ℕ → Option (List Item × ℕ)
merge_loop zero xs ys out h = if is_empty xs && is_empty ys then some (out, h) else none
merge_loop (suc rounds) xs ys out h =
    let current_id = least_tid ys (least_tid xs 0xffffffff) in
    let resol = join_resol ys current_id (join_resol xs current_id 0) in
    let i = item current_id resol in
    let rest =
      merge_loop rounds (advance xs current_id) (advance ys current_id)
        (if resol == 0 then out else out ++ i ∷ [])
        (if resol == 0 then h else bit_xor h (item_hashcode i)) in
    if is_empty xs && is_empty ys then some (out, h) else rest

-- `set->data[m].tid`; the index is in range wherever the code reads it.
unfoldable pub tid_at : List Item → ℕ → ℕ
tid_at [] m = 0
tid_at (x ∷ xs) zero = x.tid
tid_at (x ∷ xs) (suc m) = tid_at xs m

-- The binary search of `tag_set_contains` and `tag_set_change_resolution`: the final `l`.
unfoldable pub search_loop : ℕ → List Item → ℕ → ℕ → ℕ → Option ℕ
search_loop zero items what l r = none
search_loop (suc rounds) items what l r =
    let m = (l + r) / 2 in
    let rest =
      search_loop rounds items what (if leb (tid_at items m) what then m else l)
        (if leb (tid_at items m) what then r else m) in
    if ltb 1 (r - l) then rest else some l

-- The test after the search.
unfoldable pub settle : List Item → ℕ → Option ℕ → Option (Option ℕ)
settle items what none = none
settle items what (some l) = some (if tid_at items l == what then some l else none)

-- The index of the item of `what`; `some none` says that there is no such item.
unfoldable pub position : List Item → ℕ → Option (Option ℕ)
position [] what = some none
position (x ∷ xs) what =
    let items = x ∷ xs in
    let found = settle items what (search_loop (length items) items what 0 (length items)) in
    if ltb what x.tid || ltb (tid_at items (length xs)) what then some none else found

unfoldable pub same_items : List Item → List Item → Bool
same_items [] ys = true
same_items (x ∷ xs) [] = false
same_items (x ∷ xs) (y ∷ ys) = (x.tid == y.tid) && (x.resol == y.resol) && same_items xs ys
