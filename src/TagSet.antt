-- ===== src/TagSet.antt =====
-- src/tag/tag_set.c: tag sets with reference counts, copied when a set that is shared is modified.
-- A pointer is a number, 0 is NULL; `none` is a fault, a read through NULL or a dangling pointer.
pub mod Items
pub mod Order
pub mod Merge
pub mod Search
pub mod Hash
pub mod Owner
pub mod Create
pub mod Same
pub mod Alive
use mathlib.Core.Option
use adam.Base.{
  ℕ, zero, suc, ◌+◌, ◌-◌, ◌%◌, ◌^◌, Bool, true, false, ◌&&◌, ◌||◌, Option, none, some, List, [],
  ◌∷◌, ◌==◌, ltb, if◌then◌else◌, length, bit_xor,
}
use adam.TagSet.Items.{
  Item, item, hash_init, item_hashcode, hash_items, read_items, is_empty, merge_loop, position,
  same_items,
}

-- `size` is the length of `items`.
pub record TagSet : Type 0 where
  pub id : ℕ
  pub refcnt : ℕ
  pub hashcode : ℕ
  pub items : List Item

-- The sets on the heap, `next_set_idx`, the address of `_tag_set_empty`, and whether a transaction
-- of the tracker is open, which then keeps a reference to each set that is registered.
pub record State : Type 0 where
  pub heap : ℕ → Option TagSet
  pub next_set_idx : ℕ
  pub empty_at : ℕ
  pub tracking : Bool

abbrev pub M : Type 0 → Type 0
M A = State → Option (A × State)

infixl 5 ◌>>=◌ ◌>>◌
abbrev pub ◌>>=◌ : {A B : Type 0} → M A → (A → M B) → M B
◌>>=◌ m f s = elim (m s) [ none ↦ none | some (a, s') ↦ f a s' ]

abbrev pub ◌>>◌ : {B : Type 0} → M (Unit {0}) → M B → M B
m >> k = m >>= λ _. k

abbrev pub pure : {A : Type 0} → A → M A
pure a s = some (a, s)

abbrev pub write : (ℕ → Option TagSet) → ℕ → Option TagSet → ℕ → Option TagSet
write heap p v q = if q == p then v else heap q

unfoldable pub load : ℕ → M TagSet
load p s = Option.map (λ t. (t, s)) (s.heap p)

abbrev pub put : ℕ → Option TagSet → M (Unit {0})
put p v s = some (tt, record s { heap = write s.heap p v })

abbrev pub get_state : M State
get_state s = some (s, s)

-- The index that a new set gets.
abbrev pub take_idx : M ℕ
take_idx s = some (s.next_set_idx, record s { next_set_idx = (s.next_set_idx + 1) % 2 ^ 32 })

unfoldable pub incref : ℕ → M (Unit {0})
unfolding load
incref set = do t ← load set; put set (some (record t { refcnt = (t.refcnt + 1) % 2 ^ 32 }))

unfoldable pub decref : ℕ → M (Unit {0})
unfolding load
decref set = do
  t ← load set
  let n = (t.refcnt + 2 ^ 32 - 1) % 2 ^ 32
  put set (if n == 0 then none else some (record t { refcnt = n }))

-- `fresh` is what `malloc` returns; the items are written by the callers.
unfoldable pub set_new : ℕ → M ℕ
set_new fresh = if fresh == 0 then pure 0 else do
  n ← take_idx
  put fresh (some (record { id = n; refcnt = 0; hashcode = hash_init; items = [] }))
  pure fresh

-- `tag_tracker_register_tagset`: the node that is entered for the set holds a reference to it.
register_if : Bool → ℕ → M (Unit {0})
unfolding incref
register_if true set = incref set
register_if false set = pure tt

unfoldable pub register : ℕ → M (Unit {0})
unfolding register_if
register set s = register_if s.tracking set s

-- The identity of a copy: a new index, which the tracker is told, or that of the original.
unfoldable pub identify : ℕ → ℕ → Bool → M (Unit {0})
unfolding load register
identify ret id true = do
  t ← load ret
  n ← take_idx
  put ret (some (record t { id = n }))
  register ret
identify ret id false = do t ← load ret; put ret (some (record t { id = id }))

unfoldable pub duplicate : ℕ → ℕ → Bool → M ℕ
unfolding load set_new identify incref decref
duplicate fresh set fresh_idx = if set == 0 then pure 0 else do
  src ← load set
  ret ← set_new fresh
  if ret == 0 then pure 0 else do
    t ← load ret
    put ret (some (record t { hashcode = src.hashcode; items = src.items }))
    identify ret src.id fresh_idx
    decref set
    incref ret
    pure ret

unfoldable pub empty : M ℕ
unfolding incref
empty = do s ← get_state; incref s.empty_at; pure s.empty_at

-- The end of `tag_set_from_array`: a set that is complete, or not in order.
unfoldable pub finish_array : ℕ → Option (List Item × ℕ) → M ℕ
unfolding load incref register
finish_array ret none = do put ret none; pure 0
finish_array ret (some (items, h)) = do
  t ← load ret
  put ret (some (record t { hashcode = h; items = items }))
  incref ret
  register ret
  pure ret

-- The two arrays as a list of pairs; `none` where one of them is NULL.
unfoldable pub from_array : ℕ → Option (List Item) → M ℕ
unfolding empty set_new finish_array read_items
from_array fresh none = pure 0
from_array fresh (some []) = empty
from_array fresh (some (i ∷ is)) = do
  ret ← set_new fresh
  if ret == 0
      then pure 0
      else finish_array ret (read_items i.tid is (bit_xor hash_init (item_hashcode i)) (i ∷ []))

unfoldable pub fork : ℕ → M ℕ
unfolding incref
fork set = if set == 0 then pure 0 else do incref set; pure set

unfoldable pub free : ℕ → M (Unit {0})
unfolding decref
free set = if set == 0 then pure tt else decref set

-- `none` stands for the result -1.
unfoldable pub equal : ℕ → ℕ → M (Option Bool)
unfolding load same_items
equal first second = if (first == 0) || (second == 0) then pure none else do
  a ← load first
  b ← load second
  pure (
      some (
        if (length a.items == length b.items) && (a.hashcode == b.hashcode)
        then same_items a.items b.items
        else false))

-- `_tag_set_incref(ret); return _tag_set_duplicate(ret, 1);`
unfoldable pub copy : ℕ → ℕ → M ℕ
unfolding incref duplicate
copy fresh set = do incref set; duplicate fresh set true

-- The end of `tag_set_merge`; the loop has a round for each slot of the result.
unfoldable pub finish_merge : ℕ → Option (List Item × ℕ) → M ℕ
unfolding load register incref
finish_merge ret none = λ _. none
finish_merge ret (some (items, h)) = do
  t ← load ret
  put ret (some (record t { hashcode = h; items = items }))
  register ret
  incref ret
  pure ret

-- `tag_set_merge` once the sets are read.
unfoldable pub merge_sets : ℕ → ℕ → ℕ → List Item → List Item → M ℕ
unfolding empty copy set_new finish_merge
merge_sets fresh first second xs ys =
    if is_empty xs && is_empty ys
    then empty
    else if is_empty xs
    then copy fresh second
    else if is_empty ys || (second == first)
    then copy fresh first
    else do
      ret ← set_new fresh
      if ret == 0
          then pure 0
          else finish_merge ret (merge_loop (length xs + length ys) xs ys [] hash_init)

unfoldable pub merge : ℕ → ℕ → ℕ → M ℕ
unfolding load merge_sets
merge fresh first second =
    if (first == 0) || (second == 0)
    then pure 0
    else do a ← load first; b ← load second; merge_sets fresh first second a.items b.items

-- `none` would say that the search did not end.
unfoldable pub contains : ℕ → ℕ → M Bool
unfolding load position
contains set what = do
  t ← load set
  elim (position t.items what) [
    | none ↦ λ _. none
    | some none ↦ pure false
    | some (some l) ↦ pure true
  ]

unfoldable pub set_resol : List Item → ℕ → ℕ → List Item
set_resol [] l value = []
set_resol (x ∷ xs) zero value = item x.tid value ∷ xs
set_resol (x ∷ xs) (suc l) value = x ∷ set_resol xs l value

unfoldable pub item_at : List Item → ℕ → Item
item_at [] l = item 0 0
item_at (x ∷ xs) zero = x
item_at (x ∷ xs) (suc l) = item_at xs l

-- The write to the item that the search found, with the hash before and after it.
unfoldable pub rewrite_item : TagSet → ℕ → ℕ → TagSet
unfolding set_resol item_at
rewrite_item t l value =
    let old = item_at t.items l in
    record t {
      hashcode =
          bit_xor (bit_xor t.hashcode (item_hashcode old)) (item_hashcode (item old.tid value));
      items = set_resol t.items l value;
    }

-- The label ERR: a copy is dropped, and the original has its reference again.
unfoldable pub give_up : ℕ → ℕ → M ℕ
unfolding incref decref
give_up set prev = if prev == 0 then pure 0 else do decref set; incref prev; pure 0

-- The search and the write, on a set that may be modified. `prev` is the original of a copy.
unfoldable pub change_item : ℕ → ℕ → ℕ → ℕ → M ℕ
unfolding load position rewrite_item give_up
change_item set prev tagid value = do
  t ← load set
  elim (position t.items tagid) [
    | none ↦ λ _. none
    | some none ↦ give_up set prev
    | some (some l) ↦ do put set (some (rewrite_item t l value)); pure set
  ]

-- A set that others use is copied first.
unfoldable pub change_copy : ℕ → ℕ → ℕ → ℕ → M ℕ
unfolding duplicate change_item
change_copy fresh set tagid value = do
  copied ← duplicate fresh set false
  if copied == 0 then pure 0 else change_item copied set tagid value

unfoldable pub change_resolution : ℕ → ℕ → ℕ → ℕ → M ℕ
unfolding load change_copy change_item
change_resolution fresh set tagid value = do
  t ← load set
  if ltb 1 t.refcnt then change_copy fresh set tagid value else change_item set 0 tagid value
