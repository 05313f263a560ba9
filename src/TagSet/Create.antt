-- ===== src/TagSet/Create.antt =====
-- The sets that `tag_set_from_array` and `tag_set_merge` make.
use adam.Base.{
  ℕ, ◌+◌, ◌%◌, ◌^◌, Bool, true, false, ◌≡◌, ◌≢◌, refl, ◌∙◌, none, some, List, [], ◌∷◌, ◌++◌, leb,
  if◌then◌else◌, length, arith, bit_xor, Bool-cases, inl, inr,
}
use mathlib.Core.List.{append_assoc, append-nil}
use adam.TagSet.{TagSet, State, write, set_new, merge, from_array, finish_array}
use adam.TagSet.Items.{Item, item_hashcode, hash_items, hash_init, is_empty, merge_loop, read_items}
use adam.TagSet.Merge.{Merged, merge_loop-Merged}
use adam.TagSet.Owner.{Holds, IsFree}

-- A new set at `fresh`, with what the callers fill in.
pub record Created (s : State) (fresh : ℕ) (items : List Item) (s' : State) : Type 0 where
  pub created :
      s'.heap fresh
      ≡ some (record {
        id = s.next_set_idx;
        refcnt = if s.tracking then 2 else 1;
        hashcode = hash_items hash_init items;
        items = items;
      })
  pub others : (q : ℕ) → q ≢ fresh → s'.heap q ≡ s.heap q

blank_set : ℕ → TagSet
blank_set n = record { id = n; refcnt = 0; hashcode = hash_init; items = [] }

filled : State → ℕ → ℕ → List Item → State
filled s fresh h items =
    let t : TagSet = record { id = s.next_set_idx; refcnt = 0; hashcode = h; items = items } in
    let m = write (write s.heap fresh (some (blank_set s.next_set_idx))) fresh (some t) in
    let m = write m fresh (some (record t { refcnt = 1 })) in
    record s {
      heap = if s.tracking then write m fresh (some (record t { refcnt = 2 })) else m;
      next_set_idx = (s.next_set_idx + 1) % 2 ^ 32;
    }

filled-Created :
    (s : State) (fresh : ℕ) (items : List Item)
    → Created s fresh items (filled s fresh (hash_items hash_init items) items)
unfolding filled
filled-Created s fresh items = record { created = ground arith; others = λ q h. ground arith }

module _ (s : State) (fresh first second : ℕ) (a b : TagSet) (p : Holds s first a)
    (q : Holds s second b) (f : IsFree s fresh) (apart : first ≢ second)
    (full : (is_empty a.items ≡ false) × (is_empty b.items ≡ false)) where
  merge_runs :
      {items : List Item} {h : ℕ}
      → merge_loop (length a.items + length b.items) a.items b.items [] hash_init ≡ some (items, h)
      → merge fresh first second s ≡ some (fresh, filled s fresh h items)
  unfolding merge filled blank_set
  merge_runs e = ground (arith, e, p.at, q.at)

  -- Two different sets that are not empty are merged into a new set: in order, with the union of
  -- the resolutions for each tag and none without, and with the right hash. It has one reference,
  -- and a second one while the tracker has a transaction open. No other set changes.
  pub merge-Created :
      (items : List Item) × (s' : State) × (merge fresh first second s ≡ some (fresh, s'))
      × Created s fresh items s'
      × Merged 0 a.items b.items items
  merge-Created =
      let (items, run, m) =
        merge_loop-Merged (length a.items + length b.items) 0 a.items b.items [] hash_init p.sorted
          q.sorted (omega arith) in
      (
        items,
        filled s fresh (hash_items hash_init items) items,
        merge_runs run,
        filled-Created s fresh items,
        m,
      )

abbrev pub increasing : ℕ → List Item → Bool
increasing last [] = true
increasing last (i ∷ is) = if leb i.tid last then false else increasing i.tid is

read_items-increasing :
    (last h : ℕ) (is out : List Item)
    → read_items last is h out
      ≡ (if increasing last is then some (out ++ is, hash_items h is) else none)
unfolding read_items hash_items
read_items-increasing last h [] out = rw append-nil refl
read_items-increasing last h (i ∷ is) out = elim (Bool-cases (leb i.tid last)) [
  | inl low ↦ rw low refl
  | inr high ↦ rw high (read_items-increasing i.tid _ is (out ++ i ∷ []) ∙ rw append_assoc refl)
]

module _ (s : State) (fresh : ℕ) (i : Item) (is : List Item) (f : IsFree s fresh) where
  array_runs :
      read_items i.tid is (bit_xor hash_init (item_hashcode i)) (i ∷ [])
        ≡ some (i ∷ is, hash_items hash_init (i ∷ is))
      → from_array fresh (some (i ∷ is)) s
        ≡ some (fresh, filled s fresh (hash_items hash_init (i ∷ is)) (i ∷ is))
  unfolding finish_array set_new from_array filled blank_set
  array_runs e = ground (arith, e)

  dropped : State
  dropped = record s {
    heap = write (write s.heap fresh (some (blank_set s.next_set_idx))) fresh none;
    next_set_idx = (s.next_set_idx + 1) % 2 ^ 32;
  }

  array_refused :
      read_items i.tid is (bit_xor hash_init (item_hashcode i)) (i ∷ []) ≡ none
      → from_array fresh (some (i ∷ is)) s ≡ some (0, dropped)
  unfolding finish_array set_new from_array dropped blank_set
  array_refused e = ground (arith, e)

  dropped_same : (q : ℕ) → dropped.heap q ≡ s.heap q
  unfolding dropped
  dropped_same q = ground (arith, f.at)

-- A non-empty array of tags, with a free address for the set that is allocated, gives a new set at
-- that address with its items and their hash if the tags strictly increase, and otherwise NULL, with
-- the heap as it was.
pub from_array-Created :
    (s : State) (fresh : ℕ) (i : Item) (is : List Item)
    → IsFree s fresh
    → (s' : State) × (from_array fresh (some (i ∷ is)) s
        ≡ some ((if increasing i.tid is then fresh else 0), s'))
      × (if increasing i.tid is
          then Created s fresh (i ∷ is) s'
          else ((q : ℕ) → s'.heap q ≡ s.heap q))
unfolding item_hashcode hash_items
from_array-Created s fresh i is f =
    let run = read_items-increasing i.tid (bit_xor hash_init (item_hashcode i)) is (i ∷ []) in
    elim (Bool-cases (increasing i.tid is)) [
      | inl ordered ↦ rw ordered (
        filled s fresh (hash_items hash_init (i ∷ is)) (i ∷ is),
        array_runs s fresh i is f (run ∙ rw ordered refl),
        filled-Created s fresh (i ∷ is),
      )
      | inr broken ↦ rw broken (
        dropped s fresh i is f,
        array_refused s fresh i is f (run ∙ rw broken refl),
        λ q. dropped_same s fresh i is f q,
      )
    ]
