-- ===== src/Tests/Sets.antt =====
-- Two tag sets on the heap, one of them shared.
use adam.Base.{ℕ, true, ◌≡◌, refl, none, some, List, [], ◌∷◌, ◌==◌, if◌then◌else◌, arith}
use adam.TagSet.{TagSet, State, merge, from_array, change_resolution}
use adam.TagSet.Items.{Item, item, hash_init, hash_items}
use adam.TagSet.Merge.{Merged}
use adam.TagSet.Owner.{Holds, IsFree, Changed, change_resolution-Changed}
use adam.TagSet.Create.{Created, increasing, merge-Created, from_array-Created}

abbrev shared_set : TagSet
shared_set = record {
  id = 3;
  refcnt = 2;
  hashcode = hash_items hash_init (item 2 1 ∷ item 5 2 ∷ []);
  items = item 2 1 ∷ item 5 2 ∷ [];
}

abbrev own_set : TagSet
own_set = record {
  id = 4;
  refcnt = 1;
  hashcode = hash_items hash_init (item 5 1 ∷ []);
  items = item 5 1 ∷ [];
}

abbrev start : State
start = record {
  heap = λ q. if q == 10 then some shared_set else if q == 20 then some own_set else none;
  next_set_idx = 7;
  empty_at = 30;
  tracking = true;
}

shared_held : Holds start 10 shared_set
shared_held = record {
  at = refl;
  ne_null = omega arith;
  counted = (omega arith, omega arith);
  sorted = omega arith;
  hashed = refl;
}

own_held : Holds start 20 own_set
own_held = record {
  at = refl;
  ne_null = omega arith;
  counted = (omega arith, omega arith);
  sorted = omega arith;
  hashed = refl;
}

start-IsFree : IsFree start 40
start-IsFree = record { at = refl; ne_null = omega arith }

change_resolution-Changed_example :
    (p : ℕ) × (s' : State) × (change_resolution 40 10 5 8 start ≡ some (p, s'))
    × Changed start 40 10 1 8 shared_set p s'
change_resolution-Changed_example =
    change_resolution-Changed start 40 10 5 8 1 shared_set shared_held start-IsFree refl

merge-Created_example :
    (items : List Item) × (s' : State) × (merge 40 10 20 start ≡ some (40, s'))
    × Created start 40 items s'
    × Merged 0 shared_set.items own_set.items items
merge-Created_example =
    merge-Created start 40 10 20 shared_set own_set shared_held own_held start-IsFree (omega arith)
      (refl, refl)

from_array-Created_example :
    (s' : State) × (from_array 40 (some (item 3 1 ∷ item 6 1 ∷ [])) start
      ≡ some ((if increasing 3 (item 6 1 ∷ []) then 40 else 0), s'))
    × (if increasing 3 (item 6 1 ∷ [])
        then Created start 40 (item 3 1 ∷ item 6 1 ∷ []) s'
        else ((q : ℕ) → s'.heap q ≡ start.heap q))
from_array-Created_example = from_array-Created start 40 (item 3 1) (item 6 1 ∷ []) start-IsFree
