-- ===== src/Tests/Tags.antt =====
-- Tag sets with a few tags.
use adam.Base.{◌≡◌, refl, List, [], ◌∷◌, some, arith}
use adam.TagSet.Items.{
  Item, item, hash_init, hash_items, least_tid, join_resol, advance, merge_loop, position,
}
use adam.TagSet.Search.{find_index, position-find_index}

abbrev one : List Item
one = item 2 1 ∷ item 5 0 ∷ item 9 4 ∷ []

abbrev two : List Item
two = item 2 2 ∷ item 7 1 ∷ []

merge_run :
    merge_loop 5 one two [] hash_init
    ≡ some (
      item 2 3 ∷ item 7 1 ∷ item 9 4 ∷ [],
      hash_items hash_init (item 2 3 ∷ item 7 1 ∷ item 9 4 ∷ []),
    )
unfolding merge_loop least_tid join_resol advance hash_items
merge_run = refl

position-find_index_example : position one 9 ≡ some (find_index one 9)
position-find_index_example = position-find_index 0 one 9 (omega arith)
