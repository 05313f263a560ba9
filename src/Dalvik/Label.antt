-- ===== src/Dalvik/Label.antt =====
-- src/dalvik/dalvik_label.c: labels are numbered in the order in which they are met. A label is the
-- address of its pooled string. The result -1 is `none`; `room` is whether `malloc` succeeds.
pub mod Added
pub mod Numbered
use adam.Base.{
  ℕ, zero, ◌+◌, ◌*◌, ◌%◌, ◌^◌, Bool, true, false, Option, none, some, List, [], ◌∷◌, ◌==◌, ltb,
  if◌then◌else◌,
}
use adam.Base.Chains.{Chains, first_where, link}
use adam.AllocTable.{mh_multiply}

abbrev pub pool_size : ℕ
pool_size = 655217

pub record Entry : Type 0 where
  pub label : ℕ
  pub idx : ℕ

-- The hash table and `_dalvik_label_count`.
pub record Labels : Type 0 where
  pub table : Chains Entry
  pub count : ℕ

-- `dalvik_label_init`
abbrev pub init : Labels
init = record { table = λ _. []; count = 0 }

unfoldable pub slot_of : ℕ → ℕ
slot_of label = label * mh_multiply % 2 ^ 64 % pool_size

abbrev pub is_label : ℕ → Entry → Bool
is_label label e = e.label == label

unfoldable pub find : Labels → ℕ → Option Entry
unfolding first_where slot_of
find s label = first_where (is_label label) (s.table (slot_of label))

unfoldable pub exists_in : List Entry → ℕ → Bool
exists_in [] label = false
exists_in (e ∷ es) label = let rest = exists_in es label in if e.label == label then true else rest

unfoldable pub exists : Labels → ℕ → Bool
unfolding exists_in slot_of
exists s label = exists_in (s.table (slot_of label)) label

-- A label that is not found gets the next number.
unfoldable pub add_label : Bool → ℕ → Labels → Option ℕ × Labels
unfolding link slot_of
add_label room label s =
    if room
    then if ltb s.count pool_size
      then (
        some s.count,
        record {
          table = link (slot_of label) (record { label = label; idx = s.count }) s.table;
          count = s.count + 1;
        },
      )
      else (none, s)
    else (none, s)

unfoldable pub get_label_id : Bool → ℕ → Labels → Option ℕ × Labels
unfolding find add_label
get_label_id room label s = elim (find s label) [
  | some e ↦ (some e.idx, s)
  | none ↦ add_label room label s
]
