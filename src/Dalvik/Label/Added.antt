-- ===== src/Dalvik/Label/Added.antt =====
-- The numbers of labels after one is added.
use adam.Base.{
  ℕ, ◌+◌, ◌<◌, ◌≤◌, ◌≡◌, refl, ◌∙◌, ap, inl, inr, Bool, true, false, ◌&&◌, Option, none, some, ◌==◌,
  if◌then◌else◌, arith, Bool-cases,
}
use mathlib.Core.Option
use mathlib.Core.Option.{some-injective}
use adam.Base.Chains.{link, first_where-link}
use adam.Dalvik.Label.{pool_size, Entry, Labels, slot_of, is_label, find}

-- The number that a label has.
abbrev pub number : Labels → ℕ → Option ℕ
number s label = Option.map (λ e. e.idx) (find s label)

abbrev pub is_some : {A : Type 0} → Option A → Bool
is_some none = false
is_some (some a) = true

-- The numbers are below the count, and each belongs to one label.
pub record IsNumbering (s : Labels) : Type 0 where
  pub room : s.count ≤ pool_size
  pub below : (l k : ℕ) → number s l ≡ some k → k < s.count
  pub injective : (l m k : ℕ) → number s l ≡ some k → number s m ≡ some k → l ≡ m

abbrev pub added : ℕ → Labels → Labels
added label s = record {
  table = link (slot_of label) (record { label = label; idx = s.count }) s.table;
  count = s.count + 1;
}

meets : (label m : ℕ) → ((slot_of m == slot_of label) && (label == m)) ≡ (m == label)
meets label m = elim (Bool-cases (m == label)) [
  | inl y ↦ let same : m ≡ label = ground (arith, y) in rw same (ground arith)
  | inr n ↦ ground (arith, n)
]

find-added :
    (s : Labels) (label m : ℕ)
    → find (added label s) m
      ≡ (if m == label then some (record { label = label; idx = s.count }) else find s m)
unfolding find
find-added s label m =
    let new : Entry = record { label = label; idx = s.count } in
    first_where-link (is_label m) (slot_of label) (slot_of m) new s.table
    ∙ ap (λ (c : Bool). if c then some new else find s m) (meets label m)

pub number-added :
    (s : Labels) (label m : ℕ)
    → number (added label s) m ≡ (if m == label then some s.count else number s m)
number-added s label m = elim (Bool-cases (m == label)) [
  | inl y ↦ rw y (ap (Option.map (λ e. e.idx)) (find-added s label m) ∙ rw y refl)
  | inr n ↦ rw n (ap (Option.map (λ e. e.idx)) (find-added s label m) ∙ rw n refl)
]
