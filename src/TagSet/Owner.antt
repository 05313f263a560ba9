-- ===== src/TagSet/Owner.antt =====
-- Sets that are shared are copied before they are modified; who holds which reference.
use adam.Base.{
  ℕ, ◌+◌, ◌-◌, ◌%◌, ◌^◌, ◌<◌, ◌≤◌, false, ◌≡◌, ◌≢◌, refl, ◌∙◌, ap, Option, none, some, List, [],
  ◌∷◌, ◌==◌, ltb, if◌then◌else◌, length, arith, bit_xor, Bool-cases, inl, inr, Option-cases,
}
use adam.TagSet.{
  TagSet, State, change_resolution, duplicate, rewrite_item, item_at, set_resol, write,
}
use adam.TagSet.Items.{Item, item, item_hashcode, hash_items, hash_init, position}
use adam.TagSet.Order.{Sorted}
use adam.TagSet.Search.{find_index, position-find_index}
use adam.TagSet.Hash.{hash_items-set_resol}

-- A run without fault, with what holds of its result and final state.
abbrev pub Ensures : {A : Type 0} → (A → State → Type 0) → Option (A × State) → Type 0
Ensures P none = ⊥
Ensures P (some (a, s)) = P a s

-- A set on the heap whose items are in order and hashed.
pub record Holds (s : State) (p : ℕ) (t : TagSet) : Type 0 where
  pub at : s.heap p ≡ some t
  pub ne_null : p ≢ 0
  pub counted : (0 < t.refcnt) × (t.refcnt < 2 ^ 32)
  pub sorted : Sorted 0 t.items
  pub hashed : t.hashcode ≡ hash_items hash_init t.items

-- An address that `malloc` may return.
pub record IsFree (s : State) (p : ℕ) : Type 0 where
  pub at : s.heap p ≡ none
  pub ne_null : p ≢ 0

-- The copy, with the index of the original, and the original with a reference less.
copy_of : TagSet → TagSet
copy_of t = record { id = t.id; refcnt = 0; hashcode = t.hashcode; items = t.items }

less : TagSet → Option TagSet
less t =
    let n = (t.refcnt + 2 ^ 32 - 1) % 2 ^ 32 in
    if n == 0 then none else some (record t { refcnt = n })

copied_state : State → ℕ → ℕ → TagSet → State
copied_state s fresh set t =
    let blank : TagSet = record {
      id = s.next_set_idx;
      refcnt = 0;
      hashcode = hash_init;
      items = [];
    } in
    let full : TagSet = record {
      id = s.next_set_idx;
      refcnt = 0;
      hashcode = t.hashcode;
      items = t.items;
    } in
    let h = write (write s.heap fresh (some blank)) fresh (some full) in
    let h = write h fresh (some (copy_of t)) in
    let h = write h set (less t) in
    record s {
      heap = write h fresh (some (record t { refcnt = 1 }));
      next_set_idx = (s.next_set_idx + 1) % 2 ^ 32;
    }

duplicate_runs :
    (s : State) (fresh set : ℕ) (t : TagSet)
    → Holds s set t
    → IsFree s fresh
    → duplicate fresh set false s ≡ some (fresh, copied_state s fresh set t)
unfolding duplicate copied_state copy_of less
duplicate_runs s fresh set t h f =
    let apart : fresh ≢ set = λ e. ground (arith, h.at, f.at) in ground arith

find_index-lt : (xs : List Item) (t l : ℕ) → find_index xs t ≡ some l → l < length xs
find_index-lt [] t l e = cc
find_index-lt (x ∷ xs) t l e = elim (Option-cases (find_index xs t)) [
  | inl away ↦ ground (arith, away)
  | inr (k, there) ↦ ground (arith, there, find_index-lt xs t k there)
]

-- What `change_resolution` leaves behind when the tag is there, at index `l`.
pub record Changed (s : State) (fresh set l value : ℕ) (t : TagSet) (p : ℕ) (s' : State)
    : Type 0 where
  -- a set in use elsewhere is copied, and loses the caller's reference
  pub shared :
      1 < t.refcnt → (p ≡ fresh) × (s'.heap set ≡ some (record t { refcnt = t.refcnt - 1 }))
  pub alone : t.refcnt ≤ 1 → p ≡ set
  pub result :
      (h : ℕ) × (s'.heap p
        ≡ some (record { id = t.id; refcnt = 1; hashcode = h; items = set_resol t.items l value }))
      × (h ≡ hash_items hash_init (set_resol t.items l value))
  pub others : (q : ℕ) → q ≢ set → q ≢ fresh → s'.heap q ≡ s.heap q

module _ (s : State) (fresh set tag value l : ℕ) (t : TagSet) (h : Holds s set t)
    (f : IsFree s fresh) where
  found : find_index t.items tag ≡ some l → position t.items tag ≡ some (some l)
  found e = position-find_index 0 t.items tag h.sorted ∙ ap some e

  written : State → ℕ → TagSet → State
  written s' p u = record s' { heap = write s'.heap p (some (rewrite_item u l value)) }

  change_runs :
      position t.items tag ≡ some (some l)
      → change_resolution fresh set tag value s ≡ (
          if ltb 1 t.refcnt
          then some (fresh, written (copied_state s fresh set t) fresh (record t { refcnt = 1 }))
          else some (set, written s set t))
  unfolding change_resolution written copied_state copy_of less
  change_runs e = let apart : fresh ≢ set = λ e. ground (arith, h.at, f.at) in ground (arith, e)

  rehash :
      find_index t.items tag ≡ some l
      → (rewrite_item t l value).hashcode ≡ hash_items hash_init (set_resol t.items l value)
  unfolding rewrite_item
  rehash e =
      ap
        (λ (u : ℕ).
          bit_xor (bit_xor u (item_hashcode (item_at t.items l)))
            (item_hashcode (item (item_at t.items l).tid value)))
        h.hashed
      ∙ hash_items-set_resol hash_init t.items l value (find_index-lt t.items tag l e)

  -- With the tag in the set, at index `l`, the call gives a set with the new resolution there and
  -- the right hash: the set itself if nobody else uses it, else a copy with one reference, and
  -- the original as it was with one reference less. No other set changes.
  pub change_resolution-Changed :
      find_index t.items tag ≡ some l
      → (p : ℕ) × (s' : State) × (change_resolution fresh set tag value s ≡ some (p, s'))
        × Changed s fresh set l value t p s'
  unfolding written copied_state copy_of less rewrite_item
  change_resolution-Changed e =
      let apart : fresh ≢ set = λ k. ground (arith, h.at, f.at) in
      elim (Bool-cases (ltb 1 t.refcnt)) [
        | inl shared ↦ (
          fresh,
          written (copied_state s fresh set t) fresh (record t { refcnt = 1 }),
          change_runs (found e) ∙ rw shared refl,
          record {
            shared = λ k. (refl, ground arith);
            alone = λ k. absurd (ground arith);
            result = ((rewrite_item t l value).hashcode, ground arith, rehash e);
            others = λ q a b. ground arith;
          },
        )
        | inr alone ↦ (
          set,
          written s set t,
          change_runs (found e) ∙ rw alone refl,
          record {
            shared = λ k. absurd (ground arith);
            alone = λ k. refl;
            result = ((rewrite_item t l value).hashcode, ground arith, rehash e);
            others = λ q a b. ground arith;
          },
        )
      ]

  absent : find_index t.items tag ≡ none → position t.items tag ≡ some none
  absent e = position-find_index 0 t.items tag h.sorted ∙ ap some e

  undone : State
  undone =
      let s' = copied_state s fresh set t in
      let n = (t.refcnt + 2 ^ 32 - 1) % 2 ^ 32 in
      record s' {
        heap = write (write s'.heap fresh none) set (some (record t { refcnt = (n + 1) % 2 ^ 32 }));
      }

  missing_runs :
      position t.items tag ≡ some none
      → change_resolution fresh set tag value s
        ≡ (if ltb 1 t.refcnt then some (0, undone) else some (0, s))
  unfolding change_resolution undone copied_state copy_of less
  missing_runs e = let apart : fresh ≢ set = λ e. ground (arith, h.at, f.at) in ground (arith, e)

  -- Without the tag in the set the call gives NULL, and every set is as it was: a copy that was
  -- made is given back.
  pub change_resolution_missing :
      find_index t.items tag ≡ none
      → (s' : State) × (change_resolution fresh set tag value s ≡ some (0, s'))
        × ((q : ℕ) → s'.heap q ≡ s.heap q)
  unfolding undone copied_state copy_of less
  change_resolution_missing e =
      let apart : fresh ≢ set = λ k. ground (arith, h.at, f.at) in
      elim (Bool-cases (ltb 1 t.refcnt)) [
        | inl shared ↦
            (undone, missing_runs (absent e) ∙ rw shared refl, λ q. ground (arith, h.at, f.at))
        | inr alone ↦ (s, missing_runs (absent e) ∙ rw alone refl, λ q. refl)
      ]
