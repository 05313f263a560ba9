-- ===== src/Static/Visit.antt =====
-- The loops over all fields of a table: they end, and visit the fields in the order of their indices.
use adam.Base.{
  ℕ, zero, suc, ◌+◌, ◌-◌, ◌%◌, ◌^◌, ◌<◌, ◌≤◌, ◌≡◌, ◌⊎◌, refl, sym, ◌∙◌, ap, subst, true, false,
  Option, none, some, List, [], ◌∷◌, ◌++◌, ltb, arith, Bool-cases, Option-cases, inl, inr,
  if◌then◌else◌, bit_or,
}
use mathlib.Core.Option.{some-injective}
use adam.CeskSet.Methods.{Handle}
use adam.Static.{Body, leaf, inner, Node, Statics, middle}
use adam.Static.Shape.{Tree, bare, field, branch, body_at, Holds, value_at}
use adam.Static.Table.{static_prefix, value_of}
use adam.Static.Iterate.{Iter, next, iter_next, visit}
use adam.Static.Entries.{Entry, entries, first_from, Proper, Splits, Within, entries-Within}
use adam.Static.Leftmost.{Forks, Holds-Splits}
use adam.Static.Next.{next-first_from}

-- The entries from an index on.
unfoldable pub from : ℕ → List Entry → List Entry
from start [] = []
from start (e ∷ es) = let rest = from start es in if ltb e.0 start then rest else e ∷ es

abbrev pub Rising : ℕ → List Entry → Type 0
Rising a [] = Unit
Rising a (e ∷ es) = (a ≤ e.0) × Rising (e.0 + 1) es

Rising-append :
    (a l b : ℕ) (xs ys : List Entry)
    → Rising a xs
    → Within l b xs
    → a ≤ b
    → Rising b ys
    → Rising a (xs ++ ys)
Rising-append a l b [] [] h k le h' = tt
Rising-append a l b [] (y ∷ ys) h k le (low, h') = (omega (arith, le, low), h')
Rising-append a l b (x ∷ xs) ys (low, h) (_, high, k) le h' =
    (low, Rising-append (x.0 + 1) l b xs ys h k (omega (arith, high)) h')

entries-Rising : (l r : ℕ) (t : Tree) → Splits l r t → Rising l (entries l r t)
unfolding entries
entries-Rising l r bare h = tt
entries-Rising l r (field v) h = (omega arith, tt)
entries-Rising l r (branch t u) (wide, left, right) =
    Rising-append l l (middle l r) (entries l (middle l r) t) (entries (middle l r) r u)
      (entries-Rising l (middle l r) t left)
      (entries-Within l (middle l r) t (omega (arith, wide)) left) (omega (arith, wide))
      (entries-Rising (middle l r) r u right)

from-low : (a start : ℕ) (es : List Entry) → Rising a es → start ≤ a → from start es ≡ es
unfolding from
from-low a start [] h le = refl
from-low a start (e ∷ es) (low, h) le =
    let after : ltb e.0 start ≡ false = ground (arith, low, le) in rw (from, after) refl

from-none : (start : ℕ) (es : List Entry) → first_from start es ≡ none → from start es ≡ []
unfolding from first_from
from-none start [] h = refl
from-none start (e ∷ es) h = elim (Bool-cases (ltb e.0 start)) [
  | inl y ↦ rw (from, y) (from-none start es (ground (arith, h, y)))
  | inr n ↦ absurd (ground (arith, h, n))
]

from-some :
    (a start : ℕ) (es : List Entry) (e : Entry)
    → Rising a es
    → first_from start es ≡ some e
    → (from start es ≡ e ∷ from (e.0 + 1) es) × (start ≤ e.0)
unfolding from first_from
from-some a start [] e h k = absurd (ground (arith, k))
from-some a start (x ∷ es) e (low, h) k = elim (Bool-cases (ltb x.0 start)) [
  | inl y ↦
      let (shape, le) = from-some (x.0 + 1) start es e h (ground (arith, k, y)) in
      let skip : ltb x.0 (e.0 + 1) ≡ true = ground (arith, y, le) in (rw (from, y, skip) shape, le)
  | inr n ↦
      let same : x ≡ e = some-injective x e (ground (arith, k, n)) in
      let skip : ltb x.0 (e.0 + 1) ≡ true =
        subst (λ (z : Entry). ltb x.0 (z.0 + 1) ≡ true) same (ground arith) in
      let tail =
        from-low (x.0 + 1) (e.0 + 1) es h
          (subst (λ (z : Entry). z.0 + 1 ≤ x.0 + 1) same (omega arith)) in
      (
        rw (from, n, skip, tail) (ap (λ (z : Entry). z ∷ es) same),
        subst (λ (z : Entry). start ≤ z.0) same (ground (arith, n)),
      )
]

pub value_of-value_at :
    (s : Statics) (p : ℕ) (v : Handle)
    → value_at s (some p) ≡ some (some v)
    → value_of p s ≡ some (v, s)
unfolding value_of value_at body_at
value_of-value_at s p v h = elim (Option-cases (s.node p)) [
  | inl lost ↦ absurd (ground (arith, h, lost))
  | inr (n, here) ↦ go n here n.body refl
]
  where
    go : (n : Node) → s.node p ≡ some n → (b : Body) → n.body ≡ b → value_of p s ≡ some (v, s)
    go n here (leaf w) is_leaf =
        let same : w ≡ v =
          some-injective w v
            (some-injective (some w) (some v) (ground (arith, h, here, is_leaf))) in
        ground (arith, here, is_leaf, same)
    go n here (inner c d) is_inner = absurd (ground (arith, h, here, is_inner))

-- All values are sets.
abbrev pub AllSets : List Entry → Type 0
AllSets [] = Unit
AllSets (e ∷ es) = (idx : ℕ) × (e.1 ≡ some idx) × AllSets es

-- The fields with their addresses, as the loops see them.
unfoldable pub shown : List Entry → List (ℕ × Handle)
shown [] = []
shown (e ∷ es) = (bit_or static_prefix e.0, e.1) ∷ shown es

from-AllSets : (start : ℕ) (es : List Entry) → AllSets es → AllSets (from start es)
unfolding from
from-AllSets start [] h = tt
from-AllSets start (e ∷ es) (idx, set, h) = elim (Bool-cases (ltb e.0 start)) [
  | inl y ↦ rw (from, y) (from-AllSets start es h)
  | inr n ↦ rw (from, n) (idx, set, h)
]

first_from-Within :
    (a b start : ℕ) (es : List Entry) (e : Entry)
    → Within a b es
    → first_from start es ≡ some e
    → e.0 < b
unfolding first_from
first_from-Within a b start [] e h k = absurd (ground (arith, k))
first_from-Within a b start (x ∷ es) e (low, high, h) k = elim (Bool-cases (ltb x.0 start)) [
  | inl y ↦ first_from-Within a b start es e h (ground (arith, k, y))
  | inr n ↦
      let same : x ≡ e = some-injective x e (ground (arith, k, n)) in
      subst (λ (z : Entry). z.0 < b) same high
]

module _ (s : Statics) (count : ℕ) (h : ℕ) (root : Option ℕ) (t : Tree) where
  at : ℕ → Iter
  at begin = record { table = record { hashcode = h; root = root }; begin = begin }

  stop :
      (fuel begin : ℕ)
      → next s count 0 count root begin [] ≡ some none
      → visit count (suc fuel) (at begin) s ≡ some ([], s)
  unfolding at visit iter_next
  stop fuel begin run = ground (arith, run)

  go_on :
      (fuel begin i p idx : ℕ) (rest : List (ℕ × Handle))
      → next s count 0 count root begin [] ≡ some (some (i, p))
      → value_at s (some p) ≡ some (some (some idx))
      → i + 1 < 2 ^ 32
      → visit count fuel (at (i + 1)) s ≡ some (rest, s)
      → visit count (suc fuel) (at begin) s ≡ some ((bit_or static_prefix i, some idx) ∷ rest, s)
  unfolding at visit iter_next
  go_on fuel begin i p idx rest run value small tail =
      let wrap : (i + 1) % 2 ^ 32 ≡ i + 1 = omega (arith, small) in
      ground (arith, run, value_of-value_at s p (some idx) value, wrap, tail)

  -- What a search from `begin` on gives, in terms of the entries.
  Searched : ℕ → Type 0
  Searched begin =
      ((e : Entry) × (q idx : ℕ) × (next s count 0 count root begin [] ≡ some (some (e.0, q)))
        × (value_at s (some q) ≡ some (some (some idx)))
        × (e.1 ≡ some idx)
        × (from begin (entries 0 count t) ≡ e ∷ from (e.0 + 1) (entries 0 count t))
        × (begin ≤ e.0)
        × (e.0 < count))
      ⊎ ((next s count 0 count root begin [] ≡ some none) × (from begin (entries 0 count t) ≡ []))

  module _ (forks : Forks s) (held : Holds s 0 count root t) (proper : Proper t)
      (sets : AllSets (entries 0 count t)) (some_field : 0 < count) (few : count < 2 ^ 32) where
    searched : (begin : ℕ) → Searched begin
    unfolding Searched
    searched begin =
        let es = entries 0 count t in
        let splits = Holds-Splits s 0 count root t held in
        elim (next-first_from s count begin root t forks held proper) [
          | inr (nothing, run) ↦ inr (run, from-none begin es nothing)
          | inl (e, q, first, run, value) ↦
              let (shape, le) = from-some 0 begin es e (entries-Rising 0 count t splits) first in
              let (idx, set, _) = subst AllSets shape (from-AllSets begin es sets) in
              inl (
                e,
                q,
                idx,
                run,
                value ∙ ap (λ (v : Handle). some (some v)) set,
                set,
                shape,
                le,
                first_from-Within 0 count begin es e (entries-Within 0 count t some_field splits)
                    first,
              )
        ]

    visit-from :
        (fuel begin : ℕ)
        → count - begin ≤ fuel
        → visit count (suc fuel) (at begin) s ≡ some (shown (from begin (entries 0 count t)), s)
    unfolding shown Searched
    visit-from zero begin enough = elim (searched begin) [
      | inr (run, empty) ↦ stop zero begin run ∙ ap (λ xs. some (shown xs, s)) (sym empty)
      | inl (e, q, idx, run, value, set, shape, le, below) ↦
          absurd (omega (arith, le, below, enough))
    ]
    visit-from (suc fuel) begin enough = elim (searched begin) [
      | inr (run, empty) ↦ stop (suc fuel) begin run ∙ ap (λ xs. some (shown xs, s)) (sym empty)
      | inl (e, q, idx, run, value, set, shape, le, below) ↦
          let others = from (e.0 + 1) (entries 0 count t) in
          go_on (suc fuel) begin e.0 q idx (shown others) run value (omega (arith, below, few))
            (visit-from fuel (e.0 + 1) (omega (arith, le, below, enough)))
          ∙ ap (λ v. some ((bit_or static_prefix e.0, v) ∷ shown others, s)) (sym set)
          ∙ ap (λ xs. some (shown xs, s)) (sym shape)
    ]

-- A loop over all fields of a table ends after at most as many rounds as there are static fields
-- and one, leaves the state, and visits each field of the table once, in the order of the indices.
-- It takes that the root leads to a segment tree without a node that has no field below it, that no
-- node in the store has one node as both children, that all values are sets and that there are
-- between 1 and 2 ^ 32 - 1 static fields.
pub visit-entries :
    (s : Statics) (count h : ℕ) (root : Option ℕ) (t : Tree)
    → Forks s
    → Holds s 0 count root t
    → Proper t
    → AllSets (entries 0 count t)
    → 0 < count
    → count < 2 ^ 32
    → visit count (suc count) (record { table = record { hashcode = h; root = root }; begin = 0 }) s
      ≡ some (shown (entries 0 count t), s)
unfolding at
visit-entries s count h root t forks held proper sets some_field few =
    visit-from s count h root t forks held proper sets some_field few count 0 (omega arith)
    ∙ ap (λ xs. some (shown xs, s))
        (from-low 0 0 (entries 0 count t)
          (entries-Rising 0 count t (Holds-Splits s 0 count root t held)) (omega arith))
