-- ===== src/Static/Shape.antt =====
-- The segment tree that a pointer leads to, without the references to its nodes.
use adam.Base.{
  ℕ, ◌-◌, ◌^◌, ◌<◌, ◌≤◌, ◌≡◌, refl, sym, ◌∙◌, ap, true, false, Option, none, some, ltb, arith,
  Option-cases, inl, inr,
}
use mathlib.Core.Option.{some-injective}
use adam.CeskSet
use adam.CeskSet.{find_info}
use adam.CeskSet.Methods.{Handle}
use adam.Static.{Body, leaf, inner, Node, Statics, middle, children, find}

pub data Tree : Type 0 where
  bare : Tree
  field : Handle → Tree
  branch : Tree → Tree → Tree

unfoldable pub body_at : Statics → ℕ → Option Body
body_at s p = elim (s.node p) [ none ↦ none | some n ↦ some n.body ]

-- A set pointer that `cesk_set_fork` accepts.
abbrev pub Live : CeskSet.Sets → Handle → Type 0
Live t none = Unit
Live t (some idx) = (i : CeskSet.Info) × (find_info t idx ≡ some i)

pub record Leads (s : Statics) (p : Option ℕ) (b : Body) : Type 0 where
  pub target : ℕ
  pub pointer : p ≡ some target
  pub body : body_at s target ≡ some b

abbrev pub Holds : Statics → ℕ → ℕ → Option ℕ → Tree → Type 0
Holds s l r p bare = p ≡ none
Holds s l r p (field v) = (ltb 1 (r - l) ≡ false) × Leads s p (leaf v) × Live s.sets v
Holds s l r p (branch t u) =
    (ltb 1 (r - l) ≡ true)
    × (c d : Option ℕ) × Leads s p (inner c d)
    × Holds s l (middle l r) c t
    × Holds s (middle l r) r d u

-- No node from the next one on is in use.
abbrev pub Fresh : Statics → Type 0
Fresh s = (p : ℕ) → s.next ≤ p → s.node p ≡ none

-- A counter has 30 bits.
abbrev pub Fits : Statics → Type 0
Fits s = (p : ℕ) (n : Node) → s.node p ≡ some n → n.refcnt < 2 ^ 30

-- The value of a field, as the map from indices that the tree stands for.
unfoldable pub lookup : ℕ → ℕ → Tree → ℕ → Option Handle
lookup l r bare idx = none
lookup l r (field v) idx = some v
lookup l r (branch t u) idx = elim (ltb idx (middle l r)) [
  | true ↦ lookup l (middle l r) t idx
  | false ↦ lookup (middle l r) r u idx
]

-- The value at a pointer that a search gave.
unfoldable pub value_at : Statics → Option ℕ → Option (Option Handle)
unfolding body_at
value_at s none = some none
value_at s (some p) = elim (body_at s p) [
  | none ↦ none
  | some b ↦ elim b [ leaf v ↦ some (some v) | inner c d ↦ none ]
]

-- What the search for a field gives, up to the value.
unfoldable pub read : Statics → ℕ → Option ℕ → ℕ → Option (Option Handle)
unfolding find value_at
read s count root idx = elim (find s count 0 count root idx) [ none ↦ none | some p ↦ value_at s p ]

pub children-body :
    (s : Statics) (p : ℕ) (c d : Option ℕ)
    → body_at s p ≡ some (inner c d)
    → children s p ≡ some (c, d)
unfolding body_at children
children-body s p c d h = elim (Option-cases (s.node p)) [
  | inl lost ↦ absurd (ground (arith, h, lost))
  | inr (n, at) ↦
      let b : n.body ≡ inner c d =
        some-injective n.body (inner c d)
          (sym (ap (λ (o : Option Node). elim o [ none ↦ none | some m ↦ some m.body ]) at) ∙ h) in
      rw (children, at, b) refl
]
