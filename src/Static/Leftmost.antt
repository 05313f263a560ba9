-- ===== src/Static/Leftmost.antt =====
-- The inner loop of `_cesk_static_tree_next`: it ends at the first field below a node.
use adam.Base.{
  ℕ, zero, suc, ◌-◌, ◌≤◌, ◌≡◌, ◌≢◌, refl, sym, ◌∙◌, ap, subst, Bool, true, false, ◌&&◌, Option,
  none, some, List, [], ◌∷◌, ◌++◌, ◌==◌, ltb, arith, Bool-cases, inl, inr, ==_refl,
}
use mathlib.Core.Option.{some-injective}
use adam.CeskSet.Methods.{Handle}
use adam.Static.{Body, leaf, inner, Node, Statics, middle, set_node}
use adam.Static.Shape.{Tree, bare, field, branch, body_at, Leads, Holds, value_at, children-body}
use adam.Static.Extend.{node-body_at, body_at-set_node}
use adam.Static.Ready.{value_at-leaf}
use adam.Static.Iterate.{is_leaf, leftmost}
use adam.Static.Entries.{Entry, entries, is_bare, Proper, Splits}

-- The children of a node are different nodes.
abbrev pub Forks : Statics → Type 0
Forks s = (p q : ℕ) → body_at s p ≢ some (inner (some q) (some q))

abbrev pub twins : Body → Bool
twins (leaf v) = false
twins (inner none d) = false
twins (inner (some p) none) = false
twins (inner (some p) (some q)) = p == q

pub Forks-set_node :
    (s : Statics) (p : ℕ) (n : Node)
    → twins n.body ≡ false
    → Forks s
    → Forks (set_node p (some n) s)
Forks-set_node s p n apart forks x q h = elim (Bool-cases (x == p)) [
  | inl y ↦
      let same : n.body ≡ inner (some q) (some q) =
        some-injective n.body (inner (some q) (some q))
          (sym (body_at-set_node s p x n ∙ rw y refl) ∙ h) in
      absurd (ground (arith, apart, ap twins same, ==_refl q))
  | inr o ↦ forks x q (sym (body_at-set_node s p x n ∙ rw o refl) ∙ h)
]

pub is_leaf-leaf :
    (s : Statics) (p : ℕ) (v : Handle) → body_at s p ≡ some (leaf v) → is_leaf s p ≡ some true
unfolding is_leaf
is_leaf-leaf s p v h =
    let (n, here, same) = node-body_at s p (leaf v) h in ground (arith, here, same)

pub is_leaf-inner :
    (s : Statics) (p : ℕ) (c d : Option ℕ)
    → body_at s p ≡ some (inner c d)
    → is_leaf s p ≡ some false
unfolding is_leaf
is_leaf-inner s p c d h =
    let (n, here, same) = node-body_at s p (inner c d) h in ground (arith, here, same)

pub Holds-Splits :
    (s : Statics) (l r : ℕ) (p : Option ℕ) (t : Tree) → Holds s l r p t → Splits l r t
Holds-Splits s l r p bare h = tt
Holds-Splits s l r p (field v) h = tt
Holds-Splits s l r p (branch t u) (wide, c, d, k, left, right) = (
  ground (arith, wide),
  Holds-Splits s l (middle l r) c t left,
  Holds-Splits s (middle l r) r d u right,
)

-- Where the tree of a pointer has a field, the first one is found.
abbrev pub FirstBelow : Statics → ℕ → ℕ → ℕ → ℕ → Tree → Type 0
FirstBelow s fuel l r p t =
    (e : Entry) × (es : List Entry) × (q : ℕ) × (entries l r t ≡ e ∷ es)
    × (leftmost s fuel l r p ≡ some (e.0, q))
    × (value_at s (some q) ≡ some (some e.1))

leftmost-field :
    (s : Statics) (fuel l r p : ℕ) (v : Handle)
    → body_at s p ≡ some (leaf v)
    → FirstBelow s fuel l r p (field v)
unfolding leftmost entries
leftmost-field s zero l r p v at =
    ((l, v), [], p, refl, ground (arith, is_leaf-leaf s p v at), value_at-leaf s p v at)
leftmost-field s (suc fuel) l r p v at =
    ((l, v), [], p, refl, ground (arith, is_leaf-leaf s p v at), value_at-leaf s p v at)

leftmost-left :
    (s : Statics) (fuel l r p q : ℕ) (d : Option ℕ) (t u : Tree)
    → body_at s p ≡ some (inner (some q) d)
    → FirstBelow s fuel l (middle l r) q t
    → FirstBelow s (suc fuel) l r p (branch t u)
unfolding leftmost entries
leftmost-left s fuel l r p q d t u at (e, es, x, shape, run, value) = (
  e,
  es ++ entries (middle l r) r u,
  x,
  ap (λ (ys : List Entry). ys ++ entries (middle l r) r u) shape,
  ground (arith, is_leaf-inner s p (some q) d at, children-body s p (some q) d at, run),
  value,
)

leftmost-right :
    (s : Statics) (fuel l r p q : ℕ) (u : Tree)
    → body_at s p ≡ some (inner none (some q))
    → FirstBelow s fuel (middle l r) r q u
    → FirstBelow s (suc fuel) l r p (branch bare u)
unfolding leftmost entries
leftmost-right s fuel l r p q u at (e, es, x, shape, run, value) = (
  e,
  es,
  x,
  shape,
  ground (arith, is_leaf-inner s p none (some q) at, children-body s p none (some q) at, run),
  value,
)

-- The fuel is at least the width of the segment.
pub no_fuel : (l r : ℕ) → ltb 1 (r - l) ≡ true → r - l ≤ 0 → (A : Type 0) → A
no_fuel l r wide enough A = absurd (ground (arith, wide, enough))

pub half_fuel :
    (l r fuel : ℕ)
    → ltb 1 (r - l) ≡ true
    → r - l ≤ suc fuel
    → (middle l r - l ≤ fuel) × (r - middle l r ≤ fuel)
half_fuel l r fuel wide enough = (ground (arith, wide, enough), ground (arith, wide, enough))

pub target_is : (s : Statics) (p : ℕ) (b : Body) → Leads s (some p) b → body_at s p ≡ some b
target_is s p b k = ap (body_at s) (some-injective p k.target k.pointer) ∙ k.body

pub bare-null : (s : Statics) (l r : ℕ) (t : Tree) → Holds s l r none t → is_bare t ≡ true
bare-null s l r bare h = refl
bare-null s l r (field v) (_, k, _) = absurd (ground (arith, k.pointer))
bare-null s l r (branch t u) (_, c, d, k, _, _) = absurd (ground (arith, k.pointer))

pub is-bare : (t : Tree) → is_bare t ≡ true → t ≡ bare
is-bare bare h = refl
is-bare (field v) h = absurd (ground (arith, h))
is-bare (branch t u) h = absurd (ground (arith, h))

leftmost_branch :
    (s : Statics) (fuel l r p : ℕ) (c d : Option ℕ) (t u : Tree)
    → body_at s p ≡ some (inner c d)
    → Holds s l (middle l r) c t
    → Holds s (middle l r) r d u
    → (is_bare t && is_bare u) ≡ false
    → ((q : ℕ) → c ≡ some q → FirstBelow s fuel l (middle l r) q t)
    → ((q : ℕ) → d ≡ some q → FirstBelow s fuel (middle l r) r q u)
    → FirstBelow s (suc fuel) l r p (branch t u)
leftmost_branch s fuel l r p (some q) d t u at left right one first second =
    leftmost-left s fuel l r p q d t u at (first q refl)
leftmost_branch s fuel l r p none (some q) t u at left right one first second =
    subst (λ x. FirstBelow s (suc fuel) l r p (branch x u))
      (sym (is-bare t (bare-null s l (middle l r) t left)))
      (leftmost-right s fuel l r p q u at (second q refl))
leftmost_branch s fuel l r p none none t u at left right one first second =
    let t_bare = bare-null s l (middle l r) t left in
    let u_bare = bare-null s (middle l r) r u right in absurd (ground (arith, one, t_bare, u_bare))

pub leftmost-Holds :
    (s : Statics) (fuel l r p : ℕ) (t : Tree)
    → Holds s l r (some p) t
    → Proper t
    → r - l ≤ fuel
    → FirstBelow s fuel l r p t
leftmost-Holds s fuel l r p bare h proper enough = absurd (ground (arith, h))
leftmost-Holds s fuel l r p (field v) (narrow, k, alive) proper enough =
    leftmost-field s fuel l r p v (target_is s p (leaf v) k)
leftmost-Holds s zero l r p (branch t u) h proper enough =
    no_fuel l r h.0 enough (FirstBelow s zero l r p (branch t u))
leftmost-Holds s (suc fuel) l r p (branch t u) (wide, c, d, k, left, right) (pt, pu, one) enough =
    let (low, high) = half_fuel l r fuel wide enough in
    leftmost_branch s fuel l r p c d t u (target_is s p (inner c d) k) left right one
      (λ q at.
        leftmost-Holds s fuel l (middle l r) q t (subst (λ x. Holds s l (middle l r) x t) at left)
          pt low)
      (λ q at.
        leftmost-Holds s fuel (middle l r) r q u (subst (λ x. Holds s (middle l r) r x u) at right)
          pu high)
