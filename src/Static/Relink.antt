-- ===== src/Static/Relink.antt =====
-- A reference is set to a copy of the node that it leads to.
use adam.Base.{
  ℕ, ◌-◌, ◌≡◌, refl, sym, ◌∙◌, ap, subst, Bool, true, false, Option, none, some, ◌==◌, ltb, arith,
  Bool-cases, inl, inr, ==_refl,
}
use mathlib.Core.Option.{some-injective}
use adam.Static.{Body, leaf, inner, Node, Statics, middle, set_node, with_child}
use adam.Static.Shape.{Tree, bare, field, branch, body_at, Holds}
use adam.Static.Extend.{Keeps, body_at-set_node, body_at-node, Fresh-set_node, Fits-set_node}
use adam.Static.Acyclic.{Holds-copy}

-- The child that a slot of a node holds.
abbrev pub child : Body → Bool → Option ℕ
child (leaf v) right = none
child (inner c d) false = c
child (inner c d) true = d

-- The references of the node at `w` after one is set to `q`.
abbrev pub relinked : Statics → ℕ → Node → Bool → ℕ → Statics
relinked s w n right q = set_node w (some (record n { body = with_child n.body right (some q) })) s

body_at-relinked :
    (s : Statics) (w : ℕ) (n : Node) (right : Bool) (q x : ℕ) (b : Body)
    → body_at s x ≡ some b
    → (x == w) ≡ false
    → body_at (relinked s w n right q) x ≡ some b
body_at-relinked s w n right q x b h other =
    body_at-set_node s w x (record n { body = with_child n.body right (some q) }) ∙ rw other h

body_at-parent :
    (s : Statics) (w : ℕ) (n : Node) (right : Bool) (q : ℕ) (b : Body)
    → n.body ≡ b
    → body_at (relinked s w n right q) w ≡ some (with_child b right (some q))
body_at-parent s w n right q b h =
    body_at-set_node s w w (record n { body = with_child n.body right (some q) })
    ∙ rw (==_refl w, h) refl

module _ (s : Statics) (w : ℕ) (n : Node) (right : Bool) (p q : ℕ) (b : Body)
    (here : s.node w ≡ some n) (old : child n.body right ≡ some p) (at : body_at s p ≡ some b)
    (copy : body_at s q ≡ some b) where
  Holds-branch :
      (l r : ℕ) (side : Bool) (c d : Option ℕ) (t u : Tree)
      → child (inner c d) side ≡ some p
      → n.body ≡ inner c d
      → ltb 1 (r - l) ≡ true
      → side ≡ right
      → ((c' : Option ℕ)
          → Holds s l (middle l r) c' t
          → Holds (relinked s w n right q) l (middle l r) c' t)
      → ((d' : Option ℕ)
          → Holds s (middle l r) r d' u
          → Holds (relinked s w n right q) (middle l r) r d' u)
      → Holds s l (middle l r) c t
      → Holds s (middle l r) r d u
      → Holds (relinked s w n right q) l r (some w) (branch t u)
  unfolding with_child
  Holds-branch l r false c d t u at_c is_inner wide side first second left below = (
    wide,
    some q,
    d,
    record {
      target = w;
      pointer = refl;
      body =
          subst (λ (x : Bool). body_at (relinked s w n x q) w ≡ some (inner (some q) d)) side
            (body_at-parent s w n false q (inner c d) is_inner);
    },
    first (some q) (
        Holds-copy s l (middle l r) p q b t at copy
          (subst (λ x. Holds s l (middle l r) x t) at_c left)),
    second d below,
  )
  Holds-branch l r true c d t u at_d is_inner wide side first second left below = (
    wide,
    c,
    some q,
    record {
      target = w;
      pointer = refl;
      body =
          subst (λ (x : Bool). body_at (relinked s w n x q) w ≡ some (inner c (some q))) side
            (body_at-parent s w n true q (inner c d) is_inner);
    },
    first c left,
    second (some q) (
        Holds-copy s (middle l r) r p q b u at copy
          (subst (λ x. Holds s (middle l r) r x u) at_d below)),
  )

  Holds-relinked :
      (l r : ℕ) (x : Option ℕ) (t : Tree) → Holds s l r x t → Holds (relinked s w n right q) l r x t
  Holds-relinked l r x bare h = h
  Holds-relinked l r x (field v) (narrow, lead, alive) = elim (Bool-cases (lead.target == w)) [
    | inl y ↦
        let same : lead.target ≡ w = ground (arith, y) in
        let is_leaf : leaf v ≡ n.body =
          some-injective (leaf v) n.body
            (sym lead.body ∙ ap (body_at s) same ∙ body_at-node s w n here) in
        absurd (ground (arith, old, ap (λ (c : Body). child c right) is_leaf))
    | inr o ↦ (
      narrow,
      record {
        target = lead.target;
        pointer = lead.pointer;
        body = body_at-relinked s w n right q lead.target (leaf v) lead.body o;
      },
      alive,
    )
  ]
  Holds-relinked l r x (branch t u) (wide, c, d, lead, left, below) =
      let first =
        λ (c' : Option ℕ) (k : Holds s l (middle l r) c' t). Holds-relinked l (middle l r) c' t k in
      let second =
        λ (d' : Option ℕ) (k : Holds s (middle l r) r d' u). Holds-relinked (middle l r) r d' u k in
      elim (Bool-cases (lead.target == w)) [
        | inl y ↦
            let same : lead.target ≡ w = ground (arith, y) in
            let is_inner : n.body ≡ inner c d =
              some-injective n.body (inner c d)
                (sym (body_at-node s w n here) ∙ ap (body_at s) (sym same) ∙ lead.body) in
            subst (λ z. Holds (relinked s w n right q) l r z (branch t u))
              (ap some (sym same) ∙ sym lead.pointer)
              (Holds-branch l r right c d t u
                (ap (λ (z : Body). child z right) (sym is_inner) ∙ old) is_inner wide refl first
                second left below)
        | inr o ↦ (
          wide,
          c,
          d,
          record {
            target = lead.target;
            pointer = lead.pointer;
            body = body_at-relinked s w n right q lead.target (inner c d) lead.body o;
          },
          first c left,
          second d below,
        )
      ]

  pub relinked-Keeps : Keeps s (relinked s w n right q)
  relinked-Keeps = record {
    holds = Holds-relinked;
    fresh = λ f. Fresh-set_node s w (record n { body = with_child n.body right (some q) }) n here f;
    fits = λ f.
        Fits-set_node s w (record n { body = with_child n.body right (some q) }) (f w n here) f;
  }
