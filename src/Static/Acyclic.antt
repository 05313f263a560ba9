-- ===== src/Static/Acyclic.antt =====
-- A pointer leads to one tree, so that no node is below itself; and a copy of a node stands for it.
use adam.Base.{ℕ, ◌+◌, ◌≡◌, ◌≢◌, refl, sym, ◌∙◌, ap, subst, Option, none, some, arith}
use mathlib.Core.Option.{some-injective}
use adam.CeskSet.Methods.{Handle}
use adam.Static.{Body, leaf, inner, Statics, middle}
use adam.Static.Shape.{Tree, bare, field, branch, body_at, Leads, Holds}

abbrev pub value_of : Body → Option Handle
value_of (leaf v) = some v
value_of (inner c d) = none

abbrev pub children_of : Body → Option (Option ℕ × Option ℕ)
children_of (leaf v) = none
children_of (inner c d) = some (c, d)

pub inner-injective : (c d c' d' : Option ℕ) → inner c d ≡ inner c' d' → (c ≡ c') × (d ≡ d')
inner-injective c d c' d' h =
    let pair = some-injective (c, d) (c', d') (ap children_of h) in
    (ap (λ (x : Option ℕ × Option ℕ). x.0) pair, ap (λ (x : Option ℕ × Option ℕ). x.1) pair)

pub leaf-inner : (v : Handle) (c d : Option ℕ) → leaf v ≢ inner c d
leaf-inner v c d h = absurd (ground (arith, ap value_of h))

-- Two ways to one body.
pub same_body : (s : Statics) (p : Option ℕ) (b b' : Body) → Leads s p b → Leads s p b' → b ≡ b'
same_body s p b b' h k =
    let same : h.target ≡ k.target = some-injective h.target k.target (sym h.pointer ∙ k.pointer) in
    some-injective b b' (sym h.body ∙ ap (body_at s) same ∙ k.body)

abbrev pub size : Tree → ℕ
size bare = 0
size (field v) = 1
size (branch t u) = 1 + size t + size u

-- A pointer leads to one tree.
pub Holds-size :
    (s : Statics) (l r l' r' : ℕ) (p : Option ℕ) (t u : Tree)
    → Holds s l r p t
    → Holds s l' r' p u
    → size t ≡ size u
Holds-size s l r l' r' p bare bare h k = refl
Holds-size s l r l' r' p bare (field v) h (_, k, _) = absurd (ground (arith, h, k.pointer))
Holds-size s l r l' r' p bare (branch t u) h (_, c, d, k, _, _) =
    absurd (ground (arith, h, k.pointer))
Holds-size s l r l' r' p (field v) bare (_, h, _) k = absurd (ground (arith, k, h.pointer))
Holds-size s l r l' r' p (field v) (field w) h k = refl
Holds-size s l r l' r' p (field v) (branch t u) (_, h, _) (_, c, d, k, _, _) =
    absurd (leaf-inner v c d (same_body s p (leaf v) (inner c d) h k))
Holds-size s l r l' r' p (branch t u) bare (_, c, d, h, _, _) k =
    absurd (ground (arith, k, h.pointer))
Holds-size s l r l' r' p (branch t u) (field w) (_, c, d, h, _, _) (_, k, _) =
    absurd (leaf-inner w c d (same_body s p (leaf w) (inner c d) k h))
Holds-size s l r l' r' p (branch t u) (branch t' u') (_, c, d, h, a, b) (_, c', d', k, a', b') =
    let (first, second) = inner-injective c d c' d' (same_body s p (inner c d) (inner c' d') h k) in
    omega (
      arith,
      Holds-size s l (middle l r) l' (middle l' r') c t t' a
          (subst (λ x. Holds s l' (middle l' r') x t') (sym first) a'),
      Holds-size s (middle l r) r (middle l' r') r' d u u' b
          (subst (λ x. Holds s (middle l' r') r' x u') (sym second) b'),
    )

-- A node is not below itself.
pub child-other :
    (s : Statics) (l r : ℕ) (p c d : Option ℕ) (t u : Tree)
    → Holds s l r p (branch t u)
    → Holds s l (middle l r) c t
    → Holds s (middle l r) r d u
    → (c ≢ p) × (d ≢ p)
child-other s l r p c d t u whole left right = (
  λ same. absurd (
      omega (
        arith,
        Holds-size s l (middle l r) l r p t (branch t u)
            (subst (λ x. Holds s l (middle l r) x t) same left) whole,
      )),
  λ same. absurd (
      omega (
        arith,
        Holds-size s (middle l r) r l r p u (branch t u)
            (subst (λ x. Holds s (middle l r) r x u) same right) whole,
      )),
)

-- A copy of the node stands for it.
pub Leads-copy :
    (s : Statics) (p q : ℕ) (b x : Body)
    → body_at s p ≡ some b
    → body_at s q ≡ some b
    → Leads s (some p) x
    → Leads s (some q) x
Leads-copy s p q b x here copy h =
    let same : h.target ≡ p = some-injective h.target p (sym h.pointer) in
    record {
      target = q;
      pointer = refl;
      body = copy ∙ sym here ∙ ap (body_at s) (sym same) ∙ h.body;
    }

pub Holds-copy :
    (s : Statics) (l r p q : ℕ) (b : Body) (t : Tree)
    → body_at s p ≡ some b
    → body_at s q ≡ some b
    → Holds s l r (some p) t
    → Holds s l r (some q) t
Holds-copy s l r p q b bare here copy h = absurd (ground (arith, h))
Holds-copy s l r p q b (field v) here copy (narrow, at, alive) =
    (narrow, Leads-copy s p q b (leaf v) here copy at, alive)
Holds-copy s l r p q b (branch t u) here copy (wide, c, d, at, left, right) =
    (wide, c, d, Leads-copy s p q b (inner c d) here copy at, left, right)
