-- ===== src/Static/Extend.antt =====
-- Steps that leave the bodies of all nodes: what a pointer leads to stays.
use adam.Base.{
  ℕ, ◌+◌, ◌^◌, ◌<◌, ◌≤◌, ◌≡◌, refl, sym, ◌∙◌, ap, subst, Bool, false, Option, some, ◌==◌, arith,
  Bool-cases, Option-cases, inl, inr, if◌then◌else◌,
}
use mathlib.Core.Option.{some-injective}
use adam.CeskSet.Methods.{Handle}
use adam.Static.{Body, leaf, inner, Node, Statics, middle, set_node, with_refcnt}
use adam.Static.Shape.{Tree, bare, field, branch, body_at, Live, Leads, Holds, Fresh, Fits}

-- What every step keeps: the tree at each pointer, and the two bounds.
pub record Keeps (s t : Statics) : Type 0 where
  pub holds : (l r : ℕ) (p : Option ℕ) (u : Tree) → Holds s l r p u → Holds t l r p u
  pub fresh : Fresh s → Fresh t
  pub fits : Fits s → Fits t

pub record Extends (s t : Statics) : Type 0 where
  pub bodies : (p : ℕ) (b : Body) → body_at s p ≡ some b → body_at t p ≡ some b
  pub live : (v : Handle) → Live s.sets v → Live t.sets v
  pub fresh : Fresh s → Fresh t
  pub fits : Fits s → Fits t

pub Keeps-trans : (s t u : Statics) → Keeps s t → Keeps t u → Keeps s u
Keeps-trans s t u a b = record {
  holds = λ l r p x h. b.holds l r p x (a.holds l r p x h);
  fresh = λ h. b.fresh (a.fresh h);
  fits = λ h. b.fits (a.fits h);
}

pub Keeps-refl : (s : Statics) → Keeps s s
Keeps-refl s = record { holds = λ l r p x h. h; fresh = λ h. h; fits = λ h. h }

pub Extends-refl : (s : Statics) → Extends s s
Extends-refl s = record { bodies = λ p b h. h; live = λ v h. h; fresh = λ h. h; fits = λ h. h }

pub Extends-trans : (s t u : Statics) → Extends s t → Extends t u → Extends s u
Extends-trans s t u a b = record {
  bodies = λ p x h. b.bodies p x (a.bodies p x h);
  live = λ v h. b.live v (a.live v h);
  fresh = λ h. b.fresh (a.fresh h);
  fits = λ h. b.fits (a.fits h);
}

Leads-Extends : (s t : Statics) (p : Option ℕ) (b : Body) → Extends s t → Leads s p b → Leads t p b
Leads-Extends s t p b e h = record {
  target = h.target;
  pointer = h.pointer;
  body = e.bodies h.target b h.body;
}

Holds-Extends :
    (s t : Statics) (l r : ℕ) (p : Option ℕ) (u : Tree)
    → Extends s t
    → Holds s l r p u
    → Holds t l r p u
Holds-Extends s t l r p bare e h = h
Holds-Extends s t l r p (field v) e (narrow, at, alive) =
    (narrow, Leads-Extends s t p (leaf v) e at, e.live v alive)
Holds-Extends s t l r p (branch x y) e (wide, c, d, at, left, right) = (
  wide,
  c,
  d,
  Leads-Extends s t p (inner c d) e at,
  Holds-Extends s t l (middle l r) c x e left,
  Holds-Extends s t (middle l r) r d y e right,
)

pub Extends-Keeps : (s t : Statics) → Extends s t → Keeps s t
Extends-Keeps s t e = record {
  holds = λ l r p u h. Holds-Extends s t l r p u e h;
  fresh = e.fresh;
  fits = e.fits;
}

-- A node that is written without a change of its body.
pub body_at-set_node :
    (s : Statics) (p q : ℕ) (n : Node)
    → body_at (set_node p (some n) s) q ≡ (if q == p then some n.body else body_at s q)
unfolding body_at
body_at-set_node s p q n = elim (Bool-cases (q == p)) [
  | inl y ↦ rw (body_at, y) refl
  | inr o ↦ rw (body_at, o) refl
]

pub body_at-node : (s : Statics) (p : ℕ) (n : Node) → s.node p ≡ some n → body_at s p ≡ some n.body
unfolding body_at
body_at-node s p n h = rw (body_at, h) refl

pub node-body_at :
    (s : Statics) (p : ℕ) (b : Body)
    → body_at s p ≡ some b
    → (n : Node) × (s.node p ≡ some n) × (n.body ≡ b)
unfolding body_at
node-body_at s p b h = elim (Option-cases (s.node p)) [
  | inl lost ↦ absurd (ground (arith, h, lost))
  | inr (n, at) ↦ (n, at, some-injective n.body b (sym (body_at-node s p n at) ∙ h))
]

pub Fits-set_node :
    (s : Statics) (p : ℕ) (n : Node) → n.refcnt < 2 ^ 30 → Fits s → Fits (set_node p (some n) s)
Fits-set_node s p n small fits q m h = elim (Bool-cases (q == p)) [
  | inl y ↦
      let same : n ≡ m =
        some-injective n m (sym (ap (λ (c : Bool). if c then some n else s.node q) y) ∙ h) in
      subst (λ (x : Node). x.refcnt < 2 ^ 30) same small
  | inr o ↦ fits q m (sym (ap (λ (c : Bool). if c then some n else s.node q) o) ∙ h)
]

pub Fresh-set_node :
    (s : Statics) (p : ℕ) (n m : Node) → s.node p ≡ some m → Fresh s → Fresh (set_node p (some n) s)
Fresh-set_node s p n m here fresh q le = elim (Bool-cases (q == p)) [
  | inl y ↦
      let same : q ≡ p = ground (arith, y) in
      absurd (ground (arith, here, fresh p (subst (λ x. s.next ≤ x) same le)))
  | inr o ↦ rw o (fresh q le)
]

pub recount :
    (s : Statics) (p : ℕ) (n : Node) (k : ℕ)
    → s.node p ≡ some n
    → Extends s (set_node p (some (with_refcnt n k)) s)
recount s p n k here = record {
  bodies = λ q b h. body_at-set_node s p q (with_refcnt n k) ∙ elim (Bool-cases (q == p)) [
    | inl y ↦
        let same : q ≡ p = ground (arith, y) in
        rw y (sym (body_at-node s p n here) ∙ ap (body_at s) (sym same) ∙ h)
    | inr o ↦ rw o h
  ];
  live = λ v h. h;
  fresh = λ f. Fresh-set_node s p (with_refcnt n k) n here f;
  fits = λ f. Fits-set_node s p (with_refcnt n k) (omega arith) f;
}

pub alloc-Extends :
    (s : Statics) (n : Node)
    → n.refcnt < 2 ^ 30
    → Fresh s
    → Extends s (record (set_node s.next (some n) s) { next = s.next + 1 })
unfolding body_at
alloc-Extends s n small free = record {
  bodies = λ q b h. elim (Bool-cases (q == s.next)) [
    | inl y ↦
        let same : q ≡ s.next = ground (arith, y) in
        let (m, here, _) = node-body_at s q b h in
        absurd (ground (arith, here, free q (omega (arith, same))))
    | inr o ↦ rw (body_at, o) h
  ];
  live = λ v h. h;
  fresh = λ f q le.
      let other : (q == s.next) ≡ false = ground (arith, le) in rw other (f q (omega (arith, le)));
  fits = λ f. Fits-set_node s s.next n small f;
}
