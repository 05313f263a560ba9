-- ===== src/Static/Clear.antt =====
-- A path whose nodes have one reference each, and what a run leaves of the nodes above it.
use adam.Base.{
  ℕ, ◌+◌, ◌<◌, ◌≤◌, ◌≡◌, ◌≢◌, refl, sym, ◌∙◌, ap, subst, Bool, true, false, Option, none, some, ltb,
  arith, if◌then◌else◌,
}
use mathlib.Core.Option.{some-injective}
use adam.Static.{Body, leaf, inner, Node, Statics, middle, Slot}
use adam.Static.Shape.{Tree, bare, field, branch, body_at, Holds}
use adam.Static.Extend.{Keeps, Keeps-refl, node-body_at, body_at-node}
use adam.Static.Acyclic.{size, Holds-size}
use adam.Static.Relink.{child}
use adam.Static.Counted.{count_of}
use adam.Static.Reference.{Reaches, Refers, Off}
use adam.Static.Prepare.{Prepared}

-- A node with a larger tree: it is not below a pointer to `t`.
abbrev pub Bigger : Statics → Tree → ℕ → Type 0
Bigger s t z = (l r : ℕ) × (u : Tree) × Holds s l r (some z) u × (size t < size u)

pub Bigger-other :
    (s : Statics) (l r p z : ℕ) (t : Tree) → Bigger s t z → Holds s l r (some p) t → z ≢ p
Bigger-other s l r p z t (l', r', u, h, less) k same = absurd (
    omega (
      arith,
      less,
      Holds-size s l r l' r' (some p) t u k (subst (λ x. Holds s l' r' (some x) u) same h),
    ))

pub Bigger-apart :
    (s : Statics) (l r z : ℕ) (c : Option ℕ) (t t' : Tree)
    → Bigger s t z
    → Holds s l r c t'
    → size t' ≤ size t
    → c ≢ some z
Bigger-apart s l r z c t t' (l', r', u, h, less) k le same = absurd (
    omega (
      arith,
      less,
      le,
      Holds-size s l r l' r' (some z) t' u (subst (λ x. Holds s l r x t') same k) h,
    ))

pub Bigger-less :
    (s s' : Statics) (t t' : Tree) (z : ℕ)
    → Keeps s s'
    → size t' ≤ size t
    → Bigger s t z
    → Bigger s' t' z
Bigger-less s s' t t' z keeps le (l, r, u, h, less) =
    (l, r, u, keeps.holds l r (some z) u h, omega (arith, less, le))

pub Bigger-node : (s : Statics) (t : Tree) (z : ℕ) → Bigger s t z → (m : Node) × (s.node z ≡ some m)
Bigger-node s t z (l, r, bare, h, less) = absurd (ground (arith, h))
Bigger-node s t z (l, r, field v, (_, k, _), less) =
    let (m, here, _) =
      node-body_at s z (leaf v) (ap (body_at s) (some-injective z k.target k.pointer) ∙ k.body) in
    (m, here)
Bigger-node s t z (l, r, branch u u', (_, c, d, k, _, _), less) =
    let (m, here, _) =
      node-body_at s z (inner c d)
        (ap (body_at s) (some-injective z k.target k.pointer) ∙ k.body) in
    (m, here)

-- The node that the slot is in has a larger tree.
abbrev pub Above : Statics → Slot → Tree → Type 0
Above s none t = Unit
Above s (some (w, right)) t = Bigger s t w

-- Each node on the way to an index has one reference.
abbrev pub Clear : Statics → ℕ → ℕ → Option ℕ → Tree → ℕ → Type 0
Clear s l r p bare idx = Unit
Clear s l r p (field v) idx = (q : ℕ) × (p ≡ some q) × (count_of (s.node q) ≡ 1)
Clear s l r p (branch t u) idx =
    (q : ℕ) × (c d : Option ℕ) × (p ≡ some q)
    × (count_of (s.node q) ≡ 1)
    × (body_at s q ≡ some (inner c d))
    × (if ltb idx (middle l r)
        then Clear s l (middle l r) c t idx
        else Clear s (middle l r) r d u idx)

abbrev pub Tops : Slot → Option ℕ → Option ℕ → Type 0
Tops none root first = root ≡ first
Tops (some x) root first = Unit

pub record Cleared (s after : Statics) (l r : ℕ) (slot : Slot) (t : Tree) (idx : ℕ)
    (root : Option ℕ) : Type 0 where
  pub first : Option ℕ
  pub at_top : Tops slot root first
  pub linked : Reaches after slot first
  pub clear : Clear after l r first t idx
  pub counts : (z : ℕ) → Bigger s t z → count_of (after.node z) ≡ count_of (s.node z)
  pub bodies :
      (z : ℕ) (x : Body)
      → Bigger s t z
      → body_at s z ≡ some x
      → Off slot z
      → body_at after z ≡ some x

abbrev ParentKept : Statics → Statics → Slot → Type 0
ParentKept s t none = Unit
ParentKept s t (some (w, right)) = (x : Body) → body_at s w ≡ some x → body_at t w ≡ some x

Reaches-kept :
    (s t : Statics) (slot : Slot) (q : ℕ) → ParentKept s t slot → Refers s slot q → Refers t slot q
Reaches-kept s t none q keep h = tt
Reaches-kept s t (some (w, right)) q keep (n, here, link) =
    let (m, there, same) = node-body_at t w n.body (keep n.body (body_at-node s w n here)) in
    (m, there, ap (λ (b : Body). child b right) same ∙ link)

-- The children of a node after a run from one of them.
body_after :
    (s : Statics) (l r q : ℕ) (t u : Tree) (side : Bool) (first : Option ℕ)
    → Holds s l r (some q) (branch t u)
    → Reaches s (some (q, side)) first
    → (c d : Option ℕ) × (body_at s q ≡ some (inner c d)) × (child (inner c d) side ≡ first)
body_after s l r q t u side first (wide, c, d, k, _, _) (n, here, link) =
    let at : body_at s q ≡ some (inner c d) =
      ap (body_at s) (some-injective q k.target k.pointer) ∙ k.body in
    let same : n.body ≡ inner c d =
      some-injective n.body (inner c d) (sym (body_at-node s q n here) ∙ at) in
    (c, d, at, ap (λ (b : Body). child b side) (sym same) ∙ link)

module _ (s : Statics) (l r q : ℕ) (t u : Tree) (idx : ℕ) (first : Option ℕ)
    (whole : Holds s l r (some q) (branch t u)) (single : count_of (s.node q) ≡ 1) where
  pub Clear-left :
      ltb idx (middle l r) ≡ true
      → Reaches s (some (q, false)) first
      → Clear s l (middle l r) first t idx
      → Clear s l r (some q) (branch t u) idx
  Clear-left below reach h =
      let (c, d, at, link) = body_after s l r q t u false first whole reach in
      (
        q,
        c,
        d,
        refl,
        single,
        at,
        rw below (subst (λ x. Clear s l (middle l r) x t idx) (sym link) h),
      )

  pub Clear-right :
      ltb idx (middle l r) ≡ false
      → Reaches s (some (q, true)) first
      → Clear s (middle l r) r first u idx
      → Clear s l r (some q) (branch t u) idx
  Clear-right above reach h =
      let (c, d, at, link) = body_after s l r q t u true first whole reach in
      (
        q,
        c,
        d,
        refl,
        single,
        at,
        rw above (subst (λ x. Clear s (middle l r) r x u idx) (sym link) h),
      )

-- A run from a child `x` of the node `q` that was made ready in place of `p`.
module _ (count : ℕ) (s after : Statics) (l r : ℕ) (slot : Slot) (t u x : Tree) (idx p : ℕ)
    (c e : Option ℕ) (d : Prepared count s slot p (inner c e))
    (old : Holds s l r (some p) (branch t u)) (left : Holds s l (middle l r) c t)
    (right : Holds s (middle l r) r e u) (new : Holds d.after l r (some d.writable) (branch t u))
    (above : Above s slot (branch t u)) (l' r' : ℕ) (side : Bool) (root : Option ℕ)
    (n : Cleared d.after after l' r' (some (d.writable, side)) x idx root)
    (smaller : size x ≤ size t + size u) where
  counts_kept : (z : ℕ) → Bigger s (branch t u) z → count_of (after.node z) ≡ count_of (s.node z)
  counts_kept z big =
      let (m, here) = Bigger-node s (branch t u) z big in
      n.counts z (Bigger-less s d.after (branch t u) x z d.keeps (omega (arith, smaller)) big)
      ∙ d.counts z m here (Bigger-other s l r p z (branch t u) big old) (
        Bigger-apart s l (middle l r) z c (branch t u) t big left (omega arith),
        Bigger-apart s (middle l r) r z e (branch t u) u big right (omega arith),
      )

  bodies_above :
      (z : ℕ) (b : Body)
      → Bigger d.after (branch t u) z
      → body_at d.after z ≡ some b
      → body_at after z ≡ some b
  bodies_above z b big h =
      n.bodies z b
        (Bigger-less d.after d.after (branch t u) x z (Keeps-refl d.after) (omega (arith, smaller))
          big)
        h (Bigger-other d.after l r d.writable z (branch t u) big new)

  parent_kept : ParentKept d.after after slot
  parent_kept = go slot above
    where
      go : (o : Slot) → Above s o (branch t u) → ParentKept d.after after o
      go none h = tt
      go (some (w, side')) big = λ b h.
          bodies_above w b
            (Bigger-less s d.after (branch t u) (branch t u) w d.keeps (omega arith) big) h

  pub Cleared-step :
      Tops slot root (some d.writable)
      → Clear after l r (some d.writable) (branch t u) idx
      → Cleared s after l r slot (branch t u) idx root
  Cleared-step top clear = record {
    first = some d.writable;
    at_top = top;
    linked = Reaches-kept d.after after slot d.writable parent_kept d.linked;
    clear = clear;
    counts = counts_kept;
    bodies = λ z b big h off.
        bodies_above z b
          (Bigger-less s d.after (branch t u) (branch t u) z d.keeps (omega arith) big)
          (d.bodies z b h off);
  }

  -- The node that was made ready still has one reference.
  pub still_single : count_of (after.node d.writable) ≡ 1
  still_single = n.counts d.writable (l, r, branch t u, new, omega (arith, smaller)) ∙ d.single
