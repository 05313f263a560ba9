-- ===== src/Static/Reference.antt =====
-- The reference to a node is set to its copy.
use adam.Base.{
  ==_refl, ℕ, List, [], ◌∷◌, ◌≡◌, ◌≢◌, refl, sym, ◌∙◌, ap, Bool, true, false, none, some, ◌==◌,
  arith, Bool-cases, inl, inr, Option,
}
use mathlib.Core.Option.{some-injective}
use adam.Static.{Body, leaf, inner, Node, Statics, set_node, Slot, with_child, set_reference}
use adam.Static.Shape.{body_at, Fresh}
use adam.Static.Extend.{Keeps, Keeps-refl, Extends, body_at-set_node, node-body_at, body_at-node}
use adam.Static.Counted.{count_of, Counted, Counted-relinked}
use adam.Static.Relink.{child, relinked, relinked-Keeps}

-- The reference is the one to the node at `p`.
abbrev pub Reaches : Statics → Slot → Option ℕ → Type 0
Reaches s none p = Unit
Reaches s (some (w, right)) p = (n : Node) × (s.node w ≡ some n) × (child n.body right ≡ p)

abbrev pub Refers : Statics → Slot → ℕ → Type 0
Refers s slot p = Reaches s slot (some p)

-- The node is not the one that the slot is in.
abbrev pub Off : Slot → ℕ → Type 0
Off none z = Unit
Off (some (w, right)) z = z ≢ w

pub Refers-Extends :
    (s t : Statics) (slot : Slot) (p : ℕ) → Extends s t → Refers s slot p → Refers t slot p
Refers-Extends s t none p e h = tt
Refers-Extends s t (some (w, right)) p e (n, here, at) =
    let (m, there, same) = node-body_at t w n.body (e.bodies w n.body (body_at-node s w n here)) in
    (m, there, ap (λ (b : Body). child b right) same ∙ at)

-- The slot is not a child of the new node.
abbrev pub Apart : Slot → ℕ → Type 0
Apart none q = Unit
Apart (some (w, right)) q = (q == w) ≡ false

pub Refers-Apart :
    (s : Statics) (slot : Slot) (p : ℕ) → Fresh s → Refers s slot p → Apart slot s.next
Refers-Apart s none p free h = tt
Refers-Apart s (some (w, right)) p free (n, here, at) = elim (Bool-cases (s.next == w)) [
  | inl y ↦
      let same : s.next ≡ w = ground (arith, y) in
      absurd (ground (arith, here, free w (omega (arith, same))))
  | inr o ↦ o
]

-- The tables where the node in the slot is `p`: it is the root of one of them if the slot is not in a node.
abbrev pub holders : Slot → ℕ → List ℕ → List ℕ
holders none p others = p ∷ others
holders (some x) p others = others

pub record Referenced (s : Statics) (slot : Slot) (p q : ℕ) (b : Body) (n : Node) : Type 0 where
  pub after : Statics
  pub run : set_reference slot q s ≡ some (tt, after)
  pub keeps : Keeps s after
  pub copy : body_at after q ≡ some b
  pub counts : (z : ℕ) → count_of (after.node z) ≡ count_of (s.node z)
  pub bodies : (z : ℕ) (x : Body) → body_at s z ≡ some x → Off slot z → body_at after z ≡ some x
  pub linked : Refers after slot q
  pub old : (m : Node) × (after.node p ≡ some m) × (m.refcnt ≡ n.refcnt)
  pub counted :
      (others : List ℕ)
      → Counted s (holders slot p others) []
      → Counted after (p ∷ holders slot q others) (q ∷ [])

pub refcnt-relinked :
    (s : Statics) (w : ℕ) (x : Node) (right : Bool) (q p : ℕ) (n : Node)
    → s.node w ≡ some x
    → s.node p ≡ some n
    → (m : Node) × ((relinked s w x right q).node p ≡ some m) × (m.refcnt ≡ n.refcnt)
refcnt-relinked s w x right q p n there here = elim (Bool-cases (p == w)) [
  | inl y ↦
      let same : p ≡ w = ground (arith, y) in
      let one : x ≡ n = some-injective x n (sym there ∙ ap s.node (sym same) ∙ here) in
      (
        record x { body = with_child x.body right (some q) },
        rw y refl,
        ap (λ (z : Node). z.refcnt) one,
      )
  | inr o ↦ (n, rw o here, refl)
]

pub not-equal : (z w : ℕ) → z ≢ w → (z == w) ≡ false
not-equal z w other = ground (arith, other)

pub child-with_child :
    (b : Body) (right : Bool) (p q : ℕ)
    → child b right ≡ some p
    → child (with_child b right (some q)) right ≡ some q
unfolding with_child
child-with_child (leaf v) right p q h = absurd (ground (arith, h))
child-with_child (inner c d) false p q h = refl
child-with_child (inner c d) true p q h = refl

pub relinked-counts :
    (s : Statics) (w : ℕ) (x : Node) (right : Bool) (q z : ℕ)
    → s.node w ≡ some x
    → count_of ((relinked s w x right q).node z) ≡ count_of (s.node z)
relinked-counts s w x right q z there = elim (Bool-cases (z == w)) [
  | inl y ↦
      let same : z ≡ w = ground (arith, y) in rw y (sym (ap count_of (ap s.node same ∙ there)))
  | inr o ↦ rw o refl
]

pub recounted-other :
    (s : Statics) (p z : ℕ) (m : Node)
    → z ≢ p
    → count_of ((set_node p (some m) s).node z) ≡ count_of (s.node z)
recounted-other s p z m other = elim (Bool-cases (z == p)) [
  | inl y ↦ let same : z ≡ p = ground (arith, y) in absurd (other same)
  | inr o ↦ rw o refl
]

-- A table that takes another root: the old one is to be given back, the new one to be counted.
pub Counted-both :
    (s : Statics) (p q : ℕ) (others : List ℕ)
    → Counted s (p ∷ others) []
    → Counted s (p ∷ q ∷ others) (q ∷ [])
Counted-both s p q others h x = omega (arith, h x)

pub set_reference-run :
    (s : Statics) (slot : Slot) (p q : ℕ) (b : Body) (n : Node)
    → Refers s slot p
    → Apart slot q
    → body_at s p ≡ some b
    → body_at s q ≡ some b
    → s.node p ≡ some n
    → Fresh s
    → Referenced s slot p q b n
unfolding set_reference
set_reference-run s none p q b n ref apart at copy here free = record {
  after = s;
  run = refl;
  keeps = Keeps-refl s;
  copy = copy;
  counts = λ z. refl;
  bodies = λ z x h off. h;
  linked = tt;
  old = (n, here, refl);
  counted = λ others c. Counted-both s p q others c;
}
set_reference-run s (some (w, right)) p q b n (x, there, link) apart at copy here free = record {
  after = relinked s w x right q;
  run = ground (arith, there);
  keeps = relinked-Keeps s w x right p q b there link at copy;
  copy =
      body_at-set_node s w q (record x { body = with_child x.body right (some q) }) ∙ rw apart copy;
  counts = λ z. relinked-counts s w x right q z there;
  bodies = λ z y h off.
      body_at-set_node s w z (record x { body = with_child x.body right (some q) })
      ∙ rw (not-equal z w off) h;
  linked = (
    record x { body = with_child x.body right (some q) },
    rw (==_refl w) refl,
    child-with_child x.body right p q link,
  );
  old = refcnt-relinked s w x right q p n there here;
  counted = λ others. Counted-relinked s w x right p q others [] free there link;
}
