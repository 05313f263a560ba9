-- ===== src/Static/Prepare.antt =====
-- `_cesk_static_tree_node_prepare_to_write`: the node that may be written holds what the old one did,
-- and nothing that a pointer leads to changes.
use adam.Base.{
  ℕ, List, [], ◌∷◌, ◌+◌, ◌-◌, ◌%◌, ◌^◌, ◌<◌, ◌≡◌, ◌≢◌, refl, sym, ◌∙◌, ap, true, false, some, ◌==◌,
  arith, Bool-cases, inl, inr,
}
use mathlib.Core.Option.{some-injective}
use adam.Static.{Body, Node, Statics, set_node, with_refcnt, Slot, prepare_node}
use adam.Static.Shape.{body_at, Fresh, Fits}
use adam.Static.Extend.{Keeps, Keeps-refl, Keeps-trans, Extends-Keeps, body_at-node, recount}
use adam.Static.Counted.{count_of, Counted, Counted-decref}
use adam.Static.Counts.{decref-run, incref-run}
use adam.Static.Duplicate.{Spares, Copies, duplicate-run}
use adam.Static.Reference.{
  Refers, Off, Refers-Extends, Refers-Apart, holders, recounted-other, set_reference-run,
}

pub record Prepared (count : ℕ) (s : Statics) (slot : Slot) (p : ℕ) (b : Body) : Type 0 where
  pub writable : ℕ
  pub after : Statics
  pub run : prepare_node count slot p s ≡ some (writable, after)
  pub keeps : Keeps s after
  pub body : body_at after writable ≡ some b
  pub bodies : (z : ℕ) (x : Body) → body_at s z ≡ some x → Off slot z → body_at after z ≡ some x
  pub linked : Refers after slot writable
  pub single : count_of (after.node writable) ≡ 1
  pub counts :
      (z : ℕ) (m : Node)
      → s.node z ≡ some m
      → z ≢ p
      → Spares b z
      → count_of (after.node z) ≡ count_of (s.node z)
  pub counted :
      (others : List ℕ)
      → Counted s (holders slot p others) []
      → Counted after (holders slot writable others) []

own :
    (count : ℕ) (s : Statics) (slot : Slot) (p : ℕ) (n : Node)
    → s.node p ≡ some n
    → Refers s slot p
    → (n.refcnt == 1) ≡ true
    → Prepared count s slot p n.body
unfolding prepare_node
own count s slot p n here ref one = record {
  writable = p;
  after = s;
  run = ground (arith, here, one);
  keeps = Keeps-refl s;
  body = body_at-node s p n here;
  bodies = λ z x h off. h;
  linked = ref;
  single = ap count_of here ∙ ground (arith, one);
  counts = λ z m at other spares. refl;
  counted = λ others c. c;
}

shared :
    (count : ℕ) (s : Statics) (slot : Slot) (p : ℕ) (n : Node)
    → Fresh s
    → Fits s
    → s.node p ≡ some n
    → Copies s p n.body
    → Refers s slot p
    → (n.refcnt == 1) ≡ false
    → Prepared count s slot p n.body
unfolding prepare_node
shared count s slot p n free fits here copies ref many =
    let d = duplicate-run s p n n.body free here refl copies in
    let b = n.body in
    let r =
      set_reference-run d.after slot p s.next b n (Refers-Extends s d.after slot p d.extends ref)
        (Refers-Apart s slot p free ref) (d.extends.bodies p b (body_at-node s p n here)) d.copy
        d.old (d.extends.fresh free) in
    let (m, left, refcnt) = r.old in
    let small : m.refcnt < 2 ^ 30 = r.keeps.fits (d.extends.fits fits) p m left in
    let not_last : m.refcnt ≢ 1 = ground (arith, many, refcnt) in
    let t : Statics = set_node p (some (with_refcnt m (m.refcnt + 2 ^ 30 - 1))) r.after in
    let back = recount r.after p m (m.refcnt + 2 ^ 30 - 1) left in
    let copy : body_at t s.next ≡ some b = back.bodies s.next b r.copy in
    let (u, run, up, same, settled, more) = incref-run t (some s.next) (b, copy) in
    record {
      writable = s.next;
      after = u;
      run =
          ground (
            arith,
            here,
            many,
            d.run,
            r.run,
            decref-run r.after count p m left small not_last,
            run,
          );
      keeps = Keeps-trans s d.after u (Extends-Keeps s d.after d.extends) (
          Keeps-trans d.after r.after u r.keeps
            (Keeps-trans r.after t u (Extends-Keeps r.after t back) (Extends-Keeps t u up)));
      body = up.bodies s.next b copy;
      bodies =
          λ z x h off. up.bodies z x (back.bodies z x (r.bodies z x (d.extends.bodies z x h) off));
      linked =
          Refers-Extends t u slot s.next up (Refers-Extends r.after t slot s.next back r.linked);
      single =
          more s.next refl
          ∙ ap (λ k. (k + 1) % 2 ^ 30)
              (recounted-other r.after p s.next (with_refcnt m (m.refcnt + 2 ^ 30 - 1))
                  (λ e. absurd (ground (arith, here, free p (omega (arith, e)))))
                ∙ r.counts s.next
                ∙ d.unused);
      counts = λ z k at other spares.
          let old_z : z ≢ s.next = λ e. absurd (ground (arith, at, free z (omega (arith, e)))) in
          ap count_of (same z (λ e. old_z (sym (some-injective s.next z e))))
          ∙ recounted-other r.after p z (with_refcnt m (m.refcnt + 2 ^ 30 - 1)) other
          ∙ r.counts z
          ∙ ap count_of (d.same z old_z spares);
      counted = λ others c. settled (holders slot s.next others) [] (
          Counted-decref r.after p m (holders slot s.next others) (s.next ∷ []) left
            (r.counted others (d.counted (holders slot p others) c)));
    }

pub prepare_node-run :
    (count : ℕ) (s : Statics) (slot : Slot) (p : ℕ) (n : Node)
    → Fresh s
    → Fits s
    → s.node p ≡ some n
    → Copies s p n.body
    → Refers s slot p
    → Prepared count s slot p n.body
prepare_node-run count s slot p n free fits here copies ref = elim (Bool-cases (n.refcnt == 1)) [
  | inl one ↦ own count s slot p n here ref one
  | inr many ↦ shared count s slot p n free fits here copies ref many
]
