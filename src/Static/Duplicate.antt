-- ===== src/Static/Duplicate.antt =====
-- A copy of a node: nothing that a pointer leads to changes.
use adam.Base.{
  ℕ, List, [], ◌++◌, subst, ◌+◌, ◌≡◌, ◌≢◌, refl, sym, ◌∙◌, ap, false, Option, some, ◌==◌, arith,
  Bool-cases, inl, inr, ==_refl, none,
}
use mathlib.Core.List.{append-nil}
use mathlib.Core.Option.{some-injective}
use adam.CeskSet
use adam.CeskSet.Methods.{Handle}
use adam.Static.{Body, leaf, inner, Node, Statics, set_node, duplicate}
use adam.Static.Shape.{body_at, Live, Fresh}
use adam.Static.Counted.{count_of, ids, Counted, Counted-alloc, fresh_node}
use adam.Static.Extend.{node-body_at, Extends, Extends-trans, alloc-Extends}
use adam.Static.Counts.{Present, Present-Extends, incref-run, fork-run}

-- What the copy of the node at `p` needs of its body.
abbrev pub Copies : Statics → ℕ → Body → Type 0
Copies s p (leaf v) = Live s.sets v
Copies s p (inner c d) = Present s c × Present s d × (c ≢ some p) × (d ≢ some p)

-- The node is not a child.
abbrev pub Spares : Body → ℕ → Type 0
Spares (leaf v) z = Unit
Spares (inner c d) z = (c ≢ some z) × (d ≢ some z)

pub record Duplicated (s : Statics) (p : ℕ) (n : Node) : Type 0 where
  pub after : Statics
  pub run : duplicate p s ≡ some (s.next, after)
  pub extends : Extends s after
  pub old : after.node p ≡ some n
  pub copy : body_at after s.next ≡ some n.body
  pub unused : count_of (after.node s.next) ≡ 0
  pub same : (z : ℕ) → z ≢ s.next → Spares n.body z → after.node z ≡ s.node z
  pub counted : (roots : List ℕ) → Counted s roots [] → Counted after roots []

abbrev pub allocated : Statics → Node → Statics
allocated s n = record (set_node s.next (some n) s) { next = s.next + 1 }

with_sets-Extends :
    (s : Statics) (u : CeskSet.Sets)
    → ((w : Handle) → Live s.sets w → Live u w)
    → Extends s (record s { sets = u })
unfolding body_at
with_sets-Extends s u live = record {
  bodies = λ p b h. h;
  live = live;
  fresh = λ h. h;
  fits = λ h. h;
}

old-other :
    (s : Statics) (p : ℕ) (n m : Node)
    → Fresh s
    → s.node p ≡ some n
    → (allocated s m).node p ≡ some n
old-other s p n m free here =
    let other : (p == s.next) ≡ false = elim (Bool-cases (p == s.next)) [
      | inl y ↦
          let same : p ≡ s.next = ground (arith, y) in
          absurd (ground (arith, here, free p (omega (arith, same))))
      | inr o ↦ o
    ] in
    rw other here

allocated-other :
    (s : Statics) (b : Body) (z : ℕ) → z ≢ s.next → (allocated s (fresh_node b)).node z ≡ s.node z
allocated-other s b z other = elim (Bool-cases (z == s.next)) [
  | inl y ↦ let at : z ≡ s.next = ground (arith, y) in absurd (other at)
  | inr o ↦ rw o refl
]

Present-Fresh : (s : Statics) (p : Option ℕ) → Fresh s → Present s p → p ≢ some s.next
Present-Fresh s none free h e = absurd (ground (arith, e))
Present-Fresh s (some p) free (b, at) e =
    let (n, here, _) = node-body_at s p b at in
    let same : p ≡ s.next = some-injective p s.next e in
    absurd (ground (arith, here, free p (omega (arith, same))))

copy-body : (s : Statics) (b : Body) → body_at (allocated s (fresh_node b)) s.next ≡ some b
unfolding body_at
copy-body s b = rw (body_at, ==_refl s.next) refl

duplicate_leaf :
    (s : Statics) (p : ℕ) (n : Node) (v : Handle)
    → Fresh s
    → s.node p ≡ some n
    → n.body ≡ leaf v
    → Live s.sets v
    → Duplicated s p n
unfolding duplicate
duplicate_leaf s p n v free here is_leaf alive =
    let (u, forked, live) = fork-run s.sets v alive in
    let mid : Statics = record s { sets = u } in
    record {
      after = allocated mid (fresh_node (leaf v));
      run = ground (arith, here, is_leaf, forked);
      extends =
          Extends-trans s mid (allocated mid (fresh_node (leaf v))) (with_sets-Extends s u live)
            (alloc-Extends mid (fresh_node (leaf v)) (omega arith) free);
      old = old-other mid p n (fresh_node (leaf v)) free here;
      copy = copy-body mid (leaf v) ∙ ap some (sym is_leaf);
      unused = rw (==_refl s.next) refl;
      same = λ z other spares. allocated-other mid (leaf v) z other;
      counted = λ roots c. Counted-alloc mid (leaf v) roots [] free c;
    }

duplicate_inner :
    (s : Statics) (p : ℕ) (n : Node) (c d : Option ℕ)
    → Fresh s
    → s.node p ≡ some n
    → n.body ≡ inner c d
    → Copies s p (inner c d)
    → Duplicated s p n
unfolding duplicate
duplicate_inner s p n c d free here is_inner (has_c, has_d, not_c, not_d) =
    let mid : Statics = allocated s (fresh_node (inner c d)) in
    let e0 : Extends s mid = alloc-Extends s (fresh_node (inner c d)) (omega arith) free in
    let (t, run1, e1, same1, count1, _) = incref-run mid c (Present-Extends s mid c e0 has_c) in
    let e01 : Extends s t = Extends-trans s mid t e0 e1 in
    let (u, run2, e2, same2, count2, _) = incref-run t d (Present-Extends s t d e01 has_d) in
    record {
      after = u;
      run = ground (arith, here, is_inner, run1, run2);
      extends = Extends-trans s t u e01 e2;
      old = same2 p not_d ∙ same1 p not_c ∙ old-other s p n (fresh_node (inner c d)) free here;
      copy =
          e2.bodies s.next (inner c d) (e1.bodies s.next (inner c d) (copy-body s (inner c d)))
          ∙ ap some (sym is_inner);
      unused =
          ap count_of (same2 s.next (Present-Fresh s d free has_d))
          ∙ ap count_of (same1 s.next (Present-Fresh s c free has_c))
          ∙ rw (==_refl s.next) refl;
      same = λ z other spares.
          let (apart_c, apart_d) = subst (λ b. Spares b z) is_inner spares in
          same2 z apart_d ∙ same1 z apart_c ∙ allocated-other s (inner c d) z other;
      counted = λ roots k. count2 roots [] (
          subst (Counted t roots) (sym (append-nil (ids d))) (
            count1 roots (ids d) (
              subst (Counted mid roots) (append-nil (ids c ++ ids d))
                (Counted-alloc s (inner c d) roots [] free k))));
    }

pub duplicate-run :
    (s : Statics) (p : ℕ) (n : Node) (b : Body)
    → Fresh s
    → s.node p ≡ some n
    → n.body ≡ b
    → Copies s p b
    → Duplicated s p n
duplicate-run s p n (leaf v) free here is_leaf alive =
    duplicate_leaf s p n v free here is_leaf alive
duplicate-run s p n (inner c d) free here is_inner copies =
    duplicate_inner s p n c d free here is_inner copies
