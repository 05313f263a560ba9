-- ===== src/Static/Path.antt =====
-- `_cesk_static_tree_prepare_to_write`: the path to a field is copied where it is shared, and all
-- tables still read the same.
use adam.Base.{
  ℕ, List, [], ◌++◌, zero, suc, ◌-◌, ◌≤◌, ◌≡◌, refl, sym, subst, true, false, Option, none, some,
  ltb, arith, Bool-cases, inl, inr,
}
use adam.Static.{inner, Statics, middle, Slot, prepare_to_write, new_root}
use adam.Static.Shape.{Tree, bare, field, branch, Holds, Fresh, Fits, lookup, value_at}
use adam.Static.Extend.{Keeps}
use adam.Static.Acyclic.{child-other}
use adam.Static.Counted.{ids, Counted}
use adam.Static.Clear.{Above, Clear}
use adam.Static.Reference.{Reaches}
use adam.Static.Ready.{Starts, Ready, Present-Holds, prepared, path-field, Reaches-child}
use adam.Static.Descent.{step_left, step_right, path-bare}

path-run :
    (count fuel : ℕ) (s : Statics) (l r : ℕ) (slot : Slot) (t : Tree) (ret : Option ℕ) (idx : ℕ)
    (p : Option ℕ)
    → Fresh s
    → Fits s
    → Holds s l r p t
    → r - l ≤ fuel
    → Reaches s slot p
    → Starts slot ret p
    → Above s slot t
    → Ready count fuel s l r slot t ret idx p
path-run count fuel s l r slot bare ret idx p free fits h enough reach start above =
    subst (Ready count fuel s l r slot bare ret idx) (sym h) (
      path-bare count fuel s l r slot ret idx (subst (Starts slot ret) h start)
        (subst (Reaches s slot) h reach))
path-run count fuel s l r slot (field v) ret idx p free fits (narrow, k, alive) enough reach start
      above =
    subst (Ready count fuel s l r slot (field v) ret idx) (sym k.pointer) (
      path-field count fuel s l r slot v ret idx k.target free fits narrow k.body alive
        (subst (Reaches s slot) k.pointer reach))
path-run count zero s l r slot (branch t u) ret idx p free fits h enough reach start above =
    absurd (ground (arith, h.0, enough))
path-run count (suc fuel) s l r slot (branch t u) ret idx p free fits whole enough reach start
      above =
    let (wide, c, e, k, left, right) = whole in
    let here : Holds s l r (some k.target) (branch t u) =
      subst (λ x. Holds s l r x (branch t u)) k.pointer whole in
    let (not_c, not_e) = child-other s l r (some k.target) c e t u here left right in
    let d =
      prepared count s slot k.target (inner c e) free fits k.body
        (
          Present-Holds s l (middle l r) c t left,
          Present-Holds s (middle l r) r e u right,
          not_c,
          not_e,
        )
        (subst (Reaches s slot) k.pointer reach) in
    let free' = d.keeps.fresh free in
    let fits' = d.keeps.fits fits in
    let m = middle l r in
    let left' : Holds d.after l m c t = d.keeps.holds l m c t left in
    let right' : Holds d.after m r e u = d.keeps.holds m r e u right in
    let new : Holds d.after l r (some d.writable) (branch t u) =
      (wide, c, e, record { target = d.writable; pointer = refl; body = d.body }, left', right') in
    subst (Ready count (suc fuel) s l r slot (branch t u) ret idx) (sym k.pointer)
      (elim (Bool-cases (ltb idx m)) [
        | inl below ↦
            step_left count fuel s l r slot t u ret idx k.target c e wide d new here left right
              above below
              (path-run count fuel d.after l m (some (d.writable, false)) t
                (new_root slot d.writable ret) idx c free' fits' left'
                (ground (arith, wide, enough))
                (Reaches-child d.after d.writable c e false c d.body refl) tt
                (l, r, branch t u, new, omega arith))
        | inr beyond ↦
            step_right count fuel s l r slot t u ret idx k.target c e wide d new here left right
              above beyond
              (path-run count fuel d.after m r (some (d.writable, true)) u
                (new_root slot d.writable ret) idx e free' fits' right'
                (ground (arith, wide, enough))
                (Reaches-child d.after d.writable c e true e d.body refl) tt
                (l, r, branch t u, new, omega arith))
      ])

Reaches-none : (s : Statics) (p : Option ℕ) → Reaches s none p
Reaches-none s p = tt

-- Making the path to a field writable ends, and gives a root that leads to the same tree and the
-- node of the field, if the tree has one. All tables, this one included, still lead to their trees.
-- It takes that no node is in use that is still to be allocated, and that the counters fit 30 bits.
pub prepare_to_write-Keeps :
    (s : Statics) (count idx : ℕ) (root : Option ℕ) (t : Tree)
    → Fresh s
    → Fits s
    → Holds s 0 count root t
    → (root' target : Option ℕ) × (after : Statics) × (prepare_to_write count root idx s
        ≡ some ((root', target), after))
      × Holds after 0 count root' t
      × (value_at after target ≡ some (lookup 0 count t idx))
      × Keeps s after
unfolding prepare_to_write
prepare_to_write-Keeps s count idx root t free fits h =
    let n =
      path-run count count s 0 count none t root idx root free fits h (omega arith)
        (Reaches-none s root) refl tt in
    (n.root, n.target, n.after, n.run, n.top, n.found, n.keeps)

-- Making the path to a field writable, in a table whose root leads to a segment tree, keeps the
-- reference counts right: where the counter of each node is the number of the references that nodes
-- and tables have to it, modulo 2 ^ 30, that is so again, with the new root in place of the old
-- one. It takes that no node is in use that is still to be allocated, and that the counters fit 30
-- bits.
pub prepare_to_write-Counted :
    (s : Statics) (count idx : ℕ) (root : Option ℕ) (others : List ℕ) (t : Tree)
    → Fresh s
    → Fits s
    → Holds s 0 count root t
    → Counted s (ids root ++ others) []
    → (root' target : Option ℕ) × (after : Statics) × (prepare_to_write count root idx s
        ≡ some ((root', target), after))
      × Counted after (ids root' ++ others) []
unfolding prepare_to_write
prepare_to_write-Counted s count idx root others t free fits h c =
    let n =
      path-run count count s 0 count none t root idx root free fits h (omega arith)
        (Reaches-none s root) refl tt in
    (n.root, n.target, n.after, n.run, n.counted others c)

-- Making the path to a field writable, in a table whose root leads to a segment tree, ends, and
-- then each node on the path, from the new root down to the field or to where the path breaks off,
-- has the counter 1. It takes that no node is in use that is still to be allocated, and that the
-- counters fit 30 bits.
pub prepare_to_write-Clear :
    (s : Statics) (count idx : ℕ) (root : Option ℕ) (t : Tree)
    → Fresh s
    → Fits s
    → Holds s 0 count root t
    → (root' target : Option ℕ) × (after : Statics) × (prepare_to_write count root idx s
        ≡ some ((root', target), after))
      × Clear after 0 count root' t idx
unfolding prepare_to_write
prepare_to_write-Clear s count idx root t free fits h =
    let n =
      path-run count count s 0 count none t root idx root free fits h (omega arith)
        (Reaches-none s root) refl tt in
    (
      n.root,
      n.target,
      n.after,
      n.run,
      subst (λ x. Clear n.after 0 count x t idx) (sym n.cleared.at_top) n.cleared.clear,
    )
