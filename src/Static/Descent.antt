-- ===== src/Static/Descent.antt =====
-- One round of the loop of `_cesk_static_tree_prepare_to_write`, and the rest of it.
use adam.Base.{
  ℕ, List, [], zero, suc, ◌-◌, ◌≡◌, refl, sym, ◌∙◌, ap, subst, true, false, Option, none, some, ltb,
  arith,
}
use adam.Static.{inner, Statics, middle, Slot, prepare_path, new_root}
use adam.Static.Shape.{Tree, bare, branch, Holds, lookup, value_at, children-body}
use adam.Static.Extend.{Keeps-refl, Keeps-trans}
use adam.Static.Counted.{Counted}
use adam.Static.Clear.{Above, Tops, Cleared-step, still_single, Clear-left, Clear-right}
use adam.Static.Reference.{Reaches, holders}
use adam.Static.Prepare.{Prepared}
use adam.Static.Ready.{Starts, Rooted, users, Ready, Counted-root, users-some, top-leaf}

pub Tops-root :
    (slot : Slot) (q : ℕ) (ret root : Option ℕ)
    → root ≡ new_root slot q ret
    → Tops slot root (some q)
Tops-root none q ret root h = h
Tops-root (some x) q ret root h = tt

-- One step of the loop, and the rest of it.
module _ (count fuel : ℕ) (s : Statics) (l r : ℕ) (slot : Slot) (t u : Tree) (ret : Option ℕ)
    (idx p : ℕ) (c e : Option ℕ) (wide : ltb 1 (r - l) ≡ true)
    (d : Prepared count s slot p (inner c e))
    (whole : Holds d.after l r (some d.writable) (branch t u))
    (old : Holds s l r (some p) (branch t u)) (left : Holds s l (middle l r) c t)
    (right : Holds s (middle l r) r e u) (above : Above s slot (branch t u)) where
  pub step_left :
      ltb idx (middle l r) ≡ true
      → Ready count fuel d.after l
          (middle l r)
          (some (d.writable, false))
          t
          (new_root slot d.writable ret)
          idx
          c
      → Ready count (suc fuel) s l r slot (branch t u) ret idx (some p)
  unfolding prepare_path lookup
  step_left below n = record {
    root = n.root;
    target = n.target;
    after = n.after;
    run = ground (arith, wide, d.run, children-body d.after d.writable c e d.body, below, n.run);
    keeps = Keeps-trans s d.after n.after d.keeps n.keeps;
    found = n.found ∙ ap some (rw (lookup, below) refl);
    top = subst (Rooted slot n.after l r (branch t u) ret) (sym n.top) (
        top-leaf slot n.after l r d.writable (branch t u) ret
          (n.keeps.holds l r (some d.writable) (branch t u) whole));
    counted = λ others k. Counted-root n.after slot d.writable ret n.root others n.top (
        n.counted (holders slot d.writable others)
          (d.counted others (subst (λ xs. Counted s xs []) (users-some slot p others) k)));
    cleared =
        let go =
          Cleared-step count s n.after l r slot t u t idx p c e d old left right whole above l
            (middle l r) false n.root n.cleared (omega arith) in
        let single =
          still_single count s n.after l r slot t u t idx p c e d old left right whole above l
            (middle l r) false n.root n.cleared (omega arith) in
        go (Tops-root slot d.writable ret n.root n.top) (
          Clear-left n.after l r d.writable t u idx n.cleared.first
            (n.keeps.holds l r (some d.writable) (branch t u) whole) single below n.cleared.linked
            n.cleared.clear);
  }

  pub step_right :
      ltb idx (middle l r) ≡ false
      → Ready count fuel d.after
          (middle l r)
          r
          (some (d.writable, true))
          u
          (new_root slot d.writable ret)
          idx
          e
      → Ready count (suc fuel) s l r slot (branch t u) ret idx (some p)
  unfolding prepare_path lookup
  step_right beyond n = record {
    root = n.root;
    target = n.target;
    after = n.after;
    run = ground (arith, wide, d.run, children-body d.after d.writable c e d.body, beyond, n.run);
    keeps = Keeps-trans s d.after n.after d.keeps n.keeps;
    found = n.found ∙ ap some (rw (lookup, beyond) refl);
    top = subst (Rooted slot n.after l r (branch t u) ret) (sym n.top) (
        top-leaf slot n.after l r d.writable (branch t u) ret
          (n.keeps.holds l r (some d.writable) (branch t u) whole));
    counted = λ others k. Counted-root n.after slot d.writable ret n.root others n.top (
        n.counted (holders slot d.writable others)
          (d.counted others (subst (λ xs. Counted s xs []) (users-some slot p others) k)));
    cleared =
        let go =
          Cleared-step count s n.after l r slot t u u idx p c e d old left right whole above
            (middle l r) r true n.root n.cleared (omega arith) in
        let single =
          still_single count s n.after l r slot t u u idx p c e d old left right whole above
            (middle l r) r true n.root n.cleared (omega arith) in
        go (Tops-root slot d.writable ret n.root n.top) (
          Clear-right n.after l r d.writable t u idx n.cleared.first
            (n.keeps.holds l r (some d.writable) (branch t u) whole) single beyond n.cleared.linked
            n.cleared.clear);
  }

pub path-bare :
    (count fuel : ℕ) (s : Statics) (l r : ℕ) (slot : Slot) (ret : Option ℕ) (idx : ℕ)
    → Starts slot ret none
    → Reaches s slot none
    → Ready count fuel s l r slot bare ret idx none
unfolding prepare_path lookup value_at
path-bare count fuel s l r slot ret idx start reach = record {
  root = ret;
  target = none;
  after = s;
  run = go fuel;
  keeps = Keeps-refl s;
  found = refl;
  top = top slot start;
  counted = same slot start;
  cleared = record {
    first = none;
    at_top = at_top slot start;
    linked = reach;
    clear = tt;
    counts = λ z big. refl;
    bodies = λ z b big h off. h;
  };
}
  where
    at_top : (x : Slot) → Starts x ret none → Tops x ret none
    at_top none h = h
    at_top (some x) h = tt

    go : (f : ℕ) → prepare_path count f l r slot none ret idx s ≡ some ((ret, none), s)
    go zero = refl
    go (suc f) = refl

    same :
        (x : Slot)
        → Starts x ret none
        → (others : List ℕ) → Counted s (users x none others) []
        → Counted s (users x ret others) []
    same none h others c = subst (λ z. Counted s (users none z others) []) (sym h) c
    same (some x) h others c = c

    top : (x : Slot) → Starts x ret none → Rooted x s l r bare ret ret
    top none h = h
    top (some x) h = refl
