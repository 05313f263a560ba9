-- ===== src/Static/Ready.antt =====
-- `_cesk_static_tree_prepare_to_write`: what a run of its loop from a node on gives, and the runs that
-- end at once.
use adam.Base.{
  ℕ, List, [], ◌++◌, zero, suc, ◌-◌, ◌≡◌, refl, sym, ◌∙◌, ap, subst, Bool, false, Option, none,
  some, ltb, arith,
}
use adam.CeskSet.Methods.{Handle}
use adam.Static.{Body, leaf, inner, Statics, Slot, prepare_node, prepare_path, new_root}
use adam.Static.Shape.{
  Tree, bare, field, branch, body_at, Live, Holds, Fresh, Fits, lookup, value_at,
}
use adam.Static.Extend.{Keeps, node-body_at}
use adam.Static.Counts.{Present}
use adam.Static.Duplicate.{Copies}
use adam.Static.Relink.{child}
use adam.Static.Counted.{ids, Counted}
use adam.Static.Clear.{Cleared, Tops, Bigger-other, Bigger-node}
use adam.Static.Reference.{Reaches, holders, Refers}
use adam.Static.Prepare.{Prepared, prepare_node-run}

-- The variable `ret` leads to the tree, if it is the slot.
abbrev pub Starts : Slot → Option ℕ → Option ℕ → Type 0
Starts none ret p = ret ≡ p
Starts (some x) ret p = Unit

abbrev pub Rooted : Slot → Statics → ℕ → ℕ → Tree → Option ℕ → Option ℕ → Type 0
Rooted none s l r t ret root = Holds s l r root t
Rooted (some x) s l r t ret root = root ≡ ret

-- The tables with `p` in the slot.
abbrev pub users : Slot → Option ℕ → List ℕ → List ℕ
users none p others = ids p ++ others
users (some x) p others = others

pub record Ready (count fuel : ℕ) (s : Statics) (l r : ℕ) (slot : Slot) (t : Tree) (ret : Option ℕ)
    (idx : ℕ) (p : Option ℕ) : Type 0 where
  pub root : Option ℕ
  pub target : Option ℕ
  pub after : Statics
  pub run : prepare_path count fuel l r slot p ret idx s ≡ some ((root, target), after)
  pub keeps : Keeps s after
  pub found : value_at after target ≡ some (lookup l r t idx)
  pub top : Rooted slot after l r t ret root
  pub counted :
      (others : List ℕ)
      → Counted s (users slot p others) []
      → Counted after (users slot root others) []
  pub cleared : Cleared s after l r slot t idx root

pub users-holders :
    (slot : Slot) (q : ℕ) (ret : Option ℕ) (others : List ℕ)
    → users slot (new_root slot q ret) others ≡ holders slot q others
users-holders none q ret others = refl
users-holders (some x) q ret others = refl

pub users-some :
    (slot : Slot) (p : ℕ) (others : List ℕ) → users slot (some p) others ≡ holders slot p others
users-some none p others = refl
users-some (some x) p others = refl

pub Counted-root :
    (t : Statics) (slot : Slot) (q : ℕ) (ret root : Option ℕ) (others : List ℕ)
    → root ≡ new_root slot q ret
    → Counted t (holders slot q others) []
    → Counted t (users slot root others) []
Counted-root t slot q ret root others same c =
    subst (λ x. Counted t (users slot x others) []) (sym same)
      (subst (λ xs. Counted t xs []) (sym (users-holders slot q ret others)) c)

pub value_at-leaf :
    (s : Statics) (p : ℕ) (v : Handle)
    → body_at s p ≡ some (leaf v)
    → value_at s (some p) ≡ some (some v)
unfolding value_at
value_at-leaf s p v h = rw (value_at, h) refl

pub Present-Holds :
    (s : Statics) (l r : ℕ) (p : Option ℕ) (t : Tree) → Holds s l r p t → Present s p
Present-Holds s l r none t h = tt
Present-Holds s l r (some p) bare h = absurd (ground (arith, h))
Present-Holds s l r (some p) (field v) (_, k, _) =
    subst (λ (x : Option ℕ). Present s x) (sym k.pointer) (leaf v, k.body)
Present-Holds s l r (some p) (branch t u) (_, c, d, k, _, _) =
    subst (λ (x : Option ℕ). Present s x) (sym k.pointer) (inner c d, k.body)

pub top-leaf :
    (slot : Slot) (s : Statics) (l r q : ℕ) (t : Tree) (ret : Option ℕ)
    → Holds s l r (some q) t
    → Rooted slot s l r t ret (new_root slot q ret)
top-leaf none s l r q t ret h = h
top-leaf (some x) s l r q t ret h = refl

pub top-first : (slot : Slot) (q : ℕ) (ret : Option ℕ) → Tops slot (new_root slot q ret) (some q)
top-first none q ret = refl
top-first (some x) q ret = tt

-- The node at `p` made ready.
pub prepared :
    (count : ℕ) (s : Statics) (slot : Slot) (p : ℕ) (b : Body)
    → Fresh s
    → Fits s
    → body_at s p ≡ some b
    → Copies s p b
    → Refers s slot p
    → Prepared count s slot p b
prepared count s slot p b free fits at copies ref =
    let (n, here, same) = node-body_at s p b at in
    subst (Prepared count s slot p) same
      (prepare_node-run count s slot p n free fits here (subst (Copies s p) (sym same) copies) ref)

pub path-field :
    (count fuel : ℕ) (s : Statics) (l r : ℕ) (slot : Slot) (v : Handle) (ret : Option ℕ) (idx p : ℕ)
    → Fresh s
    → Fits s
    → ltb 1 (r - l) ≡ false
    → body_at s p ≡ some (leaf v)
    → Live s.sets v
    → Refers s slot p
    → Ready count fuel s l r slot (field v) ret idx (some p)
unfolding prepare_path lookup
path-field count fuel s l r slot v ret idx p free fits narrow at alive ref =
    let whole : Holds s l r (some p) (field v) =
      (narrow, record { target = p; pointer = refl; body = at }, alive) in
    let d = prepared count s slot p (leaf v) free fits at alive ref in
    let (_, _, still) = d.keeps.holds l r (some p) (field v) whole in
    record {
      root = new_root slot d.writable ret;
      target = some d.writable;
      after = d.after;
      run = path-field_run fuel d.run;
      keeps = d.keeps;
      found = value_at-leaf d.after d.writable v d.body;
      top =
          top-leaf slot d.after l r d.writable (field v) ret
            (narrow, record { target = d.writable; pointer = refl; body = d.body }, still);
      counted = λ others k.
          Counted-root d.after slot d.writable ret (new_root slot d.writable ret) others refl
            (d.counted others (subst (λ xs. Counted s xs []) (users-some slot p others) k));
      cleared = record {
        first = some d.writable;
        at_top = top-first slot d.writable ret;
        linked = d.linked;
        clear = (d.writable, refl, d.single);
        counts = λ z big.
            let (m, here) = Bigger-node s (field v) z big in
            d.counts z m here (Bigger-other s l r p z (field v) big whole) tt;
        bodies = λ z b big h off. d.bodies z b h off;
      };
    }
  where
    path-field_run :
        (f : ℕ) {q : ℕ} {t : Statics}
        → prepare_node count slot p s ≡ some (q, t)
        → prepare_path count f l r slot (some p) ret idx s ≡ some ((new_root slot q ret, some q), t)
    path-field_run zero run = ground (arith, run)
    path-field_run (suc f) run = ground (arith, run, narrow)

pub Reaches-child :
    (s : Statics) (q : ℕ) (c d : Option ℕ) (side : Bool) (x : Option ℕ)
    → body_at s q ≡ some (inner c d)
    → child (inner c d) side ≡ x
    → Reaches s (some (q, side)) x
Reaches-child s q c d side x at link =
    let (n, here, same) = node-body_at s q (inner c d) at in
    (n, here, ap (λ (b : Body). child b side) same ∙ link)
