-- ===== src/TagSet/Alive.antt =====
-- Tag sets that stay on the heap while others take references.
use adam.Base.{
  ℕ, ◌+◌, ◌%◌, ◌^◌, ◌≡◌, ◌≢◌, refl, sym, ◌∙◌, ap, false, some, ◌==◌, arith, Bool-cases, inl, inr,
}
use mathlib.Core.Option.{some-injective}
use adam.TagSet.{TagSet, State, write, incref, fork, empty, load}

-- Each set is where it was, with the items and the hash that it had.
abbrev pub Kept : State → State → Type 0
Kept s s' =
    (q : ℕ) (t : TagSet)
    → s.heap q ≡ some t
    → (t' : TagSet) × (s'.heap q ≡ some t') × (t'.hashcode ≡ t.hashcode) × (t'.items ≡ t.items)

pub Kept-trans : (r s t : State) → Kept r s → Kept s t → Kept r t
Kept-trans r s t f g q x e =
    let (y, at_y, hash_y, items_y) = f q x e in
    let (z, at_z, hash_z, items_z) = g q y at_y in (z, at_z, hash_z ∙ hash_y, items_z ∙ items_y)

-- One reference more.
pub referred : State → ℕ → TagSet → State
referred s p t = record s {
  heap = write s.heap p (some (record t { refcnt = (t.refcnt + 1) % 2 ^ 32 }));
}

pub referred-Kept : (s : State) (p : ℕ) (t : TagSet) → s.heap p ≡ some t → Kept s (referred s p t)
unfolding referred
referred-Kept s p t e q x f = elim (Bool-cases (q == p)) [
  | inl y ↦
      let same : t ≡ x = some-injective t x (sym e ∙ ap s.heap (ground (arith, y)) ∙ f) in
      (
        record t { refcnt = (t.refcnt + 1) % 2 ^ 32 },
        rw y refl,
        ap (λ u. u.hashcode) same,
        ap (λ u. u.items) same,
      )
  | inr n ↦ (x, rw n f, refl, refl)
]

pub incref-referred :
    (s : State) (p : ℕ) (t : TagSet) → s.heap p ≡ some t → incref p s ≡ some (tt, referred s p t)
unfolding incref referred
incref-referred s p t e = ground (arith, e)

pub empty-referred :
    (s : State) (t : TagSet)
    → s.heap s.empty_at ≡ some t
    → empty s ≡ some (s.empty_at, referred s s.empty_at t)
unfolding empty referred
empty-referred s t e = ground (arith, e)

pub fork-referred :
    (s : State) (p : ℕ) (t : TagSet)
    → p ≢ 0
    → s.heap p ≡ some t
    → fork p s ≡ some (p, referred s p t)
unfolding fork referred
fork-referred s p t ne e = let b : (p == 0) ≡ false = ground (arith, ne) in ground (arith, b, e)

pub load-found : (s : State) (p : ℕ) (t : TagSet) → s.heap p ≡ some t → load p s ≡ some (t, s)
unfolding load
load-found s p t e = ground (arith, e)
