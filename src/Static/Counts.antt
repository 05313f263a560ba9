-- ===== src/Static/Counts.antt =====
-- Runs of the functions that count references and copy nodes.
use adam.Base.{
  ℕ, List, ◌++◌, suc, ◌+◌, ◌-◌, ◌%◌, ◌^◌, ◌<◌, ◌≡◌, ◌≢◌, refl, sym, ◌∙◌, ap, subst, false, Option,
  none, some, ◌==◌, arith, Bool-cases, inl, inr, if◌then◌else◌, ==_refl,
}
use adam.CeskSet
use adam.CeskSet.Methods
use adam.CeskSet.Methods.{Handle}
use adam.CeskSet.{find_info, hash_find, set_info}
use adam.Static.{Body, Node, Statics, set_node, with_refcnt, incref, decref}
use adam.Static.Shape.{body_at, Live}
use mathlib.Core.Option.{some-injective}
use adam.Static.Counted.{count_of, ids, Counted, Counted-incref}
use adam.Static.Extend.{Extends, Extends-refl, recount, node-body_at}

abbrev pub Present : Statics → Option ℕ → Type 0
Present s none = Unit
Present s (some p) = (b : Body) × (body_at s p ≡ some b)

pub Present-Extends : (s t : Statics) (p : Option ℕ) → Extends s t → Present s p → Present t p
Present-Extends s t none e h = tt
Present-Extends s t (some p) e (b, at) = (b, e.bodies p b at)

pub incref-run :
    (s : Statics) (p : Option ℕ)
    → Present s p
    → (t : Statics) × (incref p s ≡ some (tt, t))
      × Extends s t
      × ((q : ℕ) → p ≢ some q → t.node q ≡ s.node q)
      × ((roots debts : List ℕ) → Counted s roots (ids p ++ debts) → Counted t roots debts)
      × ((q : ℕ) → p ≡ some q → count_of (t.node q) ≡ (count_of (s.node q) + 1) % 2 ^ 30)
unfolding incref
incref-run s none h = (
  s,
  refl,
  Extends-refl s,
  λ q other. refl,
  λ roots debts c. c,
  λ q e. absurd (ground (arith, e)),
)
incref-run s (some p) (b, h) =
    let (n, here, _) = node-body_at s p b h in
    (
      set_node p (some (with_refcnt n (n.refcnt + 1))) s,
      ground (arith, here),
      recount s p n (n.refcnt + 1) here,
      λ q other. elim (Bool-cases (q == p)) [
        | inl y ↦ let same : q ≡ p = ground (arith, y) in absurd (other (ap some (sym same)))
        | inr o ↦ rw o refl
      ],
      λ roots debts. Counted-incref s p n roots debts here,
      λ q e.
          let same : p ≡ q = some-injective p q e in
          subst
            (λ x.
              count_of ((set_node p (some (with_refcnt n (n.refcnt + 1))) s).node x)
              ≡ (count_of (s.node x) + 1) % 2 ^ 30)
            same (rw (==_refl p, here) refl),
    )

-- A reference is given back that is not the last one.
pub decref-run :
    (s : Statics) (fuel p : ℕ) (n : Node)
    → s.node p ≡ some n
    → n.refcnt < 2 ^ 30
    → n.refcnt ≢ 1
    → decref (suc fuel) (some p) s
      ≡ some (tt, set_node p (some (with_refcnt n (n.refcnt + 2 ^ 30 - 1))) s)
unfolding decref
decref-run s fuel p n here small shared =
    let left : ((n.refcnt + 2 ^ 30 - 1) % 2 ^ 30 == 0) ≡ false = ground (arith, small, shared) in
    ground (arith, here, left)

find_info-set_info :
    (t : CeskSet.Sets) (idx : ℕ) (j : CeskSet.Info) (k : ℕ)
    → (k == idx) ≡ false
    → find_info (set_info idx (some j) t) k ≡ find_info t k
unfolding find_info hash_find
find_info-set_info t idx j k n =
    ap
      (λ (o : Option CeskSet.Info).
        if hash_find t (CeskSet.key k CeskSet.Methods.invalid) then o else none)
      (rw n refl)

find_info-set_same :
    (t : CeskSet.Sets) (idx : ℕ) (i j : CeskSet.Info)
    → find_info t idx ≡ some i
    → find_info (set_info idx (some j) t) idx ≡ some j
unfolding find_info hash_find
find_info-set_same t idx i j h =
    elim (Bool-cases (hash_find t (CeskSet.key idx CeskSet.Methods.invalid))) [
      | inl y ↦ ground (arith, y, ==_refl idx)
      | inr n ↦ absurd (ground (arith, n, h))
    ]

Live-set_info :
    (t : CeskSet.Sets) (idx : ℕ) (i j : CeskSet.Info) (v : Handle)
    → find_info t idx ≡ some i
    → Live t v
    → Live (set_info idx (some j) t) v
Live-set_info t idx i j none old h = h
Live-set_info t idx i j (some k) old (x, h) = elim (Bool-cases (k == idx)) [
  | inl y ↦
      let same : k ≡ idx = ground (arith, y) in
      (
        j,
        subst (λ q. find_info (set_info idx (some j) t) q ≡ some j) (sym same)
            (find_info-set_same t idx i j old),
      )
  | inr n ↦ (x, find_info-set_info t idx j k n ∙ h)
]

pub fork-run :
    (t : CeskSet.Sets) (v : Handle)
    → Live t v
    → (u : CeskSet.Sets) × (Methods.fork v t ≡ some (v, u)) × ((w : Handle) → Live t w → Live u w)
unfolding Methods.fork
fork-run t none h = (t, refl, λ w k. k)
fork-run t (some idx) (i, h) =
    let j : CeskSet.Info = record i { refcnt = (i.refcnt + 1) % 2 ^ 32 } in
    (set_info idx (some j) t, ground (arith, h), λ w. Live-set_info t idx i j w h)
