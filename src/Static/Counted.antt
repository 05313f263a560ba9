-- ===== src/Static/Counted.antt =====
-- The invariant of the reference counts: the counter of a node is the number of references to it, from
-- other nodes and from tables, in the 30 bits that it has.
use adam.Base.{
  ℕ, zero, suc, ◌+◌, Bool, ◌-◌, ◌%◌, ◌^◌, ◌<◌, ◌≡◌, refl, sym, ◌∙◌, ap, true, false, Option, none,
  some, List, [], ◌∷◌, ◌++◌, ◌==◌, ltb, arith, Bool-cases, inl, inr, if◌then◌else◌, ==_refl,
}
use adam.Static.{Body, leaf, inner, Node, Statics, set_node, with_child, with_refcnt}
use adam.Static.Shape.{Fresh}
use adam.Static.Relink.{child, relinked}

abbrev pub ids : Option ℕ → List ℕ
ids none = []
ids (some p) = p ∷ []

-- How often a node is on a list.
abbrev pub occurrences : ℕ → List ℕ → ℕ
occurrences x [] = 0
occurrences x (y ∷ ys) = (if x == y then 1 else 0) + occurrences x ys

abbrev pub points : Option ℕ → ℕ → ℕ
points none x = 0
points (some p) x = if x == p then 1 else 0

abbrev pub body_arrows : Body → ℕ → ℕ
body_arrows (leaf v) x = 0
body_arrows (inner c d) x = points c x + points d x

abbrev pub arrows : Option Node → ℕ → ℕ
arrows none x = 0
arrows (some n) x = body_arrows n.body x

-- The references to `x` from the first nodes.
unfoldable pub refs : (ℕ → Option Node) → ℕ → ℕ → ℕ
refs f zero x = 0
refs f (suc n) x = refs f n x + arrows (f n) x

abbrev pub count_of : Option Node → ℕ
count_of none = 0
count_of (some n) = n.refcnt

-- `roots` has a node for each table, and `debts` one for each reference that is still to be counted.
abbrev pub Counted : Statics → List ℕ → List ℕ → Type 0
Counted s roots debts =
    (x : ℕ)
    → (count_of (s.node x) + occurrences x debts) % 2 ^ 30
      ≡ (refs s.node s.next x + occurrences x roots) % 2 ^ 30

refs-same :
    (f g : ℕ → Option Node) (n x : ℕ)
    → ((q : ℕ) → q < n → arrows (g q) x ≡ arrows (f q) x)
    → refs g n x ≡ refs f n x
unfolding refs
refs-same f g zero x h = refl
refs-same f g (suc n) x h =
    omega (arith, h n (omega arith), refs-same f g n x (λ q le. h q (omega (arith, le))))

refs-update :
    (f g : ℕ → Option Node) (n w x : ℕ)
    → w < n
    → ((q : ℕ) → (q == w) ≡ false → g q ≡ f q)
    → refs g n x + arrows (f w) x ≡ refs f n x + arrows (g w) x
unfolding refs
refs-update f g zero w x h k = absurd (omega (arith, h))
refs-update f g (suc n) w x h k = elim (Bool-cases (n == w)) [
  | inl y ↦
      let same : n ≡ w = ground (arith, y) in
      let below =
        refs-same f g n x (λ q le. ap (λ o. arrows o x) (k q (ground (arith, le, same)))) in
      omega (arith, below, ap (λ z. arrows (f z) x) same, ap (λ z. arrows (g z) x) same)
  | inr o ↦
      let less : w < n = ground (arith, o, h) in
      omega (arith, refs-update f g n w x less k, ap (λ z. arrows z x) (k n o))
]

-- A step that changes the counter of one node.
recount-refs :
    (s : Statics) (p k : ℕ) (n : Node) (x : ℕ)
    → s.node p ≡ some n
    → refs (set_node p (some (with_refcnt n k)) s).node s.next x ≡ refs s.node s.next x
recount-refs s p k n x here =
    refs-same s.node (set_node p (some (with_refcnt n k)) s).node s.next x (λ q le.
      elim (Bool-cases (q == p)) [
        | inl y ↦
            let same : q ≡ p = ground (arith, y) in
            rw y (sym (ap (λ o. arrows o x) (ap s.node same ∙ here)))
        | inr o ↦ rw o refl
      ])

-- The counter of a node after one is written.
count_of-hit :
    (s : Statics) (p x : ℕ) (n m : Node)
    → s.node p ≡ some n
    → (x == p) ≡ true
    → (count_of (s.node x) ≡ n.refcnt)
      × (count_of ((set_node p (some m) s).node x) ≡ m.refcnt)
      × (◌≡◌ {A = ℕ} (if x == p then 1 else 0) 1)
count_of-hit s p x n m here y =
    let same : x ≡ p = ground (arith, y) in
    (ap count_of (ap s.node same ∙ here), rw y refl, rw y refl)

count_of-missed :
    (s : Statics) (p x : ℕ) (m : Node)
    → (x == p) ≡ false
    → (count_of ((set_node p (some m) s).node x) ≡ count_of (s.node x))
      × (◌≡◌ {A = ℕ} (if x == p then 1 else 0) 0)
count_of-missed s p x m o = (rw o refl, rw o refl)

pub Counted-incref :
    (s : Statics) (p : ℕ) (n : Node) (roots debts : List ℕ)
    → s.node p ≡ some n
    → Counted s roots (p ∷ debts)
    → Counted (set_node p (some (with_refcnt n (n.refcnt + 1))) s) roots debts
Counted-incref s p n roots debts here h x =
    let m = with_refcnt n (n.refcnt + 1) in
    let same = recount-refs s p (n.refcnt + 1) n x here in
    elim (Bool-cases (x == p)) [
      | inl y ↦
          let (old, new, one) = count_of-hit s p x n m here y in
          omega (arith, h x, old, new, one, same)
      | inr o ↦
          let (new, none_here) = count_of-missed s p x m o in
          omega (arith, h x, new, none_here, same)
    ]

pub Counted-decref :
    (s : Statics) (p : ℕ) (n : Node) (roots debts : List ℕ)
    → s.node p ≡ some n
    → Counted s (p ∷ roots) debts
    → Counted (set_node p (some (with_refcnt n (n.refcnt + 2 ^ 30 - 1))) s) roots debts
Counted-decref s p n roots debts here h x =
    let m = with_refcnt n (n.refcnt + 2 ^ 30 - 1) in
    let same = recount-refs s p (n.refcnt + 2 ^ 30 - 1) n x here in
    elim (Bool-cases (x == p)) [
      | inl y ↦
          let (old, new, one) = count_of-hit s p x n m here y in
          omega (arith, h x, old, new, one, same)
      | inr o ↦
          let (new, none_here) = count_of-missed s p x m o in
          omega (arith, h x, new, none_here, same)
    ]

-- The children of a new node are references that are to be counted.
abbrev pub kids : Body → List ℕ
kids (leaf v) = []
kids (inner c d) = ids c ++ ids d

kids-occurrences :
    (b : Body) (x : ℕ) (debts : List ℕ)
    → occurrences x (kids b ++ debts) ≡ body_arrows b x + occurrences x debts
kids-occurrences (leaf v) x debts = omega arith
kids-occurrences (inner none none) x debts = omega arith
kids-occurrences (inner none (some d)) x debts = omega arith
kids-occurrences (inner (some c) none) x debts = omega arith
kids-occurrences (inner (some c) (some d)) x debts = omega arith

abbrev pub fresh_node : Body → Node
fresh_node b = record { reloc = false; refcnt = 0; body = b }

pub Counted-alloc :
    (s : Statics) (b : Body) (roots debts : List ℕ)
    → Fresh s
    → Counted s roots debts
    → Counted
        (record (set_node s.next (some (fresh_node b)) s) { next = s.next + 1 })
        roots
        (kids b ++ debts)
unfolding refs
Counted-alloc s b roots debts free h x =
    let t : Statics = set_node s.next (some (fresh_node b)) s in
    let below =
      refs-same s.node t.node s.next x
        (λ q le. let other : (q == s.next) ≡ false = ground (arith, le) in rw other refl) in
    let top : arrows (t.node s.next) x ≡ body_arrows b x = rw (==_refl s.next) refl in
    let up : s.next + 1 ≡ suc s.next = omega arith in
    let last : refs t.node (s.next + 1) x ≡ refs t.node s.next x + arrows (t.node s.next) x =
      ap (λ n. refs t.node n x) up in
    let counter : count_of (t.node x) ≡ count_of (s.node x) = elim (Bool-cases (x == s.next)) [
      | inl y ↦
          let same : x ≡ s.next = ground (arith, y) in rw (y, free x (omega (arith, same))) refl
      | inr o ↦ rw o refl
    ] in
    omega (arith, h x, below, top, last, counter, kids-occurrences b x debts)

with_child-arrows :
    (b : Body) (right : Bool) (p q x : ℕ)
    → child b right ≡ some p
    → body_arrows (with_child b right (some q)) x + points (some p) x
      ≡ body_arrows b x + points (some q) x
unfolding with_child
with_child-arrows (leaf v) right p q x h = absurd (ground (arith, h))
with_child-arrows (inner c d) false p q x h = omega (arith, ap (λ z. points z x) h)
with_child-arrows (inner c d) true p q x h = omega (arith, ap (λ z. points z x) h)

-- A reference that moves from `p` to `q` leaves one to `p` to be given back.
pub Counted-relinked :
    (s : Statics) (w : ℕ) (n : Node) (right : Bool) (p q : ℕ) (roots debts : List ℕ)
    → Fresh s
    → s.node w ≡ some n
    → child n.body right ≡ some p
    → Counted s roots debts
    → Counted (relinked s w n right q) (p ∷ roots) (q ∷ debts)
Counted-relinked s w n right p q roots debts free here link h x =
    let t = relinked s w n right q in
    let within : w < s.next = elim (Bool-cases (ltb w s.next)) [
      | inl y ↦ ground (arith, y)
      | inr o ↦ absurd (ground (arith, here, free w (ground (arith, o))))
    ] in
    let moved = refs-update s.node t.node s.next w x within (λ z o. rw o refl) in
    let old : arrows (s.node w) x ≡ body_arrows n.body x = ap (λ o. arrows o x) here in
    let new : arrows (t.node w) x ≡ body_arrows (with_child n.body right (some q)) x =
      rw (==_refl w) refl in
    let counter : count_of (t.node x) ≡ count_of (s.node x) = elim (Bool-cases (x == w)) [
      | inl y ↦
          let same : x ≡ w = ground (arith, y) in rw y (sym (ap count_of (ap s.node same ∙ here)))
      | inr o ↦ rw o refl
    ] in
    omega (arith, h x, moved, old, new, counter, with_child-arrows n.body right p q x link)
