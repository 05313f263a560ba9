-- ===== src/Store/Allocated.antt =====
-- What the search for a place finds.
use adam.Base.{
  ℕ, zero, suc, ◌+◌, ◌<◌, ◌≡◌, refl, sym, ◌∙◌, ap, Bool, true, false, ◌&&◌, Option, none, some,
  List, [], ◌∷◌, ◌==◌, if◌then◌else◌, length, arith, Bool-cases, inl, inr, ==_refl, has, Distinct,
}
use mathlib.Core.Option.{some-injective}
use adam.Store.{
  Param, param_equal, Slot, Memory, block_at, set_slot, first_found, scan_blocks, taken,
}

-- A slot that is in use for the parameter.
abbrev pub hit : Memory → Param → ℕ → ℕ → Bool
hit mem p o q = ((mem.block q).slots o).inuse && param_equal p ((mem.block q).slots o).param

abbrev pub Clear : Memory → Param → ℕ → List ℕ → Type 0
Clear mem p o [] = Unit
Clear mem p o (q ∷ qs) = (hit mem p o q ≡ false) × Clear mem p o qs

pub scan_blocks-Clear :
    (mem : Memory) (p : Param) (o : ℕ) (qs : List ℕ) (b : ℕ) (e : Option (ℕ × ℕ))
    → (scan_blocks mem p o qs b e).1 ≡ none
    → Clear mem p o qs
unfolding scan_blocks
scan_blocks-Clear mem p o [] b e h = tt
scan_blocks-Clear mem p o (q ∷ qs) b e h = elim (Bool-cases (hit mem p o q)) [
  | inl y ↦ absurd (ground (arith, rw y at h))
  | inr n ↦ (n, scan_blocks-Clear mem p o qs (b + 1) _ (rw n at h))
]

-- The search goes on with the place that it has.
pub scan_blocks-keeps :
    (mem : Memory) (p : Param) (o : ℕ) (qs : List ℕ) (b : ℕ) (x : ℕ × ℕ)
    → (scan_blocks mem p o qs b (some x)).0 ≡ some x
unfolding scan_blocks
scan_blocks-keeps mem p o [] b x = refl
scan_blocks-keeps mem p o (q ∷ qs) b x = elim (Bool-cases (((mem.block q).slots o).inuse)) [
  | inl y ↦ elim (Bool-cases (param_equal p ((mem.block q).slots o).param)) [
    | inl z ↦ rw (y, z) refl
    | inr w ↦ rw (y, w) (scan_blocks-keeps mem p o qs (b + 1) x)
  ]
  | inr n ↦ rw n (scan_blocks-keeps mem p o qs (b + 1) x)
]

-- An empty place that is found is the slot of a block on the list.
pub record IsPlace (mem : Memory) (o : ℕ) (qs : List ℕ) (b : ℕ) (x : ℕ × ℕ) : Type 0 where
  pub index : ℕ
  pub at : x.0 ≡ b + index
  pub within : index < length qs
  pub slot : x.1 ≡ o
  pub empty : ((mem.block (block_at qs index)).slots o).inuse ≡ false

pub scan_blocks-IsPlace :
    (mem : Memory) (p : Param) (o : ℕ) (qs : List ℕ) (b : ℕ) (x : ℕ × ℕ)
    → Clear mem p o qs
    → (scan_blocks mem p o qs b none).0 ≡ some x
    → IsPlace mem o qs b x
unfolding scan_blocks block_at
scan_blocks-IsPlace mem p o [] b x c h = absurd (ground (arith, h))
scan_blocks-IsPlace mem p o (q ∷ qs) b x (free, c) h =
    elim (Bool-cases (((mem.block q).slots o).inuse)) [
      | inl y ↦
          let other : param_equal p ((mem.block q).slots o).param ≡ false =
            ground (arith, y, free) in
          let r = scan_blocks-IsPlace mem p o qs (b + 1) x c (rw (y, other) at h) in
          record {
            index = suc r.index;
            at = omega (arith, r.at);
            within = omega (arith, r.within);
            slot = r.slot;
            empty = r.empty;
          }
      | inr n ↦
          let here : (b, o) ≡ x =
            some-injective (b, o) x
              (sym (scan_blocks-keeps mem p o qs (b + 1) (b, o)) ∙ rw n at h) in
          record {
            index = 0;
            at = sym (ap (λ (z : ℕ × ℕ). z.0) here) ∙ omega arith;
            within = omega arith;
            slot = sym (ap (λ (z : ℕ × ℕ). z.1) here);
            empty = n;
          }
    ]

-- The memory after the slot `o` of a block is given out.
abbrev pub given : Memory → Param → ℕ → ℕ → Memory
given mem p q o = set_slot q o (taken p ((mem.block q).slots o)) mem

-- One round of the loop over the blocks.
abbrev look :
    Param
    → Slot
    → ℕ × ℕ
    → Option (ℕ × ℕ)
    → (Option (ℕ × ℕ) → Option (ℕ × ℕ) × Option (ℕ × ℕ))
    → Option (ℕ × ℕ) × Option (ℕ × ℕ)
look p slot place e next =
    let seen = if slot.inuse then e else first_found e place in
    if slot.inuse && param_equal p slot.param then (seen, some place) else next seen

scan_blocks-look :
    (mem : Memory) (p : Param) (o q : ℕ) (qs : List ℕ) (b : ℕ) (e : Option (ℕ × ℕ))
    → scan_blocks mem p o (q ∷ qs) b e
      ≡ look p ((mem.block q).slots o) (b, o) e (λ seen. scan_blocks mem p o qs (b + 1) seen)
unfolding scan_blocks
scan_blocks-look mem p o q qs b e = refl

given-other :
    (mem : Memory) (p : Param) (q o r i : ℕ)
    → ((r == q) && (i == o)) ≡ false
    → ((given mem p q o).block r).slots i ≡ (mem.block r).slots i
given-other mem p q o r i n = elim (Bool-cases (r == q)) [
  | inl y ↦
      let same : r ≡ q = ground (arith, y) in
      let differ : (i == o) ≡ false = ground (arith, y, n) in
      rw (y, differ) (ap (λ t. (mem.block t).slots i) (sym same))
  | inr m ↦ rw m refl
]

pub given-here :
    (mem : Memory) (p : Param) (q o : ℕ)
    → ((given mem p q o).block q).slots o ≡ taken p ((mem.block q).slots o)
given-here mem p q o = rw (==_refl q, ==_refl o) refl

-- Other slots are as they were.
pub scan_blocks-other :
    (mem : Memory) (p : Param) (q o i : ℕ) (qs : List ℕ) (b : ℕ) (e : Option (ℕ × ℕ))
    → (i == o) ≡ false
    → scan_blocks (given mem p q o) p i qs b e ≡ scan_blocks mem p i qs b e
unfolding scan_blocks
scan_blocks-other mem p q o i [] b e n = refl
scan_blocks-other mem p q o i (r ∷ rs) b e n =
    let slot = given-other mem p q o r i (ground (arith, n)) in
    λ j. look p (slot j) (b, i) e (λ seen. scan_blocks-other mem p q o i rs (b + 1) seen n j)

look-taken :
    (p : Param) (slot : Slot) (place : ℕ × ℕ) (e : Option (ℕ × ℕ))
    (next : Option (ℕ × ℕ) → Option (ℕ × ℕ) × Option (ℕ × ℕ))
    → look p (taken p slot) place e next ≡ (e, some place)
look-taken p slot place e next = rw (==_refl p.inst, ==_refl p.offset) refl

pub block_at-has : (qs : List ℕ) (i : ℕ) → i < length qs → has (block_at qs i) qs ≡ true
unfolding block_at
block_at-has [] i lt = absurd (omega arith)
block_at-has (q ∷ qs) zero lt = rw (==_refl q) refl
block_at-has (q ∷ qs) (suc i) lt = rw (block_at-has qs i (omega arith)) (ground arith)

apart : (q r : ℕ) (qs : List ℕ) → has q qs ≡ false → has r qs ≡ true → (q == r) ≡ false
apart q r qs n y = elim (Bool-cases (q == r)) [
  | inl same ↦
      let t : has q qs ≡ has r qs = ap (λ x. has x qs) (ground (arith, same)) in
      absurd (ground (arith, t, n, y))
  | inr m ↦ m
]

look-passes :
    (p : Param) (slot : Slot) (place : ℕ × ℕ) (e : Option (ℕ × ℕ)) (x : ℕ × ℕ)
    (next : Option (ℕ × ℕ) → Option (ℕ × ℕ) × Option (ℕ × ℕ))
    → (slot.inuse && param_equal p slot.param) ≡ false
    → ((seen : Option (ℕ × ℕ)) → (next seen).1 ≡ some x)
    → (look p slot place e next).1 ≡ some x
look-passes p slot place e x next n h = rw n (h _)

-- The slot that is given out is found.
pub scan_blocks-finds :
    (mem : Memory) (p : Param) (o : ℕ) (qs : List ℕ) (b i : ℕ) (e : Option (ℕ × ℕ))
    → Distinct qs
    → Clear mem p o qs
    → i < length qs
    → (scan_blocks (given mem p (block_at qs i) o) p o qs b e).1 ≡ some (b + i, o)
unfolding block_at
scan_blocks-finds mem p o [] b i e d c lt = absurd (omega arith)
scan_blocks-finds mem p o (q ∷ qs) b zero e d c lt =
    let next = scan_blocks (given mem p q o) p o qs (b + 1) in
    ap (λ (r : Option (ℕ × ℕ) × Option (ℕ × ℕ)). r.1)
      (scan_blocks-look (given mem p q o) p o q qs b e
        ∙ ap (λ s. look p s (b, o) e next) (given-here mem p q o)
        ∙ look-taken p ((mem.block q).slots o) (b, o) e next)
    ∙ ap (λ (n : ℕ). some (n, o)) (omega arith)
scan_blocks-finds mem p o (q ∷ qs) b (suc i) e (head, d) (free, c) lt =
    let r = block_at qs i in
    let there = block_at-has qs i (omega arith) in
    let differ : (q == r) ≡ false = apart q r qs head there in
    let slot = given-other mem p r o q o (ground (arith, differ)) in
    let next = scan_blocks (given mem p r o) p o qs (b + 1) in
    ap (λ (t : Option (ℕ × ℕ) × Option (ℕ × ℕ)). t.1)
      (scan_blocks-look (given mem p r o) p o q qs b e ∙ ap (λ s. look p s (b, o) e next) slot)
    ∙ look-passes p ((mem.block q).slots o) (b, o) e (b + suc i, o) next free
        (λ seen.
          scan_blocks-finds mem p o qs (b + 1) i seen d c (omega arith)
          ∙ ap (λ (n : ℕ). some (n, o)) (omega arith))

-- A place that the search returns for a parameter holds it.
abbrev pub IsHeld : Memory → Param → List ℕ → ℕ × ℕ → Type 0
IsHeld mem p qs x = (x.0 < length qs) × (hit mem p x.1 (block_at qs x.0) ≡ true)

record IsHit (mem : Memory) (p : Param) (o : ℕ) (qs : List ℕ) (b : ℕ) (x : ℕ × ℕ) : Type 0 where
  index : ℕ
  at : x.0 ≡ b + index
  within : index < length qs
  slot : x.1 ≡ o
  held : hit mem p o (block_at qs index) ≡ true

scan_blocks-IsHit :
    (mem : Memory) (p : Param) (o : ℕ) (qs : List ℕ) (b : ℕ) (e : Option (ℕ × ℕ)) (x : ℕ × ℕ)
    → (scan_blocks mem p o qs b e).1 ≡ some x
    → IsHit mem p o qs b x
unfolding scan_blocks block_at
scan_blocks-IsHit mem p o [] b e x h = absurd (ground (arith, h))
scan_blocks-IsHit mem p o (q ∷ qs) b e x h = elim (Bool-cases (hit mem p o q)) [
  | inl y ↦
      let here : (b, o) ≡ x = some-injective (b, o) x (rw y at h) in
      record {
        index = 0;
        at = sym (ap (λ (z : ℕ × ℕ). z.0) here) ∙ omega arith;
        within = omega arith;
        slot = sym (ap (λ (z : ℕ × ℕ). z.1) here);
        held = y;
      }
  | inr n ↦
      let r = scan_blocks-IsHit mem p o qs (b + 1) _ x (rw n at h) in
      record {
        index = suc r.index;
        at = omega (arith, r.at);
        within = omega (arith, r.within);
        slot = r.slot;
        held = r.held;
      }
]

pub scan_blocks-IsHeld :
    (mem : Memory) (p : Param) (o : ℕ) (qs : List ℕ) (e : Option (ℕ × ℕ)) (x : ℕ × ℕ)
    → (scan_blocks mem p o qs 0 e).1 ≡ some x
    → IsHeld mem p qs x
scan_blocks-IsHeld mem p o qs e x h =
    let r = scan_blocks-IsHit mem p o qs 0 e x h in
    let at : x.0 ≡ r.index = omega (arith, r.at) in
    (
      omega (arith, r.within, at),
      ap (λ i. hit mem p i (block_at qs x.0)) r.slot
          ∙ ap (λ i. hit mem p o (block_at qs i)) at
          ∙ r.held,
    )
