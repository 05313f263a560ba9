-- ===== src/Store/Probing.antt =====
-- The search for a place, before and after the place is given out.
use adam.Base.{
  ℕ, zero, suc, ◌<◌, ◌≡◌, refl, sym, ◌∙◌, ap, subst, ◌⊎◌, Option, none, some, List, ◌==◌, length,
  arith, Bool-cases, Option-cases, inl, inr, Distinct,
}
use mathlib.Core.Option.{some-injective}
use adam.Store.{Param, Memory, block_at, scan_blocks, next_slot, probe}
use adam.Store.Allocated.{
  Clear, given, scan_blocks-Clear, scan_blocks-keeps, IsPlace, scan_blocks-IsPlace,
  scan_blocks-other, scan_blocks-finds, IsHeld, scan_blocks-IsHeld,
}

pub probe-hit :
    (k : ℕ) (mem : Memory) (p : Param) (qs : List ℕ) (o : ℕ) (e : Option (ℕ × ℕ)) (x : ℕ × ℕ)
    → (scan_blocks mem p o qs 0 e).1 ≡ some x
    → (probe (suc k) mem p qs o e).1 ≡ some x
unfolding probe
probe-hit k mem p qs o e x h = ground (arith, h)

pub probe-next :
    (k : ℕ) (mem : Memory) (p : Param) (qs : List ℕ) (o : ℕ) (e f : Option (ℕ × ℕ))
    → (scan_blocks mem p o qs 0 e).1 ≡ none
    → (scan_blocks mem p o qs 0 e).0 ≡ f
    → probe (suc k) mem p qs o e ≡ probe k mem p qs (next_slot o) f
unfolding probe
probe-next k mem p qs o e f h g = ground (arith, h, g)

probe-keeps :
    (k : ℕ) (mem : Memory) (p : Param) (qs : List ℕ) (o : ℕ) (x : ℕ × ℕ)
    → (probe k mem p qs o (some x)).1 ≡ none
    → (probe k mem p qs o (some x)).0 ≡ some x
unfolding probe
probe-keeps zero mem p qs o x h = refl
probe-keeps (suc k) mem p qs o x h =
    let s = scan_blocks mem p o qs 0 (some x) in
    elim (Option-cases s.1) [
      | inr (y, hit_it) ↦ absurd (ground (arith, h, probe-hit k mem p qs o (some x) y hit_it))
      | inl clean ↦
          let go =
            probe-next k mem p qs o (some x) (some x) clean (scan_blocks-keeps mem p o qs 0 x) in
          ap (λ (r : Option (ℕ × ℕ) × Option (ℕ × ℕ)). r.0) go
          ∙ probe-keeps k mem p qs (next_slot o) x
              (sym (ap (λ (r : Option (ℕ × ℕ) × Option (ℕ × ℕ)). r.1) go) ∙ h)
    ]

pub probe-IsHeld :
    (k : ℕ) (mem : Memory) (p : Param) (qs : List ℕ) (o : ℕ) (e : Option (ℕ × ℕ)) (x : ℕ × ℕ)
    → (probe k mem p qs o e).1 ≡ some x
    → IsHeld mem p qs x
unfolding probe
probe-IsHeld zero mem p qs o e x h = absurd (ground (arith, h))
probe-IsHeld (suc k) mem p qs o e x h =
    let s = scan_blocks mem p o qs 0 e in
    elim (Option-cases s.1) [
      | inr (y, hit_it) ↦
          let same : y ≡ x = some-injective y x (sym (probe-hit k mem p qs o e y hit_it) ∙ h) in
          subst (IsHeld mem p qs) same (scan_blocks-IsHeld mem p o qs e y hit_it)
      | inl clean ↦
          let go = probe-next k mem p qs o e s.0 clean refl in
          probe-IsHeld k mem p qs (next_slot o) s.0 x
            (sym (ap (λ (r : Option (ℕ × ℕ) × Option (ℕ × ℕ)). r.1) go) ∙ h)
    ]

-- The first attempt at which something is seen, or the rest of the search.
abbrev pub Ran : ℕ → Memory → Param → List ℕ → ℕ → ℕ × ℕ → Type 0
Ran k mem p qs o x = ((probe k mem p qs o none).0 ≡ some x) × ((probe k mem p qs o none).1 ≡ none)

abbrev pub Step : ℕ → Memory → Param → List ℕ → ℕ → ℕ × ℕ → Type 0
Step k mem p qs o x =
    IsPlace mem o qs 0 x
    ⊎ (((scan_blocks mem p o qs 0 none).0 ≡ none) × Ran k mem p qs (next_slot o) x)

pub probe-Step :
    (k : ℕ) (mem : Memory) (p : Param) (qs : List ℕ) (o : ℕ) (x : ℕ × ℕ)
    → Ran (suc k) mem p qs o x
    → Clear mem p o qs × ((scan_blocks mem p o qs 0 none).1 ≡ none) × Step k mem p qs o x
probe-Step k mem p qs o x (found, missed) =
    let s = scan_blocks mem p o qs 0 none in
    elim (Option-cases s.1) [
      | inr (y, hit_it) ↦ absurd (ground (arith, missed, probe-hit k mem p qs o none y hit_it))
      | inl clean ↦
          let clear = scan_blocks-Clear mem p o qs 0 none clean in
          elim (Option-cases s.0) [
            | inl nothing ↦
                let go = probe-next k mem p qs o none none clean nothing in
                (
                  clear,
                  clean,
                  inr (
                    nothing,
                    (
                      sym (ap (λ (r : Option (ℕ × ℕ) × Option (ℕ × ℕ)). r.0) go) ∙ found,
                      sym (ap (λ (r : Option (ℕ × ℕ) × Option (ℕ × ℕ)). r.1) go) ∙ missed,
                    ),
                  ),
                )
            | inr (y, seen) ↦
                let go = probe-next k mem p qs o none (some y) clean seen in
                let rest = sym (ap (λ (r : Option (ℕ × ℕ) × Option (ℕ × ℕ)). r.1) go) ∙ missed in
                let same : y ≡ x = some-injective y x (
                  sym (probe-keeps k mem p qs (next_slot o) y rest)
                  ∙ sym (ap (λ (r : Option (ℕ × ℕ) × Option (ℕ × ℕ)). r.0) go)
                  ∙ found) in
                (
                  clear,
                  clean,
                  inl (
                      subst (IsPlace mem o qs 0) same
                        (scan_blocks-IsPlace mem p o qs 0 y clear seen)),
                )
          ]
    ]

probe-within :
    (k : ℕ) (mem : Memory) (p : Param) (qs : List ℕ) (o : ℕ) (x : ℕ × ℕ)
    → Ran k mem p qs o x
    → x.0 < length qs
unfolding probe
probe-within zero mem p qs o x (found, missed) = absurd (ground (arith, found))
probe-within (suc k) mem p qs o x r = elim (probe-Step k mem p qs o x r).2 [
  | inl place ↦ omega (arith, place.at, place.within)
  | inr (nothing, rest) ↦ probe-within k mem p qs (next_slot o) x rest
]

-- After the place that a search found is given out, the next search finds it.
pub probe-again :
    (k : ℕ) (mem : Memory) (p : Param) (qs : List ℕ) (o : ℕ) (x : ℕ × ℕ)
    → Distinct qs
    → Ran k mem p qs o x
    → (probe k (given mem p (block_at qs x.0) x.1) p qs o none).1 ≡ some x
unfolding probe
probe-again zero mem p qs o x d (found, missed) = absurd (ground (arith, found))
probe-again (suc k) mem p qs o x d r =
    let (clear, clean, next) = probe-Step k mem p qs o x r in
    let after = given mem p (block_at qs x.0) x.1 in
    elim (Bool-cases (o == x.1)) [
      | inl y ↦
          let same : o ≡ x.1 = ground (arith, y) in
          let lt = probe-within (suc k) mem p qs o x r in
          let found = scan_blocks-finds mem p o qs 0 x.0 none d clear lt in
          probe-hit k after p qs o none x (
            subst
              (λ i. (scan_blocks (given mem p (block_at qs x.0) i) p o qs 0 none).1 ≡ some (x.0, i))
              same (found ∙ ap (λ (n : ℕ). some (n, o)) (omega arith)))
      | inr n ↦
          let same = scan_blocks-other mem p (block_at qs x.0) x.1 o qs 0 none n in
          elim next [
            | inl place ↦ absurd (ground (arith, n, place.slot))
            | inr (nothing, rest) ↦
                ap (λ (t : Option (ℕ × ℕ) × Option (ℕ × ℕ)). t.1)
                  (probe-next k after p qs o none none
                    (ap (λ (t : Option (ℕ × ℕ) × Option (ℕ × ℕ)). t.1) same ∙ clean)
                    (ap (λ (t : Option (ℕ × ℕ) × Option (ℕ × ℕ)). t.0) same ∙ nothing))
                ∙ probe-again k mem p qs (next_slot o) x d rest
          ]
    ]
