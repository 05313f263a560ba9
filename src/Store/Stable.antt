-- ===== src/Store/Stable.antt =====
-- Allocating twice with the same parameter.
use adam.Base.{
  ℕ, suc, ◌%◌, ◌≡◌, ◌≢◌, refl, ◌∙◌, ap, false, ◌||◌, Option, none, some, List, [], ◌∷◌, ◌++◌, ◌==◌,
  length, length-append, arith, Option-cases, inl, inr, ==_refl, has, Distinct,
}
use mathlib.Core.Option.{some-injective}
use adam.Store.{
  n_slots, attempts, Param, param_hash, Memory, Store, new_block, put_block, block_at, scan_blocks,
  probe, address, take_place, add_block, settle, allocate,
}
use adam.Store.Allocated.{Clear, given, scan_blocks-Clear, scan_blocks-finds, IsHeld}
use adam.Store.Probing.{Ran, probe-hit, probe-again, probe-IsHeld}

block_at-last : (qs : List ℕ) (q : ℕ) → block_at (qs ++ q ∷ []) (length qs) ≡ q
unfolding block_at
block_at-last [] q = refl
block_at-last (r ∷ rs) q = block_at-last rs q

has-last : (x q : ℕ) (qs : List ℕ) → has x (qs ++ q ∷ []) ≡ (has x qs || (q == x))
has-last x q [] = ground arith
has-last x q (r ∷ rs) = rw (has-last x q rs) (ground arith)

Distinct-last : (q : ℕ) (qs : List ℕ) → Distinct qs → has q qs ≡ false → Distinct (qs ++ q ∷ [])
Distinct-last q [] d h = (refl, tt)
Distinct-last q (r ∷ rs) (head, d) h =
    (has-last r q rs ∙ rw head (ground (arith, h)), Distinct-last q rs d (ground (arith, h)))

-- A new block has no slot in use.
Clear-last :
    (mem : Memory) (p : Param) (o q : ℕ) (qs : List ℕ)
    → Clear mem p o qs
    → has q qs ≡ false
    → Clear (put_block q new_block mem) p o (qs ++ q ∷ [])
Clear-last mem p o q [] c h = (rw (==_refl q) refl, tt)
Clear-last mem p o q (r ∷ rs) (free, c) h =
    let other : (r == q) ≡ false = ground (arith, h) in
    (rw other free, Clear-last mem p o q rs c (ground (arith, h)))

probe-Clear :
    (k : ℕ) (mem : Memory) (p : Param) (qs : List ℕ) (o : ℕ)
    → (probe (suc k) mem p qs o none).1 ≡ none
    → Clear mem p o qs
probe-Clear k mem p qs o h =
    let s = scan_blocks mem p o qs 0 none in
    elim (Option-cases s.1) [
      | inr (y, hit_it) ↦ absurd (ground (arith, h, probe-hit k mem p qs o none y hit_it))
      | inl clean ↦ scan_blocks-Clear mem p o qs 0 none clean
    ]

abbrev Places : Type 0
Places = Option (ℕ × ℕ) × Option (ℕ × ℕ)

settle-found :
    (fresh : ℕ) (p : Param) (i : ℕ) (s : Store) (mem : Memory) (r : Places) (x : ℕ × ℕ)
    → r.1 ≡ some x
    → settle fresh p i s mem r ≡ (address x, (s, mem))
unfolding settle
settle-found fresh p i s mem (e, some y) x h =
    ap (λ (z : ℕ × ℕ). (address z, (s, mem))) (some-injective y x h)
settle-found fresh p i s mem (e, none) x h = absurd (ground (arith, h))

pub settle-empty :
    (fresh : ℕ) (p : Param) (i : ℕ) (s : Store) (mem : Memory) (r : Places) (x : ℕ × ℕ)
    → r.1 ≡ none
    → r.0 ≡ some x
    → settle fresh p i s mem r ≡ take_place p x s mem
unfolding settle
settle-empty fresh p i s mem (some y, none) x h g =
    ap (λ (z : ℕ × ℕ). take_place p z s mem) (some-injective y x g)
settle-empty fresh p i s mem (none, none) x h g = absurd (ground (arith, g))
settle-empty fresh p i s mem (e, some y) x h g = absurd (ground (arith, h))

settle-full :
    (fresh : ℕ) (p : Param) (i : ℕ) (s : Store) (mem : Memory) (r : Places)
    → r.1 ≡ none
    → r.0 ≡ none
    → settle fresh p i s mem r ≡ add_block fresh p i s mem
unfolding settle
settle-full fresh p i s mem (none, none) h g = refl
settle-full fresh p i s mem (some y, none) h g = absurd (ground (arith, g))
settle-full fresh p i s mem (e, some y) h g = absurd (ground (arith, h))

abbrev pub start_slot : Param → ℕ
start_slot p = param_hash p % n_slots

allocate-found :
    (fresh : ℕ) (p : Param) (s : Store) (mem : Memory) (x : ℕ × ℕ)
    → (probe attempts mem p s.blocks (start_slot p) none).1 ≡ some x
    → allocate fresh p s mem ≡ (address x, (s, mem))
unfolding allocate
allocate-found fresh p s mem x h = settle-found fresh p (start_slot p) s mem _ x h

pub take_place-given :
    (p : Param) (x : ℕ × ℕ) (s : Store) (mem : Memory)
    → take_place p x s mem ≡ (address x, (s, given mem p (block_at s.blocks x.0) x.1))
unfolding take_place
take_place-given p (b, o) s mem = refl

-- A call for a parameter, and the same call right after it: the same address, and nothing else
-- changes.
pub record Stays (fresh : ℕ) (p : Param) (s : Store) (mem : Memory) : Type 0 where
  pub place : ℕ × ℕ
  pub store : Store
  pub memory : Memory
  pub held : IsHeld memory p store.blocks place
  pub first : allocate fresh p s mem ≡ (address place, (store, memory))
  pub again : (other : ℕ) → allocate other p store memory ≡ (address place, (store, memory))

Stays-found :
    (fresh : ℕ) (p : Param) (s : Store) (mem : Memory) (x : ℕ × ℕ)
    → (probe attempts mem p s.blocks (start_slot p) none).1 ≡ some x
    → Stays fresh p s mem
Stays-found fresh p s mem x h = record {
  place = x;
  store = s;
  memory = mem;
  held = probe-IsHeld attempts mem p s.blocks (start_slot p) none x h;
  first = allocate-found fresh p s mem x h;
  again = λ other. allocate-found other p s mem x h;
}

Stays-empty :
    (fresh : ℕ) (p : Param) (s : Store) (mem : Memory) (x : ℕ × ℕ)
    → Distinct s.blocks
    → Ran attempts mem p s.blocks (start_slot p) x
    → Stays fresh p s mem
unfolding allocate
Stays-empty fresh p s mem x d r = record {
  place = x;
  store = s;
  memory = given mem p (block_at s.blocks x.0) x.1;
  held =
      probe-IsHeld attempts (given mem p (block_at s.blocks x.0) x.1) p s.blocks (start_slot p) none
        x (probe-again attempts mem p s.blocks (start_slot p) x d r);
  first = settle-empty fresh p (start_slot p) s mem _ x r.1 r.0 ∙ take_place-given p x s mem;
  again = λ other.
      allocate-found other p s (given mem p (block_at s.blocks x.0) x.1) x
        (probe-again attempts mem p s.blocks (start_slot p) x d r);
}

module _ (fresh : ℕ) (p : Param) (s : Store) (mem : Memory) (d : Distinct s.blocks)
    (unused : has fresh s.blocks ≡ false) (ne_null : fresh ≢ 0)
    (nothing : (probe attempts mem p s.blocks (start_slot p) none).0 ≡ none)
    (clean : (probe attempts mem p s.blocks (start_slot p) none).1 ≡ none) where
  abbrev grown : Store
  grown = record s { blocks = s.blocks ++ fresh ∷ [] }

  abbrev cleared : Memory
  cleared = put_block fresh new_block mem

  abbrev last : ℕ × ℕ
  last = (length s.blocks, start_slot p)

  abbrev filled : Memory
  filled = given cleared p (block_at grown.blocks last.0) last.1

  add_runs : allocate fresh p s mem ≡ (address last, (grown, filled))
  unfolding allocate add_block
  add_runs =
      let b : (fresh == 0) ≡ false = ground (arith, ne_null) in
      settle-full fresh p (start_slot p) s mem _ clean nothing
      ∙ rw b (take_place-given p last grown cleared)

  found_last : (probe attempts filled p grown.blocks (start_slot p) none).1 ≡ some last
  found_last =
      let clear =
        Clear-last mem p (start_slot p) fresh s.blocks
          (probe-Clear 4 mem p s.blocks (start_slot p) clean) unused in
      probe-hit 4 filled p grown.blocks (start_slot p) none last (
        scan_blocks-finds cleared p (start_slot p) grown.blocks 0 last.0 none
          (Distinct-last fresh s.blocks d unused) clear
          (omega (arith, length-append s.blocks (fresh ∷ [])))
        ∙ ap (λ (n : ℕ). some (n, start_slot p)) (omega arith))

  Stays-full : Stays fresh p s mem
  Stays-full = record {
    place = last;
    store = grown;
    memory = filled;
    held = probe-IsHeld attempts filled p grown.blocks (start_slot p) none last found_last;
    first = add_runs;
    again = λ other. allocate-found other p grown filled last found_last;
  }

-- In a store whose blocks are distinct, with memory for a new block at an address that is not NULL
-- and is none of the blocks of the store, an allocation succeeds: the address is that of a slot of
-- the store that is in use for the parameter. The same allocation once more, on the store and the
-- memory that the first one left and with nothing in between, gives the same address and changes
-- nothing.
pub allocate-Stays :
    (fresh : ℕ) (p : Param) (s : Store) (mem : Memory)
    → Distinct s.blocks
    → has fresh s.blocks ≡ false
    → fresh ≢ 0
    → Stays fresh p s mem
allocate-Stays fresh p s mem d unused ne_null =
    let r = probe attempts mem p s.blocks (start_slot p) none in
    elim (Option-cases r.1) [
      | inr (x, found) ↦ Stays-found fresh p s mem x found
      | inl clean ↦ elim (Option-cases r.0) [
        | inr (x, seen) ↦ Stays-empty fresh p s mem x d (seen, clean)
        | inl nothing ↦ Stays-full fresh p s mem d unused ne_null nothing clean
      ]
    ]
