-- ===== src/Store/Compact.antt =====
-- Giving back the blocks at the end of a store that hold nothing.
use adam.Base.{
  ℕ, zero, suc, ◌+◌, ◌-◌, ◌/◌, ◌%◌, ◌^◌, ◌<◌, ◌≤◌, ◌≡◌, ◌≢◌, refl, sym, ◌∙◌, ap, ◌⊎◌, true, List,
  [], ◌∷◌, ◌==◌, leb, if◌then◌else◌, length, arith, Bool-cases, inl, inr,
}
use adam.Address.{addr_null}
use adam.Store.{n_slots, Slot, Memory, Store, block_at, slot_at, set_refcnt}
use adam.Store.Access.{
  Tables, make_object_address, get_ro, read_slot, keep, compact_loop, compact_store,
}

-- A block that counts no entities holds no values.
abbrev pub Counted : Store → Memory → Type 0
Counted s mem =
    (j o : ℕ)
    → j < length s.blocks
    → (mem.block (block_at s.blocks j)).num_ent ≡ 0
    → (slot_at mem s.blocks j o).value ≡ 0

length-keep : (n : ℕ) (qs : List ℕ) → n ≤ length qs → length (keep n qs) ≡ n
unfolding keep
length-keep zero qs le = refl
length-keep (suc n) [] le = absurd (omega arith)
length-keep (suc n) (q ∷ qs) le = ap suc (length-keep n qs (omega arith))

block_at-keep : (n j : ℕ) (qs : List ℕ) → j < n → block_at (keep n qs) j ≡ block_at qs j
unfolding keep block_at
block_at-keep zero j qs lt = absurd (omega arith)
block_at-keep (suc n) j [] lt = refl
block_at-keep (suc n) zero (q ∷ qs) lt = refl
block_at-keep (suc n) (suc j) (q ∷ qs) lt = block_at-keep n j qs (omega arith)

set_refcnt-slots :
    (p r : ℕ) (q : ℕ) (mem : Memory)
    → (((set_refcnt p r mem).block q).slots ≡ (mem.block q).slots)
      × (((set_refcnt p r mem).block q).num_ent ≡ (mem.block q).num_ent)
set_refcnt-slots p r q mem = elim (Bool-cases (q == p)) [
  | inl y ↦
      let same : p ≡ q = ground (arith, y) in
      (rw y (ap (λ x. (mem.block x).slots) same), rw y (ap (λ (x : ℕ). (mem.block x).num_ent) same))
  | inr n ↦ (rw n refl, rw n refl)
]

-- What the store is without its last block.
abbrev shorter : ℕ → Store → Store
shorter n s = record s { blocks = keep n s.blocks }

abbrev released : ℕ → Store → Memory → Memory
released n s mem =
    let p = block_at s.blocks n in set_refcnt p (((mem.block p).refcnt + 2 ^ 32 - 1) % 2 ^ 32) mem

module _ (n : ℕ) (s : Store) (mem : Memory) (long : length s.blocks ≡ suc n)
    (counted : Counted s mem) where
  short : length (shorter n s).blocks ≡ n
  short = length-keep n s.blocks (omega arith)

  shorter_slot :
      (j o : ℕ)
      → j < n
      → (slot_at (released n s mem) (shorter n s).blocks j o) ≡ slot_at mem s.blocks j o
  shorter_slot j o lt =
      let p = block_at s.blocks n in
      ap (λ q. ((released n s mem).block q).slots o) (block_at-keep n j s.blocks lt)
      ∙ ap (λ g. g o)
          (set_refcnt-slots p (((mem.block p).refcnt + 2 ^ 32 - 1) % 2 ^ 32) (block_at s.blocks j)
            mem).0

  shorter-Counted : Counted (shorter n s) (released n s mem)
  shorter-Counted j o lt none_left =
      let p = block_at s.blocks n in
      let l : j < n = omega (arith, lt, short) in
      let num =
        (set_refcnt-slots p (((mem.block p).refcnt + 2 ^ 32 - 1) % 2 ^ 32) (block_at s.blocks j)
          mem).1 in
      let there =
        sym num
        ∙ ap (λ (q : ℕ). ((released n s mem).block q).num_ent) (sym (block_at-keep n j s.blocks l))
        ∙ none_left in
      ap (λ (x : Slot). x.value) (shorter_slot j o l) ∙ counted j o (omega (arith, l, long)) there

  shorter_read :
      (a : ℕ)
      → (mem.block (block_at s.blocks n)).num_ent ≡ 0
      → read_slot 0 (λ x. x.value) (shorter n s) (released n s mem) a
        ≡ read_slot 0 (λ x. x.value) s mem a
  shorter_read a empty = elim (Bool-cases (leb (suc n) (a / n_slots))) [
    | inl y ↦ let z : leb n (a / n_slots) ≡ true = ground (arith, y) in rw (short, long, y, z) refl
    | inr m ↦ elim (Bool-cases (leb n (a / n_slots))) [
      | inl z ↦
          let last : a / n_slots ≡ n = ground (arith, m, z) in
          let nothing = counted n (a % n_slots) (omega (arith, long)) empty in
          rw (short, long, m, z)
            (sym (ap (λ (j : ℕ). (slot_at mem s.blocks j (a % n_slots)).value) last ∙ nothing))
      | inr k ↦
          rw (short, long, m, k)
            (ap (λ (x : Slot). x.value)
              (shorter_slot (a / n_slots) (a % n_slots) (ground (arith, k))))
    ]
  ]

-- Every address reads as before, and the last block, if there is one, holds something.
pub record Compacted (s : Store) (mem : Memory) (t : Store) (after : Memory) : Type 0 where
  pub reads : (tables : Tables) (addr : ℕ) → get_ro tables t after addr ≡ get_ro tables s mem addr
  pub ends :
      (t.blocks ≡ [])
      ⊎ ((n : ℕ) × (length t.blocks ≡ suc n) × ((after.block (block_at t.blocks n)).num_ent ≢ 0))

no_blocks : (qs : List ℕ) → length qs ≡ 0 → qs ≡ []
no_blocks [] h = refl
no_blocks (q ∷ qs) h = absurd (omega arith)

get_ro-shorter :
    (n : ℕ) (s : Store) (mem : Memory)
    → length s.blocks ≡ suc n
    → Counted s mem
    → (mem.block (block_at s.blocks n)).num_ent ≡ 0
    → (tables : Tables) (addr : ℕ)
    → get_ro tables (shorter n s) (released n s mem) addr ≡ get_ro tables s mem addr
unfolding get_ro make_object_address
get_ro-shorter n s mem long counted empty tables addr =
    let a = make_object_address tables s addr in
    ap (λ (v : ℕ). if a == addr_null then 0 else v) (shorter_read n s mem long counted a empty)

compact_loop-Compacted :
    (n : ℕ) (s : Store) (mem : Memory)
    → length s.blocks ≡ n
    → Counted s mem
    → Compacted s mem (compact_loop n s mem).0 (compact_loop n s mem).1
unfolding compact_loop
compact_loop-Compacted zero s mem long counted = record {
  reads = λ tables addr. refl;
  ends = inl (no_blocks s.blocks long);
}
compact_loop-Compacted (suc n) s mem long counted =
    elim (Bool-cases ((mem.block (block_at s.blocks n)).num_ent == 0)) [
      | inl y ↦
          let empty : (mem.block (block_at s.blocks n)).num_ent ≡ 0 = ground (arith, y) in
          let r =
            compact_loop-Compacted n (shorter n s) (released n s mem) (short n s mem long counted)
              (shorter-Counted n s mem long counted) in
          rw y (record {
            reads = λ tables addr.
                r.reads tables addr ∙ get_ro-shorter n s mem long counted empty tables addr;
            ends = r.ends;
          })
      | inr m ↦ rw m (record {
        reads = λ tables addr. refl;
        ends = inr (n, long, λ e. absurd (ground (arith, m, e)));
      })
    ]

-- Compacting a store whose blocks count their entities rightly leaves every address as it reads, and
-- a store that is empty or whose last block holds something.
pub compact_store-Compacted :
    (s : Store) (mem : Memory)
    → Counted s mem
    → Compacted s mem (compact_store s mem).0 (compact_store s mem).1
unfolding compact_store
compact_store-Compacted s mem counted = compact_loop-Compacted (length s.blocks) s mem refl counted
