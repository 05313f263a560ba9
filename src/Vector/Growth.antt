-- ===== src/Vector/Growth.antt =====
-- What a vector holds while it grows.
use adam.Base.{
  ℕ, zero, suc, ◌+◌, ◌*◌, ◌%◌, ◌^◌, ◌<◌, ◌≤◌, ◌≡◌, refl, true, false, ◌==◌, if◌then◌else◌, some,
  List, arith, Bool-cases, inl, inr, ==_refl,
}
use adam.Vector.{Vector, Allocator, keep, resize, make_room, pushback, get}

-- The elements fit, and the memory can be addressed after one more growth.
pub record IsVector (v : Vector) : Type 0 where
  pub fits : v.size ≤ v.capacity
  pub some_room : 0 < v.capacity
  pub addressable : v.capacity * 2 < 2 ^ 64

keep_below : (n : ℕ) (old new : ℕ → List ℕ) (i : ℕ) → i < n → keep n old new i ≡ old i
keep_below zero old new i h = absurd (omega arith)
keep_below (suc n) old new i h = elim (Bool-cases (i == n)) [
  | inl y ↦ rw y refl
  | inr z ↦ rw z (keep_below n old new i (ground (arith, z)))
]

-- What an element more leaves: the new one at the end, the others where they were.
pub record Pushed (v : Vector) (x : List ℕ) (w : Vector) : Type 0 where
  pub longer : w.size ≡ v.size + 1
  pub last : get w v.size ≡ x
  pub others : (i : ℕ) → i < v.size → get w i ≡ get v i
  pub fits : w.size ≤ w.capacity

-- A vector with room for one more element, and the elements that `v` has.
record Roomy (v w : Vector) : Type 0 where
  same_size : w.size ≡ v.size
  room : w.size < w.capacity
  same : (i : ℕ) → i < v.size → w.slot i ≡ v.slot i

grown : Allocator → Vector → Vector
grown a v = record v { capacity = v.capacity * 2 % 2 ^ 64; slot = keep v.capacity v.slot a.garbage }

make_room-Roomy :
    (a : Allocator) (v : Vector)
    → IsVector v
    → ((n : ℕ) → a.realloc n ≡ true)
    → (w : Vector) × (make_room a v ≡ (w, true)) × Roomy v w
unfolding make_room resize grown
make_room-Roomy a v h ok = elim (Bool-cases (v.size == v.capacity)) [
  | inl full ↦
      let e : v.size ≡ v.capacity = ground (arith, full) in
      (
        grown a v,
        rw (full, ok) refl,
        record {
          same_size = refl;
          room = omega (arith, e, h.some_room, h.addressable);
          same = λ i p. keep_below v.capacity v.slot a.garbage i (omega (arith, e, p));
        },
      )
  | inr part ↦ (
    v,
    rw part refl,
    record { same_size = refl; room = ground (arith, part, h.fits); same = λ i p. refl },
  )
]

pushed : Vector → List ℕ → Vector
pushed w x = record w {
  size = (w.size + 1) % 2 ^ 64;
  slot = λ i. if i == w.size then x else w.slot i;
}

pushback_runs :
    (a : Allocator) (v w : Vector) (x : List ℕ)
    → make_room a v ≡ (w, true)
    → pushback a (some v) (some x) ≡ (some (pushed w x), true)
unfolding pushback pushed
pushback_runs a v w x e = rw e refl

-- Where `realloc` succeeds, pushing an element succeeds: it is the last one then, and the others are
-- as they were, in a vector that has room for all of them.
pub pushback-Pushed :
    (a : Allocator) (v : Vector) (x : List ℕ)
    → IsVector v
    → ((n : ℕ) → a.realloc n ≡ true)
    → (w : Vector) × (pushback a (some v) (some x) ≡ (some w, true)) × Pushed v x w
unfolding pushed get
pushback-Pushed a v x h ok =
    let (w, run, r) = make_room-Roomy a v h ok in
    let small : v.size + 1 < 2 ^ 64 = omega (arith, h.fits, h.addressable, h.some_room) in
    (
      pushed w x,
      pushback_runs a v w x run,
      record {
        longer = omega (arith, r.same_size, small);
        last = rw r.same_size (rw (==_refl v.size) refl);
        others = λ i p.
            let e : (i == w.size) ≡ false = ground (arith, p, r.same_size) in rw e (r.same i p);
        fits = omega (arith, r.room, r.same_size, small);
      },
    )
