-- ===== src/Base/Chains.antt =====
-- Hash tables of chains: a chain is a list, a new node goes to its front.
use mathlib.Core.Option.{Option, none, some}
use mathlib.Core.List.{List, [], ◌∷◌}
use mathlib.Core.Bool.{Bool, ◌&&◌}
use mathlib.Core.Path.{◌≡◌, refl}
use Prim.Native.Nat.{ℕ}
use mathlib.Core.Logic.{inl, inr}
use native.Mathlib.Omega.{arith}
use adam.Base.Tests.{◌==◌, if◌then◌else◌, Bool-cases}

abbrev pub Chains : Type 0 → Type 0
Chains A = ℕ → List A

-- The first node of a chain that passes the test.
unfoldable pub first_where : {A : Type 0} → (A → Bool) → List A → Option A
first_where p [] = none
first_where p (x ∷ xs) = let rest = first_where p xs in if p x then some x else rest

unfoldable pub link : {A : Type 0} → ℕ → A → Chains A → Chains A
link h x table i = if i == h then x ∷ table i else table i

-- A search after a node is linked meets it if it is in the slot and passes the test.
pub first_where-link :
    {A : Type 0}
    → (p : A → Bool) (h i : ℕ) (x : A) (table : Chains A)
    → first_where p (link h x table i)
      ≡ (if (i == h) && p x then some x else first_where p (table i))
unfolding first_where link
first_where-link p h i x table = elim (Bool-cases (i == h)) [
  | inl y ↦ let at : i ≡ h = ground (arith, y) in rw (y, at) refl
  | inr n ↦ rw n refl
]
