-- ===== src/DalvikType/Clone.antt =====
-- Copies of types.
use adam.Base.{ℕ, zero, suc, ◌≡◌, refl, Bool, true, false, List, ◌∷◌, ◌<◌, arith}
use adam.DalvikType.{DalvikType, null, atom, object, array, clone}

-- How often `malloc` is called for a copy.
abbrev pub nodes : DalvikType → ℕ
nodes null = 0
nodes (atom a) = 0
nodes (object p) = 1
nodes (array t) = suc (nodes t)

abbrev pub successes : ℕ → List Bool → List Bool
successes zero ms = ms
successes (suc n) ms = true ∷ successes n ms

-- While `malloc` succeeds the copy of a type is the same type, and takes one call for each part
-- that is not atomic.
pub clone_same : (t : DalvikType) (ms : List Bool) → clone t (successes (nodes t) ms) ≡ (t, ms)
unfolding clone
clone_same null ms = refl
clone_same (atom a) ms = refl
clone_same (object p) ms = refl
clone_same (array t) ms = rw (clone_same t ms) refl

-- If `malloc` succeeds for an array and fails for its elements' type, which is not atomic, the copy
-- is an array without the type of its elements, and not NULL.
pub clone_half :
    (t : DalvikType) (ms : List Bool)
    → 0 < nodes t
    → clone (array t) (true ∷ false ∷ ms) ≡ (array null, ms)
unfolding clone
clone_half null ms h = absurd (omega arith)
clone_half (atom a) ms h = absurd (omega arith)
clone_half (object p) ms h = refl
clone_half (array t) ms h = refl
