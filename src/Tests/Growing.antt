-- ===== src/Tests/Growing.antt =====
-- A full vector that grows.
use adam.Base.{◌≡◌, refl, true, some, [], ◌∷◌, arith}
use adam.Vector.{Vector, Allocator, pushback}
use adam.Vector.Growth.{IsVector, Pushed, pushback-Pushed}

abbrev generous : Allocator
generous = record { realloc = λ n. true; garbage = λ i. 7 ∷ [] }

abbrev full : Vector
full = record { capacity = 32; size = 32; elem_size = 1; slot = λ i. 5 ∷ [] }

full-IsVector : IsVector full
full-IsVector = record { fits = omega arith; some_room = omega arith; addressable = omega arith }

pushback-Pushed_example :
    (w : Vector) × (pushback generous (some full) (some (9 ∷ [])) ≡ (some w, true))
    × Pushed full (9 ∷ []) w
pushback-Pushed_example = pushback-Pushed generous full (9 ∷ []) full-IsVector (λ n. refl)
