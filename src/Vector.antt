-- ===== src/Vector.antt =====
-- src/vector.c and include/vector.h: arrays that grow. A pointer to a vector is NULL or the vector.
pub mod Growth
use adam.Base.{
  ℕ, zero, suc, ◌+◌, ◌*◌, ◌%◌, ◌^◌, Bool, true, false, ◌&&◌, Option, none, some, List, [], ◌∷◌,
  ◌==◌, if◌then◌else◌,
}

abbrev pub init_cap : ℕ
init_cap = 32

-- `slot` is the memory at `data`, an element at a time; an element is a list of `elem_size` bytes.
pub record Vector : Type 0 where
  pub capacity : ℕ
  pub size : ℕ
  pub elem_size : ℕ
  pub slot : ℕ → List ℕ

-- Whether the two calls of `malloc` succeed, and what is in the memory that they give.
unfoldable pub vector_new : Bool → Bool → (ℕ → List ℕ) → ℕ → Option Vector
vector_new vec_alloc data_alloc garbage elem_size =
    if elem_size == 0
    then none
    else if vec_alloc && data_alloc
    then some (record { capacity = init_cap; size = 0; elem_size = elem_size; slot = garbage })
    else none

-- `realloc` says whether it can give so many bytes; what is beyond the old ones is `garbage`.
pub record Allocator : Type 0 where
  pub realloc : ℕ → Bool
  pub garbage : ℕ → List ℕ

abbrev pub keep : ℕ → (ℕ → List ℕ) → (ℕ → List ℕ) → ℕ → List ℕ
keep zero old new i = new i
keep (suc n) old new i = if i == n then old i else keep n old new i

-- The vector after the call, and whether it succeeds.
unfoldable pub resize : Allocator → Vector → Vector × Bool
resize a v =
    let new_capacity = v.capacity * 2 % 2 ^ 64 in
    if a.realloc (new_capacity * v.elem_size % 2 ^ 64)
    then (record v { capacity = new_capacity; slot = keep v.capacity v.slot a.garbage }, true)
    else (v, false)

-- The vector is made larger if it is full.
unfoldable pub make_room : Allocator → Vector → Vector × Bool
unfolding resize
make_room a v = if v.size == v.capacity then resize a v else (v, true)

abbrev pub append_slot : List ℕ → Vector × Bool → Vector × Bool
append_slot x (v, false) = (v, false)
append_slot x (v, true) = (
  record v { size = (v.size + 1) % 2 ^ 64; slot = λ i. if i == v.size then x else v.slot i },
  true,
)

unfoldable pub pushback : Allocator → Option Vector → Option (List ℕ) → Option Vector × Bool
pushback a none x = (none, false)
pushback a (some v) none = (some v, false)
pushback a (some v) (some x) = let (w, ok) = append_slot x (make_room a v) in (some w, ok)

abbrev pub append_dry : Vector × Bool → Vector × Bool
append_dry (v, false) = (v, false)
append_dry (v, true) = (record v { size = (v.size + 1) % 2 ^ 64 }, true)

unfoldable pub dry_pushback : Allocator → Option Vector → Option Vector × Bool
dry_pushback a none = (none, false)
dry_pushback a (some v) = let (w, ok) = append_dry (make_room a v) in (some w, ok)

-- Without CHECK_EVERYTHING the index is not looked at.
unfoldable pub get : Vector → ℕ → List ℕ
get v idx = v.slot idx
