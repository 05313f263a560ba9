-- ===== src/DalvikType/Parse.antt =====
-- src/dalvik/dalvik_type.c: `dalvik_type_from_sexp`. The patterns "L?", "(L?A" and "(_?" of its calls
-- of `sexp_match` are clauses.
use adam.Base.{true, false, Option, none, some, [], ◌∷◌, if◌then◌else◌}
use adam.Sexp.{Pooled, same_address, Sexp, nil, lit, cons}
use adam.Sexp.Print.{get_object_path}
use adam.DalvikType.{
  DalvikType, null, object, array, is_null, token_object, token_array, atom_from, Outcomes,
}

-- `none` is a write past the buffer for the path.
abbrev pub Result : Type 0
Result = Option (DalvikType × Outcomes)

unfoldable pub object_from : Sexp → Outcomes → Result
object_from b [] = some (null, [])
object_from b (false ∷ ms) = some (null, ms)
object_from b (true ∷ ms) = elim (get_object_path b) [
  | none ↦ none
  | some none ↦ some (null, ms)
  | some (some (path, remaining)) ↦ some (object path, ms)
]

abbrev pub array_of : Result → Result
array_of none = none
array_of (some (t, ms)) = some ((if is_null t then null else array t), ms)

unfoldable pub array_from : (Outcomes → Result) → Outcomes → Result
array_from element [] = some (null, [])
array_from element (false ∷ ms) = some (null, ms)
array_from element (true ∷ ms) = array_of (element ms)

-- A list that begins with a literal, its rest, and how the only element of the rest is read.
unfoldable pub compound_from : Pooled → Sexp → (Outcomes → Result) → Outcomes → Result
unfolding same_address object_from array_from
compound_from p b element ms =
    if same_address p token_object
    then object_from b ms
    else if same_address p token_array
    then array_from element ms
    else some (null, ms)

unfoldable pub from_sexp : Sexp → Outcomes → Result
unfolding compound_from atom_from
from_sexp (lit p) ms = some (atom_from p, ms)
from_sexp (cons s (lit p) (cons t e nil)) ms = compound_from p (cons t e nil) (from_sexp e) ms
from_sexp (cons s (lit p) b) ms = compound_from p b (λ rest. some (null, rest)) ms
from_sexp e ms = some (null, ms)
