-- ===== src/Tests/Reading.antt =====
-- Paths and types that are read.
use adam.Base.{◌≡◌, true, some, [], ◌∷◌, arith}
use adam.Sexp.{Pooled, pooled}
use adam.DalvikType.{object, array}
use adam.DalvikType.Parse.{from_sexp}
use adam.DalvikType.Written.{Written, object_of, array_of, sexp_of, from_sexp-Written}

abbrev java : Pooled
java = pooled (106 ∷ 97 ∷ 118 ∷ 97 ∷ [])

abbrev lang : Pooled
lang = pooled (108 ∷ 97 ∷ 110 ∷ 103 ∷ [])

abbrev written : Written
written = array_of (object_of (java ∷ []) lang)

from_sexp-Written_example :
    from_sexp (sexp_of written) (true ∷ true ∷ [])
    ≡ some (array (object (pooled (106 ∷ 97 ∷ 118 ∷ 97 ∷ 47 ∷ 108 ∷ 97 ∷ 110 ∷ 103 ∷ []))), [])
from_sexp-Written_example = from_sexp-Written written [] (omega arith)
