-- ===== src/DalvikType/Written.antt =====
-- Types written as S-expressions are read back.
use adam.Base.{
  ℕ, suc, ◌+◌, ◌≤◌, ◌≡◌, refl, Bool, true, false, some, List, [], ◌∷◌, ◌++◌, length, arith,
}
use adam.Stringpool.{
  hash_func, hash_loop, add_byte, mix, scramble, rotate, finish, remaining, avalanche, byte_at,
  word_at,
}
use adam.Sexp.{Pooled, pooled, same_address, same_str, Sexp, nil, lit, cons}
use adam.Sexp.Print.{get_object_path}
use adam.Sexp.Paths.{path_sexp, parts_text, get_object_path-get_method_address}
use adam.DalvikType.{
  Atom, void, int, long, short, wide, float, double, char, byte, boolean, DalvikType, atom, object,
  array, is_null, is_token, atom_from, atom_name, token_object, token_array,
}
use adam.DalvikType.Equal.{same_address_refl}
use adam.DalvikType.Clone.{successes}
use adam.DalvikType.Parse.{object_from, array_from, compound_from, from_sexp}

-- A type as it is written: `int`, `[object a/b]`, `[array int]`.
pub data Written : Type 0 where
  atomic : Atom → Written
  object_of : List Pooled → Pooled → Written
  array_of : Written → Written

abbrev pub sexp_of : Written → Sexp
sexp_of (atomic a) = lit (pooled (atom_name a))
sexp_of (object_of ps name) = cons 32 (lit token_object) (path_sexp ps name 93 nil)
sexp_of (array_of w) = cons 32 (lit token_array) (cons 93 (sexp_of w) nil)

abbrev pub type_of : Written → DalvikType
type_of (atomic a) = atom a
type_of (object_of ps name) = object (pooled (parts_text ps ++ name.str))
type_of (array_of w) = array (type_of w)

-- The paths fit in the buffer.
abbrev pub Fits : Written → Type 0
Fits (atomic a) = Unit
Fits (object_of ps name) = length (parts_text ps) + length name.str + 1 ≤ 4096
Fits (array_of w) = Fits w

-- How often `malloc` is called.
abbrev pub allocations : Written → ℕ
allocations (atomic a) = 0
allocations (object_of ps name) = 1
allocations (array_of w) = suc (allocations w)

atom_from-atom_name : (a : Atom) → atom_from (pooled (atom_name a)) ≡ atom a
unfolding atom_from is_token same_address same_str hash_func hash_loop add_byte mix scramble rotate
    finish remaining avalanche byte_at word_at
atom_from-atom_name void = refl
atom_from-atom_name int = refl
atom_from-atom_name long = refl
atom_from-atom_name short = refl
atom_from-atom_name wide = refl
atom_from-atom_name float = refl
atom_from-atom_name double = refl
atom_from-atom_name char = refl
atom_from-atom_name byte = refl
atom_from-atom_name boolean = refl

type_of-null : (w : Written) → is_null (type_of w) ≡ false
type_of-null (atomic a) = refl
type_of-null (object_of ps name) = refl
type_of-null (array_of w) = refl

tokens_differ : same_address token_array token_object ≡ false
unfolding same_address same_str
tokens_differ = ground arith

object_found :
    (b after : Sexp) (path : Pooled) (ms : List Bool)
    → get_object_path b ≡ some (some (path, after))
    → object_from b (true ∷ ms) ≡ some (object path, ms)
unfolding object_from
object_found b after path ms e = ground (arith, e)

object_read :
    (ps : List Pooled) (name : Pooled) (ms : List Bool)
    → Fits (object_of ps name)
    → from_sexp (sexp_of (object_of ps name)) (true ∷ ms) ≡ some (type_of (object_of ps name), ms)
unfolding from_sexp compound_from
object_read [] name ms fits = rw (same_address_refl token_object) (
    object_found (path_sexp [] name 93 nil) nil _ ms
      (get_object_path-get_method_address [] name 93 nil refl fits).0)
object_read (p ∷ []) name ms fits = rw (same_address_refl token_object) (
    object_found (path_sexp (p ∷ []) name 93 nil) nil _ ms
      (get_object_path-get_method_address (p ∷ []) name 93 nil refl fits).0)
object_read (p ∷ q ∷ ps) name ms fits = rw (same_address_refl token_object) (
    object_found (path_sexp (p ∷ q ∷ ps) name 93 nil) nil _ ms
      (get_object_path-get_method_address (p ∷ q ∷ ps) name 93 nil refl fits).0)

array_read :
    (w : Written) (ms rest : List Bool)
    → from_sexp (sexp_of w) ms ≡ some (type_of w, rest)
    → from_sexp (sexp_of (array_of w)) (true ∷ ms) ≡ some (type_of (array_of w), rest)
unfolding from_sexp compound_from array_from
array_read w ms rest h = rw (tokens_differ, same_address_refl token_array, h, type_of-null w) refl

-- While `malloc` succeeds a type that is written with paths that fit in the buffer is read.
pub from_sexp-Written :
    (w : Written) (ms : List Bool)
    → Fits w
    → from_sexp (sexp_of w) (successes (allocations w) ms) ≡ some (type_of w, ms)
unfolding from_sexp
from_sexp-Written (atomic a) ms fits = rw (atom_from-atom_name a) refl
from_sexp-Written (object_of ps name) ms fits = object_read ps name ms fits
from_sexp-Written (array_of w) ms fits =
    array_read w (successes (allocations w) ms) ms (from_sexp-Written w ms fits)
