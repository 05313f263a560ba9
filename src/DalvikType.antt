-- ===== src/DalvikType.antt =====
-- src/dalvik/dalvik_type.c: the types of Dalvik programs. A type with the address where it stands
-- is a tree; an atomic type stands at one address only, in the table of atomic types.
pub mod Equal
pub mod Clone
pub mod Parse
pub mod Written
use adam.Base.{
  ℕ, zero, suc, ◌+◌, ◌-◌, ◌*◌, ◌%◌, ◌^◌, Bool, true, false, not, ◌&&◌, ◌||◌, Option, none, some,
  List, [], ◌∷◌, ◌++◌, ◌==◌, ltb, if◌then◌else◌, length, bit_xor, bit_and,
}
use adam.AllocTable.{mh_multiply}
use adam.Stringpool.{Str}
use adam.Sexp.{
  Pooled, pooled, same_address, Sexp, nil, lit, str, cons, Value, string_at, sexp_at, Arg, out,
}
use adam.Sexp.Match.{sexp_match}
use adam.Sexp.Print.{get_object_path}

-- DALVIK_TYPECODE_*: the atomic types.
pub data Atom : Type 0 where
  void : Atom
  int : Atom
  long : Atom
  short : Atom
  wide : Atom
  float : Atom
  double : Atom
  char : Atom
  byte : Atom
  boolean : Atom

abbrev pub typecode : Atom → ℕ
typecode void = 0
typecode int = 1
typecode long = 2
typecode short = 3
typecode wide = 4
typecode float = 5
typecode double = 6
typecode char = 7
typecode byte = 8
typecode boolean = 9

-- `dalvik_type_t*`: NULL, an atomic type, or an allocated type.
pub data DalvikType : Type 0 where
  null : DalvikType
  atom : Atom → DalvikType
  object : Pooled → DalvikType
  array : DalvikType → DalvikType

-- 1, 0.
unfoldable pub equal : DalvikType → DalvikType → Bool
unfolding same_address
equal null null = true
equal (atom a) (atom b) = typecode a == typecode b
equal (object p) (object q) = same_address p q
equal (array s) (array t) = equal s t
equal s t = false

-- The addresses of the atomic types and of pooled strings.
pub record Addresses : Type 0 where
  pub atom_at : Atom → ℕ
  pub str_at : Pooled → ℕ

unfoldable pub type_hashcode : Addresses → DalvikType → ℕ
type_hashcode mem null = 0xe7c54276
type_hashcode mem (atom a) = mem.atom_at a % 2 ^ 32 * mh_multiply % 2 ^ 64 % 2 ^ 32
type_hashcode mem (object p) = bit_xor (mem.str_at p) 0x5fc7f961 * mh_multiply % 2 ^ 64 % 2 ^ 32
type_hashcode mem (array t) =
    bit_xor (type_hashcode mem t * mh_multiply % 2 ^ 64) 0x375cf68c % 2 ^ 32

abbrev pub is_null : DalvikType → Bool
is_null null = true
is_null t = false

-- A list of types ends at its first NULL.
unfoldable pub hash_list : Addresses → ℕ → List DalvikType → ℕ
unfolding type_hashcode
hash_list mem h [] = h
hash_list mem h (t ∷ ts) =
    hash_list mem (bit_xor h (type_hashcode mem t) * mh_multiply % 2 ^ 64 % 2 ^ 32) ts

unfoldable pub list_hashcode : Addresses → Option (List DalvikType) → ℕ
unfolding hash_list
list_hashcode mem none = 0x7c5b32f7
list_hashcode mem (some ts) = hash_list mem 0 ts

unfoldable pub equal_elements : List DalvikType → List DalvikType → Bool
unfolding equal
equal_elements [] [] = true
equal_elements (s ∷ ss) (t ∷ ts) = equal s t && equal_elements ss ts
equal_elements ss ts = false

unfoldable pub list_equal : Option (List DalvikType) → Option (List DalvikType) → Bool
unfolding equal_elements
list_equal none none = true
list_equal (some ss) (some ts) = equal_elements ss ts
list_equal ss ts = false

-- The tokens: dalvik/dalvik_tokens.c pools these strings.
abbrev pub atom_name : Atom → Str
atom_name void = 118 ∷ 111 ∷ 105 ∷ 100 ∷ []
atom_name int = 105 ∷ 110 ∷ 116 ∷ []
atom_name long = 108 ∷ 111 ∷ 110 ∷ 103 ∷ []
atom_name short = 115 ∷ 104 ∷ 111 ∷ 114 ∷ 116 ∷ []
atom_name wide = 119 ∷ 105 ∷ 100 ∷ 101 ∷ []
atom_name float = 102 ∷ 108 ∷ 111 ∷ 97 ∷ 116 ∷ []
atom_name double = 100 ∷ 111 ∷ 117 ∷ 98 ∷ 108 ∷ 101 ∷ []
atom_name char = 99 ∷ 104 ∷ 97 ∷ 114 ∷ []
atom_name byte = 98 ∷ 121 ∷ 116 ∷ 101 ∷ []
atom_name boolean = 98 ∷ 111 ∷ 111 ∷ 108 ∷ 101 ∷ 97 ∷ 110 ∷ []

abbrev pub token_object : Pooled
token_object = pooled (111 ∷ 98 ∷ 106 ∷ 101 ∷ 99 ∷ 116 ∷ [])

abbrev pub token_array : Pooled
token_array = pooled (97 ∷ 114 ∷ 114 ∷ 97 ∷ 121 ∷ [])

unfoldable pub is_token : Pooled → Atom → Bool
unfolding same_address
is_token p a = same_address p (pooled (atom_name a))

-- The atomic type that a literal names.
unfoldable pub atom_from : Pooled → DalvikType
unfolding is_token
atom_from p =
    if is_token p void
    then atom void
    else if is_token p int
    then atom int
    else if is_token p wide
    then atom wide
    else if is_token p long
    then atom long
    else if is_token p short
    then atom short
    else if is_token p byte
    then atom byte
    else if is_token p char
    then atom char
    else if is_token p boolean
    then atom boolean
    else if is_token p float
    then atom float
    else if is_token p double
    then atom double
    else null

-- An allocation that fails gives NULL; the outcomes of the calls of `malloc` come in a list.
abbrev pub Outcomes : Type 0
Outcomes = List Bool

unfoldable pub clone : DalvikType → Outcomes → DalvikType × Outcomes
clone null ms = (null, ms)
clone (atom a) ms = (atom a, ms)
clone t [] = (null, [])
clone (object p) (m ∷ ms) = ((if m then object p else null), ms)
clone (array t) (m ∷ ms) = let (u, rest) = clone t ms in if m then (array u, rest) else (null, ms)

-- A copy that is put before those that are made already; a NULL gives up.
unfoldable pub put_clone : DalvikType → List DalvikType → Option (List DalvikType)
put_clone null ts = none
put_clone t ts = some (t ∷ ts)

abbrev pub then_clone :
    DalvikType → Option (List DalvikType) × Outcomes → Option (List DalvikType) × Outcomes
then_clone t (none, ms) = (none, ms)
then_clone t (some ts, ms) = let (u, rest) = clone t ms in (put_clone u ts, rest)

-- The loop goes from the last element to the first.
unfoldable pub clone_elements : List DalvikType → Outcomes → Option (List DalvikType) × Outcomes
unfolding clone put_clone
clone_elements [] ms = (some [], ms)
clone_elements (t ∷ ts) ms = then_clone t (clone_elements ts ms)

-- `malloc` of the list itself is taken to succeed: the code writes to it before it looks.
unfoldable pub list_clone :
    Option (List DalvikType) → Outcomes → Option (List DalvikType) × Outcomes
unfolding clone_elements
list_clone none ms = (none, ms)
list_clone (some ts) ms = clone_elements ts ms
