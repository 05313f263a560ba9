-- ===== src/Sexp.antt =====
-- src/sexp.c: S-expressions, read from text, matched, measured and turned into text.
pub mod Match
pub mod Print
pub mod Parse
pub mod Atoms
pub mod Blank
pub mod Fuel
pub mod Paths
use adam.Base.{
  ℕ, zero, suc, ◌+◌, ◌-◌, Bool, true, false, not, ◌&&◌, ◌||◌, Option, none, some, List, [], ◌∷◌,
  ◌++◌, ◌==◌, if◌then◌else◌, length,
}
use adam.Stringpool.{Str, Hash, hash_func}
use adam.Stringpool.Intern.{hash_equal}

-- The address of a pooled string: the pool gives one address for each hash and string.
pub record Pooled : Type 0 where
  pub hash : Hash
  pub str : Str

-- `stringpool_query`
abbrev pub pooled : Str → Pooled
pooled s = record { hash = hash_func s; str = s }

unfoldable pub same_str : Str → Str → Bool
same_str [] [] = true
same_str [] (y ∷ ys) = false
same_str (x ∷ xs) [] = false
same_str (x ∷ xs) (y ∷ ys) = (x == y) && same_str xs ys

-- `==` of two addresses.
unfoldable pub same_address : Pooled → Pooled → Bool
unfolding same_str
same_address a b = hash_equal a.hash b.hash && same_str a.str b.str

-- NIL is the null pointer. A cons keeps the byte after its first element.
pub data Sexp : Type 0 where
  nil : Sexp
  lit : Pooled → Sexp
  str : Pooled → Sexp
  cons : ℕ → Sexp → Sexp → Sexp

-- What a call may give back: the address of a string or an expression.
pub data Value : Type 0 where
  string_at : Pooled → Value
  sexp_at : Sexp → Value

-- The bytes of patterns and separators.
abbrev pub char_C : ℕ
char_C = 67

abbrev pub char_L : ℕ
char_L = 76

abbrev pub char_S : ℕ
char_S = 83

abbrev pub char_A : ℕ
char_A = 65

abbrev pub underscore : ℕ
underscore = 95

abbrev pub question : ℕ
question = 63

abbrev pub equals : ℕ
equals = 61

abbrev pub slash : ℕ
slash = 47

abbrev pub open_paren : ℕ
open_paren = 40

-- The argument for a place of a pattern: a string for `=`, a place to write to for `?`.
pub data Arg : Type 0 where
  given : Pooled → Arg
  out : Arg

abbrev pub Matched : Type 0
Matched = Bool × Option Value

-- Does the type of the expression agree with the letter?
unfoldable pub type_agrees : ℕ → Sexp → Bool
type_agrees tc nil = false
type_agrees tc (lit p) = (tc == char_L) || (tc == underscore)
type_agrees tc (str p) = (tc == char_S) || (tc == underscore)
type_agrees tc (cons s a b) = (tc == char_C) || (tc == underscore)

-- `this_chr == *(const char**)sexpr->data`; the argument for `=` is a string.
unfoldable pub verify : Arg → Sexp → Bool
unfolding same_address
verify (given p) (lit q) = same_address p q
verify (given p) (str q) = same_address p q
verify (given p) e = false
verify out e = false

-- What `?` stores: the string, or the expression itself.
unfoldable pub stored : ℕ → Sexp → Value
stored tc (lit p) = if tc == underscore then sexp_at (lit p) else string_at p
stored tc (str p) = if tc == underscore then sexp_at (str p) else string_at p
stored tc e = sexp_at e

unfoldable pub is_cons : Sexp → Bool
is_cons (cons s a b) = true
is_cons e = false

-- `_sexp_match_one` on an expression that is not NIL.
unfoldable pub match_some : ℕ → ℕ → Arg → Sexp → Matched
unfolding type_agrees verify stored is_cons
match_some tc sc arg e =
    if not (type_agrees tc e) || (sc == 0)
    then (false, none)
    else if (sc == equals) && (is_cons e || (tc == underscore))
    then (false, none)
    else if sc == equals
    then (verify arg e, none)
    else (true, (if sc == question then some (stored tc e) else none))

unfoldable pub match_one : ℕ → ℕ → Arg → Sexp → Matched
unfolding match_some
match_one tc sc arg nil =
    if (tc == char_C) && (sc == question) then (true, some (sexp_at nil)) else (false, none)
match_one tc sc arg (lit p) = match_some tc sc arg (lit p)
match_one tc sc arg (str p) = match_some tc sc arg (str p)
match_one tc sc arg (cons s a b) = match_some tc sc arg (cons s a b)
