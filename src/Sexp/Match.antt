-- ===== src/Sexp/Match.antt =====
-- src/sexp.c: `sexp_match` and `sexp_strip`.
use adam.Base.{ℕ, Bool, true, false, ◌||◌, Option, none, some, List, [], ◌∷◌, ◌==◌, if◌then◌else◌}
use adam.Stringpool.{Str}
use adam.Sexp.{
  Pooled, same_address, Sexp, nil, lit, str, cons, Value, sexp_at, Arg, out, Matched, match_one,
  char_A, open_paren,
}

-- The next argument of the call, and those after it.
abbrev pub first_arg : List Arg → Arg
first_arg [] = out
first_arg (a ∷ more) = a

abbrev pub later_args : List Arg → List Arg
later_args [] = []
later_args (a ∷ more) = more

abbrev pub is_nil : Sexp → Bool
is_nil nil = true
is_nil e = false

-- The result of a call of `sexp_match`, and what it stored for its arguments.
abbrev pub Matches : Type 0
Matches = Bool × List (Option Value)

unfoldable pub after_element : Matched → Matches → Matches
after_element (true, v) (ok, vs) = (ok, v ∷ vs)
after_element (false, v) rest = (false, v ∷ [])

-- The loop over the places of a list pattern.
unfoldable pub match_list : Str → List Arg → Sexp → Matches
unfolding match_one after_element
match_list [] args e = (is_nil e, [])
match_list (tc ∷ []) args (cons s a b) =
    if tc == char_A
    then (true, some (sexp_at (cons s a b)) ∷ [])
    else after_element (match_one tc 0 (first_arg args) a) (false, [])
match_list (tc ∷ []) args e = if tc == char_A then (true, some (sexp_at e) ∷ []) else (false, [])
match_list (tc ∷ sc ∷ ps) args (cons s a b) =
    let rest = match_list ps (later_args args) b in
    if tc == char_A
    then (false, some (sexp_at (cons s a b)) ∷ [])
    else after_element (match_one tc sc (first_arg args) a) rest
match_list (tc ∷ sc ∷ ps) args e =
    if tc == char_A then (false, some (sexp_at e) ∷ []) else (false, [])

unfoldable pub single : Matched → Matches
single (ok, v) = (ok, v ∷ [])

abbrev pub next_char : Str → ℕ
next_char [] = 0
next_char (c ∷ cs) = c

unfoldable pub sexp_match : Option Str → List Arg → Sexp → Matches
unfolding match_list match_one single
sexp_match none args e = (false, [])
sexp_match (some []) args e = (false, [])
sexp_match (some (c ∷ cs)) args e =
    if c == open_paren
    then match_list cs args e
    else single (match_one c (next_char cs) (first_arg args) e)

unfoldable pub is_expected : List Pooled → Pooled → Bool
unfolding same_address
is_expected [] first = false
is_expected (p ∷ ps) first = same_address first p || is_expected ps first

-- `none`: the list begins with NIL, which is dereferenced. The data of a cons is no string.
unfoldable pub sexp_strip : List Pooled → Sexp → Option Sexp
unfolding is_expected
sexp_strip expected (cons s nil b) = none
sexp_strip expected (cons s (lit p) b) =
    some (if is_expected expected p then b else cons s (lit p) b)
sexp_strip expected (cons s (str p) b) =
    some (if is_expected expected p then b else cons s (str p) b)
sexp_strip expected (cons s (cons t c d) b) = some (cons s (cons t c d) b)
sexp_strip expected e = some e
