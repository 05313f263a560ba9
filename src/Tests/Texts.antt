-- ===== src/Tests/Texts.antt =====
-- Pooled strings, S-expressions and types.
use adam.Base.{ℕ, ◌≡◌, some, [], ◌∷◌, arith}
use adam.Stringpool.{Str, hash_func, hash_start, accumulate, accumulator_init, accumulator_hash}
use adam.Stringpool.Accumulate.{accumulator_hash-hash_func}
use adam.Stringpool.Intern.{Pool, query_imp}
use adam.Stringpool.Unique.{IsPool, Queried, query_imp-Queried}
use adam.Sexp.{Sexp, nil, lit, str, cons, pooled}
use adam.Sexp.Print.{to_string, to_string-render, render}
use adam.Sexp.Fuel.{Ends, sexp_parse-Ends}
use adam.Sexp.Parse.{cursor, parsed, sexp_parse, parse_string}
use adam.Sexp.Atoms.{parse_string-plain}

abbrev word : Str
word = 105 ∷ 110 ∷ 118 ∷ 111 ∷ 107 ∷ 101 ∷ []

accumulator_hash-hash_func_example :
    accumulator_hash (accumulate (accumulator_init 77 word) word) ≡ hash_func word
accumulator_hash-hash_func_example =
    accumulator_hash-hash_func 77 word word (omega arith) (omega arith)

abbrev no_strings : Pool
no_strings = record { size = 3; chains = λ i. [] }

no_strings-IsPool : IsPool no_strings
no_strings-IsPool = record { texts = λ i e m. absurd m; unique = λ g h s t a b m n. absurd m }

query_imp-Queried_example :
    (a : ℕ) × (pool' : Pool) × (query_imp 500 600 hash_start 2 (65 ∷ 66 ∷ []) no_strings
      ≡ some (a, pool'))
    × Queried no_strings hash_start (65 ∷ 66 ∷ []) a pool'
query_imp-Queried_example =
    query_imp-Queried 500 600 hash_start 2 (65 ∷ 66 ∷ []) no_strings (omega arith) (omega arith)
      no_strings-IsPool (omega arith) (λ h t b m. absurd m)

abbrev small_list : Sexp
small_list = cons 47 (lit (pooled (65 ∷ []))) (cons 41 (str (pooled (66 ∷ 67 ∷ []))) nil)

to_string-render_example : to_string small_list 40 ≡ some (render small_list)
to_string-render_example = to_string-render small_list 40 (omega arith)

parse_string-plain_example :
    parse_string 9 (cursor (34 ∷ []) (65 ∷ 66 ∷ 34 ∷ 41 ∷ []))
    ≡ parsed (str (pooled (65 ∷ 66 ∷ []))) (cursor (34 ∷ 66 ∷ 65 ∷ 34 ∷ []) (41 ∷ []))
parse_string-plain_example =
    parse_string-plain 9 (34 ∷ []) (65 ∷ 66 ∷ []) (41 ∷ []) (omega arith) (omega arith)
      (omega arith)

sexp_parse-Ends_example : Ends 5 (sexp_parse 13 9 (cursor [] (40 ∷ 65 ∷ 47 ∷ 66 ∷ 41 ∷ 32 ∷ [])))
sexp_parse-Ends_example =
    sexp_parse-Ends 5 13 9 (cursor [] (40 ∷ 65 ∷ 47 ∷ 66 ∷ 41 ∷ 32 ∷ [])) (omega arith)
      (omega arith)
