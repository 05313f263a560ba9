-- ===== src/Sexp/Parse.antt =====
-- src/sexp.c: the parser. A pointer into the text is the text before it, backwards, and from it on.
use adam.Base.{ℕ, zero, suc, Bool, true, false, ◌||◌, [], ◌∷◌, ◌==◌, if◌then◌else◌, length}
use adam.Stringpool.{Str, Accumulator, accumulator_init, accumulator_next, accumulator_hash}
use adam.Stringpool.Intern.{take}
use adam.Sexp.{Pooled, pooled, Sexp, nil, lit, str, cons, open_paren, slash}

pub record Cursor : Type 0 where
  pub before : Str
  pub rest : Str

abbrev pub cursor : Str → Str → Cursor
cursor before rest = record { before = before; rest = rest }

-- `*p`
abbrev pub here : Str → ℕ
here [] = 0
here (c ∷ cs) = c

abbrev pub minus : ℕ
minus = 45

unfoldable pub is_space : ℕ → Bool
is_space c =
    (c == 32) || (c == 9) || (c == 13) || (c == 10) || (c == slash) || (c == 44) || (c == 46)

unfoldable pub is_open : ℕ → Bool
is_open c = (c == open_paren) || (c == 91) || (c == 123)

unfoldable pub is_close : ℕ → Bool
is_close c = (c == 41) || (c == 93) || (c == 125)

-- The bytes that end a literal.
unfoldable pub ends_literal : ℕ → Bool
unfolding is_space is_open is_close
ends_literal c = is_space c || (c == minus) || is_open c || is_close c

-- The loop of `_sexp_parse_ws`.
unfoldable pub skip_spaces : Str → Str → Cursor
unfolding is_space
skip_spaces before [] = cursor before []
skip_spaces before (c ∷ cs) =
    let rest = skip_spaces (c ∷ before) cs in if is_space c then rest else cursor before (c ∷ cs)

unfoldable pub parse_ws : Cursor → Cursor
unfolding skip_spaces
parse_ws p = elim p.rest [
  | [] ↦ p
  | c ∷ cs ↦ if c == minus then skip_spaces (c ∷ p.before) cs else skip_spaces p.before (c ∷ cs)
]

-- The loop of `_sexp_parse_comment`: to the end of the line.
unfoldable pub skip_line : Str → Str → Cursor
skip_line before [] = cursor before []
skip_line before (c ∷ cs) =
    let rest = skip_line (c ∷ before) cs in if c == 10 then cursor before (c ∷ cs) else rest

-- Comments and what is between them; each round reads at least one byte, which the first argument
-- bounds.
unfoldable pub parse_comment : ℕ → Cursor → Cursor
unfolding skip_line parse_ws
parse_comment zero p = p
parse_comment (suc fuel) p = elim p.rest [
  | [] ↦ p
  | c ∷ cs ↦
      let rest = parse_comment fuel (parse_ws (skip_line (c ∷ p.before) cs)) in
      if c == 59 then rest else cursor p.before (c ∷ cs)
]

-- White space, then comments.
unfoldable pub skip_blank : Cursor → Cursor
unfolding parse_ws parse_comment
skip_blank p = let q = parse_ws p in parse_comment (length q.rest) q

-- `if(*str == '-') str --;`
unfoldable pub step_back : Cursor → Cursor
step_back p = elim p.before [
  | [] ↦ p
  | c ∷ cs ↦ if here p.rest == minus then cursor cs (c ∷ p.rest) else p
]

-- The result of a call: NULL, NULL with the end of the text in the buffer, or an expression and
-- the text after it. `fault` is a pointer behind the text's 0. `out_of_fuel` is the model's own.
pub data Parsed : Type 0 where
  out_of_fuel : Parsed
  failed : Parsed
  at_eof : Parsed
  fault : Parsed
  parsed : Sexp → Cursor → Parsed

-- `stringpool_accumulator_query`: the string of the first `count` bytes from `begin` on, under the
-- hash of the bytes that were accumulated.
unfoldable pub query_accumulator : Accumulator → Pooled
query_accumulator acc = record { hash = accumulator_hash acc; str = take acc.count acc.begin }

-- The loop of `_sexp_parse_string`; `escape` says that the byte before was a backslash.
unfoldable pub string_loop : Bool → Accumulator → Str → Str → Parsed
unfolding query_accumulator
string_loop escape acc before [] = failed
string_loop false acc before (c ∷ cs) =
    let more = string_loop false (accumulator_next acc c) (c ∷ before) cs in
    let escaped = string_loop true acc (c ∷ before) cs in
    if c == 34
    then parsed (str (query_accumulator acc)) (cursor (c ∷ before) cs)
    else if c == 92
    then escaped
    else more
string_loop true acc before (c ∷ cs) = string_loop false (accumulator_next acc c) (c ∷ before) cs

-- `garbage` is what the accumulator's uninitialised word holds.
unfoldable pub parse_string : ℕ → Cursor → Parsed
unfolding string_loop
parse_string garbage p = string_loop false (accumulator_init garbage p.rest) p.before p.rest

-- A `#` at the end of the text makes the pointer step over the 0.
unfoldable pub parse_char : Cursor → Parsed
parse_char p = elim p.rest [
  | [] ↦ fault
  | c ∷ cs ↦
      if c == 92
      then elim cs [
        | [] ↦ parsed (str (pooled [])) (cursor (c ∷ p.before) [])
        | d ∷ ds ↦ parsed (str (pooled (d ∷ []))) (cursor (d ∷ c ∷ p.before) ds)
      ]
      else parsed (str (pooled (c ∷ []))) (cursor (c ∷ p.before) cs)
]

unfoldable pub literal_loop : Accumulator → Str → Str → Parsed
unfolding query_accumulator ends_literal
literal_loop acc before [] = parsed (lit (query_accumulator acc)) (cursor before [])
literal_loop acc before (c ∷ cs) =
    let more = literal_loop (accumulator_next acc c) (c ∷ before) cs in
    if ends_literal c then parsed (lit (query_accumulator acc)) (cursor before (c ∷ cs)) else more

unfoldable pub parse_literal : ℕ → Cursor → Parsed
unfolding literal_loop
parse_literal garbage p =
    let acc = accumulator_init garbage p.rest in
    elim p.rest [
      | [] ↦ literal_loop acc p.before []
      | c ∷ cs ↦
          if c == minus
          then literal_loop (accumulator_next acc c) (c ∷ p.before) cs
          else literal_loop acc p.before (c ∷ cs)
    ]

-- The rest of a list is read, after an element and the byte behind it.
unfoldable pub cons_onto : ℕ → Sexp → Parsed → Parsed
cons_onto seperator e out_of_fuel = out_of_fuel
cons_onto seperator e failed = failed
cons_onto seperator e fault = fault
cons_onto seperator e at_eof = failed
cons_onto seperator e (parsed es p) = parsed (cons seperator e es) p

-- A list whose first element is read, given how the rest of it is read.
unfoldable pub continue_list : Parsed → (Cursor → Parsed) → Parsed
unfolding cons_onto
continue_list out_of_fuel read = out_of_fuel
continue_list failed read = failed
continue_list fault read = fault
continue_list at_eof read = failed
continue_list (parsed e p) read = cons_onto (here p.rest) e (read p)

abbrev pub next_cursor : Cursor → Cursor
next_cursor p = elim p.rest [ [] ↦ p | c ∷ cs ↦ cursor (c ∷ p.before) cs ]

-- Each round of the loop and each call takes one of the fuel.
unfoldable mutual
  -- The loop of `_sexp_parse_list`.
  pub parse_list : ℕ → ℕ → Cursor → Parsed
  parse_list zero garbage p = out_of_fuel
  parse_list (suc fuel) garbage p =
      let q = skip_blank p in
      let more = continue_list (sexp_parse fuel garbage (step_back q)) (parse_list fuel garbage) in
      if is_close (here q.rest) then parsed nil (next_cursor q) else more

  pub sexp_parse : ℕ → ℕ → Cursor → Parsed
  sexp_parse zero garbage p = out_of_fuel
  sexp_parse (suc fuel) garbage p =
      let q = skip_blank p in
      let listed = parse_list fuel garbage (next_cursor q) in
      let c = here q.rest in
      if c == 0
      then at_eof
      else if is_close c
      then failed
      else if is_open c
      then listed
      else if c == 34
      then parse_string garbage (next_cursor q)
      else if c == 35
      then parse_char (next_cursor q)
      else parse_literal garbage q
