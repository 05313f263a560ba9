-- ===== src/Sexp/Fuel.antt =====
-- How much fuel the parser needs.
use adam.Base.{
  ℕ, zero, suc, ◌+◌, ◌*◌, ◌≤◌, ◌≡◌, refl, sym, subst, Bool, true, false, ◌==◌, [], ◌∷◌, length,
  arith, Bool-cases, inl, inr,
}
use adam.Stringpool.{Str, Accumulator, accumulator_init, accumulator_next}
use adam.Sexp.{Sexp}
use adam.Sexp.Parse.{
  Cursor, cursor, here, minus, is_space, is_open, is_close, ends_literal, skip_blank, step_back,
  next_cursor, Parsed, out_of_fuel, failed, at_eof, fault, parsed, string_loop, parse_string,
  parse_char, literal_loop, parse_literal, continue_list, cons_onto, parse_list, sexp_parse,
}
use adam.Sexp.Blank.{left, skip_blank-le, skip_blank-Settled, skip_blank-step_back}

-- The fuel was enough, and at most `n` bytes of the text are left.
abbrev pub Ends : ℕ → Parsed → Type 0
Ends n out_of_fuel = ⊥
Ends n failed = Unit
Ends n at_eof = Unit
Ends n fault = Unit
Ends n (parsed e p) = left p ≤ n

Ends-le : (m n : ℕ) (r : Parsed) → m ≤ n → Ends m r → Ends n r
Ends-le m n out_of_fuel h e = absurd e
Ends-le m n failed h e = tt
Ends-le m n at_eof h e = tt
Ends-le m n fault h e = tt
Ends-le m n (parsed x p) h e = omega arith

string_loop-Ends :
    (escape : Bool) (acc : Accumulator) (before s : Str)
    → Ends (length s) (string_loop escape acc before s)
unfolding string_loop
string_loop-Ends true acc before [] = tt
string_loop-Ends false acc before [] = tt
string_loop-Ends true acc before (c ∷ cs) =
    Ends-le (length cs) (suc (length cs)) _ (omega arith)
      (string_loop-Ends false (accumulator_next acc c) (c ∷ before) cs)
string_loop-Ends false acc before (c ∷ cs) = elim (Bool-cases (c == 34)) [
  | inl y ↦ rw y (omega arith)
  | inr n ↦ elim (Bool-cases (c == 92)) [
    | inl y ↦
        rw (n, y)
          (Ends-le (length cs) (suc (length cs)) _ (omega arith)
            (string_loop-Ends true acc (c ∷ before) cs))
    | inr m ↦
        rw (n, m)
          (Ends-le (length cs) (suc (length cs)) _ (omega arith)
            (string_loop-Ends false (accumulator_next acc c) (c ∷ before) cs))
  ]
]

parse_string-Ends : (garbage : ℕ) (p : Cursor) → Ends (left p) (parse_string garbage p)
unfolding parse_string
parse_string-Ends garbage p =
    string_loop-Ends false (accumulator_init garbage p.rest) p.before p.rest

parse_char-Ends : (p : Cursor) → Ends (left p) (parse_char p)
unfolding parse_char
parse_char-Ends p = go p.before p.rest
  where
    go : (before s : Str) → Ends (length s) (parse_char (cursor before s))
    go before [] = tt
    go before (c ∷ []) = elim (Bool-cases (c == 92)) [
      | inl y ↦ rw y (omega arith)
      | inr n ↦ rw n (omega arith)
    ]
    go before (c ∷ d ∷ ds) = elim (Bool-cases (c == 92)) [
      | inl y ↦ rw y (omega arith)
      | inr n ↦ rw n (omega arith)
    ]

literal_loop-Ends :
    (acc : Accumulator) (before s : Str) → Ends (length s) (literal_loop acc before s)
unfolding literal_loop
literal_loop-Ends acc before [] = omega arith
literal_loop-Ends acc before (c ∷ cs) = elim (Bool-cases (ends_literal c)) [
  | inl y ↦ rw y (omega arith)
  | inr n ↦ rw n (
      Ends-le (length cs) (suc (length cs)) _ (omega arith)
        (literal_loop-Ends (accumulator_next acc c) (c ∷ before) cs))
]

-- A literal has at least one byte, unless its first byte ends it.
parse_literal-Ends :
    (garbage : ℕ) (before : Str) (c : ℕ) (cs : Str)
    → is_space c ≡ false
    → is_open c ≡ false
    → is_close c ≡ false
    → Ends (length cs) (parse_literal garbage (cursor before (c ∷ cs)))
unfolding parse_literal literal_loop ends_literal
parse_literal-Ends garbage before c cs space opens closes =
    let acc = accumulator_init garbage (c ∷ cs) in
    elim (Bool-cases (c == minus)) [
      | inl y ↦ rw y (literal_loop-Ends (accumulator_next acc c) (c ∷ before) cs)
      | inr n ↦
          rw (n, space, opens, closes) (literal_loop-Ends (accumulator_next acc c) (c ∷ before) cs)
    ]

-- What is left after the white space that a call of `sexp_parse` skips.
abbrev pub effective : Cursor → ℕ
effective p = left (skip_blank p)

cons_onto-Ends : (n c : ℕ) (x : Sexp) (r : Parsed) → Ends n r → Ends n (cons_onto c x r)
unfolding cons_onto
cons_onto-Ends n c x out_of_fuel e = e
cons_onto-Ends n c x failed e = tt
cons_onto-Ends n c x fault e = tt
cons_onto-Ends n c x at_eof e = tt
cons_onto-Ends n c x (parsed es p) e = e

continue_list-Ends :
    (n m : ℕ) (r : Parsed) (read : Cursor → Parsed)
    → Ends m r
    → ((p : Cursor) → left p ≤ m → Ends n (read p))
    → Ends n (continue_list r read)
unfolding continue_list
continue_list-Ends n m out_of_fuel read e f = absurd e
continue_list-Ends n m failed read e f = tt
continue_list-Ends n m at_eof read e f = tt
continue_list-Ends n m fault read e f = tt
continue_list-Ends n m (parsed x p) read e f = cons_onto-Ends n (here p.rest) x (read p) (f p e)

next_cursor-left : (p : Cursor) → left (next_cursor p) ≤ left p
next_cursor-left p = go p.before p.rest
  where
    go : (before s : Str) → left (next_cursor (cursor before s)) ≤ length s
    go before [] = omega arith
    go before (c ∷ cs) = omega arith

next_at :
    (n : ℕ) (p : Cursor) → left p ≤ suc n → (here p.rest == 0) ≡ false → left (next_cursor p) ≤ n
next_at n p = go p.before p.rest
  where
    go :
        (before s : Str)
        → length s ≤ suc n
        → (here s == 0) ≡ false
        → left (next_cursor (cursor before s)) ≤ n
    go before [] h e = absurd (ground (arith, e))
    go before (c ∷ cs) h e = omega arith

literal_at :
    (n garbage : ℕ) (p : Cursor)
    → left p ≤ suc n
    → (here p.rest == 0) ≡ false
    → is_space (here p.rest) ≡ false
    → is_open (here p.rest) ≡ false
    → is_close (here p.rest) ≡ false
    → Ends n (parse_literal garbage p)
literal_at n garbage p = go p.before p.rest
  where
    go :
        (before s : Str)
        → length s ≤ suc n
        → (here s == 0) ≡ false
        → is_space (here s) ≡ false
        → is_open (here s) ≡ false
        → is_close (here s) ≡ false
        → Ends n (parse_literal garbage (cursor before s))
    go before [] h e x y z = absurd (ground (arith, e))
    go before (c ∷ cs) h e x y z =
        Ends-le (length cs) n _ (omega arith) (parse_literal-Ends garbage before c cs x y z)

-- A call of `sexp_parse`, given that those of `parse_list` end.
sexp_parse-step :
    (n fuel garbage : ℕ) (p : Cursor)
    → ((q : Cursor) → left q ≤ n → Ends n (parse_list fuel garbage q))
    → effective p ≤ suc n
    → Ends n (sexp_parse (suc fuel) garbage p)
unfolding sexp_parse
sexp_parse-step n fuel garbage p lists le =
    let q = skip_blank p in
    let c = here q.rest in
    elim (Bool-cases (c == 0)) [
      | inl y ↦ rw y tt
      | inr z ↦ elim (Bool-cases (is_close c)) [
        | inl y ↦ rw (z, y) tt
        | inr close ↦ elim (Bool-cases (is_open c)) [
          | inl y ↦ rw (z, close, y) (lists (next_cursor q) (next_at n q le z))
          | inr opens ↦ elim (Bool-cases (c == 34)) [
            | inl y ↦
                rw (z, close, opens, y)
                  (Ends-le (left (next_cursor q)) n _ (next_at n q le z)
                    (parse_string-Ends garbage (next_cursor q)))
            | inr string ↦ elim (Bool-cases (c == 35)) [
              | inl y ↦
                  rw (z, close, opens, string, y)
                    (Ends-le (left (next_cursor q)) n _ (next_at n q le z)
                      (parse_char-Ends (next_cursor q)))
              | inr other ↦
                  rw (z, close, opens, string, other)
                    (literal_at n garbage q le z (skip_blank-Settled p).no_space opens close)
            ]
          ]
        ]
      ]
    ]

-- A round of `parse_list`, given that the calls for what is left end.
parse_list-step :
    (n m fuel garbage : ℕ) (p : Cursor)
    → left p ≤ n
    → Ends m (sexp_parse fuel garbage (step_back (skip_blank p)))
    → ((q : Cursor) → left q ≤ m → Ends n (parse_list fuel garbage q))
    → Ends n (parse_list (suc fuel) garbage p)
unfolding parse_list
parse_list-step n m fuel garbage p le first more =
    let q = skip_blank p in
    elim (Bool-cases (is_close (here q.rest))) [
      | inl y ↦ rw y (omega (arith, next_cursor-left q, skip_blank-le p))
      | inr z ↦ rw z (
          continue_list-Ends n m (sexp_parse fuel garbage (step_back q)) (parse_list fuel garbage)
            first more)
    ]

parse_list-failed :
    (fuel garbage : ℕ) (p : Cursor)
    → left p ≤ 0
    → sexp_parse fuel garbage (step_back (skip_blank p)) ≡ at_eof
    → Ends 0 (parse_list (suc fuel) garbage p)
unfolding parse_list continue_list
parse_list-failed fuel garbage p le e =
    let q = skip_blank p in
    elim (Bool-cases (is_close (here q.rest))) [
      | inl y ↦ rw y (omega (arith, next_cursor-left q, skip_blank-le p))
      | inr z ↦ rw z (subst (λ r. Ends 0 (continue_list r (parse_list fuel garbage))) (sym e) tt)
    ]

sexp_parse-empty :
    (fuel garbage : ℕ) (p : Cursor) → effective p ≤ 0 → sexp_parse (suc fuel) garbage p ≡ at_eof
unfolding sexp_parse
sexp_parse-empty fuel garbage p h =
    let e : (here (skip_blank p).rest == 0) ≡ true = go (skip_blank p).rest h in rw e refl
  where
    go : (s : Str) → length s ≤ 0 → (here s == 0) ≡ true
    go [] h = refl
    go (c ∷ cs) h = absurd (omega arith)

effective_back : (n : ℕ) (p : Cursor) → left p ≤ n → effective (step_back (skip_blank p)) ≤ n
effective_back n p h =
    omega (arith, skip_blank-step_back (skip_blank p) (skip_blank-Settled p), skip_blank-le p)

parse_list-last :
    (fuel garbage : ℕ) (p : Cursor) → left p ≤ 0 → Ends 0 (parse_list (suc (suc fuel)) garbage p)
parse_list-last fuel garbage p le =
    let q = skip_blank p in
    let e : sexp_parse (suc fuel) garbage (step_back q) ≡ at_eof =
      sexp_parse-empty fuel garbage (step_back q) (effective_back 0 p le) in
    parse_list-failed (suc fuel) garbage p le e

parse_list-Ends :
    (n fuel garbage : ℕ) (p : Cursor)
    → left p ≤ n
    → 2 * n + 2 ≤ fuel
    → Ends n (parse_list fuel garbage p)
parse_list-Ends n zero garbage p le enough = absurd (omega arith)
parse_list-Ends n (suc zero) garbage p le enough = absurd (omega arith)
parse_list-Ends zero (suc (suc fuel)) garbage p le enough = parse_list-last fuel garbage p le
parse_list-Ends (suc m) (suc (suc fuel)) garbage p le enough =
    parse_list-step (suc m) m (suc fuel) garbage p le
      (sexp_parse-step m fuel garbage (step_back (skip_blank p))
        (λ q h. parse_list-Ends m fuel garbage q h (omega arith)) (effective_back (suc m) p le))
      (λ q h.
        Ends-le m (suc m) _ (omega arith) (parse_list-Ends m (suc fuel) garbage q h (omega arith)))

-- With two of the fuel for each byte of the text, and three more, `sexp_parse` comes to an end; if
-- it gives an expression then at least one byte of the text is read.
pub sexp_parse-Ends :
    (n fuel garbage : ℕ) (p : Cursor)
    → left p ≤ suc n
    → 2 * n + 3 ≤ fuel
    → Ends n (sexp_parse fuel garbage p)
sexp_parse-Ends n zero garbage p le enough = absurd (omega arith)
sexp_parse-Ends n (suc fuel) garbage p le enough =
    sexp_parse-step n fuel garbage p (λ q h. parse_list-Ends n fuel garbage q h (omega arith))
      (omega (arith, skip_blank-le p))
