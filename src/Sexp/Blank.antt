-- ===== src/Sexp/Blank.antt =====
-- Where the parser stands after white space and comments.
use adam.Base.{
  ℕ, zero, suc, ◌≤◌, ◌≡◌, refl, true, false, ◌||◌, ◌==◌, [], ◌∷◌, length, arith, Bool-cases, inl,
  inr,
}
use adam.Stringpool.{Str}
use adam.Sexp.Parse.{
  Cursor, cursor, here, minus, is_space, skip_spaces, parse_ws, skip_line, parse_comment,
  skip_blank, step_back,
}

abbrev pub left : Cursor → ℕ
left p = length p.rest

-- The byte before was skipped by `_sexp_parse_ws`.
abbrev pub Skipped : Str → Type 0
Skipped [] = ⊥
Skipped (c ∷ cs) = (is_space c || (c == minus)) ≡ true

-- The pointer is at no space, and if it is at a `-` then the byte before was skipped.
pub record Settled (p : Cursor) : Type 0 where
  pub no_space : is_space (here p.rest) ≡ false
  pub at_minus : here p.rest ≡ minus → Skipped p.before

skip_spaces-le : (before s : Str) → left (skip_spaces before s) ≤ length s
unfolding skip_spaces
skip_spaces-le before [] = omega arith
skip_spaces-le before (c ∷ cs) = elim (Bool-cases (is_space c)) [
  | inl y ↦ rw y (omega (arith, skip_spaces-le (c ∷ before) cs))
  | inr n ↦ rw n (omega arith)
]

skip_spaces_done : (before s : Str) → is_space (here (skip_spaces before s).rest) ≡ false
unfolding skip_spaces
skip_spaces_done before [] = refl
skip_spaces_done before (c ∷ cs) = elim (Bool-cases (is_space c)) [
  | inl y ↦ rw y (skip_spaces_done (c ∷ before) cs)
  | inr n ↦ rw n n
]

skip_spaces-Skipped : (before s : Str) → Skipped before → Skipped (skip_spaces before s).before
unfolding skip_spaces
skip_spaces-Skipped before [] h = h
skip_spaces-Skipped before (c ∷ cs) h = elim (Bool-cases (is_space c)) [
  | inl y ↦ rw y (skip_spaces-Skipped (c ∷ before) cs (rw y refl))
  | inr n ↦ rw n h
]

parse_ws-le : (p : Cursor) → left (parse_ws p) ≤ left p
unfolding parse_ws
parse_ws-le p = go p.before p.rest
  where
    go : (before s : Str) → left (parse_ws (cursor before s)) ≤ length s
    go before [] = omega arith
    go before (c ∷ cs) = elim (Bool-cases (c == minus)) [
      | inl y ↦ rw y (omega (arith, skip_spaces-le (c ∷ before) cs))
      | inr n ↦ rw n (skip_spaces-le before (c ∷ cs))
    ]

parse_ws-Settled : (before s : Str) → Settled (parse_ws (cursor before s))
unfolding parse_ws skip_spaces
parse_ws-Settled before [] = record { no_space = refl; at_minus = λ e. absurd (omega (arith, e)) }
parse_ws-Settled before (c ∷ cs) = elim (Bool-cases (c == minus)) [
  | inl y ↦ rw y (record {
    no_space = skip_spaces_done (c ∷ before) cs;
    at_minus = λ e. skip_spaces-Skipped (c ∷ before) cs (ground (arith, y));
  })
  | inr n ↦ elim (Bool-cases (is_space c)) [
    | inl space ↦
        rw (n, space)
          (record {
            no_space = skip_spaces_done (c ∷ before) cs;
            at_minus = λ e. skip_spaces-Skipped (c ∷ before) cs (rw space refl);
          })
    | inr other ↦
        rw (n, other) (record { no_space = other; at_minus = λ e. absurd (ground (arith, n, e)) })
  ]
]

skip_line-le : (before s : Str) → left (skip_line before s) ≤ length s
unfolding skip_line
skip_line-le before [] = omega arith
skip_line-le before (c ∷ cs) = elim (Bool-cases (c == 10)) [
  | inl y ↦ rw y (omega arith)
  | inr n ↦ rw n (omega (arith, skip_line-le (c ∷ before) cs))
]

parse_comment-le : (n : ℕ) (before s : Str) → left (parse_comment n (cursor before s)) ≤ length s
unfolding parse_comment
parse_comment-le zero before s = omega arith
parse_comment-le (suc n) before [] = omega arith
parse_comment-le (suc n) before (c ∷ cs) =
    let p = parse_ws (skip_line (c ∷ before) cs) in
    elim (Bool-cases (c == 59)) [
      | inl y ↦ rw y (
          omega (
            arith,
            parse_comment-le n p.before p.rest,
            parse_ws-le (skip_line (c ∷ before) cs),
            skip_line-le (c ∷ before) cs,
          ))
      | inr n ↦ rw n (omega arith)
    ]

parse_comment-Settled :
    (n : ℕ) (before s : Str)
    → Settled (cursor before s)
    → Settled (parse_comment n (cursor before s))
unfolding parse_comment
parse_comment-Settled zero before s h = h
parse_comment-Settled (suc n) before [] h = h
parse_comment-Settled (suc n) before (c ∷ cs) h =
    let l = skip_line (c ∷ before) cs in
    elim (Bool-cases (c == 59)) [
      | inl y ↦ rw y (
          parse_comment-Settled n (parse_ws l).before (parse_ws l).rest
            (parse_ws-Settled l.before l.rest))
      | inr n ↦ rw n h
    ]

pub skip_blank-le : (p : Cursor) → left (skip_blank p) ≤ left p
unfolding skip_blank
skip_blank-le p =
    let q = parse_ws p in
    omega (arith, parse_ws-le p, parse_comment-le (length q.rest) q.before q.rest)

pub skip_blank-Settled : (p : Cursor) → Settled (skip_blank p)
unfolding skip_blank
skip_blank-Settled p =
    let q = parse_ws p in
    parse_comment-Settled (length q.rest) q.before q.rest (parse_ws-Settled p.before p.rest)

parse_ws-back :
    (before cs : Str) (c d : ℕ)
    → d ≡ minus
    → (is_space c || (c == minus)) ≡ true
    → parse_ws (cursor before (c ∷ d ∷ cs)) ≡ cursor (c ∷ before) (d ∷ cs)
unfolding parse_ws skip_spaces is_space
parse_ws-back before cs c d e h = ground (arith, h, e)

-- The byte that `parse_list` steps back to is skipped again.
pub skip_blank-step_back : (q : Cursor) → Settled q → left (skip_blank (step_back q)) ≤ left q
unfolding step_back skip_blank
skip_blank-step_back q h = go q.before q.rest h
  where
    go :
        (before s : Str)
        → Settled (cursor before s)
        → left (skip_blank (step_back (cursor before s))) ≤ length s
    go [] s h = skip_blank-le (cursor [] s)
    go (c ∷ cs) [] h = skip_blank-le (cursor (c ∷ cs) [])
    go (c ∷ cs) (d ∷ ds) h = elim (Bool-cases (d == minus)) [
      | inl y ↦
          let e : d ≡ minus = ground (arith, y) in
          rw (y, parse_ws-back cs ds c d e (h.at_minus e))
            (parse_comment-le (length (d ∷ ds)) (c ∷ cs) (d ∷ ds))
      | inr n ↦ rw n (skip_blank-le (cursor (c ∷ cs) (d ∷ ds)))
    ]
