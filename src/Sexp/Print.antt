-- ===== src/Sexp/Print.antt =====
-- src/sexp.c: object paths, the length and the text of S-expressions.
use adam.Base.{
  ℕ, zero, suc, ◌+◌, ◌-◌, true, Option, none, some, List, [], ◌∷◌, ◌++◌, ◌==◌, ltb, if◌then◌else◌,
  length, length-append, arith, ◌<◌, ◌≤◌, ◌≡◌, refl, ap, ◌∙◌,
}
use mathlib.Core.List.{append_assoc}
use adam.Stringpool.{Str}
use adam.Stringpool.Intern.{take}
use adam.Sexp.{Pooled, pooled, Sexp, nil, lit, str, cons, slash, open_paren}

-- A path that was read: the text before its last part, with a slash at the end, the last part, and
-- what follows the path. It fails, or the 4096 bytes of the buffer are exceeded.
pub data PathRead : Type 0 where
  no_path : PathRead
  overflow : PathRead
  path_read : Str → Str → Sexp → PathRead

-- The loop of `sexp_get_object_path` and `sexp_get_method_address`: after the parts in `start` and
-- the last part `name`.
unfoldable pub path_loop : Str → Str → Sexp → PathRead
path_loop start name nil = path_read start name nil
path_loop start name (cons sep (lit p) b) =
    let buf = start ++ name ++ slash ∷ [] in
    let rest = path_loop buf p.str b in
    if ltb 4096 (length buf + length p.str + 1)
    then overflow
    else if sep == slash
    then rest
    else path_read buf p.str b
path_loop start name e = no_path

-- The first round, which has no part before it.
unfoldable pub path_start : Sexp → PathRead
unfolding path_loop
path_start (cons sep (lit p) b) =
    let rest = path_loop [] p.str b in
    if ltb 4096 (length p.str + 1)
    then overflow
    else if sep == slash
    then rest
    else path_read [] p.str b
path_start e = no_path

abbrev pub drop_last : Str → Str
drop_last [] = []
drop_last (c ∷ []) = []
drop_last (c ∷ d ∷ ds) = c ∷ drop_last (d ∷ ds)

-- The outer `none` is a write past the buffer, the inner one the result NULL.
unfoldable pub object_path : PathRead → Option (Option (Pooled × Sexp))
object_path no_path = some none
object_path overflow = none
object_path (path_read start name remaining) = some (some (pooled (start ++ name), remaining))

unfoldable pub get_object_path : Sexp → Option (Option (Pooled × Sexp))
unfolding path_start object_path
get_object_path e = object_path (path_start e)

-- The class path, the method and what follows.
unfoldable pub method_address : PathRead → Option (Option (Pooled × Pooled × Sexp))
method_address no_path = some none
method_address overflow = none
method_address (path_read start name remaining) =
    some (some (pooled (drop_last start), pooled name, remaining))

unfoldable pub get_method_address : Sexp → Option (Option (Pooled × Pooled × Sexp))
unfolding path_start method_address
get_method_address e = method_address (path_start e)

abbrev pub count_conses : Sexp → ℕ
count_conses (cons s a b) = suc (count_conses b)
count_conses e = 0

unfoldable pub sexp_length : Sexp → ℕ
sexp_length nil = 0
sexp_length (lit p) = 1
sexp_length (str p) = 1
sexp_length (cons s a b) = count_conses (cons s a b)

-- What `snprintf` leaves in a buffer of `sz` bytes, its terminating 0 not counted.
abbrev pub snprintf : ℕ → Str → Str
snprintf sz s = take (sz - 1) s

abbrev pub nil_text : Str
nil_text = 110 ∷ 105 ∷ 108 ∷ []

abbrev pub quote : ℕ
quote = 39

-- A byte that is written if there is room for it: what the buffer holds, and what is left of it.
abbrev pub put_char : ℕ → Str × ℕ → Str × ℕ
put_char c (buf, sz) = if ltb 1 sz then (buf ++ c ∷ [], sz - 1) else (buf, sz)

-- The text of an element, after what the buffer holds.
abbrev pub put_text : Option Str → Str × ℕ → Option (Str × ℕ)
put_text none b = none
put_text (some t) (buf, sz) = some (buf ++ t, sz - length t)

abbrev pub print_rest : (ℕ → Option Str) → Option (Str × ℕ) → Option (Str × ℕ)
print_rest print none = none
print_rest print (some b) = put_text (print (put_char 32 b).1) (put_char 32 b)

abbrev pub close_list : Option (Str × ℕ) → Option Str
close_list none = none
close_list (some b) = some (put_char 41 b).0

-- A list, given how its two parts are printed.
abbrev pub print_cons : (ℕ → Option Str) → (ℕ → Option Str) → ℕ → Option Str
print_cons first second sz =
    let b = put_char open_paren ([], sz) in close_list (print_rest second (put_text (first b.1) b))

-- The text in a buffer of `sz` bytes. `none`: nothing is written there, so that the text is what
-- the buffer held before.
unfoldable pub to_string : Sexp → ℕ → Option Str
to_string nil sz = if sz == 0 then none else some (snprintf sz nil_text)
to_string (lit p) sz = if sz == 0 then none else some (snprintf sz p.str)
to_string (str p) sz = if sz == 0 then none else some (snprintf sz (quote ∷ p.str ++ quote ∷ []))
to_string (cons s a b) sz = if ltb 2 sz then print_cons (to_string a) (to_string b) sz else none

-- The whole text.
abbrev pub render : Sexp → Str
render nil = nil_text
render (lit p) = p.str
render (str p) = quote ∷ p.str ++ quote ∷ []
render (cons s a b) = open_paren ∷ (render a ++ (32 ∷ (render b ++ (41 ∷ []))))

take_all : (n : ℕ) (s : Str) → length s ≤ n → take n s ≡ s
take_all zero [] h = refl
take_all (suc n) [] h = refl
take_all zero (c ∷ cs) h = absurd (omega arith)
take_all (suc n) (c ∷ cs) h = ap (λ t. c ∷ t) (take_all n cs (omega arith))

-- In a buffer with room for the whole text and its end, the text is whole.
pub to_string-render :
    (e : Sexp) (sz : ℕ) → length (render e) < sz → to_string e sz ≡ some (render e)
unfolding to_string
to_string-render nil sz h = rw (take_all (sz - 1) nil_text (omega arith)) (ground arith)
to_string-render (lit p) sz h = rw (take_all (sz - 1) p.str (omega arith)) (ground arith)
to_string-render (str p) sz h =
    rw (take_all (sz - 1) (quote ∷ p.str ++ quote ∷ []) (omega arith)) (ground arith)
to_string-render (cons s a b) sz h =
    let tail : List ℕ = 32 ∷ (render b ++ (41 ∷ [])) in
    let n : length (render a ++ tail) ≡ length (render a) + length (render b) + 2 =
      omega (arith, length-append (render a) tail, length-append (render b) (41 ∷ [])) in
    let first : to_string a (sz - 1) ≡ some (render a) =
      to_string-render a (sz - 1) (omega arith) in
    let second : to_string b (sz - 1 - length (render a) - 1) ≡ some (render b) =
      to_string-render b (sz - 1 - length (render a) - 1) (omega arith) in
    let open_room : ltb 1 sz ≡ true = ground arith in
    let list_room : ltb 2 sz ≡ true = ground arith in
    let space_room : ltb 1 (sz - 1 - length (render a)) ≡ true = ground arith in
    let close_room : ltb 1 (sz - 1 - length (render a) - 1 - length (render b)) ≡ true =
      ground arith in
    rw (list_room, open_room, first, space_room, second, close_room)
      (ap (λ t. some (open_paren ∷ t))
        (append_assoc (render a ++ 32 ∷ []) (render b) (41 ∷ [])
          ∙ append_assoc (render a) (32 ∷ []) (render b ++ 41 ∷ [])))
