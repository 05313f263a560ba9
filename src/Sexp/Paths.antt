-- ===== src/Sexp/Paths.antt =====
-- Object paths and method addresses.
use mathlib.Core.List.{append_assoc, append-nil}
use adam.Base.{
  ℕ, ◌+◌, ◌≤◌, ◌≡◌, refl, ◌∙◌, ap, false, ◌==◌, ltb, some, List, [], ◌∷◌, ◌++◌, length,
  length-append, arith,
}
use adam.Stringpool.{Str}
use adam.Sexp.{Pooled, pooled, Sexp, lit, cons, slash}
use adam.Sexp.Print.{
  path_read, path_loop, path_start, get_object_path, get_method_address, drop_last,
}

-- The literals of a path with slashes between them, and the byte after it.
abbrev pub path_sexp : List Pooled → Pooled → ℕ → Sexp → Sexp
path_sexp [] name sep tail = cons sep (lit name) tail
path_sexp (p ∷ ps) name sep tail = cons slash (lit p) (path_sexp ps name sep tail)

-- The text of the parts, with a slash after each.
abbrev pub parts_text : List Pooled → Str
parts_text [] = []
parts_text (p ∷ ps) = (p.str ++ slash ∷ []) ++ parts_text ps

length-part : (s t : Str) → length (s ++ t ++ slash ∷ []) ≡ length s + length t + 1
length-part s t = omega (arith, length-append (s ++ t) (slash ∷ []), length-append s t)

path_loop-parts :
    (start last : Str) (ps : List Pooled) (name : Pooled) (sep : ℕ) (tail : Sexp)
    → (sep == slash) ≡ false
    → length start + length last + length (parts_text ps) + length name.str + 2 ≤ 4096
    → path_loop start last (path_sexp ps name sep tail)
      ≡ path_read ((start ++ last ++ slash ∷ []) ++ parts_text ps) name.str tail
unfolding path_loop
path_loop-parts start last [] name sep tail e fits =
    let buf = start ++ last ++ slash ∷ [] in
    let n : length buf ≡ length start + length last + 1 = length-part start last in
    let room : ltb 4096 (length buf + length name.str + 1) ≡ false = ground arith in
    rw (room, e, append-nil) refl
path_loop-parts start last (p ∷ ps) name sep tail e fits =
    let buf = start ++ last ++ slash ∷ [] in
    let n : length buf ≡ length start + length last + 1 = length-part start last in
    let m : length ((p.str ++ slash ∷ []) ++ parts_text ps)
        ≡ length p.str + 1 + length (parts_text ps) =
      omega (
        arith,
        length-append (p.str ++ slash ∷ []) (parts_text ps),
        length-append p.str (slash ∷ []),
      ) in
    let room : ltb 4096 (length buf + length p.str + 1) ≡ false = ground arith in
    rw room (
      path_loop-parts buf p.str ps name sep tail e (omega arith)
      ∙ ap (λ t. path_read t name.str tail)
          (ap (λ t. t ++ parts_text ps) (append_assoc buf p.str (slash ∷ []))
            ∙ append_assoc buf (p.str ++ slash ∷ []) (parts_text ps)))

path_start-parts :
    (ps : List Pooled) (name : Pooled) (sep : ℕ) (tail : Sexp)
    → (sep == slash) ≡ false
    → length (parts_text ps) + length name.str + 1 ≤ 4096
    → path_start (path_sexp ps name sep tail) ≡ path_read (parts_text ps) name.str tail
unfolding path_start
path_start-parts [] name sep tail e fits =
    let room : ltb 4096 (length name.str + 1) ≡ false = ground arith in rw (room, e) refl
path_start-parts (p ∷ ps) name sep tail e fits =
    let m : length ((p.str ++ slash ∷ []) ++ parts_text ps)
        ≡ length p.str + 1 + length (parts_text ps) =
      omega (
        arith,
        length-append (p.str ++ slash ∷ []) (parts_text ps),
        length-append p.str (slash ∷ []),
      ) in
    let room : ltb 4096 (length p.str + 1) ≡ false = ground arith in
    rw room (path_loop-parts [] p.str ps name sep tail e (omega arith))

-- Literals with slashes between them, which fit in the buffer, are read as one path: its parts
-- joined by slashes, or all parts but the last one and the last one; what follows is left.
pub get_object_path-get_method_address :
    (ps : List Pooled) (name : Pooled) (sep : ℕ) (tail : Sexp)
    → (sep == slash) ≡ false
    → length (parts_text ps) + length name.str + 1 ≤ 4096
    → (get_object_path (path_sexp ps name sep tail)
        ≡ some (some (pooled (parts_text ps ++ name.str), tail)))
      × (get_method_address (path_sexp ps name sep tail)
          ≡ some (some (pooled (drop_last (parts_text ps)), pooled name.str, tail)))
unfolding get_object_path get_method_address
get_object_path-get_method_address ps name sep tail e fits =
    let run = path_start-parts ps name sep tail e fits in (rw run refl, rw run refl)
