-- ===== src/DalvikType/Equal.antt =====
-- Equality of types and of lists of types.
use adam.Base.{
  ℕ, zero, suc, ◌≡◌, ◌↔◌, refl, sym, ◌∙◌, ap, true, ◌==◌, Option, none, some, List, [], ◌∷◌, arith,
  and-true,
}
use adam.Stringpool.{Str}
use adam.Stringpool.Intern.{hash_equal}
use adam.Stringpool.Text.{both, hash_equal_sound, hash_equal_refl}
use adam.Sexp.{Pooled, same_address, same_str}
use adam.DalvikType.{
  Atom, void, int, long, short, wide, float, double, char, byte, boolean, typecode, DalvikType,
  null, atom, object, array, equal, equal_elements, list_equal,
}

same_str_refl : (s : Str) → same_str s s ≡ true
unfolding same_str
same_str_refl [] = refl
same_str_refl (c ∷ cs) = and-true (c == c) (same_str cs cs) (ground arith) (same_str_refl cs)

same_str_sound : (s t : Str) → same_str s t ≡ true → s ≡ t
unfolding same_str
same_str_sound [] [] h = refl
same_str_sound [] (d ∷ ds) h = absurd (ground arith)
same_str_sound (c ∷ cs) [] h = absurd (ground arith)
same_str_sound (c ∷ cs) (d ∷ ds) h =
    let (first, more) = both (c == d) (same_str cs ds) h in
    let e : c ≡ d = ground arith in rw (e, same_str_sound cs ds more) refl

pub same_address_refl : (p : Pooled) → same_address p p ≡ true
unfolding same_address
same_address_refl p = and-true _ _ (hash_equal_refl p.hash) (same_str_refl p.str)

pub same_address_sound : (p q : Pooled) → same_address p q ≡ true → p ≡ q
unfolding same_address
same_address_sound p q h =
    let (a, b) = both (hash_equal p.hash q.hash) (same_str p.str q.str) h in
    λ i. record { hash = hash_equal_sound p.hash q.hash a i; str = same_str_sound p.str q.str b i }

equal_refl : (t : DalvikType) → equal t t ≡ true
unfolding equal
equal_refl null = refl
equal_refl (atom a) = ground arith
equal_refl (object p) = same_address_refl p
equal_refl (array t) = equal_refl t

atom_at : List Atom → ℕ → Atom
atom_at [] n = void
atom_at (a ∷ more) zero = a
atom_at (a ∷ more) (suc n) = atom_at more n

atoms : List Atom
atoms = void ∷ int ∷ long ∷ short ∷ wide ∷ float ∷ double ∷ char ∷ byte ∷ boolean ∷ []

atom_of-typecode : (a : Atom) → atom_at atoms (typecode a) ≡ a
unfolding atom_at atoms
atom_of-typecode void = refl
atom_of-typecode int = refl
atom_of-typecode long = refl
atom_of-typecode short = refl
atom_of-typecode wide = refl
atom_of-typecode float = refl
atom_of-typecode double = refl
atom_of-typecode char = refl
atom_of-typecode byte = refl
atom_of-typecode boolean = refl

typecode_injective : (a b : Atom) → typecode a ≡ typecode b → a ≡ b
typecode_injective a b h = sym (atom_of-typecode a) ∙ ap (atom_at atoms) h ∙ atom_of-typecode b

equal_sound : (s t : DalvikType) → equal s t ≡ true → s ≡ t
unfolding equal
equal_sound null null h = refl
equal_sound (atom a) (atom b) h = ap atom (typecode_injective a b (ground arith))
equal_sound (object p) (object q) h = ap object (same_address_sound p q h)
equal_sound (array s) (array t) h = ap array (equal_sound s t h)
equal_sound null (atom b) h = absurd (ground arith)
equal_sound null (object b) h = absurd (ground arith)
equal_sound null (array b) h = absurd (ground arith)
equal_sound (atom a) null h = absurd (ground arith)
equal_sound (atom a) (object b) h = absurd (ground arith)
equal_sound (atom a) (array b) h = absurd (ground arith)
equal_sound (object a) null h = absurd (ground arith)
equal_sound (object a) (atom b) h = absurd (ground arith)
equal_sound (object a) (array b) h = absurd (ground arith)
equal_sound (array a) null h = absurd (ground arith)
equal_sound (array a) (atom b) h = absurd (ground arith)
equal_sound (array a) (object b) h = absurd (ground arith)

-- The comparison of two types says whether they are the same type.
pub equal_iff : (s t : DalvikType) → (equal s t ≡ true) ↔ (s ≡ t)
equal_iff s t = (equal_sound s t, λ e. ap (equal s) (sym e) ∙ equal_refl s)

elements_refl : (ts : List DalvikType) → equal_elements ts ts ≡ true
unfolding equal_elements
elements_refl [] = refl
elements_refl (t ∷ ts) = and-true _ _ (equal_refl t) (elements_refl ts)

elements_sound : (ss ts : List DalvikType) → equal_elements ss ts ≡ true → ss ≡ ts
unfolding equal_elements
elements_sound [] [] h = refl
elements_sound (s ∷ ss) (t ∷ ts) h =
    let (a, b) = both (equal s t) (equal_elements ss ts) h in
    rw (equal_sound s t a, elements_sound ss ts b) refl
elements_sound [] (t ∷ ts) h = absurd (ground arith)
elements_sound (s ∷ ss) [] h = absurd (ground arith)

lists_sound : (ss ts : Option (List DalvikType)) → list_equal ss ts ≡ true → ss ≡ ts
unfolding list_equal
lists_sound none none h = refl
lists_sound (some ss) (some ts) h = ap some (elements_sound ss ts h)
lists_sound none (some ts) h = absurd (ground arith)
lists_sound (some ss) none h = absurd (ground arith)

lists_refl : (ts : Option (List DalvikType)) → list_equal ts ts ≡ true
unfolding list_equal
lists_refl none = refl
lists_refl (some ts) = elements_refl ts

-- The comparison of two lists of types says whether they are the same list, NULL included.
pub list_equal_iff : (ss ts : Option (List DalvikType)) → (list_equal ss ts ≡ true) ↔ (ss ≡ ts)
list_equal_iff ss ts = (lists_sound ss ts, λ e. ap (list_equal ss) (sym e) ∙ lists_refl ss)
