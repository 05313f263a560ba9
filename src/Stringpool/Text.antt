-- ===== src/Stringpool/Text.antt =====
-- Strings that end at their first 0, and their comparison.
use adam.Base.{ℕ, zero, suc, ◌≡◌, ◌≢◌, refl, Bool, true, ◌&&◌, [], ◌∷◌, ◌==◌, arith, and-true}
use adam.Stringpool.{Str, Hash, byte_at}
use adam.Stringpool.Intern.{take, strncmp_equal, hash_equal}

-- No byte is 0.
abbrev pub IsText : Str → Type 0
IsText [] = Unit
IsText (c ∷ cs) = (c ≢ 0) × IsText cs

pub both : (a b : Bool) → (a && b) ≡ true → (a ≡ true) × (b ≡ true)
both a b h = ground arith

pub strncmp_sound :
    (n : ℕ) (s t : Str) → IsText s → strncmp_equal n s t ≡ true → byte_at s n ≡ 0 → s ≡ take n t
unfolding byte_at
strncmp_sound zero [] t p e z = refl
strncmp_sound zero (c ∷ cs) t (p, ps) e z = absurd (p z)
strncmp_sound (suc n) [] [] p e z = refl
strncmp_sound (suc n) [] (d ∷ ds) p e z = absurd (ground arith)
strncmp_sound (suc n) (c ∷ cs) [] p e z = absurd (ground arith)
strncmp_sound (suc n) (c ∷ cs) (d ∷ ds) (p, ps) e z =
    let (first, more) = both (c == d) (strncmp_equal n cs ds) e in
    let same : c ≡ d = ground arith in rw (same, strncmp_sound n cs ds ps more z) refl

pub strncmp_take : (n : ℕ) (s : Str) → strncmp_equal n (take n s) s ≡ true
strncmp_take zero s = refl
strncmp_take (suc n) [] = refl
strncmp_take (suc n) (c ∷ cs) = and-true _ _ (ground arith) (strncmp_take n cs)

pub byte_at-take : (n : ℕ) (s : Str) → byte_at (take n s) n ≡ 0
unfolding byte_at
byte_at-take zero s = refl
byte_at-take (suc n) [] = refl
byte_at-take (suc n) (c ∷ cs) = byte_at-take n cs

pub hash_equal_sound : (g h : Hash) → hash_equal g h ≡ true → g ≡ h
hash_equal_sound g h e =
    let a : g.murmur ≡ h.murmur = ground arith in
    let b : g.sum ≡ h.sum = ground arith in
    let c : g.square ≡ h.square = ground arith in
    let d : g.elf ≡ h.elf = ground arith in
    λ i. record { murmur = a i; sum = b i; square = c i; elf = d i }

pub hash_equal_refl : (g : Hash) → hash_equal g g ≡ true
hash_equal_refl g = ground arith
