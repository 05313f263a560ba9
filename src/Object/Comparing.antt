-- ===== src/Object/Comparing.antt =====
-- What the comparison of two objects says.
use adam.Base.{
  ℕ, zero, suc, ◌≡◌, refl, sym, ◌∙◌, ap, ◌↔◌, Bool, true, false, Option, some, List, [], ◌∷◌, ◌==◌,
  length, arith, Bool-cases, inl, inr, ==_refl,
}
use adam.TagSet
use adam.Object.{
  bci_equal, Class, Wrap, Part, user, builtin, Object, own_class, same_class, same_addrs,
  equal_rounds, equal_parts, equal,
}

-- The parts are of user-defined classes, but for the last one, which may be of a built-in class, as
-- java/lang/Object is.
abbrev pub BuiltinLast : List Part → Type 0
BuiltinLast [] = Unit
BuiltinLast (user c xs ∷ ps) = BuiltinLast ps
BuiltinLast (builtin w x ∷ ps) = ps ≡ []

-- Where both objects have data of a built-in class, the class tells whether they are equal.
abbrev pub Answered : List Part → List Part → Type 0
Answered (user c xs ∷ ps) (user d ys ∷ qs) = Answered ps qs
Answered (builtin v x ∷ ps) (builtin w y ∷ qs) = (r : Bool) × (bci_equal v.class x y ≡ some r)
Answered (user c xs ∷ ps) (builtin w y ∷ qs) = Unit
Answered (builtin v x ∷ ps) (user d ys ∷ qs) = Unit
Answered [] qs = Unit
Answered (p ∷ ps) [] = Unit

-- There are as many parts, of the same kinds; the members have the same values, and data of a
-- built-in class are equal for the class.
abbrev pub SameParts : List Part → List Part → Type 0
SameParts [] [] = Unit
SameParts (user c xs ∷ ps) (user d ys ∷ qs) = (xs ≡ ys) × SameParts ps qs
SameParts (builtin v x ∷ ps) (builtin w y ∷ qs) =
    (bci_equal v.class x y ≡ some true) × SameParts ps qs
SameParts (user c xs ∷ ps) (builtin w y ∷ qs) = ⊥
SameParts (builtin v x ∷ ps) (user d ys ∷ qs) = ⊥
SameParts [] (q ∷ qs) = ⊥
SameParts (p ∷ ps) [] = ⊥

SameParts-length : (ps qs : List Part) → SameParts ps qs → length ps ≡ length qs
SameParts-length [] [] m = refl
SameParts-length [] (q ∷ qs) m = absurd m
SameParts-length (user c xs ∷ ps) [] m = absurd m
SameParts-length (builtin v x ∷ ps) [] m = absurd m
SameParts-length (user c xs ∷ ps) (user d ys ∷ qs) m = ap suc (SameParts-length ps qs m.1)
SameParts-length (builtin v x ∷ ps) (builtin w y ∷ qs) m = ap suc (SameParts-length ps qs m.1)
SameParts-length (user c xs ∷ ps) (builtin w y ∷ qs) m = absurd m
SameParts-length (builtin v x ∷ ps) (user d ys ∷ qs) m = absurd m

same_addrs_refl : (xs : List ℕ) → same_addrs xs xs ≡ true
unfolding same_addrs
same_addrs_refl [] = refl
same_addrs_refl (x ∷ xs) = rw (==_refl x, same_addrs_refl xs) refl

same_addrs_sound : (xs ys : List ℕ) → same_addrs xs ys ≡ true → xs ≡ ys
unfolding same_addrs
same_addrs_sound [] [] h = refl
same_addrs_sound [] (y ∷ ys) h = absurd (ground (arith, h))
same_addrs_sound (x ∷ xs) [] h = absurd (ground (arith, h))
same_addrs_sound (x ∷ xs) (y ∷ ys) h =
    let a : x ≡ y = ground (arith, h) in
    ap (λ t. t ∷ xs) a ∙ ap (λ t. y ∷ t) (same_addrs_sound xs ys (ground (arith, h)))

-- The rounds end with an answer, which is that of the comparison part by part.
abbrev Rounds : List Part → List Part → Type 0
Rounds ps qs =
    (r : Bool) × (equal_rounds (length ps) ps qs ≡ some (some r)) × ((r ≡ true) ↔ SameParts ps qs)

Rounds-last :
    (v w : Wrap) (x y : ℕ) (r : Bool)
    → bci_equal v.class x y ≡ some r
    → Rounds (builtin v x ∷ []) (builtin w y ∷ [])
unfolding equal_rounds
Rounds-last v w x y true h = (true, ground (arith, h), (λ _. (h, tt), λ _. refl))
Rounds-last v w x y false h = (
  false,
  ground (arith, h),
  (λ t. absurd (ground (arith, t)), λ m. absurd (ground (arith, h, m.0))),
)

Rounds-users :
    (c d : Class) (xs ys : List ℕ) (ps qs : List Part)
    → Rounds ps qs
    → Rounds (user c xs ∷ ps) (user d ys ∷ qs)
unfolding equal_rounds
Rounds-users c d xs ys ps qs (r, run, iff) = elim (Bool-cases (same_addrs xs ys)) [
  | inl y ↦ (r, rw y run, (λ t. (same_addrs_sound xs ys y, iff.0 t), λ m. iff.1 m.1))
  | inr n ↦ (
    false,
    rw n refl,
    (
      λ t. absurd (ground (arith, t)),
      λ m. absurd (ground (arith, n, ap (same_addrs xs) (sym m.0) ∙ same_addrs_refl xs)),
    ),
  )
]

rounds :
    (ps qs : List Part)
    → BuiltinLast ps
    → BuiltinLast qs
    → Answered ps qs
    → length ps ≡ length qs
    → Rounds ps qs
unfolding equal_rounds
rounds [] [] u w k h = (true, refl, (λ _. tt, λ _. refl))
rounds [] (q ∷ qs) u w k h = absurd (omega arith)
rounds (p ∷ ps) [] u w k h = absurd (omega arith)
rounds (user c xs ∷ ps) (user d ys ∷ qs) u w k h =
    Rounds-users c d xs ys ps qs (rounds ps qs u w k (omega arith))
rounds (user c xs ∷ ps) (builtin w y ∷ qs) u l k h =
    (false, refl, (λ t. absurd (ground (arith, t)), λ m. absurd m))
rounds (builtin v x ∷ ps) (user d ys ∷ qs) u l k h =
    (false, refl, (λ t. absurd (ground (arith, t)), λ m. absurd m))
rounds (builtin v x ∷ []) (builtin w y ∷ []) u l (r, k) h = Rounds-last v w x y r k
rounds (builtin v x ∷ p ∷ ps) (builtin w y ∷ qs) u l k h = absurd (ground (arith, u))
rounds (builtin v x ∷ []) (builtin w y ∷ q ∷ qs) u l k h = absurd (omega arith)

equal-parts :
    (a b : Object) (s s' : TagSet.State) (rc : Option Bool) (r : Option Bool)
    → same_class (own_class a.parts) (own_class b.parts) ≡ some true
    → length a.parts ≡ length b.parts
    → TagSet.equal a.tags b.tags s ≡ some (rc, s')
    → equal_parts a b rc ≡ some r
    → equal (some a) (some b) s ≡ some (r, s')
unfolding equal
equal-parts a b s s' rc r c n t h =
    let m : (length a.parts == length b.parts) ≡ true = ground (arith, n) in
    ground (arith, c, m, t, h)

-- What two objects of the classes at `p` and `q`, with the comparison `rc` of their tags, have to
-- be for the comparison to say that they are equal.
abbrev pub SameObjects : Object → Object → ℕ → ℕ → Bool → Type 0
SameObjects a b p q rc = (p ≡ q) × (rc ≡ true) × SameParts a.parts b.parts

apart :
    (a b : Object) (s : TagSet.State) (p q : ℕ) (rc : Bool)
    → equal (some a) (some b) s ≡ some (some false, s)
    → (SameObjects a b p q rc → ⊥)
    → (r : Bool) × (equal (some a) (some b) s ≡ some (some r, s))
      × ((r ≡ true) ↔ SameObjects a b p q rc)
apart a b s p q rc run unlike =
    (false, run, (λ t. absurd (ground (arith, t)), λ m. absurd (unlike m)))

same_depth :
    (a b : Object) (s : TagSet.State) (p q : ℕ) (rc : Bool)
    → same_class (own_class a.parts) (own_class b.parts) ≡ some true
    → p ≡ q
    → length a.parts ≡ length b.parts
    → TagSet.equal a.tags b.tags s ≡ some (some rc, s)
    → Rounds a.parts b.parts
    → (r : Bool) × (equal (some a) (some b) s ≡ some (some r, s))
      × ((r ≡ true) ↔ SameObjects a b p q rc)
unfolding equal_parts
same_depth a b s p q true c e n t (r, run, iff) = (
  r,
  equal-parts a b s s (some true) (some r) c n t run,
  (λ h. (e, refl, iff.0 h), λ h. iff.1 h.2),
)
same_depth a b s p q false c e n t parts =
    apart a b s p q false (equal-parts a b s s (some false) (some false) c n t refl)
      (λ m. ground (arith, m.1))

-- Two objects whose parts are of user-defined classes, but for the last one, which may be of a
-- built-in class such as java/lang/Object. Where the tags can be compared, and a built-in class of
-- both gives an answer, the comparison says that the objects are equal just when they are of the
-- same class, their tags are equal, they have as many parts, their members have the same values,
-- and the data of a built-in class are equal for that class.
pub equal_iff_values :
    (a b : Object) (s : TagSet.State) (p q : ℕ) (rc : Bool)
    → own_class a.parts ≡ some p
    → own_class b.parts ≡ some q
    → BuiltinLast a.parts
    → BuiltinLast b.parts
    → Answered a.parts b.parts
    → TagSet.equal a.tags b.tags s ≡ some (some rc, s)
    → (r : Bool) × (equal (some a) (some b) s ≡ some (some r, s))
      × ((r ≡ true) ↔ SameObjects a b p q rc)
unfolding equal
equal_iff_values a b s p q rc ca cb u w k t = elim (Bool-cases (p == q)) [
  | inr ne ↦ apart a b s p q rc (ground (arith, ca, cb, ne)) (λ m. ground (arith, ne, m.0))
  | inl e ↦
      let c : same_class (own_class a.parts) (own_class b.parts) ≡ some true =
        rw (ca, cb) (ap some e) in
      elim (Bool-cases (length a.parts == length b.parts)) [
        | inl n ↦
            let same : length a.parts ≡ length b.parts = ground (arith, n) in
            same_depth a b s p q rc c (ground (arith, e)) same t (rounds a.parts b.parts u w k same)
        | inr n ↦
            apart a b s p q rc (ground (arith, c, n))
              (λ m. ground (arith, n, SameParts-length a.parts b.parts m.2))
      ]
]

rounds_builtin :
    (n : ℕ) (v w : Wrap) (x y : ℕ) (ps qs : List Part)
    → bci_equal v.class x y ≡ some true
    → equal_rounds n (builtin v x ∷ ps) (builtin w y ∷ qs) ≡ some (some true)
unfolding equal_rounds
rounds_builtin zero v w x y ps qs h = refl
rounds_builtin (suc n) v w x y ps qs h = ground (arith, h, rounds_builtin n v w x y ps qs h)

-- The comparison of two objects of a built-in class whose own data are equal says that they are
-- equal, whatever they have for the classes above it.
pub equal_skips :
    (v : Wrap) (x y : ℕ) (ps qs : List Part) (tags : ℕ) (s s' : TagSet.State)
    → bci_equal v.class x y ≡ some true
    → length ps ≡ length qs
    → TagSet.equal tags tags s ≡ some (some true, s')
    → equal
        (some (record { parts = builtin v x ∷ ps; tags = tags }))
        (some (record { parts = builtin v y ∷ qs; tags = tags }))
        s
      ≡ some (some true, s')
unfolding equal_parts
equal_skips v x y ps qs tags s s' h n t =
    equal-parts (record { parts = builtin v x ∷ ps; tags = tags })
      (record { parts = builtin v y ∷ qs; tags = tags }) s s' (some true) (some true)
      (ap some (==_refl v.at)) (ap suc n) t (rounds_builtin (suc (length ps)) v v x y ps qs h)
