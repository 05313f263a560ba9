-- ===== src/Object/Instances.antt =====
-- The answers of `cesk_object_instance_of` for class types.
use adam.Base.{
  ℕ, zero, suc, ◌+◌, ◌≡◌, ◌≢◌, refl, ◌↔◌, ◌⊎◌, inl, inr, Bool, true, false, Option, none, some,
  List, [], ◌∷◌, ◌==◌, length, arith, Bool-cases, Option-cases,
}
use adam.Address.{addr_zero, addr_pos, is_const, contain}
use adam.Sexp.{Pooled}
use adam.DalvikType.{DalvikType, Addresses, object}
use adam.Object.{
  Class, Part, user, builtin, Object, element_at, implements_loop, bci_is_instance, builtin_answer,
  user_answer, instance_loop, instance_of,
}

-- The element `i` of the list, its end included, is there and is not the path.
abbrev pub NotAt : List ℕ → ℕ → ℕ → Type 0
NotAt xs i path = (y : ℕ) × (element_at xs i ≡ some y) × (path ≢ y)

-- No class from the one of index `i` on answers yes: its path is another one, a built-in class says
-- no, and of the interfaces of a user-defined class only the element `i` is not the path.
abbrev pub Missed : DalvikType → ℕ → ℕ → List Part → Type 0
Missed type path i [] = Unit
Missed type path i (user c xs ∷ ps) =
    (c.path ≢ path)
    × ((c.implements ≡ []) ⊎ NotAt c.implements i path)
    × Missed type path (i + 1) ps
Missed type path i (builtin w x ∷ ps) =
    (w.path ≢ path)
    × ((n : ℕ) × (bci_is_instance w.class x type ≡ some n) × (n ≢ 1) × (n ≢ 2))
    × Missed type path (i + 1) ps

loop-misses :
    (left i path : ℕ) (xs : List ℕ) → NotAt xs i path → implements_loop left xs i path ≡ some false
unfolding implements_loop
loop-misses zero i path xs m = refl
loop-misses (suc left) i path xs (y, at, other) =
    let b : (path == y) ≡ false = ground (arith, other) in
    let rest = loop-misses left i path xs (y, at, other) in ground (arith, at, b, rest)

loop-NotAt :
    (left i path : ℕ) (xs : List ℕ)
    → implements_loop (suc left) xs i path ≡ some false
    → NotAt xs i path
unfolding implements_loop
loop-NotAt left i path xs h = elim (Option-cases (element_at xs i)) [
  | inl out ↦ absurd (ground (arith, out, h))
  | inr (y, at) ↦ elim (Bool-cases (path == y)) [
    | inl hit ↦ absurd (ground (arith, at, hit, h))
    | inr n ↦ (y, at, ground (arith, n))
  ]
]

-- The loop over the interfaces finds nothing just when there are none or the one element that it
-- reads is not the path.
implements_loop_iff :
    (xs : List ℕ) (i path : ℕ)
    → (implements_loop (length xs) xs i path ≡ some false) ↔ ((xs ≡ []) ⊎ NotAt xs i path)
unfolding implements_loop
implements_loop_iff [] i path = (λ h. inl refl, λ m. refl)
implements_loop_iff (x ∷ xs) i path = (
  λ h. inr (loop-NotAt (length xs) i path (x ∷ xs) h),
  λ m. elim m [
    | inl nil ↦ absurd (ground (arith, nil))
    | inr at ↦ loop-misses (suc (length xs)) i path (x ∷ xs) at
  ],
)

user_answer-zero :
    (rest : Option ℕ) (found : Option Bool)
    → user_answer rest found ≡ some addr_zero
    → (found ≡ some false) × (rest ≡ some addr_zero)
user_answer-zero rest none h = absurd (ground (arith, h))
user_answer-zero rest (some true) h = absurd (ground (arith, h))
user_answer-zero rest (some false) h = (refl, h)

builtin_answer-zero :
    (rest : Option ℕ) (said : Option ℕ)
    → builtin_answer rest said ≡ some addr_zero
    → ((n : ℕ) × (said ≡ some n) × (n ≢ 1) × (n ≢ 2)) × (rest ≡ some addr_zero)
unfolding builtin_answer
builtin_answer-zero rest none h = absurd (ground (arith, h))
builtin_answer-zero rest (some n) h = elim (Bool-cases (n == 1)) [
  | inl one ↦ absurd (ground (arith, one, h))
  | inr a ↦ elim (Bool-cases (n == 2)) [
    | inl two ↦ absurd (ground (arith, a, two, h))
    | inr b ↦ ((n, refl, ground (arith, a), ground (arith, b)), ground (arith, a, b, h))
  ]
]

instance_loop-misses :
    (type : DalvikType) (path i : ℕ) (ps : List Part)
    → Missed type path i ps
    → instance_loop type path i ps ≡ some addr_zero
unfolding instance_loop builtin_answer
instance_loop-misses type path i [] m = refl
instance_loop-misses type path i (user c xs ∷ ps) (other, none_found, m) =
    let a : (c.path == path) ≡ false = ground (arith, other) in
    let found = (implements_loop_iff c.implements i path).1 none_found in
    rw (a, found) (instance_loop-misses type path (i + 1) ps m)
instance_loop-misses type path i (builtin w x ∷ ps) (other, (n, said, ne_one, ne_two), m) =
    let a : (w.path == path) ≡ false = ground (arith, other) in
    let b : (n == 1) ≡ false = ground (arith, ne_one) in
    let c : (n == 2) ≡ false = ground (arith, ne_two) in
    rw (a, said) (rw (b, c) (instance_loop-misses type path (i + 1) ps m))

instance_loop-Missed :
    (type : DalvikType) (path i : ℕ) (ps : List Part)
    → instance_loop type path i ps ≡ some addr_zero
    → Missed type path i ps
unfolding instance_loop
instance_loop-Missed type path i [] h = tt
instance_loop-Missed type path i (user c xs ∷ ps) h = elim (Bool-cases (c.path == path)) [
  | inl own ↦ absurd (ground (arith, own, h))
  | inr n ↦
      let (found, rest) =
        user_answer-zero (instance_loop type path (i + 1) ps)
          (implements_loop (length c.implements) c.implements i path) (ground (arith, n, h)) in
      (
        ground (arith, n),
        (implements_loop_iff c.implements i path).0 found,
        instance_loop-Missed type path (i + 1) ps rest,
      )
]
instance_loop-Missed type path i (builtin w x ∷ ps) h = elim (Bool-cases (w.path == path)) [
  | inl own ↦ absurd (ground (arith, own, h))
  | inr n ↦
      let (said, rest) =
        builtin_answer-zero (instance_loop type path (i + 1) ps) (bci_is_instance w.class x type)
          (ground (arith, n, h)) in
      (ground (arith, n), said, instance_loop-Missed type path (i + 1) ps rest)
]

-- For a class type, an object is found to be no instance just when none of its classes has the
-- path, its built-in classes say neither yes nor unknown, and for each user-defined class that
-- implements interfaces at all, say the class of index `i` counted from the object's own, the
-- element `i` of its interfaces, with the NULL at their end, can be read and is not the path. So an
-- interface that stands at another place of a list does not make the object an instance.
pub instance_of_misses :
    (mem : Addresses) (o : Object) (p : Pooled)
    → (instance_of mem o (object p) ≡ some addr_zero) ↔ Missed (object p) (mem.str_at p) 0 o.parts
unfolding instance_of
instance_of_misses mem o p = (
  instance_loop-Missed (object p) (mem.str_at p) 0 o.parts,
  instance_loop-misses (object p) (mem.str_at p) 0 o.parts,
)

-- An object is found to be an instance of its own class with the result 1, which is no constant
-- address and so contains no truth value.
pub instance_of-own :
    (mem : Addresses) (c : Class) (members : List ℕ) (ps : List Part) (tags : ℕ) (p : Pooled)
    → c.path ≡ mem.str_at p
    → (r : ℕ) × (instance_of mem (record { parts = user c members ∷ ps; tags = tags }) (object p)
        ≡ some r)
      × (contain r addr_pos ≡ false)
      × (contain r addr_zero ≡ false)
unfolding instance_of instance_loop contain is_const
instance_of-own mem c members ps tags p e =
    let a : (c.path == mem.str_at p) ≡ true = ground (arith, e) in (1, rw a refl, refl, refl)
