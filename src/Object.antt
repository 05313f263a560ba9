-- ===== src/Object.antt =====
-- src/cesk/cesk_object.c: comparing objects, and whether an object is an instance of a type; with the
-- wrappers of src/bci/bci_class.c. An object is the list of its parts, one for each class from its
-- own upwards. A pointer is a number, 0 is NULL; `none` is a read behind the end of an array or of
-- the object, and as a result of a class's function it is a negative number.
pub mod Comparing
pub mod Instances
use mathlib.Core.Option
use adam.Base.{
  ℕ, zero, suc, ◌+◌, ◌%◌, ◌^◌, Bool, true, false, ◌&&◌, Option, none, some, List, [], ◌∷◌, ◌==◌,
  if◌then◌else◌, length, bit_or,
}
use adam.Address.{addr_null, addr_zero, addr_pos}
use adam.DalvikType.{DalvikType, Addresses, array, object}
use adam.TagSet

-- The functions of a built-in class, which may be NULL.
pub record BciClass : Type 0 where
  pub hash : Option (ℕ → ℕ)
  pub equal : Option (ℕ → ℕ → Option Bool)
  pub is_instance : Option (ℕ → DalvikType → Option ℕ)

unfoldable pub bci_hashcode : BciClass → ℕ → ℕ
bci_hashcode c this = if this == 0 then 0 else elim c.hash [ none ↦ 0 | some f ↦ f this ]

unfoldable pub bci_equal : BciClass → ℕ → ℕ → Option Bool
bci_equal c this that =
    if this == 0
    then none
    else if that == 0
    then none
    else elim c.equal [ none ↦ none | some f ↦ f this that ]

-- BCI_BOOLEAN_FALSE, BCI_BOOLEAN_TRUE and BCI_BOOLEAN_UNKNOWN are 0, 1 and 2.
unfoldable pub bci_is_instance : BciClass → ℕ → DalvikType → Option ℕ
bci_is_instance c this type =
    if this == 0 then none else elim c.is_instance [ none ↦ some 2 | some f ↦ f this type ]

-- A user-defined class: where it is, its path, and the interfaces that it implements.
pub record Class : Type 0 where
  pub at : ℕ
  pub path : ℕ
  pub implements : List ℕ

-- The wrapper of a built-in class.
pub record Wrap : Type 0 where
  pub at : ℕ
  pub path : ℕ
  pub class : BciClass

-- The part of an object that belongs to a class: the values of its members, or the data of a
-- built-in class.
pub data Part : Type 0 where
  user : Class → List ℕ → Part
  builtin : Wrap → ℕ → Part

-- `depth` is the number of parts.
pub record Object : Type 0 where
  pub parts : List Part
  pub tags : ℕ

abbrev pub class_at : Part → ℕ
class_at (user c xs) = c.at
class_at (builtin w x) = w.at

abbrev pub path_of : Part → ℕ
path_of (user c xs) = c.path
path_of (builtin w x) = w.path

-- `members[0].class.path`
abbrev pub own_class : List Part → Option ℕ
own_class [] = none
own_class (p ∷ ps) = some (class_at p)

unfoldable pub same_addrs : List ℕ → List ℕ → Bool
same_addrs [] [] = true
same_addrs (x ∷ xs) (y ∷ ys) = (x == y) && same_addrs xs ys
same_addrs [] (y ∷ ys) = false
same_addrs (x ∷ xs) [] = false

-- The rounds of the loop of `cesk_object_equal`. After a built-in class `this` and `that` are not
-- moved on. `some none` is the result -1.
unfoldable pub equal_rounds : ℕ → List Part → List Part → Option (Option Bool)
unfolding same_addrs
equal_rounds zero this that = some (some true)
equal_rounds (suc n) (user c xs ∷ ps) (user d ys ∷ qs) =
    let rest = equal_rounds n ps qs in if same_addrs xs ys then rest else some (some false)
equal_rounds (suc n) (builtin v x ∷ ps) (builtin w y ∷ qs) =
    let again = equal_rounds n (builtin v x ∷ ps) (builtin w y ∷ qs) in
    elim (bci_equal v.class x y) [
      | none ↦ some none
      | some false ↦ some (some false)
      | some true ↦ again
    ]
equal_rounds (suc n) (user c xs ∷ ps) (builtin w y ∷ qs) = some (some false)
equal_rounds (suc n) (builtin v x ∷ ps) (user d ys ∷ qs) = some (some false)
equal_rounds (suc n) [] that = none
equal_rounds (suc n) (p ∷ ps) [] = none

-- The comparison after that of the tags, of which only the result 0 is looked at.
unfoldable pub equal_parts : Object → Object → Option Bool → Option (Option Bool)
unfolding equal_rounds
equal_parts first second (some false) = some (some false)
equal_parts first second (some true) = equal_rounds (length first.parts) first.parts second.parts
equal_parts first second none = equal_rounds (length first.parts) first.parts second.parts

abbrev pub with_tags :
    Object → Object → Option (Option Bool × TagSet.State) → Option (Option Bool × TagSet.State)
with_tags first second none = none
with_tags first second (some (rc, s)) = Option.map (λ r. (r, s)) (equal_parts first second rc)

abbrev pub same_class : Option ℕ → Option ℕ → Option Bool
same_class (some a) (some b) = some (a == b)
same_class none b = none
same_class (some a) none = none

unfoldable pub equal : Option Object → Option Object → TagSet.M (Option Bool)
unfolding equal_parts TagSet.equal
equal none none s = some (some true, s)
equal none (some b) s = some (some false, s)
equal (some a) none s = some (some false, s)
equal (some a) (some b) s = elim (same_class (own_class a.parts) (own_class b.parts)) [
  | none ↦ none
  | some false ↦ some (some false, s)
  | some true ↦
      if length a.parts == length b.parts
      then with_tags a b (TagSet.equal a.tags b.tags s)
      else some (some false, s)
]

-- An element of an array that ends with NULL.
unfoldable pub element_at : List ℕ → ℕ → Option ℕ
element_at [] zero = some 0
element_at [] (suc i) = none
element_at (x ∷ xs) zero = some x
element_at (x ∷ xs) (suc i) = element_at xs i

-- The loop over the interfaces of the class of index `i`: each of its rounds reads the element `i`.
unfoldable pub implements_loop : ℕ → List ℕ → ℕ → ℕ → Option Bool
unfolding element_at
implements_loop zero implements i classpath = some false
implements_loop (suc left) implements i classpath =
    let rest = implements_loop left implements i classpath in
    elim (element_at implements i) [
      | none ↦ none
      | some x ↦ if classpath == x then some true else rest
    ]

-- What the answer of a built-in class comes to, where the loop goes on with `rest`.
unfoldable pub builtin_answer : Option ℕ → Option ℕ → Option ℕ
builtin_answer rest none = some addr_null
builtin_answer rest (some n) =
    if n == 1 then some addr_pos else if n == 2 then some (bit_or addr_pos addr_zero) else rest

abbrev pub user_answer : Option ℕ → Option Bool → Option ℕ
user_answer rest none = none
user_answer rest (some true) = some addr_pos
user_answer rest (some false) = rest

unfoldable pub instance_loop : DalvikType → ℕ → ℕ → List Part → Option ℕ
unfolding implements_loop builtin_answer bci_is_instance
instance_loop type classpath i [] = some addr_zero
instance_loop type classpath i (user c xs ∷ ps) =
    let rest = instance_loop type classpath (i + 1) ps in
    if c.path == classpath
    then some 1
    else user_answer rest (implements_loop (length c.implements) c.implements i classpath)
instance_loop type classpath i (builtin w x ∷ ps) =
    let rest = instance_loop type classpath (i + 1) ps in
    if w.path == classpath then some 1 else builtin_answer rest (bci_is_instance w.class x type)

-- `cesk_object_instance_of`
unfoldable pub instance_of : Addresses → Object → DalvikType → Option ℕ
unfolding instance_loop
instance_of mem o (array t) = instance_loop (array t) 0 0 o.parts
instance_of mem o (object p) = instance_loop (object p) (mem.str_at p) 0 o.parts
instance_of mem o type = some addr_null
