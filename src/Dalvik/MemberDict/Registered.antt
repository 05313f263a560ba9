-- ===== src/Dalvik/MemberDict/Registered.antt =====
-- What is found after a registration.
use adam.Base.{
  ℕ, ◌≡◌, refl, sym, ◌∙◌, ap, inl, inr, ◌↔◌, Bool, true, false, ◌&&◌, Option, none, some, List, [],
  ◌∷◌, ◌==◌, if◌then◌else◌, arith, Bool-cases, ==_refl,
}
use mathlib.Core.Option
use adam.Base.Chains.{first_where, link, first_where-link}
use adam.DalvikType.{Addresses}
use adam.DalvikType.Equal.{same_address_refl, same_address_sound, equal_iff, list_equal_iff}
use adam.Dalvik.MemberDict.{
  Dict, Node, Name, Kind, Member, same_name, same_member, slot_of, find_node, find_object, is_taken,
  register_object,
}

same_name_sound : (p q : Name) → same_name p q ≡ true → p ≡ q
unfolding same_name
same_name_sound none none h = refl
same_name_sound (some p) (some q) h = ap some (same_address_sound p q h)
same_name_sound none (some q) h = absurd (ground (arith, h))
same_name_sound (some p) none h = absurd (ground (arith, h))

same_name_refl : (p : Name) → same_name p p ≡ true
unfolding same_name
same_name_refl none = refl
same_name_refl (some p) = same_address_refl p

-- The four comparisons say whether two members are the same.
pub same_member_iff : (m n : Member) → (same_member m n ≡ true) ↔ (m ≡ n)
unfolding same_member
same_member_iff m n = (
  λ h.
      let a = same_name_sound m.class_path n.class_path (ground (arith, h)) in
      let b = same_name_sound m.member_name n.member_name (ground (arith, h)) in
      let c = (list_equal_iff m.args n.args).0 (ground (arith, h)) in
      let d = (equal_iff m.rtype n.rtype).0 (ground (arith, h)) in
      λ i. record { class_path = a i; member_name = b i; args = c i; rtype = d i },
  λ e.
      ap (same_member m) (sym e)
      ∙ rw
          (
            same_name_refl m.class_path,
            same_name_refl m.member_name,
            (list_equal_iff m.args m.args).1 refl,
            (equal_iff m.rtype m.rtype).1 refl,
          )
          refl,
)

abbrev is_some : {A : Type 0} → Option A → Bool
is_some none = false
is_some (some a) = true

same_member_sym : (m n : Member) → same_member m n ≡ same_member n m
same_member_sym m n = elim (Bool-cases (same_member m n)) [
  | inl y ↦ y ∙ sym ((same_member_iff n m).1 (sym ((same_member_iff m n).0 y)))
  | inr f ↦ elim (Bool-cases (same_member n m)) [
    | inl y ↦ absurd (ground (arith, f, (same_member_iff m n).1 (sym ((same_member_iff n m).0 y))))
    | inr g ↦ f ∙ sym g
  ]
]

is_taken-first_where :
    (ns : List Node) (m : Member)
    → is_taken ns m ≡ is_some (first_where (λ n. same_member n.member m) ns)
unfolding is_taken first_where
is_taken-first_where [] m = refl
is_taken-first_where (n ∷ ns) m = elim (Bool-cases (same_member n.member m)) [
  | inl y ↦ rw (same_member_sym m n.member, y) refl
  | inr f ↦ rw (same_member_sym m n.member, f) (is_taken-first_where ns m)
]

is_some-map : {A B : Type 0} → (f : A → B) (o : Option A) → is_some (Option.map f o) ≡ is_some o
is_some-map f none = refl
is_some-map f (some a) = refl

is_taken-find_object :
    (mem : Addresses) (dict : Dict) (m : Member) (kind : Kind)
    → is_taken (dict (slot_of mem m kind)) m ≡ is_some (find_object mem dict m kind)
unfolding find_object find_node
is_taken-find_object mem dict m kind =
    is_taken-first_where (dict (slot_of mem m kind)) m
    ∙ sym (
        is_some-map (λ n. n.object)
          (first_where (λ n. same_member n.member m) (dict (slot_of mem m kind))))

abbrev registered : Addresses → Member → Kind → ℕ → Dict → Dict
registered mem m kind object dict =
    link (slot_of mem m kind) (record { member = m; kind = kind; object = object }) dict

map-if :
    (c : Bool) (x : Node) (o : Option Node)
    → Option.map (λ n. n.object) (if c then some x else o)
      ≡ (if c then some x.object else Option.map (λ n. n.object) o)
map-if true x o = refl
map-if false x o = refl

find_object-registered :
    (mem : Addresses) (m n : Member) (kind other : Kind) (object : ℕ) (dict : Dict)
    → find_object mem (registered mem m kind object dict) n other ≡ (
        if (slot_of mem n other == slot_of mem m kind) && same_member m n
        then some object
        else find_object mem dict n other)
unfolding find_object find_node
find_object-registered mem m n kind other object dict =
    let new : Node = record { member = m; kind = kind; object = object } in
    ap (Option.map (λ x. x.object)) (
      first_where-link (λ x. same_member x.member n) (slot_of mem m kind) (slot_of mem n other) new
        dict)
    ∙ map-if ((slot_of mem n other == slot_of mem m kind) && same_member m n) new _

-- A member that is not in the dictionary can be registered. It is then found, also under another
-- kind that hashes to the same slot, and what is found for all others is what was found before.
pub register_object_new :
    (mem : Addresses) (m : Member) (kind : Kind) (object : ℕ) (dict : Dict)
    → find_object mem dict m kind ≡ none
    → (t : Dict) × (register_object mem m kind object dict ≡ (true, t))
      × (find_object mem t m kind ≡ some object)
      × ((n : Member) (other : Kind)
          → find_object mem t n other ≡ (
              if (slot_of mem n other == slot_of mem m kind) && same_member m n
              then some object
              else find_object mem dict n other))
unfolding register_object
register_object_new mem m kind object dict h =
    let free : is_taken (dict (slot_of mem m kind)) m ≡ false =
      is_taken-find_object mem dict m kind ∙ ap is_some h in
    (
      registered mem m kind object dict,
      rw free refl,
      find_object-registered mem m m kind kind object dict
          ∙ rw (==_refl (slot_of mem m kind), (same_member_iff m m).1 refl) refl,
      λ n other. find_object-registered mem m n kind other object dict,
    )

-- A member that is found in the dictionary cannot be registered again.
pub register_object_twice :
    (mem : Addresses) (m : Member) (kind : Kind) (object old : ℕ) (dict : Dict)
    → find_object mem dict m kind ≡ some old
    → register_object mem m kind object dict ≡ (false, dict)
unfolding register_object
register_object_twice mem m kind object old dict h =
    let taken : is_taken (dict (slot_of mem m kind)) m ≡ true =
      is_taken-find_object mem dict m kind ∙ ap is_some h in
    rw taken refl
