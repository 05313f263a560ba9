-- ===== src/Tests/Objects.antt =====
-- Objects of a few classes.
use adam.Base.{◌==◌, ◌≡◌, ◌↔◌, refl, Bool, true, false, none, some, [], ◌∷◌, if◌then◌else◌, length}
use adam.Address.{addr_zero}
use adam.Sexp.{Pooled, pooled}
use adam.DalvikType.{Addresses, object}
use adam.TagSet
use adam.TagSet.{TagSet}
use adam.TagSet.Items.{hash_init, same_items}
use adam.Object.{
  BciClass, Class, Wrap, user, builtin, Object, equal, bci_equal, bci_is_instance, instance_of,
}
use adam.Object.Comparing.{SameObjects, equal_iff_values}
use adam.Object.Instances.{Missed, instance_of_misses}

abbrev no_tags : TagSet
no_tags = record { id = 0; refcnt = 4; hashcode = hash_init; items = [] }

abbrev tag_state : TagSet.State
tag_state = record {
  heap = λ q. if q == 30 then some no_tags else none;
  next_set_idx = 1;
  empty_at = 30;
  tracking = false;
}

same_tags : TagSet.equal 30 30 tag_state ≡ some (some true, tag_state)
unfolding TagSet.equal TagSet.load same_items
same_tags = refl

abbrev list_class : Class
list_class = record { at = 800; path = 32; implements = 48 ∷ 64 ∷ [] }

-- A built-in class that takes all data for equal, and no object for an instance of another class.
abbrev loose : BciClass
loose = record {
  hash = none;
  equal = some (λ x y. some true);
  is_instance = some (λ x type. some 0);
}

abbrev wrap : Wrap
wrap = record { at = 900; path = 80; class = loose }

loose_equal : bci_equal loose 1 2 ≡ some true
unfolding bci_equal
loose_equal = refl

abbrev one_list : Object
one_list = record { parts = user list_class (5 ∷ 6 ∷ []) ∷ builtin wrap 1 ∷ []; tags = 30 }

abbrev two_list : Object
two_list = record { parts = user list_class (5 ∷ 7 ∷ []) ∷ builtin wrap 2 ∷ []; tags = 30 }

equal_iff_values_example :
    (r : Bool) × (equal (some one_list) (some two_list) tag_state ≡ some (some r, tag_state))
    × ((r ≡ true) ↔ SameObjects one_list two_list 800 800 true)
equal_iff_values_example =
    equal_iff_values one_list two_list tag_state 800 800 true refl refl refl refl
      (true, loose_equal) same_tags

abbrev memory : Addresses
memory = record { atom_at = λ _. 8; str_at = λ p. length p.str }

-- A path of the length 2, which is its address.
abbrev short_path : Pooled
short_path = pooled (97 ∷ 98 ∷ [])

abbrev with_interfaces : Class
with_interfaces = record { at = 800; path = 32; implements = 48 ∷ 2 ∷ [] }

abbrev listed : Object
listed = record { parts = user with_interfaces [] ∷ builtin wrap 1 ∷ []; tags = 30 }

-- The second interface of the class is missed.
second_missed : instance_of memory listed (object short_path) ≡ some addr_zero
unfolding instance_of bci_is_instance
second_missed = refl

instance_of_misses_example :
    (instance_of memory listed (object short_path) ≡ some addr_zero)
    ↔ Missed (object short_path) 2 0 listed.parts
instance_of_misses_example = instance_of_misses memory listed short_path

abbrev short_class : Class
short_class = record { at = 800; path = 2; implements = [] }
