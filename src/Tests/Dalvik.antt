-- ===== src/Tests/Dalvik.antt =====
-- Labels and members of a few classes.
use adam.Base.{
  ℕ, ◌*◌, ◌<◌, ◌≡◌, refl, ap, ◌↔◌, ◌⊎◌, ◌∙◌, Bool, true, ◌&&◌, ◌||◌, Option, none, some, List, [],
  ◌∷◌, ◌==◌, ltb, if◌then◌else◌, length, arith,
}
use adam.Base.Chains.{first_where, link}
use adam.Sexp.{Pooled, pooled}
use adam.DalvikType.{null, Addresses}
use adam.Dalvik.Label
use adam.Dalvik.Label.{Labels, get_label_id, exists, pool_size}
use adam.Dalvik.Label.Added.{number, is_some}
use adam.Dalvik.Label.Numbered.{
  labels_after, Named, get_label_id-Named, labels_after-IsNumbering, labels_after-number,
}
use adam.Dalvik.MemberDict
use adam.Dalvik.MemberDict.{
  Member, Kind, method, class, Dict, Node, register_object, find_object, method_member, same_member,
  slot_of, member_hash, find_node, match_chain, member_match, check_prefix,
}
use adam.Dalvik.MemberDict.Registered.{register_object_new}
use adam.Dalvik.MemberDict.Prefix.{IsPrefix, member_match_overruns, check_prefix_iff}

abbrev label : ℕ
label = 128

-- The label 64 twice, then the label 128.
abbrev calls : List (Bool × ℕ)
calls = (true, label) ∷ (true, 64) ∷ (true, 64) ∷ []

number_of_128 : number (labels_after calls) label ≡ some 1
unfolding labels_after get_label_id Label.find Label.add_label Label.slot_of first_where link
number_of_128 = refl

get_label_id-Named_example :
    (r : Option ℕ) × (t : Labels) × (get_label_id true 192 (labels_after calls) ≡ (r, t))
    × Named (labels_after calls) 192 r t
    × (is_some r
        ≡ (exists (labels_after calls) 192 || (true && ltb (labels_after calls).count pool_size)))
get_label_id-Named_example =
    get_label_id-Named (labels_after calls) true 192 (labels_after-IsNumbering calls)

labels_after-number_example : (1 < pool_size) × (label ≡ label)
labels_after-number_example = labels_after-number calls label label 1 number_of_128 number_of_128

abbrev memory : Addresses
memory = record { atom_at = λ _. 8; str_at = λ p. length p.str * 16 }

abbrev a_class : Member
a_class = method_member (some (pooled (97 ∷ 47 ∷ 98 ∷ []))) none none null

abbrev a_method : Member
a_method =
    method_member (some (pooled (97 ∷ 47 ∷ 98 ∷ []))) (some (pooled (102 ∷ []))) (some []) null

abbrev with_class : Dict
with_class = (register_object memory a_class class 40 MemberDict.init).1

not_found : find_object memory MemberDict.init a_class class ≡ none
unfolding find_object find_node first_where
not_found = refl

register_object_new_example :
    (t : Dict) × (register_object memory a_class class 40 MemberDict.init ≡ (true, t))
    × (find_object memory t a_class class ≡ some 40)
    × ((n : Member) (other : Kind)
        → find_object memory t n other ≡ (
            if (slot_of memory n other == slot_of memory a_class class) && same_member a_class n
            then some 40
            else find_object memory MemberDict.init n other))
register_object_new_example = register_object_new memory a_class class 40 MemberDict.init not_found

found_class : find_object memory with_class a_class class ≡ some 40
found_class =
    let (t, run, found, _) =
      register_object_new memory a_class class 40 MemberDict.init not_found in
    ap (λ (r : Bool × Dict). find_object memory r.1 a_class class) run ∙ found

-- Two methods in the first chain.
abbrev crowded : Dict
crowded =
    link 0 (record { member = a_method; kind = method; object = 48 })
      (link 0 (record { member = a_method; kind = method; object = 52 }) MemberDict.init)

abbrev prefix : Option Pooled
prefix = some (pooled (97 ∷ []))

two_matches : 1 < length (match_chain prefix (some (pooled [])) (crowded 0))
unfolding match_chain link MemberDict.check_prefix MemberDict.prefix_loop
two_matches = omega arith

member_match_overruns_example :
    (member_match prefix (some (pooled [])) crowded 1
      ≡ match_chain prefix (some (pooled [])) (crowded 0))
    × (1 < length (member_match prefix (some (pooled [])) crowded 1))
member_match_overruns_example =
    member_match_overruns prefix (some (pooled [])) crowded 1 (omega arith) two_matches

abbrev long_prefix : Pooled
long_prefix = pooled (97 ∷ 98 ∷ [])

abbrev short_name : Pooled
short_name = pooled (97 ∷ [])

check_prefix_iff_example :
    (check_prefix (some long_prefix) (some short_name) ≡ true)
    ↔ (IsPrefix long_prefix.str short_name.str ⊎ IsPrefix short_name.str long_prefix.str)
check_prefix_iff_example = check_prefix_iff long_prefix short_name
