-- ===== src/Dalvik/MemberDict.antt =====
-- src/dalvik/dalvik_memberdict.c: the dictionary of methods, fields and classes. A name is NULL or a
-- pooled string, an object is its address, and the result -1 is `false`. `malloc` is taken to
-- succeed, as the code does.
pub mod Registered
pub mod Prefix
use adam.Base.{
  ℕ, zero, suc, ◌+◌, ◌*◌, ◌%◌, ◌^◌, Bool, true, false, ◌&&◌, Option, none, some, List, [], ◌∷◌,
  ◌++◌, ◌==◌, ltb, if◌then◌else◌, bit_xor, length,
}
use mathlib.Core.Option
use adam.Base.Chains.{Chains, first_where, link}
use adam.AllocTable.{mh_multiply}
use adam.Sexp.{Pooled, same_address}
use adam.DalvikType.{DalvikType, null, Addresses, equal, list_equal, type_hashcode, list_hashcode}

abbrev pub dict_size : ℕ
dict_size = 100007

pub data Kind : Type 0 where
  method : Kind
  field : Kind
  class : Kind

abbrev pub Name : Type 0
Name = Option Pooled

-- The four fields of a node that are compared.
pub record Member : Type 0 where
  pub class_path : Name
  pub member_name : Name
  pub args : Option (List DalvikType)
  pub rtype : DalvikType

pub record Node : Type 0 where
  pub member : Member
  pub kind : Kind
  pub object : ℕ

abbrev pub Dict : Type 0
Dict = Chains Node

-- `dalvik_memberdict_init`
abbrev pub init : Dict
init _ = []

abbrev pub address : Addresses → Name → ℕ
address mem none = 0
address mem (some p) = mem.str_at p

abbrev pub type_id : Kind → ℕ
type_id method = 0xe3def
type_id field = 0x12fcde
type_id class = 0x2323fe

unfoldable pub member_hash : Addresses → Member → Kind → ℕ
unfolding type_hashcode list_hashcode
member_hash mem m kind =
    let a = address mem m.class_path % 2 ^ 32 in
    let b = address mem m.member_name % 2 ^ 32 in
    let c = list_hashcode mem m.args in
    let d = type_hashcode mem m.rtype in
    bit_xor
      ((a * a % 2 ^ 32 * 100003 % 2 ^ 32 * mh_multiply
          + b * mh_multiply
          + c
          + d * d % 2 ^ 32 * d % 2 ^ 32)
        % 2 ^ 64)
      (type_id kind)
    % 2 ^ 32

unfoldable pub slot_of : Addresses → Member → Kind → ℕ
unfolding member_hash
slot_of mem m kind = member_hash mem m kind % dict_size

-- `==` of two names.
unfoldable pub same_name : Name → Name → Bool
unfolding same_address
same_name none none = true
same_name (some p) (some q) = same_address p q
same_name none (some q) = false
same_name (some p) none = false

unfoldable pub same_member : Member → Member → Bool
unfolding same_name equal list_equal
same_member m n =
    same_name m.class_path n.class_path
    && same_name m.member_name n.member_name
    && list_equal m.args n.args
    && equal m.rtype n.rtype

-- The node that a walk over the chain stops at.
unfoldable pub find_node : Addresses → Dict → Member → Kind → Option Node
unfolding first_where same_member slot_of
find_node mem dict m kind = first_where (λ n. same_member n.member m) (dict (slot_of mem m kind))

-- `none` is NULL.
unfoldable pub find_object : Addresses → Dict → Member → Kind → Option ℕ
unfolding find_node
find_object mem dict m kind = Option.map (λ n. n.object) (find_node mem dict m kind)

-- The walk over the chain before a node is registered.
unfoldable pub is_taken : List Node → Member → Bool
unfolding same_member
is_taken [] m = false
is_taken (n ∷ ns) m = let rest = is_taken ns m in if same_member m n.member then true else rest

unfoldable pub register_object : Addresses → Member → Kind → ℕ → Dict → Bool × Dict
unfolding is_taken slot_of link
register_object mem m kind object dict =
    let idx = slot_of mem m kind in
    if is_taken (dict idx) m
    then (false, dict)
    else (true, link idx (record { member = m; kind = kind; object = object }) dict)

-- The fields of `dalvik_method_t` that are read, and where it is.
pub record Method : Type 0 where
  pub at : ℕ
  pub name : Name
  pub args_type : Option (List DalvikType)
  pub return_type : DalvikType

pub record Field : Type 0 where
  pub at : ℕ
  pub name : Name

abbrev pub method_member : Name → Name → Option (List DalvikType) → DalvikType → Member
method_member path name args rtype = record {
  class_path = path;
  member_name = name;
  args = args;
  rtype = rtype;
}

unfoldable pub register_method : Addresses → Name → Option Method → Dict → Bool × Dict
unfolding register_object
register_method mem path none dict = (false, dict)
register_method mem path (some m) dict =
    register_object mem (method_member path m.name m.args_type m.return_type) method m.at dict

unfoldable pub register_field : Addresses → Name → Option Field → Dict → Bool × Dict
unfolding register_object
register_field mem path none dict = (false, dict)
register_field mem path (some f) dict =
    register_object mem (method_member path f.name none null) field f.at dict

unfoldable pub register_class : Addresses → Name → Option ℕ → Dict → Bool × Dict
unfolding register_object
register_class mem path none dict = (false, dict)
register_class mem path (some at) dict =
    register_object mem (method_member path none none null) class at dict

unfoldable pub get_method :
    Addresses → Dict → Name → Name → Option (List DalvikType) → DalvikType → Option ℕ
unfolding find_object
get_method mem dict path name args rtype =
    find_object mem dict (method_member path name args rtype) method

unfoldable pub get_field : Addresses → Dict → Name → Name → Option ℕ
unfolding find_object
get_field mem dict path name = find_object mem dict (method_member path name none null) field

unfoldable pub get_class : Addresses → Dict → Name → Option ℕ
unfolding find_object
get_class mem dict path = find_object mem dict (method_member path none none null) class

-- The loop of `_dalvik_memberdict_check_prefix` on the bytes of two strings.
unfoldable pub prefix_loop : List ℕ → List ℕ → Bool
prefix_loop [] s = true
prefix_loop (x ∷ p) [] = true
prefix_loop (x ∷ p) (y ∷ s) = let rest = prefix_loop p s in if x == y then rest else false

unfoldable pub check_prefix : Name → Name → Bool
unfolding prefix_loop
check_prefix none none = true
check_prefix none (some s) = false
check_prefix (some p) none = true
check_prefix (some p) (some s) = prefix_loop p.str s.str

-- The nodes of a chain that match, in the order in which they are written to the buffers.
unfoldable pub match_chain : Name → Name → List Node → List Node
unfolding check_prefix
match_chain class_prefix member_prefix [] = []
match_chain class_prefix member_prefix (n ∷ ns) =
    let rest = match_chain class_prefix member_prefix ns in
    if check_prefix class_prefix n.member.class_path
      && check_prefix member_prefix n.member.member_name
    then n ∷ rest
    else rest

-- The loop over the slots from `i`, of which `slots` are left; what is written is in `out`.
unfoldable pub match_slots : Name → Name → Dict → ℕ → ℕ → ℕ → List Node → List Node
unfolding match_chain
match_slots class_prefix member_prefix dict bufsize zero i out = out
match_slots class_prefix member_prefix dict bufsize (suc slots) i out =
    let rest =
      match_slots class_prefix member_prefix dict bufsize slots (i + 1)
        (out ++ match_chain class_prefix member_prefix (dict i)) in
    if ltb (length out) bufsize then rest else out

-- The nodes of which the parts are written to the buffers; the result is their number.
unfoldable pub member_match : Name → Name → Dict → ℕ → List Node
unfolding match_slots
member_match class_prefix member_prefix dict bufsize =
    match_slots class_prefix member_prefix dict bufsize dict_size 0 []

unfoldable pub find_class_by_prefix : Name → Dict → ℕ → List Node
unfolding member_match
find_class_by_prefix prefix dict bufsize = member_match prefix none dict bufsize
