-- ===== src/CeskSet/Valid.antt =====
-- The invariant of the address sets.
use adam.Base.{
  ℕ, suc, ◌+◌, ◌%◌, ◌^◌, ◌<◌, ◌≤◌, ◌≡◌, ◌≢◌, refl, sym, ◌∙◌, ap, subst, Bool, true, false, ◌&&◌,
  ◌||◌, none, some, List, [], ◌∷◌, ◌==◌, ltb, if◌then◌else◌, arith, Bool-cases, inl, inr, length,
  bit_xor,
}
pub use adam.Base.{has, Distinct}
use mathlib.Core.Option.{some-injective}
use adam.Address.{addr_null, is_reloc}
use adam.CeskSet.{key, Element, Info, Sets, hash_find, link_front, addr_code}
use adam.CeskSet.Methods.{count_up, push_new, push_element}
use adam.CeskSet.Table.{IsTable, hash_find-hash_insert, hash_insert-IsTable}

abbrev pub addrs : List Element → List ℕ
addrs [] = []
addrs (e ∷ es) = e.addr ∷ addrs es

abbrev pub relocs : List ℕ → ℕ
relocs [] = 0
relocs (x ∷ xs) = (if is_reloc x then 1 else 0) + relocs xs

-- The keys of a set in the table are those of its info entry and of the addresses on its list, which
-- are distinct and counted.
pub record IsListed (find : ℕ → Bool) (i : Info) : Type 0 where
  pub entry : find addr_null ≡ true
  pub elements : (a : ℕ) → a ≢ addr_null → find a ≡ has a (addrs i.first)
  pub no_null : has addr_null (addrs i.first) ≡ false
  pub distinct : Distinct (addrs i.first)
  pub counted : i.size ≡ length i.first % 2 ^ 32
  pub relocated : i.reloc ≡ relocs (addrs i.first) % 2 ^ 32

abbrev pub keys_of : Sets → ℕ → ℕ → Bool
keys_of s idx a = hash_find s (key idx a)

pub record IsValid (s : Sets) : Type 0 where
  pub table : IsTable s
  pub unused : (idx a : ℕ) → s.next_idx ≤ idx → hash_find s (key idx a) ≡ false
  pub unborn : (idx : ℕ) → s.next_idx ≤ idx → s.info idx ≡ none
  pub sets : (idx : ℕ) (i : Info) → s.info idx ≡ some i → IsListed (keys_of s idx) i

pub addrs-link_front :
    (link : Bool) (a : ℕ) (es : List Element) → addrs (link_front link a es) ≡ a ∷ addrs es
unfolding link_front
addrs-link_front link a [] = refl
addrs-link_front link a (e ∷ es) = refl

pub length-link_front :
    (link : Bool) (a : ℕ) (es : List Element) → length (link_front link a es) ≡ suc (length es)
unfolding link_front
length-link_front link a [] = refl
length-link_front link a (e ∷ es) = refl

-- A set stays one while its keys do, and what it holds.
pub IsListed-frame :
    (f g : ℕ → Bool) (i j : Info)
    → ((a : ℕ) → g a ≡ f a)
    → j.first ≡ i.first
    → j.size ≡ i.size
    → j.reloc ≡ i.reloc
    → IsListed f i
    → IsListed g j
IsListed-frame f g i j same first size reloc h = record {
  entry = same addr_null ∙ h.entry;
  elements = λ a p. same a ∙ h.elements a p ∙ ap (λ es. has a (addrs es)) (sym first);
  no_null = ap (λ es. has addr_null (addrs es)) first ∙ h.no_null;
  distinct = subst (λ es. Distinct (addrs es)) (sym first) h.distinct;
  counted = size ∙ h.counted ∙ ap (λ (es : List Element). length es % 2 ^ 32) (sym first);
  relocated = reloc ∙ h.relocated ∙ ap (λ es. relocs (addrs es) % 2 ^ 32) (sym first);
}

-- The set with one address more.
unfoldable pub pushed : Info → ℕ → Info
pushed i a = record i {
  size = (i.size + 1) % 2 ^ 32;
  reloc = count_up (is_reloc a) i.reloc;
  hashcode = bit_xor i.hashcode (addr_code a);
  first = link_front false a i.first;
}

count_up-relocs : (b : Bool) (n : ℕ) → count_up b (n % 2 ^ 32) ≡ ((if b then 1 else 0) + n) % 2 ^ 32
count_up-relocs true n = omega arith
count_up-relocs false n = omega arith

pushed-IsListed :
    (f g : ℕ → Bool) (i : Info) (a : ℕ)
    → a ≢ addr_null
    → f a ≡ false
    → ((b : ℕ) → g b ≡ ((a == b) || f b))
    → IsListed f i
    → IsListed g (pushed i a)
unfolding pushed
pushed-IsListed f g i a p absent keys h =
    let new = addrs-link_front false a i.first in
    let n = length-link_front false a i.first in
    record {
      entry = keys addr_null ∙ rw h.entry (ground arith);
      elements = λ b q. keys b ∙ ap (λ t. (a == b) || t) (h.elements b q) ∙ sym (ap (has b) new);
      no_null = ap (has addr_null) new ∙ rw h.no_null (ground arith);
      distinct = subst Distinct (sym new) (sym (h.elements a p) ∙ absent, h.distinct);
      counted = omega (arith, h.counted, n);
      relocated =
          ap (count_up (is_reloc a)) h.relocated
          ∙ count_up-relocs (is_reloc a) (relocs (addrs i.first))
          ∙ sym (ap (λ xs. relocs xs % 2 ^ 32) new);
    }

-- After a step that writes at most one info entry and adds keys of its set, all other sets stay.
pub IsValid-write :
    (s t : Sets) (idx : ℕ) (i : Info)
    → IsValid s
    → idx < s.next_idx
    → t.next_idx ≡ s.next_idx
    → t.info ≡ (λ j. if j == idx then some i else s.info j)
    → ((j a : ℕ) → (j == idx) ≡ false → keys_of t j a ≡ keys_of s j a)
    → IsTable t
    → IsListed (keys_of t idx) i
    → IsValid t
IsValid-write s t idx i v old next info keys table this = record {
  table = table;
  unused =
      λ j a le. keys j a (ground (arith, le, next, old)) ∙ v.unused j a (omega (arith, le, next));
  unborn = λ j le.
      let other : (j == idx) ≡ false = ground (arith, le, next, old) in
      ap (λ f. f j) info ∙ rw other (v.unborn j (omega (arith, le, next)));
  sets = λ j k e.
      let now : (if j == idx then some i else s.info j) ≡ some k = sym (ap (λ f. f j) info) ∙ e in
      elim (Bool-cases (j == idx)) [
        | inl y ↦
            let same : j ≡ idx = ground (arith, y) in
            let held : some i ≡ some k =
              ap (λ (c : Bool). if c then some i else s.info j) (sym y) ∙ now in
            subst (IsListed (keys_of t j)) (some-injective i k held)
              (subst (λ x. IsListed (keys_of t x) i) (sym same) this)
        | inr n ↦
            let held : s.info j ≡ some k =
              ap (λ (c : Bool). if c then some i else s.info j) (sym n) ∙ now in
            IsListed-frame (keys_of s j) (keys_of t j) k k (λ a. keys j a n) refl refl refl
              (v.sets j k held)
      ];
}

abbrev pub at_key : ℕ → ℕ → ℕ → ℕ → Bool
at_key idx a j b = (idx == j) && (a == b)

pub push_new-keys :
    (idx : ℕ) (i : Info) (a : ℕ) (s : Sets) (j b : ℕ)
    → keys_of (push_new idx i a s) j b ≡ (at_key idx a j b || keys_of s j b)
unfolding push_new hash_find
push_new-keys idx i a s j b = hash_find-hash_insert (key idx a) (key j b) s

pub born : (s : Sets) (idx : ℕ) (i : Info) → IsValid s → s.info idx ≡ some i → idx < s.next_idx
born s idx i v e = elim (Bool-cases (ltb idx s.next_idx)) [
  | inl lt ↦ ground (arith, lt)
  | inr ge ↦ absurd (ground (arith, v.unborn idx (ground (arith, ge)), e))
]

push_new-IsValid :
    (s : Sets) (idx : ℕ) (i : Info) (a : ℕ)
    → IsValid s
    → s.info idx ≡ some i
    → a ≢ addr_null
    → keys_of s idx a ≡ false
    → IsValid (push_new idx i a s)
unfolding push_new pushed
push_new-IsValid s idx i a v e p absent =
    IsValid-write s (push_new idx i a s) idx (pushed i a) v (born s idx i v e) refl refl
      (λ j b n. push_new-keys idx i a s j b ∙ ground (arith, n))
      (hash_insert-IsTable (key idx a) s v.table absent)
      (pushed-IsListed (keys_of s idx) (keys_of (push_new idx i a s) idx) i a p absent
        (λ b. push_new-keys idx i a s idx b ∙ ground arith) (v.sets idx i e))

known_key :
    (s : Sets) (idx a j b : ℕ)
    → keys_of s idx a ≡ true
    → keys_of s j b ≡ (at_key idx a j b || keys_of s j b)
known_key s idx a j b y = elim (Bool-cases (at_key idx a j b)) [
  | inl same ↦
      let d : idx ≡ j = ground (arith, same) in
      let e : a ≡ b = ground (arith, same) in
      rw same (sym (ap (λ x. keys_of s x b) d) ∙ sym (ap (keys_of s idx) e) ∙ y)
  | inr other ↦ rw other refl
]

-- After the push of an address the set has it too, and the other sets are as they were.
pub push_element-IsValid :
    (s : Sets) (idx : ℕ) (i : Info) (a : ℕ)
    → IsValid s
    → s.info idx ≡ some i
    → a ≢ addr_null
    → IsValid (push_element idx i a s)
      × ((j b : ℕ) → keys_of (push_element idx i a s) j b ≡ (at_key idx a j b || keys_of s j b))
      × ((j : ℕ) → (j == idx) ≡ false → (push_element idx i a s).info j ≡ s.info j)
unfolding push_element
push_element-IsValid s idx i a v e p = elim (Bool-cases (keys_of s idx a)) [
  | inl y ↦ rw y (v, λ j b. known_key s idx a j b y, λ j n. refl)
  | inr n ↦ rw n (push_new-IsValid s idx i a v e p n, push_new-keys idx i a s, λ j m. rw m refl)
]
