-- ===== src/CeskSet/Hash.antt =====
-- The hash of a set is kept up to date.
use adam.Base.{
  ℕ, ◌≡◌, ◌≢◌, refl, sym, ◌∙◌, ap, subst, false, some, arith, Bool-cases, inl, inr, ==_refl,
  bit_xor,
}
use mathlib.Core.Option.{some-injective}
use adam.Base.Bits.{xor_right_comm}
use adam.Address.{addr_null}
use adam.TagSet.{TagSet}
use adam.TagSet.Alive.{load-found}
use adam.CeskSet.{Info, Sets, empty_hash, addr_code, tag_hash}
use adam.CeskSet.Methods.{hashcode, push_element, push_new}
use adam.CeskSet.Change.{hash_elements, compute_hashcode}
use adam.CeskSet.Valid.{addrs, keys_of, IsValid, pushed, addrs-link_front, push_element-IsValid}
use adam.CeskSet.Union.{find_info-found}
use adam.CeskSet.Members.{hash_elements-xor}
use adam.CeskSet.Same.{iterate-addrs, hashcode-found}

-- The hash that an entry must have with tags of the hash `c`.
abbrev hash_of : Info → ℕ → ℕ
hash_of i c = bit_xor (hash_elements empty_hash (addrs i.first)) c

tag_hash-found :
    (s : Sets) (tags : ℕ) (t : TagSet)
    → s.tag_state.heap tags ≡ some t
    → tag_hash tags s ≡ some (t.hashcode, s)
unfolding tag_hash
tag_hash-found s tags t f = ground (arith, load-found s.tag_state tags t f)

compute_hashcode-found :
    (s : Sets) (idx : ℕ) (i : Info) (t : TagSet)
    → IsValid s
    → s.info idx ≡ some i
    → s.tag_state.heap i.tags ≡ some t
    → compute_hashcode (some idx) s ≡ some (hash_of i t.hashcode, s)
unfolding compute_hashcode
compute_hashcode-found s idx i t v e f =
    let x = find_info-found s idx i v e in
    let y = tag_hash-found s i.tags t f in
    let z = iterate-addrs i.first (v.sets idx i e).no_null in ground (arith, x, y, z)

hash_of-pushed : (i : Info) (a c : ℕ) → hash_of (pushed i a) c ≡ bit_xor (hash_of i c) (addr_code a)
unfolding pushed hash_elements
hash_of-pushed i a c =
    ap (λ xs. bit_xor (hash_elements empty_hash xs) c) (addrs-link_front false a i.first)
    ∙ ap (λ h. bit_xor h c) (hash_elements-xor empty_hash (addr_code a) (addrs i.first))
    ∙ xor_right_comm (hash_elements empty_hash (addrs i.first)) (addr_code a) c

-- Where the hash on a set is the one that `cesk_set_compute_hashcode` finds, it still is after an
-- address is pushed to the set in place.
pub push_element-hash :
    (s : Sets) (idx : ℕ) (i : Info) (a : ℕ) (t : TagSet)
    → IsValid s
    → s.info idx ≡ some i
    → a ≢ addr_null
    → s.tag_state.heap i.tags ≡ some t
    → compute_hashcode (some idx) s ≡ hashcode (some idx) s
    → compute_hashcode (some idx) (push_element idx i a s)
      ≡ hashcode (some idx) (push_element idx i a s)
unfolding push_element push_new pushed
push_element-hash s idx i a t v e p f h = elim (Bool-cases (keys_of s idx a)) [
  | inl y ↦ rw y h
  | inr n ↦
      let before : hash_of i t.hashcode ≡ i.hashcode =
        ap (λ (q : ℕ × Sets). q.0)
          (some-injective _ _ (
            sym (compute_hashcode-found s idx i t v e f)
            ∙ h
            ∙ hashcode-found s idx i (find_info-found s idx i v e))) in
      let (valid, _, _) = push_element-IsValid s idx i a v e p in
      let same : push_element idx i a s ≡ push_new idx i a s = rw n refl in
      let valid' : IsValid (push_new idx i a s) = subst IsValid same valid in
      let at : (push_new idx i a s).info idx ≡ some (pushed i a) = rw (==_refl idx) refl in
      rw n (
        compute_hashcode-found (push_new idx i a s) idx (pushed i a) t valid' at f
        ∙ ap (λ (c : ℕ). some (c, push_new idx i a s))
            (hash_of-pushed i a t.hashcode ∙ ap (λ c. bit_xor c (addr_code a)) before)
        ∙ sym (
            hashcode-found (push_new idx i a s) idx (pushed i a)
              (find_info-found (push_new idx i a s) idx (pushed i a) valid' at)))
]
