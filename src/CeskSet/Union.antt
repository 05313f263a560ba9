-- ===== src/CeskSet/Union.antt =====
-- Pushing addresses: the set gets them, and the sets that shared its elements do not.
use adam.Base.{
  ℕ, ◌<◌, ◌≡◌, ◌≢◌, refl, sym, ◌∙◌, ap, Bool, true, false, ◌&&◌, ◌||◌, some, List, [], ◌∷◌, ◌==◌,
  ltb, arith, Bool-cases, inl, inr, ==_refl,
}
use adam.Address.{addr_null}
use adam.CeskSet.{key, Element, Info, Sets, M, hash_find, find_info}
use adam.CeskSet.Methods.{
  invalid, Handle, contain, unshare, prepare_to_write, push_element, push_new, push,
}
use adam.CeskSet.Change.{push_all}
use adam.CeskSet.Valid.{addrs, has, keys_of, IsValid, born, push_element-IsValid, pushed}
use adam.CeskSet.Duplicate.{
  Tagged, CopyOnWrite, CopyOnWrite-apart, CopyOnWrite-write, unshare-Unshared,
}

pub find_info-found :
    (s : Sets) (idx : ℕ) (i : Info) → IsValid s → s.info idx ≡ some i → find_info s idx ≡ some i
unfolding find_info
find_info-found s idx i v e = rw ((v.sets idx i e).entry, e) refl

pub prepare_runs :
    (idx dest : ℕ) (i j : Info) (s t : Sets) (k : ℕ → Info → M (Bool × Handle))
    → find_info s idx ≡ some i
    → unshare idx i s ≡ some (dest, t)
    → t.info dest ≡ some j
    → prepare_to_write idx k s ≡ k dest j t
unfolding prepare_to_write
prepare_runs idx dest i j s t k e f g = ground (arith, e, f, g)

push_runs :
    (s t : Sets) (idx dest a : ℕ) (i j : Info)
    → idx < invalid
    → a ≢ addr_null
    → find_info s idx ≡ some i
    → unshare idx i s ≡ some (dest, t)
    → t.info dest ≡ some j
    → push (some idx) a s ≡ some ((true, some dest), push_element dest j a t)
unfolding push
push_runs s t idx dest a i j lt p e f g =
    let here : ((a == addr_null) || (idx == invalid)) ≡ false = ground (arith, lt, p) in
    rw here (prepare_runs idx dest i j s t _ e f g)

-- The set at `dest` has what the one at `idx` had and the addresses `new`, and the others have what
-- they had.
pub record Unions (s : Sets) (idx : ℕ) (new : List ℕ) (dest : ℕ) (t : Sets) : Type 0 where
  pub valid : IsValid t
  pub members : (b : ℕ) → contain t (some dest) b ≡ (has b new || contain s (some idx) b)
  pub others : (k b : ℕ) → (k == dest) ≡ false → contain t (some k) b ≡ contain s (some k) b

contain-keys : (s : Sets) (idx b : ℕ) → b ≢ addr_null → contain s (some idx) b ≡ keys_of s idx b
unfolding contain
contain-keys s idx b p = let n : (b == addr_null) ≡ false = ground (arith, p) in rw n refl

contain-null : (s : Sets) (idx b : ℕ) → (b == addr_null) ≡ true → contain s (some idx) b ≡ false
unfolding contain
contain-null s idx b y = rw y refl

-- A valid step in terms of keys, read by `contain`.
pub Unions-keys :
    (s t : Sets) (idx dest : ℕ) (new : List ℕ)
    → IsValid t
    → has addr_null new ≡ false
    → ((b : ℕ) → b ≢ addr_null → keys_of t dest b ≡ (has b new || keys_of s idx b))
    → ((k b : ℕ) → (k == dest) ≡ false → keys_of t k b ≡ keys_of s k b)
    → Unions s idx new dest t
Unions-keys s t idx dest new v null this others = record {
  valid = v;
  members = λ b. elim (Bool-cases (b == addr_null)) [
    | inl y ↦
        let none_new : has b new ≡ false = ap (λ x. has x new) (ground (arith, y)) ∙ null in
        contain-null t dest b y ∙ sym (rw (none_new, contain-null s idx b y) refl)
    | inr n ↦
        let p : b ≢ addr_null = ground (arith, n) in
        contain-keys t dest b p ∙ this b p ∙ ap (λ c. has b new || c) (sym (contain-keys s idx b p))
  ];
  others = λ k b m. elim (Bool-cases (b == addr_null)) [
    | inl y ↦ contain-null t k b y ∙ sym (contain-null s k b y)
    | inr n ↦
        let p : b ≢ addr_null = ground (arith, n) in
        contain-keys t k b p ∙ others k b m ∙ sym (contain-keys s k b p)
  ];
}

push_element-info :
    (s : Sets) (idx : ℕ) (i : Info) (a : ℕ)
    → s.info idx ≡ some i
    → (j : Info) × ((push_element idx i a s).info idx ≡ some j) × (j.refcnt ≡ i.refcnt)
unfolding push_element push_new pushed
push_element-info s idx i a e = elim (Bool-cases (hash_find s (key idx a))) [
  | inl y ↦ (i, rw y e, refl)
  | inr n ↦ (pushed i a, rw (n, ==_refl idx) refl, refl)
]

-- A push to a set of a valid table succeeds: the set written has the address too, and every other
-- set has what it had. Where the reference count of the set is above 1, the one written is a new set
-- with one reference, and the old one keeps its addresses and loses one reference; otherwise it is
-- the set itself. No other entry changes. It takes that the address is not CESK_STORE_ADDR_NULL,
-- that an index is left, and that the tags of the set and the empty tag set are on the heap.
pub push-Unions :
    (s : Sets) (idx a : ℕ) (i : Info)
    → IsValid s
    → s.info idx ≡ some i
    → s.next_idx < invalid
    → Tagged s i
    → a ≢ addr_null
    → (dest : ℕ) × (t : Sets) × (push (some idx) a s ≡ some ((true, some dest), t))
      × Unions s idx (a ∷ []) dest t
      × CopyOnWrite s idx i dest t
      × (ltb 1 i.refcnt ≡ true → (b : ℕ) → contain t (some idx) b ≡ contain s (some idx) b)
push-Unions s idx a i v e room tagged p =
    let (dest, t, j, run, u) = unshare-Unshared s idx i v e room tagged in
    let (valid, keys, rest) = push_element-IsValid t dest j a u.valid u.at p in
    let (k, now, count) = push_element-info t dest j a u.at in
    let old = born s idx i v e in
    let sets =
      Unions-keys s (push_element dest j a t) idx dest (a ∷ []) valid (ground (arith, p))
        (λ b q. keys dest b ∙ rw (u.keys b q) (ground arith))
        (λ k b n. keys k b ∙ rw (u.others k b n) (ground (arith, n))) in
    (
      dest,
      push_element dest j a t,
      push_runs s t idx dest a i j (omega (arith, born s idx i v e, room)) p
          (find_info-found s idx i v e) run u.at,
      sets,
      CopyOnWrite-write s idx i dest j k t (push_element dest j a t) u.sharing old u.at now count
          rest,
      λ shared b. sets.others idx b (CopyOnWrite-apart s idx i dest u.sharing.place old shared),
    )

push_all-step :
    (s : Sets) (dest : ℕ) (i : Info) (x : Element) (xs : List Element)
    → s.info dest ≡ some i
    → push_all dest (x ∷ xs) s ≡ push_all dest xs (push_element dest i x.addr s)
unfolding push_all
push_all-step s dest i x xs e = ground (arith, e)

-- The addresses of a list are pushed one after the other.
pub push_all-keys :
    (s : Sets) (dest : ℕ) (i : Info) (es : List Element)
    → IsValid s
    → s.info dest ≡ some i
    → has addr_null (addrs es) ≡ false
    → (t : Sets) × (push_all dest es s ≡ some t)
      × IsValid t
      × ((k b : ℕ) → keys_of t k b ≡ ((dest == k) && has b (addrs es) || keys_of s k b))
unfolding push_all
push_all-keys s dest i [] v e null = (s, refl, v, λ k b. ground arith)
push_all-keys s dest i (x ∷ xs) v e null =
    let p : x.addr ≢ addr_null = ground (arith, null) in
    let (valid, keys, rest) = push_element-IsValid s dest i x.addr v e p in
    let (j, at, _) = push_element-info s dest i x.addr e in
    let (t, run, valid_t, keys_t) =
      push_all-keys (push_element dest i x.addr s) dest j xs valid at (ground (arith, null)) in
    (
      t,
      push_all-step s dest i x xs e ∙ run,
      valid_t,
      λ k b. keys_t k b ∙ rw (keys k b) (ground arith),
    )

-- The loop of `cesk_set_merge` puts the elements of one set into another: it ends, and the set at
-- `dest` then has what both had; all other sets have what they had.
pub push_all-Unions :
    (s : Sets) (dest sour : ℕ) (i j : Info)
    → IsValid s
    → s.info dest ≡ some i
    → s.info sour ≡ some j
    → (t : Sets) × (push_all dest j.first s ≡ some t) × Unions s dest (addrs j.first) dest t
push_all-Unions s dest sour i j v e f =
    let null = (v.sets sour j f).no_null in
    let (t, run, valid, keys) = push_all-keys s dest i j.first v e null in
    (
      t,
      run,
      Unions-keys s t dest dest (addrs j.first) valid null
          (λ b q. keys dest b ∙ rw (==_refl dest) refl) (λ k b n. keys k b ∙ ground (arith, n)),
    )
