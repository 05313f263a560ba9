-- ===== src/CeskSet/Same.antt =====
-- The comparison of two sets.
use adam.Base.{
  ℕ, suc, ◌^◌, ◌<◌, ◌≡◌, ◌≢◌, refl, sym, ◌∙◌, ap, ◌↔◌, Bool, true, false, ◌&&◌, Option, some, List,
  [], ◌∷◌, ◌==◌, if◌then◌else◌, arith, Bool-cases, inl, inr, length, bit_xor,
}
use adam.Address.{addr_null}
use adam.TagSet
use adam.TagSet.{TagSet}
use adam.TagSet.Items.{hash_init, hash_items}
use adam.CeskSet.{Element, Info, Sets, find_info, empty_hash, on_tags}
use adam.CeskSet.Methods.{contain, iterate, size, hashcode}
use adam.CeskSet.Change.{hash_elements, contain_all, equal_sets, equal}
use adam.CeskSet.Valid.{addrs, has, IsValid}
use adam.CeskSet.Union.{find_info-found}
use adam.CeskSet.Members.{Sub, Sub-length, Sub-converse, hash_elements-same}
use adam.TagSet.Same.{tags_agree, tags_agree_sound, tags_agree_complete}

-- The hash of the set is that of its elements and its tags, which are on the heap, and the list is
-- one that `size` can count.
pub record Hashed (s : Sets) (i : Info) (t : TagSet) : Type 0 where
  pub tags : s.tag_state.heap i.tags ≡ some t
  pub ne_null : i.tags ≢ 0
  pub own : t.hashcode ≡ hash_items hash_init t.items
  pub hashed : i.hashcode ≡ bit_xor (hash_elements empty_hash (addrs i.first)) t.hashcode
  pub few : length i.first < 2 ^ 32

pub iterate-addrs : (es : List Element) → has addr_null (addrs es) ≡ false → iterate es ≡ addrs es
unfolding iterate
iterate-addrs [] h = refl
iterate-addrs (e ∷ es) h =
    let n : (e.addr == addr_null) ≡ false = ground (arith, h) in
    rw (n, iterate-addrs es (ground (arith, h))) refl

contain_all-has :
    (s : Sets) (idx a : ℕ) (xs : List ℕ)
    → contain_all s idx xs ≡ true
    → has a xs ≡ true
    → contain s (some idx) a ≡ true
unfolding contain_all
contain_all-has s idx a [] h p = absurd (ground (arith, p))
contain_all-has s idx a (x ∷ xs) h p = elim (Bool-cases (x == a)) [
  | inl y ↦
      let same : x ≡ a = ground (arith, y) in
      ap (contain s (some idx)) (sym same) ∙ ground (arith, h)
  | inr n ↦ contain_all-has s idx a xs (ground (arith, h)) (ground (arith, n, p))
]

has-contain_all :
    (s : Sets) (idx : ℕ) (xs : List ℕ)
    → ((a : ℕ) → has a xs ≡ true → contain s (some idx) a ≡ true)
    → contain_all s idx xs ≡ true
unfolding contain_all
has-contain_all s idx [] h = refl
has-contain_all s idx (x ∷ xs) h =
    let first : contain s (some idx) x ≡ true = h x (ground arith) in
    let rest = has-contain_all s idx xs (λ a p. h a (rw p (ground arith))) in rw (first, rest) refl

-- What a set contains is what is on its list.
pub contain-has :
    (s : Sets) (idx x : ℕ) (i : Info)
    → IsValid s
    → s.info idx ≡ some i
    → contain s (some idx) x ≡ has x (addrs i.first)
unfolding contain
contain-has s idx x i v e = elim (Bool-cases (x == addr_null)) [
  | inl y ↦
      let same : addr_null ≡ x = ground (arith, y) in
      rw y (sym (v.sets idx i e).no_null ∙ ap (λ z. has z (addrs i.first)) same)
  | inr n ↦ rw n ((v.sets idx i e).elements x (ground (arith, n)))
]

size-found : (s : Sets) (idx : ℕ) (i : Info) → find_info s idx ≡ some i → size s (some idx) ≡ i.size
unfolding size
size-found s idx i e = ground (arith, e)

pub hashcode-found :
    (s : Sets) (idx : ℕ) (i : Info)
    → find_info s idx ≡ some i
    → hashcode (some idx) s ≡ some (i.hashcode, s)
unfolding hashcode
hashcode-found s idx i e = ground (arith, e)

equal_gate :
    (s : Sets) (a b h k : ℕ)
    → hashcode (some a) s ≡ some (h, s)
    → hashcode (some b) s ≡ some (k, s)
    → equal (some a) (some b) s ≡ (
        if (h == k) && (size s (some a) == size s (some b))
        then equal_sets a b s
        else some (some false, s))
unfolding equal
equal_gate s a b h k e f = elim (Bool-cases ((h == k) && (size s (some a) == size s (some b)))) [
  | inl y ↦ ground (arith, e, f, y)
  | inr n ↦ ground (arith, e, f, n)
]

equal_sets_runs :
    (s : Sets) (a b : ℕ) (i j : Info) (r : Bool)
    → find_info s a ≡ some i
    → find_info s b ≡ some j
    → on_tags (TagSet.equal i.tags j.tags) s ≡ some (some r, s)
    → iterate i.first ≡ addrs i.first
    → equal_sets a b s ≡ some (some (r && contain_all s b (addrs i.first)), s)
unfolding equal_sets
equal_sets_runs s a b i j true e f g h = ground (arith, e, f, g, h)
equal_sets_runs s a b i j false e f g h = ground (arith, e, f, g, h)

length-addrs : (es : List Element) → length (addrs es) ≡ length es
length-addrs [] = refl
length-addrs (e ∷ es) = ap suc (length-addrs es)

Sub-same : (x : ℕ) (xs ys : List ℕ) → Sub xs ys → Sub ys xs → has x xs ≡ has x ys
Sub-same x xs ys into back = elim (Bool-cases (has x xs)) [
  | inl y ↦ y ∙ sym (into x y)
  | inr n ↦ elim (Bool-cases (has x ys)) [
    | inl z ↦ absurd (ground (arith, n, back x z))
    | inr m ↦ n ∙ sym m
  ]
]

four : (b c d e : Bool) → b ≡ true → c ≡ true → d ≡ true → e ≡ true → (b && c && (d && e)) ≡ true
four b c d e p q r w = rw (p, q, r, w) refl

gated :
    (c d e : Bool) (s : Sets)
    → if◌then◌else◌ {A = Option (Option Bool × Sets)}
        (c && d)
        (some (some e, s))
        (some (some false, s))
      ≡ some (some (c && d && e), s)
gated true true e s = refl
gated true false e s = refl
gated false d e s = refl

module _ (s : Sets) (a b : ℕ) (i j : Info) (t u : TagSet) (v : IsValid s) (e : s.info a ≡ some i)
    (f : s.info b ≡ some j) (hi : Hashed s i t) (hj : Hashed s j u) where
  tag_step : on_tags (TagSet.equal i.tags j.tags) s ≡ some (some (tags_agree t u), s)
  unfolding TagSet.equal TagSet.load
  tag_step =
      let p : (i.tags == 0) ≡ false = ground (arith, hi.ne_null) in
      let q : (j.tags == 0) ≡ false = ground (arith, hj.ne_null) in
      ground (arith, p, q, hi.tags, hj.tags)

  agree : Bool
  agree =
      (i.hashcode == j.hashcode)
      && (i.size == j.size)
      && (tags_agree t u && contain_all s b (addrs i.first))

  equal_runs : equal (some a) (some b) s ≡ some (some agree, s)
  unfolding agree
  equal_runs =
      let x = find_info-found s a i v e in
      let y = find_info-found s b j v f in
      let z = iterate-addrs i.first (v.sets a i e).no_null in
      let sizes : (size s (some a) == size s (some b)) ≡ (i.size == j.size) =
        ap (λ n. n == size s (some b)) (size-found s a i x)
        ∙ ap (λ n. i.size == n) (size-found s b j y) in
      equal_gate s a b i.hashcode j.hashcode (hashcode-found s a i x) (hashcode-found s b j y)
      ∙ ap
          (λ (c : Bool).
            if (i.hashcode == j.hashcode) && c then equal_sets a b s else some (some false, s))
          sizes
      ∙ ap
          (λ r.
            if (i.hashcode == j.hashcode) && (i.size == j.size) then r else some (some false, s))
          (equal_sets_runs s a b i j (tags_agree t u) x y tag_step z)
      ∙ gated (i.hashcode == j.hashcode) (i.size == j.size) _ s

  SameSet : Type 0
  SameSet = ((x : ℕ) → contain s (some a) x ≡ contain s (some b) x) × (t.items ≡ u.items)

  contained : (x : ℕ) → contain s (some b) x ≡ has x (addrs j.first)
  contained x = contain-has s b x j v f

  same_length : i.size ≡ j.size → length (addrs i.first) ≡ length (addrs j.first)
  same_length p = omega (
    arith,
    p,
    length-addrs i.first,
    length-addrs j.first,
    (v.sets a i e).counted,
    (v.sets b j f).counted,
    hi.few,
    hj.few,
  )

  agree_sound : agree ≡ true → SameSet
  unfolding agree SameSet
  agree_sound h =
      let all : contain_all s b (addrs i.first) ≡ true = ground (arith, h) in
      let sizes : i.size ≡ j.size = ground (arith, h) in
      let into : Sub (addrs i.first) (addrs j.first) =
        λ x p. sym (contained x) ∙ contain_all-has s b x (addrs i.first) all p in
      let back : Sub (addrs j.first) (addrs i.first) =
        Sub-converse (addrs i.first) (addrs j.first) (v.sets a i e).distinct (v.sets b j f).distinct
          into (omega (arith, same_length sizes)) in
      (
        λ x.
            contain-has s a x i v e
            ∙ Sub-same x (addrs i.first) (addrs j.first) into back
            ∙ sym (contained x),
        tags_agree_sound t u (ground (arith, h)),
      )

  agree_complete : SameSet → agree ≡ true
  unfolding agree SameSet
  agree_complete (members, items) =
      let there : (x : ℕ) → has x (addrs i.first) ≡ has x (addrs j.first) =
        λ x. sym (contain-has s a x i v e) ∙ members x ∙ contained x in
      let into : Sub (addrs i.first) (addrs j.first) = λ x p. sym (there x) ∙ p in
      let back : Sub (addrs j.first) (addrs i.first) = λ x p. there x ∙ p in
      let di = (v.sets a i e).distinct in
      let dj = (v.sets b j f).distinct in
      let n : length (addrs i.first) ≡ length (addrs j.first) = omega (
        arith,
        Sub-length (addrs i.first) (addrs j.first) di dj into,
        Sub-length (addrs j.first) (addrs i.first) dj di back,
      ) in
      let sizes : i.size ≡ j.size = omega (
        arith,
        n,
        length-addrs i.first,
        length-addrs j.first,
        (v.sets a i e).counted,
        (v.sets b j f).counted,
      ) in
      let tags = tags_agree_complete t u hi.own hj.own items in
      let tag_hashes : t.hashcode ≡ u.hashcode = ground (arith, tags) in
      let hashes : i.hashcode ≡ j.hashcode =
        hi.hashed
        ∙ ap (λ h. bit_xor h t.hashcode)
            (hash_elements-same empty_hash (addrs i.first) (addrs j.first) di dj into back)
        ∙ ap (bit_xor (hash_elements empty_hash (addrs j.first))) tag_hashes
        ∙ sym hj.hashed in
      let all = has-contain_all s b (addrs i.first) (λ x p. contained x ∙ into x p) in
      four (i.hashcode == j.hashcode) (i.size == j.size) (tags_agree t u) _ (ground (arith, hashes))
        (ground (arith, sizes)) tags all

-- In a valid table, take two sets of fewer than 2^32 elements each, whose tag sets are on the heap
-- with the hash of their items, and whose stored hash is that of their elements and tags, which
-- `cesk_set_assign_tags` can break. Then they are equal for `cesk_set_equal` just when they contain
-- the same addresses and have the same tags: under these conditions the hash and the size, which it
-- reads first, do not tell such sets apart, and the one inclusion that it tests is enough.
pub equal_iff_same :
    (s : Sets) (a b : ℕ) (i j : Info) (t u : TagSet)
    → IsValid s
    → s.info a ≡ some i
    → s.info b ≡ some j
    → Hashed s i t
    → Hashed s j u
    → (r : Bool) × (equal (some a) (some b) s ≡ some (some r, s))
      × ((r ≡ true)
          ↔ (((x : ℕ) → contain s (some a) x ≡ contain s (some b) x) × (t.items ≡ u.items)))
unfolding SameSet
equal_iff_same s a b i j t u v e f hi hj = (
  agree s a b i j t u v e f hi hj,
  equal_runs s a b i j t u v e f hi hj,
  (agree_sound s a b i j t u v e f hi hj, agree_complete s a b i j t u v e f hi hj),
)
