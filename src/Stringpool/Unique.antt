-- ===== src/Stringpool/Unique.antt =====
-- The pool keeps one address for each hash and string.
use adam.Base.{
  ℕ, ◌%◌, ◌≡◌, ◌≢◌, ◌↔◌, ◌⊎◌, inl, inr, refl, sym, ◌∙◌, ap, subst, Bool, true, ◌&&◌, none, some,
  List, [], ◌∷◌, ◌==◌, if◌then◌else◌, arith, and-true, Bool-cases, Option-cases,
}
use adam.Stringpool.{Str, Hash, byte_at}
use adam.Stringpool.Intern.{
  HashNode, Pool, take, strncmp_equal, hash_equal, matches, look_up, add_node, add_string,
  query_imp,
}
use adam.Stringpool.Text.{
  IsText, strncmp_sound, strncmp_take, byte_at-take, hash_equal_sound, hash_equal_refl, both,
}

-- A chain has the node.
abbrev pub In : HashNode → List HashNode → Type 0
In e [] = ⊥
In e (x ∷ xs) = (e ≡ x) ⊎ In e xs

abbrev pub node : Hash → Str → ℕ → HashNode
node h t a = record { hash = h; address = a; str = t }

-- The pool has the string `t` with the hash `h` at the address `a`.
abbrev pub Stored : Pool → Hash → Str → ℕ → Type 0
Stored pool h t a = In (node h t a) (pool.chains (h.murmur % pool.size))

-- Strings end at their first 0, and two addresses are the same for the same hash and string only.
pub record IsPool (pool : Pool) : Type 0 where
  pub texts : (i : ℕ) (e : HashNode) → In e (pool.chains i) → IsText e.str
  pub unique :
      (g h : Hash) (s t : Str) (a b : ℕ)
      → Stored pool g s a
      → Stored pool h t b
      → (a ≡ b) ↔ ((g ≡ h) × (s ≡ t))

matches_sound :
    (h : Hash) (len : ℕ) (str : Str) (e : HashNode)
    → IsText e.str
    → matches h len str e ≡ true
    → (e.hash ≡ h) × (e.str ≡ take len str)
unfolding matches
matches_sound h len str e p m =
    let (ab, c) =
      both (hash_equal e.hash h && strncmp_equal len e.str str) (byte_at e.str len == 0) m in
    let (a, b) = both (hash_equal e.hash h) (strncmp_equal len e.str str) ab in
    (hash_equal_sound e.hash h a, strncmp_sound len e.str str p b (ground arith))

matches_self :
    (h : Hash) (len : ℕ) (str : Str) (a : ℕ) → matches h len str (node h (take len str) a) ≡ true
unfolding matches
matches_self h len str a =
    and-true _ _ (and-true _ _ (hash_equal_refl h) (strncmp_take len str))
      (rw (byte_at-take len str) refl)

look_up_sound :
    (h : Hash) (len : ℕ) (str : Str) (es : List HashNode) (a : ℕ)
    → ((e : HashNode) → In e es → IsText e.str)
    → look_up h len str es ≡ some a
    → In (node h (take len str) a) es
unfolding look_up
look_up_sound h len str [] a p e = absurd (ground arith)
look_up_sound h len str (x ∷ xs) a p e = elim (Bool-cases (matches h len str x)) [
  | inl y ↦
      let (i, j) = matches_sound h len str x (p x (inl refl)) y in
      let k : x.address ≡ a = ground arith in
      inl (λ l. record { hash = sym i l; address = sym k l; str = sym j l })
  | inr n ↦ inr (look_up_sound h len str xs a (λ q m. p q (inr m)) (ground (arith, n, e)))
]

look_up_complete :
    (h : Hash) (len : ℕ) (str : Str) (es : List HashNode) (a : ℕ)
    → In (node h (take len str) a) es
    → look_up h len str es ≢ none
unfolding look_up
look_up_complete h len str [] a i n = absurd i
look_up_complete h len str (x ∷ xs) a (inl e) n =
    let m : matches h len str x ≡ true =
      ap (matches h len str) (sym e) ∙ matches_self h len str a in
    absurd (ground (arith, m, n))
look_up_complete h len str (x ∷ xs) a (inr i) n = elim (Bool-cases (matches h len str x)) [
  | inl y ↦ absurd (ground (arith, y, n))
  | inr z ↦ look_up_complete h len str xs a i (ground (arith, z, n))
]

-- The pool with one string more.
grown : Pool → Hash → Str → ℕ → Pool
unfolding add_node
grown pool h t a = add_node (h.murmur % pool.size) (node h t a) pool

-- The chain of a hash in the pool with one string more.
chain_with : Pool → Hash → Str → ℕ → Hash → Bool → List HashNode
chain_with pool h t a g same =
    if same
    then node h t a ∷ pool.chains (g.murmur % pool.size)
    else pool.chains (g.murmur % pool.size)

moved :
    (pool : Pool) (h k : Hash) (t v : Str) (c : ℕ)
    → k ≡ h
    → v ≡ t
    → Stored pool k v c
    → Stored pool h t c
moved pool h k t v c e d m = subst (λ x. Stored pool x t c) e (subst (λ x. Stored pool k x c) d m)

grown-Stored_before :
    (pool : Pool) (h g : Hash) (t s : Str) (a b : ℕ)
    → Stored (grown pool h t a) g s b
    → (node g s b ≡ node h t a) ⊎ Stored pool g s b
unfolding grown chain_with
grown-Stored_before pool h g t s a b m =
    elim (Bool-cases (g.murmur % pool.size == h.murmur % pool.size)) [
      | inl y ↦ subst (λ c. In (node g s b) (chain_with pool h t a g c)) y m
      | inr n ↦ inr (subst (λ c. In (node g s b) (chain_with pool h t a g c)) n m)
    ]

grown-Stored_after :
    (pool : Pool) (h g : Hash) (t s : Str) (a b : ℕ)
    → (node g s b ≡ node h t a) ⊎ Stored pool g s b
    → Stored (grown pool h t a) g s b
unfolding grown chain_with
grown-Stored_after pool h g t s a b m =
    elim (Bool-cases (g.murmur % pool.size == h.murmur % pool.size)) [
      | inl y ↦ subst (λ c. In (node g s b) (chain_with pool h t a g c)) (sym y) m
      | inr n ↦
          subst (λ c. In (node g s b) (chain_with pool h t a g c)) (sym n)
            (elim m [
              | inl e ↦
                  let k : g.murmur ≡ h.murmur = ap (λ x. x.hash.murmur) e in
                  absurd (ground (arith, k, n))
              | inr old ↦ old
            ])
    ]

-- Nothing is stored at the address.
abbrev pub Unused : Pool → ℕ → Type 0
Unused pool a = (h : Hash) (t : Str) (b : ℕ) → Stored pool h t b → b ≢ a

grown_texts :
    (pool : Pool) (h : Hash) (t : Str) (a : ℕ)
    → IsPool pool
    → IsText t
    → (i : ℕ) (e : HashNode) → In e ((grown pool h t a).chains i)
    → IsText e.str
unfolding grown
grown_texts pool h t a p text i e m =
    let chain : Bool → List HashNode =
      λ c. if c then node h t a ∷ pool.chains i else pool.chains i in
    elim (Bool-cases (i == h.murmur % pool.size)) [
      | inl y ↦ elim (subst (λ c. In e (chain c)) y m) [
        | inl k ↦ subst IsText (sym (ap (λ x. x.str) k)) text
        | inr old ↦ p.texts i e old
      ]
      | inr n ↦ p.texts i e (subst (λ c. In e (chain c)) n m)
    ]

grown-IsPool :
    (pool : Pool) (h : Hash) (t : Str) (a : ℕ)
    → IsPool pool
    → IsText t
    → Unused pool a
    → ((b : ℕ) → ¬ Stored pool h t b)
    → IsPool (grown pool h t a)
grown-IsPool pool h t a p text u absent = record {
  texts = grown_texts pool h t a p text;
  unique = λ g k s v b c m n. elim (grown-Stored_before pool h g t s a b m) [
    | inl e ↦ elim (grown-Stored_before pool h k t v a c n) [
      | inl d ↦ (
        λ q. (ap (λ x. x.hash) (e ∙ sym d), ap (λ x. x.str) (e ∙ sym d)),
        λ q. ap (λ x. x.address) (e ∙ sym d),
      )
      | inr old ↦ (
        λ q. absurd (u k v c old (sym q ∙ ap (λ x. x.address) e)),
        λ q. absurd (
            absent c (
              moved pool h k t v c (sym q.0 ∙ ap (λ x. x.hash) e) (sym q.1 ∙ ap (λ x. x.str) e)
                old)),
      )
    ]
    | inr old ↦ elim (grown-Stored_before pool h k t v a c n) [
      | inl d ↦ (
        λ q. absurd (u g s b old (q ∙ ap (λ x. x.address) d)),
        λ q. absurd (
            absent b
              (moved pool h g t s b (q.0 ∙ ap (λ x. x.hash) d) (q.1 ∙ ap (λ x. x.str) d) old)),
      )
      | inr new ↦ p.unique g k s v b c old new
    ]
  ];
}

query_found :
    (node fresh : ℕ) (h : Hash) (len : ℕ) (str : Str) (pool : Pool) (a : ℕ)
    → look_up h len str (pool.chains (h.murmur % pool.size)) ≡ some a
    → query_imp node fresh h len str pool ≡ some (a, pool)
unfolding query_imp
query_found n fresh h len str pool a e = ground (arith, e)

query_new :
    (node fresh : ℕ) (h : Hash) (len : ℕ) (str : Str) (pool : Pool)
    → node ≢ 0
    → fresh ≢ 0
    → look_up h len str (pool.chains (h.murmur % pool.size)) ≡ none
    → query_imp node fresh h len str pool ≡ some (fresh, grown pool h (take len str) fresh)
unfolding query_imp add_string grown
query_new n fresh h len str pool p q e = ground (arith, e)

-- What a query leaves: a pool again, the string at the address of the result, and all that was
-- stored before.
pub record Queried (pool : Pool) (h : Hash) (t : Str) (a : ℕ) (pool' : Pool) : Type 0 where
  pub pool_again : IsPool pool'
  pub found : Stored pool' h t a
  pub kept : (g : Hash) (s : Str) (b : ℕ) → Stored pool g s b → Stored pool' g s b

-- In a pool with one address for each hash and string, where both allocations succeed at an unused
-- address, a query of a text without 0 gives an address at which the pool then has the text with
-- that hash. It is a pool of the same kind, and has lost no string.
pub query_imp-Queried :
    (node fresh : ℕ) (h : Hash) (len : ℕ) (str : Str) (pool : Pool)
    → node ≢ 0
    → fresh ≢ 0
    → IsPool pool
    → IsText (take len str)
    → Unused pool fresh
    → (a : ℕ) × (pool' : Pool) × (query_imp node fresh h len str pool ≡ some (a, pool'))
      × Queried pool h (take len str) a pool'
query_imp-Queried n fresh h len str pool p q wf text u =
    let chain = pool.chains (h.murmur % pool.size) in
    elim (Option-cases (look_up h len str chain)) [
      | inr (a, e) ↦ (
        a,
        pool,
        query_found n fresh h len str pool a e,
        record {
          pool_again = wf;
          found = look_up_sound h len str chain a (wf.texts (h.murmur % pool.size)) e;
          kept = λ g s b m. m;
        },
      )
      | inl e ↦ (
        fresh,
        grown pool h (take len str) fresh,
        query_new n fresh h len str pool p q e,
        record {
          pool_again =
              grown-IsPool pool h (take len str) fresh wf text u
                (λ b m. absurd (look_up_complete h len str chain b m e));
          found = grown-Stored_after pool h h (take len str) (take len str) fresh fresh (inl refl);
          kept = λ g s b m. grown-Stored_after pool h g (take len str) s fresh b (inr m);
        },
      )
    ]
