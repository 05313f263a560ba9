-- ===== src/AllocTable/Sharing.antt =====
-- The invariant of the allocation table, its users, and the stores that share it.
use adam.Base.{
  ℕ, ◌+◌, ◌-◌, ◌%◌, ◌^◌, ◌<◌, ◌≤◌, Bool, true, false, ◌≡◌, refl, sym, subst, Option, none, some,
  List, [], ◌∷◌, arith, ◌&&◌, ◌||◌, ◌==◌, ltb, if◌then◌else◌, length, has, ==_iff, Bool-cases, inl,
  inr,
}
use adam.Address.{addr_null, is_obj, is_reloc}
use adam.AllocTable.Lookup.{mapped, map_addr_runs, map_addr_refuses}
use adam.AllocTable.Tokens.{
  kept, left, GaveOut, new-GaveOut, free-GaveOut, insert-GaveOut, map_addr-GaveOut,
  get_token-GaveOut,
}
use adam.AllocTable.{
  Node, Table, fresh, new, free, hashcode, update, prepend, insert, find, query, map_addr,
  get_token, max_chain,
}

abbrev pub Each : (Node → Type 0) → List Node → Type 0
Each P [] = Unit {0}
Each P (n ∷ ns) = P n × Each P ns

-- A node stands in the slot of its key, under a token that was given out.
abbrev pub Placed : Table → ℕ → Node → Type 0
Placed t h n = (hashcode n.token n.key ≡ h) × (n.token < t.next_token)

pub record IsValid (t : Table) : Type 0 where
  pub placed : (h : ℕ) → Each (Placed t h) (t.slot h)
  pub counted : (h : ℕ) → t.chain_size h ≡ length (t.slot h) % 2 ^ 32
  pub bounded : (h : ℕ) → t.chain_size h ≤ t.max_chain_size

fresh-IsValid : IsValid fresh
fresh-IsValid = record { placed = λ h. tt; counted = λ h. refl; bounded = λ h. omega arith }

Each-mono :
    {P Q : Node → Type 0} (ns : List Node) → ((n : Node) → P n → Q n) → Each P ns → Each Q ns
Each-mono [] f e = tt
Each-mono (n ∷ ns) f e = (f n e.0, Each-mono ns f e.1)

-- A table that was not given back is valid.
abbrev pub Good : Option Table → Type 0
Good none = Unit {0}
Good (some t) = IsValid t

Each-update :
    (t : Table) (h h' : ℕ) (n : Node)
    → ((k : ℕ) → Each (Placed t k) (t.slot k))
    → Placed t h n
    → Each (Placed t h') (update t.slot h (n ∷ t.slot h) h')
unfolding update
Each-update t h h' n e p = elim (Bool-cases (h' == h)) [
  | inl same ↦
      rw same
        (subst (λ (k : ℕ). Each (Placed t k) (n ∷ t.slot h)) (sym ((==_iff h' h).0 same)) (p, e h))
  | inr other ↦ rw other (e h')
]

prepend-IsValid :
    (t : Table) (h : ℕ) (n : Node) → IsValid t → Placed t h n → IsValid (prepend t h n)
unfolding prepend update
prepend-IsValid t h n v p = record {
  placed = λ h'. Each-update t h h' n v.placed p;
  counted = λ h'. ground (arith, v.counted h', v.counted h);
  bounded = λ h'. ground (arith, v.bounded h');
}

insert-Good :
    (t : Table) (token key_addr val_addr : ℕ)
    → IsValid t
    → token < t.next_token
    → Good (insert (some t) (some token) key_addr val_addr).0
unfolding insert
insert-Good t token key_addr val_addr v lt =
    elim (Bool-cases
      (is_obj key_addr && is_reloc val_addr || is_reloc key_addr && is_obj val_addr)) [
        | inl fits ↦ rw fits (prepend-IsValid t _ _ v (refl, lt))
        | inr bad ↦ rw bad v
      ]

map_addr-Good :
    (t : Table) (token rel_addr obj_addr : ℕ)
    → IsValid t
    → token < t.next_token
    → Good (map_addr (some t) (some token) rel_addr obj_addr).0
unfolding mapped prepend
map_addr-Good t token rel_addr obj_addr v lt =
    elim (Bool-cases (is_reloc rel_addr && is_obj obj_addr)) [
      | inl fits ↦
          rw (map_addr_runs t token rel_addr obj_addr (ground arith) (ground arith))
            (prepend-IsValid _ _ _ (prepend-IsValid t _ _ v (refl, lt)) (refl, lt))
      | inr bad ↦ rw (map_addr_refuses (some t) (some token) rel_addr obj_addr bad) v
    ]

new-Good : (room : Bool) (old : Option Table) → Good old → Good (new room old)
unfolding new
new-Good true none g = fresh-IsValid
new-Good false none g = tt
new-Good room (some t) g = elim (Bool-cases (ltb max_chain t.max_chain_size)) [
  | inl full ↦ rw full (new_again room)
  | inr roomy ↦ rw roomy (record { placed = g.placed; counted = g.counted; bounded = g.bounded })
]
  where
    new_again : (room : Bool) → Good (if room then some fresh else none)
    new_again true = fresh-IsValid
    new_again false = tt

free-Good : (t : Option Table) → Good t → Good (free t)
unfolding free
free-Good none g = tt
free-Good (some t) g = elim (Bool-cases ((t.users + 2 ^ 32 - 1) % 2 ^ 32 == 0)) [
  | inl last ↦ rw last tt
  | inr used ↦ rw used (record { placed = g.placed; counted = g.counted; bounded = g.bounded })
]

Each-token :
    (t : Table) (h : ℕ) (ns : List Node)
    → t.next_token + 1 < 2 ^ 32
    → Each (Placed t h) ns
    → Each (Placed (get_token t).1 h) ns
unfolding get_token
Each-token t h ns small e = Each-mono ns (λ n p. (p.0, omega arith)) e

get_token-IsValid : (t : Table) → t.next_token + 1 < 2 ^ 32 → IsValid t → IsValid (get_token t).1
unfolding get_token
get_token-IsValid t small v = record {
  placed = λ h. Each-token t h (t.slot h) small (v.placed h);
  counted = v.counted;
  bounded = v.bounded;
}

-- The calls that stores make, with the tokens that the table has given out to them so far: a store
-- enters addresses under a token that was given out, and the table is asked for fewer than 2^32
-- tokens.
pub data Step : Option Table → List ℕ → Option Table → List ℕ → Type 0 where
  opens :
      (room : Bool) (old : Option Table) (tokens : List ℕ)
      → Step old tokens (new room old) (kept old tokens)
  closes : (t : Option Table) (tokens : List ℕ) → Step t tokens (free t) (left (free t) tokens)
  inserts :
      (t : Table) (tokens : List ℕ) (token key_addr val_addr : ℕ)
      → has token tokens ≡ true
      → Step (some t) tokens (insert (some t) (some token) key_addr val_addr).0 tokens
  maps :
      (t : Table) (tokens : List ℕ) (token rel_addr obj_addr : ℕ)
      → has token tokens ≡ true
      → Step (some t) tokens (map_addr (some t) (some token) rel_addr obj_addr).0 tokens
  asks :
      (t : Table) (tokens : List ℕ)
      → t.next_token + 1 < 2 ^ 32
      → Step (some t) tokens (some (get_token t).1) ((get_token t).0 ∷ tokens)

pub data Reach : Option Table → List ℕ → Type 0 where
  here : Reach none []
  next :
      {t u : Option Table} {tokens tokens' : List ℕ}
      → Reach t tokens
      → Step t tokens u tokens'
      → Reach u tokens'

Step-Good :
    {t u : Option Table} {tokens tokens' : List ℕ}
    → Step t tokens u tokens'
    → Good t
    → GaveOut t tokens
    → Good u × GaveOut u tokens'
Step-Good (opens room old tokens) v g = (new-Good room old v, new-GaveOut room old tokens g)
Step-Good (closes t tokens) v g = (free-Good t v, free-GaveOut t tokens g)
Step-Good (inserts t tokens token key_addr val_addr own) v g = (
  insert-Good t token key_addr val_addr v ((g.0 token).0 own),
  insert-GaveOut t tokens (some token) key_addr val_addr g,
)
Step-Good (maps t tokens token rel_addr obj_addr own) v g = (
  map_addr-Good t token rel_addr obj_addr v ((g.0 token).0 own),
  map_addr-GaveOut t tokens token rel_addr obj_addr g,
)
Step-Good (asks t tokens small) v g =
    (get_token-IsValid t small v, get_token-GaveOut t tokens small g)

-- From no table at all, after any sequence of calls, each on the table that the call before it left,
-- in which addresses are entered under tokens that this table gave out, and a table is asked for
-- fewer than 2^32 tokens, the table is valid:
-- nodes stand in the slots of their keys under tokens below the next one, and the counters are the
-- lengths of the chains modulo 2^32, with none above the maximum. The tokens that the table gave out
-- are all numbers below the next one, each of them once.
pub Reach-Good : {t : Option Table} {tokens : List ℕ} → Reach t tokens → Good t × GaveOut t tokens
Reach-Good here = (tt, tt)
Reach-Good (next r s) = let (v, g) = Reach-Good r in Step-Good s v g

-- A user more and a user less leave the table as it was, if its chains are short enough to share
-- it and the count of users does not overflow; with longer chains the caller has a table of its own.
pub free-new :
    (t : Table)
    → 0 < t.users
    → t.users + 1 < 2 ^ 32
    → free (new true (some t)) ≡ (if ltb max_chain t.max_chain_size then none else some t)
unfolding free new
free-new t pos small = elim (Bool-cases (ltb max_chain t.max_chain_size)) [
  | inl full ↦ rw full refl
  | inr roomy ↦
      let e : ((t.users + 1) % 2 ^ 32 + 2 ^ 32 - 1) % 2 ^ 32 ≡ t.users = omega arith in
      let used : (t.users == 0) ≡ false = ground arith in rw roomy (rw e (rw used refl))
]

find-absent :
    (ns : List Node) (t : Table) (h addr : ℕ)
    → Each (Placed t h) ns
    → find ns t.next_token addr ≡ addr_null
unfolding find
find-absent [] t h addr e = refl
find-absent (n ∷ ns) t h addr e = ground (arith, find-absent ns t h addr e.1, e.0.1)

-- In a valid table a store that asks for a token finds nothing under it, whatever the other stores entered.
pub query_fresh_token :
    (t : Table) (addr : ℕ)
    → IsValid t
    → let (token, t') = get_token t in query (some t') token addr ≡ addr_null
unfolding get_token query
query_fresh_token t addr v = find-absent (t.slot _) t _ addr (v.placed _)
