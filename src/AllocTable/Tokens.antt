-- ===== src/AllocTable/Tokens.antt =====
-- The tokens that an allocation table gives out, over its operations.
use adam.Base.{
  ℕ, ◌+◌, ◌-◌, ◌%◌, ◌^◌, ◌<◌, Bool, true, false, ◌≡◌, Option, none, some, List, [], ◌∷◌, arith,
  ◌&&◌, ◌||◌, ◌==◌, ltb, if◌then◌else◌, ◌↔◌, has, Distinct, Bool-cases, inl, inr,
}
use adam.Address.{is_obj, is_reloc}
use adam.AllocTable.Lookup.{mapped, map_addr_runs, map_addr_refuses}
use adam.AllocTable.{Table, fresh, new, free, prepend, insert, map_addr, get_token, max_chain}

-- The tokens that the table gave out, of which none are left when it makes room for a new one or is
-- freed.
abbrev pub kept : Option Table → List ℕ → List ℕ
kept none tokens = []
kept (some t) tokens = if ltb max_chain t.max_chain_size then [] else tokens

abbrev pub left : Option Table → List ℕ → List ℕ
left none tokens = []
left (some t) tokens = tokens

-- The tokens are all numbers below `n`, each of them once.
abbrev pub Tokens : ℕ → List ℕ → Type 0
Tokens n tokens = ((x : ℕ) → (has x tokens ≡ true) ↔ (x < n)) × Distinct tokens

-- The tokens that a table gave out are those below the next one.
abbrev pub GaveOut : Option Table → List ℕ → Type 0
GaveOut none tokens = Unit {0}
GaveOut (some t) tokens = Tokens t.next_token tokens

Tokens-nil : Tokens 0 []
Tokens-nil = (λ x. (λ h. absurd (ground (arith, h)), λ lt. absurd (omega arith)), tt)

pub new-GaveOut :
    (room : Bool) (old : Option Table) (tokens : List ℕ)
    → GaveOut old tokens
    → GaveOut (new room old) (kept old tokens)
unfolding new
new-GaveOut true none tokens g = Tokens-nil
new-GaveOut false none tokens g = tt
new-GaveOut room (some t) tokens g = elim (Bool-cases (ltb max_chain t.max_chain_size)) [
  | inl full ↦ rw full (new_again room)
  | inr roomy ↦ rw roomy g
]
  where
    new_again : (room : Bool) → GaveOut (if room then some fresh else none) []
    new_again true = Tokens-nil
    new_again false = tt

pub free-GaveOut :
    (t : Option Table) (tokens : List ℕ)
    → GaveOut t tokens
    → GaveOut (free t) (left (free t) tokens)
unfolding free
free-GaveOut none tokens g = tt
free-GaveOut (some t) tokens g = elim (Bool-cases ((t.users + 2 ^ 32 - 1) % 2 ^ 32 == 0)) [
  | inl last ↦ rw last tt
  | inr used ↦ rw used g
]

pub insert-GaveOut :
    (t : Table) (tokens : List ℕ) (store : Option ℕ) (key_addr val_addr : ℕ)
    → Tokens t.next_token tokens
    → GaveOut (insert (some t) store key_addr val_addr).0 tokens
unfolding insert prepend
insert-GaveOut t tokens none key_addr val_addr g = g
insert-GaveOut t tokens (some token) key_addr val_addr g =
    elim (Bool-cases
      (is_obj key_addr && is_reloc val_addr || is_reloc key_addr && is_obj val_addr)) [
        | inl fits ↦ rw fits g
        | inr bad ↦ rw bad g
      ]

pub map_addr-GaveOut :
    (t : Table) (tokens : List ℕ) (token rel_addr obj_addr : ℕ)
    → Tokens t.next_token tokens
    → GaveOut (map_addr (some t) (some token) rel_addr obj_addr).0 tokens
unfolding mapped prepend
map_addr-GaveOut t tokens token rel_addr obj_addr g =
    elim (Bool-cases (is_reloc rel_addr && is_obj obj_addr)) [
      | inl fits ↦ rw (map_addr_runs t token rel_addr obj_addr (ground arith) (ground arith)) g
      | inr bad ↦ rw (map_addr_refuses (some t) (some token) rel_addr obj_addr bad) g
    ]

Tokens-next : (n : ℕ) (tokens : List ℕ) → Tokens n tokens → Tokens (n + 1) (n ∷ tokens)
Tokens-next n tokens (all, d) = (
  λ x. elim (Bool-cases (n == x)) [
    | inl same ↦ (λ h. ground (arith, same), λ lt. ground (arith, same))
    | inr other ↦ (
      λ h. let below : x < n = (all x).0 (ground (arith, other, h)) in omega arith,
      λ lt. let below : x < n = ground (arith, other, lt) in ground (arith, other, (all x).1 below),
    )
  ],
  (
    elim (Bool-cases (has n tokens)) [
      | inl old ↦ let below = (all n).0 old in absurd (omega arith)
      | inr unused ↦ unused
    ],
    d,
  ),
)

pub get_token-GaveOut :
    (t : Table) (tokens : List ℕ)
    → t.next_token + 1 < 2 ^ 32
    → Tokens t.next_token tokens
    → Tokens (get_token t).1.next_token ((get_token t).0 ∷ tokens)
unfolding get_token
get_token-GaveOut t tokens small g =
    let e : (t.next_token + 1) % 2 ^ 32 ≡ t.next_token + 1 = omega arith in
    rw e (Tokens-next t.next_token tokens g)
