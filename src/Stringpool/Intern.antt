-- ===== src/Stringpool/Intern.antt =====
-- src/stringpool.c: the hash table, and the addresses of pooled strings.
use adam.Base.{
  ℕ, zero, suc, ◌%◌, Bool, true, false, ◌&&◌, ◌||◌, Option, none, some, List, [], ◌∷◌, ◌==◌,
  if◌then◌else◌, length,
}
use adam.Stringpool.{Str, Hash, hash_func, byte_at, Accumulator, accumulator_hash}

-- `str` and the string that it points to.
pub record HashNode : Type 0 where
  pub hash : Hash
  pub address : ℕ
  pub str : Str

-- `_stringpool_hash` and `_stringpool_size`.
pub record Pool : Type 0 where
  pub size : ℕ
  pub chains : ℕ → List HashNode

abbrev pub take : ℕ → Str → Str
take zero s = []
take (suc n) [] = []
take (suc n) (d ∷ ds) = d ∷ take n ds

-- `strncmp(a, b, n) == 0`
abbrev pub strncmp_equal : ℕ → Str → Str → Bool
strncmp_equal zero a b = true
strncmp_equal (suc n) [] [] = true
strncmp_equal (suc n) [] (y ∷ ys) = false
strncmp_equal (suc n) (x ∷ xs) [] = false
strncmp_equal (suc n) (x ∷ xs) (y ∷ ys) = (x == y) && strncmp_equal n xs ys

abbrev pub hash_equal : Hash → Hash → Bool
hash_equal g h =
    (g.murmur == h.murmur) && (g.sum == h.sum) && (g.square == h.square) && (g.elf == h.elf)

unfoldable pub matches : Hash → ℕ → Str → HashNode → Bool
unfolding byte_at
matches h len str e = hash_equal e.hash h && strncmp_equal len e.str str && (byte_at e.str len == 0)

unfoldable pub look_up : Hash → ℕ → Str → List HashNode → Option ℕ
look_up h len str [] = none
look_up h len str (e ∷ es) =
    let rest = look_up h len str es in if matches h len str e then some e.address else rest

unfoldable pub add_node : ℕ → HashNode → Pool → Pool
add_node idx e pool = record pool {
  chains = λ i. if i == idx then e ∷ pool.chains i else pool.chains i;
}

-- What `malloc` returns for the node and for the string; NULL makes the query fail.
unfoldable pub add_string : ℕ → ℕ → Hash → ℕ → Str → Pool → Option (ℕ × Pool)
add_string node fresh h len str pool =
    if (node == 0) || (fresh == 0)
    then none
    else some (
      fresh,
      add_node (h.murmur % pool.size) (record { hash = h; address = fresh; str = take len str })
          pool,
    )

unfoldable pub query_imp : ℕ → ℕ → Hash → ℕ → Str → Pool → Option (ℕ × Pool)
query_imp node fresh h len str pool =
    elim (look_up h len str (pool.chains (h.murmur % pool.size))) [
      | some a ↦ some (a, pool)
      | none ↦ add_string node fresh h len str pool
    ]

unfoldable pub query : ℕ → ℕ → Str → Pool → Option (ℕ × Pool)
query node fresh str pool = query_imp node fresh (hash_func str) (length str) str pool

unfoldable pub accumulator_query : ℕ → ℕ → Accumulator → Pool → Option (ℕ × Pool)
accumulator_query node fresh acc pool =
    query_imp node fresh (accumulator_hash acc) acc.count acc.begin pool

-- `none` for the pool: it is not initialised. The result says whether the call succeeds, given
-- whether `malloc` does.
unfoldable pub pool_init : Bool → ℕ → Option Pool → Bool × Option Pool
pool_init alloc size (some pool) = (false, some pool)
pool_init false size none = (false, none)
pool_init true size none = (true, some (record { size = size; chains = λ i. [] }))
