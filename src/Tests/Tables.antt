-- ===== src/Tests/Tables.antt =====
-- The allocation table with two stores.
use adam.Base.{
  ℕ, Bool, true, ◌≡◌, refl, Option, none, some, [], ◌∷◌, ◌&&◌, ◌==◌, if◌then◌else◌, arith,
}
use adam.Address.{is_obj, is_reloc}
use adam.AllocTable.{Table, fresh, new, hashcode, insert, query, map_addr, get_token}
use adam.AllocTable.Lookup.{query-map_addr}
use adam.AllocTable.Tokens.{GaveOut}
use adam.AllocTable.Sharing.{Good, Reach, here, next, opens, maps, asks, Reach-Good}

abbrev one_map : Option Table × Bool
one_map = map_addr (some fresh) (some 0) 0xff000007 3

query_both : query one_map.0 0 0xff000007 ≡ 3
unfolding query map_addr insert hashcode is_obj is_reloc
query_both = refl

query-map_addr_example :
    let (table', done) = map_addr (some fresh) (some 0) 0xff000007 3 in
    (done ≡ true)
    × ((t addr : ℕ)
        → query table' t addr ≡ (
            if (0 == t) && (3 == addr)
            then 0xff000007
            else if (0 == t) && (0xff000007 == addr)
            then 3
            else query (some fresh) t addr))
unfolding is_obj is_reloc
query-map_addr_example = query-map_addr fresh 0 0xff000007 3 refl refl

abbrev asked : Table
asked = (get_token fresh).1

opened : Reach (some fresh) []
unfolding new
opened = next here (opens true none [])

one_token : Reach (some asked) (0 ∷ [])
unfolding get_token
one_token = next opened (asks fresh [] (omega arith))

one_mapping : Reach (map_addr (some asked) (some 0) 0xff000007 3).0 (0 ∷ [])
one_mapping = next one_token (maps asked (0 ∷ []) 0 0xff000007 3 refl)

Reach-Good_example :
    Good (map_addr (some asked) (some 0) 0xff000007 3).0
    × GaveOut (map_addr (some asked) (some 0) 0xff000007 3).0 (0 ∷ [])
Reach-Good_example = Reach-Good one_mapping
