-- ===== src/Tests/Registries.antt =====
-- types/lru, network/component_list.go and types/opcode on small inputs.
use carrier.Prelude.{
  ℕ, ◌≡◌, refl, arith, nat_eq, bytes_eq, Bool, true, false, List, [], ◌∷◌, Option, some, Bytes,
}
use carrier.Prelude.Table.{load, store, delete, has}
use carrier.Outcome.{ok}
use carrier.Lru.Cache.{Cache, get}
use carrier.Lru.Bounds.{IsCache, listed, get-IsCache}
use carrier.Components.ComponentList.{ComponentList}
use carrier.Components.Registry.{IsRegistry, first_of}

-- A full cache of two keys, the second the least recently used.
abbrev full_cache : Cache ℕ
full_cache = record {
  order = (1 ∷ []) ∷ (2 ∷ []) ∷ [];
  items = ((1 ∷ []), 10) ∷ ((2 ∷ []), 20) ∷ [];
  limit = 2;
}

full_cache-IsCache : IsCache full_cache
unfolding listed load has
full_cache-IsCache = ((refl, (refl, tt)), λ k. ground arith, ground arith)

get_evicts :
    get (3 ∷ []) (some 30) full_cache
    ≡ ok (
      some 30,
      record full_cache {
        order = (3 ∷ []) ∷ (1 ∷ []) ∷ [];
        items = ((1 ∷ []), 10) ∷ ((3 ∷ []), 30) ∷ [];
      },
    )
unfolding get load store delete
get_evicts = refl

get-IsCache_example :
    (r : Option ℕ) × (c' : Cache ℕ) × (get (3 ∷ []) (some 30) full_cache ≡ ok (r, c'))
    × IsCache c'
    × (r ≡ some 30)
    × ((v : ℕ)
        → r ≡ some v
        → (load (3 ∷ []) c'.items ≡ some v) × (rest : List Bytes) × (c'.order ≡ (3 ∷ []) ∷ rest))
unfolding load
get-IsCache_example = get-IsCache (3 ∷ []) (some 30) full_cache (ground arith) full_cache-IsCache

-- Two components, of the types 7 and 8.
abbrev two_components : ComponentList Bool
two_components = record {
  keys =
      (7, record { priority = 5; ty = 7; component = true })
      ∷ (8, record { priority = 1; ty = 8; component = false })
      ∷ [];
  values =
      record { priority = 5; ty = 7; component = true }
      ∷ record { priority = 1; ty = 8; component = false }
      ∷ [];
}

two_components-IsRegistry : IsRegistry two_components
unfolding first_of load
two_components-IsRegistry = ((refl, (refl, tt)), λ ty. ground arith)
