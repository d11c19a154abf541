-- ===== src/Lru/Cache.antt =====
-- types/lru/cache.go: the cache. The list `order` holds the items themselves, and the map `items`
-- the values by their keys; an element's place is found by its key.
use carrier.Prelude.{
  ℕ, List, [], ◌∷◌, Option, none, some, Bytes, bytes_eq, ◌==◌, if◌then◌else◌, length, leb,
}
use carrier.Prelude.Table.{load, store, delete}
use carrier.Outcome.{Outcome, ok, panic}

pub record Cache (V : Type 0) : Type 0 where
  pub order : List Bytes
  pub items : List (Bytes × V)
  pub limit : ℕ

-- `MoveToFront`
unfoldable pub take_out : Bytes → List Bytes → List Bytes
take_out key [] = []
take_out key (k ∷ ks) = if k == key then ks else k ∷ take_out key ks

unfoldable pub move_to_front : Bytes → List Bytes → List Bytes
unfolding take_out
move_to_front key ks = key ∷ take_out key ks

-- `Remove(Back())`: the last element and what stands before it. The back of an empty list is
-- nil, which `Remove` dereferences.
unfoldable pub pop_back : List Bytes → Option (Bytes × List Bytes)
pop_back [] = none
pop_back (k ∷ []) = some (k, [])
pop_back (k ∷ j ∷ ks) = elim (pop_back (j ∷ ks)) [
  | none ↦ none
  | some (back, front) ↦ some (back, k ∷ front)
]

module _ {V : Type 0} where
  -- `NewCache`
  unfoldable pub new_cache : ℕ → Cache V
  new_cache limit = record { order = []; items = []; limit = limit }

  -- What is left of the cache after the eviction.
  unfoldable pub evict : Cache V → Outcome (Cache V)
  unfolding pop_back
  evict c =
      if leb c.limit (length c.order)
      then elim (pop_back c.order) [
        | none ↦ panic
        | some (back, front) ↦ ok (record c { order = front; items = delete back c.items })
      ]
      else ok c

  -- `Get`: `init` runs only for a key that is missing, after the eviction; `none` is its error.
  unfoldable pub get : Bytes → Option V → Cache V → Outcome (Option V × Cache V)
  unfolding move_to_front evict
  get key init c = elim (load key c.items) [
    | some v ↦ ok (some v, record c { order = move_to_front key c.order })
    | none ↦ elim (evict c) [
      | panic ↦ panic
      | ok e ↦ elim init [
        | none ↦ ok (none, e)
        | some v ↦ ok (some v, record e { order = key ∷ e.order; items = store key v e.items })
      ]
    ]
  ]
