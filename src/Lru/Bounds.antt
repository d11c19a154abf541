-- ===== src/Lru/Bounds.antt =====
-- types/lru/cache.go: the size of the cache, and which keys stay in it.
use carrier.Prelude.{
  suc, ◌≤◌, ◌≡◌, ◌≢◌, refl, subst, arith, Bool, true, false, List, [], ◌∷◌, Option, none, some,
  Bytes, bytes_eq, bytes_beq_iff, ◌==◌, beq_refl, if◌then◌else◌, length, leb, Bool-cases,
  Option-cases, inl, inr,
}
use carrier.Prelude.Table.{
  load, store, delete, has, has-store, has-delete, has_of_load, has_of_none, load-store_self,
}
use carrier.Outcome.{ok}
use carrier.Lru.Cache.{Cache, take_out, move_to_front, pop_back, evict, get}

-- Whether a key stands in the order.
unfoldable pub listed : Bytes → List Bytes → Bool
listed key [] = false
listed key (k ∷ ks) = if k == key then true else listed key ks

abbrev pub IsUnique : List Bytes → Type 0
IsUnique [] = Unit
IsUnique (k ∷ ks) = (listed k ks ≡ false) × IsUnique ks

-- The order lists each key of the map once, and no other; and there are at most `limit` of them.
abbrev pub IsCache : {V : Type 0} → Cache V → Type 0
IsCache c =
    IsUnique c.order × ((k : Bytes) → has k c.items ≡ listed k c.order) × (length c.order ≤ c.limit)

listed-take_out_ne :
    (key j : Bytes) (ks : List Bytes) → key ≢ j → listed j (take_out key ks) ≡ listed j ks
unfolding listed take_out
listed-take_out_ne key j [] ne = refl
listed-take_out_ne key j (k ∷ ks) ne =
    ground (arith, listed-take_out_ne key j ks ne, bytes_beq_iff k key, bytes_beq_iff k j)

take_out-IsUnique :
    (key : Bytes) (ks : List Bytes)
    → IsUnique ks
    → IsUnique (take_out key ks) × (listed key (take_out key ks) ≡ false)
unfolding listed take_out
take_out-IsUnique key [] u = (u, refl)
take_out-IsUnique key (k ∷ ks) u = ground (
  arith,
  take_out-IsUnique key ks u.1,
  listed-take_out_ne key k ks,
  bytes_beq_iff k key,
  bytes_beq_iff key k,
)

listed-front :
    (key j : Bytes) (ks : List Bytes)
    → listed key ks ≡ true
    → listed j (key ∷ take_out key ks) ≡ listed j ks
unfolding listed take_out
listed-front key j ks there = elim (Bool-cases (key == j)) [
  | inl same ↦ ground (arith, bytes_beq_iff key j)
  | inr other ↦ ground (arith, listed-take_out_ne key j ks, bytes_beq_iff key j)
]

length-take_out :
    (key : Bytes) (ks : List Bytes)
    → listed key ks ≡ true
    → suc (length (take_out key ks)) ≡ length ks
unfolding listed take_out
length-take_out key [] h = ground arith
length-take_out key (k ∷ ks) h = ground (arith, length-take_out key ks)

-- The last of a list that is not empty, and the rest, which is one shorter and lists all else.
pop_back-some :
    (k : Bytes) (ks : List Bytes)
    → IsUnique (k ∷ ks)
    → (back : Bytes) × (front : List Bytes) × (pop_back (k ∷ ks) ≡ some (back, front))
      × (suc (length front) ≡ length (k ∷ ks))
      × IsUnique front
      × (listed back (k ∷ ks) ≡ true)
      × ((j : Bytes) → listed j front ≡ (if back == j then false else listed j (k ∷ ks)))
unfolding pop_back listed
pop_back-some k [] u = (k, [], refl, refl, tt, ground (arith, beq_refl k), λ j. ground arith)
pop_back-some k (i ∷ ks) u =
    let (back, front, popped, shorter, unique, found, same) = pop_back-some i ks u.1 in
    (
      back,
      k ∷ front,
      ground arith,
      ground arith,
      (ground (arith, same k, u), unique),
      ground arith,
      λ j. ground (arith, same j, found, u, bytes_beq_iff k j, bytes_beq_iff back j),
    )

module _ {V : Type 0} where
  evict-IsCache :
      (key : Bytes) (c : Cache V)
      → 1 ≤ c.limit
      → IsCache c
      → (e : Cache V) × (evict c ≡ ok e)
        × IsCache e
        × (suc (length e.order) ≤ e.limit)
        × (has key c.items ≡ false → has key e.items ≡ false)
        × (e.limit ≡ c.limit)
  unfolding evict
  evict-IsCache key c positive h = elim (Bool-cases (leb c.limit (length c.order))) [
    | inl full ↦ go c.order refl full
    | inr room ↦ (c, ground arith, h, ground arith, λ e. e, refl)
  ]
    where
      go :
          (ks : List Bytes)
          → c.order ≡ ks
          → leb c.limit (length c.order) ≡ true
          → (e : Cache V) × (evict c ≡ ok e)
            × IsCache e
            × (suc (length e.order) ≤ e.limit)
            × (has key c.items ≡ false → has key e.items ≡ false)
            × (e.limit ≡ c.limit)
      go [] empty full = absurd (ground arith)
      go (k ∷ ks) shape full =
          let (back, front, popped, shorter, unique, found, same) =
            pop_back-some k ks (subst IsUnique shape h.0) in
          (
            record c { order = front; items = delete back c.items },
            ground arith,
            (unique, λ j. ground (arith, h.1 j, same j, has-delete back j c.items), ground arith),
            ground arith,
            λ e. ground (arith, has-delete back key c.items),
            refl,
          )

  -- `Get` keeps the order and the map of a cache of at least one place in agreement and within the
  -- limit, and never panics. It returns the cached value, or else what `init` returns; and if that
  -- is a value, the cache holds it under the key, which is the first in the order.
  pub get-IsCache :
      (key : Bytes) (init : Option V) (c : Cache V)
      → 1 ≤ c.limit
      → IsCache c
      → (r : Option V) × (c' : Cache V) × (get key init c ≡ ok (r, c'))
        × IsCache c'
        × (r ≡ (elim (load key c.items) [ none ↦ init | some v ↦ some v ]))
        × ((v : V)
            → r ≡ some v
            → (load key c'.items ≡ some v) × (rest : List Bytes) × (c'.order ≡ key ∷ rest))
  unfolding get move_to_front listed
  get-IsCache key init c positive h = elim (Option-cases (load key c.items)) [
    | inr (v, hit) ↦
        let there : listed key c.order ≡ true =
          ground (arith, h.1 key, has_of_load key c.items hit) in
        let (unique, out) = take_out-IsUnique key c.order h.0 in
        (
          some v,
          record c { order = key ∷ take_out key c.order },
          ground arith,
          (
            (out, unique),
            λ k. ground (arith, h.1 k, listed-front key k c.order there),
            ground (arith, length-take_out key c.order there, h.2),
          ),
          ground arith,
          λ w e. (ground arith, take_out key c.order, refl),
        )
    | inl miss ↦
        let (e, done, good, room, missing, limit) = evict-IsCache key c positive h in
        let absent = missing (has_of_none key c.items miss) in
        insert init e done good room absent miss
  ]
    where
      insert :
          (i : Option V) (e : Cache V)
          → evict c ≡ ok e
          → IsCache e
          → suc (length e.order) ≤ e.limit
          → has key e.items ≡ false
          → load key c.items ≡ none
          → (r : Option V) × (c' : Cache V) × (get key i c ≡ ok (r, c'))
            × IsCache c'
            × (r ≡ (elim (load key c.items) [ none ↦ i | some v ↦ some v ]))
            × ((v : V)
                → r ≡ some v
                → (load key c'.items ≡ some v) × (rest : List Bytes) × (c'.order ≡ key ∷ rest))
      insert none e done good room absent miss =
          (none, e, ground arith, good, ground arith, λ v impossible. absurd (ground arith))
      insert (some v) e done good room absent miss = (
        some v,
        record e { order = key ∷ e.order; items = store key v e.items },
        ground arith,
        (
          (ground (arith, good.1 key, absent), good.0),
          λ k. ground (arith, good.1 k, has-store key k v e.items),
          room,
        ),
        ground arith,
        λ w same. (ground (arith, load-store_self key v e.items), e.order, refl),
      )
