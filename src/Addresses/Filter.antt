-- ===== src/Addresses/Filter.antt =====
-- network/utils.go: `FilterPeers`.
use carrier.Prelude.{
  ◌≡◌, ◌⊎◌, refl, arith, true, false, List, [], ◌∷◌, none, some, inl, inr, Bytes, bytes_beq_iff,
  Option-cases, Bool-cases,
}
use carrier.Outcome.{Outcome, ok, panic}
use carrier.Dht.Routes.{seen}
use carrier.Lru.Cache.{Cache}
use carrier.Addresses.Unify.{Net, to_unified_address}
use carrier.Addresses.Cached.{IsCoherent, unified, to_unified_address-unified}

listed_self : (r q : Bytes) (rs : List Bytes) → r ≡ q → seen q (r ∷ rs) ≡ true
unfolding seen
listed_self r q rs e = ground (arith, bytes_beq_iff r q)

module _ (net : Net) where
  abbrev add_peer : Bytes → Outcome (List Bytes × Cache Bytes) → Outcome (List Bytes × Cache Bytes)
  add_peer r (ok (rs, c)) = ok (r ∷ rs, c)
  add_peer r panic = panic

  -- The loop, with the addresses visited.
  unfoldable pub filter_loop :
      List Bytes → List Bytes → Cache Bytes → Outcome (List Bytes × Cache Bytes)
  unfolding to_unified_address seen
  filter_loop visited [] c = ok ([], c)
  filter_loop visited ([] ∷ peers) c = filter_loop visited peers c
  filter_loop visited ((x ∷ xs) ∷ peers) c = elim (to_unified_address net (x ∷ xs) c) [
    | panic ↦ panic
    | ok (none, c') ↦ filter_loop visited peers c'
    | ok (some r, c') ↦ elim (seen r visited) [
      | true ↦ filter_loop visited peers c'
      | false ↦ add_peer r (filter_loop (r ∷ visited) peers c')
    ]
  ]

  unfoldable pub filter_peers :
      Bytes → List Bytes → Cache Bytes → Outcome (List Bytes × Cache Bytes)
  unfolding filter_loop
  filter_peers address peers c = filter_loop (address ∷ []) peers c

  -- No address of a list was visited, or comes twice.
  abbrev pub IsFresh : List Bytes → List Bytes → Type 0
  IsFresh visited [] = Unit
  IsFresh visited (r ∷ rs) = (seen r visited ≡ false) × IsFresh (r ∷ visited) rs

  -- Every peer that is not empty has no unified address, or one that is visited or listed.
  abbrev pub Covers : List Bytes → List Bytes → List Bytes → Type 0
  Covers visited [] rs = Unit
  Covers visited ([] ∷ peers) rs = Covers visited peers rs
  Covers visited ((x ∷ xs) ∷ peers) rs =
      ((unified net (x ∷ xs) ≡ none)
        ⊎ ((r : Bytes) × (unified net (x ∷ xs) ≡ some r)
            × ((seen r visited ≡ true) ⊎ (seen r rs ≡ true))))
      × Covers visited peers rs

  abbrev IsFiltered : List Bytes → List Bytes → Outcome (List Bytes × Cache Bytes) → Type 0
  IsFiltered visited peers o =
      (rs : List Bytes) × (c' : Cache Bytes) × (o ≡ ok (rs, c'))
      × IsCoherent net c'
      × IsFresh visited rs
      × Covers visited peers rs

  -- A peer whose address was visited before the list, or stands in it.
  Covers-cons :
      (visited peers rs : List Bytes) (r : Bytes)
      → Covers (r ∷ visited) peers rs
      → Covers visited peers (r ∷ rs)
  unfolding seen
  Covers-cons visited [] rs r h = tt
  Covers-cons visited ([] ∷ peers) rs r h = Covers-cons visited peers rs r h
  Covers-cons visited ((x ∷ xs) ∷ peers) rs r h = (here h.0, Covers-cons visited peers rs r h.1)
    where
      here :
          (unified net (x ∷ xs) ≡ none)
            ⊎ ((q : Bytes) × (unified net (x ∷ xs) ≡ some q)
                × ((seen q (r ∷ visited) ≡ true) ⊎ (seen q rs ≡ true)))
          → (unified net (x ∷ xs) ≡ none)
            ⊎ ((q : Bytes) × (unified net (x ∷ xs) ≡ some q)
                × ((seen q visited ≡ true) ⊎ (seen q (r ∷ rs) ≡ true)))
      here (inl bad) = inl bad
      here (inr (q, good, place)) = inr (q, good, ground arith)

  filter_loop-IsFiltered :
      (visited peers : List Bytes) (c : Cache Bytes)
      → IsCoherent net c
      → IsFiltered visited peers (filter_loop visited peers c)
  unfolding filter_loop
  filter_loop-IsFiltered visited [] c v = ([], c, refl, v, tt, tt)
  filter_loop-IsFiltered visited ([] ∷ peers) c v =
      let (rs, c', e, v', fresh, covers) = filter_loop-IsFiltered visited peers c v in
      (rs, c', e, v', fresh, covers)
  filter_loop-IsFiltered visited ((x ∷ xs) ∷ peers) c v =
      let (c1, e1, v1) = to_unified_address-unified net (x ∷ xs) c v in
      elim (Option-cases (unified net (x ∷ xs))) [
        | inl bad ↦
            let (rs, c', e, v', fresh, covers) = filter_loop-IsFiltered visited peers c1 v1 in
            (rs, c', ground arith, v', fresh, (inl bad, covers))
        | inr (r, good) ↦ elim (Bool-cases (seen r visited)) [
          | inl old ↦
              let (rs, c', e, v', fresh, covers) = filter_loop-IsFiltered visited peers c1 v1 in
              (rs, c', ground arith, v', fresh, (inr (r, good, inl old), covers))
          | inr new ↦
              let (rs, c', e, v', fresh, covers) =
                filter_loop-IsFiltered (r ∷ visited) peers c1 v1 in
              (
                r ∷ rs,
                c',
                ground arith,
                v',
                (new, fresh),
                (
                  inr (r, good, inr (listed_self r r rs refl)),
                  Covers-cons visited peers rs r covers,
                ),
              )
        ]
      ]

  -- `FilterPeers` on a cache that is coherent with the lookups never panics; what it returns has no
  -- address twice, and not the given one, and holds the unified address of every peer that is
  -- not empty and has one, unless that is the given one.
  pub filter_peers_lem :
      (address : Bytes) (peers : List Bytes) (c : Cache Bytes)
      → IsCoherent net c
      → (rs : List Bytes) × (c' : Cache Bytes) × (filter_peers address peers c ≡ ok (rs, c'))
        × IsCoherent net c'
        × IsFresh (address ∷ []) rs
        × Covers (address ∷ []) peers rs
  unfolding filter_peers
  filter_peers_lem address peers c v = filter_loop-IsFiltered (address ∷ []) peers c v
