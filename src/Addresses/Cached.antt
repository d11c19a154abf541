-- ===== src/Addresses/Cached.antt =====
-- network/address.go: the cache of lookups does not change what they return.
use carrier.Prelude.{
  ℕ, ◌≤◌, ◌≡◌, ◌⊎◌, refl, ap, sym, ◌∙◌, arith, [], ◌∷◌, Option, none, some, inl, inr, Bytes,
  bytes_eq, Option-cases,
}
use carrier.Prelude.Table.{load, has, store, load-store_cases, load-delete}
use carrier.Outcome.{Outcome, ok, panic}
use carrier.Lru.Cache.{Cache, new_cache, get, pop_back, evict}
use carrier.Lru.Bounds.{IsCache, listed, get-IsCache}
use carrier.Addresses.Unify.{
  Net, parse_address, resolve_host, to_unified_host, to_unified_address, to_string,
}

module _ (net : Net) where
  -- A cache that holds something, and only what the lookup of its key returns.
  pub record IsCoherent (c : Cache Bytes) : Type 0 where
    pub cache : IsCache c
    pub room : 1 ≤ c.limit
    pub right :
        (host found : Bytes) → load host c.items ≡ some found → resolve_host net host ≡ some found

  -- `ToUnifiedAddress` without a cache.
  unfoldable pub unified : Bytes → Option Bytes
  unfolding parse_address resolve_host to_string
  unified address = elim (net.trim_space address) [
    | [] ↦ none
    | c ∷ cs ↦ elim (parse_address net (c ∷ cs)) [
      | none ↦ none
      | some info ↦ elim (resolve_host net info.host) [
        | none ↦ none
        | some host ↦ some (to_string (record info { host = host }))
      ]
    ]
  ]

  -- What an eviction leaves was there before.
  evict_right :
      (c e : Cache Bytes)
      → evict c ≡ ok e
      → (e.limit ≡ c.limit)
        × ((host found : Bytes) → load host e.items ≡ some found → load host c.items ≡ some found)
  unfolding evict
  evict_right c e h = elim (Option-cases (pop_back c.order)) [
    | inl none_left ↦ (ground arith, λ host found l. ground arith)
    | inr ((back, front), popped) ↦
        (ground arith, λ host found l. ground (arith, load-delete back host c.items))
  ]

  abbrev Grows : Bytes → Option Bytes → Cache Bytes → Cache Bytes → Type 0
  Grows host init c c' =
      (c'.limit ≡ c.limit)
      × ((j found : Bytes)
          → load j c'.items ≡ some found
          → (load j c.items ≡ some found) ⊎ ((host ≡ j) × (init ≡ some found)))

  get-Grows :
      (host : Bytes) (init : Option Bytes) (c : Cache Bytes) {r : Option Bytes} {c' : Cache Bytes}
      → get host init c ≡ ok (r, c')
      → Grows host init c c'
  unfolding get
  get-Grows host init c {r} {c'} h = elim (Option-cases (load host c.items)) [
    | inr (v, here) ↦ (ground arith, λ j found l. inl (ground arith))
    | inl missing ↦ go missing (evict c) refl init refl
  ]
    where
      go :
          load host c.items ≡ none
          → (o : Outcome (Cache Bytes)) → evict c ≡ o
          → (i : Option Bytes) → init ≡ i
          → Grows host init c c'
      go missing panic eq i same = ground arith
      go missing (ok e) eq none same =
          let (limit, kept) = evict_right c e eq in
          let last : e ≡ c' = ground arith in
          (
            ap (λ x. x.limit) (sym last) ∙ limit,
            λ j found l. inl (kept j found (ap (λ x. load j x.items) last ∙ l)),
          )
      go missing (ok e) eq (some v) same =
          let (limit, kept) = evict_right c e eq in
          let last : record e { order = host ∷ e.order; items = store host v e.items } ≡ c' =
            ground arith in
          (
            ap (λ x. x.limit) (sym last) ∙ limit,
            λ j found l.
                elim (load-store_cases host j v found e.items (ap (λ x. load j x.items) last ∙ l)) [
                  | inl (at, now) ↦ inr (at, same ∙ ap some now)
                  | inr (ne, old) ↦ inl (kept j found old)
                ],
          )

  get-IsCoherent :
      (host : Bytes) (c : Cache Bytes)
      → IsCoherent c
      → (c' : Cache Bytes) × (get host (resolve_host net host) c ≡ ok (resolve_host net host, c'))
        × IsCoherent c'
  unfolding get
  get-IsCoherent host c v =
      let (r, c', e, v', answer, kept) =
        get-IsCache host (resolve_host net host) c v.room v.cache in
      let (limit, grows) = get-Grows host (resolve_host net host) c e in
      let same : r ≡ resolve_host net host = elim (Option-cases (load host c.items)) [
        | inl missing ↦ ground arith
        | inr (found, here) ↦ ground (arith, v.right host found)
      ] in
      (
        c',
        e ∙ ap (λ x. ok (x, c')) same,
        record {
          cache = v';
          room = omega (arith, limit, v.room);
          right = λ j found l. elim (grows j found l) [
            | inl old ↦ v.right j found old
            | inr (at, now) ↦ ap (resolve_host net) (sym at) ∙ now
          ];
        },
      )

  -- On a cache that is coherent with the lookups, as long as these do not change, `ToUnifiedAddress`
  -- never panics, returns what it would return without the cache, and leaves a coherent cache.
  pub to_unified_address-unified :
      (address : Bytes) (c : Cache Bytes)
      → IsCoherent c
      → (c' : Cache Bytes) × (to_unified_address net address c ≡ ok (unified address, c'))
        × IsCoherent c'
  unfolding to_unified_address to_unified_host unified
  to_unified_address-unified address c v = go (net.trim_space address) refl
    where
      go :
          (trimmed : Bytes)
          → net.trim_space address ≡ trimmed
          → (c' : Cache Bytes) × (to_unified_address net address c ≡ ok (unified address, c'))
            × IsCoherent c'
      go [] eq = (c, ground arith, v)
      go (x ∷ xs) eq = elim (Option-cases (parse_address net (x ∷ xs))) [
        | inl bad ↦ (c, ground arith, v)
        | inr (info, parsed) ↦
            let (c', e, v') = get-IsCoherent info.host c v in
            (
              c',
              elim (Option-cases (resolve_host net info.host)) [
                | inl lost ↦ ground arith
                | inr (host, found) ↦ ground arith
              ],
              v',
            )
      ]

  -- The cache of the program starts empty, and is coherent.
  pub new_cache-IsCoherent : (limit : ℕ) → 1 ≤ limit → IsCoherent (new_cache limit)
  unfolding new_cache has load listed
  new_cache-IsCoherent limit room = record {
    cache = (tt, λ k. refl, omega arith);
    room = room;
    right = λ host found l. ground arith;
  }
