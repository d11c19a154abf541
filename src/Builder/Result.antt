-- ===== src/Builder/Result.antt =====
-- network/builder.go: what `Build` returns, and when.
use carrier.Prelude.{
  ◌≡◌, refl, ap, ◌∙◌, arith, Bool, ◌&&◌, [], ◌∷◌, Option, none, some, inl, inr, Bytes, Option-cases,
}
use carrier.Prelude.Sort.{IsSorted}
use carrier.Outcome.{Outcome, ok}
use carrier.Peer.Identity.{create_id}
use carrier.Lru.Cache.{Cache}
use carrier.Addresses.Unify.{Net}
use carrier.Addresses.Cached.{IsCoherent, unified, to_unified_address-unified}
use carrier.Components.ComponentList.{
  ComponentList, new_component_list, sort_by_priority, less_priority,
}
use carrier.Components.Registry.{sort_by_priority-IsSorted}
use carrier.Builder.Build.{
  Builder, no_key_pair, no_address, bad_address, bad_listen_addr, Built, network, refused,
  sorted_list, build,
}

module _ {C : Type 0} (net : Net) (hash : Bytes → Bytes) (files : Bool × Bool × Bool) where
  -- What an answer of `Build` says of the builder.
  abbrev pub Matches : Builder C → Built C → Type 0
  Matches b (network n) =
      (b.keys ≡ some n.keys)
      × (unified net b.address ≡ some n.address)
      × (unified net b.listen_addr ≡ some n.listen_addr)
      × (n.id ≡ create_id hash n.address n.keys)
      × IsSorted less_priority n.components.values
  Matches b (refused no_key_pair) = b.keys ≡ none
  Matches b (refused no_address) = b.address ≡ []
  Matches b (refused bad_address) = unified net b.address ≡ none
  Matches b (refused bad_listen_addr) = unified net b.listen_addr ≡ none

  sorted_list-IsSorted : (b : Builder C) → IsSorted less_priority (sorted_list b).values
  unfolding new_component_list
  sorted_list-IsSorted b =
      elim b.components
        as (λ (o : Option (ComponentList C)).
          IsSorted less_priority
            (elim o as (λ x. ComponentList C) [
              | none ↦ new_component_list
              | some m ↦ sort_by_priority m
            ]).values) [ none ↦ tt | some m ↦ (sort_by_priority-IsSorted m).0 ]

  abbrev IsBuilt : Builder C → Outcome (Built C × Cache Bytes) → Type 0
  IsBuilt b o =
      (answer : Built C) × (c' : Cache Bytes) × (o ≡ ok (answer, c'))
      × Matches b answer
      × IsCoherent net c'

  -- `Build`, on a cache that is coherent with the lookups, never panics. It returns a network only
  -- if there is a key, both addresses have a unified form, and these are the network's, its id is
  -- made of its own address and the key, and its components come in the order of their
  -- priorities; and each of its four errors only where what it names is missing.
  pub build-Matches :
      (b : Builder C) (c : Cache Bytes) → IsCoherent net c → IsBuilt b (build net hash files b c)
  unfolding build
  build-Matches b c v = go b.keys refl b.address refl
    where
      go :
          (keys : Option Bytes)
          → b.keys ≡ keys
          → (address : Bytes) → b.address ≡ address
          → IsBuilt b (build net hash files b c)
      go none k address a = (refused no_key_pair, c, ground arith, k, v)
      go (some keys) k [] a = (refused no_address, c, ground arith, a, v)
      go (some keys) k (x ∷ xs) a =
          let (c1, e1, v1) = to_unified_address-unified net (x ∷ xs) c v in
          elim (Option-cases (unified net (x ∷ xs))) [
            | inl bad ↦ (refused bad_address, c1, ground arith, ap (unified net) a ∙ bad, v1)
            | inr (address, good) ↦
                let (c2, e2, v2) = to_unified_address-unified net b.listen_addr c1 v1 in
                elim (Option-cases (unified net b.listen_addr)) [
                  | inl bad ↦ (refused bad_listen_addr, c2, ground arith, bad, v2)
                  | inr (listen_addr, fine) ↦ (
                    network (record {
                      id = create_id hash address keys;
                      keys = keys;
                      address = address;
                      listen_addr = listen_addr;
                      components = sorted_list b;
                      ca_enabled = files.0 && (files.1 && files.2);
                    }),
                    c2,
                    ground arith,
                    (k, ap (unified net) a ∙ good, fine, refl, sorted_list-IsSorted b),
                    v2,
                  )
                ]
          ]
