-- ===== src/Builder/Build.antt =====
-- network/builder.go: registering components, and `Build`. The keys are the public key of the pair;
-- the parts of a network that `Build` only creates empty are left out.
use carrier.Prelude.{ℕ, suc, Bool, ◌&&◌, [], ◌∷◌, Option, none, some, Bytes, if◌then◌else◌}
use carrier.Outcome.{Outcome, ok, panic}
use carrier.Peer.Identity.{PeerId, create_id}
use carrier.Lru.Cache.{Cache}
use carrier.Addresses.Unify.{Net, to_unified_address}
use carrier.Components.ComponentList.{ComponentList, new_component_list, put, sort_by_priority}

pub record Builder (C : Type 0) : Type 0 where
  pub address : Bytes
  pub listen_addr : Bytes
  pub keys : Option Bytes
  pub components : Option (ComponentList C)
  pub component_count : ℕ

pub record Network (C : Type 0) : Type 0 where
  pub id : PeerId
  pub keys : Bytes
  pub address : Bytes
  pub listen_addr : Bytes
  pub components : ComponentList C
  pub ca_enabled : Bool

pub data BuildError : Type 0 where
  no_key_pair no_address bad_address bad_listen_addr : BuildError

pub data Built (C : Type 0) : Type 0 where
  network : Network C → Built C
  refused : BuildError → Built C

module _ {C : Type 0} where
  -- The list of the builder, made where there is none.
  abbrev pub list_of : Builder C → ComponentList C
  list_of b = elim b.components [ none ↦ new_component_list | some m ↦ m ]

  -- `AddComponentWithPriority`: whether it returns nil. A component is known by its type `ty`.
  unfoldable pub add_component_with_priority : ℕ → ℕ → C → Builder C → Bool × Builder C
  unfolding put
  add_component_with_priority priority ty c b =
      let (added, m) = put priority ty c (list_of b) in (added, record b { components = some m })

  -- `AddComponent`
  unfoldable pub add_component : ℕ → C → Builder C → Bool × Builder C
  unfolding add_component_with_priority
  add_component ty c b =
      let (added, b') = add_component_with_priority b.component_count ty c b in
      (added, if added then record b' { component_count = suc b'.component_count } else b')

  -- The list that a network gets: sorted, where there is one.
  abbrev pub sorted_list : Builder C → ComponentList C
  sorted_list b = elim b.components [ none ↦ new_component_list | some m ↦ sort_by_priority m ]

  -- `hash` is that of the peer ids, and `files` says whether the key, the certificate and the CA exist.
  module _ (net : Net) (hash : Bytes → Bytes) (files : Bool × Bool × Bool) where
    unfoldable pub build : Builder C → Cache Bytes → Outcome (Built C × Cache Bytes)
    unfolding to_unified_address create_id sort_by_priority
    build b cache = elim b.keys [
      | none ↦ ok (refused no_key_pair, cache)
      | some keys ↦ elim b.address [
        | [] ↦ ok (refused no_address, cache)
        | x ∷ xs ↦ elim (to_unified_address net (x ∷ xs) cache) [
          | panic ↦ panic
          | ok (none, c1) ↦ ok (refused bad_address, c1)
          | ok (some address, c1) ↦ elim (to_unified_address net b.listen_addr c1) [
            | panic ↦ panic
            | ok (none, c2) ↦ ok (refused bad_listen_addr, c2)
            | ok (some listen_addr, c2) ↦ ok (
              network (record {
                id = create_id hash address keys;
                keys = keys;
                address = address;
                listen_addr = listen_addr;
                components = sorted_list b;
                ca_enabled = files.0 && (files.1 && files.2);
              }),
              c2,
            )
          ]
        ]
      ]
    ]
