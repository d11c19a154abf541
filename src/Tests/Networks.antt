-- ===== src/Tests/Networks.antt =====
-- network/address.go, network/builder.go, network/components/backoff and the history of a manager.
use carrier.Prelude.{
  ℕ, zero, suc, ◌+◌, ◌≡◌, refl, arith, bytes_eq, true, false, List, [], ◌∷◌, Option, none, some,
  Bytes,
}
use carrier.Prelude.Table.{load}
use carrier.Outcome.{ok}
use carrier.Peer.Identity.{ℤ, pos}
use carrier.Lru.Cache.{Cache, new_cache}
use carrier.Addresses.Unify.{Net, to_unified_address}
use carrier.Addresses.Cached.{IsCoherent, unified, new_cache-IsCoherent, to_unified_address-unified}
use carrier.Addresses.Filter.{filter_peers, IsFresh, Covers, filter_peers_lem}
use carrier.Backoff.Attempts.{Turn}
use carrier.Builder.Build.{Builder, Built, build}
use carrier.Builder.Result.{Matches, build-Matches}
use carrier.ConnMgr.State.{Manager, Protocol, udp}
use carrier.ConnMgr.Writing.{transmit, lacks_conn, write_all, sends_all, write_all-sends}
use carrier.Wire.Frame.{SendError}
use carrier.Wire.Message.{Message}
use carrier.Tests.Frames.{hello, tagging, gzipped}
use carrier.Tests.PlainCodec.{plain_codec}
use carrier.ConnMgr.Operations.{no_conn, close, get_or_set_peer_client}
use carrier.ConnMgr.Sync.{IsSync}
use carrier.ConnMgr.History.{start, next, client_step, close_step, Reachable-IsSync}
use carrier.Tests.Managers.{open_network, open_network-supported, two_clients}

-- Every address is a host at port 80 of scheme 9; host 1 is an IP address, and every other host has
-- the address 3.
abbrev pub plain_net : Net
plain_net = record {
  parse_url = λ a. some (9 ∷ [], a);
  split_host_port = λ a. some (a, []);
  parse_uint16 = λ p. some 80;
  trim_space = λ a. a;
  is_ip = λ h. elim h [ [] ↦ false | x ∷ xs ↦ elim xs [ [] ↦ true | y ∷ ys ↦ false ] ];
  lookup_host = λ h. some ((3 ∷ []) ∷ []);
}

abbrev pub no_lookups : Cache Bytes
no_lookups = new_cache 1000

pub no_lookups-IsCoherent : IsCoherent plain_net no_lookups
no_lookups-IsCoherent = new_cache-IsCoherent plain_net 1000 (omega arith)

to_unified_address-unified_example :
    (c' : Cache Bytes) × (to_unified_address plain_net (1 ∷ 2 ∷ []) no_lookups
      ≡ ok (unified plain_net (1 ∷ 2 ∷ []), c'))
    × IsCoherent plain_net c'
to_unified_address-unified_example =
    to_unified_address-unified plain_net (1 ∷ 2 ∷ []) no_lookups no_lookups-IsCoherent

abbrev pub three_peers : List Bytes
three_peers = (1 ∷ []) ∷ [] ∷ (1 ∷ []) ∷ (1 ∷ 2 ∷ []) ∷ []

filter_peers_lem_example :
    (rs : List Bytes) × (c' : Cache Bytes) × (filter_peers plain_net (7 ∷ []) three_peers no_lookups
      ≡ ok (rs, c'))
    × IsCoherent plain_net c'
    × IsFresh plain_net ((7 ∷ []) ∷ []) rs
    × Covers plain_net ((7 ∷ []) ∷ []) three_peers rs
filter_peers_lem_example =
    filter_peers_lem plain_net (7 ∷ []) three_peers no_lookups no_lookups-IsCoherent

abbrev empty_builder : Builder ℕ
empty_builder = record {
  address = 1 ∷ [];
  listen_addr = 2 ∷ [];
  keys = some (8 ∷ []);
  components = none;
  component_count = 0;
}

build-Matches_example :
    (answer : Built ℕ) × (c' : Cache Bytes) × (build plain_net
        (λ k. k)
        (true, true, false)
        empty_builder
        no_lookups
      ≡ ok (answer, c'))
    × Matches plain_net (λ k. k) (true, true, false) empty_builder answer
    × IsCoherent plain_net c'
build-Matches_example =
    build-Matches plain_net (λ k. k) (true, true, false) empty_builder no_lookups
      no_lookups-IsCoherent

-- The delay doubles with each attempt.
abbrev doubles : ℕ → ℕ → Option ℤ
doubles low zero = some (pos low)
doubles low (suc n) = some (pos (low + low))

abbrev lost_turn : Turn
lost_turn = record {
  loaded = λ b. some b;
  connected_before = false;
  dialed = false;
  connected_after = false;
  told = false;
}

-- A client is dialed from a manager with no entry, and closed.
abbrev pub no_clients : Manager
no_clients = record two_clients { peers = []; connections = []; streams = []; conn_states = [] }

abbrev one_client : Manager
one_client = (get_or_set_peer_client open_network (3 ∷ []) [] no_conn no_clients).1

Reachable-IsSync_example : IsSync (close 2 one_client)
Reachable-IsSync_example =
    Reachable-IsSync open_network no_clients (close 2 one_client) open_network-supported
      (refl, refl, refl) (next (next start (client_step (3 ∷ []) [] no_conn)) (close_step 2))

-- Packages over UDP are the contents of the messages.
abbrev contents : Protocol → Message → Bytes × Option SendError
contents = transmit plain_codec tagging gzipped [] true (λ m. (m.message, none))

write_all-sends_example :
    write_all (some udp) (λ k. true) contents (1 ∷ []) (hello ∷ hello ∷ []) two_clients
    ≡ sends_all (contents udp) 0 (hello ∷ hello ∷ [])
unfolding load transmit lacks_conn
write_all-sends_example =
    write_all-sends udp (λ k. true) contents (1 ∷ []) (hello ∷ hello ∷ []) two_clients
      (record { conn = 3; message_nonce = 0 }) refl refl (λ m. refl)
