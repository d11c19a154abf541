-- ===== src/Tests/Managers.antt =====
-- network/network.go: a manager with two clients, one known by its address and one by its key.
use carrier.Prelude.{
  ℕ, zero, suc, ◌≡◌, ◌≢◌, refl, arith, bytes_eq, true, [], ◌∷◌, Option, none, some, Bytes,
}
use carrier.Prelude.Table.{load, has}
use carrier.Peer.Identity.{PeerId}
use carrier.ConnMgr.State.{
  reachable, tcp, other, Outside, Client, new_client, new_multi_stream, Manager, ok,
}
use carrier.ConnMgr.Operations.{no_conn, get_or_set_peer_client}
use carrier.ConnMgr.Sync.{IsSync}
use carrier.ConnMgr.Rekey.{IsRekeyed, get_or_set_peer_client-IsRekeyed}

-- Addresses stand for themselves, all of TCP, and every dial succeeds.
abbrev pub open_network : Outside
open_network = record { unify = λ a. some a; protocol = λ a. some tcp; dial = λ a. some 5 }

-- The hexadecimal digits of the key 170.
abbrev key_hex : Bytes
key_hex = 97 ∷ 97 ∷ []

abbrev keyed_id : PeerId
keyed_id = record { address = 2 ∷ []; id = []; net_key = 170 ∷ []; connection_id = [] }

abbrev pub ready_client : Bytes → Option PeerId → Client
ready_client address id = record (new_client address) {
  id = id;
  pub_key = key_hex;
  outgoing_ready = true;
  incoming_ready = true;
}

abbrev client_table : ℕ → Client
client_table zero = ready_client (1 ∷ []) none
client_table (suc r) = ready_client (2 ∷ []) (some keyed_id)

-- Client 0 was dialed at address 1; client 1 has sent a message with its key.
abbrev pub two_clients : Manager
two_clients = record {
  address = 9 ∷ [];
  peers = (1 ∷ [], 0) ∷ (key_hex, 1) ∷ [];
  connections =
      (1 ∷ [], record { conn = 3; message_nonce = 0 })
      ∷ (key_hex, record { conn = 4; message_nonce = 0 })
      ∷ [];
  conn_states = (1 ∷ [], reachable) ∷ (key_hex, reachable) ∷ [];
  streams = (1 ∷ [], new_multi_stream) ∷ (key_hex, new_multi_stream) ∷ [];
  node_quit = [];
  clients = client_table;
  next = 2;
}

pub two_clients-IsSync : IsSync two_clients
unfolding load has
two_clients-IsSync k = ground arith

-- Addresses of the network have a scheme that is supported.
pub open_network-supported : (a : Bytes) → open_network.protocol a ≢ some other
open_network-supported a e = ground arith

get_or_set_peer_client-IsRekeyed_example :
    ((get_or_set_peer_client open_network (1 ∷ []) (98 ∷ 98 ∷ []) no_conn two_clients).0 ≡ ok 0)
    × IsRekeyed
        (1 ∷ [])
        (98 ∷ 98 ∷ [])
        0
        two_clients
        (get_or_set_peer_client open_network (1 ∷ []) (98 ∷ 98 ∷ []) no_conn two_clients).1
unfolding load
get_or_set_peer_client-IsRekeyed_example =
    get_or_set_peer_client-IsRekeyed open_network (1 ∷ []) (1 ∷ []) 98 (98 ∷ []) tcp no_conn 0
      two_clients two_clients-IsSync refl refl refl refl refl refl
