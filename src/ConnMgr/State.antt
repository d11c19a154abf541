-- ===== src/ConnMgr/State.antt =====
-- network/network.go: the tables of the connection manager; network/client.go: the clients that
-- they share. A client is a number, and its fields stand in the table `clients`: the source shares
-- it by pointer. Whole calls are atomic here: `getOrSetPeerClient` runs under its own mutex, and
-- the removal of entries under that of the manager.
use carrier.Prelude.{ℕ, Bool, true, false, List, [], Option, none, Bytes, nat_beq, if◌then◌else◌}
use carrier.Peer.Identity.{PeerId}

pub data PeerState : Type 0 where
  unknown unreachable reachable : PeerState

-- The scheme of an address.
pub data Protocol : Type 0 where
  tcp kcp udp quic other : Protocol

-- What the manager takes from outside: `ToUnifiedAddress`, the scheme that `ParseAddress` finds,
-- and the dialer of the transport.
pub record Outside : Type 0 where
  pub unify : Bytes → Option Bytes
  pub protocol : Bytes → Option Protocol
  pub dial : Bytes → Option ℕ

pub record Client : Type 0 where
  pub address : Bytes
  pub id : Option PeerId
  pub pub_key : Bytes
  pub closed : Bool
  pub stream_closed : Bool
  pub outgoing_ready : Bool
  pub incoming_ready : Bool
  pub enable_backoff : Bool

pub record ConnState : Type 0 where
  pub conn : ℕ
  pub message_nonce : ℕ

pub record MultiStream : Type 0 where
  pub id_inc_counter : ℕ
  pub stream : List (Bytes × ℕ)

unfoldable pub new_multi_stream : MultiStream
new_multi_stream = record { id_inc_counter = 0; stream = [] }

pub record Manager : Type 0 where
  pub address : Bytes
  pub peers : List (Bytes × ℕ)
  pub connections : List (Bytes × ConnState)
  pub conn_states : List (Bytes × PeerState)
  pub streams : List (Bytes × MultiStream)
  pub node_quit : List Bytes
  pub clients : ℕ → Client
  pub next : ℕ

-- `createPeerClient`, after its check of the address
unfoldable pub new_client : Bytes → Client
new_client address = record {
  address = address;
  id = none;
  pub_key = [];
  closed = false;
  stream_closed = false;
  outgoing_ready = false;
  incoming_ready = false;
  enable_backoff = true;
}

-- A write to the fields of one client.
abbrev pub put_client : ℕ → Client → (ℕ → Client) → ℕ → Client
put_client r c clients q = if nat_beq q r then c else clients q

pub data ClientError : Type 0 where
  no_address self_dial invalid_address not_ready dial_failed : ClientError

pub data Reply (A : Type 0) : Type 0 where
  ok : A → Reply A
  err : ClientError → Reply A
