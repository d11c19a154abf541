-- ===== src/ConnMgr/StreamWriting.antt =====
-- network/network.go: `StreamWrite`, which numbers a message and hands it to the queue of the client,
-- whose loop sends it on a stream of the connection.
use carrier.Prelude.{
  ℕ, ◌≡◌, sym, ◌∙◌, arith, Bool, true, Option, none, some, Bytes, bytes_eq, Option-cases, inl, inr,
  if◌then◌else◌,
}
use carrier.Prelude.Table.{load, has_of_load, load_of_has}
use carrier.ConnMgr.State.{Protocol, tcp, kcp, udp, quic, other, ConnState, Manager}
use carrier.ConnMgr.Sync.{IsSync}
use carrier.ConnMgr.Writing.{
  WriteError, no_connection, bad_address, nil_connection, counted, with_nonce, next_nonce,
  numbered-IsSync,
}
use carrier.Wire.Message.{Message}

pub record StreamSendItem : Type 0 where
  pub tcp_conn : ℕ
  pub message : Message
  pub peer_id : Bytes
  pub address : Bytes
  pub stream_id : Bytes

-- An item goes to the queue of a client. A message that is dropped is reported as no error.
pub data StreamWritten : Type 0 where
  not_written : WriteError → StreamWritten
  queued : ℕ → StreamSendItem → StreamWritten
  dropped : StreamWritten

module _ (stream_id peer : Bytes) (m : Message) where
  abbrev stream_item : ConnState → ℕ → Manager → StreamSendItem
  stream_item c r n = record {
    tcp_conn = c.conn;
    message = with_nonce c m;
    peer_id = peer;
    address = (n.clients r).address;
    stream_id = stream_id;
  }

  unfoldable enqueue : ConnState → Manager → StreamWritten
  unfolding load
  enqueue c n = elim (load peer n.peers) [ none ↦ dropped | some r ↦ queued r (stream_item c r n) ]

  -- Only the protocols over a `net.Conn` have a branch.
  unfoldable stream_transmit : (ℕ → Bool) → Protocol → ConnState → Manager → StreamWritten
  unfolding enqueue
  stream_transmit is_net_conn tcp c n =
      if is_net_conn c.conn then enqueue c n else not_written nil_connection
  stream_transmit is_net_conn kcp c n =
      if is_net_conn c.conn then enqueue c n else not_written nil_connection
  stream_transmit is_net_conn udp c n = dropped
  stream_transmit is_net_conn quic c n = dropped
  stream_transmit is_net_conn other c n = dropped

  -- `own` is the scheme of the node's own address. The count of bytes is always 0.
  unfoldable pub stream_write : Option Protocol → (ℕ → Bool) → Manager → StreamWritten × Manager
  unfolding stream_transmit next_nonce
  stream_write own is_net_conn n = elim (load peer n.connections) [
    | none ↦ (not_written no_connection, n)
    | some c ↦ (
      elim own [
        | none ↦ not_written bad_address
        | some protocol ↦ stream_transmit is_net_conn protocol c n
      ],
      counted peer c n,
    )
  ]

  -- `StreamWrite` keeps the tables in sync.
  pub stream_write-IsSync :
      (own : Option Protocol) (is_net_conn : ℕ → Bool) (n : Manager)
      → IsSync n
      → IsSync (stream_write own is_net_conn n).1
  unfolding stream_write
  stream_write-IsSync own is_net_conn n h = elim (Option-cases (load peer n.connections)) [
    | inl absent ↦ rw (stream_write, absent) h
    | inr (c, here) ↦ rw (stream_write, here) (numbered-IsSync peer c (next_nonce c) n here h)
  ]

  -- While the tables are in sync, a message to a peer with a connection that is a `net.Conn` is never
  -- dropped under TCP: it is queued, with the next nonce, at the client of the peer.
  stream_write-queued :
      (is_net_conn : ℕ → Bool) (n : Manager) (c : ConnState)
      → IsSync n
      → load peer n.connections ≡ some c
      → is_net_conn c.conn ≡ true
      → (r : ℕ) × (load peer n.peers ≡ some r)
        × (stream_write (some tcp) is_net_conn n ≡ (queued r (stream_item c r n), counted peer c n))
  unfolding stream_write enqueue stream_transmit
  stream_write-queued is_net_conn n c h here conn =
      let (r, found) =
        load_of_has peer n.peers (sym (h peer).0 ∙ has_of_load peer n.connections here) in
      (r, found, ground arith)
