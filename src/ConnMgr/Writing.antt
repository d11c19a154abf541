-- ===== src/ConnMgr/Writing.antt =====
-- network/network.go: `Write`, which numbers the messages of a connection, sends them by the
-- protocol of the node's own address, and closes the client when that fails.
use carrier.Prelude.{
  ℕ, ◌+◌, ◌%◌, ◌^◌, ◌≡◌, refl, ap, ap₂, ◌∙◌, arith, Bool, true, false, List, [], ◌∷◌, Option, none,
  some, inl, inr, Bytes, bytes_eq, bytes_beq_iff, Option-cases, Bool-cases, if◌then◌else◌, not,
}
use native.Mathlib.Nat.{mod-add-mod}
use carrier.Prelude.Table.{load, store, has-store, has_of_load, load-store_self}
use carrier.ConnMgr.State.{Protocol, tcp, kcp, udp, quic, other, ConnState, Manager}
use carrier.ConnMgr.Operations.{close}
use carrier.ConnMgr.Sync.{IsSync}
use carrier.ConnMgr.Calls.{close-IsSync}
use carrier.Wire.Compress.{Config, Compressors}
use carrier.Wire.Frame.{SendError, WriteAnswer, send_message, send_quic_message}
use carrier.Wire.Message.{Message, Codec}

-- `blocked` is a call that does not return.
pub data WriteError : Type 0 where
  no_connection bad_address nil_connection blocked : WriteError
  write_error : SendError → WriteError

-- The branches on the protocol; that of quic is not reached by `write`, see `lacks_conn`. `send_udp` is `sendUDPMessage`; a scheme of no branch sends nothing.
unfoldable pub transmit :
    Codec
    → Compressors
    → Config
    → List WriteAnswer
    → Bool
    → (Message → Bytes × Option SendError)
    → Protocol
    → Message
    → Bytes × Option SendError
unfolding send_message send_quic_message
transmit codec z c answers flushed send_udp tcp m = send_message codec z c answers flushed m
transmit codec z c answers flushed send_udp kcp m = send_message codec z c answers flushed m
transmit codec z c answers flushed send_udp udp m = send_udp m
transmit codec z c answers flushed send_udp quic m = send_quic_message codec z c answers flushed m
transmit codec z c answers flushed send_udp other m = ([], none)

-- `atomic.AddUint64(&state.messageNonce, 1)`
unfoldable pub next_nonce : ConnState → ConnState
next_nonce c = record c { message_nonce = (c.message_nonce + 1) % 2 ^ 64 }

unfoldable pub close_peer : Bytes → Manager → Manager
unfolding close
close_peer peer n = elim (load peer n.peers) [ none ↦ n | some r ↦ close r n ]

-- The end of `Write`: an error closes the client of the peer.
unfoldable pub after_send :
    Bytes → Bytes × Option SendError → Manager → (Bytes × Option WriteError) × Manager
unfolding close_peer
after_send peer (sent, none) n = ((sent, none), n)
after_send peer (sent, some e) n = ((sent, some (write_error e)), close_peer peer n)

-- The connection with its next nonce.
abbrev pub counted : Bytes → ConnState → Manager → Manager
counted peer c n = record n { connections = store peer (next_nonce c) n.connections }

abbrev pub with_nonce : ConnState → Message → Message
with_nonce c m = record m { message_nonce = (next_nonce c).message_nonce }

pub numbered-IsSync :
    (peer : Bytes) (c c' : ConnState) (n : Manager)
    → load peer n.connections ≡ some c
    → IsSync n
    → IsSync (record n { connections = store peer c' n.connections })
numbered-IsSync peer c c' n here h k = ground (
  arith,
  h k,
  has-store peer k c' n.connections,
  has_of_load peer n.connections here,
  bytes_beq_iff peer k,
)

-- Whether `Write` does not come to send: it finds no `net.Conn` where it needs one, or, over quic, waits
-- for the mutex `writerMutex` in `sendQuicMessage`, which it holds itself.
unfoldable pub lacks_conn : (ℕ → Bool) → Protocol → ℕ → Bool
lacks_conn is_net_conn tcp k = not (is_net_conn k)
lacks_conn is_net_conn kcp k = not (is_net_conn k)
lacks_conn is_net_conn udp k = false
lacks_conn is_net_conn quic k = true
lacks_conn is_net_conn other k = false

abbrev pub stop_error : Protocol → WriteError
stop_error quic = blocked
stop_error tcp = nil_connection
stop_error kcp = nil_connection
stop_error udp = nil_connection
stop_error other = nil_connection

-- `own` is the scheme of the node's own address, `is_net_conn` tells which connections are a
-- `net.Conn`, and `sends` is `transmit`.
module _ (own : Option Protocol) (is_net_conn : ℕ → Bool)
    (sends : Protocol → Message → Bytes × Option SendError) where
  -- `Write`: what went out, the error if any, and the tables.
  unfoldable pub write : Bytes → Message → Manager → (Bytes × Option WriteError) × Manager
  unfolding next_nonce after_send lacks_conn
  write peer m n = elim (load peer n.connections) [
    | none ↦ (([], some no_connection), n)
    | some c ↦ elim own [
      | none ↦ (([], some bad_address), counted peer c n)
      | some protocol ↦
          if lacks_conn is_net_conn protocol c.conn
          then (([], some (stop_error protocol)), counted peer c n)
          else after_send peer (sends protocol (with_nonce c m)) (counted peer c n)
    ]
  ]

  -- `Write` of each message in turn: what went out.
  unfoldable pub write_all : Bytes → List Message → Manager → List (Bytes × Option WriteError)
  unfolding write
  write_all peer [] n = []
  write_all peer (m ∷ ms) n = (write peer m n).0 ∷ write_all peer ms (write peer m n).1

  close_peer-IsSync : (peer : Bytes) (n : Manager) → IsSync n → IsSync (close_peer peer n)
  unfolding close_peer
  close_peer-IsSync peer n h = elim (Option-cases (load peer n.peers)) [
    | inl absent ↦ rw (absent, close_peer) h
    | inr (r, there) ↦ rw (there, close_peer) (close-IsSync r n h)
  ]

  after_send-IsSync :
      (peer : Bytes) (r : Bytes × Option SendError) (n : Manager)
      → IsSync n
      → IsSync (after_send peer r n).1
  unfolding after_send
  after_send-IsSync peer (sent, none) n h = h
  after_send-IsSync peer (sent, some e) n h = close_peer-IsSync peer n h

  -- `Write` keeps the tables in sync, whether it succeeds or fails.
  pub write-IsSync :
      (peer : Bytes) (m : Message) (n : Manager) → IsSync n → IsSync (write peer m n).1
  unfolding write
  write-IsSync peer m n h = elim (Option-cases (load peer n.connections)) [
    | inl absent ↦ rw (write, absent) h
    | inr (c, here) ↦ rw (write, here) (go c own (numbered-IsSync peer c (next_nonce c) n here h))
  ]
    where
      go :
          (c : ConnState) (o : Option Protocol)
          → IsSync (counted peer c n)
          → IsSync
              (elim o as (λ x. (Bytes × Option WriteError) × Manager) [
                | none ↦ (([], some bad_address), counted peer c n)
                | some protocol ↦
                    if lacks_conn is_net_conn protocol c.conn
                    then (([], some (stop_error protocol)), counted peer c n)
                    else after_send peer (sends protocol (with_nonce c m)) (counted peer c n)
              ]).1
      go c none k = k
      go c (some protocol) k = elim (Bool-cases (lacks_conn is_net_conn protocol c.conn)) [
        | inl lacks ↦ rw lacks k
        | inr holds ↦
            rw holds (after_send-IsSync peer (sends protocol (with_nonce c m)) (counted peer c n) k)
      ]

-- The messages with the numbers after `k`, as words of 64 bits, and what each sends.
abbrev pub sends_all :
    (Message → Bytes × Option SendError) → ℕ → List Message → List (Bytes × Option WriteError)
sends_all send k [] = []
sends_all send k (m ∷ ms) =
    ((send (record m { message_nonce = (k + 1) % 2 ^ 64 })).0, none) ∷ sends_all send (k + 1) ms

pub after_send_sent :
    (peer : Bytes) (r : Bytes × Option SendError) (n : Manager)
    → r.1 ≡ none
    → after_send peer r n ≡ ((r.0, none), n)
unfolding after_send
after_send_sent peer (sent, none) n e = refl
after_send_sent peer (sent, some x) n e = cc

write_all-from :
    (protocol : Protocol) (is_net_conn : ℕ → Bool)
    (sends : Protocol → Message → Bytes × Option SendError) (peer : Bytes) (ms : List Message)
    (n : Manager) (c : ConnState) (k : ℕ)
    → load peer n.connections ≡ some c
    → lacks_conn is_net_conn protocol c.conn ≡ false
    → ((m : Message) → (sends protocol m).1 ≡ none)
    → (c.message_nonce + 1) % 2 ^ 64 ≡ (k + 1) % 2 ^ 64
    → write_all (some protocol) is_net_conn sends peer ms n ≡ sends_all (sends protocol) k ms
unfolding write_all write next_nonce
write_all-from protocol is_net_conn sends peer [] n c k here conn takes at = refl
write_all-from protocol is_net_conn sends peer (m ∷ ms) n c k here conn takes at =
    let first : write (some protocol) is_net_conn sends peer m n
        ≡ (((sends protocol (with_nonce c m)).0, none), counted peer c n) =
      rw (write, here, conn)
        (after_send_sent peer (sends protocol (with_nonce c m)) (counted peer c n)
          (takes (with_nonce c m))) in
    let later : ((c.message_nonce + 1) % 2 ^ 64 + 1) % 2 ^ 64 ≡ (k + 1 + 1) % 2 ^ 64 =
      ap (λ x. (x + 1) % 2 ^ 64) at ∙ mod-add-mod (k + 1) (2 ^ 64) 1 in
    ap₂ ◌∷◌
      (ap (λ r. r.0) first
        ∙ ap (λ x. ((sends protocol (record m { message_nonce = x })).0, none)) at)
      (ap (λ r. write_all (some protocol) is_net_conn sends peer ms r.1) first
        ∙ write_all-from protocol is_net_conn sends peer ms (counted peer c n) (next_nonce c)
            (k + 1) (load-store_self peer (next_nonce c) n.connections) conn takes later)

-- Over tcp, kcp or udp: messages written one after the other to a peer that has a connection, of the
-- kind that the node's protocol needs, over a transport that takes each of them, go out in order, the
-- first with the number after that of the connection, and each with the number after that of the one
-- before it, as words of 64 bits.
pub write_all-sends :
    (protocol : Protocol) (is_net_conn : ℕ → Bool)
    (sends : Protocol → Message → Bytes × Option SendError) (peer : Bytes) (ms : List Message)
    (n : Manager) (c : ConnState)
    → load peer n.connections ≡ some c
    → lacks_conn is_net_conn protocol c.conn ≡ false
    → ((m : Message) → (sends protocol m).1 ≡ none)
    → write_all (some protocol) is_net_conn sends peer ms n
      ≡ sends_all (sends protocol) c.message_nonce ms
write_all-sends protocol is_net_conn sends peer ms n c here conn takes =
    write_all-from protocol is_net_conn sends peer ms n c c.message_nonce here conn takes refl
