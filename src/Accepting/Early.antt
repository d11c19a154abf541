-- ===== src/Accepting/Early.antt =====
-- network/network.go: what the accept loops do before they check a signature.
use carrier.Prelude.{
  ℕ, ◌≡◌, ◌≢◌, refl, ap, sym, ◌∙◌, subst, arith, Bool, false, none, some, Bytes, bytes_eq, ◌==◌,
  Bool-cases, inl, inr, if◌then◌else◌,
}
use carrier.Prelude.Table.{load, load-store_self}
use carrier.Peer.Identity.{public_key_hex}
use carrier.Wire.Message.{WireId, to_peer, Message}
use carrier.Requests.Prepare.{signature_accepted}
use carrier.ConnMgr.State.{Protocol, tcp, kcp, udp, quic, other, Manager, Reply}
use carrier.ConnMgr.Operations.{
  stream_conn, key_or, get_or_set_peer_client, find_client, create_client, connect, register,
  init_connection, update_conn_state, reset_item, set_client_id,
}
use carrier.Accepting.Loop.{
  Receiver, Verdict, refused, check_message, after_client, inbound, accept_message,
}

-- A sender that no table has heard of.
pub record IsStranger (e : Receiver) (id : WireId) (n : Manager) : Type 0 where
  pub address : Bytes
  pub protocol : Protocol
  pub unified : e.outside.unify id.address ≡ some address
  pub elsewhere : (address == n.address) ≡ false
  pub scheme : e.outside.protocol address ≡ some protocol
  pub supported : protocol ≢ other
  pub moved : load address n.peers ≡ none
  pub keyed : key_or id.address (public_key_hex (to_peer id)) ≡ public_key_hex (to_peer id)
  pub new : load (public_key_hex (to_peer id)) n.peers ≡ none

register-entries :
    (protocol : Protocol) (address key : Bytes) (conn : ℕ) (n : Manager)
    → protocol ≢ other
    → (load key (register protocol address key conn n).peers ≡ some n.next)
      × (load key (register protocol address key conn n).connections
          ≡ some (record { conn = conn; message_nonce = 0 }))
unfolding register init_connection update_conn_state
register-entries tcp address key conn n s =
    (load-store_self key n.next n.peers, load-store_self key _ n.connections)
register-entries kcp address key conn n s =
    (load-store_self key n.next n.peers, load-store_self key _ n.connections)
register-entries udp address key conn n s =
    (load-store_self key n.next n.peers, load-store_self key _ n.connections)
register-entries quic address key conn n s =
    (load-store_self key n.next n.peers, load-store_self key _ n.connections)
register-entries other address key conn n s = absurd (s refl)

module _ (e : Receiver) (acking : Bool) (now : ℕ) (id : WireId) where
  entered :
      (conn : ℕ) (n : Manager) (k : IsStranger e id n)
      → get_or_set_peer_client e.outside id.address
          (public_key_hex (to_peer id))
          (stream_conn conn)
          n
        ≡ (Reply.ok n.next, register k.protocol k.address (public_key_hex (to_peer id)) conn n)
  unfolding get_or_set_peer_client find_client create_client connect
  entered conn n k =
      let key = public_key_hex (to_peer id) in
      let same : (if k.address == key then n else reset_item k.address key n) ≡ n =
        elim (Bool-cases (k.address == key)) [
          | inl e1 ↦ rw e1 refl
          | inr e1 ↦ rw (e1, reset_item, k.moved) refl
        ] in
      let made : find_client e.outside k.protocol k.address key (stream_conn conn) n
          ≡ (Reply.ok n.next, register k.protocol k.address key conn n) =
        rw (find_client, k.new) refl in
      rw (get_or_set_peer_client, k.unified, k.elsewhere, k.scheme, k.keyed, same) made

  refused_late :
      (r : ℕ) (m : Message) (n : Manager)
      → signature_accepted e.speaker.policy e.speaker.bodies m ≡ false
      → check_message e acking now r id m n ≡ (refused, n)
  unfolding check_message
  refused_late r m n bad = ground arith

  -- Outside the proxy mode, a message whose signature is malformed ends the loop, but its sender now has
  -- a client, and the connection that the message came on, under the key that the message names: if
  -- neither that key nor the address is a key of the tables, the key is not empty, and the address is
  -- one that unifies, of a supported scheme, and not the node's own.
  pub accept_message-unverified :
      (conn : ℕ) (m : Message) (n : Manager)
      → e.proxy_mode ≡ false
      → m.sender ≡ some id
      → signature_accepted e.speaker.policy e.speaker.bodies m ≡ false
      → IsStranger e id n
      → let (verdict, n') = accept_message e acking now (stream_conn conn) m n in
        (verdict ≡ refused)
        × (load (public_key_hex (to_peer id)) n'.peers ≡ some n.next)
        × (load (public_key_hex (to_peer id)) n'.connections
            ≡ some (record { conn = conn; message_nonce = 0 }))
  unfolding accept_message after_client set_client_id
  accept_message-unverified conn m n direct from bad k =
      let key = public_key_hex (to_peer id) in
      let made = register k.protocol k.address key conn n in
      let inner : inbound e acking now (stream_conn conn) ≡ stream_conn conn = rw direct refl in
      let opened : accept_message e acking now (stream_conn conn) m n
          ≡ after_client e acking now id m (
              get_or_set_peer_client e.outside id.address key
                (inbound e acking now (stream_conn conn)) n) =
        ground arith in
      let outcome : accept_message e acking now (stream_conn conn) m n
          ≡ (refused, set_client_id n.next (to_peer id) made) =
        opened
        ∙ ap
            (λ i.
              after_client e acking now id m (get_or_set_peer_client e.outside id.address key i n))
            inner
        ∙ ap (after_client e acking now id m) (entered conn n k)
        ∙ refused_late n.next m (set_client_id n.next (to_peer id) made) bad in
      let (peer, connection) = register-entries k.protocol k.address key conn n k.supported in
      subst
        (λ (r : Verdict × Manager).
          (r.0 ≡ refused)
          × (load key r.1.peers ≡ some n.next)
          × (load key r.1.connections ≡ some (record { conn = conn; message_nonce = 0 })))
        (sym outcome) (refl, peer, connection)
