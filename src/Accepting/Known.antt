-- ===== src/Accepting/Known.antt =====
-- network/network.go: a message from a sender whose client is there and ready.
use carrier.Prelude.{
  ℕ, ◌≡◌, refl, ap, sym, ◌∙◌, subst, arith, nat_beq, nat_beq_iff, Bool, true, false, Option, none,
  some, Bytes, bytes_eq, beq_refl, ◌==◌, ◌⊎◌, inl, inr, Option-cases, Bool-cases, if◌then◌else◌,
  ◌&&◌,
}
use carrier.Prelude.Table.{load, has, has-store}
use carrier.Peer.Identity.{equals, public_key_hex}
use carrier.Wire.Frame.{SendError}
use carrier.Wire.Message.{WireId, to_peer, Message}
use carrier.Requests.Prepare.{signature_accepted}
use carrier.ConnMgr.State.{Protocol, ConnState, Manager, Reply}
use carrier.ConnMgr.Operations.{
  Incoming, key_or, get_or_set_peer_client, find_client, reset_item, set_client_id, client_peer_id,
  connection_state_exists,
}
use carrier.ConnMgr.Writing.{write, after_send, counted, with_nonce, next_nonce, lacks_conn}
use carrier.Telling.Tell.{Speaker, write_as}
use carrier.Telling.Sync.{tell-keeps}
use carrier.Accepting.Loop.{
  Receiver, handed, has_message_id, same_id, acknowledge, check_message, after_client, inbound,
  accept_message,
}

-- The peer of that ID has the client `r` and a connection under its key, and its address is one that
-- is looked up, of another node, and no key of the tables.
pub record IsKnown (e : Receiver) (id : WireId) (r : ℕ) (n : Manager) : Type 0 where
  pub address : Bytes
  pub protocol : Protocol
  pub unified : e.outside.unify id.address ≡ some address
  pub elsewhere : (address == n.address) ≡ false
  pub scheme : e.outside.protocol address ≡ some protocol
  pub moved : load address n.peers ≡ none
  pub keyed : key_or id.address (public_key_hex (to_peer id)) ≡ public_key_hex (to_peer id)
  pub here : load (public_key_hex (to_peer id)) n.peers ≡ some r
  pub ready : (n.clients r).outgoing_ready ≡ true
  pub connected : has (public_key_hex (to_peer id)) n.connections ≡ true

-- Every transport takes every message.
abbrev pub TakesAll : Speaker → Type 0
TakesAll s = (p : Protocol) (m : Message) → (s.sends p m).1 ≡ none

after_send-taken :
    (peer : Bytes) (r : Bytes × Option SendError) (n : Manager)
    → r.1 ≡ none
    → (after_send peer r n).1 ≡ n
unfolding after_send
after_send-taken peer (sent, none) n h = refl
after_send-taken peer (sent, some x) n h = cc

-- A write over such a transport changes nothing but the nonce of a connection.
pub write-counted :
    (s : Speaker) (peer : Bytes) (m : Message) (n : Manager)
    → TakesAll s
    → ((write_as s peer m n).1 ≡ n)
      ⊎ ((c : ConnState) × ((write_as s peer m n).1 ≡ counted peer c n))
unfolding write
write-counted s peer m n takes = elim (Option-cases (load peer n.connections)) [
  | inl absent ↦ inl (rw (absent, write) refl)
  | inr (c, there) ↦ elim (Option-cases s.own) [
    | inl bad ↦ inr (c, rw (there, write, bad) refl)
    | inr (p, own) ↦ elim (Bool-cases (lacks_conn s.is_net_conn p c.conn)) [
      | inl lacks ↦ inr (c, rw (there, write, own, lacks) refl)
      | inr holds ↦ inr (
        c,
        rw (there, write, own, holds)
            (after_send-taken peer (s.sends p (with_nonce c m)) (counted peer c n)
              (takes p (with_nonce c m))),
      )
    ]
  ]
]

module _ (e : Receiver) (id : WireId) (r : ℕ) where
  counted-IsKnown :
      (peer : Bytes) (c : ConnState) (n : Manager)
      → IsKnown e id r n
      → IsKnown e id r (counted peer c n)
  counted-IsKnown peer c n k = record {
    address = k.address;
    protocol = k.protocol;
    unified = k.unified;
    elsewhere = k.elsewhere;
    scheme = k.scheme;
    moved = k.moved;
    keyed = k.keyed;
    here = k.here;
    ready = k.ready;
    connected = ground (
      arith,
      k.connected,
      has-store peer (public_key_hex (to_peer id)) (next_nonce c) n.connections,
    );
  }

  write-IsKnown :
      (peer : Bytes) (m : Message) (n : Manager)
      → TakesAll e.speaker
      → IsKnown e id r n
      → IsKnown e id r (write_as e.speaker peer m n).1
  write-IsKnown peer m n takes k = elim (write-counted e.speaker peer m n takes) [
    | inl same ↦ subst (IsKnown e id r) (sym same) k
    | inr (c, changed) ↦ subst (IsKnown e id r) (sym changed) (counted-IsKnown peer c n k)
  ]

  set_client_id-IsKnown :
      (n : Manager) → IsKnown e id r n → IsKnown e id r (set_client_id r (to_peer id) n)
  unfolding set_client_id
  set_client_id-IsKnown n k = record {
    address = k.address;
    protocol = k.protocol;
    unified = k.unified;
    elsewhere = k.elsewhere;
    scheme = k.scheme;
    moved = k.moved;
    keyed = k.keyed;
    here = k.here;
    ready = ground (arith, k.ready, nat_beq_iff r r);
    connected = k.connected;
  }

  found :
      (incoming : Incoming) (n : Manager)
      → IsKnown e id r n
      → get_or_set_peer_client e.outside id.address (public_key_hex (to_peer id)) incoming n
        ≡ (Reply.ok r, n)
  unfolding get_or_set_peer_client find_client reset_item
  found incoming n k =
      let key = public_key_hex (to_peer id) in
      let same : (if k.address == key then n else reset_item k.address key n) ≡ n =
        elim (Bool-cases (k.address == key)) [
          | inl e1 ↦ rw e1 refl
          | inr e1 ↦ rw (e1, reset_item, k.moved) refl
        ] in
      let cached : find_client e.outside k.protocol k.address key incoming n ≡ (Reply.ok r, n) =
        rw (find_client, k.here, k.ready) refl in
      rw (get_or_set_peer_client, k.unified, k.elsewhere, k.scheme, k.keyed, same) cached

  acknowledge-IsKnown :
      (acking : Bool) (now : ℕ) (m : Message) (n : Manager)
      → TakesAll e.speaker
      → IsKnown e id r n
      → IsKnown e id r (acknowledge e acking now r m n)
  unfolding acknowledge
  acknowledge-IsKnown acking now m n takes k =
      elim (Bool-cases (acking && e.replies r && has_message_id m)) [
        | inl wanted ↦ rw wanted (
            tell-keeps e.speaker false (IsKnown e id r) n r (some (e.ack now m.message_id)) k
              (λ peer sent. write-IsKnown peer sent n takes k))
        | inr silent ↦ rw silent k
      ]

  named :
      (n : Manager)
      → (set_client_id r (to_peer id) n).clients r ≡ record (n.clients r) { id = some (to_peer id) }
  unfolding set_client_id
  named n = let self : nat_beq r r ≡ true = ground (arith, nat_beq_iff r r) in rw self refl

  named_connected :
      (n : Manager)
      → has (public_key_hex (to_peer id)) n.connections ≡ true
      → let n1 = set_client_id r (to_peer id) n in
        connection_state_exists (client_peer_id (n1.clients r)) n1 ≡ true
  unfolding connection_state_exists client_peer_id set_client_id
  named_connected n h = rw (named n) h

  named_same :
      (n : Manager) → same_id ((set_client_id r (to_peer id) n).clients r) (to_peer id) ≡ true
  unfolding equals to_peer
  named_same n = rw (named n) (beq_refl id.id)

  pub accept_message-IsKnown :
      (acking : Bool) (now : ℕ) (incoming : Incoming) (m : Message) (n : Manager)
      → TakesAll e.speaker
      → IsKnown e id r n
      → m.sender ≡ some id
      → signature_accepted e.speaker.policy e.speaker.bodies m ≡ true
      → (n' : Manager) × (accept_message e acking now incoming m n ≡ (handed r, n'))
        × IsKnown e id r n'
  unfolding accept_message after_client check_message acknowledge
  accept_message-IsKnown acking now incoming m n takes k from good =
      let n1 = set_client_id r (to_peer id) n in
      let k1 = set_client_id-IsKnown n k in
      (
        acknowledge e acking now r m n1,
        stepped ∙ checked,
        acknowledge-IsKnown acking now m n1 takes k1,
      )
    where
      checked :
          check_message e acking now r id m (set_client_id r (to_peer id) n)
          ≡ (handed r, acknowledge e acking now r m (set_client_id r (to_peer id) n))
      checked = rw (check_message, named_connected n k.connected, good, named_same n) refl

      stepped :
          accept_message e acking now incoming m n
          ≡ check_message e acking now r id m (set_client_id r (to_peer id) n)
      stepped =
          let inner = inbound e acking now incoming in
          let entered : accept_message e acking now incoming m n
              ≡ after_client e acking now id m (
                  get_or_set_peer_client e.outside id.address (public_key_hex (to_peer id)) inner
                    n) =
            ground arith in
          entered ∙ ap (after_client e acking now id m) (found inner n k)
