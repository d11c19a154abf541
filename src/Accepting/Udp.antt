-- ===== src/Accepting/Udp.antt =====
-- network/network.go: `AcceptUdp`, one socket for all peers.
use carrier.Prelude.{ℕ, false, not, List, [], ◌∷◌, Option, none, some, Bytes, if◌then◌else◌}
use carrier.Peer.Identity.{public_key_hex}
use carrier.Wire.Message.{WireId, to_peer, Message, Codec}
use carrier.Wire.Udp.{
  UdpResult, nothing, unmarshal_failed, invalid_message, received, receive_udp_message,
}
use carrier.Requests.Prepare.{signature_accepted}
use carrier.ConnMgr.State.{Manager, Reply}
use carrier.ConnMgr.Operations.{
  udp_conn, get_or_set_peer_client, connection_state_exists, client_peer_id, set_client_id, close,
}
use carrier.Accepting.Loop.{Receiver, Finish, returned, crashed, running, same_id, inbound}

-- What the loop has done: the clients that messages were submitted to, the variable `client` of the
-- loop, and the tables.
pub record UdpRun : Type 0 where
  pub submitted : List (ℕ × Message)
  pub client : Option ℕ
  pub finish : Finish
  pub tables : Manager

-- What the loop does with one message: it goes on whatever comes of it, unless it panics.
pub record UdpTurn : Type 0 where
  pub to : Option ℕ
  pub client : Option ℕ
  pub tables : Manager

module _ (e : Receiver) (socket : ℕ) where
  abbrev pub dropped : Option ℕ → Manager → UdpTurn
  dropped client n = record { to = none; client = client; tables = n }

  unfoldable pub check_udp_client : ℕ → WireId → Manager → UdpTurn
  unfolding connection_state_exists client_peer_id
  check_udp_client r id n =
      if not (connection_state_exists (client_peer_id (n.clients r)) n)
      then dropped (some r) n
      else if not (same_id (n.clients r) (to_peer id))
      then dropped (some r) n
      else record { to = some r; client = some r; tables = n }

  -- On an error the variable `client` is nil.
  unfoldable pub after_udp_client : WireId → Reply ℕ × Manager → UdpTurn
  unfolding check_udp_client set_client_id
  after_udp_client id (Reply.err x, n) = dropped none n
  after_udp_client id (Reply.ok r, n) = check_udp_client r id (set_client_id r (to_peer id) n)

  -- Here the signature is checked first.
  unfoldable pub udp_turn : WireId → Message → Option ℕ → Manager → UdpTurn
  unfolding after_udp_client get_or_set_peer_client public_key_hex signature_accepted
  udp_turn id m client n =
      if not (signature_accepted e.speaker.policy e.speaker.bodies m)
      then dropped client n
      else after_udp_client id (
          get_or_set_peer_client e.outside id.address (public_key_hex (to_peer id))
            (inbound e false 0 (udp_conn socket)) n)

abbrev pub submit : Message → UdpTurn → UdpRun → UdpRun
submit m t run = elim t.to [
  | none ↦ run
  | some r ↦ record run { submitted = (r, m) ∷ run.submitted }
]

-- A package, and what the other goroutines do to the tables before it comes.
pub record Arrival : Type 0 where
  pub others : Manager → Manager
  pub packet : Option Bytes

module _ (e : Receiver) (codec : Codec) (net_id socket : ℕ) where
  -- One round of the loop, before `rest`; a sender is dereferenced.
  unfoldable pub udp_round : Arrival → (Option ℕ → Manager → UdpRun) → Option ℕ → Manager → UdpRun
  unfolding udp_turn receive_udp_message
  udp_round a rest client n =
      let stop : Finish → UdpRun = λ finish. record {
        submitted = [];
        client = client;
        finish = finish;
        tables = a.others n;
      } in
      elim (receive_udp_message codec net_id a.packet) [
        | nothing ↦ stop returned
        | unmarshal_failed ↦ stop returned
        | invalid_message ↦ stop returned
        | UdpResult.panicked ↦ stop crashed
        | received m ↦ elim m.sender [
          | none ↦ stop crashed
          | some id ↦
              let t = udp_turn e socket id m client (a.others n) in
              submit m t (rest t.client t.tables)
        ]
      ]

  -- The loop over the packages that the socket delivers, after the last of which it waits for ever.
  unfoldable pub udp_loop : List Arrival → Option ℕ → Manager → UdpRun
  unfolding udp_round
  udp_loop [] client n = record { submitted = []; client = client; finish = running; tables = n }
  udp_loop (a ∷ arrivals) client n = udp_round a (udp_loop arrivals) client n

-- The deferred end closes the last client.
unfoldable pub end_udp : UdpRun → UdpRun
unfolding close
end_udp run = elim run.finish [
  | running ↦ run
  | returned ↦ elim run.client [ none ↦ run | some r ↦ record run { tables = close r run.tables } ]
  | crashed ↦ elim run.client [ none ↦ run | some r ↦ record run { tables = close r run.tables } ]
]

unfoldable pub accept_udp : Receiver → Codec → ℕ → ℕ → List Arrival → Manager → UdpRun
unfolding udp_loop end_udp
accept_udp e codec net_id socket arrivals n =
    end_udp (udp_loop e codec net_id socket arrivals none n)
