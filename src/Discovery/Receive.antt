-- ===== src/Discovery/Receive.antt =====
-- network/components/discovery/component.go: the handlers of the component.
use carrier.Prelude.{Bool, true, false, List, [], ◌∷◌, Option, none, some, Bytes, if◌then◌else◌}
use carrier.Outcome.{Outcome, ok, panic}
use carrier.Peer.Identity.{PeerId, hex_encode}
use carrier.Dht.Routes.{
  RoutingTable, bucket_size, update, remove_peer, peer_exists, find_closest_peers,
}

pub record Options : Type 0 where
  pub disable_ping : Bool
  pub disable_pong : Bool
  pub disable_lookup : Bool

-- The messages that the handler tells apart. The target of a request may be nil.
pub data Packet : Type 0 where
  ping pong disconnect other_packet : Packet
  lookup_node_request : Option PeerId → Packet

-- The routes, and what the handler sets on the client.
pub record State : Type 0 where
  pub routes : RoutingTable
  pub pub_key : Bytes
  pub recv_channel_closed : Bool

-- What the handler does to the other side, in order.
pub data Effect : Type 0 where
  tell_pong close_remote_pub_key disconnect_client : Effect
  reply_peers : List PeerId → Effect

-- `Routes.Update` of each peer that `FindNode` returned.
unfoldable pub update_all : List PeerId → RoutingTable → Outcome RoutingTable
unfolding update
update_all [] t = ok t
update_all (p ∷ ps) t = elim (update t p) [ panic ↦ panic | ok t' ↦ update_all ps t' ]

-- `find` is `FindNode` towards a target, and `sent` whether a `Tell` or a `Reply` succeeds; the last
-- component says whether the handler returns nil.
module _ (options : Options) (find : PeerId → RoutingTable → Outcome (List PeerId × RoutingTable))
    (sent : Bool) where
  -- The switch on the message, after the update with the sender.
  unfoldable pub handle : PeerId → Packet → State → Outcome (State × List Effect × Bool)
  unfolding update_all find_closest_peers
  handle sender ping s =
      if options.disable_ping then ok (s, [], true) else ok (s, tell_pong ∷ [], sent)
  handle sender pong s =
      let effects = if s.recv_channel_closed then [] else close_remote_pub_key ∷ [] in
      let told : State = record s {
        pub_key = hex_encode sender.net_key;
        recv_channel_closed = true;
      } in
      elim options.disable_pong [
        | true ↦ ok (told, effects, true)
        | false ↦ elim (find sender s.routes) [
          | panic ↦ panic
          | ok (peers, t) ↦ elim (update_all peers t) [
            | panic ↦ panic
            | ok t' ↦ ok (record told { routes = t' }, effects, true)
          ]
        ]
      ]
  handle sender (lookup_node_request none) s =
      if options.disable_lookup then ok (s, [], true) else panic
  handle sender (lookup_node_request (some target)) s = elim options.disable_lookup [
    | true ↦ ok (s, [], true)
    | false ↦ elim (find_closest_peers s.routes target bucket_size) [
      | panic ↦ panic
      | ok peers ↦ ok (s, reply_peers peers ∷ [], sent)
    ]
  ]
  handle sender disconnect s = ok (s, disconnect_client ∷ [], true)
  handle sender other_packet s = ok (s, [], true)

  -- `Receive`
  unfoldable pub receive : PeerId → Packet → State → Outcome (State × List Effect × Bool)
  unfolding update handle
  receive sender m s = elim (update s.routes sender) [
    | panic ↦ panic
    | ok t ↦ handle sender m (record s { routes = t })
  ]

-- `PeerDisconnect`
unfoldable pub peer_disconnect : Option PeerId → RoutingTable → Outcome RoutingTable
unfolding peer_exists remove_peer
peer_disconnect none t = ok t
peer_disconnect (some id) t = elim (peer_exists t id) [
  | false ↦ ok t
  | true ↦ elim (remove_peer t id) [ panic ↦ panic | ok (t', was) ↦ ok t' ]
]
