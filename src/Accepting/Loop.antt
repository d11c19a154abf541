-- ===== src/Accepting/Loop.antt =====
-- network/network.go: `Accept` and `AcceptQuic`. The loops share what they do with one message.
use carrier.Prelude.{
  ℕ, zero, suc, ◌+◌, Bool, true, false, not, ◌&&◌, List, [], ◌∷◌, Option, none, some, Bytes,
  if◌then◌else◌, length,
}
use carrier.Peer.Identity.{PeerId, equals, public_key_hex}
use carrier.Wire.Result.{Result, ok, err}
use carrier.Wire.Channel.{Conn, content}
use carrier.Wire.Compress.{Config, Compressors}
use carrier.Wire.Message.{WireId, to_peer, Message, Codec}
use carrier.Wire.Receive.{ReceiveError, uncompress_panicked, receive_message, receive_quic_message}
use carrier.Requests.Prepare.{signature_accepted}
use carrier.ConnMgr.State.{Outside, Client, Manager, Reply}
use carrier.ConnMgr.Operations.{
  Incoming, no_conn, get_or_set_peer_client, connection_state_exists, client_peer_id, set_client_id,
  close,
}
use carrier.Telling.Tell.{Speaker, tell}

-- What the loops work with, besides the tables. `replies` is `EnableAckReply` of the clients, and
-- `ack` the `AsyncAckResponse` to a message id, with the second that it is sent in.
pub record Receiver : Type 1 where
  pub outside : Outside
  pub speaker : Speaker
  pub proxy_mode : Bool
  pub replies : ℕ → Bool
  pub ack : ℕ → Bytes → speaker.bodies.Body

-- What became of a message: it went to `dispatchMessage` for a client, or it ended the loop.
pub data Verdict : Type 0 where
  handed : ℕ → Verdict
  refused panicked : Verdict

pub data Finish : Type 0 where
  returned crashed running : Finish

pub record Run : Type 0 where
  pub handed_over : List (ℕ × Message)
  pub finish : Finish
  pub tables : Manager

-- `client.ID.Equals(peer.ID(*msg.Sender))`
abbrev pub same_id : Client → PeerId → Bool
same_id c id = elim c.id [ none ↦ false | some own ↦ equals own id ]

abbrev pub has_message_id : Message → Bool
has_message_id m = elim m.message_id [ [] ↦ false | b ∷ rest ↦ true ]

-- `now` is the number of the turn, `acking` whether the loop acknowledges.
module _ (e : Receiver) (acking : Bool) (now : ℕ) where
  unfoldable pub acknowledge : ℕ → Message → Manager → Manager
  unfolding tell
  acknowledge r m n =
      if acking && e.replies r && has_message_id m
      then (tell e.speaker false r (some (e.ack now m.message_id)) n).1
      else n

  -- The checks of a message whose client is there.
  unfoldable pub check_message : ℕ → WireId → Message → Manager → Verdict × Manager
  unfolding acknowledge connection_state_exists client_peer_id signature_accepted equals
  check_message r id m n =
      if not (connection_state_exists (client_peer_id (n.clients r)) n)
      then (refused, n)
      else if not (signature_accepted e.speaker.policy e.speaker.bodies m)
      then (refused, n)
      else if not (same_id (n.clients r) (to_peer id))
      then (refused, n)
      else (handed r, acknowledge r m n)

  unfoldable pub after_client : WireId → Message → Reply ℕ × Manager → Verdict × Manager
  unfolding check_message set_client_id to_peer
  after_client id m (Reply.err x, n) = (refused, n)
  after_client id m (Reply.ok r, n) = check_message r id m (set_client_id r (to_peer id) n)

  -- In the proxy mode a client gets a connection of its own.
  abbrev pub inbound : Incoming → Incoming
  inbound incoming = if e.proxy_mode then no_conn else incoming

  -- One message of the loop; `msg.Sender` is dereferenced.
  unfoldable pub accept_message : Incoming → Message → Manager → Verdict × Manager
  unfolding after_client get_or_set_peer_client public_key_hex
  accept_message incoming m n = elim m.sender [
    | none ↦ (panicked, n)
    | some id ↦ after_client id m (
        get_or_set_peer_client e.outside id.address (public_key_hex (to_peer id)) (inbound incoming)
          n)
  ]

-- How an error of the receiving side ends the loop.
abbrev pub broken_off : ReceiveError → Finish
broken_off uncompress_panicked = crashed
broken_off x = returned

abbrev pub proceed : Message → Verdict × Manager → (Manager → Run) → Run
proceed m (refused, n) rest = record { handed_over = []; finish = returned; tables = n }
proceed m (panicked, n) rest = record { handed_over = []; finish = crashed; tables = n }
proceed m (handed r, n) rest =
    let run = rest n in record run { handed_over = (r, m) ∷ run.handed_over }

module _ (e : Receiver) (acking : Bool) (incoming : Incoming)
    (receive : Conn → Result ReceiveError (Message × Conn)) (others : ℕ → Manager → Manager) where
  -- The loop, on fuel: `turn` counts the messages, and `others` is what the other goroutines do to
  -- the tables while the loop waits for a message.
  unfoldable pub accept_loop : ℕ → ℕ → Conn → Manager → Run
  unfolding accept_message
  accept_loop zero turn conn n = record { handed_over = []; finish = running; tables = n }
  accept_loop (suc fuel) turn conn n = elim (receive conn) [
    | err x ↦ record { handed_over = []; finish = broken_off x; tables = others turn n }
    | ok (m, conn') ↦
        proceed m (accept_message e acking turn incoming m (others turn n))
          (accept_loop fuel (turn + 1) conn')
  ]

  -- A message takes bytes of the connection, so there is fuel for all of them.
  unfoldable pub run_loop : Conn → Manager → Run
  unfolding accept_loop
  run_loop conn n = accept_loop (suc (length (content conn))) 0 conn n

-- The deferred end: `cli` is the client of a connection that was dialed.
unfoldable pub end_loop : Option ℕ → Run → Run
unfolding close
end_loop none run = run
end_loop (some r) run = record run { tables = close r run.tables }

module _ (e : Receiver) (codec : Codec) (z : Compressors) (c : Config) (incoming : Incoming)
    (others : ℕ → Manager → Manager) (cli : Option ℕ) where
  unfoldable pub accept : Conn → Manager → Run
  unfolding run_loop end_loop receive_message
  accept conn n = end_loop cli (run_loop e true incoming (receive_message codec z c) others conn n)

  unfoldable pub accept_quic : Conn → Manager → Run
  unfolding run_loop end_loop receive_quic_message
  accept_quic conn n =
      end_loop cli (run_loop e false incoming (receive_quic_message codec z c) others conn n)
