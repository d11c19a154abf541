-- ===== src/Accepting/Sync.antt =====
-- network/network.go: the accept loops keep the tables in sync.
use carrier.Prelude.{
  ℕ, zero, suc, ◌+◌, ◌≢◌, Bool, true, false, Option, none, some, Bytes, Bool-cases, inl, inr, ◌&&◌,
  [], length,
}
use carrier.Peer.Identity.{public_key_hex}
use carrier.Wire.Result.{Result, ok, err}
use carrier.Wire.Channel.{Conn, content}
use carrier.Wire.Compress.{Config, Compressors}
use carrier.Wire.Message.{WireId, to_peer, Message, Codec}
use carrier.Wire.Receive.{ReceiveError, receive_message, receive_quic_message}
use carrier.Requests.Prepare.{signature_accepted}
use carrier.ConnMgr.State.{other, Manager, Reply}
use carrier.ConnMgr.Operations.{
  Incoming, get_or_set_peer_client, connection_state_exists, client_peer_id, set_client_id,
}
use carrier.ConnMgr.Sync.{IsSync}
use carrier.ConnMgr.Calls.{close-IsSync, get_or_set_peer_client-IsSync}
use carrier.Telling.Sync.{tell-IsSync}
use carrier.Accepting.Loop.{
  broken_off, Receiver, Verdict, handed, refused, panicked, Run, proceed, has_message_id, same_id,
  acknowledge, check_message, after_client, inbound, accept_message, accept_loop, run_loop,
  end_loop, accept, accept_quic,
}

module _ (e : Receiver) (acking : Bool) (now : ℕ) where
  acknowledge-IsSync :
      (r : ℕ) (m : Message) (n : Manager) → IsSync n → IsSync (acknowledge e acking now r m n)
  unfolding acknowledge
  acknowledge-IsSync r m n h = elim (Bool-cases (acking && e.replies r && has_message_id m)) [
    | inl wanted ↦ rw wanted (tell-IsSync e.speaker false r (some (e.ack now m.message_id)) n h)
    | inr silent ↦ rw silent h
  ]

  check_message-IsSync :
      (r : ℕ) (id : WireId) (m : Message) (n : Manager)
      → IsSync n
      → IsSync (check_message e acking now r id m n).1
  unfolding check_message
  check_message-IsSync r id m n h =
      elim (Bool-cases (connection_state_exists (client_peer_id (n.clients r)) n)) [
        | inr missing ↦ rw missing h
        | inl there ↦ elim (Bool-cases (signature_accepted e.speaker.policy e.speaker.bodies m)) [
          | inr malformed ↦ rw (there, malformed) h
          | inl good ↦ elim (Bool-cases (same_id (n.clients r) (to_peer id))) [
            | inr differs ↦ rw (there, good, differs) h
            | inl same ↦ rw (there, good, same) (acknowledge-IsSync r m n h)
          ]
        ]
      ]

  after_client-IsSync :
      (id : WireId) (m : Message) (r : Reply ℕ × Manager)
      → IsSync r.1
      → IsSync (after_client e acking now id m r).1
  unfolding after_client set_client_id
  after_client-IsSync id m (Reply.err x, n) h = h
  after_client-IsSync id m (Reply.ok r, n) h =
      check_message-IsSync r id m (set_client_id r (to_peer id) n) h

  pub accept_message-IsSync :
      (incoming : Incoming) (m : Message) (n : Manager)
      → ((a : Bytes) → e.outside.protocol a ≢ some other)
      → IsSync n
      → IsSync (accept_message e acking now incoming m n).1
  unfolding accept_message
  accept_message-IsSync incoming m n supported h = go m.sender
    where
      go :
          (s : Option WireId)
          → IsSync
              (elim s as (λ x. Verdict × Manager) [
                | none ↦ (panicked, n)
                | some id ↦ after_client e acking now id m (
                    get_or_set_peer_client e.outside id.address
                      (public_key_hex (to_peer id))
                      (inbound e acking now incoming)
                      n)
              ]).1
      go none = h
      go (some id) =
          let inner = inbound e acking now incoming in
          after_client-IsSync id m
            (get_or_set_peer_client e.outside id.address (public_key_hex (to_peer id)) inner n)
            (get_or_set_peer_client-IsSync e.outside id.address (public_key_hex (to_peer id)) inner
              n supported h)

proceed-IsSync :
    (m : Message) (v : Verdict × Manager) (rest : Manager → Run)
    → IsSync v.1
    → ((n : Manager) → IsSync n → IsSync (rest n).tables)
    → IsSync (proceed m v rest).tables
proceed-IsSync m (refused, n) rest h after = h
proceed-IsSync m (panicked, n) rest h after = h
proceed-IsSync m (handed r, n) rest h after = after n h

module _ (e : Receiver) (acking : Bool) (incoming : Incoming)
    (receive : Conn → Result ReceiveError (Message × Conn)) (others : ℕ → Manager → Manager)
    (supported : (a : Bytes) → e.outside.protocol a ≢ some other)
    (keep : (turn : ℕ) (n : Manager) → IsSync n → IsSync (others turn n)) where
  accept_loop-IsSync :
      (fuel turn : ℕ) (conn : Conn) (n : Manager)
      → IsSync n
      → IsSync (accept_loop e acking incoming receive others fuel turn conn n).tables
  unfolding accept_loop
  accept_loop-IsSync zero turn conn n h = h
  accept_loop-IsSync (suc fuel) turn conn n h = go (receive conn) (λ m conn'.
      proceed-IsSync m _ _
        (accept_message-IsSync e acking turn incoming m _ supported (keep turn n h))
        (λ n'. accept_loop-IsSync fuel (turn + 1) conn' n'))
    where
      go :
          (r : Result ReceiveError (Message × Conn))
          → ((m : Message) (conn' : Conn)
              → IsSync
                  (proceed m
                    (accept_message e acking turn incoming m (others turn n))
                    (accept_loop e acking incoming receive others fuel (turn + 1) conn')).tables)
          → IsSync
              (elim r as (λ x. Run) [
                | err x ↦ record { handed_over = []; finish = broken_off x; tables = others turn n }
                | ok (m, conn') ↦
                    proceed m
                      (accept_message e acking turn incoming m (others turn n))
                      (accept_loop e acking incoming receive others fuel (turn + 1) conn')
              ]).tables
      go (err x) after = keep turn n h
      go (ok (m, conn')) after = after m conn'

  run_loop-IsSync :
      (conn : Conn) (n : Manager)
      → IsSync n
      → IsSync (run_loop e acking incoming receive others conn n).tables
  unfolding run_loop
  run_loop-IsSync conn n h = accept_loop-IsSync (suc (length (content conn))) 0 conn n h

end_loop-IsSync :
    (cli : Option ℕ) (run : Run) → IsSync run.tables → IsSync (end_loop cli run).tables
unfolding end_loop
end_loop-IsSync none run h = h
end_loop-IsSync (some r) run h = close-IsSync r run.tables h

-- Whatever a connection delivers, valid or not, and whatever the loop's own acknowledgements do, the
-- tables are in sync when `Accept` or `AcceptQuic` ends, if they were at its start, the other
-- goroutines keep them so, and the addresses have supported schemes.
pub accept-IsSync :
    (e : Receiver) (codec : Codec) (z : Compressors) (c : Config) (incoming : Incoming)
    (others : ℕ → Manager → Manager) (cli : Option ℕ) (conn : Conn) (n : Manager)
    → ((a : Bytes) → e.outside.protocol a ≢ some other)
    → ((turn : ℕ) (n : Manager) → IsSync n → IsSync (others turn n))
    → IsSync n
    → IsSync (accept e codec z c incoming others cli conn n).tables
      × IsSync (accept_quic e codec z c incoming others cli conn n).tables
unfolding accept accept_quic
accept-IsSync e codec z c incoming others cli conn n supported keep h = (
  end_loop-IsSync cli (run_loop e true incoming (receive_message codec z c) others conn n)
      (run_loop-IsSync e true incoming (receive_message codec z c) others supported keep conn n h),
  end_loop-IsSync cli (run_loop e false incoming (receive_quic_message codec z c) others conn n) (
      run_loop-IsSync e false incoming (receive_quic_message codec z c) others supported keep conn n
        h),
)
