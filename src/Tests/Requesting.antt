-- ===== src/Tests/Requesting.antt =====
-- network/client.go: a request, its reply and an acknowledgement on concrete messages.
use carrier.Prelude.{
  ℕ, ◌≡◌, refl, arith, nat_eq, bytes_eq, bytes_beq, beq_refl, ◌==◌, Bool, true, false, [], ◌∷◌,
  ◌++◌, none, some, Bytes, if◌then◌else◌,
}
use carrier.Prelude.Table.{load, store, delete, has}
use carrier.Wire.Result.{ok, err}
use carrier.Wire.Message.{WireId, Message, header_valid}
use carrier.Wire.Signing.{Policy, serialize_message, sign, from_private_key_bytes}
use carrier.Requests.Prepare.{
  Node, Bodies, prepare, prepare_message, prepare_message_with_msg_id, add_signature,
  signature_accepted, prepare_message-accepted,
}
use carrier.Requests.Pending.{
  live, Requester, begin_request, reply, dispatch, answered, ticked, end_request, reply_timeout,
}
use carrier.Requests.Replies.{request-reply}
use carrier.Requests.OverStreams.{
  begin_stream_request, end_stream_request, begin_stream_request-unanswered,
}
use carrier.Requests.Acks.{
  send_and_track, Waiter, ack_success, async_send_and_wait_ack, receive_ack, check_ack_received,
}
use carrier.Requests.Timeouts.{check_ack_received-stuck, receive_ack-async_send_and_wait_ack}

-- A policy of keys of one byte, whose signature is the message.
abbrev pub plain_policy : Policy
plain_policy = record {
  private_key_size = 1;
  public_key_size = 1;
  sign = λ key message. message;
  verify = λ key message signature. bytes_beq message signature;
  private_to_public = λ key. some key;
  hash_bytes = λ message. message;
  is_generated = λ key. true;
  sign_verified = λ key public message own e. beq_refl message;
}

abbrev pub bytes_bodies : Bodies
bytes_bodies = record {
  Body = Bytes;
  opcode_of = λ b. some 1000;
  marshal = λ b. some b;
  unmarshal = λ code raw. some raw;
  bytes_of = λ b. none;
  unmarshal-marshal = λ b code raw coded h. ground arith;
}

abbrev sender_id : WireId
sender_id = record { address = 1 ∷ []; id = 2 ∷ []; net_key = some (5 ∷ []); connection_id = [] }

abbrev pub node : Node
node = record {
  id = sender_id;
  net_id = 7;
  keys = record { private_key = 5 ∷ []; public_key = 5 ∷ [] };
}

abbrev written_always : Message → Bool
written_always m = true

abbrev pub prepared : Bytes → Message
prepared body = record {
  message = body;
  opcode = 1000;
  sender = some sender_id;
  signature = none;
  request_nonce = 0;
  message_nonce = 0;
  reply_flag = false;
  net_id = 7;
  message_id = [];
  need_ack = false;
}

abbrev idle : Requester Bytes
idle = record { request_nonce = 0; requests = []; written = []; to_components = []; to_reader = [] }

abbrev asked : Requester Bytes
asked = record {
  request_nonce = 1;
  requests = (1, none) ∷ [];
  written = record (prepared (8 ∷ [])) { request_nonce = 1 } ∷ [];
  to_components = [];
  to_reader = [];
}

idle-asks :
    begin_request plain_policy bytes_bodies written_always false node live (8 ∷ []) idle
    ≡ (ok 1, asked)
unfolding begin_request prepare_message prepare add_signature store
idle-asks = refl

prepare_message-accepted_example :
    (header_valid 7
        (record (prepared (8 ∷ [])) { signature = some (serialize_message sender_id (8 ∷ [])) })
      ≡ true)
    × (signature_accepted plain_policy bytes_bodies
          (record (prepared (8 ∷ [])) { signature = some (serialize_message sender_id (8 ∷ [])) })
        ≡ true)
unfolding from_private_key_bytes prepare_message prepare add_signature sign
prepare_message-accepted_example =
    prepare_message-accepted plain_policy bytes_bodies (5 ∷ []) true node (8 ∷ []) 1000 refl refl
      refl refl (λ e. ground arith) refl (omega arith) refl

abbrev answer : Message
answer = record (prepared (9 ∷ [])) { request_nonce = 1; reply_flag = true }

asked-replies :
    reply plain_policy bytes_bodies written_always false node 1 (9 ∷ []) idle
    ≡ (none, record idle { written = answer ∷ [] })
unfolding reply prepare_message prepare add_signature
asked-replies = refl

request-reply_example :
    (m : Message) × (c'' : Requester Bytes) × (answer ∷ [] ≡ [] ++ (m ∷ []))
    × (end_request answered 1 (dispatch bytes_bodies true m asked) ≡ some (ok (9 ∷ []), c''))
    × (c''.to_components ≡ idle.to_components)
    × (c''.to_reader ≡ idle.to_reader)
    × ((j : ℕ) → load j c''.requests ≡ (if 1 == j then none else load j idle.requests))
request-reply_example =
    request-reply plain_policy bytes_bodies written_always false node live (8 ∷ []) idle
      (omega arith) idle-asks false node (9 ∷ []) idle asked-replies

asked-times_out :
    end_request ticked 1 asked ≡ some (err reply_timeout, record asked { requests = [] })
unfolding end_request delete
asked-times_out = refl

-- One message waits, sent at second 20; or at second 55.
abbrev sent_at : ℕ → Waiter Bytes
sent_at now = record {
  sync_wait_ack =
      (
        6 ∷ [],
        record { message = 8 ∷ []; frequency = 1; when_send = now; latest_send_success_at = 0 },
      )
      ∷ [];
  written = record (prepared (8 ∷ [])) { message_id = 6 ∷ []; need_ack = true } ∷ [];
  ack_status_notify = [];
}

abbrev no_waiting : Waiter Bytes
no_waiting = record { sync_wait_ack = []; written = []; ack_status_notify = [] }

no_waiting-sends :
    async_send_and_wait_ack plain_policy bytes_bodies written_always false node live
      (8 ∷ [])
      (6 ∷ [])
      20
      no_waiting
    ≡ (none, sent_at 20)
unfolding async_send_and_wait_ack send_and_track prepare_message_with_msg_id prepare add_signature
    has load store
no_waiting-sends = refl

receive_ack-async_send_and_wait_ack_example :
    ((k : Bytes)
      → load k (receive_ack (6 ∷ []) (sent_at 20)).sync_wait_ack ≡ load k no_waiting.sync_wait_ack)
    × ((receive_ack (6 ∷ []) (sent_at 20)).ack_status_notify ≡ [] ++ ((6 ∷ [], ack_success) ∷ []))
receive_ack-async_send_and_wait_ack_example =
    receive_ack-async_send_and_wait_ack plain_policy bytes_bodies written_always false node live
      (8 ∷ []) (6 ∷ []) 20 no_waiting no_waiting-sends

check_ack_received-stuck_example :
    load (6 ∷ []) (check_ack_received 10 3 59 (sent_at 55)).1.sync_wait_ack
    ≡ load (6 ∷ []) (sent_at 55).sync_wait_ack
check_ack_received-stuck_example =
    check_ack_received-stuck 10 3 59 (sent_at 55) (6 ∷ []) (λ e. omega arith, tt) (omega arith)

idle-asks_on_stream :
    begin_stream_request plain_policy bytes_bodies (λ m. (true, 3)) false node live (8 ∷ []) idle
    ≡ (ok (1, 3), asked)
unfolding begin_stream_request prepare_message prepare add_signature store
idle-asks_on_stream = refl

begin_stream_request-unanswered_example :
    (c : Requester Bytes) × (end_stream_request none 1 3 asked ≡ some (ok (none, 3), c))
    × (dispatch bytes_bodies true answer c
        ≡ record c { to_components = c.to_components ++ ((9 ∷ []) ∷ []) })
    × ((j : ℕ) → load j c.requests ≡ (if 1 == j then none else load j idle.requests))
begin_stream_request-unanswered_example =
    begin_stream_request-unanswered plain_policy bytes_bodies (λ m. (true, 3)) false node live
      (8 ∷ []) idle answer (9 ∷ []) idle-asks_on_stream refl refl
