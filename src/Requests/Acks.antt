-- ===== src/Requests/Acks.antt =====
-- network/client.go: messages that wait for an acknowledgement; network/components/ackreply: the
-- component that takes the acknowledgements and looks for what is overdue.
use carrier.Prelude.{
  ℕ, ◌+◌, Bool, List, [], ◌∷◌, ◌++◌, Option, none, some, Bytes, bytes_eq, if◌then◌else◌, leb, ltb,
  length, ◌%◌,
}
use carrier.Prelude.Table.{load, store, delete, has}
use carrier.Wire.Result.{ok, err}
use carrier.Wire.Message.{Message}
use carrier.Wire.Signing.{Policy}
use carrier.Requests.Prepare.{PrepareError, Node, Bodies, prepare_message_with_msg_id}
use carrier.Requests.Pending.{Context, no_context, live, done}

pub data AckError : Type 0 where
  invalid_context context_done filled_fully already_waiting write_failed : AckError
  unprepared : PrepareError → AckError

-- `PrepareAckMessage`, under its message's ID; the times are seconds of the clock's minute.
pub record PrepareAck (B : Type 0) : Type 0 where
  pub message : B
  pub frequency : ℕ
  pub when_send : ℕ
  pub latest_send_success_at : ℕ

pub data AckStatus : Type 0 where
  ack_success ack_failed : AckStatus

pub record Waiter (B : Type 0) : Type 0 where
  pub sync_wait_ack : List (Bytes × PrepareAck B)
  pub written : List Message
  pub ack_status_notify : List (Bytes × AckStatus)

abbrev pub default_ack_reply_capacity : ℕ
default_ack_reply_capacity = 4096

module _ (p : Policy) (t : Bodies) (write : Message → Bool) where
  -- What the two sends share, after the checks of the context; `latest` is what they store as the
  -- time of the latest success, which `AsyncSendAndWaitAck` leaves at 0.
  unfoldable pub send_and_track :
      ℕ → Bool → Node → t.Body → Bytes → ℕ → Waiter t.Body → Option AckError × Waiter t.Body
  unfolding has prepare_message_with_msg_id
  send_and_track latest signing n body msg_id now c =
      if leb default_ack_reply_capacity (length c.sync_wait_ack)
      then (some filled_fully, c)
      else if has msg_id c.sync_wait_ack
      then (some already_waiting, c)
      else elim (prepare_message_with_msg_id p t signing n (some body) msg_id) [
        | err e ↦ (some (unprepared e), c)
        | ok m ↦
            if write m
            then (
              none,
              record c {
                written = c.written ++ (m ∷ []);
                sync_wait_ack =
                    store msg_id
                      (record {
                        message = body;
                        frequency = 1;
                        when_send = now;
                        latest_send_success_at = latest;
                      })
                      c.sync_wait_ack;
              },
            )
            else (some write_failed, c)
      ]

  unfoldable pub async_send_and_wait_ack :
      Bool → Node → Context → t.Body → Bytes → ℕ → Waiter t.Body → Option AckError × Waiter t.Body
  unfolding send_and_track
  async_send_and_wait_ack signing n no_context body msg_id now c = (some invalid_context, c)
  async_send_and_wait_ack signing n done body msg_id now c = (some context_done, c)
  async_send_and_wait_ack signing n live body msg_id now c =
      send_and_track 0 signing n body msg_id now c

  unfoldable pub stream_async_send_and_wait_ack :
      Bool → Node → Context → t.Body → Bytes → ℕ → Waiter t.Body → Option AckError × Waiter t.Body
  unfolding send_and_track
  stream_async_send_and_wait_ack signing n no_context body msg_id now c = (some invalid_context, c)
  stream_async_send_and_wait_ack signing n done body msg_id now c = (some context_done, c)
  stream_async_send_and_wait_ack signing n live body msg_id now c =
      send_and_track now signing n body msg_id now c

module _ {B : Type 0} where
  -- `Receive` of an `AsyncAckResponse`
  unfoldable pub receive_ack : Bytes → Waiter B → Waiter B
  receive_ack msg_id c = record c {
    sync_wait_ack = delete msg_id c.sync_wait_ack;
    ack_status_notify = c.ack_status_notify ++ ((msg_id, ack_success) ∷ []);
  }

  -- `WhenSend` lies more than the timeout back.
  unfoldable pub is_overdue : ℕ → ℕ → PrepareAck B → Bool
  is_overdue timeout now a = ltb (a.when_send + timeout) now

  -- What one tick does to the messages that it finds.
  unfoldable pub expire : ℕ → ℕ → List (Bytes × PrepareAck B) → Waiter B → Waiter B
  unfolding is_overdue
  expire timeout now [] c = c
  expire timeout now ((msg_id, a) ∷ rest) c =
      if is_overdue timeout now a
      then expire timeout now rest (record c {
        sync_wait_ack = delete msg_id c.sync_wait_ack;
        ack_status_notify = c.ack_status_notify ++ ((msg_id, ack_failed) ∷ []);
      })
      else expire timeout now rest c

  -- What one tick sends again, later: what is neither overdue nor fresh, and has had no success for
  -- longer than the interval.
  unfoldable pub resent : ℕ → ℕ → ℕ → List (Bytes × PrepareAck B) → List Bytes
  unfolding is_overdue
  resent timeout interval now [] = []
  resent timeout interval now ((msg_id, a) ∷ rest) =
      let others = resent timeout interval now rest in
      if is_overdue timeout now a
      then others
      else if ltb now (a.when_send + interval)
      then others
      else if ltb (a.latest_send_success_at + interval) now
      then msg_id ∷ others
      else others

  unfoldable pub check_ack_received : ℕ → ℕ → ℕ → Waiter B → List Bytes × Waiter B
  unfolding expire resent
  check_ack_received timeout interval now c =
      (resent timeout interval now c.sync_wait_ack, expire timeout now c.sync_wait_ack c)

  -- The end of a resend: the times and the count of the message, if it still waits.
  unfoldable pub resend : Bool → Bytes → ℕ → Waiter B → Waiter B
  resend sent msg_id now c = elim (load msg_id c.sync_wait_ack) [
    | none ↦ c
    | some a ↦
        let latest = if sent then now else a.latest_send_success_at in
        record c {
          sync_wait_ack =
              store msg_id
                (record a { frequency = (a.frequency + 1) % 256; latest_send_success_at = latest })
                c.sync_wait_ack;
        }
  ]
