-- ===== src/Requests/Timeouts.antt =====
-- network/client.go and network/components/ackreply: for how long messages wait for an
-- acknowledgement.
use carrier.Prelude.{
  ℕ, ◌+◌, ◌≤◌, ◌<◌, ◌≡◌, refl, arith, Bool, true, false, List, [], ◌∷◌, ◌++◌, none, some, Bytes,
  bytes_eq, bytes_beq_iff, ◌==◌, length, All,
}
use carrier.Prelude.Table.{load, store, delete, has, load-store, load-delete, has-load}
use carrier.Wire.Result.{Result, ok, err}
use carrier.Wire.Message.{Message}
use carrier.Wire.Signing.{Policy}
use carrier.Requests.Prepare.{PrepareError, Node, Bodies, prepare_message_with_msg_id}
use carrier.Requests.Pending.{Context, no_context, live, done}
use carrier.Requests.Acks.{
  PrepareAck, Waiter, ack_success, ack_failed, default_ack_reply_capacity, send_and_track,
  async_send_and_wait_ack, receive_ack, is_overdue, expire, check_ack_received,
}

abbrev pub failed : {B : Type 0} → Bytes → Waiter B → Waiter B
failed k c = record c {
  sync_wait_ack = delete k c.sync_wait_ack;
  ack_status_notify = c.ack_status_notify ++ ((k, ack_failed) ∷ []);
}

-- An ID that does not wait does not come to wait by a tick.
load-expire-none :
    {B : Type 0} (timeout now : ℕ) (waiting : List (Bytes × PrepareAck B)) (c : Waiter B)
    (k : Bytes)
    → load k c.sync_wait_ack ≡ none
    → load k (expire timeout now waiting c).sync_wait_ack ≡ none
unfolding expire
load-expire-none timeout now [] c k gone = gone
load-expire-none timeout now ((j, a) ∷ rest) c k gone = ground (
  arith,
  load-expire-none timeout now rest c k gone,
  load-expire-none timeout now rest (failed j c) k,
  load-delete j k c.sync_wait_ack,
)

expire-overdue :
    {B : Type 0} (timeout now : ℕ) (waiting : List (Bytes × PrepareAck B)) (c : Waiter B)
    (k : Bytes) {a : PrepareAck B}
    → load k waiting ≡ some a
    → is_overdue timeout now a ≡ true
    → load k (expire timeout now waiting c).sync_wait_ack ≡ none
unfolding expire is_overdue load
expire-overdue timeout now [] c k {a = a} found late = ground arith
expire-overdue timeout now ((j, b) ∷ rest) c k {a = a} found late = ground (
  arith,
  λ (e : load k rest ≡ some a). expire-overdue timeout now rest c k {a = a} e late,
  λ (e : load k rest ≡ some a). expire-overdue timeout now rest (failed j c) k {a = a} e late,
  load-expire-none timeout now rest (failed j c) k,
  load-delete j k c.sync_wait_ack,
)

-- A tick gives up every message that is overdue: it does not wait any longer.
check_ack_received-overdue :
    {B : Type 0} (timeout interval now : ℕ) (c : Waiter B) (k : Bytes) {a : PrepareAck B}
    → load k c.sync_wait_ack ≡ some a
    → a.when_send + timeout < now
    → load k (check_ack_received timeout interval now c).1.sync_wait_ack ≡ none
unfolding check_ack_received is_overdue
check_ack_received-overdue timeout interval now c k {a = a} found late =
    expire-overdue timeout now c.sync_wait_ack c k found (ground arith)

expire-late :
    {B : Type 0} (timeout now : ℕ) (waiting : List (Bytes × PrepareAck B)) (c : Waiter B)
    (k : Bytes)
    → All (λ e. (e.0 == k) ≡ true → 59 ≤ e.1.when_send + timeout) waiting
    → now < 60
    → load k (expire timeout now waiting c).sync_wait_ack ≡ load k c.sync_wait_ack
unfolding expire is_overdue
expire-late timeout now [] c k late clock = refl
expire-late timeout now ((j, a) ∷ rest) c k late clock = ground (
  arith,
  late.0,
  expire-late timeout now rest c k late.1 clock,
  expire-late timeout now rest (failed j c) k late.1 clock,
  load-delete j k c.sync_wait_ack,
)

-- Whatever a tick's second is, and whatever else waits: it does not give up an ID whose message was
-- sent in the last `timeout` seconds of a minute or in the one before them: the clock's second is below
-- 60, so it is never that far ahead of theirs.
pub check_ack_received-stuck :
    {B : Type 0} (timeout interval now : ℕ) (c : Waiter B) (k : Bytes)
    → All (λ e. (e.0 == k) ≡ true → 59 ≤ e.1.when_send + timeout) c.sync_wait_ack
    → now < 60
    → load k (check_ack_received timeout interval now c).1.sync_wait_ack ≡ load k c.sync_wait_ack
unfolding check_ack_received
check_ack_received-stuck timeout interval now c k late clock =
    expire-late timeout now c.sync_wait_ack c k late clock

module _ (p : Policy) (t : Bodies) (write : Message → Bool) where
  send_and_track-inv :
      (latest : ℕ) (signing : Bool) (n : Node) (body : t.Body) (msg_id : Bytes) (now : ℕ)
      (c : Waiter t.Body) {c' : Waiter t.Body}
      → send_and_track p t write latest signing n body msg_id now c ≡ (none, c')
      → (a : PrepareAck t.Body) × (c'.sync_wait_ack ≡ store msg_id a c.sync_wait_ack)
        × (has msg_id c.sync_wait_ack ≡ false)
        × (length c.sync_wait_ack < default_ack_reply_capacity)
        × (c'.ack_status_notify ≡ c.ack_status_notify)
  unfolding send_and_track
  send_and_track-inv latest signing n body msg_id now c {c'} h =
      go (prepare_message_with_msg_id p t signing n (some body) msg_id) refl
    where
      go :
          (q : Result PrepareError Message)
          → prepare_message_with_msg_id p t signing n (some body) msg_id ≡ q
          → (a : PrepareAck t.Body) × (c'.sync_wait_ack ≡ store msg_id a c.sync_wait_ack)
            × (has msg_id c.sync_wait_ack ≡ false)
            × (length c.sync_wait_ack < default_ack_reply_capacity)
            × (c'.ack_status_notify ≡ c.ack_status_notify)
      go (err e) failed = ground arith
      go (ok m) prepared = (
        record { message = body; frequency = 1; when_send = now; latest_send_success_at = latest },
        ground arith,
        ground arith,
        ground arith,
        ground arith,
      )

  -- A message that is sent and then acknowledged leaves no trace among the waiting ones: every ID
  -- has what it had before the send, and the success is reported, whatever waited besides.
  pub receive_ack-async_send_and_wait_ack :
      (signing : Bool) (n : Node) (x : Context) (body : t.Body) (msg_id : Bytes) (now : ℕ)
      (c : Waiter t.Body) {c' : Waiter t.Body}
      → async_send_and_wait_ack p t write signing n x body msg_id now c ≡ (none, c')
      → ((k : Bytes) → load k (receive_ack msg_id c').sync_wait_ack ≡ load k c.sync_wait_ack)
        × ((receive_ack msg_id c').ack_status_notify
            ≡ c.ack_status_notify ++ ((msg_id, ack_success) ∷ []))
  unfolding async_send_and_wait_ack receive_ack
  receive_ack-async_send_and_wait_ack signing n no_context body msg_id now c h = ground arith
  receive_ack-async_send_and_wait_ack signing n done body msg_id now c h = ground arith
  receive_ack-async_send_and_wait_ack signing n live body msg_id now c {c'} h =
      let (a, tracked, new, room, same) = send_and_track-inv 0 signing n body msg_id now c h in
      (
        λ k. ground (
          arith,
          tracked,
          load-delete msg_id k c'.sync_wait_ack,
          load-store msg_id k a c.sync_wait_ack,
          has-load msg_id c.sync_wait_ack new,
          bytes_beq_iff msg_id k,
        ),
        ground arith,
      )
