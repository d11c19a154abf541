-- ===== src/Requests/Bounds.antt =====
-- network/client.go and network/components/ackreply: how many messages wait for an acknowledgement.
use carrier.Prelude.{
  ℕ, suc, ◌≤◌, ◌≡◌, refl, arith, Bool, List, [], ◌∷◌, some, Bytes, bytes_eq, length,
}
use carrier.Prelude.Table.{store, delete}
use carrier.Wire.Result.{Result, ok, err}
use carrier.Wire.Message.{Message}
use carrier.Wire.Signing.{Policy}
use carrier.Requests.Prepare.{PrepareError, Node, Bodies, prepare_message_with_msg_id}
use carrier.Requests.Pending.{Context, no_context, live, done}
use carrier.Requests.Acks.{
  PrepareAck, Waiter, default_ack_reply_capacity, send_and_track, async_send_and_wait_ack,
  receive_ack, expire, check_ack_received,
}
use carrier.Requests.Timeouts.{failed}

length-store :
    {V : Type 0} (k : Bytes) (v : V) (m : List (Bytes × V)) → length (store k v m) ≤ suc (length m)
unfolding store
length-store k v [] = omega arith
length-store k v ((j, w) ∷ m) = ground (arith, length-store k v m)

length-delete : {V : Type 0} (k : Bytes) (m : List (Bytes × V)) → length (delete k m) ≤ length m
unfolding delete
length-delete k [] = omega arith
length-delete k ((j, w) ∷ m) = ground (arith, length-delete k m)

-- At most as many messages wait as the queue of statuses has room for.
abbrev pub IsBounded : {B : Type 0} → Waiter B → Type 0
IsBounded c = length c.sync_wait_ack ≤ default_ack_reply_capacity

length-expire :
    {B : Type 0} (timeout now : ℕ) (waiting : List (Bytes × PrepareAck B)) (c : Waiter B)
    → length (expire timeout now waiting c).sync_wait_ack ≤ length c.sync_wait_ack
unfolding expire
length-expire timeout now [] c = omega arith
length-expire timeout now ((k, a) ∷ rest) c = ground (
  arith,
  length-expire timeout now rest c,
  length-expire timeout now rest (failed k c),
  length-delete k c.sync_wait_ack,
)

receive_ack-IsBounded :
    {B : Type 0} (k : Bytes) (c : Waiter B) → IsBounded c → IsBounded (receive_ack k c)
unfolding receive_ack
receive_ack-IsBounded k c h = ground (arith, length-delete k c.sync_wait_ack)

check_ack_received-IsBounded :
    {B : Type 0} (timeout interval now : ℕ) (c : Waiter B)
    → IsBounded c
    → IsBounded (check_ack_received timeout interval now c).1
unfolding check_ack_received
check_ack_received-IsBounded timeout interval now c h =
    ground (arith, length-expire timeout now c.sync_wait_ack c)

module _ (p : Policy) (t : Bodies) (write : Message → Bool) where
  send_and_track-IsBounded :
      (latest : ℕ) (signing : Bool) (n : Node) (body : t.Body) (msg_id : Bytes) (now : ℕ)
      (c : Waiter t.Body)
      → IsBounded c
      → IsBounded (send_and_track p t write latest signing n body msg_id now c).1
  unfolding send_and_track
  send_and_track-IsBounded latest signing n body msg_id now c h =
      go (prepare_message_with_msg_id p t signing n (some body) msg_id) refl
    where
      go :
          (q : Result PrepareError Message)
          → prepare_message_with_msg_id p t signing n (some body) msg_id ≡ q
          → IsBounded (send_and_track p t write latest signing n body msg_id now c).1
      go (err e) failed = ground arith
      go (ok m) prepared = ground (
        arith,
        length-store msg_id
            (record {
              message = body;
              frequency = 1;
              when_send = now;
              latest_send_success_at = latest;
            })
            c.sync_wait_ack,
      )

  async-IsBounded :
      (signing : Bool) (n : Node) (x : Context) (body : t.Body) (msg_id : Bytes) (now : ℕ)
      (c : Waiter t.Body)
      → IsBounded c
      → IsBounded (async_send_and_wait_ack p t write signing n x body msg_id now c).1
  unfolding async_send_and_wait_ack
  async-IsBounded signing n no_context body msg_id now c h = h
  async-IsBounded signing n done body msg_id now c h = h
  async-IsBounded signing n live body msg_id now c h =
      send_and_track-IsBounded 0 signing n body msg_id now c h

  -- If at most `default_ack_reply_capacity` messages wait for an acknowledgement, no more than that
  -- wait after a send, the arrival of an acknowledgement or a tick of the service.
  pub async_send_and_wait_ack-IsBounded :
      (signing : Bool) (n : Node) (x : Context) (body : t.Body) (msg_id : Bytes)
      (now timeout interval : ℕ) (c : Waiter t.Body)
      → IsBounded c
      → IsBounded (async_send_and_wait_ack p t write signing n x body msg_id now c).1
        × IsBounded (receive_ack msg_id c)
        × IsBounded (check_ack_received timeout interval now c).1
  async_send_and_wait_ack-IsBounded signing n x body msg_id now timeout interval c h = (
    async-IsBounded signing n x body msg_id now c h,
    receive_ack-IsBounded msg_id c h,
    check_ack_received-IsBounded timeout interval now c h,
  )
