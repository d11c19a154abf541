-- ===== src/Requests/Pending.antt =====
-- network/client.go: requests and replies of one client; network/network.go: where a reply goes.
-- A blocking call is two steps, up to the write and from the wake-up on.
use carrier.Prelude.{
  ℕ, ◌+◌, nat_eq, Bool, true, List, [], ◌∷◌, ◌++◌, Option, none, some, Bytes, not, if◌then◌else◌,
  ◌&&◌, leb, ◌%◌, ◌^◌,
}
use carrier.Prelude.Table.{load, store, delete}
use carrier.Wire.Result.{Result, ok, err}
use carrier.Wire.Message.{Message}
use carrier.Requests.Prepare.{PrepareError, Node, Bodies, prepare_message}
use carrier.Wire.Signing.{Policy}

-- A context is nil, live, or done with its error.
pub data Context : Type 0 where
  no_context live done : Context

pub data RequestError : Type 0 where
  invalid_context context_done reply_timeout : RequestError
  unprepared : PrepareError → RequestError
  write_failed : RequestError

-- The requests of a client, with what stands in each channel, which has room for one reply, what has
-- been written to the connection, and what the components and `handleBytes` were given.
pub record Requester (B : Type 0) : Type 0 where
  pub request_nonce : ℕ
  pub requests : List (ℕ × Option B)
  pub written : List Message
  pub to_components : List B
  pub to_reader : List Bytes

module _ (p : Policy) (t : Bodies) (write : Message → Bool) where
  -- `Request`, up to the write: a request that cannot be written is not tracked any longer.
  unfoldable pub begin_request :
      Bool → Node → Context → t.Body → Requester t.Body → Result RequestError ℕ × Requester t.Body
  unfolding prepare_message
  begin_request signing n no_context body c = (err invalid_context, c)
  begin_request signing n done body c = (err context_done, c)
  begin_request signing n live body c = elim (prepare_message p t signing n (some body)) [
    | err e ↦ (err (unprepared e), c)
    | ok m ↦
        let nonce = (c.request_nonce + 1) % 2 ^ 64 in
        let signed = record m { request_nonce = nonce } in
        let tracked = record c { request_nonce = nonce; requests = store nonce none c.requests } in
        if write signed
        then (ok nonce, record tracked { written = c.written ++ (signed ∷ []) })
        else (err write_failed, record tracked { requests = delete nonce tracked.requests })
  ]

  -- `Reply`
  unfoldable pub reply :
      Bool → Node → ℕ → t.Body → Requester t.Body → Option RequestError × Requester t.Body
  unfolding prepare_message
  reply signing n nonce body c = elim (prepare_message p t signing n (some body)) [
    | err e ↦ (some (unprepared e), c)
    | ok m ↦
        let answer = record m { request_nonce = nonce; reply_flag = true } in
        if write answer
        then (none, record c { written = c.written ++ (answer ∷ []) })
        else (some write_failed, c)
  ]

-- What the `select` of `Request` wakes up with.
pub data Wake : Type 0 where
  ticked answered cancelled : Wake

module _ {B : Type 0} where
  -- The send on a channel with room for one: a full one takes nothing until its request ends.
  abbrev offer : B → Option B → Option B
  offer b none = some b
  offer b (some a) = some a

  -- `none` stands for an answer that has not come.
  unfoldable pub end_request : Wake → ℕ → Requester B → Option (Result RequestError B × Requester B)
  end_request ticked nonce c =
      some (err reply_timeout, record c { requests = delete nonce c.requests })
  end_request cancelled nonce c =
      some (err context_done, record c { requests = delete nonce c.requests })
  end_request answered nonce c = elim (load nonce c.requests) [
    | none ↦ none
    | some none ↦ none
    | some (some b) ↦ some (ok b, record c { requests = delete nonce c.requests })
  ]

module _ (t : Bodies) where
  -- A body that no request waits for.
  unfoldable pub forward : t.Body → Requester t.Body → Requester t.Body
  forward b c = elim (t.bytes_of b) [
    | none ↦ record c { to_components = c.to_components ++ (b ∷ []) }
    | some raw ↦ record c { to_reader = c.to_reader ++ (raw ∷ []) }
  ]

  unfoldable pub route : Message → t.Body → Requester t.Body → Requester t.Body
  unfolding forward
  route m b c =
      if leb 1 m.request_nonce && m.reply_flag
      then elim (load m.request_nonce c.requests) [
        | none ↦ forward b c
        | some waiting ↦ record c { requests = store m.request_nonce (offer b waiting) c.requests }
      ]
      else forward b c

  -- `dispatchMessage`; `ready` is `IsIncomingReady` of the client. A message that cannot be
  -- unmarshalled is dropped.
  unfoldable pub dispatch : Bool → Message → Requester t.Body → Requester t.Body
  unfolding route
  dispatch ready m c =
      if not ready
      then c
      else elim (t.unmarshal m.opcode m.message) [ none ↦ c | some b ↦ route m b c ]
