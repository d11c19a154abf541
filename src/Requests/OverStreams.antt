-- ===== src/Requests/OverStreams.antt =====
-- network/client.go: `StreamRequest` and `StreamReply`.
use carrier.Prelude.{
  ℕ, ◌+◌, ◌≡◌, refl, ap, ◌∙◌, arith, nat_eq, ◌==◌, Bool, true, [], ◌∷◌, ◌++◌, Option, none, some,
  if◌then◌else◌, ◌%◌, ◌^◌,
}
use carrier.Prelude.Table.{
  load, store, delete, load-store, load-delete, load-store_self, load-delete_self,
}
use carrier.Wire.Result.{Result, ok, err}
use carrier.Wire.Message.{Message}
use carrier.Wire.Signing.{Policy}
use carrier.Requests.Prepare.{Node, Bodies, prepare_message}
use carrier.Requests.Pending.{
  Context, no_context, live, done, RequestError, invalid_context, context_done, unprepared,
  write_failed, Requester, forward, route, dispatch, Wake, end_request,
}

-- `write` is `StreamWrite`: whether it succeeds, and the bytes that it counts.
module _ (p : Policy) (t : Bodies) (write : Message → Bool × ℕ) where
  -- `StreamRequest`, up to the write: the nonce, and the bytes written.
  unfoldable pub begin_stream_request :
      Bool
      → Node
      → Context
      → t.Body
      → Requester t.Body
      → Result RequestError (ℕ × ℕ) × Requester t.Body
  unfolding prepare_message
  begin_stream_request signing n no_context body c = (err invalid_context, c)
  begin_stream_request signing n done body c = (err context_done, c)
  begin_stream_request signing n live body c = elim (prepare_message p t signing n (some body)) [
    | err e ↦ (err (unprepared e), c)
    | ok m ↦
        let nonce = (c.request_nonce + 1) % 2 ^ 64 in
        let signed = record m { request_nonce = nonce } in
        let tracked = record c { request_nonce = nonce; requests = store nonce none c.requests } in
        let (success, bytes) = write signed in
        if success
        then (ok (nonce, bytes), record tracked { written = c.written ++ (signed ∷ []) })
        else (err write_failed, record tracked { requests = delete nonce tracked.requests })
  ]

  -- `StreamReply`, whose count of bytes is 0 but for a write that fails.
  unfoldable pub stream_reply :
      Bool → Node → ℕ → t.Body → Requester t.Body → (Option RequestError × ℕ) × Requester t.Body
  unfolding prepare_message
  stream_reply signing n nonce body c = elim (prepare_message p t signing n (some body)) [
    | err e ↦ ((some (unprepared e), 0), c)
    | ok m ↦
        let answer = record m { request_nonce = nonce; reply_flag = true } in
        let (success, bytes) = write answer in
        if success
        then ((none, 0), record c { written = c.written ++ (answer ∷ []) })
        else ((some write_failed, bytes), c)
  ]

module _ {B : Type 0} where
  abbrev pub without_bytes :
      Option (Result RequestError B × Requester B)
      → Option (Result RequestError (Option B × ℕ) × Requester B)
  without_bytes none = none
  without_bytes (some (err e, c)) = some (err e, c)
  without_bytes (some (ok b, c)) = some (ok (some b, 0), c)

  -- The `select` has a default branch, `none` here, which a reply that is there keeps it from taking.
  unfoldable pub end_stream_request :
      Option Wake → ℕ → ℕ → Requester B → Option (Result RequestError (Option B × ℕ) × Requester B)
  unfolding end_request
  end_stream_request (some w) nonce bytes c = without_bytes (end_request w nonce c)
  end_stream_request none nonce bytes c =
      let ended = some (ok (none, bytes), record c { requests = delete nonce c.requests }) in
      elim (load nonce c.requests) [ none ↦ ended | some none ↦ ended | some (some b) ↦ none ]

module _ (p : Policy) (t : Bodies) (write : Message → Bool × ℕ) where
  -- A begun request has an empty channel under its nonce.
  begin_stream_request-inv :
      (signing : Bool) (n : Node) (x : Context) (body : t.Body) (c : Requester t.Body) {k bytes : ℕ}
      {c' : Requester t.Body}
      → begin_stream_request p t write signing n x body c ≡ (ok (k, bytes), c')
      → c'.requests ≡ store k none c.requests
  unfolding begin_stream_request
  begin_stream_request-inv signing n no_context body c h = ground arith
  begin_stream_request-inv signing n done body c h = ground arith
  begin_stream_request-inv signing n live body c h = ground arith

  -- A `StreamRequest` whose reply is not there as soon as its message is written returns neither a
  -- reply nor an error, and is tracked no longer. A message that answers it then, of a client that is
  -- ready and with a body that is unmarshalled, is forwarded: to `handleBytes` if it is `Bytes`, else to
  -- the components. The other pending requests are as they were.
  pub begin_stream_request-unanswered :
      (signing : Bool) (n : Node) (x : Context) (body : t.Body) (c : Requester t.Body) {k bytes : ℕ}
      {c' : Requester t.Body} (m : Message) (b : t.Body)
      → begin_stream_request p t write signing n x body c ≡ (ok (k, bytes), c')
      → m.request_nonce ≡ k
      → t.unmarshal m.opcode m.message ≡ some b
      → (c'' : Requester t.Body) × (end_stream_request none k bytes c'
          ≡ some (ok (none, bytes), c''))
        × (dispatch t true m c'' ≡ elim (t.bytes_of b) [
          | none ↦ record c'' { to_components = c''.to_components ++ (b ∷ []) }
          | some raw ↦ record c'' { to_reader = c''.to_reader ++ (raw ∷ []) }
        ])
        × ((j : ℕ) → load j c''.requests ≡ (if k == j then none else load j c.requests))
  unfolding end_stream_request dispatch route forward
  begin_stream_request-unanswered signing n x body c {k} {bytes} {c'} m b h to decoded =
      let tracked = begin_stream_request-inv signing n x body c h in
      let waiting : load k c'.requests ≡ some none =
        ap (load k) tracked ∙ load-store_self k none c.requests in
      let gone : load k (delete k c'.requests) ≡ none = load-delete_self k c'.requests in
      let c'' : Requester t.Body = record c' { requests = delete k c'.requests } in
      let routed : route t m b c'' ≡ forward t b c'' = ground (arith, gone, to) in
      (
        c'',
        rw (waiting, end_stream_request) refl,
        rw (dispatch, decoded) routed,
        λ j. ground (arith, tracked, load-delete k j c'.requests, load-store k j none c.requests),
      )
