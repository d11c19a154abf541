-- ===== src/Requests/Replies.antt =====
-- network/client.go: a reply reaches the request that it answers, and no other.
use carrier.Prelude.{
  ℕ, ◌+◌, ◌≤◌, ◌<◌, ◌≡◌, refl, ap, ◌∙◌, arith, nat_eq, nat_beq_iff, ◌==◌, Bool, true, false, [],
  ◌∷◌, ◌++◌, none, some, if◌then◌else◌, ◌%◌, ◌^◌, Bool-cases, inl, inr,
}
use carrier.Prelude.Table.{
  load, store, delete, has, has-store, load-store, load-delete, load-store_self, load-delete_self,
}
use carrier.Wire.Result.{Result, ok, err}
use carrier.Wire.Message.{Message}
use carrier.Wire.Signing.{Policy}
use carrier.Requests.Prepare.{
  PrepareError, Node, Bodies, prepare_message, unmarshal-prepare_message,
}
use carrier.Requests.Pending.{
  Context, no_context, live, done, RequestError, Requester, begin_request, reply, forward, route,
  dispatch, Wake, ticked, answered, cancelled, end_request,
}

-- Each pending request has a nonce that has been given out.
abbrev pub IsNumbered : {B : Type 0} → Requester B → Type 0
IsNumbered c = (k : ℕ) → has k c.requests ≡ true → (1 ≤ k) × (k ≤ c.request_nonce)

below_word : (a : ℕ) → a < 2 ^ 64 → a % 2 ^ 64 ≡ a
below_word a h = omega arith

load-end_request :
    {B : Type 0} (w : Wake) (k : ℕ) (c : Requester B) {c' : Requester B} {r : Result RequestError B}
    → end_request w k c ≡ some (r, c')
    → load k c'.requests ≡ none
unfolding end_request
load-end_request ticked k c h = ground (arith, load-delete_self k c.requests)
load-end_request cancelled k c h = ground (arith, load-delete_self k c.requests)
load-end_request answered k c h = ground (arith, load-delete_self k c.requests)

dispatch-waiting :
    (t : Bodies) (m : Message) (b : t.Body) (k : ℕ) (c : Requester t.Body)
    → t.unmarshal m.opcode m.message ≡ some b
    → m.request_nonce ≡ k
    → m.reply_flag ≡ true
    → 1 ≤ k
    → load k c.requests ≡ some none
    → dispatch t true m c ≡ record c { requests = store k (some b) c.requests }
unfolding dispatch route
dispatch-waiting t m b k c decoded to flag positive waiting =
    let routed : route t m b c ≡ record c { requests = store k (some b) c.requests } =
      ground arith in
    rw (dispatch, decoded) routed

end_request-answered :
    {B : Type 0} (k : ℕ) (b : B) (c : Requester B)
    → load k c.requests ≡ some (some b)
    → end_request answered k c ≡ some (ok b, record c { requests = delete k c.requests })
unfolding end_request
end_request-answered k b c h = rw (end_request, h) refl

module _ (p : Policy) (t : Bodies) (write : Message → Bool) where
  -- What a begun request has done: a nonce, an empty channel under it, and one message more.
  begin_request-inv :
      (signing : Bool) (n : Node) (x : Context) (body : t.Body) (c : Requester t.Body) {k : ℕ}
      {c' : Requester t.Body}
      → begin_request p t write signing n x body c ≡ (ok k, c')
      → (k ≡ (c.request_nonce + 1) % 2 ^ 64)
        × (c'.request_nonce ≡ k)
        × (c'.requests ≡ store k none c.requests)
        × (c'.to_components ≡ c.to_components)
        × (c'.to_reader ≡ c.to_reader)
  unfolding begin_request
  begin_request-inv signing n no_context body c h = ground arith
  begin_request-inv signing n done body c h = ground arith
  begin_request-inv signing n live body c h = ground arith

  -- Unless the counter of 64 bits wraps around, a new request has a nonce under which none is
  -- pending: so it does not take the channel of another, and the numbering is kept.
  pub begin_request-fresh :
      (signing : Bool) (n : Node) (x : Context) (body : t.Body) (c : Requester t.Body) {k : ℕ}
      {c' : Requester t.Body}
      → IsNumbered c
      → c.request_nonce + 1 < 2 ^ 64
      → begin_request p t write signing n x body c ≡ (ok k, c')
      → (has k c.requests ≡ false)
        × IsNumbered c'
        × ((j : ℕ) → has j c.requests ≡ true → load j c'.requests ≡ load j c.requests)
  begin_request-fresh signing n x body c {k} {c'} numbered small h =
      let (nonce, counter, tracked, same, unread) = begin_request-inv signing n x body c h in
      let new : k ≡ c.request_nonce + 1 = nonce ∙ below_word (c.request_nonce + 1) small in
      (
        elim (Bool-cases (has k c.requests)) [
          | inl pending ↦ let bounds = numbered k pending in absurd (omega arith)
          | inr free ↦ free
        ],
        λ j there.
            ground (arith, numbered j, tracked, has-store k j none c.requests, nat_beq_iff k j),
        λ j there.
            ground
              (arith, numbered j there, tracked, load-store k j none c.requests, nat_beq_iff k j),
      )

  reply-inv :
      (signing : Bool) (n : Node) (nonce : ℕ) (body : t.Body) (d : Requester t.Body)
      {d' : Requester t.Body}
      → reply p t write signing n nonce body d ≡ (none, d')
      → (m : Message) × (d'.written ≡ d.written ++ (m ∷ []))
        × (t.unmarshal m.opcode m.message ≡ some body)
        × (m.request_nonce ≡ nonce)
        × (m.reply_flag ≡ true)
  unfolding reply
  reply-inv signing n nonce body d {d'} h = go (prepare_message p t signing n (some body)) refl
    where
      go :
          (q : Result PrepareError Message)
          → prepare_message p t signing n (some body) ≡ q
          → (m : Message) × (d'.written ≡ d.written ++ (m ∷ []))
            × (t.unmarshal m.opcode m.message ≡ some body)
            × (m.request_nonce ≡ nonce)
            × (m.reply_flag ≡ true)
      go (err e) failed = ground arith
      go (ok m) prepared = (
        record m { request_nonce = nonce; reply_flag = true },
        ground arith,
        unmarshal-prepare_message p t signing n body prepared,
        refl,
        refl,
      )

  -- Unless the counter wraps around: when the message that `Reply` writes, without an error, for the
  -- nonce of a request that has been written is dispatched by a client that is ready, that request
  -- takes it: its `Request` returns the body that was replied, neither the components nor the reader
  -- of bytes see it, and every other pending request is as it was.
  pub request-reply :
      (signing : Bool) (n : Node) (x : Context) (body : t.Body) (c : Requester t.Body) {k : ℕ}
      {c' : Requester t.Body}
      → c.request_nonce + 1 < 2 ^ 64
      → begin_request p t write signing n x body c ≡ (ok k, c')
      → (replying : Bool) (n' : Node) (answer : t.Body) (d : Requester t.Body)
        {d' : Requester t.Body}
      → reply p t write replying n' k answer d ≡ (none, d')
      → (m : Message) × (c'' : Requester t.Body) × (d'.written ≡ d.written ++ (m ∷ []))
        × (end_request answered k (dispatch t true m c') ≡ some (ok answer, c''))
        × (c''.to_components ≡ c.to_components)
        × (c''.to_reader ≡ c.to_reader)
        × ((j : ℕ) → load j c''.requests ≡ (if k == j then none else load j c.requests))
  request-reply signing n x body c {k} {c'} small h replying n' answer d {d'} r =
      let (nonce, counter, tracked, same, unread) = begin_request-inv signing n x body c h in
      let new : k ≡ c.request_nonce + 1 = nonce ∙ below_word (c.request_nonce + 1) small in
      let (m, sent, decoded, to, flag) = reply-inv replying n' k answer d r in
      (
        m,
        record c' { requests = delete k (store k (some answer) c'.requests) },
        sent,
        ap (end_request answered k) (
              dispatch-waiting t m answer k c' decoded to flag (omega arith)
                (ap (load k) tracked ∙ load-store_self k none c.requests))
            ∙ end_request-answered k answer
                (record c' { requests = store k (some answer) c'.requests })
                (load-store_self k (some answer) c'.requests),
        same,
        unread,
        λ j. ground (
          arith,
          tracked,
          load-delete k j (store k (some answer) c'.requests),
          load-store k j (some answer) c'.requests,
          load-store k j none c.requests,
        ),
      )

-- A reply that comes after its request has ended, whatever ended it, is not lost: a client that is
-- ready forwards it as every message that answers no pending request.
pub dispatch-end_request :
    (t : Bodies) (w : Wake) (k : ℕ) (c c' : Requester t.Body) (r : Result RequestError t.Body)
    (m : Message) (b : t.Body)
    → end_request w k c ≡ some (r, c')
    → t.unmarshal m.opcode m.message ≡ some b
    → m.request_nonce ≡ k
    → dispatch t true m c' ≡ forward t b c'
unfolding dispatch route
dispatch-end_request t w k c c' r m b h decoded e =
    let ended = load-end_request w k c h in
    let routed : route t m b c' ≡ forward t b c' = ground arith in rw (dispatch, decoded) routed
