-- ===== src/Streams/Fresh.antt =====
-- network/multiplex.go: the names of the streams, and what one call leaves of the others.
use carrier.Prelude.{
  ℕ, ◌+◌, ◌^◌, ◌≤◌, ◌<◌, ◌≡◌, ◌≢◌, ◌⊎◌, inl, inr, ap, sym, ◌∙◌, subst, arith, false, none, some,
  Bytes, bytes_eq, bytes_beq, bytes_beq_iff, beq_refl, if◌then◌else◌, ◌&&◌, Option-cases,
}
use carrier.Prelude.Table.{
  load, store, delete, load-store, load-store_cases, load-store_self, load-delete, has,
}
use carrier.Prelude.Decimal.{numbered, numbered-injective}
use carrier.Outcome.{ok}
use carrier.ConnMgr.State.{MultiStream}
use carrier.Streams.Multiplex.{Streams, open_stream, close_stream, sent_on, stream_exist}

-- Every stream of a peer is named by a number that its counter has reached.
pub record IsNumbered (streams : Streams) : Type 0 where
  pub numbers :
      (peer id : Bytes) (ms : MultiStream) (n : ℕ)
      → load peer streams ≡ some ms
      → load id ms.stream ≡ some n
      → (address : Bytes) × (k : ℕ) × (id ≡ numbered address k) × (k ≤ ms.id_inc_counter)

abbrev opened : Bytes → MultiStream → MultiStream
opened address ms = record {
  id_inc_counter = ms.id_inc_counter + 1;
  stream = store (numbered address (ms.id_inc_counter + 1)) 0 ms.stream;
}

module _ (peer address : Bytes) {streams : Streams} {ms : MultiStream} (v : IsNumbered streams)
    (here : load peer streams ≡ some ms) where
  opened-fresh : load (numbered address (ms.id_inc_counter + 1)) ms.stream ≡ none
  opened-fresh = elim (Option-cases (load (numbered address (ms.id_inc_counter + 1)) ms.stream)) [
    | inl p ↦ p
    | inr (n, q) ↦
        let (a, k, e, le) = v.numbers peer _ ms n here q in
        absurd (omega (arith, numbered-injective address a _ k e))
  ]

  opened-numbers :
      (id : Bytes) (n : ℕ)
      → load id (opened address ms).stream ≡ some n
      → (a : Bytes) × (k : ℕ) × (id ≡ numbered a k) × (k ≤ ms.id_inc_counter + 1)
  opened-numbers id n found = elim (load-store_cases _ id 0 n ms.stream found) [
    | inl (same, now) ↦ (address, ms.id_inc_counter + 1, sym same, omega arith)
    | inr (ne, old) ↦ let (a, k, e, le) = v.numbers peer id ms n here old in (a, k, e, omega arith)
  ]

  store-IsNumbered : IsNumbered (store peer (opened address ms) streams)
  store-IsNumbered = record {
    numbers = λ p id m n eq found. elim (load-store_cases peer p (opened address ms) m streams eq) [
      | inl (same, now) ↦
          let (a, k, e, le) = opened-numbers id n (ap (λ x. load id x.stream) now ∙ found) in
          (a, k, e, subst (λ x. k ≤ x.id_inc_counter) now le)
      | inr (ne, old) ↦ v.numbers p id m n old found
    ];
  }

  open_stream_lem :
      ms.id_inc_counter + 1 < 2 ^ 32
      → open_stream peer address streams
        ≡ ok (numbered address (ms.id_inc_counter + 1), store peer (opened address ms) streams)
  unfolding open_stream
  open_stream_lem small = ground arith

  sent_on-opened :
      (p i : Bytes)
      → (p ≢ peer) ⊎ (i ≢ numbered address (ms.id_inc_counter + 1))
      → sent_on p i (store peer (opened address ms) streams) ≡ sent_on p i streams
  unfolding sent_on
  sent_on-opened p i ne = ground (
    arith,
    bytes_beq_iff peer p,
    bytes_beq_iff (numbered address (ms.id_inc_counter + 1)) i,
    load-store peer p (opened address ms) streams,
    load-store (numbered address (ms.id_inc_counter + 1)) i 0 ms.stream,
  )

  sent_on-opened_self :
      sent_on peer
        (numbered address (ms.id_inc_counter + 1))
        (store peer (opened address ms) streams)
      ≡ some 0
  unfolding sent_on
  sent_on-opened_self = rw (sent_on, load-store_self, load-store_self)

  sent_on-fresh : sent_on peer (numbered address (ms.id_inc_counter + 1)) streams ≡ none
  unfolding sent_on
  sent_on-fresh = rw (sent_on, here) opened-fresh

  -- In a table whose streams carry numbers that the counters have reached, `OpenStream` for a peer
  -- whose multiplexer has a counter that does not wrap returns a name that no open stream of the
  -- peer has, opens it with no bytes sent, leaves all other streams of all peers as they were,
  -- and the numbers are right again.
  pub open_stream-fresh :
      ms.id_inc_counter + 1 < 2 ^ 32
      → (id : Bytes) × (next : Streams) × (open_stream peer address streams ≡ ok (id, next))
        × (sent_on peer id streams ≡ none)
        × (sent_on peer id next ≡ some 0)
        × ((p i : Bytes) → (p ≢ peer) ⊎ (i ≢ id) → sent_on p i next ≡ sent_on p i streams)
        × IsNumbered next
  open_stream-fresh small = (
    _,
    _,
    open_stream_lem small,
    sent_on-fresh,
    sent_on-opened_self,
    sent_on-opened,
    store-IsNumbered,
  )

pub sent_on-store :
    (peer p i : Bytes) (ms : MultiStream) (streams : Streams)
    → sent_on p i (store peer ms streams)
      ≡ (if bytes_beq peer p then load i ms.stream else sent_on p i streams)
unfolding sent_on
sent_on-store peer p i ms streams = ground (arith, load-store peer p ms streams)

stream_exist-sent_on :
    (peer id : Bytes) (streams : Streams)
    → sent_on peer id streams ≡ none
    → stream_exist peer id streams ≡ false
unfolding stream_exist sent_on has
stream_exist-sent_on peer id streams h = ground arith

sent_on-close_stream :
    (peer id p i : Bytes) (streams : Streams)
    → sent_on p i (close_stream peer id streams)
      ≡ (if bytes_beq peer p && bytes_beq id i then none else sent_on p i streams)
unfolding close_stream sent_on
sent_on-close_stream peer id p i streams = elim (Option-cases (load peer streams)) [
  | inl e ↦ ground (arith, bytes_beq_iff peer p)
  | inr (ms, e) ↦ ground (
    arith,
    bytes_beq_iff peer p,
    bytes_beq_iff id i,
    load-store peer p (record ms { stream = delete id ms.stream }) streams,
    load-delete id i ms.stream,
  )
]

-- After `CloseStream` the stream does not exist, and every other stream of every peer is as it was.
pub close_stream_lem :
    (peer id : Bytes) (streams : Streams)
    → (stream_exist peer id (close_stream peer id streams) ≡ false)
      × ((p i : Bytes)
          → (p ≢ peer) ⊎ (i ≢ id)
          → sent_on p i (close_stream peer id streams) ≡ sent_on p i streams)
close_stream_lem peer id streams = (
  stream_exist-sent_on peer id _
      (ground (arith, beq_refl peer, beq_refl id, sent_on-close_stream peer id peer id streams)),
  λ p i ne.
      ground
        (arith, bytes_beq_iff peer p, bytes_beq_iff id i, sent_on-close_stream peer id p i streams),
)
