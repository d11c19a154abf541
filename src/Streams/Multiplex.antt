-- ===== src/Streams/Multiplex.antt =====
-- network/multiplex.go: the table `streams` of the connection manager holds, for each peer, a
-- counter and the streams that are open, with the bytes sent on each.
use carrier.Prelude.{ℕ, ◌+◌, ◌%◌, ◌^◌, Bool, false, List, Option, none, some, Bytes, bytes_eq}
use carrier.Prelude.Table.{load, store, delete, has}
use carrier.Prelude.Decimal.{numbered}
use carrier.Outcome.{Outcome, ok, panic}
use carrier.ConnMgr.State.{MultiStream}

abbrev pub Streams : Type 0
Streams = List (Bytes × MultiStream)

-- `OpenStream`: the name of the new stream. The counter is a uint32, and the multiplexer of a peer
-- that has none is a nil pointer, which the code follows.
unfoldable pub open_stream : Bytes → Bytes → Streams → Outcome (Bytes × Streams)
unfolding load store
open_stream peer address streams = elim (load peer streams) [
  | none ↦ panic
  | some ms ↦
      let counter = (ms.id_inc_counter + 1) % 2 ^ 32 in
      let id = numbered address counter in
      ok (
        id,
        store peer (record { id_inc_counter = counter; stream = store id 0 ms.stream }) streams,
      )
]

-- `CloseStream`
unfoldable pub close_stream : Bytes → Bytes → Streams → Streams
unfolding load store delete
close_stream peer id streams = elim (load peer streams) [
  | none ↦ streams
  | some ms ↦ elim (load id ms.stream) [
    | none ↦ streams
    | some n ↦ store peer (record ms { stream = delete id ms.stream }) streams
  ]
]

-- `Stream` and `GetSendDataCnt`: the bytes sent on a stream that is open.
unfoldable pub sent_on : Bytes → Bytes → Streams → Option ℕ
unfolding load
sent_on peer id streams = elim (load peer streams) [ none ↦ none | some ms ↦ load id ms.stream ]

-- `StreamExist`
unfoldable pub stream_exist : Bytes → Bytes → Streams → Bool
unfolding load has
stream_exist peer id streams = elim (load peer streams) [
  | none ↦ false
  | some ms ↦ has id ms.stream
]
