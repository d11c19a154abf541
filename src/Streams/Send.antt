-- ===== src/Streams/Send.antt =====
-- network/stream.go: `streamSendMessage`. The streams are looked up before each write, and other
-- goroutines open and close streams between the writes of one call.
use carrier.Prelude.{
  ℕ, ◌+◌, ◌%◌, ◌^◌, Bool, true, List, [], ◌∷◌, ◌++◌, Option, none, some, Bytes, bytes_eq,
  if◌then◌else◌, ◌&&◌, length, take, drop,
}
use carrier.Prelude.Table.{load, store, delete}
use carrier.Outcome.{Outcome, ok, panic}
use carrier.ConnMgr.State.{MultiStream}
use carrier.Requests.Acks.{PrepareAck}
use carrier.Streams.Multiplex.{Streams}
use carrier.Wire.Compress.{Config, Compressors}
use carrier.Wire.Frame.{
  SendError, write_failed, flush_failed, WriteAnswer, wrote, broken, build_frame,
}
use carrier.Wire.Message.{Message, Codec}
use carrier.Wire.Result.{Result}

pub data StreamError : Type 0 where
  connection_closed : StreamError
  send_failed : SendError → StreamError

-- One turn of the write loop: what other goroutines did to the streams since the last, whether
-- the peer has a client, and the answer of the writer. The caller holds the mutex of the stream that is
-- sent on, so `CloseStream` of that one waits; any other change of the table is possible.
pub record Turn : Type 0 where
  pub others : Streams → Streams
  pub has_client : Bool
  pub answer : WriteAnswer

-- What a call works on: the streams, the message ids that wait for an acknowledgement (of the
-- client of the peer), and the bytes that the writer has taken.
pub record Sending (B : Type 0) : Type 0 where
  pub streams : Streams
  pub sync_wait_ack : List (Bytes × PrepareAck B)
  pub sent : Bytes

-- `SendCnt += uint64(bytesWritten)`
unfoldable pub count_sent : Bytes → Bytes → ℕ → ℕ → MultiStream → Streams → Streams
unfolding store
count_sent peer id n count ms streams =
    store peer (record ms { stream = store id ((count + n) % 2 ^ 64) ms.stream }) streams

abbrev pub taken : WriteAnswer → ℕ
taken broken = 0
taken (wrote n flushed) = n

-- The turn of a writer that has no answer left: it takes all, and nobody interferes.
abbrev pub quiet_turn : Bytes → Turn
quiet_turn rest = record {
  others = λ streams. streams;
  has_client = true;
  answer = wrote (length rest) true;
}

module _ {B : Type 0} (peer id : Bytes) (m : Message) where
  -- A stream that is missing drops the waiting acknowledgement, and the write goes on.
  unfoldable pub drop_ack :
      Bool → MultiStream → List (Bytes × PrepareAck B) → List (Bytes × PrepareAck B)
  unfolding load delete
  drop_ack has_client ms waiting = elim (load id ms.stream) [
    | some count ↦ waiting
    | none ↦ if has_client && m.need_ack then delete m.message_id waiting else waiting
  ]

  -- The lookups and the write of one turn. The assertion `s.(*Stream)` of a stream that is missing
  -- panics once the write has succeeded.
  unfoldable pub write_turn : Turn → Bytes → Sending B → Outcome (Sending B × Option StreamError)
  unfolding load count_sent drop_ack
  write_turn t rest s =
      let streams = t.others s.streams in
      elim (load peer streams) [
        | none ↦ ok (record s { streams = streams }, some connection_closed)
        | some ms ↦
            let waiting = drop_ack t.has_client ms s.sync_wait_ack in
            elim t.answer [
              | broken ↦ ok (
                record s { streams = streams; sync_wait_ack = waiting },
                some (send_failed write_failed),
              )
              | wrote n flushed ↦ elim (load id ms.stream) [
                | none ↦ panic
                | some count ↦ ok (
                  record {
                    streams = count_sent peer id (length (take n rest)) count ms streams;
                    sync_wait_ack = waiting;
                    sent = s.sent ++ take n rest;
                  },
                  if flushed then none else some (send_failed write_failed),
                )
              ]
            ]
      ]

  -- `for totalBytesWritten < len(buffer) && err == nil`
  unfoldable pub stream_loop :
      List Turn → Bytes → Sending B → Outcome (Sending B × Option StreamError)
  unfolding write_turn
  stream_loop [] [] s = ok (s, none)
  stream_loop [] (x ∷ rest) s = write_turn (quiet_turn (x ∷ rest)) (x ∷ rest) s
  stream_loop (t ∷ turns) [] s = ok (s, none)
  stream_loop (t ∷ turns) (x ∷ rest) s = elim (write_turn t (x ∷ rest) s) [
    | panic ↦ panic
    | ok (s', some e) ↦ ok (s', some e)
    | ok (s', none) ↦ stream_loop turns (drop (taken t.answer) (x ∷ rest)) s'
  ]

  abbrev pub stream_flush :
      Bool → Outcome (Sending B × Option StreamError) → Outcome (Sending B × Option StreamError)
  stream_flush flushed (ok (s, none)) =
      if flushed then ok (s, none) else ok (s, some (send_failed flush_failed))
  stream_flush flushed o = o

  unfoldable pub stream_send_message :
      Codec
      → Compressors
      → Config
      → List Turn
      → Bool
      → Sending B
      → Outcome (Sending B × Option StreamError)
  unfolding stream_loop
  stream_send_message codec z c turns flushed s = elim (build_frame codec z c m) [
    | Result.err e ↦ ok (s, some (send_failed e))
    | Result.ok frame ↦ stream_flush flushed (stream_loop turns frame s)
  ]
