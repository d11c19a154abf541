-- ===== src/Streams/Count.antt =====
-- network/stream.go: what a send counts on its stream, and what a stream that is closed under it
-- does.
use carrier.Prelude.{
  ℕ, ◌+◌, ◌%◌, ◌^◌, ◌≡◌, ◌⊎◌, arith, ◌++◌, Option, none, some, Bytes, bytes_eq, length, take,
  Option-cases, inl, inr,
}
use carrier.Prelude.Table.{load, delete, load-store_self, load-delete_self}
use carrier.Outcome.{Outcome, ok}
use carrier.ConnMgr.State.{MultiStream}
use carrier.Streams.Multiplex.{Streams, close_stream, sent_on}
use carrier.Streams.Send.{Turn, Sending, StreamError, taken, write_turn}
use carrier.Wire.Frame.{WriteAnswer}
use carrier.Wire.Message.{Message}

-- Other goroutines leave the stream and its count alone.
abbrev pub KeepsStream : Bytes → Bytes → Turn → Type 0
KeepsStream peer id t =
    (streams : Streams) → sent_on peer id (t.others streams) ≡ sent_on peer id streams

module _ (peer id : Bytes) where
  load-close_stream :
      (streams : Streams) {ms : MultiStream}
      → load peer streams ≡ some ms
      → (left : MultiStream) × (load peer (close_stream peer id streams) ≡ some left)
        × (load id left.stream ≡ none)
  unfolding close_stream
  load-close_stream streams {ms} here = elim (Option-cases (load id ms.stream)) [
    | inl e ↦ (ms, ground arith, e)
    | inr (n, e) ↦ (
      record ms { stream = delete id ms.stream },
      ground (arith, load-store_self peer (record ms { stream = delete id ms.stream }) streams),
      load-delete_self id ms.stream,
    )
  ]

module _ {B : Type 0} (peer id : Bytes) (m : Message) where
  -- What a write has done on a stream that is open, and that has sent `count` bytes: `piece`, the
  -- start of `rest`, has gone out, and is counted.
  abbrev IsCounted : ℕ → Bytes → Bytes → Sending B → Sending B → Type 0
  IsCounted count piece rest s s' =
      (s'.sent ≡ s.sent ++ piece)
      × (sent_on peer id s'.streams ≡ some ((count + length piece) % 2 ^ 64))
      × ((tail : Bytes) × (rest ≡ piece ++ tail))

  abbrev IsTurn : Turn → ℕ → Bytes → Sending B → WriteAnswer → Type 0
  IsTurn t count rest s a =
      (s' : Sending B) × (e : Option StreamError) × (write_turn peer id m t rest s ≡ ok (s', e))
      × IsCounted count (take (taken a) rest) rest s s'

  abbrev IsSend : ℕ → Bytes → Sending B → Outcome (Sending B × Option StreamError) → Type 0
  IsSend count rest s o =
      (piece : Bytes) × (s' : Sending B) × (e : Option StreamError) × (o ≡ ok (s', e))
      × IsCounted count piece rest s s'
      × ((piece ≡ rest) ⊎ ((x : StreamError) × (e ≡ some x)))
