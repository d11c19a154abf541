-- ===== src/Tests/Multiplexed.antt =====
-- network/multiplex.go, `streamSendMessage`, network/recv_window.go and the byte stream of a client.
use carrier.Prelude.{
  ℕ, ◌≡◌, ◌≢◌, ◌⊎◌, refl, arith, bytes_eq, bytes_beq_iff, true, false, List, [], ◌∷◌, ◌++◌, map,
  none, some, Bytes,
}
use carrier.Prelude.Table.{load}
use carrier.Prelude.Decimal.{numbered}
use carrier.Outcome.{ok}
use carrier.ConnMgr.State.{MultiStream}
use carrier.Streams.Multiplex.{Streams, open_stream, sent_on}
use carrier.Streams.Fresh.{IsNumbered, open_stream-fresh}
use carrier.Streams.Send.{Turn, Sending}
use carrier.Streams.ByteStream.{
  StreamCall, arrive, read_turn, close_call, run_stream, run_stream-arrived,
}
use carrier.Wire.Frame.{wrote, broken}
use carrier.Window.Receiving.{RecvWindow, new_recv_window}
use carrier.Window.Inbox.{accept, empty, deliver}
use carrier.Window.Runs.{Call, push_call, pop_call, run, run_inbox, IsInside, run-deliver}

-- Peer 7 at address 5 has had one stream, which has sent 20 bytes.
abbrev peer_name : Bytes
peer_name = 7 ∷ []

abbrev first_name : Bytes
first_name = numbered (5 ∷ []) 1

abbrev one_stream : MultiStream
one_stream = record { id_inc_counter = 1; stream = (first_name, 20) ∷ [] }

abbrev one_open : Streams
one_open = (peer_name, one_stream) ∷ []

one_open-IsNumbered : IsNumbered one_open
unfolding load
one_open-IsNumbered = record {
  numbers = λ peer id ms n here found.
      (5 ∷ [], 1, ground (arith, bytes_beq_iff first_name id), ground arith);
}

open_stream-fresh_example :
    (id : Bytes) × (next : Streams) × (open_stream peer_name (5 ∷ []) one_open ≡ ok (id, next))
    × (sent_on peer_name id one_open ≡ none)
    × (sent_on peer_name id next ≡ some 0)
    × ((p i : Bytes) → (p ≢ peer_name) ⊎ (i ≢ id) → sent_on p i next ≡ sent_on p i one_open)
    × IsNumbered next
unfolding load
open_stream-fresh_example =
    open_stream-fresh peer_name (5 ∷ []) one_open-IsNumbered refl (omega arith)

abbrev sending : Sending Bytes
sending = record { streams = one_open; sync_wait_ack = []; sent = [] }

-- The writer takes two bytes, and then fails.
abbrev two_turns : List Turn
two_turns =
    record { others = λ streams. streams; has_client = true; answer = wrote 2 true }
    ∷ record { others = λ streams. streams; has_client = true; answer = broken }
    ∷ []

-- Nonces 5, 7 and 6 arrive in a window of 4: a first pop gives only that of 5.
abbrev calls : List (Call ℕ)
calls = push_call 7 70 ∷ pop_call ∷ push_call 6 60 ∷ pop_call ∷ []

calls-IsInside : IsInside 4 calls (accept 5 50 (empty 5))
unfolding accept empty deliver
calls-IsInside = (omega arith, omega arith, (omega arith, omega arith, tt))

calls_run : run_inbox 4 calls (accept 5 50 (empty 5)) ≡ (50 ∷ []) ∷ (60 ∷ 70 ∷ []) ∷ []
unfolding run_inbox empty
calls_run = refl

run-deliver_example :
    (last : RecvWindow ℕ) × (run (push_call 5 50 ∷ calls) (new_recv_window 4)
      ≡ ok (map (map some) (run_inbox 4 calls (accept 5 50 (empty 5))), last))
run-deliver_example =
    run-deliver 4 5 50 calls (omega arith) (omega arith) (omega arith) calls-IsInside

abbrev two_packets : List StreamCall
two_packets =
    arrive (1 ∷ 2 ∷ []) ∷ read_turn 0 1 ∷ arrive (3 ∷ []) ∷ close_call ∷ read_turn 1 9 ∷ []

run_stream-arrived_example :
    let (out, last) =
      run_stream two_packets
        (record { buffer = []; is_closed = false; read_deadline = none; write_deadline = none }) in
    out ++ last.buffer ≡ 1 ∷ 2 ∷ 3 ∷ []
run_stream-arrived_example =
    run_stream-arrived two_packets
      (record { buffer = []; is_closed = false; read_deadline = none; write_deadline = none })
