-- ===== src/Streams/ByteStream.antt =====
-- network/client.go: a client as a `net.Conn`. `handleBytes` appends to the buffer of the stream, and
-- `Read` takes from its front. The time is a number of seconds.
use carrier.Prelude.{
  ℕ, ◌≡◌, ap, sym, ◌∙◌, arith, Bool, true, false, List, [], ◌∷◌, ◌++◌, append_assoc, append-nil,
  Option, none, some, Bytes, ltb, if◌then◌else◌, take, drop, take-append-drop,
}

pub record ByteStream : Type 0 where
  pub buffer : Bytes
  pub is_closed : Bool
  pub read_deadline : Option ℕ
  pub write_deadline : Option ℕ

-- What one turn of the loop of `Read` returns, if it does not wait for more.
pub data ReadResult : Type 0 where
  received closed_after late_after : Bytes → ReadResult
  waits : ReadResult

unfoldable pub handle_bytes : Bytes → ByteStream → ByteStream
handle_bytes pkt s = record s { buffer = s.buffer ++ pkt }

-- `!deadline.IsZero() && time.Now().After(deadline)`
unfoldable pub is_late : ℕ → Option ℕ → Bool
is_late now none = false
is_late now (some t) = ltb t now

-- What a read of no bytes means.
abbrev received_or_waits : Bytes → ReadResult
received_or_waits [] = waits
received_or_waits (x ∷ xs) = received (x ∷ xs)

-- One turn of `Read` with room for `n` bytes: what it copies has left the buffer on each way out.
unfoldable pub read : ℕ → ℕ → ByteStream → ReadResult × ByteStream
unfolding is_late
read now n s =
    let copied = take n s.buffer in
    let s' : ByteStream = record s { buffer = drop n s.buffer } in
    if s.is_closed
    then (closed_after copied, s')
    else if is_late now s.read_deadline
    then (late_after copied, s')
    else (received_or_waits copied, s')

-- `SetDeadline`, `SetReadDeadline` and `SetWriteDeadline`
unfoldable pub set_deadline : Option ℕ → ByteStream → ByteStream
set_deadline t s = record s { read_deadline = t; write_deadline = t }

unfoldable pub set_read_deadline : Option ℕ → ByteStream → ByteStream
set_read_deadline t s = record s { read_deadline = t }

unfoldable pub set_write_deadline : Option ℕ → ByteStream → ByteStream
set_write_deadline t s = record s { write_deadline = t }

pub data StreamCall : Type 0 where
  arrive : Bytes → StreamCall
  read_turn : ℕ → ℕ → StreamCall
  deadline : Option ℕ → StreamCall
  read_deadline_call write_deadline_call : Option ℕ → StreamCall
  close_call : StreamCall

abbrev pub bytes_of : ReadResult → Bytes
bytes_of (received xs) = xs
bytes_of (closed_after xs) = xs
bytes_of (late_after xs) = xs
bytes_of waits = []

-- A run of calls: the bytes handed to the readers, in order, and the stream in the end.
unfoldable pub run_stream : List StreamCall → ByteStream → Bytes × ByteStream
unfolding handle_bytes read set_deadline set_read_deadline set_write_deadline
run_stream [] s = ([], s)
run_stream (arrive pkt ∷ calls) s = run_stream calls (handle_bytes pkt s)
run_stream (read_turn now n ∷ calls) s =
    let (r, s') = read now n s in let (out, last) = run_stream calls s' in (bytes_of r ++ out, last)
run_stream (deadline t ∷ calls) s = run_stream calls (set_deadline t s)
run_stream (read_deadline_call t ∷ calls) s = run_stream calls (set_read_deadline t s)
run_stream (write_deadline_call t ∷ calls) s = run_stream calls (set_write_deadline t s)
run_stream (close_call ∷ calls) s = run_stream calls (record s { is_closed = true })

abbrev pub arrived : List StreamCall → Bytes
arrived [] = []
arrived (arrive pkt ∷ calls) = pkt ++ arrived calls
arrived (c ∷ calls) = arrived calls

read_lem :
    (now n : ℕ) (s : ByteStream) → bytes_of (read now n s).0 ++ (read now n s).1.buffer ≡ s.buffer
unfolding read
read_lem now n s = ground (arith, take-append-drop n s.buffer)

-- Whatever the order of packets, reads, deadlines and closes: the bytes handed to the readers, with
-- those still in the buffer, are exactly the bytes that were there and those that arrived, in
-- order; a read that fails hands out its bytes too.
pub run_stream-arrived :
    (calls : List StreamCall) (s : ByteStream)
    → let (out, last) = run_stream calls s in out ++ last.buffer ≡ s.buffer ++ arrived calls
unfolding run_stream handle_bytes set_deadline set_read_deadline set_write_deadline
run_stream-arrived [] s = sym (append-nil s.buffer)
run_stream-arrived (arrive pkt ∷ calls) s =
    run_stream-arrived calls (handle_bytes pkt s) ∙ append_assoc s.buffer pkt (arrived calls)
run_stream-arrived (read_turn now n ∷ calls) s =
    append_assoc (bytes_of (read now n s).0) (run_stream calls (read now n s).1).0 _
    ∙ ap (λ xs. bytes_of (read now n s).0 ++ xs) (run_stream-arrived calls (read now n s).1)
    ∙ sym (append_assoc (bytes_of (read now n s).0) (read now n s).1.buffer (arrived calls))
    ∙ ap (λ xs. xs ++ arrived calls) (read_lem now n s)
run_stream-arrived (deadline t ∷ calls) s = run_stream-arrived calls (set_deadline t s)
run_stream-arrived (read_deadline_call t ∷ calls) s =
    run_stream-arrived calls (set_read_deadline t s)
run_stream-arrived (write_deadline_call t ∷ calls) s =
    run_stream-arrived calls (set_write_deadline t s)
run_stream-arrived (close_call ∷ calls) s = run_stream-arrived calls (record s { is_closed = true })
