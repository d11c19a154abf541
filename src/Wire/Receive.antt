-- ===== src/Wire/Receive.antt =====
-- network/stream.go and network/session.go, the receiving side. A panic of `Uncompress` is the error
-- `uncompress_panicked`. The byte counters that the loops
-- report are not modelled.
use carrier.Prelude.{ℕ, Bool, true, false, Option, none, some, Bytes, nat_beq, if◌then◌else◌}
use carrier.Prelude.Words.{uint16, uint32}
use carrier.Wire.Channel.{Conn, read_exact}
use carrier.Wire.Compress.{Config, Compressors, get_compress_info, uncompress}
use carrier.Wire.Message.{Message, Codec, header_valid}
use carrier.Wire.Result.{Result, ok, err, ◌>>=◌}

pub data ReceiveError : Type 0 where
  network_id_unread wrong_network info_unread size_unread empty_message body_unread unmarshal_failed
        invalid_message uncompress_panicked :
      ReceiveError

abbrev pub or_else : {A : Type 0} → Option A → ReceiveError → Result ReceiveError A
or_else (some a) e = ok a
or_else none e = err e

abbrev pub unless : Bool → ReceiveError → Result ReceiveError (Unit {0})
unless true e = err e
unless false e = ok tt

module _ (codec : Codec) (z : Compressors) where
  -- What follows the body: `Uncompress`, `Unmarshal` and the check of the header.
  unfoldable pub decode_body : Config → ℕ × Bool → Bytes → Result ReceiveError Message
  decode_body c (algo, enabled) body = do
    plain ← or_else (if enabled then uncompress z algo body else some body) uncompress_panicked
    m ← or_else (codec.unmarshal plain) unmarshal_failed
    if header_valid c.net_id m then ok m else err invalid_message

  -- `receiveMessage`: the message, and what the connection still delivers.
  unfoldable pub receive_message : Config → Conn → Result ReceiveError (Message × Conn)
  unfolding decode_body
  receive_message c conn = do
    (id, conn1) ← or_else (read_exact 4 conn) network_id_unread
    _ ← unless (if nat_beq (uint32 id) c.net_id then false else true) wrong_network
    (info, conn2) ← or_else (read_exact 2 conn1) info_unread
    (size, conn3) ← or_else (read_exact 4 conn2) size_unread
    _ ← unless (nat_beq (uint32 size) 0) empty_message
    (body, conn4) ← or_else (read_exact (uint32 size) conn3) body_unread
    m ← decode_body c (get_compress_info (uint16 info)) body
    ok (m, conn4)

  -- `receiveQuicMessage` reads by `io.ReadFull`, which fills the buffer or fails.
  unfoldable pub receive_quic_message : Config → Conn → Result ReceiveError (Message × Conn)
  unfolding decode_body
  receive_quic_message c stream = do
    (id, stream1) ← or_else (read_exact 4 stream) network_id_unread
    _ ← unless (if nat_beq (uint32 id) c.net_id then false else true) wrong_network
    (info, stream2) ← or_else (read_exact 2 stream1) info_unread
    (size, stream3) ← or_else (read_exact 4 stream2) size_unread
    _ ← unless (nat_beq (uint32 size) 0) empty_message
    (body, stream4) ← or_else (read_exact (uint32 size) stream3) body_unread
    m ← decode_body c (get_compress_info (uint16 info)) body
    ok (m, stream4)
