-- ===== src/Wire/Frame.antt =====
-- network/stream.go and network/session.go, the sending side: a frame is the network id (4 bytes),
-- the compress info (2), the size of the body (4) and the body.
use carrier.Prelude.{
  ℕ, ◌≡◌, Bool, List, [], ◌∷◌, ◌++◌, Option, none, some, Bytes, if◌then◌else◌, length, take, drop,
}
use carrier.Prelude.Words.{put_uint16, put_uint32}
use carrier.Wire.Compress.{Config, Compressors, compresses, compress, gen_compress_info}
use carrier.Wire.Message.{Message, Codec}
use carrier.Wire.Result.{Result, ok, err, ◌>>=◌}

pub data SendError : Type 0 where
  marshal_failed empty_message compress_failed panicked write_failed flush_failed : SendError

abbrev pub or_else : {A : Type 0} → Option A → SendError → Result SendError A
or_else (some a) e = ok a
or_else none e = err e

pub or_else-eq-ok :
    {A : Type 0} (o : Option A) (e : SendError) {a : A} → or_else o e ≡ ok a → o ≡ some a
or_else-eq-ok none e h = cc
or_else-eq-ok (some b) e h = cc

-- The lengths are written modulo 2^16 and 2^32, as the conversions cut them.
unfoldable pub build_header : Config → ℕ → ℕ → Bytes
build_header c info size = put_uint32 c.net_id ++ (put_uint16 info ++ put_uint32 size)

-- What `bw.Write` answers: the bytes that it took, and whether a `Flush` that the full buffer
-- asks for succeeds; or its failure.
pub data WriteAnswer : Type 0 where
  wrote : ℕ → Bool → WriteAnswer
  broken : WriteAnswer

-- `for total < len(buffer) && err == nil`: what has been sent, and the error if any. A writer
-- with no answer left takes all that it is given, as `bufio.Writer` does.
unfoldable pub write_loop : List WriteAnswer → Bytes → Bytes → Bytes × Option SendError
write_loop [] rest sent = (sent ++ rest, none)
write_loop (a ∷ answers) [] sent = (sent, none)
write_loop (broken ∷ answers) (x ∷ rest) sent = (sent, some write_failed)
write_loop (wrote n flushed ∷ answers) (x ∷ rest) sent =
    let sent' = sent ++ take n (x ∷ rest) in
    let next = write_loop answers (drop n (x ∷ rest)) sent' in
    if flushed then next else (sent', some write_failed)

-- The `Flush` after the loop, if the loop met no error.
unfoldable pub last_flush : Bool → Bytes × Option SendError → Bytes × Option SendError
last_flush flushed (sent, some e) = (sent, some e)
last_flush flushed (sent, none) = if flushed then (sent, none) else (sent, some flush_failed)

module _ (codec : Codec) (z : Compressors) where
  -- The body of the frame: `Marshal`, the test for an empty message, and `Compress` from the
  -- configured size on.
  unfoldable pub build_body : Config → Bytes → Result SendError Bytes
  unfolding compresses
  build_body c [] = err empty_message
  build_body c (b ∷ bytes) =
      if compresses c (length (b ∷ bytes))
      then or_else (compress z c.compress_algo (b ∷ bytes)) compress_failed
      else ok (b ∷ bytes)

  unfoldable pub build_frame : Config → Message → Result SendError Bytes
  unfolding build_body build_header
  build_frame c m = do
    bytes ← or_else (codec.marshal m) marshal_failed
    body ← build_body c bytes
    info ← or_else (gen_compress_info c (length bytes)) panicked
    ok (build_header c info (length body) ++ body)

  -- `sendMessage`: the bytes on the connection, and the error if any. `flushed` says whether the
  -- last `Flush` succeeds.
  unfoldable pub send_message :
      Config → List WriteAnswer → Bool → Message → Bytes × Option SendError
  send_message c answers flushed m = elim (build_frame c m) [
    | err e ↦ ([], some e)
    | ok frame ↦ last_flush flushed (write_loop answers frame [])
  ]

  -- `sendQuicMessage`: as `sendMessage`, but an empty message is dropped with no error.
  unfoldable pub send_quic_message :
      Config → List WriteAnswer → Bool → Message → Bytes × Option SendError
  send_quic_message c answers flushed m = elim (build_frame c m) [
    | err empty_message ↦ ([], none)
    | err e ↦ ([], some e)
    | ok frame ↦ last_flush flushed (write_loop answers frame [])
  ]
