-- ===== src/Wire/RoundTrip.antt =====
-- network/stream.go: a frame that is sent is received, however the network cuts it.
use carrier.Prelude.{
  ℕ, ◌+◌, ◌<◌, ◌≡◌, refl, ap, sym, ◌∙◌, arith, true, false, [], ◌∷◌, ◌++◌, append_assoc, some,
  Bytes, nat_beq, length,
}
use carrier.Prelude.Words.{
  put_uint16, put_uint32, uint16_back, uint32-put_uint32, length-put_uint16, length-put_uint32,
}
use carrier.Wire.Channel.{Conn, content, read_exact, read_exact_prefix}
use carrier.Wire.Compress.{
  Config, Compressors, gen_compress_info, get_compress_info, uncompress-compress,
  get-gen_compress_info,
}
use carrier.Wire.Frame.{
  build_body, build_header, build_frame, or_else, or_else-eq-ok, marshal_failed, panicked,
}
use carrier.Wire.Message.{Message, Codec, IsCanonical, header_valid}
use carrier.Wire.Receive.{decode_body, receive_message}
use carrier.Wire.Result.{ok, ◌>>=◌, >>=-eq-ok}

-- A frame, taken apart.
abbrev frame_of : Config → ℕ → Bytes → Bytes
frame_of c info body =
    put_uint32 c.net_id ++ (put_uint16 info ++ (put_uint32 (length body) ++ body))

module _ (codec : Codec) (z : Compressors) (c : Config) where
  -- The receiver's steps on the parts of a frame.
  receive_parts :
      (conn : Conn) (info : ℕ) (body rest : Bytes)
      → content conn ≡ frame_of c info body ++ rest
      → c.net_id < 4294967296
      → info < 65536
      → 0 < length body
      → length body < 4294967296
      → (conn' : Conn) × (receive_message codec z c conn
          ≡ (decode_body codec z c (get_compress_info info) body >>= λ m. ok (m, conn')))
        × (content conn' ≡ rest)
  unfolding receive_message
  receive_parts conn info body rest h id_fits info_fits some_body body_fits =
      let id = put_uint32 c.net_id in
      let bits = put_uint16 info in
      let size = put_uint32 (length body) in
      let (c1, e1, r1) =
        read_exact_prefix id ((bits ++ (size ++ body)) ++ rest) conn (h ∙ append_assoc id _ rest) in
      let (c2, e2, r2) =
        read_exact_prefix bits ((size ++ body) ++ rest) c1 (r1 ∙ append_assoc bits _ rest) in
      let (c3, e3, r3) =
        read_exact_prefix size (body ++ rest) c2 (r2 ∙ append_assoc size body rest) in
      let (c4, e4, r4) = read_exact_prefix body rest c3 r3 in
      let p1 : read_exact 4 conn ≡ some (id, c1) = rw (length-put_uint32 c.net_id) at e1 in
      let p2 : read_exact 2 c1 ≡ some (bits, c2) = rw (length-put_uint16 info) at e2 in
      let p3 : read_exact 4 c2 ≡ some (size, c3) = rw (length-put_uint32 (length body)) at e3 in
      let same : nat_beq c.net_id c.net_id ≡ true = ground arith in
      let filled : nat_beq (length body) 0 ≡ false = ground arith in
      (
        c4,
        rw
            (
              p1,
              uint32-put_uint32 c.net_id id_fits,
              same,
              p2,
              p3,
              uint32-put_uint32 (length body) body_fits,
              filled,
              e4,
              uint16_back info info_fits,
            )
            refl,
        r4,
      )

  -- What a frame is made of.
  record IsFrame (m : Message) (frame : Bytes) : Type 0 where
    bytes : Bytes
    body : Bytes
    info : ℕ
    marshalled : codec.marshal m ≡ some bytes
    built : build_body codec z c bytes ≡ ok body
    described : gen_compress_info c (length bytes) ≡ some info
    framed : build_header c info (length body) ++ body ≡ frame

  build_frame-IsFrame :
      (m : Message) {frame : Bytes} → build_frame codec z c m ≡ ok frame → IsFrame m frame
  unfolding build_frame
  build_frame-IsFrame m h =
      let (bytes, e1, h1) = >>=-eq-ok (or_else (codec.marshal m) marshal_failed) _ h in
      let (body, e2, h2) = >>=-eq-ok (build_body codec z c bytes) _ h1 in
      let (info, e3, h3) = >>=-eq-ok (or_else (gen_compress_info c (length bytes)) panicked) _ h2 in
      record {
        bytes = bytes;
        body = body;
        info = info;
        marshalled = or_else-eq-ok (codec.marshal m) marshal_failed e1;
        built = e2;
        described = or_else-eq-ok (gen_compress_info c (length bytes)) panicked e3;
        framed = cc;
      }

  body_back :
      (bytes body : Bytes) {info : ℕ}
      → build_body codec z c bytes ≡ ok body
      → gen_compress_info c (length bytes) ≡ some info
      → decode_body codec z c (get_compress_info info) body
        ≡ decode_body codec z c (c.compress_algo, false) bytes
  unfolding build_body decode_body
  body_back [] body h k = cc
  body_back (b ∷ bytes) body h k =
      let e = get-gen_compress_info c (length (b ∷ bytes)) k in
      rw (e.0) (ground (arith, uncompress-compress z c.compress_algo (b ∷ bytes) body))

  length-frame :
      (info : ℕ) (body : Bytes)
      → length (build_header c info (length body) ++ body) ≡ 10 + length body
  unfolding build_header put_uint16 put_uint32
  length-frame info body = omega arith

  header_parts :
      (info : ℕ) (body : Bytes) → build_header c info (length body) ++ body ≡ frame_of c info body
  unfolding build_header
  header_parts info body = rw (append_assoc, append_assoc)

  plain_back :
      (m : Message) (bytes : Bytes)
      → IsCanonical m
      → header_valid c.net_id m ≡ true
      → codec.marshal m ≡ some bytes
      → decode_body codec z c (c.compress_algo, false) bytes ≡ ok m
  unfolding decode_body
  plain_back m bytes canonical valid e =
      rw (codec.unmarshal-marshal m bytes canonical e, valid) refl

  -- A message that is framed is received as it was, whatever segments carry the frame, and the
  -- connection still delivers all that follows the frame. The message has the header that the
  -- receiver asks for, and the body has at least one byte and fits the 32 bits of its size.
  pub receive_message-build_frame :
      (m : Message) {frame : Bytes} (conn : Conn) (rest : Bytes)
      → build_frame codec z c m ≡ ok frame
      → IsCanonical m
      → header_valid c.net_id m ≡ true
      → c.net_id < 4294967296
      → 10 < length frame
      → length frame < 4294967306
      → content conn ≡ frame ++ rest
      → (conn' : Conn) × (receive_message codec z c conn ≡ ok (m, conn')) × (content conn' ≡ rest)
  receive_message-build_frame m {frame} conn rest built canonical valid id_fits filled fits h =
      let f = build_frame-IsFrame m built in
      let size = length-frame f.info f.body in
      let total : length frame ≡ 10 + length f.body = rw (← f.framed) size in
      let split : content conn ≡ frame_of c f.info f.body ++ rest =
        h ∙ ap (λ b. b ++ rest) (sym f.framed ∙ header_parts f.info f.body) in
      let (conn', e, left) =
        receive_parts conn f.info f.body rest split id_fits
          (get-gen_compress_info c (length f.bytes) f.described).1 (omega arith) (omega arith) in
      (conn', e ∙ ap (λ r. r >>= λ m. ok (m, conn')) (decoded f), left)
    where
      decoded :
          (f : IsFrame m frame) → decode_body codec z c (get_compress_info f.info) f.body ≡ ok m
      decoded f =
          body_back f.bytes f.body f.built f.described
          ∙ plain_back m f.bytes canonical valid f.marshalled

  -- The receiver accepts only messages of its network, with an opcode and a sender that has a key
  -- and an address.
  pub receive_message-header_valid :
      (conn : Conn) {m : Message} {conn' : Conn}
      → receive_message codec z c conn ≡ ok (m, conn')
      → header_valid c.net_id m ≡ true
  unfolding receive_message decode_body
  receive_message-header_valid conn h = ground arith
