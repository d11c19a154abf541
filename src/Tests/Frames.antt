-- ===== src/Tests/Frames.antt =====
-- network/stream.go and network/package.go: messages on concrete connections.
use carrier.Prelude.{
  ℕ, nat_beq, if◌then◌else◌, ◌≡◌, refl, arith, true, false, [], ◌∷◌, ◌++◌, Option, none, some,
  Bytes,
}
use carrier.Prelude.Words.{put_uint16, put_uint32}
use carrier.Wire.Result.{ok}
use carrier.Wire.Message.{Message, header_valid, sender_valid, IsCanonical}
use carrier.Wire.Compress.{Config, Compressors, compresses, gen_compress_info, compress}
use carrier.Wire.Channel.{Conn, content}
use carrier.Wire.Frame.{
  build_frame, build_header, build_body, send_message, write_loop, last_flush, wrote,
}
use carrier.Wire.Receive.{receive_message}
use carrier.Wire.RoundTrip.{receive_message-build_frame}
use carrier.Wire.Sending.{receive_all, IsSent, receive_all-AreSent}
use carrier.Wire.Udp.{
  build_raw_content, receive_udp_message, received, receive_udp_message-build_raw_content,
}
use carrier.Tests.PlainCodec.{plain_codec, put_list, put_option, put_id, put_sender, plain_marshal}

-- Compressors that put one byte before what they compress.
abbrev drop_first : Bytes → Bytes
drop_first [] = []
drop_first (b ∷ rest) = rest

-- A reader that refuses other tags.
abbrev untag : ℕ → Bytes → Option Bytes
untag tag [] = none
untag tag (b ∷ rest) = if nat_beq b tag then some rest else none

abbrev pub tagging : Compressors
tagging = record {
  gzip = λ b. 2 ∷ b;
  gunzip = untag 2;
  zlib = λ b. 3 ∷ b;
  unzlib = untag 3;
  lzw = λ b. 4 ∷ b;
  unlzw = drop_first;
  gunzip-gzip = λ b. refl;
  unzlib-zlib = λ b. refl;
  unlzw-lzw = λ b. refl;
}

abbrev pub gzipped : Config
gzipped = record { net_id = 7; compress_enable = true; compress_algo = 2; compress_size = 5 }

abbrev pub hello : Message
hello = record {
  message = 104 ∷ 105 ∷ [];
  opcode = 100;
  sender =
      some (record { address = 1 ∷ []; id = 2 ∷ []; net_key = some (5 ∷ []); connection_id = [] });
  signature = none;
  request_nonce = 0;
  message_nonce = 1;
  reply_flag = false;
  net_id = 7;
  message_id = [];
  need_ack = false;
}

abbrev pub or_nil : Option Bytes → Bytes
or_nil (some b) = b
or_nil none = []

abbrev pub hello_frame : Bytes
hello_frame =
    0 ∷ 0 ∷ 0 ∷ 7 ∷ 1 ∷ 2 ∷ 0 ∷ 0 ∷ 0 ∷ 21 ∷ 2 ∷ 100 ∷ 0 ∷ 1 ∷ 7 ∷ 0 ∷ 0 ∷ 2 ∷ 104 ∷ 105 ∷ 0 ∷ 0 ∷ 1
    ∷ 1 ∷ 1 ∷ 1 ∷ 2 ∷ 1 ∷ 1 ∷ 5 ∷ 0 ∷ []

hello-IsCanonical : IsCanonical hello
hello-IsCanonical = (λ e. ground arith, λ e. ground arith)

hello_built : build_frame plain_codec tagging gzipped hello ≡ ok hello_frame
unfolding build_frame build_body compresses plain_marshal put_list put_option put_id put_sender
    compress gen_compress_info build_header put_uint16 put_uint32
hello_built = refl

hello_arrived :
    (conn' : Conn) × (receive_message plain_codec tagging gzipped (hello_frame ∷ [])
      ≡ ok (hello, conn'))
    × (content conn' ≡ [])
unfolding header_valid sender_valid
hello_arrived =
    receive_message-build_frame plain_codec tagging gzipped hello (hello_frame ∷ []) [] hello_built
      hello-IsCanonical refl (omega arith) (omega arith) (omega arith) refl

-- The writer takes 4 bytes, then the rest.
hello_sent :
    send_message plain_codec tagging gzipped (wrote 4 true ∷ []) true hello ≡ (hello_frame, none)
unfolding send_message build_frame build_body plain_marshal put_list put_option put_sender put_id
    compress compresses gen_compress_info build_header last_flush write_loop put_uint32 put_uint16
hello_sent = refl

pub hello-IsSent : IsSent plain_codec tagging gzipped hello hello_frame
unfolding header_valid sender_valid
hello-IsSent = record {
  built = hello_built;
  canonical = hello-IsCanonical;
  valid = refl;
  filled = omega arith;
  fits = omega arith;
}

receive_all-AreSent_example :
    (conn' : Conn) × (receive_all plain_codec tagging gzipped 2 ((hello_frame ++ hello_frame) ∷ [])
      ≡ ok (hello ∷ hello ∷ [], conn'))
    × (content conn' ≡ [])
receive_all-AreSent_example =
    receive_all-AreSent plain_codec tagging gzipped (hello ∷ hello ∷ [])
      (hello_frame ∷ hello_frame ∷ []) ((hello_frame ++ hello_frame) ∷ []) []
      (hello-IsSent, (hello-IsSent, tt)) (omega arith) refl

abbrev pub hello_packet : Bytes
hello_packet = or_nil (build_raw_content plain_codec hello)

receive_udp_message-build_raw_content_example :
    receive_udp_message plain_codec 7 (some hello_packet) ≡ received hello
unfolding build_raw_content plain_marshal put_list put_option put_id put_sender put_uint16
    header_valid sender_valid
receive_udp_message-build_raw_content_example =
    receive_udp_message-build_raw_content plain_codec 7 hello refl hello-IsCanonical refl
      (omega arith)
