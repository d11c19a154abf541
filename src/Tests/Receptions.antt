-- ===== src/Tests/Receptions.antt =====
-- network/network.go: the accept loops on concrete connections and packages.
use carrier.Prelude.{◌≡◌, refl, arith, bytes_eq, true, false, [], ◌∷◌, ◌++◌, none, some, Bytes}
use carrier.Prelude.Table.{load, has}
use carrier.Prelude.Words.{put_uint16, put_uint32_le}
use carrier.Peer.Identity.{public_key_hex, hex_encode}
use carrier.Wire.Channel.{Conn}
use carrier.Wire.Message.{WireId, to_peer, Message, header_valid, sender_valid}
use carrier.Wire.Signing.{verify, serialize_message}
use carrier.Wire.Udp.{build_raw_content, receive_udp_message-build_raw_content}
use carrier.Requests.Prepare.{signature_accepted}
use carrier.ConnMgr.State.{tcp, new_multi_stream, Manager}
use carrier.ConnMgr.Operations.{no_conn, stream_conn}
use carrier.ConnMgr.Sync.{IsSync}
use carrier.Telling.Tell.{Speaker}
use carrier.Accepting.Loop.{Receiver, refused, accept_message, accept, accept_quic}
use carrier.Accepting.Sync.{accept-IsSync}
use carrier.Accepting.Handed
use carrier.Accepting.Known.{IsKnown}
use carrier.Accepting.Delivered.{HandsOver, accept-HandsOver}
use carrier.Accepting.Early.{IsStranger, accept_message-unverified}
use carrier.Accepting.Udp.{Arrival, accept_udp}
use carrier.Accepting.Forged.{IsForged, accept_udp-forged}
use carrier.Tests.Frames.{tagging, gzipped, hello, hello_frame, hello-IsSent, or_nil, hello_packet}
use carrier.Tests.Managers.{open_network, open_network-supported, two_clients, two_clients-IsSync}
use carrier.Tests.Networks.{no_clients}
use carrier.Tests.PlainCodec.{plain_codec, plain_marshal, put_list, put_option, put_id, put_sender}
use carrier.Tests.Requesting.{plain_policy, bytes_bodies, node}

-- A node whose transports take every message.
abbrev pub plain_speaker : Speaker
plain_speaker = record {
  policy = plain_policy;
  bodies = bytes_bodies;
  node = node;
  own = some tcp;
  is_net_conn = λ c. true;
  sends = λ p m. (m.message, none);
}

abbrev plain_receiver : Receiver
plain_receiver = record {
  outside = open_network;
  speaker = plain_speaker;
  proxy_mode = false;
  replies = λ r. true;
  ack = λ now id. id;
}

-- The ID that `hello` comes from, and its key in hexadecimal.
abbrev hello_id : WireId
hello_id = record { address = 1 ∷ []; id = 2 ∷ []; net_key = some (5 ∷ []); connection_id = [] }

abbrev hello_key : Bytes
hello_key = 48 ∷ 53 ∷ []

-- Client 1 is that of the sender of `hello`.
abbrev knows_hello : Manager
knows_hello = record two_clients {
  peers = (hello_key, 1) ∷ [];
  connections = (hello_key, record { conn = 4; message_nonce = 0 }) ∷ [];
  streams = (hello_key, new_multi_stream) ∷ [];
}

knows_hello-IsKnown : IsKnown plain_receiver hello_id 1 knows_hello
unfolding load has public_key_hex hex_encode to_peer
knows_hello-IsKnown = record {
  address = 1 ∷ [];
  protocol = tcp;
  unified = refl;
  elsewhere = refl;
  scheme = refl;
  moved = refl;
  keyed = refl;
  here = refl;
  ready = refl;
  connected = refl;
}

hello-accepted :
    signature_accepted plain_receiver.speaker.policy plain_receiver.speaker.bodies hello ≡ true
unfolding signature_accepted
hello-accepted = refl

accept-HandsOver_example : HandsOver 1 (hello ∷ hello ∷ []) (
    accept plain_receiver plain_codec tagging gzipped no_conn
      (λ turn n. n)
      none
      ((hello_frame ++ hello_frame) ∷ [])
      knows_hello)
accept-HandsOver_example =
    accept-HandsOver plain_codec tagging gzipped plain_receiver no_conn (λ turn n. n) none hello_id
      1 (hello ∷ hello ∷ []) (hello_frame ∷ hello_frame ∷ []) ((hello_frame ++ hello_frame) ∷ [])
      knows_hello (hello-IsSent, (hello-IsSent, tt))
      ((refl, hello-accepted), ((refl, hello-accepted), tt)) (omega arith) refl (λ p m. refl)
      (λ turn n k. k) knows_hello-IsKnown

-- A message, and the beginning of another one.
abbrev cut_short : Conn
cut_short = hello_frame ∷ (0 ∷ 0 ∷ 0 ∷ 7 ∷ 1 ∷ []) ∷ []

accept-IsSync_example :
    IsSync
      (accept plain_receiver plain_codec tagging gzipped
        (stream_conn 6)
        (λ turn n. n)
        (some 0)
        cut_short
        two_clients).tables
    × IsSync
        (accept_quic plain_receiver plain_codec tagging gzipped
          (stream_conn 6)
          (λ turn n. n)
          (some 0)
          cut_short
          two_clients).tables
accept-IsSync_example =
    accept-IsSync plain_receiver plain_codec tagging gzipped (stream_conn 6) (λ turn n. n) (some 0)
      cut_short two_clients open_network-supported (λ turn n h. h) two_clients-IsSync

-- The message with a signature of another one.
abbrev tampered : Message
tampered = record hello { signature = some (0 ∷ []) }

tampered-refused :
    signature_accepted plain_receiver.speaker.policy plain_receiver.speaker.bodies tampered ≡ false
unfolding signature_accepted verify serialize_message put_uint32_le
tampered-refused = refl

no_clients-IsStranger : IsStranger plain_receiver hello_id no_clients
unfolding load public_key_hex hex_encode to_peer
no_clients-IsStranger = record {
  address = 1 ∷ [];
  protocol = tcp;
  unified = refl;
  elsewhere = refl;
  scheme = refl;
  supported = λ e. ground arith;
  moved = refl;
  keyed = refl;
  new = refl;
}

accept_message-unverified_example :
    let (verdict, n') = accept_message plain_receiver true 0 (stream_conn 6) tampered no_clients in
    (verdict ≡ refused)
    × (load hello_key n'.peers ≡ some 2)
    × (load hello_key n'.connections ≡ some (record { conn = 6; message_nonce = 0 }))
unfolding public_key_hex hex_encode to_peer
accept_message-unverified_example =
    accept_message-unverified plain_receiver true 0 hello_id 6 tampered no_clients refl refl
      tampered-refused no_clients-IsStranger

abbrev arrives : Bytes → Arrival
arrives packet = record { others = λ n. n; packet = some packet }

abbrev tampered_packet : Bytes
tampered_packet = or_nil (build_raw_content plain_codec tampered)

tampered-IsForged : IsForged plain_receiver plain_codec 7 (arrives tampered_packet)
unfolding build_raw_content plain_marshal put_list put_option put_id put_sender put_uint16
    header_valid sender_valid
tampered-IsForged = (
  tampered,
  hello_id,
  receive_udp_message-build_raw_content plain_codec 7 tampered refl
      (λ e. ground arith, λ e. ground arith) refl (omega arith),
  refl,
  tampered-refused,
  λ n. refl,
)

accept_udp-forged_example :
    accept_udp plain_receiver plain_codec 7 3
      (arrives hello_packet ∷ arrives tampered_packet ∷ arrives hello_packet ∷ [])
      knows_hello
    ≡ accept_udp plain_receiver plain_codec 7 3
        (arrives hello_packet ∷ arrives hello_packet ∷ [])
        knows_hello
accept_udp-forged_example =
    accept_udp-forged plain_receiver plain_codec 7 3 (arrives hello_packet ∷ [])
      (arrives tampered_packet) (arrives hello_packet ∷ []) knows_hello tampered-IsForged
