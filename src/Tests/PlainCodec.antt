-- ===== src/Tests/PlainCodec.antt =====
-- A codec that meets what the development asks of `proto.Marshal` and `proto.Unmarshal`: each list is
-- written after its length.
use carrier.Prelude.{
  ℕ, zero, suc, ◌≡◌, refl, arith, Bool, true, false, [], ◌∷◌, ◌++◌, Option, none, some, Bytes,
  length, take, drop, take-append, drop-append,
}
use carrier.Wire.Message.{WireId, Message, Codec}

abbrev put_bool : Bool → ℕ
put_bool true = 1
put_bool false = 0

abbrev get_bool : ℕ → Bool
get_bool zero = false
get_bool (suc n) = true

get_bool-put_bool : (b : Bool) → get_bool (put_bool b) ≡ b
get_bool-put_bool true = refl
get_bool-put_bool false = refl

unfoldable pub put_list : Bytes → Bytes → Bytes
put_list xs rest = length xs ∷ (xs ++ rest)

get_list : Bytes → Bytes × Bytes
get_list [] = ([], [])
get_list (n ∷ ys) = (take n ys, drop n ys)

get_list-put_list : (xs rest : Bytes) → get_list (put_list xs rest) ≡ (xs, rest)
unfolding get_list put_list
get_list-put_list xs rest = ground (arith, take-append xs rest, drop-append xs rest)

unfoldable pub put_option : Option Bytes → Bytes → Bytes
put_option none rest = 0 ∷ rest
put_option (some xs) rest = 1 ∷ put_list xs rest

get_option : Bytes → Option Bytes × Bytes
get_option [] = (none, [])
get_option (zero ∷ ys) = (none, ys)
get_option (suc n ∷ ys) = let (xs, rest) = get_list ys in (some xs, rest)

get_option-put_option :
    (o : Option Bytes) (rest : Bytes) → get_option (put_option o rest) ≡ (o, rest)
unfolding get_option put_option
get_option-put_option none rest = refl
get_option-put_option (some xs) rest = rw (get_list-put_list xs rest) refl

unfoldable pub put_id : WireId → Bytes → Bytes
put_id w rest =
    put_list w.address (put_list w.id (put_option w.net_key (put_list w.connection_id rest)))

get_id : Bytes → WireId × Bytes
get_id b =
    let (address, b1) = get_list b in
    let (id, b2) = get_list b1 in
    let (net_key, b3) = get_option b2 in
    let (connection_id, b4) = get_list b3 in
    (record { address = address; id = id; net_key = net_key; connection_id = connection_id }, b4)

get_id-put_id : (w : WireId) (rest : Bytes) → get_id (put_id w rest) ≡ (w, rest)
unfolding get_id put_id
get_id-put_id w rest =
    rw
      (
        get_list-put_list w.address
            (put_list w.id (put_option w.net_key (put_list w.connection_id rest))),
        get_list-put_list w.id (put_option w.net_key (put_list w.connection_id rest)),
        get_option-put_option w.net_key (put_list w.connection_id rest),
        get_list-put_list w.connection_id rest,
      )
      refl

unfoldable pub put_sender : Option WireId → Bytes → Bytes
put_sender none rest = 0 ∷ rest
put_sender (some w) rest = 1 ∷ put_id w rest

get_sender : Bytes → Option WireId × Bytes
get_sender [] = (none, [])
get_sender (zero ∷ b) = (none, b)
get_sender (suc n ∷ b) = let (w, rest) = get_id b in (some w, rest)

get_sender-put_sender :
    (o : Option WireId) (rest : Bytes) → get_sender (put_sender o rest) ≡ (o, rest)
unfolding get_sender put_sender
get_sender-put_sender none rest = refl
get_sender-put_sender (some w) rest = rw (get_id-put_id w rest) refl

unfoldable pub plain_marshal : Message → Bytes
plain_marshal m =
    m.opcode
    ∷ m.request_nonce
    ∷ m.message_nonce
    ∷ m.net_id
    ∷ put_bool m.reply_flag
    ∷ put_bool m.need_ack
    ∷ put_list m.message (put_list m.message_id (put_option m.signature (put_sender m.sender [])))

pub plain_unmarshal : Bytes → Option Message
plain_unmarshal (code ∷ request ∷ nonce ∷ net ∷ flag ∷ ack ∷ b) =
    let (message, b1) = get_list b in
    let (message_id, b2) = get_list b1 in
    let (signature, b3) = get_option b2 in
    let (sender, b4) = get_sender b3 in
    some (record {
      message = message;
      opcode = code;
      sender = sender;
      signature = signature;
      request_nonce = request;
      message_nonce = nonce;
      reply_flag = get_bool flag;
      net_id = net;
      message_id = message_id;
      need_ack = get_bool ack;
    })
plain_unmarshal b = none

pub plain_unmarshal-plain_marshal : (m : Message) → plain_unmarshal (plain_marshal m) ≡ some m
unfolding plain_unmarshal plain_marshal
plain_unmarshal-plain_marshal m =
    rw
      (
        get_list-put_list m.message
            (put_list m.message_id (put_option m.signature (put_sender m.sender []))),
        get_list-put_list m.message_id (put_option m.signature (put_sender m.sender [])),
        get_option-put_option m.signature (put_sender m.sender []),
        get_sender-put_sender m.sender [],
        get_bool-put_bool m.reply_flag,
        get_bool-put_bool m.need_ack,
      )
      refl

pub plain_unmarshal_lem :
    (m : Message) {b : Bytes} → some (plain_marshal m) ≡ some b → plain_unmarshal b ≡ some m
plain_unmarshal_lem m e = cc (plain_unmarshal-plain_marshal m)

abbrev pub plain_codec : Codec
plain_codec = record {
  marshal = λ m. some (plain_marshal m);
  unmarshal = plain_unmarshal;
  unmarshal-marshal = λ m b canonical e. plain_unmarshal_lem m e;
}
