-- ===== src/Wire/Message.antt =====
-- internal/protobuf: the messages on the wire, and what the code relies on of the generated
-- `proto.Marshal` and `proto.Unmarshal`.
use carrier.Prelude.{
  ℕ, ◌≡◌, Bool, true, false, ◌&&◌, ◌≢◌, if◌then◌else◌, [], ◌∷◌, Option, none, some, Bytes, nat_beq,
}
use carrier.Peer.Identity.{PeerId}

-- `protobuf.ID`; `none` is the nil `NetKey`.
pub record WireId : Type 0 where
  pub address : Bytes
  pub id : Bytes
  pub net_key : Option Bytes
  pub connection_id : Bytes

-- `peer.ID(*msg.Sender)`: a nil slice reads as an empty one.
unfoldable pub to_peer : WireId → PeerId
to_peer w = record {
  address = w.address;
  id = w.id;
  net_key = elim w.net_key [ none ↦ [] | some k ↦ k ];
  connection_id = w.connection_id;
}

-- `protobuf.Message`; `none` is a nil pointer or slice.
pub record Message : Type 0 where
  pub message : Bytes
  pub opcode : ℕ
  pub sender : Option WireId
  pub signature : Option Bytes
  pub request_nonce : ℕ
  pub message_nonce : ℕ
  pub reply_flag : Bool
  pub net_id : ℕ
  pub message_id : Bytes
  pub need_ack : Bool

abbrev is_empty : Bytes → Bool
is_empty [] = true
is_empty (x ∷ xs) = false

-- The tests on the sender: it is there, with a key and an address.
unfoldable pub sender_valid : Option WireId → Bool
sender_valid none = false
sender_valid (some w) = elim w.net_key [
  | none ↦ false
  | some k ↦ if is_empty w.address then false else true
]

-- The negation of the check that ends every receive function.
unfoldable pub header_valid : ℕ → Message → Bool
unfolding sender_valid
header_valid net_id m =
    if nat_beq m.opcode 0 then false else sender_valid m.sender && nat_beq m.net_id net_id

-- No slice of the message is present and empty: `proto.Marshal` writes such a one as it writes nil.
abbrev pub FilledKey : Option WireId → Type 0
FilledKey none = Unit
FilledKey (some w) = w.net_key ≢ some []

abbrev pub IsCanonical : Message → Type 0
IsCanonical m = FilledKey m.sender × (m.signature ≢ some [])

-- The generated code: a message without such slices is unmarshalled from what it is marshalled to.
pub record Codec : Type 0 where
  pub marshal : Message → Option Bytes
  pub unmarshal : Bytes → Option Message
  pub unmarshal-marshal :
      (m : Message) (b : Bytes) → IsCanonical m → marshal m ≡ some b → unmarshal b ≡ some m
