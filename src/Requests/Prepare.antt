-- ===== src/Requests/Prepare.antt =====
-- network/network.go: `PrepareMessage` and `PrepareMessageWithMsgID`, and the check of the signature
-- in the accept loops.
use carrier.Prelude.{
  ℕ, ◌≡◌, ◌≢◌, arith, Bool, true, false, [], Option, none, some, Bytes, if◌then◌else◌, length,
  Bool-cases, Option-cases, inl, inr,
}
use carrier.Wire.Result.{Result, ok, err}
use carrier.Wire.Message.{WireId, Message, header_valid, sender_valid}
use carrier.Wire.Signing.{
  serialize_message, Policy, KeyPair, sign, verify, from_private_key_bytes, verify-sign,
}

pub data PrepareError : Type 0 where
  null_message no_opcode not_marshalled private_key_size : PrepareError

-- What a node signs and sends with: `Network.ID`, `netID` and `keys`.
pub record Node : Type 0 where
  pub id : WireId
  pub net_id : ℕ
  pub keys : KeyPair

-- The messages of the application, their opcodes and their bytes. `unmarshal` is `Unmarshal` into the
-- type that an opcode stands for, with no result where the opcode is not registered or the bytes are
-- malformed; `bytes_of` is the data of a `protobuf.Bytes`, and of no other type.
pub record Bodies : Type 1 where
  pub Body : Type 0
  pub opcode_of : Body → Option ℕ
  pub marshal : Body → Option Bytes
  pub unmarshal : ℕ → Bytes → Option Body
  pub bytes_of : Body → Option Bytes
  pub unmarshal-marshal :
      (b : Body) (code : ℕ) (raw : Bytes)
      → opcode_of b ≡ some code
      → marshal b ≡ some raw
      → unmarshal code raw ≡ some b

module _ (p : Policy) (t : Bodies) where
  -- The message before it is signed.
  abbrev unsigned : Bytes → Bool → Node → ℕ → Bytes → Message
  unsigned message_id need_ack n code raw = record {
    message = raw;
    opcode = code;
    sender = some n.id;
    signature = none;
    request_nonce = 0;
    message_nonce = 0;
    reply_flag = false;
    net_id = n.net_id;
    message_id = message_id;
    need_ack = need_ack;
  }

  unfoldable pub add_signature : Bool → Node → Message → Result PrepareError Message
  unfolding sign serialize_message
  add_signature signing n m =
      if signing
      then elim (sign p n.keys (serialize_message n.id m.message)) [
        | none ↦ err private_key_size
        | some s ↦ ok (record m { signature = some s })
      ]
      else ok m

  -- What the two functions share; `signing` is `GetSignMessage(ctx)`.
  unfoldable pub prepare : Bytes → Bool → Bool → Node → Option t.Body → Result PrepareError Message
  unfolding add_signature
  prepare message_id need_ack signing n none = err null_message
  prepare message_id need_ack signing n (some body) = elim (t.opcode_of body) [
    | none ↦ err no_opcode
    | some code ↦ elim (t.marshal body) [
      | none ↦ err not_marshalled
      | some raw ↦ add_signature signing n (unsigned message_id need_ack n code raw)
    ]
  ]

  unfoldable pub prepare_message : Bool → Node → Option t.Body → Result PrepareError Message
  unfolding prepare
  prepare_message = prepare [] false

  unfoldable pub prepare_message_with_msg_id :
      Bool → Node → Option t.Body → Bytes → Result PrepareError Message
  unfolding prepare
  prepare_message_with_msg_id signing n body message_id = prepare message_id true signing n body

  abbrev bytes_or_nil : Option Bytes → Bytes
  bytes_or_nil none = []
  bytes_or_nil (some b) = b

  -- The check of the accept loops: a message without a signature passes.
  unfoldable pub signature_accepted : Message → Bool
  unfolding verify serialize_message
  signature_accepted m = elim m.signature [
    | none ↦ true
    | some s ↦ elim m.sender [
      | none ↦ false
      | some id ↦ verify p (bytes_or_nil id.net_key) (serialize_message id m.message) s
    ]
  ]

  add_signature-same :
      (signing : Bool) (n : Node) (m0 : Message) {m : Message}
      → add_signature signing n m0 ≡ ok m
      → (m.opcode ≡ m0.opcode) × (m.message ≡ m0.message)
  unfolding add_signature
  add_signature-same signing n m0 {m} h =
      go signing (sign p n.keys (serialize_message n.id m0.message)) h
    where
      go :
          (b : Bool) (o : Option Bytes)
          → (if b
              then elim o as (λ x. Result PrepareError Message) [
                | none ↦ err private_key_size
                | some s ↦ ok (record m0 { signature = some s })
              ]
              else ok m0)
            ≡ ok m
          → (m.opcode ≡ m0.opcode) × (m.message ≡ m0.message)
      go true none e = cc
      go true (some s) e = ground arith
      go false o e = ground arith

  -- A receiver that unmarshals what was prepared has the body again.
  pub unmarshal-prepare_message :
      (signing : Bool) (n : Node) (body : t.Body) {m : Message}
      → prepare_message signing n (some body) ≡ ok m
      → t.unmarshal m.opcode m.message ≡ some body
  unfolding prepare_message prepare
  unmarshal-prepare_message signing n body {m} h = elim (Option-cases (t.opcode_of body)) [
    | inl no_code ↦ ground arith
    | inr (code, coded) ↦ elim (Option-cases (t.marshal body)) [
      | inl failed ↦ ground arith
      | inr (raw, marshalled) ↦
          let signed : add_signature signing n (unsigned [] false n code raw) ≡ ok m =
            ground arith in
          let (same, bytes) = add_signature-same signing n (unsigned [] false n code raw) signed in
          rw (same, bytes) (t.unmarshal-marshal body code raw coded marshalled)
    ]
  ]

  add_signature-accepted :
      (raw : Bytes) (signing need_ack : Bool) (n : Node) (message_id : Bytes) (code : ℕ)
      (body : Bytes) {m : Message}
      → from_private_key_bytes p raw ≡ some n.keys
      → p.is_generated raw ≡ true
      → n.id.net_key ≡ some n.keys.public_key
      → length n.keys.public_key ≡ p.public_key_size
      → n.id.address ≢ []
      → code ≢ 0
      → add_signature signing n (unsigned message_id need_ack n code body) ≡ ok m
      → (header_valid n.net_id m ≡ true) × (signature_accepted m ≡ true)
  unfolding add_signature header_valid sender_valid signature_accepted
  add_signature-accepted raw signing need_ack n message_id code body {m} made own in_id size address
        nonzero h =
      let (s, signed, good) = verify-sign p raw (serialize_message n.id body) made own size in
      elim (Bool-cases signing) [
        | inl on ↦ (ground arith, ground arith)
        | inr off ↦ (ground arith, ground arith)
      ]

  -- For a node with an address whose keys were made from a private key that the policy generated, whose
  -- public key has the size of the policy and stands in the ID of the node, and a body whose opcode is
  -- not 0: what `PrepareMessage` returns passes both checks of a receiver of the same network, that of
  -- the header and that of the signature, whether the message is signed or not.
  pub prepare_message-accepted :
      (raw : Bytes) (signing : Bool) (n : Node) (body : t.Body) (code : ℕ) {m : Message}
      → from_private_key_bytes p raw ≡ some n.keys
      → p.is_generated raw ≡ true
      → n.id.net_key ≡ some n.keys.public_key
      → length n.keys.public_key ≡ p.public_key_size
      → n.id.address ≢ []
      → t.opcode_of body ≡ some code
      → code ≢ 0
      → prepare_message signing n (some body) ≡ ok m
      → (header_valid n.net_id m ≡ true) × (signature_accepted m ≡ true)
  unfolding prepare_message prepare
  prepare_message-accepted raw signing n body code {m} made own in_id size address coded nonzero h =
      elim (Option-cases (t.marshal body)) [
        | inl failed ↦ ground arith
        | inr (bytes, marshalled) ↦
            add_signature-accepted raw signing false n [] code bytes made own in_id size address
              nonzero (ground arith)
      ]
