-- ===== src/Wire/Signing.antt =====
-- network/utils.go: the bytes that are signed; crypto/keypair.go: the checks around the policy.
use carrier.Prelude.{
  ℕ, ◌<◌, ◌≡◌, refl, ap, sym, arith, Bool, true, false, ◌++◌, Option, none, some, Bytes, nat_beq,
  if◌then◌else◌, length, take, drop, take-append, drop-append,
}
use carrier.Prelude.Words.{put_uint32_le, uint32_le, length-put_uint32_le, uint32_le_back}
use carrier.Wire.Message.{WireId}

-- `SerializeMessage`: the sizes are cut to 32 bits. The positions of the copies add up to the size
-- of the buffer, so its panic is out of reach.
unfoldable pub serialize_message : WireId → Bytes → Bytes
serialize_message id message =
    put_uint32_le (length id.address)
    ++ (id.address ++ (put_uint32_le (length id.id) ++ (id.id ++ message)))

-- `SignaturePolicy` and `HashPolicy`; a policy verifies what it signed with the matching keys, if
-- the private key is one that it generates: the halves of an Ed25519 key belong together.
pub record Policy : Type 0 where
  pub private_key_size : ℕ
  pub public_key_size : ℕ
  pub sign : Bytes → Bytes → Bytes
  pub verify : Bytes → Bytes → Bytes → Bool
  pub private_to_public : Bytes → Option Bytes
  pub hash_bytes : Bytes → Bytes
  pub is_generated : Bytes → Bool
  pub sign_verified :
      (private_key public_key message : Bytes)
      → is_generated private_key ≡ true
      → private_to_public private_key ≡ some public_key
      → verify public_key message (sign private_key message) ≡ true

pub record KeyPair : Type 0 where
  pub private_key : Bytes
  pub public_key : Bytes

module _ (p : Policy) where
  -- `none` is `PrivateKeySizeErr`.
  unfoldable pub sign : KeyPair → Bytes → Option Bytes
  sign k message =
      if nat_beq (length k.private_key) p.private_key_size
      then some (p.sign k.private_key (p.hash_bytes message))
      else none

  -- `fromPrivateKeyBytes`
  unfoldable pub from_private_key_bytes : Bytes → Option KeyPair
  from_private_key_bytes raw =
      if nat_beq (length raw) p.private_key_size
      then elim (p.private_to_public raw) [
        | none ↦ none
        | some public_key ↦ some (record { private_key = raw; public_key = public_key })
      ]
      else none

  unfoldable pub verify : Bytes → Bytes → Bytes → Bool
  verify public_key message signature =
      if nat_beq (length public_key) p.public_key_size
      then p.verify public_key (p.hash_bytes message) signature
      else false

  -- A generated pair that `FromPrivateKey` accepts signs every message, and the signature is verified under
  -- its public key, if that has the size of the policy.
  pub verify-sign :
      (raw message : Bytes) {k : KeyPair}
      → from_private_key_bytes raw ≡ some k
      → p.is_generated raw ≡ true
      → length k.public_key ≡ p.public_key_size
      → (s : Bytes) × (sign k message ≡ some s) × (verify k.public_key message s ≡ true)
  unfolding from_private_key_bytes sign verify
  verify-sign raw message {k} h own size = (
    p.sign k.private_key (p.hash_bytes message),
    ground arith,
    ground (arith, p.sign_verified k.private_key k.public_key (p.hash_bytes message), own),
  )

-- Two lists that start alike, cut at the same place.
cut_append :
    (n : ℕ) (xs xs' ys ys' : Bytes)
    → length xs ≡ n
    → length xs' ≡ n
    → xs ++ ys ≡ xs' ++ ys'
    → (xs ≡ xs') × (ys ≡ ys')
cut_append n xs xs' ys ys' e e' h =
    let left : take n (xs ++ ys) ≡ xs = rw (← e) (take-append xs ys) in
    let left' : take n (xs' ++ ys') ≡ xs' = rw (← e') (take-append xs' ys') in
    let right : drop n (xs ++ ys) ≡ ys = rw (← e) (drop-append xs ys) in
    let right' : drop n (xs' ++ ys') ≡ ys' = rw (← e') (drop-append xs' ys') in
    (cc (ap (take n) h), cc (ap (drop n) h))

-- A field behind its size.
same_field :
    (xs xs' ys ys' : Bytes)
    → length xs < 4294967296
    → length xs' < 4294967296
    → put_uint32_le (length xs) ++ (xs ++ ys) ≡ put_uint32_le (length xs') ++ (xs' ++ ys')
    → (xs ≡ xs') × (ys ≡ ys')
same_field xs xs' ys ys' p q h =
    let parts =
      cut_append 4 (put_uint32_le (length xs)) (put_uint32_le (length xs')) _ _
        (length-put_uint32_le (length xs)) (length-put_uint32_le (length xs')) h in
    let size : length xs ≡ length xs' =
      omega (
        arith,
        ap uint32_le parts.0,
        uint32_le_back (length xs) p,
        uint32_le_back (length xs') q,
      ) in
    cut_append (length xs) xs xs' ys ys' refl (sym size) parts.1

-- Different senders or messages have different signed bytes, if the sizes fit 32 bits.
pub serialize_message_injective :
    (a b : WireId) (m n : Bytes)
    → length a.address < 4294967296
    → length a.id < 4294967296
    → length b.address < 4294967296
    → length b.id < 4294967296
    → serialize_message a m ≡ serialize_message b n
    → (a.address ≡ b.address) × (a.id ≡ b.id) × (m ≡ n)
unfolding serialize_message
serialize_message_injective a b m n p q r s h =
    let address = same_field a.address b.address _ _ p r h in
    let id = same_field a.id b.id m n q s address.1 in (address.0, id.0, id.1)
