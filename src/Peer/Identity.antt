-- ===== src/Peer/Identity.antt =====
-- peer/identity.go: the type `ID`, here `PeerId`, and its methods. An `int` of the source that may be negative is
-- an `ℤ`; a hash is the parameter `hash`, since blake2b comes from another library.
use carrier.Prelude.{
  ℕ, zero, suc, ◌+◌, ◌*◌, ◌/◌, ◌%◌, Bool, true, false, [], ◌∷◌, ◌++◌, if◌then◌else◌, ltb, nat_beq,
  Bytes, bit_xor, length, bytes_beq, Option, none, some,
}

-- A Go `int`; `negsuc n` is -(n + 1).
pub data ℤ : Type 0 where
  pos : ℕ → ℤ
  negsuc : ℕ → ℤ

-- `peer.ID`, which is `protobuf.ID`
pub record PeerId : Type 0 where
  pub address : Bytes
  pub id : Bytes
  pub net_key : Bytes
  pub connection_id : Bytes

unfoldable pub create_id : (Bytes → Bytes) → Bytes → Bytes → PeerId
create_id hash address public_key = record {
  address = address;
  id = hash public_key;
  net_key = public_key;
  connection_id = hash (public_key ++ address);
}

unfoldable pub equals : PeerId → PeerId → Bool
equals a b = bytes_beq a.id b.id

-- `bytes.Compare`: the first byte that differs decides, and a prefix comes first.
pub data Compare : Type 0 where
  less same greater : Compare

unfoldable pub compare_bytes : Bytes → Bytes → Compare
compare_bytes [] [] = same
compare_bytes [] (y ∷ ys) = less
compare_bytes (x ∷ xs) [] = greater
compare_bytes (x ∷ xs) (y ∷ ys) =
    let rest = compare_bytes xs ys in if ltb x y then less else if ltb y x then greater else rest

unfoldable pub is_less : Compare → Bool
is_less less = true
is_less same = false
is_less greater = false

unfoldable pub less_than : PeerId → PeerId → Bool
unfolding compare_bytes is_less
less_than a b = is_less (compare_bytes a.id b.id)

-- `hex.EncodeToString`
unfoldable pub hex_digit : ℕ → ℕ
hex_digit d = if ltb d 10 then 48 + d else 87 + d

unfoldable pub hex_encode : Bytes → Bytes
unfolding hex_digit
hex_encode [] = []
hex_encode (b ∷ bs) = hex_digit (b / 16) ∷ hex_digit (b % 16) ∷ hex_encode bs

unfoldable pub public_key_hex : PeerId → Bytes
unfolding hex_encode
public_key_hex a = hex_encode a.net_key

-- The loop of `Xor` and `XorID`: a slice of the first one's length, whose bytes beyond the
-- second one's length stay 0.
unfoldable pub xor_bytes : Bytes → Bytes → Bytes
xor_bytes [] ys = []
xor_bytes (x ∷ xs) [] = 0 ∷ xor_bytes xs []
xor_bytes (x ∷ xs) (y ∷ ys) = bit_xor x y ∷ xor_bytes xs ys

unfoldable pub xor_key : PeerId → PeerId → PeerId
unfolding xor_bytes
xor_key a b = record {
  address = a.address;
  id = [];
  net_key = xor_bytes a.net_key b.net_key;
  connection_id = [];
}

unfoldable pub xor_id : PeerId → PeerId → PeerId
unfolding xor_bytes
xor_id a b = record {
  address = a.address;
  id = xor_bytes a.id b.id;
  net_key = [];
  connection_id = [];
}

-- `bits.LeadingZeros8`
unfoldable pub leading_zeros8 : ℕ → ℕ
leading_zeros8 b =
    if ltb b 1
    then 8
    else if ltb b 2
    then 7
    else if ltb b 4
    then 6
    else if ltb b 8
    then 5
    else if ltb b 16
    then 4
    else if ltb b 32
    then 3
    else if ltb b 64
    then 2
    else if ltb b 128
    then 1
    else 0

-- The loop of `PrefixLen`, from index `i`: `none` if it runs out of bytes.
unfoldable pub first_bit : ℕ → Bytes → Option ℕ
unfolding leading_zeros8
first_bit i [] = none
first_bit i (b ∷ bs) =
    let rest = first_bit (suc i) bs in if nat_beq b 0 then rest else some (i * 8 + leading_zeros8 b)

-- `n - 1` as an `int`
unfoldable pub minus_one : ℕ → ℤ
minus_one zero = negsuc 0
minus_one (suc n) = pos n

unfoldable pub prefix_len : PeerId → ℤ
unfolding first_bit minus_one
prefix_len a = elim (first_bit 0 a.id) [ some n ↦ pos n | none ↦ minus_one (length a.id * 8) ]
