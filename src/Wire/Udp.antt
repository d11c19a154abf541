-- ===== src/Wire/Udp.antt =====
-- network/package.go: one message in one UDP package, behind 2 bytes of size.
use carrier.Prelude.{
  ℕ, zero, suc, ◌+◌, ◌-◌, ◌*◌, ◌/◌, ◌%◌, ◌≤◌, ◌<◌, ◌≡◌, refl, ap, ◌∙◌, arith, true, false, ◌||◌, [],
  ◌∷◌, ◌++◌, Option, none, some, Bytes, nat_beq, ltb, if◌then◌else◌, length, take, drop, take_all,
  Option-cases, inl, inr,
}
use carrier.Prelude.Words.{put_uint16, uint16}
use carrier.Wire.Message.{Message, Codec, IsCanonical, header_valid}

abbrev pub max_package_size : ℕ
max_package_size = 65536

-- `BuildRawContent`; `none` is the nil that it returns on an error.
module _ (codec : Codec) where
  unfoldable pub frame_package : Bytes → Option Bytes
  frame_package bytes =
      if ltb max_package_size (2 + length bytes)
      then none
      else some (put_uint16 (length bytes % 65536) ++ bytes)

  unfoldable pub build_raw_content : Message → Option Bytes
  unfolding frame_package
  build_raw_content m = elim (codec.marshal m) [ none ↦ none | some bytes ↦ frame_package bytes ]

-- A package read into a fresh buffer of `n` bytes: cut to it, or followed by zeros.
unfoldable pub read_into : ℕ → Bytes → Bytes
read_into zero packet = []
read_into (suc n) [] = 0 ∷ read_into n []
read_into (suc n) (b ∷ packet) = b ∷ read_into n packet

-- `buffer[2 : 2+size]`, where the sum is a `uint16`; `none` is the panic of a slice whose end is
-- before its start.
unfoldable pub slice_body : Bytes → ℕ → Option Bytes
slice_body buffer size =
    let end = (2 + size) % 65536 in
    if ltb end 2 then none else some (take (end - 2) (drop 2 buffer))

pub data UdpResult : Type 0 where
  nothing : UdpResult
  received : Message → UdpResult
  unmarshal_failed invalid_message panicked : UdpResult

module _ (codec : Codec) (net_id : ℕ) where
  unfoldable pub check_udp : Message → UdpResult
  check_udp m =
      if nat_beq m.opcode 9 || nat_beq m.opcode 3
      then received m
      else if header_valid net_id m
      then received m
      else invalid_message

  unfoldable pub unpack_udp : Option Bytes → UdpResult
  unpack_udp none = panicked
  unpack_udp (some body) = elim (codec.unmarshal body) [
    | none ↦ unmarshal_failed
    | some m ↦ check_udp m
  ]

  -- `receiveUDPMessage` with a buffer of `n` bytes; a packet is `none` where there is neither an
  -- address nor a byte.
  unfoldable pub receive_udp_into : ℕ → Option Bytes → UdpResult
  receive_udp_into n none = nothing
  receive_udp_into n (some packet) =
      let buffer = read_into n packet in unpack_udp (slice_body buffer (uint16 buffer))

  unfoldable pub receive_udp_message : Option Bytes → UdpResult
  receive_udp_message packet = receive_udp_into max_package_size packet

take-read_into :
    (n k : ℕ) (packet : Bytes)
    → k ≤ length packet
    → length packet ≤ n
    → take k (read_into n packet) ≡ take k packet
unfolding read_into
take-read_into n zero packet h l = refl
take-read_into n (suc k) [] h l = absurd (omega arith)
take-read_into zero (suc k) (b ∷ packet) h l = absurd (omega arith)
take-read_into (suc n) (suc k) (b ∷ packet) h l =
    ap (◌∷◌ b) (take-read_into n k packet (omega arith) (omega arith))

module _ (codec : Codec) (net_id : ℕ) where
  -- A package of two size bytes and a body, in a buffer that holds it.
  receive_package :
      (n a b : ℕ) (body : Bytes)
      → length body ≤ n
      → length body ≡ a * 256 + b
      → length body < 65534
      → receive_udp_into codec net_id (suc (suc n)) (some (a ∷ b ∷ body))
        ≡ unpack_udp codec net_id (some body)
  unfolding receive_udp_into read_into uint16 slice_body
  receive_package n a b body h e l =
      let whole : (2 + (a * 256 + b)) % 65536 ≡ 2 + length body = omega arith in
      let start : ltb (2 + length body) 2 ≡ false = ground arith in
      let size : 2 + length body - 2 ≡ length body = omega arith in
      rw
        (
          whole,
          start,
          size,
          take-read_into n (length body) body (omega arith) h,
          take_all (length body) body (omega arith),
        )
        refl

  -- A package whose size bytes say 65534 or 65535 stops the receiver, whatever follows them: the
  -- end of the slice wraps to 0 or 1.
  crafted_package :
      (n a b : ℕ) (body : Bytes)
      → 65534 ≤ a * 256 + b
      → a * 256 + b < 65536
      → receive_udp_into codec net_id (suc (suc n)) (some (a ∷ b ∷ body)) ≡ panicked
  unfolding receive_udp_into read_into uint16 slice_body unpack_udp
  crafted_package n a b body h l = ground arith

  accepted :
      (m : Message) (bytes : Bytes)
      → IsCanonical m
      → codec.marshal m ≡ some bytes
      → header_valid net_id m ≡ true
      → unpack_udp codec net_id (some bytes) ≡ received m
  unfolding unpack_udp check_udp
  accepted m bytes canonical e valid = ground (arith, codec.unmarshal-marshal m bytes canonical e)

  -- A message whose package `BuildRawContent` makes, of less than 65536 bytes, is received as it
  -- was, if its header is the one that the receiver asks for.
  pub receive_udp_message-build_raw_content :
      (m : Message) {packet : Bytes}
      → build_raw_content codec m ≡ some packet
      → IsCanonical m
      → header_valid net_id m ≡ true
      → length packet < 65536
      → receive_udp_message codec net_id (some packet) ≡ received m
  unfolding build_raw_content put_uint16 receive_udp_message
  receive_udp_message-build_raw_content m {packet} h canonical valid l =
      elim (Option-cases (codec.marshal m)) [
        | inl failed ↦ ground arith
        | inr (bytes, e) ↦
            let made : (length bytes % 65536 / 256 % 256) ∷ (length bytes % 65536 % 256) ∷ bytes
                ≡ packet =
              ground arith in
            let fits : 2 + length bytes < 65536 = omega (arith, ap (length {A = ℕ}) made) in
            rw (← made) (
              receive_package 65534 (length bytes % 65536 / 256 % 256) (length bytes % 65536 % 256)
                bytes (omega arith) (omega arith) (omega arith)
              ∙ accepted m bytes canonical e valid)
      ]

  -- Whatever the network id and the rest of the package: size bytes of 65534 or 65535 stop the
  -- receiver with a slice out of range.
  pub receive_udp_message_panic :
      (a b : ℕ) (body : Bytes)
      → 65534 ≤ a * 256 + b
      → a * 256 + b < 65536
      → receive_udp_message codec net_id (some (a ∷ b ∷ body)) ≡ panicked
  unfolding receive_udp_message
  receive_udp_message_panic a b body h l = crafted_package 65534 a b body h l
