-- ===== src/Wire/Compress.antt =====
-- network/compress.go: the algorithms, and the 16 bits that say how a body is compressed.
use carrier.Prelude.{
  ℕ, ◌+◌, ◌/◌, ◌%◌, ◌<◌, ◌≡◌, arith, Bool, ◌&&◌, Option, none, some, Bytes, nat_beq, ltb, leb,
  if◌then◌else◌,
}

-- `AlgoType` is a `uint16`.
abbrev pub algo_none : ℕ
algo_none = 0

abbrev pub algo_bzip2 : ℕ
algo_bzip2 = 1

abbrev pub algo_gzip : ℕ
algo_gzip = 2

abbrev pub algo_zlib : ℕ
algo_zlib = 3

abbrev pub algo_lzw : ℕ
algo_lzw = 4

-- The fields of `Network` that the frames use.
pub record Config : Type 0 where
  pub net_id : ℕ
  pub compress_enable : Bool
  pub compress_algo : ℕ
  pub compress_size : ℕ

-- The compressors of the Go library: to uncompress gives back what was compressed. `gunzip` and
-- `unzlib` have no result where `NewReader` refuses the bytes and returns a nil reader.
pub record Compressors : Type 0 where
  pub gzip : Bytes → Bytes
  pub gunzip : Bytes → Option Bytes
  pub zlib : Bytes → Bytes
  pub unzlib : Bytes → Option Bytes
  pub lzw : Bytes → Bytes
  pub unlzw : Bytes → Bytes
  pub gunzip-gzip : (b : Bytes) → gunzip (gzip b) ≡ some b
  pub unzlib-zlib : (b : Bytes) → unzlib (zlib b) ≡ some b
  pub unlzw-lzw : (b : Bytes) → unlzw (lzw b) ≡ b

-- The test for compression, which `sendMessage` and `GenCompressInfo` make.
unfoldable pub compresses : Config → ℕ → Bool
compresses c size = c.compress_enable && leb c.compress_size size

-- `none` is the panic. The algorithm is below 256, so `|` adds.
unfoldable pub gen_compress_info : Config → ℕ → Option ℕ
unfolding compresses
gen_compress_info c size =
    if ltb 255 c.compress_algo
    then none
    else some ((if compresses c size then 256 else 0) + c.compress_algo)

unfoldable pub get_compress_info : ℕ → ℕ × Bool
get_compress_info info = (info % 256, nat_beq (info / 256) 1)

module _ (z : Compressors) where
  -- `none` is the error.
  unfoldable pub compress : ℕ → Bytes → Option Bytes
  compress algo message =
      if nat_beq algo 1
      then some message
      else if nat_beq algo 2
      then some (z.gzip message)
      else if nat_beq algo 3
      then some (z.zlib message)
      else if nat_beq algo 4
      then some (z.lzw message)
      else if nat_beq algo 0
      then some message
      else none

  -- `none` is the panic: the error of `NewReader` is ignored, and its nil reader is read from.
  unfoldable pub uncompress : ℕ → Bytes → Option Bytes
  uncompress algo message =
      if nat_beq algo 1
      then some message
      else if nat_beq algo 2
      then z.gunzip message
      else if nat_beq algo 3
      then z.unzlib message
      else if nat_beq algo 4
      then some (z.unlzw message)
      else some message

  -- What `Compress` accepts, `Uncompress` gives back under the same algorithm.
  pub uncompress-compress :
      (algo : ℕ) (message out : Bytes)
      → compress algo message ≡ some out
      → uncompress algo out ≡ some message
  unfolding compress uncompress
  uncompress-compress algo message out h =
      ground (arith, z.gunzip-gzip message, z.unzlib-zlib message, z.unlzw-lzw message)

-- The receiver reads the algorithm and the flag that the sender wrote.
pub get-gen_compress_info :
    (c : Config) (size : ℕ) {info : ℕ}
    → gen_compress_info c size ≡ some info
    → (get_compress_info info ≡ (c.compress_algo, compresses c size)) × (info < 65536)
unfolding gen_compress_info get_compress_info
get-gen_compress_info c size h = ground arith
