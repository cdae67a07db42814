-- ===== src/Client/Compression.antt =====
-- Payload compression: pkg/spruce/compression.go. The two codecs are parameters: compress/gzip, and
-- zstd of github.com/klauspost/compress. Pools of writers are left out.
pub mod RoundTrip
mod Examples
use spruce.Prelude.{
  ℕ, zero, suc, ◌+◌, ◌-◌, ◌*◌, ◌/◌, ◌%◌, ◌^◌, ◌≤◌, ◌<◌, min, max, ◌≡◌, refl, sym, ap, subst, ◌∙◌,
  ◌≢◌, ◌⊎◌, inl, inr, ite, if_pos, if_neg, Bool, true, false, not, ◌&&◌, ◌||◌, Option, none, some,
  List, [], ◌∷◌, ◌++◌, map, append_assoc, append-nil, arith, dec_lt, dec_le, ℕ_discrete, ltb, leb,
  ◌==◌, if◌then◌else◌, tests, Bool-cases, Option-cases, some_inj, length, get_elem?, take, drop,
  length-append, All, All-map, All-zip, All-drop_mid, All-snoc, sum_by, sum_by-append, Str, str_dec,
  Result, ok, err, ◌>>=◌, ◌>>◌, fail_if, bind_ok, passed,
}
use spruce.Wire.Bytes.{big_endian, from_big_endian}

-- A codec: `read n x` reads what `x` decodes to, `n` bytes at most. The documented behaviour is that
-- what was encoded is read back, for payloads up to the limit of 1 MiB.
pub record Codec : Type 0 where
  pub encode : Str → Str
  pub read : ℕ → Str → Option Str
  pub lossless : (n : ℕ) (x : Str) → length x ≤ 1048576 → read n (encode x) ≡ some (take n x)

pub data Algorithm : Type 0 where
  off : Algorithm
  gzip : Algorithm
  zstd : Algorithm

pub data CompressionError : Type 0 where
  payload_too_large : CompressionError
  unsupported_algorithm : CompressionError
  escaped_too_large : CompressionError
  exceeds_decompressed_limit : CompressionError
  unsupported_encoding : CompressionError
  unreadable : CompressionError
  invalid_length : CompressionError

-- "\x89SPRUCE\x01"
abbrev pub magic : Str
magic = 137 ∷ 83 ∷ 80 ∷ 82 ∷ 85 ∷ 67 ∷ 69 ∷ 1 ∷ []

-- The algorithm that a name stands for: "" is zstd.
unfoldable pub parse_algorithm : Str → Result CompressionError Algorithm
parse_algorithm name = ite (str_dec name []) (ok zstd) (
    ite (str_dec name (111 ∷ 102 ∷ 102 ∷ [])) (ok off) (
      ite (str_dec name (103 ∷ 122 ∷ 105 ∷ 112 ∷ [])) (ok gzip)
        (ite (str_dec name (122 ∷ 115 ∷ 116 ∷ 100 ∷ [])) (ok zstd) (err unsupported_algorithm))))

-- Whether a payload reads as an envelope.
unfoldable pub is_envelope : Str → Bool
is_envelope payload = leb 13 (length payload) && ite (str_dec (take 8 payload) magic) true false

abbrev pub is_off : Algorithm → Bool
is_off off = true
is_off gzip = false
is_off zstd = false

module _ (gzip_codec zstd_codec : Codec) where
  unfoldable pub method_byte : Algorithm → ℕ
  method_byte off = 1
  method_byte gzip = 1
  method_byte zstd = 2

  unfoldable pub codec_of : Algorithm → Codec
  codec_of off = gzip_codec
  codec_of gzip = gzip_codec
  codec_of zstd = zstd_codec

  -- The envelope: the magic bytes, the method, the size and the encoded payload. Here an algorithm
  -- that is off stands for gzip, which a payload that is itself an envelope is wrapped with.
  unfoldable pub envelope : Algorithm → Str → Str
  envelope a payload =
      magic ++ (method_byte a ∷ (big_endian 4 (length payload) ++ (codec_of a).encode payload))

  -- What is sent: a literal envelope is always wrapped, any other payload only where it saves enough.
  unfoldable pub choose : Bool → Str → Str → Result CompressionError Str
  choose true payload encoded = do
    fail_if (ltb 1048576 (length encoded)) escaped_too_large
    ok encoded
  choose false payload encoded =
      if ltb (length payload - max 128 (length payload / 10)) (length encoded)
      then ok payload
      else ok encoded

  unfoldable pub compress_with : Algorithm → Str → Result CompressionError Str
  compress_with a payload =
      if not (is_envelope payload) && (ltb (length payload) 1024 || is_off a)
      then ok payload
      else choose (is_envelope payload) payload (envelope a payload)

  -- `compressPayload`
  unfoldable pub compress_payload : Str → Str → Result CompressionError Str
  compress_payload payload algorithm = do
    fail_if (ltb 1048576 (length payload)) payload_too_large
    a ← parse_algorithm algorithm
    compress_with a payload

  -- The reader that the method byte selects.
  unfoldable pub reader_of : ℕ → Result CompressionError Codec
  reader_of n =
      if n == 1 then ok gzip_codec else if n == 2 then ok zstd_codec else err unsupported_encoding

  unfoldable pub read_all : Codec → ℕ → Str → Result CompressionError Str
  read_all c n encoded = elim (c.read n encoded) [ none ↦ err unreadable | some x ↦ ok x ]

  abbrev pub byte_at : ℕ → Str → ℕ
  byte_at i xs = elim (get_elem? xs i) [ none ↦ 0 | some b ↦ b ]

  -- `decompressPayload`
  unfoldable pub decompress_envelope : Str → ℕ → Result CompressionError Str
  decompress_envelope payload maximum = do
    let original = from_big_endian 0 (take 4 (drop 9 payload))
    fail_if (ltb maximum original) exceeds_decompressed_limit
    c ← reader_of (byte_at 8 payload)
    decoded ← read_all c (maximum + 1) (drop 13 payload)
    fail_if (not (length decoded == original) || ltb maximum (length decoded)) invalid_length
    ok decoded

  unfoldable pub decompress_payload : Str → ℕ → Result CompressionError Str
  decompress_payload payload maximum =
      if is_envelope payload then decompress_envelope payload maximum else ok payload
