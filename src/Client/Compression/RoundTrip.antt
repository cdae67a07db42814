-- ===== src/Client/Compression/RoundTrip.antt =====
-- `decompressPayload` on what `compressPayload` returns.
use spruce.Prelude.{
  ℕ, zero, suc, ◌+◌, ◌-◌, ◌/◌, ◌≤◌, max, ◌≡◌, refl, sym, ap, ◌∙◌, ◌⊎◌, inl, inr, if_pos, Bool, true,
  false, not, ◌&&◌, ◌||◌, List, [], ◌∷◌, arith, ltb, Bool-cases, length, take, drop, length-append,
  le→leb, take-append, drop-append, Str, str_dec, Result, ok, bind_ok, passed,
}
use spruce.Wire.Bytes.{big_endian, from_big_endian, from_big_endian-big_endian, length-big_endian}
use spruce.Client.Compression.{
  Codec, Algorithm, CompressionError, magic, parse_algorithm, is_envelope, method_byte, codec_of,
  envelope, choose, compress_with, compress_payload, reader_of, read_all, byte_at,
  decompress_envelope, decompress_payload, off, gzip, zstd, payload_too_large, escaped_too_large,
  is_off,
}

take-all : {A : Type 0} (n : ℕ) (xs : List A) → length xs ≤ n → take n xs ≡ xs
take-all zero [] h = refl
take-all zero (x ∷ xs) h = absurd (omega arith)
take-all (suc n) [] h = refl
take-all (suc n) (x ∷ xs) h = ap (◌∷◌ x) (take-all n xs (omega arith))

ok_inj : {x y : Str} → ◌≡◌ {A = Result CompressionError Str} (ok x) (ok y) → x ≡ y
ok_inj e = cc

module _ (gzip_codec zstd_codec : Codec) where
  envelope-is_envelope :
      (a : Algorithm) (payload : Str)
      → is_envelope (envelope gzip_codec zstd_codec a payload) ≡ true
  unfolding is_envelope envelope
  envelope-is_envelope a payload = rw (if_pos (str_dec magic magic) refl true false) (
      ground (
        arith,
        le→leb 13 (length (envelope gzip_codec zstd_codec a payload)) (
            unfold envelope in
            omega (
              arith,
              length-append (big_endian 4 (length payload))
                  ((codec_of gzip_codec zstd_codec a).encode payload),
              length-big_endian 4 (length payload),
            )),
      ))

  selected :
      (a : Algorithm)
      → reader_of gzip_codec zstd_codec (method_byte gzip_codec zstd_codec a)
        ≡ ok (codec_of gzip_codec zstd_codec a)
  unfolding reader_of method_byte codec_of
  selected off = refl
  selected gzip = refl
  selected zstd = refl

  read_all-encode :
      (c : Codec) (n : ℕ) (x : Str)
      → length x ≤ 1048576
      → length x ≤ n
      → read_all gzip_codec zstd_codec c n (c.encode x) ≡ ok x
  unfolding read_all
  read_all-encode c n x fits small = rw (c.lossless n x fits, read_all) (ap ok (take-all n x small))

  decompress_parts :
      (encoded payload : Str) (c : Codec) (maximum : ℕ)
      → from_big_endian 0 (take 4 (drop 9 encoded)) ≡ length payload
      → reader_of gzip_codec zstd_codec (byte_at gzip_codec zstd_codec 8 encoded) ≡ ok c
      → read_all gzip_codec zstd_codec c (maximum + 1) (drop 13 encoded) ≡ ok payload
      → length payload ≤ maximum
      → decompress_envelope gzip_codec zstd_codec encoded maximum ≡ ok payload
  unfolding decompress_envelope
  decompress_parts encoded payload c maximum size reader decoded small =
      rw (size, reader, decoded, decompress_envelope) (ground (arith, small))

  decompress-envelope :
      (a : Algorithm) (payload : Str) (maximum : ℕ)
      → length payload ≤ 1048576
      → length payload ≤ maximum
      → decompress_payload gzip_codec zstd_codec (envelope gzip_codec zstd_codec a payload) maximum
        ≡ ok payload
  unfolding decompress_payload
  decompress-envelope a payload maximum fits small = rw (envelope-is_envelope a payload) (
      decompress_parts (envelope gzip_codec zstd_codec a payload) payload
        (codec_of gzip_codec zstd_codec a) maximum
        (unfold envelope in
          ap (from_big_endian 0)
            (take-append 4 (big_endian 4 (length payload)) _ (length-big_endian 4 (length payload)))
          ∙ from_big_endian-big_endian 4 (length payload) (omega arith))
        (unfold envelope in selected a)
        (unfold envelope in
          ap (read_all gzip_codec zstd_codec (codec_of gzip_codec zstd_codec a) (maximum + 1)) (
            drop-append 4 0 (big_endian 4 (length payload))
              ((codec_of gzip_codec zstd_codec a).encode payload)
              (omega (arith, length-big_endian 4 (length payload))))
          ∙ read_all-encode (codec_of gzip_codec zstd_codec a) (maximum + 1) payload fits
              (omega arith))
        small)

  -- A payload that is no envelope is passed through.
  decompress-plain :
      (payload : Str) (maximum : ℕ)
      → is_envelope payload ≡ false
      → decompress_payload gzip_codec zstd_codec payload maximum ≡ ok payload
  unfolding decompress_payload
  decompress-plain payload maximum e = rw (e, decompress_payload) refl

  -- Either the envelope is sent, or the payload as it is, and it is no envelope then.
  choose-cases :
      (literal : Bool) (payload env encoded : Str)
      → choose gzip_codec zstd_codec literal payload env ≡ ok encoded
      → ((encoded ≡ env) × (length env ≤ max (length payload) 1048576))
        ⊎ ((literal ≡ false) × (encoded ≡ payload))
  unfolding choose
  choose-cases true payload env encoded h =
      let (fits, sent) = passed (ltb 1048576 (length env)) escaped_too_large (ok env) h in
      inl (sym (ok_inj sent), ground arith)
  choose-cases false payload env encoded h =
      elim (Bool-cases (ltb (length payload - max 128 (length payload / 10)) (length env))) [
        | inl large ↦ inr (refl, sym (ok_inj (rw (large, choose) at h)))
        | inr saves ↦ inl (sym (ok_inj (rw (saves, choose) at h)), ground arith)
      ]

  -- What `compressPayload` returns: an envelope of the payload, or the payload where it is none.
  pub data Sent (payload encoded : Str) : Type 0 where
    wrapped :
        (a : Algorithm) → encoded ≡ envelope gzip_codec zstd_codec a payload → Sent payload encoded
    untouched : is_envelope payload ≡ false → encoded ≡ payload → Sent payload encoded

  compress_with-Sent :
      (a : Algorithm) (payload encoded : Str)
      → length payload ≤ 1048576
      → compress_with gzip_codec zstd_codec a payload ≡ ok encoded
      → Sent payload encoded × (length encoded ≤ 1048576)
  unfolding compress_with
  compress_with-Sent a payload encoded fits h =
      elim (Bool-cases (not (is_envelope payload) && (ltb (length payload) 1024 || is_off a))) [
        | inl plain ↦
            let same = sym (ok_inj (rw (plain, compress_with) at h)) in
            (untouched (ground arith) same, omega (arith, ap length same))
        | inr tried ↦
            elim (choose-cases (is_envelope payload) payload
              (envelope gzip_codec zstd_codec a payload) encoded (rw (tried, compress_with) at h)) [
                | inl (e, small) ↦ (wrapped a e, omega (arith, ap length e))
                | inr (no_envelope, e) ↦ (untouched no_envelope e, omega (arith, ap length e))
              ]
      ]

  -- Whatever `compressPayload` returns fits in the broker's limit of 1 MiB and is read back by
  -- `decompressPayload` as the payload, whichever algorithm was asked for and also where the payload
  -- itself reads as an envelope, if the reader's limit is not below the payload's size.
  pub decompress-compress :
      (payload algorithm encoded : Str) (maximum : ℕ)
      → compress_payload gzip_codec zstd_codec payload algorithm ≡ ok encoded
      → length payload ≤ maximum
      → (decompress_payload gzip_codec zstd_codec encoded maximum ≡ ok payload)
        × (length encoded ≤ 1048576)
  unfolding compress_payload
  decompress-compress payload algorithm encoded maximum h small =
      let (fits, h₁) = passed (ltb 1048576 (length payload)) payload_too_large _ h in
      let (a, parsed, h₂) =
        bind_ok (parse_algorithm algorithm) (λ a. compress_with gzip_codec zstd_codec a payload)
          h₁ in
      let (sent, bounded) = compress_with-Sent a payload encoded (ground arith) h₂ in
      (read_back (ground arith) sent, bounded)
    where
      read_back :
          length payload ≤ 1048576
          → Sent payload encoded
          → decompress_payload gzip_codec zstd_codec encoded maximum ≡ ok payload
      read_back fits (wrapped a e) = rw e (decompress-envelope a payload maximum fits small)
      read_back fits (untouched plain e) = rw e (decompress-plain payload maximum plain)
