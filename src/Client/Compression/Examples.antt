-- ===== src/Client/Compression/Examples.antt =====
-- With a codec that stores its input: a payload that reads as an envelope.
use spruce.Prelude.{
  ◌≤◌, ◌≡◌, refl, some, [], ◌∷◌, ◌++◌, arith, ℕ_discrete, length, take, Str, str_dec, ok, err,
}
use spruce.Wire.Bytes.{big_endian, from_big_endian}
use spruce.Client.Compression.{
  Codec, magic, parse_algorithm, is_envelope, method_byte, codec_of, envelope, choose,
  compress_with, compress_payload, reader_of, read_all, decompress_envelope, decompress_payload,
  unsupported_algorithm, invalid_length,
}
use spruce.Client.Compression.RoundTrip.{decompress-compress}

program : Unit {0}
unfolding str_dec ℕ_discrete big_endian from_big_endian parse_algorithm is_envelope method_byte
    codec_of envelope choose compress_with compress_payload reader_of read_all decompress_envelope
    decompress_payload
program = tt

abbrev stored : Codec
stored = record { encode = λ x. x; read = λ n x. some (take n x); lossless = λ n x h. refl }

abbrev off_name : Str
off_name = 111 ∷ 102 ∷ 102 ∷ []

abbrev literal : Str
literal = magic ++ (2 ∷ 0 ∷ 0 ∷ 0 ∷ 9 ∷ [])

abbrev escaped : Str
escaped = magic ++ (1 ∷ 0 ∷ 0 ∷ 0 ∷ 13 ∷ literal)

escapes_literal : compress_payload stored stored literal off_name ≡ ok escaped
unfolding program
escapes_literal = refl

short_untouched : compress_payload stored stored (1 ∷ 2 ∷ []) [] ≡ ok (1 ∷ 2 ∷ [])
unfolding program
short_untouched = refl

unknown_name : compress_payload stored stored (1 ∷ 2 ∷ []) (120 ∷ []) ≡ err unsupported_algorithm
unfolding program
unknown_name = refl

wrong_size : decompress_payload stored stored literal 100 ≡ err invalid_length
unfolding program
wrong_size = refl

decompress-compress_example :
    (decompress_payload stored stored escaped 100 ≡ ok literal) × (length escaped ≤ 1048576)
decompress-compress_example =
    decompress-compress stored stored literal off_name escaped 100 escapes_literal (omega arith)
