-- ===== src/Wire/Peer.antt =====
-- The peer batch of protocol version 2: internal/broker/broker.go, from `writePeerString` to
-- `readPeerBatch`. A writer and an input are the bytes written so far and those still to be read. A
-- writer in memory takes every byte, so the errors here are the codec's own.
use spruce.Prelude.{
  ℕ, zero, suc, ◌+◌, ◌^◌, ◌-◌, List, [], ◌∷◌, ◌++◌, Str, Result, ok, err, ◌>>=◌, ◌>>◌, fail_if,
  ◌||◌, ◌==◌, ltb, length, str_dec, take, drop,
}
use spruce.Prelude.Int.{ℤ, to_u64, of_u64}
use spruce.Prelude.Maps.{Map, put}
use spruce.Wire.Bytes.{ReadError, big_endian, from_big_endian, read_full}

-- The fields of `Message` that a peer receives. The list of headers is in the order in which
-- `range` meets them when the batch is appended; another call may meet them in another order.
pub record PeerMessage : Type 0 where
  pub id : Str
  pub topic : Str
  pub key : Str
  pub headers : Map Str Str
  pub payload : Str
  pub created_at : ℤ
  pub expires_at : ℤ
  pub origin : Str
  pub sequence : ℕ

pub data WireError : Type 0 where
  reading : ReadError → WireError
  string_too_large string_exceeds_limit invalid_batch_size : WireError
  message_too_large message_exceeds_limit headers_exceed_limit : WireError

abbrev pub max_headers : ℕ
max_headers = 8192

abbrev pub max_batch_messages : ℕ
max_batch_messages = 4096

-- The encoder over a growing buffer.
unfoldable pub append_peer_string : Str → Str → Result WireError Str
append_peer_string out value = do
  fail_if (ltb 65535 (length value)) string_too_large
  ok ((out ++ big_endian 2 (length value)) ++ value)

unfoldable pub append_headers : Str → Map Str Str → Result WireError Str
append_headers out [] = ok out
append_headers out ((key, value) ∷ headers) = do
  out' ← append_peer_string out key
  out'' ← append_peer_string out' value
  append_headers out'' headers

unfoldable pub append_peer_message : Str → PeerMessage → Result WireError Str
append_peer_message out m = do
  out₁ ← append_peer_string out m.id
  out₂ ← append_peer_string out₁ m.topic
  out₃ ← append_peer_string out₂ m.key
  out₄ ← append_peer_string out₃ m.origin
  fail_if (ltb 65535 (length m.headers) || ltb (2 ^ 32 - 1) (length m.payload)) message_too_large
  let out₅ = out₄ ++ big_endian 2 (length m.headers)
  let out₆ = out₅ ++ big_endian 4 (length m.payload)
  let out₇ = out₆ ++ big_endian 8 (to_u64 m.created_at)
  let out₈ = out₇ ++ big_endian 8 (to_u64 m.expires_at)
  let out₉ = out₈ ++ big_endian 8 m.sequence
  out' ← append_headers out₉ m.headers
  ok (out' ++ m.payload)

unfoldable pub append_peer_messages : Str → List PeerMessage → Result WireError Str
append_peer_messages out [] = ok out
append_peer_messages out (m ∷ ms) = do
  out' ← append_peer_message out m
  append_peer_messages out' ms

unfoldable pub append_peer_batch : Str → List PeerMessage → Result WireError Str
append_peer_batch out messages = do
  fail_if (length messages == 0 || ltb max_batch_messages (length messages)) invalid_batch_size
  append_peer_messages (out ++ big_endian 4 (length messages)) messages

-- The encoder over any other writer, which fills one buffer of 30 bytes with the fixed fields.
unfoldable pub write_peer_string : Str → Str → Result WireError Str
write_peer_string w value = do
  fail_if (ltb 65535 (length value)) string_too_large
  let w' = w ++ big_endian 2 (length value)
  ok (w' ++ value)

unfoldable pub write_headers : Str → Map Str Str → Result WireError Str
write_headers w [] = ok w
write_headers w ((key, value) ∷ headers) = do
  w' ← write_peer_string w key
  w'' ← write_peer_string w' value
  write_headers w'' headers

unfoldable pub fixed_fields : PeerMessage → Str
fixed_fields m =
    big_endian 2 (length m.headers)
    ++ (big_endian 4 (length m.payload)
        ++ (big_endian 8 (to_u64 m.created_at)
            ++ (big_endian 8 (to_u64 m.expires_at) ++ big_endian 8 m.sequence)))

-- `range` is the order in which this call meets the headers of the message.
unfoldable pub write_peer_message :
    (Map Str Str → Map Str Str) → Str → PeerMessage → Result WireError Str
write_peer_message range w m = do
  w₁ ← write_peer_string w m.id
  w₂ ← write_peer_string w₁ m.topic
  w₃ ← write_peer_string w₂ m.key
  w₄ ← write_peer_string w₃ m.origin
  fail_if (ltb 65535 (length m.headers) || ltb (2 ^ 32 - 1) (length m.payload)) message_too_large
  w' ← write_headers (w₄ ++ fixed_fields m) (range m.headers)
  ok (w' ++ m.payload)

-- The index counts the messages, since each loop over headers has an order of its own.
unfoldable pub write_peer_messages :
    (ℕ → Map Str Str → Map Str Str) → ℕ → Str → List PeerMessage → Result WireError Str
write_peer_messages range i w [] = ok w
write_peer_messages range i w (m ∷ ms) = do
  w' ← write_peer_message (range i) w m
  write_peer_messages range (suc i) w' ms

unfoldable pub write_peer_batch :
    (ℕ → Map Str Str → Map Str Str) → Str → List PeerMessage → Result WireError Str
write_peer_batch range w messages = do
  fail_if (length messages == 0 || ltb max_batch_messages (length messages)) invalid_batch_size
  write_peer_messages range 0 (w ++ big_endian 4 (length messages)) messages

-- The decoder. Each reader returns its value and the rest of the input.
unfoldable pub read_bytes : ℕ → Str → Result WireError (Str × Str)
read_bytes n r = elim (read_full n r) [ ok x ↦ ok x | err e ↦ err (reading e) ]

unfoldable pub read_number : ℕ → Str → Result WireError (ℕ × Str)
read_number w r = do (bytes, r') ← read_bytes w r; ok (from_big_endian 0 bytes, r')

unfoldable pub read_peer_string : Str → ℕ → Result WireError (Str × Str)
read_peer_string r maximum = do
  (n, r') ← read_number 2 r
  fail_if (ltb maximum n) string_exceeds_limit
  read_bytes n r'

unfoldable pub read_headers : ℕ → ℕ → Map Str Str → Str → Result WireError (Map Str Str × Str)
read_headers zero header_bytes headers r = ok (headers, r)
read_headers (suc n) header_bytes headers r = do
  (k, r₁) ← read_peer_string r max_headers
  (v, r₂) ← read_peer_string r₁ max_headers
  let total = header_bytes + (length k + length v)
  fail_if (ltb max_headers total) headers_exceed_limit
  read_headers n total (put str_dec k v headers) r₂

-- `fixed[i:j]`
abbrev pub slice : ℕ → ℕ → Str → Str
slice i j xs = take (j - i) (drop i xs)

unfoldable pub read_peer_message : ℕ → Str → Result WireError (PeerMessage × Str)
read_peer_message max_message r = do
  (id, r₁) ← read_peer_string r 64
  (topic, r₂) ← read_peer_string r₁ 255
  (key, r₃) ← read_peer_string r₂ max_headers
  (origin, r₄) ← read_peer_string r₃ 64
  (fixed, r₅) ← read_bytes 30 r₄
  let header_count = from_big_endian 0 (slice 0 2 fixed)
  let payload_size = from_big_endian 0 (slice 2 6 fixed)
  fail_if (ltb 256 header_count || ltb max_message payload_size) message_exceeds_limit
  (headers, r₆) ← read_headers header_count 0 [] r₅
  (payload, r₇) ← read_bytes payload_size r₆
  ok (
    record {
      id = id;
      topic = topic;
      key = key;
      headers = headers;
      payload = payload;
      created_at = of_u64 (from_big_endian 0 (slice 6 14 fixed));
      expires_at = of_u64 (from_big_endian 0 (slice 14 22 fixed));
      origin = origin;
      sequence = from_big_endian 0 (slice 22 30 fixed);
    },
    r₇,
  )

unfoldable pub read_peer_messages : ℕ → ℕ → Str → Result WireError (List PeerMessage × Str)
read_peer_messages zero max_message r = ok ([], r)
read_peer_messages (suc n) max_message r = do
  (m, r₁) ← read_peer_message max_message r
  (ms, r₂) ← read_peer_messages n max_message r₁
  ok (m ∷ ms, r₂)

unfoldable pub read_peer_batch : ℕ → Str → Result WireError (List PeerMessage × Str)
read_peer_batch max_message r = do
  (count, r₁) ← read_number 4 r
  fail_if (count == 0 || ltb max_batch_messages count) invalid_batch_size
  read_peer_messages count max_message r₁
