-- ===== src/Wire/Layout.antt =====
-- The bytes of a peer batch as a specification: `encode_… x tail` puts the encoding of `x` in front
-- of `tail`. The encoders of Wire/Peer produce it.
use spruce.Prelude.{
  ℕ, ◌+◌, ◌≤◌, ◌<◌, ◌^◌, ◌≡◌, refl, List, [], ◌∷◌, ◌++◌, Str, ok, length, ltb, ◌||◌, ◌-◌, ◌==◌,
  false, append_assoc, append-nil, arith, sum_by, str_dec, All,
}
use spruce.Prelude.Int.{IsI64}
use spruce.Prelude.Maps.{Map, Distinct}
use spruce.Wire.Bytes.{big_endian}
use spruce.Wire.Peer.{
  PeerMessage, max_headers, max_batch_messages, append_peer_string, append_headers,
  append_peer_message, append_peer_messages, append_peer_batch, fixed_fields,
}

unfoldable pub encode_string : Str → Str → Str
encode_string s tail = big_endian 2 (length s) ++ (s ++ tail)

unfoldable pub encode_headers : Map Str Str → Str → Str
encode_headers [] tail = tail
encode_headers ((k, v) ∷ hs) tail = encode_string k (encode_string v (encode_headers hs tail))

unfoldable pub encode_message : PeerMessage → Str → Str
encode_message m tail = encode_string m.id (
    encode_string m.topic (
      encode_string m.key
        (encode_string m.origin (fixed_fields m ++ encode_headers m.headers (m.payload ++ tail)))))

unfoldable pub encode_messages : List PeerMessage → Str → Str
encode_messages [] tail = tail
encode_messages (m ∷ ms) tail = encode_message m (encode_messages ms tail)

-- What the decoder accepts.
abbrev pub header_size : Str × Str → ℕ
header_size e = length e.0 + length e.1

pub record Fits (max_message : ℕ) (m : PeerMessage) : Type 0 where
  pub id_fits : length m.id ≤ 64
  pub topic_fits : length m.topic ≤ 255
  pub key_fits : length m.key ≤ max_headers
  pub origin_fits : length m.origin ≤ 64
  pub few_headers : length m.headers ≤ 256
  pub headers_fit : sum_by header_size m.headers ≤ max_headers
  pub headers_distinct : Distinct str_dec m.headers
  pub payload_fits : length m.payload ≤ max_message
  pub payload_u32 : length m.payload < 2 ^ 32
  pub created_i64 : IsI64 m.created_at
  pub expires_i64 : IsI64 m.expires_at
  pub sequence_u64 : m.sequence < 2 ^ 64

encode_string-append : (s a b : Str) → encode_string s a ++ b ≡ encode_string s (a ++ b)
unfolding encode_string
encode_string-append s a b = simp append_assoc

encode_headers-append :
    (hs : Map Str Str) (a b : Str) → encode_headers hs a ++ b ≡ encode_headers hs (a ++ b)
unfolding encode_headers
encode_headers-append [] a b = refl
encode_headers-append ((k, v) ∷ hs) a b = simp (encode_string-append, encode_headers-append hs a b)

encode_message-append :
    (m : PeerMessage) (a b : Str) → encode_message m a ++ b ≡ encode_message m (a ++ b)
unfolding encode_message
encode_message-append m a b = simp (encode_string-append, append_assoc, encode_headers-append)

pub encode_messages-append :
    (ms : List PeerMessage) (b : Str) → encode_messages ms [] ++ b ≡ encode_messages ms b
unfolding encode_messages
encode_messages-append [] b = refl
encode_messages-append (m ∷ ms) b = simp (encode_message-append, encode_messages-append ms b)

append_peer_string-encode :
    (out s : Str) → length s ≤ 65535 → append_peer_string out s ≡ ok (out ++ encode_string s [])
unfolding append_peer_string encode_string
append_peer_string-encode out s h =
    ground (arith, append_assoc out (big_endian 2 (length s)) s, append-nil s)

ruleset layout = (append_assoc, append-nil, encode_string-append, encode_headers-append)

append_headers-encode :
    (out : Str) (hs : Map Str Str)
    → sum_by header_size hs ≤ 65535
    → append_headers out hs ≡ ok (out ++ encode_headers hs [])
unfolding append_headers encode_headers
append_headers-encode out [] h = rw append-nil
append_headers-encode out ((k, v) ∷ hs) h =
    rw
      (
        append_peer_string-encode out k (omega arith),
        append_peer_string-encode (out ++ encode_string k []) v (omega arith),
        append_headers-encode ((out ++ encode_string k []) ++ encode_string v []) hs (omega arith),
      )
      (simp layout)

-- A message whose sizes fit the length fields of the format.
pub record FitsFields (m : PeerMessage) : Type 0 where
  pub id_field : length m.id ≤ 65535
  pub topic_field : length m.topic ≤ 65535
  pub key_field : length m.key ≤ 65535
  pub origin_field : length m.origin ≤ 65535
  pub headers_field : length m.headers ≤ 65535
  pub strings_field : sum_by header_size m.headers ≤ 65535
  pub payload_field : length m.payload < 2 ^ 32

pub Fits-FitsFields : {mm : ℕ} {m : PeerMessage} → Fits mm m → FitsFields m
Fits-FitsFields f = record {
  id_field = omega arith;
  topic_field = omega arith;
  key_field = omega arith;
  origin_field = omega arith;
  headers_field = omega arith;
  strings_field = omega arith;
  payload_field = f.payload_u32;
}

fields_fit :
    (m : PeerMessage)
    → FitsFields m
    → (ltb 65535 (length m.headers) || ltb (2 ^ 32 - 1) (length m.payload)) ≡ false
fields_fit m f = ground (arith, f.headers_field, f.payload_field)

append_peer_message-encode :
    (out : Str) (m : PeerMessage)
    → FitsFields m
    → append_peer_message out m ≡ ok (out ++ encode_message m [])
unfolding append_peer_message encode_message fixed_fields
append_peer_message-encode out m f =
    rw
      (
        append_peer_string-encode out m.id f.id_field,
        append_peer_string-encode _ m.topic f.topic_field,
        append_peer_string-encode _ m.key f.key_field,
        append_peer_string-encode _ m.origin f.origin_field,
        fields_fit m f,
        append_headers-encode _ m.headers f.strings_field,
      )
      (simp layout)

append_peer_messages-encode :
    (out : Str) (ms : List PeerMessage)
    → All FitsFields ms
    → append_peer_messages out ms ≡ ok (out ++ encode_messages ms [])
unfolding append_peer_messages encode_messages
append_peer_messages-encode out [] h = rw append-nil
append_peer_messages-encode out (m ∷ ms) h =
    rw
      (
        append_peer_message-encode out m h.0,
        append_peer_messages-encode (out ++ encode_message m []) ms h.1,
      )
      (simp (layout, encode_message-append))

pub batch_size_ok :
    (n : ℕ) → 0 < n → n ≤ max_batch_messages → (n == 0 || ltb max_batch_messages n) ≡ false
batch_size_ok n lo hi = ground arith

pub append_peer_batch-encode :
    (out : Str) (ms : List PeerMessage)
    → All FitsFields ms
    → 0 < length ms
    → length ms ≤ max_batch_messages
    → append_peer_batch out ms ≡ ok (out ++ (big_endian 4 (length ms) ++ encode_messages ms []))
unfolding append_peer_batch
append_peer_batch-encode out ms h lo hi = rw (
  batch_size_ok (length ms) lo hi,
  append_peer_messages-encode (out ++ big_endian 4 (length ms)) ms h,
  append_assoc out (big_endian 4 (length ms)) (encode_messages ms []),
)
