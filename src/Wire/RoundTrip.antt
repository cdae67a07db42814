-- ===== src/Wire/RoundTrip.antt =====
-- Reading a peer batch back, and the two writers against each other.
use spruce.Prelude.{
  suc, All-map, ℕ, ◌+◌, ◌≤◌, ◌<◌, ◌^◌, ◌≡◌, refl, ap, ◌∙◌, List, [], ◌∷◌, ◌++◌, Str, ok, ◌>>=◌,
  length, append_assoc, append-nil, arith, sum_by, str_dec, All, take-append, drop-append, ltb,
  false, ◌||◌, take, drop, length-append,
}
use spruce.Prelude.Int.{ℤ, to_u64, IsI64, of_u64, of_u64-to_u64, to_u64_bound}
use spruce.Prelude.Maps.{Map, Distinct, put_new, Distinct-append_find}
use spruce.Wire.Bytes.{
  big_endian, from_big_endian, from_big_endian-big_endian, length-big_endian, read_full-append,
}
use spruce.Wire.Layout.{
  encode_string, encode_headers, encode_message, encode_messages, encode_messages-append,
  header_size, Fits, Fits-FitsFields, batch_size_ok, append_peer_batch-encode,
}
use spruce.Wire.Peer.{
  PeerMessage, max_headers, max_batch_messages, append_peer_string, append_headers,
  append_peer_message, append_peer_messages, append_peer_batch, write_peer_string, write_headers,
  write_peer_message, write_peer_messages, write_peer_batch, fixed_fields, read_bytes, read_number,
  read_peer_string, read_headers, read_peer_message, read_peer_messages, read_peer_batch, slice,
}

-- Writers.

write_peer_string-append : (w s : Str) → write_peer_string w s ≡ append_peer_string w s
unfolding write_peer_string append_peer_string
write_peer_string-append w s = refl

write_headers-append : (w : Str) (hs : Map Str Str) → write_headers w hs ≡ append_headers w hs
unfolding write_headers append_headers
write_headers-append w [] = refl
write_headers-append w ((k, v) ∷ hs) =
    simp (write_peer_string-append, λ (x : Str). write_headers-append x hs)

-- The message with its headers in another order.
abbrev pub in_order : (Map Str Str → Map Str Str) → PeerMessage → PeerMessage
in_order range m = record m { headers = range m.headers }

write_peer_message-append :
    (range : Map Str Str → Map Str Str) (w : Str) (m : PeerMessage)
    → length (range m.headers) ≡ length m.headers
    → write_peer_message range w m ≡ append_peer_message w (in_order range m)
unfolding write_peer_message append_peer_message fixed_fields
write_peer_message-append range w m same =
    simp (same, write_peer_string-append, write_headers-append, append_assoc)

-- Readers.

read_bytes-append :
    (n : ℕ) (xs rest : Str) → length xs ≡ n → read_bytes n (xs ++ rest) ≡ ok (xs, rest)
unfolding read_bytes
read_bytes-append n xs rest h = rw (read_full-append n xs rest h, read_bytes)

read_number-append :
    (w x : ℕ) (rest : Str) → x < 256 ^ w → read_number w (big_endian w x ++ rest) ≡ ok (x, rest)
unfolding read_number
read_number-append w x rest h =
    rw (read_bytes-append w (big_endian w x) rest (length-big_endian w x))
      (ap (λ n. ok (n, rest)) (from_big_endian-big_endian w x h))

read_peer_string-encode :
    (maximum : ℕ) (s rest : Str)
    → length s ≤ maximum
    → maximum ≤ 65535
    → read_peer_string (encode_string s rest) maximum ≡ ok (s, rest)
unfolding read_peer_string encode_string
read_peer_string-encode maximum s rest h small =
    rw (read_number-append 2 (length s) (s ++ rest) (omega arith))
      (ground (arith, read_bytes-append (length s) s rest refl))

read_headers-encode :
    (header_bytes : ℕ) (headers hs : Map Str Str) (rest : Str)
    → header_bytes + sum_by header_size hs ≤ max_headers
    → Distinct str_dec (headers ++ hs)
    → read_headers (length hs) header_bytes headers (encode_headers hs rest)
      ≡ ok (headers ++ hs, rest)
unfolding read_headers encode_headers
read_headers-encode header_bytes headers [] rest h d = rw append-nil
read_headers-encode header_bytes headers ((k, v) ∷ hs) rest h d =
    rw
      (
        read_peer_string-encode max_headers k (encode_string v (encode_headers hs rest))
            (omega arith) (omega arith),
        read_peer_string-encode max_headers v (encode_headers hs rest) (omega arith) (omega arith),
        put_new str_dec k v headers (Distinct-append_find str_dec k v headers hs d),
      )
      (ground (
        arith,
        append_assoc headers ((k, v) ∷ []) hs,
        read_headers-encode (header_bytes + (length k + length v)) (headers ++ ((k, v) ∷ [])) hs
            rest (omega arith) (rw (append_assoc headers ((k, v) ∷ []) hs) d),
      ))

-- The fields of the fixed part.
fixed_slices :
    (a b c d e : Str)
    → length a ≡ 2
    → length b ≡ 4
    → length c ≡ 8
    → length d ≡ 8
    → length e ≡ 8
    → let fixed = a ++ (b ++ (c ++ (d ++ e))) in
      (slice 0 2 fixed ≡ a)
      × (slice 2 6 fixed ≡ b)
      × (slice 6 14 fixed ≡ c)
      × (slice 14 22 fixed ≡ d)
      × (slice 22 30 fixed ≡ e)
      × (length fixed ≡ 30)
fixed_slices a b c d e ha hb hc hd he = (
  take-append 2 a _ ha,
  ap (take 4) (drop-append 2 0 a (b ++ (c ++ (d ++ e))) (omega arith)) ∙ take-append 4 b _ hb,
  ap (take 8) (to_c 0) ∙ take-append 8 c _ hc,
  ap (take 8) (to_c 8 ∙ drop-append 8 0 c (d ++ e) (omega arith)) ∙ take-append 8 d _ hd,
  ap (take 8)
        (to_c 16 ∙ drop-append 16 8 c (d ++ e) (omega arith) ∙ drop-append 8 0 d e (omega arith))
      ∙ take_of_length 8 e he,
  omega (
    arith,
    length-append a (b ++ (c ++ (d ++ e))),
    length-append b (c ++ (d ++ e)),
    length-append c (d ++ e),
    length-append d e,
  ),
)
  where
    to_c : (k : ℕ) → drop (6 + k) (a ++ (b ++ (c ++ (d ++ e)))) ≡ drop k (c ++ (d ++ e))
    to_c k = drop-append (6 + k) (4 + k) a _ (omega arith) ∙ drop-append (4 + k) k b _ (omega arith)

    take_of_length : (n : ℕ) (xs : Str) → length xs ≡ n → take n xs ≡ xs
    take_of_length n xs h = rw append-nil at (take-append n xs [] h)

-- The fixed part of a message that fits gives back the numbers in it.
record FixedDecodes (m : PeerMessage) : Type 0 where
  count : from_big_endian 0 (slice 0 2 (fixed_fields m)) ≡ length m.headers
  size : from_big_endian 0 (slice 2 6 (fixed_fields m)) ≡ length m.payload
  created : of_u64 (from_big_endian 0 (slice 6 14 (fixed_fields m))) ≡ m.created_at
  expires : of_u64 (from_big_endian 0 (slice 14 22 (fixed_fields m))) ≡ m.expires_at
  seq : from_big_endian 0 (slice 22 30 (fixed_fields m)) ≡ m.sequence
  thirty : length (fixed_fields m) ≡ 30

decode_u64 : (z : ℤ) → IsI64 z → of_u64 (from_big_endian 0 (big_endian 8 (to_u64 z))) ≡ z
decode_u64 z h = rw (from_big_endian-big_endian 8 (to_u64 z) (to_u64_bound z)) (of_u64-to_u64 z h)

fixed_fields-FixedDecodes : {mm : ℕ} (m : PeerMessage) → Fits mm m → FixedDecodes m
unfolding fixed_fields
fixed_fields-FixedDecodes m f =
    let parts =
      fixed_slices _ _ _ _ _ (length-big_endian 2 (length m.headers))
        (length-big_endian 4 (length m.payload)) (length-big_endian 8 (to_u64 m.created_at))
        (length-big_endian 8 (to_u64 m.expires_at)) (length-big_endian 8 m.sequence) in
    record {
      count = rw parts.0 (from_big_endian-big_endian 2 _ (omega arith));
      size = rw parts.1 (from_big_endian-big_endian 4 _ f.payload_u32);
      created = rw parts.2 (decode_u64 m.created_at f.created_i64);
      expires = rw parts.3 (decode_u64 m.expires_at f.expires_i64);
      seq = rw parts.4 (from_big_endian-big_endian 8 _ f.sequence_u64);
      thirty = parts.5;
    }

pub read_peer_message-encode :
    (max_message : ℕ) (m : PeerMessage) (rest : Str)
    → Fits max_message m
    → read_peer_message max_message (encode_message m rest) ≡ ok (m, rest)
unfolding read_peer_message encode_message
read_peer_message-encode max_message m rest f =
    let d = fixed_fields-FixedDecodes m f in
    rw (
      read_peer_string-encode 64 m.id _ f.id_fits (omega arith),
      read_peer_string-encode 255 m.topic _ f.topic_fits (omega arith),
      read_peer_string-encode max_headers m.key _ f.key_fits (omega arith),
      read_peer_string-encode 64 m.origin _ f.origin_fits (omega arith),
      read_bytes-append 30 (fixed_fields m) _ d.thirty,
      d.count,
      d.size,
      d.created,
      d.expires,
      d.seq,
      within max_message m f,
      read_headers-encode 0 [] m.headers (m.payload ++ rest) (omega arith) f.headers_distinct,
      read_bytes-append (length m.payload) m.payload rest refl,
    )
  where
    within :
        (mm : ℕ) (m : PeerMessage)
        → Fits mm m
        → (ltb 256 (length m.headers) || ltb mm (length m.payload)) ≡ false
    within mm m f = ground (arith, f.few_headers, f.payload_fits)

read_peer_messages-encode :
    (max_message : ℕ) (ms : List PeerMessage) (rest : Str)
    → All (Fits max_message) ms
    → read_peer_messages (length ms) max_message (encode_messages ms rest) ≡ ok (ms, rest)
unfolding read_peer_messages encode_messages
read_peer_messages-encode max_message [] rest h = refl
read_peer_messages-encode max_message (m ∷ ms) rest h = rw (
  read_peer_message-encode max_message m (encode_messages ms rest) h.0,
  read_peer_messages-encode max_message ms rest h.1,
)

-- For every batch of 1 to 4096 messages that keep the format's limits, encoding and then decoding
-- gives the batch back, and leaves the bytes that follow it unread.
pub read-append_peer_batch :
    (max_message : ℕ) (ms : List PeerMessage) (rest : Str)
    → All (Fits max_message) ms
    → 0 < length ms
    → length ms ≤ max_batch_messages
    → (append_peer_batch [] ms >>= λ bytes. read_peer_batch max_message (bytes ++ rest))
      ≡ ok (ms, rest)
unfolding read_peer_batch
read-append_peer_batch max_message ms rest h lo hi = rw (
  append_peer_batch-encode [] ms (All-map _ _ (λ m f. Fits-FitsFields f) ms h) lo hi,
  append_assoc (big_endian 4 (length ms)) (encode_messages ms []) rest,
  read_number-append 4 (length ms) (encode_messages ms [] ++ rest) (omega arith),
  batch_size_ok (length ms) lo hi,
  encode_messages-append ms rest,
  read_peer_messages-encode max_message ms rest h,
)

unfoldable pub all_in_order :
    (ℕ → Map Str Str → Map Str Str) → ℕ → List PeerMessage → List PeerMessage
all_in_order range i [] = []
all_in_order range i (m ∷ ms) = in_order (range i) m ∷ all_in_order range (suc i) ms

length-all_in_order :
    (range : ℕ → Map Str Str → Map Str Str) (i : ℕ) (ms : List PeerMessage)
    → length (all_in_order range i ms) ≡ length ms
unfolding all_in_order
length-all_in_order range i [] = refl
length-all_in_order range i (m ∷ ms) = omega (arith, length-all_in_order range (suc i) ms)

write_peer_messages-append :
    (range : ℕ → Map Str Str → Map Str Str)
    → ((i : ℕ) (headers : Map Str Str) → length (range i headers) ≡ length headers)
    → (i : ℕ) (w : Str) (ms : List PeerMessage)
    → write_peer_messages range i w ms ≡ append_peer_messages w (all_in_order range i ms)
unfolding write_peer_messages append_peer_messages all_in_order
write_peer_messages-append range same i w [] = refl
write_peer_messages-append range same i w (m ∷ ms) = simp (
  write_peer_message-append (range i) w m (same i m.headers),
  λ (x : Str). write_peer_messages-append range same (suc i) x ms,
)

-- On every input, valid or not, the two encoders write the same bytes or fail with the same error,
-- where the headers that are appended stand in the order in which the other encoder ranges over them.
-- That order may be any one that has as many headers, and another one for each message.
pub write_peer_batch-append :
    (range : ℕ → Map Str Str → Map Str Str)
    → ((i : ℕ) (headers : Map Str Str) → length (range i headers) ≡ length headers)
    → (w : Str) (ms : List PeerMessage)
    → write_peer_batch range w ms ≡ append_peer_batch w (all_in_order range 0 ms)
unfolding write_peer_batch append_peer_batch
write_peer_batch-append range same w ms =
    simp (length-all_in_order range 0 ms, λ (x : Str). write_peer_messages-append range same 0 x ms)
