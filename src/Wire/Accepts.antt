-- ===== src/Wire/Accepts.antt =====
-- What the decoder lets through.
use spruce.Prelude.{
  ℕ, zero, suc, ◌+◌, ◌≤◌, ◌<◌, ◌≡◌, refl, sym, ap, subst, false, ◌||◌, List, [], ◌∷◌, arith, ltb,
  ◌==◌, length, All, sum_by, Str, str_dec, ok, bind_ok, passed, ok_fst,
}
use native.Mathlib.Nat.{le_trans}
use spruce.Prelude.Maps.{Map, Distinct, put, put-Distinct, length-put-le, sum_by-put-le}
use spruce.Wire.Bytes.{from_big_endian, length-read_full}
use spruce.Wire.Layout.{header_size}
use spruce.Wire.Peer.{
  PeerMessage, slice, max_batch_messages, read_peer_messages, read_peer_batch, max_headers,
  read_bytes, read_number, read_peer_string, read_headers, read_peer_message,
}

length-read_bytes : (n : ℕ) (r xs rest : Str) → read_bytes n r ≡ ok (xs, rest) → length xs ≡ n
unfolding read_bytes
length-read_bytes n r xs rest h = ground (arith, length-read_full n r xs rest)

length-read_peer_string :
    (r s rest : Str) (maximum : ℕ) → read_peer_string r maximum ≡ ok (s, rest) → length s ≤ maximum
unfolding read_peer_string
length-read_peer_string r s rest maximum h =
    let ((n, r'), _, h') = bind_ok (read_number 2 r) _ h in
    let (fits, read) = passed _ _ (read_bytes n r') h' in
    ground (arith, fits, length-read_bytes n r' s rest read)

pub record Accepted (max_message : ℕ) (m : PeerMessage) : Type 0 where
  pub id_bound : length m.id ≤ 64
  pub topic_bound : length m.topic ≤ 255
  pub key_bound : length m.key ≤ max_headers
  pub origin_bound : length m.origin ≤ 64
  pub headers_count : length m.headers ≤ 256
  pub headers_bound : sum_by header_size m.headers ≤ max_headers
  pub headers_distinct : Distinct str_dec m.headers
  pub payload_bound : length m.payload ≤ max_message

-- The headers read so far, `done` of them in `bytes` bytes.
record HeadersRead (done bytes : ℕ) (headers : Map Str Str) : Type 0 where
  count_bound : length headers ≤ done
  bytes_bound : sum_by header_size headers ≤ bytes
  bytes_fit : bytes ≤ max_headers
  distinct : Distinct str_dec headers

read_headers-HeadersRead :
    (n done bytes : ℕ) (headers hs : Map Str Str) (r rest : Str)
    → HeadersRead done bytes headers
    → read_headers n bytes headers r ≡ ok (hs, rest)
    → (total : ℕ) × HeadersRead (done + n) total hs
unfolding read_headers
read_headers-HeadersRead zero done bytes headers hs r rest v h = (bytes, ground arith)
read_headers-HeadersRead (suc n) done bytes headers hs r rest v h =
    let ((k, r₁), _, h₁) = bind_ok (read_peer_string r max_headers) _ h in
    let ((w, r₂), _, h₂) = bind_ok (read_peer_string r₁ max_headers) _ h₁ in
    let total = bytes + (length k + length w) in
    let (fits, h₃) = passed (ltb max_headers total) _ _ h₂ in
    let now : HeadersRead (done + 1) total (put str_dec k w headers) = record {
      count_bound = omega (arith, length-put-le str_dec k w headers, v.count_bound);
      bytes_bound = omega (arith, sum_by-put-le str_dec header_size k w headers, v.bytes_bound);
      bytes_fit = ground (arith, fits);
      distinct = put-Distinct str_dec k w headers v.distinct;
    } in
    let (t, x) =
      read_headers-HeadersRead n (done + 1) total (put str_dec k w headers) hs r₂ rest now h₃ in
    (
      t,
      record {
        count_bound = omega (arith, x.count_bound);
        bytes_bound = x.bytes_bound;
        bytes_fit = x.bytes_fit;
        distinct = x.distinct;
      },
    )

within_limits :
    (n size max_message : ℕ)
    → (ltb 256 n || ltb max_message size) ≡ false
    → (0 + n ≤ 256) × (size ≤ max_message)
within_limits n size max_message h = ground arith

read_peer_message-Accepted :
    (max_message : ℕ) (r rest : Str) (m : PeerMessage)
    → read_peer_message max_message r ≡ ok (m, rest)
    → Accepted max_message m
unfolding read_peer_message
read_peer_message-Accepted max_message r rest m h =
    let ((id, r₁), a₁, h₁) = bind_ok (read_peer_string r 64) _ h in
    let ((topic, r₂), a₂, h₂) = bind_ok (read_peer_string r₁ 255) _ h₁ in
    let ((key, r₃), a₃, h₃) = bind_ok (read_peer_string r₂ max_headers) _ h₂ in
    let ((origin, r₄), a₄, h₄) = bind_ok (read_peer_string r₃ 64) _ h₃ in
    let ((fixed, r₅), a₅, h₅) = bind_ok (read_bytes 30 r₄) _ h₄ in
    let n = from_big_endian 0 (slice 0 2 fixed) in
    let size = from_big_endian 0 (slice 2 6 fixed) in
    let (within, h₆) = passed (ltb 256 n || ltb max_message size) _ _ h₅ in
    let ((headers, r₆), a₆, h₇) = bind_ok (read_headers n 0 [] r₅) _ h₆ in
    let ((payload, r₇), a₇, h₈) = bind_ok (read_bytes size r₆) _ h₇ in
    let (total, x) = read_headers-HeadersRead n 0 0 [] headers r₅ r₆ none_read a₆ in
    let (few, small) = within_limits n size max_message within in
    subst (Accepted max_message) (ok_fst h₈) (record {
      id_bound = length-read_peer_string r id r₁ 64 a₁;
      topic_bound = length-read_peer_string r₁ topic r₂ 255 a₂;
      key_bound = length-read_peer_string r₂ key r₃ max_headers a₃;
      origin_bound = length-read_peer_string r₃ origin r₄ 64 a₄;
      headers_count = le_trans x.count_bound few;
      headers_bound = le_trans x.bytes_bound x.bytes_fit;
      headers_distinct = x.distinct;
      payload_bound =
          subst (λ k. k ≤ max_message) (sym (length-read_bytes size r₆ payload r₇ a₇)) small;
    })
  where
    none_read : HeadersRead 0 0 []
    none_read = omega arith

read_peer_messages-Accepted :
    (n max_message : ℕ) (r rest : Str) (ms : List PeerMessage)
    → read_peer_messages n max_message r ≡ ok (ms, rest)
    → All (Accepted max_message) ms × (length ms ≡ n)
unfolding read_peer_messages
read_peer_messages-Accepted zero max_message r rest [] h = (tt, refl)
read_peer_messages-Accepted zero max_message r rest (m ∷ ms) h = absurd (ground arith)
read_peer_messages-Accepted (suc n) max_message r rest ms h =
    let ((m, r₁), a₁, h₁) = bind_ok (read_peer_message max_message r) _ h in
    let ((ms', r₂), a₂, h₂) = bind_ok (read_peer_messages n max_message r₁) _ h₁ in
    let (all, size) = read_peer_messages-Accepted n max_message r₁ r₂ ms' a₂ in
    subst (λ xs. All (Accepted max_message) xs × (length xs ≡ suc n)) (ok_fst h₂)
      ((read_peer_message-Accepted max_message r r₁ m a₁, all), ap suc size)

-- Whatever bytes arrive, a batch that decodes has between 1 and 4096 messages, and each keeps the
-- limits on its strings, its headers (at most 256, no key twice, 8 KiB together) and its payload.
pub read_peer_batch-Accepted :
    (max_message : ℕ) (r rest : Str) (ms : List PeerMessage)
    → read_peer_batch max_message r ≡ ok (ms, rest)
    → All (Accepted max_message) ms × (0 < length ms) × (length ms ≤ max_batch_messages)
unfolding read_peer_batch
read_peer_batch-Accepted max_message r rest ms h =
    let ((n, r₁), _, h₁) = bind_ok (read_number 4 r) _ h in
    let (within, h₂) = passed (n == 0 || ltb max_batch_messages n) _ _ h₁ in
    let (all, size) = read_peer_messages-Accepted n max_message r₁ rest ms h₂ in
    (all, ground (arith, within, size), ground (arith, within, size))
