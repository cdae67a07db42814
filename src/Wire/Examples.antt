-- ===== src/Wire/Examples.antt =====
-- The peer codec on one batch.
use spruce.Prelude.{
  length-append, [], ◌∷◌, ◌++◌, ◌≡◌, refl, Str, ok, ◌>>=◌, length, ◌≤◌, ◌<◌, arith, All, str_dec,
  ℕ_discrete,
}
use spruce.Prelude.Int.{pos, of_u64, to_u64}
use spruce.Prelude.Maps.{Map, find, put}
use spruce.Wire.Bytes.{big_endian, from_big_endian, read_full}
use spruce.Wire.Layout.{Fits}
use spruce.Wire.Peer.{
  PeerMessage, append_peer_string, append_headers, append_peer_message, append_peer_messages,
  append_peer_batch, write_peer_batch, read_bytes, read_number, read_peer_string, read_headers,
  read_peer_message, read_peer_messages, read_peer_batch, max_batch_messages,
}
use spruce.Wire.Accepts.{Accepted, read_peer_batch-Accepted}
use spruce.Wire.RoundTrip.{all_in_order, read-append_peer_batch, write_peer_batch-append}

program : Unit {0}
unfolding append_peer_string append_headers append_peer_message append_peer_messages
    append_peer_batch read_bytes read_number read_peer_string read_headers read_peer_message
    read_peer_messages read_peer_batch big_endian from_big_endian read_full put find str_dec
    ℕ_discrete of_u64 to_u64
program = tt

abbrev order : PeerMessage
order = record {
  id = 105 ∷ 49 ∷ [];
  topic = 111 ∷ [];
  key = [];
  headers = (99 ∷ [], 116 ∷ []) ∷ [];
  payload = 1 ∷ 2 ∷ 3 ∷ [];
  created_at = pos 1000;
  expires_at = pos 61000;
  origin = 98 ∷ 46 ∷ 49 ∷ [];
  sequence = 7;
}

abbrev order_bytes : Str
order_bytes =
    0 ∷ 0 ∷ 0 ∷ 1 ∷ 0 ∷ 2 ∷ 105 ∷ 49 ∷ 0 ∷ 1 ∷ 111 ∷ 0 ∷ 0 ∷ 0 ∷ 3 ∷ 98 ∷ 46 ∷ 49 ∷ 0 ∷ 1 ∷ 0 ∷ 0
    ∷ 0 ∷ 3 ∷ 0 ∷ 0 ∷ 0 ∷ 0 ∷ 0 ∷ 0 ∷ 3 ∷ 232 ∷ 0 ∷ 0 ∷ 0 ∷ 0 ∷ 0 ∷ 0 ∷ 238 ∷ 72 ∷ 0 ∷ 0 ∷ 0 ∷ 0 ∷ 0
    ∷ 0 ∷ 0 ∷ 7 ∷ 0 ∷ 1 ∷ 99 ∷ 0 ∷ 1 ∷ 116 ∷ 1 ∷ 2 ∷ 3 ∷ []

order_encodes : append_peer_batch [] (order ∷ []) ≡ ok order_bytes
unfolding program
order_encodes = refl

order_decodes : read_peer_batch 100 order_bytes ≡ ok (order ∷ [], [])
unfolding program
order_decodes = refl

order-Fits : Fits 100 order
unfolding find
order-Fits = record {
  id_fits = omega arith;
  topic_fits = omega arith;
  key_fits = omega arith;
  origin_fits = omega arith;
  few_headers = omega arith;
  headers_fit = omega arith;
  headers_distinct = (refl, tt);
  payload_fits = omega arith;
  payload_u32 = omega arith;
  created_i64 = omega arith;
  expires_i64 = omega arith;
  sequence_u64 = omega arith;
}

read-append_peer_batch_example :
    (append_peer_batch [] (order ∷ []) >>= λ bytes. read_peer_batch 100 (bytes ++ (9 ∷ [])))
    ≡ ok (order ∷ [], 9 ∷ [])
read-append_peer_batch_example =
    read-append_peer_batch 100 (order ∷ []) (9 ∷ []) (order-Fits, tt) (omega arith) (omega arith)

read_peer_batch-Accepted_example :
    All (Accepted 100) (order ∷ [])
    × (0 < length (order ∷ []))
    × (length (order ∷ []) ≤ max_batch_messages)
read_peer_batch-Accepted_example =
    read_peer_batch-Accepted 100 order_bytes [] (order ∷ []) order_decodes

-- The first header is met last.
abbrev last_first : Map Str Str → Map Str Str
last_first [] = []
last_first (h ∷ hs) = hs ++ (h ∷ [])

length-last_first : (hs : Map Str Str) → length (last_first hs) ≡ length hs
length-last_first [] = refl
length-last_first (h ∷ hs) = omega (arith, length-append hs (h ∷ []))

abbrev two_headers : PeerMessage
two_headers = record order { headers = (99 ∷ [], 116 ∷ []) ∷ (100 ∷ [], 117 ∷ []) ∷ [] }

write_peer_batch-append_example :
    write_peer_batch (λ i. last_first) (9 ∷ []) (two_headers ∷ order ∷ [])
    ≡ append_peer_batch (9 ∷ []) (all_in_order (λ i. last_first) 0 (two_headers ∷ order ∷ []))
write_peer_batch-append_example =
    write_peer_batch-append (λ i. last_first) (λ i. length-last_first) (9 ∷ [])
      (two_headers ∷ order ∷ [])
