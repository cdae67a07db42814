-- ===== src/Message.antt =====
-- `Message`, `messageSize`, `deliveryAffinity` and `validTopic` of internal/broker/broker.go, for the
-- parts of the broker that keep messages. Times are Unix milliseconds; the cached `accountedSize` is
-- the value that the first call computes, since no field that it reads changes later.
use spruce.Prelude.{
  ℕ, ◌+◌, ◌≤◌, ◌<◌, ◌≡◌, inl, inr, Bool, true, false, ◌&&◌, ◌||◌, [], ◌∷◌, arith, ltb, leb, ◌==◌,
  if◌then◌else◌, Bool-cases, length, All, sum_by, Str,
}
use spruce.Prelude.Maps.{Map}

pub record Message : Type 0 where
  pub id : Str
  pub topic : Str
  pub key : Str
  pub headers : Map Str Str
  pub payload : Str
  pub created_at : ℕ
  pub expires_at : ℕ
  pub origin : Str
  pub sequence : ℕ

-- `messageSize`
unfoldable pub message_size : Message → ℕ
message_size m =
    264
    + length m.id
    + length m.topic
    + length m.key
    + length m.payload
    + sum_by (λ h. length h.0 + length h.1 + 8) m.headers

-- `deliveryAffinity`
unfoldable pub delivery_affinity : Message → Str
delivery_affinity m = elim m.key [ [] ↦ m.id | c ∷ cs ↦ c ∷ cs ]

unfoldable pub topic_byte : ℕ → Bool
topic_byte r =
    r == 46
    || r == 45
    || r == 95
    || (leb 97 r && leb r 122)
    || (leb 65 r && leb r 90)
    || (leb 48 r && leb r 57)

unfoldable pub topic_bytes : Str → Bool
topic_bytes [] = true
topic_bytes (r ∷ rs) = topic_byte r && topic_bytes rs

-- `validTopic`. The source ranges over runes; a byte from 128 on is part of a rune that is refused
-- too, or of no rune.
unfoldable pub valid_topic : Str → Bool
valid_topic s = if length s == 0 || ltb 255 (length s) then false else topic_bytes s

topic_byte-bound : (r : ℕ) → topic_byte r ≡ true → r < 128
unfolding topic_byte
topic_byte-bound r h = ground arith

topic_bytes-All : (rs : Str) → topic_bytes rs ≡ true → All (λ r. r < 128) rs
unfolding topic_bytes
topic_bytes-All [] h = tt
topic_bytes-All (r ∷ rs) h = (topic_byte-bound r (ground arith), topic_bytes-All rs (ground arith))

-- A valid topic fits in the topic field of every format, and its bytes are ASCII.
pub valid_topic-fits :
    (s : Str) → valid_topic s ≡ true → (0 < length s) × (length s ≤ 255) × All (λ r. r < 128) s
unfolding valid_topic
valid_topic-fits s h = elim (Bool-cases (length s == 0 || ltb 255 (length s))) [
  | inl bad ↦ absurd (ground arith)
  | inr good ↦ (ground arith, ground arith, topic_bytes-All s (rw (good, valid_topic) at h))
]
