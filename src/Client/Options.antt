-- ===== src/Client/Options.antt =====
-- `PublishOptions` and `BatchEntry` of pkg/spruce/client.go. `ttl` is the number of nanoseconds of a
-- `time.Duration`.
use spruce.Prelude.{[], ℕ_discrete, Str, str_dec}
use spruce.Prelude.Int.{ℤ}

pub record PublishOptions : Type 0 where
  pub key : Str
  pub content_type : Str
  pub producer_id : Str
  pub idempotency_key : Str
  pub ack : Str
  pub compression : Str
  pub ttl : ℤ

pub record BatchEntry : Type 0 where
  pub payload : Str
  pub key : Str

unfoldable pub int_dec : Discrete ℤ
unfolding ℕ_discrete
int_dec = hlevel ℕ_discrete

-- `a == b` on the structs.
unfoldable pub options_dec : Discrete PublishOptions
unfolding str_dec int_dec
options_dec = hlevel (str_dec, int_dec)

-- `o.Key = ""`
abbrev pub without_key : PublishOptions → PublishOptions
without_key o = record o { key = [] }
