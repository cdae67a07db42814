-- ===== src/Wire/Bytes.antt =====
-- encoding/binary.BigEndian and io.ReadFull, as internal/broker/broker.go uses them.
use spruce.Prelude.{
  ℕ, zero, suc, ◌+◌, ◌*◌, ◌/◌, ◌%◌, ◌^◌, ◌<◌, ◌≡◌, refl, [], ◌∷◌, ◌++◌, Str, Result, ok, err,
  length, arith, length-append, Option, none, some, Option-cases, inl, inr,
}
use native.Mathlib.Nat.{pow-suc}
use mathlib.Core.Option

-- The `w` bytes of `AppendUint16`, `AppendUint32` and `AppendUint64`, the highest first.
unfoldable pub big_endian : ℕ → ℕ → Str
big_endian zero x = []
big_endian (suc w) x = big_endian w (x / 256) ++ (x % 256 ∷ [])

unfoldable pub from_big_endian : ℕ → Str → ℕ
from_big_endian acc [] = acc
from_big_endian acc (b ∷ bs) = from_big_endian (acc * 256 + b) bs

from_big_endian-append :
    (acc : ℕ) (xs : Str) (b : ℕ)
    → from_big_endian acc (xs ++ b ∷ []) ≡ from_big_endian acc xs * 256 + b
unfolding from_big_endian
from_big_endian-append acc [] b = refl
from_big_endian-append acc (x ∷ xs) b = from_big_endian-append (acc * 256 + x) xs b

pub from_big_endian-big_endian : (w x : ℕ) → x < 256 ^ w → from_big_endian 0 (big_endian w x) ≡ x
unfolding big_endian from_big_endian
from_big_endian-big_endian zero x h = omega arith
from_big_endian-big_endian (suc w) x h = omega (
  arith,
  from_big_endian-append 0 (big_endian w (x / 256)) (x % 256),
  from_big_endian-big_endian w (x / 256) (grind (arith, pow-suc)),
)

pub length-big_endian : (w x : ℕ) → length (big_endian w x) ≡ w
unfolding big_endian
length-big_endian zero x = refl
length-big_endian (suc w) x =
    omega
      (arith, length-append (big_endian w (x / 256)) (x % 256 ∷ []), length-big_endian w (x / 256))

-- `io.EOF` is the error at the end of the input, `io.ErrUnexpectedEOF` that of an input which ends
-- too early.
pub data ReadError : Type 0 where
  eof unexpected_eof : ReadError

-- The first `n` bytes and the rest; `none` where there are fewer.
take_exact : ℕ → Str → Option (Str × Str)
take_exact zero bs = some ([], bs)
take_exact (suc n) [] = none
take_exact (suc n) (b ∷ bs) = Option.map (λ r. (b ∷ r.0, r.1)) (take_exact n bs)

-- The error of a read of `n > 0` bytes that comes up short.
short : Str → ReadError
short [] = eof
short (b ∷ bs) = unexpected_eof

-- io.ReadFull into a buffer of `n` bytes.
unfoldable pub read_full : ℕ → Str → Result ReadError (Str × Str)
unfolding take_exact short
read_full n bs = elim (take_exact n bs) [ some r ↦ ok r | none ↦ err (short bs) ]

take_exact-append : (xs rest : Str) → take_exact (length xs) (xs ++ rest) ≡ some (xs, rest)
unfolding take_exact
take_exact-append [] rest = refl
take_exact-append (x ∷ xs) rest = rw (take_exact-append xs rest)

pub read_full-append :
    (n : ℕ) (xs rest : Str) → length xs ≡ n → read_full n (xs ++ rest) ≡ ok (xs, rest)
unfolding read_full
read_full-append n xs rest h = rw (← h) (rw (take_exact-append xs rest, read_full))

-- What a successful read says of its input.
length-take_exact : (n : ℕ) (bs xs rest : Str) → take_exact n bs ≡ some (xs, rest) → length xs ≡ n
unfolding take_exact
length-take_exact zero bs xs rest h = ground arith
length-take_exact (suc n) [] xs rest h = absurd (cc)
length-take_exact (suc n) (b ∷ bs) xs rest h = elim (Option-cases (take_exact n bs)) [
  | inl e ↦ absurd (ground arith)
  | inr (r, e) ↦ ground (arith, length-take_exact n bs r.0 r.1)
]

pub length-read_full : (n : ℕ) (bs xs rest : Str) → read_full n bs ≡ ok (xs, rest) → length xs ≡ n
unfolding read_full
length-read_full n bs xs rest h = ground (arith, length-take_exact n bs xs rest)
