-- ===== src/Utilization/Store/Codec.antt =====
-- internal/utilization/store.go: the keys and values of a bucket, `mkKey`, `decodeSampleKey`,
-- `encodeSample` and `decodeSample`, with the big-endian numbers of encoding/binary and
-- `bytes.Compare`. A byte is a number below 256. `UnixNano` counts from 1970 and wraps around.
pub mod Order
pub mod RoundTrip
use Prim.Native.Nat.{compare, Ordering}
use infercost.Base.{
  ℕ, zero, suc, ◌+◌, ◌-◌, ◌*◌, ◌/◌, ◌%◌, Bool, true, false, not, List, [], ◌∷◌, ◌++◌, length, ltb,
  ◌==◌, if◌then◌else◌, u64_mod, i64_min, Result, ok, err,
}
use infercost.Float.{Float64}
use infercost.Utilization.Sample.{Sample}

abbrev pub Bytes : Type 0
Bytes = List ℕ

-- 1970-01-01 in nanoseconds from Go's zero time
abbrev pub unix_epoch : ℕ
unix_epoch = 62135596800000000000

-- the low `n` bytes of a number, the highest first, as `PutUint64` writes eight
unfoldable pub big_endian : ℕ → ℕ → Bytes
big_endian zero x = []
big_endian (suc n) x = big_endian n (x / 256) ++ ((x % 256) ∷ [])

abbrev pub read_big_endian : ℕ → Bytes → ℕ
read_big_endian acc [] = acc
read_big_endian acc (b ∷ bs) = read_big_endian (acc * 256 + b) bs

abbrev pub or_else : Ordering → Ordering → Ordering
or_else Ordering.lt o = Ordering.lt
or_else Ordering.eq o = o
or_else Ordering.gt o = Ordering.gt

-- `bytes.Compare`
unfoldable pub compare_bytes : Bytes → Bytes → Ordering
compare_bytes [] [] = Ordering.eq
compare_bytes [] (b ∷ bs) = Ordering.lt
compare_bytes (a ∷ xs) [] = Ordering.gt
compare_bytes (a ∷ xs) (b ∷ bs) = or_else (compare a b) (compare_bytes xs bs)

abbrev pub is_less : Ordering → Bool
is_less Ordering.lt = true
is_less Ordering.eq = false
is_less Ordering.gt = false

-- `bytes.Compare(a, b) < 0`
abbrev pub bytes_lt : Bytes → Bytes → Bool
bytes_lt a b = is_less (compare_bytes a b)

-- `uint64(t.UTC().UnixNano())`
unfoldable pub unix_nano : ℕ → ℕ
unix_nano t = (t + 4 * u64_mod - unix_epoch) % u64_mod

unfoldable pub make_key : ℕ → Bytes
make_key t = big_endian 8 (unix_nano t)

abbrev pub take : ℕ → Bytes → Bytes
take zero bs = []
take (suc n) [] = []
take (suc n) (b ∷ bs) = b ∷ take n bs

abbrev pub drop_bytes : ℕ → Bytes → Bytes
drop_bytes zero bs = bs
drop_bytes (suc n) [] = []
drop_bytes (suc n) (b ∷ bs) = drop_bytes n bs

-- `time.Unix(0, int64(nano))`
unfoldable pub decode_sample_key : Bytes → ℕ
decode_sample_key k =
    let nano = read_big_endian 0 (take 8 k) in
    if ltb nano i64_min then unix_epoch + nano else unix_epoch + nano - u64_mod

-- a value of another length than 16, and a key of fewer than eight bytes, at which the source panics:
-- only another program can have written either
pub data DecodeError : Type 0 where
  invalid_value_length : ℕ → DecodeError
  short_key : ℕ → DecodeError

module _ {F : Type 0} ⦃f : Float64 F⦄ where
  unfoldable pub encode_sample : Sample F → Bytes
  encode_sample s = big_endian 8 (f.bits s.power_w) ++ big_endian 8 (f.bits s.active_w)

  unfoldable pub decode_sample : Bytes → Bytes → Result DecodeError (Sample F)
  decode_sample k v =
      if not (length v == 16)
      then err (invalid_value_length (length v))
      else if ltb (length k) 8
      then err (short_key (length k))
      else ok (record {
        at = decode_sample_key k;
        power_w = f.from_bits (read_big_endian 0 (take 8 v));
        active_w = f.from_bits (read_big_endian 0 (drop_bytes 8 v));
      })
