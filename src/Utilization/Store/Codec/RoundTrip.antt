-- ===== src/Utilization/Store/Codec/RoundTrip.antt =====
-- What is written to a bucket is what is read from it.
use infercost.Base.{
  ℕ, zero, suc, ◌+◌, ◌*◌, ◌/◌, ◌%◌, ◌<◌, ◌≡◌, refl, ap, [], ◌∷◌, ◌++◌, length, length-append, arith,
  ok, u64_mod, i64_min,
}
use infercost.Float.{Float64}
use infercost.Utilization.Sample.{Sample}
use infercost.Utilization.Store.Codec.{
  Bytes, big_endian, read_big_endian, take, drop_bytes, unix_nano, make_key, decode_sample_key,
  encode_sample, decode_sample,
}
use infercost.Utilization.Store.Codec.Order.{
  byte_range, IsInRange, length-big_endian, unix_nano-IsInRange,
}

read_big_endian-append :
    (acc : ℕ) (xs : Bytes) (b : ℕ)
    → read_big_endian acc (xs ++ (b ∷ [])) ≡ read_big_endian acc xs * 256 + b
read_big_endian-append acc [] b = refl
read_big_endian-append acc (x ∷ xs) b = read_big_endian-append (acc * 256 + x) xs b

read_big_endian_lem : (n x : ℕ) → x < byte_range n → read_big_endian 0 (big_endian n x) ≡ x
unfolding big_endian
read_big_endian_lem zero x h = omega arith
read_big_endian_lem (suc n) x h = omega (
  arith,
  read_big_endian-append 0 (big_endian n (x / 256)) (x % 256),
  read_big_endian_lem n (x / 256) (omega arith),
)

take-append : (n : ℕ) (xs ys : Bytes) → length xs ≡ n → take n (xs ++ ys) ≡ xs
take-append zero [] ys l = refl
take-append zero (x ∷ xs) ys l = absurd (omega (arith, l))
take-append (suc n) [] ys l = absurd (omega (arith, l))
take-append (suc n) (x ∷ xs) ys l = ap (◌∷◌ x) (take-append n xs ys (omega (arith, l)))

take-all : (n : ℕ) (xs : Bytes) → length xs ≡ n → take n xs ≡ xs
take-all zero [] l = refl
take-all zero (x ∷ xs) l = absurd (omega (arith, l))
take-all (suc n) [] l = refl
take-all (suc n) (x ∷ xs) l = ap (◌∷◌ x) (take-all n xs (omega (arith, l)))

drop-append : (n : ℕ) (xs ys : Bytes) → length xs ≡ n → drop_bytes n (xs ++ ys) ≡ ys
drop-append zero [] ys l = refl
drop-append zero (x ∷ xs) ys l = absurd (omega (arith, l))
drop-append (suc n) [] ys l = absurd (omega (arith, l))
drop-append (suc n) (x ∷ xs) ys l = drop-append n xs ys (omega (arith, l))

decode-make_key : (t : ℕ) → IsInRange t → decode_sample_key (make_key t) ≡ t
unfolding decode_sample_key make_key
decode-make_key t h =
    let nano = unix_nano-IsInRange t h in
    let small : unix_nano t < i64_min = omega (arith, nano, h.0, h.1) in
    let back = read_big_endian_lem 8 (unix_nano t) (omega (arith, small)) in
    rw (take-all 8 (big_endian 8 (unix_nano t)) (length-big_endian 8 (unix_nano t)), back)
      (ground (arith, nano, small, h.0))

-- The bits of a number determine it, and are a word.
pub record IsCoded (F : Type 0) ⦃f : Float64 F⦄ : Type 0 where
  pub from_bits-bits : (x : F) → f.from_bits (f.bits x) ≡ x
  pub bits_lt : (x : F) → f.bits x < u64_mod

module _ {F : Type 0} ⦃f : Float64 F⦄ (coded : IsCoded F) where
  -- A sample whose instant lies between 1970 and 2262 is decoded, from the key and the value that it
  -- is stored under, as it was.
  pub decode-encode_sample :
      (s : Sample F) → IsInRange s.at → decode_sample (make_key s.at) (encode_sample s) ≡ ok s
  unfolding decode_sample encode_sample
  decode-encode_sample s h =
      let power = f.bits s.power_w in
      let active = f.bits s.active_w in
      let eight = length-big_endian 8 power in
      let sixteen : length (big_endian 8 power ++ big_endian 8 active) ≡ 16 = omega (
        arith,
        length-append (big_endian 8 power) (big_endian 8 active),
        eight,
        length-big_endian 8 active,
      ) in
      let long : length (make_key s.at) ≡ 8 =
        unfold make_key in length-big_endian 8 (unix_nano s.at) in
      rw
        (
          sixteen,
          long,
          decode-make_key s.at h,
          take-append 8 (big_endian 8 power) (big_endian 8 active) eight,
          drop-append 8 (big_endian 8 power) (big_endian 8 active) eight,
          read_big_endian_lem 8 power (coded.bits_lt s.power_w),
          read_big_endian_lem 8 active (coded.bits_lt s.active_w),
          coded.from_bits-bits s.power_w,
          coded.from_bits-bits s.active_w,
        )
        refl
