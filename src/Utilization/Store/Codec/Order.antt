-- ===== src/Utilization/Store/Codec/Order.antt =====
-- The order of the keys of a bucket is the order of time.
use Prim.Native.Nat.{compare, Ordering}
use infercost.Base.{
  ℕ, zero, suc, ◌-◌, ◌+◌, ◌*◌, ◌/◌, ◌%◌, ◌<◌, ◌≤◌, ◌≡◌, refl, sym, ap, ◌∙◌, [], ◌∷◌, ◌++◌, length,
  length-append, arith, i64_min,
}
use infercost.Utilization.Store.Codec.{
  Bytes, unix_epoch, big_endian, or_else, compare_bytes, unix_nano, make_key,
}

pub length-big_endian : (n x : ℕ) → length (big_endian n x) ≡ n
unfolding big_endian
length-big_endian zero x = refl
length-big_endian (suc n) x =
    omega (
      arith,
      length-append (big_endian n (x / 256)) ((x % 256) ∷ []),
      length-big_endian n (x / 256),
    )

or_else_assoc : (a b c : Ordering) → or_else (or_else a b) c ≡ or_else a (or_else b c)
or_else_assoc Ordering.lt b c = refl
or_else_assoc Ordering.eq b c = refl
or_else_assoc Ordering.gt b c = refl

compare_bytes-append :
    (xs ys : Bytes) (a b : ℕ)
    → length xs ≡ length ys
    → compare_bytes (xs ++ (a ∷ [])) (ys ++ (b ∷ [])) ≡ or_else (compare_bytes xs ys) (compare a b)
unfolding compare_bytes
compare_bytes-append [] [] a b l = ground arith
compare_bytes-append [] (y ∷ ys) a b l = absurd (omega (arith, l))
compare_bytes-append (x ∷ xs) [] a b l = absurd (omega (arith, l))
compare_bytes-append (x ∷ xs) (y ∷ ys) a b l =
    rw (compare_bytes-append xs ys a b (omega (arith, l)))
      (sym (or_else_assoc (compare x y) (compare_bytes xs ys) (compare a b)))

compare_digits :
    (x y : ℕ) → compare x y ≡ or_else (compare (x / 256) (y / 256)) (compare (x % 256) (y % 256))
compare_digits x y = ground arith

-- the numbers that `n` bytes hold
abbrev pub byte_range : ℕ → ℕ
byte_range zero = 1
byte_range (suc n) = byte_range n * 256

compare-big_endian :
    (n x y : ℕ)
    → x < byte_range n
    → y < byte_range n
    → compare_bytes (big_endian n x) (big_endian n y) ≡ compare x y
unfolding big_endian compare_bytes
compare-big_endian zero x y h k = ground arith
compare-big_endian (suc n) x y h k =
    compare_bytes-append (big_endian n (x / 256)) (big_endian n (y / 256)) (x % 256) (y % 256)
      (length-big_endian n (x / 256) ∙ sym (length-big_endian n (y / 256)))
    ∙ ap (λ o. or_else o (compare (x % 256) (y % 256)))
        (compare-big_endian n (x / 256) (y / 256) (omega arith) (omega arith))
    ∙ sym (compare_digits x y)

-- the instants whose nanoseconds since 1970 are an `int64` that is not negative, to the year 2262
abbrev pub IsInRange : ℕ → Type 0
IsInRange t = (unix_epoch ≤ t) × (t < unix_epoch + i64_min)

pub unix_nano-IsInRange : (t : ℕ) → IsInRange t → unix_nano t ≡ t - unix_epoch
unfolding unix_nano
unix_nano-IsInRange t (lo, hi) = omega arith

compare-minus : (a b e : ℕ) → e ≤ a → e ≤ b → compare (a - e) (b - e) ≡ compare a b
compare-minus a b e h k = ground arith

pub compare-make_key :
    (t u : ℕ) → IsInRange t → IsInRange u → compare_bytes (make_key t) (make_key u) ≡ compare t u
unfolding make_key
compare-make_key t u ht hu =
    compare-big_endian 8 (unix_nano t) (unix_nano u) (omega (arith, unix_nano-IsInRange t ht))
      (omega (arith, unix_nano-IsInRange u hu))
    ∙ rw (unix_nano-IsInRange t ht, unix_nano-IsInRange u hu)
        (compare-minus t u unix_epoch ht.0 hu.0)
