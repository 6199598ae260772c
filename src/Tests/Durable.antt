-- ===== src/Tests/Durable.antt =====
-- Tests and examples of the durable samples.
use infercost.Base.{
  ℕ, ◌+◌, ◌*◌, ◌-◌, ◌<◌, ◌≡◌, inl, inr, refl, Bool, true, false, none, some, String, List, [], ◌∷◌,
  length, keep, arith, ◌==◌, if◌then◌else◌, ok, u64_mod,
}
use infercost.Float.{Float64}
use infercost.Utilization.Sample.{Sample, is_retained}
use infercost.Utilization.Record.{Reading}
use infercost.Utilization.Store.Codec.{
  unix_epoch, make_key, encode_sample, decode_sample, big_endian, unix_nano,
}
use infercost.Utilization.Store.Codec.RoundTrip.{IsCoded, decode-encode_sample}
use infercost.Utilization.Store.Bolt.{Pair}
use infercost.Utilization.Store.Bolt.Memory.{Memory, memory_bolt, Memory-IsBolt}
use infercost.Utilization.Store.Operations.{load_range, append, prune}
use infercost.Utilization.Store.Operations.Harmless.{prune-load_range}
use infercost.Base.{map}
use infercost.Utilization.Durable.{
  Sampler, record_all_durable, fresh_sampler, new_sampler_with_store,
}
use infercost.Utilization.Durable.Restart.{AreSpaced, restart-window}
use infercost.Manager.{StoreFiles, durable, in_memory, new_power_sampler}
use infercost.Manager.Restart.{IsKept, new_power_sampler-restart}

-- An arithmetic of two numbers, 0 and 1, in the place of `float64`.
data Watt : Type 0 where
  zero_watt one_watt : Watt

abbrev is_one : Watt → Bool
is_one zero_watt = false
is_one one_watt = true

abbrev watt_bits : Watt → ℕ
watt_bits zero_watt = 0
watt_bits one_watt = 1

abbrev watt_of : ℕ → Watt
watt_of n = if n == 0 then zero_watt else one_watt

instance abbrev watt_float : Float64 Watt
watt_float = record {
  add = λ a b. if is_one a then one_watt else b;
  sub = λ a b. if is_one b then zero_watt else a;
  mul = λ a b. if is_one a then b else zero_watt;
  div = λ a b. a;
  neg = λ a. a;
  lt = λ a b. if is_one a then false else is_one b;
  le = λ a b. if is_one a then is_one b else true;
  eq = λ a b. watt_bits a == watt_bits b;
  of_nat = watt_of;
  dec = λ m k. watt_of m;
  finite = λ a. true;
  to_int64 = watt_bits;
  round = λ a. a;
  bits = watt_bits;
  from_bits = watt_of;
  fixed = λ n a. "";
  shortest = λ a. "";
}

watt-from_bits : (x : Watt) → watt_of (watt_bits x) ≡ x
watt-from_bits zero_watt = refl
watt-from_bits one_watt = refl

watt-bits_lt : (x : Watt) → watt_bits x < u64_mod
watt-bits_lt zero_watt = omega arith
watt-bits_lt one_watt = omega arith

Watt-IsCoded : IsCoded Watt
Watt-IsCoded = record { from_bits-bits = watt-from_bits; bits_lt = watt-bits_lt }

abbrev moment : ℕ → ℕ
moment n = unix_epoch + n

abbrev busy_sample : Sample Watt
busy_sample = record { at = moment 1000; power_w = one_watt; active_w = zero_watt }

codec_examples :
    (make_key (moment 258) ≡ 0 ∷ 0 ∷ 0 ∷ 0 ∷ 0 ∷ 0 ∷ 1 ∷ 2 ∷ [])
    × (length (encode_sample busy_sample) ≡ 16)
unfolding make_key big_endian unix_nano encode_sample
codec_examples = (refl, refl)

decode-encode_sample_example :
    decode_sample (make_key (moment 1000)) (encode_sample busy_sample) ≡ ok busy_sample
decode-encode_sample_example = decode-encode_sample Watt-IsCoded busy_sample (omega arith)

abbrev watt_reading : String → ℕ → Reading Watt
watt_reading key t = record {
  key = key;
  power_w = one_watt;
  active_threshold_w = zero_watt;
  now = moment t;
  persisted = true;
}

abbrev four_readings : List (Reading Watt)
four_readings =
    watt_reading "a" 100 ∷ watt_reading "b" 110 ∷ watt_reading "a" 130 ∷ watt_reading "a" 160 ∷ []

abbrev no_buckets : Memory
no_buckets = []

no_buckets-bucket : (name : String) → memory_bolt.bucket no_buckets name ≡ none
no_buckets-bucket name = refl

four_readings-AreSpaced : AreSpaced 40 0 four_readings
four_readings-AreSpaced = omega arith

restart-window_example :
    (new : Sampler Memory Watt) × (new_sampler_with_store 40
        (moment 180)
        (record_all_durable 40 four_readings (fresh_sampler no_buckets)).db
      ≡ ok new)
    × (new.windows "a"
        ≡ keep
            (is_retained (moment 180 - 40))
            ((record_all_durable 40 four_readings (fresh_sampler no_buckets)).windows "a"))
restart-window_example =
    restart-window Memory-IsBolt 40 Watt-IsCoded no_buckets four_readings (moment 180) "a"
      no_buckets-bucket four_readings-AreSpaced (omega arith) (omega arith) (omega arith)

-- a bucket with samples at 100, 130 and 160
abbrev sample_at : ℕ → Sample Watt
sample_at n = record { at = moment n; power_w = one_watt; active_w = zero_watt }

abbrev pairs_of : List ℕ → List Pair
pairs_of ns = map (λ n. (make_key (moment n), encode_sample (sample_at n))) ns

abbrev three_samples : Memory
three_samples = ("a", pairs_of (100 ∷ 130 ∷ 160 ∷ [])) ∷ []

abbrev two_samples : Memory
two_samples = ("a", pairs_of (130 ∷ 160 ∷ [])) ∷ []

three_samples-prune : prune three_samples (moment 130) ≡ some two_samples
unfolding prune infercost.Utilization.Store.Operations.prune_buckets
    infercost.Utilization.Store.Codec.compare_bytes make_key big_endian unix_nano
    infercost.Utilization.Store.Bolt.delete_pair
three_samples-prune = refl

prune-load_range_example :
    load_range {F = Watt} two_samples "a" (moment 130) (moment 200)
    ≡ load_range three_samples "a" (moment 130) (moment 200)
prune-load_range_example =
    prune-load_range Memory-IsBolt three_samples two_samples (moment 130) (moment 130) (moment 200)
      "a" three_samples-prune (omega arith) (omega arith) (omega arith)

-- the disk of a manager, and its database at one place
abbrev disk_of : Memory → StoreFiles Memory
disk_of d = record {
  abs = λ path. ok path;
  join = λ dir file. dir;
  open_store = λ path. ok d;
  error_text = λ e. "";
}

disk_of-IsKept : IsKept disk_of "/data"
disk_of-IsKept = ("/data", (λ d. refl), (λ d. refl))

abbrev day : ℕ → ℕ
day n = n * (24 * 3600 * 1000000000)

abbrev spring_readings : List (Reading Watt)
spring_readings =
    watt_reading "a" (day 50) ∷ watt_reading "b" (day 60) ∷ watt_reading "a" (day 90) ∷ []

spring_readings-AreSpaced : AreSpaced (day 45) 0 spring_readings
spring_readings-AreSpaced = omega arith

-- with the flag's default, which stands for 45 days
new_power_sampler-restart_example :
    let old = record_all_durable (day 45) spring_readings (fresh_sampler no_buckets) in
    (new_power_sampler {F = Watt} (disk_of no_buckets) (moment 0) "/data" 0
      ≡ ok (durable (day 45) (fresh_sampler no_buckets)))
    × (new : Sampler Memory Watt) × (new_power_sampler (disk_of old.db) (moment (day 100)) "/data" 0
        ≡ ok (durable (day 45) new))
    × (new.windows "a" ≡ keep (is_retained (moment (day 100) - day 45)) (old.windows "a"))
new_power_sampler-restart_example =
    new_power_sampler-restart Memory-IsBolt Watt-IsCoded disk_of "/data" 0 (day 45) no_buckets
      spring_readings (moment 0) (moment (day 100)) "a" (inr (inl refl, refl)) refl disk_of-IsKept
      no_buckets-bucket spring_readings-AreSpaced (omega arith) (omega arith) (omega arith)

-- without a data directory the flag of the retention is not read
memory_only :
    new_power_sampler {F = Watt} (disk_of no_buckets) (moment 90) "" 40
    ≡ ok (in_memory 172800000000000)
unfolding new_power_sampler
memory_only = refl
