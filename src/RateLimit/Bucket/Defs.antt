-- ===== src/RateLimit/Bucket/Defs.antt =====
-- TokenBucketLimiter: the definitions.
use aegis_pulse.Base.{
  Bool, true, false, not, ◌&&◌, Option, none, some, [], String, if◌then◌else◌, ℤ, pos, add64, sub64,
  Dict, lookup, insert, ◌≡◌, ◌≤ℤ◌,
}
use aegis_pulse.Clock.{Time, Duration, sub_time}
use aegis_pulse.RateLimit.Result.{RateLimitResult, normal, burst, blocked}
use aegis_pulse.RateLimit.Window.{Request, clamp_neg}

-- All that the code does with a `float64`. `at_least x y` is `x >= y`.
pub record Floats (F : Type 0) : Type 0 where
  pub of_int : ℤ → F
  pub to_int : F → ℤ
  pub plus : F → F → F
  pub minus : F → F → F
  pub times : F → F → F
  pub over : F → F → F
  pub lesser : F → F → F
  pub at_least : F → F → Bool
  pub seconds : Duration → F

-- What it relies on, of numbers that are not negative.
pub record IsMonotone {F : Type 0} (f : Floats F) : Type 0 where
  pub of_int-nonneg : (n : ℤ) → pos 0 ≤ℤ n → f.at_least (f.of_int n) (f.of_int (pos 0)) ≡ true
  pub seconds-nonneg :
      (d : Duration) → pos 0 ≤ℤ d → f.at_least (f.seconds d) (f.of_int (pos 0)) ≡ true
  pub at_least-refl : (n : ℤ) → f.at_least (f.of_int n) (f.of_int n) ≡ true
  pub plus-nonneg :
      (x y : F)
      → f.at_least x (f.of_int (pos 0)) ≡ true
      → f.at_least y (f.of_int (pos 0)) ≡ true
      → f.at_least (f.plus x y) (f.of_int (pos 0)) ≡ true
  pub times-nonneg :
      (x y : F)
      → f.at_least x (f.of_int (pos 0)) ≡ true
      → f.at_least y (f.of_int (pos 0)) ≡ true
      → f.at_least (f.times x y) (f.of_int (pos 0)) ≡ true
  pub over-nonneg :
      (n m : ℤ)
      → pos 0 ≤ℤ n
      → pos 1 ≤ℤ m
      → f.at_least (f.over (f.of_int n) (f.of_int m)) (f.of_int (pos 0)) ≡ true
  pub lesser-nonneg :
      (x y : F)
      → f.at_least x (f.of_int (pos 0)) ≡ true
      → f.at_least y (f.of_int (pos 0)) ≡ true
      → f.at_least (f.lesser x y) (f.of_int (pos 0)) ≡ true
  pub lesser-first :
      (x y : F)
      → f.at_least x (f.of_int (pos 0)) ≡ true
      → f.at_least y (f.of_int (pos 0)) ≡ true
      → f.at_least x (f.lesser x y) ≡ true
  -- Taking one from at least one.
  pub minus-nonneg :
      (x : F)
      → f.at_least x (f.of_int (pos 1)) ≡ true
      → f.at_least (f.minus x (f.of_int (pos 1))) (f.of_int (pos 0)) ≡ true
  pub minus-below :
      (c x : F)
      → f.at_least c x ≡ true
      → f.at_least x (f.of_int (pos 1)) ≡ true
      → f.at_least c (f.minus x (f.of_int (pos 1))) ≡ true
  -- Above a number that is not negative, and one.
  pub above-one :
      (x y : F)
      → f.at_least y (f.of_int (pos 0)) ≡ true
      → f.at_least x (f.plus y (f.of_int (pos 1))) ≡ true
      → f.at_least x (f.of_int (pos 1)) ≡ true

pub record TokenBucket (F : Type 0) : Type 0 where
  pub tokens : F
  pub capacity : F
  pub refill_rate : F
  pub last_refill : Time

pub record TokenBucketLimiter (F : Type 0) : Type 0 where
  pub buckets : Dict (TokenBucket F)
  pub overages : Dict ℤ
  pub global_burst_freeze : Bool

abbrev pub new_token_bucket_limiter : {F : Type 0} → TokenBucketLimiter F
new_token_bucket_limiter = record { buckets = []; overages = []; global_burst_freeze = false }

abbrev pub freeze_buckets : {F : Type 0} → Bool → TokenBucketLimiter F → TokenBucketLimiter F
freeze_buckets frozen m = record m { global_burst_freeze = frozen }

abbrev pub or_zero : Option ℤ → ℤ
or_zero none = pos 0
or_zero (some n) = n

-- `tbl.overages[apiKey]`
unfoldable pub bucket_overages : {F : Type 0} → String → TokenBucketLimiter F → ℤ
bucket_overages k m = or_zero (lookup k m.overages)

module _ {F : Type 0} (f : Floats F) where
  abbrev pub fresh_bucket : Request → Time → TokenBucket F
  fresh_bucket r made_at = record {
    tokens = f.of_int r.hard_limit;
    capacity = f.of_int r.hard_limit;
    refill_rate = f.over (f.of_int r.soft_limit) (f.of_int r.window_sec);
    last_refill = made_at;
  }

  abbrev pub bucket_or_fresh : Option (TokenBucket F) → Request → Time → TokenBucket F
  bucket_or_fresh none r made_at = fresh_bucket r made_at
  bucket_or_fresh (some b) r made_at = b

  unfoldable pub refill : Time → TokenBucket F → TokenBucket F
  refill now b = record b {
    tokens =
        f.lesser b.capacity
          (f.plus b.tokens (f.times (f.seconds (sub_time now b.last_refill)) b.refill_rate));
    last_refill = now;
  }

  abbrev pub take_one : TokenBucket F → TokenBucket F
  take_one b = record b { tokens = f.minus b.tokens (f.of_int (pos 1)) }

  -- `float64(hardLimit - softLimit)`, or zero where it is below: of an integer, not `>= 0`.
  abbrev pub burst_capacity : Request → F
  burst_capacity r =
      let c = f.of_int (sub64 r.hard_limit r.soft_limit) in
      if f.at_least c (f.of_int (pos 0)) then c else f.of_int (pos 0)

  -- `Check` once the bucket is refilled.
  unfoldable pub spend :
      TokenBucketLimiter F → Request → TokenBucket F → TokenBucketLimiter F × RateLimitResult
  unfolding bucket_overages
  spend m r b =
      let burst_limit = clamp_neg (sub64 r.hard_limit r.soft_limit) in
      let spent = record m { buckets = insert r.api_key (take_one b) m.buckets } in
      let rem = clamp_neg (f.to_int (f.minus (take_one b).tokens (burst_capacity r))) in
      let burst_rem = f.to_int (take_one b).tokens in
      if f.at_least b.tokens (f.plus (burst_capacity r) (f.of_int (pos 1)))
      then (
        spent,
        record {
          status = normal;
          count = sub64 r.soft_limit rem;
          limit = r.soft_limit;
          remaining = rem;
          burst_limit = burst_limit;
          burst_remaining = burst_limit;
        },
      )
      else if f.at_least b.tokens (f.of_int (pos 1)) && not m.global_burst_freeze
      then (
        record spent {
          overages = insert r.api_key (add64 (bucket_overages r.api_key m) (pos 1)) m.overages;
        },
        record {
          status = burst;
          count = sub64 r.hard_limit burst_rem;
          limit = r.soft_limit;
          remaining = pos 0;
          burst_limit = burst_limit;
          burst_remaining = burst_rem;
        },
      )
      else (
        record m { buckets = insert r.api_key b m.buckets },
        record {
          status = blocked;
          count = r.hard_limit;
          limit = r.soft_limit;
          remaining = pos 0;
          burst_limit = burst_limit;
          burst_remaining = pos 0;
        },
      )

  -- `made_at` is the clock where the bucket is made, `now` where it is refilled.
  unfoldable pub check_bucket :
      Request → Time → Time → TokenBucketLimiter F → TokenBucketLimiter F × RateLimitResult
  unfolding spend refill
  check_bucket r made_at now m =
      spend m r (refill now (bucket_or_fresh (lookup r.api_key m.buckets) r made_at))
