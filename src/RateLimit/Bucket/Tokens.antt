-- ===== src/RateLimit/Bucket/Tokens.antt =====
-- The tokens of a bucket stay between none and its capacity.
use aegis_pulse.Base.{◌≡◌, true, false, some, String, pos, add64, lookup}
use aegis_pulse.RateLimit.Result.{RateLimitResult, burst}
use aegis_pulse.RateLimit.Window.{Request}
use aegis_pulse.RateLimit.Bucket.Defs.{Floats, TokenBucket, TokenBucketLimiter, bucket_overages}

module _ {F : Type 0} (f : Floats F) where
  abbrev pub IsNonneg : F → Type 0
  IsNonneg x = f.at_least x (f.of_int (pos 0)) ≡ true

  pub record IsFilled (b : TokenBucket F) : Type 0 where
    pub some_tokens : IsNonneg b.tokens
    pub within : f.at_least b.capacity b.tokens ≡ true
    pub capacity : IsNonneg b.capacity
    pub rate : IsNonneg b.refill_rate

  abbrev pub AreFilled : TokenBucketLimiter F → Type 0
  AreFilled m = (k : String) (b : TokenBucket F) → lookup k m.buckets ≡ some b → IsFilled b

  -- What the answer says of the overages: the count of the key goes up by one exactly for a burst, which
  -- is never answered while bursts are frozen.
  abbrev pub Charges :
      TokenBucketLimiter F → Request → TokenBucketLimiter F × RateLimitResult → Type 0
  Charges m r (m', res) =
      (res.status ≡ burst
        → (m.global_burst_freeze ≡ false)
          × (bucket_overages r.api_key m' ≡ add64 (bucket_overages r.api_key m) (pos 1)))
      × ((res.status ≡ burst → ⊥) → m'.overages ≡ m.overages)
