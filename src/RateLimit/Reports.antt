-- ===== src/RateLimit/Reports.antt =====
-- GetAllOverages of the three limiters: limiter.go and token_bucket.go. KEYS and HGET of the Redis server
-- are parameters.
use aegis_pulse.Base.{
  ◌≡◌, refl, Bool, false, ◌||◌, Option, none, some, List, [], ◌∷◌, String, str_eq, eq_iff, ℤ, Dict,
  if◌then◌else◌, lookup, insert, lookup-insert, arith, ◌∙◌,
}
use aegis_pulse.RateLimit.Bucket.{TokenBucketLimiter}
use aegis_pulse.RateLimit.Redis.{RedisLimiter, Field, field, no_field, failed_field}
use aegis_pulse.RateLimit.Window.{InMemoryLimiter}

-- The loop that copies a map.
unfoldable pub copy_units : Dict ℤ → Dict ℤ
copy_units [] = []
copy_units ((k, v) ∷ m) = insert k v (copy_units m)

-- The same entries.
pub lookup-copy_units : (key : String) (m : Dict ℤ) → lookup key (copy_units m) ≡ lookup key m
unfolding copy_units lookup
lookup-copy_units key [] = refl
lookup-copy_units key ((k, v) ∷ m) =
    lookup-insert k key v (copy_units m) ∙ ground (arith, eq_iff k key, lookup-copy_units key m)

abbrev pub get_all_overages : InMemoryLimiter → Dict ℤ
get_all_overages m = copy_units m.overages

abbrev pub all_bucket_overages : {F : Type 0} → TokenBucketLimiter F → Dict ℤ
all_bucket_overages m = copy_units m.overages

-- A key whose units cannot be read is skipped.
abbrev collect : String → Field → Dict ℤ → Dict ℤ
collect k (field val) results = insert k val results
collect k _ results = results

abbrev pub listed : String → List String → Bool
listed key [] = false
listed key (k ∷ ks) = str_eq k key || listed key ks

-- The number of a reply.
abbrev pub number : Field → Option ℤ
number (field val) = some val
number _ = none

module _ {S : Type 0} (keys_of : S → String → Option (List String))
    (hget : S → String → String → Field) where
  -- The loop over the keys.
  unfoldable pub read_units : S → List String → Dict ℤ → Dict ℤ
  read_units s [] results = results
  read_units s (k ∷ ks) results = read_units s ks (collect k (hget s k "units") results)

  abbrev all_units : S → Option (List String) → Option (Dict ℤ)
  all_units s none = none
  all_units s (some ks) = some (read_units s ks [])

  abbrev report_of : RedisLimiter S → String → Option S → Option (Dict ℤ)
  report_of r pattern none = some (get_all_overages r.mem_fallback)
  report_of r pattern (some s) = all_units s (keys_of s pattern)

  -- `pattern` is that of the keys of the month; `none` is the error of KEYS.
  unfoldable pub redis_overages : RedisLimiter S → String → Option (Dict ℤ)
  unfolding read_units copy_units
  redis_overages r pattern = report_of r pattern r.client

  -- The first number, or else the second.
  abbrev pub or_else : Option ℤ → Option ℤ → Option ℤ
  or_else none other = other
  or_else (some val) other = some val

  lookup-collect :
      (key k : String) (reply : Field) (results : Dict ℤ)
      → lookup key (collect k reply results)
        ≡ (if str_eq k key then or_else (number reply) (lookup key results) else lookup key results)
  lookup-collect key k (field val) results = lookup-insert k key val results
  lookup-collect key k no_field results = ground arith
  lookup-collect key k failed_field results = ground arith

  -- What is reported of a name is the number that its hash holds, if KEYS lists it, and what was there
  -- before otherwise.
  pub lookup-read_units :
      (s : S) (key : String) (ks : List String) (results : Dict ℤ)
      → lookup key (read_units s ks results) ≡ (
          if listed key ks
          then or_else (number (hget s key "units")) (lookup key results)
          else lookup key results)
  unfolding read_units
  lookup-read_units s key [] results = refl
  lookup-read_units s key (k ∷ ks) results =
      let results' = collect k (hget s k "units") results in
      lookup-read_units s key ks results'
      ∙ ground (arith, lookup-collect key k (hget s k "units") results, eq_iff k key)
