-- ===== src/RateLimit/Window/Defs.antt =====
-- InMemoryLimiter: the definitions.
use aegis_pulse.Base.{
  ℕ, zero, suc, ◌+◌, ◌/◌, String, Bool, false, not, ◌&&◌, Option, none, some, List, [], ◌∷◌, ◌++◌,
  if◌then◌else◌, ltb, ltb_ℤ, ℤ, pos, sub64, add64, length, get_or, drop, Dict, lookup, insert,
}
use aegis_pulse.RateLimit.Result.{RateLimitResult, normal, burst, blocked}

pub record InMemoryLimiter : Type 0 where
  pub windows : Dict (List ℤ)
  pub overages : Dict ℤ
  pub global_burst_freeze : Bool

unfoldable pub new_in_memory_limiter : InMemoryLimiter
new_in_memory_limiter = record { windows = []; overages = []; global_burst_freeze = false }

unfoldable pub set_global_burst_freeze : Bool → InMemoryLimiter → InMemoryLimiter
set_global_burst_freeze frozen m = record m { global_burst_freeze = frozen }

-- The arguments of `Check`, with the second that the clock shows.
pub record Request : Type 0 where
  pub api_key : String
  pub tier : String
  pub soft_limit : ℤ
  pub hard_limit : ℤ
  pub window_sec : ℤ
  pub now : ℤ

-- A missing key reads as the zero value of the map's element type.
abbrev pub or_nil : Option (List ℤ) → List ℤ
or_nil none = []
or_nil (some ts) = ts

abbrev pub or_zero : Option ℤ → ℤ
or_zero none = pos 0
or_zero (some n) = n

abbrev pub stored : String → InMemoryLimiter → List ℤ
stored k m = or_nil (lookup k m.windows)

abbrev pub get_overage_units : String → InMemoryLimiter → ℤ
get_overage_units k m = or_zero (lookup k m.overages)

-- The loop of sort.Search over [i, j). Any fuel above j - i is enough.
unfoldable pub search_loop : (ℕ → Bool) → ℕ → ℕ → ℕ → ℕ
search_loop f zero i j = i
search_loop f (suc fuel) i j =
    let h = (i + j) / 2 in
    let low = search_loop f fuel i h in
    let high = search_loop f fuel (h + 1) j in if ltb i j then (if f h then low else high) else i

unfoldable pub search_first : ℕ → (ℕ → Bool) → ℕ
unfolding search_loop
search_first n f = search_loop f (suc n) 0 n

-- `timestamps[i] > minTime`
abbrev pub is_live : ℤ → List ℤ → ℕ → Bool
is_live min_time ts i = ltb_ℤ min_time (get_or ts i (pos 0))

unfoldable pub prune : ℤ → List ℤ → List ℤ
unfolding search_first
prune min_time ts =
    let idx = search_first (length ts) (is_live min_time ts) in
    if ltb 0 idx then drop idx ts else ts

-- `if burstLimit < 0 { burstLimit = 0 }`
abbrev pub clamp_neg : ℤ → ℤ
clamp_neg n = if ltb_ℤ n (pos 0) then pos 0 else n

-- `Check` once the log is pruned to `ts`.
unfoldable pub check_pruned : InMemoryLimiter → Request → List ℤ → InMemoryLimiter × RateLimitResult
check_pruned m r ts =
    let count = pos (length ts) in
    let burst_limit = clamp_neg (sub64 r.hard_limit r.soft_limit) in
    let logged = insert r.api_key (ts ++ r.now ∷ []) m.windows in
    if ltb_ℤ count r.soft_limit
    then (
      record m { windows = logged },
      record {
        status = normal;
        count = add64 count (pos 1);
        limit = r.soft_limit;
        remaining = sub64 r.soft_limit (add64 count (pos 1));
        burst_limit = burst_limit;
        burst_remaining = burst_limit;
      },
    )
    else if ltb_ℤ count r.hard_limit && not m.global_burst_freeze
    then (
      record m {
        windows = logged;
        overages = insert r.api_key (add64 (get_overage_units r.api_key m) (pos 1)) m.overages;
      },
      record {
        status = burst;
        count = add64 count (pos 1);
        limit = r.soft_limit;
        remaining = pos 0;
        burst_limit = burst_limit;
        burst_remaining = sub64 r.hard_limit (add64 count (pos 1));
      },
    )
    else (
      m,
      record {
        status = blocked;
        count = count;
        limit = r.soft_limit;
        remaining = pos 0;
        burst_limit = burst_limit;
        burst_remaining = pos 0;
      },
    )

unfoldable pub check : InMemoryLimiter → Request → InMemoryLimiter × RateLimitResult
unfolding check_pruned prune
check m r = check_pruned m r (prune (sub64 r.now r.window_sec) (stored r.api_key m))
