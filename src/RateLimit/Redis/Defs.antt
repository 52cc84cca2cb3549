-- ===== src/RateLimit/Redis/Defs.antt =====
-- RedisLimiter: the definitions.
use Prim.Native.String.{◌++◌}
use aegis_pulse.Base.{
  String, Bool, true, false, Option, none, some, List, ◌∷◌, if◌then◌else◌, str_eq, ℤ, pos, sub64,
  Text, parse_or_nearest,
}
use aegis_pulse.RateLimit.Result.{RateLimitResult, read_status}
use aegis_pulse.RateLimit.Window.{InMemoryLimiter, new_in_memory_limiter, Request, check, clamp_neg}
use aegis_pulse.RateLimit.Window
use aegis_pulse.RateLimit.Script.{ScriptCall, sliding_window}
use aegis_pulse.RateLimit.Script.Commands.{Commands}

-- The client is nil where the connection failed.
pub record RedisLimiter (S : Type 0) : Type 0 where
  pub client : Option S
  pub stream_events : String
  pub global_burst_freeze : Bool
  pub mem_fallback : InMemoryLimiter

unfoldable pub new_limiter : {S : Type 0} → Option S → String → RedisLimiter S
new_limiter client stream_events = record {
  client = client;
  stream_events = if str_eq stream_events "" then "stream:gateway:events" else stream_events;
  global_burst_freeze = Bool.false;
  mem_fallback = new_in_memory_limiter;
}

unfoldable pub set_freeze : {S : Type 0} → Bool → RedisLimiter S → RedisLimiter S
set_freeze frozen r = record r {
  global_burst_freeze = frozen;
  mem_fallback = Window.set_global_burst_freeze frozen r.mem_fallback;
}

-- What happens to one call of the script: it is answered, its answer is lost, or it is not run.
pub data Link : Type 0 where
  answered lost unreached : Link

-- A call of `Check`, with what it reads: the month, the random member, and the clock of the server.
pub record RedisRequest : Type 0 where
  pub request : Request
  pub month : String
  pub req_id : Text
  pub at : ℤ
  pub link : Link

abbrev pub ratelimit_key : String → String
ratelimit_key api_key = "ratelimit:" ++ api_key

abbrev pub billing_key : String → String → String
billing_key month api_key = "billing:overage:" ++ (month ++ (":" ++ api_key))

abbrev pub script_call : {S : Type 0} → RedisLimiter S → RedisRequest → ScriptCall
script_call r q = record {
  ratelimit_key = ratelimit_key q.request.api_key;
  billing_key = billing_key q.month q.request.api_key;
  stream_key = r.stream_events;
  now = q.request.now;
  window = q.request.window_sec;
  soft_limit = q.request.soft_limit;
  hard_limit = q.request.hard_limit;
  req_id = q.req_id;
  api_key = q.request.api_key;
  tier = q.request.tier;
  burst_frozen = if r.global_burst_freeze then pos 1 else pos 0;
}

-- `none` where there are less than six values.
unfoldable pub read_reply : List Text → Option RateLimitResult
read_reply (status ∷ count ∷ limit ∷ hard ∷ rem ∷ burst_rem ∷ more) = some (record {
  status = read_status status;
  count = parse_or_nearest count;
  limit = parse_or_nearest limit;
  remaining = parse_or_nearest rem;
  burst_limit = clamp_neg (sub64 (parse_or_nearest hard) (parse_or_nearest limit));
  burst_remaining = parse_or_nearest burst_rem;
})
read_reply _ = none

module _ {S : Type 0} (redis : Commands S) where
  abbrev pub run_script : Link → ℤ → ScriptCall → S → S × Option (List Text)
  run_script answered at c s = let (s', reply) = sliding_window redis at c s in (s', some reply)
  run_script lost at c s = ((sliding_window redis at c s).0, none)
  run_script unreached at c s = (s, none)

  abbrev fall_back : RedisLimiter S → Request → RedisLimiter S × RateLimitResult
  fall_back r q = let (mem, res) = check r.mem_fallback q in (record r { mem_fallback = mem }, res)

  abbrev or_fall_back :
      RedisLimiter S → Request → Option RateLimitResult → RedisLimiter S × RateLimitResult
  or_fall_back r q none = fall_back r q
  or_fall_back r q (some res) = (r, res)

  abbrev pub after_script :
      RedisLimiter S → Request → Option (List Text) → RedisLimiter S × RateLimitResult
  after_script r q none = fall_back r q
  after_script r q (some reply) = or_fall_back r q (read_reply reply)

  abbrev pub check_with :
      RedisLimiter S → RedisRequest → Option S → RedisLimiter S × RateLimitResult
  check_with r q none = fall_back r q.request
  check_with r q (some s) =
      let (s', reply) = run_script q.link q.at (script_call r q) s in
      after_script (record r { client = some s' }) q.request reply

  unfoldable pub redis_check : RedisLimiter S → RedisRequest → RedisLimiter S × RateLimitResult
  unfolding read_reply
  redis_check r q = check_with r q r.client

-- What HGET of a number gives.
pub data Field : Type 0 where
  no_field failed_field : Field
  field : ℤ → Field

abbrev units_of : Field → ℤ × Bool
units_of no_field = (pos 0, true)
units_of failed_field = (pos 0, false)
units_of (field n) = (n, true)

module _ {S : Type 0} (hget : S → String → String → Field) where
  abbrev units_with : RedisLimiter S → String → String → Option S → ℤ × Bool
  units_with r month api_key none = (Window.get_overage_units api_key r.mem_fallback, true)
  units_with r month api_key (some s) = units_of (hget s (billing_key month api_key) "units")

  -- Whether there was no error is the second part.
  unfoldable pub redis_overage_units : RedisLimiter S → String → String → ℤ × Bool
  redis_overage_units r month api_key = units_with r month api_key r.client
