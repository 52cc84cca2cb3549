-- ===== src/Storage/Redis.antt =====
-- RedisClient of internal/storage/redis.go. The server is a parameter: a store, and what SET with a
-- lifetime and GET do to it.
use Prim.Native.String.{◌++◌}
use aegis_pulse.Base.{
  ◌==◌, ◌&&◌, List, [], ◌∷◌, if◌then◌else◌, ℤ, Text, codes, split, cons_part, strip_prefix,
  trim_space, parse_int, ◌*◌, String, Bool, true, false, Option, none, some, str_eq, pos,
}
use aegis_pulse.Clock.{Duration, hour}

-- `set s k v ttl` is the store after the command, and whether the client reports success; `get s k`
-- is `none` on an error, and on a missing or expired key.
pub record RedisServer (S : Type 0) : Type 0 where
  pub set : S → String → String → Duration → S × Bool
  pub get : S → String → Option String

-- The client is nil where the connection failed.
pub record RedisClient (S : Type 0) : Type 0 where
  pub client : Option S

abbrev pub frozen_name : String → String
frozen_name api_key = "key_frozen:" ++ api_key

abbrev pub is_one : Option String → Bool
is_one none = false
is_one (some val) = str_eq val "1"

module _ {S : Type 0} (server : RedisServer S) where
  abbrev freeze_in : String → Option S → RedisClient S × Bool
  freeze_in api_key none = (record { client = none }, true)
  freeze_in api_key (some s) =
      let (s', done) = server.set s (frozen_name api_key) "1" (pos (24 * hour)) in
      (record { client = some s' }, done)

  -- Whether it succeeded is the second part.
  unfoldable pub freeze_key : RedisClient S → String → RedisClient S × Bool
  freeze_key r api_key = freeze_in api_key r.client

  abbrev frozen_in : String → Option S → Bool
  frozen_in api_key none = false
  frozen_in api_key (some s) = is_one (server.get s (frozen_name api_key))

  unfoldable pub is_key_frozen : RedisClient S → String → Bool
  is_key_frozen r api_key = frozen_in api_key r.client

-- NewRedisClient: `connect` gives the server at an address, if it answers the ping.
unfoldable pub new_redis_client : {S : Type 0} → (String → Option S) → String → RedisClient S
new_redis_client connect addr = record {
  client = connect (if str_eq addr "" then "localhost:6379" else addr);
}

-- strings.Split(s, "\r\n")
unfoldable pub split_lines : Text → List Text
split_lines [] = [] ∷ []
split_lines (c ∷ []) = (c ∷ []) ∷ []
split_lines (c ∷ d ∷ s) =
    let past = split_lines s in
    let rest = split_lines (d ∷ s) in
    if c == b'\r' && d == b'\n' then [] ∷ past else cons_part c rest

abbrev pub second_part : List Text → Option (Option ℤ)
second_part (name ∷ val ∷ []) = some (parse_int val)
second_part _ = none

-- The number of a line that has it, and `some none` where it does not parse.
abbrev pub used_memory : Text → Option (Option ℤ)
used_memory line = elim (strip_prefix (codes "used_memory:") line) [
  | none ↦ none
  | some rest ↦ second_part (split b':' line)
]

abbrev pub first_number : Option (Option ℤ) → Option ℤ → Option ℤ
first_number none rest = rest
first_number (some n) rest = n

abbrev pub scan_info : List Text → Option ℤ
scan_info [] = some (pos 0)
scan_info (line ∷ lines) =
    let rest = scan_info lines in first_number (used_memory (trim_space line)) rest

abbrev pub scan_reply : Option Text → Option ℤ
scan_reply none = none
scan_reply (some info) = scan_info (split_lines info)

abbrev pub memory_of : {S : Type 0} → (S → Option Text) → Option S → Option ℤ
memory_of info none = some (pos 0)
memory_of info (some s) = scan_reply (info s)

-- `info` is the reply to INFO memory; `none` is an error.
unfoldable pub get_memory_usage : {S : Type 0} → (S → Option Text) → RedisClient S → Option ℤ
unfolding split_lines
get_memory_usage info r = memory_of info r.client
