-- ===== src/Cache/Store/Defs.antt =====
-- SmartCache: the definitions.
use aegis_pulse.Base.{
  ℕ, ◌*◌, Bool, true, false, Option, none, some, List, [], ◌∷◌, String, if◌then◌else◌, ltb_ℤ, ℤ,
  pos, length, Dict, lookup, insert,
}
use aegis_pulse.Clock.{Time, Duration, hour, sub_time, add_time, after}
use aegis_pulse.Http.{Header}

pub record CacheEntry : Type 0 where
  pub status_code : ℤ
  pub header : Header
  pub body : List ℕ
  pub expires_at : Time
  pub cached_at : Time

-- `stopped` says that the channel `stopCh` is closed.
pub record SmartCache : Type 0 where
  pub entries : Dict CacheEntry
  pub stopped : Bool

unfoldable pub new_smart_cache : SmartCache
new_smart_cache = record { entries = []; stopped = false }

-- Closing twice is closing once.
unfoldable pub close : SmartCache → SmartCache
close sc = record sc { stopped = true }

unfoldable pub is_expired : CacheEntry → Time → Bool
is_expired e now = after now e.expires_at

-- Expired more than two hours ago.
unfoldable pub is_evictable : CacheEntry → Time → Bool
is_evictable e now = ltb_ℤ (pos (2 * hour)) (sub_time now e.expires_at)

unfoldable pub evict : Time → Dict CacheEntry → Dict CacheEntry
evict now [] = []
evict now ((k, e) ∷ m) =
    let rest = evict now m in if is_evictable e now then rest else (k, e) ∷ rest

unfoldable pub evict_expired : SmartCache → Time → SmartCache
unfolding evict is_evictable
evict_expired sc now = record sc { entries = evict now sc.entries }

-- The loop of `cleanupLoop` over what its channels deliver: a tick evicts, a stop ends the loop.
pub data Signal : Type 0 where
  tick : Time → Signal
  stop : Signal

unfoldable pub cleanup_loop : SmartCache → List Signal → SmartCache
cleanup_loop sc [] = sc
cleanup_loop sc (tick now ∷ signals) = cleanup_loop (evict_expired sc now) signals
cleanup_loop sc (stop ∷ signals) = sc

unfoldable pub set : SmartCache → String → ℤ → Header → List ℕ → Duration → Time → SmartCache
set sc key status_code header body ttl now = record sc {
  entries =
      insert key
        (record {
          status_code = status_code;
          header = header;
          body = body;
          expires_at = add_time now ttl;
          cached_at = now;
        })
        sc.entries;
}

unfoldable pub get : SmartCache → String → Option CacheEntry
get sc key = lookup key sc.entries

abbrev live_entry : Time → Option CacheEntry → Option CacheEntry
live_entry now none = none
live_entry now (some e) = if is_expired e now then none else some e

unfoldable pub get_live : SmartCache → String → Time → Option CacheEntry
unfolding is_expired
get_live sc key now = live_entry now (get sc key)

unfoldable pub len : SmartCache → ℤ
len sc = pos (length sc.entries)
