-- ===== src/Cache/Store/Eviction.antt =====
-- What the cache keeps, and for how long.
use aegis_pulse.Base.{
  ℕ, ◌*◌, ◌≡◌, refl, true, false, Option, none, some, List, [], ◌∷◌, String, if◌then◌else◌, str_eq,
  eq_iff, ℤ, pos, ◌≤ℤ◌, ◌<ℤ◌, ◌⊎◌, ◌+ℤ◌, -ℤ_parts, +ℤ_parts, Dict, lookup, insert,
  lookup-insert_self, arith,
}
use aegis_pulse.Clock.{Time, hour, ltb-sub_time, add_time}
use aegis_pulse.Http.{Header}
use aegis_pulse.Cache.Store.Defs.{
  CacheEntry, SmartCache, Signal, tick, stop, is_evictable, evict, evict_expired, cleanup_loop, set,
  get, get_live,
}

-- No key stands twice: what a Go map gives, and `insert` keeps.
abbrev pub Absent : String → Dict CacheEntry → Type 0
Absent k [] = Unit
Absent k ((j, e) ∷ m) = (str_eq j k ≡ false) × Absent k m

abbrev pub IsMap : Dict CacheEntry → Type 0
IsMap [] = Unit
IsMap ((k, e) ∷ m) = Absent k m × IsMap m

abbrev pub keep_fresh : Time → Option CacheEntry → Option CacheEntry
keep_fresh now none = none
keep_fresh now (some e) = if is_evictable e now then none else some e

lookup-Absent : (k : String) (m : Dict CacheEntry) → Absent k m → lookup k m ≡ none
unfolding lookup
lookup-Absent k [] h = refl
lookup-Absent k ((j, e) ∷ m) h = ground (arith, lookup-Absent k m h.1)

Absent-evict : (k : String) (now : Time) (m : Dict CacheEntry) → Absent k m → Absent k (evict now m)
unfolding evict
Absent-evict k now [] h = tt
Absent-evict k now ((j, e) ∷ m) h = ground (arith, Absent-evict k now m h.1)

IsMap-evict : (now : Time) (m : Dict CacheEntry) → IsMap m → IsMap (evict now m)
unfolding evict
IsMap-evict now [] h = tt
IsMap-evict now ((k, e) ∷ m) h = ground (arith, IsMap-evict now m h.1, Absent-evict k now m h.0)

Absent-of_eq : (j k : String) (m : Dict CacheEntry) → str_eq j k ≡ true → Absent j m → Absent k m
Absent-of_eq j k m e h = rw (← (eq_iff j k).0 e) h

lookup-evict :
    (now : Time) (k : String) (m : Dict CacheEntry)
    → IsMap m
    → lookup k (evict now m) ≡ keep_fresh now (lookup k m)
unfolding lookup evict
lookup-evict now k [] h = refl
lookup-evict now k ((j, e) ∷ m) h = ground (
  arith,
  lookup-evict now k m h.1,
  λ (s : str_eq j k ≡ true). lookup-Absent k m (Absent-of_eq j k m s h.0),
)

-- In a cache in which no key stands twice, an eviction drops the entries that expired more than
-- two hours ago, and no other.
pub get-evict_expired :
    (sc : SmartCache) (now : Time) (k : String)
    → IsMap sc.entries
    → get (evict_expired sc now) k ≡ keep_fresh now (get sc k)
unfolding get evict_expired
get-evict_expired sc now k h = lookup-evict now k sc.entries h

Absent-insert :
    (k j : String) (e : CacheEntry) (m : Dict CacheEntry)
    → str_eq j k ≡ false
    → Absent k m
    → Absent k (insert j e m)
unfolding insert
Absent-insert k j e [] n h = (n, tt)
Absent-insert k j e ((i, f) ∷ m) n h = ground (arith, Absent-insert k j e m n h.1)

IsMap-insert : (k : String) (e : CacheEntry) (m : Dict CacheEntry) → IsMap m → IsMap (insert k e m)
unfolding insert
IsMap-insert k e [] h = (tt, tt)
IsMap-insert k e ((j, f) ∷ m) h =
    ground (arith, IsMap-insert k e m h.1, Absent-insert j k e m, eq_iff j k, eq_iff k j)

-- No tick comes after `bound`.
abbrev pub TicksTo : ℤ → List Signal → Type 0
TicksTo bound [] = Unit
TicksTo bound (tick now ∷ signals) = (now ≤ℤ bound) × TicksTo bound signals
TicksTo bound (stop ∷ signals) = TicksTo bound signals

kept_while_fresh :
    (e : CacheEntry) (now : Time)
    → now ≤ℤ e.expires_at +ℤ pos (2 * hour)
    → is_evictable e now ≡ false
unfolding is_evictable
kept_while_fresh e now h =
    rw (ltb-sub_time (2 * hour) now e.expires_at (omega arith))
      (ground (arith, -ℤ_parts now e.expires_at, +ℤ_parts e.expires_at (pos (2 * hour))))

get-cleanup_loop :
    (sc : SmartCache) (key : String) (e : CacheEntry) (signals : List Signal)
    → IsMap sc.entries
    → get sc key ≡ some e
    → TicksTo (e.expires_at +ℤ pos (2 * hour)) signals
    → get (cleanup_loop sc signals) key ≡ some e
unfolding cleanup_loop
get-cleanup_loop sc key e [] map found ticks = found
get-cleanup_loop sc key e (stop ∷ signals) map found ticks = found
get-cleanup_loop sc key e (tick now ∷ signals) map found ticks =
    get-cleanup_loop (evict_expired sc now) key e signals
      (unfold evict_expired in IsMap-evict now sc.entries map)
      (rw (get-evict_expired sc now key map, found) (rw (kept_while_fresh e now ticks.0))) ticks.1

-- A response that is stored in a cache in which no key stands twice is found by the fallback,
-- exactly as it was stored, after any run of the cleanup loop whose ticks come no later than two
-- hours after the response expired.
pub fallback_survives :
    (sc : SmartCache) (key : String) (status : ℤ) (header : Header) (body : List ℕ) (ttl now : ℤ)
    (signals : List Signal)
    → IsMap sc.entries
    → TicksTo (add_time now ttl +ℤ pos (2 * hour)) signals
    → get (cleanup_loop (set sc key status header body ttl now) signals) key
      ≡ some (record {
        status_code = status;
        header = header;
        body = body;
        expires_at = add_time now ttl;
        cached_at = now;
      })
fallback_survives sc key status header body ttl now signals map ticks =
    get-cleanup_loop _ key _ signals (unfold set in IsMap-insert key _ sc.entries map)
      (unfold set get in lookup-insert_self key _ sc.entries) ticks

-- A live lookup finds what the plain one finds until it expires, and nothing afterwards.
pub get_live-get :
    (sc : SmartCache) (key : String) (now : Time) (e : CacheEntry)
    → get sc key ≡ some e
    → ((now ≤ℤ e.expires_at) × (get_live sc key now ≡ some e))
      ⊎ ((e.expires_at <ℤ now) × (get_live sc key now ≡ none))
unfolding get_live
get_live-get sc key now e found = ground (arith, found)
