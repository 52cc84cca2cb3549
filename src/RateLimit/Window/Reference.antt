-- ===== src/RateLimit/Window/Reference.antt =====
-- A reference for the limiter that never prunes: it keeps every admitted request and counts those
-- of the key that are younger than the window.
use aegis_pulse.Base.{
  ℕ, ◌+◌, ◌≡◌, String, Bool, true, false, not, ◌&&◌, List, [], ◌∷◌, ◌++◌, if◌then◌else◌, ltb_ℤ, ℤ,
  pos, ◌-ℤ◌, ◌≤ℤ◌, IsInt64, length, str_eq,
}
use aegis_pulse.RateLimit.Result.{RateLimitResult, Status, normal, burst, blocked}
use aegis_pulse.RateLimit.Window.Defs.{InMemoryLimiter, Request, set_global_burst_freeze, check}
use aegis_pulse.RateLimit.Window.Prune.{keep}

-- What an administrator or a client does to the limiter.
pub data Event : Type 0 where
  request : Request → Event
  freeze : Bool → Event

-- The answers to the requests, in order.
unfoldable pub run : InMemoryLimiter → List Event → InMemoryLimiter × List RateLimitResult
run m [] = (m, [])
run m (request r ∷ es) =
    let (m', a) = check m r in let (last, answers) = run m' es in (last, a ∷ answers)
run m (freeze b ∷ es) = run (set_global_burst_freeze b m) es

pub record Reference : Type 0 where
  pub history : List (String × ℤ)
  pub frozen : Bool

-- The times of a key, oldest first.
abbrev pub times : String → List (String × ℤ) → List ℤ
times k [] = []
times k ((j, t) ∷ h) = let rest = times k h in if str_eq j k then t ∷ rest else rest

-- `n` requests of the key are in the window already.
abbrev pub verdict : Bool → ℤ → ℤ → ℕ → Status × ℤ
verdict frozen soft hard n =
    if ltb_ℤ (pos n) soft
    then (normal, pos (n + 1))
    else if ltb_ℤ (pos n) hard && not frozen
    then (burst, pos (n + 1))
    else (blocked, pos n)

abbrev pub is_admitted : Status → Bool
is_admitted normal = true
is_admitted burst = true
is_admitted _ = false

abbrev pub in_window : Reference → Request → ℕ
in_window s r = length (keep (r.now -ℤ r.window_sec) (times r.api_key s.history))

unfoldable pub reference_check : Reference → Request → Reference × (Status × ℤ)
reference_check s r =
    let v = verdict s.frozen r.soft_limit r.hard_limit (in_window s r) in
    (if is_admitted v.0 then record s { history = s.history ++ (r.api_key, r.now) ∷ [] } else s, v)

unfoldable pub reference_run : Reference → List Event → List (Status × ℤ)
reference_run s [] = []
reference_run s (request r ∷ es) = let (s', v) = reference_check s r in v ∷ reference_run s' es
reference_run s (freeze b ∷ es) = reference_run (record s { frozen = b }) es

-- The limits are `int64` values, the window is the key's, and its start does not overflow.
pub record IsSound (window : String → ℤ) (r : Request) : Type 0 where
  pub soft : IsInt64 r.soft_limit
  pub hard : IsInt64 r.hard_limit
  pub window_of : r.window_sec ≡ window r.api_key
  pub start : IsInt64 (r.now -ℤ r.window_sec)

-- The clock does not step back.
abbrev pub AreTimely : (String → ℤ) → ℤ → List Event → Type 0
AreTimely window last [] = Unit
AreTimely window last (request r ∷ es) =
    IsSound window r × (last ≤ℤ r.now) × AreTimely window r.now es
AreTimely window last (freeze b ∷ es) = AreTimely window last es
