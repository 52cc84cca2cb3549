-- ===== src/RateLimit/Window/Overages.antt =====
-- Overage units, which are billed, are the requests that were answered BURST.
use native.Mathlib.Nat.{add-zero}
use aegis_pulse.Base.{
  ℕ, suc, ◌+◌, ◌≡◌, ◌<◌, String, Bool, true, false, ◌&&◌, List, [], ◌∷◌, ap, ◌∙◌, if◌then◌else◌, ℤ,
  pos, two63, add64, add64_pos, lookup-insert, str_eq, eq_iff, arith, Bool-cases, inl, inr,
}
use aegis_pulse.RateLimit.Result.{RateLimitResult, Status, burst}
use aegis_pulse.RateLimit.Window.Defs.{
  InMemoryLimiter, Request, get_overage_units, check_pruned, check, set_global_burst_freeze,
}
use aegis_pulse.RateLimit.Window.Reference.{Event, request, freeze, run}

abbrev pub is_burst : Status → Bool
is_burst burst = true
is_burst _ = false

-- How many requests of a key were answered BURST.
abbrev pub bursts : String → List Event → List RateLimitResult → ℕ
bursts k (request r ∷ es) (a ∷ answers) =
    let rest = bursts k es answers in
    if is_burst a.status && str_eq r.api_key k then suc rest else rest
bursts k (freeze b ∷ es) answers = bursts k es answers
bursts k _ _ = 0

units-check_pruned :
    (m : InMemoryLimiter) (r : Request) (ts : List ℤ) (k : String)
    → get_overage_units k (check_pruned m r ts).0 ≡ (
        if is_burst (check_pruned m r ts).1.status && str_eq r.api_key k
        then add64 (get_overage_units k m) (pos 1)
        else get_overage_units k m)
unfolding check_pruned
units-check_pruned m r ts k = ground (
  arith,
  eq_iff r.api_key k,
  lookup-insert r.api_key k (add64 (get_overage_units r.api_key m) (pos 1)) m.overages,
)

units-check :
    (m : InMemoryLimiter) (r : Request) (k : String)
    → get_overage_units k (check m r).0 ≡ (
        if is_burst (check m r).1.status && str_eq r.api_key k
        then add64 (get_overage_units k m) (pos 1)
        else get_overage_units k m)
unfolding check
units-check m r k = units-check_pruned m r _ k

-- On every history of requests and freezes, the overage units of a key grow by the number of its
-- requests that were answered BURST, as long as the sum is in the range of an `int64`.
pub units-run :
    (m : InMemoryLimiter) (es : List Event) (k : String) (u : ℕ)
    → get_overage_units k m ≡ pos u
    → u + bursts k es (run m es).1 < two63
    → get_overage_units k (run m es).0 ≡ pos (u + bursts k es (run m es).1)
unfolding run set_global_burst_freeze
units-run m [] k u e lt = rw add-zero e
units-run m (freeze b ∷ es) k u e lt = units-run _ es k u e lt
units-run m (request r ∷ es) k u e lt =
    elim (Bool-cases (is_burst (check m r).1.status && str_eq r.api_key k)) [
      | inl hit ↦
          let fits = rw hit at lt in
          let grown : get_overage_units k (check m r).0 ≡ pos (u + 1) =
            rw (units-check m r k, hit, e) (add64_pos u 1 (omega arith)) in
          rw hit (units-run (check m r).0 es k (u + 1) grown (omega arith) ∙ ap pos (omega arith))
      | inr miss ↦
          let fits = rw miss at lt in
          rw miss (units-run (check m r).0 es k u (rw (units-check m r k, miss) e) fits)
    ]
