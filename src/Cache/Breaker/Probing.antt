-- ===== src/Cache/Breaker/Probing.antt =====
-- Who gets through a breaker that is not closed.
use aegis_pulse.Base.{
  ℕ, suc, ◌≡◌, ◌≤◌, ◌<◌, ◌⊎◌, refl, inl, inr, true, false, List, [], ◌∷◌, if◌then◌else◌, leb_ℤ, pos,
  pos_part, ◌≤ℤ◌, ◌<ℤ◌, ◌-ℤ◌, two63, arith, Bool-cases, nonneg_of_le,
}
use aegis_pulse.Clock.{Time, leb-sub_time}
use aegis_pulse.Cache.Breaker.Defs.{half_open, opened, CircuitBreaker, allow_request}
use aegis_pulse.Cache.Breaker.Invariant.{Inv}

-- How many of the calls of `AllowRequest`, with no outcome recorded between them, are let through.
pub count_allowed : CircuitBreaker → List Time → ℕ
count_allowed cb [] = 0
count_allowed cb (now ∷ times) =
    let (cb', answer) = allow_request cb now in
    let rest = count_allowed cb' times in if answer.0 then suc rest else rest

-- A breaker with a probe out, or cut off, lets nobody through and does not change.
pub probing_denies :
    (cb : CircuitBreaker) (now : Time)
    → ((cb.state ≡ half_open) × (cb.half_open_probing ≡ true)) ⊎ (cb.emergency_cutoff ≡ true)
    → ((allow_request cb now).0 ≡ cb) × ((allow_request cb now).1.0 ≡ false)
unfolding allow_request
probing_denies cb now h = ground arith

count_allowed-probing :
    (cb : CircuitBreaker) (times : List Time)
    → ((cb.state ≡ half_open) × (cb.half_open_probing ≡ true)) ⊎ (cb.emergency_cutoff ≡ true)
    → count_allowed cb times ≡ 0
unfolding count_allowed
count_allowed-probing cb [] h = refl
count_allowed-probing cb (now ∷ times) h =
    let (same, denied) = probing_denies cb now h in
    rw (same, denied) (count_allowed-probing cb times h)

-- A call on a breaker that is open or half open changes nothing and is denied, or is let through
-- and leaves a probe out.
allow_request-probes :
    (cb : CircuitBreaker) (now : Time)
    → (cb.state ≡ opened) ⊎ (cb.state ≡ half_open)
    → (((allow_request cb now).0 ≡ cb) × ((allow_request cb now).1.0 ≡ false))
      ⊎ (((allow_request cb now).1.0 ≡ true)
          × ((allow_request cb now).0.state ≡ half_open)
          × ((allow_request cb now).0.half_open_probing ≡ true))
unfolding allow_request
allow_request-probes cb now h = ground arith

-- While no outcome is recorded, an open or half-open breaker lets at most one request through,
-- however many ask and whenever.
pub count_allowed-le-one :
    (cb : CircuitBreaker) (times : List Time)
    → (cb.state ≡ opened) ⊎ (cb.state ≡ half_open)
    → count_allowed cb times ≤ 1
unfolding count_allowed
count_allowed-le-one cb [] h = omega arith
count_allowed-le-one cb (now ∷ times) h = elim (allow_request-probes cb now h) [
  | inl (same, denied) ↦ rw (same, denied) (count_allowed-le-one cb times h)
  | inr (passed, state, probe) ↦
      rw passed
        (omega (arith, count_allowed-probing (allow_request cb now).0 times (inl (state, probe))))
]

-- A half-open breaker whose probe ends with neither `RecordSuccess` nor `RecordFailure` denies every
-- later request, at every time, and never changes.
pub lost_probe_locks :
    (cb : CircuitBreaker) (times : List Time)
    → cb.state ≡ half_open
    → cb.half_open_probing ≡ true
    → count_allowed cb times ≡ 0
lost_probe_locks cb times h p = count_allowed-probing cb times (inl (h, p))

-- An open breaker that is not cut off, that has the invariant `Inv` and whose cooldown is in the
-- range of an `int64`, denies a request exactly while less than the cooldown has passed, and
-- then stays as it is; after that it lets the request through as the probe of a half-open
-- breaker with its counters at 0.
pub opened_waits :
    (cb : CircuitBreaker) (now : Time)
    → Inv cb
    → pos_part cb.cooldown < two63
    → cb.state ≡ opened
    → cb.emergency_cutoff ≡ false
    → ((now -ℤ cb.last_state_change <ℤ cb.cooldown)
        × (allow_request cb now ≡ (cb, (false, opened))))
      ⊎ ((cb.cooldown ≤ℤ now -ℤ cb.last_state_change)
          × (allow_request cb now ≡ (
            record cb {
              state = half_open;
              last_state_change = now;
              consecutive_successes = pos 0;
              consecutive_failures = pos 0;
              half_open_probing = true;
            },
            (true, half_open),
          )))
unfolding allow_request
opened_waits cb now v fits o live =
    let same =
      leb-sub_time cb.cooldown now cb.last_state_change
        (nonneg_of_le (pos 0) cb.cooldown refl (omega arith)) fits in
    elim (Bool-cases (leb_ℤ cb.cooldown (now -ℤ cb.last_state_change))) [
      | inl past ↦ inr (ground arith, ground (arith, same))
      | inr early ↦ inl (ground arith, ground (arith, same))
    ]
