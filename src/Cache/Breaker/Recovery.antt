-- ===== src/Cache/Breaker/Recovery.antt =====
-- How a breaker trips, and how it closes again.
use aegis_pulse.Base.{
  ℕ, suc, ◌+◌, ◌≡◌, ◌≤◌, ◌<◌, ◌⊎◌, refl, inl, inr, true, false, List, [], ◌∷◌, if◌then◌else◌, ap,
  ltb, ℤ, pos, ◌≤ℤ◌, ◌<ℤ◌, add64_pos, two63, arith, Bool-cases, ◌∙◌, subst, sym,
}
use aegis_pulse.Clock.{Time, Duration}
use aegis_pulse.Cache.Breaker.Defs.{
  closed, half_open, opened, CircuitBreaker, allow_request, record_success, record_failure,
}
use aegis_pulse.Cache.Breaker.Invariant.{Inv}

-- `RecordFailure` once for each latency and time.
unfoldable pub fail_all : CircuitBreaker → List (Duration × Time) → CircuitBreaker
fail_all cb [] = cb
fail_all cb ((latency, now) ∷ fs) = fail_all (record_failure cb latency now) fs

abbrev pub length_of : List (Duration × Time) → ℕ
length_of [] = 0
length_of (f ∷ fs) = suc (length_of fs)

-- Every latency is below the threshold.
abbrev pub AreFast : ℤ → List (Duration × Time) → Type 0
AreFast d [] = Unit
AreFast d (f ∷ fs) = (f.0 <ℤ d) × AreFast d fs

pub fail_below :
    (cb : CircuitBreaker) (latency now : ℤ) (c n : ℕ)
    → cb.state ≡ closed
    → cb.consecutive_failures ≡ pos c
    → cb.failure_threshold ≡ pos n
    → n < two63
    → c + 1 < n
    → latency <ℤ cb.latency_threshold
    → let cb' = record_failure cb latency now in
      (cb'.state ≡ closed)
      × (cb'.consecutive_failures ≡ pos (c + 1))
      × (cb'.failure_threshold ≡ pos n)
      × (cb'.latency_threshold ≡ cb.latency_threshold)
unfolding record_failure
fail_below cb latency now c n s e t lt h fast = ground (arith, add64_pos c 1)

fail_last :
    (cb : CircuitBreaker) (latency now : ℤ) (c : ℕ)
    → cb.state ≡ closed
    → cb.consecutive_failures ≡ pos c
    → cb.failure_threshold ≡ pos (c + 1)
    → c + 1 < two63
    → (record_failure cb latency now).state ≡ opened
unfolding record_failure
fail_last cb latency now c s e t lt = ground (arith, add64_pos c 1)

-- A closed breaker with `c` failures below its threshold `n`, which is in the range of an
-- `int64`, that records fast failures and nothing else, up to `n` in all: it opens with the
-- failure that makes `n`, and is closed before it.
pub fail_all-trips :
    (fs : List (Duration × Time)) (cb : CircuitBreaker) (c n : ℕ)
    → cb.state ≡ closed
    → cb.consecutive_failures ≡ pos c
    → cb.failure_threshold ≡ pos n
    → n < two63
    → c < n
    → c + length_of fs ≤ n
    → AreFast cb.latency_threshold fs
    → (fail_all cb fs).state ≡ (if ltb (c + length_of fs) n then closed else opened)
unfolding fail_all
fail_all-trips [] cb c n s e t fits lt le fast = ground arith
fail_all-trips ((latency, now) ∷ []) cb c n s e t fits lt le fast =
    elim (Bool-cases (ltb (c + 1) n)) [
      | inl more ↦ rw more (fail_below cb latency now c n s e t fits (ground arith) fast.0).0
      | inr last ↦
          rw last (fail_last cb latency now c s e (t ∙ ap pos (ground arith)) (ground arith))
    ]
fail_all-trips ((latency, now) ∷ f ∷ fs) cb c n s e t fits lt le fast =
    let (s', e', t', l') = fail_below cb latency now c n s e t fits (omega arith) fast.0 in
    let ih =
      fail_all-trips (f ∷ fs) (record_failure cb latency now) (c + 1) n s' e' t' fits (omega arith)
        (omega arith) (subst (λ d. AreFast d (f ∷ fs)) (sym l') fast.1) in
    let same : c + 1 + suc (length_of fs) ≡ c + suc (suc (length_of fs)) = omega arith in
    rw (← same) ih

-- On a breaker that has the invariant `Inv`, one failure whose latency reaches the threshold
-- opens a closed or open breaker at once, any failure opens a half-open one, and no probe is out
-- then.
pub fail_opens :
    (cb : CircuitBreaker) (latency now : ℤ)
    → Inv cb
    → (cb.state ≡ half_open) ⊎ (cb.latency_threshold ≤ℤ latency)
    → ((record_failure cb latency now).state ≡ opened)
      × ((record_failure cb latency now).half_open_probing ≡ false)
unfolding record_failure
fail_opens cb latency now v h = ground arith

first_success :
    (cb : CircuitBreaker) (t : Time)
    → cb.state ≡ half_open
    → cb.consecutive_successes ≡ pos 0
    → ((record_success cb t).state ≡ half_open)
      × ((record_success cb t).consecutive_successes ≡ pos 1)
      × ((record_success cb t).half_open_probing ≡ false)
      × ((record_success cb t).emergency_cutoff ≡ cb.emergency_cutoff)
unfolding record_success
first_success cb t s e = ground (arith, add64_pos 0 1)

next_probe :
    (cb : CircuitBreaker) (t : Time)
    → cb.state ≡ half_open
    → cb.half_open_probing ≡ false
    → cb.emergency_cutoff ≡ false
    → allow_request cb t ≡ (record cb { half_open_probing = true }, (true, half_open))
unfolding allow_request
next_probe cb t s p o = ground arith

second_success :
    (cb : CircuitBreaker) (t : Time)
    → cb.state ≡ half_open
    → cb.consecutive_successes ≡ pos 1
    → ((record_success cb t).state ≡ closed) × ((record_success cb t).consecutive_failures ≡ pos 0)
unfolding record_success
second_success cb t s e = ground (arith, add64_pos 1 1)

-- A half-open breaker that is not cut off and has no success yet closes after two probes that
-- succeed: after the first success it is still half open, and lets the second probe through.
pub two_probes_close :
    (cb : CircuitBreaker) (t₁ t₂ t₃ : Time)
    → cb.state ≡ half_open
    → cb.consecutive_successes ≡ pos 0
    → cb.emergency_cutoff ≡ false
    → let once = record_success cb t₁ in
      let (probed, answer) = allow_request once t₂ in
      (once.state ≡ half_open)
      × (answer.0 ≡ true)
      × ((record_success probed t₃).state ≡ closed)
      × ((record_success probed t₃).consecutive_failures ≡ pos 0)
two_probes_close cb t₁ t₂ t₃ s e live =
    let (s₁, e₁, p₁, o₁) = first_success cb t₁ s e in
    let probe = next_probe (record_success cb t₁) t₂ s₁ p₁ (o₁ ∙ live) in
    let (s₂, f₂) =
      second_success (record (record_success cb t₁) { half_open_probing = true }) t₃ s₁ e₁ in
    rw probe (s₁, refl, s₂, f₂)
