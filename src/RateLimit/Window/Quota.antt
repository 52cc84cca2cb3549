-- ===== src/RateLimit/Window/Quota.antt =====
-- The two thresholds: what `Check` answers, and how many requests a window lets through.
use aegis_pulse.Base.{
  ℕ, ◌+◌, ◌≡◌, ◌≤◌, refl, true, not, ◌&&◌, ◌⊎◌, List, ltb_ℤ, ℤ, pos, pos_part, neg_part, ◌≤ℤ◌, ◌+ℤ◌,
  IsInt64, length, two63, arith, ◌<◌, ◌-◌, add64_pos, sub64_pos, nonneg-eq-pos, nonneg_of_le,
  Bool-cases, inl, inr,
}
use aegis_pulse.RateLimit.Result.{RateLimitResult, blocked}
use aegis_pulse.RateLimit.Window.Defs.{InMemoryLimiter, Request, check_pruned, check, clamp_neg}
use aegis_pulse.RateLimit.Window.Reference.{is_admitted}

-- The limits of a tier as a configuration means them.
pub record AreLimits (r : Request) : Type 0 where
  pub soft_pos : neg_part r.soft_limit ≡ 0
  pub ordered : r.soft_limit ≤ℤ r.hard_limit
  pub soft : IsInt64 r.soft_limit
  pub hard : IsInt64 r.hard_limit

-- What a status and three counters say of the limits.
abbrev pub Conserves : InMemoryLimiter → Request → InMemoryLimiter × RateLimitResult → Type 0
Conserves m r (m', a) =
    ((is_admitted a.status ≡ true) × (a.count +ℤ a.remaining +ℤ a.burst_remaining ≡ r.hard_limit))
    ⊎ ((a.status ≡ blocked)
        × (a.remaining ≡ pos 0)
        × (a.burst_remaining ≡ pos 0)
        × (r.soft_limit ≤ℤ a.count)
        × (r.hard_limit ≤ℤ a.count ⊎ (m.global_burst_freeze ≡ true))
        × (m' ≡ m))

total_normal :
    (n s h : ℕ)
    → n < s
    → s ≤ h
    → pos (n + 1) +ℤ pos (s - (n + 1)) +ℤ clamp_neg (pos (h - s)) ≡ pos h
unfolding ◌+ℤ◌
total_normal n s h lt le = ground arith

total_burst : (n h : ℕ) → n < h → pos (n + 1) +ℤ pos 0 +ℤ pos (h - (n + 1)) ≡ pos h
unfolding ◌+ℤ◌
total_burst n h lt = ground arith

check_pruned-Conserves :
    (m : InMemoryLimiter) (r : Request) (ts : List ℤ) (n s h : ℕ)
    → length ts ≡ n
    → r.soft_limit ≡ pos s
    → r.hard_limit ≡ pos h
    → s ≤ h
    → h < two63
    → Conserves m r (check_pruned m r ts)
unfolding check_pruned
check_pruned-Conserves m r ts n s h en es eh le lt =
    rw (en, es, eh)
      (elim (Bool-cases (ltb_ℤ (pos n) (pos s))) [
        | inl low ↦ rw low (
            rw
              (
                add64_pos n 1 (ground arith),
                sub64_pos s (n + 1) (ground arith) (omega arith),
                sub64_pos h s le lt,
              )
              (inl (refl, total_normal n s h (ground arith) le)))
        | inr full ↦
            rw full (elim (Bool-cases (ltb_ℤ (pos n) (pos h) && not m.global_burst_freeze)) [
              | inl room ↦ rw room (
                  rw
                    (add64_pos n 1 (ground arith), sub64_pos h (n + 1) (ground arith) (omega arith))
                    (inl (refl, total_burst n h (ground arith))))
              | inr none_left ↦
                  rw none_left (inr (refl, refl, refl, ground arith, ground arith, refl))
            ])
      ])

-- An admitted request and what is left of the two zones add up to the hard limit. A request that is
-- not admitted is blocked with nothing left, and leaves the limiter as it was: then the soft limit
-- is used up, and the hard one too unless burst traffic is frozen. The limits are in order and not
-- negative.
pub check-Conserves : (m : InMemoryLimiter) (r : Request) → AreLimits r → Conserves m r (check m r)
unfolding check
check-Conserves m r l =
    check_pruned-Conserves m r _ _ (pos_part r.soft_limit) (pos_part r.hard_limit) refl
      (nonneg-eq-pos r.soft_limit l.soft_pos)
      (nonneg-eq-pos r.hard_limit (nonneg_of_le r.soft_limit r.hard_limit l.soft_pos l.ordered))
      (omega (arith, nonneg_of_le r.soft_limit r.hard_limit l.soft_pos l.ordered)) (omega arith)
