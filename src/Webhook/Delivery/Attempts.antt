-- ===== src/Webhook/Delivery/Attempts.antt =====
-- How a delivery ends.
use aegis_pulse.Base.{
  ℕ, zero, suc, ◌+◌, ◌≡◌, ◌≤◌, ◌<◌, ◌⊎◌, refl, inl, inr, Bool, true, false, ◌&&◌, Option, none,
  some, ltb, arith, Bool-cases, ℕ_discrete, ap, ◌∙◌, ◌-◌,
}
use aegis_pulse.Clock.{Duration}
use aegis_pulse.Config.Types.{WebhooksConfig}
use aegis_pulse.Webhook.Delivery.Defs.{
  Reply, Outcome, delivered, cancelled, exhausted, is_ok, attempts, max_retries, base_delay,
  deliver,
}

-- Attempts `from` up to, and not with, `to` were made and failed.
abbrev pub AllFail : (ℕ → Reply) → ℕ → ℕ → Type 0
AllFail reply from to = (i : ℕ) → from ≤ i → i < to → is_ok (reply i) ≡ false

-- The reply of the last attempt, of `n` from `from`.
abbrev pub last_reply : (ℕ → Reply) → ℕ → ℕ → Option Reply → Option Reply
last_reply reply from zero last = last
last_reply reply from (suc n) last = some (reply (from + n))

-- How a run of attempts from `from`, `n` of them, can end: at the first success, at a wait that the
-- context cuts short, or with every attempt failed.
abbrev pub Ends : (ℕ → Reply) → (ℕ → Bool) → ℕ → ℕ → Option Reply → Outcome → Type 0
Ends reply is_done from n last o =
    ((i : ℕ) × (from ≤ i)
      × (i < from + n)
      × (o ≡ delivered)
      × (is_ok (reply i) ≡ true)
      × AllFail reply from i)
    ⊎ ((i : ℕ) × (from ≤ i)
        × (i < from + n)
        × (o ≡ cancelled)
        × (is_done i ≡ true)
        × AllFail reply from i)
    ⊎ ((o ≡ exhausted (last_reply reply from n last)) × AllFail reply from (from + n))

AllFail-extend :
    (reply : ℕ → Reply) (a b : ℕ)
    → is_ok (reply a) ≡ false
    → AllFail reply (a + 1) b
    → AllFail reply a b
AllFail-extend reply a b h rest i le lt = elim (ℕ_discrete a i) [
  | yes same ↦ rw (← same) h
  | no other ↦ rest i (omega arith) lt
]

last_reply-suc :
    (reply : ℕ → Reply) (from n : ℕ) (last : Option Reply)
    → last_reply reply (from + 1) n (some (reply from)) ≡ last_reply reply from (suc n) last
last_reply-suc reply from zero last = ap (λ (i : ℕ). some (reply i)) (omega arith)
last_reply-suc reply from (suc n) last = ap (λ (i : ℕ). some (reply i)) (omega arith)

Ends-later :
    (reply : ℕ → Reply) (is_done : ℕ → Bool) (from n : ℕ) (last : Option Reply) (o : Outcome)
    → is_ok (reply from) ≡ false
    → Ends reply is_done (from + 1) n (some (reply from)) o
    → Ends reply is_done from (suc n) last o
Ends-later reply is_done from n last o h (inl (i, le, lt, e, ok, fails)) =
    inl (i, omega arith, omega arith, e, ok, AllFail-extend reply from i h fails)
Ends-later reply is_done from n last o h (inr (inl (i, le, lt, e, d, fails))) =
    inr (inl (i, omega arith, omega arith, e, d, AllFail-extend reply from i h fails))
Ends-later reply is_done from n last o h (inr (inr (e, fails))) = inr (
    inr (
      e ∙ ap exhausted (last_reply-suc reply from n last),
      λ i le lt. AllFail-extend reply from (from + 1 + n) h fails i le (omega arith),
    ))

attempts-Ends :
    (reply : ℕ → Reply) (is_done : ℕ → Bool) (base : Duration) (n from : ℕ) (last : Option Reply)
    → Ends reply is_done from n last (attempts reply is_done base from n last).0
unfolding attempts
attempts-Ends reply is_done base zero from last = inr (inr (refl, λ i le lt. absurd (omega arith)))
attempts-Ends reply is_done base (suc n) from last =
    elim (Bool-cases (ltb 0 from && is_done from)) [
      | inl cut ↦ rw cut (
          inr (
            inl (
              from,
              omega arith,
              omega arith,
              refl,
              ground arith,
              λ i le lt. absurd (omega arith),
            )))
      | inr go ↦ rw go (elim (Bool-cases (is_ok (reply from))) [
        | inl ok ↦
            rw ok (inl (from, omega arith, omega arith, refl, ok, λ i le lt. absurd (omega arith)))
        | inr bad ↦ rw bad (
            Ends-later reply is_done from n last _ bad
              (attempts-Ends reply is_done base n (from + 1) (some (reply from))))
      ])
    ]

max_retries_pos : (cfg : WebhooksConfig) → 1 ≤ max_retries cfg
unfolding max_retries
max_retries_pos cfg = ground arith

last_reply_pos :
    (reply : ℕ → Reply) (n : ℕ) → 1 ≤ n → last_reply reply 0 n none ≡ some (reply (n - 1))
last_reply_pos reply zero h = absurd (omega arith)
last_reply_pos reply (suc n) h = ap (λ (i : ℕ). some (reply i)) (omega arith)

Ends-exhausted :
    (reply : ℕ → Reply) (is_done : ℕ → Bool) (n : ℕ) (o : Outcome)
    → 1 ≤ n
    → Ends reply is_done 0 n none o
    → (last : Option Reply) → o ≡ exhausted last
    → last ≡ some (reply (n - 1))
Ends-exhausted reply is_done n o h (inl (i, le, lt, e, ok, fails)) last x = cc
Ends-exhausted reply is_done n o h (inr (inl (i, le, lt, e, d, fails))) last x = cc
Ends-exhausted reply is_done n o h (inr (inr (e, fails))) last x = cc (last_reply_pos reply n h)

-- A delivery makes one to `max_retries` attempts and ends in one of three ways: delivered by the
-- first attempt that gets a 2xx answer; cancelled in a wait, all attempts before it failed; or
-- exhausted, with all `max_retries` attempts failed, and then the last reply is at hand.
pub deliver-Ends :
    (reply : ℕ → Reply) (is_done : ℕ → Bool) (cfg : WebhooksConfig)
    → (1 ≤ max_retries cfg)
      × Ends reply is_done 0 (max_retries cfg) none (deliver reply is_done cfg).0
      × ((last : Option Reply)
          → (deliver reply is_done cfg).0 ≡ exhausted last
          → last ≡ some (reply (max_retries cfg - 1)))
unfolding deliver
deliver-Ends reply is_done cfg =
    let ends = attempts-Ends reply is_done (base_delay cfg) (max_retries cfg) 0 none in
    (
      max_retries_pos cfg,
      ends,
      Ends-exhausted reply is_done (max_retries cfg) _ (max_retries_pos cfg) ends,
    )
