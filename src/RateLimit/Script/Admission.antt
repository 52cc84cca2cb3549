-- ===== src/RateLimit/Script/Admission.antt =====
-- What the script leaves in the sorted sets, on a server whose clock shows the gateway's second.
use aegis_pulse.Base.{
  ◌≡◌, refl, ◌∙◌, String, Bool, false, List, [], ◌∷◌, ◌++◌, if◌then◌else◌, ltb_ℤ, ℤ, pos, ◌+ℤ◌,
  ◌-ℤ◌, ◌≤ℤ◌, length, str_eq, eq_refl, Text, arith, ap, Bool-cases, inl, inr,
}
use aegis_pulse.RateLimit.Window.Prune.{keep, AllFrom, AllTo, AllTo-keep}
use aegis_pulse.RateLimit.Script.Commands.{Commands, IsRedis, outside}
use aegis_pulse.RateLimit.Script.Defs.{ScriptCall, log_request, bill}

outside-keep : (thr : ℤ) (xs : List ℤ) → AllFrom (pos 0) xs → outside (pos 0) thr xs ≡ keep thr xs
outside-keep thr [] low = refl
outside-keep thr (x ∷ xs) (h, low) = ground (arith, outside-keep thr xs low)

module _ {S : Type 0} {redis : Commands S} {scores : ℤ → String → S → List ℤ}
    {is_member : ℤ → String → Text → S → Bool} (law : IsRedis redis scores is_member) where
  abbrev pub pruned : ScriptCall → S → S
  pruned c s = redis.zremrangebyscore c.now c.ratelimit_key (pos 0) (c.now -ℤ c.window) s

  -- The scores of the call's key that are in the window.
  abbrev pub window_of : ScriptCall → S → List ℤ
  window_of c s = keep (c.now -ℤ c.window) (scores c.now c.ratelimit_key s)

  module _ (c : ScriptCall) (s : S) (low : AllFrom (pos 0) (scores c.now c.ratelimit_key s)) where
    scores-pruned : scores c.now c.ratelimit_key (pruned c s) ≡ window_of c s
    scores-pruned =
        law.scores-zrem c.now c.now c.ratelimit_key c.ratelimit_key (pos 0) (c.now -ℤ c.window) s
          (omega arith)
        ∙ rw (eq_refl c.ratelimit_key) (outside-keep (c.now -ℤ c.window) _ low)

    pub zcard-pruned : redis.zcard c.now c.ratelimit_key (pruned c s) ≡ length (window_of c s)
    zcard-pruned = law.length-scores c.now c.ratelimit_key (pruned c s) ∙ ap length scores-pruned

    -- Pruning leaves the scores of the window, at every later time.
    pub scores-pruned_later :
        (at : ℤ) (j : String)
        → c.now ≤ℤ at
        → AllFrom (pos 0) (scores at j s)
        → scores at j (pruned c s) ≡ (
            if str_eq c.ratelimit_key j
            then keep (c.now -ℤ c.window) (scores at j s)
            else scores at j s)
    scores-pruned_later at j later all =
        law.scores-zrem c.now at c.ratelimit_key j (pos 0) (c.now -ℤ c.window) s later
        ∙ rw (outside-keep (c.now -ℤ c.window) (scores at j s) all) refl

    -- An admitted request is the last of its set, which lives for one window from then on.
    pub scores-log_request :
        (at : ℤ) (j : String)
        → c.now ≤ℤ at
        → AllTo c.now (scores c.now c.ratelimit_key s)
        → is_member c.now c.ratelimit_key c.req_id (pruned c s) ≡ false
        → scores at j (log_request redis c.now c (pruned c s)) ≡ (
            if str_eq c.ratelimit_key j
            then (if ltb_ℤ at (c.now +ℤ c.window) then window_of c s ++ c.now ∷ [] else [])
            else scores at j s)
    scores-log_request at j later upto fresh =
        let k = c.ratelimit_key in
        let added =
          law.scores-zadd c.now k c.now c.req_id (pruned c s) fresh
            (rw scores-pruned (AllTo-keep c.now (c.now -ℤ c.window) _ upto)) in
        let lived =
          law.scores-expire c.now at k j c.window (redis.zadd c.now k c.now c.req_id (pruned c s))
            later in
        elim (Bool-cases (str_eq k j)) [
          | inl same ↦ rw (lived, same, added, scores-pruned) refl
          | inr other ↦
              rw (lived, other)
                (law.scores-zadd_other c.now at k j c.now c.req_id (pruned c s) other
                  ∙ law.scores-zrem c.now at k j (pos 0) (c.now -ℤ c.window) s later
                  ∙ rw other refl)
        ]

  pub scores-bill :
      (c : ScriptCall) (at : ℤ) (j : String) (t : S)
      → scores at j (bill redis c.now c t) ≡ scores at j t
  scores-bill c at j t =
      law.scores-xadd c.now at c.stream_key j _ _
      ∙ law.scores-hincrby c.now at c.billing_key j "units" (pos 1) t
