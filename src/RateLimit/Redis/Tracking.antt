-- ===== src/RateLimit/Redis/Tracking.antt =====
-- The sorted sets of Redis and the history of the reference, request by request.
use aegis_pulse.Base.{
  ◌≡◌, refl, sym, ◌∙◌, ap, String, Bool, true, false, List, [], ◌∷◌, ◌++◌, if◌then◌else◌, ltb_ℤ, ℤ,
  pos, ◌+ℤ◌, ◌-ℤ◌, ◌≤ℤ◌, length, str_eq, eq_iff, arith, Text, if-keeps, Bool-cases, inl, inr,
  -ℤ_parts, +ℤ_parts,
}
use aegis_pulse.RateLimit.Window.Prune.{
  keep, AllFrom, AllTo, AllTo-keep, AllTo-mono, AllTo-snoc, keep-append, keep-keep,
}
use aegis_pulse.RateLimit.Window.Reference.{Reference, times}
use aegis_pulse.RateLimit.Script.{ScriptCall, log_request}
use aegis_pulse.RateLimit.Script.Commands.{Commands, IsRedis}
use aegis_pulse.RateLimit.Script.Admission.{
  pruned, window_of, zcard-pruned, scores-pruned_later, scores-log_request,
}
use aegis_pulse.RateLimit.Redis.Defs.{ratelimit_key}
use aegis_pulse.RateLimit.Redis.Agreement.{str_eq-ratelimit_key}

AllFrom-keep : (b m : ℤ) (ts : List ℤ) → AllFrom b ts → AllFrom b (keep m ts)
AllFrom-keep b m [] h = tt
AllFrom-keep b m (t ∷ ts) h = ground (arith, AllFrom-keep b m ts h.1)

AllFrom-snoc : (b t : ℤ) (ts : List ℤ) → AllFrom b ts → b ≤ℤ t → AllFrom b (ts ++ t ∷ [])
AllFrom-snoc b t [] h le = (le, tt)
AllFrom-snoc b t (u ∷ ts) h le = (h.0, AllFrom-snoc b t ts h.1 le)

keep-none : (b n : ℤ) (ts : List ℤ) → AllTo b ts → b ≤ℤ n → keep n ts ≡ []
keep-none b n [] h le = refl
keep-none b n (t ∷ ts) h le = ground (arith, keep-none b n ts h.1)

keep-pruned :
    (b : Bool) (m n : ℤ) (ts : List ℤ)
    → (b ≡ true → m ≤ℤ n)
    → keep n (if b then keep m ts else ts) ≡ keep n ts
keep-pruned true m n ts h = keep-keep m n ts (h refl)
keep-pruned false m n ts h = refl

keep-logged :
    (lives : Bool) (m n t : ℤ) (ts : List ℤ)
    → m ≤ℤ n
    → AllTo t ts
    → (lives ≡ false → t ≤ℤ n)
    → keep n (if lives then keep m ts ++ t ∷ [] else []) ≡ keep n (ts ++ t ∷ [])
keep-logged true m n t ts le upto past =
    rw (keep-append n (keep m ts), keep-append n ts, keep-keep m n ts le) refl
keep-logged false m n t ts le upto past = sym (keep-none t n _ (AllTo-snoc t ts upto) (past refl))

module _ {S : Type 0} {redis : Commands S} {scores : ℤ → String → S → List ℤ}
    {is_member : ℤ → String → Text → S → Bool} (law : IsRedis redis scores is_member)
    (window : String → ℤ) where
  -- The sorted set of a key holds, of every window from `last` on, the requests of the history.
  pub record Tracks (last : ℤ) (s : S) (h : List (String × ℤ)) : Type 0 where
    pub low : (k : String) (at : ℤ) → last ≤ℤ at → AllFrom (pos 0) (scores at (ratelimit_key k) s)
    pub upto : (k : String) (at : ℤ) → last ≤ℤ at → AllTo last (scores at (ratelimit_key k) s)
    pub past : (k : String) → AllTo last (times k h)
    pub live :
        (k : String) (at n : ℤ)
        → last ≤ℤ at
        → at -ℤ window k ≤ℤ n
        → keep n (scores at (ratelimit_key k) s) ≡ keep n (times k h)

  -- Only the scores of a store count.
  pub Tracks-same :
      (last : ℤ) (s t : S) (h : List (String × ℤ))
      → ((at : ℤ) (j : String) → scores at j t ≡ scores at j s)
      → Tracks last s h
      → Tracks last t h
  Tracks-same last s t h same tracks = record {
    low = λ k at le. rw same (tracks.low k at le);
    upto = λ k at le. rw same (tracks.upto k at le);
    past = tracks.past;
    live = λ k at n le b. rw same (tracks.live k at n le b);
  }

  module _ (c : ScriptCall) (k : String) (last : ℤ) (s : S) (ref : Reference)
      (tracks : Tracks last s ref.history) (key : c.ratelimit_key ≡ ratelimit_key k)
      (width : c.window ≡ window k) (later : last ≤ℤ c.now) (epoch : pos 0 ≤ℤ last) where
    live_window : window_of law c s ≡ keep (c.now -ℤ c.window) (times k ref.history)
    live_window = rw (key, width) (tracks.live k c.now (c.now -ℤ window k) later (omega arith))

    AllFrom-window : AllFrom (pos 0) (scores c.now c.ratelimit_key s)
    AllFrom-window = rw key (tracks.low k c.now later)

    AllTo-window : AllTo c.now (scores c.now c.ratelimit_key s)
    AllTo-window = rw key (AllTo-mono last c.now _ later (tracks.upto k c.now later))

    pub counted :
        redis.zcard c.now c.ratelimit_key (pruned law c s)
        ≡ length (keep (c.now -ℤ c.window) (times k ref.history))
    counted = zcard-pruned law c s AllFrom-window ∙ ap length live_window

    module _ (at : ℤ) (j : String) (after : c.now ≤ℤ at) where
      -- The set of a key after a request that is not admitted.
      scores-refused : scores at (ratelimit_key j) (pruned law c s) ≡ (
          if str_eq k j
          then keep (c.now -ℤ c.window) (scores at (ratelimit_key j) s)
          else scores at (ratelimit_key j) s)
      scores-refused =
          scores-pruned_later law c s AllFrom-window at (ratelimit_key j) after
            (tracks.low j at (omega arith))
          ∙ rw (key, str_eq-ratelimit_key k j) refl

      -- And after one that is.
      scores-logged :
          is_member c.now c.ratelimit_key c.req_id (pruned law c s) ≡ false
          → scores at (ratelimit_key j) (log_request redis c.now c (pruned law c s)) ≡ (
              if str_eq k j
              then (if ltb_ℤ at (c.now +ℤ c.window)
                  then keep (c.now -ℤ c.window) (times k ref.history) ++ c.now ∷ []
                  else [])
              else scores at (ratelimit_key j) s)
      scores-logged fresh =
          scores-log_request law c s AllFrom-window at (ratelimit_key j) after AllTo-window fresh
          ∙ rw (key, str_eq-ratelimit_key k j, ← key, live_window) refl

    -- The start of the window at a later time is no earlier.
    start_later :
        (at n : ℤ) (j : String)
        → c.now ≤ℤ at
        → at -ℤ window j ≤ℤ n
        → str_eq k j ≡ true
        → c.now -ℤ c.window ≤ℤ n
    start_later at n j after h same =
        rw (width, (eq_iff k j).0 same)
          (omega (arith, -ℤ_parts at (window j), -ℤ_parts c.now (window j)))

    AllTo-later : (j : String) (at : ℤ) → c.now ≤ℤ at → AllTo c.now (scores at (ratelimit_key j) s)
    AllTo-later j at after = AllTo-mono last c.now _ later (tracks.upto j at (omega arith))

    end_later :
        (at n : ℤ) (j : String)
        → at -ℤ window j ≤ℤ n
        → str_eq k j ≡ true
        → ltb_ℤ at (c.now +ℤ c.window) ≡ false
        → c.now ≤ℤ n
    end_later at n j h same out =
        let width' : c.window ≡ window j = width ∙ ap window ((eq_iff k j).0 same) in
        let bound : at -ℤ c.window ≤ℤ n = rw width' h in
        ground (arith, -ℤ_parts at c.window, +ℤ_parts c.now c.window)

    live-logged :
        (at n : ℤ) (j : String)
        → c.now ≤ℤ at
        → at -ℤ window j ≤ℤ n
        → keep n (
            if str_eq k j
            then (if ltb_ℤ at (c.now +ℤ c.window)
                then keep (c.now -ℤ c.window) (times k ref.history) ++ c.now ∷ []
                else [])
            else scores at (ratelimit_key j) s)
          ≡ keep n (if str_eq k j then times j ref.history ++ c.now ∷ [] else times j ref.history)
    live-logged at n j after h = elim (Bool-cases (str_eq k j)) [
      | inl same ↦
          rw (same, ← (eq_iff k j).0 same)
            (keep-logged (ltb_ℤ at (c.now +ℤ c.window)) (c.now -ℤ c.window) n c.now _
              (start_later at n j after h same) (AllTo-mono last c.now _ later (tracks.past k))
              (end_later at n j h same))
      | inr other ↦ rw other (tracks.live j at n (omega arith) h)
    ]

    module _ (h' : List (String × ℤ)) where
      -- A request that is not admitted.
      pub Tracks-refused :
          ((j : String) → times j h' ≡ times j ref.history) → Tracks c.now (pruned law c s) h'
      Tracks-refused same = record {
        low = λ j at after. rw (scores-refused at j after) (
            if-keeps (AllFrom (pos 0)) (str_eq k j) _ _
              (AllFrom-keep (pos 0) (c.now -ℤ c.window) _ (tracks.low j at (omega arith)))
              (tracks.low j at (omega arith)));
        upto = λ j at after. rw (scores-refused at j after) (
            if-keeps (AllTo c.now) (str_eq k j) _ _
              (AllTo-keep c.now (c.now -ℤ c.window) _ (AllTo-later j at after))
              (AllTo-later j at after));
        past = λ j. rw same (AllTo-mono last c.now _ later (tracks.past j));
        live = λ j at n after h.
            rw (scores-refused at j after, same j)
              (keep-pruned (str_eq k j) _ n _ (start_later at n j after h)
                ∙ tracks.live j at n (omega arith) h);
      }

      -- A request that is admitted, and logged.
      pub Tracks-logged :
          is_member c.now c.ratelimit_key c.req_id (pruned law c s) ≡ false
          → ((j : String)
              → times j h'
                ≡ (if str_eq k j then times j ref.history ++ c.now ∷ [] else times j ref.history))
          → Tracks c.now (log_request redis c.now c (pruned law c s)) h'
      Tracks-logged fresh grown = record {
        low = λ j at after. rw (scores-logged at j after fresh) (
            if-keeps (AllFrom (pos 0)) (str_eq k j) _ _
              (if-keeps (AllFrom (pos 0)) (ltb_ℤ at (c.now +ℤ c.window)) _ []
                (AllFrom-snoc (pos 0) c.now _
                  (rw (← live_window) (AllFrom-keep (pos 0) (c.now -ℤ c.window) _ AllFrom-window))
                  (omega arith))
                tt)
              (tracks.low j at (omega arith)));
        upto = λ j at after. rw (scores-logged at j after fresh) (
            if-keeps (AllTo c.now) (str_eq k j) _ _
              (if-keeps (AllTo c.now) (ltb_ℤ at (c.now +ℤ c.window)) _ []
                (AllTo-snoc c.now _ (
                  AllTo-keep c.now (c.now -ℤ c.window) _
                    (AllTo-mono last c.now _ later (tracks.past k))))
                tt)
              (AllTo-later j at after));
        past = λ j. rw (grown j) (
            if-keeps (AllTo c.now) (str_eq k j) _ _
              (AllTo-snoc c.now _ (AllTo-mono last c.now _ later (tracks.past j)))
              (AllTo-mono last c.now _ later (tracks.past j)));
        live = λ j at n after h.
            rw (scores-logged at j after fresh, grown j) (live-logged at n j after h);
      }
