-- ===== src/RateLimit/Window/Refinement.antt =====
-- The limiter answers as its reference does, on every history of calls whose clock does not step
-- back.
use aegis_pulse.Base.{
  ◌≡◌, refl, sym, ◌∙◌, ap, ap₂, String, false, ◌&&◌, List, [], ◌∷◌, ◌++◌, map, if◌then◌else◌, ℤ,
  ◌-ℤ◌, ◌≤ℤ◌, -ℤ_parts, sub64, sub64_exact, add64, IsInt64, length, str_eq, eq_iff, lookup,
  lookup-insert, arith, Bool-cases, inl, inr, ◌+ℤ◌, wrap64,
}
use aegis_pulse.RateLimit.Result.{RateLimitResult, Status}
use aegis_pulse.RateLimit.Window.Defs.{
  InMemoryLimiter, Request, stored, new_in_memory_limiter, set_global_burst_freeze, check_pruned,
  check, prune,
}
use aegis_pulse.RateLimit.Window.Reference.{
  Event, request, freeze, run, Reference, times, verdict, is_admitted, reference_check,
  reference_run, IsSound, AreTimely,
}
use aegis_pulse.RateLimit.Window.Prune.{
  keep, IsSorted, AllTo, prune-keep, keep-append, keep-keep, IsSorted-keep, AllTo-keep, AllTo-mono,
  IsSorted-snoc, AllTo-snoc,
}

pub record Refines (window : String → ℤ) (last : ℤ) (m : InMemoryLimiter) (s : Reference)
    : Type 0 where
  pub freezes : m.global_burst_freeze ≡ s.frozen
  pub sorted : (k : String) → IsSorted (stored k m)
  pub upto : (k : String) → AllTo last (stored k m)
  pub live :
      (k : String) (n : ℤ)
      → last -ℤ window k ≤ℤ n
      → keep n (stored k m) ≡ keep n (times k s.history)

pub times-append :
    (k j : String) (t : ℤ) (h : List (String × ℤ))
    → times k (h ++ (j, t) ∷ []) ≡ (if str_eq j k then times k h ++ t ∷ [] else times k h)
times-append k j t [] = refl
times-append k j t ((i, u) ∷ h) = ground (arith, times-append k j t h)

-- The answer depends on how many timestamps are left.
check_pruned-verdict :
    (m : InMemoryLimiter) (r : Request) (ts : List ℤ)
    → IsInt64 r.soft_limit
    → IsInt64 r.hard_limit
    → let a = (check_pruned m r ts).1 in
      ◌≡◌ {A = Status × ℤ}
        (a.status, a.count)
        (verdict m.global_burst_freeze r.soft_limit r.hard_limit (length ts))
unfolding check_pruned add64 wrap64 ◌+ℤ◌
check_pruned-verdict m r ts hs hh = ground arith

stored-check_pruned :
    (m : InMemoryLimiter) (r : Request) (ts : List ℤ) (j : String)
    → stored j (check_pruned m r ts).0 ≡ (
        if is_admitted (check_pruned m r ts).1.status && str_eq r.api_key j
        then ts ++ r.now ∷ []
        else stored j m)
unfolding check_pruned
stored-check_pruned m r ts j =
    ground (arith, lookup-insert r.api_key j (ts ++ r.now ∷ []) m.windows)

freeze-check_pruned :
    (m : InMemoryLimiter) (r : Request) (ts : List ℤ)
    → (check_pruned m r ts).0.global_burst_freeze ≡ m.global_burst_freeze
unfolding check_pruned
freeze-check_pruned m r ts = ground arith

module _ {window : String → ℤ} {last : ℤ} {m : InMemoryLimiter} {s : Reference} {r : Request}
    (same : Refines window last m s) (sound : IsSound window r) (later : last ≤ℤ r.now) where
  bound_later : (k : String) (n : ℤ) → r.now -ℤ window k ≤ℤ n → last -ℤ window k ≤ℤ n
  bound_later k n h = omega (arith, -ℤ_parts last (window k), -ℤ_parts r.now (window k))

  pruned :
      prune (sub64 r.now r.window_sec) (stored r.api_key m)
      ≡ keep (r.now -ℤ r.window_sec) (stored r.api_key m)
  pruned = rw (sub64_exact _ _ sound.start) (prune-keep _ _ (same.sorted r.api_key))

  pruned_times :
      keep (r.now -ℤ r.window_sec) (stored r.api_key m)
      ≡ keep (r.now -ℤ r.window_sec) (times r.api_key s.history)
  pruned_times =
      same.live r.api_key (r.now -ℤ r.window_sec)
        (bound_later r.api_key (r.now -ℤ r.window_sec) (rw sound.window_of (omega arith)))

  pub check-verdict :
      ◌≡◌ {A = Status × ℤ} ((check m r).1.status, (check m r).1.count) (reference_check s r).1
  unfolding check reference_check
  check-verdict =
      rw pruned
        (check_pruned-verdict m r _ sound.soft sound.hard ∙ rw (same.freezes, pruned_times) refl)

  pub check-status : (check m r).1.status ≡ (reference_check s r).1.0
  check-status = ap (λ (v : Status × ℤ). v.0) check-verdict

  stored-check :
      (j : String)
      → stored j (check m r).0 ≡ (
          if is_admitted (reference_check s r).1.0 && str_eq r.api_key j
          then keep (r.now -ℤ r.window_sec) (stored r.api_key m) ++ r.now ∷ []
          else stored j m)
  unfolding check
  stored-check j = rw (← check-status) (unfold check in rw pruned (stored-check_pruned m r _ j))

  pub times-check :
      (j : String)
      → times j (reference_check s r).0.history ≡ (
          if is_admitted (reference_check s r).1.0 && str_eq r.api_key j
          then times j s.history ++ r.now ∷ []
          else times j s.history)
  unfolding reference_check
  times-check j = ground (arith, times-append j r.api_key r.now s.history)

  kept :
      (k : String) (n : ℤ)
      → r.api_key ≡ k
      → r.now -ℤ window k ≤ℤ n
      → keep n (keep (r.now -ℤ r.window_sec) (stored r.api_key m)) ≡ keep n (times k s.history)
  kept k n e h =
      keep-keep (r.now -ℤ r.window_sec) n _ (rw (sound.window_of, e) h)
      ∙ rw e (same.live k n (bound_later k n h))

  appended :
      (k : String) (n : ℤ)
      → r.api_key ≡ k
      → r.now -ℤ window k ≤ℤ n
      → keep n (keep (r.now -ℤ r.window_sec) (stored r.api_key m) ++ r.now ∷ [])
        ≡ keep n (times k s.history ++ r.now ∷ [])
  appended k n e h = rw (keep-append n, kept k n e h) (sym (keep-append n (times k s.history) _))

  live-check :
      (k : String) (n : ℤ)
      → r.now -ℤ window k ≤ℤ n
      → keep n (stored k (check m r).0) ≡ keep n (times k (reference_check s r).0.history)
  live-check k n h =
      rw (stored-check k, times-check k)
        (elim (Bool-cases (is_admitted (reference_check s r).1.0 && str_eq r.api_key k)) [
          | inl hit ↦ rw hit (appended k n ((eq_iff r.api_key k).0 (ground arith)) h)
          | inr miss ↦ rw miss (same.live k n (bound_later k n h))
        ])

  IsSorted-check : (k : String) → IsSorted (stored k (check m r).0)
  IsSorted-check k = rw (stored-check k) (
      ground (
        arith,
        same.sorted k,
        IsSorted-snoc r.now _ (IsSorted-keep (r.now -ℤ r.window_sec) _ (same.sorted r.api_key)) (
            AllTo-keep r.now (r.now -ℤ r.window_sec) _
              (AllTo-mono last r.now _ later (same.upto r.api_key))),
      ))

  upto-check : (k : String) → AllTo r.now (stored k (check m r).0)
  upto-check k = rw (stored-check k) (
      ground (
        arith,
        AllTo-mono last r.now _ later (same.upto k),
        AllTo-snoc r.now _ (
            AllTo-keep r.now (r.now -ℤ r.window_sec) _
              (AllTo-mono last r.now _ later (same.upto r.api_key))),
      ))

  frozen-check : (check m r).0.global_burst_freeze ≡ (reference_check s r).0.frozen
  unfolding check reference_check
  frozen-check = freeze-check_pruned m r _ ∙ ground (arith, same.freezes)

  pub Refines-check : Refines window r.now (check m r).0 (reference_check s r).0
  Refines-check = record {
    freezes = frozen-check;
    sorted = IsSorted-check;
    upto = upto-check;
    live = live-check;
  }

abbrev pub observed : List RateLimitResult → List (Status × ℤ)
observed = map λ a. (a.status, a.count)

run-Refines :
    (window : String → ℤ) (last : ℤ) (m : InMemoryLimiter) (s : Reference) (es : List Event)
    → Refines window last m s
    → AreTimely window last es
    → observed (run m es).1 ≡ reference_run s es
unfolding run reference_run set_global_burst_freeze
run-Refines window last m s [] same timely = refl
run-Refines window last m s (request r ∷ es) same timely =
    let (sound, later, rest) = timely in
    ap₂ ◌∷◌ (check-verdict same sound later) (
      run-Refines window r.now (check m r).0 (reference_check s r).0 es
        (Refines-check same sound later) rest)
run-Refines window last m s (freeze b ∷ es) same timely =
    run-Refines window last _ _ es
      (record { freezes = refl; sorted = same.sorted; upto = same.upto; live = same.live }) timely

pub Refines-new :
    (window : String → ℤ) (start : ℤ)
    → Refines window start new_in_memory_limiter (record { history = []; frozen = false })
unfolding new_in_memory_limiter lookup
Refines-new window start = record {
  freezes = refl;
  sorted = λ k. tt;
  upto = λ k. tt;
  live = λ k n h. refl;
}

-- From an empty limiter, on every history of requests and freezes in which the clock does not step
-- back, each key keeps to one window and nothing overflows: each request gets the status and the
-- count that the reference gives, which prunes nothing and counts every admitted request of the key
-- that is younger than the window.
pub run-eq-reference :
    (window : String → ℤ) (start : ℤ) (es : List Event)
    → AreTimely window start es
    → observed (run new_in_memory_limiter es).1
      ≡ reference_run (record { history = []; frozen = false }) es
run-eq-reference window start es timely =
    run-Refines window start _ _ es (Refines-new window start) timely
