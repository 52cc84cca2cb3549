-- ===== src/RateLimit/Window/Rate.antt =====
-- The promise of a sliding window: no span of the window's length admits more than the limit.
use mathlib.Core.List.{append_assoc, append-nil}
use aegis_pulse.Base.{
  ℕ, ◌+◌, ◌≡◌, ◌≤◌, refl, String, true, false, ◌&&◌, List, [], ◌∷◌, ◌++◌, if◌then◌else◌, leb_ℤ, ℤ,
  pos, ◌≤ℤ◌, ◌-ℤ◌, -ℤ_parts, length, length-append, arith, str_eq, eq_iff, Bool-cases, inl, inr,
}
use aegis_pulse.RateLimit.Result.{RateLimitResult}
use aegis_pulse.RateLimit.Window.Defs.{
  InMemoryLimiter, Request, new_in_memory_limiter, check, set_global_burst_freeze,
}
use aegis_pulse.RateLimit.Window.Prune.{keep, AllTo, AllTo-mono, AllTo-snoc, keep-append}
use aegis_pulse.RateLimit.Window.Reference.{
  Event, request, freeze, run, Reference, times, is_admitted, in_window, reference_check, AreTimely,
  IsSound,
}
use aegis_pulse.RateLimit.Window.Refinement.{
  Refines, Refines-new, Refines-check, check-status, times-check,
}

-- The times at which requests of a key were admitted.
abbrev pub admitted : String → List Event → List RateLimitResult → List ℤ
admitted k (request r ∷ es) (a ∷ answers) =
    let rest = admitted k es answers in
    if is_admitted a.status && str_eq r.api_key k then r.now ∷ rest else rest
admitted k (freeze b ∷ es) answers = admitted k es answers
admitted k _ _ = []

abbrev pub until : ℤ → List ℤ → List ℤ
until t [] = []
until t (u ∷ ts) = let rest = until t ts in if leb_ℤ u t then u ∷ rest else rest

-- How many of the times lie in the span of length `w` that ends at `t`: after t - w, up to t.
abbrev pub in_span : ℤ → ℤ → List ℤ → ℕ
in_span w t ts = length (keep (t -ℤ w) (until t ts))

-- No request of the key has a limit above `n`.
abbrev pub AreWithin : ℕ → String → List Event → Type 0
AreWithin n k [] = Unit
AreWithin n k (request r ∷ es) =
    (r.api_key ≡ k → (r.soft_limit ≤ℤ pos n) × (r.hard_limit ≤ℤ pos n)) × AreWithin n k es
AreWithin n k (freeze b ∷ es) = AreWithin n k es

until_all : (t : ℤ) (ts : List ℤ) → AllTo t ts → until t ts ≡ ts
until_all t [] h = refl
until_all t (u ∷ ts) h = ground (arith, until_all t ts h.1)

until-append : (t : ℤ) (xs ys : List ℤ) → until t (xs ++ ys) ≡ until t xs ++ until t ys
until-append t [] ys = refl
until-append t (x ∷ xs) ys = ground (arith, until-append t xs ys)

length-keep_mono : (m n : ℤ) (ts : List ℤ) → m ≤ℤ n → length (keep n ts) ≤ length (keep m ts)
length-keep_mono m n [] h = omega arith
length-keep_mono m n (t ∷ ts) h = ground (arith, length-keep_mono m n ts h)

in_span-early :
    (w t u : ℤ) (ts : List ℤ) → leb_ℤ u t ≡ false → in_span w t (ts ++ u ∷ []) ≡ in_span w t ts
in_span-early w t u ts h = rw until-append (rw (h, append-nil) refl)

-- A new admission that is the last leaves every span within `n`.
in_span-snoc :
    (n : ℕ) (w u : ℤ) (ts : List ℤ)
    → AllTo u ts
    → length (keep (u -ℤ w) ts) + 1 ≤ n
    → ((t : ℤ) → in_span w t ts ≤ n)
    → (t : ℤ) → in_span w t (ts ++ u ∷ []) ≤ n
in_span-snoc n w u ts upto room ih t = elim (Bool-cases (leb_ℤ u t)) [
  | inl late ↦
      rw (until_all t (ts ++ u ∷ []) (AllTo-mono u t _ (ground arith) (AllTo-snoc u ts upto))) (
        rw keep-append (
          rw length-append
            (ground (arith, length-keep_mono (u -ℤ w) (t -ℤ w) ts, -ℤ_parts u w, -ℤ_parts t w))))
  | inr early ↦ rw (in_span-early w t u ts early) (ih t)
]

admitted_room :
    (s : Reference) (r : Request) (n : ℕ)
    → is_admitted (reference_check s r).1.0 ≡ true
    → r.soft_limit ≤ℤ pos n
    → r.hard_limit ≤ℤ pos n
    → in_window s r + 1 ≤ n
unfolding reference_check
admitted_room s r n h hs hh = ground arith

module _ (window : String → ℤ) (n : ℕ) (k : String) where
  -- The span bound of a log, and that the log is not ahead of the clock.
  record IsBounded (last : ℤ) (ts : List ℤ) : Type 0 where
    upto : AllTo last ts
    bound : (t : ℤ) → in_span (window k) t ts ≤ n

  IsBounded-later : (a b : ℤ) (ts : List ℤ) → a ≤ℤ b → IsBounded a ts → IsBounded b ts
  IsBounded-later a b ts le h = record { upto = AllTo-mono a b ts le h.upto; bound = h.bound }

  IsBounded-check :
      (last : ℤ) (s : Reference) (r : Request)
      → IsSound window r
      → last ≤ℤ r.now
      → (r.api_key ≡ k → (r.soft_limit ≤ℤ pos n) × (r.hard_limit ≤ℤ pos n))
      → is_admitted (reference_check s r).1.0 && str_eq r.api_key k ≡ true
      → IsBounded last (times k s.history)
      → IsBounded r.now (times k s.history ++ r.now ∷ [])
  IsBounded-check last s r sound le limits hit h =
      let e : r.api_key ≡ k = (eq_iff r.api_key k).0 (ground arith) in
      let upto : AllTo r.now (times k s.history) = AllTo-mono last r.now _ le h.upto in
      let room : in_window s r + 1 ≤ n =
        admitted_room s r n (ground arith) (limits e).0 (limits e).1 in
      record {
        upto = AllTo-snoc r.now _ upto;
        bound = in_span-snoc n (window k) r.now _ upto (rw (← e, ← sound.window_of) room) h.bound;
      }

  span_step :
      (last : ℤ) (m : InMemoryLimiter) (s : Reference) (r : Request) (rest : List ℤ) (t : ℤ)
      → Refines window last m s
      → IsSound window r
      → last ≤ℤ r.now
      → (r.api_key ≡ k → (r.soft_limit ≤ℤ pos n) × (r.hard_limit ≤ℤ pos n))
      → IsBounded last (times k s.history)
      → (IsBounded r.now (times k (reference_check s r).0.history)
          → in_span (window k) t (times k (reference_check s r).0.history ++ rest) ≤ n)
      → in_span (window k) t (
          times k s.history
          ++ (if is_admitted (check m r).1.status && str_eq r.api_key k
              then r.now ∷ rest
              else rest))
        ≤ n
  span_step last m s r rest t same sound later limits h ih =
      let go = rw (times-check same sound later k) at ih in
      rw (check-status same sound later)
        (elim (Bool-cases (is_admitted (reference_check s r).1.0 && str_eq r.api_key k)) [
          | inl hit ↦
              let next = rw hit at go in
              rw hit (
                rw (append_assoc (times k s.history) (r.now ∷ []) rest) at
                  (next (IsBounded-check last s r sound later limits hit h)))
          | inr miss ↦ rw miss ((rw miss at go) (IsBounded-later last r.now _ later h))
        ])

  run-IsBounded :
      (last : ℤ) (m : InMemoryLimiter) (s : Reference) (es : List Event)
      → Refines window last m s
      → AreTimely window last es
      → AreWithin n k es
      → IsBounded last (times k s.history)
      → (t : ℤ) → in_span (window k) t (times k s.history ++ admitted k es (run m es).1) ≤ n
  unfolding run set_global_burst_freeze
  run-IsBounded last m s [] same timely within h t = rw append-nil (h.bound t)
  run-IsBounded last m s (freeze b ∷ es) same timely within h t =
      run-IsBounded last _ (record s { frozen = b }) es
        (record { freezes = refl; sorted = same.sorted; upto = same.upto; live = same.live }) timely
        within h t
  run-IsBounded last m s (request r ∷ es) same timely within h t =
      let (sound, later, rest) = timely in
      span_step last m s r (admitted k es (run (check m r).0 es).1) t same sound later within.0 h
        (λ b.
          run-IsBounded r.now (check m r).0 (reference_check s r).0 es
            (Refines-check same sound later) rest within.1 b t)

-- From an empty limiter, on every history of requests and freezes in which the clock does not step
-- back, each key keeps to one window and nothing overflows: if no request of a key has a soft or a
-- hard limit above `n`, then no span of the length of the key's window, wherever it ends, holds more
-- than `n` admitted requests of the key.
pub run_rate :
    (window : String → ℤ) (start : ℤ) (es : List Event) (n : ℕ) (k : String) (t : ℤ)
    → AreTimely window start es
    → AreWithin n k es
    → in_span (window k) t (admitted k es (run new_in_memory_limiter es).1) ≤ n
run_rate window start es n k t timely within =
    run-IsBounded window n k start new_in_memory_limiter (record { history = []; frozen = false })
      es (Refines-new window start) timely within (record { upto = tt; bound = λ u. omega arith }) t
