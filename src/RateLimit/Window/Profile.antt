-- ===== src/RateLimit/Window/Profile.antt =====
-- What a client sees that sends request after request within one window.
use mathlib.Core.List.{map-map}
use aegis_pulse.Base.{
  ℕ, zero, suc, ◌+◌, ◌≡◌, ◌≤◌, refl, ap, sym, ap₂, subst, ◌∙◌, true, false, List, [], ◌∷◌, ◌++◌,
  map, eq_refl, if◌then◌else◌, ltb, ℤ, pos, ◌≤ℤ◌, ◌-ℤ◌, ltb_ℤ, length, length-append, arith,
  Bool-cases, inl, inr,
}
use aegis_pulse.RateLimit.Result.{RateLimitResult, Status, normal, burst, blocked}
use aegis_pulse.RateLimit.Window.Defs.{Request, new_in_memory_limiter}
use aegis_pulse.RateLimit.Window.Prune.{keep, AllFrom}
use aegis_pulse.RateLimit.Window.Reference.{
  Event, request, run, Reference, times, verdict, in_window, reference_check, reference_run,
  AreTimely,
}
use aegis_pulse.RateLimit.Window.Refinement.{times-append, run-eq-reference}

-- The same request at each of some seconds.
abbrev pub repeated : Request → List ℤ → List Event
repeated r [] = []
repeated r (t ∷ ts) = request (record r { now = t }) ∷ repeated r ts

-- What is promised to request `i` of a window, counted from 0.
abbrev pub promised : ℕ → ℕ → ℕ → Status
promised soft hard i = if ltb i soft then normal else if ltb i hard then burst else blocked

-- To `n` requests from request `i` on.
abbrev pub profile : ℕ → ℕ → ℕ → ℕ → List Status
profile soft hard zero i = []
profile soft hard (suc n) i = promised soft hard i ∷ profile soft hard n (i + 1)

-- Every second lies in the window that `start` opens.
abbrev pub AreClose : ℤ → ℤ → List ℤ → Type 0
AreClose start window [] = Unit
AreClose start window (t ∷ ts) =
    (start ≤ℤ t) × (ltb_ℤ (t -ℤ window) start ≡ true) × AreClose start window ts

abbrev statuses : List (Status × ℤ) → List Status
statuses = map λ v. v.0

keep-close : (b start : ℤ) (us : List ℤ) → ltb_ℤ b start ≡ true → AllFrom start us → keep b us ≡ us
keep-close b start [] h from = refl
keep-close b start (u ∷ us) h from = ground (arith, keep-close b start us h from.1)

AllFrom-snoc :
    (start t : ℤ) (us : List ℤ) → start ≤ℤ t → AllFrom start us → AllFrom start (us ++ t ∷ [])
AllFrom-snoc start t [] h from = (h, tt)
AllFrom-snoc start t (u ∷ us) h from = (from.0, AllFrom-snoc start t us h from.1)

module _ (r : Request) (soft hard : ℕ) (es : r.soft_limit ≡ pos soft) (eh : r.hard_limit ≡ pos hard)
    (ordered : soft ≤ hard) (start : ℤ) where
  -- Request `i` is due: the reference counts the requests before it, up to the hard limit.
  record IsDue (s : Reference) (i : ℕ) : Type 0 where
    thawed : s.frozen ≡ false
    counted : length (times r.api_key s.history) ≡ (if ltb i hard then i else hard)
    from : AllFrom start (times r.api_key s.history)

  in_window-close :
      (s : Reference) (i : ℕ) (t : ℤ)
      → IsDue s i
      → ltb_ℤ (t -ℤ r.window_sec) start ≡ true
      → in_window s (record r { now = t }) ≡ (if ltb i hard then i else hard)
  in_window-close s i t due close =
      ap length (keep-close (t -ℤ r.window_sec) start _ close due.from) ∙ due.counted

  verdict-promised :
      (i : ℕ)
      → (verdict false (pos soft) (pos hard) (if ltb i hard then i else hard)).0
        ≡ promised soft hard i
  verdict-promised i = ground arith

  abbrev asked : ℤ → Request
  asked t = record r { now = t }

  reference_check-verdict :
      (s : Reference) (i : ℕ) (t : ℤ)
      → IsDue s i
      → ltb_ℤ (t -ℤ r.window_sec) start ≡ true
      → (reference_check s (asked t)).1
        ≡ verdict false (pos soft) (pos hard) (if ltb i hard then i else hard)
  unfolding reference_check
  reference_check-verdict s i t due close =
      rw (due.thawed, es, eh, in_window-close s i t due close) refl

  -- It is kept in the history up to the hard limit.
  kept-room :
      (s : Reference) (i : ℕ) (t : ℤ)
      → IsDue s i
      → ltb_ℤ (t -ℤ r.window_sec) start ≡ true
      → ltb i hard ≡ true
      → (reference_check s (asked t)).0 ≡ record s { history = s.history ++ (r.api_key, t) ∷ [] }
  unfolding reference_check
  kept-room s i t due close room =
      rw (due.thawed, es, eh, in_window-close s i t due close, room) (ground arith)

  dropped-full :
      (s : Reference) (i : ℕ) (t : ℤ)
      → IsDue s i
      → ltb_ℤ (t -ℤ r.window_sec) start ≡ true
      → ltb i hard ≡ false
      → (reference_check s (asked t)).0 ≡ s
  unfolding reference_check
  dropped-full s i t due close full =
      rw (due.thawed, es, eh, in_window-close s i t due close, full) (ground arith)

  IsDue-kept :
      (s : Reference) (i : ℕ) (t : ℤ)
      → IsDue s i
      → start ≤ℤ t
      → ltb i hard ≡ true
      → IsDue (record s { history = s.history ++ (r.api_key, t) ∷ [] }) (i + 1)
  IsDue-kept s i t due later room =
      let grown : times r.api_key (s.history ++ (r.api_key, t) ∷ [])
          ≡ times r.api_key s.history ++ t ∷ [] =
        times-append r.api_key r.api_key t s.history ∙ rw (eq_refl r.api_key) refl in
      record {
        thawed = due.thawed;
        counted =
            ap length grown
            ∙ length-append (times r.api_key s.history) (t ∷ [])
            ∙ ground (arith, due.counted);
        from = subst (AllFrom start) (sym grown) (AllFrom-snoc start t _ later due.from);
      }

  IsDue-next :
      (s : Reference) (i : ℕ) (t : ℤ)
      → IsDue s i
      → start ≤ℤ t
      → ltb_ℤ (t -ℤ r.window_sec) start ≡ true
      → IsDue (reference_check s (asked t)).0 (i + 1)
  IsDue-next s i t due later close = elim (Bool-cases (ltb i hard)) [
    | inl room ↦
        subst (λ u. IsDue u (i + 1)) (sym (kept-room s i t due close room))
          (IsDue-kept s i t due later room)
    | inr full ↦
        subst (λ u. IsDue u (i + 1)) (sym (dropped-full s i t due close full))
          (record {
            thawed = due.thawed;
            counted = due.counted ∙ ground (arith, full);
            from = due.from;
          })
  ]

  reference_run-profile :
      (ts : List ℤ) (s : Reference) (i : ℕ)
      → IsDue s i
      → AreClose start r.window_sec ts
      → statuses (reference_run s (repeated r ts)) ≡ profile soft hard (length ts) i
  unfolding reference_run
  reference_run-profile [] s i due close = refl
  reference_run-profile (t ∷ ts) s i due (later, within, close) =
      ap₂ ◌∷◌
        (ap (λ (v : Status × ℤ). v.0) (reference_check-verdict s i t due within)
          ∙ verdict-promised i)
        (reference_run-profile ts (reference_check s (asked t)).0 (i + 1)
          (IsDue-next s i t due later within) close)

-- From an empty limiter, a request that is repeated at seconds which do not step back and which all lie
-- in the window of the first, with limits in order and nothing that overflows: the first `soft`
-- requests get NORMAL, those from there up to the hard limit get BURST, and every later one BLOCKED.
pub run-profile :
    (r : Request) (soft hard : ℕ) (start : ℤ) (ts : List ℤ)
    → r.soft_limit ≡ pos soft
    → r.hard_limit ≡ pos hard
    → soft ≤ hard
    → AreTimely (λ k. r.window_sec) start (repeated r ts)
    → AreClose start r.window_sec ts
    → map (λ a. a.status) (run new_in_memory_limiter (repeated r ts)).1
      ≡ profile soft hard (length ts) 0
run-profile r soft hard start ts es eh ordered timely close =
    sym (
      map-map (λ (v : Status × ℤ). v.0) (λ (a : RateLimitResult). (a.status, a.count))
        (run new_in_memory_limiter (repeated r ts)).1)
    ∙ ap statuses (run-eq-reference (λ k. r.window_sec) start (repeated r ts) timely)
    ∙ reference_run-profile r soft hard es eh ordered start ts _ 0
        (record { thawed = refl; counted = ground arith; from = tt }) close
