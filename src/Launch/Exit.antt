-- ===== src/Launch/Exit.antt =====
-- The end of main: the calls after the dashboard or the signal, and then the deferred ones, of which a
-- panic stops the first and not the second.
use aegis_pulse.Base.{
  ℕ, suc, ◌+◌, ◌≡◌, sym, subst, ◌∙◌, Bool, true, false, ◌||◌, List, [], ◌∷◌, if◌then◌else◌, ltb,
  arith, Bool-cases, inl, inr,
}
use aegis_pulse.Cache.Store.{SmartCache, close}

pub data Action : Type 0 where
  cancel shutdown_server stop_engine close_cache close_repo close_redis : Action

-- Whether the channel of the engine is closed, and what else the actions do to the process. `panicked`
-- says that a panic is under way.
pub record Process : Type 0 where
  pub stop_ch_closed : Bool
  pub smart_cache : SmartCache
  pub repo_closed : Bool
  pub redis_closed : Bool
  pub cancelled : Bool
  pub panicked : Bool

-- Engine.Stop: closing a channel that is closed panics. That it cancels the poller, and waits for the
-- workers, is left out.
unfoldable pub stop : Process → Process
stop p =
    if p.stop_ch_closed then record p { panicked = true } else record p { stop_ch_closed = true }

abbrev pub act : Action → Process → Process
act cancel p = record p { cancelled = true }
act shutdown_server p = p
act stop_engine p = stop p
act close_cache p = record p { smart_cache = close p.smart_cache }
act close_repo p = record p { repo_closed = true }
act close_redis p = record p { redis_closed = true }

-- The body of a function ends at a panic.
unfoldable pub run_body : List Action → Process → Process
unfolding stop
run_body [] p = p
run_body (a ∷ body) p =
    let rest = run_body body (act a p) in if (act a p).panicked then act a p else rest

-- Every deferred call is made.
unfoldable pub run_deferred : List Action → Process → Process
unfolding stop
run_deferred [] p = p
run_deferred (a ∷ deferred) p = run_deferred deferred (act a p)

unfoldable pub leave : List Action → List Action → Process → Process
unfolding run_body run_deferred
leave body deferred p = run_deferred deferred (run_body body p)

-- The end of main with the dashboard or without it, and what it deferred, the last first. The cancelling
-- of the context of the shutdown is left out.
abbrev pub main_body : List Action
main_body = cancel ∷ shutdown_server ∷ stop_engine ∷ close_cache ∷ []

abbrev pub main_deferred : List Action
main_deferred = stop_engine ∷ close_cache ∷ close_repo ∷ close_redis ∷ cancel ∷ []

abbrev pub count_stops : List Action → ℕ
count_stops [] = 0
count_stops (stop_engine ∷ rest) = suc (count_stops rest)
count_stops (_ ∷ rest) = count_stops rest

-- The channel counts as one call that was made already.
abbrev made : Process → ℕ
made p = if p.stop_ch_closed then 1 else 0

run_deferred-panics :
    (deferred : List Action) (p : Process)
    → (run_deferred deferred p).panicked ≡ (p.panicked || ltb 1 (count_stops deferred + made p))
unfolding run_deferred
run_deferred-panics [] p = ground arith
run_deferred-panics (cancel ∷ ds) p = run_deferred-panics ds (act cancel p)
run_deferred-panics (shutdown_server ∷ ds) p = run_deferred-panics ds p
run_deferred-panics (stop_engine ∷ ds) p = run_deferred-panics ds (act stop_engine p) ∙ ground arith
run_deferred-panics (close_cache ∷ ds) p = run_deferred-panics ds (act close_cache p)
run_deferred-panics (close_repo ∷ ds) p = run_deferred-panics ds (act close_repo p)
run_deferred-panics (close_redis ∷ ds) p = run_deferred-panics ds (act close_redis p)

-- After `n` calls in all: a panic from the second on, and until then a channel that is closed by the
-- first.
abbrev Counts : Process → ℕ → Type 0
Counts q n = (q.panicked ≡ ltb 1 n) × (q.panicked ≡ false → made q ≡ n)

Counts-go :
    (p q : Process) (n : ℕ)
    → p.panicked ≡ false
    → Counts q n
    → Counts (if p.panicked then p else q) n
Counts-go p q n calm counts = subst (λ b. Counts (if b then p else q) n) (sym calm) counts

run_body-Counts :
    (body : List Action) (p : Process)
    → p.panicked ≡ false
    → Counts (run_body body p) (count_stops body + made p)
unfolding run_body
run_body-Counts [] p calm = (ground arith, λ e. omega arith)
run_body-Counts (cancel ∷ body) p calm =
    Counts-go (act cancel p) _ _ calm (run_body-Counts body (act cancel p) calm)
run_body-Counts (shutdown_server ∷ body) p calm = Counts-go p _ _ calm (run_body-Counts body p calm)
run_body-Counts (stop_engine ∷ body) p calm = elim (Bool-cases p.stop_ch_closed) [
  | inl again ↦ rw again (ground arith, λ e. cc)
  | inr first ↦
      let p' : Process = record p { stop_ch_closed = true } in
      rw first (
        Counts-go p' (run_body body p') _ calm
          (subst (Counts (run_body body p')) (omega arith) (run_body-Counts body p' calm)))
]
run_body-Counts (close_cache ∷ body) p calm =
    Counts-go (act close_cache p) _ _ calm (run_body-Counts body (act close_cache p) calm)
run_body-Counts (close_repo ∷ body) p calm =
    Counts-go (act close_repo p) _ _ calm (run_body-Counts body (act close_repo p) calm)
run_body-Counts (close_redis ∷ body) p calm =
    Counts-go (act close_redis p) _ _ calm (run_body-Counts body (act close_redis p) calm)

-- The end of a function panics exactly where the engine is stopped more than once, by its body, by
-- what it deferred, or before.
pub leave-panics :
    (body deferred : List Action) (p : Process)
    → p.panicked ≡ false
    → (leave body deferred p).panicked ≡ ltb 1 (count_stops body + count_stops deferred + made p)
unfolding leave
leave-panics body deferred p calm =
    let (panics, counted) = run_body-Counts body p calm in
    run_deferred-panics deferred (run_body body p) ∙ ground (arith, panics, counted)
