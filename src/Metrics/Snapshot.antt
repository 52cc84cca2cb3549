-- ===== src/Metrics/Snapshot.antt =====
-- GetSnapshot and calculatePercentiles of internal/metrics/metrics.go, and calcPercentiles of
-- cmd/tui/main.go, which is the same function.
use aegis_pulse.Base.{
  ℕ, ◌∙◌, ap₂, ◌-◌, ◌≡◌, ◌<◌, refl, ap, Option, none, some, List, [], ◌∷◌, if◌then◌else◌, ◌==◌,
  leb_ℤ, ℤ, pos, negsuc, ◌≤ℤ◌, length, get_elem?, get_elem?-in, arith, if-splits, false,
}
use aegis_pulse.Metrics.{Metrics}

-- What the code does with a `float64` here. `sort` is sort.Float64s.
pub record Samples (F : Type 0) : Type 0 where
  pub zero : F
  pub p95 : F
  pub p99 : F
  pub thousand : F
  pub of_length : ℕ → F
  pub times : F → F → F
  pub to_int : F → ℤ
  pub sort : List F → List F

-- What it relies on: a share of a length is not negative, and sorting keeps the length.
pub record AreSound {F : Type 0} (f : Samples F) : Type 0 where
  pub share95 : (n : ℕ) → pos 0 ≤ℤ f.to_int (f.times (f.of_length n) f.p95)
  pub share99 : (n : ℕ) → pos 0 ≤ℤ f.to_int (f.times (f.of_length n) f.p99)
  pub length-sort : (xs : List F) → length (f.sort xs) ≡ length xs

pub record Snapshot (F : Type 0) : Type 0 where
  pub normal_count : ℤ
  pub burst_count : ℤ
  pub blocked_count : ℤ
  pub replay_blocked : ℤ
  pub cache_fallbacks : ℤ
  pub dlq_pending : ℤ
  pub redis_memory_bytes : ℤ
  pub p95_latency_ms : F
  pub p99_latency_ms : F
  pub recent_samples : List F

-- `xs[i]`; `none` is the panic of an index that is out of range.
abbrev index : {F : Type 0} → List F → ℤ → Option F
index xs (pos i) = get_elem? xs i
index xs (negsuc i) = none

abbrev both : {F : Type 0} → Option F → Option F → Option (F × F)
both (some a) (some b) = some (a, b)
both _ _ = none

module _ {F : Type 0} (f : Samples F) where
  -- The index of a share of `n`, or the last.
  unfoldable pub share_index : ℕ → F → ℤ
  share_index n share =
      let i = f.to_int (f.times (f.of_length n) share) in if leb_ℤ (pos n) i then pos (n - 1) else i

  unfoldable pub calculate_percentiles : List F → Option (F × F)
  unfolding share_index
  calculate_percentiles latencies =
      let n = length latencies in
      let sorted = f.sort latencies in
      if n == 0
      then some (f.zero, f.zero)
      else both (index sorted (share_index n f.p95)) (index sorted (share_index n f.p99))

  abbrev snapshot_with : {P : Type 0} → Metrics P F → Option (F × F) → Option (Snapshot F)
  snapshot_with m none = none
  snapshot_with m (some (p95, p99)) = some (record {
    normal_count = m.normal_count;
    burst_count = m.burst_count;
    blocked_count = m.blocked_count;
    replay_blocked = m.replay_blocked;
    cache_fallbacks = m.cache_fallbacks;
    dlq_pending = m.dlq_pending;
    redis_memory_bytes = m.redis_memory;
    p95_latency_ms = f.times p95 f.thousand;
    p99_latency_ms = f.times p99 f.thousand;
    recent_samples = m.recent_latencies;
  })

  unfoldable pub get_snapshot : {P : Type 0} → Metrics P F → Option (Snapshot F)
  unfolding calculate_percentiles
  get_snapshot m = snapshot_with m (calculate_percentiles m.recent_latencies)

not_empty : (n : ℕ) → 0 < n → (n == 0) ≡ false
not_empty n h = ground arith

index-in :
    {F : Type 0} (xs : List F) (i : ℤ) (n : ℕ)
    → length xs ≡ n
    → 0 < n
    → pos 0 ≤ℤ i
    → (x : F) × (index xs (if leb_ℤ (pos n) i then pos (n - 1) else i) ≡ some x)
index-in xs (negsuc i) n size some_entry h = absurd (omega arith)
index-in xs (pos i) n size some_entry h =
    if-splits (λ j. (x : _) × (index xs j ≡ some x)) (leb_ℤ (pos n) (pos i)) (pos (n - 1)) (pos i)
      (λ past. get_elem?-in xs (n - 1) (omega arith)) (λ within. get_elem?-in xs i (ground arith))

module _ {F : Type 0} {f : Samples F} (law : AreSound f) where
  percentiles-some :
      (xs : List F) → 0 < length xs → (p : F × F) × (calculate_percentiles f xs ≡ some p)
  unfolding calculate_percentiles share_index
  percentiles-some xs some_entry =
      let n = length xs in
      let (a, at95) =
        index-in (f.sort xs) (f.to_int (f.times (f.of_length n) f.p95)) n (law.length-sort xs)
          some_entry (law.share95 n) in
      let (b, at99) =
        index-in (f.sort xs) (f.to_int (f.times (f.of_length n) f.p99)) n (law.length-sort xs)
          some_entry (law.share99 n) in
      (
        (a, b),
        ap
              (λ t.
                if t
                then some (f.zero, f.zero)
                else both (index (f.sort xs) (share_index f n f.p95))
                    (index (f.sort xs) (share_index f n f.p99)))
              (not_empty n some_entry)
            ∙ ap₂ both at95 at99,
      )

  pub percentiles-any : (xs : List F) → (p : F × F) × (calculate_percentiles f xs ≡ some p)
  unfolding calculate_percentiles
  percentiles-any [] = ((f.zero, f.zero), refl)
  percentiles-any (x ∷ xs) = percentiles-some (x ∷ xs) (omega arith)

  -- Where a share of a length is not negative and sorting keeps the length: a snapshot never panics,
  -- however many samples there are, and it shows the samples and the counters as they are.
  pub get_snapshot-some :
      {P : Type 0} (m : Metrics P F)
      → (snap : Snapshot F) × (get_snapshot f m ≡ some snap)
        × (snap.recent_samples ≡ m.recent_latencies)
        × (snap.normal_count ≡ m.normal_count)
        × (snap.burst_count ≡ m.burst_count)
        × (snap.blocked_count ≡ m.blocked_count)
  unfolding get_snapshot
  get_snapshot-some m =
      let (p, there) = percentiles-any m.recent_latencies in
      (_, ap (snapshot_with f m) there, refl, refl, refl, refl)
