-- ===== src/Tui/Polls.antt =====
-- What a poll of the page of metrics keeps, and what it shows.
use aegis_pulse.Base.{
  ◌≤◌, ◌≡◌, refl, ap, sym, subst, ◌∙◌, some, List, [], ◌∷◌, ◌++◌, length, length-append,
  length-drop, Text, split, arith, if-splits,
}
use aegis_pulse.Metrics.Snapshot.{Samples, AreSound, percentiles-any}
use aegis_pulse.Tui.Page.{
  Telemetry, Numbers, Totals, no_totals, page, read_line, read_lines, push_sample, sample,
  with_totals, calc_percentiles, then_read, with_percentiles, poll_page,
}

module _ {F : Type 0} (n : Numbers F) (f : Samples F) where
  -- At most thirty samples.
  abbrev pub IsBounded : Telemetry F → Type 0
  IsBounded m = length m.recent_samples ≤ 30

  -- The four counters that are shown.
  abbrev pub totals_of : Telemetry F → Totals
  totals_of m = record {
    normal = m.normal_count;
    burst = m.burst_count;
    blocked = m.blocked_count;
    replay = m.replay_blocked;
  }

  push_sample-le : (rtt : F) (xs : List F) → length xs ≤ 30 → length (push_sample n f rtt xs) ≤ 30
  unfolding push_sample
  push_sample-le rtt xs h =
      ground (arith, length-append xs (rtt ∷ []), length-drop 1 (xs ++ rtt ∷ []))

  sample-some :
      (law : AreSound f) (rtt : F) (m : Telemetry F)
      → IsBounded m
      → (m' : Telemetry F) × (sample n f rtt m ≡ some m') × IsBounded m'
  unfolding sample
  sample-some law rtt m h =
      let grown = push_sample n f rtt m.recent_samples in
      let (p, there) = percentiles-any law grown in
      if-splits (λ o. (m' : Telemetry F) × (o ≡ some m') × IsBounded m') (n.is_positive rtt)
        (with_percentiles n f (record m { recent_samples = grown }) (calc_percentiles n f grown))
        (some m)
        (λ timed. (
          record m { recent_samples = grown; p95_latency = p.0; p99_latency = p.1 },
          ap (with_percentiles n f (record m { recent_samples = grown })) there,
          push_sample-le rtt m.recent_samples h,
        ))
        (λ untimed. (m, refl, h))

  read_line-totals :
      (l : Text) (t : Totals) (m u : Telemetry F)
      → (read_line n f l (t, m)).0 ≡ (read_line n f l (t, u)).0
  unfolding read_line
  read_line-totals l t m u = ground arith

  read_line-samples :
      (l : Text) (s : Totals × Telemetry F)
      → (read_line n f l s).1.recent_samples ≡ s.1.recent_samples
  unfolding read_line
  read_line-samples l (t, m) = ground arith

  read_lines-totals :
      (lines : List Text) (s u : Totals × Telemetry F)
      → s.0 ≡ u.0
      → (read_lines n f lines s).0 ≡ (read_lines n f lines u).0
  unfolding read_lines
  read_lines-totals [] s u h = h
  read_lines-totals (l ∷ lines) (t, m) (t', u) h =
      read_lines-totals lines (read_line n f l (t, m)) (read_line n f l (t', u))
        (read_line-totals l t m u ∙ ap (λ t. (read_line n f l (t, u)).0) h)

  read_lines-samples :
      (lines : List Text) (s : Totals × Telemetry F)
      → (read_lines n f lines s).1.recent_samples ≡ s.1.recent_samples
  unfolding read_lines
  read_lines-samples [] s = refl
  read_lines-samples (l ∷ lines) s =
      read_lines-samples lines (read_line n f l s) ∙ read_line-samples l s

  -- Where a share of a length is not negative and sorting keeps the length: two polls of one page, from
  -- any two states that hold at most thirty samples and after round trips of any times, neither panic nor
  -- hold more than thirty samples, and they show the same four counters, whatever was shown before.
  pub poll_page-fresh :
      (law : AreSound f) (rtt rtt' : F) (body : Text) (m u : Telemetry F)
      → IsBounded m
      → IsBounded u
      → (m' u' : Telemetry F) × (poll_page n f (page rtt body) m ≡ some m')
        × (poll_page n f (page rtt' body) u ≡ some u')
        × IsBounded m'
        × (totals_of m' ≡ totals_of u')
  unfolding poll_page
  poll_page-fresh law rtt rtt' body m u hm hu =
      let (ms, one, low) = sample-some law rtt m hm in
      let (us, two, _) = sample-some law rtt' u hu in
      let lines = split 10 body in
      (
        with_totals n f (read_lines n f lines (no_totals, ms)),
        with_totals n f (read_lines n f lines (no_totals, us)),
        ap (then_read n f body) one,
        ap (then_read n f body) two,
        subst (λ xs. length xs ≤ 30) (sym (read_lines-samples lines (no_totals, ms))) low,
        read_lines-totals lines (no_totals, ms) (no_totals, us) refl,
      )
