-- ===== src/Tui/Page.antt =====
-- pollGatewayMetrics of cmd/tui/main.go: what the stand-alone dashboard reads of the page of metrics. The
-- fields of standaloneModel that it fills are Telemetry; the panic status that it asks for at its end is
-- in Remote.
use aegis_pulse.Base.{
  Bool, ◌||◌, Option, none, some, List, [], ◌∷◌, ◌++◌, String, if◌then◌else◌, ltb, ℤ, pos, add64,
  length, drop, Text, split, cons_part, is_space,
}
use aegis_pulse.Metrics.Snapshot.{Samples, calculate_percentiles}
use aegis_pulse.Proxy.{has_prefix}

pub record Telemetry (F : Type 0) : Type 0 where
  pub normal_count : ℤ
  pub burst_count : ℤ
  pub blocked_count : ℤ
  pub replay_blocked : ℤ
  pub cache_fallbacks : ℤ
  pub dlq_pending : ℤ
  pub p95_latency : F
  pub p99_latency : F
  pub revenue : F
  pub recent_samples : List F

-- strings.Contains(s, part)
unfoldable pub contains : String → Text → Bool
contains part [] = has_prefix part []
contains part (c ∷ s) = has_prefix part (c ∷ s) || contains part s

-- strings.Fields: the parts between the spaces that are not empty.
unfoldable pub split_spaces : Text → List Text
split_spaces [] = [] ∷ []
split_spaces (c ∷ s) =
    let rest = split_spaces s in if is_space c then [] ∷ rest else cons_part c rest

unfoldable pub filled_parts : List Text → List Text
filled_parts [] = []
filled_parts ([] ∷ parts) = filled_parts parts
filled_parts ((c ∷ s) ∷ parts) = (c ∷ s) ∷ filled_parts parts

unfoldable pub fields : Text → List Text
unfolding split_spaces filled_parts
fields s = filled_parts (split_spaces s)

-- The last of two fields or more.
abbrev last_part : Text → List Text → Text
last_part s [] = s
last_part s (t ∷ parts) = last_part t parts

abbrev last_field : List Text → Option Text
last_field (s ∷ t ∷ parts) = some (last_part t parts)
last_field _ = none

-- What is used of a `float64` here: ParseFloat, `int64(val)`, and the test of `rttMs > 0`.
pub record Numbers (F : Type 0) : Type 0 where
  pub zero : F
  pub parse_float : Text → Option F
  pub truncate : F → ℤ
  pub is_positive : F → Bool

abbrev pub or_value {ℓ} : {A : Type ℓ} → A → Option A → A
or_value d none = d
or_value d (some a) = a

-- The counters that a poll begins at 0.
pub record Totals : Type 0 where
  pub normal : ℤ
  pub burst : ℤ
  pub blocked : ℤ
  pub replay : ℤ

abbrev pub no_totals : Totals
no_totals = record { normal = pos 0; burst = pos 0; blocked = pos 0; replay = pos 0 }

-- What comes of the request for the page: an error, a body that cannot be read, or a body, the last two
-- after a round trip of some milliseconds.
pub data Fetched (F : Type 0) : Type 0 where
  unreachable : Fetched F
  unread : F → Fetched F
  page : F → Text → Fetched F

module _ {F : Type 0} (n : Numbers F) (f : Samples F) where
  abbrev parsed : Option Text → Option F
  parsed none = none
  parsed (some s) = n.parse_float s

  unfoldable pub parse_last_float : Text → F
  unfolding fields
  parse_last_float line = or_value n.zero (parsed (last_field (fields line)))

  abbrev truncated : Option F → ℤ
  truncated none = pos 0
  truncated (some val) = n.truncate val

  unfoldable pub parse_last_int : Text → ℤ
  unfolding fields
  parse_last_int line = truncated (parsed (last_field (fields line)))

  abbrev pub count_status : Text → Totals → Totals
  count_status l t =
      if contains "status=\"NORMAL\"" l
      then record t { normal = add64 t.normal (parse_last_int l) }
      else if contains "status=\"BURST\"" l
      then record t { burst = add64 t.burst (parse_last_int l) }
      else if contains "status=\"BLOCKED\"" l || contains "status=\"BURST_FROZEN\"" l
      then record t { blocked = add64 t.blocked (parse_last_int l) }
      else t

  -- The body of the loop over the lines.
  unfoldable pub read_line : Text → Totals × Telemetry F → Totals × Telemetry F
  read_line l (t, m) =
      if has_prefix "aegispulse_requests_total{" l
      then (count_status l t, m)
      else if has_prefix "aegispulse_replay_attacks_blocked_total{" l
      then (record t { replay = add64 t.replay (parse_last_int l) }, m)
      else if has_prefix "aegispulse_cache_fallback_total " l
      then (t, record m { cache_fallbacks = parse_last_int l })
      else if has_prefix "aegispulse_dlq_pending_total " l
      then (t, record m { dlq_pending = parse_last_int l })
      else if has_prefix "aegispulse_monetized_burst_revenue_dollars " l
      then (t, record m { revenue = parse_last_float l })
      else (t, m)

  unfoldable pub read_lines : List Text → Totals × Telemetry F → Totals × Telemetry F
  unfolding read_line
  read_lines [] s = s
  read_lines (l ∷ lines) s = read_lines lines (read_line l s)

  abbrev pub with_totals : Totals × Telemetry F → Telemetry F
  with_totals (t, m) = record m {
    normal_count = t.normal;
    burst_count = t.burst;
    blocked_count = t.blocked;
    replay_blocked = t.replay;
  }

  -- calcPercentiles is the calculatePercentiles of the metrics.
  abbrev pub calc_percentiles : List F → Option (F × F)
  calc_percentiles samples = calculate_percentiles f samples

  -- The last thirty.
  unfoldable pub push_sample : F → List F → List F
  push_sample rtt samples =
      let grown = samples ++ rtt ∷ [] in if ltb 30 (length grown) then drop 1 grown else grown

  abbrev pub with_percentiles : Telemetry F → Option (F × F) → Option (Telemetry F)
  with_percentiles m none = none
  with_percentiles m (some (p95, p99)) = some (record m { p95_latency = p95; p99_latency = p99 })

  unfoldable pub sample : F → Telemetry F → Option (Telemetry F)
  unfolding push_sample
  sample rtt m =
      let m' : Telemetry F = record m { recent_samples = push_sample rtt m.recent_samples } in
      if n.is_positive rtt then with_percentiles m' (calc_percentiles m'.recent_samples) else some m

  abbrev pub then_read : Text → Option (Telemetry F) → Option (Telemetry F)
  then_read body none = none
  then_read body (some m) = some (with_totals (read_lines (split 10 body) (no_totals, m)))

  -- `none` is a panic.
  unfoldable pub poll_page : Fetched F → Telemetry F → Option (Telemetry F)
  unfolding read_lines sample
  poll_page unreachable m = some m
  poll_page (unread rtt) m = sample rtt m
  poll_page (page rtt body) m = then_read body (sample rtt m)
