-- ===== src/Examples/Screens.antt =====
-- What the dashboards show, on small inputs.
use aegis_pulse.Base.{
  ℕ, ◌-◌, ◌*◌, ◌/◌, pos_part, ◌≡◌, arith, true, some, [], ◌∷◌, Text, pos, codes, ltb, ◌==◌,
}
use aegis_pulse.Cache.Breaker.{CircuitBreaker, half_open}
use aegis_pulse.Tui.Look.{Lipgloss}
use aegis_pulse.Tui.Page.{Telemetry, Numbers, page, poll_page}
use aegis_pulse.Tui.Polls.{IsBounded, totals_of, poll_page-fresh}
use aegis_pulse.Tui.Render.{Plots, AreShares}
use aegis_pulse.Tui.Shown.{run_program-drawn}
use aegis_pulse.Tui.Update.{run_program}
use aegis_pulse.Tui.View.{Formats, view}
use aegis_pulse.Examples.Dashboards.{shares, shares-AreSound, session, dashboard}
use aegis_pulse.Examples.Requests.{world, gateway, breaker}

-- Every number is read as 7.
abbrev sevens : Numbers ℕ
sevens = record {
  zero = 0;
  parse_float = λ s. some 7;
  truncate = λ x. pos x;
  is_positive = λ x. ltb 0 x;
}

abbrev shown_before : ℕ → Telemetry ℕ
shown_before n = record {
  normal_count = pos n;
  burst_count = pos 0;
  blocked_count = pos 0;
  replay_blocked = pos 0;
  cache_fallbacks = pos 0;
  dlq_pending = pos 0;
  p95_latency = 0;
  p99_latency = 0;
  revenue = 0;
  recent_samples = n ∷ [];
}

abbrev page_text : Text
page_text =
    codes
      "aegispulse_requests_total{status=\"NORMAL\",tier=\"free\"} 7\naegispulse_replay_attacks_blocked_total 7"

poll_page-fresh_example :
    (m' u' : Telemetry ℕ) × (poll_page sevens shares (page 5 page_text) (shown_before 3) ≡ some m')
    × (poll_page sevens shares (page 9 page_text) (shown_before 4) ≡ some u')
    × IsBounded sevens shares m'
    × (totals_of sevens shares m' ≡ totals_of sevens shares u')
poll_page-fresh_example =
    poll_page-fresh sevens shares shares-AreSound 5 9 page_text (shown_before 3) (shown_before 4)
      (omega arith) (omega arith)

-- Terminal text without styles.
abbrev plain : Lipgloss ℕ
plain = record {
  new_style = 0;
  bold = λ b s. s;
  foreground = λ c s. s;
  background = λ c s. s;
  padding = λ x y s. s;
  border = λ b s. s;
  border_foreground = λ c s. s;
  width = λ w s. s;
  render = λ s t. t;
  place = λ w h t. t;
  join_horizontal = λ ts. [];
  join_vertical = λ ts. [];
}

abbrev plots : Plots ℕ
plots = record {
  of_int = λ n. pos_part n;
  to_int = λ x. pos x;
  minus = λ x y. x - y;
  over = λ x y. 100 * x / y;
  times = λ x y. x * y / 100;
  below = λ x y. ltb x y;
  above = λ x y. ltb y x;
  same = λ x y. x == y;
}

plots-AreShares : AreShares plots
plots-AreShares = record { share-nonneg = λ n m width low high least. omega arith }

abbrev formats : Formats ℕ
formats = record { four_places = λ x. []; two_places = λ x. [] }

run_program-drawn_example :
    (s : Text) × (view plain shares plots formats
        (world (pos 200))
        (codes "1m0s")
        (run_program (world (pos 200)) session dashboard)
      ≡ some s)
run_program-drawn_example =
    run_program-drawn (world (pos 200)) plain shares plots formats shares-AreSound plots-AreShares
      gateway 0 true (codes "1m0s") session

-- A breaker that waits for the answer of its probe.
abbrev asked : CircuitBreaker
asked = record breaker { state = half_open; half_open_probing = true }
