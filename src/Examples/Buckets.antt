-- ===== src/Examples/Buckets.antt =====
-- The token bucket's theorem, with whole numbers of tokens.
use aegis_pulse.Base.{ℕ, ◌+◌, ◌-◌, ◌*◌, ◌/◌, if◌then◌else◌, leb, pos, pos_part}
use aegis_pulse.Clock.{second}
use aegis_pulse.RateLimit.Bucket.{Floats}

abbrev whole : Floats ℕ
whole = record {
  of_int = pos_part;
  to_int = λ x. pos x;
  plus = λ x y. x + y;
  minus = λ x y. x - y;
  times = λ x y. x * y;
  over = λ x y. x / y;
  lesser = λ x y. if leb x y then x else y;
  at_least = λ x y. leb y x;
  seconds = λ d. pos_part d / second;
}
