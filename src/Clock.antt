-- ===== src/Clock.antt =====
-- What the program uses of package `time`. An instant is a number of nanoseconds, and a `Duration`
-- is an `int64` of nanoseconds.
use aegis_pulse.Base.{
  Bool, ℕ, ◌<◌, ◌-◌, ◌≡◌, if◌then◌else◌, ltb_ℤ, leb_ℤ, ℤ, pos, negsuc, pos_part, neg_part, ◌-ℤ◌,
  ◌+ℤ◌, two63, arith,
}

abbrev pub Time : Type 0
Time = ℤ

abbrev pub Duration : Type 0
Duration = ℤ

abbrev pub millisecond : ℕ
millisecond = 1000000

abbrev pub second : ℕ
second = 1000000000

abbrev pub hour : ℕ
hour = 3600000000000

-- t.Sub(u): a difference that is out of range is the nearest Duration.
unfoldable pub sub_time : Time → Time → Duration
sub_time t u =
    let d = t -ℤ u in
    if ltb_ℤ (pos (two63 - 1)) d
    then pos (two63 - 1)
    else if ltb_ℤ d (negsuc (two63 - 1))
    then negsuc (two63 - 1)
    else d

-- t.Add(d)
abbrev pub add_time : Time → Duration → Time
add_time t d = t +ℤ d

-- t.After(u)
abbrev pub after : Time → Time → Bool
after t u = ltb_ℤ u t

-- Saturation does not change a comparison with a Duration that is not negative.
pub leb-sub_time :
    (d : Duration) (t u : Time)
    → neg_part d ≡ 0
    → pos_part d < two63
    → leb_ℤ d (sub_time t u) ≡ leb_ℤ d (t -ℤ u)
unfolding sub_time
leb-sub_time d t u h lt = ground arith

pub ltb-sub_time :
    (d : ℕ) (t u : Time) → d < two63 - 1 → ltb_ℤ (pos d) (sub_time t u) ≡ ltb_ℤ (pos d) (t -ℤ u)
unfolding sub_time
ltb-sub_time d t u h = ground arith
