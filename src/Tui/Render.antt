-- ===== src/Tui/Render.antt =====
-- internal/tui/sparkline.go: the sparkline and the bar, as code points without their styles.
use aegis_pulse.Base.{
  ℕ, suc, ◌+◌, ◌-◌, ◌<◌, ◌≡◌, refl, ap, ap₂, ◌∙◌, Bool, Option, none, some, List, [], ◌∷◌,
  if◌then◌else◌, ltb, leb_ℤ, ltb_ℤ, ◌-ℤ◌, -ℤ_parts, ℤ, pos, negsuc, pos_part, ◌≤ℤ◌, length,
  get_elem?, get_elem?-in, one_part, drop, length-drop, replicate, length-replicate, Text, codes,
  arith, Bool-cases, inl, inr, if-splits,
}

-- What the code does with a `float64` here; the tests are `<`, `>` and `==`.
pub record Plots (F : Type 0) : Type 0 where
  pub of_int : ℤ → F
  pub to_int : F → ℤ
  pub minus : F → F → F
  pub over : F → F → F
  pub times : F → F → F
  pub below : F → F → Bool
  pub above : F → F → Bool
  pub same : F → F → Bool

-- The rune of `sparkChars` at an index; `none` is a panic.
abbrev pub spark_chars : Text
spark_chars = codes " ▂▃▄▅▆▇█"

abbrev pub spark_char : ℤ → Option ℕ
spark_char (pos i) = get_elem? spark_chars i
spark_char (negsuc i) = none

-- Writes a rune after those of a text; a panic on either side is a panic.
abbrev pub cons_glyph : Option ℕ → Option Text → Option Text
cons_glyph (some c) (some s) = some (c ∷ s)
cons_glyph _ _ = none

abbrev pub clamp_tick : ℤ → ℤ
clamp_tick idx = if ltb_ℤ idx (pos 0) then pos 0 else if ltb_ℤ (pos 7) idx then pos 7 else idx

-- The last `max_bars` values.
abbrev pub recent {ℓ} : {A : Type ℓ} → List A → ℕ → List A
recent values max_bars =
    if ltb max_bars (length values) then drop (length values - max_bars) values else values

abbrev at_least_one : ℤ → ℤ
at_least_one n = if leb_ℤ n (pos 0) then pos 1 else n

abbrev between : ℤ → ℤ → ℤ
between n most =
    let low = if ltb_ℤ n (pos 0) then pos 0 else n in if ltb_ℤ most low then most else low

-- strings.Repeat, which panics on a count that is negative.
abbrev repeat : ℕ → ℤ → Option Text
repeat c (pos n) = some (replicate n c)
repeat c (negsuc n) = none

abbrev both_texts : Option Text → Option Text → Option (Text × Text)
both_texts (some s) (some t) = some (s, t)
both_texts _ _ = none

module _ {F : Type 0} (f : Plots F) where
  -- The loop for the least and the greatest value.
  unfoldable pub extremes : List F → F → F → F × F
  extremes [] least greatest = (least, greatest)
  extremes (v ∷ vs) least greatest =
      extremes vs (if f.below v least then v else least)
        (if f.above v greatest then v else greatest)

  abbrev pub tick_of : F → F → F → ℤ
  tick_of least greatest v =
      let ratio = f.over (f.minus v least) (f.minus greatest least) in
      clamp_tick (f.to_int (f.times ratio (f.of_int (pos 7))))

  -- The loop that writes the runes.
  unfoldable pub glyphs : F → F → List F → Option Text
  glyphs least greatest [] = some []
  glyphs least greatest (v ∷ vs) =
      let rest = glyphs least greatest vs in
      cons_glyph
        (if f.same greatest least
          then spark_char (pos 0)
          else spark_char (tick_of least greatest v))
        rest

  -- `data[0]` panics where nothing is left.
  abbrev plotted : List F → Option Text
  plotted [] = none
  plotted (v ∷ vs) = let (least, greatest) = extremes (v ∷ vs) v v in glyphs least greatest (v ∷ vs)

  unfoldable pub render_sparkline : List F → ℕ → Option Text
  unfolding extremes glyphs
  render_sparkline [] max_bars = some (codes "──────────────────── [No Data]")
  render_sparkline (v ∷ vs) max_bars = plotted (recent (v ∷ vs) max_bars)

  abbrev pub filled_len : ℤ → ℤ → ℕ → ℤ
  filled_len current most width =
      let len =
        f.to_int (f.times (f.over (f.of_int current) (f.of_int most)) (f.of_int (pos width))) in
      if ltb_ℤ (pos width) len then pos width else len

  -- The filled part of the bar and the empty one.
  unfoldable pub render_horizontal_bar : ℤ → ℤ → ℕ → Option (Text × Text)
  render_horizontal_bar current most width =
      let most' = at_least_one most in
      let filled = filled_len (between current most') most' width in
      both_texts (repeat 0x2588 filled) (repeat 0x2591 (pos width -ℤ filled))

-- What the bar relies on: the share of a number in one that is not smaller is not negative.
pub record AreShares {F : Type 0} (f : Plots F) : Type 0 where
  pub share-nonneg :
      (n m : ℤ) (width : ℕ)
      → pos 0 ≤ℤ n
      → n ≤ℤ m
      → pos 1 ≤ℤ m
      → pos 0 ≤ℤ f.to_int (f.times (f.over (f.of_int n) (f.of_int m)) (f.of_int (pos width)))

clamp_tick-in : (i : ℤ) → (j : ℕ) × (clamp_tick i ≡ pos j) × (j < 8)
clamp_tick-in (negsuc i) = (0, ground arith, omega arith)
clamp_tick-in (pos i) =
    if-splits (λ k. (j : ℕ) × (k ≡ pos j) × (j < 8)) (ltb_ℤ (pos i) (pos 0)) (pos 0)
      (if ltb_ℤ (pos 7) (pos i) then pos 7 else pos i) (λ low. (0, refl, omega arith))
      (λ high.
        if-splits (λ k. (j : ℕ) × (k ≡ pos j) × (j < 8)) (ltb_ℤ (pos 7) (pos i)) (pos 7) (pos i)
          (λ past. (7, refl, omega arith)) (λ within. (i, refl, ground arith)))

spark_char-some : (j : ℕ) → j < 8 → (c : ℕ) × (spark_char (pos j) ≡ some c)
spark_char-some j h = get_elem?-in spark_chars j h

module _ {F : Type 0} (f : Plots F) where
  glyph-some :
      (least greatest v : F)
      → (c : ℕ) × ((if f.same greatest least
            then spark_char (pos 0)
            else spark_char (tick_of f least greatest v))
          ≡ some c)
  glyph-some least greatest v =
      let (j, at, within) = clamp_tick-in (
        f.to_int
          (f.times (f.over (f.minus v least) (f.minus greatest least)) (f.of_int (pos 7)))) in
      let (c, there) = spark_char-some j within in
      if-splits (λ o. (c : ℕ) × (o ≡ some c)) (f.same greatest least) (spark_char (pos 0))
        (spark_char (tick_of f least greatest v)) (λ flat. (32, refl))
        (λ varied. (c, ap spark_char at ∙ there))

  glyphs-some :
      (least greatest : F) (vs : List F)
      → (s : Text) × (glyphs f least greatest vs ≡ some s) × (length s ≡ length vs)
  unfolding glyphs
  glyphs-some least greatest [] = ([], refl, refl)
  glyphs-some least greatest (v ∷ vs) =
      let (c, first) = glyph-some least greatest v in
      let (s, rest, size) = glyphs-some least greatest vs in
      (c ∷ s, ap₂ cons_glyph first rest, ap suc size)

  plotted-some :
      (vs : List F) → 0 < length vs → (s : Text) × (plotted f vs ≡ some s) × (length s ≡ length vs)
  plotted-some [] h = absurd (omega arith)
  plotted-some (v ∷ vs) h = glyphs-some _ _ (v ∷ vs)

  length-recent :
      (values : List F) (max_bars : ℕ)
      → length (recent values max_bars)
        ≡ (if ltb max_bars (length values) then max_bars else length values)
  length-recent values max_bars = elim (Bool-cases (ltb max_bars (length values))) [
    | inl long ↦ rw long (length-drop _ values ∙ ground arith)
    | inr short ↦ rw short refl
  ]

  -- A sparkline of at least one value never panics, whatever the numbers are, and has one rune for each
  -- of the last `max_bars` values.
  pub render_sparkline-fits :
      (values : List F) (max_bars : ℕ)
      → 0 < length values
      → 0 < max_bars
      → (s : Text) × (render_sparkline f values max_bars ≡ some s)
        × (length s ≡ (if ltb max_bars (length values) then max_bars else length values))
  unfolding render_sparkline
  render_sparkline-fits [] max_bars some_value room = absurd (omega arith)
  render_sparkline-fits (v ∷ vs) max_bars some_value room =
      let size = length-recent (v ∷ vs) max_bars in
      let (s, drawn, one_each) = plotted-some (recent (v ∷ vs) max_bars) (ground (arith, size)) in
      (s, drawn, one_each ∙ size)

  -- Any sparkline of the dashboards is drawn.
  pub render_sparkline-some :
      (values : List F) (max_bars : ℕ)
      → 0 < max_bars
      → (s : Text) × (render_sparkline f values max_bars ≡ some s)
  unfolding render_sparkline
  render_sparkline-some [] max_bars room = (_, refl)
  render_sparkline-some (v ∷ vs) max_bars room =
      let (s, drawn, size) = render_sparkline-fits (v ∷ vs) max_bars (omega arith) room in
      (s, drawn)

  module _ (law : AreShares f) where
    between-in : (n most : ℤ) → pos 1 ≤ℤ most → (pos 0 ≤ℤ between n most) × (between n most ≤ℤ most)
    between-in n most h = ground arith

    repeat-pos :
        (c : ℕ) (k : ℤ) → pos 0 ≤ℤ k → (s : Text) × (repeat c k ≡ some s) × (length s ≡ pos_part k)
    repeat-pos c (pos n) h = (replicate n c, refl, length-replicate n c)
    repeat-pos c (negsuc n) h = absurd (omega arith)

    filled_len-in :
        (current most : ℤ) (width : ℕ)
        → pos 0 ≤ℤ current
        → current ≤ℤ most
        → pos 1 ≤ℤ most
        → (pos 0 ≤ℤ filled_len f current most width)
          × (filled_len f current most width ≤ℤ pos width)
    filled_len-in current most width low high some_most =
        ground (arith, law.share-nonneg current most width low high some_most)

    -- A bar never panics, whatever the two counts are, and its two parts have `width` runes in all.
    pub render_horizontal_bar-fits :
        (current most : ℤ) (width : ℕ)
        → (filled empty : Text) × (render_horizontal_bar f current most width
            ≡ some (filled, empty))
          × (length filled + length empty ≡ width)
    unfolding render_horizontal_bar
    render_horizontal_bar-fits current most width =
        let most' = at_least_one most in
        let ge : pos 1 ≤ℤ most' = ground arith in
        let (low, high) = between-in current most' ge in
        let (pos_len, within) = filled_len-in (between current most') most' width low high ge in
        let len = filled_len f (between current most') most' width in
        let (s, drawn, size) = repeat-pos 0x2588 len pos_len in
        let (t, left, rest) =
          repeat-pos 0x2591 (pos width -ℤ len) (ground (arith, -ℤ_parts (pos width) len)) in
        (
          s,
          t,
          ap₂ (both_texts) drawn left,
          ground (
            arith,
            size,
            rest,
            -ℤ_parts (pos width) len,
            one_part (pos width -ℤ len),
            one_part len,
          ),
        )
