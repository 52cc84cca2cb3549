-- ===== src/Base/Texts.antt =====
-- Go strings that the program walks, as lists of code points, and what it uses of `strings`.
use Prim.Native.Nat.{ℕ, zero, suc, ◌+◌, ◌-◌}
use Prim.Native.Char.{Char, code}
use Prim.Native.String.{String}
use mathlib.Core.Path.{◌≡◌, refl}
use mathlib.Core.Bool.{Bool, true, false, ◌&&◌, ◌||◌, not}
use mathlib.Core.Option.{Option, none, some}
use mathlib.Core.List.{List, [], ◌∷◌, ◌++◌}
use native.Mathlib.Omega.{arith}
use aegis_pulse.Base.Tests.{leb, ltb, ◌==◌, if◌then◌else◌}

abbrev pub Text : Type 0
Text = List ℕ

-- `String` has its own `[]` and `∷`.
abbrev pub codes : String → Text
codes String.[] = []
codes (String.◌∷◌ head rest) = code head ∷ codes rest

-- s == t
unfoldable pub text_eq : Text → Text → Bool
text_eq (x ∷ xs) (y ∷ ys) = x == y && text_eq xs ys
text_eq [] [] = true
text_eq _ _ = false

pub text_eq_refl : (s : Text) → text_eq s s ≡ true
unfolding text_eq
text_eq_refl [] = refl
text_eq_refl (x ∷ xs) = ground (arith, text_eq_refl xs)

pub text_eq→eq : (s t : Text) → text_eq s t ≡ true → s ≡ t
unfolding text_eq
text_eq→eq [] [] same = refl
text_eq→eq [] (y ∷ ys) same = cc
text_eq→eq (x ∷ xs) [] same = cc
text_eq→eq (x ∷ xs) (y ∷ ys) same = ground (arith, text_eq→eq xs ys)

-- strings.HasPrefix, and strings.TrimPrefix where the prefix is there
unfoldable pub strip_prefix : Text → Text → Option Text
strip_prefix [] s = some s
strip_prefix (p ∷ ps) [] = none
strip_prefix (p ∷ ps) (c ∷ s) = if p == c then strip_prefix ps s else none

pub strip_prefix-append : (p s : Text) → strip_prefix p (p ++ s) ≡ some s
unfolding strip_prefix
strip_prefix-append [] s = refl
strip_prefix-append (c ∷ p) s = ground (arith, strip_prefix-append p s)

-- A new first part, or one more character at the front of it.
abbrev pub cons_part : ℕ → List Text → List Text
cons_part c [] = (c ∷ []) ∷ []
cons_part c (p ∷ ps) = (c ∷ p) ∷ ps

-- strings.Split with a separator of one character
unfoldable pub split : ℕ → Text → List Text
split sep [] = [] ∷ []
split sep (c ∷ s) = let rest = split sep s in if c == sep then [] ∷ rest else cons_part c rest

-- unicode.IsSpace
unfoldable pub is_space : ℕ → Bool
is_space c =
    (leb 9 c && leb c 13)
    || c == 32
    || c == 0x85
    || c == 0xa0
    || c == 0x1680
    || (leb 0x2000 c && leb c 0x200a)
    || c == 0x2028
    || c == 0x2029
    || c == 0x202f
    || c == 0x205f
    || c == 0x3000

unfoldable pub trim_left : Text → Text
trim_left [] = []
trim_left (c ∷ s) = if is_space c then trim_left s else c ∷ s

-- drops the spaces at the end
unfoldable pub trim_right : Text → Text
trim_right [] = []
trim_right (c ∷ s) =
    let rest = trim_right s in
    elim rest [ [] ↦ (if is_space c then [] else c ∷ []) | d ∷ r ↦ c ∷ d ∷ r ]

-- strings.TrimSpace
unfoldable pub trim_space : Text → Text
unfolding trim_left trim_right
trim_space s = trim_right (trim_left s)

-- strings.ToLower on the letters below 128
unfoldable pub to_lower : ℕ → ℕ
to_lower c = if leb b'A' c && leb c b'Z' then c + 32 else c

-- Every character passes a test.
abbrev pub AllPass : (ℕ → Bool) → Text → Type 0
AllPass p [] = Unit
AllPass p (c ∷ s) = (p c ≡ true) × AllPass p s

pub AllPass-append : (p : ℕ → Bool) (s t : Text) → AllPass p s → AllPass p t → AllPass p (s ++ t)
AllPass-append p [] t hs ht = ht
AllPass-append p (c ∷ s) t hs ht = (hs.0, AllPass-append p s t hs.1 ht)

pub AllPass-imp :
    (p q : ℕ → Bool) (s : Text) → ((c : ℕ) → p c ≡ true → q c ≡ true) → AllPass p s → AllPass q s
AllPass-imp p q [] f h = tt
AllPass-imp p q (c ∷ s) f h = (f c h.0, AllPass-imp p q s f h.1)

-- A character that neither splits a header nor is trimmed from it: printable ASCII but the comma.
unfoldable pub is_plain : ℕ → Bool
is_plain c = ltb 32 c && ltb c 127 && not (c == b',')

is_plain-is_space : (c : ℕ) → is_plain c ≡ true → is_space c ≡ false
unfolding is_plain is_space
is_plain-is_space c h = ground arith

pub split-plain : (s : Text) → AllPass is_plain s → split b',' s ≡ s ∷ []
unfolding split is_plain
split-plain [] h = refl
split-plain (c ∷ s) h = ground (arith, split-plain s h.1)

pub split-comma : (s t : Text) → AllPass is_plain s → split b',' (s ++ b',' ∷ t) ≡ s ∷ split b',' t
unfolding split is_plain
split-comma [] t h = refl
split-comma (c ∷ s) t h = ground (arith, split-comma s t h.1)

trim_right-plain : (s : Text) → AllPass is_plain s → trim_right s ≡ s
unfolding trim_right
trim_right-plain [] h = refl
trim_right-plain (c ∷ []) h = rw (is_plain-is_space c h.0)
trim_right-plain (c ∷ d ∷ s) h = rw (trim_right-plain (d ∷ s) h.1)

trim_left-plain : (s : Text) → AllPass is_plain s → trim_left s ≡ s
unfolding trim_left
trim_left-plain [] h = refl
trim_left-plain (c ∷ s) h = rw (is_plain-is_space c h.0)

pub trim_space-plain : (s : Text) → AllPass is_plain s → trim_space s ≡ s
unfolding trim_space
trim_space-plain s h = rw (trim_left-plain s h) (trim_right-plain s h)

abbrev nth_char : String → ℕ → Char → Char
nth_char String.[] i d = d
nth_char (String.◌∷◌ c s) zero d = c
nth_char (String.◌∷◌ c s) (suc i) d = nth_char s i d

abbrev lower_char : Char → Char
lower_char c =
    if leb b'A' (code c) && leb (code c) b'Z'
    then nth_char "abcdefghijklmnopqrstuvwxyz" (code c - 65) c
    else c

-- strings.ToLower on a text of letters below 128
unfoldable pub lower : String → String
lower String.[] = ""
lower (String.◌∷◌ c s) = String.◌∷◌ (lower_char c) (lower s)
