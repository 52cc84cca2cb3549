-- ===== src/Base/Decimal.antt =====
-- Decimal and hexadecimal texts: `%d`, strconv.ParseInt(s, 10, 64), hex.EncodeToString.
use Prim.Native.Nat.{ℕ, zero, suc, ◌+◌, ◌-◌, ◌*◌, ◌/◌, ◌%◌, ◌<◌}
use mathlib.Core.Path.{◌≡◌, refl, ◌∙◌}
use mathlib.Core.Logic.{inl, inr, ◌≢◌}
use mathlib.Core.Bool.{Bool, true, ◌&&◌}
use mathlib.Core.Option.{Option, none, some}
use mathlib.Core.List.{List, [], ◌∷◌, map}
use native.Mathlib.Omega.{arith}
use aegis_pulse.Base.Tests.{leb, ltb, ◌==◌, if◌then◌else◌, Bool-cases}
use aegis_pulse.Base.Int.{ℤ, pos, negsuc, IsInt64, two63}
use aegis_pulse.Base.Texts.{Text, AllPass, AllPass-imp, is_plain, to_lower}

unfoldable pub is_digit : ℕ → Bool
is_digit c = leb 48 c && leb c 57

-- The digits of `n` in front of `acc`. Any fuel above `n` is enough.
print_digits : ℕ → ℕ → Text → Text
print_digits zero n acc = acc
print_digits (suc f) n acc =
    let rest = print_digits f (n / 10) ((48 + n % 10) ∷ acc) in
    if ltb n 10 then (48 + n) ∷ acc else rest

unfoldable pub print_nat : ℕ → Text
unfolding print_digits
print_nat n = print_digits (suc n) n []

-- `%d`
unfoldable pub print_int : ℤ → Text
print_int (pos n) = print_nat n
print_int (negsuc n) = b'-' ∷ print_nat (suc n)

-- The value of a run of digits read after `acc`; `none` at any other character.
digits_value : ℕ → Text → Option ℕ
digits_value acc [] = some acc
digits_value acc (c ∷ s) = if is_digit c then digits_value (acc * 10 + (c - 48)) s else none

abbrev in_range_pos : Option ℕ → Option ℤ
in_range_pos none = none
in_range_pos (some n) = if ltb n two63 then some (pos n) else none

abbrev minus : ℕ → ℤ
minus zero = pos zero
minus (suc n) = negsuc n

abbrev in_range_neg : Option ℕ → Option ℤ
in_range_neg none = none
in_range_neg (some n) = if leb n two63 then some (minus n) else none

-- Go refuses a text with no digit.
read_digits : Text → Option ℕ
unfolding digits_value
read_digits [] = none
read_digits (c ∷ s) = digits_value 0 (c ∷ s)

-- strconv.ParseInt(s, 10, 64); `none` is an error, of syntax or of range
unfoldable pub parse_int : Text → Option ℤ
unfolding read_digits
parse_int [] = none
parse_int (c ∷ s) =
    if c == b'+'
    then in_range_pos (read_digits s)
    else if c == b'-'
    then in_range_neg (read_digits s)
    else in_range_pos (read_digits (c ∷ s))

abbrev capped_pos : Option ℕ → ℤ
capped_pos none = pos 0
capped_pos (some n) = if ltb n two63 then pos n else pos (two63 - 1)

abbrev capped_neg : Option ℕ → ℤ
capped_neg none = pos 0
capped_neg (some n) = if leb n two63 then minus n else minus two63

-- The number that strconv.ParseInt gives where its error is ignored: 0 on an error of syntax, the
-- nearest `int64` on one of range.
unfoldable pub parse_or_nearest : Text → ℤ
unfolding read_digits
parse_or_nearest [] = pos 0
parse_or_nearest (c ∷ s) =
    if c == b'+'
    then capped_pos (read_digits s)
    else if c == b'-'
    then capped_neg (read_digits s)
    else capped_pos (read_digits (c ∷ s))

digits_value-print_digits :
    (f n : ℕ) (acc : Text) → n < f → digits_value 0 (print_digits f n acc) ≡ digits_value n acc
unfolding digits_value print_digits is_digit
digits_value-print_digits zero n acc h = elim h [ ]
digits_value-print_digits (suc f) n acc h =
    ground (arith, digits_value-print_digits f (n / 10) ((48 + n % 10) ∷ acc))

AllPass-print_digits :
    (f n : ℕ) (acc : Text) → AllPass is_digit acc → AllPass is_digit (print_digits f n acc)
unfolding print_digits is_digit
AllPass-print_digits zero n acc h = h
AllPass-print_digits (suc f) n acc h = elim (Bool-cases (ltb n 10)) [
  | inl small ↦ rw small (ground arith, h)
  | inr large ↦ rw large (AllPass-print_digits f (n / 10) ((48 + n % 10) ∷ acc) (ground arith, h))
]

print_digits-ne-nil : (f n : ℕ) (c : ℕ) (acc : Text) → print_digits f n (c ∷ acc) ≢ []
unfolding print_digits
print_digits-ne-nil zero n c acc = λ e. cc
print_digits-ne-nil (suc f) n c acc = elim (Bool-cases (ltb n 10)) [
  | inl small ↦ rw small (λ e. cc)
  | inr large ↦ rw large (print_digits-ne-nil f (n / 10) (48 + n % 10) (c ∷ acc))
]

print_nat-ne-nil : (n : ℕ) → print_nat n ≢ []
unfolding print_nat
print_nat-ne-nil n = elim (Bool-cases (ltb n 10)) [
  | inl small ↦ rw small (λ e. cc)
  | inr large ↦ rw large (print_digits-ne-nil n (n / 10) (48 + n % 10) [])
]

pub AllPass-print_nat : (n : ℕ) → AllPass is_digit (print_nat n)
unfolding print_nat
AllPass-print_nat n = AllPass-print_digits (suc n) n [] tt

digits_value-print_nat : (n : ℕ) → digits_value 0 (print_nat n) ≡ some n
unfolding print_nat
digits_value-print_nat n =
    digits_value-print_digits (suc n) n [] (omega arith) ∙ (unfold digits_value in refl)

read_digits-print_nat :
    (s : Text) (n : ℕ) → s ≢ [] → digits_value 0 s ≡ some n → read_digits s ≡ some n
unfolding read_digits
read_digits-print_nat [] n ne h = absurd (ne refl)
read_digits-print_nat (c ∷ s) n ne h = h

parse_int_unsigned :
    (s : Text) → AllPass is_digit s → s ≢ [] → parse_int s ≡ in_range_pos (read_digits s)
unfolding parse_int is_digit
parse_int_unsigned [] h ne = absurd (ne refl)
parse_int_unsigned (c ∷ s) h ne = ground arith

-- Every `int64` is read back from its decimal text.
pub parse_int-print_int : (a : ℤ) → IsInt64 a → parse_int (print_int a) ≡ some a
unfolding print_int
parse_int-print_int (pos n) h =
    rw (parse_int_unsigned (print_nat n) (AllPass-print_nat n) (print_nat-ne-nil n)) (
      rw (read_digits-print_nat (print_nat n) n (print_nat-ne-nil n) (digits_value-print_nat n))
        (ground arith))
parse_int-print_int (negsuc n) h =
    unfold parse_int in
    rw
      (read_digits-print_nat (print_nat (suc n)) (suc n) (print_nat-ne-nil (suc n))
        (digits_value-print_nat (suc n)))
      (ground arith)

capped-in_range :
    (o : Option ℕ) (a : ℤ)
    → (in_range_pos o ≡ some a → capped_pos o ≡ a) × (in_range_neg o ≡ some a → capped_neg o ≡ a)
capped-in_range none a = (λ h. cc, λ h. cc)
capped-in_range (some n) a = (λ h. ground arith, λ h. ground arith)

pub parse_or_nearest-parse_int : (s : Text) (a : ℤ) → parse_int s ≡ some a → parse_or_nearest s ≡ a
unfolding parse_int parse_or_nearest
parse_or_nearest-parse_int [] a h = cc
parse_or_nearest-parse_int (c ∷ s) a h =
    ground (arith, capped-in_range (read_digits s) a, capped-in_range (read_digits (c ∷ s)) a)

in_range_pos-IsInt64 : (o : Option ℕ) (a : ℤ) → in_range_pos o ≡ some a → IsInt64 a
in_range_pos-IsInt64 o a h = ground arith

in_range_neg-IsInt64 : (o : Option ℕ) (a : ℤ) → in_range_neg o ≡ some a → IsInt64 a
in_range_neg-IsInt64 none a h = cc
in_range_neg-IsInt64 (some zero) a h = ground arith
in_range_neg-IsInt64 (some (suc n)) a h = ground arith

-- What is read is an `int64`.
pub parse_int-IsInt64 : (s : Text) (a : ℤ) → parse_int s ≡ some a → IsInt64 a
unfolding parse_int
parse_int-IsInt64 [] a h = cc
parse_int-IsInt64 (c ∷ s) a h = ground (
  arith,
  in_range_pos-IsInt64 (read_digits s) a,
  in_range_neg-IsInt64 (read_digits s) a,
  in_range_pos-IsInt64 (read_digits (c ∷ s)) a,
)

is_digit-is_plain : (c : ℕ) → is_digit c ≡ true → is_plain c ≡ true
unfolding is_digit is_plain
is_digit-is_plain c h = ground arith

pub AllPass-print_int : (a : ℤ) → AllPass is_plain (print_int a)
unfolding print_int is_plain
AllPass-print_int (pos n) =
    AllPass-imp is_digit is_plain (print_nat n) is_digit-is_plain (AllPass-print_nat n)
AllPass-print_int (negsuc n) = (
  refl,
  AllPass-imp is_digit is_plain (print_nat (suc n)) is_digit-is_plain (AllPass-print_nat (suc n)),
)

pub print_int-ne-nil : (a : ℤ) → print_int a ≢ []
unfolding print_int
print_int-ne-nil (pos n) = print_nat-ne-nil n
print_int-ne-nil (negsuc n) = λ e. cc

-- One digit of hex.EncodeToString.
unfoldable pub hex_digit : ℕ → ℕ
hex_digit d = if ltb d 10 then 48 + d else 87 + d

-- hex.EncodeToString on bytes
unfoldable pub hex_encode : List ℕ → Text
unfolding hex_digit
hex_encode [] = []
hex_encode (b ∷ bs) = hex_digit (b % 256 / 16) ∷ hex_digit (b % 16) ∷ hex_encode bs

hex_digit-is_plain : (d : ℕ) → d < 16 → is_plain (hex_digit d) ≡ true
unfolding hex_digit is_plain
hex_digit-is_plain d h = ground arith

hex_digit-to_lower : (d : ℕ) → d < 16 → to_lower (hex_digit d) ≡ hex_digit d
unfolding hex_digit to_lower
hex_digit-to_lower d h = ground arith

pub AllPass-hex_encode : (bs : List ℕ) → AllPass is_plain (hex_encode bs)
unfolding hex_encode
AllPass-hex_encode [] = tt
AllPass-hex_encode (b ∷ bs) = (
  hex_digit-is_plain _ (omega arith),
  (hex_digit-is_plain _ (omega arith), AllPass-hex_encode bs),
)

-- The program compares hexadecimal texts after lowering their letters.
pub hex_encode-to_lower : (bs : List ℕ) → map to_lower (hex_encode bs) ≡ hex_encode bs
unfolding hex_encode
hex_encode-to_lower [] = refl
hex_encode-to_lower (b ∷ bs) = cc (
  hex_digit-to_lower (b % 256 / 16) (omega arith),
  hex_digit-to_lower (b % 16) (omega arith),
  hex_encode-to_lower bs,
)
