-- ===== src/Pricing/Numbers.antt =====
-- `json.Number` and the tests on prices: `positiveDecimal`, `validPrice`, `validMultiplier`, `rat` and
-- `decimalOr` of internal/app/pricing.go. A text is read by the grammar of JSON's numbers, which all
-- texts have that pass both `json.Valid` and `SetString`.
use lite_api.Common.{
  ℕ, zero, suc, ◌+◌, ◌-◌, ◌*◌, ◌/◌, ◌^◌, ltb, leb, if◌then◌else◌, ◌==◌, nat_eq, Text, Bool, true,
  false, not, ◌&&◌, ◌||◌, [], ◌∷◌, Option, none, some,
}
use lite_api.Common.Strings.{byte_len}
use lite_api.Common.Rat.{Rat, zero_rat, is_positive, round_to, is_exact}

-- The number `mantissa / 10 ^ fraction * 10 ^ exponent`, with the signs beside it.
pub record Decimal : Type 0 where
  pub negative : Bool
  pub mantissa : ℕ
  pub fraction : ℕ
  pub exponent_negative : Bool
  pub exponent : ℕ

unfoldable pub is_digit : ℕ → Bool
is_digit c = leb b'0' c && leb c b'9'

-- The digits at the head of a text: the number so far, how many they are, and the rest.
unfoldable pub read_digits : ℕ → ℕ → Text → ℕ × ℕ × Text
read_digits value count [] = (value, count, [])
read_digits value count (c ∷ s) =
    let rest = read_digits (value * 10 + (c - b'0')) (count + 1) s in
    if is_digit c then rest else (value, count, c ∷ s)

unfoldable pub starts_with_zero : Text → Bool
starts_with_zero [] = false
starts_with_zero (c ∷ s) = c == b'0'

-- `1`, `12`, `0` but not `01` or the empty text.
unfoldable pub good_whole : Text → ℕ → Bool
good_whole s count = ltb 0 count && (count == 1 || not (starts_with_zero s))

unfoldable pub finish_exponent : Decimal → Bool → ℕ × ℕ × Text → Option Decimal
finish_exponent d negative (value, zero, rest) = none
finish_exponent d negative (value, suc count, c ∷ rest) = none
finish_exponent d negative (value, suc count, []) =
    some (record d { exponent_negative = negative; exponent = value })

unfoldable pub signed_exponent : Decimal → Text → Option Decimal
signed_exponent d [] = none
signed_exponent d (c ∷ s) =
    if c == b'-'
    then finish_exponent d true (read_digits 0 0 s)
    else if c == b'+'
    then finish_exponent d false (read_digits 0 0 s)
    else finish_exponent d false (read_digits 0 0 (c ∷ s))

unfoldable pub read_exponent : Decimal → Text → Option Decimal
read_exponent d [] = some d
read_exponent d (c ∷ s) = if c == b'e' || c == b'E' then signed_exponent d s else none

unfoldable pub finish_fraction : Bool → ℕ × ℕ × Text → Option Decimal
finish_fraction negative (value, zero, rest) = none
finish_fraction negative (value, suc count, rest) =
    read_exponent
      (record {
        negative = negative;
        mantissa = value;
        fraction = suc count;
        exponent_negative = false;
        exponent = 0;
      })
      rest

abbrev pub plain : Bool → ℕ → Decimal
plain negative value = record {
  negative = negative;
  mantissa = value;
  fraction = 0;
  exponent_negative = false;
  exponent = 0;
}

unfoldable pub read_fraction : Bool → ℕ → Text → Option Decimal
read_fraction negative value [] = some (plain negative value)
read_fraction negative value (c ∷ s) =
    if c == b'.'
    then finish_fraction negative (read_digits value 0 s)
    else read_exponent (plain negative value) (c ∷ s)

unfoldable pub read_whole : Bool → Text → Option Decimal
read_whole negative s =
    let (value, count, rest) = read_digits 0 0 s in
    if good_whole s count then read_fraction negative value rest else none

-- The number that a text writes.
unfoldable pub decimal : Text → Option Decimal
decimal [] = none
decimal (c ∷ s) = if c == b'-' then read_whole true s else read_whole false (c ∷ s)

-- The absolute value.
unfoldable pub magnitude : Decimal → Rat
magnitude d =
    if d.exponent_negative
    then record { num = d.mantissa; den = 10 ^ (d.fraction + d.exponent) }
    else record {
      num = d.mantissa * 10 ^ (d.exponent - d.fraction);
      den = 10 ^ (d.fraction - d.exponent);
    }

-- `rat`. A text without a number, which the tests below refuse, reads as 0.
unfoldable pub rat_of : Option Decimal → Rat
rat_of none = zero_rat
rat_of (some d) = magnitude d

unfoldable pub rat : Text → Rat
unfolding rat_of
rat n = rat_of (decimal n)

-- The tests of `validPrice` on the value.
unfoldable pub fits_price : ℕ → ℕ → Option Decimal → Bool
fits_price integer scale none = false
fits_price integer scale (some d) =
    leb d.exponent 100
    && not (d.negative && ltb 0 d.mantissa)
    && ltb (round_to scale (magnitude d) / 10 ^ scale) (10 ^ integer)
    && is_exact scale (magnitude d)

-- `validPrice` on a price that is there: at most `integer` digits before the point, and none after the
-- first `scale` behind it.
unfoldable pub valid_number : Text → ℕ → ℕ → Bool
valid_number raw integer scale = leb (byte_len raw) 100 && fits_price integer scale (decimal raw)

abbrev pub Price : Type 0
Price = Option Text

-- `validPrice`.
unfoldable pub valid_price : Price → ℕ → ℕ → Bool
valid_price none integer scale = true
valid_price (some raw) integer scale = valid_number raw integer scale

-- `positiveDecimal`.
unfoldable pub positive_decimal : Text → ℕ → ℕ → Bool
positive_decimal n integer scale = valid_number n integer scale && is_positive (rat n)

-- `validMultiplier`.
unfoldable pub valid_multiplier : Price → Bool
valid_multiplier none = true
valid_multiplier (some n) = positive_decimal n 6 6

-- `decimalOr`.
unfoldable pub decimal_or : Price → Rat → Rat
decimal_or none fallback = fallback
decimal_or (some n) fallback = rat n
