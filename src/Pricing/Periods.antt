-- ===== src/Pricing/Periods.antt =====
-- Prices by the time of day: `clockSeconds`, `(*timePrice).validate` and `multiplierAt` of
-- internal/app/pricing.go. The time zones of package time are a parameter: what a zone makes of the
-- moment of the call, if it knows the zone.
use lite_api.Common.{
  ℕ, ◌+◌, ◌-◌, ◌*◌, ltb, leb, if◌then◌else◌, ◌==◌, nat_eq, text_eq, Text, codes, Bool, true, false,
  not, ◌&&◌, ◌||◌, List, [], ◌∷◌, Option, none, some, length,
}
use lite_api.Common.Errors.{Result, ok, err, ◌>>=◌, ◌>>◌, fail_if, bad}
use lite_api.Common.Rat.{Rat, one_rat}
use lite_api.Pricing.Numbers.{is_digit, positive_decimal, rat}

pub record Period : Type 0 where
  pub start_time : Text
  pub end_time : Text
  pub period_multiplier : Text

pub record TimePrice : Type 0 where
  pub timezone : Text
  pub weekdays_only : Bool
  pub periods : List Period

-- The local time of a moment: whether it is Saturday or Sunday, and the second of the day.
pub record LocalTime : Type 0 where
  pub is_weekend : Bool
  pub second : ℕ

-- `time.LoadLocation`, and `at.In`: a zone that is not known has no local time.
pub record Moment : Type 0 where
  pub is_zero : Bool
  pub local : Text → Option LocalTime

-- Two digits below `limit`.
unfoldable pub two_digits : ℕ → ℕ → ℕ → Option ℕ
two_digits a b limit =
    let value = (a - b'0') * 10 + (b - b'0') in
    if is_digit a && is_digit b && ltb value limit then some value else none

unfoldable pub clock_of : Option ℕ → Option ℕ → Option ℕ → Option ℕ
clock_of (some h) (some m) (some s) = some (h * 3600 + m * 60 + s)
clock_of (some h) (some m) none = none
clock_of (some h) none s = none
clock_of none m s = none

-- `HH:mm` or `HH:mm:ss`.
unfoldable pub clock_text : Text → Option ℕ
clock_text (a ∷ b ∷ x ∷ c ∷ d ∷ []) =
    if x == b':' then clock_of (two_digits a b 24) (two_digits c d 60) (some 0) else none
clock_text (a ∷ b ∷ x ∷ c ∷ d ∷ y ∷ e ∷ f ∷ []) =
    if x == b':' && y == b':'
    then clock_of (two_digits a b 24) (two_digits c d 60) (two_digits e f 60)
    else none
clock_text _ = none

-- `clockSeconds`: midnight as an end is the end of the day.
unfoldable pub clock_seconds : Text → Bool → Option ℕ
clock_seconds s is_end =
    if is_end && (s == codes "00:00" || s == codes "00:00:00") then some 86400 else clock_text s

-- The bounds of a period, if they are in order.
unfoldable pub ordered_span : Option ℕ → Option ℕ → Option (ℕ × ℕ)
ordered_span none end = none
ordered_span (some start) none = none
ordered_span (some start) (some end) = if ltb start end then some (start, end) else none

unfoldable pub span_of : Period → Option (ℕ × ℕ)
span_of p =
    if p.start_time == p.end_time
    then none
    else ordered_span (clock_seconds p.start_time false) (clock_seconds p.end_time true)

-- The loop over the periods.
unfoldable pub checked_spans : List Period → Result (List (ℕ × ℕ))
checked_spans [] = ok []
checked_spans (p ∷ ps) = elim (span_of p) [
  | none ↦ err (bad "invalid pricing time interval")
  | some span ↦ do
    fail_if (not (positive_decimal p.period_multiplier 6 2))
        (bad "time multiplier must be positive with at most two decimal places")
    rest ← checked_spans ps
    ok (span ∷ rest)
]

-- `sort.Slice` by the start.
unfoldable pub insert_span : ℕ × ℕ → List (ℕ × ℕ) → List (ℕ × ℕ)
insert_span s [] = s ∷ []
insert_span s (t ∷ ts) = if ltb t.0 s.0 then t ∷ insert_span s ts else s ∷ t ∷ ts

unfoldable pub sort_spans : List (ℕ × ℕ) → List (ℕ × ℕ)
sort_spans [] = []
sort_spans (s ∷ ss) = insert_span s (sort_spans ss)

-- Whether two neighbours overlap.
unfoldable pub spans_overlap : List (ℕ × ℕ) → Bool
spans_overlap [] = false
spans_overlap (s ∷ []) = false
spans_overlap (s ∷ t ∷ ts) = ltb t.0 s.1 || spans_overlap (t ∷ ts)

-- `(*timePrice).validate`, on a policy that is there.
unfoldable pub validate_time : Moment → TimePrice → Result (Unit {0})
validate_time at p =
    if length p.periods == 0
    then ok tt
    else if p.timezone == [] || p.timezone == codes "Local"
    then err (bad "an explicit timezone is required")
    else elim (at.local p.timezone) [
      | none ↦ err (bad "invalid timezone")
      | some _ ↦ do
        fail_if (ltb 100 (length p.periods)) (bad "too many pricing periods")
        spans ← checked_spans p.periods
        fail_if (spans_overlap (sort_spans spans)) (bad "pricing periods overlap")
        ok tt
    ]

-- `sec >= start && sec < end`; a time that has no reading is 0, as in the source.
unfoldable pub second_of : Option ℕ → ℕ
second_of none = 0
second_of (some s) = s

unfoldable pub in_period : ℕ → Period → Bool
in_period sec p =
    leb (second_of (clock_seconds p.start_time false)) sec
    && ltb sec (second_of (clock_seconds p.end_time true))

unfoldable pub period_at : ℕ → List Period → Rat
period_at sec [] = one_rat
period_at sec (p ∷ ps) = if in_period sec p then rat p.period_multiplier else period_at sec ps

unfoldable pub local_multiplier : TimePrice → Option LocalTime → Rat
local_multiplier p none = one_rat
local_multiplier p (some t) =
    if p.weekdays_only && t.is_weekend then one_rat else period_at t.second p.periods

-- `multiplierAt`.
unfoldable pub multiplier_at : Option TimePrice → Moment → Rat
multiplier_at none at = one_rat
multiplier_at (some p) at =
    if length p.periods == 0 || at.is_zero
    then one_rat
    else local_multiplier p (at.local p.timezone)
