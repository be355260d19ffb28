-- ===== src/Quotas/Accounts.antt =====
-- What an account may be charged: extraNumber, quotaExpired, accountQuotaAvailable and accountQuotaDelta
-- of internal/app/quotas.go.
use lite_api.Common.{
  ℕ, ◌+◌, ◌-◌, ◌*◌, ◌/◌, ◌%◌, ◌^◌, ltb, leb, if◌then◌else◌, ◌==◌, nat_eq, string_eq, text_eq, Text,
  codes, Bool, true, false, not, ◌&&◌, ◌||◌, [], ◌∷◌, Option, none, some,
}
use lite_api.Common.Int.{pos}
use lite_api.Common.Errors.{Result, ok, err, ◌>>=◌, bad}
use lite_api.Common.Rat.{Rat, zero_rat, ◌+ℚ◌, round_to}
use lite_api.Pricing.Numbers.{read_digits, valid_number, rat}
use lite_api.Quotas.Platforms.{Calendar, Instant}

-- A number in the column `extra` of an account: a text, or what a settlement wrote with 8 digits.
pub data Amount : Type 0 where
  written : Text → Amount
  units : ℕ → Amount

-- `rat(extraNumber(…))`: what is no price of 12 digits before and behind the point counts as 0.
unfoldable pub extra_number : Option Amount → Rat
extra_number none = zero_rat
extra_number (some (written t)) = if valid_number t 12 12 then rat t else zero_rat
extra_number (some (units n)) =
    if ltb (n / 10 ^ 8) (10 ^ 12) then record { num = n; den = 10 ^ 8 } else zero_rat

-- `Int64`: a text that is not all digits reads as 0.
unfoldable pub whole_digits : ℕ × ℕ × Text → ℕ
whole_digits (value, count, []) = value
whole_digits (value, count, c ∷ s) = 0

unfoldable pub extra_int : Option Text → ℕ
extra_int none = 0
extra_int (some t) = if valid_number t 12 12 then whole_digits (read_digits 0 0 t) else 0

-- The entries `quota_<window>_…` of an account. A time that does not parse is none.
pub record Limit : Type 0 where
  pub limit : Option Amount
  pub used : Option Amount
  pub reset_mode : Text
  pub started : Option ℕ
  pub reset_at : Option ℕ
  pub reset_hour : Option Text

-- The entries of `extra` that quotas read and write.
pub record Extra : Type 0 where
  pub total_limit : Option Amount
  pub total_used : Option Amount
  pub daily : Limit
  pub weekly : Limit
  pub reset_day : Option Text
  pub timezone : Text

abbrev pub is_fixed : Limit → Bool
is_fixed l = l.reset_mode == codes "fixed"

unfoldable pub is_over : ℕ → ℕ → Option ℕ → Bool
is_over duration now none = true
is_over duration now (some start) = leb (start + duration) now

-- `quotaExpired`, with the length of the window.
unfoldable pub quota_expired : ℕ → ℕ → Limit → Bool
quota_expired duration now l =
    if is_fixed l then is_over 0 now l.reset_at else is_over duration now l.started

-- 24 and 168 hours.
abbrev pub day_length : ℕ
day_length = 86400

abbrev pub week_length : ℕ
week_length = 604800

-- `Cmp(…) >= 0`.
unfoldable pub at_least : Rat → Rat → Bool
at_least r s = leb (s.num * r.den) (r.num * s.den)

-- The body of the loop: whether the window leaves something.
unfoldable pub leaves_some : Bool → Option Amount → Option Amount → Bool
leaves_some expired limit used =
    if (extra_number limit).num == 0
    then true
    else if expired
    then true
    else not (at_least (extra_number used) (extra_number limit))

-- `accountQuotaAvailable`.
unfoldable pub account_quota_available : Extra → ℕ → Bool
account_quota_available e now =
    leaves_some false e.total_limit e.total_used
    && leaves_some (quota_expired day_length now e.daily) e.daily.limit e.daily.used
    && leaves_some (quota_expired week_length now e.weekly) e.weekly.limit e.weekly.used

-- `add`.
unfoldable pub add_used : Bool → Option Amount → Rat → Amount
add_used reset used cost =
    units (round_to 8 ((if reset then zero_rat else extra_number used) +ℚ cost))

-- The day of the week at which a week ends: Monday if none is given.
unfoldable pub day_or : Option Text → ℕ
day_or none = 1
day_or (some t) = extra_int (some t)

-- Days from the given day of the week to the next one asked for.
unfoldable pub days_ahead : Bool → ℕ → ℕ → ℕ
days_ahead is_weekly weekday day = if is_weekly then ((day + 7) - weekday) % 7 else 0

unfoldable pub next_reset : Bool → ℕ → ℕ → ℕ → Calendar → ℕ
next_reset is_weekly now hour day c =
    let ahead = days_ahead is_weekly c.weekday day in
    let next = c.time_at (pos ahead) hour in
    if ltb now next then next else c.time_at (pos (ahead + (if is_weekly then 7 else 1))) hour

-- The next reset of a fixed window.
unfoldable pub scheduled_reset : Bool → Instant → Extra → Limit → Result ℕ
scheduled_reset is_weekly at e l =
    elim (at.zone (if e.timezone == [] then codes "UTC" else e.timezone)) [
      | none ↦ err (bad "invalid quota reset timezone")
      | some c ↦
          if ltb 23 (extra_int l.reset_hour) || ltb 6 (day_or e.reset_day)
          then err (bad "invalid quota reset schedule")
          else ok (next_reset is_weekly at.now (extra_int l.reset_hour) (day_or e.reset_day) c)
    ]

-- What the loop adds of one window.
unfoldable pub window_delta : Bool → ℕ → Instant → Rat → Extra → Limit → Result Limit
window_delta is_weekly duration at cost e l =
    if (extra_number l.limit).num == 0
    then ok l
    else if not (quota_expired duration at.now l)
    then ok (record l { used = some (add_used false l.used cost) })
    else if not (is_fixed l)
    then ok (record l { used = some (add_used true l.used cost); started = some at.now })
    else (do
      reset ← scheduled_reset is_weekly at e l
      ok (record l {
        used = some (add_used true l.used cost);
        started = some at.now;
        reset_at = some reset;
      }))

-- `accountQuotaDelta`, put into the entries as `extra || delta` does.
unfoldable pub account_quota_delta : Instant → Rat → Extra → Result Extra
account_quota_delta at cost e = do
  daily ← window_delta false day_length at cost e e.daily
  weekly ← window_delta true week_length at cost e e.weekly
  ok (record e {
    total_used = some (add_used false e.total_used cost);
    daily = daily;
    weekly = weekly;
  })
