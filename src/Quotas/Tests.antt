-- ===== src/Quotas/Tests.antt =====
-- An account and a platform with a small limit.
use lite_api.Common.{
  ℕ, ◌+◌, ◌^◌, ◌<◌, ◌≤◌, ◌*◌, nat_eq, ◌≡◌, refl, inl, codes, true, false, [], none, some, arith,
  text_beq, if◌then◌else◌,
}
use lite_api.Common.Errors.{Result, ok, err, api_error}
use lite_api.Common.Rat.{Rat, ◌+ℚ◌, round_to, is_exact}
use lite_api.Pricing.Numbers.{
  is_digit, read_digits, starts_with_zero, good_whole, finish_exponent, signed_exponent,
  read_exponent, finish_fraction, read_fraction, read_whole, decimal, magnitude, rat_of, rat,
  fits_price, valid_number, valid_price, positive_decimal, valid_multiplier, decimal_or,
}
use lite_api.Quotas.Platforms.{
  Instant, Calendar, Window, PlatformQuota, quota_starts, starts_at, lasts_until, reaches,
  is_blocked, check_platform_quota, add_dated, add_rolling, increment_platform_quota,
}
use lite_api.Quotas.Accounts.{
  written, units, Limit, Extra, extra_number, whole_digits, extra_int, is_over, quota_expired,
  at_least, leaves_some, account_quota_available, add_used, day_or, days_ahead, next_reset,
  scheduled_reset, window_delta, account_quota_delta,
}
use lite_api.Quotas.Spending.{account_quota_delta-spent, increment_platform_quota-IsBlocked}

abbrev calendar : Calendar
calendar = record { weekday = 3; time_at = λ days hour. 1000 }

abbrev moment : Instant
moment = record {
  now = 5000;
  database_now = 5000;
  database_day = 1000;
  shanghai = calendar;
  zone = λ name. some calendar;
}

abbrev unlimited : Limit
unlimited = record {
  limit = none;
  used = none;
  reset_mode = [];
  started = none;
  reset_at = none;
  reset_hour = none;
}

abbrev extra : Extra
extra = record {
  total_limit = some (written (codes "1.5"));
  total_used = some (units 100000000);
  daily = unlimited;
  weekly = record unlimited { limit = some (written (codes "9")) };
  reset_day = none;
  timezone = [];
}

-- Half a unit.
abbrev half : Rat
half = record { num = 1; den = 2 }

-- What the tests run.
runs : ℕ
unfolding is_digit read_digits starts_with_zero good_whole finish_exponent signed_exponent
    read_exponent finish_fraction read_fraction read_whole decimal magnitude rat_of rat fits_price
    valid_number valid_price positive_decimal valid_multiplier decimal_or quota_starts starts_at
    lasts_until reaches is_blocked check_platform_quota add_dated add_rolling
    increment_platform_quota extra_number whole_digits extra_int is_over quota_expired at_least
    leaves_some account_quota_available add_used day_or days_ahead next_reset scheduled_reset
    window_delta account_quota_delta ◌+ℚ◌ round_to is_exact text_beq
runs = 0

abbrev extra_of : Result Extra → Extra
extra_of (ok e) = e
extra_of (err x) = extra

abbrev call : Result Extra
call = account_quota_delta moment half extra

call-ok : call ≡ ok (extra_of call)
unfolding runs
call-ok = refl

-- The week begins with the first request.
week_started : (extra_of call).weekly.started ≡ some 5000
unfolding runs
week_started = refl

limit_positive : 0 < (extra_number extra.total_limit).num
unfolding runs
limit_positive = omega arith

limit_exact : is_exact 8 (extra_number extra.total_limit) ≡ true
unfolding runs
limit_exact = refl

reached : at_least (extra_number extra.total_used +ℚ half) (extra_number extra.total_limit) ≡ true
unfolding runs
reached = refl

small :
    (extra_number extra.total_used +ℚ half).num + (extra_number extra.total_used +ℚ half).den
    ≤ 10 ^ 12 * (extra_number extra.total_used +ℚ half).den
unfolding runs
small = omega arith

account_quota_delta-spent_example : account_quota_available (extra_of call) 6000 ≡ false
account_quota_delta-spent_example =
    account_quota_delta-spent moment half extra (extra_of call) 6000 (omega arith) call-ok
      limit_positive limit_exact reached small

abbrev window : Window
window = record { limit = some 10; usage = 4; start = some 1000 }

abbrev platform : PlatformQuota
platform = record { daily = window; weekly = window; monthly = window }

day_full : 10 ≤ 6 + (if starts_at (quota_starts moment).0 (some 1000) then 4 else 0)
unfolding runs
day_full = omega arith

increment_platform_quota-IsBlocked_example :
    check_platform_quota moment (some (increment_platform_quota moment 6 platform))
    ≡ err (api_error 429 "platform spending limit exceeded")
increment_platform_quota-IsBlocked_example =
    increment_platform_quota-IsBlocked moment moment 6 platform 10 (inl (refl, refl, day_full))
