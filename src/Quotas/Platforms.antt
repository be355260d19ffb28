-- ===== src/Quotas/Platforms.antt =====
-- What a user may spend on a platform: quotaStarts, checkPlatformQuota and incrementPlatformQuota of
-- internal/app/quotas.go.
use lite_api.Common.{
  ℕ, zero, suc, ◌+◌, ◌%◌, ltb, leb, if◌then◌else◌, ◌==◌, nat_eq, string_eq, text_eq, Text, Bool,
  false, ◌||◌, Option, none, some,
}
use lite_api.Common.Int.{ℤ, pos, negsuc}
use lite_api.Common.Errors.{Result, ok, err, api_error}

-- The local date of a moment: its day of the week, with 0 for Sunday, and the time at an hour of the day
-- that is some days later.
pub record Calendar : Type 0 where
  pub weekday : ℕ
  pub time_at : ℤ → ℕ → ℕ

-- The moment of a call: `time.Now()`, `now()` of the database, the start of its day, and the zones; that
-- of Shanghai is known.
pub record Instant : Type 0 where
  pub now : ℕ
  pub database_now : ℕ
  pub database_day : ℕ
  pub shanghai : Calendar
  pub zone : Text → Option Calendar

abbrev negated : ℕ → ℤ
negated zero = pos 0
negated (suc n) = negsuc n

-- `quotaStarts`: the start of the day and of the week, which begins on Monday.
unfoldable pub quota_starts : Instant → ℕ × ℕ
quota_starts at =
    let c = at.shanghai in (c.time_at (pos 0) 0, c.time_at (negated ((c.weekday + 6) % 7)) 0)

-- The columns of one window of a platform quota.
pub record Window : Type 0 where
  pub limit : Option ℕ
  pub usage : ℕ
  pub start : Option ℕ

-- The row of a user and a platform.
pub record PlatformQuota : Type 0 where
  pub daily : Window
  pub weekly : Window
  pub monthly : Window

unfoldable pub starts_at : ℕ → Option ℕ → Bool
starts_at start none = false
starts_at start (some s) = s == start

-- `start + interval > now`; the null of the column is not.
unfoldable pub lasts_until : ℕ → ℕ → Option ℕ → Bool
lasts_until duration now none = false
lasts_until duration now (some s) = ltb now (s + duration)

-- 720 hours.
abbrev pub month : ℕ
month = 2592000

unfoldable pub reaches : Option ℕ → ℕ → Bool
reaches none used = false
reaches (some limit) used = leb limit used

unfoldable pub is_blocked : Instant → PlatformQuota → Bool
is_blocked at q =
    let (day, week) = quota_starts at in
    reaches q.daily.limit (if starts_at day q.daily.start then q.daily.usage else 0)
    || reaches q.weekly.limit (if starts_at week q.weekly.start then q.weekly.usage else 0)
    || reaches q.monthly.limit
        (if lasts_until month at.database_now q.monthly.start then q.monthly.usage else 0)

-- `checkPlatformQuota`, with the row, if there is one.
unfoldable pub check_platform_quota : Instant → Option PlatformQuota → Result (Unit {0})
check_platform_quota at none = ok tt
check_platform_quota at (some q) =
    if is_blocked at q then err (api_error 429 "platform spending limit exceeded") else ok tt

-- A window of the calendar.
unfoldable pub add_dated : ℕ → ℕ → Window → Window
add_dated start cost w = record w {
  usage = if starts_at start w.start then w.usage + cost else cost;
  start = some start;
}

-- The month, which rolls.
unfoldable pub add_rolling : ℕ → ℕ → Window → Window
add_rolling now cost w = record w {
  usage = if lasts_until month now w.start then w.usage + cost else cost;
  start = if lasts_until month now w.start then w.start else some now;
}

-- `incrementPlatformQuota`, on a row that is there.
unfoldable pub increment_platform_quota : Instant → ℕ → PlatformQuota → PlatformQuota
increment_platform_quota at cost q =
    let (day, week) = quota_starts at in
    record {
      daily = add_dated day cost q.daily;
      weekly = add_dated week cost q.weekly;
      monthly = add_rolling at.now cost q.monthly;
    }
