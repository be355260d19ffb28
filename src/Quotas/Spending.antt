-- ===== src/Quotas/Spending.antt =====
-- A quota that is used up stops further requests.
use native.Mathlib.Nat
use mathlib.Core.Path.{subst}
use lite_api.Common.{
  ℕ, ◌+◌, ◌*◌, ◌/◌, ◌%◌, ◌^◌, ◌≤◌, ◌<◌, ltb, if◌then◌else◌, nat_eq, text_eq, nat_beq_iff, true,
  false, Option, none, some, ◌≡◌, refl, ap, ◌⊎◌, inl, inr, arith, Bool-cases,
}
use lite_api.Common.Errors.{ok, err, >>=-eq-ok, api_error}
use lite_api.Common.Rat.{Rat, ◌+ℚ◌, round_to, is_exact}
use lite_api.Pricing.Numbers.{valid_number}
use lite_api.Pricing.Charges.Proper.{IsProper, rat-IsProper, add-IsProper}
use lite_api.Quotas.Platforms.{
  Instant, PlatformQuota, Window, quota_starts, starts_at, lasts_until, month, reaches, is_blocked,
  check_platform_quota, add_dated, add_rolling, increment_platform_quota,
}
use lite_api.Quotas.Accounts.{
  Amount, written, units, extra_number, Extra, at_least, leaves_some, account_quota_available,
  add_used, window_delta, account_quota_delta, day_length, week_length,
}

extra_number-IsProper : (a : Option Amount) → IsProper (extra_number a)
unfolding extra_number
extra_number-IsProper none = omega arith
extra_number-IsProper (some (written t)) = elim (Bool-cases (valid_number t 12 12)) [
  | inl e ↦ rw (e) (rat-IsProper t)
  | inr e ↦ rw (e) (omega arith)
]
extra_number-IsProper (some (units n)) = elim (Bool-cases (ltb (n / 10 ^ 8) (10 ^ 12))) [
  | inl e ↦ rw (e) (omega arith)
  | inr e ↦ rw (e) (omega arith)
]

scaled-le : (k l n d t c : ℕ) → k * l ≡ n * c → n * d ≤ t * l → k * d * l ≤ t * c * l
scaled-le k l n d t c same h =
    let more : n * d * c ≤ t * l * c = Nat.mul-le-mul_right c h in
    let swapped : k * l * d ≡ n * c * d = ap (λ x. x * d) same in grind arith

-- A limit with 8 digits is reached by the rounded sum if it is reached by the exact one.
rounded-reaches :
    (limit sum : Rat)
    → IsProper limit
    → IsProper sum
    → is_exact 8 limit ≡ true
    → at_least sum limit ≡ true
    → limit.num * 10 ^ 8 ≤ round_to 8 sum * limit.den
unfolding is_exact at_least round_to
rounded-reaches limit sum p q exact reached =
    let k = limit.num * 10 ^ 8 / limit.den in
    let none_left : (limit.num * 10 ^ 8) % limit.den ≡ 0 = (nat_beq_iff _ 0).0 exact in
    let parts = Nat.div-add-mod' (limit.num * 10 ^ 8) limit.den in
    let whole : k * limit.den ≡ limit.num * 10 ^ 8 = grind arith in
    let sums : limit.num * sum.den ≤ sum.num * limit.den = ground arith in
    let scaled : k * sum.den * limit.den ≤ sum.num * 10 ^ 8 * limit.den =
      scaled-le k limit.den limit.num sum.den sum.num (10 ^ 8) whole sums in
    let cancelled : k * sum.den ≤ sum.num * 10 ^ 8 = Nat.le_of_mul-le-mul_right scaled p in
    let twice : k * (2 * sum.den) ≤ sum.num * 10 ^ 8 * 2 + sum.den = grind arith in
    let positive : 0 < 2 * sum.den = grind arith in
    let below : k ≤ (sum.num * 10 ^ 8 * 2 + sum.den) / (2 * sum.den) =
      (Nat.le-div_iff_mul-le positive).1 twice in
    let more = Nat.mul-le-mul_right limit.den below in grind arith

-- The exact sum of what was used and the cost.
abbrev pub used_sum : Extra → Rat → Rat
used_sum e cost = extra_number e.total_used +ℚ cost

-- The number that is stored reads as itself, as long as it has at most 12 digits before the point.
stored_number :
    (sum : Rat)
    → IsProper sum
    → sum.num + sum.den ≤ 10 ^ 12 * sum.den
    → extra_number (some (units (round_to 8 sum))) ≡ record { num = round_to 8 sum; den = 10 ^ 8 }
unfolding extra_number round_to
stored_number sum p small =
    let hundred_million : 0 < 10 ^ 8 = omega arith in
    let positive : 0 < 2 * sum.den = grind arith in
    let top : sum.num * 10 ^ 8 * 2 + sum.den < 10 ^ 20 * (2 * sum.den) = grind arith in
    let below : (sum.num * 10 ^ 8 * 2 + sum.den) / (2 * sum.den) < 10 ^ 20 =
      (Nat.div-lt_iff_lt-mul positive).1 top in
    let short : (sum.num * 10 ^ 8 * 2 + sum.den) / (2 * sum.den) / 10 ^ 8 < 10 ^ 12 =
      (Nat.div-lt_iff_lt-mul hundred_million).1 below in
    ground arith

leaves_some-reached :
    (limit used : Option Amount) (v : Rat)
    → 0 < (extra_number limit).num
    → extra_number used ≡ v
    → (extra_number limit).num * v.den ≤ v.num * (extra_number limit).den
    → leaves_some false limit used ≡ false
unfolding leaves_some at_least
leaves_some-reached limit used v positive same h = ground arith

-- The account is no longer available once the exact amount used reaches its limit: rounding what is
-- stored to 8 digits does not let a request more through. The limit has at most 8 digits behind the
-- point, and the sum stays a unit below `10 ^ 12`, above which the stored number would not be read.
pub account_quota_delta-spent :
    (at : Instant) (cost : Rat) (e e' : Extra) (later : ℕ)
    → IsProper cost
    → account_quota_delta at cost e ≡ ok e'
    → 0 < (extra_number e.total_limit).num
    → is_exact 8 (extra_number e.total_limit) ≡ true
    → at_least (used_sum e cost) (extra_number e.total_limit) ≡ true
    → (used_sum e cost).num + (used_sum e cost).den ≤ 10 ^ 12 * (used_sum e cost).den
    → account_quota_available e' later ≡ false
unfolding account_quota_delta account_quota_available add_used
account_quota_delta-spent at cost e e' later p run positive exact reached small =
    let (daily, f, run') = >>=-eq-ok (window_delta false day_length at cost e e.daily) _ run in
    let (weekly, g, run'') = >>=-eq-ok (window_delta true week_length at cost e e.weekly) _ run' in
    let proper =
      add-IsProper (extra_number e.total_used) cost (extra_number-IsProper e.total_used) p in
    let reached' =
      rounded-reaches (extra_number e.total_limit) (used_sum e cost)
        (extra_number-IsProper e.total_limit) proper exact reached in
    let stored = stored_number (used_sum e cost) proper small in
    let stops =
      leaves_some-reached e.total_limit (some (units (round_to 8 (used_sum e cost)))) _ positive
        stored reached' in
    let same : record e {
      total_used = some (add_used false e.total_used cost);
      daily = daily;
      weekly = weekly;
    }
        ≡ e' =
      ground arith in
    subst (λ x. account_quota_available x later ≡ false) same (rw (stops) refl)

dated-reaches :
    (start cost limit : ℕ) (w : Window)
    → w.limit ≡ some limit
    → limit ≤ cost + (if starts_at start w.start then w.usage else 0)
    → reaches (add_dated start cost w).limit (
        if starts_at start (add_dated start cost w).start
        then (add_dated start cost w).usage
        else 0)
      ≡ true
unfolding reaches starts_at add_dated
dated-reaches start cost limit w e h = elim (Bool-cases (starts_at start w.start)) [
  | inl f ↦ ground (arith, e, h, f, nat_beq_iff start start)
  | inr f ↦ ground (arith, e, h, f, nat_beq_iff start start)
]

rolling-reaches :
    (now later cost limit : ℕ) (w : Window)
    → w.limit ≡ some limit
    → limit ≤ cost + (if lasts_until month now w.start then w.usage else 0)
    → lasts_until month later (add_rolling now cost w).start ≡ true
    → reaches (add_rolling now cost w).limit (
        if lasts_until month later (add_rolling now cost w).start
        then (add_rolling now cost w).usage
        else 0)
      ≡ true
unfolding reaches add_rolling
rolling-reaches now later cost limit w e h soon =
    elim (Bool-cases (lasts_until month now w.start)) [
      | inl f ↦ rw (soon, e, f) (ground arith)
      | inr f ↦ rw (soon, e, f) (ground arith)
    ]

-- A day, a week or a month that the cost of a request fills to its limit blocks the user's requests to the
-- platform until that window is over: a full day as long as the day starts at the same time, a full week
-- on all days of the week, and a full month before the month of the row has passed.
pub increment_platform_quota-IsBlocked :
    (at later : Instant) (cost : ℕ) (q : PlatformQuota) (limit : ℕ)
    → (q.daily.limit ≡ some limit)
        × ((quota_starts later).0 ≡ (quota_starts at).0)
        × (limit
            ≤ cost + (if starts_at (quota_starts at).0 q.daily.start then q.daily.usage else 0))
      ⊎ (q.weekly.limit ≡ some limit)
        × ((quota_starts later).1 ≡ (quota_starts at).1)
        × (limit
            ≤ cost + (if starts_at (quota_starts at).1 q.weekly.start then q.weekly.usage else 0))
      ⊎ (q.monthly.limit ≡ some limit)
        × (limit ≤ cost + (if lasts_until month at.now q.monthly.start then q.monthly.usage else 0))
        × (lasts_until month later.database_now (add_rolling at.now cost q.monthly).start ≡ true)
    → check_platform_quota later (some (increment_platform_quota at cost q))
      ≡ err (api_error 429 "platform spending limit exceeded")
unfolding check_platform_quota is_blocked increment_platform_quota
increment_platform_quota-IsBlocked at later cost q limit h = elim h [
  | inl (e, same, f) ↦
      let full = dated-reaches (quota_starts at).0 cost limit q.daily e f in rw (same, full) refl
  | inr (inl (e, same, f)) ↦
      let full = dated-reaches (quota_starts at).1 cost limit q.weekly e f in
      rw (same, full) (ground arith)
  | inr (inr (e, f, soon)) ↦
      let full = rolling-reaches at.now later.database_now cost limit q.monthly e f soon in
      rw full (ground arith)
]
