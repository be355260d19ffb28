-- ===== src/Settlement/Payable/Windows.antt =====
-- The windows of an account that a charge can go through.
use lite_api.Common.{
  ℕ, ◌≤◌, ltb, ◌||◌, if◌then◌else◌, codes, [], ◌==◌, nat_eq, string_eq, text_eq, Text, nat_beq_iff,
  Bool, true, false, some, ◌≡◌, refl, ◌⊎◌, inl, inr, arith, Bool-cases,
}
use lite_api.Common.Errors.{ok}
use lite_api.Common.Rat.{Rat}
use lite_api.Quotas.Platforms.{Instant, Calendar}
use lite_api.Quotas.Accounts.{
  Extra, Limit, extra_number, extra_int, day_or, scheduled_reset, next_reset, is_fixed,
  quota_expired, window_delta, account_quota_delta, add_used, day_length, week_length,
}

-- The moment can tell the calendar of each of these zones.
abbrev pub Knows : (Text → Bool) → Instant → Type 0
Knows zones at = (name : Text) → zones name ≡ true → (c : Calendar) × (at.zone name ≡ some c)

abbrev zone_name : Extra → Text
zone_name e = if e.timezone == [] then codes "UTC" else e.timezone

-- A window can be reset: it has no limit, or it rolls, or its schedule is in a known zone, at an hour of the
-- day and on a day of the week.
abbrev pub CanReset : (Text → Bool) → Extra → Limit → Type 0
CanReset zones e l =
    ((extra_number l.limit).num ≡ 0)
    ⊎ (is_fixed l ≡ false)
    ⊎ (zones (zone_name e) ≡ true) × (extra_int l.reset_hour ≤ 23) × (day_or e.reset_day ≤ 6)

abbrev pub CanResetAll : (Text → Bool) → Extra → Type 0
CanResetAll zones e = CanReset zones e e.daily × CanReset zones e e.weekly

module _ (zones : Text → Bool) (at : Instant) (knows : Knows zones at) (cost : Rat)
    (e : Extra) where
  scheduled_reset-ok :
      (is_weekly : Bool) (l : Limit)
      → zones (zone_name e) ≡ true
      → extra_int l.reset_hour ≤ 23
      → day_or e.reset_day ≤ 6
      → (n : ℕ) × (scheduled_reset is_weekly at e l ≡ ok n)
  unfolding scheduled_reset
  scheduled_reset-ok is_weekly l known hour day =
      let (c, there) = knows (zone_name e) known in
      let fits : (ltb 23 (extra_int l.reset_hour) || ltb 6 (day_or e.reset_day)) ≡ false =
        ground arith in
      (
        next_reset is_weekly at.now (extra_int l.reset_hour) (day_or e.reset_day) c,
        rw (scheduled_reset, there, fits) refl,
      )

  window_delta-CanReset :
      (is_weekly : Bool) (duration : ℕ) (l : Limit)
      → CanReset zones e l
      → (l' : Limit) × (window_delta is_weekly duration at cost e l ≡ ok l') × CanReset zones e l'
  unfolding window_delta
  window_delta-CanReset is_weekly duration l h =
      elim (Bool-cases ((extra_number l.limit).num == 0)) [
        | inl a ↦ (l, rw (a) refl, h)
        | inr a ↦ elim (Bool-cases (quota_expired duration at.now l)) [
          | inr b ↦ (record l { used = some (add_used false l.used cost) }, rw (a, b) refl, h)
          | inl b ↦ elim h [
            | inl none_set ↦ absurd (ground (arith, nat_beq_iff (extra_number l.limit).num 0))
            | inr (inl rolls) ↦ (
              record l { used = some (add_used true l.used cost); started = some at.now },
              rw (a, b, rolls) refl,
              inr (inl rolls),
            )
            | inr (inr (known, hour, day)) ↦ elim (Bool-cases (is_fixed l)) [
              | inr rolls ↦ (
                record l { used = some (add_used true l.used cost); started = some at.now },
                rw (a, b, rolls) refl,
                inr (inr (known, hour, day)),
              )
              | inl fixed ↦
                  let (n, run) = scheduled_reset-ok is_weekly l known hour day in
                  (
                    record l {
                      used = some (add_used true l.used cost);
                      started = some at.now;
                      reset_at = some n;
                    },
                    rw (a, b, fixed, run) refl,
                    inr (inr (known, hour, day)),
                  )
            ]
          ]
        ]
      ]

  pub account_quota_delta-CanReset :
      CanResetAll zones e
      → (e' : Extra) × (account_quota_delta at cost e ≡ ok e') × CanResetAll zones e'
  unfolding account_quota_delta
  account_quota_delta-CanReset (a, b) =
      let (daily, f, a') = window_delta-CanReset false day_length e.daily a in
      let (weekly, g, b') = window_delta-CanReset true week_length e.weekly b in
      (
        record e {
          total_used = some (add_used false e.total_used cost);
          daily = daily;
          weekly = weekly;
        },
        rw (f, g) refl,
        (a', b'),
      )
