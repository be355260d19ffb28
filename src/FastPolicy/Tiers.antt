-- ===== src/FastPolicy/Tiers.antt =====
-- The tier that a request is billed by.
use lite_api.Common.{
  ◌≤◌, ◌<◌, ◌≡◌, ◌⊎◌, ◌≢◌, text_eq, string_eq, text_beq_iff, Text, true, [], arith,
}
use lite_api.Common.Strings.{trim_space, to_lower}
use lite_api.FastPolicy.{tier_rank, lower_tier, billing_tier}

-- The billed tier is the requested one or the observed one; it never ranks above the requested one,
-- and it is the observed one only if that is known, named by the upstream and strictly below.
billing_tier-le :
    (requested observed : Text)
    → let want = to_lower (trim_space requested) in
      let got = to_lower (trim_space observed) in
      let billed = billing_tier requested observed in
      ((tier_rank billed).0 ≤ (tier_rank want).0)
      × ((billed ≡ want)
          ⊎ ((billed ≡ got)
              × (got ≢ [])
              × ((tier_rank got).1 ≡ true)
              × ((tier_rank got).0 < (tier_rank want).0)))
unfolding billing_tier lower_tier
billing_tier-le requested observed =
    let got = to_lower (trim_space observed) in ground (arith, text_beq_iff got [])
