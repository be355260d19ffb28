-- ===== src/Pricing/Charges/Split.antt =====
-- The split of the written tokens.
use native.Mathlib.Nat
use lite_api.Common.{ℕ, ◌+◌, ◌*◌, ◌/◌, ◌^◌, ◌≤◌, ◌<◌, ◌≡◌, arith}
use lite_api.Pricing.Cards.Intervals.{max_count}
use lite_api.Pricing.Charges.Parts.{write_split}

-- A share `f` of `t` parts, rounded, is at most the whole.
share-le : (w f t : ℕ) → f ≤ t → 0 < t → (w * f * 2 + t) / (2 * t) ≤ w
share-le w f t h p =
    let product : w * f ≤ w * t = Nat.mul-le-mul_left w h in
    let below : w * f * 2 + t < (w + 1) * (2 * t) = grind arith in
    let positive : 0 < 2 * t = omega arith in
    let short : (w * f * 2 + t) / (2 * t) < w + 1 = (Nat.div-lt_iff_lt-mul positive).1 below in
    omega arith

product_bound : (w f : ℕ) → w ≤ max_count → f ≤ max_count → w * f ≤ max_count * max_count
product_bound w f a b = Nat.mul-le-mul a b

-- Where tokens were written, the two counts do not add up to more than they; where the usage names more
-- than were written, they share out exactly those. The numerator fits an int64, and the two counts pass
-- the test of the usage as the three given do.
pub write_split_bounds :
    (written five hour : ℕ)
    → written ≤ max_count
    → five ≤ max_count
    → hour ≤ max_count
    → (0 < written
        → (write_split written five hour).0 + (write_split written five hour).1 ≤ written)
      × (0 < written
          → written < five + hour
          → (write_split written five hour).0 + (write_split written five hour).1 ≡ written)
      × (written * five * 2 + (five + hour) < 2 ^ 63)
      × ((write_split written five hour).0 ≤ max_count)
      × ((write_split written five hour).1 ≤ max_count)
unfolding write_split
write_split_bounds written five hour a b c =
    let product = product_bound written five a b in
    let share : 0 < five + hour
        → (written * five * 2 + (five + hour)) / (2 * (five + hour)) ≤ written =
      λ p. share-le written five (five + hour) (omega arith) p in
    (λ p. ground arith, λ p q. ground arith, omega arith, ground arith, ground arith)
