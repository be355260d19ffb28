-- ===== src/Pricing/Charges/Rounding/Amounts.antt =====
-- The amounts before the rounding are proper fractions.
use lite_api.Common.{
  ℕ, inl, inr, ltb, if◌then◌else◌, ◌==◌, nat_eq, string_eq, text_eq, ◌≡◌, refl, Text, String, Bool,
  ◌||◌, ◌&&◌, none, some, Bool-cases, arith,
}
use lite_api.Common.Errors.{Result, ok, err, ◌>>=◌, >>=-eq-ok}
use lite_api.Common.Strings.{trim_space, to_lower}
use lite_api.Common.Rat.{Rat, zero_rat, ◌*ℚ◌}
use lite_api.Pricing.Numbers.{Price, rat}
use lite_api.Pricing.Periods.{Moment, multiplier_at}
use lite_api.Pricing.Cards.Intervals.{Card}
use lite_api.Pricing.Charges.Tokens.{
  Audio, no_audio, bad_audio, audio, Usage, UnitPrices, interval_at, token_prices,
}
use lite_api.Pricing.Charges.Parts.{
  Parts, no_parts, write_part, tier_multiplier, effort_multiplier, token_parts, scale_parts,
  sum_parts,
}
use lite_api.Pricing.Charges.Requests.{request_price, request_units, audio_or, request_total}
use lite_api.Pricing.Charges.Totals.{context_tokens, is_by_request, amounts}
use lite_api.Pricing.Charges.Proper.{
  IsProper, IsProperOr, mul-IsProper, add-IsProper, rat-IsProper, decimal_or-IsProper,
  IsProperAudio, some-IsProperOr, component-IsProper, image_input_price-IsProper,
  effort_multiplier-IsProper, multiplier_at-IsProper, tier_multiplier-IsProper, AreProper,
  token_prices-AreProper,
}

answer-IsProper : {a r : Rat} → ok a ≡ ok r → IsProper a → IsProper r
answer-IsProper h p = ground arith

write_part-IsProper :
    (splits : Bool) (written : ℕ) (split : ℕ × ℕ) (prices : UnitPrices) {r : Rat}
    → AreProper prices
    → write_part splits written split prices ≡ ok r
    → IsProper r
unfolding write_part
write_part-IsProper splits written (five, hour) prices {r} proper h =
    elim (Bool-cases (splits && (ltb 0 five || ltb 0 hour))) [
      | inl e ↦
          let h' = rw e at h in
          let (five_cost, f, k) = >>=-eq-ok _ _ h' in
          let (hour_cost, g, l) = >>=-eq-ok _ _ k in
          answer-IsProper l (
            add-IsProper five_cost hour_cost (component-IsProper five prices.write_price proper.2 f)
              (component-IsProper hour prices.write_1h_price proper.3 g))
      | inr e ↦ component-IsProper written prices.write_price proper.2 (rw e at h)
    ]

abbrev ArePartsProper : Parts → Type 0
ArePartsProper ps =
    IsProper ps.input_part
    × IsProper ps.output_part
    × IsProper ps.write_part_of
    × IsProper ps.read_part
    × IsProper ps.image_input_part
    × IsProper ps.image_output_part

zero_rat-IsProper : IsProper zero_rat
zero_rat-IsProper = omega arith

token_parts-ArePartsProper :
    (p : Card) (u : Usage) (prices : UnitPrices) {ps : Parts}
    → AreProper prices
    → token_parts p u prices ≡ ok ps
    → ArePartsProper ps
unfolding token_parts
token_parts-ArePartsProper p u prices {ps} proper h =
    let (input, e, h1) = >>=-eq-ok _ _ h in
    let (output, e', h2) = >>=-eq-ok _ _ h1 in
    let (read, f, h3) = >>=-eq-ok _ _ h2 in
    let (image_in, f', h4) = >>=-eq-ok _ _ h3 in
    let (image_out, g, h5) = >>=-eq-ok _ _ h4 in
    let (written, g', h6) = >>=-eq-ok _ _ h5 in
    let a = component-IsProper _ _ proper.0 e in
    let b = component-IsProper _ _ proper.1 e' in
    let c = component-IsProper _ _ proper.4 f in
    let d = component-IsProper _ _ (image_input_price-IsProper p.image_input _ proper.0) f' in
    let fallback = decimal_or-IsProper p.image_output zero_rat zero_rat-IsProper in
    let i = component-IsProper _ _ (some-IsProperOr _ fallback) g in
    let j = write_part-IsProper _ _ _ prices proper g' in
    (ground arith, ground arith, ground arith, ground arith, ground arith, ground arith)

scale_parts-ArePartsProper :
    (m : Rat) (ps : Parts) → IsProper m → ArePartsProper ps → ArePartsProper (scale_parts m ps)
unfolding scale_parts
scale_parts-ArePartsProper m ps p q = (
  mul-IsProper _ m q.0 p,
  mul-IsProper _ m q.1 p,
  mul-IsProper _ m q.2 p,
  mul-IsProper _ m q.3 p,
  mul-IsProper _ m q.4 p,
  mul-IsProper _ m q.5 p,
)

sum_parts-IsProper : (ps : Parts) → ArePartsProper ps → IsProper (sum_parts ps)
unfolding sum_parts
sum_parts-IsProper ps q =
    add-IsProper _ _
      (add-IsProper _ _
        (add-IsProper _ _
          (add-IsProper _ _ (add-IsProper _ _ (add-IsProper zero_rat _ (omega arith) q.0) q.1) q.2)
          q.3)
        q.4)
      q.5

request_units-IsProper :
    (is_video : Bool) (u : Usage) {r : Rat} → request_units is_video u ≡ ok r → IsProper r
unfolding request_units ◌*ℚ◌
request_units-IsProper is_video u h = ground arith

audio_or-IsProper :
    (a : Audio) (units : Rat) {r : Rat}
    → IsProperAudio a
    → IsProper units
    → audio_or a units ≡ ok r
    → IsProper r
unfolding audio_or
audio_or-IsProper no_audio units p q h = ground arith
audio_or-IsProper bad_audio units p q h = ground arith
audio_or-IsProper (audio r) units p q h = ground arith

request_total-IsProper :
    (is_video : Bool) (u : Usage) (m : Rat) (price : Price) {r : Rat}
    → IsProper m
    → IsProperAudio u.audio_units
    → request_total is_video u m price ≡ ok r
    → IsProper r
unfolding request_total
request_total-IsProper is_video u m none p q h = absurd cc
request_total-IsProper is_video u m (some price) p q h =
    let (units, e, k) = >>=-eq-ok _ _ h in
    let (charged, f, l) = >>=-eq-ok _ _ k in
    let proper = audio_or-IsProper u.audio_units units q (request_units-IsProper is_video u e) f in
    answer-IsProper l
      (mul-IsProper _ m (mul-IsProper (rat price) charged (rat-IsProper price) proper) p)

by_request-IsProper :
    (call : Result Rat) {ps : Parts} {total : Rat}
    → ((r : Rat) → call ≡ ok r → IsProper r)
    → ◌>>=◌ {Y = Parts × Rat} call (λ r. ok (no_parts, r)) ≡ ok (ps, total)
    → ArePartsProper ps × IsProper total
by_request-IsProper (err e) p h = absurd cc
by_request-IsProper (ok r) p h = let proper = p r refl in (ground arith, ground arith)

by_tokens-IsProper :
    (call : Result Parts) (m : Rat) {ps : Parts} {total : Rat}
    → IsProper m
    → ((qs : Parts) → call ≡ ok qs → ArePartsProper qs)
    → ◌>>=◌ {Y = Parts × Rat} call (λ qs. ok (scale_parts m qs, sum_parts (scale_parts m qs)))
      ≡ ok (ps, total)
    → ArePartsProper ps × IsProper total
by_tokens-IsProper (err e) m p q h = absurd cc
by_tokens-IsProper (ok qs) m p q h =
    let parts = scale_parts-ArePartsProper m qs p (q qs refl) in
    let total = sum_parts-IsProper (scale_parts m qs) parts in (ground arith, ground arith)

pub amounts-IsProper :
    (p : Card) (u : Usage) (service_tier : Text) (effort : String) (label : Text) (at : Moment)
    (long_context : Bool) {ps : Parts} {total : Rat}
    → IsProperOr p.fast_ratio
    → IsProperAudio u.audio_units
    → amounts p u service_tier effort label at long_context ≡ ok (ps, total)
    → ArePartsProper ps × IsProper total
unfolding amounts
amounts-IsProper p u service_tier effort label at long_context {ps} {total} fast units h =
    elim (Bool-cases (is_by_request p.billing_mode)) [
      | inl e ↦
          by_request-IsProper
            (request_total (p.billing_mode == "video") u (effort_multiplier p.reasoning effort)
              (request_price p label (context_tokens u)))
            {ps = ps} {total = total}
            (λ r f.
              request_total-IsProper _ u _ _ (effort_multiplier-IsProper p.reasoning effort) units
                f)
            (rw e at h)
      | inr e ↦
          by_tokens-IsProper
            (token_parts p u (
              token_prices p
                (interval_at (if long_context then context_tokens u else 1) p.intervals)))
            (effort_multiplier p.reasoning effort
              *ℚ tier_multiplier p (to_lower (trim_space service_tier))
              *ℚ multiplier_at p.time_pricing at)
            {ps = ps} {total = total}
            (mul-IsProper _ _
              (mul-IsProper _ _ (effort_multiplier-IsProper p.reasoning effort)
                (tier_multiplier-IsProper p _ fast))
              (multiplier_at-IsProper p.time_pricing at))
            (λ qs f. token_parts-ArePartsProper p u _ (token_prices-AreProper p _) f) (rw e at h)
    ]
