-- ===== src/Pricing/Charges/Requests.antt =====
-- What a request costs that is billed by requests: part of `calculatePrice` of internal/app/pricing.go.
use lite_api.Common.{
  ℕ, if◌then◌else◌, ◌==◌, nat_eq, string_eq, text_eq, Text, Bool, false, ◌&&◌, ◌||◌, List, [], ◌∷◌,
  Option, none, some,
}
use lite_api.Common.Errors.{Result, ok, err, ◌>>=◌, bad}
use lite_api.Common.Rat.{Rat, whole, ◌*ℚ◌, is_positive}
use lite_api.Pricing.Numbers.{Price, rat}
use lite_api.Pricing.Cards.Intervals.{Card, Interval}
use lite_api.Pricing.Charges.Tokens.{
  Audio, no_audio, bad_audio, audio, Usage, interval_at, or_price,
}

-- `iv.PerRequest != nil && rat(*iv.PerRequest).Sign() > 0`.
unfoldable pub set_positive : Price → Bool
set_positive none = false
set_positive (some n) = is_positive (rat n)

-- The loop over the intervals for the label of the request.
unfoldable pub labelled_price : Text → List Interval → Price
labelled_price label [] = none
labelled_price label (iv ∷ ivs) =
    if iv.label == label && set_positive iv.per_request
    then iv.per_request
    else labelled_price label ivs

unfoldable pub tier_price : Price → Option Interval → Price
tier_price price none = price
tier_price price (some iv) = if set_positive iv.per_request then iv.per_request else price

-- The price of a request: of its label, else of its context, else of the card.
unfoldable pub request_price : Card → Text → ℕ → Price
request_price p label context =
    if label == []
    then tier_price p.per_request (interval_at context p.intervals)
    else or_price (labelled_price label p.intervals)
        (tier_price p.per_request (interval_at context p.intervals))

-- The units of a request, but for audio.
unfoldable pub request_units : Bool → Usage → Result Rat
request_units is_video u =
    if is_video
    then (if u.video_count == 0 || u.video_seconds == 0
        then err (bad "video pricing requires video usage")
        else ok (whole u.video_count *ℚ whole u.video_seconds))
    else ok (whole (if u.requests == 0 then 1 else u.requests))

unfoldable pub audio_or : Audio → Rat → Result Rat
audio_or no_audio units = ok units
audio_or bad_audio units = err (bad "invalid audio usage units")
audio_or (audio r) units = ok r

-- The charge by requests.
unfoldable pub request_total : Bool → Usage → Rat → Price → Result Rat
request_total is_video u multiplier none = err (bad "no price for request tier")
request_total is_video u multiplier (some price) = do
  units ← request_units is_video u
  charged ← audio_or u.audio_units units
  ok (rat price *ℚ charged *ℚ multiplier)
