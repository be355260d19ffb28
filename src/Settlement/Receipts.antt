-- ===== src/Settlement/Receipts.antt =====
-- Receipts and their fingerprint: usageReceipt of internal/app/settlement.go.
use lite_api.Common.{
  ℕ, ◌+◌, ltb, if◌then◌else◌, ◌==◌, nat_eq, string_eq, text_eq, Text, codes, String, Bool, not,
  ◌||◌, List, [], ◌∷◌, ◌++◌,
}
use lite_api.Common.Strings.{trim_space}
use lite_api.Pricing.Charges.Tokens.{Usage, Cost}

-- A piece of the text that the fingerprint is taken of; an amount has 10 digits behind the point.
pub data Part : Type 0 where
  number : ℕ → Part
  text : Text → Part
  amount : ℕ → Part

-- `fmt.Sprintf` of the parts, and the digest of a text.
pub record Codec : Type 0 where
  pub joined : List Part → Text
  pub digest : Text → Text

-- The entries of `usageReceipt` that the settlement reads. The costs are those that were written.
pub record Receipt : Type 0 where
  pub web_socket : Bool
  pub request_id : Text
  pub payload_hash : Text
  pub fingerprint : Text
  pub user_id : ℕ
  pub key_id : ℕ
  pub account_id : ℕ
  pub platform : String
  pub model : Text
  pub service_tier : Text
  pub effort : Text
  pub cost : Cost
  pub account_raw : ℕ
  pub account_debit : ℕ
  pub key_quota : Bool
  pub key_windows : Bool
  pub account_quota : Bool
  pub usage : Usage
  pub video_resolution : Text
  pub image_size : Text
  pub image_output_size : Text
  pub image_sizes : ℕ × ℕ × ℕ
  pub search_calls : ℕ
  pub stream : Bool
  pub upstream : Text
  pub upstream_request_id : Text

abbrev amount_if : Bool → ℕ → Part
amount_if applies n = amount (if applies then n else 0)

abbrev parts_if : Bool → List Part → List Part
parts_if applies parts = if applies then parts else []

abbrev counted_sizes : ℕ × ℕ × ℕ → Bool
counted_sizes (a, b, c) = ltb 0 (a + b + c)

-- `fingerprint`: the values that it prints, in their order. Words between them mark a part that may be
-- left out.
unfoldable pub fingerprint_parts : Receipt → List Part
fingerprint_parts r =
    number r.user_id
      ∷ number r.account_id
      ∷ number r.key_id
      ∷ text (trim_space r.model)
      ∷ text (trim_space r.service_tier)
      ∷ text (trim_space r.effort)
      ∷ number r.usage.input_tokens
      ∷ number r.usage.output_tokens
      ∷ number r.usage.write_tokens
      ∷ number r.usage.read_tokens
      ∷ amount r.cost.actual
      ∷ amount_if r.key_quota r.cost.actual
      ∷ amount_if r.key_windows r.cost.actual
      ∷ amount_if r.account_quota r.account_raw
      ∷ []
    ++ parts_if (not (r.payload_hash == [])) (text r.payload_hash ∷ [])
    ++ parts_if (ltb 0 r.usage.video_count) (
        text (codes "video")
        ∷ number r.usage.video_count
        ∷ number r.usage.video_seconds
        ∷ text r.video_resolution
        ∷ [])
    ++ parts_if (ltb 0 r.usage.image_count) (
        text (codes "image")
        ∷ number r.usage.image_count
        ∷ text r.image_size
        ∷ number r.usage.image_input_tokens
        ∷ number r.usage.image_output_tokens
        ∷ [])
    ++ parts_if (not (r.image_output_size == []) || counted_sizes r.image_sizes) (
        text (codes "image-output")
        ∷ text r.image_output_size
        ∷ number (r.image_sizes.0)
        ∷ number (r.image_sizes.1)
        ∷ number (r.image_sizes.2)
        ∷ [])
    ++ parts_if (ltb 0 r.search_calls) (text (codes "search") ∷ number r.search_calls ∷ [])

unfoldable pub fingerprint_of : Codec → Receipt → Text
fingerprint_of c r = c.digest (c.joined (fingerprint_parts r))
