-- ===== src/ErrorRules.antt =====
-- The rules on upstream errors: `validate` and `matches` of internal/app/error_passthrough.go. Codes are
-- natural numbers, since a negative one is refused as a small one is. Of a body whose first 8192 bytes
-- end within a character, that character is left out.
pub mod Reasons
mod Tests
use lite_api.Common.{
  ℕ, ◌+◌, ltb, leb, if◌then◌else◌, ◌==◌, nat_eq, string_eq, text_eq, Text, text_beq, String, Bool,
  true, false, not, ◌&&◌, ◌||◌, List, [], ◌∷◌, Option, none, some, length, any, contains, codes,
}
use lite_api.Common.Int.{ℤ, pos, negsuc, ltz}
use lite_api.Common.Strings.{byte_len, has_rune, has_substring, to_lower, trim_space}
use lite_api.Common.Errors.{Result, ok, err, ◌>>=◌, ◌>>◌, fail_if, bad}
use lite_api.Settlement.Tables.{cut_bytes}

-- `errorRule`.
pub record ErrorRule : Type 0 where
  pub name : Text
  pub is_enabled : Bool
  pub priority : ℤ
  pub error_codes : List ℕ
  pub keywords : List Text
  pub mode : String
  pub platforms : List Text
  pub passthrough_code : Bool
  pub response_code : Option ℕ
  pub passthrough_body : Bool
  pub message : Option Text
  pub skip_monitoring : Bool
  pub description : Option Text

unfoldable pub is_error_code : ℕ → Bool
is_error_code status = not (ltb status 400 || ltb 599 status)

unfoldable pub bad_word : Text → Bool
bad_word word = trim_space word == [] || ltb 512 (byte_len word) || has_rune word 0

-- `supportedPlatform`, on a text.
abbrev pub platform_names : List String
platform_names =
    "openai" ∷ "anthropic" ∷ "gemini" ∷ "grok" ∷ "kimi" ∷ "zhipu" ∷ "deepseek" ∷ "minimax" ∷ []

unfoldable pub known_platform : Text → Bool
known_platform p = any (λ name. p == codes name) platform_names

-- The loop over the platforms.
unfoldable pub checked_platforms : List Text → Result (List Text)
checked_platforms [] = ok []
checked_platforms (p ∷ ps) = do
  fail_if (not (known_platform (to_lower (trim_space p)))) (bad "unsupported error rule platform")
  rest ← checked_platforms ps
  ok (to_lower (trim_space p) ∷ rest)

unfoldable pub bad_response : Bool → Option ℕ → Bool
bad_response passthrough none = not passthrough
bad_response passthrough (some status) = not (is_error_code status)

unfoldable pub bad_message : Bool → Option Text → Bool
bad_message passthrough none = not passthrough
bad_message passthrough (some m) =
    ltb 4096 (byte_len m) || has_rune m 0 || not passthrough && trim_space m == []

unfoldable pub bad_description : Option Text → Bool
bad_description none = false
bad_description (some d) = ltb 10000 (byte_len d) || has_rune d 0

-- `validate`.
unfoldable pub validate_error_rule : ErrorRule → Result ErrorRule
validate_error_rule r = do
  fail_if
      (trim_space r.name == []
        || has_rune r.name 0
        || ltb 100 (length r.name)
        || ltz r.priority (negsuc 2147483647)
        || ltz (pos 2147483647) r.priority
        || not (r.mode == "any") && not (r.mode == "all"))
      (bad "invalid error rule name, priority or match_mode")
  fail_if
      (length r.error_codes + length r.keywords == 0
        || ltb 200 (length r.error_codes)
        || ltb 100 (length r.keywords)
        || ltb 8 (length r.platforms))
      (bad "error rule requires bounded status or keyword conditions")
  fail_if (any (λ status. not (is_error_code status)) r.error_codes)
      (bad "error_codes must be HTTP errors (400 to 599)")
  fail_if (any bad_word r.keywords) (bad "invalid error rule keyword")
  platforms ← checked_platforms r.platforms
  fail_if (bad_response r.passthrough_code r.response_code)
      (bad "response_code must be an HTTP error when overriding status")
  fail_if (bad_message r.passthrough_body r.message)
      (bad "custom_message is required when overriding the error message (maximum 4096 bytes)")
  fail_if (bad_description r.description) (bad "invalid error rule description")
  ok (record r { platforms = platforms })

-- The text that keywords are looked for in.
unfoldable pub searched_text : Text → Text
searched_text body = to_lower (cut_bytes 8192 body)

unfoldable pub has_keyword : List Text → Text → Bool
has_keyword words text = any (λ word. has_substring text (to_lower word)) words

-- The last lines of `matches`.
unfoldable pub fits_mode : ErrorRule → Bool → Bool → Bool
fits_mode r code keyword =
    if r.mode == "all"
    then ltb 0 (length r.error_codes + length r.keywords)
      && (length r.error_codes == 0 || code)
      && (length r.keywords == 0 || keyword)
    else code || keyword

-- `matches`.
unfoldable pub matches : ErrorRule → Text → ℕ → Text → Bool
matches r platform status body =
    if not r.is_enabled
      || ltb 0 (length r.platforms) && not (contains r.platforms (to_lower platform))
    then false
    else fits_mode r (contains r.error_codes status) (has_keyword r.keywords (searched_text body))
