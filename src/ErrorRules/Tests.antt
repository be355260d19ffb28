-- ===== src/ErrorRules/Tests.antt =====
-- A rule with a code and a word.
use lite_api.Common.{◌⊎◌, In, ℕ, refl, ◌≡◌, codes, true, false, [], ◌∷◌, none, text_beq, contains}
use lite_api.Common.Int.{pos}
use lite_api.Common.Strings.{trim_space, is_space, to_lower, lower_rune, has_prefix, has_substring}
use lite_api.Common.Errors.{ok}
use lite_api.Settlement.Tables.{cut_bytes}
use lite_api.ErrorRules.{
  ErrorRule, is_error_code, bad_word, known_platform, checked_platforms, bad_response, bad_message,
  bad_description, validate_error_rule, searched_text, has_keyword, fits_mode, matches,
}
use lite_api.ErrorRules.Reasons.{HasReason, validate_error_rule-HasReason}

abbrev raw : ErrorRule
raw = record {
  name = codes "full";
  is_enabled = true;
  priority = pos 0;
  error_codes = 429 ∷ [];
  keywords = codes "Quota" ∷ [];
  mode = "all";
  platforms = codes " OpenAI " ∷ [];
  passthrough_code = true;
  response_code = none;
  passthrough_body = true;
  message = none;
  skip_monitoring = false;
  description = none;
}

abbrev rule : ErrorRule
rule = record raw { platforms = codes "openai" ∷ [] }

-- What the tests run.
runs : ℕ
unfolding is_error_code bad_word known_platform checked_platforms bad_response bad_message
    bad_description validate_error_rule searched_text has_keyword fits_mode matches trim_space
    is_space to_lower lower_rune has_prefix has_substring cut_bytes text_beq contains
runs = 0

accepted : validate_error_rule raw ≡ ok rule
unfolding runs
accepted = refl

applies : matches rule (codes "OpenAI") 429 (codes "QUOTA used") ≡ true
unfolding runs
applies = refl

-- In the mode `all` the code alone is not enough.
other_body : matches rule (codes "openai") 429 (codes "slow") ≡ false
unfolding runs
other_body = refl

validate_error_rule-HasReason_example :
    HasReason rule 429 (codes "QUOTA used")
    × (rule.is_enabled ≡ true)
    × ((rule.platforms ≡ []) ⊎ In (to_lower (codes "OpenAI")) rule.platforms)
validate_error_rule-HasReason_example =
    validate_error_rule-HasReason raw rule (codes "OpenAI") (codes "QUOTA used") 429 accepted
      applies
