-- ===== src/FastPolicy/Tests.antt =====
-- Service tiers at concrete requests.
use lite_api.Common.{
  ◌≤◌, length, ℕ, ◌≡◌, refl, codes, true, false, List, [], ◌∷◌, contains, text_beq,
}
use lite_api.Common.Strings.{has_prefix, trim_space, to_lower, trim_star, ends_in_star}
use lite_api.Common.Errors.{ok}
use lite_api.Common.Json.{str, Fields, end, field, get, put, remove}
use lite_api.Models.{valid_model_pattern}
use lite_api.FastPolicy.{
  Rule, known_action, known_tier, bad_rule, bad_users, trimmed_models, validate_rule,
  validate_settings, considers, rule_verdict, find_rule, action, priority, apply_action, apply,
  FastGroup, fast_scope, fast_policy_protocol, forced_tier, apply_fast, tier_rank, lower_tier,
  billing_tier,
}
use lite_api.FastPolicy.Rules.{Agrees, apply-apply_fast-Agrees, validate_settings-AreNormal}
use lite_api.FastPolicy.Rules.Normal.{AreNormal}

runs : ℕ
unfolding known_action known_tier bad_rule bad_users trimmed_models validate_rule validate_settings
    considers rule_verdict find_rule action apply_action apply fast_scope fast_policy_protocol
    forced_tier apply_fast tier_rank lower_tier billing_tier has_prefix trim_space to_lower
    trim_star ends_in_star get put remove text_beq contains valid_model_pattern
runs = 0

abbrev filter_priority : Rule
filter_priority = record {
  tier = codes " Priority";
  action = "filter";
  scope = "apikey";
  users = [];
  message = [];
  models = codes "gpt-*" ∷ [];
  fallback = "";
  fallback_message = [];
}

abbrev block_other : Rule
block_other = record filter_priority {
  tier = codes "all";
  action = "block";
  users = 9 ∷ [];
  models = [];
}

abbrev normal : List Rule
normal = record filter_priority { tier = priority } ∷ block_other ∷ []

normalised : validate_settings (filter_priority ∷ block_other ∷ []) ≡ ok normal
unfolding runs
normalised = refl

validate_settings-AreNormal_example :
    (length (filter_priority ∷ block_other ∷ []) ≤ 100)
    × AreNormal (filter_priority ∷ block_other ∷ []) normal
    × (validate_settings normal ≡ ok normal)
validate_settings-AreNormal_example =
    validate_settings-AreNormal (filter_priority ∷ block_other ∷ []) normal normalised

abbrev forcing : FastGroup
forcing = record { source_platform = ""; group_platform = "openai"; force_fast = true }

abbrev fast_body : Fields
fast_body = field "service_tier" (str priority) end

forced : apply_fast forcing "openai" "responses" false "responses" [] end ≡ ok (fast_body, priority)
unfolding runs
forced = refl

filtered : apply normal fast_body 4 (codes "gpt-5") "openai" priority ≡ ok (end, [])
unfolding runs
filtered = refl

-- The group forces the fast tier, and a rule takes it away again.
apply-apply_fast-Agrees_example : Agrees end []
apply-apply_fast-Agrees_example =
    apply-apply_fast-Agrees forcing "openai" "responses" "responses" false normal 4 (codes "gpt-5")
      [] priority [] end fast_body end (unfold runs in refl) forced filtered
