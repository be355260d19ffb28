-- ===== src/Reasoning/InputTests.antt =====
-- Reasoning settings and requested efforts at concrete values.
use lite_api.Common.{
  ℕ, ◌≡◌, ◌≤◌, refl, inl, codes, some, List, [], ◌∷◌, length, arith, text_beq, contains,
}
use lite_api.Common.Strings.{
  trim_space, to_lower, equal_fold, fields_from, last_field, has_prefix, has_suffix,
}
use lite_api.Common.Errors.{ok}
use lite_api.Common.Json.{str, Fields, end, field, get, put, as_text, as_object}
use lite_api.Models.{has_control}
use lite_api.Reasoning.{
  EffortMapping, Policy, place, effort_rank, squeeze, known_effort, canonical_effort, rule_rank,
  choose, choose_all, lookup_effort, mapped_effort, effective_max, adapt_effort, cap_effort,
  decide_effort, write_effort, apply_field, apply_nested, apply,
}
use lite_api.Reasoning.Input.{
  ReasoningInput, is_allowed, checked_max, over_limit_value, checked_over_limit, effort_or,
  match_of, known_match, checked_mapping, mapping_key, checked_mappings, checked_rules,
  validate_reasoning,
}
use lite_api.Reasoning.Input.Checked.{AreRules, validate_reasoning-IsReady}
use lite_api.Reasoning.Request.{
  effort_value, nested_value, protocol_value, spelled_effort, request_effort, text_or_blank,
  known_or_none, is_part_separator, suffix_effort, first_effort, requested_effort,
}
use lite_api.Reasoning.Limit.{IsInForce}
use lite_api.Reasoning.Request.Within.{apply-request_effort}

runs : ℕ
unfolding place effort_rank squeeze known_effort canonical_effort rule_rank choose choose_all
    lookup_effort mapped_effort effective_max adapt_effort cap_effort decide_effort write_effort
    apply_field apply_nested apply has_prefix has_suffix trim_space to_lower equal_fold get put
    as_text as_object text_beq contains has_control is_allowed checked_max over_limit_value
    checked_over_limit effort_or match_of known_match checked_mapping mapping_key checked_mappings
    checked_rules validate_reasoning effort_value nested_value protocol_value spelled_effort
    request_effort text_or_blank known_or_none is_part_separator suffix_effort first_effort
    requested_effort fields_from last_field
runs = 0

abbrev written : ReasoningInput
written = record {
  input_max = some (codes " X-High");
  input_over_limit = some [];
  input_mappings = some (
      record { from = codes "None"; to = codes "low"; match_type = []; model = codes "gpt-5 " }
      ∷ record { from = codes "max"; to = codes "DENY"; match_type = []; model = [] }
      ∷ []);
}

abbrev stored_rules : List EffortMapping
stored_rules =
    record {
      from = codes "none";
      to = codes "low";
      match_type = codes "exact";
      model = codes "gpt-5";
    }
    ∷ record { from = codes "max"; to = codes "deny"; match_type = []; model = [] }
    ∷ []

abbrev stored : ReasoningInput
stored = record {
  input_max = some (codes "xhigh");
  input_over_limit = some (codes "downgrade");
  input_mappings = some stored_rules;
}

accepted : validate_reasoning written "openai" ≡ ok stored
unfolding runs
accepted = refl

validate_reasoning-IsReady_example : (length stored_rules ≤ 64) × AreRules "openai" stored_rules []
validate_reasoning-IsReady_example =
    (validate_reasoning-IsReady written stored "openai" accepted).2 stored_rules refl

abbrev policy : Policy
policy = record { max_effort = codes "medium"; over_limit = codes "downgrade"; mappings = [] }

abbrev body : Fields
body = field "reasoning_effort" (str (codes "high")) end

abbrev body_after : Fields
body_after = field "reasoning_effort" (str (codes "medium")) end

limited : apply policy body (codes "gpt-5") "openai" ≡ ok body_after
unfolding runs
limited = refl

-- A Responses body may hold the effort of Chat Completions.
read_back : request_effort body_after "responses" ≡ ok (codes "medium")
unfolding runs
read_back = refl

apply-request_effort_example :
    IsInForce policy "openai" (effective_max policy "openai")
    × (effort_rank (codes "medium") ≤ effort_rank (effective_max policy "openai"))
apply-request_effort_example =
    apply-request_effort policy body body_after (codes "gpt-5") "openai" "responses"
      (codes "medium") (inl refl) (unfold runs in omega arith) limited read_back

named_by_model : requested_effort end (codes "openai/gpt-5-high") ≡ some (codes "high")
unfolding runs
named_by_model = refl
