-- ===== src/Reasoning/Tests.antt =====
-- Reasoning effort policies at concrete requests.
use lite_api.Common.{ℕ, ◌≡◌, refl, inl, codes, [], ◌∷◌, arith, eq_iff, text_beq}
use lite_api.Common.Strings.{has_prefix, has_suffix, trim_space, to_lower, equal_fold}
use lite_api.Common.Errors.{ok}
use lite_api.Common.Json.{str, obj, num, Fields, end, field, get, put, as_text, as_object}
use lite_api.Reasoning.{
  Policy, place, effort_rank, squeeze, known_effort, canonical_effort, rule_rank, choose,
  choose_all, lookup_effort, mapped_effort, effective_max, adapt_effort, cap_effort, decide_effort,
  write_effort, apply_field, apply_nested, apply,
}
use lite_api.Reasoning.Mapping.{IsOutcome, mapped_effort-IsOutcome}
use lite_api.Reasoning.Limit.{IsInForce, apply-IsWithin, apply-get}
use lite_api.Reasoning.Limit.Members.{FieldWithin, NestedWithin}

abbrev policy : Policy
policy = record {
  max_effort = codes "high";
  over_limit = codes "downgrade";
  mappings =
      record {
        from = codes "low";
        to = codes "xhigh";
        match_type = codes "prefix";
        model = codes "gpt-";
      }
      ∷ [];
}

abbrev body : Fields
body =
    field "reasoning" (obj (field "effort" (str (codes "Low")) end))
      (field "n" (num (codes "1")) end)

abbrev body_after : Fields
body_after =
    field "reasoning" (obj (field "effort" (str (codes "high")) end))
      (field "n" (num (codes "1")) end)

runs : ℕ
unfolding place effort_rank squeeze known_effort canonical_effort rule_rank choose choose_all
    lookup_effort mapped_effort effective_max adapt_effort cap_effort decide_effort write_effort
    apply_field apply_nested apply has_prefix has_suffix trim_space to_lower equal_fold get put
    as_text as_object text_beq
runs = 0

mapped_and_limited : apply policy body (codes "gpt-5") "openai" ≡ ok body_after
unfolding runs
mapped_and_limited = refl

apply-IsWithin_example :
    IsInForce policy "openai" (effective_max policy "openai")
    × NestedWithin (effective_max policy "openai") "reasoning" "effort" body_after
    × FieldWithin (effective_max policy "openai") "reasoning_effort" body_after
    × NestedWithin (effective_max policy "openai") "output_config" "effort" body_after
apply-IsWithin_example =
    apply-IsWithin policy body body_after (codes "gpt-5") "openai" (inl refl)
      (unfold runs in omega arith) mapped_and_limited

apply-get_example : get "n" body_after ≡ get "n" body
apply-get_example =
    apply-get policy body body_after (codes "gpt-5") "openai" "n"
      (ground (arith, eq_iff "n" "reasoning")) (ground (arith, eq_iff "n" "reasoning_effort"))
      (ground (arith, eq_iff "n" "output_config")) mapped_and_limited

mapped_effort-IsOutcome_example : IsOutcome policy.mappings (codes "low") (codes "gpt-5")
mapped_effort-IsOutcome_example =
    mapped_effort-IsOutcome policy.mappings (codes "low") (codes "gpt-5")
