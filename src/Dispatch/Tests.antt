-- ===== src/Dispatch/Tests.antt =====
-- A dispatch configuration at concrete models.
use lite_api.Common.{◌≡◌, refl, ℕ, inl, codes, text_beq, contains, [], ◌∷◌}
use lite_api.Common.Strings.{
  trim_space, to_lower, has_prefix, has_substring, trim_star, fields_from, last_field,
  after_last_slash, join, find_pair, replace_from, trim_prefix, trim_suffix,
}
use lite_api.Common.Errors.{ok}
use lite_api.Models.{has_control, valid_model_pattern}
use lite_api.Dispatch.{
  DispatchConfig, is_dash, family_of, other_family, known_family, suffixed_model,
  normalize_dispatch_model, is_target_name, checked_target, exact_target, conflicts, checked_exact,
  normalize_config, target_or, claude_target, text_at, dispatch_target,
}
use lite_api.Dispatch.Accepted.{normalize_config-dispatch_target}

abbrev raw : DispatchConfig
raw = record {
  opus = [];
  sonnet = codes "gpt-5.4 High";
  haiku = [];
  exact = (codes " claude-x", codes "GPT-5.3-CodexSpark-low") ∷ [];
}

abbrev stored : DispatchConfig
stored = record {
  opus = [];
  sonnet = codes "gpt-5.4";
  haiku = [];
  exact = (codes "claude-x", codes "gpt-5.3-codex-spark") ∷ [];
}

runs : ℕ
unfolding trim_space to_lower has_prefix has_substring trim_star fields_from last_field
    after_last_slash join find_pair replace_from trim_prefix trim_suffix has_control
    valid_model_pattern is_dash family_of other_family known_family suffixed_model
    normalize_dispatch_model is_target_name checked_target exact_target conflicts checked_exact
    normalize_config target_or claude_target text_at dispatch_target text_beq contains
runs = 0

accepted : normalize_config raw ≡ ok stored
unfolding runs
accepted = refl

normalize_config-dispatch_target_example :
    dispatch_target stored (codes " claude-x")
    ≡ normalize_dispatch_model (codes "GPT-5.3-CodexSpark-low")
normalize_config-dispatch_target_example =
    normalize_config-dispatch_target raw stored (codes " claude-x") (codes "GPT-5.3-CodexSpark-low")
      accepted (inl refl) (λ e. unfold runs in cc) (λ e. unfold runs in cc)
