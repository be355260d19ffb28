-- ===== src/Dispatch/Accepted.antt =====
-- The targets of an accepted dispatch configuration.
use lite_api.Common.{
  ◌≡◌, ◌≢◌, refl, ℕ, Option-cases, String, text_eq, nat_eq, inl, inr, Text, text_beq, text_beq_iff,
  codes, true, List, [], In, arith,
}
use lite_api.Common.Strings.{trim_space, trim_star, to_lower}
use lite_api.Common.Errors.{ok}
use lite_api.Models.{valid_model_pattern, has_control}
use lite_api.Dispatch.{
  DispatchConfig, normalize_dispatch_model, is_target_name, checked_target, exact_target,
  normalize_config, target_or, claude_target, text_at, dispatch_target,
}
use lite_api.Dispatch.Targets.{
  AreTargets, checked_exact-AreTargets, checked_exact-In, normalize_config-Parts,
}

-- Once `normalize` accepts a configuration, every exact mapping in it that is not blank is honoured: a
-- call for its model, less the space around it, goes to its normalised target.
pub normalize_config-dispatch_target :
    (raw c : DispatchConfig) (from to : Text)
    → normalize_config raw ≡ ok c
    → In (from, to) raw.exact
    → trim_space from ≢ []
    → normalize_dispatch_model to ≢ []
    → dispatch_target c from ≡ normalize_dispatch_model to
unfolding dispatch_target text_at
normalize_config-dispatch_target raw c from to h i f t =
    let parts = normalize_config-Parts raw c h in
    let found = checked_exact-In raw.exact [] c.exact from to parts.3 i f t in
    ground (arith, text_beq_iff (normalize_dispatch_model to) [])

checked_target-name : (raw v : Text) → checked_target raw ≡ ok v → is_target_name v ≡ true
unfolding checked_target
checked_target-name raw v h = ground arith

names : ℕ
unfolding is_target_name valid_model_pattern has_control trim_space trim_star text_beq
names = 0

blank_name : is_target_name [] ≡ true
unfolding names
blank_name = refl

gpt_name : is_target_name (codes "gpt-5.4") ≡ true
unfolding names
gpt_name = refl

codex_name : is_target_name (codes "gpt-5.3-codex") ≡ true
unfolding names
codex_name = refl

mini_name : is_target_name (codes "gpt-5.4-mini") ≡ true
unfolding names
mini_name = refl

target_or-name :
    (configured : Text) (fallback : String)
    → is_target_name configured ≡ true
    → is_target_name (codes fallback) ≡ true
    → is_target_name (target_or configured fallback) ≡ true
unfolding target_or
target_or-name configured fallback h k = ground arith

claude_target-name :
    (c : DispatchConfig) (lower : Text)
    → is_target_name c.opus ≡ true
    → is_target_name c.sonnet ≡ true
    → is_target_name c.haiku ≡ true
    → is_target_name (claude_target c lower) ≡ true
unfolding claude_target
claude_target-name c lower opus sonnet haiku = ground (
  arith,
  target_or-name c.opus "gpt-5.4" opus gpt_name,
  target_or-name c.sonnet "gpt-5.3-codex" sonnet codex_name,
  target_or-name c.haiku "gpt-5.4-mini" haiku mini_name,
  blank_name,
)

no_targets : AreTargets []
unfolding exact_target
no_targets key to h = cc

exact_name :
    (exact : List (Text × Text)) (key : Text)
    → AreTargets exact
    → is_target_name (text_at (exact_target key exact)) ≡ true
unfolding text_at
exact_name exact key good = elim (Option-cases (exact_target key exact)) [
  | inl missing ↦ ground (arith, blank_name)
  | inr (to, found) ↦ ground (arith, good key to found)
]

-- Whatever model a call names, the target that an accepted configuration gives is empty, which means
-- none, or the name of a model: within 100 bytes, without a star, and of the form of a pattern.
dispatch_target-name :
    (raw c : DispatchConfig) (model : Text)
    → normalize_config raw ≡ ok c
    → is_target_name (dispatch_target c model) ≡ true
unfolding dispatch_target
dispatch_target-name raw c model h =
    let parts = normalize_config-Parts raw c h in
    let good = checked_exact-AreTargets raw.exact [] c.exact parts.3 no_targets in
    ground (
      arith,
      exact_name c.exact (trim_space model) good,
      claude_target-name c (to_lower (trim_space model))
          (checked_target-name raw.opus c.opus parts.0)
          (checked_target-name raw.sonnet c.sonnet parts.1)
          (checked_target-name raw.haiku c.haiku parts.2),
    )
