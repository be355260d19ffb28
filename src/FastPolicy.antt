-- ===== src/FastPolicy.antt =====
-- Service tiers: the fast policy rules of internal/app/fast_policy.go, and the group override and the
-- billed tier of group_fast.go. `service_tier` reaches these functions both as a text and as a member
-- of the body.
pub mod Rules
pub mod Tiers
mod Tests
use lite_api.Common.{
  ℕ, suc, ◌<◌, ltb, bool_beq, if◌then◌else◌, ◌==◌, nat_eq, text_eq, string_eq, Text, text_beq,
  codes, String, Bool, true, false, not, ◌&&◌, ◌||◌, List, [], ◌∷◌, ◌++◌, Option, none, some,
  length, any, contains, map,
}
use lite_api.Common.Strings.{trim_space, to_lower, byte_len, ends_in_star, has_prefix, trim_star}
use lite_api.Common.Errors.{ApiError, Result, ok, err, ◌>>=◌, ◌>>◌, fail_if, bad}
use lite_api.Common.Json.{Json, null, str, Fields, get, put, remove}
use lite_api.Models.{valid_model_pattern}

pub record Rule : Type 0 where
  pub tier : Text
  pub action : String
  pub scope : String
  pub users : List ℕ
  pub message : Text
  pub models : List Text
  pub fallback : String
  pub fallback_message : Text

-- The tests on one rule, after its tier is in lower case and its empty tier is `all`.
unfoldable pub known_action : String → Bool
known_action a = a == "pass" || a == "filter" || a == "block" || a == "force_priority"

unfoldable pub known_tier : Text → Bool
known_tier t =
    t == codes "all"
    || t == codes "priority"
    || t == codes "ultrafast"
    || t == codes "flex"
    || t == codes "missing"

abbrev pub known_scope : String → Bool
known_scope s = s == "all" || s == "apikey"

unfoldable pub bad_rule : Rule → Bool
bad_rule r =
    not (known_tier r.tier)
    || not (known_action r.action)
    || (not (r.fallback == "") && not (known_action r.fallback))
    || not (known_scope r.scope)
    || ltb 1000 (length r.users)
    || ltb 100 (length r.models)
    || ltb 2000 (byte_len r.message)
    || ltb 2000 (byte_len r.fallback_message)

-- The loop over `user_ids`. IDs are 64-bit integers, and one that is not positive is 0 here.
unfoldable pub bad_users : List ℕ → List ℕ → Bool
bad_users [] seen = false
bad_users (u ∷ us) seen = u == 0 || contains seen u || bad_users us (u ∷ seen)

abbrev pub rule_tier : Text → Text
rule_tier raw = let t = to_lower (trim_space raw) in if t == [] then codes "all" else t

unfoldable pub trimmed_models : List Text → Result (List Text)
trimmed_models [] = ok []
trimmed_models (m ∷ ms) = do
  fail_if (not (valid_model_pattern (trim_space m))) (bad "invalid fast policy model pattern")
  rest ← trimmed_models ms
  ok (trim_space m ∷ rest)

unfoldable pub validate_rule : Rule → Result Rule
validate_rule raw = do
  let r = record raw { tier = rule_tier raw.tier }
  fail_if (bad_rule r) (bad "invalid fast policy rule")
  fail_if (bad_users r.users []) (bad "fast policy user_ids must be unique positive IDs")
  models ← trimmed_models r.models
  ok (record r { models = models })

pub validate_rules : List Rule → Result (List Rule)
validate_rules [] = ok []
validate_rules (r ∷ rs) = do first ← validate_rule r; rest ← validate_rules rs; ok (first ∷ rest)

-- `(*fastPolicySettings).validate`.
unfoldable pub validate_settings : List Rule → Result (List Rule)
unfolding validate_rules
validate_settings rules = do
  fail_if (ltb 100 (length rules)) (bad "too many fast policy rules")
  validate_rules rules

-- The tests by which the loop of `action` passes over a rule.
unfoldable pub considers : Bool → ℕ → Text → Rule → Bool
considers scoped user tier r =
    not (
      not (bool_beq (ltb 0 (length r.users)) scoped)
      || (scoped && not (contains r.users user))
      || (not (r.scope == "all") && not (r.scope == "apikey")))
    && (if tier == [] then r.tier == codes "missing" else r.tier == codes "all" || r.tier == tier)

-- What the rule that is found says of the model.
unfoldable pub rule_verdict : Text → Rule → String × Text
rule_verdict model r =
    if length r.models == 0
      || any (λ p. p == model || (ends_in_star p && has_prefix model (trim_star p))) r.models
    then (r.action, r.message)
    else if not (r.fallback == "")
    then (r.fallback, r.fallback_message)
    else ("pass", [])

unfoldable pub find_rule : Bool → ℕ → Text → List Rule → Option Rule
find_rule scoped user tier [] = none
find_rule scoped user tier (r ∷ rs) =
    if considers scoped user tier r then some r else find_rule scoped user tier rs

-- `(*fastPolicySettings).action`: the user's own rules first, and then the rules for everybody.
unfoldable pub action : List Rule → ℕ → Text → Text → String × Text
action rules user model tier = elim (find_rule true user tier rules) [
  | some r ↦ rule_verdict model r
  | none ↦ elim (find_rule false user tier rules) [
    | some r ↦ rule_verdict model r
    | none ↦ ("pass", [])
  ]
]

abbrev pub priority : Text
priority = codes "priority"

-- `(*fastPolicySettings).apply`: the body and the tier that it is billed by.
unfoldable pub apply_action : String × Text → Fields → Text → String → Text → Result (Fields × Text)
apply_action (act, message) body model platform tier =
    if tier == [] && (not (platform == "openai") || not (act == "force_priority"))
    then ok (body, [])
    else if act == "block"
    then err (record {
      status = 403;
      message =
          if message == []
          then codes "service_tier=" ++ tier ++ codes " is not allowed for model " ++ model
          else message;
    })
    else if act == "filter"
    then ok (remove "service_tier" body, [])
    else if act == "force_priority"
    then ok (put "service_tier" (str priority) body, priority)
    else ok (body, tier)

unfoldable pub apply : List Rule → Fields → ℕ → Text → String → Text → Result (Fields × Text)
apply rules body user model platform tier =
    apply_action (action rules user model tier) body model platform tier

-- `fastPolicyProtocol`, with the protocol of the account.
unfoldable pub fast_policy_protocol : String → Bool → String → Bool
fast_policy_protocol upstream count_only protocol =
    not count_only
    && (protocol == "responses" || protocol == "chat_completions" || protocol == "anthropic")
    && (upstream == "responses" || upstream == "chat_completions")

-- The part of `gatewayIdentity` that the override reads.
pub record FastGroup : Type 0 where
  pub source_platform : String
  pub group_platform : String
  pub force_fast : Bool

-- `openAIFastScope`.
unfoldable pub fast_scope : FastGroup → Bool
fast_scope g =
    let platform = if g.source_platform == "" then g.group_platform else g.source_platform in
    platform == "openai" || platform == "composite"

abbrev known_wire_tier : Text → Bool
known_wire_tier t =
    t == []
    || t == priority
    || t == codes "flex"
    || t == codes "auto"
    || t == codes "default"
    || t == codes "scale"
    || t == codes "ultrafast"

-- A member that is there and is not `null`.
abbrev pub is_present : Option Json → Bool
is_present none = false
is_present (some null) = false
is_present (some _) = true

abbrev pub wire_tier : Text → Text
wire_tier raw = let t = to_lower (trim_space raw) in if t == codes "fast" then priority else t

unfoldable pub forced_tier : FastGroup → String → Text → Text
forced_tier g account_platform tier =
    if account_platform == "openai" && fast_scope g && g.force_fast then priority else tier

-- `(*gatewayIdentity).applyFast`, for an account of `account_platform` with the protocol `upstream`.
unfoldable pub apply_fast :
    FastGroup → String → String → Bool → String → Text → Fields → Result (Fields × Text)
apply_fast g account_platform upstream count_only protocol tier body =
    let wire = wire_tier tier in
    let forced = forced_tier g account_platform wire in
    if not (fast_policy_protocol upstream count_only protocol)
    then ok (body, tier)
    else if is_present (get "service_tier" body) && trim_space tier == []
    then err (bad "invalid OpenAI service_tier")
    else if not (known_wire_tier wire)
    then err (bad "invalid OpenAI service_tier")
    else ok (if forced == [] then body else put "service_tier" (str forced) body, forced)

-- The rank of a tier, and whether it is known.
unfoldable pub tier_rank : Text → ℕ × Bool
tier_rank t =
    if t == codes "flex"
    then (0, true)
    else if t == []
        || t == codes "default"
        || t == codes "standard"
        || t == codes "auto"
        || t == codes "scale"
    then (1, true)
    else if t == priority || t == codes "fast"
    then (2, true)
    else (1, false)

-- The end of `openAIBillingTier`, on the two normalised tiers.
unfoldable pub lower_tier : Text → Text → Text
lower_tier requested observed =
    let (want, _) = tier_rank requested in
    let (got, known) = tier_rank observed in
    if not (observed == []) && known && ltb got want then observed else requested

-- `openAIBillingTier`.
unfoldable pub billing_tier : Text → Text → Text
billing_tier requested observed =
    lower_tier (to_lower (trim_space requested)) (to_lower (trim_space observed))
