-- ===== src/Models.antt =====
-- Model names and model patterns: `validModelPattern`, `patternsOverlap` and `pricingName` of
-- internal/app/pricing.go, `concreteModel` of models.go, `patternMatches`, the model allowlist and
-- `routingAccounts` of gateway.go, `supportedPlatform` of groups.go.
pub mod Listed
pub mod Preferred
mod Tests
use lite_api.Common.{
  ℕ, ltb, leb, if◌then◌else◌, ◌==◌, nat_eq, text_eq, string_eq, Text, text_beq, codes, String, Bool,
  true, not, ◌&&◌, ◌||◌, List, [], ◌∷◌, ◌++◌, length, any, contains,
}
use lite_api.Common.Strings.{
  byte_len, trim_space, to_lower, has_prefix, ends_in_star, trim_star, has_rune,
}
use lite_api.Common.Errors.{Result, ok, err, ◌>>=◌, bad}

unfoldable pub supported_platform : String → Bool
supported_platform p =
    p == "openai"
    || p == "anthropic"
    || p == "gemini"
    || p == "grok"
    || p == "kimi"
    || p == "zhipu"
    || p == "deepseek"
    || p == "minimax"

-- `strings.ContainsAny(s, "\r\n\x00")`: these three and no other control character.
unfoldable pub has_control : Text → Bool
has_control s = any (λ c. c == 13 || c == 10 || c == 0) s

unfoldable pub valid_model_pattern : Text → Bool
unfolding has_control text_beq
valid_model_pattern s =
    ltb 0 (byte_len s)
    && leb (byte_len s) 200
    && trim_space s == s
    && not (has_control s)
    && not (has_rune (trim_star s) b'*')

unfoldable pub concrete_model : Text → Bool
unfolding valid_model_pattern
concrete_model id =
    valid_model_pattern id && leb (byte_len id) 100 && not (any (λ c. c == b'*' || c == 9) id)

unfoldable pub patterns_overlap : Text → Text → Bool
patterns_overlap a b =
    a == b
    || (ends_in_star a && has_prefix (trim_star b) (trim_star a))
    || (ends_in_star b && has_prefix (trim_star a) (trim_star b))

dots_to_dashes : Text → Text
dots_to_dashes [] = []
dots_to_dashes (c ∷ s) = (if c == b'.' then b'-' else c) ∷ dots_to_dashes s

unfoldable pub pricing_name : Text → Text
unfolding dots_to_dashes
pricing_name s =
    let name = to_lower (trim_space s) in
    if has_prefix name (codes "claude-") then dots_to_dashes name else name

-- Case-sensitive: `*` at the end stands for any rest.
unfoldable pub covers : Text → Text → Bool
covers pattern model =
    if ends_in_star pattern then has_prefix model (trim_star pattern) else pattern == model

unfoldable pub pattern_matches : Text → Text → Bool
unfolding covers
pattern_matches pattern model = covers (to_lower pattern) (to_lower model)

pub record Allowlist : Type 0 where
  pub enabled : Bool
  pub models : List Text

-- The loop of `validate` over the models, with the lower-case keys seen and the models kept so far.
unfoldable pub keep_models : List Text → List Text → List Text → Result (List Text)
keep_models [] seen kept = ok kept
keep_models (m ∷ ms) seen kept =
    let model = trim_space m in
    let known = model == [] || contains seen (to_lower model) in
    let rest =
      keep_models ms (if known then seen else to_lower model ∷ seen)
        (if known then kept else kept ++ model ∷ []) in
    if not (model == []) && not (valid_model_pattern model)
    then err (bad "invalid model allowlist")
    else rest

unfoldable pub allowlist_of : Bool → List Text → Result Allowlist
allowlist_of enabled models =
    if enabled && length models == 0
    then err (bad "enabled model allowlist must not be empty")
    else ok (record { enabled = enabled; models = models })

-- `(*modelAllowlist).validate`.
unfoldable pub validate_allowlist : Allowlist → Result Allowlist
unfolding keep_models allowlist_of
validate_allowlist m =
    if ltb 1000 (length m.models)
    then err (bad "too many allowlist models")
    else do models ← keep_models m.models [] []; allowlist_of m.enabled models

-- `(*gatewayGroup).allows`.
unfoldable pub allows : Allowlist → Text → Bool
unfolding pattern_matches
allows list model =
    if not list.enabled then true else any (λ p. pattern_matches p model) list.models

-- `model_routing`: the entries of the map, one for each pattern.
abbrev pub Routing : Type 0
Routing = List (Text × List ℕ)

-- A missing key reads as the nil slice.
unfoldable pub accounts_at : Text → Routing → List ℕ
accounts_at key [] = []
accounts_at key ((k, ids) ∷ rest) = if k == key then ids else accounts_at key rest

-- One round of the loop over the map: the longest pattern so far.
unfoldable pub longer_pattern : Text → Text × List ℕ → Text → Text
longer_pattern model (pattern, ids) best =
    if ltb 0 (length ids)
      && ends_in_star pattern
      && has_prefix model (trim_star pattern)
      && ltb (byte_len best) (byte_len pattern)
    then pattern
    else best

unfoldable pub best_pattern : Text → Routing → Text → Text
unfolding longer_pattern
best_pattern model [] best = best
best_pattern model (entry ∷ rest) best = best_pattern model rest (longer_pattern model entry best)

-- `(*gatewayGroup).routingAccounts`.
unfoldable pub routing_accounts : Bool → Routing → Text → String → List ℕ
unfolding accounts_at best_pattern
routing_accounts routing_enabled routing model platform =
    let exact = accounts_at model routing in
    if not routing_enabled || (not (platform == "openai") && not (platform == "anthropic"))
    then []
    else if ltb 0 (length exact)
    then exact
    else accounts_at (best_pattern model routing []) routing
