-- ===== src/Reasoning/Input.antt =====
-- The reasoning settings that an administrator writes: `(*groupInput).validateReasoning` of
-- internal/app/reasoning.go. A field that the request leaves out stays as it is.
pub mod Checked
use lite_api.Common.{
  ℕ, ltb, if◌then◌else◌, ◌==◌, nat_eq, string_eq, text_eq, Text, text_beq, codes, String, Bool,
  true, false, not, ◌&&◌, ◌||◌, List, [], ◌∷◌, ◌++◌, Option, none, some, length, contains,
}
use lite_api.Common.Strings.{trim_space, to_lower, equal_fold, byte_len}
use lite_api.Common.Errors.{Result, ok, err, ◌>>=◌, ◌>>◌, fail_if, bad}
use lite_api.Models.{has_control}
use lite_api.Reasoning.{EffortMapping, effort_rank, canonical_effort}

pub record ReasoningInput : Type 0 where
  pub input_max : Option Text
  pub input_over_limit : Option Text
  pub input_mappings : Option (List EffortMapping)

-- The efforts that the platform takes.
unfoldable pub is_allowed : String → Text → Bool
is_allowed platform value =
    ltb 0 (effort_rank value)
    && (platform == "openai"
        || platform == "composite"
        || (platform == "anthropic" && not (value == codes "minimal")))

unfoldable pub checked_max : String → Option Text → Result (Option Text)
checked_max platform none = ok none
checked_max platform (some raw) = do
  fail_if (not (trim_space raw == []) && not (is_allowed platform (canonical_effort raw)))
      (bad "unsupported maximum reasoning effort for this platform")
  ok (some (canonical_effort raw))

unfoldable pub over_limit_value : Text → Text
over_limit_value raw =
    let value = to_lower (trim_space raw) in if value == [] then codes "downgrade" else value

unfoldable pub checked_over_limit : String → Option Text → Result (Option Text)
checked_over_limit platform none = ok none
checked_over_limit platform (some raw) = do
  let value = over_limit_value raw
  fail_if
      ((not (value == codes "downgrade") && not (value == codes "deny"))
        || (value == codes "deny" && not (is_allowed platform (codes "low"))))
      (bad "invalid reasoning effort over-limit action")
  ok (some value)

-- `from` and `to` of a rule: an effort, or the word that stands beside the efforts.
unfoldable pub effort_or : String → Text → Text
effort_or word raw =
    if equal_fold (trim_space raw) (codes word) then codes word else canonical_effort raw

-- A rule without a model has no match type; one with a model matches exactly unless it says more.
unfoldable pub match_of : Text → Text → Text
match_of model raw =
    let value = to_lower (trim_space raw) in
    if model == [] then [] else if value == [] then codes "exact" else value

unfoldable pub known_match : Text → Bool
known_match value =
    value == [] || value == codes "exact" || value == codes "prefix" || value == codes "suffix"

-- The rule, but for the test of duplicates.
unfoldable pub checked_mapping : String → EffortMapping → Result EffortMapping
checked_mapping platform m = do
  let from = effort_or "none" m.from
  let to = effort_or "deny" m.to
  let model = trim_space m.model
  let match_type = match_of model m.match_type
  fail_if
      (not (is_allowed platform (codes "low"))
        || (not (from == codes "none") && not (is_allowed platform from))
        || (not (to == codes "deny") && not (is_allowed platform to)))
      (bad "invalid reasoning effort mapping values")
  fail_if (ltb 200 (byte_len model) || has_control model)
      (bad "invalid reasoning effort model scope")
  fail_if (not (known_match match_type)) (bad "invalid reasoning effort match type")
  ok (record { from = from; to = to; match_type = match_type; model = model })

-- `key`: two rules with the same key are duplicates.
unfoldable pub mapping_key : EffortMapping → Text
mapping_key m = m.from ++ 0 ∷ m.match_type ++ 0 ∷ to_lower m.model

unfoldable pub checked_mappings :
    String → List EffortMapping → List Text → Result (List EffortMapping)
checked_mappings platform [] seen = ok []
checked_mappings platform (m ∷ ms) seen = do
  first ← checked_mapping platform m
  fail_if (contains seen (mapping_key first)) (bad "duplicate reasoning effort mapping")
  rest ← checked_mappings platform ms (mapping_key first ∷ seen)
  ok (first ∷ rest)

unfoldable pub checked_rules :
    String → Option (List EffortMapping) → Result (Option (List EffortMapping))
checked_rules platform none = ok none
checked_rules platform (some ms) = do
  fail_if (ltb 64 (length ms)) (bad "too many reasoning effort mappings")
  rules ← checked_mappings platform ms []
  ok (some rules)

-- `validateReasoning`.
unfoldable pub validate_reasoning : ReasoningInput → String → Result ReasoningInput
validate_reasoning raw platform = do
  max ← checked_max platform raw.input_max
  over_limit ← checked_over_limit platform raw.input_over_limit
  rules ← checked_rules platform raw.input_mappings
  ok (record { input_max = max; input_over_limit = over_limit; input_mappings = rules })
