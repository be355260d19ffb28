-- ===== src/Reasoning/Input/Checked.antt =====
-- What the accepted reasoning settings look like.
use mathlib.Core.Path.{subst}
use lite_api.Common.{
  suc, ap, ◌≤◌, nat_eq, string_eq, text_eq, ◌≡◌, refl, ◌⊎◌, inl, inr, Text, text_beq_iff, codes,
  String, true, false, List, [], ◌∷◌, Option, none, some, length, contains, arith,
}
use lite_api.Common.Strings.{byte_len, trim_space}
use lite_api.Reasoning.Canonical.{canonical_effort_blank}
use lite_api.Common.Errors.{ok, Result-cases}
use lite_api.Models.{has_control}
use lite_api.Reasoning.{EffortMapping}
use lite_api.Reasoning.Input.{
  ReasoningInput, is_allowed, checked_max, over_limit_value, checked_over_limit, effort_or,
  known_match, checked_mapping, mapping_key, checked_mappings, checked_rules, validate_reasoning,
}

-- A rule that the policy can apply on the platform.
abbrev pub IsRule : String → EffortMapping → Type 0
IsRule platform m =
    ((m.from ≡ codes "none") ⊎ (is_allowed platform m.from ≡ true))
    × ((m.to ≡ codes "deny") ⊎ (is_allowed platform m.to ≡ true))
    × (known_match m.match_type ≡ true)
    × (byte_len m.model ≤ 200)
    × (has_control m.model ≡ false)

-- Rules of which no two have one key, nor one of the keys seen.
abbrev pub AreRules : String → List EffortMapping → List Text → Type 0
AreRules platform [] seen = Unit {0}
AreRules platform (m ∷ ms) seen =
    IsRule platform m
    × (contains seen (mapping_key m) ≡ false)
    × AreRules platform ms (mapping_key m ∷ seen)

checked_max-known :
    (platform : String) (raw : Option Text) (v : Text)
    → checked_max platform raw ≡ ok (some v)
    → (v ≡ []) ⊎ (is_allowed platform v ≡ true)
unfolding checked_max
checked_max-known platform none v h = cc
checked_max-known platform (some raw) v h =
    ground (arith, text_beq_iff (trim_space raw) [], canonical_effort_blank raw)

checked_over_limit-known :
    (platform : String) (raw : Option Text) (v : Text)
    → checked_over_limit platform raw ≡ ok (some v)
    → (v ≡ codes "downgrade") ⊎ ((v ≡ codes "deny") × (is_allowed platform (codes "low") ≡ true))
unfolding checked_over_limit
checked_over_limit-known platform none v h = cc
checked_over_limit-known platform (some raw) v h = ground (
  arith,
  text_beq_iff (over_limit_value raw) (codes "downgrade"),
  text_beq_iff (over_limit_value raw) (codes "deny"),
)

checked_mapping-IsRule :
    (platform : String) (raw m : EffortMapping)
    → checked_mapping platform raw ≡ ok m
    → IsRule platform m
unfolding checked_mapping
checked_mapping-IsRule platform raw m h = ground (
  arith,
  text_beq_iff (effort_or "none" raw.from) (codes "none"),
  text_beq_iff (effort_or "deny" raw.to) (codes "deny"),
)

checked_mappings-AreRules :
    (platform : String) (raws ms : List EffortMapping) (seen : List Text)
    → checked_mappings platform raws seen ≡ ok ms
    → AreRules platform ms seen × (length ms ≡ length raws)
unfolding checked_mappings
checked_mappings-AreRules platform [] ms seen h =
    let same : [] ≡ ms = ground arith in
    subst (λ xs. AreRules platform xs seen × (length xs ≡ 0)) same (tt, refl)
checked_mappings-AreRules platform (raw ∷ raws) ms seen h =
    elim (Result-cases (checked_mapping platform raw)) [
      | inr (e, failed) ↦ absurd (ground arith)
      | inl (m, here) ↦
          elim (Result-cases (checked_mappings platform raws (mapping_key m ∷ seen))) [
            | inr (e, failed) ↦ absurd (ground arith)
            | inl (rest, below) ↦
                let (good, same) =
                  checked_mappings-AreRules platform raws rest (mapping_key m ∷ seen) below in
                let new : contains seen (mapping_key m) ≡ false = ground arith in
                let whole : (m ∷ rest) ≡ ms = ground arith in
                subst (λ xs. AreRules platform xs seen × (length xs ≡ length (raw ∷ raws))) whole
                  ((checked_mapping-IsRule platform raw m here, new, good), ap suc same)
          ]
    ]

checked_rules-AreRules :
    (platform : String) (raw : Option (List EffortMapping)) (ms : List EffortMapping)
    → checked_rules platform raw ≡ ok (some ms)
    → (length ms ≤ 64) × AreRules platform ms []
unfolding checked_rules
checked_rules-AreRules platform none ms h = cc
checked_rules-AreRules platform (some raws) ms h =
    elim (Result-cases (checked_mappings platform raws [])) [
      | inr (e, failed) ↦ absurd (ground arith)
      | inl (rules, checked) ↦
          let (good, same) = checked_mappings-AreRules platform raws rules [] checked in
          let few : length rules ≤ 64 = ground arith in
          let whole : rules ≡ ms = ground arith in
          subst (λ xs. (length xs ≤ 64) × AreRules platform xs []) whole (few, good)
    ]

-- Settings that `validateReasoning` accepts are fit for use, each as far as it is given: the maximum is
-- empty or an effort of the platform; the action is downgrade, or deny on a platform with efforts; there
-- are at most 64 rules, no two with one key, each between values that the platform takes, with a known
-- match type and a model within 200 bytes that has no line feed, carriage return or NUL.
pub validate_reasoning-IsReady :
    (raw input : ReasoningInput) (platform : String)
    → validate_reasoning raw platform ≡ ok input
    → ((v : Text) → input.input_max ≡ some v → (v ≡ []) ⊎ (is_allowed platform v ≡ true))
      × ((v : Text)
          → input.input_over_limit ≡ some v
          → (v ≡ codes "downgrade")
            ⊎ ((v ≡ codes "deny") × (is_allowed platform (codes "low") ≡ true)))
      × ((ms : List EffortMapping)
          → input.input_mappings ≡ some ms
          → (length ms ≤ 64) × AreRules platform ms [])
unfolding validate_reasoning
validate_reasoning-IsReady raw input platform h =
    elim (Result-cases (checked_max platform raw.input_max)) [
      | inr (e, failed) ↦ absurd (ground arith)
      | inl (max, max_ok) ↦ elim (Result-cases (checked_over_limit platform raw.input_over_limit)) [
        | inr (e, failed) ↦ absurd (ground arith)
        | inl (over, over_ok) ↦ elim (Result-cases (checked_rules platform raw.input_mappings)) [
          | inr (e, failed) ↦ absurd (ground arith)
          | inl (rules, rules_ok) ↦ (
            (λ v e. checked_max-known platform raw.input_max v (ground arith)),
            (λ v e. checked_over_limit-known platform raw.input_over_limit v (ground arith)),
            (λ ms e. checked_rules-AreRules platform raw.input_mappings ms (ground arith)),
          )
        ]
      ]
    ]
