-- ===== src/Reasoning/Limit.antt =====
-- `apply` and the maximum effort of a group.
pub mod Members
use lite_api.Common.{
  ◌≤◌, ◌<◌, ◌≡◌, refl, sym, ◌∙◌, ◌⊎◌, inl, inr, ◌≢◌, ◌==◌, nat_eq, text_eq, text_beq, text_beq_iff,
  string_eq, eq_iff, Text, codes, String, Bool, true, Bool-cases, Option-cases, not, ◌&&◌, ◌||◌, [],
  some, length, arith,
}
use lite_api.Common.Strings.{trim_space}
use lite_api.Common.Errors.{ok, >>=-eq-ok}
use lite_api.Common.Json.{str, obj, Fields, get, put, get-put, as_text, as_object}
use lite_api.Reasoning.{
  Policy, place, effort_rank, canonical_effort, mapped_effort, effective_max, adapt_effort,
  cap_effort, decide_effort, write_effort, apply_field, apply_nested, apply,
}
use lite_api.Reasoning.Canonical.{
  IsCanonical, rank-In, fixed, canonical_effort-IsCanonical, canonical_effort_blank,
}
use lite_api.Reasoning.Limit.Members.{
  rank_blank, apply_field-FieldWithin, apply_nested-NestedWithin, FieldWithin, NestedWithin,
  apply_field-get, apply_nested-get,
}

-- The three steps of `apply`, where it does not return at once.
record Steps (p : Policy) (body : Fields) (model : Text) (platform : String) (body' : Fields)
    : Type 0 where
  first : Fields
  second : Fields
  reasoning : apply_nested p model platform "reasoning" "effort" body ≡ ok first
  plain : apply_field p model platform "reasoning_effort" first ≡ ok second
  output : apply_nested p model platform "output_config" "effort" second ≡ ok body'

apply-Steps :
    (p : Policy) (body : Fields) (model : Text) (platform : String) (body' : Fields)
    → apply p body model platform ≡ ok body'
    → (body' ≡ body)
        × (not (platform == "openai" || platform == "anthropic")
              || (p.max_effort == [] && length p.mappings == 0)
            ≡ true)
      ⊎ Steps p body model platform body'
unfolding apply
apply-Steps p body model platform body' eq =
    elim (Bool-cases (
      not (platform == "openai" || platform == "anthropic")
      || (p.max_effort == [] && length p.mappings == 0))) [
        | inl idle ↦ inl (ground arith, idle)
        | inr busy ↦
            let (first, reasoning, rest) = >>=-eq-ok _ _ (rw (busy, apply) at eq) in
            let (second, plain, output) = >>=-eq-ok _ _ rest in
            inr (record {
              first = first;
              second = second;
              reasoning = reasoning;
              plain = plain;
              output = output;
            })
      ]

output-ne-reasoning : ◌≢◌ {A = String} "output_config" "reasoning"
output-ne-reasoning = ground (arith, eq_iff "output_config" "reasoning")

output-ne-plain : ◌≢◌ {A = String} "output_config" "reasoning_effort"
output-ne-plain = ground (arith, eq_iff "output_config" "reasoning_effort")

plain-ne-reasoning : ◌≢◌ {A = String} "reasoning_effort" "reasoning"
plain-ne-reasoning = ground (arith, eq_iff "reasoning_effort" "reasoning")

rank_low : 0 < effort_rank (codes "low")
unfolding effort_rank place text_beq
rank_low = omega arith

effective_max-pos :
    (p : Policy) (platform : String)
    → 0 < effort_rank p.max_effort
    → 0 < effort_rank (effective_max p platform)
unfolding effective_max
effective_max-pos p platform h =
    elim (Bool-cases (platform == "anthropic" && p.max_effort == codes "minimal")) [
      | inl e ↦ rw e rank_low
      | inr e ↦ rw e h
    ]

-- The maximum that a policy has on a platform.
abbrev pub IsInForce : Policy → String → Text → Type 0
IsInForce p platform max =
    (max ≡ p.max_effort) × ¬ ((platform ≡ "anthropic") × (p.max_effort ≡ codes "minimal"))
    ⊎ (platform ≡ "anthropic") × (p.max_effort ≡ codes "minimal") × (max ≡ codes "low")

effective_max-IsInForce :
    (p : Policy) (platform : String) → IsInForce p platform (effective_max p platform)
unfolding effective_max
effective_max-IsInForce p platform =
    let on_anthropic = eq_iff platform "anthropic" in
    let is_minimal = text_beq_iff p.max_effort (codes "minimal") in
    elim (Bool-cases (platform == "anthropic" && p.max_effort == codes "minimal")) [
      | inl e ↦ inr (ground arith, ground arith, rw e refl)
      | inr e ↦ inl (rw e refl, λ (a, m). ground arith)
    ]

-- After a successful `apply` of a policy with a maximum, on OpenAI or Anthropic, no effort that the body
-- names, in any of the three places, is above the maximum in force: the policy's own, or `low` where a
-- policy with the maximum `minimal` is applied on Anthropic, which has no minimal effort.
pub apply-IsWithin :
    (p : Policy) (body body' : Fields) (model : Text) (platform : String)
    → (platform ≡ "openai") ⊎ (platform ≡ "anthropic")
    → 0 < effort_rank p.max_effort
    → apply p body model platform ≡ ok body'
    → let max = effective_max p platform in
      IsInForce p platform max
      × NestedWithin max "reasoning" "effort" body'
      × FieldWithin max "reasoning_effort" body'
      × NestedWithin max "output_config" "effort" body'
apply-IsWithin p body body' model platform on h eq =
    elim (apply-Steps p body model platform body' eq) [
      | inl (same, idle) ↦ absurd (
          ground (
            arith,
            rank_blank,
            text_beq_iff p.max_effort [],
            eq_iff platform "openai",
            eq_iff platform "anthropic",
          ))
      | inr s ↦
          let pos = effective_max-pos p platform h in
          let kept = apply_nested-get p model platform "output_config" "effort" in
          (
            effective_max-IsInForce p platform,
            λ object at.
                apply_nested-NestedWithin p model platform pos "reasoning" "effort" body s.first
                  s.reasoning object
                  (rw
                    (
                      kept "reasoning" s.second body' output-ne-reasoning s.output,
                      apply_field-get p model platform "reasoning_effort" "reasoning" s.first
                          s.second plain-ne-reasoning s.plain,
                    )
                    at at),
            λ v at.
                apply_field-FieldWithin p model platform pos "reasoning_effort" s.first s.second
                  s.plain v
                  (rw (kept "reasoning_effort" s.second body' output-ne-plain s.output) at at),
            apply_nested-NestedWithin p model platform pos "output_config" "effort" s.second body'
                s.output,
          )
    ]

-- `apply` changes no member but the three that may hold an effort.
pub apply-get :
    (p : Policy) (body body' : Fields) (model : Text) (platform k : String)
    → k ≢ "reasoning"
    → k ≢ "reasoning_effort"
    → k ≢ "output_config"
    → apply p body model platform ≡ ok body'
    → get k body' ≡ get k body
apply-get p body body' model platform k a b c eq =
    elim (apply-Steps p body model platform body' eq) [
      | inl (same, idle) ↦ rw same
      | inr s ↦
          apply_nested-get p model platform "output_config" "effort" k s.second body'
            (λ e. c (sym e)) s.output
          ∙ apply_field-get p model platform "reasoning_effort" k s.first s.second (λ e. b (sym e))
              s.plain
          ∙ apply_nested-get p model platform "reasoning" "effort" k body s.first (λ e. a (sym e))
              s.reasoning
    ]
