-- ===== src/Models/Tests.antt =====
-- An allowlist with entries that differ in case.
use lite_api.Models.Preferred.{IsMap, routing_accounts_order}
use lite_api.Common.{
  arith, ap, sym, ◌∙◌, ◌↔◌, inl, inr, In, Text, List, ◌≡◌, refl, ℕ, codes, true, not, ◌||◌, any,
  text_beq, contains, [], ◌∷◌,
}
use lite_api.Common.Strings.{trim_space, to_lower, has_prefix, ends_in_star, trim_star}
use lite_api.Common.Errors.{ok}
use lite_api.Models.{
  Allowlist, routing_accounts, has_control, valid_model_pattern, covers, pattern_matches,
  keep_models, allowlist_of, validate_allowlist, allows,
}
use lite_api.Models.Listed.{raw_match, allows-validate_allowlist}

abbrev raw : Allowlist
raw = record { enabled = true; models = codes " GPT-* " ∷ codes "gpt-*" ∷ [] ∷ [] }

abbrev stored : Allowlist
stored = record { enabled = true; models = codes "GPT-*" ∷ [] }

runs : ℕ
unfolding trim_space to_lower has_prefix ends_in_star trim_star has_control valid_model_pattern
    covers pattern_matches keep_models allowlist_of validate_allowlist allows text_beq contains
runs = 0

validated : validate_allowlist raw ≡ ok stored
unfolding runs
validated = refl

allows-validate_allowlist_example :
    allows stored (codes "gpt-5") ≡ (not raw.enabled || any (raw_match (codes "gpt-5")) raw.models)
allows-validate_allowlist_example = allows-validate_allowlist raw stored (codes "gpt-5") validated

abbrev wide : Text × List ℕ
wide = (codes "gpt-*", 1 ∷ [])

abbrev narrow : Text × List ℕ
narrow = (codes "gpt-5*", 2 ∷ [])

-- The keys of the two entries differ.
is_map : IsMap (narrow ∷ wide ∷ [])
is_map k ids jds (inl e) (inl e') = ap (λ x. x.1) e ∙ sym (ap (λ x. x.1) e')
is_map k ids jds (inr (inl e)) (inr (inl e')) = ap (λ x. x.1) e ∙ sym (ap (λ x. x.1) e')
is_map k ids jds (inl e) (inr (inl e')) = let clash = sym (ap (λ x. x.0) e) ∙ ap (λ x. x.0) e' in cc
is_map k ids jds (inr (inl e)) (inl e') = let clash = sym (ap (λ x. x.0) e) ∙ ap (λ x. x.0) e' in cc
is_map k ids jds (inr (inr i)) j = elim i [ ]
is_map k ids jds (inl e) (inr (inr j)) = elim j [ ]
is_map k ids jds (inr (inl e)) (inr (inr j)) = elim j [ ]

swapped : (e : Text × List ℕ) → In e (wide ∷ narrow ∷ []) ↔ In e (narrow ∷ wide ∷ [])
swapped e = ground arith

routing_accounts_order_example :
    routing_accounts true (wide ∷ narrow ∷ []) (codes "gpt-5.4") "openai"
    ≡ routing_accounts true (narrow ∷ wide ∷ []) (codes "gpt-5.4") "openai"
routing_accounts_order_example =
    routing_accounts_order true (wide ∷ narrow ∷ []) (narrow ∷ wide ∷ []) (codes "gpt-5.4") "openai"
      is_map swapped
