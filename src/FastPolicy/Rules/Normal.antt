-- ===== src/FastPolicy/Rules/Normal.antt =====
-- What the accepted rules look like, and that they stay as they are.
pub mod Parts
use mathlib.Core.Path.{subst}
use lite_api.Common.{
  ◌≡◌, refl, sym, ◌∙◌, ◌⊎◌, inl, inr, nat_eq, text_eq, string_eq, text_beq, text_beq_iff, Text,
  codes, String, ℕ, ◌<◌, ◌≤◌, nat_beq_iff, contains, true, false, List, [], ◌∷◌, length, arith,
}
use lite_api.Common.Strings.{trim_space, to_lower, byte_len}
use lite_api.Common.Errors.{ok, Result-cases}
use lite_api.Models.{valid_model_pattern}
use lite_api.FastPolicy.{
  Rule, known_tier, known_action, bad_rule, bad_users, rule_tier, trimmed_models, validate_rule,
  validate_rules,
}
use lite_api.FastPolicy.Rules.Normal.Parts.{
  AreUnique, bad_users-AreUnique, ArePatterns, trimmed_models-ArePatterns, IsAction,
  known_action-IsAction,
}

known_tier-cases :
    (t : Text)
    → known_tier t ≡ true
    → (t ≡ codes "all")
      ⊎ (t ≡ codes "priority")
      ⊎ (t ≡ codes "ultrafast")
      ⊎ (t ≡ codes "flex")
      ⊎ (t ≡ codes "missing")
unfolding known_tier
known_tier-cases t h = ground (
  arith,
  text_beq_iff t (codes "all"),
  text_beq_iff t (codes "priority"),
  text_beq_iff t (codes "ultrafast"),
  text_beq_iff t (codes "flex"),
  text_beq_iff t (codes "missing"),
)

rule_tier_known : (t : Text) → known_tier t ≡ true → rule_tier t ≡ t
unfolding trim_space to_lower text_beq
rule_tier_known t h = elim (known_tier-cases t h) [
  | inl e ↦ rw e refl
  | inr (inl e) ↦ rw e refl
  | inr (inr (inl e)) ↦ rw e refl
  | inr (inr (inr (inl e))) ↦ rw e refl
  | inr (inr (inr (inr e))) ↦ rw e refl
]

valid_model_pattern-trim_space : (s : Text) → valid_model_pattern s ≡ true → trim_space s ≡ s
unfolding valid_model_pattern
valid_model_pattern-trim_space s h = ground (arith, text_beq_iff (trim_space s) s)

trimmed_models_idem :
    (ms ms' : List Text)
    → trimmed_models ms ≡ ok ms'
    → (trimmed_models ms' ≡ ok ms') × (length ms' ≡ length ms)
unfolding trimmed_models
trimmed_models_idem [] ms' e = ground arith
trimmed_models_idem (m ∷ ms) ms' e = elim (Result-cases (trimmed_models ms)) [
  | inr (x, bad_rest) ↦ absurd (ground arith)
  | inl (rest, below) ↦
      ground
        (arith, trimmed_models_idem ms rest below, valid_model_pattern-trim_space (trim_space m))
]

known_of_not-bad : (r : Rule) → bad_rule r ≡ false → known_tier r.tier ≡ true
unfolding bad_rule
known_of_not-bad r h = ground arith

bad_rule-models :
    (r : Rule) (ms : List Text)
    → length ms ≡ length r.models
    → bad_rule (record r { models = ms }) ≡ bad_rule r
unfolding bad_rule
bad_rule-models r ms e = rw e

-- The rule that `validate` makes of `raw`, once its models are trimmed.
abbrev normal_rule : Rule → List Text → Rule
normal_rule raw ms = record raw { tier = rule_tier raw.tier; models = ms }

validate_rule-eq-ok :
    (raw r : Rule)
    → validate_rule raw ≡ ok r
    → (ms : List Text) × (trimmed_models raw.models ≡ ok ms)
      × (bad_rule (record raw { tier = rule_tier raw.tier }) ≡ false)
      × (bad_users raw.users [] ≡ false)
      × (r ≡ normal_rule raw ms)
unfolding validate_rule
validate_rule-eq-ok raw r e = elim (Result-cases (trimmed_models raw.models)) [
  | inr (x, bad_rest) ↦ absurd (ground arith)
  | inl (ms, trimmed) ↦ (ms, trimmed, ground arith, ground arith, ground arith)
]

validate_rule_idem : (raw r : Rule) → validate_rule raw ≡ ok r → validate_rule r ≡ ok r
unfolding validate_rule
validate_rule_idem raw r e =
    let (ms, trimmed, fine, users, same) = validate_rule-eq-ok raw r e in
    let (again, len) = trimmed_models_idem raw.models ms trimmed in
    let tier = rule_tier_known (rule_tier raw.tier) (known_of_not-bad _ fine) in
    let still = bad_rule-models (record raw { tier = rule_tier raw.tier }) ms len ∙ fine in
    subst (λ z. validate_rule z ≡ ok z) (sym same) (rw (tier, still, users, again))

pub validate_rules_idem :
    (rs rs' : List Rule)
    → validate_rules rs ≡ ok rs'
    → (validate_rules rs' ≡ ok rs') × (length rs' ≡ length rs)
unfolding validate_rules
validate_rules_idem [] rs' e = ground arith
validate_rules_idem (r ∷ rs) rs' e = elim (Result-cases (validate_rule r)) [
  | inr (x, bad_first) ↦ absurd (ground arith)
  | inl (first, here) ↦ elim (Result-cases (validate_rules rs)) [
    | inr (x, bad_rest) ↦ absurd (ground arith)
    | inl (rest, below) ↦
        ground (arith, validate_rules_idem rs rest below, validate_rule_idem r first here)
  ]
]

-- The rule `r` is the given one with its tier and its models in their normal form, and fit for use.
pub record IsNormal (raw r : Rule) : Type 0 where
  pub tier_known :
      (r.tier ≡ codes "all")
      ⊎ (r.tier ≡ codes "priority")
      ⊎ (r.tier ≡ codes "ultrafast")
      ⊎ (r.tier ≡ codes "flex")
      ⊎ (r.tier ≡ codes "missing")
  pub tier_read :
      (r.tier ≡ to_lower (trim_space raw.tier))
      ⊎ (to_lower (trim_space raw.tier) ≡ []) × (r.tier ≡ codes "all")
  pub models_read : ArePatterns raw.models r.models
  pub few_models : length raw.models ≤ 100
  pub action_known : IsAction r.action
  pub fallback_known : (r.fallback ≡ "") ⊎ IsAction r.fallback
  pub scope_known : (r.scope ≡ "all") ⊎ (r.scope ≡ "apikey")
  pub users_unique : (length r.users ≤ 1000) × AreUnique r.users []
  pub messages_short : (byte_len r.message ≤ 2000) × (byte_len r.fallback_message ≤ 2000)
  pub others_stay : r ≡ record raw { tier = r.tier; models = r.models }

-- What a rule that is not bad is.
bad_rule-false :
    (r : Rule)
    → bad_rule r ≡ false
    → (known_tier r.tier ≡ true)
      × (known_action r.action ≡ true)
      × ((r.fallback ≡ "") ⊎ (known_action r.fallback ≡ true))
      × ((r.scope ≡ "all") ⊎ (r.scope ≡ "apikey"))
      × (length r.users ≤ 1000)
      × (length r.models ≤ 100)
      × (byte_len r.message ≤ 2000)
      × (byte_len r.fallback_message ≤ 2000)
unfolding bad_rule
bad_rule-false r h = ground (
  arith,
  string_eq.beq_iff r.fallback "",
  string_eq.beq_iff r.scope "all",
  string_eq.beq_iff r.scope "apikey",
)

validate_rule-IsNormal : (raw r : Rule) → validate_rule raw ≡ ok r → IsNormal raw r
validate_rule-IsNormal raw r e =
    let (ms, trimmed, fine, users, same) = validate_rule-eq-ok raw r e in
    let (known, act, fallback, scope, few_users, few, short, short_fallback) =
      bad_rule-false (record raw { tier = rule_tier raw.tier }) fine in
    subst (IsNormal raw) (sym same) (record {
      tier_known = known_tier-cases (rule_tier raw.tier) known;
      tier_read = ground (arith, text_beq_iff (to_lower (trim_space raw.tier)) []);
      models_read = trimmed_models-ArePatterns raw.models ms trimmed;
      few_models = few;
      action_known = known_action-IsAction raw.action act;
      fallback_known = elim fallback [
        | inl none_given ↦ inl none_given
        | inr given ↦ inr (known_action-IsAction raw.fallback given)
      ];
      scope_known = scope;
      users_unique = (few_users, bad_users-AreUnique raw.users [] users);
      messages_short = (short, short_fallback);
      others_stay = refl;
    })

abbrev pub AreNormal : List Rule → List Rule → Type 0
AreNormal [] [] = Unit {0}
AreNormal (raw ∷ raws) (r ∷ rs) = IsNormal raw r × AreNormal raws rs
AreNormal [] (r ∷ rs) = ⊥
AreNormal (raw ∷ raws) [] = ⊥

pub validate_rules-AreNormal :
    (raws rs : List Rule) → validate_rules raws ≡ ok rs → AreNormal raws rs
unfolding validate_rules
validate_rules-AreNormal [] rs e =
    let none_left : [] ≡ rs = ground arith in subst (AreNormal []) none_left tt
validate_rules-AreNormal (raw ∷ raws) rs e = elim (Result-cases (validate_rule raw)) [
  | inr (x, bad_first) ↦ absurd (ground arith)
  | inl (first, here) ↦ elim (Result-cases (validate_rules raws)) [
    | inr (x, bad_rest) ↦ absurd (ground arith)
    | inl (rest, below) ↦
        let whole : first ∷ rest ≡ rs = ground arith in
        subst (AreNormal (raw ∷ raws)) whole
          (validate_rule-IsNormal raw first here, validate_rules-AreNormal raws rest below)
  ]
]
