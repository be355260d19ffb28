-- ===== src/FastPolicy/Rules.antt =====
-- The fast policy rules: their normal form, and what they do to the tier of a request.
pub mod Normal
use mathlib.Core.Path.{subst}
use lite_api.Common.{
  ℕ, ◌<◌, ◌≤◌, ◌≡◌, refl, sym, ◌∙◌, ◌⊎◌, inl, inr, ◌≢◌, ◌==◌, nat_eq, text_eq, string_eq, text_beq,
  text_beq_iff, eq_iff, Text, codes, String, Bool, true, false, ◌&&◌, List, [], ◌∷◌, ◌++◌, some,
  length, contains, arith,
}
use lite_api.Common.Strings.{trim_space, to_lower}
use lite_api.Common.Errors.{ok, Result-cases}
use lite_api.Common.Json.{str, Fields, get, put, remove, get-put, get-remove}
use lite_api.Models.{valid_model_pattern}
use lite_api.FastPolicy.{
  Rule, known_tier, bad_rule, bad_users, rule_tier, trimmed_models, validate_rule, validate_rules,
  validate_settings, considers, find_rule, action, priority, apply_action, apply, FastGroup,
  is_present, wire_tier, forced_tier, apply_fast, fast_policy_protocol,
}
use lite_api.FastPolicy.Rules.Normal.{AreNormal, validate_rules-AreNormal, validate_rules_idem}

-- The member of the body and the tier that is kept for the request say the same.
abbrev pub Agrees : Fields → Text → Type 0
Agrees body tier =
    (tier ≡ [] → is_present (get "service_tier" body) ≡ false)
    × (tier ≢ [] → get "service_tier" body ≡ some (str tier))

to_lower_blank : (t : Text) → to_lower t ≡ [] → t ≡ []
unfolding to_lower
to_lower_blank [] e = refl
to_lower_blank (c ∷ s) e = cc

forced_blank :
    (g : FastGroup) (account_platform : String) (tier : Text)
    → forced_tier g account_platform (wire_tier tier) ≡ []
    → trim_space tier ≡ []
unfolding forced_tier
forced_blank g account_platform tier e = ground (arith, to_lower_blank (trim_space tier))

Agrees-put :
    (body : Fields) (tier : Text) → tier ≢ [] → Agrees (put "service_tier" (str tier) body) tier
Agrees-put body tier n = (
  λ e. absurd (n e),
  λ m. ground (
    arith,
    get-put "service_tier" "service_tier" (str tier) body,
    eq_iff "service_tier" "service_tier",
  ),
)

Agrees-remove : (body : Fields) → Agrees (remove "service_tier" body) []
Agrees-remove body = (
  λ e.
      ground (
        arith,
        get-remove "service_tier" "service_tier" body,
        eq_iff "service_tier" "service_tier",
      ),
  λ m. absurd (m refl),
)

module _ (g : FastGroup) (account_platform upstream protocol : String) (count_only : Bool)
    (tier billed : Text) (body body' : Fields) where
  abbrev forced : Text
  forced = forced_tier g account_platform (wire_tier tier)

  apply_fast-cases :
      fast_policy_protocol upstream count_only protocol ≡ true
      → apply_fast g account_platform upstream count_only protocol tier body ≡ ok (body', billed)
      → ((forced ≡ [])
          × (body' ≡ body)
          × (billed ≡ [])
          × ((is_present (get "service_tier" body) && trim_space tier == []) ≡ false))
        ⊎ ((forced ≢ []) × (body' ≡ put "service_tier" (str forced) body) × (billed ≡ forced))
  unfolding apply_fast
  apply_fast-cases on e = ground (arith, text_beq_iff forced [])

  -- On the wire protocols with tiers, the body names the tier that `applyFast` returns, or none if that
  -- tier is empty.
  apply_fast-Agrees :
      fast_policy_protocol upstream count_only protocol ≡ true
      → apply_fast g account_platform upstream count_only protocol tier body ≡ ok (body', billed)
      → Agrees body' billed
  apply_fast-Agrees on e = elim (apply_fast-cases on e) [
    | inr (n, sent, same) ↦ rw (sent, same) (Agrees-put body forced n)
    | inl (empty, same, none_billed, absent) ↦
        rw (same, none_billed)
          (
            λ x. ground (
              arith,
              forced_blank g account_platform tier empty,
              text_beq_iff (trim_space tier) [],
            ),
            λ m. absurd (m refl),
          )
  ]

module _ (rules : List Rule) (body body' : Fields) (user : ℕ) (model : Text) (platform : String)
    (tier billed : Text) where
  apply_action-cases :
      (verdict : String × Text)
      → apply_action verdict body model platform tier ≡ ok (body', billed)
      → ((tier ≡ []) × (body' ≡ body) × (billed ≡ []))
        ⊎ ((body' ≡ remove "service_tier" body) × (billed ≡ []))
        ⊎ ((body' ≡ put "service_tier" (str priority) body) × (billed ≡ priority))
        ⊎ ((body' ≡ body) × (billed ≡ tier))
  unfolding apply_action
  apply_action-cases (act, message) e = ground (arith, text_beq_iff tier [])

  -- Applying the rules keeps that agreement: whatever they do to the tier, they do to the body.
  apply-Agrees :
      Agrees body tier
      → apply rules body user model platform tier ≡ ok (body', billed)
      → Agrees body' billed
  unfolding apply
  apply-Agrees agrees e = elim (apply_action-cases (action rules user model tier) e) [
    | inl (empty, same, none_billed) ↦ rw (same, none_billed) (rw empty at agrees)
    | inr (inl (cut, none_billed)) ↦ rw (cut, none_billed) (Agrees-remove body)
    | inr (inr (inl (sent, same))) ↦ rw (sent, same) (Agrees-put body priority (λ x. cc))
    | inr (inr (inr (same, kept))) ↦ rw (same, kept) agrees
  ]

-- On the wire protocols with tiers, what the gateway sends after the override of the group and then the
-- rules: the outbound body names the tier that both leave for the request, or none if that tier is empty.
-- The bill may still fall to a lower tier that the upstream declares.
pub apply-apply_fast-Agrees :
    (g : FastGroup) (platform upstream protocol : String) (count_only : Bool) (rules : List Rule)
    (user : ℕ) (model asked forced_one kept : Text) (body first sent : Fields)
    → fast_policy_protocol upstream count_only protocol ≡ true
    → apply_fast g platform upstream count_only protocol asked body ≡ ok (first, forced_one)
    → apply rules first user model platform forced_one ≡ ok (sent, kept)
    → Agrees sent kept
apply-apply_fast-Agrees g platform upstream protocol count_only rules user model asked forced_one
      kept body first sent on overridden ruled =
    apply-Agrees rules first sent user model platform forced_one kept
      (apply_fast-Agrees g platform upstream protocol count_only asked forced_one body first on
        overridden)
      ruled

considers_other :
    (scoped : Bool) (user : ℕ) (tier : Text) (r : Rule)
    → 0 < length r.users
    → contains r.users user ≡ false
    → considers scoped user tier r ≡ false
unfolding considers
considers_other true user tier r l n = ground arith
considers_other false user tier r l n = ground arith

find_rule_other :
    (scoped : Bool) (user : ℕ) (tier : Text) (r : Rule) (before after : List Rule)
    → 0 < length r.users
    → contains r.users user ≡ false
    → find_rule scoped user tier (before ++ r ∷ after)
      ≡ find_rule scoped user tier (before ++ after)
unfolding find_rule
find_rule_other scoped user tier r [] after l n = rw (considers_other scoped user tier r l n)
find_rule_other scoped user tier r (x ∷ before) after l n =
    rw (find_rule_other scoped user tier r before after l n)

-- A rule for other users changes nothing for this user, wherever it stands in the list.
action_other :
    (r : Rule) (before after : List Rule) (user : ℕ) (model tier : Text)
    → 0 < length r.users
    → contains r.users user ≡ false
    → action (before ++ r ∷ after) user model tier ≡ action (before ++ after) user model tier
unfolding action
action_other r before after user model tier l n = ground (
  arith,
  find_rule_other true user tier r before after l n,
  find_rule_other false user tier r before after l n,
)

-- The accepted settings are at most 100 rules, each the given one in its normal form: the tier in lower
-- case without space around it, or `all` where it is blank, and one of the five known; at most 100 models,
-- all patterns, without space around them; a known action, fallback and scope; at most 1000 users with
-- positive IDs of which no two are one; short messages; and nothing else changed. Validation accepts these
-- rules again and leaves them as they are.
pub validate_settings-AreNormal :
    (rules rules' : List Rule)
    → validate_settings rules ≡ ok rules'
    → (length rules ≤ 100) × AreNormal rules rules' × (validate_settings rules' ≡ ok rules')
unfolding validate_settings
validate_settings-AreNormal rules rules' e =
    let checked : validate_rules rules ≡ ok rules' = ground arith in
    (
      ground arith,
      validate_rules-AreNormal rules rules' checked,
      ground (arith, validate_rules_idem rules rules'),
    )
