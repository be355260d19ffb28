-- ===== src/FastPolicy/Rules/Normal/Parts.antt =====
-- The accepted users, models and actions of a rule.
use mathlib.Core.Path.{subst}
use lite_api.Common.{
  ◌≡◌, refl, ◌⊎◌, inl, inr, nat_eq, text_eq, string_eq, Text, String, ℕ, ◌<◌, nat_beq_iff, contains,
  true, false, List, [], ◌∷◌, arith,
}
use lite_api.Common.Strings.{trim_space}
use lite_api.Common.Errors.{ok, Result-cases}
use lite_api.Models.{valid_model_pattern}
use lite_api.FastPolicy.{known_action, bad_users, trimmed_models}

-- The IDs are positive, and no two are one.
abbrev pub AreUnique : List ℕ → List ℕ → Type 0
AreUnique [] seen = Unit {0}
AreUnique (u ∷ us) seen = (0 < u) × (contains seen u ≡ false) × AreUnique us (u ∷ seen)

pub bad_users-AreUnique : (us seen : List ℕ) → bad_users us seen ≡ false → AreUnique us seen
unfolding bad_users
bad_users-AreUnique [] seen h = tt
bad_users-AreUnique (u ∷ us) seen h = (
  ground (arith, nat_beq_iff u 0),
  ground arith,
  bad_users-AreUnique us (u ∷ seen) (ground arith),
)

-- The models are the given ones without the space around them, and all are patterns.
abbrev pub ArePatterns : List Text → List Text → Type 0
ArePatterns [] [] = Unit {0}
ArePatterns (raw ∷ raws) (m ∷ ms) =
    (m ≡ trim_space raw) × (valid_model_pattern m ≡ true) × ArePatterns raws ms
ArePatterns [] (m ∷ ms) = ⊥
ArePatterns (raw ∷ raws) [] = ⊥

pub trimmed_models-ArePatterns :
    (raws ms : List Text) → trimmed_models raws ≡ ok ms → ArePatterns raws ms
unfolding trimmed_models
trimmed_models-ArePatterns [] ms e =
    let none_left : [] ≡ ms = ground arith in subst (ArePatterns []) none_left tt
trimmed_models-ArePatterns (raw ∷ raws) ms e = elim (Result-cases (trimmed_models raws)) [
  | inr (x, bad_rest) ↦ absurd (ground arith)
  | inl (rest, below) ↦
      let whole : trim_space raw ∷ rest ≡ ms = ground arith in
      subst (ArePatterns (raw ∷ raws)) whole
        (refl, ground arith, trimmed_models-ArePatterns raws rest below)
]

abbrev pub IsAction : String → Type 0
IsAction a = (a ≡ "pass") ⊎ (a ≡ "filter") ⊎ (a ≡ "block") ⊎ (a ≡ "force_priority")

pub known_action-IsAction : (a : String) → known_action a ≡ true → IsAction a
unfolding known_action
known_action-IsAction a h = ground (
  arith,
  string_eq.beq_iff a "pass",
  string_eq.beq_iff a "filter",
  string_eq.beq_iff a "block",
  string_eq.beq_iff a "force_priority",
)
