-- ===== src/Reasoning/Mapping.antt =====
-- The rule that `mappedEffort` chooses.
use lite_api.Common.{
  ℕ, ◌≤◌, ◌<◌, ◌≡◌, refl, ◌∙◌, ◌⊎◌, inl, inr, nat_eq, text_eq, text_beq_iff, Text, true, false,
  List, [], ◌∷◌, some, In, arith, codes, text_beq,
}
use lite_api.Common.Strings.{trim_space, to_lower, byte_len, has_prefix, has_suffix}
use lite_api.Reasoning.{
  EffortMapping, rule_rank, Choice, choose, choose_all, no_choice, lookup_effort, mapped_effort,
}

module _ (from request : Text) where
  abbrev len : EffortMapping → ℕ
  len m = byte_len (to_lower m.model)

  -- The rule is for this effort and applies to this model.
  abbrev Applies : EffortMapping → Type 0
  Applies m = (m.from ≡ from) × (0 < rule_rank m request)

  abbrev held : EffortMapping → Choice
  held m = record { best = some m; strength = rule_rank m request; scope_len = len m }

  -- A rule that does not apply, or one that is weaker, or as strong and no longer.
  abbrev NoStronger : EffortMapping → ℕ → ℕ → Type 0
  NoStronger m strength scope =
      (rule_rank m request ≡ 0)
      ⊎ (rule_rank m request < strength)
      ⊎ ((rule_rank m request ≡ strength) × (len m ≤ scope))

  abbrev Below : Choice → Choice → Type 0
  Below c d = (c.strength < d.strength) ⊎ ((c.strength ≡ d.strength) × (c.scope_len ≤ d.scope_len))

  choose-Below : (m : EffortMapping) (c : Choice) → Below c (choose from request m c)
  unfolding choose
  choose-Below m c = ground arith

  choose-NoStronger :
      (m : EffortMapping) (c : Choice)
      → m.from ≡ from
      → let d = choose from request m c in NoStronger m d.strength d.scope_len
  unfolding choose
  choose-NoStronger m c e = ground (arith, text_beq_iff m.from from)

  choose-origin :
      (m : EffortMapping) (c : Choice)
      → (choose from request m c ≡ c) ⊎ (Applies m × (choose from request m c ≡ held m))
  unfolding choose
  choose-origin m c = ground (arith, text_beq_iff m.from from)

  NoStronger-Below :
      (m : EffortMapping) (c d : Choice)
      → NoStronger m c.strength c.scope_len
      → Below c d
      → NoStronger m d.strength d.scope_len
  NoStronger-Below m c d h k = ground arith

  Below-trans : (c d e : Choice) → Below c d → Below d e → Below c e
  Below-trans c d e h k = ground arith

  choose_all-Below : (ms : List EffortMapping) (c : Choice) → Below c (choose_all from request ms c)
  unfolding choose_all
  choose_all-Below [] c = ground arith
  choose_all-Below (m ∷ ms) c =
      Below-trans c (choose from request m c) (choose_all from request ms (choose from request m c))
        (choose-Below m c) (choose_all-Below ms (choose from request m c))

  choose_all-NoStronger :
      (ms : List EffortMapping) (c : Choice) (m : EffortMapping)
      → In m ms
      → m.from ≡ from
      → let d = choose_all from request ms c in NoStronger m d.strength d.scope_len
  unfolding choose_all
  choose_all-NoStronger [] c m i e = elim i [ ]
  choose_all-NoStronger (x ∷ ms) c m (inl same) e =
      let d = choose from request x c in
      NoStronger-Below m d (choose_all from request ms d)
        (rw same (choose-NoStronger x c (rw (← same) e))) (choose_all-Below ms d)
  choose_all-NoStronger (x ∷ ms) c m (inr i) e =
      choose_all-NoStronger ms (choose from request x c) m i e

  choose_all-origin :
      (ms : List EffortMapping) (c : Choice)
      → (choose_all from request ms c ≡ c)
        ⊎ ((m : EffortMapping) × In m ms × Applies m × (choose_all from request ms c ≡ held m))
  unfolding choose_all
  choose_all-origin [] c = inl refl
  choose_all-origin (x ∷ ms) c = elim (choose_all-origin ms (choose from request x c)) [
    | inr (m, i, a, e) ↦ inr (m, inr i, a, e)
    | inl e ↦ elim (choose-origin x c) [
      | inl f ↦ inl (e ∙ f)
      | inr (a, f) ↦ inr (x, inl refl, a, e ∙ f)
    ]
  ]

-- The choice of `mappedEffort` by rank.
mapped_effort-NoStronger :
    (mappings : List EffortMapping) (value model : Text)
    → let from = lookup_effort value in
      let request = to_lower (trim_space model) in
      ((mapped_effort mappings value model ≡ (value, false))
        × ((m : EffortMapping) → In m mappings → m.from ≡ from → rule_rank m request ≡ 0))
      ⊎ ((m : EffortMapping) × In m mappings
          × Applies from request m
          × (mapped_effort mappings value model ≡ (m.to, true))
          × ((r : EffortMapping)
              → In r mappings
              → r.from ≡ from
              → NoStronger from request r (rule_rank m request) (byte_len (to_lower m.model))))
unfolding mapped_effort
mapped_effort-NoStronger mappings value model =
    let from = lookup_effort value in
    let request = to_lower (trim_space model) in
    let bound = choose_all-NoStronger from request mappings no_choice in
    elim (choose_all-origin from request mappings no_choice) [
      | inl e ↦ inl (ground arith, λ m i f. let b = bound m i f in ground arith)
      | inr (m, i, a, e) ↦ inr (m, i, a, ground arith, λ r j f. let b = bound r j f in ground arith)
    ]

-- The three ways in which a rule is for a model.
module _ (request : Text) where
  abbrev pub IsExact : EffortMapping → Type 0
  IsExact m = (m.match_type ≡ codes "exact") × (request ≡ to_lower m.model)

  abbrev pub IsAffix : EffortMapping → Type 0
  IsAffix m =
      (m.match_type ≡ codes "prefix") × (has_prefix request (to_lower m.model) ≡ true)
      ⊎ (m.match_type ≡ codes "suffix") × (has_suffix request (to_lower m.model) ≡ true)

  abbrev pub IsGeneral : EffortMapping → Type 0
  IsGeneral m = m.match_type ≡ []

  -- The second rule is for the model, and no rule of the first one's kind goes before it.
  abbrev pub Yields : EffortMapping → EffortMapping → Type 0
  Yields r m =
      let shorter = byte_len (to_lower r.model) ≤ byte_len (to_lower m.model) in
      (IsExact r → IsExact m × shorter)
      × (IsAffix r → IsExact m ⊎ IsAffix m × shorter)
      × (IsGeneral r → IsExact m ⊎ IsAffix m ⊎ IsGeneral m × shorter)

  IsExact-rank : (m : EffortMapping) → IsExact m → rule_rank m request ≡ 3
  unfolding rule_rank text_beq
  IsExact-rank m (kind, same) =
      rw kind (ground (arith, text_beq_iff request (to_lower m.model), same))

  IsAffix-rank : (m : EffortMapping) → IsAffix m → rule_rank m request ≡ 2
  unfolding rule_rank text_beq
  IsAffix-rank m (inl (kind, e)) = rw (kind, e) refl
  IsAffix-rank m (inr (kind, e)) = rw (kind, e) refl

  IsGeneral-rank : (m : EffortMapping) → IsGeneral m → rule_rank m request ≡ 1
  unfolding rule_rank text_beq
  IsGeneral-rank m kind = rw kind refl

  rank-kind :
      (m : EffortMapping)
      → (rule_rank m request ≡ 0)
        ⊎ (rule_rank m request ≡ 1) × IsGeneral m
        ⊎ (rule_rank m request ≡ 2) × IsAffix m
        ⊎ (rule_rank m request ≡ 3) × IsExact m
  unfolding rule_rank
  rank-kind m = ground (
    arith,
    text_beq_iff m.match_type [],
    text_beq_iff m.match_type (codes "exact"),
    text_beq_iff m.match_type (codes "prefix"),
    text_beq_iff m.match_type (codes "suffix"),
    text_beq_iff request (to_lower m.model),
  )

  NoStronger-Yields :
      (from : Text) (r m : EffortMapping)
      → NoStronger from request r (rule_rank m request) (byte_len (to_lower m.model))
      → Yields r m
  NoStronger-Yields from r m h = (
    λ e. let k = IsExact-rank r e in let c = rank-kind m in ground arith,
    λ e. let k = IsAffix-rank r e in let c = rank-kind m in ground arith,
    λ e. let k = IsGeneral-rank r e in let c = rank-kind m in ground arith,
  )

-- The rule is for the model in one of the ways.
abbrev pub IsFor : Text → EffortMapping → Type 0
IsFor request m = IsExact request m ⊎ IsAffix request m ⊎ IsGeneral request m

-- No rule for the effort is for the model, which leaves the effort, or the target of one is given to which
-- all others yield.
abbrev pub IsOutcome : List EffortMapping → Text → Text → Type 0
IsOutcome mappings value model =
    let from = lookup_effort value in
    let request = to_lower (trim_space model) in
    ((mapped_effort mappings value model ≡ (value, false))
      × ((m : EffortMapping) → In m mappings → m.from ≡ from → ¬ (IsFor request m)))
    ⊎ ((m : EffortMapping) × In m mappings
        × (m.from ≡ from)
        × IsFor request m
        × (mapped_effort mappings value model ≡ (m.to, true))
        × ((r : EffortMapping) → In r mappings → r.from ≡ from → Yields request r m))

-- `mappedEffort` gives the target of a rule for the effort that is for the model, such that no other rule
-- for the effort goes before it: exact before prefix and suffix before general, and among rules of one
-- kind the longer scope. If no rule for the effort is for the model, the effort stays as it is.
pub mapped_effort-IsOutcome :
    (mappings : List EffortMapping) (value model : Text) → IsOutcome mappings value model
mapped_effort-IsOutcome mappings value model =
    let from = lookup_effort value in
    let request = to_lower (trim_space model) in
    elim (mapped_effort-NoStronger mappings value model) [
      | inl (e, none_applies) ↦ inl (
        e,
        λ m i f h.
            let zero_rank = none_applies m i f in
            elim h [
              | inl x ↦ let k = IsExact-rank request m x in omega arith
              | inr (inl x) ↦ let k = IsAffix-rank request m x in omega arith
              | inr (inr x) ↦ let k = IsGeneral-rank request m x in omega arith
            ],
      )
      | inr (m, i, (same, applies), e, bound) ↦ inr (
        m,
        i,
        same,
        (let c = rank-kind request m in ground arith),
        e,
        λ r j f. NoStronger-Yields request from r m (bound r j f),
      )
    ]
