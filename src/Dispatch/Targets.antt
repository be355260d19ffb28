-- ===== src/Dispatch/Targets.antt =====
-- The loop of `normalize` over the exact mappings, and the parts of an accepted configuration.
use mathlib.Core.Path.{subst}
use lite_api.Common.{
  ◌≡◌, ◌≢◌, ap, ◌==◌, text_eq, nat_eq, inl, inr, ◌⊎◌, Text, text_beq_iff, true, false, List, [],
  ◌∷◌, some, In, arith, Bool-cases,
}
use lite_api.Common.Strings.{trim_space}
use lite_api.Common.Errors.{ok, Result-cases}
use lite_api.Dispatch.{
  DispatchConfig, normalize_dispatch_model, is_target_name, checked_target, exact_target, conflicts,
  checked_exact, normalize_config,
}

-- One turn of the loop over the entries: an entry that is left out, or one that is taken.
abbrev Turns : Text → Text → List (Text × Text) → List (Text × Text) → List (Text × Text) → Type 0
Turns from to rest exact out =
    (((from ≡ []) ⊎ (to ≡ [])) × (checked_exact rest exact ≡ ok out))
    ⊎ ((from ≢ [])
        × (to ≢ [])
        × (is_target_name to ≡ true)
        × (conflicts (exact_target from exact) to ≡ false)
        × (checked_exact rest ((from, to) ∷ exact) ≡ ok out))

checked_exact-Turns :
    (raw_from raw_to : Text) (rest exact out : List (Text × Text))
    → checked_exact ((raw_from, raw_to) ∷ rest) exact ≡ ok out
    → Turns (trim_space raw_from) (normalize_dispatch_model raw_to) rest exact out
unfolding checked_exact
checked_exact-Turns raw_from raw_to rest exact out h = ground (
  arith,
  text_beq_iff (trim_space raw_from) [],
  text_beq_iff (normalize_dispatch_model raw_to) [],
  Bool-cases (is_target_name (trim_space raw_from)),
  Bool-cases (is_target_name (normalize_dispatch_model raw_to)),
)

conflicts-same : (previous to : Text) → conflicts (some previous) to ≡ false → to ≡ previous
unfolding conflicts
conflicts-same previous to h = ground (arith, text_beq_iff previous to)

exact_target-insert :
    (from to key t : Text) (exact : List (Text × Text))
    → conflicts (exact_target from exact) to ≡ false
    → exact_target key exact ≡ some t
    → exact_target key ((from, to) ∷ exact) ≡ some t
unfolding exact_target
exact_target-insert from to key t exact c e = elim (Bool-cases (from == key)) [
  | inl same ↦
      let k : from ≡ key = (text_beq_iff from key).0 same in
      let old : exact_target from exact ≡ some t = rw k e in
      let to_same = conflicts-same t to (subst (λ o. conflicts o to ≡ false) old c) in ground arith
  | inr other ↦ ground arith
]

-- The targets of the entries are names of models.
abbrev pub AreTargets : List (Text × Text) → Type 0
AreTargets exact =
    (key to : Text) → exact_target key exact ≡ some to → (to ≢ []) × (is_target_name to ≡ true)

AreTargets-insert :
    (from to : Text) (exact : List (Text × Text))
    → to ≢ []
    → is_target_name to ≡ true
    → AreTargets exact
    → AreTargets ((from, to) ∷ exact)
unfolding exact_target
AreTargets-insert from to exact some_to name good key t found = elim (Bool-cases (from == key)) [
  | inl same ↦
      let whole : to ≡ t = ground arith in
      subst (λ v. (v ≢ []) × (is_target_name v ≡ true)) whole (some_to, name)
  | inr other ↦ good key t (ground arith)
]

pub checked_exact-AreTargets :
    (raw exact out : List (Text × Text))
    → checked_exact raw exact ≡ ok out
    → AreTargets exact
    → AreTargets out
unfolding checked_exact
checked_exact-AreTargets [] exact out h good =
    let same : exact ≡ out = ground arith in subst AreTargets same good
checked_exact-AreTargets ((raw_from, raw_to) ∷ rest) exact out h good =
    elim (checked_exact-Turns raw_from raw_to rest exact out h) [
      | inl (blank, e) ↦ checked_exact-AreTargets rest exact out e good
      | inr (from, to, name, free, e) ↦
          checked_exact-AreTargets rest
            ((trim_space raw_from, normalize_dispatch_model raw_to) ∷ exact) out e
            (AreTargets-insert (trim_space raw_from) (normalize_dispatch_model raw_to) exact to name
              good)
    ]

-- Once an entry is accepted it stays.
checked_exact-exact_target :
    (raw exact out : List (Text × Text)) (key to : Text)
    → checked_exact raw exact ≡ ok out
    → exact_target key exact ≡ some to
    → exact_target key out ≡ some to
unfolding checked_exact
checked_exact-exact_target [] exact out key to h e = ground arith
checked_exact-exact_target ((raw_from, raw_to) ∷ rest) exact out key to h e =
    elim (checked_exact-Turns raw_from raw_to rest exact out h) [
      | inl (blank, rest_ok) ↦ checked_exact-exact_target rest exact out key to rest_ok e
      | inr (f, t, name, free, rest_ok) ↦
          checked_exact-exact_target rest
            ((trim_space raw_from, normalize_dispatch_model raw_to) ∷ exact) out key to rest_ok
            (exact_target-insert (trim_space raw_from) (normalize_dispatch_model raw_to) key to
              exact free e)
    ]

exact_target-head :
    (key to : Text) (exact : List (Text × Text)) → exact_target key ((key, to) ∷ exact) ≡ some to
unfolding exact_target
exact_target-head key to exact = ground (arith, text_beq_iff key key)

-- Every entry that is not blank is honoured.
pub checked_exact-In :
    (raw exact out : List (Text × Text)) (from to : Text)
    → checked_exact raw exact ≡ ok out
    → In (from, to) raw
    → trim_space from ≢ []
    → normalize_dispatch_model to ≢ []
    → exact_target (trim_space from) out ≡ some (normalize_dispatch_model to)
checked_exact-In [] exact out from to h i f t = elim i [ ]
checked_exact-In ((raw_from, raw_to) ∷ rest) exact out from to h i f t =
    elim (checked_exact-Turns raw_from raw_to rest exact out h) [
      | inl (blank, e) ↦ elim i [
        | inl here ↦
            let key = ap (λ e. trim_space e.0) here in
            let target = ap (λ e. normalize_dispatch_model e.1) here in absurd (ground arith)
        | inr below ↦ checked_exact-In rest exact out from to e below f t
      ]
      | inr (f', t', name, free, e) ↦ elim i [
        | inl here ↦
            let key = ap (λ e. trim_space e.0) here in
            let target = ap (λ e. normalize_dispatch_model e.1) here in
            let whole = (trim_space raw_from, normalize_dispatch_model raw_to) ∷ exact in
            let kept =
              checked_exact-exact_target rest whole out (trim_space raw_from)
                (normalize_dispatch_model raw_to) e
                (exact_target-head (trim_space raw_from) (normalize_dispatch_model raw_to) exact) in
            cc
        | inr below ↦
            checked_exact-In rest ((trim_space raw_from, normalize_dispatch_model raw_to) ∷ exact)
              out from to e below f t
      ]
    ]

pub normalize_config-Parts :
    (raw c : DispatchConfig)
    → normalize_config raw ≡ ok c
    → (checked_target raw.opus ≡ ok c.opus)
      × (checked_target raw.sonnet ≡ ok c.sonnet)
      × (checked_target raw.haiku ≡ ok c.haiku)
      × (checked_exact raw.exact [] ≡ ok c.exact)
unfolding normalize_config
normalize_config-Parts raw c h = elim (Result-cases (checked_target raw.opus)) [
  | inr (e, failed) ↦ ground arith
  | inl (opus, opus_ok) ↦ elim (Result-cases (checked_target raw.sonnet)) [
    | inr (e, failed) ↦ ground arith
    | inl (sonnet, sonnet_ok) ↦ elim (Result-cases (checked_target raw.haiku)) [
      | inr (e, failed) ↦ ground arith
      | inl (haiku, haiku_ok) ↦ elim (Result-cases (checked_exact raw.exact [])) [
        | inr (e, failed) ↦ ground arith
        | inl (exact, exact_ok) ↦ ground arith
      ]
    ]
  ]
]
