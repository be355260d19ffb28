-- ===== src/Models/Listed.antt =====
-- What a validated allowlist lets through.
use lite_api.Common.{
  ◌≡◌, refl, ◌==◌, text_eq, nat_eq, inl, inr, Text, text_beq_iff, Bool, true, not, ◌&&◌, ◌||◌, List,
  [], ◌∷◌, ◌++◌, any, contains, arith, Bool-cases,
}
use lite_api.Common.Strings.{trim_space, to_lower}
use lite_api.Common.Errors.{ok, Result-cases}
use lite_api.Models.{
  Allowlist, pattern_matches, keep_models, allowlist_of, validate_allowlist, allows,
}

any-insert :
    (f : Text → Bool) (xs : List Text) (x : Text) → any f (xs ++ x ∷ []) ≡ (any f xs || f x)
any-insert f [] x = ground arith
any-insert f (y ∷ xs) x = ground (arith, any-insert f xs x)

pattern_matches_lower :
    (p q model : Text) → to_lower p ≡ to_lower q → pattern_matches p model ≡ pattern_matches q model
unfolding pattern_matches
pattern_matches_lower p q model e = rw e refl

-- The test of the raw entries.
abbrev pub raw_match : Text → Text → Bool
raw_match model raw = not (trim_space raw == []) && pattern_matches (trim_space raw) model

module _ (model : Text) where
  abbrev matches : Text → Bool
  matches p = pattern_matches p model

  -- Every matching pattern whose key was seen has a matching one among those kept.
  abbrev IsKept : List Text → List Text → Type 0
  IsKept seen kept =
      (p : Text) → contains seen (to_lower p) ≡ true → matches p ≡ true → any matches kept ≡ true

  IsKept-insert :
      (seen kept : List Text) (m : Text)
      → IsKept seen kept
      → IsKept (to_lower m ∷ seen) (kept ++ m ∷ [])
  unfolding contains
  IsKept-insert seen kept m keeps p h match = ground (
    arith,
    any-insert matches kept m,
    text_beq_iff (to_lower m) (to_lower p),
    pattern_matches_lower m p model,
    keeps p,
  )

  keep_models-any :
      (ms seen kept out : List Text)
      → keep_models ms seen kept ≡ ok out
      → IsKept seen kept
      → any matches out ≡ (any matches kept || any (raw_match model) ms)
  unfolding keep_models
  keep_models-any [] seen kept out h keeps = ground (arith, Bool-cases (any matches kept))
  keep_models-any (m ∷ ms) seen kept out h keeps =
      elim (Bool-cases (trim_space m == [] || contains seen (to_lower (trim_space m)))) [
        | inl known ↦
            let rest : keep_models ms seen kept ≡ ok out = ground arith in
            ground (arith, keep_models-any ms seen kept out rest keeps, keeps (trim_space m))
        | inr new ↦
            let key = to_lower (trim_space m) in
            let rest : keep_models ms (key ∷ seen) (kept ++ trim_space m ∷ []) ≡ ok out =
              ground arith in
            ground (
              arith,
              keep_models-any ms (key ∷ seen) (kept ++ trim_space m ∷ []) out rest
                  (IsKept-insert seen kept (trim_space m) keeps),
              any-insert matches kept (trim_space m),
            )
      ]

none-IsKept : (model : Text) → IsKept model [] []
unfolding contains
none-IsKept model p h match = cc

-- A validated allowlist lets a model through exactly if the list is off or one of the raw entries, less
-- the space around it and not blank, matches the model: neither trimming nor the removal of entries
-- that differ in case only changes a decision.
pub allows-validate_allowlist :
    (raw list : Allowlist) (model : Text)
    → validate_allowlist raw ≡ ok list
    → allows list model ≡ (not raw.enabled || any (raw_match model) raw.models)
unfolding validate_allowlist allowlist_of allows
allows-validate_allowlist raw list model h = elim (Result-cases (keep_models raw.models [] [])) [
  | inr (e, failed) ↦ absurd (ground arith)
  | inl (kept, e) ↦
      let same = keep_models-any model raw.models [] [] kept e (none-IsKept model) in ground arith
]
