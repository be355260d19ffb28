-- ===== src/ErrorRules/Reasons.antt =====
-- Why a rule that was accepted applies to an error.
use mathlib.Core.Path.{subst}
use lite_api.Common.Int.{pos, negsuc, ltz}
use lite_api.Common.{
  ℕ, ◌+◌, ◌≤◌, ◌≢◌, text_beq_iff, ltb, ◌==◌, nat_eq, string_eq, text_eq, Text, Bool, true, false,
  not, ◌&&◌, ◌||◌, List, [], ◌∷◌, In, length, any, contains, contains-In, ◌≡◌, refl, ◌⊎◌, inl, inr,
  arith, Bool-cases,
}
use lite_api.Common.Strings.{trim_space, has_rune, has_substring, to_lower}
use lite_api.Settlement.Tables.{cut_bytes}
use lite_api.Common.Errors.{ok, >>=-eq-ok, fail_if-eq-ok}
use lite_api.ErrorRules.{
  ErrorRule, is_error_code, bad_word, checked_platforms, validate_error_rule, searched_text,
  has_keyword, fits_mode, matches, bad_response, bad_message, bad_description,
}

any-In :
    {A : Type 0} (p : A → Bool) (xs : List A) → any p xs ≡ true → (a : A) × In a xs × (p a ≡ true)
any-In p [] h = absurd cc
any-In p (x ∷ xs) h = elim (Bool-cases (p x)) [
  | inl f ↦ (x, inl refl, f)
  | inr f ↦ let (a, m, g) = any-In p xs (rw f at h) in (a, inr m, g)
]

none-In :
    {A : Type 0} (p : A → Bool) (xs : List A) (a : A) → any p xs ≡ false → In a xs → p a ≡ false
none-In p [] a h m = elim m [ ]
none-In p (x ∷ xs) a h m = elim (Bool-cases (p x)) [
  | inl f ↦ absurd (ground (arith, f))
  | inr f ↦ elim m [ inl same ↦ rw (same) f | inr later ↦ none-In p xs a (rw f at h) later ]
]

-- The error has a code of the rule, which is one of an HTTP error.
abbrev pub HasCode : ErrorRule → ℕ → Type 0
HasCode r status = In status r.error_codes × (400 ≤ status) × (status ≤ 599)

-- The searched part of the body has a word of the rule, which is more than space.
abbrev pub HasWord : ErrorRule → Text → Type 0
HasWord r body =
    (word : Text) × In word r.keywords
    × (trim_space word ≢ [])
    × (has_substring (to_lower (cut_bytes 8192 body)) (to_lower word) ≡ true)

-- In the mode `any` one of the two is there; in the mode `all` each that the rule asks for, and one.
abbrev pub Asks : ErrorRule → Type 0 → Type 0 → Type 0
Asks r code word =
    (code ⊎ word)
    × ((r.mode ≡ "any")
        ⊎ (r.mode ≡ "all") × ((r.error_codes ≡ []) ⊎ code) × ((r.keywords ≡ []) ⊎ word))

-- The rule has its reason to apply to the error.
abbrev pub HasReason : ErrorRule → ℕ → Text → Type 0
HasReason r status body = Asks r (HasCode r status) (HasWord r body)

length_nil : {A : Type 0} (xs : List A) → length xs ≡ 0 → xs ≡ []
length_nil [] e = refl
length_nil (x ∷ xs) e = absurd (omega (arith, e))

-- The tests of the parts hold of an accepted rule.
record AreTested (r : ErrorRule) : Type 0 where
  codes_ok : any (λ status. not (is_error_code status)) r.error_codes ≡ false
  words_ok : any bad_word r.keywords ≡ false
  mode_ok : (not (r.mode == "any") && not (r.mode == "all")) ≡ false

validate_error_rule-AreTested : (raw r : ErrorRule) → validate_error_rule raw ≡ ok r → AreTested r
unfolding validate_error_rule
validate_error_rule-AreTested raw r h =
    let (first, h1) =
      fail_if-eq-ok
        (trim_space raw.name == []
          || has_rune raw.name 0
          || ltb 100 (length raw.name)
          || ltz raw.priority (negsuc 2147483647)
          || ltz (pos 2147483647) raw.priority
          || not (raw.mode == "any") && not (raw.mode == "all"))
        _ _ h in
    let (_, h2) =
      fail_if-eq-ok
        (length raw.error_codes + length raw.keywords == 0
          || ltb 200 (length raw.error_codes)
          || ltb 100 (length raw.keywords)
          || ltb 8 (length raw.platforms))
        _ _ h1 in
    let (codes_ok, h3) =
      fail_if-eq-ok (any (λ status. not (is_error_code status)) raw.error_codes) _ _ h2 in
    let (words_ok, h4) = fail_if-eq-ok (any bad_word raw.keywords) _ _ h3 in
    let (platforms, _, h5) = >>=-eq-ok (checked_platforms raw.platforms) _ h4 in
    let (_, h6) = fail_if-eq-ok (bad_response raw.passthrough_code raw.response_code) _ _ h5 in
    let (_, h7) = fail_if-eq-ok (bad_message raw.passthrough_body raw.message) _ _ h6 in
    let (_, h8) = fail_if-eq-ok (bad_description raw.description) _ _ h7 in
    let same : record raw { platforms = platforms } ≡ r = ground arith in
    subst AreTested same
      (record { codes_ok = codes_ok; words_ok = words_ok; mode_ok = ground (arith, first) })

fits_mode-Asks :
    (r : ErrorRule) (code keyword : Bool)
    → (not (r.mode == "any") && not (r.mode == "all")) ≡ false
    → fits_mode r code keyword ≡ true
    → Asks r (code ≡ true) (keyword ≡ true)
unfolding fits_mode
fits_mode-Asks r code keyword known h =
    let all_mode = string_eq.beq_iff r.mode "all" in
    let any_mode = string_eq.beq_iff r.mode "any" in
    elim (Bool-cases (r.mode == "all")) [
      | inr other ↦ (ground (arith, other), inl (any_mode.0 (ground (arith, other))))
      | inl all ↦ (
        ground (arith, all),
        inr (
          all_mode.0 all,
          ground (arith, all, length_nil r.error_codes),
          ground (arith, all, length_nil r.keywords),
        ),
      )
    ]

Asks-map : (r : ErrorRule) {a b c d : Type 0} → (a → c) → (b → d) → Asks r a b → Asks r c d
Asks-map r f g h = ground arith

module _ (r : ErrorRule) (tested : AreTested r) (status : ℕ) (body : Text) where
  contains-HasCode : contains r.error_codes status ≡ true → HasCode r status
  unfolding is_error_code
  contains-HasCode e =
      let m = contains-In r.error_codes status e in
      let good = none-In (λ s. not (is_error_code s)) r.error_codes status tested.codes_ok m in
      (m, ground (arith, good), ground (arith, good))

  has_keyword-HasWord : has_keyword r.keywords (searched_text body) ≡ true → HasWord r body
  unfolding has_keyword searched_text bad_word
  has_keyword-HasWord e =
      let (word, m, f) =
        any-In (λ w. has_substring (searched_text body) (to_lower w)) r.keywords e in
      let good = none-In bad_word r.keywords word tested.words_ok m in
      (word, m, (λ blank. ground (arith, good, text_beq_iff (trim_space word) [])), f)

-- An accepted rule applies to an error for a reason of its own. The status is one of its codes, which is
-- from 400 to 599, or the searched part of the body, in lower case, has one of its words, which is not
-- blank; in the mode `all` both hold where the rule has codes and words. Besides, the rule is enabled, and
-- it is for all platforms or lists this one.
pub validate_error_rule-HasReason :
    (raw r : ErrorRule) (platform body : Text) (status : ℕ)
    → validate_error_rule raw ≡ ok r
    → matches r platform status body ≡ true
    → HasReason r status body
      × (r.is_enabled ≡ true)
      × ((r.platforms ≡ []) ⊎ In (to_lower platform) r.platforms)
unfolding matches
validate_error_rule-HasReason raw r platform body status accepted h =
    let tested = validate_error_rule-AreTested raw r accepted in
    let fits =
      fits_mode-Asks r (contains r.error_codes status) (has_keyword r.keywords (searched_text body))
        tested.mode_ok (ground arith) in
    let listed = contains-In r.platforms (to_lower platform) in
    (
      Asks-map r (contains-HasCode r tested status body) (has_keyword-HasWord r tested status body)
          fits,
      ground arith,
      ground (arith, length_nil r.platforms, listed),
    )
