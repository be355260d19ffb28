-- ===== src/Models/Preferred.antt =====
-- The preferred accounts of a model do not depend on the order in which the map is read.
use mathlib.Core.Path.{subst}
use lite_api.Common.{
  ℕ, ◌+◌, ◌≤◌, ◌<◌, ltb, ◌==◌, nat_eq, nat_beq_iff, text_eq, text_beq_iff, string_eq, ◌≡◌, refl, ap,
  sym, ◌∙◌, ◌⊎◌, inl, inr, ◌↔◌, String, Text, Bool, true, ◌&&◌, List, [], ◌∷◌, ◌++◌, length, In,
  arith, Bool-cases,
}
use lite_api.Common.Strings.{rune_len, byte_len, has_prefix, trim_star, ends_in_star}
use lite_api.Models.{Routing, accounts_at, longer_pattern, best_pattern, routing_accounts}

-- An entry that applies to the model by its pattern.
unfoldable fits : Text → Text × List ℕ → Bool
fits model (pattern, ids) =
    ltb 0 (length ids) && ends_in_star pattern && has_prefix model (trim_star pattern)

star_split : (p : Text) → ends_in_star p ≡ true → p ≡ trim_star p ++ b'*' ∷ []
unfolding ends_in_star trim_star
star_split [] h = cc
star_split (c ∷ []) h = ground (arith, nat_beq_iff c b'*')
star_split (c ∷ d ∷ s) h = ap (λ t. c ∷ t) (star_split (d ∷ s) h)

rune_positive : (c : ℕ) → 0 < rune_len c
rune_positive c = ground arith

same_prefix :
    (s p q : Text) → has_prefix s p ≡ true → has_prefix s q ≡ true → byte_len p ≡ byte_len q → p ≡ q
unfolding has_prefix
same_prefix s [] [] a b e = refl
same_prefix s [] (d ∷ q) a b e = ground (arith, rune_positive d)
same_prefix s (c ∷ p) [] a b e = ground (arith, rune_positive c)
same_prefix [] (c ∷ p) (d ∷ q) a b e = cc
same_prefix (x ∷ s) (c ∷ p) (d ∷ q) a b e =
    ground (arith, nat_beq_iff x c, nat_beq_iff x d, same_prefix s p q)

byte_len_append : (s t : Text) → byte_len (s ++ t) ≡ byte_len s + byte_len t
byte_len_append [] t = ground arith
byte_len_append (c ∷ s) t = ground (arith, byte_len_append s t)

-- Two patterns of one length that apply to one model are the same.
fits_same :
    (model p q : Text) (ids jds : List ℕ)
    → fits model (p, ids) ≡ true
    → fits model (q, jds) ≡ true
    → byte_len p ≡ byte_len q
    → p ≡ q
unfolding fits
fits_same model p q ids jds a b e =
    let star_p : p ≡ trim_star p ++ b'*' ∷ [] = star_split p (ground arith) in
    let star_q : q ≡ trim_star q ++ b'*' ∷ [] = star_split q (ground arith) in
    let len_p = ap byte_len star_p ∙ byte_len_append (trim_star p) (b'*' ∷ []) in
    let len_q = ap byte_len star_q ∙ byte_len_append (trim_star q) (b'*' ∷ []) in
    let heads =
      same_prefix model (trim_star p) (trim_star q) (ground arith) (ground arith) (omega arith) in
    star_p ∙ ap (λ t. t ++ b'*' ∷ []) heads ∙ sym star_q

-- A pattern that applies is not empty.
fits_some : (model p : Text) (ids : List ℕ) → fits model (p, ids) ≡ true → 0 < byte_len p
unfolding fits ends_in_star
fits_some model [] ids h = ground arith
fits_some model (c ∷ p) ids h = ground (arith, rune_positive c)

longer_pattern-cases :
    (model p : Text) (ids : List ℕ) (best : Text)
    → ((longer_pattern model (p, ids) best ≡ best)
        × (fits model (p, ids) ≡ true → byte_len p ≤ byte_len best))
      ⊎ ((longer_pattern model (p, ids) best ≡ p)
          × (fits model (p, ids) ≡ true)
          × (byte_len best < byte_len p))
unfolding longer_pattern fits
longer_pattern-cases model p ids best = elim (Bool-cases (ltb (byte_len best) (byte_len p))) [
  | inl longer ↦ elim (Bool-cases (fits model (p, ids))) [
    | inl good ↦ inr (ground arith, good, ground arith)
    | inr bad ↦ inl (ground arith, λ h. ground arith)
  ]
  | inr short ↦ inl (ground arith, λ h. ground arith)
]

-- Where a run of the loop ends.
abbrev EndsAt : Text → Routing → Text → Text → Type 0
EndsAt model routing best end =
    (byte_len best ≤ byte_len end)
    × ((end ≡ best) ⊎ ((ids : List ℕ) × In (end, ids) routing × (fits model (end, ids) ≡ true)))
    × ((q : Text) (ids : List ℕ)
        → In (q, ids) routing
        → fits model (q, ids) ≡ true
        → byte_len q ≤ byte_len end)

best_pattern-EndsAt :
    (model : Text) (routing : Routing) (best : Text)
    → EndsAt model routing best (best_pattern model routing best)
unfolding best_pattern
best_pattern-EndsAt model [] best = (omega arith, inl refl, λ q ids i h. elim i [ ])
best_pattern-EndsAt model ((p, ids) ∷ rest) best =
    let (grows, from, top) = best_pattern-EndsAt model rest (longer_pattern model (p, ids) best) in
    elim (longer_pattern-cases model p ids best) [
      | inl (same, bound) ↦
          let kept = ap byte_len same in
          (
            omega arith,
            elim from [ inl e ↦ inl (e ∙ same) | inr (js, i, good) ↦ inr (js, inr i, good) ],
            λ q js i h. elim i [
              | inl e ↦
                  let entry : fits model (p, ids) ≡ true = subst (λ x. fits model x ≡ true) e h in
                  let l = bound entry in let key = ap (λ x. byte_len x.0) e in omega arith
              | inr below ↦ top q js below h
            ],
          )
      | inr (new, good, l) ↦
          let kept = ap byte_len new in
          (
            omega arith,
            elim from [
              | inl e ↦
                  let end = e ∙ new in
                  inr (
                    ids,
                    inl (ap (λ t. (t, ids)) end),
                    subst (λ t. fits model (t, ids) ≡ true) (sym end) good,
                  )
              | inr (js, i, fine) ↦ inr (js, inr i, fine)
            ],
            λ q js i h. elim i [
              | inl e ↦ let key = ap (λ x. byte_len x.0) e in omega arith
              | inr below ↦ top q js below h
            ],
          )
    ]

-- Every two maps with the same entries, in whatever order, have the same longest pattern.
best_pattern_order :
    (model : Text) (a b : Routing)
    → ((e : Text × List ℕ) → In e a ↔ In e b)
    → best_pattern model a [] ≡ best_pattern model b []
best_pattern_order model a b same =
    let (grows, from, top) = best_pattern-EndsAt model a [] in
    let (grows', from', top') = best_pattern-EndsAt model b [] in
    elim from [
      | inl e ↦ elim from' [
        | inl e' ↦ e ∙ sym e'
        | inr (js, i, good) ↦
            let l =
              top (best_pattern model b []) js ((same (best_pattern model b [], js)).1 i) good in
            let pos = fits_some model (best_pattern model b []) js good in
            let none = ap byte_len e in absurd (omega arith)
      ]
      | inr (ids, i, good) ↦ elim from' [
        | inl e' ↦
            let l =
              top' (best_pattern model a []) ids ((same (best_pattern model a [], ids)).0 i) good in
            let pos = fits_some model (best_pattern model a []) ids good in
            let none = ap byte_len e' in absurd (omega arith)
        | inr (js, i', good') ↦
            let l =
              top (best_pattern model b []) js ((same (best_pattern model b [], js)).1 i') good' in
            let l' =
              top' (best_pattern model a []) ids ((same (best_pattern model a [], ids)).0 i) good in
            fits_same model (best_pattern model a []) (best_pattern model b []) ids js good good'
              (omega arith)
      ]
    ]

-- The entries of a map: one for each key.
abbrev pub IsMap : Routing → Type 0
IsMap routing =
    (k : Text) (ids jds : List ℕ) → In (k, ids) routing → In (k, jds) routing → ids ≡ jds

accounts_at-cases :
    (key : Text) (routing : Routing)
    → In (key, accounts_at key routing) routing
      ⊎ ((accounts_at key routing ≡ []) × ((ids : List ℕ) → In (key, ids) routing → ⊥))
unfolding accounts_at
accounts_at-cases key [] = inr (refl, λ ids i. elim i [ ])
accounts_at-cases key ((k, ids) ∷ rest) = elim (Bool-cases (k == key)) [
  | inl e ↦ rw (e, accounts_at) (inl (inl (ap (λ t. (t, ids)) (sym ((text_beq_iff k key).0 e)))))
  | inr e ↦
      let skip : accounts_at key ((k, ids) ∷ rest) ≡ accounts_at key rest = rw e refl in
      elim (accounts_at-cases key rest) [
        | inl i ↦ inl (inr (subst (λ v. In (key, v) rest) (sym skip) i))
        | inr (nothing, missing) ↦ inr (
          skip ∙ nothing,
          λ js i. elim i [
            | inl here ↦
                let same = ap (λ x. x.0) here in absurd (ground (arith, text_beq_iff k key))
            | inr below ↦ missing js below
          ],
        )
      ]
]

accounts_at_order :
    (key : Text) (a b : Routing)
    → IsMap b
    → ((e : Text × List ℕ) → In e a ↔ In e b)
    → accounts_at key a ≡ accounts_at key b
accounts_at_order key a b unique same = elim (accounts_at-cases key a) [
  | inl i ↦ elim (accounts_at-cases key b) [
    | inl j ↦
        unique key (accounts_at key a) (accounts_at key b) ((same (key, accounts_at key a)).0 i) j
    | inr (nothing, missing) ↦
        absurd (missing (accounts_at key a) ((same (key, accounts_at key a)).0 i))
  ]
  | inr (nothing, missing) ↦ elim (accounts_at-cases key b) [
    | inl j ↦ absurd (missing (accounts_at key b) ((same (key, accounts_at key b)).1 j))
    | inr (nothing', missing') ↦ nothing ∙ sym nothing'
  ]
]

-- The preferred accounts of a model depend on the entries of the map only, not on the order in which
-- the map is read. The condition is that no key has two entries, as in every map.
pub routing_accounts_order :
    (routing_enabled : Bool) (a b : Routing) (model : Text) (platform : String)
    → IsMap b
    → ((e : Text × List ℕ) → In e a ↔ In e b)
    → routing_accounts routing_enabled a model platform
      ≡ routing_accounts routing_enabled b model platform
unfolding routing_accounts
routing_accounts_order routing_enabled a b model platform unique same =
    let exact = accounts_at_order model a b unique same in
    let best = best_pattern_order model a b same in
    let ids = accounts_at_order (best_pattern model a []) a b unique same in
    let whole : accounts_at (best_pattern model a []) a ≡ accounts_at (best_pattern model b []) b =
      ids ∙ ap (λ p. accounts_at p b) best in
    rw (exact, whole) refl
