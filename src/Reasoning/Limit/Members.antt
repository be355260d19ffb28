-- ===== src/Reasoning/Limit/Members.antt =====
-- The fields of a request after a limit, one at a time.
use lite_api.Common.{
  ◌≤◌, ◌<◌, ◌≡◌, refl, ◌⊎◌, inl, inr, ◌≢◌, ◌==◌, nat_eq, text_eq, text_beq, text_beq_iff, string_eq,
  eq_iff, Text, codes, String, Bool, Bool-cases, Option-cases, ◌&&◌, [], some, arith,
}
use lite_api.Common.Strings.{trim_space}
use lite_api.Common.Errors.{ok, >>=-eq-ok}
use lite_api.Common.Json.{str, obj, Fields, get, put, get-put, as_text, as_object}
use lite_api.Reasoning.{
  Policy, place, effort_rank, canonical_effort, mapped_effort, effective_max, adapt_effort,
  cap_effort, decide_effort, write_effort, apply_field, apply_nested,
}
use lite_api.Reasoning.Canonical.{
  IsCanonical, rank-In, fixed, canonical_effort-IsCanonical, canonical_effort_blank,
}

pub rank_blank : effort_rank [] ≡ 0
unfolding effort_rank place text_beq
rank_blank = refl

low-IsCanonical : IsCanonical (codes "low")
low-IsCanonical = inr (inr (inl refl))

-- The text is no effort above the maximum.
abbrev pub IsWithin : Text → Text → Type 0
IsWithin max v = effort_rank (canonical_effort v) ≤ effort_rank max

le-IsWithin : (max v : Text) → IsCanonical v → effort_rank v ≤ effort_rank max → IsWithin max v
le-IsWithin max v c h = rw (fixed v c) h

adapt_effort-IsCanonical :
    (mapped : Bool) (platform : String) (v : Text)
    → IsCanonical v
    → IsCanonical (adapt_effort mapped platform v)
unfolding adapt_effort
adapt_effort-IsCanonical mapped platform v c =
    elim (Bool-cases (mapped && platform == "anthropic" && v == codes "minimal")) [
      | inl e ↦ rw e low-IsCanonical
      | inr e ↦ rw e c
    ]

cap_effort-IsWithin :
    (over max effort e : Text)
    → 0 < effort_rank max
    → IsCanonical effort
    → cap_effort over max effort ≡ ok e
    → IsWithin max e
unfolding cap_effort
cap_effort-IsWithin over max effort e h c eq =
    ground (arith, fixed effort c, fixed max (inr (rank-In max h)))

decide_effort-IsWithin :
    (p : Policy) (platform : String) (max : Text) (mapping : Text × Bool) (e : Text)
    → 0 < effort_rank max
    → decide_effort p platform max mapping ≡ ok e
    → IsWithin max e
unfolding decide_effort
decide_effort-IsWithin p platform max (effective, mapped) e h eq =
    let canonical = canonical_effort effective in
    let capped = adapt_effort mapped platform canonical in
    ground (
      arith,
      text_beq_iff canonical [],
      rank_blank,
      cap_effort-IsWithin p.over_limit max capped e h (
          adapt_effort-IsCanonical mapped platform canonical
            (canonical_effort-IsCanonical effective)),
    )

-- What the member holds, if it is a text, is within the maximum.
abbrev pub FieldWithin : Text → String → Fields → Type 0
FieldWithin max name fs = (v : Text) → as_text (get name fs) ≡ some v → IsWithin max v

-- What the member of the member holds.
abbrev pub NestedWithin : Text → String → String → Fields → Type 0
NestedWithin max outer name fs =
    (object : Fields) → as_object (get outer fs) ≡ some object → FieldWithin max name object

as_text-write_effort :
    (value effective : Text) (name : String) (fs : Fields)
    → as_text (get name fs) ≡ some value
    → as_text (get name (write_effort value effective name fs)) ≡ some effective
unfolding write_effort as_text
as_text-write_effort value effective name fs found =
    ground
      (arith, text_beq_iff effective value, eq_iff name name, get-put name name (str effective) fs)

module _ (p : Policy) (model : Text) (platform : String) where
  -- A successful write: nothing to do, or the effort that the policy decides.
  apply_field-eq-ok :
      (name : String) (fs fs' : Fields) (value : Text)
      → as_text (get name fs) ≡ some value
      → apply_field p model platform name fs ≡ ok fs'
      → ((trim_space value ≡ []) × (fs' ≡ fs))
        ⊎ ((e : Text) × (decide_effort p platform
                (effective_max p platform)
                (mapped_effort p.mappings (trim_space value) model)
              ≡ ok e)
            × (fs' ≡ write_effort value e name fs))
  unfolding apply_field
  apply_field-eq-ok name fs fs' value found eq = elim (Bool-cases (trim_space value == [])) [
    | inl blank ↦ inl ((text_beq_iff _ _).0 blank, ground arith)
    | inr filled ↦
        let (e, decided, written) =
          >>=-eq-ok _ (λ e. ok (write_effort value e name fs))
            (rw (found, filled, apply_field) at eq) in
        inr (e, decided, ground arith)
  ]

  -- No other member of the object changes.
  pub apply_field-get :
      (name k : String) (fs fs' : Fields)
      → name ≢ k
      → apply_field p model platform name fs ≡ ok fs'
      → get k fs' ≡ get k fs
  unfolding apply_field
  apply_field-get name k fs fs' other eq = elim (Option-cases (as_text (get name fs))) [
    | inl missing ↦ ground arith
    | inr (value, found) ↦ elim (apply_field-eq-ok name fs fs' value found eq) [
      | inl (blank, same) ↦ rw same
      | inr (e, decided, written) ↦ rw written (write_effort-get value e)
    ]
  ]
    where
      write_effort-get : (value e : Text) → get k (write_effort value e name fs) ≡ get k fs
      write_effort-get value e =
          unfold write_effort in ground (arith, get-put name k (str e) fs, eq_iff name k)

  apply_nested-eq-ok :
      (outer name : String) (fs fs' object : Fields)
      → as_object (get outer fs) ≡ some object
      → apply_nested p model platform outer name fs ≡ ok fs'
      → (changed : Fields) × (apply_field p model platform name object ≡ ok changed)
        × (fs' ≡ put outer (obj changed) fs)
  unfolding apply_nested
  apply_nested-eq-ok outer name fs fs' object found eq =
      let (changed, done, written) =
        >>=-eq-ok _ (λ changed. ok (put outer (obj changed) fs)) (rw (found, apply_nested) at eq) in
      (changed, done, ground arith)

  pub apply_nested-get :
      (outer name k : String) (fs fs' : Fields)
      → outer ≢ k
      → apply_nested p model platform outer name fs ≡ ok fs'
      → get k fs' ≡ get k fs
  unfolding apply_nested
  apply_nested-get outer name k fs fs' other eq = elim (Option-cases (as_object (get outer fs))) [
    | inl missing ↦ ground arith
    | inr (object, found) ↦
        let (changed, _, written) = apply_nested-eq-ok outer name fs fs' object found eq in
        ground (arith, get-put outer k (obj changed) fs, eq_iff outer k)
  ]

  module _ (h : 0 < effort_rank (effective_max p platform)) where
    pub apply_field-FieldWithin :
        (name : String) (fs fs' : Fields)
        → apply_field p model platform name fs ≡ ok fs'
        → FieldWithin (effective_max p platform) name fs'
    unfolding apply_field
    apply_field-FieldWithin name fs fs' eq v at = elim (Option-cases (as_text (get name fs))) [
      | inl missing ↦ ground arith
      | inr (value, found) ↦ elim (apply_field-eq-ok name fs fs' value found eq) [
        | inl (blank, same) ↦ ground (arith, rank_blank, canonical_effort_blank value)
        | inr (e, decided, written) ↦ ground (
          arith,
          as_text-write_effort value e name fs found,
          decide_effort-IsWithin p platform (effective_max p platform)
              (mapped_effort p.mappings (trim_space value) model) e h decided,
        )
      ]
    ]

    pub apply_nested-NestedWithin :
        (outer name : String) (fs fs' : Fields)
        → apply_nested p model platform outer name fs ≡ ok fs'
        → NestedWithin (effective_max p platform) outer name fs'
    unfolding apply_nested as_object
    apply_nested-NestedWithin outer name fs fs' eq object at =
        elim (Option-cases (as_object (get outer fs))) [
          | inl missing ↦ absurd (ground arith)
          | inr (before, found) ↦
              let (changed, done, written) = apply_nested-eq-ok outer name fs fs' before found eq in
              let same : changed ≡ object =
                ground (arith, get-put outer outer (obj changed) fs, eq_iff outer outer) in
              apply_field-FieldWithin name before object (rw same at done)
        ]
