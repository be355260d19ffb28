-- ===== src/Reasoning/Request/Within.antt =====
-- The effort that a request names after the policy has been applied to it.
use mathlib.Core.Path.{subst}
use lite_api.Common.{
  ◌≤◌, ◌<◌, ◌==◌, nat_eq, string_eq, text_eq, ◌≡◌, refl, ◌⊎◌, inl, inr, Text, text_beq,
  text_beq_iff, String, List, [], ◌∷◌, Option, none, some, In, arith, Bool-cases,
}
use lite_api.Common.Strings.{trim_space, to_lower, last_field, fields_func}
use lite_api.Common.Errors.{ok, Result-cases}
use lite_api.Common.Json.{Json, null, bool, num, str, arr, obj, Fields, get, as_text, as_object}
use lite_api.Reasoning.{
  Policy, efforts, place, squeeze, known_effort, effort_rank, canonical_effort, effective_max,
  apply,
}
use lite_api.Reasoning.Canonical.{rank-In, canonical_effort-IsCanonical}
use lite_api.Reasoning.Limit.{IsInForce, apply-IsWithin}
use lite_api.Reasoning.Limit.Members.{IsWithin, FieldWithin, NestedWithin}
use lite_api.Reasoning.Request.{
  effort_value, nested_value, protocol_value, spelled_effort, request_effort, text_or_blank,
  known_or_none, suffix_effort, first_effort, requested_effort, is_part_separator,
}

-- A member that is read without an error holds no effort, or a text.
effort_value-eq-ok :
    (member : Option Json) (v : Text)
    → effort_value member ≡ ok v
    → (v ≡ []) ⊎ (as_text member ≡ some v)
unfolding effort_value as_text
effort_value-eq-ok none v h = ground arith
effort_value-eq-ok (some null) v h = ground arith
effort_value-eq-ok (some (str t)) v h = ground arith
effort_value-eq-ok (some (bool b)) v h = cc
effort_value-eq-ok (some (num t)) v h = cc
effort_value-eq-ok (some (arr items)) v h = cc
effort_value-eq-ok (some (obj fields)) v h = cc

-- A text that is an effort up to the space around it.
spelled : (v : Text) → In (trim_space v) efforts → canonical_effort v ≡ trim_space v
unfolding canonical_effort known_effort effort_rank place squeeze to_lower text_beq
spelled v (inl e) = rw e refl
spelled v (inr (inl e)) = rw e refl
spelled v (inr (inr (inl e))) = rw e refl
spelled v (inr (inr (inr (inl e)))) = rw e refl
spelled v (inr (inr (inr (inr (inl e))))) = rw e refl
spelled v (inr (inr (inr (inr (inr (inl e)))))) = rw e refl
spelled v (inr (inr (inr (inr (inr (inr e)))))) = elim e [ ]

rank_spelled : (v : Text) → 0 < effort_rank (trim_space v) → canonical_effort v ≡ trim_space v
rank_spelled v h = spelled v (rank-In (trim_space v) h)

spelled_effort-IsWithin :
    (max value : Text) → IsWithin max value → effort_rank (spelled_effort value) ≤ effort_rank max
unfolding spelled_effort
spelled_effort-IsWithin max value h =
    ground (arith, text_beq_iff (canonical_effort value) [], rank_spelled value)

nested_value-IsWithin :
    (max v : Text) (member : Option Json)
    → ((object : Fields) → as_object member ≡ some object → FieldWithin max "effort" object)
    → nested_value "effort" member ≡ ok v
    → (v ≡ []) ⊎ IsWithin max v
unfolding nested_value as_object
nested_value-IsWithin max v none within h = ground arith
nested_value-IsWithin max v (some null) within h = ground arith
nested_value-IsWithin max v (some (obj object)) within h =
    elim (effort_value-eq-ok (get "effort" object) v h) [
      | inl blank ↦ inl blank
      | inr found ↦ inr (within object refl v found)
    ]
nested_value-IsWithin max v (some (bool b)) within h = cc
nested_value-IsWithin max v (some (num t)) within h = cc
nested_value-IsWithin max v (some (str t)) within h = cc
nested_value-IsWithin max v (some (arr items)) within h = cc

blank-IsWithin : (max v : Text) → (v ≡ []) ⊎ IsWithin max v → IsWithin max v
unfolding canonical_effort known_effort effort_rank place squeeze trim_space to_lower text_beq
blank-IsWithin max v (inl e) = rw e (omega arith)
blank-IsWithin max v (inr h) = h

module _ (max : Text) (body : Fields) (reasoning : NestedWithin max "reasoning" "effort" body)
    (chat : FieldWithin max "reasoning_effort" body)
    (output : NestedWithin max "output_config" "effort" body) where
  chat-IsWithin : (v : Text) → effort_value (get "reasoning_effort" body) ≡ ok v → IsWithin max v
  chat-IsWithin v h = elim (effort_value-eq-ok (get "reasoning_effort" body) v h) [
    | inl blank ↦ blank-IsWithin max v (inl blank)
    | inr found ↦ chat v found
  ]

  protocol_value-IsWithin :
      (protocol : String) (v : Text) → protocol_value body protocol ≡ ok v → IsWithin max v
  unfolding protocol_value
  protocol_value-IsWithin protocol v h = elim (Bool-cases (protocol == "responses")) [
    | inl responses ↦
        blank-IsWithin max v
          (nested_value-IsWithin max v (get "reasoning" body) reasoning (ground arith))
    | inr other ↦ elim (Bool-cases (protocol == "anthropic")) [
      | inl anthropic ↦
          blank-IsWithin max v
            (nested_value-IsWithin max v (get "output_config" body) output (ground arith))
      | inr plain ↦ chat-IsWithin v (ground arith)
    ]
  ]

  request_effort-IsWithin :
      (protocol : String) (v : Text)
      → request_effort body protocol ≡ ok v
      → effort_rank v ≤ effort_rank max
  unfolding request_effort
  request_effort-IsWithin protocol v h = elim (Result-cases (protocol_value body protocol)) [
    | inr (e, failed) ↦ absurd (ground arith)
    | inl (value, found) ↦ elim (Result-cases (effort_value (get "reasoning_effort" body))) [
      | inr (e, failed) ↦
          ground (
            arith,
            spelled_effort-IsWithin max value (protocol_value-IsWithin protocol value found),
          )
      | inl (second, read) ↦ ground (
        arith,
        spelled_effort-IsWithin max value (protocol_value-IsWithin protocol value found),
        spelled_effort-IsWithin max second (chat-IsWithin second read),
      )
    ]
  ]

-- After a successful `apply` of a policy with a maximum, on OpenAI or Anthropic, whatever effort the
-- body is then found to request, by any protocol, does not rank above the maximum in force: the policy's
-- own, or `low` where a policy with the maximum `minimal` is applied on Anthropic.
pub apply-request_effort :
    (p : Policy) (body body' : Fields) (model : Text) (platform protocol : String) (v : Text)
    → (platform ≡ "openai") ⊎ (platform ≡ "anthropic")
    → 0 < effort_rank p.max_effort
    → apply p body model platform ≡ ok body'
    → request_effort body' protocol ≡ ok v
    → IsInForce p platform (effective_max p platform)
      × (effort_rank v ≤ effort_rank (effective_max p platform))
apply-request_effort p body body' model platform protocol v on limited applied requested =
    let (in_force, reasoning, chat, output) =
      apply-IsWithin p body body' model platform on limited applied in
    (
      in_force,
      request_effort-IsWithin (effective_max p platform) body' reasoning chat output protocol v
          requested,
    )

known_or_none-In : (value v : Text) → known_or_none value ≡ some v → In v efforts
unfolding known_or_none
known_or_none-In value v h = elim (canonical_effort-IsCanonical value) [
  | inl blank ↦ absurd (ground (arith, text_beq_iff (canonical_effort value) []))
  | inr known ↦
      let same : canonical_effort value ≡ v = ground arith in subst (λ e. In e efforts) same known
]

suffix_effort-In : (part : Option Text) (v : Text) → suffix_effort part ≡ some v → In v efforts
unfolding suffix_effort
suffix_effort-In none v h = cc
suffix_effort-In (some part) v h = known_or_none-In part v h

first_effort-In :
    (body : Fields) (protocols : List String) (model v : Text)
    → first_effort body protocols model ≡ some v
    → In v efforts
unfolding first_effort
first_effort-In body [] model v h =
    suffix_effort-In (last_field (fields_func is_part_separator model)) v h
first_effort-In body (protocol ∷ rest) model v h =
    elim (Bool-cases (text_or_blank (request_effort body protocol) == [])) [
      | inl blank ↦ first_effort-In body rest model v (ground arith)
      | inr named ↦ known_or_none-In (text_or_blank (request_effort body protocol)) v (ground arith)
    ]

-- The effort that is recorded for a request, from its body or from the name of its model, is one of the
-- six efforts in its canonical spelling.
requested_effort-In :
    (body : Fields) (model v : Text) → requested_effort body model ≡ some v → In v efforts
unfolding requested_effort
requested_effort-In body model v h =
    first_effort-In body ("responses" ∷ "chat_completions" ∷ "anthropic" ∷ []) model v h
