-- ===== src/Composite/Targets/Listed.antt =====
-- Each endpoint that is offered stands in the list.
use lite_api.Common.{
  ◌==◌, string_eq, ◌≡◌, ◌≢◌, String, Bool, true, false, ◌&&◌, ◌||◌, List, [], ◌∷◌, ◌++◌, In,
  In-append_left, In-append_right, eq_iff, ◌⊎◌, inl, inr, Bool-cases, arith,
}
use lite_api.Selection.Matching.{
  chat_responses_platform, messages_chat_platform, chat_anthropic_platform,
}
use lite_api.Composite.Targets.Endpoints.{
  when, plain_endpoints, anthropic_endpoints, catalog_endpoints,
}
use lite_api.Composite.Targets.Offered.{IsOffered}

In-when :
    (t : Bool) (names : List String) (e : String) → (t ≡ true) × In e names → In e (when t names)
In-when true names e (_, m) = m
In-when false names e (absent, _) = absurd cc

module _ (platform protocol e : String) where
  two : (e ≡ "messages") ⊎ (e ≡ "count_tokens") → In e ("messages" ∷ "count_tokens" ∷ [])
  two (inl m) = inl m
  two (inr m) = inr (inl m)

  -- The places of the list, each with its test.
  at_gemini :
      protocol ≡ "gemini"
      → In e ("chat_completions" ∷ "messages" ∷ "count_tokens" ∷ [])
      → In e (plain_endpoints platform protocol)
  unfolding plain_endpoints
  at_gemini g m = inr (
      In-append_left (when (protocol == "gemini") _) _ e
        (In-when (protocol == "gemini") _ e ((string_eq.beq_iff protocol "gemini").1 g, m)))

  at_chat :
      protocol ≡ "responses"
      → chat_responses_platform platform ≡ true
      → e ≡ "chat_completions"
      → In e (plain_endpoints platform protocol)
  unfolding plain_endpoints
  at_chat r speaks m =
      let test = protocol == "responses" && chat_responses_platform platform in
      let on : test ≡ true = ground (arith, string_eq.beq_iff protocol "responses") in
      inr (
        In-append_right (when (protocol == "gemini") _) _ e
          (In-append_left (when test _) _ e (In-when test _ e (on, inl m))))

  at_responses :
      protocol ≡ "chat_completions"
      → chat_responses_platform platform ≡ true
      → e ≡ "responses"
      → In e (plain_endpoints platform protocol)
  unfolding plain_endpoints
  at_responses c speaks m =
      let before = protocol == "responses" && chat_responses_platform platform in
      let test = protocol == "chat_completions" && chat_responses_platform platform in
      let on : test ≡ true = ground (arith, string_eq.beq_iff protocol "chat_completions") in
      inr (
        In-append_right (when (protocol == "gemini") _) _ e (
          In-append_right (when before _) _ e
            (In-append_left (when test _) _ e (In-when test _ e (on, inl m)))))

  at_messages :
      (protocol ≡ "chat_completions") ⊎ (protocol ≡ "responses")
      → messages_chat_platform platform ≡ true
      → In e ("messages" ∷ "count_tokens" ∷ [])
      → In e (plain_endpoints platform protocol)
  unfolding plain_endpoints
  at_messages asked speaks m =
      let chat = protocol == "responses" && chat_responses_platform platform in
      let responses = protocol == "chat_completions" && chat_responses_platform platform in
      let test =
        (protocol == "chat_completions" || protocol == "responses")
        && messages_chat_platform platform in
      let on : test ≡ true = ground (
        arith,
        string_eq.beq_iff protocol "chat_completions",
        string_eq.beq_iff protocol "responses",
      ) in
      inr (
        In-append_right (when (protocol == "gemini") _) _ e (
          In-append_right (when chat _) _ e
            (In-append_right (when responses _) _ e (In-when test _ e (on, m)))))

  IsOffered-plain_endpoints :
      protocol ≢ "anthropic"
      → IsOffered platform protocol false e
      → In e (plain_endpoints platform protocol) ⊎ (e ≡ "embeddings") × (platform ≡ "openai")
  unfolding plain_endpoints
  IsOffered-plain_endpoints other h = elim h [
    | inl (own, _) ↦ inl (inl own)
    | inr (inl (names, inl p)) ↦ absurd (other p)
    | inr (inl (names, inr (inl g))) ↦ inl (at_gemini g (inr (two names)))
    | inr (inl (names, inr (inr (asked, speaks)))) ↦ inl (at_messages asked speaks (two names))
    | inr (inr (inl (name, inl g))) ↦ inl (at_gemini g (inl name))
    | inr (inr (inl (name, inr (inl (r, speaks))))) ↦ inl (at_chat r speaks name)
    | inr (inr (inl (name, inr (inr (p, _))))) ↦ absurd (other p)
    | inr (inr (inr (inl (name, inl (c, speaks))))) ↦ inl (at_responses c speaks name)
    | inr (inr (inr (inl (name, inr (p, _))))) ↦ absurd (other p)
    | inr (inr (inr (inr last))) ↦ inr last
  ]

  IsOffered-anthropic_endpoints :
      protocol ≡ "anthropic"
      → IsOffered platform protocol false e
      → In e (anthropic_endpoints platform) ⊎ (e ≡ "embeddings") × (platform ≡ "openai")
  unfolding anthropic_endpoints
  IsOffered-anthropic_endpoints p h =
      let bridged =
        In-when (chat_anthropic_platform platform) ("chat_completions" ∷ "responses" ∷ []) e in
      elim h [
        | inl (own, not_it) ↦ absurd (not_it p)
        | inr (inl (inl m, why)) ↦ inl (inl m)
        | inr (inl (inr m, why)) ↦ inl (inr (inl m))
        | inr (inr (inl (name, inl g))) ↦ absurd (ground (arith, eq_iff "anthropic" "gemini"))
        | inr (inr (inl (name, inr (inl (r, _))))) ↦
            absurd (ground (arith, eq_iff "anthropic" "responses"))
        | inr (inr (inl (name, inr (inr (_, speaks))))) ↦
            inl (inr (inr (bridged (speaks, inl name))))
        | inr (inr (inr (inl (name, inl (c, _))))) ↦
            absurd (ground (arith, eq_iff "anthropic" "chat_completions"))
        | inr (inr (inr (inl (name, inr (_, speaks))))) ↦
            inl (inr (inr (bridged (speaks, inr (inl name)))))
        | inr (inr (inr (inr last))) ↦ inr last
      ]

embedded :
    (platform e : String) (names : List String)
    → In e names ⊎ (e ≡ "embeddings") × (platform ≡ "openai")
    → In e (names ++ when (platform == "openai") ("embeddings" ∷ []))
embedded platform e names (inl m) = In-append_left names _ e m
embedded platform e names (inr (same, openai)) =
    In-append_right names _ e (
      In-when (platform == "openai") _ e ((string_eq.beq_iff platform "openai").1 openai, inl same))

pub IsOffered-catalog_endpoints :
    (platform protocol : String) (native : Bool) (e : String)
    → IsOffered platform protocol native e
    → In e (catalog_endpoints platform protocol native)
unfolding catalog_endpoints
IsOffered-catalog_endpoints platform protocol true e m = inl m
IsOffered-catalog_endpoints platform protocol false e h =
    let is_anthropic = string_eq.beq_iff protocol "anthropic" in
    elim (Bool-cases (protocol == "anthropic")) [
      | inl a ↦ rw a (
          embedded platform e _
            (IsOffered-anthropic_endpoints platform protocol e (is_anthropic.0 a) h))
      | inr a ↦ rw a (
          embedded platform e _ (
            IsOffered-plain_endpoints platform protocol e (λ p. ground (arith, is_anthropic.1 p))
              h))
    ]
