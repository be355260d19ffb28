-- ===== src/Composite/Targets/Offered.antt =====
-- The endpoints of a list, told one by one.
use lite_api.Common.{
  ◌==◌, string_eq, ◌≡◌, ◌≢◌, refl, String, Bool, true, false, ◌&&◌, ◌||◌, List, [], ◌∷◌, In,
  append-In, ◌⊎◌, inl, inr, Bool-cases, arith,
}
use lite_api.Selection.Matching.{
  chat_responses_platform, messages_chat_platform, chat_anthropic_platform,
}
use lite_api.Composite.Targets.Endpoints.{
  when, plain_endpoints, anthropic_endpoints, catalog_endpoints,
}

-- The endpoint counts for a list by the protocol on the platform.
abbrev pub IsOffered : String → String → Bool → String → Type 0
IsOffered platform protocol true e = e ≡ "gemini"
IsOffered platform protocol false e =
    (e ≡ protocol) × (protocol ≢ "anthropic")
    ⊎ ((e ≡ "messages") ⊎ (e ≡ "count_tokens"))
      × ((protocol ≡ "anthropic")
          ⊎ (protocol ≡ "gemini")
          ⊎ ((protocol ≡ "chat_completions") ⊎ (protocol ≡ "responses"))
            × (messages_chat_platform platform ≡ true))
    ⊎ (e ≡ "chat_completions")
      × ((protocol ≡ "gemini")
          ⊎ (protocol ≡ "responses") × (chat_responses_platform platform ≡ true)
          ⊎ (protocol ≡ "anthropic") × (chat_anthropic_platform platform ≡ true))
    ⊎ (e ≡ "responses")
      × ((protocol ≡ "chat_completions") × (chat_responses_platform platform ≡ true)
          ⊎ (protocol ≡ "anthropic") × (chat_anthropic_platform platform ≡ true))
    ⊎ (e ≡ "embeddings") × (platform ≡ "openai")

when-In :
    (t : Bool) (names : List String) (e : String) → In e (when t names) → (t ≡ true) × In e names
when-In true names e m = (refl, m)
when-In false names e m = elim m [ ]

module _ (platform protocol e : String) where
  plain_endpoints-IsOffered :
      protocol ≢ "anthropic"
      → In e (plain_endpoints platform protocol)
      → IsOffered platform protocol false e
  unfolding plain_endpoints
  plain_endpoints-IsOffered other (inl own) = inl (own, other)
  plain_endpoints-IsOffered other (inr m) = elim (append-In (when (protocol == "gemini") _) _ e m) [
    | inl a ↦
        let (gemini, n) = when-In (protocol == "gemini") _ e a in
        let g = (string_eq.beq_iff protocol "gemini").0 gemini in ground arith
    | inr m1 ↦
        elim (append-In (when (protocol == "responses" && chat_responses_platform platform) _) _ e
          m1) [
            | inl a ↦
                let (both, n) =
                  when-In (protocol == "responses" && chat_responses_platform platform) _ e a in
                ground (arith, string_eq.beq_iff protocol "responses")
            | inr m2 ↦
                elim (append-In
                  (when (protocol == "chat_completions" && chat_responses_platform platform) _) _ e
                  m2) [
                    | inl a ↦
                        let (both, n) =
                          when-In
                            (protocol == "chat_completions" && chat_responses_platform platform) _ e
                            a in
                        ground (arith, string_eq.beq_iff protocol "chat_completions")
                    | inr a ↦
                        let (both, n) =
                          when-In
                            ((protocol == "chat_completions" || protocol == "responses")
                              && messages_chat_platform platform)
                            _ e a in
                        ground (
                          arith,
                          string_eq.beq_iff protocol "chat_completions",
                          string_eq.beq_iff protocol "responses",
                        )
                  ]
          ]
  ]

  anthropic_endpoints-IsOffered :
      protocol ≡ "anthropic"
      → In e (anthropic_endpoints platform)
      → IsOffered platform protocol false e
  unfolding anthropic_endpoints
  anthropic_endpoints-IsOffered p (inl m) = ground arith
  anthropic_endpoints-IsOffered p (inr (inl m)) = ground arith
  anthropic_endpoints-IsOffered p (inr (inr m)) =
      let (speaks, n) = when-In (chat_anthropic_platform platform) _ e m in ground arith

  embeddings-IsOffered :
      In e (when (platform == "openai") ("embeddings" ∷ [])) → IsOffered platform protocol false e
  embeddings-IsOffered m =
      let (openai, n) = when-In (platform == "openai") _ e m in
      ground (arith, string_eq.beq_iff platform "openai")

pub catalog_endpoints-IsOffered :
    (platform protocol : String) (native : Bool) (e : String)
    → In e (catalog_endpoints platform protocol native)
    → IsOffered platform protocol native e
unfolding catalog_endpoints
catalog_endpoints-IsOffered platform protocol true e (inl m) = m
catalog_endpoints-IsOffered platform protocol true e (inr m) = elim m [ ]
catalog_endpoints-IsOffered platform protocol false e m =
    let is_anthropic = string_eq.beq_iff protocol "anthropic" in
    elim (append-In _ (when (platform == "openai") ("embeddings" ∷ [])) e m) [
      | inr last ↦ embeddings-IsOffered platform protocol e last
      | inl first ↦ elim (Bool-cases (protocol == "anthropic")) [
        | inl a ↦
            anthropic_endpoints-IsOffered platform protocol e (is_anthropic.0 a) (rw a at first)
        | inr a ↦
            plain_endpoints-IsOffered platform protocol e (λ p. ground (arith, is_anthropic.1 p))
              (rw a at first)
      ]
    ]
