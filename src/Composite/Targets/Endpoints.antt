-- ===== src/Composite/Targets/Endpoints.antt =====
-- Which endpoints a list of models is for.
use lite_api.Common.{if◌then◌else◌, ◌==◌, string_eq, String, Bool, ◌&&◌, ◌||◌, List, [], ◌∷◌, ◌++◌}
use lite_api.Selection.Matching.{
  chat_responses_platform, messages_chat_platform, chat_anthropic_platform,
}

abbrev pub when : Bool → List String → List String
when test names = if test then names else []

-- The endpoints of a call by the wire protocols of OpenAI or Gemini.
unfoldable pub plain_endpoints : String → String → List String
plain_endpoints platform protocol =
    protocol
    ∷ (when (protocol == "gemini") ("chat_completions" ∷ "messages" ∷ "count_tokens" ∷ [])
        ++ (when (protocol == "responses" && chat_responses_platform platform)
              ("chat_completions" ∷ [])
            ++ (when (protocol == "chat_completions" && chat_responses_platform platform)
                  ("responses" ∷ [])
                ++ when
                    ((protocol == "chat_completions" || protocol == "responses")
                      && messages_chat_platform platform)
                    ("messages" ∷ "count_tokens" ∷ []))))

unfoldable pub anthropic_endpoints : String → List String
anthropic_endpoints platform =
    "messages"
    ∷ "count_tokens"
    ∷ when (chat_anthropic_platform platform) ("chat_completions" ∷ "responses" ∷ [])

-- The endpoints that a list of models is for.
unfoldable pub catalog_endpoints : String → String → Bool → List String
catalog_endpoints platform protocol native =
    if native
    then "gemini" ∷ []
    else (if protocol == "anthropic"
        then anthropic_endpoints platform
        else plain_endpoints platform protocol)
      ++ when (platform == "openai") ("embeddings" ∷ [])
