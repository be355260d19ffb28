-- ===== src/Reasoning/Request.antt =====
-- The reasoning effort that a request names: `requestEffort` and `requestedEffort` of
-- internal/app/reasoning.go.
pub mod Within
use lite_api.Common.{
  ℕ, ltb, if◌then◌else◌, ◌==◌, nat_eq, string_eq, text_eq, Text, text_beq, codes, String, Bool,
  true, false, not, ◌&&◌, ◌||◌, List, [], ◌∷◌, Option, none, some,
}
use lite_api.Common.Strings.{trim_space, byte_len, fields_func, fields_from, last_field}
use lite_api.Common.Errors.{Result, ok, err, ◌>>=◌, ◌>>◌, fail_if, bad}
use lite_api.Common.Json.{Json, null, str, obj, Fields, get}
use lite_api.Reasoning.{canonical_effort}

-- The member that holds the effort: `null` and a missing member hold none.
unfoldable pub effort_value : Option Json → Result Text
effort_value none = ok []
effort_value (some null) = ok []
effort_value (some (str value)) =
    if ltb 20 (byte_len value) then err (bad "invalid reasoning effort") else ok value
effort_value (some _) = err (bad "invalid reasoning effort")

unfoldable pub nested_value : String → Option Json → Result Text
nested_value nested none = ok []
nested_value nested (some null) = ok []
nested_value nested (some (obj object)) = effort_value (get nested object)
nested_value nested (some _) = err (bad "invalid reasoning configuration")

-- Where the protocol keeps the effort.
unfoldable pub protocol_value : Fields → String → Result Text
protocol_value body protocol =
    if protocol == "responses"
    then nested_value "effort" (get "reasoning" body)
    else if protocol == "anthropic"
    then nested_value "effort" (get "output_config" body)
    else effort_value (get "reasoning_effort" body)

unfoldable pub spelled_effort : Text → Text
spelled_effort value =
    let canonical = canonical_effort value in
    if canonical == [] then trim_space value else canonical

-- `requestEffort`: a Responses body without an effort may have that of Chat Completions.
unfoldable pub request_effort : Fields → String → Result Text
request_effort body protocol = do
  value ← protocol_value body protocol
  if protocol == "responses" && trim_space value == []
      then (do chat ← effort_value (get "reasoning_effort" body); ok (spelled_effort chat))
      else ok (spelled_effort value)

-- `value, _ := requestEffort(body, protocol)`: an error reads as the empty text.
unfoldable pub text_or_blank : Result Text → Text
text_or_blank (ok value) = value
text_or_blank (err e) = []

-- The pointer to a canonical effort, or nil.
unfoldable pub known_or_none : Text → Option Text
known_or_none value =
    let canonical = canonical_effort value in if canonical == [] then none else some canonical

-- The separators of the parts of a model's name.
unfoldable pub is_part_separator : ℕ → Bool
is_part_separator c = c == b'/' || c == b'-' || c == b'_' || c == b' '

-- What the name of the model says.
unfoldable pub suffix_effort : Option Text → Option Text
suffix_effort none = none
suffix_effort (some part) = known_or_none part

-- The loop over the protocols.
unfoldable pub first_effort : Fields → List String → Text → Option Text
first_effort body [] model = suffix_effort (last_field (fields_func is_part_separator model))
first_effort body (protocol ∷ rest) model =
    let value = text_or_blank (request_effort body protocol) in
    let later = first_effort body rest model in if value == [] then later else known_or_none value

-- `requestedEffort`.
unfoldable pub requested_effort : Fields → Text → Option Text
requested_effort body model =
    first_effort body ("responses" ∷ "chat_completions" ∷ "anthropic" ∷ []) model
