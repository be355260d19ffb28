-- ===== src/Dispatch.antt =====
-- The Messages dispatch of an OpenAI group, internal/app/messages_dispatch.go: which model of OpenAI
-- serves a call that names a model of Anthropic. The map of exact mappings is a list of its entries.
pub mod Targets
pub mod Accepted
mod Tests
use lite_api.Common.{
  ℕ, ltb, leb, if◌then◌else◌, ◌==◌, nat_eq, string_eq, text_eq, Text, text_beq, codes, String, Bool,
  true, false, not, ◌&&◌, ◌||◌, List, [], ◌∷◌, ◌++◌, Option, none, some, length, contains,
}
use lite_api.Common.Strings.{
  trim_space, to_lower, byte_len, has_prefix, has_rune, has_substring, fields_func, fields_from,
  last_field, after_last_slash, join, replace_from, trim_suffix,
}
use lite_api.Common.Errors.{Result, ok, err, ◌>>=◌, ◌>>◌, fail_if, bad, api_error}
use lite_api.Models.{valid_model_pattern}

pub record DispatchConfig : Type 0 where
  pub opus : Text
  pub sonnet : Text
  pub haiku : Text
  pub exact : List (Text × Text)

unfoldable pub is_dash : ℕ → Bool
is_dash c = c == b'-' || c == b'_' || c == b' '

abbrev pub suffixes : List Text
suffixes =
    codes "none"
    ∷ codes "minimal"
    ∷ codes "low"
    ∷ codes "medium"
    ∷ codes "high"
    ∷ codes "xhigh"
    ∷ codes "extrahigh"
    ∷ []

-- The pairs of the replacer.
abbrev pub spellings : List (Text × Text)
spellings =
    (codes "gpt-5.4mini", codes "gpt-5.4-mini")
    ∷ (codes "gpt-5.4nano", codes "gpt-5.4-nano")
    ∷ (codes "gpt-5.3-codexspark", codes "gpt-5.3-codex-spark")
    ∷ (codes "gpt-5.3codexspark", codes "gpt-5.3-codex-spark")
    ∷ (codes "gpt-5.3codex", codes "gpt-5.3-codex")
    ∷ []

abbrev pub families : List Text
families =
    codes "gpt-5.6-sol"
    ∷ codes "gpt-5.6-terra"
    ∷ codes "gpt-5.6-luna"
    ∷ codes "gpt-5.5-pro"
    ∷ codes "gpt-5.5"
    ∷ codes "gpt-5.4-mini"
    ∷ codes "gpt-5.4-nano"
    ∷ codes "gpt-5.4"
    ∷ codes "gpt-5.2"
    ∷ codes "gpt-5.3-codex-spark"
    ∷ codes "gpt-5.3-codex"
    ∷ []

-- The first family whose name the ID contains.
unfoldable pub family_of : List Text → Text → Option Text
family_of [] id = none
family_of (family ∷ rest) id = if has_substring id family then some family else family_of rest id

-- The tests that follow the families.
unfoldable pub other_family : Text → Text → Text → Text
other_family model suffix id =
    if trim_suffix id (b'-' ∷ suffix) == codes "gpt-5.6"
    then codes "gpt-5.6-sol"
    else if has_prefix id (codes "gpt-5.6-")
    then model
    else if has_substring id (codes "gpt-5.3") || has_substring id (codes "codex")
    then codes "gpt-5.3-codex"
    else if has_substring id (codes "gpt-5")
    then codes "gpt-5.4"
    else model

unfoldable pub known_family : Text → Text → Text → Option Text → Text
known_family model suffix id none = other_family model suffix id
known_family model suffix id (some family) = family

-- A model of which the ID has parts, of which `suffix` is the last.
unfoldable pub suffixed_model : Text → List Text → Option Text → Text
suffixed_model model parts none = model
suffixed_model model parts (some suffix) =
    let id = replace_from spellings 0 (join (codes "-") parts) in
    if contains suffixes suffix then known_family model suffix id (family_of families id) else model

-- `normalizeDispatchModel`.
unfoldable pub normalize_dispatch_model : Text → Text
normalize_dispatch_model raw =
    let model = trim_space raw in
    let id = to_lower (after_last_slash model model) in
    let parts = fields_func is_dash id in
    if not (has_prefix id (codes "gpt-")) || ltb (length parts) 2
    then model
    else suffixed_model model parts (last_field parts)

-- The test `valid` of `normalize`.
unfoldable pub is_target_name : Text → Bool
is_target_name v =
    v == [] || (leb (byte_len v) 100 && valid_model_pattern v && not (has_rune v b'*'))

unfoldable pub checked_target : Text → Result Text
checked_target raw = do
  fail_if (not (is_target_name (normalize_dispatch_model raw)))
      (bad "invalid Messages dispatch model")
  ok (normalize_dispatch_model raw)

-- `exact[key]`.
unfoldable pub exact_target : Text → List (Text × Text) → Option Text
exact_target key [] = none
exact_target key ((from, to) ∷ rest) = if from == key then some to else exact_target key rest

-- Whether another target stands under the key.
unfoldable pub conflicts : Option Text → Text → Bool
conflicts none to = false
conflicts (some previous) to = not (previous == to)

-- The loop over the entries, with the entries accepted so far.
unfoldable pub checked_exact : List (Text × Text) → List (Text × Text) → Result (List (Text × Text))
checked_exact [] exact = ok exact
checked_exact ((raw_from, raw_to) ∷ rest) exact = do
  let from = trim_space raw_from
  let to = normalize_dispatch_model raw_to
  let is_blank = from == [] || to == []
  fail_if (not is_blank && (not (is_target_name from) || not (is_target_name to)))
      (bad "invalid Messages dispatch mapping")
  fail_if (not is_blank && conflicts (exact_target from exact) to)
      (bad "conflicting Messages dispatch mappings")
  checked_exact rest (if is_blank then exact else (from, to) ∷ exact)

-- `(*messagesDispatchConfig).normalize`.
unfoldable pub normalize_config : DispatchConfig → Result DispatchConfig
normalize_config raw = do
  opus ← checked_target raw.opus
  sonnet ← checked_target raw.sonnet
  haiku ← checked_target raw.haiku
  fail_if (ltb 1000 (length raw.exact)) (bad "too many Messages dispatch mappings")
  exact ← checked_exact raw.exact []
  ok (record { opus = opus; sonnet = sonnet; haiku = haiku; exact = exact })

-- The configured target of a family, or its fallback.
unfoldable pub target_or : Text → String → Text
target_or configured fallback = if configured == [] then codes fallback else configured

-- The table of the families of Claude.
unfoldable pub claude_target : DispatchConfig → Text → Text
claude_target c lower =
    if not (has_prefix lower (codes "claude"))
    then []
    else if has_substring lower (codes "opus")
    then target_or c.opus "gpt-5.4"
    else if has_substring lower (codes "sonnet")
    then target_or c.sonnet "gpt-5.3-codex"
    else if has_substring lower (codes "haiku")
    then target_or c.haiku "gpt-5.4-mini"
    else []

-- A missing key reads as the empty text.
unfoldable pub text_at : Option Text → Text
text_at none = []
text_at (some t) = t

-- `(messagesDispatchConfig).resolve`; the empty text is no target.
unfoldable pub dispatch_target : DispatchConfig → Text → Text
dispatch_target c raw =
    let model = trim_space raw in
    let exact = text_at (exact_target model c.exact) in
    if exact == [] then claude_target c (to_lower model) else exact

-- `messagesDispatch`, on the protocol of the call, the platform of the key's group and the settings of
-- the group that routes the call.
unfoldable pub messages_dispatch : String → String → Bool → DispatchConfig → Text → Result Text
messages_dispatch protocol platform allow_messages config model =
    if not (protocol == "anthropic") || not (platform == "openai")
    then ok []
    else if not allow_messages
    then err (api_error 403 "this group does not allow Messages dispatch")
    else ok (dispatch_target config model)
