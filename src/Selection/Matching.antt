-- ===== src/Selection/Matching.antt =====
-- Whether an account can serve a call: the tests of `chooseAccount` of internal/app/gateway.go that look
-- at the protocols, and protocol, allowsOpenAIProtocol, supportsSeedance and allowsResponseResources.
use lite_api.Common.{
  ℕ, leb, if◌then◌else◌, ◌==◌, nat_eq, string_eq, text_eq, Text, codes, String, Bool, true, false,
  not, ◌&&◌, ◌||◌, List, [], Option, none, some, all, contains, length,
}
use lite_api.Common.Strings.{byte_len, has_prefix, trim_prefix, cut_slash}
use lite_api.Mapping.{Credential}
use lite_api.Quotas.Accounts.{Extra}
use lite_api.GroupFallback.{grok_search_protocol, voice_protocol}

-- `openAICapabilities`: an error, none set, or the names.
pub data Capabilities : Type 0 where
  bad_capabilities : Capabilities
  no_capabilities : Capabilities
  capabilities : List String → Capabilities

-- The resources of one kind that an account grants to the group of the key: the target that they belong
-- to, and the IDs, if they can be read.
pub record Grants : Type 0 where
  pub target : Text
  pub ids : Option (List Text)

-- An account as `loadAccount` returns it. `target` is its `responseTarget`.
pub record Loaded : Type 0 where
  pub id : ℕ
  pub platform : String
  pub account_type : String
  pub api_protocol : String
  pub has_base_url : Bool
  pub target : Text
  pub capability : Capabilities
  pub stores : Grants
  pub files : Grants
  pub skills : Grants
  pub socket_eligible : Bool
  pub compact_mapping : Credential
  pub model_mapping : Credential
  pub extra : Extra

-- What `chooseAccount` reads of a `textRequest`; `native_tools` is any of the tools that only the Responses
-- of OpenAI know, and `on_socket` whether the call is a turn on a socket.
pub record Ask : Type 0 where
  pub protocol : String
  pub model : Text
  pub action : Text
  pub count_only : Bool
  pub native_compaction : Bool
  pub on_socket : Bool
  pub has_references : Bool
  pub background : Bool
  pub hosted_search : Bool
  pub native_tools : Bool
  pub vector_stores : List Text
  pub file_ids : List Text
  pub skill_ids : List Text

unfoldable pub chat_responses_platform : String → Bool
chat_responses_platform platform =
    platform == "openai"
    || platform == "kimi"
    || platform == "zhipu"
    || platform == "deepseek"
    || platform == "minimax"

unfoldable pub messages_chat_platform : String → Bool
messages_chat_platform platform = chat_responses_platform platform || platform == "grok"

unfoldable pub chat_anthropic_platform : String → Bool
chat_anthropic_platform platform = platform == "anthropic" || chat_responses_platform platform

-- `protocol`.
unfoldable pub protocol_of : Loaded → String
protocol_of u =
    if u.platform == "gemini"
    then "gemini"
    else if u.platform == "anthropic"
    then "anthropic"
    else if u.api_protocol == "anthropic" || u.api_protocol == "responses"
    then u.api_protocol
    else "chat_completions"

unfoldable pub has_capability : Capabilities → String → Bool
has_capability bad_capabilities name = false
has_capability no_capabilities name = false
has_capability (capabilities names) name = contains names name

-- `allowsOpenAIProtocol`, on an account of OpenAI.
unfoldable pub capable : Capabilities → String → Bool
capable bad_capabilities protocol = false
capable no_capabilities protocol = not (protocol == "seedance")
capable (capabilities names) protocol =
    if protocol == "chat_completions" || protocol == "responses" || protocol == "anthropic"
    then contains names "chat_completions"
    else if protocol == "embeddings"
    then contains names "embeddings"
    else if protocol == "alpha_search"
    then contains names "alpha_search" || contains names "chat_completions"
    else if protocol == "seedance"
    then contains names "seedance"
    else true

-- `allowsOpenAIProtocol`.
unfoldable pub allows_protocol : Loaded → String → Bool
allows_protocol u protocol = if u.platform == "openai" then capable u.capability protocol else true

-- `supportsSeedance`.
unfoldable pub supports_seedance : Loaded → Bool
supports_seedance u =
    has_capability u.capability "seedance"
    && u.platform == "openai"
    && u.account_type == "apikey"
    && u.has_base_url

unfoldable pub all_granted : Option (List Text) → List Text → Bool
all_granted none ids = false
all_granted (some granted) ids = all (λ id. contains granted id) ids

-- `allowsResponseResources`.
unfoldable pub allows_resources : Loaded → Grants → List Text → Bool
allows_resources u g ids =
    if length ids == 0 then true else if g.target == u.target then all_granted g.ids ids else false

-- The matches that a translation between two protocols makes.
unfoldable pub is_translated : Ask → Loaded → Bool
is_translated ask u =
    let wire = protocol_of u in
    let plain = ask.action == [] && not ask.native_compaction && not ask.on_socket in
    wire == ask.protocol
    || (ask.protocol == "chat_completions" || ask.protocol == "anthropic") && wire == "gemini"
    || ask.protocol == "anthropic"
      && (wire == "chat_completions" || wire == "responses")
      && messages_chat_platform u.platform
    || ask.protocol == "responses"
      && ask.count_only
      && (chat_responses_platform u.platform || u.platform == "grok")
    || ask.protocol == "chat_completions"
      && wire == "responses"
      && chat_responses_platform u.platform
    || ask.protocol == "chat_completions"
      && wire == "anthropic"
      && chat_anthropic_platform u.platform
    || ask.protocol == "responses"
      && wire == "chat_completions"
      && chat_responses_platform u.platform
      && plain
    || ask.protocol == "responses" && wire == "gemini" && plain
    || ask.protocol == "responses"
      && wire == "anthropic"
      && chat_anthropic_platform u.platform
      && plain

-- Chat or Responses.
unfoldable pub is_text_wire : Loaded → Bool
is_text_wire u = protocol_of u == "chat_completions" || protocol_of u == "responses"

-- The protocols that one platform serves; for each of them the last test decides.
unfoldable pub special_match : Ask → Loaded → Bool → Bool
special_match ask u so_far =
    let p = ask.protocol in
    if grok_search_protocol p || voice_protocol p || p == "custom-voices"
    then u.platform == "grok" && is_text_wire u
    else if p == "images"
    then (u.platform == "openai" || u.platform == "grok") && is_text_wire u
    else if p == "alpha_search"
    then u.platform == "openai" && is_text_wire u
    else if p == "videos"
    then u.platform == "grok" && is_text_wire u
    else if p == "seedance"
    then supports_seedance u
    else if p == "embeddings"
    then u.platform == "openai"
    else so_far

-- `matches`, in the order of the assignments.
unfoldable pub is_match : Ask → Loaded → Bool
is_match ask u =
    let wire = protocol_of u in
    let owned =
      if ask.has_references || ask.background
      then ask.protocol == "responses" && wire == "responses"
      else is_translated ask u in
    let special = special_match ask u owned in
    let searched =
      if ask.hosted_search
      then (u.platform == "grok" || u.platform == "openai") && wire == "responses"
      else special in
    let native =
      if ask.native_tools then u.platform == "openai" && wire == "responses" else searched in
    if length ask.file_ids == 0
    then native
    else native
      && u.platform == "openai"
      && (wire == "responses" || ask.protocol == "chat_completions" && wire == "chat_completions")

-- The tests after the protocol.
unfoldable pub is_allowed_by : Ask → Loaded → Bool
is_allowed_by ask u =
    is_match ask u
    && allows_protocol u ask.protocol
    && allows_resources u u.stores ask.vector_stores
    && allows_resources u u.files ask.file_ids
    && allows_resources u u.skills ask.skill_ids

unfoldable pub id_rune : ℕ → Bool
id_rune c =
    leb b'a' c && leb c b'z'
    || leb b'A' c && leb c b'Z'
    || leb b'0' c && leb c b'9'
    || c == b'_'
    || c == b'-'

-- `validResponseID`.
unfoldable pub valid_response_id : Text → Bool
valid_response_id id = not (id == []) && leb (byte_len id) 256 && all id_rune id

unfoldable pub is_compact_path : Text → Bool
is_compact_path path = path == codes "compact" || has_prefix path (codes "compact/")

unfoldable pub is_compact_part : Option (Text × Text) → Bool
is_compact_part none = false
is_compact_part (some (id, suffix)) =
    not (id == codes "input_tokens") && valid_response_id id && is_compact_path suffix

-- The second result of `responseCompactionPath`.
unfoldable pub is_compaction : Text → Bool
is_compaction action =
    let path = trim_prefix action (codes "/") in
    is_compact_path path || is_compact_part (cut_slash path)
