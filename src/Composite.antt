-- ===== src/Composite.antt =====
-- Composite groups, internal/app/composite.go: the routes of a group, the account aliases that own a
-- model, the detector by well-known prefixes, and the decision that `resolve` makes from them.
-- A route's times and notes are left out: no decision reads them.
pub mod Order
pub mod Choice
pub mod Decisions
pub mod Owners
pub mod Loading
pub mod Targets
mod Tests
use lite_api.Common.{
  ℕ, ◌≤◌, ltb, bool_beq, if◌then◌else◌, ◌==◌, nat_eq, text_eq, string_eq, Text, text_beq, codes,
  String, Bool, true, false, not, ◌&&◌, ◌||◌, List, [], ◌∷◌, ◌++◌, Option, none, some, any,
  contains,
}
use lite_api.Common.Int.{ℤ, pos, ltz}
use lite_api.Common.Strings.{byte_len, trim_space, to_lower, has_prefix, trim_prefix, cut_slash}
use lite_api.Models.{supported_platform, concrete_model}

pub record RouteConfig : Type 0 where
  pub public_model : Text
  pub match_type : String
  pub target_platform : String
  pub upstream_model : Text
  pub endpoint : String
  pub priority : ℤ
  pub enabled : Bool

pub record Route : Type 0 where
  pub config : RouteConfig
  pub open config use *
  pub id : ℕ

-- An alias with the empty platform is claimed by several platforms.
pub record CompositeConfig : Type 0 where
  pub routes : List Route
  pub owners : List (Text × String)

pub record Decision : Type 0 where
  pub matched : Bool
  pub source : String
  pub group_id : ℕ
  pub public_model : Text
  pub target_platform : String
  pub upstream_model : Text
  pub endpoint : String
  pub route : Option Route
  pub reason : String

-- `betterCompositeRoute`: whether `a` goes before `b`.
unfoldable pub better_route : Route → Route → String → Bool
better_route a b endpoint =
    if not (a.match_type == b.match_type)
    then a.match_type == "exact"
    else if not (bool_beq (a.endpoint == endpoint) (b.endpoint == endpoint))
    then a.endpoint == endpoint
    else if not (byte_len a.public_model == byte_len b.public_model)
    then ltb (byte_len b.public_model) (byte_len a.public_model)
    else if ltz a.priority b.priority || ltz b.priority a.priority
    then ltz a.priority b.priority
    else ltb a.id b.id

-- The tests of `resolve` on one route.
unfoldable pub eligible : Text → String → Route → Bool
eligible model endpoint r =
    r.enabled
    && (r.endpoint == "any" || r.endpoint == endpoint)
    && ((r.match_type == "exact" && r.public_model == model)
        || (r.match_type == "prefix" && has_prefix model r.public_model))

unfoldable pub improves : String → Route → Option Route → Bool
improves endpoint r none = true
improves endpoint r (some best) = better_route r best endpoint

-- The loop over the routes.
unfoldable pub best_route : Text → String → Option Route → List Route → Option Route
best_route model endpoint best [] = best
best_route model endpoint best (r ∷ rs) =
    best_route model endpoint
      (if eligible model endpoint r && improves endpoint r best then some r else best) rs

-- The first row that lists a name which passes the test.
unfoldable pub row_platform : (String → Bool) → List (String × List String) → Option String
row_platform test [] = none
row_platform test ((platform, names) ∷ rows) =
    if any test names then some platform else row_platform test rows

-- The `switch` on the provider. The empty platform stands for no platform, as in the source.
abbrev pub providers : List (String × List String)
providers =
    ("", "antigravity" ∷ "opencode" ∷ "opencode_go" ∷ "bedrock" ∷ [])
    ∷ ("anthropic", "anthropic" ∷ "claude" ∷ [])
    ∷ ("openai", "openai" ∷ "chatgpt" ∷ [])
    ∷ ("gemini", "google" ∷ "google-ai-studio" ∷ "gemini" ∷ [])
    ∷ ("grok", "xai" ∷ "x-ai" ∷ "grok" ∷ [])
    ∷ ("kimi", "kimi" ∷ "moonshot" ∷ [])
    ∷ ("zhipu", "zhipu" ∷ "glm" ∷ "bigmodel" ∷ [])
    ∷ ("deepseek", "deepseek" ∷ [])
    ∷ ("minimax", "minimax" ∷ [])
    ∷ []

-- The table of prefixes.
abbrev pub known_prefixes : List (String × List String)
known_prefixes =
    ("anthropic", "anthropic.claude-" ∷ "claude-" ∷ [])
    ∷ (
      "openai",
      "gpt-" ∷ "chatgpt-" ∷ "codex-" ∷ "text-embedding-" ∷ "text-moderation-" ∷ "omni-moderation-"
          ∷ "dall-e-" ∷ "tts-" ∷ "whisper-" ∷ [],
    )
    ∷ ("gemini", "gemini-" ∷ "learnlm-" ∷ [])
    ∷ ("grok", "grok-" ∷ [])
    ∷ ("kimi", "kimi-" ∷ "moonshot-" ∷ [])
    ∷ ("zhipu", "glm-" ∷ [])
    ∷ ("deepseek", "deepseek-" ∷ [])
    ∷ ("minimax", "minimax-" ∷ "abab5" ∷ "abab6" ∷ "abab7" ∷ [])
    ∷ []

unfoldable pub provider_platform : Text → Option String
unfolding row_platform text_beq
provider_platform provider = row_platform (λ name. provider == codes name) providers

unfoldable pub prefix_platform : Text → Option String
unfolding row_platform has_prefix
prefix_platform model = row_platform (λ p. has_prefix model (codes p)) known_prefixes

-- The tests that follow the table.
unfoldable pub short_name_platform : Text → String
unfolding text_beq has_prefix
short_name_platform model =
    if any (λ n. model == codes n || has_prefix model (codes n ++ codes "-"))
      ("o1" ∷ "o3" ∷ "o4" ∷ "o5" ∷ [])
    then "openai"
    else if model == codes "k3" || model == codes "k3-256k"
    then "kimi"
    else if model == codes "grok"
    then "grok"
    else ""

-- The tests after the provider's name is gone.
unfoldable pub name_platform : Text → String
name_platform model = elim (prefix_platform model) [
  | some platform ↦ platform
  | none ↦ short_name_platform model
]

-- What follows `strings.Cut(model, "/")`.
unfoldable pub cut_platform : Text → Option (Text × Text) → String
cut_platform model none = name_platform model
cut_platform model (some (provider, rest)) = elim (provider_platform provider) [
  | some platform ↦ platform
  | none ↦ name_platform (trim_prefix rest (codes "models/"))
]

-- `detectModelPlatform`.
unfoldable pub detect_model_platform : Text → String
detect_model_platform text =
    let model = trim_prefix (to_lower (trim_space text)) (codes "models/") in
    cut_platform model (cut_slash model)

unfoldable pub owner_of : Text → List (Text × String) → Option String
owner_of model [] = none
owner_of model ((m, platform) ∷ rest) = if m == model then some platform else owner_of model rest

abbrev refused : ℕ → Text → String → String → Decision
refused gid model endpoint why = record {
  matched = false;
  source = "";
  group_id = gid;
  public_model = model;
  target_platform = "";
  upstream_model = [];
  endpoint = endpoint;
  route = none;
  reason = why;
}

abbrev routed : ℕ → Text → String → String → String → Text → Option Route → Decision
routed gid model endpoint source platform upstream route = record {
  matched = true;
  source = source;
  group_id = gid;
  public_model = model;
  target_platform = platform;
  upstream_model = upstream;
  endpoint = endpoint;
  route = route;
  reason = "";
}

decide_route : ℕ → Text → String → Route → Decision
decide_route gid model endpoint best =
    if not (supported_platform best.target_platform)
    then refused gid model endpoint "route targets an unsupported platform"
    else routed gid model endpoint "route" best.target_platform
        (if best.upstream_model == [] then model else best.upstream_model) (some best)

decide_owner : ℕ → Text → String → String → Decision
decide_owner gid model endpoint platform =
    if platform == ""
    then refused gid model endpoint "model is exposed by multiple provider platforms"
    else routed gid model endpoint "account_model" platform model none

decide_detected : ℕ → Text → String → String → Decision
decide_detected gid model endpoint platform =
    if not (platform == "")
    then routed gid model endpoint "detector" platform model none
    else refused gid model endpoint
        "no explicit route, account ownership or recognized model platform"

-- `(*compositeConfig).resolve`.
unfoldable pub resolve : CompositeConfig → ℕ → Text → String → Decision
unfolding decide_route decide_owner decide_detected
resolve c gid model endpoint = elim (best_route model endpoint none c.routes) [
  | some best ↦ decide_route gid model endpoint best
  | none ↦ elim (owner_of model c.owners) [
    | some platform ↦ decide_owner gid model endpoint platform
    | none ↦ decide_detected gid model endpoint (detect_model_platform model)
  ]
]

-- The alias loop of `loadComposite`: one account's platform and one entry of its mapping.
unfoldable pub set_owner : Text → String → List (Text × String) → List (Text × String)
set_owner model platform [] = (model, platform) ∷ []
set_owner model platform ((m, p) ∷ rest) =
    if m == model
    then (m, if p == platform then platform else "") ∷ rest
    else (m, p) ∷ set_owner model platform rest

unfoldable pub claim : String → Text × Text → List (Text × String) → List (Text × String)
unfolding set_owner
claim platform (model, target) owners =
    if not (concrete_model model) || trim_space target == []
    then owners
    else set_owner model platform owners

claim_all : String → List (Text × Text) → List (Text × String) → List (Text × String)
claim_all platform [] owners = owners
claim_all platform (entry ∷ rest) owners = claim_all platform rest (claim platform entry owners)

-- The loop over the rows whose mappings were read.
unfoldable pub load_owners :
    List (String × List (Text × Text)) → List (Text × String) → List (Text × String)
unfolding claim claim_all
load_owners [] owners = owners
load_owners ((platform, mapping) ∷ rows) owners =
    load_owners rows
      (if supported_platform platform then claim_all platform mapping owners else owners)
