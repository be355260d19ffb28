-- ===== src/Reasoning.antt =====
-- Reasoning effort policies of a group, internal/app/reasoning.go: the canonical spelling of an
-- effort, the mapping rules, and their application to the body of a request.
pub mod Canonical
pub mod Mapping
pub mod Limit
pub mod Input
pub mod Request
mod Tests
mod InputTests
use lite_api.Common.{
  ℕ, suc, ltb, if◌then◌else◌, ◌==◌, nat_eq, text_eq, string_eq, Text, text_beq, codes, String, Bool,
  true, false, not, ◌&&◌, ◌||◌, List, [], ◌∷◌, Option, none, some, length,
}
use lite_api.Common.Strings.{trim_space, to_lower, has_prefix, has_suffix, equal_fold, byte_len}
use lite_api.Common.Errors.{Result, ok, err, ◌>>=◌, api_error}
use lite_api.Common.Json.{Json, str, obj, Fields, get, put, as_text, as_object}

pub record EffortMapping : Type 0 where
  pub from : Text
  pub to : Text
  pub match_type : Text
  pub model : Text

pub record Policy : Type 0 where
  pub max_effort : Text
  pub over_limit : Text
  pub mappings : List EffortMapping

abbrev pub efforts : List Text
efforts =
    codes "minimal" ∷ codes "low" ∷ codes "medium" ∷ codes "high" ∷ codes "xhigh" ∷ codes "max" ∷ []

-- `slices.Index(list, value) + 1`.
unfoldable pub place : List Text → Text → ℕ
place [] value = 0
place (x ∷ xs) value =
    let later = place xs value in if x == value then 1 else if later == 0 then 0 else suc later

-- `effortRank`.
unfoldable pub effort_rank : Text → ℕ
effort_rank value = place efforts value

-- `strings.NewReplacer("-", "", "_", "", " ", "")`.
unfoldable pub squeeze : Text → Text
squeeze [] = []
squeeze (c ∷ s) = if c == b'-' || c == b'_' || c == b' ' then squeeze s else c ∷ squeeze s

-- The last tests of `canonicalEffort`.
unfoldable pub known_effort : Text → Text
known_effort name = if ltb 0 (effort_rank name) then name else []

abbrev pub alias_effort : Text → Text
alias_effort value = if value == codes "extrahigh" then codes "xhigh" else value

-- `canonicalEffort`.
unfoldable pub canonical_effort : Text → Text
canonical_effort value = known_effort (alias_effort (squeeze (to_lower (trim_space value))))

-- How strongly a rule applies to a model: exactly, by prefix or suffix, to every model, or not.
unfoldable pub rule_rank : EffortMapping → Text → ℕ
rule_rank m request =
    let scope = to_lower m.model in
    if m.match_type == []
    then 1
    else if m.match_type == codes "exact"
    then (if request == scope then 3 else 0)
    else if m.match_type == codes "prefix"
    then (if has_prefix request scope then 2 else 0)
    else if m.match_type == codes "suffix"
    then (if has_suffix request scope then 2 else 0)
    else 0

-- The rule chosen so far, its rank and the length of its scope.
pub record Choice : Type 0 where
  pub best : Option EffortMapping
  pub strength : ℕ
  pub scope_len : ℕ

-- One round of the loop in `mappedEffort`.
unfoldable pub choose : Text → Text → EffortMapping → Choice → Choice
choose from request m c =
    let rank = rule_rank m request in
    let len = byte_len (to_lower m.model) in
    if not (m.from == from)
    then c
    else if ltb c.strength rank || (ltb 0 rank && rank == c.strength && ltb c.scope_len len)
    then record { best = some m; strength = rank; scope_len = len }
    else c

unfoldable pub choose_all : Text → Text → List EffortMapping → Choice → Choice
choose_all from request [] c = c
choose_all from request (m ∷ ms) c = choose_all from request ms (choose from request m c)

abbrev pub no_choice : Choice
no_choice = record { best = none; strength = 0; scope_len = 0 }

-- The effort under which the rules are looked up.
unfoldable pub lookup_effort : Text → Text
lookup_effort value =
    if equal_fold (trim_space value) (codes "none") then codes "none" else canonical_effort value

-- `mappedEffort`: the effort, and whether a rule gave it.
unfoldable pub mapped_effort : List EffortMapping → Text → Text → Text × Bool
mapped_effort mappings value model =
    elim ((choose_all (lookup_effort value) (to_lower (trim_space model)) mappings
      no_choice).best) [ some m ↦ (m.to, true) | none ↦ (value, false) ]

-- The limit in force on the platform.
unfoldable pub effective_max : Policy → String → Text
effective_max p platform =
    if platform == "anthropic" && p.max_effort == codes "minimal" then codes "low" else p.max_effort

-- Anthropic has no minimal effort: a rule that gives it gives the low one.
unfoldable pub adapt_effort : Bool → String → Text → Text
adapt_effort mapped platform canonical =
    if mapped && platform == "anthropic" && canonical == codes "minimal"
    then codes "low"
    else canonical

-- The limit `max` on an effort of the six.
unfoldable pub cap_effort : Text → Text → Text → Result Text
cap_effort over_limit max effort =
    if ltb 0 (effort_rank max) && ltb (effort_rank max) (effort_rank effort)
    then (if over_limit == codes "deny"
        then err (api_error 403 "reasoning effort exceeds the group limit")
        else ok max)
    else ok effort

-- One explicit effort, between the tests of `apply` and the write.
unfoldable pub decide_effort : Policy → String → Text → Text × Bool → Result Text
decide_effort p platform max (effective, mapped) =
    let canonical = canonical_effort effective in
    if mapped && effective == codes "deny"
    then err (api_error 403 "reasoning effort is denied by group policy")
    else if canonical == []
    then ok effective
    else cap_effort p.over_limit max (adapt_effort mapped platform canonical)

unfoldable pub write_effort : Text → Text → String → Fields → Fields
write_effort value effective name object =
    if effective == value then object else put name (str effective) object

-- One field of an object that may hold an effort.
unfoldable pub apply_field : Policy → Text → String → String → Fields → Result Fields
apply_field p model platform name object = elim (as_text (get name object)) [
  | none ↦ ok object
  | some value ↦ if trim_space value == [] then ok object else do
    effective ←
        decide_effort p platform (effective_max p platform)
          (mapped_effort p.mappings (trim_space value) model)
    ok (write_effort value effective name object)
]

-- A field of a nested object. Writing an unchanged object back leaves the map as it was.
unfoldable pub apply_nested : Policy → Text → String → String → String → Fields → Result Fields
apply_nested p model platform outer name body = elim (as_object (get outer body)) [
  | none ↦ ok body
  | some object ↦ do
    changed ← apply_field p model platform name object
    ok (put outer (obj changed) body)
]

-- `(reasoningPolicy).apply`.
unfoldable pub apply : Policy → Fields → Text → String → Result Fields
apply p body model platform =
    if not (platform == "openai" || platform == "anthropic")
      || (p.max_effort == [] && length p.mappings == 0)
    then ok body
    else do
      first ← apply_nested p model platform "reasoning" "effort" body
      second ← apply_field p model platform "reasoning_effort" first
      apply_nested p model platform "output_config" "effort" second
