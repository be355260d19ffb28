-- ===== src/Mapping.antt =====
-- The model that an account is asked for: `resolveModelMappingFor` of internal/app/upstream.go. A
-- credential is a member of the account's JSON; a mapping is the list of the entries of its map.
pub mod Targets
mod Tests
use lite_api.Common.{
  ℕ, ltb, if◌then◌else◌, ◌==◌, nat_eq, text_eq, Text, text_beq, Bool, true, false, not, ◌&&◌, ◌||◌,
  List, [], ◌∷◌, Option, none, some, length, codes,
}
use lite_api.Common.Strings.{byte_len, has_prefix, trim_star, ends_in_star}
use lite_api.Common.Errors.{Result, ok, err, ◌>>=◌, bad}

abbrev pub ModelMap : Type 0
ModelMap = List (Text × Text)

-- A credential: missing, not a map of texts, or a map.
pub data Credential : Type 0 where
  absent : Credential
  malformed : Credential
  mapping : ModelMap → Credential

unfoldable pub model_at : Text → ModelMap → Option Text
model_at key [] = none
model_at key ((from, to) ∷ rest) = if from == key then some to else model_at key rest

unfoldable pub text_before : Text → Text → Bool
text_before s [] = false
text_before [] (d ∷ t) = true
text_before (c ∷ s) (d ∷ t) = ltb c d || (c == d && text_before s t)

-- The order of the patterns: the longer one first, then by text.
unfoldable pub pattern_before : Text → Text → Bool
pattern_before a b =
    if byte_len a == byte_len b then text_before a b else ltb (byte_len b) (byte_len a)

unfoldable pub insert_pattern : Text → List Text → List Text
insert_pattern p [] = p ∷ []
insert_pattern p (q ∷ qs) = if pattern_before p q then p ∷ q ∷ qs else q ∷ insert_pattern p qs

-- The sorted patterns of a mapping.
unfoldable pub star_patterns : ModelMap → List Text
star_patterns [] = []
star_patterns ((from, to) ∷ rest) =
    if ends_in_star from then insert_pattern from (star_patterns rest) else star_patterns rest

unfoldable pub first_covering : Text → List Text → Option Text
first_covering name [] = none
first_covering name (p ∷ ps) =
    if has_prefix name (trim_star p) then some p else first_covering name ps

-- A mapped model, and whether a rule gave it.
unfoldable pub exact_value : Text → Text → Text × Bool
exact_value name value = (if value == [] then name else value, true)

unfoldable pub star_value : Text → Option Text → Text × Bool
star_value name none = (name, true)
star_value name (some value) = (if value == [] || value == codes "*" then name else value, true)

unfoldable pub resolve_pattern : ModelMap → Text → Bool → Option Text → Result (Text × Bool)
resolve_pattern entries name strict (some pattern) = ok (star_value name (model_at pattern entries))
resolve_pattern entries name strict none =
    if strict then err (bad "model is not allowed by this account") else ok (name, false)

unfoldable pub resolve_entries : ModelMap → Text → Bool → Result (Text × Bool)
resolve_entries entries name strict =
    if length entries == 0 then ok (name, false) else elim (model_at name entries) [
      | some value ↦ ok (exact_value name value)
      | none ↦ resolve_pattern entries name strict (first_covering name (star_patterns entries))
    ]

-- The inner function `resolve`.
unfoldable pub resolve_credential : Credential → Text → Bool → Result (Text × Bool)
resolve_credential absent name strict = ok (name, false)
resolve_credential malformed name strict = err (bad "invalid model mapping")
resolve_credential (mapping entries) name strict = resolve_entries entries name strict

-- After the mapping of the account: the compact mapping of the mapped model, if it has a rule.
unfoldable pub compact_again : Credential → Text × Bool → Result (Text × Bool)
compact_again compact (mapped, matched) = do
  again ← resolve_credential compact mapped false
  ok (if again.1 then (again.0, true) else (mapped, matched))

-- `resolveModelMappingFor` on the two credentials.
unfoldable pub resolve_model_mapping : Credential → Credential → Text → Bool → Result (Text × Bool)
resolve_model_mapping compact_mapping model_mapping model false =
    resolve_credential model_mapping model true
resolve_model_mapping compact_mapping model_mapping model true = do
  first ← resolve_credential compact_mapping model false
  if first.1 then ok first else (do
    second ← resolve_credential model_mapping model true
    compact_again compact_mapping second)
