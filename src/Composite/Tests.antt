-- ===== src/Composite/Tests.antt =====
-- Composite groups at concrete routes.
use mathlib.Core.Logic.{◌↔◌}
use lite_api.Common.{
  none, ℕ, ◌≡◌, refl, sym, ◌∙◌, inl, inr, Text, codes, String, true, false, contains, List, [], ◌∷◌,
  some, In, arith, text_beq,
}
use lite_api.Common.Int.{pos}
use lite_api.Common.Strings.{has_prefix, trim_space, to_lower, trim_prefix, cut_slash, trim_star}
use lite_api.Models.{supported_platform, concrete_model, valid_model_pattern}
use lite_api.Composite.{
  Route, CompositeConfig, resolve, owner_of, load_owners, best_route, eligible, improves,
  better_route, detect_model_platform, cut_platform, name_platform, provider_platform,
  prefix_platform, short_name_platform, row_platform, claim, set_owner,
}
use lite_api.Composite.Choice.{IsBest}
use lite_api.Composite.Decisions.{HasDistinctIds, resolve-IsBest, resolve_order}
use lite_api.Selection.Matching.{
  chat_responses_platform, messages_chat_platform, chat_anthropic_platform,
}
use lite_api.Composite.Targets.Endpoints.{catalog_endpoints, plain_endpoints}
use lite_api.Composite.Targets.{
  composite_model_targets, gather_targets, add_target, is_callable, IsReached,
  composite_model_targets-resolve,
}
use lite_api.Composite.Loading.{read_rows, load_composite_owners}
use lite_api.Common.Errors.{err, api_error}
use lite_api.Composite.Owners.{claims, verdict, load_owners-verdict, resolve-load_owners_supported}

abbrev wide : Route
wide = record {
  config = record {
    public_model = codes "gpt-";
    match_type = "prefix";
    target_platform = "openai";
    upstream_model = [];
    endpoint = "any";
    priority = pos 100;
    enabled = true;
  };
  id = 1;
}

abbrev exact : Route
exact = record {
  config = record {
    public_model = codes "gpt-5";
    match_type = "exact";
    target_platform = "grok";
    upstream_model = codes "grok-4";
    endpoint = "responses";
    priority = pos 100;
    enabled = true;
  };
  id = 2;
}

abbrev two_routes : CompositeConfig
two_routes = record { routes = wide ∷ exact ∷ []; owners = [] }

abbrev swapped : CompositeConfig
swapped = record { routes = exact ∷ wide ∷ []; owners = [] }

-- What a run of `resolve` on routes opens.
runs : ℕ
unfolding resolve best_route eligible improves better_route has_prefix text_beq supported_platform
    owner_of
runs = 0

exact_wins : (resolve two_routes 7 (codes "gpt-5") "responses").target_platform ≡ "grok"
unfolding runs
exact_wins = refl

prefix_elsewhere : (resolve two_routes 7 (codes "gpt-5") "messages").upstream_model ≡ codes "gpt-5"
unfolding runs
prefix_elsewhere = refl

detected : detect_model_platform (codes " Models/Claude-opus") ≡ "anthropic"
unfolding runs detect_model_platform cut_platform name_platform provider_platform prefix_platform
    short_name_platform row_platform trim_space to_lower trim_prefix cut_slash
detected = refl

resolve-IsBest_example : IsBest (codes "gpt-5") "responses" (wide ∷ exact ∷ []) exact
resolve-IsBest_example =
    resolve-IsBest two_routes 7 (codes "gpt-5") "responses" exact (unfold runs in refl)

distinct : HasDistinctIds (wide ∷ exact ∷ [])
distinct a b (inl p) (inl q) e = p ∙ sym q
distinct a b (inl p) (inr (inl q)) e = absurd (ground arith)
distinct a b (inr (inl p)) (inl q) e = absurd (ground arith)
distinct a b (inr (inl p)) (inr (inl q)) e = p ∙ sym q
distinct a b (inl p) (inr (inr q)) e = elim q [ ]
distinct a b (inr (inr p)) q e = elim p [ ]
distinct a b (inr (inl p)) (inr (inr q)) e = elim q [ ]

same_routes : (r : Route) → In r (wide ∷ exact ∷ []) ↔ In r (exact ∷ wide ∷ [])
same_routes r = (to r, from r)
  where
    to : (r : Route) → In r (wide ∷ exact ∷ []) → In r (exact ∷ wide ∷ [])
    to r (inl p) = inr (inl p)
    to r (inr (inl p)) = inl p
    to r (inr (inr p)) = elim p [ ]

    from : (r : Route) → In r (exact ∷ wide ∷ []) → In r (wide ∷ exact ∷ [])
    from r (inl p) = inr (inl p)
    from r (inr (inl p)) = inl p
    from r (inr (inr p)) = elim p [ ]

resolve_order_example :
    resolve two_routes 7 (codes "gpt-5") "responses" ≡ resolve swapped 7 (codes "gpt-5") "responses"
resolve_order_example =
    resolve_order two_routes swapped 7 (codes "gpt-5") "responses" distinct same_routes refl

abbrev rows : List (String × List (Text × Text))
rows =
    ("openai", (codes "fast", codes "gpt-5") ∷ [])
    ∷ ("grok", (codes "fast", codes "grok-4") ∷ (codes "deep", codes "grok-4") ∷ [])
    ∷ []

load_owners-verdict_example :
    owner_of (codes "fast") (load_owners rows []) ≡ verdict (claims (codes "fast") rows)
load_owners-verdict_example = load_owners-verdict rows (codes "fast")

-- A mapping that cannot be read counts on a platform that is supported.
unread :
    load_composite_owners (("bedrock", none) ∷ ("openai", none) ∷ [])
    ≡ err (api_error 503 "invalid account model mapping")
unfolding runs load_composite_owners read_rows
unread = refl

shared_alias : owner_of (codes "fast") (load_owners rows []) ≡ some ""
unfolding runs load_owners claim set_owner concrete_model valid_model_pattern trim_space trim_star
shared_alias = refl

resolve-load_owners_supported_example :
    supported_platform
      (resolve
        (record { routes = wide ∷ []; owners = load_owners rows [] })
        7
        (codes "gpt-5")
        "any").target_platform
    ≡ true
resolve-load_owners_supported_example =
    resolve-load_owners_supported (wide ∷ []) rows 7 (codes "gpt-5") "any" (unfold runs in refl)

-- The exact route of the endpoint `responses` counts for grok; the wide one leads to openai.
grok_targets :
    composite_model_targets (some two_routes) 7 (codes "gpt-5") "grok" "responses" false
    ≡ codes "grok-4" ∷ []
unfolding runs composite_model_targets catalog_endpoints plain_endpoints gather_targets add_target
    is_callable chat_responses_platform messages_chat_platform chat_anthropic_platform contains
grok_targets = refl

composite_model_targets-resolve_example :
    In
      (codes "grok-4")
      (composite_model_targets (some two_routes) 7 (codes "gpt-5") "grok" "responses" false)
    ↔ IsReached two_routes 7 (codes "gpt-5") "grok" "responses" false (codes "grok-4")
composite_model_targets-resolve_example =
    composite_model_targets-resolve two_routes 7 (codes "gpt-5") "grok" "responses" false
      (codes "grok-4")
