-- ===== src/Selection/Tests.antt =====
-- Two accounts, of which the second is in the pool of the model.
use lite_api.Common.{
  ℕ, nat_eq, ◌≡◌, ◌↔◌, refl, codes, true, false, [], ◌∷◌, none, some, List, In, arith, text_beq,
  contains,
}
use lite_api.Common.Strings.{has_prefix, trim_prefix, cut_slash}
use lite_api.GroupFallback.{grok_search_protocol, audio_protocol, voice_protocol}
use lite_api.Mapping.{absent, model_at, resolve_credential, resolve_model_mapping}
use lite_api.Quotas.Accounts.{
  Limit, extra_number, quota_expired, is_over, at_least, leaves_some, account_quota_available,
}
use lite_api.Slots.{Gate, kind_beq, key_beq, write, take_slot, release_slot}
use lite_api.Selection.Profit.{profit_allows}
use lite_api.Selection.Matching.{
  no_capabilities, Grants, Loaded, chat_responses_platform, messages_chat_platform,
  chat_anthropic_platform, protocol_of, has_capability, capable, allows_protocol, supports_seedance,
  all_granted, allows_resources, is_translated, is_text_wire, special_match, is_match,
  is_allowed_by, id_rune, valid_response_id, is_compact_path, is_compact_part, is_compaction,
}
use lite_api.Selection.Order.{
  Candidate, at_least_one, capacity_of, is_lighter, same_priority, insert, sort_stable, by_load,
  is_sticky, has_sticky, goes_first, ordered,
}
use lite_api.Selection.Loop.{
  Plan, rate_now, Visit, Choice, selected, is_bound, is_bound_to, is_candidate, has_price, succeeds,
  mapped_name, dispatched_name, model_name, upstream_name, acceptable, confirm_rate, confirm,
  first_busy, try_slot, try_loaded, turn, end_of, choose, visits, choose_account,
}
use lite_api.Selection.Slot.{IsSettledChoice, choose-IsSettledChoice}
use lite_api.Selection.Preferred.{IsPoolFirst, ordered-IsPoolFirst}

abbrev no_grants : Grants
no_grants = record { target = []; ids = none }

abbrev unlimited : Limit
unlimited = record {
  limit = none;
  used = none;
  reset_mode = [];
  started = none;
  reset_at = none;
  reset_hour = none;
}

abbrev loaded : ℕ → Loaded
loaded id = record {
  id = id;
  platform = "openai";
  account_type = "apikey";
  api_protocol = "responses";
  has_base_url = true;
  target = codes "t";
  capability = no_capabilities;
  stores = no_grants;
  files = no_grants;
  skills = no_grants;
  socket_eligible = false;
  compact_mapping = absent;
  model_mapping = absent;
  extra = record {
    total_limit = none;
    total_used = none;
    daily = unlimited;
    weekly = unlimited;
    reset_day = none;
    timezone = [];
  };
}

abbrev plan : Plan
plan = record {
  ask = record {
    protocol = "responses";
    model = codes "gpt-5";
    action = [];
    count_only = false;
    native_compaction = false;
    on_socket = false;
    has_references = false;
    background = false;
    hosted_search = false;
    native_tools = false;
    vector_stores = [];
    file_ids = [];
    skill_ids = [];
  };
  excluded = [];
  binding = none;
  threshold = none;
  channel_model = codes "gpt-5";
  dispatch_model = [];
  fallback_priced = none;
  upstream_priced = none;
  now = 100;
}

abbrev candidate : ℕ → Candidate
candidate id = record {
  id = id;
  concurrency = 2;
  load_factor = none;
  group_priority = 1;
  priority = 1;
  rate = codes "1";
}

abbrev idle : Gate
idle = record {
  active = λ k. 0;
  waiting = λ k. 0;
  queued = 0;
  stopped = false;
  instance_lost = false;
  wake = 0;
}

abbrev rows : List Candidate
rows = candidate 4 ∷ candidate 7 ∷ []

abbrev tried : List Visit
tried = visits (λ c. some (loaded c.id)) (λ c. rate_now c.rate) (ordered idle (7 ∷ []) none rows)

-- What the tests run.
runs : ℕ
unfolding has_prefix trim_prefix cut_slash grok_search_protocol audio_protocol voice_protocol
    model_at resolve_credential resolve_model_mapping extra_number quota_expired is_over at_least
    leaves_some account_quota_available kind_beq key_beq write take_slot release_slot profit_allows
    chat_responses_platform messages_chat_platform chat_anthropic_platform protocol_of
    has_capability capable allows_protocol supports_seedance all_granted allows_resources
    is_translated is_text_wire special_match is_match is_allowed_by id_rune valid_response_id
    is_compact_path is_compact_part is_compaction at_least_one capacity_of is_lighter same_priority
    insert sort_stable by_load is_sticky has_sticky goes_first ordered is_bound is_bound_to
    is_candidate has_price succeeds mapped_name dispatched_name model_name upstream_name acceptable
    confirm_rate confirm first_busy try_slot try_loaded turn end_of choose visits choose_account
    text_beq contains
runs = 0

abbrev account_of : Choice → ℕ
account_of (selected s) = s.account_id
account_of _ = 0

-- The account of the pool is chosen.
pool_chosen :
    account_of
      (choose_account plan
        (7 ∷ [])
        none
        (λ c. some (loaded c.id))
        (λ c. rate_now c.rate)
        rows
        idle).1
    ≡ 7
unfolding runs
pool_chosen = refl

choose-IsSettledChoice_example :
    IsSettledChoice plan tried idle (choose plan tried idle none).0 (choose plan tried idle none).1
choose-IsSettledChoice_example = choose-IsSettledChoice plan tried idle none

ordered-IsPoolFirst_example :
    IsPoolFirst (7 ∷ []) (ordered idle (7 ∷ []) none rows)
    × ((c : Candidate) → In c (ordered idle (7 ∷ []) none rows) ↔ In c rows)
ordered-IsPoolFirst_example = ordered-IsPoolFirst idle (7 ∷ []) none rows (omega arith)
