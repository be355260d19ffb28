-- ===== src/GroupFallback/Tests.antt =====
-- A group for Claude Code with one fallback.
use lite_api.Common.{◌≡◌, refl, none, some, true, false, arith, nat_beq, if◌then◌else◌, contains}
use lite_api.Common.Errors.{ok}
use lite_api.GroupFallback.{
  GroupRow, OwnRow, LoadGroup, ClientPolicy, routable_platform, is_target, is_serving, found_group,
  follow_groups, check_chain, validate_fallback, resolve_client_group, other_protocol,
  grok_search_protocol, voice_protocol, audio_protocol,
}
use lite_api.GroupFallback.Chains.{Covers, validate_fallback_iff}
use lite_api.GroupFallback.Routing.{
  Serves, resolve_client_group-Serves, validate_fallback-resolve_client_group,
}
use lite_api.Models.{supported_platform}

abbrev own : OwnRow
own = record { own_code_only = true; own_fallback = some 2; referenced = false }

abbrev code_group : GroupRow
code_group = record {
  group_id = 1;
  platform = "anthropic";
  status = "active";
  subscription = "standard";
  oauth_only = false;
  code_only = true;
  fallback = some 2;
}

abbrev open_group : GroupRow
open_group = record {
  group_id = 2;
  platform = "anthropic";
  status = "active";
  subscription = "standard";
  oauth_only = false;
  code_only = false;
  fallback = none;
}

abbrev stored : LoadGroup
stored id =
    ok (if nat_beq id 1 then some code_group else if nat_beq id 2 then some open_group else none)

abbrev messages : ClientPolicy
messages = record { protocol = "anthropic"; code = false }

-- The other protocols are refused.
plain : other_protocol "anthropic" ≡ false
unfolding other_protocol grok_search_protocol voice_protocol audio_protocol
plain = refl

proper : is_target open_group ≡ true
unfolding is_target routable_platform supported_platform
proper = refl

covered : Covers stored 1 (some 2)
covered = (2, open_group, refl, refl, proper, refl)

validate_fallback_iff_example : validate_fallback (ok own) stored 1 true ≡ ok tt
validate_fallback_iff_example =
    (validate_fallback_iff own stored 1 code_group refl refl).1 (refl, (1, omega arith, covered))

resolved : resolve_client_group stored (some messages) code_group ≡ ok (some open_group)
unfolding resolve_client_group follow_groups found_group is_serving routable_platform
    supported_platform other_protocol grok_search_protocol voice_protocol audio_protocol contains
resolved = refl

resolve_client_group-Serves_example : Serves stored open_group
resolve_client_group-Serves_example =
    resolve_client_group-Serves stored (some messages) code_group open_group resolved

validated : validate_fallback (ok own) stored 1 true ≡ ok tt
unfolding validate_fallback check_chain is_target routable_platform supported_platform contains
validated = refl

validate_fallback-resolve_client_group_example :
    resolve_client_group stored (some messages) code_group ≡ ok (some open_group)
validate_fallback-resolve_client_group_example =
    validate_fallback-resolve_client_group own stored messages code_group open_group 2 validated
      refl refl refl refl refl plain refl
