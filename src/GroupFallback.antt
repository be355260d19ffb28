-- ===== src/GroupFallback.antt =====
-- Groups that delegate to a fallback group: `validateGroupFallback`, which guards the write of a group,
-- and `resolveClientGroup`, which follows the stored chain for a call, of
-- internal/app/group_fallback.go, with the protocol tests of grok_search.go and grok_audio.go. A SELECT
-- is a parameter: an error, no row, or the row of a group that is not deleted.
pub mod Chains
pub mod Routing
mod Tests
use lite_api.Common.{
  ℕ, zero, suc, if◌then◌else◌, ◌==◌, nat_eq, string_eq, String, Bool, true, false, not, ◌&&◌, ◌||◌,
  List, [], ◌∷◌, Option, none, some, contains,
}
use lite_api.Common.Errors.{Result, ok, err, ◌>>=◌, ◌>>◌, fail_if, bad, api_error}
use lite_api.Models.{supported_platform}

pub record GroupRow : Type 0 where
  pub group_id : ℕ
  pub platform : String
  pub status : String
  pub subscription : String
  pub oauth_only : Bool
  pub code_only : Bool
  pub fallback : Option ℕ

-- The row of the group that is written, and whether another group falls back to it.
pub record OwnRow : Type 0 where
  pub own_code_only : Bool
  pub own_fallback : Option ℕ
  pub referenced : Bool

abbrev pub LoadGroup : Type 0
LoadGroup = ℕ → Result (Option GroupRow)

unfoldable pub routable_platform : String → Bool
routable_platform platform = supported_platform platform || platform == "composite"

-- The test of a fallback target.
unfoldable pub is_target : GroupRow → Bool
is_target r =
    routable_platform r.platform
    && r.subscription == "standard"
    && not r.oauth_only
    && not r.code_only

-- The loop of `validateGroupFallback`: `left` is 33 less the number of the IDs seen.
unfoldable pub check_chain : LoadGroup → List ℕ → Option ℕ → ℕ → Result (Unit {0})
check_chain load seen none left = ok tt
check_chain load seen (some id) zero = err (bad "fallback group cycle or excessive chain")
check_chain load seen (some id) (suc left) = do
  fail_if (contains seen id) (bad "fallback group cycle or excessive chain")
  elim (load id) [
    | err e ↦ err e
    | ok none ↦ err (bad "fallback group does not exist")
    | ok (some r) ↦ do
      fail_if (not (is_target r))
          (bad "fallback must be a supported API key group without claude_code_only")
      check_chain load (id ∷ seen) r.fallback left
  ]

unfoldable pub validate_fallback : Result OwnRow → LoadGroup → ℕ → Bool → Result (Unit {0})
validate_fallback own load id check_target = do
  row ← own
  fail_if (row.own_code_only && row.referenced)
      (bad "a fallback target cannot enable claude_code_only")
  if check_target then check_chain load (id ∷ []) row.own_fallback 32 else ok tt

-- `clientPolicy`: the protocol of the call, and whether the client is Claude Code.
pub record ClientPolicy : Type 0 where
  pub protocol : String
  pub code : Bool

unfoldable pub grok_search_protocol : String → Bool
grok_search_protocol protocol = protocol == "web_search" || protocol == "x_search"

unfoldable pub audio_protocol : String → Bool
audio_protocol protocol = protocol == "tts" || protocol == "stt"

unfoldable pub voice_protocol : String → Bool
voice_protocol protocol = audio_protocol protocol || protocol == "realtime"

-- The protocols that a group for Claude Code refuses.
unfoldable pub other_protocol : String → Bool
other_protocol protocol =
    protocol == "videos"
    || protocol == "seedance"
    || protocol == "chat_completions"
    || protocol == "responses"
    || protocol == "embeddings"
    || protocol == "alpha_search"
    || grok_search_protocol protocol
    || voice_protocol protocol
    || protocol == "custom-voices"

-- The WHERE of the SELECT in `resolveClientGroup`.
unfoldable pub is_serving : GroupRow → Bool
is_serving r = r.status == "active" && r.subscription == "standard" && not r.oauth_only

-- What one turn of the loop does with the row of the fallback.
unfoldable pub found_group : Option GroupRow → Result GroupRow
found_group none = err (api_error 503 "fallback group is unavailable")
found_group (some r) =
    if not (is_serving r)
    then err (api_error 503 "fallback group is unavailable")
    else if not (routable_platform r.platform)
    then err (api_error 503 "unsupported fallback group platform")
    else ok r

-- The loop of `resolveClientGroup` over a group for Claude Code only and its fallback: `left` is 33
-- less the number of the IDs seen.
unfoldable pub follow_groups : LoadGroup → List ℕ → Bool → Option ℕ → GroupRow → ℕ → Result GroupRow
follow_groups load seen false next group left = ok group
follow_groups load seen true none group left =
    err (api_error 403 "this group only allows Claude Code clients")
follow_groups load seen true (some id) group zero =
    err (api_error 503 "invalid fallback group chain")
follow_groups load seen true (some id) group (suc left) = do
  fail_if (contains seen id) (api_error 503 "invalid fallback group chain")
  row ← load id
  next ← found_group row
  follow_groups load (id ∷ seen) next.code_only next.fallback next left

-- `resolveClientGroup`: the group that routes the call, or none if it is the key's own.
unfoldable pub resolve_client_group :
    LoadGroup → Option ClientPolicy → GroupRow → Result (Option GroupRow)
resolve_client_group load none own = ok none
resolve_client_group load (some policy) own =
    if not own.code_only
    then ok none
    else if other_protocol policy.protocol
    then err (api_error 403 "this group requires the Claude Code Messages endpoint")
    else if policy.code
    then ok none
    else do
      group ← follow_groups load (own.group_id ∷ []) own.code_only own.fallback own 32
      ok (some group)
