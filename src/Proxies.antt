-- ===== src/Proxies.antt =====
-- The proxy behind which an account is called: `resolveProxyTarget` of internal/app/proxy_fallback.go,
-- which follows the backup of a proxy that cannot be used. `loadProxyTarget` is one SELECT and a
-- parameter: an error, no row, or the row. Times are numbers of one clock.
pub mod Turns
pub mod Chain
mod Tests
use lite_api.Common.{
  ℕ, zero, suc, ltb, if◌then◌else◌, ◌==◌, nat_eq, string_eq, String, Bool, true, false, not, ◌&&◌,
  ◌||◌, List, [], ◌∷◌, Option, none, some, contains,
}
use lite_api.Common.Errors.{Result, ok, err, ◌>>=◌, ◌>>◌, fail_if, bad}

pub record Proxy : Type 0 where
  pub proxy_id : ℕ
  pub status : String
  pub mode : String
  pub expires : Option ℕ
  pub backup : Option ℕ

abbrev pub LoadProxy : Type 0
LoadProxy = ℕ → Result (Option Proxy)

-- `p.Expires == nil || p.Expires.After(at)`.
unfoldable pub is_fresh : ℕ → Option ℕ → Bool
is_fresh at none = true
is_fresh at (some expires) = ltb at expires

-- The test that selects a proxy for a connection.
unfoldable pub is_usable : ℕ → Proxy → Bool
is_usable at p = p.status == "active" && is_fresh at p.expires

-- What the loop does with a proxy that it has loaded.
pub data Hop : Type 0 where
  connect : Hop
  direct : Hop
  follow : ℕ → Hop
  stuck : Hop

unfoldable pub follow_backup : Option ℕ → Hop
follow_backup none = stuck
follow_backup (some id) = follow id

unfoldable pub hop : ℕ → Proxy → Hop
hop at p =
    if is_usable at p
    then connect
    else if p.mode == "direct"
    then direct
    else if p.mode == "proxy"
    then follow_backup p.backup
    else stuck

-- `len(seen) == 0`.
unfoldable pub is_first : List ℕ → Bool
is_first [] = true
is_first (id ∷ ids) = false

-- The test of the root: only an active or an expired one may be replaced.
unfoldable pub is_inactive_root : List ℕ → Proxy → Bool
is_inactive_root seen p = is_first seen && not (p.status == "active") && not (p.status == "expired")

-- The loop: `left` is 9 less the number of the IDs seen.
unfoldable pub proxy_loop : LoadProxy → ℕ → List ℕ → ℕ → ℕ → Result (Option Proxy)
proxy_loop load at seen id zero = err (bad "proxy fallback chain is too long")
proxy_loop load at seen id (suc left) = do
  fail_if (contains seen id) (bad "proxy fallback cycle")
  elim (load id) [
    | err e ↦ err e
    | ok none ↦ err (bad "proxy is unavailable")
    | ok (some p) ↦ do
      fail_if (is_inactive_root seen p) (bad "proxy is inactive")
      elim (hop at p) [
        | connect ↦ ok (some p)
        | direct ↦ ok none
        | follow backup ↦ proxy_loop load at (id ∷ seen) backup left
        | stuck ↦ err (bad "proxy fallback is unavailable")
      ]
  ]

-- `resolveProxyTarget`: the proxy, or none for a direct connection.
unfoldable pub resolve_proxy_target : LoadProxy → ℕ → ℕ → Result (Option Proxy)
resolve_proxy_target load id at = proxy_loop load at [] id 9
