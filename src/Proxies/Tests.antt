-- ===== src/Proxies/Tests.antt =====
-- A chain of two proxies.
use lite_api.Common.{◌≡◌, refl, inl, inr, none, some, true, false, arith, nat_beq, if◌then◌else◌}
use lite_api.Common.Errors.{ok}
use lite_api.Proxies.{Proxy, LoadProxy, resolve_proxy_target, is_usable, is_fresh}
use lite_api.Proxies.Chain.{Reaches, resolve_proxy_target_iff}

abbrev old : Proxy
old = record { proxy_id = 1; status = "expired"; mode = "proxy"; expires = some 5; backup = some 2 }

abbrev fresh : Proxy
fresh = record { proxy_id = 2; status = "active"; mode = "none"; expires = none; backup = none }

abbrev stored : LoadProxy
stored id = ok (if nat_beq id 1 then some old else if nat_beq id 2 then some fresh else none)

old_unusable : is_usable 7 old ≡ false
unfolding is_usable is_fresh
old_unusable = refl

fresh_usable : is_usable 7 fresh ≡ true
unfolding is_usable is_fresh
fresh_usable = refl

-- A second hop leads to the fresh proxy.
chain : Reaches stored 7 1 1 (some fresh)
chain = (old, 2, refl, old_unusable, refl, refl, (fresh, refl, inl (fresh_usable, refl)))

resolve_proxy_target_iff_example : resolve_proxy_target stored 1 7 ≡ ok (some fresh)
resolve_proxy_target_iff_example =
    (resolve_proxy_target_iff stored 1 7 (some fresh)).1
      ((old, refl, inr refl), (1, omega arith, chain))
