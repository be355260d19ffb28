-- ===== src/Proxies/Chain.antt =====
-- `resolveProxyTarget` against the chains of backups that the stored proxies form.
use lite_api.Common.{
  ℕ, zero, suc, ◌≤◌, ◌<◌, ◌≡◌, refl, ◌⊎◌, inl, inr, ◌↔◌, ◌==◌, nat_eq, string_eq, nat_beq_iff, true,
  false, List, [], ◌∷◌, Option, some, contains, arith, eq_iff, Bool-cases, ap,
}
use lite_api.Common.Errors.{ok}
use lite_api.Proxies.{
  Proxy, LoadProxy, is_usable, is_first, is_inactive_root, proxy_loop, resolve_proxy_target,
}
use mathlib.Core.Path.{subst}
use lite_api.Proxies.Turns.{
  EndsIn, EndsIn-hop, hop-follow, hop-connect, hop-direct, proxy_loop-Turns, Turns-proxy_loop,
}

-- A chain of `n` backups, each of a stored proxy that is not usable, from `id` to an end.
abbrev pub Reaches : LoadProxy → ℕ → ℕ → ℕ → Option Proxy → Type 0
Reaches load at zero id out = (p : Proxy) × (load id ≡ ok (some p)) × EndsIn at p out
Reaches load at (suc n) id out =
    (p : Proxy) × (backup : ℕ) × (load id ≡ ok (some p))
    × (is_usable at p ≡ false)
    × (p.mode ≡ "proxy")
    × (p.backup ≡ some backup)
    × Reaches load at n backup out

abbrev pub IsOpenRoot : LoadProxy → ℕ → Type 0
IsOpenRoot load id =
    (p : Proxy) × (load id ≡ ok (some p)) × ((p.status ≡ "active") ⊎ (p.status ≡ "expired"))

-- What the loop returns is the end of a chain that its budget covers.
proxy_loop-Reaches :
    (load : LoadProxy) (at : ℕ) (seen : List ℕ) (id left : ℕ) (out : Option Proxy)
    → proxy_loop load at seen id left ≡ ok out
    → (n : ℕ) × (n < left) × Reaches load at n id out
proxy_loop-Reaches load at seen id zero out h = unfold proxy_loop in cc
proxy_loop-Reaches load at seen id (suc left) out h =
    let (p, c, found, on, turn) = proxy_loop-Turns load at seen id left out h in
    elim turn [
      | inl (e, o) ↦ (0, omega arith, (p, found, inl (hop-connect at p e, o)))
      | inr (inl (e, o)) ↦
          (0, omega arith, (p, found, inr ((hop-direct at p e).0, (hop-direct at p e).1, o)))
      | inr (inr (b, e, rest)) ↦
          let (n, l, chain) = proxy_loop-Reaches load at (id ∷ seen) b left out rest in
          let f = (hop-follow at p b).0 e in
          (suc n, omega arith, (p, b, found, f.0, f.1, f.2, chain))
    ]

-- All chains from a proxy have one length.
Reaches-unique :
    (load : LoadProxy) (at m n id : ℕ) (out out' : Option Proxy)
    → Reaches load at m id out
    → Reaches load at n id out'
    → m ≡ n
Reaches-unique load at zero zero id out out' r s = refl
Reaches-unique load at zero (suc n) id out out' (p, found, end) (q, b, found', u, m, k, s) =
    ground (arith, eq_iff "proxy" "direct")
Reaches-unique load at (suc m) zero id out out' (q, b, found', u, k, e, s) (p, found, end) =
    ground (arith, eq_iff "proxy" "direct")
Reaches-unique load at (suc m) (suc n) id out out' (p, b, f, u, k, e, r) (q, c, f', u', k', e', s) =
    ap suc (Reaches-unique load at m n b out out' r (subst (λ i. Reaches load at n i out') same s))
  where
    same : c ≡ b
    same = cc

-- Every proxy seen has a chain to the end that is longer than `n`.
abbrev IsBehind : LoadProxy → ℕ → ℕ → List ℕ → Option Proxy → Type 0
IsBehind load at n seen out =
    (s : ℕ) → contains seen s ≡ true → (m : ℕ) × (n < m) × Reaches load at m s out

IsBehind-unseen :
    (load : LoadProxy) (at n : ℕ) (seen : List ℕ) (id : ℕ) (out : Option Proxy)
    → IsBehind load at n seen out
    → Reaches load at n id out
    → contains seen id ≡ false
IsBehind-unseen load at n seen id out behind chain = elim (Bool-cases (contains seen id)) [
  | inr unseen ↦ unseen
  | inl old ↦
      let (m, l, longer) = behind id old in
      let same = Reaches-unique load at m n id out out longer chain in absurd (omega arith)
]

IsBehind-insert :
    (load : LoadProxy) (at n : ℕ) (seen : List ℕ) (id : ℕ) (out : Option Proxy)
    → IsBehind load at (suc n) seen out
    → Reaches load at (suc n) id out
    → IsBehind load at n (id ∷ seen) out
IsBehind-insert load at n seen id out behind chain s h = elim (Bool-cases (id == s)) [
  | inl same ↦ (
    suc n,
    omega arith,
    subst (λ i. Reaches load at (suc n) i out) ((nat_beq_iff id s).0 same) chain,
  )
  | inr other ↦
      let (m, l, longer) = behind s (unfold contains in ground arith) in (m, omega arith, longer)
]

-- A chain within the budget is followed to its end, if every proxy seen has a longer one.
Reaches-proxy_loop :
    (load : LoadProxy) (at n : ℕ) (seen : List ℕ) (id left : ℕ) (out : Option Proxy)
    → n < left
    → IsBehind load at n seen out
    → ((p : Proxy) → load id ≡ ok (some p) → is_inactive_root seen p ≡ false)
    → Reaches load at n id out
    → proxy_loop load at seen id left ≡ ok out
Reaches-proxy_loop load at n seen id zero out l behind on chain = absurd (omega arith)
Reaches-proxy_loop load at zero seen id (suc left) out l behind on (p, found, end) =
    let unseen = IsBehind-unseen load at 0 seen id out behind (p, found, end) in
    Turns-proxy_loop load at seen id left out (
      p,
      unseen,
      found,
      on p found,
      elim (EndsIn-hop at p out end) [ inl e ↦ inl e | inr e ↦ inr (inl e) ],
    )
Reaches-proxy_loop load at (suc n) seen id (suc left) out l behind on
      (p, b, found, u, m, k, chain) =
    let whole : Reaches load at (suc n) id out = (p, b, found, u, m, k, chain) in
    let unseen = IsBehind-unseen load at (suc n) seen id out behind whole in
    let rest =
      Reaches-proxy_loop load at n (id ∷ seen) b left out (omega arith)
        (IsBehind-insert load at n seen id out behind whole)
        (λ q _. unfold is_inactive_root is_first in refl) chain in
    Turns-proxy_loop load at seen id left out
      (p, unseen, found, on p found, inr (inr (b, (hop-follow at p b).1 (u, m, k), rest)))

IsOpenRoot-on :
    (load : LoadProxy) (id : ℕ) (p : Proxy)
    → IsOpenRoot load id
    → load id ≡ ok (some p)
    → is_inactive_root [] p ≡ false
unfolding is_inactive_root is_first
IsOpenRoot-on load id p (q, found, status) h =
    ground (arith, eq_iff p.status "active", eq_iff p.status "expired")

open_status :
    (p : Proxy) → is_inactive_root [] p ≡ false → (p.status ≡ "active") ⊎ (p.status ≡ "expired")
unfolding is_inactive_root is_first
open_status p on = ground (arith, eq_iff p.status "active", eq_iff p.status "expired")

none-IsBehind : (load : LoadProxy) (at n : ℕ) (out : Option Proxy) → IsBehind load at n [] out
unfolding contains
none-IsBehind load at n out s old = cc

-- `resolveProxyTarget` gives a proxy, or a direct connection, exactly if the root is active or expired
-- and a chain of at most 8 backups, each of a stored proxy that is not usable, leads from it to that
-- proxy, which is usable, or to a proxy that is not usable and has the mode direct. In every other
-- case, cycles and failing reads included, the result is an error.
pub resolve_proxy_target_iff :
    (load : LoadProxy) (id at : ℕ) (out : Option Proxy)
    → (resolve_proxy_target load id at ≡ ok out)
      ↔ (IsOpenRoot load id × ((n : ℕ) × (n ≤ 8) × Reaches load at n id out))
unfolding resolve_proxy_target
resolve_proxy_target_iff load id at out = (only_if, if_so)
  where
    only_if :
        proxy_loop load at [] id 9 ≡ ok out
        → IsOpenRoot load id × ((n : ℕ) × (n ≤ 8) × Reaches load at n id out)
    only_if h =
        let (p, c, found, on, turn) = proxy_loop-Turns load at [] id 8 out h in
        let (n, l, chain) = proxy_loop-Reaches load at [] id 9 out h in
        ((p, found, open_status p on), (n, omega arith, chain))

    if_so :
        IsOpenRoot load id × ((n : ℕ) × (n ≤ 8) × Reaches load at n id out)
        → proxy_loop load at [] id 9 ≡ ok out
    if_so (root, (n, l, chain)) =
        Reaches-proxy_loop load at n [] id 9 out (omega arith) (none-IsBehind load at n out)
          (λ p found. IsOpenRoot-on load id p root found) chain
