-- ===== src/Proxies/Turns.antt =====
-- One turn of the loop of `resolveProxyTarget`.
use lite_api.Common.{
  ℕ, suc, ◌≡◌, ◌≢◌, refl, ◌⊎◌, inl, inr, ◌↔◌, nat_eq, string_eq, true, false, List, ◌∷◌, Option,
  none, some, contains, arith, eq_iff, Bool-cases,
}
use lite_api.Common.Errors.{ok, Result-cases}
use lite_api.Proxies.{
  Proxy, LoadProxy, is_usable, hop, Hop, connect, direct, follow, stuck, follow_backup,
  is_inactive_root, proxy_loop,
}

-- A proxy at which a chain ends, and with what: with itself if it is usable, and with a direct
-- connection if it is not and its mode says so.
abbrev pub EndsIn : ℕ → Proxy → Option Proxy → Type 0
EndsIn at p out =
    ((is_usable at p ≡ true) × (out ≡ some p))
    ⊎ ((is_usable at p ≡ false) × (p.mode ≡ "direct") × (out ≡ none))

pub EndsIn-hop :
    (at : ℕ) (p : Proxy) (out : Option Proxy)
    → EndsIn at p out
    → ((hop at p ≡ connect) × (out ≡ some p)) ⊎ ((hop at p ≡ direct) × (out ≡ none))
unfolding hop
EndsIn-hop at p out (inl (u, o)) = ground arith
EndsIn-hop at p out (inr (u, m, o)) = ground (arith, eq_iff p.mode "direct")

follow_backup-eq : (b : Option ℕ) (id : ℕ) → (follow_backup b ≡ follow id) ↔ (b ≡ some id)
unfolding follow_backup
follow_backup-eq none id = ground arith
follow_backup-eq (some j) id = ground arith

follow_backup-neq : (b : Option ℕ) → (follow_backup b ≢ connect) × (follow_backup b ≢ direct)
unfolding follow_backup
follow_backup-neq none = ground arith
follow_backup-neq (some j) = ground arith

pub hop-follow :
    (at : ℕ) (p : Proxy) (id : ℕ)
    → (hop at p ≡ follow id)
      ↔ ((is_usable at p ≡ false) × (p.mode ≡ "proxy") × (p.backup ≡ some id))
unfolding hop
hop-follow at p id = ground (
  arith,
  eq_iff p.mode "direct",
  eq_iff p.mode "proxy",
  eq_iff "proxy" "direct",
  follow_backup-eq p.backup id,
)

pub hop-connect : (at : ℕ) (p : Proxy) → hop at p ≡ connect → is_usable at p ≡ true
unfolding hop
hop-connect at p h = ground (arith, follow_backup-neq p.backup)

pub hop-direct :
    (at : ℕ) (p : Proxy) → hop at p ≡ direct → (is_usable at p ≡ false) × (p.mode ≡ "direct")
unfolding hop
hop-direct at p h = ground (arith, follow_backup-neq p.backup, eq_iff p.mode "direct")

-- One turn of the loop that returns a result.
abbrev pub Turns : LoadProxy → ℕ → List ℕ → ℕ → ℕ → Option Proxy → Type 0
Turns load at seen id left out =
    (p : Proxy) × (contains seen id ≡ false)
    × (load id ≡ ok (some p))
    × (is_inactive_root seen p ≡ false)
    × (((hop at p ≡ connect) × (out ≡ some p))
        ⊎ ((hop at p ≡ direct) × (out ≡ none))
        ⊎ ((backup : ℕ) × (hop at p ≡ follow backup)
            × (proxy_loop load at (id ∷ seen) backup left ≡ ok out)))

Hop-cases : (h : Hop) → (h ≡ connect) ⊎ (h ≡ direct) ⊎ ((id : ℕ) × (h ≡ follow id)) ⊎ (h ≡ stuck)
Hop-cases connect = inl refl
Hop-cases direct = inr (inl refl)
Hop-cases (follow id) = inr (inr (inl (id, refl)))
Hop-cases stuck = inr (inr (inr refl))

pub proxy_loop-Turns :
    (load : LoadProxy) (at : ℕ) (seen : List ℕ) (id left : ℕ) (out : Option Proxy)
    → proxy_loop load at seen id (suc left) ≡ ok out
    → Turns load at seen id left out
unfolding proxy_loop
proxy_loop-Turns load at seen id left out h = elim (Bool-cases (contains seen id)) [
  | inl c ↦ ground arith
  | inr c ↦ elim (Result-cases (load id)) [
    | inr (e, failed) ↦ ground arith
    | inl (none, missing) ↦ ground arith
    | inl (some p, found) ↦ elim (Bool-cases (is_inactive_root seen p)) [
      | inl off ↦ ground arith
      | inr on ↦ elim (Hop-cases (hop at p)) [
        | inl e ↦ ground arith
        | inr (inl e) ↦ ground arith
        | inr (inr (inl (id', e))) ↦ ground arith
        | inr (inr (inr e)) ↦ ground arith
      ]
    ]
  ]
]

pub Turns-proxy_loop :
    (load : LoadProxy) (at : ℕ) (seen : List ℕ) (id left : ℕ) (out : Option Proxy)
    → Turns load at seen id left out
    → proxy_loop load at seen id (suc left) ≡ ok out
unfolding proxy_loop
Turns-proxy_loop load at seen id left out (p, c, found, on, inl (e, o)) = ground arith
Turns-proxy_loop load at seen id left out (p, c, found, on, inr (inl (e, o))) = ground arith
Turns-proxy_loop load at seen id left out (p, c, found, on, inr (inr (b, e, rest))) = ground arith
