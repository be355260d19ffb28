-- ===== src/Composite/Order.antt =====
-- `betterCompositeRoute` is a strict order on the routes that `resolve` considers.
use lite_api.Common.{
  ℕ, ◌≡◌, sym, ◌∙◌, ◌⊎◌, inl, inr, ltb, if◌then◌else◌, ◌==◌, nat_eq, string_eq, String, Bool, true,
  false, ◌||◌, arith, eq_iff,
}
use lite_api.Common.Strings.{byte_len}
use lite_api.Common.Int.{ℤ, ltz}
use lite_api.Composite.{Route, better_route}

-- A rank decides, and only equal ranks leave the question to `rest`.
abbrev by_rank : ℕ → ℕ → Bool → Bool
by_rank x y rest = if x == y then rest else ltb x y

by_rank_negative :
    (x y z : ℕ) (xy yz xz : Bool)
    → (xz ≡ true → (xy ≡ true) ⊎ (yz ≡ true))
    → by_rank x z xz ≡ true
    → (by_rank x y xy ≡ true) ⊎ (by_rank y z yz ≡ true)
by_rank_negative x y z xy yz xz k h = ground arith

by_rank_asym :
    (x y : ℕ) (xy yx : Bool)
    → (xy ≡ true → yx ≡ false)
    → by_rank x y xy ≡ true
    → by_rank y x yx ≡ false
by_rank_asym x y xy yx k h = ground arith

abbrev by_priority : ℤ → ℤ → Bool → Bool
by_priority p q rest = if ltz p q || ltz q p then ltz p q else rest

by_priority_negative :
    (p q r : ℤ) (pq qr pr : Bool)
    → (pr ≡ true → (pq ≡ true) ⊎ (qr ≡ true))
    → by_priority p r pr ≡ true
    → (by_priority p q pq ≡ true) ⊎ (by_priority q r qr ≡ true)
by_priority_negative p q r pq qr pr k h = ground arith

by_priority_asym :
    (p q : ℤ) (pq qp : Bool)
    → (pq ≡ true → qp ≡ false)
    → by_priority p q pq ≡ true
    → by_priority q p qp ≡ false
by_priority_asym p q pq qp k h = ground arith

abbrev kind : Route → ℕ
kind r = if r.match_type == "exact" then 0 else 1

abbrev off : String → Route → ℕ
off endpoint r = if r.endpoint == endpoint then 0 else 1

-- The match types that pass the tests of `resolve`.
abbrev pub IsKnown : Route → Type 0
IsKnown r = (r.match_type ≡ "exact") ⊎ (r.match_type ≡ "prefix")

by_ranks : Route → Route → String → Bool
by_ranks a b endpoint = by_rank (kind a) (kind b) (
    by_rank (off endpoint a) (off endpoint b) (
      by_rank (byte_len b.public_model) (byte_len a.public_model)
        (by_priority a.priority b.priority (ltb a.id b.id))))

prefix-ne-exact : (a : Route) → a.match_type ≡ "prefix" → (a.match_type == "exact") ≡ false
prefix-ne-exact a h = ground (arith, eq_iff a.match_type "exact", eq_iff "prefix" "exact")

better_route-by_ranks :
    (a b : Route) (endpoint : String)
    → IsKnown a
    → IsKnown b
    → better_route a b endpoint ≡ by_ranks a b endpoint
unfolding better_route by_ranks
better_route-by_ranks a b endpoint ka kb = ground (
  arith,
  eq_iff a.match_type b.match_type,
  eq_iff a.match_type "exact",
  eq_iff b.match_type "exact",
  prefix-ne-exact a,
  prefix-ne-exact b,
)

swap_sides : {P Q : Type 0} → P ⊎ Q → Q ⊎ P
swap_sides (inl p) = inr p
swap_sides (inr q) = inl q

last_negative :
    (a b c : Route)
    → by_priority a.priority c.priority (ltb a.id c.id) ≡ true
    → (by_priority a.priority b.priority (ltb a.id b.id) ≡ true)
      ⊎ (by_priority b.priority c.priority (ltb b.id c.id) ≡ true)
last_negative a b c =
    by_priority_negative a.priority b.priority c.priority _ _ _ (λ h. ground arith)

by_ranks_negative :
    (endpoint : String) (a b c : Route)
    → by_ranks a c endpoint ≡ true
    → (by_ranks a b endpoint ≡ true) ⊎ (by_ranks b c endpoint ≡ true)
unfolding by_ranks
by_ranks_negative endpoint a b c = by_rank_negative (kind a) (kind b) (kind c) _ _ _ (
    by_rank_negative (off endpoint a) (off endpoint b) (off endpoint c) _ _ _ (λ h. swap_sides (
      by_rank_negative (byte_len c.public_model) (byte_len b.public_model) (byte_len a.public_model)
        _ _ _ (λ k. swap_sides (last_negative a b c k)) h)))

by_ranks_asym :
    (endpoint : String) (a b : Route) → by_ranks a b endpoint ≡ true → by_ranks b a endpoint ≡ false
unfolding by_ranks
by_ranks_asym endpoint a b = by_rank_asym (kind a) (kind b) _ _ (
    by_rank_asym (off endpoint a) (off endpoint b) _ _ (
      by_rank_asym (byte_len b.public_model) (byte_len a.public_model) _ _
        (by_priority_asym a.priority b.priority _ _ (λ h. ground arith))))

by_ranks_total :
    (endpoint : String) (a b : Route)
    → by_ranks a b endpoint ≡ false
    → by_ranks b a endpoint ≡ false
    → a.id ≡ b.id
unfolding by_ranks
by_ranks_total endpoint a b h k = ground arith

module _ (endpoint : String) (a b : Route) (known_a : IsKnown a) (known_b : IsKnown b) where
  -- Of two routes at most one goes before the other.
  pub better_route_asym : better_route a b endpoint ≡ true → better_route b a endpoint ≡ false
  better_route_asym h =
      better_route-by_ranks b a endpoint known_b known_a
      ∙ by_ranks_asym endpoint a b (sym (better_route-by_ranks a b endpoint known_a known_b) ∙ h)

  -- Two routes that neither goes before have one ID.
  pub better_route_total :
      better_route a b endpoint ≡ false → better_route b a endpoint ≡ false → a.id ≡ b.id
  better_route_total h k =
      by_ranks_total endpoint a b (sym (better_route-by_ranks a b endpoint known_a known_b) ∙ h)
        (sym (better_route-by_ranks b a endpoint known_b known_a) ∙ k)

  -- A route between the two goes after the first or before the second.
  pub better_route_negative :
      (c : Route)
      → IsKnown c
      → better_route a c endpoint ≡ true
      → (better_route a b endpoint ≡ true) ⊎ (better_route b c endpoint ≡ true)
  better_route_negative c known_c h =
      rw
        (
          better_route-by_ranks a b endpoint known_a known_b,
          better_route-by_ranks b c endpoint known_b known_c,
        )
        (by_ranks_negative endpoint a b c
          (sym (better_route-by_ranks a c endpoint known_a known_c) ∙ h))
