-- ===== src/Composite/Decisions.antt =====
-- What a decision of `resolve` promises: its route is the best that applies, whatever the order of
-- the rows, and the platform that it names is a supported one.
use mathlib.Core.Path.{subst}
use lite_api.Common.{
  codes, ℕ, ◌≡◌, refl, sym, ◌∙◌, ap, ◌⊎◌, inl, inr, ◌↔◌, ◌==◌, string_eq, text_eq, Text, String,
  Bool, true, false, Option-cases, List, [], ◌∷◌, Option, none, some, In, All, arith, eq_iff,
}
use lite_api.Common.Strings.{has_prefix}
use lite_api.Models.{supported_platform}
use lite_api.Composite.{
  Route, CompositeConfig, best_route, owner_of, resolve, detect_model_platform, name_platform,
  cut_platform, provider_platform, prefix_platform, short_name_platform, row_platform, providers,
  known_prefixes,
}
use lite_api.Composite.Order.{better_route_total}
use lite_api.Composite.Choice.{eligible-IsKnown, IsBest, best_route_cases}

-- Routes of one ID are one route.
abbrev pub HasDistinctIds : List Route → Type 0
HasDistinctIds rs = (a b : Route) → In a rs → In b rs → a.id ≡ b.id → a ≡ b

module _ (model : Text) (endpoint : String) where
  IsBest-unique :
      (rs : List Route) (a b : Route)
      → HasDistinctIds rs
      → IsBest model endpoint rs a
      → IsBest model endpoint rs b
      → a ≡ b
  IsBest-unique rs a b d (ma, fa, ka) (mb, fb, kb) = d a b ma mb (
      better_route_total endpoint a b (eligible-IsKnown model endpoint a fa)
        (eligible-IsKnown model endpoint b fb) (kb a ma fa) (ka b mb fb))

  best_route_same :
      (rs ss : List Route)
      → HasDistinctIds rs
      → ((r : Route) → In r rs ↔ In r ss)
      → best_route model endpoint none rs ≡ best_route model endpoint none ss
  best_route_same rs ss d same = elim (best_route_cases model endpoint rs) [
    | inl (er, nr) ↦ elim (best_route_cases model endpoint ss) [
      | inl (es, ns) ↦ er ∙ sym es
      | inr (b, es, (m, f, k)) ↦ absurd (clash (nr b ((same b).1 m)) f)
    ]
    | inr (a, er, ba) ↦ elim (best_route_cases model endpoint ss) [
      | inl (es, ns) ↦ absurd (clash (ns a ((same a).0 ba.0)) ba.1)
      | inr (b, es, (m, f, k)) ↦
          er
          ∙ ap some (IsBest-unique rs a b d ba ((same b).1 m, f, λ r n. k r ((same r).0 n)))
          ∙ sym es
    ]
  ]
    where
      clash : {b : Bool} → b ≡ false → b ≡ true → ⊥
      clash h k = cc

-- A decision that names a route names one of the group's routes that applies to the model and the
-- endpoint, and no other route that applies goes before it.
pub resolve-IsBest :
    (c : CompositeConfig) (gid : ℕ) (model : Text) (endpoint : String) (b : Route)
    → (resolve c gid model endpoint).route ≡ some b
    → IsBest model endpoint c.routes b
unfolding resolve
resolve-IsBest c gid model endpoint b h = elim (best_route_cases model endpoint c.routes) [
  | inl (e, none_fits) ↦ absurd (no_route e h)
  | inr (a, e, best) ↦ subst (IsBest model endpoint c.routes) (same_route e h) best
]
  where
    no_route :
        best_route model endpoint none c.routes ≡ none
        → (resolve c gid model endpoint).route ≡ some b
        → ⊥
    no_route e h = ground arith

    same_route :
        {a : Route}
        → best_route model endpoint none c.routes ≡ some a
        → (resolve c gid model endpoint).route ≡ some b
        → a ≡ b
    same_route e h = ground arith

-- The decision depends on the set of routes only: the order of the rows does not change it, if the
-- IDs of the routes are distinct.
pub resolve_order :
    (c d : CompositeConfig) (gid : ℕ) (model : Text) (endpoint : String)
    → HasDistinctIds c.routes
    → ((r : Route) → In r c.routes ↔ In r d.routes)
    → c.owners ≡ d.owners
    → resolve c gid model endpoint ≡ resolve d gid model endpoint
unfolding resolve
resolve_order c d gid model endpoint distinct same owners =
    ground (arith, best_route_same model endpoint c.routes d.routes distinct same)

-- An alias belongs to a supported platform or, with the empty name, to several.
abbrev pub IsOwned : Text × String → Type 0
IsOwned (model, platform) = (platform ≡ "") ⊎ (supported_platform platform ≡ true)

owner_of-IsOwned :
    (model : Text) (owners : List (Text × String)) (p : String)
    → All IsOwned owners
    → owner_of model owners ≡ some p
    → IsOwned (model, p)
unfolding owner_of
owner_of-IsOwned model [] p h e = cc
owner_of-IsOwned model ((m, q) ∷ rest) p h e = ground (arith, owner_of-IsOwned model rest p h.1)

row_platform-IsOwned :
    (model : Text) (test : String → Bool) (rows : List (String × List String)) (p : String)
    → All (λ row. IsOwned (model, row.0)) rows
    → row_platform test rows ≡ some p
    → IsOwned (model, p)
unfolding row_platform
row_platform-IsOwned model test [] p h e = cc
row_platform-IsOwned model test ((q, names) ∷ rows) p h e =
    ground (arith, row_platform-IsOwned model test rows p h.1)

prefix_platform-IsOwned :
    (model : Text) (p : String) → prefix_platform model ≡ some p → IsOwned (model, p)
unfolding prefix_platform
prefix_platform-IsOwned model p =
    row_platform-IsOwned model (λ x. has_prefix model (codes x)) known_prefixes p
      (unfold supported_platform in
        (
          inr refl,
          (inr refl, (inr refl, (inr refl, (inr refl, (inr refl, (inr refl, (inr refl, tt))))))),
        ))

provider_platform-IsOwned :
    (model provider : Text) (p : String) → provider_platform provider ≡ some p → IsOwned (model, p)
unfolding provider_platform
provider_platform-IsOwned model provider p =
    row_platform-IsOwned model (λ x. provider == codes x) providers p
      (unfold supported_platform in
        (
          inl refl,
          (
            inr refl,
            (inr refl, (inr refl, (inr refl, (inr refl, (inr refl, (inr refl, (inr refl, tt))))))),
          ),
        ))

short_name_platform-IsOwned : (model : Text) → IsOwned (model, short_name_platform model)
unfolding supported_platform
short_name_platform-IsOwned model = elim (short_cases model) [
  | inl e ↦ rw e (inr refl)
  | inr (inl e) ↦ rw e (inr refl)
  | inr (inr (inl e)) ↦ rw e (inr refl)
  | inr (inr (inr e)) ↦ rw e (inl refl)
]
  where
    short_cases :
        (m : Text)
        → (short_name_platform m ≡ "openai")
          ⊎ (short_name_platform m ≡ "kimi")
          ⊎ (short_name_platform m ≡ "grok")
          ⊎ (short_name_platform m ≡ "")
    short_cases m = unfold short_name_platform in ground arith

name_platform-IsOwned : (model : Text) → IsOwned (model, name_platform model)
unfolding name_platform
name_platform-IsOwned model = elim (Option-cases (prefix_platform model)) [
  | inl e ↦ rw (e, name_platform) (short_name_platform-IsOwned model)
  | inr (p, e) ↦ rw (e, name_platform) (prefix_platform-IsOwned model p e)
]

cut_platform-IsOwned :
    (any_model model : Text) (cut : Option (Text × Text))
    → IsOwned (any_model, cut_platform model cut)
unfolding cut_platform
cut_platform-IsOwned m model none = name_platform-IsOwned model
cut_platform-IsOwned m model (some (provider, rest)) =
    elim (Option-cases (provider_platform provider)) [
      | inl e ↦ rw (e, cut_platform) (name_platform-IsOwned _)
      | inr (p, e) ↦ rw (e, cut_platform) (provider_platform-IsOwned m provider p e)
    ]

detect-IsOwned : (model : Text) → IsOwned (model, detect_model_platform model)
unfolding detect_model_platform
detect-IsOwned model = cut_platform-IsOwned model _ _

-- Every match names a supported platform, if each alias of the group belongs to one or is marked as
-- claimed by several.
pub resolve_supported :
    (c : CompositeConfig) (gid : ℕ) (model : Text) (endpoint : String)
    → All IsOwned c.owners
    → (resolve c gid model endpoint).matched ≡ true
    → supported_platform (resolve c gid model endpoint).target_platform ≡ true
unfolding resolve
resolve_supported c gid model endpoint owned h =
    elim (Option-cases (best_route model endpoint none c.routes)) [
      | inr (b, e) ↦ ground arith
      | inl e ↦ elim (Option-cases (owner_of model c.owners)) [
        | inr (p, f) ↦ ground (arith, owner_of-IsOwned model c.owners p owned f, eq_iff p "")
        | inl f ↦ ground (arith, detect-IsOwned model, eq_iff (detect_model_platform model) "")
      ]
    ]
