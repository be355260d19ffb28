-- ===== src/Composite/Targets.antt =====
-- The models that a name of a composite group stands for on one platform: compositeModelTargets of
-- internal/app/composite.go.
pub mod Endpoints
pub mod Offered
pub mod Listed
use mathlib.Core.Path.{subst}
use mathlib.Core.Logic.{◌↔◌}
use lite_api.Common.{
  ℕ, if◌then◌else◌, ◌==◌, string_eq, text_eq, ◌≡◌, refl, Text, String, Bool, true, not, ◌&&◌, ◌||◌,
  List, [], ◌∷◌, ◌++◌, Option, none, some, contains, In, append-In, In-append_left, In-append_right,
  contains-In, sym, ◌⊎◌, inl, inr, Bool-cases, arith,
}
use lite_api.Composite.Targets.Endpoints.{catalog_endpoints}
use lite_api.Composite.Targets.Offered.{IsOffered, catalog_endpoints-IsOffered}
use lite_api.Composite.Targets.Listed.{IsOffered-catalog_endpoints}
use lite_api.Composite.{CompositeConfig, Decision, resolve}

-- The test of the loop; the map `seen` holds the targets so far.
unfoldable pub is_callable : Decision → String → Bool
is_callable d platform = d.matched && d.target_platform == platform

unfoldable pub add_target : Decision → String → List Text → List Text
add_target d platform targets =
    if is_callable d platform && not (contains targets d.upstream_model)
    then targets ++ d.upstream_model ∷ []
    else targets

-- The loop over the endpoints.
unfoldable pub gather_targets :
    CompositeConfig → ℕ → Text → String → List String → List Text → List Text
gather_targets c gid model platform [] targets = targets
gather_targets c gid model platform (endpoint ∷ rest) targets =
    gather_targets c gid model platform rest
      (add_target (resolve c gid model endpoint) platform targets)

-- `compositeModelTargets`.
unfoldable pub composite_model_targets :
    Option CompositeConfig → ℕ → Text → String → String → Bool → List Text
composite_model_targets none gid model platform protocol native = model ∷ []
composite_model_targets (some c) gid model platform protocol native =
    gather_targets c gid model platform (catalog_endpoints platform protocol native) []

-- What the decision for an endpoint adds.
abbrev pub IsTargetOf : Decision → String → Text → Type 0
IsTargetOf d platform t = (is_callable d platform ≡ true) × (d.upstream_model ≡ t)

is_callable-true :
    (d : Decision) (platform : String)
    → is_callable d platform ≡ true
    → (d.matched ≡ true) × (d.target_platform ≡ platform)
unfolding is_callable
is_callable-true d platform h =
    (ground arith, (string_eq.beq_iff d.target_platform platform).0 (ground arith))

true-is_callable :
    (d : Decision) (platform : String)
    → d.matched ≡ true
    → d.target_platform ≡ platform
    → is_callable d platform ≡ true
unfolding is_callable
true-is_callable d platform matched there =
    rw (matched, (string_eq.beq_iff d.target_platform platform).1 there) refl

add_target-In :
    (d : Decision) (platform : String) (targets : List Text) (t : Text)
    → In t (add_target d platform targets)
    → In t targets ⊎ IsTargetOf d platform t
unfolding add_target
add_target-In d platform targets t h = elim (Bool-cases (is_callable d platform)) [
  | inr e ↦ inl (rw e at h)
  | inl e ↦ elim (Bool-cases (contains targets d.upstream_model)) [
    | inl f ↦ inl (rw f at (rw e at h))
    | inr f ↦ elim (append-In targets (d.upstream_model ∷ []) t (rw f at (rw e at h))) [
      | inl p ↦ inl p
      | inr (inl p) ↦ inr (e, sym p)
      | inr (inr p) ↦ elim p [ ]
    ]
  ]
]

In-add_target :
    (d : Decision) (platform : String) (targets : List Text) (t : Text)
    → In t targets ⊎ IsTargetOf d platform t
    → In t (add_target d platform targets)
unfolding add_target
In-add_target d platform targets t h = elim (Bool-cases (is_callable d platform)) [
  | inr e ↦ elim h [ inl p ↦ rw e p | inr (f, g) ↦ absurd cc ]
  | inl e ↦ elim (Bool-cases (contains targets d.upstream_model)) [
    | inl f ↦
        rw (e, f)
          (elim h [
            | inl p ↦ p
            | inr (_, g) ↦ subst (λ m. In m targets) g (contains-In targets d.upstream_model f)
          ])
    | inr f ↦
        rw (e, f)
          (elim h [
            | inl p ↦ In-append_left targets _ t p
            | inr (_, g) ↦ In-append_right targets _ t (inl (sym g))
          ])
  ]
]

gather_targets-In :
    (c : CompositeConfig) (gid : ℕ) (model : Text) (platform : String) (endpoints : List String)
    (targets : List Text) (t : Text)
    → In t (gather_targets c gid model platform endpoints targets)
    → In t targets
      ⊎ ((endpoint : String) × In endpoint endpoints
          × IsTargetOf (resolve c gid model endpoint) platform t)
unfolding gather_targets
gather_targets-In c gid model platform [] targets t h = inl h
gather_targets-In c gid model platform (e ∷ es) targets t h =
    elim (gather_targets-In c gid model platform es _ t h) [
      | inr (f, m, p) ↦ inr (f, inr m, p)
      | inl m ↦ elim (add_target-In _ platform targets t m) [
        | inl n ↦ inl n
        | inr p ↦ inr (e, inl refl, p)
      ]
    ]

In-gather_targets :
    (c : CompositeConfig) (gid : ℕ) (model : Text) (platform : String) (endpoints : List String)
    (targets : List Text) (t : Text)
    → In t targets
      ⊎ ((endpoint : String) × In endpoint endpoints
          × IsTargetOf (resolve c gid model endpoint) platform t)
    → In t (gather_targets c gid model platform endpoints targets)
unfolding gather_targets
In-gather_targets c gid model platform [] targets t (inl m) = m
In-gather_targets c gid model platform [] targets t (inr (e, m, p)) = elim m [ ]
In-gather_targets c gid model platform (e ∷ es) targets t h =
    In-gather_targets c gid model platform es _ t (elim h [
      | inl m ↦ inl (In-add_target _ platform targets t (inl m))
      | inr (f, inl same, p) ↦ inl (
          In-add_target _ platform targets t
            (inr (subst (λ x. IsTargetOf (resolve c gid model x) platform t) same p)))
      | inr (f, inr m, p) ↦ inr (f, m, p)
    ])

-- At one of the endpoints in question `resolve` chooses the platform, and the model there.
abbrev pub IsReached : CompositeConfig → ℕ → Text → String → String → Bool → Text → Type 0
IsReached c gid model platform protocol native t =
    (endpoint : String) × IsOffered platform protocol native endpoint
    × ((resolve c gid model endpoint).matched ≡ true)
    × ((resolve c gid model endpoint).target_platform ≡ platform)
    × ((resolve c gid model endpoint).upstream_model ≡ t)

-- In a composite group the targets of a name on a platform are exactly the upstream models that `resolve`
-- chooses for that platform at the endpoints in question: that of Gemini for a native list; else the
-- protocol's own, those to which the platform's translations lead, and embeddings on OpenAI. A decision for
-- another platform, or one that matches nothing, adds no target.
pub composite_model_targets-resolve :
    (c : CompositeConfig) (gid : ℕ) (model : Text) (platform protocol : String) (native : Bool)
    (t : Text)
    → In t (composite_model_targets (some c) gid model platform protocol native)
      ↔ IsReached c gid model platform protocol native t
unfolding composite_model_targets
composite_model_targets-resolve c gid model platform protocol native t = (
  λ h. elim (gather_targets-In c gid model platform _ [] t h) [
    | inl m ↦ elim m [ ]
    | inr (e, m, (k, same)) ↦
        let (matched, there) = is_callable-true _ platform k in
        (e, catalog_endpoints-IsOffered platform protocol native e m, matched, there, same)
  ],
  λ (e, offered, matched, there, same). In-gather_targets c gid model platform _ [] t (
      inr (
        e,
        IsOffered-catalog_endpoints platform protocol native e offered,
        (true-is_callable _ platform matched there, same),
      )),
)
