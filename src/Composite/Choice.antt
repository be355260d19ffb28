-- ===== src/Composite/Choice.antt =====
-- The loop of `resolve` over the routes of a group: it keeps the best of the routes that apply.
use mathlib.Core.Path.{subst}
use lite_api.Common.{
  ◌≡◌, refl, ◌∙◌, ◌⊎◌, inl, inr, string_eq, Text, String, Bool, true, false, Bool-cases, some_inj,
  List, [], ◌∷◌, Option, none, some, In, arith, eq_iff,
}
use lite_api.Composite.{Route, better_route, eligible, improves, best_route}
use lite_api.Composite.Order.{IsKnown, better_route_asym, better_route_negative}

pub eligible-IsKnown :
    (model : Text) (endpoint : String) (r : Route) → eligible model endpoint r ≡ true → IsKnown r
unfolding eligible
eligible-IsKnown model endpoint r h =
    ground (arith, eq_iff r.match_type "exact", eq_iff r.match_type "prefix")

-- A route that the loop may return, and that no applicable route goes before.
abbrev pub IsBest : Text → String → List Route → Route → Type 0
IsBest model endpoint rs b =
    In b rs
    × (eligible model endpoint b ≡ true)
    × ((r : Route) → In r rs → eligible model endpoint r ≡ true → better_route r b endpoint ≡ false)

module _ (model : Text) (endpoint : String) where
  -- Where the loop ends from `cur`: the result was there before or is in the list, it is known, and
  -- neither `cur` nor an applicable route of the list goes before it.
  record Kept (cur : Option Route) (rs : List Route) (b : Route) : Type 0 where
    result : best_route model endpoint cur rs ≡ some b
    known : IsKnown b
    origin : (cur ≡ some b) ⊎ (In b rs × (eligible model endpoint b ≡ true))
    over_cur : (s : Route) → cur ≡ some s → better_route s b endpoint ≡ false
    over_list :
        (r : Route) → In r rs → eligible model endpoint r ≡ true → better_route r b endpoint ≡ false

  irreflexive : (b : Route) → IsKnown b → better_route b b endpoint ≡ false
  irreflexive b k = elim (Bool-cases (better_route b b endpoint)) [
    | inl h ↦ better_route_asym endpoint b b k k h
    | inr h ↦ h
  ]

  -- If `r` goes before `s` and `s` is not before `r`'s successor `b`, then neither is `r`.
  not-before :
      (r s b : Route)
      → IsKnown r
      → IsKnown s
      → IsKnown b
      → better_route r s endpoint ≡ false
      → better_route s b endpoint ≡ false
      → better_route r b endpoint ≡ false
  not-before r s b kr ks kb h k = elim (Bool-cases (better_route r b endpoint)) [
    | inr e ↦ e
    | inl e ↦ elim (better_route_negative endpoint r s kr ks b kb e) [ inl x ↦ cc | inr x ↦ cc ]
  ]

  -- One round that leaves `cur` in place.
  stay :
      (cur : Option Route) (r b : Route) (rs : List Route)
      → (eligible model endpoint r ≡ true
          → (s : Route) × (cur ≡ some s) × IsKnown s × (better_route r s endpoint ≡ false))
      → best_route model endpoint cur (r ∷ rs) ≡ best_route model endpoint cur rs
      → Kept cur rs b
      → Kept cur (r ∷ rs) b
  stay cur r b rs worse e k = record {
    result = e ∙ k.result;
    known = k.known;
    origin = elim k.origin [ inl same ↦ inl same | inr (m, f) ↦ inr (inr m, f) ];
    over_cur = k.over_cur;
    over_list = λ t m f. over t m f;
  }
    where
      over :
          (t : Route)
          → In t (r ∷ rs)
          → eligible model endpoint t ≡ true
          → better_route t b endpoint ≡ false
      over t (inl same) f =
          let fr : eligible model endpoint r ≡ true = rw (← same) f in
          let (s, at, ks, behind) = worse fr in
          rw same (
            not-before r s b (eligible-IsKnown model endpoint r fr) ks k.known behind
              (k.over_cur s at))
      over t (inr m) f = k.over_list t m f

  -- One round that puts `r` in place of `cur`, which `r` goes before.
  move :
      (cur : Option Route) (r b : Route) (rs : List Route)
      → eligible model endpoint r ≡ true
      → ((s : Route) → cur ≡ some s → IsKnown s × (better_route r s endpoint ≡ true))
      → best_route model endpoint cur (r ∷ rs) ≡ best_route model endpoint (some r) rs
      → Kept (some r) rs b
      → Kept cur (r ∷ rs) b
  move cur r b rs fits before e k = record {
    result = e ∙ k.result;
    known = k.known;
    origin =
        inr (elim k.origin [
          | inl same ↦ (inl (ground arith), ground arith)
          | inr (m, f) ↦ (inr m, f)
        ]);
    over_cur = λ s same.
        let (ks, first) = before s same in
        not-before s r b ks kr k.known (better_route_asym endpoint r s kr ks first)
          (k.over_cur r refl);
    over_list = λ t m f. over t m f;
  }
    where
      kr : IsKnown r
      kr = eligible-IsKnown model endpoint r fits

      over :
          (t : Route)
          → In t (r ∷ rs)
          → eligible model endpoint t ≡ true
          → better_route t b endpoint ≡ false
      over t (inl same) f = rw same (k.over_cur r refl)
      over t (inr m) f = k.over_list t m f

  clash : {b : Bool} → b ≡ false → b ≡ true → ⊥
  clash h k = cc

  displaced :
      (r s t : Route)
      → some s ≡ some t
      → IsKnown s
      → better_route r s endpoint ≡ true
      → IsKnown t × (better_route r t endpoint ≡ true)
  displaced r s t e k first =
      subst (λ u. IsKnown u × (better_route r u endpoint ≡ true)) (some_inj e) (k, first)

  fits_not :
      (r : Route) (rs : List Route)
      → eligible model endpoint r ≡ false
      → ((t : Route) → In t rs → eligible model endpoint t ≡ false)
      → (t : Route) → In t (r ∷ rs)
      → eligible model endpoint t ≡ false
  fits_not r rs no_fit none_fits t (inl same) = rw same no_fit
  fits_not r rs no_fit none_fits t (inr m) = none_fits t m

  from_some : (rs : List Route) (s : Route) → IsKnown s → (b : Route) × Kept (some s) rs b
  unfolding best_route improves
  from_some [] s k = (
    s,
    record {
      result = refl;
      known = k;
      origin = inl refl;
      over_cur =
          λ t e. subst (λ u. better_route u s endpoint ≡ false) (some_inj e) (irreflexive s k);
      over_list = λ r m e. elim m [ ];
    },
  )
  from_some (r ∷ rs) s k = elim (Bool-cases (eligible model endpoint r)) [
    | inr no_fit ↦
        let (b, kept) = from_some rs s k in
        (b, stay (some s) r b rs (λ f. absurd (clash no_fit f)) (rw no_fit) kept)
    | inl fits ↦ elim (Bool-cases (better_route r s endpoint)) [
      | inl first ↦
          let (b, kept) = from_some rs r (eligible-IsKnown model endpoint r fits) in
          (b, move (some s) r b rs fits (λ t e. displaced r s t e k first) (rw (fits, first)) kept)
      | inr later ↦
          let (b, kept) = from_some rs s k in
          (b, stay (some s) r b rs (λ f. (s, refl, k, later)) (rw (fits, later)) kept)
    ]
  ]

  from_none :
      (rs : List Route)
      → ((best_route model endpoint none rs ≡ none)
          × ((r : Route) → In r rs → eligible model endpoint r ≡ false))
        ⊎ ((b : Route) × Kept none rs b)
  unfolding best_route improves
  from_none [] = inl (refl, λ r m. elim m [ ])
  from_none (r ∷ rs) = elim (Bool-cases (eligible model endpoint r)) [
    | inl fits ↦
        let (b, kept) = from_some rs r (eligible-IsKnown model endpoint r fits) in
        inr (b, move none r b rs fits (λ s e. cc) (rw fits) kept)
    | inr no_fit ↦ elim (from_none rs) [
      | inl (e, none_fits) ↦ inl (rw no_fit e, fits_not r rs no_fit none_fits)
      | inr (b, kept) ↦ inr (b, stay none r b rs (λ f. absurd (clash no_fit f)) (rw no_fit) kept)
    ]
  ]

  -- The loop finds no route exactly when none applies, and otherwise a best one.
  pub best_route_cases :
      (rs : List Route)
      → ((best_route model endpoint none rs ≡ none)
          × ((r : Route) → In r rs → eligible model endpoint r ≡ false))
        ⊎ ((b : Route) × (best_route model endpoint none rs ≡ some b) × IsBest model endpoint rs b)
  best_route_cases rs = elim (from_none rs) [
    | inl nothing ↦ inl nothing
    | inr (b, k) ↦ elim k.origin [
      | inl e ↦ cc
      | inr (m, f) ↦ inr (b, k.result, (m, f, k.over_list))
    ]
  ]
