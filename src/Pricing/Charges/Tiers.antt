-- ===== src/Pricing/Charges/Tiers.antt =====
-- The intervals of a card that was accepted.
use mathlib.Core.Path.{subst}
use lite_api.Common.{
  ℕ, ◌+◌, eq_iff, ◌≤◌, ◌<◌, ltb, ◌==◌, nat_eq, string_eq, text_eq, ◌≡◌, refl, sym, ap, ◌∙◌, ◌≢◌,
  ◌⊎◌, inl, inr, Text, Bool, true, false, not, ◌&&◌, ◌||◌, List, [], ◌∷◌, Option, none, some, In,
  length, Bool-cases, arith,
}
use lite_api.Common.Errors.{ok, >>=-eq-ok, fail_if-eq-ok}
use lite_api.Models.{supported_platform}
use lite_api.Pricing.Cards.Intervals.{
  Card, Interval, good_max, good_bounds, overlaps_max, overlaps_previous, checked_interval, clashes,
  checked_intervals, insert_interval, sort_intervals, is_set,
}
use lite_api.Pricing.Cards.Validation.{
  Names, with_defaults, known_mode, set_time, has_time, validate_set_time, checked_models,
  checked_prices, checked_card, checked_cards, validate_model_prices,
}
use lite_api.Pricing.Charges.Tokens.{below_max, holds, interval_at}
use lite_api.Pricing.Periods.{Moment}

-- The bound `m` of an interval stands above its minimum.
abbrev EndsAt : Interval → ℕ → Type 0
EndsAt iv m = iv.max_tokens ≡ some m

checked_interval-bound :
    (stats : Bool) (iv : Interval) (m : ℕ)
    → checked_interval stats iv ≡ ok tt
    → EndsAt iv m
    → iv.min_tokens < m
unfolding checked_interval good_bounds good_max
checked_interval-bound stats iv m h e =
    let (good, _) = fail_if-eq-ok (not (good_bounds iv)) _ _ h in ground arith

overlaps_max-previous :
    (o : Option ℕ) (min : ℕ) → overlaps_max o min ≡ false → (m : ℕ) × (o ≡ some m) × (m ≤ min)
unfolding overlaps_max
overlaps_max-previous none min h = absurd cc
overlaps_max-previous (some m) min h = (m, refl, ground arith)

-- Each interval starts where the one before ends, or later.
checked_intervals-after :
    (stats : Bool) (ivs : List Interval) (previous : Interval) (labels : List Text) (iv : Interval)
    → checked_intervals stats true (some previous) labels ivs ≡ ok tt
    → In iv ivs
    → (m : ℕ) × EndsAt previous m × (m ≤ iv.min_tokens)
unfolding checked_intervals clashes overlaps_previous
checked_intervals-after stats [] previous labels iv h m = elim m [ ]
checked_intervals-after stats (j ∷ js) previous labels iv h m =
    let (one, e, h1) = >>=-eq-ok (checked_interval stats j) _ h in
    let (clear, h2) = fail_if-eq-ok (clashes true (some previous) labels j) _ _ h1 in
    let (end, f, g) = overlaps_max-previous previous.max_tokens j.min_tokens clear in
    elim m [
      | inl same ↦ (end, f, ground arith)
      | inr later ↦
          let (next, f', g') = checked_intervals-after stats js j _ iv h2 later in
          let long = checked_interval-bound stats j next e f' in (end, f, omega arith)
    ]

-- No two intervals of the list hold the same context.
abbrev AreDisjoint : List Interval → Type 0
AreDisjoint ivs =
    (context : ℕ) (a b : Interval)
    → In a ivs
    → In b ivs
    → holds context a ≡ true
    → holds context b ≡ true
    → a ≡ b

holds-after :
    (context m : ℕ) (a b : Interval)
    → EndsAt a m
    → m ≤ b.min_tokens
    → holds context a ≡ true
    → holds context b ≢ true
unfolding holds below_max
holds-after context m a b e p h k = ground arith

checked_intervals-AreDisjoint :
    (stats : Bool) (ivs : List Interval) (previous : Option Interval) (labels : List Text)
    → checked_intervals stats true previous labels ivs ≡ ok tt
    → AreDisjoint ivs
unfolding checked_intervals
checked_intervals-AreDisjoint stats [] previous labels h context a b i j p q = elim i [ ]
checked_intervals-AreDisjoint stats (iv ∷ ivs) previous labels h context a b i j p q =
    let (one, e, h1) = >>=-eq-ok (checked_interval stats iv) _ h in
    let (clear, h2) = fail_if-eq-ok (clashes true previous labels iv) _ _ h1 in
    elim i [
      | inl same ↦ elim j [
        | inl same' ↦ same ∙ sym same'
        | inr later ↦
            let (m, f, g) = checked_intervals-after stats ivs iv _ b h2 later in
            absurd (holds-after context m a b (ground (arith, f, same)) g p q)
      ]
      | inr earlier ↦ elim j [
        | inl same' ↦
            let (m, f, g) = checked_intervals-after stats ivs iv _ a h2 earlier in
            absurd (holds-after context m b a (ground (arith, f, same')) g q p)
        | inr later ↦ checked_intervals-AreDisjoint stats ivs _ _ h2 context a b earlier later p q
      ]
    ]

insert_interval-In :
    (a iv : Interval) (ivs : List Interval) → (a ≡ iv) ⊎ In a ivs → In a (insert_interval iv ivs)
unfolding insert_interval
insert_interval-In a iv [] m = m
insert_interval-In a iv (j ∷ js) m = elim (Bool-cases (ltb j.min_tokens iv.min_tokens)) [
  | inl e ↦ rw (e) (elim m [
    | inl same ↦ inr (insert_interval-In a iv js (inl same))
    | inr (inl same) ↦ inl same
    | inr (inr later) ↦ inr (insert_interval-In a iv js (inr later))
  ])
  | inr e ↦ rw (e) m
]

sort_intervals-In : (a : Interval) (ivs : List Interval) → In a ivs → In a (sort_intervals ivs)
unfolding sort_intervals
sort_intervals-In a [] m = m
sort_intervals-In a (iv ∷ ivs) (inl same) = insert_interval-In a iv (sort_intervals ivs) (inl same)
sort_intervals-In a (iv ∷ ivs) (inr later) =
    insert_interval-In a iv (sort_intervals ivs) (inr (sort_intervals-In a ivs later))

interval_at-found :
    (context : ℕ) (iv : Interval) (ivs : List Interval)
    → In iv ivs
    → holds context iv ≡ true
    → (j : Interval) × (interval_at context ivs ≡ some j) × In j ivs × (holds context j ≡ true)
unfolding interval_at
interval_at-found context iv [] m h = elim m [ ]
interval_at-found context iv (j ∷ js) m h = elim (Bool-cases (holds context j)) [
  | inl e ↦ (j, rw (e) refl, inl refl, e)
  | inr e ↦ elim m [
    | inl same ↦ absurd (ground (arith, same))
    | inr later ↦
        let (k, f, i, g) = interval_at-found context iv js later h in (k, rw (e) f, inr i, g)
  ]
]

interval_at-AreDisjoint :
    (context : ℕ) (iv : Interval) (ivs : List Interval)
    → AreDisjoint (sort_intervals ivs)
    → In iv ivs
    → holds context iv ≡ true
    → interval_at context ivs ≡ some iv
interval_at-AreDisjoint context iv ivs d m h =
    let (j, e, n, k) = interval_at-found context iv ivs m h in
    e ∙ ap some (d context j iv (sort_intervals-In j ivs n) (sort_intervals-In iv ivs m) k h)

checked_card-intervals :
    (at : Moment) (stats : Bool) (names : Names) (raw p : Card) {first : Card × Names}
    → checked_card at stats names raw ≡ ok first
    → p ≡ first.0
    → p.billing_mode ≡ "token"
    → checked_intervals stats true none [] (sort_intervals p.intervals) ≡ ok tt
unfolding checked_card
checked_card-intervals at stats names raw p {first} h here token =
    let q = with_defaults raw in
    let time = set_time q.time_pricing in
    let (_, h1) = fail_if-eq-ok (not (supported_platform q.platform)) _ _ h in
    let (_, h2) = fail_if-eq-ok (not (known_mode q.billing_mode)) _ _ h1 in
    let (_, h3) = fail_if-eq-ok (length q.models == 0 || ltb 100 (length q.models)) _ _ h2 in
    let (t, _, h4) = >>=-eq-ok (checked_models names q.platform q.models) _ h3 in
    let (_, _, h5) = >>=-eq-ok (checked_prices stats q) _ h4 in
    let (_, h6) =
      fail_if-eq-ok
        (not (q.billing_mode == "token") && not (is_set q.per_request) && length q.intervals == 0) _
        _ h5 in
    let (_, h7) =
      fail_if-eq-ok (has_time time && (not (q.billing_mode == "token") || stats)) _ _ h6 in
    let (_, _, h8) = >>=-eq-ok (validate_set_time at time) _ h7 in
    let (_, h9) =
      fail_if-eq-ok (stats && (is_set q.fast || is_set q.flex || is_set q.image_input)) _ _ h8 in
    let (_, h10) = fail_if-eq-ok (ltb 100 (length q.intervals)) _ _ h9 in
    let (one, e, h11) =
      >>=-eq-ok
        (checked_intervals stats (q.billing_mode == "token") none [] (sort_intervals q.intervals)) _
        h10 in
    let taken : (record q { time_pricing = time }, t) ≡ first = ground arith in
    let same : record q { time_pricing = time } ≡ p = ap (λ f. f.0) taken ∙ sym here in
    let token' : (q.billing_mode == "token") ≡ true =
      (eq_iff q.billing_mode "token").1 (ap (λ c. c.billing_mode) same ∙ token) in
    subst (λ c. checked_intervals stats true none [] (sort_intervals c.intervals) ≡ ok tt) same
      (subst (λ b. checked_intervals stats b none [] (sort_intervals q.intervals) ≡ ok tt) token' e)

checked_cards-intervals :
    (at : Moment) (stats : Bool) (raws : List Card) (total : ℕ) (names : Names) {cards : List Card}
    (p : Card)
    → checked_cards at stats total names raws ≡ ok cards
    → In p cards
    → p.billing_mode ≡ "token"
    → checked_intervals stats true none [] (sort_intervals p.intervals) ≡ ok tt
unfolding checked_cards
checked_cards-intervals at stats [] total names {cards} p h m token =
    let none_left : cards ≡ [] = ground arith in elim (subst (In p) none_left m) [ ]
checked_cards-intervals at stats (raw ∷ raws) total names {cards} p h m token =
    let (_, h1) = fail_if-eq-ok (ltb 2000 (total + length raw.models)) _ _ h in
    let (first, e, h2) = >>=-eq-ok (checked_card at stats names raw) _ h1 in
    let (rest, f, h3) =
      >>=-eq-ok (checked_cards at stats (total + length raw.models) first.1 raws) _ h2 in
    let same : cards ≡ first.0 ∷ rest = ground arith in
    elim (subst (In p) same m) [
      | inl here ↦ checked_card-intervals at stats names raw p e here token
      | inr later ↦ checked_cards-intervals at stats raws _ _ p f later token
    ]

-- The intervals of an accepted card that charges by tokens do not overlap: an interval that holds the
-- context is the one that the price is taken from, wherever it stands in the list.
pub validate_model_prices-interval_at :
    (at : Moment) (stats : Bool) (raws cards : List Card) (p : Card) (context : ℕ) (iv : Interval)
    → validate_model_prices at stats raws ≡ ok cards
    → In p cards
    → p.billing_mode ≡ "token"
    → In iv p.intervals
    → holds context iv ≡ true
    → interval_at context p.intervals ≡ some iv
unfolding validate_model_prices
validate_model_prices-interval_at at stats raws cards p context iv h m token n k =
    let (_, h1) = fail_if-eq-ok (ltb 1000 (length raws)) _ _ h in
    let accepted = checked_cards-intervals at stats raws 0 [] p h1 m token in
    interval_at-AreDisjoint context iv p.intervals
      (checked_intervals-AreDisjoint stats (sort_intervals p.intervals) none [] accepted) n k
