-- ===== src/Selection/Preferred.antt =====
-- The pool of the model comes first.
use lite_api.Common.{
  ℕ, ◌<◌, ltb, nat_eq, Bool, true, false, ◌&&◌, List, [], ◌∷◌, In, Option, length, contains, ◌≡◌,
  ◌↔◌, ap, ◌∙◌, ◌⊎◌, inl, inr, arith, Bool-cases,
}
use lite_api.Slots.{Gate}
use lite_api.Selection.Order.{
  Candidate, insert, sort_stable, same_priority, is_lighter, by_load, goes_first, ordered,
}

insert-In :
    (less : Candidate → Candidate → Bool) (a c : Candidate) (ds : List Candidate)
    → In a (insert less c ds) ↔ (a ≡ c) ⊎ In a ds
unfolding insert
insert-In less a c [] = (λ m. m, λ m. m)
insert-In less a c (d ∷ ds) = elim (Bool-cases (less d c)) [
  | inr e ↦ rw (e) (λ m. m, λ m. m)
  | inl e ↦
      let rest = insert-In less a c ds in
      rw (e) (
        λ m. elim m [
          | inl same ↦ inr (inl same)
          | inr later ↦ elim (rest.0 later) [ inl same ↦ inl same | inr x ↦ inr (inr x) ]
        ],
        λ m. elim m [
          | inl same ↦ inr (rest.1 (inl same))
          | inr (inl same) ↦ inl same
          | inr (inr x) ↦ inr (rest.1 (inr x))
        ],
      )
]

sort_stable-In :
    (less : Candidate → Candidate → Bool) (a : Candidate) (cs : List Candidate)
    → In a (sort_stable less cs) ↔ In a cs
unfolding sort_stable
sort_stable-In less a [] = (λ m. m, λ m. m)
sort_stable-In less a (c ∷ cs) =
    let rest = sort_stable-In less a cs in
    let here = insert-In less a c (sort_stable less cs) in
    (
      λ m. elim (here.0 m) [ inl same ↦ inl same | inr x ↦ inr (rest.0 x) ],
      λ m. elim m [ inl same ↦ here.1 (inl same) | inr x ↦ here.1 (inr (rest.1 x)) ],
    )

-- Behind a candidate that is not in the pool stands none that is.
abbrev pub IsPoolFirst : List ℕ → List Candidate → Type 0
IsPoolFirst pool [] = Unit
IsPoolFirst pool (c ∷ cs) =
    (contains pool c.id ≡ false → (d : Candidate) → In d cs → contains pool d.id ≡ false)
    × IsPoolFirst pool cs

module _ (pool : List ℕ) (sticky : Option ℕ) (has_pool : 0 < length pool) where
  goes_first-pool :
      (d c : Candidate) → goes_first pool sticky d c ≡ true → contains pool d.id ≡ true
  unfolding goes_first
  goes_first-pool d c h = ground arith

  stays-pool :
      (d c : Candidate)
      → goes_first pool sticky d c ≡ false
      → contains pool c.id ≡ false
      → contains pool d.id ≡ false
  unfolding goes_first
  stays-pool d c h e = ground arith

  insert-IsPoolFirst :
      (c : Candidate) (ds : List Candidate)
      → IsPoolFirst pool ds
      → IsPoolFirst pool (insert (goes_first pool sticky) c ds)
  unfolding insert
  insert-IsPoolFirst c [] p = (λ e d m. elim m [ ], tt)
  insert-IsPoolFirst c (d ∷ ds) (p, q) = elim (Bool-cases (goes_first pool sticky d c)) [
    | inl e ↦
        rw (e) (λ f. absurd (ground (arith, goes_first-pool d c e, f)), insert-IsPoolFirst c ds q)
    | inr e ↦ rw (e) (
      λ f x m. elim m [
        | inl same ↦ ap (λ y. contains pool y.id) same ∙ stays-pool d c e f
        | inr later ↦ p (stays-pool d c e f) x later
      ],
      (p, q),
    )
  ]

  sort_stable-IsPoolFirst :
      (cs : List Candidate) → IsPoolFirst pool (sort_stable (goes_first pool sticky) cs)
  unfolding sort_stable
  sort_stable-IsPoolFirst [] = tt
  sort_stable-IsPoolFirst (c ∷ cs) =
      insert-IsPoolFirst c (sort_stable (goes_first pool sticky) cs) (sort_stable-IsPoolFirst cs)

-- Where the group routes the model to a pool of accounts, the candidates are tried with all of the pool
-- first, whatever the loads, the priorities and the account of the session are; and exactly the
-- candidates of the database are tried.
pub ordered-IsPoolFirst :
    (g : Gate) (pool : List ℕ) (sticky : Option ℕ) (rows : List Candidate)
    → 0 < length pool
    → IsPoolFirst pool (ordered g pool sticky rows)
      × ((c : Candidate) → In c (ordered g pool sticky rows) ↔ In c rows)
unfolding ordered by_load
ordered-IsPoolFirst g pool sticky rows has_pool =
    let some_pool : ltb 0 (length pool) ≡ true = ground arith in
    rw (some_pool) (
      sort_stable-IsPoolFirst pool sticky has_pool (by_load g rows),
      λ c.
          let whole = sort_stable-In (goes_first pool sticky) c (by_load g rows) in
          let loads = sort_stable-In (λ d e. same_priority d e && is_lighter g d e) c rows in
          (λ m. loads.0 (whole.0 m), λ m. whole.1 (loads.1 m)),
    )
