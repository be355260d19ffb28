-- ===== src/Reasoning/Canonical.antt =====
-- The canonical spelling of a reasoning effort.
use lite_api.Common.{
  ◌<◌, ◌≡◌, refl, ◌⊎◌, inl, inr, text_eq, text_beq, text_beq_iff, Text, List, [], ◌∷◌, In, arith,
}
use lite_api.Common.Strings.{trim_space, to_lower}
use lite_api.Reasoning.{
  efforts, place, effort_rank, squeeze, known_effort, alias_effort, canonical_effort,
}

place-In : (xs : List Text) (v : Text) → 0 < place xs v → In v xs
unfolding place
place-In [] v h = absurd (omega arith)
place-In (x ∷ xs) v h = ground (arith, text_beq_iff x v, place-In xs v)

-- The values of `canonicalEffort`: the empty text or one of the six efforts.
abbrev pub IsCanonical : Text → Type 0
IsCanonical v = (v ≡ []) ⊎ In v efforts

pub rank-In : (v : Text) → 0 < effort_rank v → In v efforts
unfolding effort_rank
rank-In v = place-In efforts v

known_effort-IsCanonical : (s : Text) → IsCanonical (known_effort s)
unfolding known_effort
known_effort-IsCanonical s = ground (arith, rank-In s)

pub canonical_effort-IsCanonical : (v : Text) → IsCanonical (canonical_effort v)
unfolding canonical_effort
canonical_effort-IsCanonical v =
    known_effort-IsCanonical (alias_effort (squeeze (to_lower (trim_space v))))

pub fixed : (v : Text) → IsCanonical v → canonical_effort v ≡ v
unfolding canonical_effort known_effort effort_rank place squeeze trim_space to_lower text_beq
fixed v (inl e) = rw e refl
fixed v (inr (inl e)) = rw e refl
fixed v (inr (inr (inl e))) = rw e refl
fixed v (inr (inr (inr (inl e)))) = rw e refl
fixed v (inr (inr (inr (inr (inl e))))) = rw e refl
fixed v (inr (inr (inr (inr (inr (inl e)))))) = rw e refl
fixed v (inr (inr (inr (inr (inr (inr (inl e))))))) = rw e refl
fixed v (inr (inr (inr (inr (inr (inr (inr e))))))) = elim e [ ]

-- Normalising an effort twice is normalising it once, and the result is empty or one of the six
-- efforts.
canonical_effort_idem :
    (v : Text)
    → (canonical_effort (canonical_effort v) ≡ canonical_effort v)
      × IsCanonical (canonical_effort v)
canonical_effort_idem v =
    let known = canonical_effort-IsCanonical v in (fixed (canonical_effort v) known, known)

-- A blank text has no canonical effort.
pub canonical_effort_blank : (v : Text) → trim_space v ≡ [] → canonical_effort v ≡ []
unfolding canonical_effort known_effort effort_rank place squeeze to_lower text_beq
canonical_effort_blank v e = rw e refl
