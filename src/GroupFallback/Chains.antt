-- ===== src/GroupFallback/Chains.antt =====
-- What the check on write promises, and what the calls make of it.
use mathlib.Core.Path.{subst}
use lite_api.Common.{
  ℕ, zero, suc, ◌≤◌, ◌<◌, ◌≡◌, refl, sym, ap, inl, inr, ◌↔◌, ◌==◌, nat_eq, nat_beq_iff, string_eq,
  true, false, ◌&&◌, List, [], ◌∷◌, Option, none, some, contains, arith, Bool-cases,
}
use lite_api.Common.Errors.{ok, Result-cases}
use lite_api.GroupFallback.{GroupRow, OwnRow, LoadGroup, is_target, check_chain, validate_fallback}

-- A chain of `n` groups, each stored and a proper fallback target, from `next` to its end.
abbrev pub Covers : LoadGroup → ℕ → Option ℕ → Type 0
Covers load zero next = next ≡ none
Covers load (suc n) next =
    (id : ℕ) × (r : GroupRow) × (next ≡ some id)
    × (load id ≡ ok (some r))
    × (is_target r ≡ true)
    × Covers load n r.fallback

-- One turn of `check_chain` that goes on.
abbrev pub Turns : LoadGroup → List ℕ → ℕ → ℕ → Type 0
Turns load seen id left =
    (r : GroupRow) × (contains seen id ≡ false)
    × (load id ≡ ok (some r))
    × (is_target r ≡ true)
    × (check_chain load (id ∷ seen) r.fallback left ≡ ok tt)

pub check_chain-Turns :
    (load : LoadGroup) (seen : List ℕ) (id left : ℕ)
    → check_chain load seen (some id) (suc left) ≡ ok tt
    → Turns load seen id left
unfolding check_chain
check_chain-Turns load seen id left h = elim (Bool-cases (contains seen id)) [
  | inl c ↦ ground arith
  | inr c ↦ elim (Result-cases (load id)) [
    | inr (e, failed) ↦ ground arith
    | inl (none, missing) ↦ ground arith
    | inl (some r, found) ↦ ground arith
  ]
]

Turns-check_chain :
    (load : LoadGroup) (seen : List ℕ) (id left : ℕ)
    → Turns load seen id left
    → check_chain load seen (some id) (suc left) ≡ ok tt
unfolding check_chain
Turns-check_chain load seen id left (r, c, found, fits, rest) = ground arith

check_chain-Covers :
    (load : LoadGroup) (seen : List ℕ) (next : Option ℕ) (left : ℕ)
    → check_chain load seen next left ≡ ok tt
    → (n : ℕ) × (n ≤ left) × Covers load n next
check_chain-Covers load seen none left h = (0, omega arith, refl)
check_chain-Covers load seen (some id) zero h = unfold check_chain in cc
check_chain-Covers load seen (some id) (suc left) h =
    let (r, c, found, fits, rest) = check_chain-Turns load seen id left h in
    let (n, l, chain) = check_chain-Covers load (id ∷ seen) r.fallback left rest in
    (suc n, omega arith, (id, r, refl, found, fits, chain))

-- All chains from a group have the same length.
Covers-unique :
    (load : LoadGroup) (m n : ℕ) (next : Option ℕ) → Covers load m next → Covers load n next → m ≡ n
Covers-unique load zero zero next a b = refl
Covers-unique load zero (suc n) next a (id, r, e, found, fits, b) = ground arith
Covers-unique load (suc m) zero next (id, r, e, found, fits, a) b = ground arith
Covers-unique load (suc m) (suc n) next (id, r, e, found, fits, a) (id', r', e', found', fits', b) =
    ap suc (Covers-unique load m n r.fallback a (subst (λ g. Covers load n g.fallback) same b))
  where
    same : r' ≡ r
    same = cc

-- Every group seen has only chains longer than `n`.
abbrev IsBehind : LoadGroup → ℕ → List ℕ → Type 0
IsBehind load n seen = (s : ℕ) → contains seen s ≡ true → (m : ℕ) → Covers load m (some s) → n < m

IsBehind-insert :
    (load : LoadGroup) (n : ℕ) (seen : List ℕ) (id : ℕ)
    → IsBehind load (suc n) seen
    → Covers load (suc n) (some id)
    → IsBehind load n (id ∷ seen)
IsBehind-insert load n seen id behind chain s h m c = elim (Bool-cases (id == s)) [
  | inl same ↦
      let length =
        Covers-unique load m (suc n) (some id)
          (subst (λ i. Covers load m (some i)) (sym ((nat_beq_iff id s).0 same)) c) chain in
      omega arith
  | inr other ↦ let l = behind s (unfold contains in ground arith) m c in omega arith
]

IsBehind-unseen :
    (load : LoadGroup) (n : ℕ) (seen : List ℕ) (id : ℕ)
    → IsBehind load (suc n) seen
    → Covers load (suc n) (some id)
    → contains seen id ≡ false
IsBehind-unseen load n seen id behind chain = elim (Bool-cases (contains seen id)) [
  | inr new ↦ new
  | inl old ↦ let l = behind id old (suc n) chain in absurd (omega arith)
]

Covers-check_chain :
    (load : LoadGroup) (n : ℕ) (seen : List ℕ) (next : Option ℕ) (left : ℕ)
    → n ≤ left
    → IsBehind load n seen
    → Covers load n next
    → check_chain load seen next left ≡ ok tt
Covers-check_chain load zero seen next left l behind e = rw e (unfold check_chain in refl)
Covers-check_chain load (suc n) seen next zero l behind chain = absurd (omega arith)
Covers-check_chain load (suc n) seen next (suc left) l behind (id, r, e, found, fits, chain) =
    let whole : Covers load (suc n) (some id) = (id, r, refl, found, fits, chain) in
    let rest =
      Covers-check_chain load n (id ∷ seen) r.fallback left (omega arith)
        (IsBehind-insert load n seen id behind whole) chain in
    subst (λ o. check_chain load seen o (suc left) ≡ ok tt) (sym e)
      (Turns-check_chain load seen id left
        (r, IsBehind-unseen load n seen id behind whole, found, fits, rest))

-- The group itself has only chains longer than that of its fallback.
own-IsBehind :
    (load : LoadGroup) (id n : ℕ) (r : GroupRow)
    → load id ≡ ok (some r)
    → Covers load n r.fallback
    → IsBehind load n (id ∷ [])
own-IsBehind load id n r found chain s h zero c = absurd (ground arith)
own-IsBehind load id n r found chain s h (suc m) (s', r', e, found', fits, c) =
    let own : id ≡ s' = unfold contains in ground (arith, nat_beq_iff id s) in
    let row : r' ≡ r = cc in
    let length =
      Covers-unique load m n r.fallback (subst (λ g. Covers load m g.fallback) row c) chain in
    omega arith

-- `validateGroupFallback` accepts exactly the groups that are not both for Claude Code only and the
-- fallback of another group, and whose own chain of fallbacks ends after at most 32 stored groups, all
-- of them proper targets. So it accepts no cycle. The conditions are that the target is checked and
-- that both queries see the same row of the group.
pub validate_fallback_iff :
    (own : OwnRow) (load : LoadGroup) (id : ℕ) (r : GroupRow)
    → load id ≡ ok (some r)
    → r.fallback ≡ own.own_fallback
    → (validate_fallback (ok own) load id true ≡ ok tt) ↔ (
        ((own.own_code_only && own.referenced) ≡ false)
        × ((n : ℕ) × (n ≤ 32) × Covers load n own.own_fallback))
unfolding validate_fallback
validate_fallback_iff own load id r found same = (only_if, if_so)
  where
    only_if :
        validate_fallback (ok own) load id true ≡ ok tt
        → ((own.own_code_only && own.referenced) ≡ false)
          × ((n : ℕ) × (n ≤ 32) × Covers load n own.own_fallback)
    only_if h = (ground arith, check_chain-Covers load (id ∷ []) own.own_fallback 32 (ground arith))

    if_so :
        ((own.own_code_only && own.referenced) ≡ false)
          × ((n : ℕ) × (n ≤ 32) × Covers load n own.own_fallback)
        → validate_fallback (ok own) load id true ≡ ok tt
    if_so (free, (n, l, chain)) =
        let behind = own-IsBehind load id n r found (subst (Covers load n) (sym same) chain) in
        let passed = Covers-check_chain load n (id ∷ []) own.own_fallback 32 l behind chain in
        ground arith
