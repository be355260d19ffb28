-- ===== src/Selection/Slot.antt =====
-- What the choice of an account does to the slots, and what holds of the account.
use mathlib.Core.Path.{subst}
use lite_api.Common.{
  ℕ, suc, ◌-◌, ◌<◌, leb, nat_eq, Text, true, false, ◌||◌, List, [], ◌∷◌, In, Option, none, some,
  ◌≡◌, refl, sym, ap, ◌∙◌, ◌⊎◌, inl, inr, arith, Bool-cases, Option-cases,
}
use lite_api.Common.Rat.{Rat}
use lite_api.Slots.{SlotKey, Gate, key_beq, write, wake_gateway, take_slot, release_slot}
use lite_api.Slots.Counters.{key_beq_iff}
use lite_api.Selection.Profit.{profit_allows}
use lite_api.Selection.Matching.{Loaded}
use lite_api.Selection.Order.{slot_of}
use lite_api.Selection.Loop.{
  Plan, Recheck, rate_now, row_gone, read_error, Visit, Selected, Choice, selected, busy,
  no_upstream, failed, is_candidate, acceptable, confirm_rate, confirm, try_slot, try_loaded, turn,
  end_of, choose,
}

-- The slots are as they were.
abbrev pub SameSlots : Gate → Gate → Type 0
SameSlots g h = (k : SlotKey) → h.active k ≡ g.active k

-- One more slot of the key is taken, within the limit.
abbrev pub IsTaken : SlotKey → ℕ → Gate → Gate → Type 0
IsTaken k limit g h =
    (g.active k < limit)
    × (h.active k ≡ suc (g.active k))
    × ((j : SlotKey) → key_beq k j ≡ false → h.active j ≡ g.active j)

-- The rate that is charged: with a threshold the one that was read after the slot was taken, and else the
-- one of the candidate.
abbrev pub IsRateOf : Option Rat → Visit → Text → Type 0
IsRateOf none v rate = rate ≡ v.candidate.rate
IsRateOf (some t) v rate = v.recheck ≡ rate_now rate

-- The account was chosen on this visit: it passed the tests, its rate leaves the profit, and it has one
-- more slot.
pub record IsChosen (p : Plan) (v : Visit) (g h : Gate) (s : Selected) : Type 0 where
  pub same_account : v.candidate.id ≡ s.account_id
  pub is_tried : is_candidate p v.candidate ≡ true
  pub is_accepted : (u : Loaded) × (v.loaded ≡ some u) × (acceptable p u ≡ some s.upstream_model)
  pub is_read_again : IsRateOf p.threshold v s.rate
  pub keeps_profit : profit_allows p.threshold s.rate ≡ true
  pub is_taken : IsTaken (slot_of v.candidate.id) v.candidate.concurrency g h

abbrev pub Ends : Plan → Visit → Gate → Gate → Option Choice → Type 0
Ends p v g h none = SameSlots g h
Ends p v g h (some (selected s)) = IsChosen p v g h s
Ends p v g h (some (busy id)) = SameSlots g h
Ends p v g h (some no_upstream) = SameSlots g h
Ends p v g h (some (failed e)) = SameSlots g h

take_slot-cases :
    (g : Gate) (k : SlotKey) (limit : ℕ)
    → ((take_slot g k limit).1 ≡ false) × SameSlots g (take_slot g k limit).0
      ⊎ ((take_slot g k limit).1 ≡ true) × IsTaken k limit g (take_slot g k limit).0
unfolding take_slot write
take_slot-cases g k limit =
    elim (Bool-cases (g.stopped || g.instance_lost || leb limit 0 || leb limit (g.active k))) [
      | inl e ↦ inl (rw (e) refl, λ j. rw (e) refl)
      | inr e ↦
          let same = (key_beq_iff k k).1 refl in
          inr (rw (e) refl, (ground arith, rw (e, same) (omega arith), λ j f. rw (e, f) refl))
    ]

release-SameSlots :
    (g h : Gate) (k : SlotKey) (limit : ℕ) → IsTaken k limit g h → SameSlots g (release_slot h k)
unfolding release_slot write wake_gateway
release-SameSlots g h k limit (below, one, others) j = elim (Bool-cases (key_beq k j)) [
  | inl e ↦
      let same = (key_beq_iff k j).0 e in
      rw (e) (subst (λ i. h.active k - 1 ≡ g.active i) same (omega arith))
  | inr e ↦ rw (e) (others j e)
]

-- A candidate that passed the tests and took its slot.
module _ (p : Plan) (v : Visit) (u : Loaded) (name : Text) (g h : Gate)
    (tried : is_candidate p v.candidate ≡ true) (there : v.loaded ≡ some u)
    (accepted : acceptable p u ≡ some name)
    (taken : IsTaken (slot_of v.candidate.id) v.candidate.concurrency g h) where
  passed-IsChosen :
      (rate : Text)
      → IsRateOf p.threshold v rate
      → profit_allows p.threshold rate ≡ true
      → IsChosen p v g h
          (record { account_id = v.candidate.id; rate = rate; upstream_model = name })
  passed-IsChosen rate read keeps = record {
    same_account = refl;
    is_tried = tried;
    is_accepted = (u, there, accepted);
    is_read_again = read;
    keeps_profit = keeps;
    is_taken = taken;
  }

  confirm_rate-Ends :
      (t : Rat) (r : Recheck)
      → p.threshold ≡ some t
      → v.recheck ≡ r
      → Ends p v g
          (confirm_rate t v.candidate.id name r h).0
          (confirm_rate t v.candidate.id name r h).1
  unfolding confirm_rate
  confirm_rate-Ends t (rate_now rate) e again = elim (Bool-cases (profit_allows (some t) rate)) [
    | inl f ↦ rw (f) (passed-IsChosen rate (rw (e) again) (rw (e) f))
    | inr f ↦ rw (f) (release-SameSlots g h (slot_of v.candidate.id) v.candidate.concurrency taken)
  ]
  confirm_rate-Ends t row_gone e again =
      release-SameSlots g h (slot_of v.candidate.id) v.candidate.concurrency taken
  confirm_rate-Ends t (read_error x) e again =
      release-SameSlots g h (slot_of v.candidate.id) v.candidate.concurrency taken

  confirm-Ends :
      (o : Option Rat) → p.threshold ≡ o → Ends p v g (confirm o v name h).0 (confirm o v name h).1
  unfolding confirm profit_allows
  confirm-Ends none e = passed-IsChosen v.candidate.rate (rw (e) refl) (rw (e) refl)
  confirm-Ends (some t) e = confirm_rate-Ends t v.recheck e refl

module _ (p : Plan) (v : Visit) (g : Gate) (so_far : Option ℕ)
    (tried : is_candidate p v.candidate ≡ true) where
  try_slot-Ends :
      (u : Loaded) (o : Option Text)
      → v.loaded ≡ some u
      → acceptable p u ≡ o
      → Ends p v g (try_slot p v o g so_far).0 (try_slot p v o g so_far).2
  unfolding try_slot
  try_slot-Ends u none f a = λ k. refl
  try_slot-Ends u (some name) f a =
      elim (take_slot-cases g (slot_of v.candidate.id) v.candidate.concurrency) [
        | inl (t, same) ↦ rw (t) same
        | inr (t, taken) ↦ rw (t) (confirm-Ends p v u name g _ tried f a taken p.threshold refl)
      ]

  try_loaded-Ends :
      (o : Option Loaded)
      → v.loaded ≡ o
      → Ends p v g (try_loaded p v o g so_far).0 (try_loaded p v o g so_far).2
  unfolding try_loaded
  try_loaded-Ends none f = λ k. refl
  try_loaded-Ends (some u) f = try_slot-Ends u (acceptable p u) f refl

turn-Ends :
    (p : Plan) (v : Visit) (g : Gate) (so_far : Option ℕ)
    → Ends p v g (turn p v g so_far).0 (turn p v g so_far).2
unfolding turn
turn-Ends p v g so_far = elim (Bool-cases (is_candidate p v.candidate)) [
  | inr e ↦ rw (e) (λ k. refl)
  | inl e ↦ rw (e) (try_loaded-Ends p v g so_far e v.loaded refl)
]

-- The slots, and the account if there is one, after the loop.
abbrev pub IsSettledChoice : Plan → List Visit → Gate → Gate → Choice → Type 0
IsSettledChoice p vs g h (selected s) = (v : Visit) × In v vs × IsChosen p v g h s
IsSettledChoice p vs g h (busy id) = SameSlots g h
IsSettledChoice p vs g h no_upstream = SameSlots g h
IsSettledChoice p vs g h (failed e) = SameSlots g h

-- The loop may start from any state with the same slots.
IsTaken-moved :
    (k : SlotKey) (limit : ℕ) (g g' h : Gate)
    → SameSlots g g'
    → IsTaken k limit g' h
    → IsTaken k limit g h
IsTaken-moved k limit g g' h same (below, one, others) =
    (subst (λ n. n < limit) (same k) below, one ∙ ap suc (same k), λ j f. others j f ∙ same j)

IsSettledChoice-moved :
    (p : Plan) (v : Visit) (vs : List Visit) (g g' h : Gate) (c : Choice)
    → SameSlots g g'
    → IsSettledChoice p vs g' h c
    → IsSettledChoice p (v ∷ vs) g h c
IsSettledChoice-moved p v vs g g' h (selected s) same (w, m, chosen) = (
  w,
  inr m,
  record {
    same_account = chosen.same_account;
    is_tried = chosen.is_tried;
    is_accepted = chosen.is_accepted;
    is_read_again = chosen.is_read_again;
    keeps_profit = chosen.keeps_profit;
    is_taken =
        IsTaken-moved (slot_of w.candidate.id) w.candidate.concurrency g g' h same chosen.is_taken;
  },
)
IsSettledChoice-moved p v vs g g' h (busy id) same rest = λ k. rest k ∙ same k
IsSettledChoice-moved p v vs g g' h no_upstream same rest = λ k. rest k ∙ same k
IsSettledChoice-moved p v vs g g' h (failed e) same rest = λ k. rest k ∙ same k

ended-IsSettledChoice :
    (p : Plan) (v : Visit) (vs : List Visit) (g h : Gate) (c : Choice)
    → Ends p v g h (some c)
    → IsSettledChoice p (v ∷ vs) g h c
ended-IsSettledChoice p v vs g h (selected s) e = (v, inl refl, e)
ended-IsSettledChoice p v vs g h (busy id) e = e
ended-IsSettledChoice p v vs g h no_upstream e = e
ended-IsSettledChoice p v vs g h (failed x) e = e

end_of-IsSettledChoice :
    (p : Plan) (g : Gate) (so_far : Option ℕ) → IsSettledChoice p [] g g (end_of so_far)
unfolding end_of
end_of-IsSettledChoice p g none = λ k. refl
end_of-IsSettledChoice p g (some id) = λ k. refl

-- A choice leaks no slot: if it ends with an account, this account has exactly one more slot, within its
-- limit, and no other count has changed; if it ends without one, all counts are as before. The account
-- stands on one of the visits, was neither excluded nor bound to another one, passed every test on it,
-- and its rate keeps the profit; where the plan has a threshold, this is the rate that was read again after
-- the slot was taken, and else the one of the candidate.
pub choose-IsSettledChoice :
    (p : Plan) (vs : List Visit) (g : Gate) (so_far : Option ℕ)
    → IsSettledChoice p vs g (choose p vs g so_far).0 (choose p vs g so_far).1
unfolding choose
choose-IsSettledChoice p [] g so_far = end_of-IsSettledChoice p g so_far
choose-IsSettledChoice p (v ∷ vs) g so_far =
    let first = turn-Ends p v g so_far in
    elim (Option-cases (turn p v g so_far).2) [
      | inr (c, e) ↦
          let step : choose p (v ∷ vs) g so_far ≡ ((turn p v g so_far).0, c) =
            rw (e, choose) refl in
          subst (λ r. IsSettledChoice p (v ∷ vs) g r.0 r.1) (sym step)
            (ended-IsSettledChoice p v vs g _ c (rw e at first))
      | inl e ↦
          let (g', so_far', end) = turn p v g so_far in
          let step : choose p (v ∷ vs) g so_far ≡ choose p vs g' so_far' = rw (e, choose) refl in
          subst (λ r. IsSettledChoice p (v ∷ vs) g r.0 r.1) (sym step)
            (IsSettledChoice-moved p v vs g g' _ _ (rw e at first)
              (choose-IsSettledChoice p vs g' so_far'))
    ]
