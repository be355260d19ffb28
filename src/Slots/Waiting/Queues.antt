-- ===== src/Slots/Waiting/Queues.antt =====
-- The queues while a call waits.
use mathlib.Core.Path.{subst}
use lite_api.Common.{
  ◌≡◌, refl, ◌∙◌, ap, ◌⊎◌, inl, inr, Bool, true, false, Option-cases, List, [], ◌∷◌, some, some_inj,
  All, arith,
}
use lite_api.Common.Errors.{Result-cases}
use lite_api.Slots.{
  SlotKey, Gate, write, enter_queue, leave_queue, leave_if, admission_wake, Attempt, ready,
  not_ready, attempt_error, ContextState, live, canceled, timed_out, Turn, Finish, Progress,
  finished, again, wait_turn, join_turn, attempt_turn, context_turn, wait_step, wait_admission,
}
use lite_api.Slots.Counters.{key_beq_iff}

-- Two states with the same queues.
abbrev pub SameQueues : Gate → Gate → Type 0
SameQueues g h = ((k : SlotKey) → g.waiting k ≡ h.waiting k) × (g.queued ≡ h.queued)

-- The attempt and the other calls change no queue during the turn.
abbrev pub IsQuiet : Turn → Type 0
IsQuiet t =
    ((g : Gate) → SameQueues (t.attempt_effect g) g) × ((g : Gate) → SameQueues (t.others g) g)

SameQueues-trans : (a b c : Gate) → SameQueues a b → SameQueues b c → SameQueues a c
SameQueues-trans a b c (p, q) (r, s) = (λ k. p k ∙ r k, q ∙ s)

-- A turn leaves the queues of `a`, not counting the place that the call itself holds.
abbrev Restores : SlotKey → Gate → Progress → Type 0
Restores k a (finished g f) = SameQueues g a
Restores k a (again g queued) = SameQueues (leave_if queued g k) a

Restores-trans :
    (k : SlotKey) (a b : Gate) (p : Progress) → Restores k a p → SameQueues a b → Restores k b p
Restores-trans k a b (finished g f) r s = SameQueues-trans g a b r s
Restores-trans k a b (again g queued) r s = SameQueues-trans (leave_if queued g k) a b r s

leave_if-SameQueues :
    (queued : Bool) (k : SlotKey) (a b : Gate)
    → SameQueues a b
    → SameQueues (leave_if queued a k) (leave_if queued b k)
unfolding leave_if leave_queue write
leave_if-SameQueues false k a b s = s
leave_if-SameQueues true k a b (p, q) = (λ j. ground (arith, p j, p k), omega arith)

leave-enter :
    (k : SlotKey) (g h : Gate) → enter_queue g k ≡ some h → SameQueues (leave_if true h k) g
unfolding leave_if leave_queue enter_queue write
leave-enter k g h e = (λ j. ground (arith, key_beq_iff k j, key_beq_iff k k), ground arith)

module _ (k : SlotKey) (t : Turn) (q : IsQuiet t) where
  wait_turn-Restores : (g : Gate) → Restores k (leave_if true g k) (wait_turn k t g)
  unfolding wait_turn
  wait_turn-Restores g = elim (Option-cases t.ping_error) [
    | inl e ↦ rw (e, wait_turn) (leave_if-SameQueues true k (t.others g) g (q.1 g))
    | inr (x, e) ↦ rw (e, wait_turn) (λ j. refl, refl)
  ]

  join_turn-Restores :
      (queued : Bool) (g : Gate) → Restores k (leave_if queued g k) (join_turn k t queued g)
  unfolding join_turn
  join_turn-Restores true g = wait_turn-Restores g
  join_turn-Restores false g = elim (Option-cases (enter_queue g k)) [
    | inl e ↦ rw (e, join_turn) (λ j. refl, refl)
    | inr (h, e) ↦
        rw (e, join_turn)
          (Restores-trans k (leave_if true h k) (leave_if false g k) (wait_turn k t h)
            (wait_turn-Restores h) (unfold leave_if in leave-enter k g h e))
  ]

  attempt_turn-Restores :
      (queued : Bool) (g : Gate) (outcome : Attempt) (c : ContextState)
      → Restores k (leave_if queued g k) (attempt_turn k t queued g outcome c)
  unfolding attempt_turn
  attempt_turn-Restores queued g ready live = (λ j. refl, refl)
  attempt_turn-Restores queued g not_ready live = join_turn-Restores queued g
  attempt_turn-Restores queued g (attempt_error x) live = (λ j. refl, refl)
  attempt_turn-Restores queued g _ _ = (λ j. refl, refl)

  context_turn-Restores :
      (queued : Bool) (g : Gate) (c : ContextState)
      → Restores k (leave_if queued g k) (context_turn k t queued g c)
  unfolding context_turn
  context_turn-Restores queued g canceled = (λ j. refl, refl)
  context_turn-Restores queued g timed_out = (λ j. refl, refl)
  context_turn-Restores queued g live = elim (Result-cases (admission_wake g)) [
    | inr (x, e) ↦ rw (e, context_turn) (λ j. refl, refl)
    | inl (n, e) ↦
        rw (e, context_turn)
          (Restores-trans k (leave_if queued (t.attempt_effect g) k) (leave_if queued g k)
            (attempt_turn k t queued (t.attempt_effect g) t.outcome t.context_after)
            (attempt_turn-Restores queued (t.attempt_effect g) t.outcome t.context_after)
            (leave_if-SameQueues queued k (t.attempt_effect g) g (q.0 g)))
  ]

pub Progress-cases :
    (p : Progress)
    → ((g : Gate) × (f : Finish) × (p ≡ finished g f)) ⊎ ((g : Gate) × (b : Bool) × (p ≡ again g b))
Progress-cases (finished g f) = inl (g, f, refl)
Progress-cases (again g b) = inr (g, b, refl)

wait_step-Restores :
    (k : SlotKey) (t : Turn) (queued : Bool) (g : Gate)
    → IsQuiet t
    → Restores k (leave_if queued g k) (wait_step k t queued g)
unfolding wait_step
wait_step-Restores k t queued g q = context_turn-Restores k t q queued g t.context

pub wait_admission-SameQueues :
    (k : SlotKey) (ts : List Turn) (queued : Bool) (g g' : Gate) (f : Finish)
    → All IsQuiet ts
    → wait_admission k ts queued g ≡ some (g', f)
    → SameQueues g' (leave_if queued g k)
unfolding wait_admission
wait_admission-SameQueues k [] queued g g' f q e = cc
wait_admission-SameQueues k (t ∷ ts) queued g g' f (q, qs) e =
    let r = wait_step-Restores k t queued g q in
    elim (Progress-cases (wait_step k t queued g)) [
      | inl (h, x, done) ↦
          let same : h ≡ g' = ap (λ z. z.0) (some_inj (rw (done, wait_admission) at e)) in
          subst (λ z. SameQueues z (leave_if queued g k)) same (rw done at r)
      | inr (h, b, more) ↦
          SameQueues-trans g' (leave_if b h k) (leave_if queued g k)
            (wait_admission-SameQueues k ts b h g' f qs (rw (more, wait_admission) at e))
            (rw more at r)
    ]
