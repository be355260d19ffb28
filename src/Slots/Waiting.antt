-- ===== src/Slots/Waiting.antt =====
-- One call of `waitAdmission`: it leaves the queues as it found them, ends when its context does, and
-- succeeds only through its attempt.
pub mod Queues
use mathlib.Core.Path.{subst}
use lite_api.Common.{
  ◌≡◌, refl, sym, ◌∙◌, ap, ◌≢◌, ◌⊎◌, inl, inr, Bool, true, false, Option-cases, List, [], ◌∷◌, none,
  some, some_inj, In, All, arith,
}
use lite_api.Common.Errors.{Result-cases}
use lite_api.Slots.{
  SlotKey, Gate, write, enter_queue, leave_queue, leave_if, admission_wake, Attempt, ready,
  not_ready, attempt_error, ContextState, live, canceled, timed_out, Turn, Finish, Progress,
  finished, again, wait_turn, join_turn, attempt_turn, context_turn, wait_step, wait_admission,
}
use lite_api.Slots.Counters.{key_beq_iff}
use lite_api.Slots.Waiting.Queues.{SameQueues, IsQuiet, Progress-cases, wait_admission-SameQueues}

-- A call of `waitAdmission` leaves every queue, and their total, as it found them, however it ends: with
-- a slot, with an error or by its context. The condition is that its attempts and the other calls
-- change no queue meanwhile.
pub wait_admission_balanced :
    (k : SlotKey) (ts : List Turn) (g g' : Gate) (f : Finish)
    → All IsQuiet ts
    → wait_admission k ts false g ≡ some (g', f)
    → SameQueues g' g
wait_admission_balanced k ts g g' f q e =
    unfold leave_if in wait_admission-SameQueues k ts false g g' f q e

-- A turn in which the call finds its context over.
abbrev pub IsOver : Turn → Type 0
IsOver t = t.context ≢ live

context_turn_over :
    (k : SlotKey) (t : Turn) (queued : Bool) (g : Gate) (c : ContextState)
    → c ≢ live
    → (h : Gate) × (f : Finish) × (context_turn k t queued g c ≡ finished h f) × (f.failure ≢ none)
unfolding context_turn
context_turn_over k t queued g live over = absurd (over refl)
context_turn_over k t queued g canceled over = (_, _, refl, λ e. cc)
context_turn_over k t queued g timed_out over = (_, _, refl, λ e. cc)

wait_step_over :
    (k : SlotKey) (t : Turn) (queued : Bool) (g : Gate)
    → IsOver t
    → (h : Gate) × (f : Finish) × (wait_step k t queued g ≡ finished h f) × (f.failure ≢ none)
unfolding wait_step
wait_step_over k t queued g over = context_turn_over k t queued g t.context over

-- The wait is bounded: if in some turn the context is over, cancelled or past the deadline, the call
-- ends in that turn or before.
pub wait_admission_ends :
    (k : SlotKey) (ts : List Turn) (queued : Bool) (g : Gate) (t : Turn)
    → In t ts
    → IsOver t
    → (h : Gate) × (f : Finish) × (wait_admission k ts queued g ≡ some (h, f))
unfolding wait_admission
wait_admission_ends k [] queued g t i over = elim i [ ]
wait_admission_ends k (x ∷ ts) queued g t i over = elim (Progress-cases (wait_step k x queued g)) [
  | inl (h, f, done) ↦ (h, f, rw (done, wait_admission) refl)
  | inr (h, b, more) ↦ elim i [
    | inl same ↦
        let (h', f, done, _) = wait_step_over k t queued g over in
        absurd (clash (sym (rw same at done) ∙ more))
    | inr later ↦
        let (h', f, done) = wait_admission_ends k ts b h t later over in
        (h', f, rw (more, wait_admission) done)
  ]
]
  where
    clash : {h h' : Gate} {f : Finish} {b : Bool} → finished h f ≡ again h' b → ⊥
    clash e = cc

module _ (k : SlotKey) (t : Turn) (queued : Bool) (g h : Gate) (f : Finish)
    (n : f.failure ≡ none) where
  join_turn-never : join_turn k t queued g ≡ finished h f → ⊥
  unfolding join_turn wait_turn
  join_turn-never e = ground arith

  attempt_turn-ready :
      (o : Attempt) (c : ContextState) → attempt_turn k t queued g o c ≡ finished h f → o ≡ ready
  unfolding attempt_turn
  attempt_turn-ready ready live e = refl
  attempt_turn-ready not_ready live e = absurd (join_turn-never e)
  attempt_turn-ready (attempt_error x) live e = absurd (ground arith)
  attempt_turn-ready ready c e = refl
  attempt_turn-ready _ _ e = cc

wait_step-ready :
    (k : SlotKey) (t : Turn) (queued : Bool) (g h : Gate) (f : Finish)
    → f.failure ≡ none
    → wait_step k t queued g ≡ finished h f
    → (t.context ≡ live) × (t.outcome ≡ ready)
unfolding wait_step
wait_step-ready k t queued g h f n e = by_context t.context refl
  where
    by_context : (c : ContextState) → t.context ≡ c → (t.context ≡ live) × (t.outcome ≡ ready)
    by_context canceled s = absurd (unfold context_turn in ground arith)
    by_context timed_out s = absurd (unfold context_turn in ground arith)
    by_context live s = elim (Result-cases (admission_wake g)) [
      | inr (x, no_wake) ↦ absurd (unfold context_turn in ground arith)
      | inl (w, woke) ↦ (
        s,
        attempt_turn-ready k t queued (t.attempt_effect g) h f n t.outcome t.context_after
            (unfold context_turn in ground arith),
      )
    ]

-- The call succeeds only in a turn whose attempt got the slot, while the context was live.
pub wait_admission-ready :
    (k : SlotKey) (ts : List Turn) (queued : Bool) (g h : Gate) (f : Finish)
    → wait_admission k ts queued g ≡ some (h, f)
    → f.failure ≡ none
    → (t : Turn) × In t ts × (t.context ≡ live) × (t.outcome ≡ ready)
unfolding wait_admission
wait_admission-ready k [] queued g h f e n = cc
wait_admission-ready k (t ∷ ts) queued g h f e n = elim (Progress-cases (wait_step k t queued g)) [
  | inl (h', f', done) ↦
      let same : f' ≡ f = ap (λ z. z.1) (some_inj (rw (done, wait_admission) at e)) in
      let (l, r) = wait_step-ready k t queued g h' f' (rw same n) done in (t, inl refl, l, r)
  | inr (h', b, more) ↦
      let (u, i, l, r) = wait_admission-ready k ts b h' h f (rw (more, wait_admission) at e) n in
      (u, inr i, l, r)
]
