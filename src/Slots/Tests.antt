-- ===== src/Slots/Tests.antt =====
-- Slots and queues in short histories.
use lite_api.Common.{arith, ℕ, ◌≤◌, ◌≡◌, refl, ◌≢◌, inl, inr, true, false, [], ◌∷◌, none, some, In}
use lite_api.Slots.{
  key, user, SlotKey, kind_beq, key_beq, Gate, write, take_slot, release_slot, stop_admission,
  enter_queue, leave_queue, leave_if, kind_error, admission_wake, Turn, ready, not_ready, live,
  timed_out, Finish, wait_step, wait_admission,
}
use lite_api.Slots.Counters.{World, takes, releases, stops, Reach, here, next, Inv}
use lite_api.Slots.Runs.{idle, Reach-Inv, IsStopped, Reach-IsStopped}
use lite_api.Slots.Waiting.{wait_admission_balanced, wait_admission_ends, wait_admission-ready}
use lite_api.Slots.Waiting.Queues.{SameQueues, IsQuiet}

abbrev one : SlotKey
one = record { kind = user; id = 1 }

abbrev limit : SlotKey → ℕ
limit k = 1

runs : ℕ
unfolding kind_beq key_beq write take_slot release_slot stop_admission enter_queue leave_queue
    leave_if admission_wake wait_step wait_admission
runs = 0

-- Taken, and admission stopped while the slot is held.
abbrev busy : World
busy = record idle { gate = (take_slot idle.gate one 1).0; holders = one ∷ [] }

abbrev stopped : World
stopped = record busy { gate = stop_admission busy.gate }

abbrev drained : World
drained = record stopped { gate = release_slot stopped.gate one; holders = [] }

first_taken : (take_slot idle.gate one 1).1 ≡ true
unfolding runs
first_taken = refl

second_refused : (take_slot busy.gate one 1).1 ≡ false
unfolding runs
second_refused = refl

to_stopped : Reach limit idle stopped
to_stopped = next (next here (takes idle one 1 (omega arith) first_taken)) (stops busy)

Reach-Inv_example : Inv limit stopped
Reach-Inv_example = Reach-Inv limit stopped to_stopped

is_stopped : IsStopped stopped.gate
unfolding runs
is_stopped = refl

to_drained : Reach limit stopped drained
to_drained = next here (releases stopped one [] [] refl)

Reach-IsStopped_example :
    IsStopped drained.gate
    × ((k : SlotKey) → k.kind ≢ key → drained.gate.active k ≤ stopped.gate.active k)
Reach-IsStopped_example = Reach-IsStopped limit stopped drained is_stopped to_drained

-- A turn without a slot, and one in which the deadline has passed.
abbrev no_slot : Turn
no_slot = record {
  context = live;
  outcome = not_ready;
  attempt_effect = λ g. g;
  context_after = live;
  ping_error = none;
  others = λ g. g;
}

abbrev late : Turn
late = record no_slot { context = timed_out }

abbrev lucky : Turn
lucky = record no_slot { outcome = ready }

abbrev gave_up : Finish
gave_up = record {
  was_queued = true;
  failure = some (kind_error user " concurrency wait timed out");
}

abbrev left : Gate
left = leave_queue (record idle.gate { waiting = write idle.gate.waiting one 1; queued = 1 }) one

times_out : wait_admission one (no_slot ∷ late ∷ []) false idle.gate ≡ some (left, gave_up)
unfolding runs
times_out = refl

quiet : (t : Turn) → (t.attempt_effect ≡ λ g. g) → (t.others ≡ λ g. g) → IsQuiet t
quiet t a b = (λ g. rw a (λ k. refl, refl), λ g. rw b (λ k. refl, refl))

wait_admission_balanced_example : SameQueues left idle.gate
wait_admission_balanced_example =
    wait_admission_balanced one (no_slot ∷ late ∷ []) idle.gate left gave_up
      (quiet no_slot refl refl, (quiet late refl refl, tt)) times_out

wait_admission_ends_example :
    (h : Gate) × (f : Finish) × (wait_admission one (no_slot ∷ late ∷ []) false idle.gate
      ≡ some (h, f))
wait_admission_ends_example =
    wait_admission_ends one (no_slot ∷ late ∷ []) false idle.gate late (inr (inl refl)) (λ e. cc)

abbrev served : Finish
served = record { was_queued = true; failure = none }

gets_slot : wait_admission one (no_slot ∷ lucky ∷ []) false idle.gate ≡ some (left, served)
unfolding runs
gets_slot = refl

wait_admission-ready_example :
    (t : Turn) × In t (no_slot ∷ lucky ∷ []) × (t.context ≡ live) × (t.outcome ≡ ready)
wait_admission-ready_example =
    wait_admission-ready one (no_slot ∷ lucky ∷ []) false idle.gate left served gets_slot refl
