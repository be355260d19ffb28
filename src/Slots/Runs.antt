-- ===== src/Slots/Runs.antt =====
-- All histories of an instance: any number of calls, with their steps in any order.
use lite_api.Common.{ℕ, ◌≤◌, ◌≡◌, refl, ◌≢◌, true, false, [], ◌||◌, arith}
use lite_api.Slots.{
  key, SlotKey, Gate, write, track_key_slot, take_slot, release_slot, stop_admission, enter_queue,
  leave_queue,
}
use lite_api.Slots.Counters.{
  count, World, Step, takes, refused, tracks, releases, enters, leaves, stops, loses, Reach, here,
  next, Inv, Step-Inv, key_beq_iff,
}

abbrev pub idle : World
idle = record {
  gate = record {
    active = λ k. 0;
    waiting = λ k. 0;
    queued = 0;
    stopped = false;
    instance_lost = false;
    wake = 0;
  };
  holders = [];
  waiters = [];
}

idle-Inv : (limit : SlotKey → ℕ) → Inv limit idle
unfolding count
idle-Inv limit = record {
  exact_active = λ k. refl;
  exact_waiting = λ k. refl;
  exact_queued = refl;
  bounded_waiting = λ k. omega arith;
  bounded_queued = omega arith;
  bounded_active = λ k n. omega arith;
}

-- After every history of an idle instance the counters are exact: a key has as many active slots as
-- calls hold one, and as many places taken in its queue as calls wait for it. The queue of a key is
-- within 20 places for a user and 100 otherwise, all queues together within 128. Each call may pass
-- another limit to `takeSlot`; if none of those passed for a user or an account exceeds a bound, its
-- active slots do not either.
pub Reach-Inv : (limit : SlotKey → ℕ) (w : World) → Reach limit idle w → Inv limit w
Reach-Inv limit w r = go r
  where
    go : {v : World} → Reach limit idle v → Inv limit v
    go here = idle-Inv limit
    go (next r s) = Step-Inv limit s (go r)

-- The instance admits no more calls.
abbrev pub IsStopped : Gate → Type 0
IsStopped g = (g.stopped || g.instance_lost) ≡ true

module _ (limit : SlotKey → ℕ) where
  Step-IsStopped :
      {w v : World}
      → Step limit w v
      → IsStopped w.gate
      → IsStopped v.gate × ((k : SlotKey) → k.kind ≢ key → v.gate.active k ≤ w.gate.active k)
  unfolding take_slot track_key_slot release_slot write enter_queue leave_queue stop_admission
  Step-IsStopped (takes w k l below e) h = absurd (ground arith)
  Step-IsStopped (refused w k l e) h = (ground arith, λ j n. ground arith)
  Step-IsStopped (tracks w i) h =
      (h, λ j n. ground (arith, key_beq_iff (record { kind = key; id = i }) j))
  Step-IsStopped (releases w k before after e) h = (h, λ j n. ground (arith, key_beq_iff k j))
  Step-IsStopped (enters w k g e) h = (ground arith, λ j n. ground arith)
  Step-IsStopped (leaves w k before after e) h = (h, λ j n. omega arith)
  Step-IsStopped (stops w) h = (ground arith, λ j n. omega arith)
  Step-IsStopped (loses w) h = (ground arith, λ j n. omega arith)

  -- Once admission has stopped, or the instance lock is lost, it stays so in every later history, and
  -- the active slots of users and accounts only fall: no call takes a new one.
  pub Reach-IsStopped :
      (w v : World)
      → IsStopped w.gate
      → Reach limit w v
      → IsStopped v.gate × ((k : SlotKey) → k.kind ≢ key → v.gate.active k ≤ w.gate.active k)
  Reach-IsStopped w v h r = go r
    where
      go :
          {u : World}
          → Reach limit w u
          → IsStopped u.gate × ((k : SlotKey) → k.kind ≢ key → u.gate.active k ≤ w.gate.active k)
      go here = (h, λ k n. omega arith)
      go (next r s) =
          let (stopped, less) = go r in
          let (still, fewer) = Step-IsStopped s stopped in
          (still, λ k n. omega (arith, less k n, fewer k n))
