-- ===== src/Slots/Counters.antt =====
-- The counters of slots and of waiting calls against the calls that hold or wait for them.
use lite_api.Common.{
  ℕ, suc, ◌≤◌, ◌≡◌, refl, ap, ◌≢◌, ◌↔◌, if◌then◌else◌, true, false, some, List, [], ◌∷◌, ◌++◌,
  length, length-append, arith,
}
use lite_api.Slots.{
  Kind, key, SlotKey, kind_beq, key_beq, Gate, write, track_key_slot, take_slot, release_slot,
  stop_admission, queue_limit, total_limit, enter_queue, leave_queue,
}

pub kind_beq_iff : (a b : Kind) → (kind_beq a b ≡ true) ↔ (a ≡ b)
unfolding kind_beq
kind_beq_iff a b = ground arith

pub key_beq_iff : (a b : SlotKey) → (key_beq a b ≡ true) ↔ (a ≡ b)
unfolding key_beq
key_beq_iff a b = ground (arith, kind_beq_iff a.kind b.kind)

-- How often a key stands in a list.
unfoldable pub count : SlotKey → List SlotKey → ℕ
count k [] = 0
count k (j ∷ js) = if key_beq j k then suc (count k js) else count k js

pub count-insert :
    (k j : SlotKey) (before after : List SlotKey)
    → count k (before ++ j ∷ after) ≡ count k (j ∷ before ++ after)
unfolding count
count-insert k j [] after = refl
count-insert k j (i ∷ before) after = ground (arith, count-insert k j before after)

-- The instance, with the slots held and the places taken in the queues by the calls in flight.
pub record World : Type 0 where
  pub gate : Gate
  pub holders : List SlotKey
  pub waiters : List SlotKey

-- What the calls of an instance may do, one after another in any order. Each call passes its own limit
-- `n` to `take_slot`, as it has read it; `limit` bounds what is passed for a key in the whole history.
pub data Step (limit : SlotKey → ℕ) : World → World → Type 0 where
  takes :
      (w : World) (k : SlotKey) (n : ℕ)
      → n ≤ limit k
      → (take_slot w.gate k n).1 ≡ true
      → Step limit w (record w { gate = (take_slot w.gate k n).0; holders = k ∷ w.holders })
  refused :
      (w : World) (k : SlotKey) (n : ℕ)
      → (take_slot w.gate k n).1 ≡ false
      → Step limit w (record w { gate = (take_slot w.gate k n).0 })
  tracks :
      (w : World) (n : ℕ)
      → Step limit w (record w {
        gate = track_key_slot w.gate n;
        holders = record { kind = key; id = n } ∷ w.holders;
      })
  releases :
      (w : World) (k : SlotKey) (before after : List SlotKey)
      → w.holders ≡ before ++ k ∷ after
      → Step limit w (record w { gate = release_slot w.gate k; holders = before ++ after })
  enters :
      (w : World) (k : SlotKey) (g : Gate)
      → enter_queue w.gate k ≡ some g
      → Step limit w (record w { gate = g; waiters = k ∷ w.waiters })
  leaves :
      (w : World) (k : SlotKey) (before after : List SlotKey)
      → w.waiters ≡ before ++ k ∷ after
      → Step limit w (record w { gate = leave_queue w.gate k; waiters = before ++ after })
  stops : (w : World) → Step limit w (record w { gate = stop_admission w.gate })
  -- The instance lock is lost.
  loses : (w : World) → Step limit w (record w { gate = record w.gate { instance_lost = true } })

pub data Reach (limit : SlotKey → ℕ) (v : World) : World → Type 0 where
  here : Reach limit v v
  next : {u w : World} → Reach limit v u → Step limit u w → Reach limit v w

-- The counters are exact, the queues are within their limits, and no key but those of `trackKeySlot`
-- has more slots than the bound on its limits.
pub record Inv (limit : SlotKey → ℕ) (w : World) : Type 0 where
  pub exact_active : (k : SlotKey) → w.gate.active k ≡ count k w.holders
  pub exact_waiting : (k : SlotKey) → w.gate.waiting k ≡ count k w.waiters
  pub exact_queued : w.gate.queued ≡ length w.waiters
  pub bounded_waiting : (k : SlotKey) → w.gate.waiting k ≤ queue_limit k.kind
  pub bounded_queued : w.gate.queued ≤ total_limit
  pub bounded_active : (k : SlotKey) → k.kind ≢ key → w.gate.active k ≤ limit k

module _ (limit : SlotKey → ℕ) where
  Step-active :
      {w v : World}
      → Step limit w v
      → ((k : SlotKey) → w.gate.active k ≡ count k w.holders)
      → (k : SlotKey) → v.gate.active k ≡ count k v.holders
  unfolding take_slot track_key_slot release_slot write enter_queue leave_queue stop_admission count
  Step-active (takes w k l below e) h j = ground (arith, h j, h k, key_beq_iff k j)
  Step-active (refused w k l e) h j = ground (arith, h j)
  Step-active (tracks w n) h j =
      ground (
        arith,
        h j,
        h (record { kind = key; id = n }),
        key_beq_iff (record { kind = key; id = n }) j,
      )
  Step-active (releases w k before after e) h j = ground (
    arith,
    h j,
    h k,
    key_beq_iff k j,
    key_beq_iff k k,
    count-insert j k before after,
    count-insert k k before after,
  )
  Step-active (enters w k g e) h j = ground (arith, h j)
  Step-active (leaves w k before after e) h j = h j
  Step-active (stops w) h j = h j
  Step-active (loses w) h j = h j

  Step-waiting :
      {w v : World}
      → Step limit w v
      → ((k : SlotKey) → w.gate.waiting k ≡ count k w.waiters)
      → (k : SlotKey) → v.gate.waiting k ≡ count k v.waiters
  unfolding take_slot track_key_slot release_slot write enter_queue leave_queue stop_admission count
  Step-waiting (takes w k l below e) h j = ground (arith, h j)
  Step-waiting (refused w k l e) h j = ground (arith, h j)
  Step-waiting (tracks w n) h j = h j
  Step-waiting (releases w k before after e) h j = h j
  Step-waiting (enters w k g e) h j = ground (arith, h j, h k, key_beq_iff k j)
  Step-waiting (leaves w k before after e) h j = ground (
    arith,
    h j,
    h k,
    key_beq_iff k j,
    key_beq_iff k k,
    count-insert j k before after,
    count-insert k k before after,
  )
  Step-waiting (stops w) h j = h j
  Step-waiting (loses w) h j = h j

  Step-queued :
      {w v : World}
      → Step limit w v
      → w.gate.queued ≡ length w.waiters
      → v.gate.queued ≡ length v.waiters
  unfolding take_slot track_key_slot release_slot enter_queue leave_queue stop_admission
  Step-queued (takes w k l below e) h = ground arith
  Step-queued (refused w k l e) h = ground arith
  Step-queued (tracks w n) h = h
  Step-queued (releases w k before after e) h = h
  Step-queued (enters w k g e) h = ground arith
  Step-queued (leaves w k before after e) h =
      omega (arith, ap length e, length-append before (k ∷ after), length-append before after)
  Step-queued (stops w) h = h
  Step-queued (loses w) h = h

  Step-bounded_waiting :
      {w v : World}
      → Step limit w v
      → ((k : SlotKey) → w.gate.waiting k ≤ queue_limit k.kind)
      → (k : SlotKey) → v.gate.waiting k ≤ queue_limit k.kind
  unfolding take_slot track_key_slot release_slot write enter_queue leave_queue stop_admission
  Step-bounded_waiting (takes w k l below e) h j = ground (arith, h j)
  Step-bounded_waiting (refused w k l e) h j = ground (arith, h j)
  Step-bounded_waiting (tracks w n) h j = h j
  Step-bounded_waiting (releases w k before after e) h j = h j
  Step-bounded_waiting (enters w k g e) h j = ground (arith, h j, h k, key_beq_iff k j)
  Step-bounded_waiting (leaves w k before after e) h j = ground (arith, h j, h k, key_beq_iff k j)
  Step-bounded_waiting (stops w) h j = h j
  Step-bounded_waiting (loses w) h j = h j

  Step-bounded_queued :
      {w v : World} → Step limit w v → w.gate.queued ≤ total_limit → v.gate.queued ≤ total_limit
  unfolding take_slot track_key_slot release_slot enter_queue leave_queue stop_admission
  Step-bounded_queued (takes w k l below e) h = ground arith
  Step-bounded_queued (refused w k l e) h = ground arith
  Step-bounded_queued (tracks w n) h = h
  Step-bounded_queued (releases w k before after e) h = h
  Step-bounded_queued (enters w k g e) h = ground arith
  Step-bounded_queued (leaves w k before after e) h = ground arith
  Step-bounded_queued (stops w) h = h
  Step-bounded_queued (loses w) h = h

  Step-bounded_active :
      {w v : World}
      → Step limit w v
      → ((k : SlotKey) → k.kind ≢ key → w.gate.active k ≤ limit k)
      → (k : SlotKey) → k.kind ≢ key
      → v.gate.active k ≤ limit k
  unfolding take_slot track_key_slot release_slot write enter_queue leave_queue stop_admission
  Step-bounded_active (takes w k l below e) h j n = ground (arith, h j n, key_beq_iff k j)
  Step-bounded_active (refused w k l e) h j n = ground (arith, h j n)
  Step-bounded_active (tracks w i) h j n =
      ground (arith, h j n, key_beq_iff (record { kind = key; id = i }) j)
  Step-bounded_active (releases w k before after e) h j n = ground (arith, h j n, key_beq_iff k j)
  Step-bounded_active (enters w k g e) h j n = ground (arith, h j n)
  Step-bounded_active (leaves w k before after e) h j n = h j n
  Step-bounded_active (stops w) h j n = h j n
  Step-bounded_active (loses w) h j n = h j n

  pub Step-Inv : {w v : World} → Step limit w v → Inv limit w → Inv limit v
  Step-Inv s i = record {
    exact_active = Step-active s i.exact_active;
    exact_waiting = Step-waiting s i.exact_waiting;
    exact_queued = Step-queued s i.exact_queued;
    bounded_waiting = Step-bounded_waiting s i.bounded_waiting;
    bounded_queued = Step-bounded_queued s i.bounded_queued;
    bounded_active = Step-bounded_active s i.bounded_active;
  }
