-- ===== src/Slots.antt =====
-- Concurrency slots and admission queues of one instance: `takeSlot` and `releaseSlot` of
-- internal/app/gateway.go, `trackKeySlot`, `StopAdmission`, `admissionWake` and the loop of
-- `waitAdmission` of internal/app/concurrency.go. Each function that holds `gatewayMu` is one step on
-- the state; a Go map of counters is a function, and a missing key reads as 0. The wake channel is a
-- number that each broadcast raises.
pub mod Counters
pub mod Waiting
pub mod Runs
mod Tests
use lite_api.Common.{
  ℕ, suc, ◌+◌, ◌-◌, ltb, leb, if◌then◌else◌, ◌==◌, nat_eq, Bool, true, false, not, ◌&&◌, ◌||◌,
  Option, none, some, List, [], ◌∷◌, ◌++◌, String, codes,
}
use lite_api.Common.Errors.{ApiError, Result, ok, err, api_error}

-- The kinds of `fmt.Sprintf("%s:%d", kind, id)`. Different keys are different texts.
pub data Kind : Type 0 where
  key user account : Kind

pub record SlotKey : Type 0 where
  pub kind : Kind
  pub id : ℕ

unfoldable pub kind_beq : Kind → Kind → Bool
kind_beq key key = true
kind_beq user user = true
kind_beq account account = true
kind_beq _ _ = false

unfoldable pub key_beq : SlotKey → SlotKey → Bool
key_beq a b = kind_beq a.kind b.kind && a.id == b.id

pub record Gate : Type 0 where
  pub active : SlotKey → ℕ
  pub waiting : SlotKey → ℕ
  pub queued : ℕ
  pub stopped : Bool
  pub instance_lost : Bool
  pub wake : ℕ

unfoldable pub write : (SlotKey → ℕ) → SlotKey → ℕ → SlotKey → ℕ
write m k v j = if key_beq k j then v else m j

-- `wakeGatewayLocked`.
unfoldable pub wake_gateway : Gate → Gate
wake_gateway g = record g { wake = suc g.wake }

-- `trackKeySlot` before it returns; the function that it returns is `release_slot` on the key.
unfoldable pub track_key_slot : Gate → ℕ → Gate
track_key_slot g id =
    let k : SlotKey = record { kind = key; id = id } in
    record g { active = write g.active k (g.active k + 1) }

-- `takeSlot`. A limit that is not positive is 0.
unfoldable pub take_slot : Gate → SlotKey → ℕ → Gate × Bool
take_slot g k limit =
    if g.stopped || g.instance_lost || leb limit 0 || leb limit (g.active k)
    then (g, false)
    else (record g { active = write g.active k (g.active k + 1) }, true)

-- `releaseSlot`: the counter falls by one, and a counter that is not positive leaves the map.
unfoldable pub release_slot : Gate → SlotKey → Gate
unfolding wake_gateway
release_slot g k = wake_gateway (record g { active = write g.active k (g.active k - 1) })

-- `StopAdmission`, but for the cancelling of the open sockets.
unfoldable pub stop_admission : Gate → Gate
unfolding wake_gateway
stop_admission g = wake_gateway (record g { stopped = true })

-- `admissionWake`: the broadcast to wait for.
unfoldable pub admission_wake : Gate → Result ℕ
admission_wake g =
    if g.stopped || g.instance_lost
    then err (api_error 503 "gateway is stopping or has lost its instance lock")
    else ok g.wake

-- The queue limit of a kind.
unfoldable pub queue_limit : Kind → ℕ
queue_limit user = 20
queue_limit key = 100
queue_limit account = 100

abbrev pub total_limit : ℕ
total_limit = 128

-- The entry of `waitAdmission` into the queue.
unfoldable pub enter_queue : Gate → SlotKey → Option Gate
unfolding queue_limit
enter_queue g k =
    if leb (queue_limit k.kind) (g.waiting k) || leb total_limit g.queued
    then none
    else some (record g { waiting = write g.waiting k (g.waiting k + 1); queued = g.queued + 1 })

-- The deferred exit: a count of 0 leaves the map.
unfoldable pub leave_queue : Gate → SlotKey → Gate
leave_queue g k = record g { waiting = write g.waiting k (g.waiting k - 1); queued = g.queued - 1 }

-- What the deferred function does, by the local variable `queued`.
unfoldable pub leave_if : Bool → Gate → SlotKey → Gate
leave_if true g k = leave_queue g k
leave_if false g k = g

-- What one turn of the loop of `waitAdmission` meets: what it finds when it looks at the context, what `attempt`
-- answers and does to the state, and whether a heartbeat before the next turn fails. No attempt of the program
-- is ready with an error: chooseAccount gives an account or an error, and takeSlot no error.
pub data Attempt : Type 0 where
  ready : Attempt
  not_ready : Attempt
  attempt_error : ApiError → Attempt

pub data ContextState : Type 0 where
  live canceled timed_out : ContextState

pub record Turn : Type 0 where
  pub context : ContextState
  pub outcome : Attempt
  pub attempt_effect : Gate → Gate
  pub context_after : ContextState
  pub ping_error : Option ApiError
  -- What other calls do to the state while this one waits.
  pub others : Gate → Gate

-- How the call ends: whether it was queued, and its error.
pub record Finish : Type 0 where
  pub was_queued : Bool
  pub failure : Option ApiError

pub data Progress : Type 0 where
  finished : Gate → Finish → Progress
  again : Gate → Bool → Progress

abbrev finish_with : Gate → SlotKey → Bool → Option ApiError → Progress
finish_with g k queued failure =
    finished (leave_if queued g k) (record { was_queued = queued; failure = failure })

unfoldable pub kind_name : Kind → String
kind_name key = "key"
kind_name user = "user"
kind_name account = "account"

unfoldable pub kind_error : Kind → String → ApiError
kind_error kind text = record { status = 429; message = codes (kind_name kind) ++ codes text }

canceled_error : ApiError
canceled_error = api_error 499 "request canceled while waiting for concurrency"

-- The `select`, and the heartbeat that may end the call.
wait_turn : SlotKey → Turn → Gate → Progress
wait_turn k t g = elim t.ping_error [
  | some e ↦ finish_with g k true (some e)
  | none ↦ again (t.others g) true
]

-- After an attempt that found no slot: the first time the call joins the queue.
join_turn : SlotKey → Turn → Bool → Gate → Progress
unfolding wait_turn
join_turn k t true g = wait_turn k t g
join_turn k t false g = elim (enter_queue g k) [
  | none ↦ finish_with g k false (some (kind_error k.kind " concurrency queue is full"))
  | some g' ↦ wait_turn k t g'
]

-- After the attempt, by its answer and by what the context says then: a call whose context is over
-- goes on to the next turn, where it ends, unless the attempt has succeeded.
attempt_turn : SlotKey → Turn → Bool → Gate → Attempt → ContextState → Progress
unfolding join_turn
attempt_turn k t queued g ready _ = finish_with g k queued none
attempt_turn k t queued g not_ready live = join_turn k t queued g
attempt_turn k t queued g (attempt_error e) live = finish_with g k queued (some e)
attempt_turn k t queued g _ _ = again g queued

context_turn : SlotKey → Turn → Bool → Gate → ContextState → Progress
unfolding attempt_turn admission_wake canceled_error
context_turn k t queued g canceled = finish_with g k queued (some canceled_error)
context_turn k t queued g timed_out =
    finish_with g k queued (some (kind_error k.kind " concurrency wait timed out"))
context_turn k t queued g live = elim (admission_wake g) [
  | err e ↦ finish_with g k queued (some e)
  | ok _ ↦ attempt_turn k t queued (t.attempt_effect g) t.outcome t.context_after
]

-- One turn of the loop.
unfoldable pub wait_step : SlotKey → Turn → Bool → Gate → Progress
unfolding context_turn
wait_step k t queued g = context_turn k t queued g t.context

-- `waitAdmission` over the turns that the schedule gives it; `none` if it still waits.
unfoldable pub wait_admission : SlotKey → List Turn → Bool → Gate → Option (Gate × Finish)
wait_admission k [] queued g = none
wait_admission k (t ∷ ts) queued g = elim (wait_step k t queued g) [
  | finished g' f ↦ some (g', f)
  | again g' queued' ↦ wait_admission k ts queued' g'
]
