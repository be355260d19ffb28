-- ===== src/Selection/Loop.antt =====
-- The loop over the candidates in `chooseAccount` of internal/app/gateway.go. What the database answers
-- about a candidate is an argument; other calls do nothing to the slots between the steps of the loop.
use lite_api.Common.{
  ℕ, codes, ltb, if◌then◌else◌, ◌==◌, nat_eq, string_eq, text_eq, Text, String, Bool, true, false,
  not, ◌&&◌, ◌||◌, List, [], ◌∷◌, Option, none, some, contains,
}
use lite_api.Common.Errors.{ApiError, Result, ok, err}
use lite_api.Common.Rat.{Rat}
use lite_api.GroupFallback.{audio_protocol}
use lite_api.Mapping.{resolve_model_mapping}
use lite_api.Quotas.Accounts.{account_quota_available}
use lite_api.Slots.{Gate, take_slot, release_slot}
use lite_api.Selection.Profit.{profit_allows}
use lite_api.Selection.Matching.{Loaded, Ask, is_allowed_by, is_compaction}
use lite_api.Selection.Order.{Candidate, slot_of, ordered}

-- The account that a response is bound to.
pub record Binding : Type 0 where
  pub account_id : ℕ
  pub target : Text

-- What stays the same for all candidates. `fallback_priced` and `upstream_priced` say whether a platform
-- has a price for a model, where the channel of the fallback or of the key asks for one.
pub record Plan : Type 0 where
  pub ask : Ask
  pub excluded : List ℕ
  pub binding : Option Binding
  pub threshold : Option Rat
  pub channel_model : Text
  pub dispatch_model : Text
  pub fallback_priced : Option (String → Text → Bool)
  pub upstream_priced : Option (String → Text → Bool)
  pub now : ℕ

-- The second read of the rate: it is there, the row is not, or the database fails.
pub data Recheck : Type 0 where
  rate_now : Text → Recheck
  row_gone : Recheck
  read_error : ApiError → Recheck

-- A candidate with what is read about it: the account, if it can be loaded, and its rate again.
pub record Visit : Type 0 where
  pub candidate : Candidate
  pub loaded : Option Loaded
  pub recheck : Recheck

pub record Selected : Type 0 where
  pub account_id : ℕ
  pub rate : Text
  pub upstream_model : Text

-- How the choice ends: an account, the first busy one, none, or an error.
pub data Choice : Type 0 where
  selected : Selected → Choice
  busy : ℕ → Choice
  no_upstream : Choice
  failed : ApiError → Choice

unfoldable pub is_bound : Option Binding → ℕ → Bool
is_bound none id = true
is_bound (some b) id = b.account_id == id

unfoldable pub is_bound_to : Option Binding → Text → Bool
is_bound_to none target = true
is_bound_to (some b) target = b.target == target

-- The tests before the account is loaded.
unfoldable pub is_candidate : Plan → Candidate → Bool
is_candidate p c =
    not (contains p.excluded c.id) && is_bound p.binding c.id && profit_allows p.threshold c.rate

unfoldable pub has_price : Option (String → Text → Bool) → String → Text → Bool
has_price none platform model = true
has_price (some priced) platform model = priced platform model

unfoldable pub succeeds : Result (Text × Bool) → Bool
succeeds (ok r) = true
succeeds (err e) = false

unfoldable pub mapped_name : Result (Text × Bool) → Option Text
mapped_name (ok r) = some r.0
mapped_name (err e) = none

-- A call of Messages that is dispatched: the account must map the model of the dispatch, and its own
-- mapping of the model of the channel comes first.
unfoldable pub dispatched_name : Text → Result (Text × Bool) → Result (Text × Bool) → Option Text
dispatched_name dispatch_model at_dispatch (ok r) =
    if not (succeeds at_dispatch) then none else some (if r.1 then r.0 else dispatch_model)
dispatched_name dispatch_model at_dispatch (err e) =
    if not (succeeds at_dispatch) then none else some dispatch_model

unfoldable pub model_name : Plan → Loaded → Option Text
model_name p u =
    let own =
      resolve_model_mapping u.compact_mapping u.model_mapping p.channel_model
        (is_compaction p.ask.action) in
    if p.dispatch_model == []
    then mapped_name own
    else dispatched_name p.dispatch_model
        (resolve_model_mapping u.compact_mapping u.model_mapping p.dispatch_model false) own

abbrev text_of : String → Text
text_of = codes

-- The model that the account is asked for; none if it does not serve the call.
unfoldable pub upstream_name : Plan → Loaded → Option Text
upstream_name p u =
    if not (p.dispatch_model == [])
      && not (
          succeeds (resolve_model_mapping u.compact_mapping u.model_mapping p.dispatch_model false))
    then none
    else if p.ask.protocol == "realtime"
    then some p.ask.model
    else if audio_protocol p.ask.protocol || p.ask.protocol == "custom-voices"
    then some (text_of p.ask.protocol)
    else model_name p u

-- The tests on the loaded account, before the slot: the model that it is asked for.
unfoldable pub acceptable : Plan → Loaded → Option Text
acceptable p u =
    if not (is_bound_to p.binding u.target)
      || p.ask.on_socket && not u.socket_eligible
      || not (is_allowed_by p.ask u)
    then none
    else elim (upstream_name p u) [
      | none ↦ none
      | some name ↦
          if has_price p.fallback_priced u.platform name
            && has_price p.upstream_priced u.platform name
            && account_quota_available u.extra p.now
          then some name
          else none
    ]

abbrev pub chosen : ℕ → Text → Text → Choice
chosen id name rate = selected (record { account_id = id; rate = rate; upstream_model = name })

-- The slot is taken: the rate is read again where there is a threshold. The answer is none where the
-- loop goes on.
unfoldable pub confirm_rate : Rat → ℕ → Text → Recheck → Gate → Gate × Option Choice
confirm_rate threshold id name (rate_now rate) g =
    if profit_allows (some threshold) rate
    then (g, some (chosen id name rate))
    else (release_slot g (slot_of id), none)
confirm_rate threshold id name row_gone g = (release_slot g (slot_of id), none)
confirm_rate threshold id name (read_error e) g = (release_slot g (slot_of id), some (failed e))

unfoldable pub confirm : Option Rat → Visit → Text → Gate → Gate × Option Choice
confirm none v name g = (g, some (chosen v.candidate.id name v.candidate.rate))
confirm (some threshold) v name g = confirm_rate threshold v.candidate.id name v.recheck g

unfoldable pub first_busy : Option ℕ → Candidate → Option ℕ
first_busy (some id) c = some id
first_busy none c = if ltb 0 c.concurrency then some c.id else none

-- A turn on an account that could be loaded, with the model that it is asked for: the state, the busy
-- account so far, and how the loop ends, if it does.
unfoldable pub try_slot :
    Plan → Visit → Option Text → Gate → Option ℕ → Gate × Option ℕ × Option Choice
try_slot p v none g so_far = (g, so_far, none)
try_slot p v (some name) g so_far =
    let (taken, has_slot) = take_slot g (slot_of v.candidate.id) v.candidate.concurrency in
    if has_slot
    then (let (g', end) = confirm p.threshold v name taken in (g', so_far, end))
    else (taken, first_busy so_far v.candidate, none)

unfoldable pub try_loaded :
    Plan → Visit → Option Loaded → Gate → Option ℕ → Gate × Option ℕ × Option Choice
try_loaded p v none g so_far = (g, so_far, none)
try_loaded p v (some u) g so_far = try_slot p v (acceptable p u) g so_far

-- One turn.
unfoldable pub turn : Plan → Visit → Gate → Option ℕ → Gate × Option ℕ × Option Choice
turn p v g so_far =
    if is_candidate p v.candidate then try_loaded p v v.loaded g so_far else (g, so_far, none)

unfoldable pub end_of : Option ℕ → Choice
end_of none = no_upstream
end_of (some id) = busy id

-- The loop.
unfoldable pub choose : Plan → List Visit → Gate → Option ℕ → Gate × Choice
choose p [] g so_far = (g, end_of so_far)
choose p (v ∷ vs) g so_far =
    let (g', so_far', end) = turn p v g so_far in
    elim end [ some choice ↦ (g', choice) | none ↦ choose p vs g' so_far' ]

-- The visits of the candidates in their order.
unfoldable pub visits :
    (Candidate → Option Loaded) → (Candidate → Recheck) → List Candidate → List Visit
visits load recheck [] = []
visits load recheck (c ∷ cs) =
    record { candidate = c; loaded = load c; recheck = recheck c } ∷ visits load recheck cs

-- `chooseAccount`, from the rows of the candidates on.
unfoldable pub choose_account :
    Plan
    → List ℕ
    → Option ℕ
    → (Candidate → Option Loaded)
    → (Candidate → Recheck)
    → List Candidate
    → Gate
    → Gate × Choice
choose_account p preferred sticky load recheck rows g =
    choose p (visits load recheck (ordered g preferred sticky rows)) g none
