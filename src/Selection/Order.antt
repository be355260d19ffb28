-- ===== src/Selection/Order.antt =====
-- The order of the candidates: the load, the pool of the model and the account of the session, in
-- `chooseAccount` of internal/app/gateway.go. The rows come in the order of the SELECT.
use lite_api.Common.{
  ℕ, ◌*◌, ltb, if◌then◌else◌, ◌==◌, nat_eq, Text, Bool, true, false, not, ◌&&◌, ◌||◌, List, [], ◌∷◌,
  Option, none, some, length, contains,
}
use lite_api.Slots.{SlotKey, account, Gate}

-- A candidate. A load factor that is not positive is none. Priorities are signed in the program; only
-- whether two are the same counts here, so that they are numbered from 0.
pub record Candidate : Type 0 where
  pub id : ℕ
  pub concurrency : ℕ
  pub load_factor : Option ℕ
  pub group_priority : ℕ
  pub priority : ℕ
  pub rate : Text

unfoldable pub at_least_one : ℕ → ℕ
at_least_one n = if ltb n 1 then 1 else n

unfoldable pub capacity_of : ℕ → Option ℕ → ℕ
capacity_of concurrency none = at_least_one concurrency
capacity_of concurrency (some factor) = at_least_one (if ltb 0 factor then factor else concurrency)

abbrev pub slot_of : ℕ → SlotKey
slot_of id = record { kind = account; id = id }

-- Whether the load of the first candidate is less than that of the second.
unfoldable pub is_lighter : Gate → Candidate → Candidate → Bool
is_lighter g c d =
    ltb (g.active (slot_of c.id) * capacity_of d.concurrency d.load_factor)
      (g.active (slot_of d.id) * capacity_of c.concurrency c.load_factor)

unfoldable pub same_priority : Candidate → Candidate → Bool
same_priority c d = c.group_priority == d.group_priority && c.priority == d.priority

-- `sort.SliceStable`: `c` stands before the others, and passes those that are less.
unfoldable pub insert : (Candidate → Candidate → Bool) → Candidate → List Candidate → List Candidate
insert less c [] = c ∷ []
insert less c (d ∷ ds) = if less d c then d ∷ insert less c ds else c ∷ d ∷ ds

unfoldable pub sort_stable : (Candidate → Candidate → Bool) → List Candidate → List Candidate
sort_stable less [] = []
sort_stable less (c ∷ cs) = insert less c (sort_stable less cs)

-- The sort by load of each run of candidates with the same priority.
unfoldable pub by_load : Gate → List Candidate → List Candidate
by_load g = sort_stable (λ d c. same_priority d c && is_lighter g d c)

unfoldable pub is_sticky : Option ℕ → ℕ → Bool
is_sticky none id = false
is_sticky (some sticky) id = sticky == id

unfoldable pub has_sticky : Option ℕ → Bool
has_sticky none = false
has_sticky (some n) = true

-- The test that puts the pool first, and the account of the session first within it.
unfoldable pub goes_first : List ℕ → Option ℕ → Candidate → Candidate → Bool
goes_first preferred sticky l r =
    if contains preferred l.id
    then (if contains preferred r.id
        then is_sticky sticky l.id && not (is_sticky sticky r.id)
        else true)
    else if contains preferred r.id
    then false
    else length preferred == 0 && is_sticky sticky l.id && not (is_sticky sticky r.id)

-- The candidates in the order in which they are tried.
unfoldable pub ordered : Gate → List ℕ → Option ℕ → List Candidate → List Candidate
ordered g preferred sticky cs =
    if ltb 0 (length preferred) || has_sticky sticky
    then sort_stable (goes_first preferred sticky) (by_load g cs)
    else by_load g cs
