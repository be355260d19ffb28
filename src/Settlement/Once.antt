-- ===== src/Settlement/Once.antt =====
-- Each request is billed once.
use mathlib.Core.Path.{subst}
use lite_api.Common.{
  ℕ, suc, if◌then◌else◌, nat_eq, text_eq, Text, List, [], ◌∷◌, Option, none, some, ◌≡◌, ap, inl,
  inr, arith, Bool-cases,
}
use lite_api.Quotas.Platforms.{Instant}
use lite_api.Settlement.Receipts.{Receipt}
use lite_api.Settlement.Tables.{Database, Log, Account, Request, request_of, request_beq, log_of}
use lite_api.Settlement.Calls.{World}
use lite_api.Settlement.Histories.{
  request_beq-same, IsSettling, settled_database, settle-ok, Reach, Reach-related,
}

-- The rows of a request.
unfoldable pub logged : Request → List Log → ℕ
logged q [] = 0
logged q (l ∷ ls) =
    let rest = logged q ls in if request_beq (request_of l.receipt) q then suc rest else rest

-- A request that was settled has one row in the log, and one that was not has none.
abbrev pub IsBilledOnce : Database → Type 0
IsBilledOnce db =
    (q : Request)
    → (db.settled q ≡ none → logged q db.logs ≡ 0)
      × ((f : Text) → db.settled q ≡ some f → logged q db.logs ≡ 1)

settled_database-IsBilledOnce :
    (at : Instant) (r : Receipt) (account : Option Account) (db : Database)
    → db.settled (request_of r) ≡ none
    → IsBilledOnce db
    → IsBilledOnce (settled_database at r account db)
unfolding logged log_of
settled_database-IsBilledOnce at r account db unknown once q =
    elim (Bool-cases (request_beq (request_of r) q)) [
      | inl e ↦
          let unseen =
            (once q).0
              (subst (λ p. db.settled p ≡ none) (request_beq-same (request_of r) q e) unknown) in
          (λ h. absurd (ground (arith, e)), λ f h. rw (e) (ap suc unseen))
      | inr e ↦ (λ h. rw (e) ((once q).0 (rw e at h)), λ f h. rw (e) ((once q).1 f (rw e at h)))
    ]

settling-IsBilledOnce :
    (at : Instant) (r : Receipt) (db db' : Database)
    → IsSettling at r db db'
    → IsBilledOnce db
    → IsBilledOnce db'
settling-IsBilledOnce at r db db' (unknown, _, settles) once =
    let (account, charged, u, e, same) = settle-ok at r db db' settles in
    subst IsBilledOnce same (settled_database-IsBilledOnce at r account db unknown once)

-- If each settled request has one row in the log of the usage, and every other request none, then so it
-- stays, however often requests are saved and pending ones recovered, and whatever fails on the way.
pub Reach-IsBilledOnce :
    (w v : World) → IsBilledOnce w.database → Reach w v → IsBilledOnce v.database
Reach-IsBilledOnce w v once h =
    Reach-related (λ a b. IsBilledOnce a → IsBilledOnce b) (λ db o. o) (λ a b c f g o. g (f o))
      settling-IsBilledOnce h once
