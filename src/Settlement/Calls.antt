-- ===== src/Settlement/Calls.antt =====
-- The calls: applyReceipt, saveReceipt and recoverReceipts of internal/app/settlement.go.
use lite_api.Common.{
  if◌then◌else◌, ◌==◌, nat_eq, string_eq, text_eq, Text, String, Bool, true, not, ◌&&◌, List, [],
  ◌∷◌, Option, none, some,
}
use lite_api.Common.Errors.{Result, ok, err, ◌>>=◌, conflict, api_error}
use lite_api.Quotas.Platforms.{Instant, increment_platform_quota}
use lite_api.Settlement.Receipts.{Codec, Receipt, fingerprint_of}
use lite_api.Settlement.Tables.{
  Database, request_of, request_beq, charge_user, charge_key, charge_account, log_of, map_option,
  update,
}

-- The statements after the two tests on the request.
unfoldable pub settle : Instant → Receipt → Database → Result Database
settle at r db = elim (db.users r.user_id) [
  | none ↦ err (api_error 500 "billing user missing")
  | some _ ↦ do
    account ← charge_account at r (db.accounts r.account_id)
    ok (record db {
      settled = λ q. if request_beq (request_of r) q then some r.fingerprint else db.settled q;
      users = update db.users r.user_id (charge_user at r.cost.debit);
      keys = update db.keys r.key_id (charge_key at r);
      accounts = λ j. if r.account_id == j then account else db.accounts j;
      quotas = λ u p.
          if u == r.user_id && p == r.platform
          then map_option (increment_platform_quota at r.cost.actual) (db.quotas u p)
          else db.quotas u p;
      logs = log_of r ∷ db.logs;
    })
]

-- A row of the request decides: the same fingerprint is done, and another one a conflict.
unfoldable pub compared : String → Receipt → Text → Database → Result Database
compared message r fingerprint db =
    if fingerprint == r.fingerprint then ok db else err (conflict message)

unfoldable pub apply_new : Instant → Receipt → Database → Result Database
apply_new at r db = elim (db.archived (request_of r)) [
  | some f ↦ compared "archived billing fingerprint conflict" r f db
  | none ↦ settle at r db
]

-- `applyReceipt`, where the database answers.
unfoldable pub apply_receipt : Instant → Receipt → Database → Result Database
apply_receipt at r db = elim (db.settled (request_of r)) [
  | some f ↦ compared "billing fingerprint conflict" r f db
  | none ↦ apply_new at r db
]

-- What the calls of other systems come to: whether the transaction goes through, and whether the
-- commands of Redis do.
pub record Outcome : Type 0 where
  pub instant : Instant
  pub database_answers : Bool
  pub set_answers : Bool
  pub delete_answers : Bool

-- The hash `gateway:pending-billing`: a value that does not parse is none.
abbrev pub Pending : Type 0
Pending = List (Text × Option Receipt)

pub record World : Type 0 where
  pub database : Database
  pub pending : Pending

unfoldable pub forget : Text → Pending → Pending
forget id [] = []
forget id (entry ∷ rest) = if entry.0 == id then forget id rest else entry ∷ forget id rest

unfoldable pub apply_in : Outcome → Receipt → Database → Result Database
apply_in o r db =
    if o.database_answers then apply_receipt o.instant r db else err (api_error 500 "database")

-- The world after the receipt was kept, if it was.
unfoldable pub kept : Outcome → Receipt → World → World
kept o r w =
    if o.set_answers
    then record w { pending = (r.request_id, some r) ∷ forget r.request_id w.pending }
    else w

unfoldable pub dropped : Bool → Text → World → World
dropped does id w = if does then record w { pending = forget id w.pending } else w

-- `saveReceipt`: the world after it, and whether it succeeds.
unfoldable pub save_receipt : Outcome → Receipt → World → World × Result (Unit {0})
save_receipt o r w =
    let before = kept o r w in
    elim (apply_in o r w.database) [
      | err e ↦ (before, err e)
      | ok db ↦ (
        dropped (o.set_answers && o.delete_answers) r.request_id (record before { database = db }),
        ok tt,
      )
    ]

unfoldable pub is_whole : Codec → Text → Receipt → Bool
is_whole c id r = r.request_id == id && r.fingerprint == fingerprint_of c r

-- One entry of a page.
unfoldable pub recover_entry :
    Codec → Outcome → Text → Option Receipt → World → World × Result (Unit {0})
recover_entry c o id none w = (w, err (api_error 500 "invalid pending billing receipt"))
recover_entry c o id (some r) w =
    if not (is_whole c id r)
    then (w, err (api_error 500 "invalid pending billing receipt"))
    else elim (apply_in o r w.database) [
      | err e ↦ (w, err e)
      | ok db ↦
          if o.delete_answers
          then (dropped true id (record w { database = db }), ok tt)
          else (record w { database = db }, err (api_error 500 "redis"))
    ]

-- `recoverReceipts`, with the pages that `HScan` returns, put together, and what each call comes to.
unfoldable pub recover_receipts :
    Codec → List (Outcome × Text × Option Receipt) → World → World × Result (Unit {0})
recover_receipts c [] w = (w, ok tt)
recover_receipts c ((o, id, value) ∷ rest) w =
    let (w', result) = recover_entry c o id value w in
    elim result [ err e ↦ (w', err e) | ok _ ↦ recover_receipts c rest w' ]
