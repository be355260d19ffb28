-- ===== src/Settlement/Histories.antt =====
-- All histories of the settlement: requests that are saved and recoveries, in any order, whatever the
-- database and Redis answer.
use mathlib.Core.Path.{subst, ◌∙◌}
use lite_api.Common.{
  String, if◌then◌else◌, ◌==◌, nat_eq, string_eq, text_eq, Text, text_beq_iff, nat_beq_iff, true,
  ◌&&◌, List, [], ◌∷◌, Option, none, some, ◌≡◌, ap, ◌⊎◌, inl, inr, arith, Bool-cases, Option-cases,
}
use lite_api.Common.Errors.{ok, >>=-eq-ok, Result-cases}
use lite_api.Quotas.Platforms.{Instant, increment_platform_quota}
use lite_api.Settlement.Receipts.{Codec, Receipt}
use lite_api.Settlement.Tables.{
  Database, User, Account, Request, request_of, request_beq, charge_account, charge_user,
  charge_key, update, map_option, log_of,
}
use lite_api.Settlement.Calls.{
  World, Outcome, compared, apply_new, apply_receipt, apply_in, settle, kept, dropped, is_whole,
  save_receipt, recover_entry, recover_receipts,
}

pub request_beq-same : (q p : Request) → request_beq q p ≡ true → q ≡ p
unfolding request_beq
request_beq-same (a, m) (b, n) h =
    let first : a ≡ b = ground (arith, text_beq_iff a b) in
    let second : m ≡ n = ground (arith, nat_beq_iff m n) in cc

-- The request was billed, as this receipt says: here, or in the archive.
abbrev pub IsDone : Receipt → Database → Type 0
IsDone r db =
    (db.settled (request_of r) ≡ some r.fingerprint)
    ⊎ ((db.settled (request_of r) ≡ none) × (db.archived (request_of r) ≡ some r.fingerprint))

-- The request is not known yet, and settling it leads to the second database.
abbrev pub IsSettling : Instant → Receipt → Database → Database → Type 0
IsSettling at r db db' =
    (db.settled (request_of r) ≡ none)
    × (db.archived (request_of r) ≡ none)
    × (settle at r db ≡ ok db')

compared-ok :
    (message : String) (r : Receipt) (f : Text) (db db' : Database)
    → compared message r f db ≡ ok db'
    → (f ≡ r.fingerprint) × (db ≡ db')
unfolding compared
compared-ok message r f db db' h = elim (Bool-cases (f == r.fingerprint)) [
  | inl e ↦ ((text_beq_iff f r.fingerprint).0 e, ground arith)
  | inr e ↦ absurd (ground arith)
]

pub apply_receipt-cases :
    (at : Instant) (r : Receipt) (db db' : Database)
    → apply_receipt at r db ≡ ok db'
    → ((db ≡ db') × IsDone r db) ⊎ IsSettling at r db db'
unfolding apply_receipt apply_new
apply_receipt-cases at r db db' h = elim (Option-cases (db.settled (request_of r))) [
  | inr (f, e) ↦
      let (same, stays) = compared-ok _ r f db db' (rw (e, apply_receipt) at h) in
      inl (stays, inl (e ∙ ap some same))
  | inl e ↦
      let h' = rw (e, apply_receipt) at h in
      elim (Option-cases (db.archived (request_of r))) [
        | inr (f, g) ↦
            let (same, stays) = compared-ok _ r f db db' (rw (g, apply_new) at h') in
            inl (stays, inr (e, g ∙ ap some same))
        | inl g ↦ inr (e, g, rw (g, apply_new) at h')
      ]
]

-- What a settlement writes.
abbrev pub settled_database : Instant → Receipt → Option Account → Database → Database
settled_database at r account db = record db {
  settled = λ q. if request_beq (request_of r) q then some r.fingerprint else db.settled q;
  users = update db.users r.user_id (charge_user at r.cost.debit);
  keys = update db.keys r.key_id (charge_key at r);
  accounts = λ j. if r.account_id == j then account else db.accounts j;
  quotas = λ u p.
      if u == r.user_id && p == r.platform
      then map_option (increment_platform_quota at r.cost.actual) (db.quotas u p)
      else db.quotas u p;
  logs = log_of r ∷ db.logs;
}

pub settle-ok :
    (at : Instant) (r : Receipt) (db db' : Database)
    → settle at r db ≡ ok db'
    → (account : Option Account) × (charge_account at r (db.accounts r.account_id) ≡ ok account)
      × (u : User) × (db.users r.user_id ≡ some u)
      × (settled_database at r account db ≡ db')
unfolding settle
settle-ok at r db db' h = elim (Option-cases (db.users r.user_id)) [
  | inl e ↦ absurd (ground (arith, e))
  | inr (u, e) ↦
      let (account, f, g) =
        >>=-eq-ok (charge_account at r (db.accounts r.account_id)) _ (rw (e, settle) at h) in
      (account, f, u, e, ground arith)
]

-- One call, with whatever it comes to.
pub data Step : World → World → Type 0 where
  saves : (o : Outcome) (r : Receipt) (w : World) → Step w (save_receipt o r w).0
  recovers :
      (c : Codec) (entries : List (Outcome × Text × Option Receipt)) (w : World)
      → Step w (recover_receipts c entries w).0

pub data Reach : World → World → Type 0 where
  here : {w : World} → Reach w w
  next : {w v u : World} → Reach w v → Step v u → Reach w u

-- A relation that each settlement keeps.
module _ (R : Database → Database → Type 0) (same : (db : Database) → R db db)
    (both : (a b c : Database) → R a b → R b c → R a c)
    (applies : (at : Instant) (r : Receipt) (db db' : Database)
      → IsSettling at r db db'
      → R db db') where
  apply-related :
      (at : Instant) (r : Receipt) (db db' : Database) → apply_receipt at r db ≡ ok db' → R db db'
  apply-related at r db db' h = elim (apply_receipt-cases at r db db' h) [
    | inl (stays, d) ↦ subst (R db) stays (same db)
    | inr settles ↦ applies at r db db' settles
  ]

  apply_in-related :
      (o : Outcome) (r : Receipt) (db db' : Database) → apply_in o r db ≡ ok db' → R db db'
  unfolding apply_in
  apply_in-related o r db db' h = elim (Bool-cases o.database_answers) [
    | inl e ↦ apply-related o.instant r db db' (rw e at h)
    | inr e ↦ absurd (ground (arith, e))
  ]

  save-related :
      (o : Outcome) (r : Receipt) (w : World) → R w.database (save_receipt o r w).0.database
  unfolding save_receipt kept dropped
  save-related o r w = elim (Result-cases (apply_in o r w.database)) [
    | inl (db, e) ↦
        rw (e, save_receipt)
          (elim (Bool-cases (o.set_answers && o.delete_answers)) [
            | inl f ↦ rw (f) (apply_in-related o r w.database db e)
            | inr f ↦ rw (f) (apply_in-related o r w.database db e)
          ])
    | inr (x, e) ↦
        rw (e, save_receipt)
          (elim (Bool-cases o.set_answers) [
            | inl f ↦ rw (f) (same w.database)
            | inr f ↦ rw (f) (same w.database)
          ])
  ]

  entry-related :
      (c : Codec) (o : Outcome) (id : Text) (value : Option Receipt) (w : World)
      → R w.database (recover_entry c o id value w).0.database
  unfolding recover_entry dropped
  entry-related c o id none w = same w.database
  entry-related c o id (some r) w = elim (Bool-cases (is_whole c id r)) [
    | inr f ↦ rw (f) (same w.database)
    | inl f ↦ rw (f) (elim (Result-cases (apply_in o r w.database)) [
      | inr (x, e) ↦ rw (e) (same w.database)
      | inl (db, e) ↦ rw (e) (elim (Bool-cases o.delete_answers) [
        | inl g ↦ rw (g) (apply_in-related o r w.database db e)
        | inr g ↦ rw (g) (apply_in-related o r w.database db e)
      ])
    ])
  ]

  recover-related :
      (c : Codec) (entries : List (Outcome × Text × Option Receipt)) (w : World)
      → R w.database (recover_receipts c entries w).0.database
  unfolding recover_receipts
  recover-related c [] w = same w.database
  recover-related c ((o, id, value) ∷ rest) w =
      let first = entry-related c o id value w in
      elim (Result-cases (recover_entry c o id value w).1) [
        | inl (t, e) ↦
            rw (e, recover_receipts)
              (both _ _ _ first (recover-related c rest (recover_entry c o id value w).0))
        | inr (x, e) ↦ rw (e, recover_receipts) first
      ]

  -- The relation holds between the first and the last database of a history.
  pub Reach-related : {w v : World} → Reach w v → R w.database v.database
  Reach-related {w} here = same w.database
  Reach-related (next before (saves o r v)) = both _ _ _ (Reach-related before) (save-related o r v)
  Reach-related (next before (recovers c entries v)) =
      both _ _ _ (Reach-related before) (recover-related c entries v)
