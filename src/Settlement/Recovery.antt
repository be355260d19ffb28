-- ===== src/Settlement/Recovery.antt =====
-- A receipt that could not be applied is settled by the recovery.
use mathlib.Core.Path.{subst}
use lite_api.Common.{
  ◌==◌, nat_eq, string_eq, text_eq, Text, text_beq_iff, Bool, true, List, [], ◌∷◌, In, Option, some,
  some_inj, ◌≡◌, ◌≢◌, refl, sym, ap, ◌∙◌, inl, inr, arith, Bool-cases,
}
use lite_api.Common.Errors.{ApiError, Result, ok, err, Result-cases}
use lite_api.Quotas.Platforms.{Instant}
use lite_api.Settlement.Receipts.{Codec, Receipt}
use lite_api.Settlement.Tables.{Database}
use lite_api.Settlement.Calls.{
  World, Outcome, Pending, apply_receipt, apply_in, forget, kept, dropped, is_whole, save_receipt,
  recover_entry, recover_receipts,
}
use lite_api.Settlement.Histories.{IsDone, apply_receipt-cases}
use lite_api.Settlement.Payable.Windows.{Knows}
use lite_api.Settlement.Payable.{
  IsPayable, Agree, apply_receipt-ok, settling-IsDone, settling-IsPayable,
}

-- What an entry of the pages is.
abbrev pub Entry : Type 0
Entry = Outcome × Text × Option Receipt

-- The entry holds a receipt as it was kept, which can be applied, and the calls for it go through.
pub record IsGood (c : Codec) (zones : Text → Bool) (entry : Entry) (db : Database) : Type 0 where
  pub receipt : Receipt
  pub has_receipt : entry.2 ≡ some receipt
  pub whole : is_whole c entry.1 receipt ≡ true
  pub answered : entry.0.database_answers ≡ true
  pub deleted : entry.0.delete_answers ≡ true
  pub knows : Knows zones entry.0.instant
  pub payable : IsPayable zones receipt db

abbrev pub AreGood : Codec → (Text → Bool) → List Entry → Database → Type 0
AreGood c zones entries db = (entry : Entry) → In entry entries → IsGood c zones entry db

abbrev pub AllAgree : List Entry → Type 0
AllAgree entries =
    (o p : Outcome) (i j : Text) (r s : Receipt)
    → In (o, i, some r) entries
    → In (p, j, some s) entries
    → Agree r s

-- No value is kept for the request.
abbrev pub IsForgotten : Text → Pending → Type 0
IsForgotten id pending = (entry : Text × Option Receipt) → In entry pending → entry.0 ≢ id

forget-IsForgotten : (id : Text) (pending : Pending) → IsForgotten id (forget id pending)
unfolding forget
forget-IsForgotten id [] entry m h = elim m [ ]
forget-IsForgotten id (e ∷ rest) entry m h = elim (Bool-cases (e.0 == id)) [
  | inl f ↦ forget-IsForgotten id rest entry (rw (f) at m) h
  | inr f ↦ elim (rw (f) at m) [
    | inl same ↦ ground (arith, text_beq_iff e.0 id, f, ap (λ x. x.0) same, h)
    | inr later ↦ forget-IsForgotten id rest entry later h
  ]
]

forget-keeps :
    (id other : Text) (pending : Pending)
    → IsForgotten id pending
    → IsForgotten id (forget other pending)
unfolding forget
forget-keeps id other [] h entry m = elim m [ ]
forget-keeps id other (e ∷ rest) h entry m = elim (Bool-cases (e.0 == other)) [
  | inl f ↦ forget-keeps id other rest (λ x n. h x (inr n)) entry (rw (f) at m)
  | inr f ↦ elim (rw (f) at m) [
    | inl same ↦ h entry (inl same)
    | inr later ↦ forget-keeps id other rest (λ x n. h x (inr n)) entry later
  ]
]

-- One good entry.
recover_entry-IsDone :
    (c : Codec) (zones : Text → Bool) (entry : Entry) (w : World)
    → (good : IsGood c zones entry w.database)
    → (db : Database) × (apply_receipt entry.0.instant good.receipt w.database ≡ ok db)
      × (recover_entry c entry.0 entry.1 entry.2 w
          ≡ (record { database = db; pending = forget entry.1 w.pending }, ok tt))
      × IsDone good.receipt db
unfolding recover_entry dropped apply_in
recover_entry-IsDone c zones (o, id, value) w good =
    let (db, e, d) =
      apply_receipt-ok zones o.instant good.knows good.receipt w.database good.payable in
    (db, e, rw (good.has_receipt, good.whole, good.answered, e, good.deleted) refl, d)

-- What an applied receipt leaves of another one.
module _ (at : Instant) (s : Receipt) (db db' : Database)
    (run : apply_receipt at s db ≡ ok db') where
  applied-IsPayable :
      (zones : Text → Bool) (r : Receipt)
      → Knows zones at
      → Agree s r
      → IsPayable zones r db
      → IsPayable zones r db'
  applied-IsPayable zones r knows agree p = elim (apply_receipt-cases at s db db' run) [
    | inl (same, _) ↦ subst (IsPayable zones r) same p
    | inr settles ↦ settling-IsPayable zones at knows s db db' settles r agree p
  ]

  applied-IsDone : (r : Receipt) → IsDone r db → IsDone r db'
  applied-IsDone r d = elim (apply_receipt-cases at s db db' run) [
    | inl (same, _) ↦ subst (IsDone r) same d
    | inr settles ↦ settling-IsDone at s db db' settles r d
  ]

-- The recovery went through: it succeeded, what was done before still is, each receipt of the pages is
-- done, and nothing is kept for their requests.
pub record IsRecovered (entries : List Entry) (w : World) (end : World × Result (Unit {0}))
    : Type 0 where
  pub succeeds : end.1 ≡ ok tt
  pub stays_done : (r : Receipt) → IsDone r w.database → IsDone r end.0.database
  pub all_done :
      (o : Outcome) (id : Text) (r : Receipt) → In (o, id, some r) entries → IsDone r end.0.database
  pub stays_forgotten : (id : Text) → IsForgotten id w.pending → IsForgotten id end.0.pending
  pub all_forgotten : (entry : Entry) → In entry entries → IsForgotten entry.1 end.0.pending

recover_receipts-IsRecovered :
    (c : Codec) (zones : Text → Bool) (entries : List Entry) (w : World)
    → AreGood c zones entries w.database
    → AllAgree entries
    → IsRecovered entries w (recover_receipts c entries w)
unfolding recover_receipts
recover_receipts-IsRecovered c zones [] w good agree = record {
  succeeds = refl;
  stays_done = λ r d. d;
  all_done = λ o id r m. elim m [ ];
  stays_forgotten = λ id f. f;
  all_forgotten = λ entry m. elim m [ ];
}
recover_receipts-IsRecovered c zones (e ∷ rest) w good agree =
    let first = good e (inl refl) in
    let (db, run, step, d) = recover_entry-IsDone c zones e w first in
    let v : World = record { database = db; pending = forget e.1 w.pending } in
    let skip : recover_receipts c (e ∷ rest) w ≡ recover_receipts c rest v =
      rw (ap (λ x. x.1) step, recover_receipts) (ap (λ x. recover_receipts c rest x.0) step) in
    let in_front : In (e.0, e.1, some first.receipt) (e ∷ rest) =
      inl (ap (λ x. (e.0, e.1, x)) (sym first.has_receipt)) in
    let later =
      recover_receipts-IsRecovered c zones rest v
        (λ n m.
          let g = good n (inr m) in
          record {
            receipt = g.receipt;
            has_receipt = g.has_receipt;
            whole = g.whole;
            answered = g.answered;
            deleted = g.deleted;
            knows = g.knows;
            payable =
                applied-IsPayable e.0.instant first.receipt w.database db run zones g.receipt
                  first.knows
                  (agree e.0 n.0 e.1 n.1 first.receipt g.receipt in_front
                    (inr (subst (λ x. In (n.0, n.1, x) rest) g.has_receipt m)))
                  g.payable;
          })
        (λ o p i j r s x y. agree o p i j r s (inr x) (inr y)) in
    subst (IsRecovered (e ∷ rest) w) (sym skip) (record {
      succeeds = later.succeeds;
      stays_done = λ r x.
          later.stays_done r (applied-IsDone e.0.instant first.receipt w.database db run r x);
      all_done = λ o id r m. elim m [
        | inl same ↦
            let is_first : first.receipt ≡ r =
              sym (some_inj (ap (λ x. x.2) same ∙ first.has_receipt)) in
            later.stays_done r (subst (λ x. IsDone x db) is_first d)
        | inr x ↦ later.all_done o id r x
      ];
      stays_forgotten = λ id f. later.stays_forgotten id (forget-keeps id e.1 w.pending f);
      all_forgotten = λ entry m. elim m [
        | inl same ↦ later.stays_forgotten entry.1 (
            subst (λ x. IsForgotten x v.pending) (ap (λ x. x.1) (sym same))
              (forget-IsForgotten e.1 w.pending))
        | inr x ↦ later.all_forgotten entry x
      ];
    })

save_receipt-kept :
    (o : Outcome) (r : Receipt) (w : World) (x : ApiError)
    → o.set_answers ≡ true
    → (save_receipt o r w).1 ≡ err x
    → (save_receipt o r w).0
      ≡ record w { pending = (r.request_id, some r) ∷ forget r.request_id w.pending }
unfolding save_receipt kept
save_receipt-kept o r w x set fails = elim (Result-cases (apply_in o r w.database)) [
  | inl (db, e) ↦ absurd (ground (arith, rw (e, save_receipt) at fails))
  | inr (y, e) ↦ rw (e, save_receipt, set) refl
]

-- A receipt that Redis took but that could not be applied is settled later: a recovery that reads all
-- that is pending, whose calls go through, and whose receipts are whole, can be applied and agree where
-- they name the same request, succeeds. Then the receipt is done, and nothing pending names its request.
-- A receipt can be applied where its user is there, its request is not known with another fingerprint,
-- and, if it counts against quotas of its account, the account is there and each of its limited windows
-- either rolls or has a schedule with an hour of the day, a day of the week and a zone that the calls know.
pub save_receipt-recover_receipts :
    (c : Codec) (zones : Text → Bool) (o : Outcome) (r : Receipt) (w : World) (x : ApiError)
    (entries : List Entry)
    → o.set_answers ≡ true
    → (save_receipt o r w).1 ≡ err x
    → ((id : Text) (value : Option Receipt)
        → In (id, value) (save_receipt o r w).0.pending
        → (p : Outcome) × In (p, id, value) entries)
    → AreGood c zones entries (save_receipt o r w).0.database
    → AllAgree entries
    → let (end, result) = recover_receipts c entries (save_receipt o r w).0 in
      (result ≡ ok tt) × IsDone r end.database × IsForgotten r.request_id end.pending
save_receipt-recover_receipts c zones o r w x entries set fails covers good agree =
    let end = recover_receipts-IsRecovered c zones entries (save_receipt o r w).0 good agree in
    let stays = save_receipt-kept o r w x set fails in
    let (p, m) =
      covers r.request_id (some r)
        (subst (λ v. In (r.request_id, some r) v.pending) (sym stays) (inl refl)) in
    (end.succeeds, end.all_done p r.request_id r m, end.all_forgotten (p, r.request_id, some r) m)
