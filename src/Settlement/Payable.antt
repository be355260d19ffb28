-- ===== src/Settlement/Payable.antt =====
-- Receipts that can be applied.
pub mod Windows
use mathlib.Core.Path.{subst}
use lite_api.Common.{
  ℕ, ◌≤◌, ltb, ◌||◌, if◌then◌else◌, codes, [], ◌==◌, nat_eq, string_eq, text_eq, Text, text_beq_iff,
  nat_beq_iff, Bool, true, false, Option, none, some, some_inj, ◌≡◌, refl, sym, ap, ◌∙◌, ◌⊎◌, inl,
  inr, arith, Bool-cases, Option-cases,
}
use lite_api.Common.Errors.{ok}
use lite_api.Common.Rat.{Rat}
use lite_api.Quotas.Platforms.{Instant, Calendar}
use lite_api.Quotas.Accounts.{
  Extra, Limit, extra_number, extra_int, day_or, scheduled_reset, next_reset, is_fixed,
  quota_expired, window_delta, account_quota_delta, add_used, day_length, week_length,
}
use lite_api.Settlement.Receipts.{Receipt}
use lite_api.Settlement.Tables.{
  Database, User, Account, Request, request_of, request_beq, charge_account, charge_user,
  map_option,
}
use lite_api.Settlement.Calls.{compared, apply_new, apply_receipt, settle}
use lite_api.Settlement.Histories.{
  request_beq-same, IsDone, IsSettling, settled_database, settle-ok,
}
use lite_api.Settlement.Payable.Windows.{Knows, CanResetAll, account_quota_delta-CanReset}

-- The account of the receipt can be charged.
abbrev pub IsChargeable : (Text → Bool) → Receipt → Option Account → Type 0
IsChargeable zones r o =
    (r.account_quota ≡ false) ⊎ ((a : Account) × (o ≡ some a) × CanResetAll zones a.extra)

-- The receipt can be applied: the user is there, the account can be charged, and the request is not
-- known with another fingerprint.
pub record IsPayable (zones : Text → Bool) (r : Receipt) (db : Database) : Type 0 where
  pub has_user : (u : User) × (db.users r.user_id ≡ some u)
  pub chargeable : IsChargeable zones r (db.accounts r.account_id)
  pub settled_same : (f : Text) → db.settled (request_of r) ≡ some f → f ≡ r.fingerprint
  pub archived_same : (f : Text) → db.archived (request_of r) ≡ some f → f ≡ r.fingerprint

charge_account-ok :
    (zones : Text → Bool) (at : Instant)
    → Knows zones at
    → (r : Receipt) (o : Option Account) → IsChargeable zones r o
    → (account : Option Account) × (charge_account at r o ≡ ok account)
unfolding charge_account
charge_account-ok zones at knows r none (inl e) = (none, rw (e) refl)
charge_account-ok zones at knows r none (inr (a, f, _)) = absurd (cc)
charge_account-ok zones at knows r (some a) (inl e) =
    (some (record a { last_used = some at.database_now }), rw (e) refl)
charge_account-ok zones at knows r (some a) (inr (b, f, rolling)) =
    let rolling' : CanResetAll zones a.extra =
      subst (λ x. CanResetAll zones x.extra) (sym (some_inj f)) rolling in
    let (e, g, _) =
      account_quota_delta-CanReset zones at knows
        (record { num = r.account_debit; den = 100000000 }) a.extra rolling' in
    elim (Bool-cases r.account_quota) [
      | inl h ↦ (some (record { extra = e; last_used = some at.database_now }), rw (h, g) refl)
      | inr h ↦ (some (record a { last_used = some at.database_now }), rw (h) refl)
    ]

request_beq_refl : (q : Request) → request_beq q q ≡ true
unfolding request_beq
request_beq_refl (a, m) = ground (arith, text_beq_iff a a, nat_beq_iff m m)

pub apply_receipt-ok :
    (zones : Text → Bool) (at : Instant)
    → Knows zones at
    → (r : Receipt) (db : Database) → IsPayable zones r db
    → (db' : Database) × (apply_receipt at r db ≡ ok db') × IsDone r db'
unfolding apply_receipt apply_new compared settle
apply_receipt-ok zones at knows r db p = elim (Option-cases (db.settled (request_of r))) [
  | inr (f, e) ↦
      let same = p.settled_same f e in
      (
        db,
        rw (e, apply_receipt, (text_beq_iff f r.fingerprint).1 same, compared) refl,
        inl (e ∙ ap some same),
      )
  | inl e ↦ elim (Option-cases (db.archived (request_of r))) [
    | inr (f, g) ↦
        let same = p.archived_same f g in
        (
          db,
          rw (e, apply_receipt, g, apply_new, (text_beq_iff f r.fingerprint).1 same, compared) refl,
          inr (e, g ∙ ap some same),
        )
    | inl g ↦
        let (u, h) = p.has_user in
        let (account, k) =
          charge_account-ok zones at knows r (db.accounts r.account_id) p.chargeable in
        (
          settled_database at r account db,
          rw (e, apply_receipt, g, apply_new, h, settle, k) refl,
          inl (rw (request_beq_refl (request_of r)) refl),
        )
  ]
]

-- Two receipts of one request agree.
abbrev pub Agree : Receipt → Receipt → Type 0
Agree r s = request_of r ≡ request_of s → r.fingerprint ≡ s.fingerprint

charge_account-CanReset :
    (zones : Text → Bool) (at : Instant) (s : Receipt) (a : Account) (account : Option Account)
    → Knows zones at
    → charge_account at s (some a) ≡ ok account
    → CanResetAll zones a.extra
    → (b : Account) × (account ≡ some b) × CanResetAll zones b.extra
unfolding charge_account
charge_account-CanReset zones at s a account knows h rolling = elim (Bool-cases s.account_quota) [
  | inr e ↦ (record a { last_used = some at.database_now }, ground (arith, e), rolling)
  | inl e ↦
      let (x, g, rolling') =
        account_quota_delta-CanReset zones at knows
          (record { num = s.account_debit; den = 100000000 }) a.extra rolling in
      (record { extra = x; last_used = some at.database_now }, ground (arith, e, g), rolling')
]

map_option-some :
    {X : Type 0} (f : X → X) (o : Option X) (x : X)
    → o ≡ some x
    → (y : X) × (map_option f o ≡ some y)
map_option-some f none x h = absurd cc
map_option-some f (some y) x h = (f y, refl)

-- What a settlement of another receipt leaves as it is.
module _ (at : Instant) (s : Receipt) (db db' : Database) (settles : IsSettling at s db db') where
  pub settling-IsDone : (r : Receipt) → IsDone r db → IsDone r db'
  settling-IsDone r d =
      let (unknown, unarchived, run) = settles in
      let (account, charged, u, e, same) = settle-ok at s db db' run in
      elim (Bool-cases (request_beq (request_of s) (request_of r))) [
        | inl f ↦
            let q = request_beq-same (request_of s) (request_of r) f in
            elim d [
              | inl g ↦ absurd (ground (arith, rw q at unknown, g))
              | inr (g, h) ↦ absurd (ground (arith, rw q at unarchived, h))
            ]
        | inr f ↦
            subst (IsDone r) same
              (elim d [ inl g ↦ inl (rw (f) g) | inr (g, h) ↦ inr (rw (f) g, h) ])
      ]

module _ (zones : Text → Bool) (at : Instant) (knows : Knows zones at) (s : Receipt)
    (db db' : Database) (settles : IsSettling at s db db') where
  settling-IsChargeable :
      (r : Receipt)
      → IsChargeable zones r (db.accounts r.account_id)
      → IsChargeable zones r (db'.accounts r.account_id)
  settling-IsChargeable r (inl e) = inl e
  settling-IsChargeable r (inr (a, f, rolling)) =
      let (unknown, unarchived, run) = settles in
      let (account, charged, u, e, same) = settle-ok at s db db' run in
      subst (λ d. IsChargeable zones r (d.accounts r.account_id)) same
        (elim (Bool-cases (s.account_id == r.account_id)) [
          | inr g ↦ inr (a, rw (g) f, rolling)
          | inl g ↦
              let lookup : db.accounts s.account_id ≡ some a =
                ap db.accounts ((nat_beq_iff s.account_id r.account_id).0 g) ∙ f in
              let (b, h, rolling') =
                charge_account-CanReset zones at s a account knows (rw lookup at charged) rolling in
              inr (b, rw (g) h, rolling')
        ])

  pub settling-IsPayable : (r : Receipt) → Agree s r → IsPayable zones r db → IsPayable zones r db'
  settling-IsPayable r agree p =
      let (unknown, unarchived, run) = settles in
      let (account, charged, u, e, same) = settle-ok at s db db' run in
      let (x, h) = p.has_user in
      record {
        has_user =
            subst (λ d. (y : User) × (d.users r.user_id ≡ some y)) same
              (elim (Bool-cases (s.user_id == r.user_id)) [
                | inl g ↦ rw (g) (map_option-some (charge_user at s.cost.debit) _ x h)
                | inr g ↦ (x, rw (g) h)
              ]);
        chargeable = settling-IsChargeable r p.chargeable;
        settled_same =
            subst (λ d. (f : Text) → d.settled (request_of r) ≡ some f → f ≡ r.fingerprint) same
              (elim (Bool-cases (request_beq (request_of s) (request_of r))) [
                | inl g ↦ λ f k. sym (some_inj (rw g at k)) ∙ agree (request_beq-same _ _ g)
                | inr g ↦ λ f k. p.settled_same f (rw g at k)
              ]);
        archived_same =
            subst (λ d. (f : Text) → d.archived (request_of r) ≡ some f → f ≡ r.fingerprint) same
              p.archived_same;
      }
