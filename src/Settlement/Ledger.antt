-- ===== src/Settlement/Ledger.antt =====
-- What users are charged.
use mathlib.Core.Path.{subst}
use lite_api.Common.{
  ℕ, ◌+◌, if◌then◌else◌, ◌==◌, nat_eq, List, [], ◌∷◌, Option, some, ◌≡◌, refl, inl, inr, arith,
  Bool-cases,
}
use lite_api.Common.Int.{ℤ, pos, negsuc, pos_part, neg_part}
use lite_api.Quotas.Platforms.{Instant}
use lite_api.Settlement.Receipts.{Receipt}
use lite_api.Settlement.Tables.{Database, Log, User, Account, charge_user, debited, log_of}
use lite_api.Settlement.Calls.{World}
use lite_api.Settlement.Histories.{IsSettling, settled_database, settle-ok, Reach, Reach-related}

-- What the rows of a user say was taken from the balance.
unfoldable pub billed : ℕ → List Log → ℕ
billed user [] = 0
billed user (l ∷ ls) =
    let rest = billed user ls in
    if l.receipt.user_id == user then l.receipt.cost.debit + rest else rest

-- `after` is `before` less `n`.
abbrev pub IsLess : ℤ → ℕ → ℤ → Type 0
IsLess before n after = pos_part after + neg_part before + n ≡ pos_part before + neg_part after

debited-IsLess : (b : ℤ) (d : ℕ) → IsLess b d (debited b d)
unfolding debited
debited-IsLess (pos a) d = ground arith
debited-IsLess (negsuc a) d = omega arith

-- Every user keeps a row, and the balance went down by what the new rows of the log say.
abbrev pub ArePaid : Database → Database → Type 0
ArePaid a b =
    (user : ℕ) (x : User)
    → a.users user ≡ some x
    → (y : User) × (b.users user ≡ some y)
      × (n : ℕ) × (billed user b.logs ≡ n + billed user a.logs)
      × IsLess x.balance n y.balance

same-ArePaid : (a : Database) → ArePaid a a
same-ArePaid a user x h = (x, h, 0, omega arith, omega arith)

both-ArePaid : (a b c : Database) → ArePaid a b → ArePaid b c → ArePaid a c
both-ArePaid a b c p q user x h =
    let (y, e, n, f, g) = p user x h in
    let (z, e', m, f', g') = q user y e in (z, e', m + n, omega arith, omega arith)

settled_database-ArePaid :
    (at : Instant) (r : Receipt) (account : Option Account) (db : Database)
    → ArePaid db (settled_database at r account db)
unfolding billed log_of charge_user
settled_database-ArePaid at r account db user x h = elim (Bool-cases (r.user_id == user)) [
  | inl e ↦ (
    charge_user at r.cost.debit x,
    rw (e, h) refl,
    r.cost.debit,
    rw (e) refl,
    debited-IsLess x.balance r.cost.debit,
  )
  | inr e ↦ (x, rw (e) h, 0, rw (e) (omega arith), omega arith)
]

settling-ArePaid :
    (at : Instant) (r : Receipt) (db db' : Database) → IsSettling at r db db' → ArePaid db db'
settling-ArePaid at r db db' (_, _, settles) =
    let (account, charged, u, e, same) = settle-ok at r db db' settles in
    subst (ArePaid db) same (settled_database-ArePaid at r account db)

-- In every history of saved and recovered requests the balance of a user goes down by exactly the debits
-- of the rows that were added to the log for the user: a failure on the way neither takes money without
-- a row nor leaves a row unpaid, and no balance is too small to be charged.
pub Reach-ArePaid : (w v : World) → Reach w v → ArePaid w.database v.database
Reach-ArePaid w v h = Reach-related ArePaid same-ArePaid both-ArePaid settling-ArePaid h
