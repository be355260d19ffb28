-- ===== src/Idempotency/Claims.antt =====
-- A claimed key stays with its call, and its answer is replayed.
use mathlib.Core.Path.{subst}
use lite_api.Common.{
  ◌∙◌, ℕ, ◌==◌, nat_eq, text_eq, text_beq_iff, nat_beq_iff, ◌≡◌, ◌≢◌, refl, ◌⊎◌, inl, inr, ◌↔◌,
  Text, Bool, true, false, ◌&&◌, [], none, some, arith, Bool-cases, Option-cases,
}
use lite_api.Idempotency.{
  Codec, Answer, processing, RowKey, row_key_beq, Row, is_processing, Table, set_row, is_visible,
  visible_row, bad_key, row_key, fingerprint_of, new_row, claim_at, claim_request, finished_row,
  finish_request,
}

row_key_beq_iff : (a b : RowKey) → (row_key_beq a b ≡ true) ↔ (a ≡ b)
unfolding row_key_beq
row_key_beq_iff a b = ground (
  arith,
  text_beq_iff a.operation b.operation,
  nat_beq_iff a.api_key b.api_key,
  text_beq_iff a.key_hash b.key_hash,
)

-- The row of the key is being processed for the fingerprint and expires at `expires`.
abbrev pub IsHeld : Table → RowKey → Text → ℕ → Type 0
IsHeld table k fingerprint expires =
    (row : Row) × (table k ≡ some row)
    × (row.fingerprint ≡ fingerprint)
    × (row.state ≡ processing)
    × (row.expires ≡ expires)

-- What other calls may do to the table: claims of any key, and the end of every call but that of the
-- key and the fingerprint.
pub data Others (c : Codec) (k : RowKey) (fingerprint : Text) : Table → Table → Type 0 where
  here : (table : Table) → Others c k fingerprint table table
  claims :
      {t u : Table} (now : ℕ) (operation : Text) (api_key : ℕ) (key payload : Text) (stream : Bool)
      → Others c k fingerprint t u
      → Others c k fingerprint t (claim_request c u now operation api_key key payload stream).0
  finishes :
      {t u : Table} (j : RowKey) (other content_type : Text) (w : Answer)
      → (j ≢ k) ⊎ (other ≢ fingerprint)
      → Others c k fingerprint t u
      → Others c k fingerprint t (finish_request c u j other content_type w)

set_row-other :
    (table : Table) (j k : RowKey) (new : Row)
    → row_key_beq j k ≡ false
    → set_row table j new k ≡ table k
unfolding set_row
set_row-other table j k new other = rw other refl

pub set_row-head : (table : Table) (k : RowKey) (new : Row) → set_row table k new k ≡ some new
unfolding set_row
set_row-head table k new = ground (arith, row_key_beq_iff k k)

pub visible_row-processing :
    (now : ℕ) (row : Row) → row.state ≡ processing → visible_row now (some row) ≡ some row
unfolding visible_row is_visible is_processing
visible_row-processing now row s = rw s (ground arith)

claim_at-kept :
    (c : Codec) (table : Table) (now : ℕ) (j k : RowKey) (stream : Bool) (other : Text) (row : Row)
    → table k ≡ some row
    → row.state ≡ processing
    → (claim_at c table now j stream other).0 k ≡ some row
unfolding claim_at
claim_at-kept c table now j k stream other row at s =
    elim (Option-cases (visible_row now (table j))) [
      | inr (r, e) ↦ rw (e, claim_at) at
      | inl e ↦ elim (Bool-cases (row_key_beq j k)) [
        | inr apart ↦ rw (e, claim_at) (set_row-other table j k (new_row now other) apart ∙ at)
        | inl same ↦
            let key : j ≡ k = (row_key_beq_iff j k).0 same in
            let seen : visible_row now (table k) ≡ none =
              subst (λ i. visible_row now (table i) ≡ none) key e in
            let held : visible_row now (table k) ≡ some row =
              rw at (visible_row-processing now row s) in
            absurd (ground arith)
      ]
    ]

claim_at-IsHeld :
    (c : Codec) (table : Table) (now : ℕ) (j k : RowKey) (stream : Bool) (other fingerprint : Text)
    (expires : ℕ)
    → IsHeld table k fingerprint expires
    → IsHeld (claim_at c table now j stream other).0 k fingerprint expires
claim_at-IsHeld c table now j k stream other fingerprint expires (row, at, f, s, x) =
    (row, claim_at-kept c table now j k stream other row at s, f, s, x)

claim_request-IsHeld :
    (c : Codec) (table : Table) (now : ℕ) (operation : Text) (api_key : ℕ) (key payload : Text)
    (stream : Bool) (k : RowKey) (fingerprint : Text) (expires : ℕ)
    → IsHeld table k fingerprint expires
    → IsHeld
        (claim_request c table now operation api_key key payload stream).0
        k
        fingerprint
        expires
unfolding claim_request
claim_request-IsHeld c table now operation api_key key payload stream k fingerprint expires held =
    elim (Bool-cases (key == [])) [
      | inl e ↦ rw e held
      | inr e ↦ elim (Bool-cases (bad_key key)) [
        | inl b ↦ rw (e, b) held
        | inr b ↦
            rw (e, b)
              (claim_at-IsHeld c table now (row_key c operation api_key key) k stream
                (fingerprint_of c operation payload) fingerprint expires held)
      ]
    ]

finish_request-kept :
    (c : Codec) (table : Table) (j k : RowKey) (other content_type : Text) (w : Answer) (row : Row)
    → (j ≢ k) ⊎ (other ≢ row.fingerprint)
    → table k ≡ some row
    → finish_request c table j other content_type w k ≡ some row
unfolding finish_request
finish_request-kept c table j k other content_type w row apart at = elim (Option-cases (table j)) [
  | inl e ↦ rw (e, finish_request) at
  | inr (r, e) ↦ elim (Bool-cases (r.fingerprint == other && is_processing r.state)) [
    | inr off ↦ rw (e, off, finish_request) at
    | inl on ↦
        rw (e, on, finish_request)
          (set_row-other table j k (finished_row c j.operation content_type w r)
              (elim (Bool-cases (row_key_beq j k)) [
                | inr far ↦ far
                | inl same ↦
                    let key : j ≡ k = (row_key_beq_iff j k).0 same in
                    let row_same : table k ≡ some r = subst (λ i. table i ≡ some r) key e in
                    absurd (ground (arith, text_beq_iff r.fingerprint other))
              ])
            ∙ at)
  ]
]

finish_request-IsHeld :
    (c : Codec) (table : Table) (j k : RowKey) (other fingerprint content_type : Text) (w : Answer)
    (expires : ℕ)
    → (j ≢ k) ⊎ (other ≢ fingerprint)
    → IsHeld table k fingerprint expires
    → IsHeld (finish_request c table j other content_type w) k fingerprint expires
finish_request-IsHeld c table j k other fingerprint content_type w expires apart
      (row, at, f, s, x) =
    (row, finish_request-kept c table j k other content_type w row (rw f apart) at, f, s, x)

pub Others-IsHeld :
    (c : Codec) (k : RowKey) (fingerprint : Text) (expires : ℕ) {t u : Table}
    → Others c k fingerprint t u
    → IsHeld t k fingerprint expires
    → IsHeld u k fingerprint expires
Others-IsHeld c k fingerprint expires (here table) held = held
Others-IsHeld c k fingerprint expires
      (claims {t} {u} now operation api_key key payload stream before) held =
    claim_request-IsHeld c u now operation api_key key payload stream k fingerprint expires
      (Others-IsHeld c k fingerprint expires before held)
Others-IsHeld c k fingerprint expires (finishes {t} {u} j other content_type w apart before) held =
    finish_request-IsHeld c u j k other fingerprint content_type w expires apart
      (Others-IsHeld c k fingerprint expires before held)
