-- ===== src/Idempotency/Once/Finished.antt =====
-- The row of a finished call.
use lite_api.Common.{
  ℕ, ◌<◌, if◌then◌else◌, ◌==◌, nat_eq, text_eq, text_beq_iff, ◌≡◌, refl, Text, codes, Bool, false,
  ◌&&◌, [], some, arith,
}
use lite_api.Idempotency.{
  Codec, Answer, RowKey, Row, is_processing, Table, replayed, replay, claim_row, is_visible,
  visible_row, bad_key, row_key, fingerprint_of, claim_at, claim_request, final_code, final_state,
  final_body, finished_row, status_of,
}

-- The content type of an answer that is not speech.
abbrev pub plain_type : Bool → ℕ → Text
plain_type stream status =
    codes (if stream && status == 200 then "text/event-stream" else "application/json")

pub claim_row-finished :
    (c : Codec) (operation : Text) (stream : Bool) (content_type : Text) (w : Answer) (row : Row)
    → w.oversized ≡ false
    → (operation == codes "tts") ≡ false
    → claim_row c operation stream row.fingerprint (finished_row c operation content_type w row)
      ≡ replayed (final_code w) (plain_type stream (final_code w)) w.body
unfolding claim_row finished_row final_body final_state is_processing replay status_of
claim_row-finished c operation stream content_type w row small plain =
    ground (arith, text_beq_iff row.fingerprint row.fingerprint)

pub finished_row-visible :
    (c : Codec) (operation content_type : Text) (w : Answer) (row : Row) (later : ℕ)
    → later < row.expires
    → visible_row later (some (finished_row c operation content_type w row))
      ≡ some (finished_row c operation content_type w row)
unfolding visible_row is_visible finished_row
finished_row-visible c operation content_type w row later l = ground arith

pub claim_request-claim_at :
    (c : Codec) (table : Table) (now : ℕ) (operation : Text) (api_key : ℕ) (key payload : Text)
    (stream : Bool)
    → (key == []) ≡ false
    → bad_key key ≡ false
    → claim_request c table now operation api_key key payload stream
      ≡ claim_at c table now
          (row_key c operation api_key key)
          stream
          (fingerprint_of c operation payload)
unfolding claim_request
claim_request-claim_at c table now operation api_key key payload stream named good =
    rw (named, good) refl

pub claim_at-claim_row :
    (c : Codec) (table : Table) (now : ℕ) (k : RowKey) (stream : Bool) (fingerprint : Text)
    (row : Row)
    → visible_row now (table k) ≡ some row
    → claim_at c table now k stream fingerprint
      ≡ (table, claim_row c k.operation stream fingerprint row)
unfolding claim_at
claim_at-claim_row c table now k stream fingerprint row seen = rw (seen, claim_at) refl
