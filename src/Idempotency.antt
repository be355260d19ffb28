-- ===== src/Idempotency.antt =====
-- The idempotent calls of internal/app/gateway_idempotency.go: the buffer of the answer, the claim of a
-- key and the end of the call, with audioResponseType of grok_audio.go. The table is a function from
-- its primary key; each function is one transaction, and a transaction that fails changes nothing. Times
-- are seconds of the clock of the database. The digest and the two codecs are parameters.
pub mod Claims
pub mod Once
pub mod Buffer
mod Tests
use lite_api.Common.{
  ℕ, zero, suc, ◌+◌, ltb, leb, if◌then◌else◌, ◌==◌, nat_eq, string_eq, text_eq, Text, text_beq,
  codes, String, Bool, true, false, not, ◌&&◌, ◌||◌, List, [], ◌∷◌, ◌++◌, Option, none, some, any,
}
use lite_api.Common.Strings.{byte_len, has_prefix}
use lite_api.Common.Errors.{ApiError, Result, ok, err, ◌>>=◌, bad, conflict, api_error}

-- What the code takes from other packages: the digest of a text, JSON for an answer with a content type
-- (none if it fails), and the media type of a content type (none if it has none).
pub record Codec : Type 0 where
  pub digest : Text → Text
  pub encode_audio : Text → Text → Option Text
  pub decode_audio : Text → Option (Text × Text)
  pub media_kind : Text → Option Text

-- `gatewayResponse`. A status of 0 is none.
pub record Answer : Type 0 where
  pub status : ℕ
  pub body : Text
  pub oversized : Bool
  pub succeeded : Bool

abbrev pub new_answer : Answer
new_answer = record { status = 0; body = []; oversized = false; succeeded = false }

unfoldable pub write_header : Answer → ℕ → Answer
write_header w code = if w.status == 0 then record w { status = code } else w

-- `16<<20`.
abbrev pub body_limit : ℕ
body_limit = 16777216

unfoldable pub keep_body : Answer → Text → Answer
keep_body w b =
    if ltb body_limit (byte_len w.body + byte_len b)
    then record w { oversized = true; body = [] }
    else if w.oversized
    then w
    else record w { body = w.body ++ b }

-- `Write`, but for the write to the client.
unfoldable pub write_body : Answer → Text → Answer
write_body w b = keep_body (if w.status == 0 then write_header w 200 else w) b

pub data RowState : Type 0 where
  processing : RowState
  succeeded : RowState
  failed : RowState

unfoldable pub is_processing : RowState → Bool
is_processing processing = true
is_processing succeeded = false
is_processing failed = false

-- `scope`, which holds the operation and the ID of the API key, and the hash of the key.
pub record RowKey : Type 0 where
  pub operation : Text
  pub api_key : ℕ
  pub key_hash : Text

unfoldable pub row_key_beq : RowKey → RowKey → Bool
row_key_beq a b = a.operation == b.operation && a.api_key == b.api_key && a.key_hash == b.key_hash

pub record Row : Type 0 where
  pub fingerprint : Text
  pub state : RowState
  pub response_status : Option ℕ
  pub response_body : Option Text
  pub expires : ℕ

abbrev pub Table : Type 0
Table = RowKey → Option Row

unfoldable pub set_row : Table → RowKey → Row → Table
set_row table k row j = if row_key_beq k j then some row else table j

-- What a claim comes to: there is no key, the answer is replayed, or the call goes on.
pub data Claim : Type 0 where
  no_key : Claim
  replayed : ℕ → Text → Text → Claim
  claimed : Claim
  refused : ApiError → Claim

-- `audioResponseType`.
unfoldable pub audio_type : Codec → String → Text → Result Text
audio_type c protocol content_type = elim (c.media_kind content_type) [
  | none ↦ err (api_error 502 "invalid upstream audio content type")
  | some kind ↦
      if protocol == "tts"
        && (has_prefix kind (codes "audio/") || kind == codes "application/octet-stream")
      then ok content_type
      else if protocol == "stt" && kind == codes "application/json"
      then ok content_type
      else err (api_error 502 "unexpected upstream audio content type")
]

-- The null of the column reads as 0.
unfoldable pub status_of : Option ℕ → ℕ
status_of none = 0
status_of (some status) = status

unfoldable pub replay_audio : Codec → ℕ → Option (Text × Text) → Claim
replay_audio c status none = refused (conflict "stored audio response is invalid")
replay_audio c status (some (content_type, body)) = elim (audio_type c "tts" content_type) [
  | err e ↦ refused (conflict "stored audio content type is invalid")
  | ok _ ↦ replayed status content_type body
]

-- The answer that is sent again: its status, content type and body.
unfoldable pub replay : Codec → Text → Bool → ℕ → Text → Claim
replay c operation stream status body =
    if operation == codes "tts" && status == 200
    then replay_audio c status (c.decode_audio body)
    else replayed status
        (codes (if stream && status == 200 then "text/event-stream" else "application/json")) body

-- A visible row decides the claim.
unfoldable pub claim_row : Codec → Text → Bool → Text → Row → Claim
claim_row c operation stream fingerprint row =
    if not (row.fingerprint == fingerprint)
    then refused (conflict "Idempotency-Key reused with different request")
    else if is_processing row.state
    then refused (conflict "request is in progress or requires review; it will not be sent twice")
    else elim row.response_body [
      | none ↦ refused (conflict "request already completed; response is too large to replay")
      | some body ↦ replay c operation stream (status_of row.response_status) body
    ]

-- The WHERE of the SELECT.
unfoldable pub is_visible : ℕ → Row → Bool
is_visible now row = ltb now row.expires || is_processing row.state

unfoldable pub visible_row : ℕ → Option Row → Option Row
visible_row now none = none
visible_row now (some row) = if is_visible now row then some row else none

unfoldable pub bad_key : Text → Bool
bad_key key = ltb 128 (byte_len key) || any (λ c. ltb c 33 || ltb 126 c) key

unfoldable pub row_key : Codec → Text → ℕ → Text → RowKey
row_key c operation api_key key = record {
  operation = operation;
  api_key = api_key;
  key_hash = c.digest key;
}

unfoldable pub fingerprint_of : Codec → Text → Text → Text
fingerprint_of c operation payload = c.digest (operation ++ 10 ∷ payload)

-- The row that the INSERT writes: it is kept for 24 hours.
unfoldable pub new_row : ℕ → Text → Row
new_row now fingerprint = record {
  fingerprint = fingerprint;
  state = processing;
  response_status = none;
  response_body = none;
  expires = now + 86400;
}

unfoldable pub claim_at : Codec → Table → ℕ → RowKey → Bool → Text → Table × Claim
claim_at c table now k stream fingerprint = elim (visible_row now (table k)) [
  | some row ↦ (table, claim_row c k.operation stream fingerprint row)
  | none ↦ (set_row table k (new_row now fingerprint), claimed)
]

-- `claimGatewayRequest`, with the header `Idempotency-Key` of the call.
unfoldable pub claim_request : Codec → Table → ℕ → Text → ℕ → Text → Text → Bool → Table × Claim
claim_request c table now operation api_key key payload stream =
    if key == []
    then (table, no_key)
    else if bad_key key
    then (table, refused (bad "invalid Idempotency-Key"))
    else claim_at c table now (row_key c operation api_key key) stream
        (fingerprint_of c operation payload)

-- The status and the state that `finish` stores.
unfoldable pub final_code : Answer → ℕ
final_code w = if w.status == 0 then 500 else w.status

unfoldable pub is_success : Answer → Bool
is_success w = leb 200 (final_code w) && ltb (final_code w) 300 && w.succeeded

unfoldable pub final_state : Answer → RowState
final_state w = if is_success w then succeeded else failed

-- The body that `finish` stores; an answer of speech keeps its content type with it.
unfoldable pub final_body : Codec → Text → Text → Answer → Option Text
final_body c operation content_type w =
    if w.oversized
    then none
    else if operation == codes "tts" && final_code w == 200 && w.succeeded
    then c.encode_audio content_type w.body
    else some w.body

unfoldable pub finished_row : Codec → Text → Text → Answer → Row → Row
finished_row c operation content_type w row = record row {
  state = final_state w;
  response_status = some (final_code w);
  response_body = final_body c operation content_type w;
}

-- `finish`: the UPDATE of a row that is still being processed for the same request.
unfoldable pub finish_request : Codec → Table → RowKey → Text → Text → Answer → Table
finish_request c table k fingerprint content_type w = elim (table k) [
  | none ↦ table
  | some row ↦
      if row.fingerprint == fingerprint && is_processing row.state
      then set_row table k (finished_row c k.operation content_type w row)
      else table
]
