-- ===== src/Idempotency/Once.antt =====
-- What a repeated call with the same key meets.
pub mod Finished
use lite_api.Common.{
  ℕ, ◌+◌, if◌then◌else◌, ◌==◌, nat_eq, text_eq, ◌≡◌, ◌≢◌, refl, inl, inr, Text, Bool, false, ◌&&◌,
  [], Option, none, some, arith, Bool-cases, Option-cases,
}
use lite_api.Common.Errors.{ApiError, Result-cases, conflict, api_error}
use lite_api.Idempotency.{
  Codec, RowKey, Row, is_processing, Table, claimed, refused, audio_type, replay_audio, replay,
  claim_row, is_visible, visible_row, bad_key, row_key, fingerprint_of, new_row, claim_at,
  claim_request, final_state, final_body, status_of,
}
use lite_api.Idempotency.Claims.{
  IsHeld, Others, set_row-head, visible_row-processing, Others-IsHeld,
}

replay_audio-neq :
    (c : Codec) (status : ℕ) (audio : Option (Text × Text)) → replay_audio c status audio ≢ claimed
unfolding replay_audio
replay_audio-neq c status none h = cc
replay_audio-neq c status (some (t, b)) h = elim (Result-cases (audio_type c "tts" t)) [
  | inl (v, e) ↦ ground arith
  | inr (v, e) ↦ ground arith
]

claim_row-neq :
    (c : Codec) (operation : Text) (stream : Bool) (fingerprint : Text) (row : Row)
    → claim_row c operation stream fingerprint row ≢ claimed
unfolding claim_row replay
claim_row-neq c operation stream fingerprint row h = elim (Option-cases row.response_body) [
  | inl e ↦ ground arith
  | inr (body, e) ↦
      ground (arith, replay_audio-neq c (status_of row.response_status) (c.decode_audio body))
]

-- A claim that goes through wrote its row.
claim_at-claimed :
    (c : Codec) (table : Table) (now : ℕ) (k : RowKey) (stream : Bool) (fingerprint : Text)
    → (claim_at c table now k stream fingerprint).1 ≡ claimed
    → IsHeld (claim_at c table now k stream fingerprint).0 k fingerprint (now + 86400)
unfolding claim_at new_row
claim_at-claimed c table now k stream fingerprint h =
    elim (Option-cases (visible_row now (table k))) [
      | inl e ↦
          rw (e, claim_at)
            (
              new_row now fingerprint,
              set_row-head table k (new_row now fingerprint),
              refl,
              refl,
              refl,
            )
      | inr (row, e) ↦ absurd (claim_row-neq c k.operation stream fingerprint row (ground arith))
    ]

module _ (c : Codec) (operation : Text) (api_key : ℕ) (key : Text) where
  claim_request-claimed :
      (table : Table) (now : ℕ) (payload : Text) (stream : Bool)
      → (claim_request c table now operation api_key key payload stream).1 ≡ claimed
      → IsHeld
          (claim_request c table now operation api_key key payload stream).0
          (row_key c operation api_key key)
          (fingerprint_of c operation payload)
          (now + 86400)
        × ((key == []) ≡ false)
        × (bad_key key ≡ false)
  unfolding claim_request
  claim_request-claimed table now payload stream h = elim (Bool-cases (key == [])) [
    | inl e ↦ absurd (ground arith)
    | inr e ↦ elim (Bool-cases (bad_key key)) [
      | inl b ↦ absurd (ground arith)
      | inr b ↦
          rw (e, b, claim_request)
            (
              claim_at-claimed c table now (row_key c operation api_key key) stream
                  (fingerprint_of c operation payload) (ground arith),
              refl,
              refl,
            )
    ]
  ]

  -- A claim of a held key is refused, whatever the time.
  claim_request-refused :
      (table : Table) (now : ℕ) (payload fingerprint : Text) (stream : Bool) (expires : ℕ)
      → IsHeld table (row_key c operation api_key key) fingerprint expires
      → (key == []) ≡ false
      → bad_key key ≡ false
      → (e : ApiError) × ((claim_request c table now operation api_key key payload stream).1
          ≡ refused e)
        × (e.status ≡ 409)
  unfolding claim_request claim_at claim_row conflict api_error is_processing
  claim_request-refused table now payload fingerprint stream expires (row, at, f, s, x) named good =
      let seen : visible_row now (table (row_key c operation api_key key)) ≡ some row =
        rw at (visible_row-processing now row s) in
      elim (Bool-cases (row.fingerprint == fingerprint_of c operation payload)) [
        | inl same ↦ (
          conflict "request is in progress or requires review; it will not be sent twice",
          ground arith,
          refl,
        )
        | inr other ↦ (conflict "Idempotency-Key reused with different request", ground arith, refl)
      ]

-- A claimed call is sent at most once: once a claim of a key has gone through, every later claim of the
-- key for the operation and the API key is refused with a conflict, with any payload and at any time,
-- however many other claims and ends of other calls lie between. The condition is that the call itself
-- has not ended: no call with its key and its fingerprint has.
pub claim_request_once :
    (c : Codec) (table u : Table) (now later : ℕ) (operation : Text) (api_key : ℕ)
    (key payload again : Text) (stream again_stream : Bool)
    → (claim_request c table now operation api_key key payload stream).1 ≡ claimed
    → Others c
        (row_key c operation api_key key)
        (fingerprint_of c operation payload)
        (claim_request c table now operation api_key key payload stream).0
        u
    → (e : ApiError) × ((claim_request c u later operation api_key key again again_stream).1
        ≡ refused e)
      × (e.status ≡ 409)
claim_request_once c table u now later operation api_key key payload again stream again_stream h
      others =
    let (held, named, good) =
      claim_request-claimed c operation api_key key table now payload stream h in
    claim_request-refused c operation api_key key u later again (fingerprint_of c operation payload)
      again_stream (now + 86400)
      (Others-IsHeld c (row_key c operation api_key key) (fingerprint_of c operation payload)
        (now + 86400) others held)
      named good
