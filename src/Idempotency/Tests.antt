-- ===== src/Idempotency/Tests.antt =====
-- One key at concrete calls.
use lite_api.Common.{◌≡◌, ◌≤◌, refl, ◌⊎◌, codes, true, false, none, some, [], ◌∷◌, text_beq}
use lite_api.Common.Strings.{byte_len}
use lite_api.Common.Errors.{ApiError}
use lite_api.Idempotency.{
  Codec, Answer, new_answer, body_limit, Table, claimed, refused, visible_row, bad_key, claim_at,
  claim_request,
}
use lite_api.Idempotency.Claims.{here}
use lite_api.Idempotency.Once.{claim_request_once}
use lite_api.Idempotency.Buffer.{write_all, concat, write_all-body}

-- A codec whose digest is the text itself.
abbrev codec : Codec
codec = record {
  digest = λ t. t;
  encode_audio = λ kind body. some body;
  decode_audio = λ t. none;
  media_kind = λ t. some t;
}

abbrev empty : Table
empty k = none

abbrev after : Table
after = (claim_request codec empty 10 (codes "chat") 7 (codes "k1") (codes "{}") false).0

abbrev done : Answer
done = record { status = 200; body = codes "ok"; oversized = false; succeeded = true }

first_claimed :
    (claim_request codec empty 10 (codes "chat") 7 (codes "k1") (codes "{}") false).1 ≡ claimed
unfolding claim_request bad_key claim_at visible_row text_beq
first_claimed = refl

claim_request_once_example :
    (e : ApiError) × ((claim_request codec after 99999
        (codes "chat")
        7
        (codes "k1")
        (codes "[]")
        true).1
      ≡ refused e)
    × (e.status ≡ 409)
claim_request_once_example =
    claim_request_once codec empty after 10 99999 (codes "chat") 7 (codes "k1") (codes "{}")
      (codes "[]") false true first_claimed (here after)

write_all-body_example :
    let w = write_all new_answer (codes "ab" ∷ codes "c" ∷ []) in
    ((w.oversized ≡ false)
      × (w.body ≡ concat (codes "ab" ∷ codes "c" ∷ []))
      × (byte_len (concat (codes "ab" ∷ codes "c" ∷ [])) ≤ body_limit))
    ⊎ ((w.oversized ≡ true) × (w.body ≡ []))
write_all-body_example = write_all-body (codes "ab" ∷ codes "c" ∷ [])
