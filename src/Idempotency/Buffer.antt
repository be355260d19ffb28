-- ===== src/Idempotency/Buffer.antt =====
-- The buffer of an answer: bounded, and either complete or given up.
use lite_api.Common.{
  ◌+◌, ◌≤◌, ltb, ◌==◌, nat_eq, ◌≡◌, refl, ◌⊎◌, inl, inr, ap, Text, true, false, List, [], ◌∷◌, ◌++◌,
  arith, Bool-cases,
}
use lite_api.Common.Strings.{byte_len}
use lite_api.Idempotency.{Answer, new_answer, write_header, body_limit, keep_body, write_body}

-- The writes of a handler, in order.
unfoldable pub write_all : Answer → List Text → Answer
write_all w [] = w
write_all w (b ∷ bs) = write_all (write_body w b) bs

unfoldable pub concat : List Text → Text
concat [] = []
concat (b ∷ bs) = b ++ concat bs

byte_len_append : (s t : Text) → byte_len (s ++ t) ≡ byte_len s + byte_len t
byte_len_append [] t = ground arith
byte_len_append (c ∷ s) t = ground (arith, byte_len_append s t)

append_assoc : (r s t : Text) → (r ++ s) ++ t ≡ r ++ (s ++ t)
append_assoc [] s t = refl
append_assoc (c ∷ r) s t = ap (λ u. c ∷ u) (append_assoc r s t)

append_nil : (s : Text) → s ++ [] ≡ s
append_nil [] = refl
append_nil (c ∷ s) = ap (λ u. c ∷ u) (append_nil s)

-- The buffer holds the text written so far, or was given up.
abbrev pub IsBuffer : Text → Answer → Type 0
IsBuffer text w =
    ((w.oversized ≡ false) × (w.body ≡ text) × (byte_len text ≤ body_limit))
    ⊎ ((w.oversized ≡ true) × (w.body ≡ []))

keep_body-IsBuffer :
    (w : Answer) (text b : Text) → IsBuffer text w → IsBuffer (text ++ b) (keep_body w b)
unfolding keep_body
keep_body-IsBuffer w text b (inl (small, same, l)) =
    elim (Bool-cases (ltb body_limit (byte_len w.body + byte_len b))) [
      | inl large ↦ rw large (inr (refl, refl))
      | inr fits ↦
          rw (fits, small)
            (inl (refl, ap (λ t. t ++ b) same, ground (arith, byte_len_append text b)))
    ]
keep_body-IsBuffer w text b (inr (large, empty)) =
    elim (Bool-cases (ltb body_limit (byte_len w.body + byte_len b))) [
      | inl more ↦ rw more (inr (refl, refl))
      | inr fits ↦ rw (fits, large) (inr (refl, empty))
    ]

write_body-IsBuffer :
    (w : Answer) (text b : Text) → IsBuffer text w → IsBuffer (text ++ b) (write_body w b)
unfolding write_body write_header
write_body-IsBuffer w text b h = elim (Bool-cases (w.status == 0)) [
  | inl e ↦ rw e (keep_body-IsBuffer (record w { status = 200 }) text b h)
  | inr e ↦ rw e (keep_body-IsBuffer w text b h)
]

write_all-IsBuffer :
    (w : Answer) (text : Text) (bs : List Text)
    → IsBuffer text w
    → IsBuffer (text ++ concat bs) (write_all w bs)
unfolding write_all concat
write_all-IsBuffer w text [] h = rw (append_nil text) h
write_all-IsBuffer w text (b ∷ bs) h =
    rw⁻¹ (append_assoc text b (concat bs))
      (write_all-IsBuffer (write_body w b) (text ++ b) bs (write_body-IsBuffer w text b h))

-- Whatever a handler writes, in however many pieces, the buffer of its answer is within 16 MiB, and
-- either it holds exactly what was written, in order, or it is marked as too large and is empty.
pub write_all-body :
    (bs : List Text)
    → let w = write_all new_answer bs in
      ((w.oversized ≡ false) × (w.body ≡ concat bs) × (byte_len (concat bs) ≤ body_limit))
      ⊎ ((w.oversized ≡ true) × (w.body ≡ []))
write_all-body bs = write_all-IsBuffer new_answer [] bs (inl (refl, refl, omega arith))
