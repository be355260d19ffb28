-- ===== src/Settlement/Tests.antt =====
-- A receipt that is saved twice, and one that is recovered.
use mathlib.Core.Path.{subst, sym, ◌∙◌}
use lite_api.Common.{
  Bool, some_inj, ℕ, nat_eq, ◌≡◌, refl, ap, inl, inr, codes, true, false, [], ◌∷◌, ◌++◌, none, some,
  text_beq, Text, List, In, Option,
}
use lite_api.Common.Int.{pos}
use lite_api.Common.Strings.{trim_space, is_space}
use lite_api.Common.Errors.{ok, err, api_error}
use lite_api.Common.Rat.{zero_rat}
use lite_api.Pricing.Charges.Tokens.{Usage, Cost, no_audio}
use lite_api.Quotas.Platforms.{Instant, Calendar}
use lite_api.Settlement.Receipts.{
  Part, number, text, amount, Codec, Receipt, fingerprint_parts, fingerprint_of,
}
use lite_api.Settlement.Calls.{
  World, Outcome, settle, compared, apply_new, apply_receipt, forget, apply_in, kept, dropped,
  save_receipt, is_whole, recover_entry, recover_receipts,
}
use lite_api.Settlement.Tables.{
  request_beq, debited, charge_user, has_ended, is_unset, charge_window, charge_quota,
  charge_windows, charge_key, charge_account, cut_bytes, clean_upstream_id, log_of,
}
use lite_api.Settlement.Histories.{IsDone, saves, recovers, Reach, here, next}
use lite_api.Settlement.Ledger.{ArePaid, billed, Reach-ArePaid}
use lite_api.Settlement.Once.{IsBilledOnce, logged, Reach-IsBilledOnce}
use lite_api.Settlement.Payable.{IsPayable}
use lite_api.Settlement.Recovery.{
  Entry, IsGood, AreGood, AllAgree, IsForgotten, save_receipt-recover_receipts,
}

abbrev calendar : Calendar
calendar = record { weekday = 3; time_at = λ days hour. 1000 }

abbrev moment : Instant
moment = record {
  now = 5000;
  database_now = 5000;
  database_day = 1000;
  shanghai = calendar;
  zone = λ name. some calendar;
}

abbrev works : Outcome
works = record {
  instant = moment;
  database_answers = true;
  set_answers = true;
  delete_answers = true;
}

abbrev down : Outcome
down = record works { database_answers = false }

abbrev shown : List Part → Text
shown [] = []
shown (number n ∷ ps) = n ∷ shown ps
shown (text t ∷ ps) = t ++ shown ps
shown (amount n ∷ ps) = n ∷ shown ps

abbrev codec : Codec
codec = record { joined = shown; digest = λ t. t }

abbrev cost : Cost
cost = record {
  input_cost = 100;
  output_cost = 0;
  write_cost = 0;
  read_cost = 0;
  image_input_cost = 0;
  image_output_cost = 0;
  total = 100;
  actual = 300;
  debit = 3;
  total_value = zero_rat;
}

abbrev usage : Usage
usage = record {
  input_tokens = 7;
  output_tokens = 0;
  write_tokens = 0;
  write_5m = 0;
  write_1h = 0;
  read_tokens = 0;
  image_input_tokens = 0;
  image_output_tokens = 0;
  image_count = 0;
  video_count = 0;
  video_seconds = 0;
  requests = 0;
  audio_units = no_audio;
}

-- The digest of these parts is the text itself.
abbrev receipt : Receipt
receipt = record {
  web_socket = false;
  request_id = codes "r1";
  payload_hash = [];
  fingerprint = 1 ∷ 3 ∷ 2 ∷ 103 ∷ 7 ∷ 0 ∷ 0 ∷ 0 ∷ 300 ∷ 0 ∷ 0 ∷ 0 ∷ [];
  user_id = 1;
  key_id = 2;
  account_id = 3;
  platform = "openai";
  model = codes "g";
  service_tier = [];
  effort = [];
  cost = cost;
  account_raw = 0;
  account_debit = 0;
  key_quota = false;
  key_windows = false;
  account_quota = false;
  usage = usage;
  video_resolution = [];
  image_size = [];
  image_output_size = [];
  image_sizes = (0, 0, 0);
  search_calls = 0;
  stream = false;
  upstream = [];
  upstream_request_id = [];
}

abbrev start : World
start = record {
  database = record {
    settled = λ q. none;
    archived = λ q. none;
    users = λ id. some (record { balance = pos 2; last_active = 0 });
    keys = λ id. none;
    accounts = λ id. none;
    quotas = λ id platform. none;
    logs = [];
  };
  pending = [];
}

-- What the tests run.
runs : ℕ
unfolding fingerprint_parts fingerprint_of request_beq debited charge_user has_ended is_unset
    charge_window charge_quota charge_windows charge_key charge_account cut_bytes clean_upstream_id
    log_of settle compared apply_new apply_receipt forget apply_in kept dropped save_receipt
    is_whole recover_entry recover_receipts billed logged trim_space is_space text_beq
runs = 0

abbrev failed : World
failed = (save_receipt down receipt start).0

abbrev entries : List Entry
entries = (works, codes "r1", some receipt) ∷ []

-- The database is down, the receipt is recovered, and then saved once more.
abbrev end : World
end = (save_receipt works receipt (recover_receipts codec entries failed).0).0

history : Reach start end
history =
    next (next (next here (saves down receipt start)) (recovers codec entries failed))
      (saves works receipt (recover_receipts codec entries failed).0)

-- The balance of 2 goes down by 3, once.
charged : billed 1 end.database.logs ≡ 3
unfolding runs
charged = refl

start-IsBilledOnce : IsBilledOnce start.database
unfolding logged
start-IsBilledOnce q = (λ h. refl, λ f h. absurd cc)

Reach-IsBilledOnce_example : IsBilledOnce end.database
Reach-IsBilledOnce_example = Reach-IsBilledOnce start end start-IsBilledOnce history

Reach-ArePaid_example : ArePaid start.database end.database
Reach-ArePaid_example = Reach-ArePaid start end history

failed-pending : failed.pending ≡ (codes "r1", some receipt) ∷ []
unfolding runs
failed-pending = refl

failed-err : (save_receipt down receipt start).1 ≡ err (api_error 500 "database")
unfolding runs
failed-err = refl

-- The zones that the calls know.
abbrev utc : Text → Bool
utc name = true

receipt-IsPayable : IsPayable utc receipt failed.database
unfolding runs
receipt-IsPayable = record {
  has_user = (record { balance = pos 2; last_active = 0 }, refl);
  chargeable = inl refl;
  settled_same = λ f h. absurd cc;
  archived_same = λ f h. absurd cc;
}

receipt-whole : is_whole codec (codes "r1") receipt ≡ true
unfolding runs
receipt-whole = refl

entry-IsGood :
    (entry : Entry)
    → entry ≡ (works, codes "r1", some receipt)
    → IsGood codec utc entry failed.database
entry-IsGood entry same =
    subst (λ e. IsGood codec utc e failed.database) (sym same)
      (record {
        receipt = receipt;
        has_receipt = refl;
        whole = receipt-whole;
        answered = refl;
        deleted = refl;
        knows = λ name h. (calendar, refl);
        payable = receipt-IsPayable;
      })

entries-AreGood : AreGood codec utc entries failed.database
entries-AreGood entry m = elim m [ inl same ↦ entry-IsGood entry same | inr x ↦ elim x [ ] ]

entry-receipt : (o : Outcome) (i : Text) (r : Receipt) → In (o, i, some r) entries → r ≡ receipt
entry-receipt o i r m = elim m [ inl same ↦ some_inj (ap (λ x. x.2) same) | inr x ↦ elim x [ ] ]

entries-AllAgree : AllAgree entries
entries-AllAgree o p i j r s m n h =
    ap (λ x. x.fingerprint) (entry-receipt o i r m ∙ sym (entry-receipt p j s n))

entries-cover :
    (id : Text) (value : Option Receipt)
    → In (id, value) failed.pending
    → (p : Outcome) × In (p, id, value) entries
entries-cover id value m = elim (subst (In (id, value)) failed-pending m) [
  | inl same ↦ (works, inl (ap (λ x. (works, x.0, x.1)) same))
  | inr x ↦ elim x [ ]
]

save_receipt-recover_receipts_example :
    ((recover_receipts codec entries failed).1 ≡ ok tt)
    × IsDone receipt (recover_receipts codec entries failed).0.database
    × IsForgotten (codes "r1") (recover_receipts codec entries failed).0.pending
save_receipt-recover_receipts_example =
    save_receipt-recover_receipts codec utc down receipt start (api_error 500 "database") entries
      refl failed-err entries-cover entries-AreGood entries-AllAgree
