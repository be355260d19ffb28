-- ===== src/Settlement/Tables.antt =====
-- The tables that a settlement writes: the statements of applyReceipt of internal/app/settlement.go, and
-- cleanUpstreamRequestID of upstream.go.
use lite_api.Common.{
  ℕ, ◌+◌, ◌-◌, ltb, leb, if◌then◌else◌, ◌==◌, nat_eq, string_eq, text_eq, Text, codes, String, Bool,
  true, false, ◌&&◌, ◌||◌, List, [], ◌∷◌, Option, none, some, any,
}
use lite_api.Common.Int.{ℤ, pos, negsuc}
use lite_api.Common.Strings.{trim_space, rune_len}
use lite_api.Common.Errors.{Result, ok, err, ◌>>=◌, api_error}
use lite_api.Quotas.Platforms.{Instant, PlatformQuota}
use lite_api.Quotas.Accounts.{Extra, account_quota_delta}
use lite_api.Settlement.Receipts.{Receipt}

pub record User : Type 0 where
  pub balance : ℤ
  pub last_active : ℕ

-- A window of an API key.
pub record KeyWindow : Type 0 where
  pub usage : ℕ
  pub start : Option ℕ

pub record ApiKey : Type 0 where
  pub status : String
  pub quota : ℕ
  pub quota_used : ℕ
  pub window_5h : KeyWindow
  pub window_1d : KeyWindow
  pub window_7d : KeyWindow
  pub last_used : Option ℕ

pub record Account : Type 0 where
  pub extra : Extra
  pub last_used : Option ℕ

-- A row of `usage_logs`: the receipt, with what is computed for the row.
pub record Log : Type 0 where
  pub receipt : Receipt
  pub request_type : ℕ
  pub upstream_id : Text

-- The key of `usage_billing_dedup` and of its archive.
abbrev pub Request : Type 0
Request = Text × ℕ

pub record Database : Type 0 where
  pub settled : Request → Option Text
  pub archived : Request → Option Text
  pub users : ℕ → Option User
  pub keys : ℕ → Option ApiKey
  pub accounts : ℕ → Option Account
  pub quotas : ℕ → String → Option PlatformQuota
  pub logs : List Log

abbrev pub request_of : Receipt → Request
request_of r = (r.request_id, r.key_id)

unfoldable pub request_beq : Request → Request → Bool
request_beq (a, m) (b, n) = a == b && m == n

-- `balance - debit`.
unfoldable pub debited : ℤ → ℕ → ℤ
debited (pos a) d = if leb d a then pos (a - d) else negsuc (d - a - 1)
debited (negsuc a) d = negsuc (a + d)

unfoldable pub charge_user : Instant → ℕ → User → User
charge_user at debit u = record { balance = debited u.balance debit; last_active = at.database_now }

-- `start + interval <= now`; the null of the column is not.
unfoldable pub has_ended : ℕ → ℕ → Option ℕ → Bool
has_ended duration now none = false
has_ended duration now (some start) = leb (start + duration) now

unfoldable pub is_unset : Option ℕ → Bool
is_unset none = true
is_unset (some n) = false

-- A window of `duration`; a new one begins at `fresh`.
unfoldable pub charge_window : ℕ → ℕ → ℕ → ℕ → KeyWindow → KeyWindow
charge_window duration now fresh debit w = record {
  usage = if has_ended duration now w.start then debit else w.usage + debit;
  start = if is_unset w.start || has_ended duration now w.start then some fresh else w.start;
}

unfoldable pub charge_quota : ℕ → ApiKey → ApiKey
charge_quota debit k = record k {
  quota_used = k.quota_used + debit;
  status =
      if k.status == "active" && ltb 0 k.quota && leb k.quota (k.quota_used + debit)
      then "quota_exhausted"
      else k.status;
}

unfoldable pub charge_windows : Instant → ℕ → ApiKey → ApiKey
charge_windows at debit k = record k {
  window_5h = charge_window 18000 at.database_now at.database_now debit k.window_5h;
  window_1d = charge_window 86400 at.database_now at.database_day debit k.window_1d;
  window_7d = charge_window 604800 at.database_now at.database_day debit k.window_7d;
}

-- The three updates of the key.
unfoldable pub charge_key : Instant → Receipt → ApiKey → ApiKey
charge_key at r k =
    let counted = if r.key_quota then charge_quota r.cost.debit k else k in
    let windowed = if r.key_windows then charge_windows at r.cost.debit counted else counted in
    record windowed { last_used = some at.database_now }

-- The update of the account; one that is missing fails only where its quota counts.
unfoldable pub charge_account : Instant → Receipt → Option Account → Result (Option Account)
charge_account at r none =
    if r.account_quota then err (api_error 500 "sql: no rows in result set") else ok none
charge_account at r (some a) =
    if r.account_quota
    then (do
      extra ← account_quota_delta at (record { num = r.account_debit; den = 100000000 }) a.extra
      ok (some (record { extra = extra; last_used = some at.database_now })))
    else ok (some (record a { last_used = some at.database_now }))

-- The longest prefix of at most `size` bytes.
unfoldable pub cut_bytes : ℕ → Text → Text
cut_bytes size [] = []
cut_bytes size (c ∷ s) =
    let rest = cut_bytes (size - rune_len c) s in if leb (rune_len c) size then c ∷ rest else []

-- `cleanUpstreamRequestID`.
unfoldable pub clean_upstream_id : Text → Text
clean_upstream_id id =
    if any (λ c. c == 0 || c == 13 || c == 10) (trim_space id)
    then []
    else cut_bytes 128 (trim_space id)

unfoldable pub log_of : Receipt → Log
log_of r = record {
  receipt = record r {
    upstream = if r.upstream == [] then codes "/v1/chat/completions" else r.upstream;
  };
  request_type = if r.web_socket then 3 else if r.stream then 2 else 1;
  upstream_id = if r.web_socket then [] else clean_upstream_id r.upstream_request_id;
}

abbrev pub map_option {ℓ} : {X : Type ℓ} → (X → X) → Option X → Option X
map_option f none = none
map_option f (some x) = some (f x)

-- The `UPDATE` of the rows with one key.
abbrev pub update {ℓ} : {X : Type ℓ} → (ℕ → Option X) → ℕ → (X → X) → ℕ → Option X
update table id f j = if id == j then map_option f (table j) else table j
