-- ===== src/Payout/Service/Defs.antt =====
-- The rows of payout attempts, beside the settlements: packages/app/src/payout.service.ts.
use Prim.Native.String.{String}
use text.Mathlib.Text.{◌==◌ as str_eq}
use inrsettling.Base.{
  ℕ, Bool, true, false, ◌&&◌, ◌||◌, Option, none, some, List, [], ◌∷◌, map, leb, if◌then◌else◌,
}
use inrsettling.Base.Lists.{find, filter, all, length}
use inrsettling.Base.Int.{ℤ}
use inrsettling.Base.Decimal.{Text, codes}
use inrsettling.Payout.Attempt.{PayoutAttemptStatus, AttemptSummary}
use inrsettling.Settlement.Service.Defs as Core

-- What the other columns of a settlement and the payloads of its events hold.
pub data Value : Type 0 where
  null : Value
  words : String → Value
  digits : Text → Value
  number time : ℕ → Value

pub data PayoutRail : Type 0 where
  neft rtgs imps upi : PayoutRail

-- A row of `payout_attempts`.
pub record Attempt : Type 0 where
  pub id : String
  pub settlement_id : String
  pub destination_version_id : Value
  pub attempt_number : ℕ
  pub status : PayoutAttemptStatus
  pub idempotency_key : Text
  pub provider_reference : Option String
  pub utr : Option String
  pub dispatched_at : ℕ
  pub dispatched_by : String
  pub resolved_at : Option ℕ
  pub provider_id : Option String
  pub rail : Option PayoutRail
  pub amount_minor : Option ℤ
  pub credited_minor : Option ℤ
  pub raw_code : Option String
  pub mapping_version : Option String
  pub credited_at : Option ℕ
  pub returned_at : Option ℕ
  pub sla_seconds : Option ℕ

-- An entry of the audit log for a retry: the number and the status before, the number and the key
-- after.
pub record RetryNote : Type 0 where
  pub actor : Core.Principal
  pub settlement_id : String
  pub before_number : ℕ
  pub before_status : PayoutAttemptStatus
  pub after_number : ℕ
  pub after_key : Text
  pub reason : String

-- The settlements with their logs, the attempts, and the audit entries that the payouts write.
pub record Store : Type 0 where
  pub core : Core.Store Value
  pub attempts : List Attempt
  pub retries : List RetryNote

-- `WHERE settlement_id = …`
unfoldable pub attempts_of : String → List Attempt → List Attempt
attempts_of settlement_id attempts = filter (λ a. str_eq a.settlement_id settlement_id) attempts

-- `ORDER BY attempt_number DESC LIMIT 1`
unfoldable pub latest : List Attempt → Option Attempt
latest [] = none
latest (a ∷ rest) =
    let later = latest rest in
    elim later [
      | none ↦ some a
      | some b ↦ if leb b.attempt_number a.attempt_number then some a else some b
    ]

unfoldable pub latest_attempt : Store → String → Option Attempt
unfolding attempts_of latest
latest_attempt store settlement_id = latest (attempts_of settlement_id store.attempts)

unfoldable pub summary : Attempt → AttemptSummary
summary a = record { attempt_number = a.attempt_number; status = a.status }

-- `UPDATE payout_attempts SET … WHERE id = …`
unfoldable pub update_attempt : String → (Attempt → Attempt) → Store → Store
update_attempt id change store = record store {
  attempts = map (λ a. if str_eq a.id id then change a else a) store.attempts;
}

-- `...(x ? { column: x } : {})`: an empty text is no text.
unfoldable pub or_old : Option String → Option String → Option String
or_old none old = old
or_old (some new) old = if str_eq new "" then old else some new

-- `...(x === undefined ? {} : { column: x })`
unfoldable pub or_kept {ℓ} : {A : Type ℓ} → Option A → Option A → Option A
or_kept none old = old
or_kept (some new) old = some new

-- `/^[A-Za-z0-9]{12,22}$/`
unfoldable pub is_alphanumeric : ℕ → Bool
is_alphanumeric c =
    (leb b'A' c && leb c b'Z') || (leb b'a' c && leb c b'z') || (leb b'0' c && leb c b'9')

unfoldable pub is_well_formed_utr : Option String → Bool
unfolding is_alphanumeric
is_well_formed_utr none = false
is_well_formed_utr (some utr) =
    let cs = codes utr in all is_alphanumeric cs && (leb 12 (length cs) && leb (length cs) 22)

-- A column of a settlement: the latest write, or null.
unfoldable pub column : String → Core.Settlement Value → Value
column name row = elim (find (λ kv. str_eq kv.0 name) row.payload) [ none ↦ null | some kv ↦ kv.1 ]

unfoldable pub is_null : Value → Bool
is_null null = true
is_null _ = false

-- `!x` on a text column.
unfoldable pub is_falsy : Value → Bool
is_falsy null = true
is_falsy (words s) = str_eq s ""
is_falsy _ = false
