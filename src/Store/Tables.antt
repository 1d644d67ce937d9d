-- ===== src/Store/Tables.antt =====
-- The tables of migrations/00001_wallet_wager.sql and 00002, as far as the store reads and writes
-- them, and the rows that its statements address.
use jungle_wager_engine.Base.{
  ℕ, ◌+◌, Bool, ◌&&◌, ◌||◌, not, Option, List, [], ◌∷◌, Text, is_empty, eq_text, if◌then◌else◌, ℤ,
  pos, ◌+ℤ◌, ◌-ℤ◌,
}
use jungle_wager_engine.Domain.Id.{Uuid, eq_id}
use jungle_wager_engine.Domain.Wallet.{Time, WalletData}
use jungle_wager_engine.Domain.Wager.{WagerData, is_reversal, is_processed}
use jungle_wager_engine.Domain.Ledger.{Direction, credit_direction, LedgerData}
use jungle_wager_engine.Domain.Events.{Event}

-- The three claim columns, which are set together.
pub record Claim : Type 0 where
  pub by : Text
  pub token : Uuid
  pub until : Time

pub record WagerRow : Type 0 where
  pub wager : WagerData
  pub correlation_id : Text
  pub causation_id : Text
  pub reference_attempts : ℕ
  pub next_reference_attempt_at : Option Time
  pub claim : Option Claim

pub record InboxRow : Type 0 where
  pub consumer_name : Text
  pub message_id : Text
  pub payload_hash : Text
  pub completed : Option Uuid  -- wager_transaction_id, set with completed_at

pub record OutboxRow : Type 0 where
  pub event : Event
  pub occurred_at : Time
  pub attempts : ℕ
  pub next_attempt_at : Time
  pub claim : Option Claim
  pub published : Bool

pub record Db : Type 0 where
  pub wallets : List WalletData
  pub wagers : List WagerRow
  pub ledger : List LedgerData
  pub inbox : List InboxRow
  pub outbox : List OutboxRow

-- UPDATE … SET … WHERE
unfoldable pub update_where {ℓ} : {A : Type ℓ} → (A → Bool) → (A → A) → List A → List A
update_where p f [] = []
update_where p f (x ∷ xs) = (if p x then f x else x) ∷ update_where p f xs

abbrev pub has_id : Uuid → WalletData → Bool
has_id id w = eq_id w.id id

abbrev pub is_wager : Uuid → WagerRow → Bool
is_wager id r = eq_id r.wager.id id

-- The row that holds one of a provider's transactions. The columns are NULL for an opening, and
-- then equal to nothing.
abbrev pub has_key : Text → Text → WagerRow → Bool
has_key provider key r =
    eq_text r.wager.provider_id provider
    && eq_text r.wager.idempotency_key key
    && not (is_empty r.wager.provider_id)

abbrev pub has_external : Text → Text → WagerRow → Bool
has_external provider external r =
    eq_text r.wager.provider_id provider
    && eq_text r.wager.external_transaction_id external
    && not (is_empty r.wager.provider_id)

-- A settled reversal of the transaction.
abbrev pub reverses : Uuid → WagerRow → Bool
reverses id r =
    eq_id r.wager.reference_id id && is_reversal r.wager.kind && is_processed r.wager.status

abbrev pub is_message : Text → Text → InboxRow → Bool
is_message consumer message r = eq_text r.consumer_name consumer && eq_text r.message_id message

-- The unique constraints on a new transaction.
unfoldable pub conflicts : WagerData → WagerRow → Bool
conflicts d r =
    is_wager d.id r
    || has_key d.provider_id d.idempotency_key r
    || has_external d.provider_id d.external_transaction_id r

unfoldable pub signed : Direction → ℤ → ℤ → ℤ
signed credit_direction amount rest = rest +ℤ amount
signed _ amount rest = rest -ℤ amount

-- The sum of a wallet's entries in NUMERIC, credits less debits.
unfoldable pub ledger_total : Uuid → List LedgerData → ℤ
ledger_total id [] = pos 0
ledger_total id (e ∷ es) =
    let rest = ledger_total id es in
    if eq_id e.wallet_id id then signed e.direction e.money.minor rest else rest

unfoldable pub ledger_count : Uuid → List LedgerData → ℕ
ledger_count id [] = 0
ledger_count id (e ∷ es) = (if eq_id e.wallet_id id then 1 else 0) + ledger_count id es
