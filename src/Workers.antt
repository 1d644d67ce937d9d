-- ===== src/Workers.antt =====
-- internal/workers/engine.go: decoding a message of the broker, and the wait before another try.
pub mod Bounds
pub mod Consume
pub mod Outbox
pub mod Rounds
use jungle_wager_engine.Base.{
  ℕ, ◌+◌, ◌*◌, ◌/◌, ◌^◌, Bool, true, false, ◌||◌, not, Option, none, some, List, Text, codes,
  is_empty, eq_text, len, any, ltb, ◌==◌, if◌then◌else◌,
}
use jungle_wager_engine.Domain.Errors.{
  Result, ok, err, Error, app, invalid_message, ◌>>=◌, ◌>>◌, refuse,
}
use jungle_wager_engine.Domain.Money.{Money}
use jungle_wager_engine.Domain.Money.Parse.{parse_money}
use jungle_wager_engine.Domain.Wallet.{Time, is_zero_time}
use jungle_wager_engine.Application.{Command, InboxMessage, normalize_command}
use jungle_wager_engine.Store.Apply.{second}

-- The wait before attempt `attempt` again, in nanoseconds; `draw n` is the number below `n` that
-- `rand.Int64N` yields. Attempts are counted from 0 on.
unfoldable pub backoff : ℕ → ℕ → (ℕ → ℕ) → ℕ
backoff attempt max draw =
    let full = second * 2 ^ (if ltb 20 attempt then 20 else attempt) in
    let delay = if ltb max full then max else full in delay / 2 + draw (delay / 2 + 1)

-- The label of a retry: a known code in lower case, or `infrastructure`.
unfoldable pub retry_reason : Text → Text
retry_reason code =
    if eq_text code (codes "IDEMPOTENCY_KEY_REUSED")
    then codes "idempotency_key_reused"
    else if eq_text code (codes "EXTERNAL_TRANSACTION_ID_REUSED")
    then codes "external_transaction_id_reused"
    else if eq_text code (codes "INBOX_MESSAGE_REUSED")
    then codes "inbox_message_reused"
    else if eq_text code (codes "INVALID_MESSAGE")
    then codes "invalid_message"
    else if eq_text code (codes "NOT_FOUND")
    then codes "not_found"
    else codes "infrastructure"

pub record RequestData : Type 0 where
  pub provider_id : Text
  pub external_transaction_id : Text
  pub idempotency_key : Text
  pub player_id : Text
  pub wallet_id : Text
  pub round_id : Text
  pub game_id : Text
  pub kind : Text
  pub amount : Text
  pub currency : Text
  pub reference_external_transaction_id : Text

pub record RequestEnvelope : Type 0 where
  pub message_id : Text
  pub type : Text
  pub occurred_at : Time
  pub request : RequestData

abbrev pub consumer_name : Text
consumer_name = codes "wager-transactions-v1"

-- The condition on a decoded envelope.
unfoldable pub envelope_is_bad : RequestEnvelope → Bool
envelope_is_bad e =
    is_empty e.message_id
    || ltb 200 (len e.message_id)
    || not (eq_text e.type (codes "WagerTransactionRequested"))
    || is_zero_time e.occurred_at

abbrev pub command_of : RequestEnvelope → Money → Command
command_of e money = record {
  provider_id = e.request.provider_id;
  external_transaction_id = e.request.external_transaction_id;
  idempotency_key = e.request.idempotency_key;
  player_id = e.request.player_id;
  wallet_id = e.request.wallet_id;
  round_id = e.request.round_id;
  game_id = e.request.game_id;
  kind = e.request.kind;
  money = money;
  reference_external_transaction_id = e.request.reference_external_transaction_id;
  correlation_id = e.message_id;
  causation_id = e.message_id;
}

abbrev or_invalid {ℓ} : {A : Type ℓ} → Option A → Result A
or_invalid none = err (app invalid_message)
or_invalid (some a) = ok a

-- The field `data` is `request` here. `json` is the strict decoding of one JSON value by `encoding/json`, and `inbox_hash` is
-- `InboxHash`.
module _ (json : Text → Option RequestEnvelope)
    (inbox_hash : RequestEnvelope → Command → Result Text) where
  unfoldable pub decode : Text → List Text → Result (Command × InboxMessage)
  decode body providers = do
    refuse (len body == 0 || ltb 131072 (len body)) (app invalid_message)
    e ← or_invalid (json body)
    refuse (envelope_is_bad e) (app invalid_message)
    refuse (not (any (eq_text e.request.provider_id) providers)) (app invalid_message)
    money ← parse_money e.request.amount e.request.currency
    c ← normalize_command (command_of e money)
    hash ← inbox_hash e c
    ok (c, record { consumer_name = consumer_name; message_id = e.message_id; payload_hash = hash })
