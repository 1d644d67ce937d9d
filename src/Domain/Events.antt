-- ===== src/Domain/Events.antt =====
-- internal/domain/events.go: the integration events. An event keeps the envelope's data as a value
-- where the source keeps its JSON; serialization is left out.
use jungle_wager_engine.Base.{
  Bool, true, false, ◌||◌, not, Option, none, some, Text, if◌then◌else◌, ℤ, pos, ltb_ℤ,
}
use jungle_wager_engine.Domain.Errors.{Result, ok, ◌>>=◌, ◌>>◌, refuse, invalid, invalid_event}
use jungle_wager_engine.Domain.Id.{Uuid, is_zero_id}
use jungle_wager_engine.Domain.Money.{Money, is_valid}
use jungle_wager_engine.Domain.Wallet.{Time, is_zero_time}
use jungle_wager_engine.Domain.Ledger.{Direction, LedgerData, new_ledger_entry}
use jungle_wager_engine.Domain.Wager.{
  Kind, Status, pending_reference, processed, rejected, failed, WagerData, validate_wager, is_blank,
}

pub record EventMeta : Type 0 where
  pub id : Uuid
  pub correlation_id : Text
  pub causation_id : Text
  pub occurred_at : Time

pub record WagerEventData : Type 0 where
  pub transaction_id : Uuid
  pub wallet_id : Uuid
  pub player_id : Uuid
  pub provider_id : Text
  pub external_transaction_id : Text
  pub round_id : Text
  pub game_id : Text
  pub kind : Kind
  pub money : Money
  pub status : Status
  pub failure_code : Text
  pub balance : Option Money
  pub wallet_version : ℤ
  pub reference_external_transaction_id : Text

pub record BalanceChangedData : Type 0 where
  pub wallet_id : Uuid
  pub transaction_id : Uuid
  pub direction : Direction
  pub money : Money
  pub balance_before : Money
  pub balance_after : Money
  pub wallet_version : ℤ

-- The event types, each with its payload.
pub data Payload : Type 0 where
  wager_processed wager_rejected wager_pending_reference wager_failed : WagerEventData → Payload
  wallet_balance_changed : BalanceChangedData → Payload

-- An `Event` with its `Envelope`; the version is always 1.
pub record Event : Type 0 where
  pub id : Uuid
  pub aggregate_id : Uuid
  pub correlation_id : Text
  pub causation_id : Text
  pub occurred_at : Time
  pub payload : Payload

unfoldable pub new_event : EventMeta → Uuid → Payload → Result Event
unfolding is_blank
new_event meta aggregate_id payload = do
  refuse
      (is_zero_id meta.id
        || is_zero_id aggregate_id
        || is_zero_time meta.occurred_at
        || is_blank meta.correlation_id)
      (invalid invalid_event)
  ok (record {
    id = meta.id;
    aggregate_id = aggregate_id;
    correlation_id = meta.correlation_id;
    causation_id = meta.causation_id;
    occurred_at = meta.occurred_at;
    payload = payload;
  })

abbrev pub wager_event_data : WagerData → WagerEventData
wager_event_data w = record {
  transaction_id = w.id;
  wallet_id = w.wallet_id;
  player_id = w.player_id;
  provider_id = w.provider_id;
  external_transaction_id = w.external_transaction_id;
  round_id = w.round_id;
  game_id = w.game_id;
  kind = w.kind;
  money = w.money;
  status = w.status;
  failure_code = w.failure_code;
  balance = if is_valid w.result_balance then some w.result_balance else none;
  wallet_version = w.result_version;
  reference_external_transaction_id = w.reference_external_transaction_id;
}

-- `newWagerEvent`: the test says whether the transaction is in the state that the event tells of.
unfoldable pub new_wager_event :
    EventMeta → WagerData → Bool → (WagerEventData → Payload) → Result Event
unfolding new_event
new_wager_event meta w expected payload = do
  validate_wager w
  refuse (not expected) (invalid invalid_event)
  new_event meta w.wallet_id (payload (wager_event_data w))

abbrev in_status : Status → Status → Bool
in_status processed processed = true
in_status rejected rejected = true
in_status pending_reference pending_reference = true
in_status failed failed = true
in_status _ _ = false

unfoldable pub new_wager_processed : EventMeta → WagerData → Result Event
new_wager_processed meta w = new_wager_event meta w (in_status processed w.status) wager_processed

unfoldable pub new_wager_rejected : EventMeta → WagerData → Result Event
new_wager_rejected meta w = new_wager_event meta w (in_status rejected w.status) wager_rejected

unfoldable pub new_wager_pending_reference : EventMeta → WagerData → Result Event
new_wager_pending_reference meta w =
    new_wager_event meta w (in_status pending_reference w.status) wager_pending_reference

unfoldable pub new_wager_failed : EventMeta → WagerData → Result Event
new_wager_failed meta w = new_wager_event meta w (in_status failed w.status) wager_failed

unfoldable pub new_wallet_balance_changed : EventMeta → LedgerData → ℤ → Result Event
unfolding new_event
new_wallet_balance_changed meta entry wallet_version = do
  _ ← new_ledger_entry entry
  refuse (ltb_ℤ wallet_version (pos 1)) (invalid invalid_event)
  new_event meta entry.wallet_id (
      wallet_balance_changed (record {
        wallet_id = entry.wallet_id;
        transaction_id = entry.transaction_id;
        direction = entry.direction;
        money = entry.money;
        balance_before = entry.balance_before;
        balance_after = entry.balance_after;
        wallet_version = wallet_version;
      }))
