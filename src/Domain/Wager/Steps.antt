-- ===== src/Domain/Wager/Steps.antt =====
-- A transaction's life as a step relation, over internal/domain/wager.go.
use jungle_wager_engine.Base.{◌≤◌, true, false, ◌≡◌, arith, ℤ, Text, ◌⊎◌}
use jungle_wager_engine.Domain.Errors.{ok}
use jungle_wager_engine.Domain.Id.{Uuid}
use jungle_wager_engine.Domain.Money.{Money}
use jungle_wager_engine.Domain.Wallet.{Time}
use jungle_wager_engine.Domain.Wager.{
  WagerData, is_terminal, validate_wager, await_reference, process, reject, fail_wager, stamped,
  rehydrate_wager, pending_reference,
}

-- What no transition changes.
pub record SameIdentity (d e : WagerData) : Type 0 where
  pub id : e.id ≡ d.id
  pub wallet_id : e.wallet_id ≡ d.wallet_id
  pub player_id : e.player_id ≡ d.player_id
  pub provider_id : e.provider_id ≡ d.provider_id
  pub external_transaction_id : e.external_transaction_id ≡ d.external_transaction_id
  pub idempotency_key : e.idempotency_key ≡ d.idempotency_key
  pub payload_hash : e.payload_hash ≡ d.payload_hash
  pub round_id : e.round_id ≡ d.round_id
  pub game_id : e.game_id ≡ d.game_id
  pub kind : e.kind ≡ d.kind
  pub money : e.money ≡ d.money
  pub reference : e.reference_external_transaction_id ≡ d.reference_external_transaction_id
  pub created_at : e.created_at ≡ d.created_at

-- A step of a transaction's life.
pub data Step (d e : WagerData) : Type 0 where
  awaits : (now : Time) → await_reference d now ≡ ok e → Step d e
  processes :
      (balance : Money) (version : ℤ) (reference_id : Uuid) (now : Time)
      → process d balance version reference_id now ≡ ok e
      → Step d e
  rejects :
      (code : Text) (balance : Money) (version : ℤ) (now : Time)
      → reject d code balance version now ≡ ok e
      → Step d e
  fails :
      (code : Text) (balance : Money) (version : ℤ) (now : Time)
      → fail_wager d code balance version now ≡ ok e
      → Step d e

-- What a step leads to.
pub record Advances (d e : WagerData) : Type 0 where
  pub was_open : is_terminal d.status ≡ false
  pub valid : validate_wager e ≡ ok tt
  pub same : SameIdentity d e
  pub later : d.updated_at ≤ e.updated_at
  pub left_pending : (e.status ≡ pending_reference) ⊎ (is_terminal e.status ≡ true)

pub await_reference-Advances :
    (d e : WagerData) (now : Time) → await_reference d now ≡ ok e → Advances d e
unfolding await_reference stamped rehydrate_wager
await_reference-Advances d e now h = ground arith

pub process-Advances :
    (d e : WagerData) (balance : Money) (version : ℤ) (reference_id : Uuid) (now : Time)
    → process d balance version reference_id now ≡ ok e
    → Advances d e
unfolding process stamped rehydrate_wager
process-Advances d e balance version reference_id now h = ground arith

pub reject-Advances :
    (d e : WagerData) (code : Text) (balance : Money) (version : ℤ) (now : Time)
    → reject d code balance version now ≡ ok e
    → Advances d e
unfolding reject stamped rehydrate_wager
reject-Advances d e code balance version now h = ground arith

pub fail_wager-Advances :
    (d e : WagerData) (code : Text) (balance : Money) (version : ℤ) (now : Time)
    → fail_wager d code balance version now ≡ ok e
    → Advances d e
unfolding fail_wager stamped rehydrate_wager
fail_wager-Advances d e code balance version now h = ground arith

-- Any step of a transaction starts from an open state and leads to a valid transaction with the
-- same identity, at a time that is not earlier, which waits for its reference or is terminal.
pub Step-Advances : {d e : WagerData} → Step d e → Advances d e
Step-Advances {d} {e} (awaits now h) = await_reference-Advances d e now h
Step-Advances {d} {e} (processes b v r now h) = process-Advances d e b v r now h
Step-Advances {d} {e} (rejects c b v now h) = reject-Advances d e c b v now h
Step-Advances {d} {e} (fails c b v now h) = fail_wager-Advances d e c b v now h
