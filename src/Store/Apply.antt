-- ===== src/Store/Apply.antt =====
-- `apply` of internal/adapters/postgres/process.go with what it calls, and postgres/events.go: the
-- one path by which a transaction takes effect. A nested call that the source wraps by `dbError`
-- stands under `wrap`.
pub mod Upheld
pub mod Conserves
pub mod Balanced
pub mod Sound
pub mod Frames
pub mod Books
use jungle_wager_engine.Base.{
  ℕ, ◌+◌, Bool, true, false, ◌&&◌, ◌||◌, not, Option, none, some, List, [], ◌∷◌, ◌++◌, Text, codes,
  is_empty, find, any, if◌then◌else◌, ℤ, pos,
}
use jungle_wager_engine.Domain.Errors.{
  Result, ok, err, Error, no_rows, domain, invalid_event, code_text, reference_not_found,
}
use jungle_wager_engine.Domain.Id.{Uuid, eq_id, zero_id}
use jungle_wager_engine.Domain.Money.{Money, no_money}
use jungle_wager_engine.Domain.Wallet.{Time, WalletData, rehydrate_wallet, credit, debit}
use jungle_wager_engine.Domain.Ledger.{
  Direction, debit_direction, credit_direction, no_direction, other_direction, LedgerData,
  new_ledger_entry,
}
use jungle_wager_engine.Domain.Wager.{
  Status, pending_reference, processed, rejected, failed, WagerData, is_terminal,
  is_pending_reference, await_reference, process, reject,
}
use jungle_wager_engine.Domain.Evaluate.{Decision, evaluate}
use jungle_wager_engine.Domain.Events.{
  Event, EventMeta, new_wager_processed, new_wager_rejected, new_wager_pending_reference,
  new_wager_failed, new_wallet_balance_changed,
}
use jungle_wager_engine.Application.{AppResult}
use jungle_wager_engine.Store.Tables.{
  Db, WagerRow, OutboxRow, update_where, has_id, is_wager, has_external, reverses,
}
use jungle_wager_engine.Store.Monad.{
  Env, World, Tx, ◌>>=◌, ◌>>◌, pure, lift, raise, gets, modify, translate,
}
use jungle_wager_engine.Store.Rows.{
  db_error, wrap, statement, now, server_now, allocate_id, scan_wager, result_of,
}

-- `errors.Is(err, pgx.ErrNoRows)` is no failure.
abbrev pub found {ℓ} : {A : Type ℓ} → Result A → Result (Option A)
found (ok a) = ok (some a)
found (err no_rows) = ok none
found (err e) = err (db_error e)

-- What an evaluated transaction has come to.
pub record Outcome : Type 0 where
  pub wager : WagerData
  pub wallet : WalletData
  pub entry : Option LedgerData

-- A second, in nanoseconds.
abbrev pub second : ℕ
second = 1000000000

abbrev pub set_balance : WalletData → WalletData → WalletData
set_balance w row = record row {
  balance = record { minor = w.balance.minor; currency = row.balance.currency };
  version = w.version;
  updated_at = w.updated_at;
}

-- The columns that `persistResult` sets; those of a result are NULL unless the status is terminal.
abbrev pub set_result : WagerData → WagerData → WagerData
set_result d row = record row {
  status = d.status;
  failure_code = d.failure_code;
  result_balance = if is_terminal d.status then d.result_balance else no_money;
  result_version = if is_terminal d.status then d.result_version else pos 0;
  reference_id = d.reference_id;
  updated_at = d.updated_at;
  completed_at = d.completed_at;
}

abbrev pub reference_id_of : Option WagerData → Uuid
reference_id_of none = zero_id
reference_id_of (some r) = r.id

-- The decision once the wait has run out: `decision.Pending && expired`.
unfoldable pub expire : Bool → Decision → Decision
expire expired decision =
    if decision.waits && expired
    then record decision { waits = false; failure_code = code_text reference_not_found }
    else decision

-- The movement in a direction.
unfoldable pub move_by : Direction → WalletData → Money → Time → Result WalletData
move_by debit_direction w money at = debit w money at
move_by credit_direction w money at = credit w money at
move_by _ w money at = ok w

-- The entry of a transaction's movement.
abbrev pub entry_data : WagerData → Direction → Money → Money → Time → Uuid → LedgerData
entry_data d direction before after at id = record {
  id = id;
  wallet_id = d.wallet_id;
  transaction_id = d.id;
  direction = direction;
  money = d.money;
  balance_before = before;
  balance_after = after;
  created_at = at;
}

module _ (env : Env) where
  unfoldable pub insert_ledger : WagerData → Direction → Money → Money → Time → Tx LedgerData
  insert_ledger d direction before after at = do
    id ← allocate_id env
    entry ← lift (new_ledger_entry (entry_data d direction before after at id))
    statement env
    stamped ← server_now env
    modify (λ db. record db { ledger = record entry { created_at = stamped } ∷ db.ledger })
    pure (record entry { created_at = stamped })

  unfoldable pub insert_event : Event → Tx (Unit {0})
  insert_event event = do
    statement env
    occurred ← server_now env
    next ← server_now env
    modify (λ db. record db {
      outbox =
          record {
            event = event;
            occurred_at = occurred;
            attempts = 0;
            next_attempt_at = next;
            claim = none;
            published = false;
          }
          ∷ db.outbox;
    })

  -- The event of a status; any other status leaves an empty event, which does not serialize.
  unfoldable pub wager_event : Status → EventMeta → WagerData → Result Event
  wager_event processed meta d = new_wager_processed meta d
  wager_event rejected meta d = new_wager_rejected meta d
  wager_event pending_reference meta d = new_wager_pending_reference meta d
  wager_event failed meta d = new_wager_failed meta d
  wager_event _ meta d = err (domain invalid_event)

  unfoldable pub write_balance_event : Option LedgerData → EventMeta → WalletData → Tx (Unit {0})
  write_balance_event none meta w = pure tt
  write_balance_event (some entry) meta w = do
    id ← allocate_id env
    event ← lift (new_wallet_balance_changed (record meta { id = id }) entry w.version)
    insert_event event

  unfoldable pub write_events :
      WagerData → WalletData → Option LedgerData → Text → Text → Time → Tx (Unit {0})
  write_events d w entry correlation causation at = do
    id ← allocate_id env
    let meta : EventMeta = record {
      id = id;
      correlation_id = correlation;
      causation_id = causation;
      occurred_at = at;
    }
    event ← lift (wager_event d.status meta d)
    insert_event event
    write_balance_event entry meta w

  unfoldable pub persist_result : WagerData → Tx (Unit {0})
  persist_result d = do
    statement env
    at ← server_now env
    modify (λ db. record db {
      wagers =
          update_where (is_wager d.id)
            (λ row. record row {
              wager = set_result d row.wager;
              next_reference_attempt_at =
                  if is_pending_reference d.status then some (at + second) else none;
              claim = none;
            })
            db.wagers;
    })

  -- A reference on the same wallet is read once more, under a lock.
  unfoldable pub lock_reference : WalletData → WagerData → Tx WagerData
  lock_reference w r =
      if eq_id r.wallet_id w.id
      then (do row ← gets (λ db. find (is_wager r.id) db.wagers); wrap (scan_wager env row))
      else pure r

  unfoldable pub find_reference : WalletData → WagerData → Tx (Option WagerData)
  find_reference w d = if is_empty d.reference_external_transaction_id then pure none else (do
    row ←
        gets (λ db. find (has_external d.provider_id d.reference_external_transaction_id) db.wagers)
    reference ← translate found (scan_wager env row)
    elim reference [
      | none ↦ pure none
      | some r ↦ (do locked ← lock_reference w r; pure (some locked))
    ])

  unfoldable pub is_reversed : Option WagerData → Tx Bool
  is_reversed none = pure false
  is_reversed (some r) = do statement env; gets (λ db. any (reverses r.id) db.wagers)

  -- The wallet's row and the ledger entry of a movement.
  unfoldable pub write_entry :
      Direction → WagerData → Money → WalletData → Time → Tx (Option LedgerData)
  write_entry direction d before w at = do
    statement env
    modify (λ db. record db { wallets = update_where (has_id w.id) (set_balance w) db.wallets })
    entry ← insert_ledger d direction before w.balance at
    pure (some entry)

  -- `decision.Direction != DirectionNone`
  unfoldable pub write_movement :
      Direction → WagerData → Money → WalletData → Time → Tx (Option LedgerData)
  write_movement no_direction d before w at = pure none
  write_movement direction d before w at = write_entry direction d before w at

  -- The `default` branch of the switch.
  unfoldable pub settle : WalletData → WagerData → Option WagerData → Direction → Time → Tx Outcome
  settle w wg reference direction at = do
    rehydrated ← lift (rehydrate_wallet w)
    moved ← lift (move_by direction rehydrated wg.money at)
    settled ← lift (process wg moved.balance moved.version (reference_id_of reference) at)
    entry ← write_movement direction settled w.balance moved at
    pure (record { wager = settled; wallet = moved; entry = entry })

  unfoldable pub carry_out :
      WalletData → WagerData → Option WagerData → Decision → Time → Tx Outcome
  carry_out w wg reference decision at =
      if decision.waits
      then (do
        d ← lift (await_reference wg at)
        pure (record { wager = d; wallet = w; entry = none }))
      else if not (is_empty decision.failure_code)
      then (do
        d ← lift (reject wg decision.failure_code w.balance w.version at)
        pure (record { wager = d; wallet = w; entry = none }))
      else settle w wg reference decision.direction at

  -- What follows the switch. A second round of waiting writes no event.
  unfoldable pub conclude : Bool → Text → Text → Time → Outcome → Tx AppResult
  conclude was_pending correlation causation at o = do
    persist_result o.wager
    if is_pending_reference o.wager.status && was_pending
        then pure tt
        else write_events o.wager o.wallet o.entry correlation causation at
    pure (result_of o.wager o.wallet false)

  unfoldable pub apply : WalletData → WagerData → Text → Text → Bool → Tx AppResult
  apply w wg correlation causation expired = do
    reference ← find_reference w wg
    reversed ← is_reversed reference
    decision ← lift (evaluate w wg reference reversed)
    at ← now env
    outcome ← carry_out w wg reference (expire expired decision) at
    conclude (is_pending_reference wg.status) correlation causation at outcome
