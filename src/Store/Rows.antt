-- ===== src/Store/Rows.antt =====
-- internal/adapters/postgres/store.go: reading rows, and the results made of them. A row is read
-- through the validation of the domain.
pub mod Upheld
use jungle_wager_engine.Base.{Bool, Option, none, some, Text, find, if◌then◌else◌}
use jungle_wager_engine.Domain.Errors.{
  Result, ok, err, Error, storage, no_rows, wallet_key_violation, app, not_found,
  wallet_already_exists,
}
use jungle_wager_engine.Domain.Id.{Uuid, parse_id, id_string}
use jungle_wager_engine.Domain.Wallet.{Time, WalletData, rehydrate_wallet}
use jungle_wager_engine.Domain.Wager.{WagerData, is_terminal, rehydrate_wager}
use jungle_wager_engine.Application.{AppResult}
use jungle_wager_engine.Store.Tables.{WagerRow, has_id}
use jungle_wager_engine.Store.Monad.{Env, Tx, ◌>>=◌, ◌>>◌, pure, lift, raise, gets, modify, tick}

-- `dbError`, which keeps a wrapped error's classification.
unfoldable pub db_error : Error → Error
db_error no_rows = app not_found
db_error wallet_key_violation = app wallet_already_exists
db_error e = e

-- A failure inside becomes one of the store.
unfoldable pub wrap {ℓ} : {A : Type ℓ} → Tx A → Tx A
wrap m s = let (r, s') = m s in elim r [ ok a ↦ (ok a, s') | err e ↦ (err (db_error e), s') ]

abbrev pub or_no_rows {ℓ} : {A : Type ℓ} → Option A → Result A
or_no_rows none = err no_rows
or_no_rows (some a) = ok a

module _ (env : Env) where
  -- One statement, which may fail for a reason of the driver's.
  unfoldable pub statement : Tx (Unit {0})
  statement = do n ← tick; if env.fails n then raise storage else pure tt

  -- `time.Now().UTC()`
  unfoldable pub now : Tx Time
  now = do n ← tick; pure (env.clock n)

  -- `clock_timestamp()`
  unfoldable pub server_now : Tx Time
  server_now = do n ← tick; pure (env.server_clock n)

  -- `allocateID`
  unfoldable pub allocate_id : Tx Uuid
  allocate_id = do statement; n ← tick; lift (parse_id (id_string (env.new_id n)))

  unfoldable pub scan_wallet : Option WalletData → Tx WalletData
  scan_wallet row = do statement; w ← lift (or_no_rows row); lift (rehydrate_wallet w)

  unfoldable pub scan_wager : Option WagerRow → Tx WagerData
  scan_wager row = do statement; r ← lift (or_no_rows row); lift (rehydrate_wager r.wager)

  -- The wallet that a stored transaction names.
  unfoldable pub wallet_of : WagerData → Tx WalletData
  wallet_of d = do row ← gets (λ db. find (has_id d.wallet_id) db.wallets); scan_wallet row

  -- `lockWallet`: other transactions commit before the lock is granted.
  unfoldable pub lock_wallet : Text → Tx WalletData
  lock_wallet id = do
    uid ← lift (parse_id id)
    modify env.others
    row ← gets (λ db. find (has_id uid) db.wallets)
    scan_wallet row

unfoldable pub result_of : WagerData → WalletData → Bool → AppResult
result_of d w replay = record {
  transaction_id = id_string d.id;
  status = d.status;
  balance = if is_terminal d.status then d.result_balance else w.balance;
  wallet_version = if is_terminal d.status then d.result_version else w.version;
  failure_code = d.failure_code;
  idempotent_replay = replay;
}
