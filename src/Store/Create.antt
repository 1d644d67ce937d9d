-- ===== src/Store/Create.antt =====
-- `CreateWallet`, `GetWallet` and `GetTransaction` of internal/adapters/postgres/store.go, and
-- `Reconcile` of postgres/read.go.
pub mod Upheld
pub mod Books
pub mod Reconcile
use jungle_wager_engine.Base.{
  ℕ, ◌+◌, Bool, true, false, ◌&&◌, ◌||◌, not, Option, none, some, List, [], ◌∷◌, ◌++◌, Text, codes,
  is_empty, eq_text, find, any, length, ◌==◌, if◌then◌else◌, ℤ, pos, ◌+ℤ◌, ◌-ℤ◌, ltb_ℤ, leb_ℤ, eq_ℤ,
  max_int64, min_int64,
}
use jungle_wager_engine.Domain.Errors.{
  Result, ok, err, Error, storage, no_rows, app, wallet_already_exists, wallet_key_violation,
  reconciliation_overflow,
}
use jungle_wager_engine.Domain.Id.{Uuid, eq_id, zero_id, parse_id, id_string}
use jungle_wager_engine.Domain.Money.{Money, no_money, new_money, zero_money, subtract}
use jungle_wager_engine.Domain.Wallet.{Time, WalletData, new_wallet}
use jungle_wager_engine.Domain.Ledger.{Direction, debit_direction, credit_direction, LedgerData}
use jungle_wager_engine.Domain.Wager.{opening, pending, WagerData, new_opening, process}
use jungle_wager_engine.Application.{AppResult}
use jungle_wager_engine.Store.Tables.{
  Db, WagerRow, has_id, is_wager, has_external, ledger_total, ledger_count, conflicts,
}
use jungle_wager_engine.Store.Monad.{Env, World, Tx, ◌>>=◌, ◌>>◌, pure, lift, raise, gets, modify}
use jungle_wager_engine.Store.Rows.{
  or_no_rows, wrap, statement, now, allocate_id, scan_wallet, scan_wager, wallet_of, result_of,
}
use jungle_wager_engine.Store.Apply.{insert_ledger, write_events}
use jungle_wager_engine.Store.Process.{commit, transact}

pub record CreateWalletCommand : Type 0 where
  pub player_id : Text
  pub initial_balance : Money
  pub correlation_id : Text

-- `walletView` renders the data as it is.
abbrev pub new_wallet_data : CreateWalletCommand → Uuid → Uuid → Time → WalletData
new_wallet_data c id player at = record {
  id = id;
  player_id = player;
  balance = c.initial_balance;
  version = pos 1;
  created_at = at;
  updated_at = at;
}

abbrev pub opening_data : CreateWalletCommand → Uuid → Uuid → Uuid → Time → WagerData
opening_data c tid id player at = record {
  id = tid;
  wallet_id = id;
  player_id = player;
  provider_id = codes "";
  external_transaction_id = codes "";
  idempotency_key = codes "";
  payload_hash = codes "";
  round_id = codes "";
  game_id = codes "";
  kind = opening;
  money = c.initial_balance;
  reference_external_transaction_id = codes "";
  reference_id = zero_id;
  status = pending;
  failure_code = codes "";
  result_balance = no_money;
  result_version = pos 0;
  created_at = at;
  updated_at = at;
  completed_at = none;
}

-- The constraint `wallet_player_currency_key`.
abbrev pub same_owner : WalletData → WalletData → Bool
same_owner w row =
    eq_id row.player_id w.player_id && eq_text row.balance.currency w.balance.currency

pub record Reconciliation : Type 0 where
  pub wallet_id : Uuid
  pub stored_balance : Money
  pub calculated_balance : Money
  pub difference : Money
  pub consistent : Bool
  pub checked_entries : ℕ

abbrev verdict : WalletData → ℕ → Money → Money → Money → Reconciliation
verdict w count stored calculated difference = record {
  wallet_id = w.id;
  stored_balance = stored;
  calculated_balance = calculated;
  difference = difference;
  consistent = eq_ℤ difference.minor (pos 0);
  checked_entries = count;
}

module _ (env : Env) where
  -- The statement reads one snapshot.
  unfoldable pub reconcile : Text → Tx Reconciliation
  reconcile id = do
    uid ← lift (parse_id id)
    statement env
    w ← wrap (do row ← gets (λ db. find (has_id uid) db.wallets); lift (or_no_rows row))
    total ← gets (λ db. ledger_total uid db.ledger)
    count ← gets (λ db. ledger_count uid db.ledger)
    if not (leb_ℤ min_int64 total && leb_ℤ total max_int64)
        then raise (app reconciliation_overflow)
        else (do
          stored ← lift (new_money w.balance.minor w.balance.currency)
          calculated ← lift (new_money total w.balance.currency)
          difference ← lift (subtract stored calculated)
          pure (verdict w count stored calculated difference))

  -- `GetWallet`
  unfoldable pub get_wallet : Text → Tx WalletData
  get_wallet id = do
    uid ← lift (parse_id id)
    row ← gets (λ db. find (has_id uid) db.wallets)
    wrap (scan_wallet env row)

  unfoldable pub view_transaction : Option WagerRow → Tx AppResult
  view_transaction row = do
    d ← wrap (scan_wager env row)
    w ← wrap (wallet_of env d)
    pure (result_of d w false)

  -- `GetTransaction`
  unfoldable pub get_transaction : Text → Text → Tx AppResult
  get_transaction provider id = do
    uid ← lift (parse_id id)
    row ← gets (λ db.
        find
          (λ r.
            eq_text r.wager.provider_id provider
            && is_wager uid r
            && not (is_empty r.wager.provider_id))
          db.wagers)
    view_transaction row

  -- `GetExternalTransaction`
  unfoldable pub get_external_transaction : Text → Text → Tx AppResult
  get_external_transaction provider external = do
    row ← gets (λ db. find (has_external provider external) db.wagers)
    view_transaction row

  unfoldable pub insert_wallet : WalletData → Tx (Unit {0})
  insert_wallet w = do
    statement env
    taken ← gets (λ db. any (has_id w.id) db.wallets)
    owned ← gets (λ db. any (same_owner w) db.wallets)
    if taken
        then raise storage
        else if owned
        then raise (app wallet_already_exists)
        else modify (λ db. record db { wallets = w ∷ db.wallets })

  -- The opening's row, under the table's primary key.
  unfoldable pub insert_opening : WagerRow → Tx (Unit {0})
  insert_opening row = do
    statement env
    taken ← gets (λ db. any (conflicts row.wager) db.wagers)
    if taken then raise storage else modify (λ db. record db { wagers = row ∷ db.wagers })

  -- The opening transaction of a wallet that starts with money.
  unfoldable pub open_with : CreateWalletCommand → WalletData → Time → Tx (Unit {0})
  open_with c w at = do
    tid ← allocate_id env
    wg ← lift (new_opening (opening_data c tid w.id w.player_id at))
    d ← lift (process wg c.initial_balance (pos 1) zero_id at)
    let correlation : Text = if is_empty c.correlation_id then id_string w.id else c.correlation_id
    insert_opening (record {
      wager = d;
      correlation_id = correlation;
      causation_id = codes "";
      reference_attempts = 0;
      next_reference_attempt_at = none;
      claim = none;
    })
    zero ← lift (zero_money c.initial_balance.currency)
    entry ← insert_ledger env d credit_direction zero c.initial_balance at
    write_events env d w (some entry) correlation (codes "") at

  unfoldable pub create_body : CreateWalletCommand → Tx WalletData
  create_body c = do
    player ← lift (parse_id c.player_id)
    _ ← lift (new_money c.initial_balance.minor c.initial_balance.currency)
    statement env
    id ← allocate_id env
    at ← now env
    w ← lift (new_wallet (new_wallet_data c id player at))
    insert_wallet w
    if ltb_ℤ (pos 0) c.initial_balance.minor then open_with c w at else pure tt
    commit env
    pure w

unfoldable pub create_wallet : Env → CreateWalletCommand → World → Result WalletData × World
create_wallet env c = transact env (create_body env c)
