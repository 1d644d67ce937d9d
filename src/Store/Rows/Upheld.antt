-- ===== src/Store/Rows/Upheld.antt =====
-- The statements that only read keep whatever holds of the database, and a scanned row is a stored
-- one.
use jungle_wager_engine.Base.{◌≡◌, refl, arith, Option, none, some, Text}
use jungle_wager_engine.Domain.Errors.{Result, ok, err}
use jungle_wager_engine.Domain.Wallet.{WalletData}
use jungle_wager_engine.Domain.Wager.{WagerData, rehydrate_wager}
use jungle_wager_engine.Store.Tables.{Db, WagerRow}
use jungle_wager_engine.Store.Monad.{Env, World, Tx}
use jungle_wager_engine.Store.Monad.Upholds.{
  Upholds, Any, pure-Upholds, raise-Upholds, if-Upholds, forget, weaken, lift-Upholds, gets-Upholds,
  modify-Upholds, tick-Upholds, bind-Upholds,
}
use jungle_wager_engine.Store.Rows.{
  db_error, wrap, or_no_rows, statement, now, server_now, allocate_id, scan_wallet, scan_wager,
  wallet_of, lock_wallet,
}

-- A row that was read, through the validation of the domain.
pub record Scanned (row : Option WagerRow) (d : WagerData) : Type 0 where
  pub stored : WagerRow
  pub is_row : row ≡ some stored
  pub wager_of : d ≡ stored.wager

scanned :
    (row : Option WagerRow) (r : WagerRow) (d : WagerData)
    → or_no_rows row ≡ ok r
    → rehydrate_wager r.wager ≡ ok d
    → Scanned row d
unfolding rehydrate_wager
scanned none r d there_ valid = absurd (ground arith)
scanned (some row) r d there_ valid = record {
  stored = row;
  is_row = refl;
  wager_of = ground arith;
}

module _ {P : Db → Type 0} where
  pub wrap-Upholds : {A : Type 0} {Q : A → Type 0} {m : Tx A} → Upholds P m Q → Upholds P (wrap m) Q
  unfolding wrap
  wrap-Upholds {m = m} u = record {
    after = λ s p. kept (m s) (u.after s p);
    returns = λ s p a h. u.returns s p a (ground arith);
  }
    where
      kept :
          {A : Type 0} (x : Result A × World)
          → P x.1.db
          → P
              (elim x.0 as (λ r. Result A × World) [
                | ok a ↦ (ok a, x.1)
                | err e ↦ (err (db_error e), x.1)
              ]).1.db
      kept (ok a, s) p = p
      kept (err e, s) p = p

  module _ (env : Env) where
    pub statement-Upholds : Upholds P (statement env) Any
    unfolding statement
    statement-Upholds =
        bind-Upholds tick-Upholds
          (λ n _. if-Upholds (env.fails n) (λ _. raise-Upholds _) (λ _. pure-Upholds _ tt))

    pub now-Upholds : Upholds P (now env) Any
    unfolding now
    now-Upholds = bind-Upholds tick-Upholds (λ n _. pure-Upholds _ tt)

    pub server_now-Upholds : Upholds P (server_now env) Any
    unfolding server_now
    server_now-Upholds = bind-Upholds tick-Upholds (λ n _. pure-Upholds _ tt)

    pub allocate_id-Upholds : Upholds P (allocate_id env) Any
    unfolding allocate_id
    allocate_id-Upholds =
        bind-Upholds statement-Upholds
          (λ _ _. bind-Upholds tick-Upholds (λ n _. forget (lift-Upholds _)))

    pub scan_wallet-Upholds : (row : Option WalletData) → Upholds P (scan_wallet env row) Any
    unfolding scan_wallet
    scan_wallet-Upholds row =
        bind-Upholds statement-Upholds
          (λ _ _. bind-Upholds (lift-Upholds _) (λ w _. forget (lift-Upholds _)))

    pub scan_wager-Upholds : (row : Option WagerRow) → Upholds P (scan_wager env row) (Scanned row)
    unfolding scan_wager
    scan_wager-Upholds row = bind-Upholds statement-Upholds (λ _ _.
        bind-Upholds (lift-Upholds _) (λ r there_.
          weaken (Scanned row) (lift-Upholds _) (λ d valid. scanned row r d there_ valid)))

    pub wallet_of-Upholds : (d : WagerData) → Upholds P (wallet_of env d) Any
    unfolding wallet_of
    wallet_of-Upholds d = bind-Upholds (gets-Upholds _) (λ row _. scan_wallet-Upholds row)

    -- Under a lock, what holds must survive what the others commit.
    pub lock_wallet-Upholds :
        ((db : Db) → P db → P (env.others db)) → (id : Text) → Upholds P (lock_wallet env id) Any
    unfolding lock_wallet
    lock_wallet-Upholds others id = bind-Upholds (lift-Upholds _) (λ uid _.
        bind-Upholds (modify-Upholds _ others)
          (λ _ _. bind-Upholds (gets-Upholds _) (λ row _. scan_wallet-Upholds row)))
