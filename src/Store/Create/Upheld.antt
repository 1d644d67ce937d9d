-- ===== src/Store/Create/Upheld.antt =====
-- `CreateWallet` keeps every lasting property of the table of transactions.
use jungle_wager_engine.Base.{
  false, ◌≡◌, ◌⊎◌, arith, List, ◌∷◌, some, any, Bool-cases, inl, inr, pos, ltb_ℤ,
}
use jungle_wager_engine.Domain.Errors.{ok}
use jungle_wager_engine.Domain.Id.{zero_id}
use jungle_wager_engine.Domain.Money.{Money}
use jungle_wager_engine.Domain.Wallet.{Time, WalletData}
use jungle_wager_engine.Domain.Ledger.{credit_direction}
use jungle_wager_engine.Domain.Wager.{WagerData, new_opening, process, rehydrate_wager}
use jungle_wager_engine.Domain.Wager.Steps.{SameIdentity, process-Advances}
use jungle_wager_engine.Store.Tables.{WagerRow, conflicts}
use jungle_wager_engine.Store.Monad.{Env, World, ◌>>=◌, gets, modify, raise, pure}
use jungle_wager_engine.Store.Monad.Upholds.{
  Upholds, Any, pure-Upholds, raise-Upholds, if-Upholds, lift-Upholds, gets-Upholds, modify-Upholds,
  bind-Upholds,
}
use jungle_wager_engine.Store.Rows.{statement}
use jungle_wager_engine.Store.Rows.Upheld.{statement-Upholds, now-Upholds, allocate_id-Upholds}
use jungle_wager_engine.Store.Lasting.{OfWagers, Lasting}
use jungle_wager_engine.Store.Apply.Upheld.{insert_ledger-Upholds, write_events-Upholds}
use jungle_wager_engine.Store.Process.Upheld.{commit-Upholds, transact-Upholds}
use jungle_wager_engine.Store.Create.{
  CreateWalletCommand, opening_data, insert_wallet, insert_opening, open_with, create_body,
  create_wallet,
}

-- The opening that is stored is the one that was made.
pub opening-same :
    (made wg d : WagerData) (balance : Money) (at : Time)
    → new_opening made ≡ ok wg
    → process wg balance (pos 1) zero_id at ≡ ok d
    → SameIdentity made d
unfolding new_opening rehydrate_wager
opening-same made wg d balance at h k =
    let same : wg ≡ made = ground arith in
    rw same at ((process-Advances wg d balance (pos 1) zero_id at k).same)

module _ (env : Env) (T : List WagerRow → Type 0) where
  pub insert_wallet-Upholds : (w : WalletData) → Upholds (OfWagers T) (insert_wallet env w) Any
  unfolding insert_wallet
  insert_wallet-Upholds w = bind-Upholds (statement-Upholds env) (λ _ _.
      bind-Upholds (gets-Upholds _) (λ taken _. bind-Upholds (gets-Upholds _) (λ owned _.
        if-Upholds taken (λ _. raise-Upholds _)
          (λ _. if-Upholds owned (λ _. raise-Upholds _) (λ _. modify-Upholds _ (λ db p. p))))))

  pub insert_opening-cases :
      (row : WagerRow) (s : World)
      → ((insert_opening env row s).1.db.wagers ≡ s.db.wagers)
        ⊎ ((any (conflicts row.wager) s.db.wagers ≡ false)
            × ((insert_opening env row s).1.db.wagers ≡ row ∷ s.db.wagers))
  unfolding insert_opening statement ◌>>=◌ gets modify raise pure
  insert_opening-cases row s = elim (Bool-cases (env.fails s.step)) [
    | inl broken ↦ inl (ground arith)
    | inr works ↦ elim (Bool-cases (any (conflicts row.wager) s.db.wagers)) [
      | inl taken ↦ inl (ground arith)
      | inr free ↦ inr (free, ground arith)
    ]
  ]

module _ (env : Env) (T : List WagerRow → Type 0) (Paid : Money → Type 0)
    (lasts : Lasting env.others Paid T) where
  insert_opening-Upholds :
      (row : WagerRow) → Paid row.wager.money → Upholds (OfWagers T) (insert_opening env row) Any
  insert_opening-Upholds row paid = record {
    after = λ s p. elim (insert_opening-cases env T row s) [
      | inl same ↦ rw same p
      | inr (free, added) ↦ rw added ((lasts.grows row s.db.wagers paid free p).0)
    ];
    returns = λ s p a h. tt;
  }

  open_with-Upholds :
      (c : CreateWalletCommand) (w : WalletData) (at : Time)
      → Paid c.initial_balance
      → Upholds (OfWagers T) (open_with env c w at) Any
  unfolding open_with
  open_with-Upholds c w at paid = bind-Upholds (allocate_id-Upholds env) (λ tid _.
      bind-Upholds (lift-Upholds _) (λ wg made. bind-Upholds (lift-Upholds _) (λ d done.
        let made_of = opening_data c tid w.id w.player_id at in
        let same = opening-same made_of wg d c.initial_balance at made done in
        let paid_d : Paid d.money = rw (same.money) paid in
        bind-Upholds (insert_opening-Upholds _ paid_d) (λ _ _.
          bind-Upholds (lift-Upholds _) (λ zero_ _.
            bind-Upholds (insert_ledger-Upholds env T d credit_direction zero_ _ at)
              (λ entry _. write_events-Upholds env T d w (some entry) _ _ at))))))

  pub create_wallet-Upholds :
      (c : CreateWalletCommand)
      → Paid c.initial_balance
      → Upholds (OfWagers T) (create_wallet env c) Any
  unfolding create_wallet create_body
  create_wallet-Upholds c paid = transact-Upholds env T Paid lasts (
      bind-Upholds (lift-Upholds _) (λ player _. bind-Upholds (lift-Upholds _) (λ _ _.
        bind-Upholds (statement-Upholds env) (λ _ _. bind-Upholds (allocate_id-Upholds env) (λ id _.
          bind-Upholds (now-Upholds env) (λ at _. bind-Upholds (lift-Upholds _) (λ w _.
            bind-Upholds (insert_wallet-Upholds env T w) (λ _ _.
              bind-Upholds
                (if-Upholds (ltb_ℤ (pos 0) c.initial_balance.minor)
                  (λ _. open_with-Upholds c w at paid) (λ _. pure-Upholds _ tt))
                (λ _ _. bind-Upholds (commit-Upholds env T) (λ _ _. pure-Upholds _ tt))))))))))
