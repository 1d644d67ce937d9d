-- ===== src/Store/Runs/Reversals.antt =====
-- A transaction is reversed at most once, whatever the store is asked for.
use jungle_wager_engine.Base.{false, ◌&&◌, ◌≡◌, refl, pos, ltb_ℤ, some, inl, inr}
use jungle_wager_engine.Domain.Wallet.{Time, WalletData}
use jungle_wager_engine.Domain.Ledger.{credit_direction}
use jungle_wager_engine.Domain.Wager.{is_reversal, is_processed}
use jungle_wager_engine.Store.Tables.{Db, WagerRow}
use jungle_wager_engine.Store.Monad.{Env, World}
use jungle_wager_engine.Store.Monad.Upholds.{
  Upholds, Any, pure-Upholds, if-Upholds, lift-Upholds, bind-Upholds, modify-Upholds,
}
use jungle_wager_engine.Store.Monad.Ends.{upheld-Ends}
use jungle_wager_engine.Store.Rows.Upheld.{statement-Upholds, now-Upholds, allocate_id-Upholds}
use jungle_wager_engine.Store.Apply.Upheld.{insert_ledger-Upholds, write_events-Upholds}
use jungle_wager_engine.Store.Process.Upheld.{commit-Upholds}
use jungle_wager_engine.Store.Create.{
  CreateWalletCommand, opening_data, insert_opening, open_with, create_body, create_wallet,
}
use jungle_wager_engine.Store.Create.Upheld.{
  opening-same, insert_opening-cases, insert_wallet-Upholds,
}
use jungle_wager_engine.Store.Work.{release_claims}
use jungle_wager_engine.Store.Claim.Upheld.{claim_outbox-Upholds, free_claims}
use jungle_wager_engine.Store.Reversals.{IsReversedOnce, quiet-IsReversedOnce, added-IsReversedOnce}
use jungle_wager_engine.Store.Reversals.Applied.{Once}
use jungle_wager_engine.Store.Reversals.Kept.{OthersOnce, process_wager-Once, transact-Once}
use jungle_wager_engine.Store.Reversals.Retried.{retry_reference-Once}
use jungle_wager_engine.Store.Runs.{
  Moves, processes, creates, retries, claims, takes, releases, publishes, delays, Reaches, stays,
  moves, mark_published-Upholds, retry_outbox-Upholds,
}

module _ (env : Env) where
  insert_opening-Once :
      (row : WagerRow)
      → (is_reversal row.wager.kind && is_processed row.wager.status) ≡ false
      → Upholds Once (insert_opening env row) Any
  insert_opening-Once row open_ = record {
    after = λ s g. elim (insert_opening-cases env IsReversedOnce row s) [
      | inl same ↦ rw same g
      | inr (free, added) ↦ rw added (added-IsReversedOnce s.db.wagers g row free open_)
    ];
    returns = λ s g a h. tt;
  }

  open_with-Once :
      (c : CreateWalletCommand) (w : WalletData) (at : Time)
      → Upholds Once (open_with env c w at) Any
  unfolding open_with
  open_with-Once c w at = bind-Upholds (allocate_id-Upholds env) (λ tid _.
      bind-Upholds (lift-Upholds _) (λ wg made. bind-Upholds (lift-Upholds _) (λ d done.
        let same =
          opening-same (opening_data c tid w.id w.player_id at) wg d c.initial_balance at made
            done in
        bind-Upholds (insert_opening-Once _ (rw same.kind refl)) (λ _ _.
          bind-Upholds (lift-Upholds _) (λ zero_ _.
            bind-Upholds (insert_ledger-Upholds env IsReversedOnce d credit_direction zero_ _ at)
              (λ entry _. write_events-Upholds env IsReversedOnce d w (some entry) _ _ at))))))

  create_body-Once : (c : CreateWalletCommand) → Upholds Once (create_body env c) Any
  unfolding create_body
  create_body-Once c = bind-Upholds (lift-Upholds _) (λ player _.
      bind-Upholds (lift-Upholds _) (λ _ _. bind-Upholds (statement-Upholds env) (λ _ _.
        bind-Upholds (allocate_id-Upholds env) (λ id _. bind-Upholds (now-Upholds env) (λ at _.
          bind-Upholds (lift-Upholds _) (λ w _.
            bind-Upholds (insert_wallet-Upholds env IsReversedOnce w) (λ _ _.
              bind-Upholds
                (if-Upholds (ltb_ℤ (pos 0) c.initial_balance.minor) (λ _. open_with-Once c w at)
                  (λ _. pure-Upholds _ tt))
                (λ _ _.
                  bind-Upholds (commit-Upholds env IsReversedOnce)
                    (λ _ _. pure-Upholds _ tt)))))))))

  release_claims-Once : (owner : _) → Upholds Once (release_claims env owner) Any
  unfolding release_claims
  release_claims-Once owner = bind-Upholds (statement-Upholds env) (λ _ _.
      bind-Upholds (modify-Upholds _ (λ db g. g)) (λ _ _.
        bind-Upholds (statement-Upholds env)
          (λ _ _. modify-Upholds _ (λ db g. quiet-IsReversedOnce db.wagers g _ _ (λ r. refl)))))

  module _ (others : OthersOnce env) where
    Moves-Once : {s t : World} → Moves env s t → Once s.db → Once t.db
    unfolding create_wallet
    Moves-Once {s} (processes c inbox fits) g = process_wager-Once env others c inbox s g
    Moves-Once {s} (creates c fits) g =
        transact-Once env others (upheld-Ends (create_body-Once c)) s g
    Moves-Once {s} (retries claim max_attempts ttl) g =
        retry_reference-Once env claim max_attempts ttl s others g
    Moves-Once {s} (claims skips owner limit lease) g =
        (claim_outbox-Upholds env skips Once (λ db id c p. p) owner limit lease).after s g
    Moves-Once {s} (takes skips owner limit lease) g =
        (free_claims env skips Once (λ db id c p. quiet-IsReversedOnce db.wagers p _ _ (λ r. refl))
            owner limit lease).after
          s g
    Moves-Once {s} (releases owner) g = (release_claims-Once owner).after s g
    Moves-Once {s} (publishes id token) g =
        (mark_published-Upholds env Once (λ db t w l same p. rw same p) id token).after s g
    Moves-Once {s} (delays id token delay) g =
        (retry_outbox-Upholds env Once (λ db t w l same p. rw same p) id token delay).after s g

    Reaches-Once : {s t : World} → Reaches env s t → Once s.db → Once t.db
    Reaches-Once stays g = g
    Reaches-Once (moves before last) g = Moves-Once last (Reaches-Once before g)

-- After any number of the store's transactions, in any order and however each of them ends, there is
-- at most one settled refund or rollback of each transaction, and the keys of transactions are
-- unique, if that was so at first and the others keep it so.
pub Reaches-IsReversedOnce :
    (env : Env) {s t : World}
    → ((db : Db) → IsReversedOnce db.wagers → IsReversedOnce (env.others db).wagers)
    → Reaches env s t
    → IsReversedOnce s.db.wagers
    → IsReversedOnce t.db.wagers
Reaches-IsReversedOnce env others path g = Reaches-Once env others path g
