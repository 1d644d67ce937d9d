-- ===== src/Store/Process/Replay.antt =====
-- A command that was seen before is answered by the recorded outcome, or refused.
use jungle_wager_engine.Base.{
  ℕ, ◌+◌, ◌⊎◌, true, false, ◌≡◌, arith, some, none, find, eq_text, eq_text_refl, if◌then◌else◌,
}
use jungle_wager_engine.Domain.Errors.{ok, err, app, key_reused, external_reused}
use jungle_wager_engine.Domain.Wallet.{WalletData, validate_wallet, rehydrate_wallet}
use jungle_wager_engine.Domain.Wager.{validate_wager, rehydrate_wager}
use jungle_wager_engine.Application.{Command, normalize_command}
use jungle_wager_engine.Store.Tables.{WagerRow, has_id}
use jungle_wager_engine.Store.Monad.{Env, World, gets, lift, modify, pure, raise, ◌>>=◌, translate}
use jungle_wager_engine.Store.Rows.{wrap, statement, scan_wallet, scan_wager, wallet_of, result_of}
use jungle_wager_engine.Store.Process.{
  identity_row, check_identity, find_identity, complete_inbox, commit, commit_replay,
  process_identified, process_message, process_body, transact, process_wager,
}

module _ (env : Env) (c n : Command) (s : World) (row : WagerRow)
    (normal : normalize_command c ≡ ok n) (seen : identity_row n s.db.wagers ≡ some row)
    (valid : validate_wager row.wager ≡ ok tt) (works : (k : ℕ) → env.fails k ≡ false) where
  abbrev begun : World
  begun = (statement env s).1

  found_identity :
      ((find_identity env n begun).0 ≡ check_identity n (env.payload_hash n) row.wager)
      × ((find_identity env n begun).1.db ≡ s.db)
  unfolding ◌>>=◌ pure lift raise gets modify translate find_identity scan_wager statement
      rehydrate_wager
  found_identity = ground (arith, works s.step, works (begun.step), seen, valid)

  body-identified : process_body env c none s ≡ process_identified env n none begun
  unfolding ◌>>=◌ pure lift raise gets modify translate process_body process_message statement
  body-identified = ground (arith, works s.step)

  -- A command without a message, as one by HTTP, whose provider and key, or else external id, are those of a stored transaction, and
  -- whose payload has another hash or whose key is another one, is refused with KEY_REUSED or
  -- EXTERNAL_REUSED, and commits nothing: what it leaves is what the others commit. This is under
  -- no failing statement, and a stored transaction that is valid.
  pub reused-refused :
      (eq_text row.wager.idempotency_key n.idempotency_key ≡ false)
        ⊎ (eq_text row.wager.payload_hash (env.payload_hash n) ≡ false)
      → ((process_wager env c none s).0
          ≡ err (
              app (
                if eq_text row.wager.idempotency_key n.idempotency_key
                then key_reused
                else external_reused)))
        × ((process_wager env c none s).1.db ≡ env.others s.db)
  unfolding ◌>>=◌ pure lift raise gets modify translate process_wager transact process_identified
      check_identity
  reused-refused differs = ground (arith, body-identified, found_identity)

  module _ (w : WalletData) (same_key : row.wager.idempotency_key ≡ n.idempotency_key)
      (same_hash : row.wager.payload_hash ≡ env.payload_hash n)
      (stored : find (has_id row.wager.wallet_id) s.db.wallets ≡ some w)
      (good : validate_wallet w ≡ ok tt) where
    replayed :
        (t : World)
        → t.db ≡ s.db
        → ((commit_replay env none row.wager t).0 ≡ ok (result_of row.wager w true))
          × ((commit_replay env none row.wager t).1.db ≡ s.db)
    unfolding ◌>>=◌ pure lift raise gets modify translate commit_replay wrap wallet_of scan_wallet
        statement complete_inbox commit rehydrate_wallet
    replayed t here_ = ground (arith, works t.step, works (t.step + 1), stored, good)

    -- A command without a message, as one by HTTP, that repeats a stored transaction (its provider and key, or else external id, name
    -- it, and key and payload hash agree) is answered by the recorded outcome, as a replay, and
    -- changes nothing in the database. This is under no failing statement, and a stored
    -- transaction and wallet that are valid.
    pub process_wager-replays :
        ((process_wager env c none s).0 ≡ ok (result_of row.wager w true))
        × ((process_wager env c none s).1.db ≡ s.db)
    unfolding ◌>>=◌ pure lift raise gets modify translate process_wager transact process_identified
        check_identity
    process_wager-replays =
        let t = (find_identity env n begun).1 in
        ground (
          arith,
          body-identified,
          found_identity,
          same_key,
          same_hash,
          eq_text_refl n.idempotency_key,
          eq_text_refl row.wager.payload_hash,
          replayed t (found_identity.1),
        )
