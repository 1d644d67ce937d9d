-- ===== src/Store/Process/Frames.antt =====
-- The steps of `ProcessWager` other than `apply` leave the wallets and the ledger alone, and the
-- wallet's lock yields a stored row.
use jungle_wager_engine.Base.{
  ◌≡◌, refl, arith, some, none, Option, Option-cases, find, Text, inl, inr,
}
use jungle_wager_engine.Domain.Errors.{Result-cases, ok}
use jungle_wager_engine.Domain.Id.{eq_id→eq, Uuid, parse_id}
use jungle_wager_engine.Domain.Wallet.{WalletData, rehydrate_wallet}
use jungle_wager_engine.Domain.Wager.{WagerData}
use jungle_wager_engine.Application.{Command, InboxMessage}
use jungle_wager_engine.Store.Tables.{WagerRow, has_id, is_wager}
use jungle_wager_engine.Store.Monad.{Env, World, gets, lift, modify, pure, raise, ◌>>=◌, translate}
use jungle_wager_engine.Store.Rows.{
  wrap, statement, scan_wallet, scan_wager, wallet_of, lock_wallet,
}
use jungle_wager_engine.Store.Apply.Conserves.{SameBooks, statement_books, find-has_id}
use jungle_wager_engine.Store.Apply.Frames.{scan_books}
use jungle_wager_engine.Store.Process.{
  identity_row, find_identity, reserve_inbox, complete_inbox, commit, commit_replay, replay_message,
  insert_wager, after_conflict,
}

module _ (env : Env) where
  pub wallet_of_books : (d : WagerData) (s : World) → SameBooks s (wallet_of env d s).1
  unfolding ◌>>=◌ pure lift raise gets modify translate wallet_of scan_wallet statement
  wallet_of_books d s = ground arith

  pub find_identity_books : (c : Command) (s : World) → SameBooks s (find_identity env c s).1
  unfolding ◌>>=◌ pure lift raise gets modify translate find_identity
  find_identity_books c s = ground (arith, scan_books env (identity_row c s.db.wagers) s)

  pub reserve_inbox_books : (m : InboxMessage) (s : World) → SameBooks s (reserve_inbox env m s).1
  unfolding ◌>>=◌ pure lift raise gets modify translate reserve_inbox statement
  reserve_inbox_books m s = ground arith

  pub complete_inbox_books :
      (m : Option InboxMessage) (id : Uuid) (s : World) → SameBooks s (complete_inbox env m id s).1
  unfolding ◌>>=◌ pure lift raise gets modify translate complete_inbox statement
  complete_inbox_books none id s = (refl, refl)
  complete_inbox_books (some m) id s = ground arith

  pub commit_books : (s : World) → SameBooks s (commit env s).1
  unfolding commit
  commit_books s = statement_books env s

  pub commit_replay_books :
      (m : Option InboxMessage) (d : WagerData) (s : World)
      → SameBooks s (commit_replay env m d s).1
  unfolding ◌>>=◌ pure lift raise gets modify translate commit_replay wrap
  commit_replay_books m d s =
      let s1 = (wallet_of env d s).1 in
      let s2 = (complete_inbox env m d.id s1).1 in
      elim (Result-cases (wallet_of env d s).0) [
        | inl (w, read) ↦ elim (Result-cases (complete_inbox env m d.id s1).0) [
          | inl (u, written) ↦ elim (Result-cases (commit env s2).0) [
            | inl (v, committed) ↦
                ground (arith, wallet_of_books d s, complete_inbox_books m d.id s1, commit_books s2)
            | inr (e, failed) ↦
                ground (arith, wallet_of_books d s, complete_inbox_books m d.id s1, commit_books s2)
          ]
          | inr (e, failed) ↦ ground (arith, wallet_of_books d s, complete_inbox_books m d.id s1)
        ]
        | inr (e, failed) ↦ ground (arith, wallet_of_books d s)
      ]

  pub replay_message_books :
      (c : Command) (id : Uuid) (s : World) → SameBooks s (replay_message env c id s).1
  unfolding ◌>>=◌ pure lift raise gets modify translate replay_message wrap
  replay_message_books c id s =
      let row = find (is_wager id) s.db.wagers in
      let s1 = (scan_wager env row s).1 in
      elim (Result-cases (scan_wager env row s).0) [
        | inl (d, read) ↦
            let s2 = (wallet_of env d s1).1 in
            elim (Result-cases (wallet_of env d s1).0) [
              | inl (w, held) ↦ elim (Result-cases (commit env s2).0) [
                | inl (v, committed) ↦
                    ground (arith, scan_books env row s, wallet_of_books d s1, commit_books s2)
                | inr (e, failed) ↦
                    ground (arith, scan_books env row s, wallet_of_books d s1, commit_books s2)
              ]
              | inr (e, failed) ↦ ground (arith, scan_books env row s, wallet_of_books d s1)
            ]
        | inr (e, failed) ↦ ground (arith, scan_books env row s)
      ]

  pub insert_wager_books : (row : WagerRow) (s : World) → SameBooks s (insert_wager env row s).1
  unfolding ◌>>=◌ pure lift raise gets modify translate insert_wager statement
  insert_wager_books row s = ground arith

  pub after_conflict_books :
      (c : Command) (m : Option InboxMessage) (s : World) → SameBooks s (after_conflict env c m s).1
  unfolding ◌>>=◌ pure lift raise gets modify translate after_conflict
  after_conflict_books c m s =
      let s1 = (find_identity env c s).1 in
      elim (Result-cases (find_identity env c s).0) [
        | inl (identity, read) ↦ elim (Option-cases identity) [
          | inl missing ↦ ground (arith, find_identity_books c s)
          | inr (d, there_) ↦ ground (arith, find_identity_books c s, commit_replay_books m d s1)
        ]
        | inr (e, failed) ↦ ground (arith, find_identity_books c s)
      ]

  -- A lock that is granted yields the wallet that the others have left, as it is stored.
  pub lock_wallet-ok :
      (id : Text) (s : World) (w : WalletData)
      → (lock_wallet env id s).0 ≡ ok w
      → ((lock_wallet env id s).1.db ≡ env.others s.db)
        × (find (has_id w.id) (env.others s.db).wallets ≡ some w)
  unfolding ◌>>=◌ pure lift raise gets modify translate lock_wallet scan_wallet statement
      rehydrate_wallet
  lock_wallet-ok id s w h = elim (Result-cases (parse_id id)) [
    | inl (uid, parsed) ↦ elim (Option-cases (find (has_id uid) (env.others s.db).wallets)) [
      | inl missing ↦ ground arith
      | inr (row, there_) ↦
          ground (
            arith,
            eq_id→eq row.id uid (find-has_id uid (env.others s.db).wallets {w = row} there_),
          )
    ]
    | inr (e, failed) ↦ ground arith
  ]
