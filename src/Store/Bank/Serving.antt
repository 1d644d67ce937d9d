-- ===== src/Store/Bank/Serving.antt =====
-- `ProcessWager` refines the bank, from its statements up.
use jungle_wager_engine.Base.{
  true, false, not, ◌≡◌, refl, ap, ◌∙◌, arith, Option, none, some, List, Text, find, eq_text,
  Option-cases, inl, inr, IsInt64,
}
use jungle_wager_engine.Domain.Errors.{Result-cases, ok, err}
use jungle_wager_engine.Domain.Id.{parse_id, id_string, eq_id→eq}
use jungle_wager_engine.Domain.Wallet.{WalletData, rehydrate_wallet}
use jungle_wager_engine.Domain.Wallet.Moves.{Fits}
use jungle_wager_engine.Application.{Command, InboxMessage, AppResult, normalize_command}
use jungle_wager_engine.Store.Tables.{Db, has_id}
use jungle_wager_engine.Store.Monad.{
  Env, World, Tx, ◌>>=◌, pure, lift, raise, gets, modify, translate,
}
use jungle_wager_engine.Store.Monad.Upholds.{Upholds, lift-Upholds}
use jungle_wager_engine.Store.Monad.Ends.{
  Ends, pure-Ends, raise-Ends, if-Ends, bind-Ends, then-Ends, from-Ends, option-Ends,
}
use jungle_wager_engine.Store.Rows.{lock_wallet, wrap, scan_wallet, statement}
use jungle_wager_engine.Store.Rows.Upheld.{now-Upholds}
use jungle_wager_engine.Store.Apply.Conserves.{statement_books, allocate_books, find-has_id}
use jungle_wager_engine.Store.Apply.Sound.{IsSound, OthersSound, carry-Sound}
use jungle_wager_engine.Store.Process.{
  kind_of, wager_row, pending_wager, process_new, process_identified, process_message, process_body,
  transact, process_wager,
}
use jungle_wager_engine.Store.Process.Frames.{
  find_identity_books, reserve_inbox_books, complete_inbox_books, commit_books, insert_wager_books,
  lock_wallet-ok,
}
use jungle_wager_engine.Store.Bank.{refuses, stands}
use jungle_wager_engine.Store.Bank.Applied.{OfWallets, books-Upholds, books-Keeps, apply-Applies}
use jungle_wager_engine.Store.Bank.Refined.{
  Applies-Serves, Finds, as_they_were, as_others_left, Refines, SameTables, tables-Upholds,
  new_wager-same, commit_replay-Answers, replay_message-Answers, after_conflict-Answers,
}

-- The wallet that a command has locked, among the wallets it finds.
record Locked (env : Env) (db : Db) (wallet : Text) (w : WalletData) (now_ : Db) : Type 0 where
  wallets : List WalletData
  finds : Finds env db wallets
  same : now_.wallets ≡ wallets
  stored : find (has_id w.id) wallets ≡ some w
  parsed : parse_id wallet ≡ ok w.id
  balance_fits : IsInt64 w.balance.minor
  version_fits : IsInt64 w.version

lock_wallet-parsed :
    (env : Env) (id : Text) (s : World) (w : WalletData)
    → (lock_wallet env id s).0 ≡ ok w
    → parse_id id ≡ ok w.id
unfolding ◌>>=◌ pure lift raise gets modify translate lock_wallet scan_wallet statement
    rehydrate_wallet
lock_wallet-parsed env id s w h = elim (Result-cases (parse_id id)) [
  | inl (uid, parsed) ↦ elim (Option-cases (find (has_id uid) (env.others s.db).wallets)) [
    | inl missing ↦ absurd (ground arith)
    | inr (row, there_) ↦
        ground
          (arith, eq_id→eq row.id uid (find-has_id uid (env.others s.db).wallets {w = row} there_))
  ]
  | inr (e, failed) ↦ absurd (ground arith)
]

module _ (env : Env) (others : OthersSound env) (db : Db) (sound : IsSound db) where
  lock_wallet-Locked :
      (wallet : Text)
      → Ends (SameTables db) (wrap (lock_wallet env wallet)) (λ w. Locked env db wallet w)
  unfolding wrap
  lock_wallet-Locked wallet = record {
    well = λ s (pw, pl) w h.
        let held : (lock_wallet env wallet s).0 ≡ ok w = ground arith in
        let same : (wrap (lock_wallet env wallet) s).1.db ≡ (lock_wallet env wallet s).1.db =
          ground arith in
        let (left, there_) = lock_wallet-ok env wallet s w held in
        let kept : IsSound (env.others s.db) = others s.db (carry-Sound pw pl sound) in
        let (bf, vf) = kept.in_range w.id w there_ in
        record {
          wallets = (env.others s.db).wallets;
          finds = as_others_left s.db pw pl;
          same = ap (λ d. d.wallets) (same ∙ left);
          stored = there_;
          parsed = lock_wallet-parsed env wallet s w held;
          balance_fits = bf;
          version_fits = vf;
        };
  }

  module _ (c : Command) (m : Option InboxMessage) (money_fits : IsInt64 c.money.minor) where
    -- An answer to the command.
    abbrev Served : AppResult → Db → Type 0
    Served r now_ = Refines env db (kind_of c.kind) c.wallet_id c.money.minor (ok r) now_.wallets

    -- What is answered as a replay leaves the wallets as they were found.
    replay-Served :
        {tx : Tx AppResult} (ws : List WalletData)
        → Finds env db ws
        → Upholds (OfWallets ws) tx (λ r. r.idempotent_replay ≡ true)
        → Ends (OfWallets ws) tx Served
    replay-Served ws finds u = record {
      well = λ s p r h.
          let replayed = u.returns s p r h in
          record {
            wallets = ws;
            finds = finds;
            serves = rw (u.after s p) (stands r (λ fresh. absurd (ground arith)));
          };
    }

    Locked-Ends :
        {A : Type 0} {tx : Tx A} {Q : A → Db → Type 0} (w : WalletData)
        → ((ws : List WalletData)
            → Finds env db ws
            → find (has_id w.id) ws ≡ some w
            → parse_id c.wallet_id ≡ ok w.id
            → Fits w c.money
            → Ends (OfWallets ws) tx Q)
        → Ends (Locked env db c.wallet_id w) tx Q
    Locked-Ends w k = record {
      well = λ s l a h.
          (k l.wallets l.finds l.stored l.parsed (record {
            balance_fits = l.balance_fits;
            version_fits = l.version_fits;
            money_fits = money_fits;
          })).well
            s l.same a h;
    }

    process_new-Served : Ends (SameTables db) (process_new env c m) Served
    unfolding process_new
    process_new-Served = bind-Ends (lock_wallet-Locked c.wallet_id) (λ w.
        Locked-Ends w (λ ws finds stored parsed fits.
          if-Ends (not (eq_text (id_string w.player_id) c.player_id)) (λ _. raise-Ends _)
            (λ _. then-Ends (books-Upholds ws (allocate_books env)) (λ id _.
              then-Ends (lift-Upholds _) (λ player _. then-Ends (now-Upholds env) (λ at _.
                then-Ends (lift-Upholds _) (λ wg made.
                  let same = new_wager-same (pending_wager env c w id player at) wg made in
                  then-Ends (books-Upholds ws (insert_wager_books env (wager_row c wg)))
                    (λ inserted _.
                      if-Ends (not inserted)
                        (λ _. replay-Served ws finds (after_conflict-Answers env ws c m))
                        (λ _.
                          bind-Ends
                            (apply-Applies env w wg (rw (ap (λ d. d.money) same) fits) ws
                              c.correlation_id c.causation_id false)
                            (λ result.
                              then-Ends (books-Keeps _ (complete_inbox_books env m wg.id)) (λ _ _.
                                then-Ends (books-Keeps _ (commit_books env)) (λ _ _.
                                  pure-Ends _ (λ now_ a. record {
                                    wallets = ws;
                                    finds = finds;
                                    serves =
                                        rw (ap (λ d. d.kind) same, ap (λ d. d.money) same) at
                                          (Applies-Serves c.wallet_id wg w ws result stored parsed
                                            now_.wallets a);
                                  })))))))))))))

    -- What is answered as a replay before a wallet is locked.
    early-Served :
        {tx : Tx AppResult}
        → Upholds (OfWallets db.wallets) tx (λ r. r.idempotent_replay ≡ true)
        → Ends (SameTables db) tx Served
    early-Served u = from-Ends (λ now_ (pw, pl). pw) (replay-Served db.wallets as_they_were u)

    process_identified-Served : Ends (SameTables db) (process_identified env c m) Served
    unfolding process_identified
    process_identified-Served =
        then-Ends (tables-Upholds db (find_identity_books env c)) (λ identity _.
          option-Ends identity (λ _. process_new-Served)
            (λ d _. early-Served (commit_replay-Answers env db.wallets m d)))

  process_message-Served :
      (c : Command) (m : Option InboxMessage) (fits : IsInt64 c.money.minor)
      → Ends (SameTables db) (process_message env c m) (Served c m fits)
  unfolding process_message
  process_message-Served c none fits = process_identified-Served c none fits
  process_message-Served c (some m) fits =
      then-Ends (tables-Upholds db (reserve_inbox_books env m)) (λ existing _.
        option-Ends existing (λ _. process_identified-Served c (some m) fits)
          (λ id _. early-Served c (some m) fits (replay_message-Answers env db.wallets c id)))

  process_body-Served :
      (c n : Command) (m : Option InboxMessage) (fits : IsInt64 n.money.minor)
      → normalize_command c ≡ ok n
      → Ends (SameTables db) (process_body env c m) (Served n m fits)
  unfolding process_body
  process_body-Served c n m fits normal = then-Ends (lift-Upholds _) (λ n' normal'.
      let same : n' ≡ n = ground arith in
      then-Ends (tables-Upholds db (statement_books env))
        (λ _ _. rw same (process_message-Served n m fits)))

-- `ProcessWager` implements the bank: to a command that normalizes, it gives an answer of the bank,
-- from the wallets as they were or as the others have left them, and leaves the bank that goes with
-- the answer. The books are taken to be sound, the others to leave them so, and the amount to be an
-- int64.
pub process_wager-Refines :
    (env : Env) (c n : Command) (inbox : Option InboxMessage) (s : World)
    → OthersSound env
    → IsSound s.db
    → normalize_command c ≡ ok n
    → IsInt64 n.money.minor
    → Refines env s.db
        (kind_of n.kind)
        n.wallet_id
        n.money.minor
        (process_wager env c inbox s).0
        (process_wager env c inbox s).1.db.wallets
unfolding process_wager transact
process_wager-Refines env c n inbox s others sound normal fits =
    elim (Result-cases (process_body env c inbox s).0) [
      | inl (r, good) ↦
          let served =
            (process_body-Served env others s.db sound c n inbox fits normal).well s (refl, refl) r
              good in
          let same : process_wager env c inbox s ≡ (ok r, (process_body env c inbox s).1) =
            ground arith in
          rw (ap (λ x. x.0) same, ap (λ x. x.1.db.wallets) same) served
      | inr (e, bad) ↦
          let answer : (process_wager env c inbox s).0 ≡ err e = ground arith in
          let left : (process_wager env c inbox s).1.db ≡ env.others s.db = ground arith in
          rw (answer, left)
            (record {
              wallets = (env.others s.db).wallets;
              finds = as_others_left s.db refl refl;
              serves = refuses e;
            })
    ]
