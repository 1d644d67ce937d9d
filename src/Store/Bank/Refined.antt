-- ===== src/Store/Bank/Refined.antt =====
-- `ProcessWager` implements the bank.
use jungle_wager_engine.Base.{
  true, false, not, ◌≡◌, refl, ap, ◌∙◌, arith, Option, some, List, Text, find, eq_text, ℤ,
}
use jungle_wager_engine.Domain.Errors.{Result, ok}
use jungle_wager_engine.Domain.Id.{Uuid, parse_id}
use jungle_wager_engine.Domain.Wallet.{WalletData}
use jungle_wager_engine.Domain.Wager.{WagerData, Kind, processed, new_wager, rehydrate_wager}
use jungle_wager_engine.Application.{Command, InboxMessage, AppResult}
use jungle_wager_engine.Store.Tables.{Db, has_id}
use jungle_wager_engine.Store.Monad.{Env, World, Tx}
use jungle_wager_engine.Store.Monad.Upholds.{
  Upholds, Any, pure-Upholds, raise-Upholds, if-Upholds, gets-Upholds, bind-Upholds, option-Upholds,
}
use jungle_wager_engine.Store.Rows.{result_of}
use jungle_wager_engine.Store.Rows.Upheld.{wrap-Upholds}
use jungle_wager_engine.Store.Apply.Conserves.{SameBooks}
use jungle_wager_engine.Store.Apply.Frames.{scan_books}
use jungle_wager_engine.Store.Process.{commit_replay, replay_message, after_conflict}
use jungle_wager_engine.Store.Process.Frames.{
  wallet_of_books, find_identity_books, complete_inbox_books, commit_books,
}
use jungle_wager_engine.Store.Bank.{
  Serves, stands, debits, credits, bank_of, bank_of-found, bank_of-update,
}
use jungle_wager_engine.Store.Bank.Applied.{OfWallets, books-Upholds, Applies, idle, pays, receives}

-- What `apply` does is what the bank promises.
module _ (wallet : Text) (wg : WagerData) (w : WalletData) (ws : List WalletData) (r : AppResult)
    (stored : find (has_id w.id) ws ≡ some w) (parsed : parse_id wallet ≡ ok w.id) where
  -- The answer to a transaction that is settled is its result.
  settled_answer :
      (wager : WagerData) (held : WalletData) (paid : WalletData) (n : ℤ)
      → r ≡ result_of wager held false
      → wager.status ≡ processed
      → wager.result_balance ≡ paid.balance
      → paid.balance.minor ≡ n
      → (r.status ≡ processed) × (r.balance.minor ≡ n)
  unfolding result_of
  settled_answer wager held paid n answer settled shown is = ground arith

  pub Applies-Serves :
      (now_ : List WalletData)
      → Applies wg w ws r now_
      → Serves wg.kind wallet wg.money.minor (bank_of ws) (ok r) (bank_of now_)
  unfolding result_of
  Applies-Serves now_ a = elim a.effect [
    | idle same lost ↦ rw same (
        stands r (λ p.
          let status : r.status ≡ a.outcome.wager.status = ap (λ x. x.status) a.answer in
          lost (ground arith)))
    | pays paid may same after covered less settled shown ↦
        let here_ : find (has_id paid.id) ws ≡ some w = rw same stored in
        let (status, balance) =
          settled_answer a.outcome.wager a.outcome.wallet paid _ a.answer settled shown less in
        rw (after, bank_of-update ws paid w here_, less)
          (debits r paid.id w.balance.minor may (rw same parsed)
            (rw same (bank_of-found ws w stored)) covered status balance)
    | receives paid may same after more settled shown ↦
        let here_ : find (has_id paid.id) ws ≡ some w = rw same stored in
        let (status, balance) =
          settled_answer a.outcome.wager a.outcome.wallet paid _ a.answer settled shown more in
        rw (after, bank_of-update ws paid w here_, more)
          (credits r paid.id w.balance.minor may (rw same parsed)
            (rw same (bank_of-found ws w stored)) status balance)
  ]

-- The wallets that a command finds: those of the state it starts from, or those that the others leave
-- of such a state.
pub data Finds (env : Env) (db : Db) : List WalletData → Type 0 where
  as_they_were : Finds env db db.wallets
  as_others_left :
      (d : Db) → d.wallets ≡ db.wallets → d.ledger ≡ db.ledger → Finds env db (env.others d).wallets

-- An answer of the bank, from the wallets that were found.
pub record Refines (env : Env) (db : Db) (kind : Kind) (wallet : Text) (amount : ℤ)
    (r : Result AppResult) (now_ : List WalletData) : Type 0 where
  pub wallets : List WalletData
  pub finds : Finds env db wallets
  pub serves : Serves kind wallet amount (bank_of wallets) r (bank_of now_)

-- The books as a command finds them at first.
abbrev pub SameTables : Db → Db → Type 0
SameTables db now_ = (now_.wallets ≡ db.wallets) × (now_.ledger ≡ db.ledger)

pub tables-Upholds :
    {A : Type 0} {m : Tx A} (db : Db)
    → ((s : World) → SameBooks s (m s).1)
    → Upholds (SameTables db) m Any
tables-Upholds db same = record {
  after = λ s (p, q). ((same s).0 ∙ p, (same s).1 ∙ q);
  returns = λ s p a h. tt;
}

pub new_wager-same : (d wg : WagerData) → new_wager d ≡ ok wg → wg ≡ d
unfolding new_wager rehydrate_wager
new_wager-same d wg h = ground arith

module _ (env : Env) where
  -- What is answered again is answered as a replay.
  pub commit_replay-Answers :
      (ws : List WalletData) (m : Option InboxMessage) (d : WagerData)
      → Upholds (OfWallets ws) (commit_replay env m d) (λ r. r.idempotent_replay ≡ true)
  unfolding commit_replay result_of
  commit_replay-Answers ws m d =
      bind-Upholds (wrap-Upholds (books-Upholds ws (wallet_of_books env d))) (λ w _.
        bind-Upholds (books-Upholds ws (complete_inbox_books env m d.id))
          (λ _ _. bind-Upholds (books-Upholds ws (commit_books env)) (λ _ _. pure-Upholds _ refl)))

  pub replay_message-Answers :
      (ws : List WalletData) (c : Command) (id : Uuid)
      → Upholds (OfWallets ws) (replay_message env c id) (λ r. r.idempotent_replay ≡ true)
  unfolding replay_message result_of
  replay_message-Answers ws c id = bind-Upholds (gets-Upholds _) (λ row _.
      bind-Upholds (wrap-Upholds (books-Upholds ws (scan_books env row))) (λ d _.
        if-Upholds (not (eq_text d.provider_id c.provider_id)) (λ _. raise-Upholds _)
          (λ _. bind-Upholds (wrap-Upholds (books-Upholds ws (wallet_of_books env d))) (λ w _.
            bind-Upholds (books-Upholds ws (commit_books env)) (λ _ _. pure-Upholds _ refl)))))

  pub after_conflict-Answers :
      (ws : List WalletData) (c : Command) (m : Option InboxMessage)
      → Upholds (OfWallets ws) (after_conflict env c m) (λ r. r.idempotent_replay ≡ true)
  unfolding after_conflict
  after_conflict-Answers ws c m =
      bind-Upholds (books-Upholds ws (find_identity_books env c)) (λ identity _.
        option-Upholds identity (λ _. raise-Upholds _) (λ d _. commit_replay-Answers ws m d))
