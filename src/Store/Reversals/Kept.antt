-- ===== src/Store/Reversals/Kept.antt =====
-- Every transaction of the store keeps to one settled reversal of a transaction.
use jungle_wager_engine.Base.{
  true, false, not, ◌≡◌, ap, ◌∙◌, arith, Option, none, some, eq_text, inl, inr,
}
use jungle_wager_engine.Domain.Errors.{Result-cases, ok}
use jungle_wager_engine.Domain.Id.{id_string}
use jungle_wager_engine.Domain.Wager.{WagerData, new_wager, is_processed, rehydrate_wager}
use jungle_wager_engine.Application.{Command, InboxMessage}
use jungle_wager_engine.Store.Tables.{Db, WagerRow}
use jungle_wager_engine.Store.Monad.{Env, World, Tx}
use jungle_wager_engine.Store.Monad.Upholds.{Any, pure-Upholds, lift-Upholds, bind-Upholds}
use jungle_wager_engine.Store.Monad.Ends.{
  Ends, raise-Ends, if-Ends, bind-Ends, then-Ends, upheld-Ends, from-Ends, option-Ends,
}
use jungle_wager_engine.Store.Rows.Upheld.{
  wrap-Upholds, statement-Upholds, now-Upholds, allocate_id-Upholds, lock_wallet-Upholds,
}
use jungle_wager_engine.Store.Process.{
  wager_row, pending_wager, insert_wager, process_new, process_identified, process_message,
  process_body, transact, process_wager,
}
use jungle_wager_engine.Store.Process.Upheld.{
  find_identity-Upholds, reserve_inbox-Upholds, complete_inbox-Upholds, commit-Upholds,
  commit_replay-Upholds, replay_message-Upholds, after_conflict-Upholds, insert_wager-cases,
}
use jungle_wager_engine.Store.Reversals.{IsReversedOnce, Kinded, added-IsReversedOnce, added-Kinded}
use jungle_wager_engine.Store.Reversals.Applied.{Once, apply-Once}

-- What the others commit keeps to it.
abbrev pub OthersOnce : Env → Type 0
OthersOnce env = (db : Db) → Once db → Once (env.others db)

new_wager-open : (d wg : WagerData) → new_wager d ≡ ok wg → is_processed wg.status ≡ false
unfolding new_wager rehydrate_wager
new_wager-open d wg h = ground arith

-- A transaction that keeps to it where it succeeds does so however it ends.
pub transact-Once :
    {A : Type 0} {m : Tx A} (env : Env)
    → OthersOnce env
    → Ends Once m (λ _. Once)
    → (s : World) → Once s.db
    → Once (transact env m s).1.db
unfolding transact
transact-Once {m = m} env others e s g = elim (Result-cases (m s).0) [
  | inl (a, good) ↦
      let same : (transact env m s).1.db ≡ (m s).1.db = ground arith in rw same (e.well s g a good)
  | inr (f, bad) ↦
      let same : (transact env m s).1.db ≡ env.others s.db = ground arith in rw same (others s.db g)
]

module _ (env : Env) where
  insert_wager-Ready :
      (row : WagerRow)
      → is_processed row.wager.status ≡ false
      → Ends Once
          (insert_wager env row)
          (λ b db. Once db × (b ≡ true → Kinded row.wager.id row.wager.kind db.wagers))
  insert_wager-Ready row open_ = record {
    well = λ s g b h. elim (insert_wager-cases env (λ _. Unit) row s) [
      | inl (same, refused) ↦ rw same (g, λ yes. absurd (refused (h ∙ ap ok yes)))
      | inr (free, added) ↦ rw added (
        added-IsReversedOnce s.db.wagers g row free (ground arith),
        λ yes. added-Kinded row s.db.wagers free,
      )
    ];
  }

  module _ (others : OthersOnce env) where
    process_new-Once :
        (c : Command) (m : Option InboxMessage) → Ends Once (process_new env c m) (λ _. Once)
    unfolding process_new
    process_new-Once c m =
        then-Ends (wrap-Upholds (lock_wallet-Upholds env others c.wallet_id)) (λ w _.
          if-Ends (not (eq_text (id_string w.player_id) c.player_id)) (λ _. raise-Ends _)
            (λ _. then-Ends (allocate_id-Upholds env) (λ id _.
              then-Ends (lift-Upholds _) (λ player _. then-Ends (now-Upholds env) (λ at _.
                then-Ends (lift-Upholds _) (λ wg made.
                  bind-Ends
                    (insert_wager-Ready (wager_row c wg)
                      (new_wager-open (pending_wager env c w id player at) wg made))
                    (λ inserted.
                      if-Ends (not inserted)
                        (λ no.
                          from-Ends (λ db (g, k). g)
                            (upheld-Ends (after_conflict-Upholds env IsReversedOnce c m)))
                        (λ fresh.
                          bind-Ends
                            (from-Ends (λ db (g, k). (g, k (ground arith)))
                              (apply-Once env w wg c.correlation_id c.causation_id false))
                            (λ result. upheld-Ends (
                              bind-Upholds (complete_inbox-Upholds env IsReversedOnce m wg.id)
                                (λ _ _.
                                  bind-Upholds (commit-Upholds env IsReversedOnce)
                                    (λ _ _. pure-Upholds {Q = Any} _ tt))))))))))))

    process_identified-Once :
        (c : Command) (m : Option InboxMessage) → Ends Once (process_identified env c m) (λ _. Once)
    unfolding process_identified
    process_identified-Once c m =
        then-Ends (find_identity-Upholds env IsReversedOnce c) (λ identity _.
          option-Ends identity (λ _. process_new-Once c m)
            (λ d _. upheld-Ends (commit_replay-Upholds env IsReversedOnce m d)))

    process_message-Once :
        (c : Command) (m : Option InboxMessage) → Ends Once (process_message env c m) (λ _. Once)
    unfolding process_message
    process_message-Once c none = process_identified-Once c none
    process_message-Once c (some m) =
        then-Ends (reserve_inbox-Upholds env IsReversedOnce m) (λ existing _.
          option-Ends existing (λ _. process_identified-Once c (some m))
            (λ id _. upheld-Ends (replay_message-Upholds env IsReversedOnce c id)))

    process_body-Once :
        (c : Command) (m : Option InboxMessage) → Ends Once (process_body env c m) (λ _. Once)
    unfolding process_body
    process_body-Once c m =
        then-Ends (lift-Upholds _)
          (λ n _. then-Ends (statement-Upholds env) (λ _ _. process_message-Once n m))

    pub process_wager-Once :
        (c : Command) (m : Option InboxMessage) (s : World)
        → Once s.db
        → Once (process_wager env c m s).1.db
    unfolding process_wager
    process_wager-Once c m s g = transact-Once env others (process_body-Once c m) s g
