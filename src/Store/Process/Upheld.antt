-- ===== src/Store/Process/Upheld.antt =====
-- `ProcessWager` keeps every lasting property of the table of transactions.
use jungle_wager_engine.Base.{
  true, false, not, ◌≡◌, arith, List, ◌∷◌, Option, none, some, any, eq_text, Bool-cases, inl, inr,
  ◌⊎◌, ◌≢◌, ◌∙◌, ap,
}
use jungle_wager_engine.Domain.Errors.{Result, ok, err}
use jungle_wager_engine.Domain.Id.{Uuid, id_string}
use jungle_wager_engine.Domain.Money.{Money}
use jungle_wager_engine.Domain.Wager.{WagerData, new_wager, is_terminal}
use jungle_wager_engine.Application.{Command, InboxMessage, normalize_command}
use jungle_wager_engine.Store.Tables.{Db, WagerRow, conflicts}
use jungle_wager_engine.Store.Monad.{Env, World, Tx, ◌>>=◌, pure, gets, modify, raise}
use jungle_wager_engine.Store.Monad.Upholds.{
  Upholds, Any, pure-Upholds, raise-Upholds, if-Upholds, forget, lift-Upholds, gets-Upholds,
  modify-Upholds, bind-Upholds, translate-Upholds, option-Upholds,
}
use jungle_wager_engine.Store.Rows.{statement}
use jungle_wager_engine.Store.Rows.Upheld.{
  wrap-Upholds, statement-Upholds, now-Upholds, allocate_id-Upholds, scan_wager-Upholds,
  wallet_of-Upholds, lock_wallet-Upholds,
}
use jungle_wager_engine.Store.Lasting.{Survives, OfWagers, Lasting}
use jungle_wager_engine.Store.Lasting.Unique.{IsUnique, IsUnique-Lasting}
use jungle_wager_engine.Store.Lasting.Settled.{IsStored, IsStored-Lasting}
use jungle_wager_engine.Store.Apply.{found}
use jungle_wager_engine.Store.Apply.Upheld.{apply-Upholds}
use jungle_wager_engine.Store.Process.{
  wager_row, pending_wager, find_identity, reserve_inbox, complete_inbox, message_is_bad, commit,
  commit_replay, replay_message, insert_wager, after_conflict, process_new, process_identified,
  process_message, process_body, transact, process_wager,
}

pub new_wager-money : (d wg : WagerData) → new_wager d ≡ ok wg → wg.money ≡ d.money
unfolding new_wager
new_wager-money d wg h = ground arith

pub normalize-money : (c n : Command) → normalize_command c ≡ ok n → n.money ≡ c.money
unfolding normalize_command
normalize-money c n h = ground arith

module _ (env : Env) (T : List WagerRow → Type 0) where
  pub find_identity-Upholds : (c : Command) → Upholds (OfWagers T) (find_identity env c) Any
  unfolding find_identity
  find_identity-Upholds c = bind-Upholds (gets-Upholds _) (λ row _.
      bind-Upholds (translate-Upholds {R = Any} found (scan_wager-Upholds env row) (λ _ _ _ _. tt))
        (λ scanned _.
          option-Upholds scanned (λ _. pure-Upholds _ tt) (λ d _. forget (lift-Upholds _))))

  pub reserve_inbox-Upholds : (m : InboxMessage) → Upholds (OfWagers T) (reserve_inbox env m) Any
  unfolding reserve_inbox
  reserve_inbox-Upholds m =
      if-Upholds (message_is_bad m) (λ _. raise-Upholds _)
        (λ _. bind-Upholds (statement-Upholds env) (λ _ _. bind-Upholds (gets-Upholds _) (λ row _.
          option-Upholds row
            (λ _. bind-Upholds (modify-Upholds _ (λ db p. p)) (λ _ _. pure-Upholds _ tt))
            (λ r _. bind-Upholds (statement-Upholds env) (λ _ _. forget (lift-Upholds _))))))

  pub complete_inbox-Upholds :
      (m : Option InboxMessage) (id : Uuid) → Upholds (OfWagers T) (complete_inbox env m id) Any
  unfolding complete_inbox
  complete_inbox-Upholds none id = pure-Upholds _ tt
  complete_inbox-Upholds (some m) id =
      bind-Upholds (statement-Upholds env) (λ _ _. modify-Upholds _ (λ db p. p))

  pub commit-Upholds : Upholds (OfWagers T) (commit env) Any
  unfolding commit
  commit-Upholds = statement-Upholds env

  pub commit_replay-Upholds :
      (m : Option InboxMessage) (d : WagerData) → Upholds (OfWagers T) (commit_replay env m d) Any
  unfolding commit_replay
  commit_replay-Upholds m d = bind-Upholds (wrap-Upholds (wallet_of-Upholds env d)) (λ w _.
      bind-Upholds (complete_inbox-Upholds m d.id)
        (λ _ _. bind-Upholds commit-Upholds (λ _ _. pure-Upholds _ tt)))

  pub replay_message-Upholds :
      (c : Command) (id : Uuid) → Upholds (OfWagers T) (replay_message env c id) Any
  unfolding replay_message
  replay_message-Upholds c id = bind-Upholds (gets-Upholds _) (λ row _.
      bind-Upholds (wrap-Upholds (scan_wager-Upholds env row)) (λ d _.
        if-Upholds (not (eq_text d.provider_id c.provider_id)) (λ _. raise-Upholds _)
          (λ _.
            bind-Upholds (wrap-Upholds (wallet_of-Upholds env d))
              (λ w _. bind-Upholds commit-Upholds (λ _ _. pure-Upholds _ tt)))))

  pub after_conflict-Upholds :
      (c : Command) (m : Option InboxMessage) → Upholds (OfWagers T) (after_conflict env c m) Any
  unfolding after_conflict
  after_conflict-Upholds c m = bind-Upholds (find_identity-Upholds c) (λ identity _.
      option-Upholds identity (λ _. raise-Upholds _) (λ d _. commit_replay-Upholds m d))

  -- An insertion adds the row, or nothing.
  pub insert_wager-cases :
      (row : WagerRow) (s : World)
      → (((insert_wager env row s).1.db.wagers ≡ s.db.wagers)
          × ((insert_wager env row s).0 ≢ ok true))
        ⊎ ((any (conflicts row.wager) s.db.wagers ≡ false)
            × ((insert_wager env row s).1.db.wagers ≡ row ∷ s.db.wagers))
  unfolding insert_wager statement ◌>>=◌ gets modify pure raise
  insert_wager-cases row s = elim (Bool-cases (env.fails s.step)) [
    | inl broken ↦ inl (ground arith, λ h. ground arith)
    | inr works ↦ elim (Bool-cases (any (conflicts row.wager) s.db.wagers)) [
      | inl taken ↦ inl (ground arith, λ h. ground arith)
      | inr free ↦ inr (free, ground arith)
    ]
  ]

  module _ (Paid : Money → Type 0) (lasts : Lasting env.others Paid T) where
    -- A row that went in may change from then on.
    insert_wager-Upholds :
        (row : WagerRow)
        → Paid row.wager.money
        → Upholds (OfWagers T) (insert_wager env row) (λ b. b ≡ true → Survives T row.wager.id)
    insert_wager-Upholds row paid = record {
      after = λ s p. elim (insert_wager-cases row s) [
        | inl (same, refused) ↦ rw same p
        | inr (free, added) ↦ rw added ((lasts.grows row s.db.wagers paid free p).0)
      ];
      returns = λ s p b h yes. elim (insert_wager-cases row s) [
        | inl (same, refused) ↦ absurd (refused (h ∙ ap ok yes))
        | inr (free, added) ↦ (lasts.grows row s.db.wagers paid free p).1
      ];
    }

    process_new-Upholds :
        (c : Command) (m : Option InboxMessage)
        → Paid c.money
        → Upholds (OfWagers T) (process_new env c m) Any
    unfolding process_new
    process_new-Upholds c m paid =
        bind-Upholds (wrap-Upholds (lock_wallet-Upholds env lasts.by_others c.wallet_id)) (λ w _.
          if-Upholds (not (eq_text (id_string w.player_id) c.player_id)) (λ _. raise-Upholds _)
            (λ _. bind-Upholds (allocate_id-Upholds env) (λ id _.
              bind-Upholds (lift-Upholds _) (λ player _. bind-Upholds (now-Upholds env) (λ at _.
                bind-Upholds (lift-Upholds _) (λ wg made.
                  bind-Upholds
                    (insert_wager-Upholds (wager_row c wg)
                      (rw (new_wager-money (pending_wager env c w id player at) wg made) paid))
                    (λ inserted survives.
                      if-Upholds (not inserted) (λ _. after_conflict-Upholds c m)
                        (λ fresh.
                          bind-Upholds
                            (apply-Upholds env T w wg c.correlation_id c.causation_id false
                              (survives (ground arith)))
                            (λ result _. bind-Upholds (complete_inbox-Upholds m wg.id) (λ _ _.
                              bind-Upholds commit-Upholds (λ _ _. pure-Upholds _ tt)))))))))))

    process_identified-Upholds :
        (c : Command) (m : Option InboxMessage)
        → Paid c.money
        → Upholds (OfWagers T) (process_identified env c m) Any
    unfolding process_identified
    process_identified-Upholds c m paid = bind-Upholds (find_identity-Upholds c) (λ identity _.
        option-Upholds identity (λ _. process_new-Upholds c m paid)
          (λ d _. commit_replay-Upholds m d))

    process_message-Upholds :
        (c : Command) (m : Option InboxMessage)
        → Paid c.money
        → Upholds (OfWagers T) (process_message env c m) Any
    unfolding process_message
    process_message-Upholds c none paid = process_identified-Upholds c none paid
    process_message-Upholds c (some m) paid = bind-Upholds (reserve_inbox-Upholds m) (λ existing _.
        option-Upholds existing (λ _. process_identified-Upholds c (some m) paid)
          (λ id _. replay_message-Upholds c id))

    process_body-Upholds :
        (c : Command) (m : Option InboxMessage)
        → Paid c.money
        → Upholds (OfWagers T) (process_body env c m) Any
    unfolding process_body
    process_body-Upholds c m paid = bind-Upholds (lift-Upholds _) (λ n normal.
        bind-Upholds (statement-Upholds env)
          (λ _ _. process_message-Upholds n m (rw (normalize-money c n normal) paid)))

    -- A transaction that fails leaves what the others commit.
    pub transact-Upholds :
        {A : Type 0} {m : Tx A}
        → Upholds (OfWagers T) m Any
        → Upholds (OfWagers T) (transact env m) Any
    unfolding transact
    transact-Upholds {A} {m} u = record {
      after = λ s p. left s p (m s) (u.after s p);
      returns = λ s p a h. tt;
    }
      where
        left :
            (s : World)
            → T s.db.wagers
            → (x : Result A × World) → T x.1.db.wagers
            → T
                (elim x.0 as (λ r. Result A × World) [
                  | ok a ↦ (ok a, x.1)
                  | err e ↦ (err e, record x.1 { db = env.others s.db })
                ]).1.db.wagers
        left s p (ok a, s') q = q
        left s p (err e, s') q = lasts.by_others s.db p

    pub process_wager-Upholds :
        (c : Command) (m : Option InboxMessage)
        → Paid c.money
        → Upholds (OfWagers T) (process_wager env c m) Any
    unfolding process_wager
    process_wager-Upholds c m paid = transact-Upholds (process_body-Upholds c m paid)

-- However `ProcessWager` ends, and whatever command it is given, no two of the stored transactions
-- have one id, one idempotency key of a provider or one external id of a provider, if that was so
-- before and the others keep it so.
pub process_wager-IsUnique :
    (env : Env) (c : Command) (inbox : Option InboxMessage) (s : World)
    → ((db : Db) → IsUnique db.wagers → IsUnique (env.others db).wagers)
    → IsUnique s.db.wagers
    → IsUnique (process_wager env c inbox s).1.db.wagers
process_wager-IsUnique env c inbox s others u =
    (process_wager-Upholds env IsUnique Any (IsUnique-Lasting env.others others) c inbox tt).after s
      u

-- The row of a transaction that has ended is the same after any `ProcessWager`, however that ends:
-- its id, which no other row has, still finds it. The keys are taken to be unique, and the others to
-- keep the row and the keys.
pub process_wager-IsStored :
    (env : Env) (c : Command) (inbox : Option InboxMessage) (s : World) (row : WagerRow)
    → is_terminal row.wager.status ≡ true
    → ((db : Db) → IsStored row db.wagers → IsStored row (env.others db).wagers)
    → IsStored row s.db.wagers
    → IsStored row (process_wager env c inbox s).1.db.wagers
process_wager-IsStored env c inbox s row ended others g =
    let lasts = IsStored-Lasting row env.others ended others in
    (process_wager-Upholds env (IsStored row) Any lasts c inbox tt).after s g
