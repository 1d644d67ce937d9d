-- ===== src/Store/Bank/Applied.antt =====
-- `apply` moves a wallet's balance by the transaction's amount, in the direction of its kind, or
-- leaves every wallet as it is.
use jungle_wager_engine.Base.{
  Bool, true, false, ◌&&◌, not, ◌≡◌, ◌⊎◌, refl, ap, ◌∙◌, arith, int_laws, Option, none, some, List,
  Text, is_empty, inl, inr, ℤ, ◌+ℤ◌, ◌-ℤ◌, ◌≤ℤ◌,
}
use jungle_wager_engine.Domain.Errors.{ok}
use jungle_wager_engine.Domain.Id.{Uuid}
use jungle_wager_engine.Domain.Money.{Money}
use jungle_wager_engine.Domain.Wallet.{Time, WalletData, rehydrate_wallet}
use jungle_wager_engine.Domain.Wallet.Moves.{Fits, debit-ok, credit-ok}
use jungle_wager_engine.Domain.Ledger.{Direction, debit_direction, credit_direction, no_direction}
use jungle_wager_engine.Domain.Wager.{
  Kind, bet, win, loss, refund, rollback, opening, other_kind, processed, is_processed,
  is_pending_reference, WagerData, process, stamped, rehydrate_wager,
}
use jungle_wager_engine.Domain.Evaluate.{Decision, evaluate}
use jungle_wager_engine.Domain.Evaluate.Effects.{evaluate-Suits}
use jungle_wager_engine.Domain.Evaluate.Safety.{Suits, Undoes}
use jungle_wager_engine.Application.{AppResult}
use jungle_wager_engine.Store.Tables.{Db, update_where, has_id}
use jungle_wager_engine.Store.Monad.{Env, World, Tx}
use jungle_wager_engine.Store.Monad.Upholds.{
  Upholds, Any, pure-Upholds, if-Upholds, lift-Upholds, modify-Upholds, bind-Upholds,
}
use jungle_wager_engine.Store.Monad.Ends.{
  Ends, pure-Ends, if-Ends, bind-Ends, then-Ends, modify-Ends, upheld-Ends,
}
use jungle_wager_engine.Store.Rows.{result_of}
use jungle_wager_engine.Store.Rows.Upheld.{
  statement-Upholds, server_now-Upholds, allocate_id-Upholds, now-Upholds,
}
use jungle_wager_engine.Store.Apply.{
  Outcome, set_balance, expire, move_by, insert_ledger, write_entry, write_movement, settle,
  carry_out, conclude, apply,
}
use jungle_wager_engine.Store.Apply.Conserves.{SameBooks}
use jungle_wager_engine.Store.Apply.Frames.{
  find_reference_books, is_reversed_books, persist_books, write_events_books,
}
use jungle_wager_engine.Store.Reversals.Applied.{awaiting, rejecting, expired_goes}
use jungle_wager_engine.Store.Bank.{takes, gives}

-- The wallets are those.
abbrev pub OfWallets : List WalletData → Db → Type 0
OfWallets ws db = db.wallets ≡ ws

-- A step that leaves the books alone.
pub books-Upholds :
    {A : Type 0} {m : Tx A} (ws : List WalletData)
    → ((s : World) → SameBooks s (m s).1)
    → Upholds (OfWallets ws) m Any
books-Upholds ws same = record { after = λ s p. (same s).0 ∙ p; returns = λ s p a h. tt }

pub books-Keeps :
    {A : Type 0} {m : Tx A} (P : List WalletData → Type 0)
    → ((s : World) → SameBooks s (m s).1)
    → Upholds (λ db. P db.wallets) m Any
books-Keeps P same = record { after = λ s p. rw ((same s).0) p; returns = λ s p a h. tt }

-- The direction of a movement of a kind.
abbrev pub Directs : Kind → Direction → Type 0
Directs kind dir =
    ((dir ≡ no_direction) × (kind ≡ loss))
    ⊎ (((dir ≡ debit_direction) × (takes kind ≡ true))
        ⊎ ((dir ≡ credit_direction) × (gives kind ≡ true)))

Undoes-Directs : (kind : Kind) (dir : Direction) → Undoes kind dir → Directs rollback dir
unfolding takes gives
Undoes-Directs bet dir h = inr (inr (h, refl))
Undoes-Directs win dir h = inr (inl (h, refl))
Undoes-Directs refund dir h = inr (inl (h, refl))
Undoes-Directs loss dir h = absurd h
Undoes-Directs rollback dir h = absurd h
Undoes-Directs opening dir h = absurd h
Undoes-Directs (other_kind t) dir h = absurd h

Suits-Directs :
    (kind : Kind) (reference : Option WagerData) (dir : Direction)
    → Suits kind reference dir
    → Directs kind dir
unfolding takes gives
Suits-Directs bet reference dir h = inr (inl (h, refl))
Suits-Directs win reference dir h = inr (inr (h, refl))
Suits-Directs loss reference dir h = inl (h, refl)
Suits-Directs refund reference dir h = inr (inr (h, refl))
Suits-Directs rollback none dir h = absurd h
Suits-Directs rollback (some r) dir h = Undoes-Directs r.kind dir h
Suits-Directs opening reference dir h = absurd h
Suits-Directs (other_kind t) reference dir h = absurd h

-- What a transaction has come to, and the wallets after it.
pub data Effect (wg : WagerData) (w : WalletData) (ws : List WalletData) (o : Outcome)
    (now_ : List WalletData) : Type 0 where
  idle : now_ ≡ ws → (is_processed o.wager.status ≡ true → wg.kind ≡ loss) → Effect wg w ws o now_
  pays :
      (paid : WalletData)
      → takes wg.kind ≡ true
      → paid.id ≡ w.id
      → now_ ≡ update_where (has_id paid.id) (set_balance paid) ws
      → wg.money.minor ≤ℤ w.balance.minor
      → paid.balance.minor ≡ w.balance.minor -ℤ wg.money.minor
      → o.wager.status ≡ processed
      → o.wager.result_balance ≡ paid.balance
      → Effect wg w ws o now_
  receives :
      (paid : WalletData)
      → gives wg.kind ≡ true
      → paid.id ≡ w.id
      → now_ ≡ update_where (has_id paid.id) (set_balance paid) ws
      → paid.balance.minor ≡ w.balance.minor +ℤ wg.money.minor
      → o.wager.status ≡ processed
      → o.wager.result_balance ≡ paid.balance
      → Effect wg w ws o now_

processed_with :
    (wg d : WagerData) (balance : Money) (version : ℤ) (reference : Uuid) (at : Time)
    → process wg balance version reference at ≡ ok d
    → (d.status ≡ processed) × (d.result_balance ≡ balance)
unfolding process stamped rehydrate_wager
processed_with wg d balance version reference at h = ground arith

rehydrated_same : (w r : WalletData) → rehydrate_wallet w ≡ ok r → r ≡ w
unfolding rehydrate_wallet
rehydrated_same w r h = ground arith

debited :
    (w r paid : WalletData) (money : Money) (at : Time)
    → Fits w money
    → r ≡ w
    → move_by debit_direction r money at ≡ ok paid
    → (paid.id ≡ w.id)
      × (money.minor ≤ℤ w.balance.minor)
      × (paid.balance.minor ≡ w.balance.minor -ℤ money.minor)
unfolding move_by
debited w r paid money at f same h = grind (int_laws, debit-ok w paid money at f (rw same at h))

credited :
    (w r paid : WalletData) (money : Money) (at : Time)
    → Fits w money
    → r ≡ w
    → move_by credit_direction r money at ≡ ok paid
    → (paid.id ≡ w.id) × (paid.balance.minor ≡ w.balance.minor +ℤ money.minor)
unfolding move_by
credited w r paid money at f same h = grind (int_laws, credit-ok w paid money at f (rw same at h))

module _ (env : Env) (ws : List WalletData) where
  insert_ledger-wallets :
      (d : WagerData) (dir : Direction) (b a : Money) (at : Time)
      → Upholds (OfWallets ws) (insert_ledger env d dir b a at) Any
  unfolding insert_ledger
  insert_ledger-wallets d dir b a at = bind-Upholds (allocate_id-Upholds env) (λ id _.
      bind-Upholds (lift-Upholds _) (λ e _. bind-Upholds (statement-Upholds env) (λ _ _.
        bind-Upholds (server_now-Upholds env)
          (λ t _. bind-Upholds (modify-Upholds _ (λ db p. p)) (λ _ _. pure-Upholds _ tt)))))

write_entry-Ends :
    (env : Env) (ws : List WalletData) (dir : Direction) (d : WagerData) (before : Money)
    (paid : WalletData) (at : Time)
    → Ends
        (OfWallets ws)
        (write_entry env dir d before paid at)
        (λ _. OfWallets (update_where (has_id paid.id) (set_balance paid) ws))
unfolding write_entry
write_entry-Ends env ws dir d before paid at = then-Ends (statement-Upholds env) (λ _ _.
    bind-Ends
      (modify-Ends {Q = λ _. OfWallets (update_where (has_id paid.id) (set_balance paid) ws)} _
        (λ db same. ap (λ rows. update_where (has_id paid.id) (set_balance paid) rows) same))
      (λ _. upheld-Ends (
        bind-Upholds (insert_ledger-wallets env _ d dir before paid.balance at)
          (λ entry _. pure-Upholds {Q = Any} _ tt))))

module _ (env : Env) (ws : List WalletData) (w : WalletData) (wg : WagerData)
    (fits : Fits w wg.money) (reference : Option WagerData) (at : Time) where
  settle-Effect :
      (dir : Direction)
      → Directs wg.kind dir
      → Ends (OfWallets ws) (settle env w wg reference dir at) (λ o db. Effect wg w ws o db.wallets)
  unfolding settle write_movement
  settle-Effect dir (inl (still, lost)) = rw still (
      then-Ends (lift-Upholds _) (λ r re. then-Ends (lift-Upholds _) (λ paid moved.
        then-Ends (lift-Upholds _) (λ d done.
          bind-Ends (pure-Ends {Q = λ _. OfWallets ws} _ (λ db same. same))
            (λ entry. pure-Ends _ (λ db same. idle same (λ settled. lost)))))))
  settle-Effect dir (inr (inl (out, may))) = rw out (
      then-Ends (lift-Upholds _) (λ r re. then-Ends (lift-Upholds _) (λ paid moved.
        then-Ends (lift-Upholds _) (λ d done.
          let (same, covered, less) =
            debited w r paid wg.money at fits (rehydrated_same w r re) moved in
          let (settled, shown) = processed_with wg d _ _ _ at done in
          bind-Ends (write_entry-Ends env ws debit_direction d w.balance paid at) (λ entry.
            pure-Ends _ (λ db now_. pays paid may same now_ covered less settled shown))))))
  settle-Effect dir (inr (inr (in_, may))) = rw in_ (
      then-Ends (lift-Upholds _) (λ r re. then-Ends (lift-Upholds _) (λ paid moved.
        then-Ends (lift-Upholds _) (λ d done.
          let (same, more) = credited w r paid wg.money at fits (rehydrated_same w r re) moved in
          let (settled, shown) = processed_with wg d _ _ _ at done in
          bind-Ends (write_entry-Ends env ws credit_direction d w.balance paid at)
            (λ entry. pure-Ends _ (λ db now_. receives paid may same now_ more settled shown))))))

  carry_out-Effect :
      (decision : Decision)
      → (decision.waits ≡ false
          → is_empty decision.failure_code ≡ true
          → Directs wg.kind decision.direction)
      → Ends
          (OfWallets ws)
          (carry_out env w wg reference decision at)
          (λ o db. Effect wg w ws o db.wallets)
  unfolding carry_out
  carry_out-Effect decision directs =
      if-Ends decision.waits
        (λ _. then-Ends (lift-Upholds _) (λ d waits_.
          pure-Ends _
            (λ db same. idle same (λ p. absurd (ground (arith, awaiting wg d at waits_))))))
        (λ goes.
          if-Ends (not (is_empty decision.failure_code))
            (λ _. then-Ends (lift-Upholds _) (λ d rejected_. pure-Ends _ (λ db same.
              idle same (λ p. absurd (ground (arith, rejecting wg d _ _ _ at rejected_))))))
            (λ accepted. settle-Effect decision.direction (directs goes (ground arith))))

-- A decision that goes ahead, the wait being over or not, directs as its kind does.
ahead-Directs :
    (w : WalletData) (wg : WagerData) (r : Option WagerData) (reversed expired : Bool)
    (decision : Decision)
    → evaluate w wg r reversed ≡ ok decision
    → (expire expired decision).waits ≡ false
    → is_empty (expire expired decision).failure_code ≡ true
    → Directs wg.kind (expire expired decision).direction
unfolding expire
ahead-Directs w wg r reversed expired decision decided goes accepts =
    let (waits_, empty_) = expired_goes expired decision goes accepts in
    let directs =
      Suits-Directs wg.kind r decision.direction
        (evaluate-Suits w wg r reversed decision decided waits_ empty_) in
    rw waits_ directs

-- What `apply` answers, and the wallets after it.
pub record Applies (wg : WagerData) (w : WalletData) (ws : List WalletData) (r : AppResult)
    (now_ : List WalletData) : Type 0 where
  pub outcome : Outcome
  pub effect : Effect wg w ws outcome now_
  pub answer : r ≡ result_of outcome.wager outcome.wallet false

module _ (env : Env) (w : WalletData) (wg : WagerData) (fits : Fits w wg.money) where
  conclude-Answers :
      (ws : List WalletData) (again : Bool) (c k : Text) (at : Time) (o : Outcome)
      → Upholds
          (OfWallets ws)
          (conclude env again c k at o)
          (λ r. r ≡ result_of o.wager o.wallet false)
  unfolding conclude
  conclude-Answers ws again c k at o =
      bind-Upholds (books-Upholds ws (persist_books env o.wager)) (λ _ _.
        bind-Upholds
          (if-Upholds {Q = Any} (is_pending_reference o.wager.status && again)
            (λ _. pure-Upholds _ tt)
            (λ _. books-Upholds ws (write_events_books env o.wager o.wallet o.entry c k at)))
          (λ _ _. pure-Upholds _ refl))

  conclude-Applies :
      (ws : List WalletData) (again : Bool) (c k : Text) (at : Time) (o : Outcome)
      → Ends
          (λ db. Effect wg w ws o db.wallets)
          (conclude env again c k at o)
          (λ r db. Applies wg w ws r db.wallets)
  conclude-Applies ws again c k at o = record {
    well = λ s e r h.
        let answers = conclude-Answers s.db.wallets again c k at o in
        record {
          outcome = o;
          effect = rw (answers.after s refl) e;
          answer = answers.returns s refl r h;
        };
  }

  pub apply-Applies :
      (ws : List WalletData) (c k : Text) (expired : Bool)
      → Ends (OfWallets ws) (apply env w wg c k expired) (λ r db. Applies wg w ws r db.wallets)
  unfolding apply
  apply-Applies ws c k expired =
      then-Ends (books-Upholds ws (find_reference_books env w wg)) (λ reference _.
        then-Ends (books-Upholds ws (is_reversed_books env reference)) (λ reversed _.
          then-Ends (lift-Upholds _) (λ decision decided. then-Ends (now-Upholds env) (λ at _.
            bind-Ends
              (carry_out-Effect env ws w wg fits reference at (expire expired decision)
                (ahead-Directs w wg reference reversed expired decision decided))
              (λ o. conclude-Applies ws _ c k at o)))))
