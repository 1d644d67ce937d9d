-- ===== src/Store/Apply/Upheld.antt =====
-- `apply` writes one transaction's row and no other: what holds of the table of transactions, and
-- survives a change of that row under its identity, holds however `apply` ends.
use jungle_wager_engine.Base.{Bool, ◌&&◌, not, ◌≡◌, refl, Option, none, some, List, Text, is_empty}
use jungle_wager_engine.Domain.Id.{Uuid, eq_id}
use jungle_wager_engine.Domain.Money.{Money}
use jungle_wager_engine.Domain.Wallet.{Time, WalletData}
use jungle_wager_engine.Domain.Ledger.{
  Direction, debit_direction, credit_direction, no_direction, other_direction, LedgerData,
}
use jungle_wager_engine.Domain.Wager.{WagerData, is_pending_reference}
use jungle_wager_engine.Domain.Wager.Steps.{
  SameIdentity, await_reference-Advances, process-Advances, reject-Advances,
}
use jungle_wager_engine.Domain.Evaluate.{Decision}
use jungle_wager_engine.Domain.Events.{Event, EventMeta}
use jungle_wager_engine.Store.Tables.{WagerRow}
use jungle_wager_engine.Store.Monad.{Env}
use jungle_wager_engine.Store.Monad.Upholds.{
  Upholds, Any, pure-Upholds, if-Upholds, forget, lift-Upholds, gets-Upholds, modify-Upholds,
  bind-Upholds, translate-Upholds, option-Upholds,
}
use jungle_wager_engine.Store.Rows.Upheld.{
  wrap-Upholds, statement-Upholds, now-Upholds, server_now-Upholds, allocate_id-Upholds,
  scan_wager-Upholds,
}
use jungle_wager_engine.Store.Lasting.{Survives, OfWagers}
use jungle_wager_engine.Store.Apply.{
  Outcome, found, set_result, insert_ledger, insert_event, write_balance_event, write_events,
  persist_result, lock_reference, find_reference, is_reversed, write_entry, write_movement, settle,
  carry_out, conclude, apply,
}

-- The same transaction's row.
abbrev pub Same : Uuid → Outcome → Type 0
Same id o = o.wager.id ≡ id

pub set_result-SameIdentity : (d row : WagerData) → SameIdentity row (set_result d row)
set_result-SameIdentity d row = record {
  id = refl;
  wallet_id = refl;
  player_id = refl;
  provider_id = refl;
  external_transaction_id = refl;
  idempotency_key = refl;
  payload_hash = refl;
  round_id = refl;
  game_id = refl;
  kind = refl;
  money = refl;
  reference = refl;
  created_at = refl;
}

module _ (env : Env) (T : List WagerRow → Type 0) where
  pub insert_ledger-Upholds :
      (d : WagerData) (dir : Direction) (b a : Money) (at : Time)
      → Upholds (OfWagers T) (insert_ledger env d dir b a at) Any
  unfolding insert_ledger
  insert_ledger-Upholds d dir b a at = bind-Upholds (allocate_id-Upholds env) (λ id _.
      bind-Upholds (lift-Upholds _) (λ e _. bind-Upholds (statement-Upholds env) (λ _ _.
        bind-Upholds (server_now-Upholds env)
          (λ t _. bind-Upholds (modify-Upholds _ (λ db p. p)) (λ _ _. pure-Upholds _ tt)))))

  insert_event-Upholds : (event : Event) → Upholds (OfWagers T) (insert_event env event) Any
  unfolding insert_event
  insert_event-Upholds event = bind-Upholds (statement-Upholds env) (λ _ _.
      bind-Upholds (server_now-Upholds env)
        (λ _ _. bind-Upholds (server_now-Upholds env) (λ _ _. modify-Upholds _ (λ db p. p))))

  write_balance_event-Upholds :
      (entry : Option LedgerData) (meta : EventMeta) (w : WalletData)
      → Upholds (OfWagers T) (write_balance_event env entry meta w) Any
  unfolding write_balance_event
  write_balance_event-Upholds none meta w = pure-Upholds _ tt
  write_balance_event-Upholds (some e) meta w =
      bind-Upholds (allocate_id-Upholds env)
        (λ _ _. bind-Upholds (lift-Upholds _) (λ event _. insert_event-Upholds event))

  pub write_events-Upholds :
      (d : WagerData) (w : WalletData) (entry : Option LedgerData) (c k : Text) (at : Time)
      → Upholds (OfWagers T) (write_events env d w entry c k at) Any
  unfolding write_events
  write_events-Upholds d w entry c k at = bind-Upholds (allocate_id-Upholds env) (λ _ _.
      bind-Upholds (lift-Upholds _) (λ event _.
        bind-Upholds (insert_event-Upholds event) (λ _ _. write_balance_event-Upholds entry _ w)))

  pub persist_result-Upholds :
      (d : WagerData) → Survives T d.id → Upholds (OfWagers T) (persist_result env d) Any
  unfolding persist_result
  persist_result-Upholds d survives = bind-Upholds (statement-Upholds env) (λ _ _.
      bind-Upholds (server_now-Upholds env) (λ _ _.
        modify-Upholds _
          (λ db p. survives.at _ db.wagers (λ r. set_result-SameIdentity d r.wager) p)))

  lock_reference-Upholds :
      (w : WalletData) (r : WagerData) → Upholds (OfWagers T) (lock_reference env w r) Any
  unfolding lock_reference
  lock_reference-Upholds w r =
      if-Upholds (eq_id r.wallet_id w.id)
        (λ _.
          bind-Upholds (gets-Upholds _)
            (λ row _. forget (wrap-Upholds (scan_wager-Upholds env row))))
        (λ _. pure-Upholds _ tt)

  pub find_reference-Upholds :
      (w : WalletData) (d : WagerData) → Upholds (OfWagers T) (find_reference env w d) Any
  unfolding find_reference
  find_reference-Upholds w d =
      if-Upholds (is_empty d.reference_external_transaction_id) (λ _. pure-Upholds _ tt)
        (λ _. bind-Upholds (gets-Upholds _) (λ row _.
          bind-Upholds
            (translate-Upholds {R = Any} found (scan_wager-Upholds env row) (λ _ _ _ _. tt))
            (λ reference _.
              option-Upholds reference (λ _. pure-Upholds _ tt)
                (λ r _. bind-Upholds (lock_reference-Upholds w r) (λ _ _. pure-Upholds _ tt)))))

  pub is_reversed-Upholds : (r : Option WagerData) → Upholds (OfWagers T) (is_reversed env r) Any
  unfolding is_reversed
  is_reversed-Upholds none = pure-Upholds _ tt
  is_reversed-Upholds (some r) =
      bind-Upholds (statement-Upholds env) (λ _ _. forget (gets-Upholds _))

  write_entry-Upholds :
      (dir : Direction) (d : WagerData) (b : Money) (w : WalletData) (at : Time)
      → Upholds (OfWagers T) (write_entry env dir d b w at) Any
  unfolding write_entry
  write_entry-Upholds dir d b w at = bind-Upholds (statement-Upholds env) (λ _ _.
      bind-Upholds (modify-Upholds _ (λ db p. p)) (λ _ _.
        bind-Upholds (insert_ledger-Upholds d dir b w.balance at) (λ _ _. pure-Upholds _ tt)))

  pub write_movement-Upholds :
      (dir : Direction) (d : WagerData) (b : Money) (w : WalletData) (at : Time)
      → Upholds (OfWagers T) (write_movement env dir d b w at) Any
  unfolding write_movement
  write_movement-Upholds no_direction d b w at = pure-Upholds _ tt
  write_movement-Upholds debit_direction d b w at = write_entry-Upholds debit_direction d b w at
  write_movement-Upholds credit_direction d b w at = write_entry-Upholds credit_direction d b w at
  write_movement-Upholds (other_direction t) d b w at =
      write_entry-Upholds (other_direction t) d b w at

  settle-Upholds :
      (w : WalletData) (wg : WagerData) (r : Option WagerData) (dir : Direction) (at : Time)
      → Upholds (OfWagers T) (settle env w wg r dir at) (Same wg.id)
  unfolding settle
  settle-Upholds w wg r dir at = bind-Upholds (lift-Upholds _) (λ rehydrated _.
      bind-Upholds (lift-Upholds _) (λ moved _. bind-Upholds (lift-Upholds _) (λ d settled.
        bind-Upholds (write_movement-Upholds dir d w.balance moved at)
          (λ entry _. pure-Upholds _ ((process-Advances wg d _ _ _ at settled).same.id)))))

  carry_out-Upholds :
      (w : WalletData) (wg : WagerData) (r : Option WagerData) (decision : Decision) (at : Time)
      → Upholds (OfWagers T) (carry_out env w wg r decision at) (Same wg.id)
  unfolding carry_out
  carry_out-Upholds w wg r decision at =
      if-Upholds decision.waits
        (λ _.
          bind-Upholds (lift-Upholds _)
            (λ d waits_. pure-Upholds _ ((await_reference-Advances wg d at waits_).same.id)))
        (λ _.
          if-Upholds (not (is_empty decision.failure_code))
            (λ _.
              bind-Upholds (lift-Upholds _)
                (λ d rejected_. pure-Upholds _ ((reject-Advances wg d _ _ _ at rejected_).same.id)))
            (λ _. settle-Upholds w wg r decision.direction at))

  conclude-Upholds :
      (p : Bool) (c k : Text) (at : Time) (o : Outcome)
      → Survives T o.wager.id
      → Upholds (OfWagers T) (conclude env p c k at o) Any
  unfolding conclude
  conclude-Upholds p c k at o survives =
      bind-Upholds (persist_result-Upholds o.wager survives) (λ _ _.
        bind-Upholds
          (if-Upholds (is_pending_reference o.wager.status && p) (λ _. pure-Upholds _ tt)
            (λ _. write_events-Upholds o.wager o.wallet o.entry c k at))
          (λ _ _. pure-Upholds _ tt))

  pub apply-Upholds :
      (w : WalletData) (wg : WagerData) (c k : Text) (expired : Bool)
      → Survives T wg.id
      → Upholds (OfWagers T) (apply env w wg c k expired) Any
  unfolding apply
  apply-Upholds w wg c k expired survives =
      bind-Upholds (find_reference-Upholds w wg) (λ reference _.
        bind-Upholds (is_reversed-Upholds reference) (λ reversed _.
          bind-Upholds (lift-Upholds _) (λ decision _. bind-Upholds (now-Upholds env) (λ at _.
            bind-Upholds (carry_out-Upholds w wg reference _ at) (λ o same.
              conclude-Upholds (is_pending_reference wg.status) c k at o (rw same survives))))))
