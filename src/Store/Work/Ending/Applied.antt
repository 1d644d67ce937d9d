-- ===== src/Store/Work/Ending/Applied.antt =====
-- `apply` with the wait over stores the transaction as ended.
use jungle_wager_engine.Base.{
  Bool, true, false, ◌&&◌, not, ◌≡◌, refl, arith, Option, some, List, [], ◌∷◌, Text, is_empty, any,
  find, Bool-cases, inl, inr, ℤ,
}
use jungle_wager_engine.Domain.Errors.{ok}
use jungle_wager_engine.Domain.Id.{Uuid}
use jungle_wager_engine.Domain.Money.{Money}
use jungle_wager_engine.Domain.Wallet.{Time, WalletData}
use jungle_wager_engine.Domain.Ledger.{Direction}
use jungle_wager_engine.Domain.Wager.{
  WagerData, Status, is_terminal, is_pending_reference, process, reject, stamped, rehydrate_wager,
}
use jungle_wager_engine.Domain.Wager.Steps.{process-Advances, reject-Advances}
use jungle_wager_engine.Domain.Evaluate.{Decision}
use jungle_wager_engine.Application.{AppResult}
use jungle_wager_engine.Store.Tables.{Db, WagerRow, update_where, is_wager}
use jungle_wager_engine.Store.Monad.{Env}
use jungle_wager_engine.Store.Monad.Upholds.{
  Upholds, Any, pure-Upholds, if-Upholds, lift-Upholds, bind-Upholds,
}
use jungle_wager_engine.Store.Monad.Ends.{Ends, pure-Ends, bind-Ends, then-Ends, modify-Ends}
use jungle_wager_engine.Store.Rows.{result_of}
use jungle_wager_engine.Store.Rows.Upheld.{statement-Upholds, now-Upholds, server_now-Upholds}
use jungle_wager_engine.Store.Lasting.{OfWagers}
use jungle_wager_engine.Store.Apply.{
  Outcome, expire, settle, carry_out, conclude, persist_result, apply,
}
use jungle_wager_engine.Store.Apply.Upheld.{
  find_reference-Upholds, is_reversed-Upholds, write_movement-Upholds, write_events-Upholds,
}

-- There is a row of the transaction.
abbrev pub IsHeld : Uuid → List WagerRow → Type 0
IsHeld id rows = any (is_wager id) rows ≡ true

-- The transaction's row has the status.
abbrev pub HasStatus : Uuid → Status → List WagerRow → Type 0
HasStatus id status rows =
    (row : WagerRow) × (find (is_wager id) rows ≡ some row) × (row.wager.status ≡ status)

-- The transaction has ended, and its row has the result's status.
abbrev pub HasEnded : Uuid → AppResult → Db → Type 0
HasEnded id result db = (is_terminal result.status ≡ true) × HasStatus id result.status db.wagers

pub persisted :
    (id : Uuid) (status : Status) (f : WagerRow → WagerRow) (rows : List WagerRow)
    → ((r : WagerRow) → (f r).wager.id ≡ r.wager.id)
    → ((r : WagerRow) → (f r).wager.status ≡ status)
    → IsHeld id rows
    → HasStatus id status (update_where (is_wager id) f rows)
unfolding any find update_where
persisted id status f [] same sets held = absurd (ground arith)
persisted id status f (r ∷ rows) same sets held = elim (Bool-cases (is_wager id r)) [
  | inl here ↦ (f r, ground (arith, same r), sets r)
  | inr later ↦
      let (row, there_, has) = persisted id status f rows same sets (ground arith) in
      (row, ground (arith, there_), has)
]

processed-ends :
    (wg d : WagerData) (balance : Money) (version : ℤ) (reference : Uuid) (at : Time)
    → process wg balance version reference at ≡ ok d
    → is_terminal d.status ≡ true
unfolding process stamped rehydrate_wager
processed-ends wg d balance version reference at h = ground arith

rejected-ends :
    (wg d : WagerData) (code : Text) (balance : Money) (version : ℤ) (at : Time)
    → reject wg code balance version at ≡ ok d
    → is_terminal d.status ≡ true
unfolding reject stamped rehydrate_wager
rejected-ends wg d code balance version at h = ground arith

-- Once the wait is over, no decision waits.
over : (decision : Decision) → (expire true decision).waits ≡ false
unfolding expire
over decision = ground arith

-- The outcome is the transaction's, which has ended.
abbrev IsOver : Uuid → Outcome → Type 0
IsOver id o = (o.wager.id ≡ id) × (is_terminal o.wager.status ≡ true)

module _ (env : Env) where
  module _ (T : List WagerRow → Type 0) where
    settle-IsOver :
        (w : WalletData) (wg : WagerData) (r : Option WagerData) (dir : Direction) (at : Time)
        → Upholds (OfWagers T) (settle env w wg r dir at) (IsOver wg.id)
    unfolding settle
    settle-IsOver w wg r dir at = bind-Upholds (lift-Upholds _) (λ rehydrated _.
        bind-Upholds (lift-Upholds _) (λ moved _. bind-Upholds (lift-Upholds _) (λ d done.
          bind-Upholds (write_movement-Upholds env T dir d w.balance moved at) (λ entry _.
            pure-Upholds _
              ((process-Advances wg d _ _ _ at done).same.id, processed-ends wg d _ _ _ at done)))))

    carry_out-IsOver :
        (w : WalletData) (wg : WagerData) (r : Option WagerData) (decision : Decision) (at : Time)
        → decision.waits ≡ false
        → Upholds (OfWagers T) (carry_out env w wg r decision at) (IsOver wg.id)
    unfolding carry_out
    carry_out-IsOver w wg r decision at goes =
        if-Upholds decision.waits (λ waits_. absurd (ground arith))
          (λ _.
            if-Upholds (not (is_empty decision.failure_code))
              (λ _. bind-Upholds (lift-Upholds _) (λ d done.
                pure-Upholds _
                  ((reject-Advances wg d _ _ _ at done).same.id, rejected-ends wg d _ _ _ at done)))
              (λ _. settle-IsOver w wg r decision.direction at))

  -- What is written is found again.
  pub persist_result-HasStatus :
      (d : WagerData)
      → Ends
          (OfWagers (IsHeld d.id))
          (persist_result env d)
          (λ _. OfWagers (HasStatus d.id d.status))
  unfolding persist_result
  persist_result-HasStatus d = then-Ends (statement-Upholds env) (λ _ _.
      then-Ends (server_now-Upholds env) (λ at _.
        modify-Ends _
          (λ db held. persisted d.id d.status _ db.wagers (λ r. refl) (λ r. refl) held)))

  conclude-HasEnded :
      (o : Outcome) (again : Bool) (c k : Text) (at : Time)
      → is_terminal o.wager.status ≡ true
      → Ends (OfWagers (IsHeld o.wager.id)) (conclude env again c k at o) (HasEnded o.wager.id)
  unfolding conclude result_of
  conclude-HasEnded o again c k at ended = bind-Ends (persist_result-HasStatus o.wager) (λ _.
      then-Ends
        (if-Upholds {Q = Any} (is_pending_reference o.wager.status && again)
          (λ _. pure-Upholds _ tt)
          (λ _.
            write_events-Upholds env (HasStatus o.wager.id o.wager.status) o.wager o.wallet o.entry
              c k at))
        (λ _ _. pure-Ends _ (λ db has. (ended, has))))

  pub apply-HasEnded :
      (w : WalletData) (wg : WagerData) (c k : Text)
      → Ends (OfWagers (IsHeld wg.id)) (apply env w wg c k true) (HasEnded wg.id)
  unfolding apply
  apply-HasEnded w wg c k =
      then-Ends (find_reference-Upholds env (IsHeld wg.id) w wg) (λ reference _.
        then-Ends (is_reversed-Upholds env (IsHeld wg.id) reference) (λ reversed _.
          then-Ends (lift-Upholds _) (λ decision _. then-Ends (now-Upholds env) (λ at _.
            then-Ends
              (carry_out-IsOver (IsHeld wg.id) w wg reference (expire true decision) at
                (over decision))
              (λ o (same, ended).
                rw⁻¹ same (conclude-HasEnded o (is_pending_reference wg.status) c k at ended))))))
