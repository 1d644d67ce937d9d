-- ===== src/Store/Reversals/Applied.antt =====
-- `apply` settles a reversal only where the table, as it stands then, has no settled reversal of
-- the same transaction.
use jungle_wager_engine.Base.{
  Bool, true, false, ◌&&◌, not, ◌≡◌, refl, sym, ◌∙◌, arith, Option, none, some, List, Text,
  is_empty, any, ℤ,
}
use jungle_wager_engine.Domain.Errors.{ok, reference_not_found}
use jungle_wager_engine.Domain.Id.{Uuid}
use jungle_wager_engine.Domain.Money.{Money}
use jungle_wager_engine.Domain.Wallet.{Time, WalletData}
use jungle_wager_engine.Domain.Ledger.{Direction}
use jungle_wager_engine.Domain.Wager.{
  WagerData, Kind, is_pending_reference, is_processed, is_reversal, await_reference, reject,
  process, stamped, rehydrate_wager,
}
use jungle_wager_engine.Domain.Wager.Steps.{
  await_reference-Advances, process-Advances, reject-Advances,
}
use jungle_wager_engine.Domain.Evaluate.{Decision, evaluate}
use jungle_wager_engine.Domain.Evaluate.Decisions.{code_text-nonempty}
use jungle_wager_engine.Domain.Evaluate.Effects.{evaluate-IsReversible}
use jungle_wager_engine.Store.Tables.{Db, WagerRow, reverses}
use jungle_wager_engine.Store.Monad.{Env}
use jungle_wager_engine.Store.Monad.Upholds.{
  Upholds, Any, pure-Upholds, if-Upholds, lift-Upholds, gets-Upholds, bind-Upholds, weaken,
}
use jungle_wager_engine.Store.Monad.Ends.{
  Ends, bind-Ends, then-Ends, modify-Ends, upheld-Ends, fix-Ends,
}
use jungle_wager_engine.Store.Rows.Upheld.{statement-Upholds, now-Upholds, server_now-Upholds}
use jungle_wager_engine.Store.Lasting.{OfWagers}
use jungle_wager_engine.Store.Apply.{
  Outcome, expire, is_reversed, settle, carry_out, persist_result, conclude, apply, reference_id_of,
}
use jungle_wager_engine.Store.Apply.Upheld.{
  find_reference-Upholds, write_movement-Upholds, write_events-Upholds, set_result-SameIdentity,
}
use jungle_wager_engine.Store.Reversals.{IsReversedOnce, Kinded, settle-IsReversedOnce}

-- The table is the one that was there.
abbrev pub Unchanged : List WagerRow → List WagerRow → Type 0
Unchanged rows now_ = now_ ≡ rows

-- Whether a settled reversal of the reference is in the table.
abbrev pub Answers : Option WagerData → List WagerRow → Bool → Type 0
Answers none rows b = b ≡ false
Answers (some r) rows b = b ≡ any (reverses r.id) rows

-- The result is the transaction's, and as a settled reversal the first of its reference.
pub record IsFirst (wg : WagerData) (rows : List WagerRow) (o : Outcome) : Type 0 where
  pub id : o.wager.id ≡ wg.id
  pub first :
      is_reversal wg.kind && is_processed o.wager.status ≡ true
      → any (reverses o.wager.reference_id) rows ≡ false

processed_reference :
    (wg d : WagerData) (balance : Money) (version : ℤ) (reference : Uuid) (at : Time)
    → process wg balance version reference at ≡ ok d
    → d.reference_id ≡ reference
unfolding process stamped rehydrate_wager
processed_reference wg d balance version reference at h = ground arith

pub awaiting :
    (wg d : WagerData) (at : Time) → await_reference wg at ≡ ok d → is_processed d.status ≡ false
unfolding await_reference stamped rehydrate_wager
awaiting wg d at h = ground arith

pub rejecting :
    (wg d : WagerData) (code : Text) (balance : Money) (version : ℤ) (at : Time)
    → reject wg code balance version at ≡ ok d
    → is_processed d.status ≡ false
unfolding reject stamped rehydrate_wager
rejecting wg d code balance version at h = ground arith

-- A decision that goes ahead, the wait being over or not, was to go ahead.
pub expired_goes :
    (expired : Bool) (decision : Decision)
    → (expire expired decision).waits ≡ false
    → is_empty (expire expired decision).failure_code ≡ true
    → (decision.waits ≡ false) × (is_empty decision.failure_code ≡ true)
unfolding expire
expired_goes expired decision h k = ground (arith, code_text-nonempty reference_not_found)

module _ (env : Env) (T : List WagerRow → Type 0) (rows : List WagerRow) where
  settle-IsFirst :
      (w : WalletData) (wg : WagerData) (r : Option WagerData) (dir : Direction) (at : Time)
      → (is_reversal wg.kind ≡ true → any (reverses (reference_id_of r)) rows ≡ false)
      → Upholds (OfWagers T) (settle env w wg r dir at) (IsFirst wg rows)
  unfolding settle
  settle-IsFirst w wg r dir at first = bind-Upholds (lift-Upholds _) (λ rehydrated _.
      bind-Upholds (lift-Upholds _) (λ moved _. bind-Upholds (lift-Upholds _) (λ d settled.
        bind-Upholds (write_movement-Upholds env T dir d w.balance moved at) (λ entry _.
          pure-Upholds _ (record {
            id = (process-Advances wg d _ _ _ at settled).same.id;
            first = λ both. rw (processed_reference wg d _ _ _ at settled) (first (ground arith));
          })))))

  carry_out-IsFirst :
      (w : WalletData) (wg : WagerData) (r : Option WagerData) (decision : Decision) (at : Time)
      → (decision.waits ≡ false
          → is_empty decision.failure_code ≡ true
          → is_reversal wg.kind ≡ true
          → any (reverses (reference_id_of r)) rows ≡ false)
      → Upholds (OfWagers T) (carry_out env w wg r decision at) (IsFirst wg rows)
  unfolding carry_out
  carry_out-IsFirst w wg r decision at first =
      if-Upholds decision.waits
        (λ _. bind-Upholds (lift-Upholds _) (λ d waits_. pure-Upholds _ (record {
          id = (await_reference-Advances wg d at waits_).same.id;
          first = λ both. absurd (ground (arith, awaiting wg d at waits_));
        })))
        (λ goes.
          if-Upholds (not (is_empty decision.failure_code))
            (λ _. bind-Upholds (lift-Upholds _) (λ d rejected_. pure-Upholds _ (record {
              id = (reject-Advances wg d _ _ _ at rejected_).same.id;
              first = λ both. absurd (ground (arith, rejecting wg d _ _ _ at rejected_));
            })))
            (λ accepted. settle-IsFirst w wg r decision.direction at (first goes (ground arith))))

  is_reversed-Answers :
      (r : Option WagerData)
      → Upholds (OfWagers (Unchanged rows)) (is_reversed env r) (Answers r rows)
  unfolding is_reversed
  is_reversed-Answers none = pure-Upholds _ refl
  is_reversed-Answers (some r) =
      bind-Upholds (statement-Upholds env)
        (λ _ _. weaken (Answers (some r) rows) (gets-Upholds _) (λ a (db, same, e). rw same at e))

-- What a reversal that goes ahead was told of the table.
ahead_first :
    (w : WalletData) (wg : WagerData) (r : Option WagerData) (reversed expired : Bool)
    (decision : Decision) (rows : List WagerRow)
    → evaluate w wg r reversed ≡ ok decision
    → Answers r rows reversed
    → (expire expired decision).waits ≡ false
    → is_empty (expire expired decision).failure_code ≡ true
    → is_reversal wg.kind ≡ true
    → any (reverses (reference_id_of r)) rows ≡ false
ahead_first w wg r reversed expired decision rows decided answers goes accepts k =
    let (waits_, empty_) = expired_goes expired decision goes accepts in
    let (there_, same, good) =
      evaluate-IsReversible w wg r reversed decision decided waits_ empty_ k in
    named there_ same good.first
  where
    named :
        (there_ : WagerData)
        → r ≡ some there_
        → reversed ≡ false
        → any (reverses (reference_id_of r)) rows ≡ false
    named there_ same first =
        let answer : Answers (some there_) rows reversed = rw same at answers in
        rw same (sym answer ∙ first)

-- What a transaction starts from, to settle its effect.
abbrev pub Ready : Uuid → Kind → Db → Type 0
Ready id kind db = IsReversedOnce db.wagers × Kinded id kind db.wagers

abbrev pub Once : Db → Type 0
Once db = IsReversedOnce db.wagers

module _ (env : Env) where
  persist_result-Ends :
      (wg : WagerData) (rows : List WagerRow) (o : Outcome)
      → IsReversedOnce rows
      → Kinded wg.id wg.kind rows
      → IsFirst wg rows o
      → Ends (OfWagers (Unchanged rows)) (persist_result env o.wager) (λ _. Once)
  unfolding persist_result
  persist_result-Ends wg rows o g kinded first = then-Ends (statement-Upholds env) (λ _ _.
      then-Ends (server_now-Upholds env) (λ at _. modify-Ends _ (λ db same. rw same (
        settle-IsReversedOnce o.wager _ (λ r. refl) o.wager.id wg.kind rows
          (λ r. set_result-SameIdentity o.wager r.wager) (rw first.id kinded) first.first g))))

  conclude-Ends :
      (wg : WagerData) (rows : List WagerRow) (o : Outcome) (again : Bool) (c k : Text) (at : Time)
      → IsReversedOnce rows
      → Kinded wg.id wg.kind rows
      → IsFirst wg rows o
      → Ends (OfWagers (Unchanged rows)) (conclude env again c k at o) (λ _. Once)
  unfolding conclude
  conclude-Ends wg rows o again c k at g kinded first =
      bind-Ends (persist_result-Ends wg rows o g kinded first) (λ _. upheld-Ends (
        bind-Upholds
          (if-Upholds (is_pending_reference o.wager.status && again) (λ _. pure-Upholds _ tt)
            (λ _. write_events-Upholds env IsReversedOnce o.wager o.wallet o.entry c k at))
          (λ _ _. pure-Upholds {Q = Any} _ tt)))

  apply_from :
      (w : WalletData) (wg : WagerData) (c k : Text) (expired : Bool) (rows : List WagerRow)
      → IsReversedOnce rows
      → Kinded wg.id wg.kind rows
      → Ends (OfWagers (Unchanged rows)) (apply env w wg c k expired) (λ _. Once)
  unfolding apply
  apply_from w wg c k expired rows g kinded =
      then-Ends (find_reference-Upholds env (Unchanged rows) w wg) (λ reference _.
        then-Ends (is_reversed-Answers env (Unchanged rows) rows reference) (λ reversed answers.
          then-Ends (lift-Upholds _) (λ decision decided. then-Ends (now-Upholds env) (λ at _.
            then-Ends
              (carry_out-IsFirst env (Unchanged rows) rows w wg reference _ at
                (ahead_first w wg reference reversed expired decision rows decided answers))
              (λ o first. conclude-Ends wg rows o _ c k at g kinded first)))))

  -- `apply`, where it succeeds, keeps to one settled reversal.
  pub apply-Once :
      (w : WalletData) (wg : WagerData) (c k : Text) (expired : Bool)
      → Ends (Ready wg.id wg.kind) (apply env w wg c k expired) (λ _. Once)
  apply-Once w wg c k expired =
      fix-Ends (λ db (g, kinded). apply_from w wg c k expired db.wagers g kinded)
