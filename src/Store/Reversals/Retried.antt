-- ===== src/Store/Reversals/Retried.antt =====
-- `RetryReference` keeps to one settled reversal of a transaction.
use jungle_wager_engine.Base.{
  ℕ, ◌+◌, Bool, false, ◌||◌, ◌≡◌, refl, sym, ap, ◌∙◌, arith, List, Option, none, Text, find, ltb,
  leb, Bool-cases, inl, inr, ℤ,
}
use jungle_wager_engine.Domain.Errors.{Result-cases, ok}
use jungle_wager_engine.Domain.Id.{Uuid, id_string}
use jungle_wager_engine.Domain.Money.{Money}
use jungle_wager_engine.Domain.Wallet.{Time, WalletData}
use jungle_wager_engine.Domain.Wager.{
  WagerData, Kind, is_processed, is_pending_reference, fail_wager, stamped, rehydrate_wager,
}
use jungle_wager_engine.Domain.Wager.Steps.{fail_wager-Advances}
use jungle_wager_engine.Application.{AppResult}
use jungle_wager_engine.Store.Tables.{WagerRow, update_where, is_wager}
use jungle_wager_engine.Store.Monad.{Env, World, ◌>>◌, ◌>>=◌, gets, modify, lift, translate}
use jungle_wager_engine.Store.Monad.Upholds.{
  Upholds, Any, pure-Upholds, raise-Upholds, if-Upholds, lift-Upholds, gets-Upholds, modify-Upholds,
  bind-Upholds, translate-Upholds,
}
use jungle_wager_engine.Store.Monad.Ends.{
  Ends, bind-Ends, then-Ends, modify-Ends, upheld-Ends, fix-Ends,
}
use jungle_wager_engine.Store.Rows.{statement, server_now, scan_wager, or_no_rows}
use jungle_wager_engine.Store.Rows.Upheld.{
  Scanned, wrap-Upholds, statement-Upholds, now-Upholds, server_now-Upholds, scan_wager-Upholds,
  lock_wallet-Upholds,
}
use jungle_wager_engine.Store.Lasting.{OfWagers}
use jungle_wager_engine.Store.Apply.{apply, persist_result}
use jungle_wager_engine.Store.Apply.Upheld.{write_events-Upholds, set_result-SameIdentity}
use jungle_wager_engine.Store.Process.Upheld.{commit-Upholds}
use jungle_wager_engine.Store.Work.{
  ReferenceClaim, is_domain, lost, attempt, claimed_row, recover, guarded_apply, after_row,
  postpone, retry_body, retry_reference,
}
use jungle_wager_engine.Store.Work.Upheld.{same_identity, lost-Scanned}
use jungle_wager_engine.Store.Reversals.{
  IsReversedOnce, Kinded, IsQuiet, quiet-IsReversedOnce, update_where-Kinded, found-Kinded,
  settle-IsReversedOnce,
}
use jungle_wager_engine.Store.Reversals.Applied.{Once, Ready, Unchanged, apply-Once}
use jungle_wager_engine.Store.Reversals.Kept.{OthersOnce, transact-Once}

fails_unprocessed :
    (wg d : WagerData) (code : Text) (balance : Money) (version : ℤ) (at : Time)
    → fail_wager wg code balance version at ≡ ok d
    → is_processed d.status ≡ false
unfolding fail_wager stamped rehydrate_wager
fails_unprocessed wg d code balance version at h = ground arith

-- The table at hand.
abbrev ReadyRows : Uuid → Kind → List WagerRow → Type 0
ReadyRows id kind rows = IsReversedOnce rows × Kinded id kind rows

quiet-Ready :
    (id : Uuid) (kind : Kind) (p : WagerRow → Bool) (f : WagerRow → WagerRow) (rows : List WagerRow)
    → IsQuiet f
    → ReadyRows id kind rows
    → ReadyRows id kind (update_where p f rows)
quiet-Ready id kind p f rows quiet (g, k) = (
  quiet-IsReversedOnce rows g p f quiet,
  update_where-Kinded p f id kind rows (λ r. rw (quiet r) (same_identity r.wager)) k,
)

module _ (env : Env) where
  persist_result-Ready :
      (d wg : WagerData)
      → d.id ≡ wg.id
      → is_processed d.status ≡ false
      → Upholds (Ready wg.id wg.kind) (persist_result env d) Any
  unfolding persist_result
  persist_result-Ready d wg same open_ = bind-Upholds (statement-Upholds env) (λ _ _.
      bind-Upholds (server_now-Upholds env) (λ at _. modify-Upholds _ (λ db (g, k). (
        settle-IsReversedOnce d _ (λ r. refl) d.id wg.kind db.wagers
            (λ r. set_result-SameIdentity d r.wager) (rw same k) (λ both. absurd (ground arith)) g,
        update_where-Kinded (is_wager d.id) _ wg.id wg.kind db.wagers
            (λ r. set_result-SameIdentity d r.wager) k,
      ))))

  recover-Ready :
      (w : WalletData) (d : WagerData) (row : WagerRow) (exhausted : Bool)
      → Upholds (Ready d.id d.kind) (recover env w d row exhausted) Any
  unfolding recover
  recover-Ready w d row exhausted =
      if-Upholds exhausted
        (λ _. bind-Upholds (now-Upholds env) (λ at _.
          bind-Upholds (lift-Upholds _) (λ failed fails_.
            bind-Upholds
              (persist_result-Ready failed d
                ((fail_wager-Advances d failed _ _ _ at fails_).same.id)
                (fails_unprocessed d failed _ _ _ at fails_))
              (λ _ _.
                bind-Upholds (write_events-Upholds env (ReadyRows d.id d.kind) failed w none _ _ at)
                  (λ _ _. pure-Upholds _ tt)))))
        (λ _. bind-Upholds (statement-Upholds env) (λ _ _.
          bind-Upholds
            (modify-Upholds _ (λ db p. quiet-Ready d.id d.kind _ _ db.wagers (λ r. refl) p))
            (λ _ _. pure-Upholds _ tt)))

  guarded_apply-Once :
      (w : WalletData) (d : WagerData) (row : WagerRow) (exhausted : Bool)
      → Ends (Ready d.id d.kind) (guarded_apply env w d row exhausted) (λ _. Once)
  unfolding guarded_apply
  guarded_apply-Once w d row exhausted = record {
    well = λ s p a h.
        let c = row.correlation_id in
        let k = row.causation_id in
        let s' = (apply env w d c k exhausted s).1 in
        elim (Result-cases (apply env w d c k exhausted s).0) [
          | inl (result, good) ↦
              let same : (guarded_apply env w d row exhausted s).1 ≡ s' = ground arith in
              rw (ap (λ t. t.db) same) ((apply-Once env w d c k exhausted).well s p result good)
          | inr (e, bad) ↦ elim (Bool-cases (is_domain e)) [
            | inl undone ↦
                let retried =
                  bind-Upholds (statement-Upholds env) (λ _ _. recover-Ready w d row exhausted) in
                let same : (guarded_apply env w d row exhausted s).1
                    ≡ ((do statement env; recover env w d row exhausted)
                        (record s' { db = s.db })).1 =
                  ground arith in
                rw (ap (λ t. t.db) same) ((retried.after (record s' { db = s.db }) p).0)
            | inr broken ↦ absurd (ground arith)
          ]
        ];
  }

  postpone-Once :
      (id : Uuid) (attempts : ℕ) (result : AppResult)
      → Upholds Once (postpone env id attempts result) Any
  unfolding postpone
  postpone-Once id attempts result =
      if-Upholds (is_pending_reference result.status)
        (λ _. bind-Upholds (statement-Upholds env) (λ _ _.
          bind-Upholds (server_now-Upholds env)
            (λ at _. modify-Upholds _ (λ db g. quiet-IsReversedOnce db.wagers g _ _ (λ r. refl)))))
        (λ _. pure-Upholds _ tt)

  attempt-Once :
      (w : WalletData) (d : WagerData) (row : WagerRow) (max_attempts ttl : ℕ)
      → Ends (Ready d.id d.kind) (attempt env w d row max_attempts ttl) (λ _. Once)
  unfolding attempt
  attempt-Once w d row max_attempts ttl = then-Ends (statement-Upholds env) (λ _ _.
      then-Ends (now-Upholds env) (λ since _. bind-Ends (guarded_apply-Once w d row _) (λ result.
        upheld-Ends (
          bind-Upholds (postpone-Once d.id _ result) (λ _ _.
            bind-Upholds (commit-Upholds env IsReversedOnce)
              (λ _ _. pure-Upholds {Q = Any} _ tt))))))

  -- The claimed row is the transaction's.
  claimed-Kinded :
      (claim : ReferenceClaim) (at : Time) (row : Option WagerRow) (d : WagerData)
      (rows : List WagerRow)
      → IsReversedOnce rows
      → row ≡ find (claimed_row env claim at) rows
      → Scanned row d
      → Kinded d.id d.kind rows
  claimed-Kinded claim at row d rows g is_claimed scanned = rw (scanned.wager_of) (
      found-Kinded (claimed_row env claim at) rows scanned.stored g.unique
        (sym is_claimed ∙ scanned.is_row))

  claimed-Once :
      (claim : ReferenceClaim) (w : WalletData) (max_attempts ttl : ℕ) (rows : List WagerRow)
      → IsReversedOnce rows
      → Ends
          (OfWagers (Unchanged rows))
          (do
            at ← server_now env
            found ← gets (λ db. find (claimed_row env claim at) db.wagers)
            d ← translate lost (scan_wager env found)
            row ← lift (or_no_rows found)
            statement env
            modify
                (after_row (λ r. record r { reference_attempts = r.reference_attempts + 1 }) d.id)
            attempt env w d row max_attempts ttl)
          (λ _. Once)
  claimed-Once claim w max_attempts ttl rows g = then-Ends (server_now-Upholds env) (λ at _.
      then-Ends (gets-Upholds _) (λ found (db, same, is_claimed).
        then-Ends
          (translate-Upholds {R = Scanned found} lost (scan_wager-Upholds env found)
            (lost-Scanned found))
          (λ d scanned.
            let kinded =
              claimed-Kinded claim at found d rows g (is_claimed ∙ ap (find _) same) scanned in
            then-Ends (lift-Upholds _) (λ row _. then-Ends (statement-Upholds env) (λ _ _.
              bind-Ends
                (modify-Ends {Q = λ _. Ready d.id d.kind} _ (λ now_ e.
                  quiet-Ready d.id d.kind _ _ now_.wagers (λ r. refl) (rw e (g, kinded))))
                (λ _. attempt-Once w d row max_attempts ttl))))))

  retry_body-Once :
      (claim : ReferenceClaim) (max_attempts ttl : ℕ)
      → OthersOnce env
      → Ends Once (retry_body env claim max_attempts ttl) (λ _. Once)
  unfolding retry_body
  retry_body-Once claim max_attempts ttl others =
      then-Ends
        (if-Upholds {Q = Any} (ltb max_attempts 1 || leb ttl 0) (λ _. raise-Upholds _)
          (λ _. pure-Upholds _ tt))
        (λ _ _. then-Ends (statement-Upholds env) (λ _ _.
          then-Ends (wrap-Upholds (lock_wallet-Upholds env others (id_string claim.wallet_id)))
            (λ w _. fix-Ends (λ db g. claimed-Once claim w max_attempts ttl db.wagers g))))

  pub retry_reference-Once :
      (claim : ReferenceClaim) (max_attempts ttl : ℕ) (s : World)
      → OthersOnce env
      → Once s.db
      → Once (retry_reference env claim max_attempts ttl s).1.db
  unfolding retry_reference
  retry_reference-Once claim max_attempts ttl s others g =
      transact-Once env others (retry_body-Once claim max_attempts ttl others) s g
