-- ===== src/Store/Work/Upheld.antt =====
-- `RetryReference` and `ReleaseClaims` keep every lasting property of the table of transactions.
use jungle_wager_engine.Base.{
  ℕ, Bool, true, ◌||◌, ◌≡◌, refl, sym, ap, arith, List, Option, none, some, Text, codes, ltb, leb,
  Bool-cases, ◌∙◌, find, find_holds, inl, inr,
}
use jungle_wager_engine.Domain.Errors.{Result, Result-cases, ok, err}
use jungle_wager_engine.Domain.Id.{Uuid, id_string}
use jungle_wager_engine.Domain.Wallet.{Time, WalletData}
use jungle_wager_engine.Domain.Money.{Money}
use jungle_wager_engine.Domain.Wager.{WagerData, is_pending_reference, is_terminal}
use jungle_wager_engine.Domain.Wager.Steps.{SameIdentity, fail_wager-Advances}
use jungle_wager_engine.Application.{AppResult}
use jungle_wager_engine.Store.Tables.{Db, WagerRow}
use jungle_wager_engine.Store.Monad.{Env, World, ◌>>◌}
use jungle_wager_engine.Store.Monad.Upholds.{
  Upholds, Any, pure-Upholds, raise-Upholds, if-Upholds, lift-Upholds, gets-Upholds, modify-Upholds,
  bind-Upholds, translate-Upholds,
}
use jungle_wager_engine.Store.Rows.Upheld.{
  Scanned, wrap-Upholds, statement-Upholds, now-Upholds, server_now-Upholds, scan_wager-Upholds,
  lock_wallet-Upholds,
}
use jungle_wager_engine.Store.Lasting.{Survives, OfWagers, Lasting}
use jungle_wager_engine.Store.Lasting.Unique.{IsUnique, IsUnique-Lasting}
use jungle_wager_engine.Store.Lasting.Settled.{IsStored, IsStored-Lasting}
use jungle_wager_engine.Store.Rows.{statement}
use jungle_wager_engine.Store.Apply.{apply}
use jungle_wager_engine.Store.Apply.Upheld.{
  apply-Upholds, persist_result-Upholds, write_events-Upholds,
}
use jungle_wager_engine.Store.Process.Upheld.{commit-Upholds, transact-Upholds}
use jungle_wager_engine.Store.Work.{
  ReferenceClaim, is_domain, lost, attempt, claimed_row, release_claims, recover, guarded_apply,
  postpone, retry_body, retry_reference,
}

pub same_identity : (d : WagerData) → SameIdentity d d
same_identity d = record {
  id = refl;
  wallet_id = refl;
  player_id = refl;
  provider_id = refl;
  external_transaction_id = refl;
  idempotency_key = refl;
  payload_hash = refl;
  round_id = refl;
  game_id = refl;
  kind = refl;
  money = refl;
  reference = refl;
  created_at = refl;
}

pub lost-Scanned :
    (row : Option WagerRow) (r : Result WagerData) (d : WagerData)
    → ((a : WagerData) → r ≡ ok a → Scanned row a)
    → lost r ≡ ok d
    → Scanned row d
lost-Scanned row (ok a) d scanned h = scanned d h
lost-Scanned row (err e) d scanned h = absurd (ground arith)

module _ (env : Env) (T : List WagerRow → Type 0) where
  pub recover-Upholds :
      (w : WalletData) (d : WagerData) (row : WagerRow) (exhausted : Bool)
      → Survives T d.id
      → Upholds (OfWagers T) (recover env w d row exhausted) Any
  unfolding recover
  recover-Upholds w d row exhausted survives =
      if-Upholds exhausted
        (λ _. bind-Upholds (now-Upholds env) (λ at _.
          bind-Upholds (lift-Upholds _) (λ failed fails_.
            bind-Upholds
              (persist_result-Upholds env T failed (
                rw
                  ((fail_wager-Advances d failed (codes "PERMANENT_PROCESSING_FAILURE") w.balance
                    w.version at fails_).same.id)
                  survives))
              (λ _ _.
                bind-Upholds (write_events-Upholds env T failed w none _ _ at)
                  (λ _ _. pure-Upholds _ tt)))))
        (λ _. bind-Upholds (statement-Upholds env) (λ _ _.
          bind-Upholds
            (modify-Upholds _ (λ db p. survives.at _ db.wagers (λ r. same_identity r.wager) p))
            (λ _ _. pure-Upholds _ tt)))

  pub postpone-Upholds :
      (id : Uuid) (attempts : ℕ) (result : AppResult)
      → Survives T id
      → Upholds (OfWagers T) (postpone env id attempts result) Any
  unfolding postpone
  postpone-Upholds id attempts result survives =
      if-Upholds (is_pending_reference result.status)
        (λ _. bind-Upholds (statement-Upholds env) (λ _ _.
          bind-Upholds (server_now-Upholds env) (λ at _.
            modify-Upholds _ (λ db p. survives.at _ db.wagers (λ r. same_identity r.wager) p))))
        (λ _. pure-Upholds _ tt)

  guarded_apply-Upholds :
      (w : WalletData) (d : WagerData) (row : WagerRow) (exhausted : Bool)
      → Survives T d.id
      → Upholds (OfWagers T) (guarded_apply env w d row exhausted) Any
  unfolding guarded_apply
  guarded_apply-Upholds w d row exhausted survives = record {
    after = λ s p.
        let s' = (apply env w d row.correlation_id row.causation_id exhausted s).1 in
        let applied =
          (apply-Upholds env T w d row.correlation_id row.causation_id exhausted survives) in
        elim (Result-cases (apply env w d row.correlation_id row.causation_id exhausted s).0) [
          | inl (result, good) ↦
              let same : (guarded_apply env w d row exhausted s).1 ≡ s' = ground arith in
              rw (ap (λ t. t.db.wagers) same) (applied.after s p)
          | inr (e, bad) ↦ elim (Bool-cases (is_domain e)) [
            | inl undone ↦
                let retried =
                  bind-Upholds (statement-Upholds env)
                    (λ _ _. recover-Upholds w d row exhausted survives) in
                let same : (guarded_apply env w d row exhausted s).1
                    ≡ ((do statement env; recover env w d row exhausted)
                        (record s' { db = s.db })).1 =
                  ground arith in
                rw (ap (λ t. t.db.wagers) same) (retried.after (record s' { db = s.db }) p)
            | inr broken ↦
                let same : (guarded_apply env w d row exhausted s).1 ≡ s' = ground arith in
                rw (ap (λ t. t.db.wagers) same) (applied.after s p)
          ]
        ];
    returns = λ s p a h. tt;
  }

  pub attempt-Upholds :
      (w : WalletData) (d : WagerData) (row : WagerRow) (max_attempts ttl : ℕ)
      → Survives T d.id
      → Upholds (OfWagers T) (attempt env w d row max_attempts ttl) Any
  unfolding attempt
  attempt-Upholds w d row max_attempts ttl survives = bind-Upholds (statement-Upholds env) (λ _ _.
      bind-Upholds (now-Upholds env) (λ since _.
        bind-Upholds (guarded_apply-Upholds w d row _ survives) (λ result _.
          bind-Upholds (postpone-Upholds d.id _ result survives)
            (λ _ _. bind-Upholds (commit-Upholds env T) (λ _ _. pure-Upholds _ tt)))))

  module _ (Paid : Money → Type 0) (lasts : Lasting env.others Paid T) where
    -- The claimed row may change.
    claimed-Survives :
        (claim : ReferenceClaim) (at : Time) (row : Option WagerRow) (d : WagerData)
        → (db : Db) × T db.wagers × (row ≡ find (claimed_row env claim at) db.wagers)
        → Scanned row d
        → Survives T d.id
    claimed-Survives claim at row d (db, p, is_claimed) scanned =
        let stored = scanned.stored in
        let there_ : find (claimed_row env claim at) db.wagers ≡ some stored =
          sym is_claimed ∙ scanned.is_row in
        let held = find_holds (claimed_row env claim at) db.wagers stored there_ in
        rw (ap (λ t. t.id) scanned.wager_of) (
          lasts.pending_survives (claimed_row env claim at) db.wagers stored there_ (ground arith)
            p)

    retry_body-Upholds :
        (claim : ReferenceClaim) (max_attempts ttl : ℕ)
        → Upholds (OfWagers T) (retry_body env claim max_attempts ttl) Any
    unfolding retry_body
    retry_body-Upholds claim max_attempts ttl =
        bind-Upholds
          (if-Upholds {Q = Any} (ltb max_attempts 1 || leb ttl 0) (λ _. raise-Upholds _)
            (λ _. pure-Upholds _ tt))
          (λ _ _. bind-Upholds (statement-Upholds env) (λ _ _.
            bind-Upholds
              (wrap-Upholds (lock_wallet-Upholds env lasts.by_others (id_string claim.wallet_id)))
              (λ w _. bind-Upholds (server_now-Upholds env) (λ at _.
                bind-Upholds (gets-Upholds _) (λ found is_claimed.
                  bind-Upholds
                    (translate-Upholds {R = Scanned found} lost (scan_wager-Upholds env found)
                      (lost-Scanned found))
                    (λ d scanned.
                      let survives = claimed-Survives claim at found d is_claimed scanned in
                      bind-Upholds (lift-Upholds _) (λ row _.
                        bind-Upholds (statement-Upholds env) (λ _ _.
                          bind-Upholds
                            (modify-Upholds _
                              (λ db p. survives.at _ db.wagers (λ r. same_identity r.wager) p))
                            (λ _ _. attempt-Upholds w d row max_attempts ttl survives)))))))))

    pub retry_reference-Upholds :
        (claim : ReferenceClaim) (max_attempts ttl : ℕ)
        → Upholds (OfWagers T) (retry_reference env claim max_attempts ttl) Any
    unfolding retry_reference
    retry_reference-Upholds claim max_attempts ttl =
        transact-Upholds env T Paid lasts (retry_body-Upholds claim max_attempts ttl)

    pub release_claims-Upholds :
        (owner : Text) → Upholds (OfWagers T) (release_claims env owner) Any
    unfolding release_claims
    release_claims-Upholds owner = bind-Upholds (statement-Upholds env) (λ _ _.
        bind-Upholds (modify-Upholds _ (λ db p. p)) (λ _ _.
          bind-Upholds (statement-Upholds env) (λ _ _. modify-Upholds _ (λ db p.
            lasts.waits _ _ db.wagers (λ r. same_identity r.wager) (λ r h. ground arith) p))))

-- However `RetryReference` ends, the keys of the stored transactions are unique after it, if they
-- were before and the others keep them so.
pub retry_reference-IsUnique :
    (env : Env) (claim : ReferenceClaim) (max_attempts ttl : ℕ) (s : World)
    → ((db : Db) → IsUnique db.wagers → IsUnique (env.others db).wagers)
    → IsUnique s.db.wagers
    → IsUnique (retry_reference env claim max_attempts ttl s).1.db.wagers
retry_reference-IsUnique env claim max_attempts ttl s others u =
    let lasts = IsUnique-Lasting env.others others in
    (retry_reference-Upholds env IsUnique Any lasts claim max_attempts ttl).after s u

-- The row of a transaction that has ended is the same after any `RetryReference`, however that ends
-- and whatever claim it is given. The keys are taken to be unique, and the others to keep the row
-- and the keys.
pub retry_reference-IsStored :
    (env : Env) (claim : ReferenceClaim) (max_attempts ttl : ℕ) (s : World) (row : WagerRow)
    → is_terminal row.wager.status ≡ true
    → ((db : Db) → IsStored row db.wagers → IsStored row (env.others db).wagers)
    → IsStored row s.db.wagers
    → IsStored row (retry_reference env claim max_attempts ttl s).1.db.wagers
retry_reference-IsStored env claim max_attempts ttl s row ended others g =
    let lasts = IsStored-Lasting row env.others ended others in
    (retry_reference-Upholds env (IsStored row) Any lasts claim max_attempts ttl).after s g
