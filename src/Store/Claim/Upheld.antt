-- ===== src/Store/Claim/Upheld.antt =====
-- The claims keep what does not depend on who holds a claim.
use jungle_wager_engine.Base.{
  ℕ, Bool, true, not, ◌≡◌, All, everywhere, pointwise, take, ◌||◌, ◌&&◌, arith, List, [], ◌∷◌, Text,
  some, ltb, leb, is_empty,
}
use jungle_wager_engine.Domain.Id.{Uuid, eq_id_refl, eq_id→eq}
use jungle_wager_engine.Domain.Money.{Money}
use jungle_wager_engine.Domain.Wallet.{Time}
use jungle_wager_engine.Domain.Wager.{is_pending_reference}
use jungle_wager_engine.Config.{max_outbox_batch}
use jungle_wager_engine.Store.Tables.{Db, Claim, OutboxRow, WagerRow, update_where, is_wager}
use jungle_wager_engine.Store.Monad.{Env}
use jungle_wager_engine.Store.Monad.Upholds.{
  Upholds, Any, tick-Upholds, bind-Upholds, pure-Upholds, raise-Upholds, if-Upholds, gets-Upholds,
  modify-Upholds,
}
use jungle_wager_engine.Store.Rows.Upheld.{statement-Upholds, server_now-Upholds}
use jungle_wager_engine.Store.Lasting.{OfWagers, Lasting, Survives}
use jungle_wager_engine.Store.Work.Upheld.{same_identity}
use jungle_wager_engine.Store.Claim.Selected.{Finds, select-All, take-All, each_found}
use jungle_wager_engine.Store.Claim.{
  is_event, is_waiting, wager_before, select, new_token, claim_events, claim_outbox, claim_wagers,
  claim_references,
}

module _ (env : Env) (skips : Uuid → Bool) (P : Db → Type 0) where
  module _
      (silent : (db : Db) (id : Uuid) (c : Claim)
        → P db
        → P (record db {
          outbox = update_where (is_event id) (λ row. record row { claim = some c }) db.outbox;
        })) where
    claim_events-Upholds :
        (owner : Text) (until : Time) (rows : List OutboxRow)
        → Upholds P (claim_events env skips owner until rows) Any
    unfolding claim_events new_token
    claim_events-Upholds owner until [] = pure-Upholds _ tt
    claim_events-Upholds owner until (r ∷ rows) =
        bind-Upholds (bind-Upholds tick-Upholds (λ n _. pure-Upholds {Q = Any} _ tt)) (λ token _.
          bind-Upholds (modify-Upholds _ (λ db p. silent db r.event.id _ p)) (λ _ _.
            bind-Upholds (claim_events-Upholds owner until rows) (λ _ _. pure-Upholds _ tt)))

    pub claim_outbox-Upholds :
        (owner : Text) (limit lease : ℕ) → Upholds P (claim_outbox env skips owner limit lease) Any
    unfolding claim_outbox
    claim_outbox-Upholds owner limit lease =
        if-Upholds (ltb limit 1 || ltb max_outbox_batch limit || leb lease 0 || is_empty owner)
          (λ _. raise-Upholds _)
          (λ _. bind-Upholds (statement-Upholds env) (λ _ _.
            bind-Upholds (server_now-Upholds env) (λ at _.
              bind-Upholds (gets-Upholds _) (λ candidates _.
                bind-Upholds (server_now-Upholds env)
                  (λ from _. claim_events-Upholds owner _ candidates)))))

  -- The rows that may be claimed, and what is known of the stored ones that wait.
  module _ (Claimable : WagerRow → Type 0)
      (stored : (db : Db)
        → P db
        → All (λ r. is_pending_reference r.wager.status ≡ true → Claimable r) db.wagers)
      (silent : (db : Db) (r : WagerRow) (c : Claim)
        → Claimable r
        → P db
        → P (record db {
          wagers =
              update_where (is_wager r.wager.id) (λ row. record row { claim = some c }) db.wagers;
        })) where
    claim_wagers-Upholds :
        (owner : Text) (until : Time) (rows : List WagerRow)
        → All Claimable rows
        → Upholds P (claim_wagers env skips owner until rows) Any
    unfolding claim_wagers new_token
    claim_wagers-Upholds owner until [] all = pure-Upholds _ tt
    claim_wagers-Upholds owner until (r ∷ rows) (first, all) =
        bind-Upholds (bind-Upholds tick-Upholds (λ n _. pure-Upholds {Q = Any} _ tt)) (λ token _.
          bind-Upholds (modify-Upholds _ (λ db p. silent db r _ first p)) (λ _ _.
            bind-Upholds (claim_wagers-Upholds owner until rows all) (λ _ _. pure-Upholds _ tt)))

    candidates-Claimable :
        (at : Time) (limit : ℕ) (db : Db)
        → P db
        → All Claimable (
            take limit
              (select wager_before (λ r. is_waiting at r && not (skips r.wager.id)) db.wagers))
    unfolding is_waiting
    candidates-Claimable at limit db p = take-All Claimable limit _ (
        select-All wager_before Claimable _ db.wagers
          (pointwise _ _ db.wagers (λ r claimable chosen. claimable (ground arith)) (stored db p)))

    pub claim_references-Upholds :
        (owner : Text) (limit lease : ℕ)
        → Upholds P (claim_references env skips owner limit lease) Any
    unfolding claim_references
    claim_references-Upholds owner limit lease =
        if-Upholds (ltb limit 1 || ltb max_outbox_batch limit || leb lease 0 || is_empty owner)
          (λ _. raise-Upholds _)
          (λ _. bind-Upholds (statement-Upholds env) (λ _ _.
            bind-Upholds (server_now-Upholds env) (λ at _.
              bind-Upholds (gets-Upholds _) (λ candidates (db, p, chosen).
                bind-Upholds (server_now-Upholds env) (λ from _.
                  claim_wagers-Upholds owner _ candidates
                    (rw chosen (candidates-Claimable at limit db p)))))))

  -- Where any row may be claimed.
  pub free_claims :
      ((db : Db) (id : Uuid) (c : Claim)
        → P db
        → P (record db {
          wagers = update_where (is_wager id) (λ row. record row { claim = some c }) db.wagers;
        }))
      → (owner : Text) (limit lease : ℕ)
      → Upholds P (claim_references env skips owner limit lease) Any
  free_claims silent =
      claim_references-Upholds (λ r. Unit) (λ db p. everywhere _ db.wagers (λ r h. tt))
        (λ db r c _ p. silent db r.wager.id c p)

-- A lasting property survives a claim of a row that waits.
pub lasting_claims :
    (env : Env) (skips : Uuid → Bool) (Paid : Money → Type 0) (T : List WagerRow → Type 0)
    → Lasting env.others Paid T
    → (owner : Text) (limit lease : ℕ)
    → Upholds (OfWagers T) (claim_references env skips owner limit lease) Any
lasting_claims env skips Paid T lasts =
    claim_references-Upholds env skips (OfWagers T) (λ r. Survives T r.wager.id)
      (λ db p.
        pointwise _ _ db.wagers (λ r finds waits_. survives db p r finds waits_)
          (each_found db.wagers))
      (λ db r c survives_ p. survives_.at _ db.wagers (λ row. same_identity row.wager) p)
  where
    survives :
        (db : Db)
        → T db.wagers
        → (r : WagerRow) → Finds db.wagers r
        → is_pending_reference r.wager.status ≡ true
        → Survives T r.wager.id
    survives db p r finds waits_ =
        let q : WagerRow → Bool =
          λ row. is_wager r.wager.id row && is_pending_reference row.wager.status in
        let (row, there_, holds) = finds q (ground (arith, eq_id_refl r.wager.id)) in
        let named : row.wager.id ≡ r.wager.id = eq_id→eq row.wager.id r.wager.id (ground arith) in
        rw named at (lasts.pending_survives q db.wagers row there_ (ground arith) p)
