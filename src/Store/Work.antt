-- ===== src/Store/Work.antt =====
-- internal/adapters/postgres/work.go: the claims on the outbox and on waiting transactions, and the
-- retry of a transaction that waits for its reference. The two statements that make claims are left out.
pub mod Upheld
pub mod Claims
pub mod Ending
pub mod Delay
pub mod Books
use jungle_wager_engine.Base.{
  ℕ, zero, suc, ◌+◌, ◌*◌, ◌-◌, ◌/◌, ◌^◌, Bool, true, false, ◌&&◌, ◌||◌, not, Option, none, some,
  List, [], ◌∷◌, Text, codes, is_empty, eq_text, find, ltb, leb, if◌then◌else◌, ℤ, pos,
}
use jungle_wager_engine.Domain.Errors.{
  Result, ok, err, Error, domain, no_rows, app, invalid_input, claim_lost, Code,
}
use jungle_wager_engine.Domain.Id.{Uuid, eq_id, parse_id, id_string}
use jungle_wager_engine.Domain.Wallet.{Time, WalletData}
use jungle_wager_engine.Domain.Wager.{WagerData, is_pending_reference, rehydrate_wager, fail_wager}
use jungle_wager_engine.Application.{AppResult}
use jungle_wager_engine.Store.Tables.{Db, Claim, WagerRow, OutboxRow, update_where, is_wager}
use jungle_wager_engine.Store.Monad.{
  Env, World, Tx, ◌>>=◌, ◌>>◌, pure, lift, raise, gets, modify, tick, translate,
}
use jungle_wager_engine.Store.Rows.{
  or_no_rows, db_error, wrap, statement, now, server_now, scan_wager, lock_wallet, result_of,
}
use jungle_wager_engine.Store.Apply.{apply, persist_result, write_events, second}
use jungle_wager_engine.Store.Process.{commit, transact}

pub record ReferenceClaim : Type 0 where
  pub transaction_id : Uuid
  pub wallet_id : Uuid
  pub claim_token : Uuid

abbrev pub holds : Uuid → Option Claim → Bool
holds token none = false
holds token (some c) = eq_id c.token token

abbrev pub owned_by : Text → Option Claim → Bool
owned_by owner none = false
owned_by owner (some c) = eq_text c.by owner

-- An unpublished event that the token has a claim on.
abbrev pub marks : Uuid → Uuid → OutboxRow → Bool
marks id token r = eq_id r.event.id id && holds token r.claim && not r.published

-- `delay.Milliseconds()` as nanoseconds.
abbrev pub whole_milliseconds : ℕ → ℕ
whole_milliseconds d = (d / 1000000) * 1000000

-- `time.Second << min(attempts, 12)`, at most an hour.
unfoldable pub reference_delay : ℕ → ℕ
reference_delay attempts =
    let delay = second * 2 ^ (if ltb attempts 12 then attempts else 12) in
    if ltb (3600 * second) delay then 3600 * second else delay

-- `errors.As(err, &invariant)`
abbrev pub is_domain : Error → Bool
is_domain (domain _) = true
is_domain _ = false

abbrev pub after_row : (WagerRow → WagerRow) → Uuid → Db → Db
after_row f id db = record db { wagers = update_where (is_wager id) f db.wagers }

abbrev still_held : Uuid → Time → Option Claim → Bool
still_held token at none = false
still_held token at (some c) = eq_id c.token token && ltb at c.until

-- A claim's row that is not there is a lost claim.
abbrev pub lost {ℓ} : {A : Type ℓ} → Result A → Result A
lost (ok a) = ok a
lost (err no_rows) = err (app claim_lost)
lost (err e) = err (db_error e)

-- How many rows a statement changed, when its key is unique.
abbrev pub changed {ℓ} : {A : Type ℓ} → Option A → Bool
changed none = false
changed (some _) = true

module _ (env : Env) where
  unfoldable pub mark_published : Uuid → Uuid → Tx (Unit {0})
  mark_published id token = do
    statement env
    row ← gets (λ db. find (marks id token) db.outbox)
    modify (λ db. record db {
      outbox =
          update_where (marks id token) (λ r. record r { published = true; claim = none })
            db.outbox;
    })
    if changed row then pure tt else raise (app claim_lost)

  unfoldable pub retry_outbox : Uuid → Uuid → ℕ → Tx (Unit {0})
  retry_outbox id token delay = do
    statement env
    at ← server_now env
    row ← gets (λ db. find (marks id token) db.outbox)
    modify (λ db. record db {
      outbox =
          update_where (marks id token)
            (λ r. record r {
              attempts = r.attempts + 1;
              next_attempt_at = at + whole_milliseconds delay;
              claim = none;
            })
            db.outbox;
    })
    if changed row then pure tt else raise (app claim_lost)

  -- `ReleaseClaims`
  unfoldable pub release_claims : Text → Tx (Unit {0})
  release_claims owner = do
    statement env
    modify (λ db. record db {
      outbox =
          update_where (λ r. owned_by owner r.claim && not r.published)
            (λ r. record r { claim = none }) db.outbox;
    })
    statement env
    modify (λ db. record db {
      wagers =
          update_where (λ r. owned_by owner r.claim && is_pending_reference r.wager.status)
            (λ r. record r { claim = none }) db.wagers;
    })

  -- The row of a claim that is still held.
  abbrev pub claimed_row : ReferenceClaim → Time → WagerRow → Bool
  claimed_row claim at r =
      is_wager claim.transaction_id r
      && eq_id r.wager.wallet_id claim.wallet_id
      && is_pending_reference r.wager.status
      && still_held claim.claim_token at r.claim

  -- After a failure of the domain: a last failure is recorded, and any other is tried again.
  unfoldable pub recover : WalletData → WagerData → WagerRow → Bool → Tx AppResult
  recover w d row exhausted =
      if exhausted
      then (do
        at ← now env
        failed ← lift (fail_wager d (codes "PERMANENT_PROCESSING_FAILURE") w.balance w.version at)
        persist_result env failed
        write_events env failed w none row.correlation_id row.causation_id at
        pure (result_of failed w false))
      else (do
        statement env
        modify (after_row (λ r. record r { claim = none }) d.id)
        pure (result_of d w false))

  -- `apply` under the savepoint `reference_effect`.
  unfoldable pub guarded_apply : WalletData → WagerData → WagerRow → Bool → Tx AppResult
  guarded_apply w d row exhausted s =
      let (r, s') = apply env w d row.correlation_id row.causation_id exhausted s in
      elim r [
        | ok result ↦ (ok result, s')
        | err e ↦
            if is_domain e
            then (do statement env; recover w d row exhausted) (record s' { db = s.db })
            else (err e, s')
      ]

  -- The next attempt of a transaction that goes on waiting.
  unfoldable pub postpone : Uuid → ℕ → AppResult → Tx (Unit {0})
  postpone id attempts result =
      if is_pending_reference result.status
      then (do
        statement env
        at ← server_now env
        modify (
            after_row
              (λ r. record r {
                next_reference_attempt_at =
                    some (at + whole_milliseconds (reference_delay attempts));
              })
              id))
      else pure tt

  -- What follows the count of the attempt.
  unfoldable pub attempt : WalletData → WagerData → WagerRow → ℕ → ℕ → Tx AppResult
  attempt w d row max_attempts ttl = do
    statement env
    since ← now env
    let attempts = row.reference_attempts + 1
    let exhausted = leb max_attempts attempts || leb ttl (since - d.created_at)
    result ← guarded_apply w d row exhausted
    postpone d.id attempts result
    commit env
    pure result

  unfoldable pub retry_body : ReferenceClaim → ℕ → ℕ → Tx AppResult
  retry_body claim max_attempts ttl = do
    if ltb max_attempts 1 || leb ttl 0 then raise (app invalid_input) else pure tt
    statement env
    w ← wrap (lock_wallet env (id_string claim.wallet_id))
    at ← server_now env
    found ← gets (λ db. find (claimed_row claim at) db.wagers)
    d ← translate lost (scan_wager env found)
    row ← lift (or_no_rows found)
    statement env
    modify (after_row (λ r. record r { reference_attempts = r.reference_attempts + 1 }) d.id)
    attempt w d row max_attempts ttl

unfoldable pub retry_reference : Env → ReferenceClaim → ℕ → ℕ → World → Result AppResult × World
retry_reference env claim max_attempts ttl = transact env (retry_body env claim max_attempts ttl)
