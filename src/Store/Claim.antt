-- ===== src/Store/Claim.antt =====
-- `ClaimOutbox` and `ClaimReferences` of internal/adapters/postgres/work.go: a worker's claims on
-- events to publish and on transactions to try again. `skips` are the rows that other transactions
-- lock (`SKIP LOCKED`). The rows that a statement returns stand in the order of their candidates.
pub mod Exclusive
pub mod Selected
pub mod Upheld
use jungle_wager_engine.Base.{
  ℕ, zero, suc, ◌+◌, Bool, true, false, ◌&&◌, ◌||◌, not, Option, none, some, List, [], ◌∷◌, Text,
  is_empty, take, ltb, leb, ◌==◌, if◌then◌else◌,
}
use jungle_wager_engine.Domain.Errors.{app, invalid_input}
use jungle_wager_engine.Domain.Id.{Uuid, eq_id}
use jungle_wager_engine.Domain.Wallet.{Time}
use jungle_wager_engine.Domain.Wager.{is_pending_reference}
use jungle_wager_engine.Domain.Events.{Event}
use jungle_wager_engine.Config.{max_outbox_batch}
use jungle_wager_engine.Store.Tables.{Db, Claim, OutboxRow, WagerRow, update_where, is_wager}
use jungle_wager_engine.Store.Monad.{Env, Tx, ◌>>=◌, ◌>>◌, pure, raise, gets, modify, tick}
use jungle_wager_engine.Store.Rows.{statement, server_now}
use jungle_wager_engine.Store.Work.{whole_milliseconds, ReferenceClaim}

pub record OutboxRecord : Type 0 where
  pub event : Event
  pub claim_token : Uuid
  pub attempts : ℕ

-- `claimed_until IS NULL OR claimed_until < clock_timestamp()`
abbrev pub is_free : Time → Option Claim → Bool
is_free at none = true
is_free at (some c) = ltb c.until at

abbrev pub is_event : Uuid → OutboxRow → Bool
is_event id r = eq_id r.event.id id

-- An event that can be claimed.
unfoldable pub is_due : Time → OutboxRow → Bool
is_due at r = not r.published && leb r.next_attempt_at at && is_free at r.claim

abbrev is_past : Time → Option Time → Bool
is_past at none = false
is_past at (some t) = leb t at

-- A transaction that waits for its reference and can be claimed.
unfoldable pub is_waiting : Time → WagerRow → Bool
is_waiting at r =
    is_pending_reference r.wager.status
    && is_past at r.next_reference_attempt_at
    && is_free at r.claim

-- UUIDs in their order, byte by byte.
unfoldable pub id_before : Uuid → Uuid → Bool
id_before [] v = true
id_before (a ∷ u) [] = false
id_before (a ∷ u) (b ∷ v) = ltb a b || ((a == b) && id_before u v)

-- `ORDER BY` two times and an id
abbrev pub in_order : Time → Time → Uuid → Time → Time → Uuid → Bool
in_order t1 t2 u v1 v2 v = ltb t1 v1 || ((t1 == v1) && (ltb t2 v2 || ((t2 == v2) && id_before u v)))

unfoldable pub event_before : OutboxRow → OutboxRow → Bool
event_before r q =
    in_order r.next_attempt_at r.occurred_at r.event.id q.next_attempt_at q.occurred_at q.event.id

abbrev or_zero : Option Time → Time
or_zero none = 0
or_zero (some t) = t

unfoldable pub wager_before : WagerRow → WagerRow → Bool
wager_before r q =
    in_order (or_zero r.next_reference_attempt_at) r.wager.created_at r.wager.id
      (or_zero q.next_reference_attempt_at) q.wager.created_at q.wager.id

-- The rows that a test accepts, sorted.
module _ {A : Type 0} (before : A → A → Bool) where
  unfoldable pub insert_sorted : A → List A → List A
  insert_sorted x [] = x ∷ []
  insert_sorted x (y ∷ ys) =
      let rest = insert_sorted x ys in if before x y then x ∷ y ∷ ys else y ∷ rest

  unfoldable pub select : (A → Bool) → List A → List A
  select p [] = []
  select p (x ∷ xs) = let rest = select p xs in if p x then insert_sorted x rest else rest

module _ (env : Env) (skips : Uuid → Bool) where
  -- `uuidv7()`
  unfoldable pub new_token : Tx Uuid
  new_token = do n ← tick; pure (env.new_id n)

  unfoldable pub claim_events : Text → Time → List OutboxRow → Tx (List OutboxRecord)
  claim_events owner until [] = pure []
  claim_events owner until (r ∷ rows) = do
    token ← new_token
    modify (λ db. record db {
      outbox =
          update_where (is_event r.event.id)
            (λ row. record row {
              claim = some (record { by = owner; token = token; until = until });
            })
            db.outbox;
    })
    claimed ← claim_events owner until rows
    pure (record { event = r.event; claim_token = token; attempts = r.attempts } ∷ claimed)

  -- `ClaimOutbox`; the lease is in nanoseconds.
  unfoldable pub claim_outbox : Text → ℕ → ℕ → Tx (List OutboxRecord)
  claim_outbox owner limit lease =
      if ltb limit 1 || ltb max_outbox_batch limit || leb lease 0 || is_empty owner
      then raise (app invalid_input)
      else (do
        statement env
        at ← server_now env
        candidates ← gets (λ db.
            take limit (select event_before (λ r. is_due at r && not (skips r.event.id)) db.outbox))
        from ← server_now env
        claim_events owner (from + whole_milliseconds lease) candidates)

  unfoldable pub claim_wagers : Text → Time → List WagerRow → Tx (List ReferenceClaim)
  claim_wagers owner until [] = pure []
  claim_wagers owner until (r ∷ rows) = do
    token ← new_token
    modify (λ db. record db {
      wagers =
          update_where (is_wager r.wager.id)
            (λ row. record row {
              claim = some (record { by = owner; token = token; until = until });
            })
            db.wagers;
    })
    claimed ← claim_wagers owner until rows
    pure (
        record { transaction_id = r.wager.id; wallet_id = r.wager.wallet_id; claim_token = token }
        ∷ claimed)

  -- `ClaimReferences`
  unfoldable pub claim_references : Text → ℕ → ℕ → Tx (List ReferenceClaim)
  claim_references owner limit lease =
      if ltb limit 1 || ltb max_outbox_batch limit || leb lease 0 || is_empty owner
      then raise (app invalid_input)
      else (do
        statement env
        at ← server_now env
        candidates ← gets (λ db.
            take limit
              (select wager_before (λ r. is_waiting at r && not (skips r.wager.id)) db.wagers))
        from ← server_now env
        claim_wagers owner (from + whole_milliseconds lease) candidates)
