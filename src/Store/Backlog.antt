-- ===== src/Store/Backlog.antt =====
-- `Backlog` of internal/adapters/postgres/work.go: what waits to be published or to be resolved.
pub mod Counts
use jungle_wager_engine.Base.{
  ℕ, ◌+◌, ◌*◌, ◌/◌, Bool, ◌&&◌, not, List, [], ◌∷◌, Option, none, some, ltb, if◌then◌else◌, ℤ, pos,
  negsuc, ◌-ℤ◌,
}
use jungle_wager_engine.Domain.Wallet.{Time}
use jungle_wager_engine.Domain.Wager.{is_pending_reference}
use jungle_wager_engine.Store.Tables.{OutboxRow, WagerRow}
use jungle_wager_engine.Store.Monad.{Env, Tx, ◌>>=◌, ◌>>◌, pure, gets}
use jungle_wager_engine.Store.Rows.{statement, server_now}

-- The age is in nanoseconds.
pub record Backlog : Type 0 where
  pub outbox_count : ℕ
  pub reference_count : ℕ
  pub oldest_outbox_age : ℤ

-- `count(*)`
unfoldable pub count {ℓ} : {A : Type ℓ} → (A → Bool) → List A → ℕ
count p [] = 0
count p (x ∷ xs) = (if p x then 1 else 0) + count p xs

abbrev pub is_unpublished : OutboxRow → Bool
is_unpublished r = not r.published

abbrev pub waits_for_reference : WagerRow → Bool
waits_for_reference r = is_pending_reference r.wager.status

abbrev earlier : Time → Option Time → Option Time
earlier t none = some t
earlier t (some u) = some (if ltb t u then t else u)

-- `min(occurred_at)` of the events that are not published
unfoldable pub oldest : List OutboxRow → Option Time
oldest [] = none
oldest (r ∷ rows) = if is_unpublished r then earlier r.occurred_at (oldest rows) else oldest rows

-- A difference in nanoseconds to the nearest millisecond, as `::bigint` rounds it.
unfoldable pub rounded : ℤ → ℤ
rounded (pos n) = pos (((n + 500000) / 1000000) * 1000000)
rounded (negsuc n) = pos 0 -ℤ pos (((n + 500001) / 1000000) * 1000000)

-- `COALESCE(…,0)`
unfoldable pub age_at : Time → Option Time → ℤ
age_at at none = pos 0
age_at at (some t) = rounded (pos at -ℤ pos t)

unfoldable pub backlog : Env → Tx Backlog
backlog env = do
  statement env
  at ← server_now env
  gets (λ db. record {
    outbox_count = count is_unpublished db.outbox;
    reference_count = count waits_for_reference db.wagers;
    oldest_outbox_age = age_at at (oldest db.outbox);
  })
