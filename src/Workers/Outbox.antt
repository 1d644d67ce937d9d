-- ===== src/Workers/Outbox.antt =====
-- `publishOne` of internal/workers/engine.go, and whether `publish` goes on without waiting.
pub mod Progress
use jungle_wager_engine.Base.{ℕ, ◌*◌, Bool, true, false, ◌&&◌, ◌==◌, ltb, if◌then◌else◌}
use jungle_wager_engine.Domain.Errors.{ok, err}
use jungle_wager_engine.Domain.Events.{Event}
use jungle_wager_engine.Store.Monad.{Env, World}
use jungle_wager_engine.Store.Apply.{second}
use jungle_wager_engine.Store.Work.{mark_published, retry_outbox}
use jungle_wager_engine.Store.Claim.{OutboxRecord}
use jungle_wager_engine.Workers.{backoff}

-- `sends` is whether the broker takes an event, and `draw` the random draw.
module _ (env : Env) (sends : Event → Bool) (draw : ℕ → ℕ) where
  -- The event is tried again later. A failure of that is not reported.
  unfoldable pub put_off : OutboxRecord → World → Bool × World
  put_off record_ s = (
    false,
    (retry_outbox env record_.event.id record_.claim_token
        (backoff record_.attempts (3600 * second) draw) s).1,
  )

  unfoldable pub publish_one : OutboxRecord → World → Bool × World
  publish_one record_ s =
      let (r, s') = mark_published env record_.event.id record_.claim_token s in
      if sends record_.event
      then (elim r [ ok u ↦ (true, s') | err e ↦ put_off record_ s' ])
      else put_off record_ s

-- `New`: a batch of at least one.
unfoldable pub batch_size : ℕ → ℕ
batch_size configured = if ltb configured 1 then 1 else configured

-- After a round that claimed some events and published some of them.
unfoldable pub goes_on : ℕ → ℕ → ℕ → Bool
goes_on batch claimed published = (claimed == batch) && (published == claimed)
