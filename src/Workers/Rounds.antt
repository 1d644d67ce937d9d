-- ===== src/Workers/Rounds.antt =====
-- The loops of internal/workers/engine.go, one round of each: `consume`, `publish` and `references`.
-- The goroutines of a round take turns, in the order that a list is given, one store call each. Before
-- each of these calls other loops, requests and replicas may commit anything: calls are numbered, and
-- `meanwhile` is what is committed before each. Time limits, logs and metrics but the label of an
-- attempt are left out.
pub mod Throttled
pub mod Drained
use jungle_wager_engine.Base.{
  ℕ, zero, suc, ◌+◌, Bool, Option, none, some, List, [], ◌∷◌, Text, codes, length, is_empty,
  if◌then◌else◌,
}
use jungle_wager_engine.Domain.Errors.{Result, ok, err}
use jungle_wager_engine.Domain.Id.{Uuid}
use jungle_wager_engine.Domain.Events.{Event}
use jungle_wager_engine.Application.{AppResult}
use jungle_wager_engine.Store.Tables.{Db}
use jungle_wager_engine.Store.Monad.{Env, World}
use jungle_wager_engine.Store.Work.{ReferenceClaim, retry_reference, release_claims}
use jungle_wager_engine.Store.Claim.{OutboxRecord, claim_outbox, claim_references}
use jungle_wager_engine.Observability.{status_text}
use jungle_wager_engine.Workers.Consume.{Message, Consumer, Ending, handle}
use jungle_wager_engine.Workers.Outbox.{publish_one, batch_size, goes_on}

-- What the engine has of its configuration, and of its surroundings: the broker's answers to an event
-- that is sent, the rows that others lock, the order in which the goroutines of a round take their
-- turns, and what others commit before each call.
pub record Engine : Type 0 where
  pub consumer : Consumer
  pub instance_id : Text
  pub publish_batch : ℕ
  pub concurrency : ℕ
  pub lease : ℕ
  pub reference_max_attempts : ℕ
  pub reference_ttl : ℕ
  pub sends : Event → Bool
  pub skips : Uuid → Bool
  pub order : List OutboxRecord → List OutboxRecord
  pub claim_order : List ReferenceClaim → List ReferenceClaim
  pub meanwhile : ℕ → Db → Db

-- The outcome that an attempt at a reference is counted under.
unfoldable pub attempt_outcome : Result AppResult → Text
attempt_outcome (err e) = codes "error"
attempt_outcome (ok result) =
    if is_empty (status_text result.status) then codes "deferred" else codes "resolved"

module _ (env : Env) (engine : Engine) where
  -- Before a call.
  abbrev pub met : ℕ → World → World
  met call s = record s { db = engine.meanwhile call s.db }

  -- The messages of one `Receive`
  unfoldable pub consume_round : ℕ → List Message → World → List Ending × World
  consume_round call [] s = ([], s)
  consume_round call (message ∷ messages) s =
      let (ending, s') = handle engine.consumer env message (met call s) in
      let (endings, s'') = consume_round (call + 1) messages s' in (ending ∷ endings, s'')

  -- How many of the records were published.
  unfoldable pub publish_all : ℕ → List OutboxRecord → World → ℕ × World
  publish_all call [] s = (0, s)
  publish_all call (r ∷ records) s =
      let (done, s') = publish_one env engine.sends engine.consumer.draw r (met call s) in
      let (n, s'') = publish_all (call + 1) records s' in ((if done then 1 else 0) + n, s'')

  -- Whether the next round starts without a wait, and the number of its first call.
  unfoldable pub publish_round : ℕ → World → Bool × ℕ × World
  publish_round call s =
      let batch = batch_size engine.publish_batch in
      let (claimed, s') =
        claim_outbox env engine.skips engine.instance_id batch engine.lease (met call s) in
      elim claimed [
        | err e ↦ (goes_on batch 0 0, call + 1, s')
        | ok records ↦
            let ordered = engine.order records in
            let (published, s'') = publish_all (call + 1) ordered s' in
            (goes_on batch (length records) published, call + 1 + length ordered, s'')
      ]

  -- `publish` up to a wait, on fuel; nothing where that runs out.
  unfoldable pub until_wait : ℕ → ℕ → World → Option World
  until_wait zero call s = none
  until_wait (suc fuel) call s =
      let (on, next, s') = publish_round call s in
      let rest = until_wait fuel next s' in if on then rest else some s'

  unfoldable pub resolve_all : ℕ → List ReferenceClaim → World → List Text × World
  resolve_all call [] s = ([], s)
  resolve_all call (claim ∷ claims) s =
      let (r, s') =
        retry_reference env claim engine.reference_max_attempts engine.reference_ttl (met call s) in
      let (outcomes, s'') = resolve_all (call + 1) claims s' in (attempt_outcome r ∷ outcomes, s'')

  unfoldable pub reference_round : ℕ → World → List Text × World
  reference_round call s =
      let (claimed, s') =
        claim_references env engine.skips engine.instance_id engine.concurrency engine.lease
          (met call s) in
      elim claimed [
        | err e ↦ ([], s')
        | ok claims ↦ resolve_all (call + 1) (engine.claim_order claims) s'
      ]

  -- `Stop`, once the loops have ended
  unfoldable pub stop : World → Result (Unit {0}) × World
  stop = release_claims env engine.instance_id
