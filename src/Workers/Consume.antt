-- ===== src/Workers/Consume.antt =====
-- `handle` of internal/workers/engine.go: what becomes of one message of the broker. Metrics, logs
-- and the time limits of the calls are left out.
pub mod Whole
use jungle_wager_engine.Base.{ℕ, ◌*◌, Bool, List, Text, Option, none, some, if◌then◌else◌}
use jungle_wager_engine.Domain.Errors.{Result, ok, err, Error, storage, error_code}
use jungle_wager_engine.Application.{Command, InboxMessage, AppResult}
use jungle_wager_engine.Store.Monad.{Env, World}
use jungle_wager_engine.Store.Apply.{second}
use jungle_wager_engine.Store.Process.{process_wager}
use jungle_wager_engine.Workers.{RequestEnvelope, decode, backoff, retry_reason}

pub record Message : Type 0 where
  pub body : Text
  pub receipt : Text
  pub receive_count : ℕ

-- What the consumer has of its surroundings: the JSON decoder and the hash of `decode`, the broker's
-- answers to the deletion of a receipt and to a change of its visibility, whether the work has been cancelled, and the random draw.
pub record Consumer : Type 0 where
  pub json : Text → Option RequestEnvelope
  pub inbox_hash : RequestEnvelope → Command → Result Text
  pub providers : List Text
  pub deletes : Text → Bool
  pub hides : Text → ℕ → Bool
  pub stopping : Bool
  pub draw : ℕ → ℕ

pub data Ending : Type 0 where
  acknowledged : Ending
  -- The error's code, the retry's reason, the delay that was asked for, and whether the broker took
  -- it; where it did not, the queue's own visibility timeout stays.
  retained : Text → Text → ℕ → Bool → Ending

module _ (consumer : Consumer) where
  abbrev pub delay_of : Message → ℕ
  delay_of message =
      if consumer.stopping then 0 else backoff message.receive_count (30 * second) consumer.draw

  -- The end of `handle`: the message is not deleted, and the broker is asked to hide it for a delay.
  -- An error of that is discarded.
  unfoldable pub retain : Message → Error → Ending
  retain message e =
      retained (error_code e) (retry_reason (error_code e)) (delay_of message)
        (consumer.hides message.receipt (delay_of message))

  -- An error of the broker has no code of its own.
  unfoldable pub acknowledge : Message → Ending
  acknowledge message =
      if consumer.deletes message.receipt then acknowledged else retain message storage

  -- The body of `handle` once the message is decoded.
  unfoldable pub run_command : Env → Message → Command → InboxMessage → World → Ending × World
  run_command env message c inbox s =
      let (r, s') = process_wager env c (some inbox) s in
      elim r [ ok result ↦ (acknowledge message, s') | err e ↦ (retain message e, s') ]

  unfoldable pub handle : Env → Message → World → Ending × World
  handle env message s =
      elim (decode consumer.json consumer.inbox_hash message.body consumer.providers) [
        | ok (c, inbox) ↦ run_command env message c inbox s
        | err e ↦ (retain message e, s)
      ]
