-- ===== src/Workers/Rounds/Throttled.antt =====
-- `publish` waits between rounds unless a full batch went out.
use jungle_wager_engine.Base.{
  ℕ, ◌+◌, ◌≤◌, true, ◌≡◌, arith, List, [], ◌∷◌, All, length, Bool-cases, inl, inr,
}
use jungle_wager_engine.Domain.Errors.{Result-cases, ok}
use jungle_wager_engine.Store.Monad.{Env, World}
use jungle_wager_engine.Store.Claim.{OutboxRecord, claim_outbox}
use jungle_wager_engine.Workers.Outbox.{publish_one, batch_size, goes_on}
use jungle_wager_engine.Workers.Outbox.Progress.{publish_one-honest}
use jungle_wager_engine.Workers.Rounds.{Engine, met, publish_all, publish_round}

pub batch_size_positive : (n : ℕ) → 1 ≤ batch_size n
unfolding batch_size
batch_size_positive n = ground arith

module _ (env : Env) (engine : Engine) where
  publish_all_bounded :
      (call : ℕ) (records : List OutboxRecord) (s : World)
      → (publish_all env engine call records s).0 ≤ length records
  unfolding publish_all
  publish_all_bounded call [] s = omega arith
  publish_all_bounded call (r ∷ records) s =
      let s' = (publish_one env engine.sends engine.consumer.draw r (met env engine call s)).1 in
      ground (arith, publish_all_bounded (call + 1) records s')

  -- If as many records were published as there are, the broker has taken each.
  publish_all_sent :
      (call : ℕ) (records : List OutboxRecord) (s : World)
      → (publish_all env engine call records s).0 ≡ length records
      → All (λ r. engine.sends r.event ≡ true) records
  unfolding publish_all
  publish_all_sent call [] s h = tt
  publish_all_sent call (r ∷ records) s h =
      let t = met env engine call s in
      let s' = (publish_one env engine.sends engine.consumer.draw r t).1 in
      let bounded = publish_all_bounded (call + 1) records s' in
      elim (Bool-cases (publish_one env engine.sends engine.consumer.draw r t).0) [
        | inl done ↦ (
          ((publish_one-honest env engine.sends engine.consumer.draw r t).0 done).0,
          publish_all_sent (call + 1) records s' (ground arith),
        )
        | inr put_off_ ↦ absurd (ground arith)
      ]

  -- A round of `publish` that is followed by the next without a wait has claimed a full batch, of at
  -- least one event, and the broker has taken every event of it, whatever others commit meanwhile.
  -- The goroutines' order is taken to keep the number of events.
  pub publish_round-throttled :
      (call : ℕ) (s : World)
      → ((records : List OutboxRecord) → length (engine.order records) ≡ length records)
      → (publish_round env engine call s).0 ≡ true
      → (records : List OutboxRecord) × ((claim_outbox env engine.skips engine.instance_id
            (batch_size engine.publish_batch)
            engine.lease
            (met env engine call s)).0
          ≡ ok records)
        × (length records ≡ batch_size engine.publish_batch)
        × (1 ≤ length records)
        × All (λ r. engine.sends r.event ≡ true) (engine.order records)
  unfolding publish_round goes_on
  publish_round-throttled call s counted h =
      let batch = batch_size engine.publish_batch in
      let positive = batch_size_positive engine.publish_batch in
      let asked =
        claim_outbox env engine.skips engine.instance_id batch engine.lease
          (met env engine call s) in
      elim (Result-cases asked.0) [
        | inl (records, claimed) ↦
            let same = counted records in
            let published = (publish_all env engine (call + 1) (engine.order records) asked.1).0 in
            let full : (length records ≡ batch) × (published ≡ length records) = ground arith in
            (
              records,
              claimed,
              full.0,
              ground arith,
              publish_all_sent (call + 1) (engine.order records) asked.1 (ground arith),
            )
        | inr (e, refused) ↦ absurd (ground arith)
      ]
