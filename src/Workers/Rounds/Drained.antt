-- ===== src/Workers/Rounds/Drained.antt =====
-- A round of `publish` takes off the backlog what it reports, whatever others add meanwhile.
use jungle_wager_engine.Base.{
  ℕ, zero, suc, ◌+◌, ◌≤◌, ◌<◌, Bool, true, length, Text, some, ◌≡◌, refl, ap, ◌∙◌, arith, List, [],
  ◌∷◌, Bool-cases, inl, inr, if◌then◌else◌,
}
use jungle_wager_engine.Domain.Errors.{Result-cases, ok}
use jungle_wager_engine.Store.Tables.{Db}
use jungle_wager_engine.Store.Monad.{Env, World}
use jungle_wager_engine.Store.Work.{mark_published}
use jungle_wager_engine.Store.Claim.{OutboxRecord, claim_outbox}
use jungle_wager_engine.Store.Claim.Upheld.{claim_outbox-Upholds}
use jungle_wager_engine.Store.Monad.Upholds.{Upholds, Any}
use jungle_wager_engine.Store.Backlog.{Backlog, backlog, count, is_unpublished}
use jungle_wager_engine.Store.Backlog.Counts.{
  HasEventIds, outstanding, backlog-outstanding, HasOutboxIds, Leaves, mark_published-outstanding,
  mark_refused-outstanding, mark_published-HasEventIds, update_where-HasEventIds, count_unmarked,
  retry_outbox-Leaves,
}
use jungle_wager_engine.Workers.Outbox.{put_off, publish_one, batch_size, goes_on}
use jungle_wager_engine.Workers.Rounds.Throttled.{batch_size_positive}
use jungle_wager_engine.Workers.Rounds.{Engine, met, publish_all, publish_round, until_wait}

-- From a world to what a publication reports, and the world after it.
abbrev Drains : World → Bool × World → Type 0
Drains s (done, t) = HasOutboxIds t × (outstanding t + (if done then 1 else 0) ≡ outstanding s)

-- What others do to the events between the engine's calls: before call `n` they have added at most
-- `added n`, and published at most `taken n`, and events have ids of their own.
pub record Trades (meanwhile : ℕ → Db → Db) (added taken : ℕ → ℕ) : Type 0 where
  pub ids : (n : ℕ) (db : Db) → HasEventIds db.outbox → HasEventIds (meanwhile n db).outbox
  pub adds :
      (n : ℕ) (db : Db)
      → count is_unpublished (meanwhile n db).outbox + added n
        ≤ count is_unpublished db.outbox + added (n + 1)
  pub takes :
      (n : ℕ) (db : Db)
      → count is_unpublished db.outbox + taken n
        ≤ count is_unpublished (meanwhile n db).outbox + taken (n + 1)

module _ (env : Env) (engine : Engine) where
  put_off-Drains :
      (r : OutboxRecord) (s t : World)
      → HasOutboxIds t
      → outstanding t ≡ outstanding s
      → Drains s (put_off env engine.sends engine.consumer.draw r t)
  unfolding put_off
  put_off-Drains r s t ids same =
      let left =
        (retry_outbox-Leaves env r.event.id r.claim_token _ (outstanding s)).after t (ids, same) in
      (left.0, omega (arith, left.1))

  -- `publishOne` reports just what it takes off.
  publish_one-Drains :
      (r : OutboxRecord) (s : World)
      → HasOutboxIds s
      → Drains s (publish_one env engine.sends engine.consumer.draw r s)
  unfolding publish_one
  publish_one-Drains r s ids =
      let marking = mark_published env r.event.id r.claim_token s in
      let publication = publish_one env engine.sends engine.consumer.draw r s in
      let delayed = put_off env engine.sends engine.consumer.draw r in
      let marked : HasOutboxIds marking.1 =
        (mark_published-HasEventIds env r.event.id r.claim_token).after s ids in
      elim (Bool-cases (engine.sends r.event)) [
        | inl sent ↦ elim (Result-cases marking.0) [
          | inl (u, good) ↦
              let same : publication ≡ (true, marking.1) = ground arith in
              rw same (
                marked,
                mark_published-outstanding env r.event.id r.claim_token s ids (ground arith),
              )
          | inr (e, bad) ↦
              let same : publication ≡ delayed marking.1 = ground arith in
              rw same (
                put_off-Drains r s marking.1 marked (
                  ap (count is_unpublished)
                    (mark_refused-outstanding env r.event.id r.claim_token s e bad)))
        ]
        | inr refused ↦
            let same : publication ≡ delayed s = ground arith in
            rw same (put_off-Drains r s s ids refl)
      ]

  claim_outbox-Leaves :
      (n limit lease : ℕ) (owner : Text)
      → Upholds (Leaves n) (claim_outbox env engine.skips owner limit lease) Any
  claim_outbox-Leaves n limit lease owner =
      claim_outbox-Upholds env engine.skips (Leaves n)
        (λ db id c (ids, same). (
          update_where-HasEventIds _ _ (λ r. refl) db.outbox ids,
          count_unmarked _ _ (λ r. refl) db.outbox ∙ same,
        ))
        owner limit lease

  module _ (added taken : ℕ → ℕ) (trades : Trades engine.meanwhile added taken) where
    publish_all-trades :
        (call : ℕ) (records : List OutboxRecord) (s : World)
        → HasOutboxIds s
        → HasOutboxIds (publish_all env engine call records s).1
          × (outstanding (publish_all env engine call records s).1
                + (publish_all env engine call records s).0
                + added call
              ≤ outstanding s + added (call + length records))
          × (outstanding s + taken call
              ≤ outstanding (publish_all env engine call records s).1
                + (publish_all env engine call records s).0
                + taken (call + length records))
    unfolding publish_all
    publish_all-trades call [] s ids = (ids, ground arith, ground arith)
    publish_all-trades call (r ∷ records) s ids =
        let t = met env engine call s in
        let s' = (publish_one env engine.sends engine.consumer.draw r t).1 in
        let first = publish_one-Drains r t (trades.ids call s.db ids) in
        let (kept, more, less) = publish_all-trades (call + 1) records s' first.0 in
        let next : call + 1 + length records ≡ call + length (r ∷ records) = ground arith in
        (
          kept,
          rw⁻¹ next (omega (arith, first.1, more, trades.adds call s.db)),
          rw⁻¹ next (omega (arith, first.1, less, trades.takes call s.db)),
        )

    -- Where `Backlog` can be read before and after the goroutines of a round of `publish`, its count
    -- of events has gone down by just the number that they report as published, but for the events
    -- that others have added and published between their calls, of which `added` and `taken` are
    -- bounds. Events are taken to have ids of their own.
    pub publish_all-backlog :
        (call : ℕ) (records : List OutboxRecord) (s : World) (before after : Backlog)
        → HasOutboxIds s
        → (backlog env s).0 ≡ ok before
        → (backlog env (publish_all env engine call records s).1).0 ≡ ok after
        → (after.outbox_count + (publish_all env engine call records s).0 + added call
            ≤ before.outbox_count + added (call + length records))
          × (before.outbox_count + taken call
              ≤ after.outbox_count
                + (publish_all env engine call records s).0
                + taken (call + length records))
    publish_all-backlog call records s before after ids first last =
        let (_, more, less) = publish_all-trades call records s ids in
        let counted = backlog-outstanding env s before first in
        let left = backlog-outstanding env _ after last in
        (omega (arith, more, counted, left), omega (arith, less, counted, left))

    -- A round that is followed by the next without a wait takes at least one event off.
    publish_round-trades :
        (call : ℕ) (s : World)
        → HasOutboxIds s
        → HasOutboxIds (publish_round env engine call s).2
          × (outstanding (publish_round env engine call s).2
                + (if (publish_round env engine call s).0 then 1 else 0)
                + added call
              ≤ outstanding s + added (publish_round env engine call s).1)
    unfolding publish_round goes_on
    publish_round-trades call s ids =
        let batch = batch_size engine.publish_batch in
        let positive = batch_size_positive engine.publish_batch in
        let t = met env engine call s in
        let asked = claim_outbox env engine.skips engine.instance_id batch engine.lease t in
        let left =
          (claim_outbox-Leaves (outstanding t) batch engine.lease engine.instance_id).after t
            (trades.ids call s.db ids, refl) in
        let more = trades.adds call s.db in
        elim (Result-cases asked.0) [
          | inl (records, good) ↦
              let ordered = engine.order records in
              let out = publish_all env engine (call + 1) ordered asked.1 in
              let same : publish_round env engine call s
                  ≡ (goes_on batch (length records) out.0, call + 1 + length ordered, out.1) =
                ground arith in
              let (kept, drained, _) = publish_all-trades (call + 1) ordered asked.1 left.0 in
              rw same (kept, ground (arith, drained, left.1, more))
          | inr (e, bad) ↦
              let same : publish_round env engine call s ≡ (goes_on batch 0 0, call + 1, asked.1) =
                ground arith in
              rw same (left.0, ground (arith, left.1, more))
        ]

    -- `publish` does not go on for ever without a wait, although others add events all the while:
    -- if events have ids of their own, and the others add at most `bound` of them in all, of which
    -- `added call` before the first round, then it comes to a wait within one round more than there
    -- are events left to publish and still to be added, and leaves no more events than these.
    pub until_wait-ends :
        (bound fuel call : ℕ) (s : World)
        → ((n : ℕ) → added n ≤ bound)
        → HasOutboxIds s
        → outstanding s + bound < fuel + added call
        → (t : World) × (until_wait env engine fuel call s ≡ some t)
          × (outstanding t + added call ≤ outstanding s + bound)
    unfolding until_wait
    until_wait-ends bound zero call s bounded ids enough = absurd (omega (arith, bounded call))
    until_wait-ends bound (suc fuel) call s bounded ids enough =
        let next = (publish_round env engine call s).1 in
        let s' = (publish_round env engine call s).2 in
        let round = publish_round-trades call s ids in
        elim (Bool-cases (publish_round env engine call s).0) [
          | inl on ↦
              let (t, ends_, fewer) =
                until_wait-ends bound fuel next s' bounded round.0 (ground (arith, round.1)) in
              (t, ground (arith, ends_), ground (arith, fewer, round.1))
          | inr waits_ ↦ (s', ground arith, ground (arith, round.1, bounded next))
        ]
