-- ===== src/Tests/EngineRuns.antt =====
-- Rounds of the engine's loops.
use jungle_wager_engine.Base.{
  zero, suc, ltb, any, Bool-cases, inl, inr, if◌then◌else◌, ℕ, ◌+◌, ◌≤◌, Bool, true, false, ◌≡◌,
  refl, arith, Option, none, some, List, [], ◌∷◌, All, Text, pos, codes, length, find,
}
use jungle_wager_engine.Domain.Errors.{ok}
use jungle_wager_engine.Domain.Id.{Uuid, eq_id, eq_id→eq, eq_id_refl}
use jungle_wager_engine.Store.Tables.{Db, OutboxRow}
use jungle_wager_engine.Store.Monad.{World}
use jungle_wager_engine.Store.Claim.{OutboxRecord, is_event, claim_outbox}
use jungle_wager_engine.Store.Backlog.{Backlog, backlog, count, is_unpublished}
use jungle_wager_engine.Store.Backlog.Counts.{HasEventIds, HasOutboxIds, outstanding}
use jungle_wager_engine.Workers.Outbox.{batch_size}
use jungle_wager_engine.Workers.Rounds.{Engine, met, publish_all, publish_round, until_wait}
use jungle_wager_engine.Workers.Rounds.Throttled.{publish_round-throttled}
use jungle_wager_engine.Workers.Rounds.Drained.{Trades, publish_all-backlog, until_wait-ends}
use jungle_wager_engine.Tests.Data.{bytes, env}
use jungle_wager_engine.Tests.StoreRuns.{event_row, claimed}
use jungle_wager_engine.Tests.FlowRuns.{consumer, minute, none_locked, waiting_event, outbox_row}

-- An event of another process.
abbrev visitor : OutboxRow
visitor = record outbox_row { event = record outbox_row.event { id = bytes 60 } }

-- It is committed, unless its id is taken.
visit : Db → Db
visit db =
    if any (is_event visitor.event.id) db.outbox
    then db
    else record db { outbox = visitor ∷ db.outbox }

-- Before the first call.
abbrev visits : ℕ → Db → Db
visits zero db = visit db
visits (suc n) db = db

abbrev engine : Engine
engine = record {
  consumer = consumer;
  instance_id = codes "a";
  publish_batch = 0;
  concurrency = 4;
  lease = minute;
  reference_max_attempts = 12;
  reference_ttl = 86400000000000;
  sends = λ e. true;
  skips = none_locked;
  order = λ records. records;
  claim_order = λ claims. claims;
  meanwhile = visits;
}

-- One event is a full batch.
goes_on_at_once : (publish_round env engine 0 waiting_event).0 ≡ true
unfolding publish_round claim_outbox batch_size jungle_wager_engine.Store.Monad.◌>>=◌
    jungle_wager_engine.Store.Rows.statement jungle_wager_engine.Store.Monad.pure
    jungle_wager_engine.Store.Rows.server_now jungle_wager_engine.Store.Monad.gets
    jungle_wager_engine.Store.Claim.claim_events jungle_wager_engine.Store.Claim.select visit any
    eq_id jungle_wager_engine.Base.eq_text jungle_wager_engine.Store.Claim.is_due
    jungle_wager_engine.Store.Claim.insert_sorted backlog count
    jungle_wager_engine.Store.Backlog.age_at publish_all jungle_wager_engine.Store.Backlog.oldest
    jungle_wager_engine.Workers.Outbox.publish_one jungle_wager_engine.Store.Work.mark_published
    jungle_wager_engine.Store.Monad.modify find jungle_wager_engine.Store.Tables.update_where
    jungle_wager_engine.Store.Backlog.rounded jungle_wager_engine.Base.◌-ℤ◌
    jungle_wager_engine.Store.Claim.event_before jungle_wager_engine.Store.Claim.id_before
    jungle_wager_engine.Store.Claim.new_token jungle_wager_engine.Workers.Outbox.goes_on
goes_on_at_once = refl

publish_round-throttled_example :
    (records : List OutboxRecord) × ((claim_outbox env none_locked
        (codes "a")
        (batch_size 0)
        minute
        (met env engine 0 waiting_event)).0
      ≡ ok records)
    × (length records ≡ batch_size 0)
    × (1 ≤ length records)
    × All (λ r. true ≡ true) records
publish_round-throttled_example =
    publish_round-throttled env engine 0 waiting_event (λ records. refl) goes_on_at_once

one_event : HasOutboxIds waiting_event
unfolding HasEventIds
one_event = (tt, tt)

abbrev held : List OutboxRecord
held = record { event = event_row.event; claim_token = bytes 51; attempts = 0 } ∷ []

abbrev counted : ℕ → Backlog
counted n = record { outbox_count = n; reference_count = 0; oldest_outbox_age = pos 0 }

one_left : (backlog env claimed).0 ≡ ok (counted 1)
unfolding backlog jungle_wager_engine.Store.Monad.◌>>=◌ jungle_wager_engine.Store.Rows.statement
    jungle_wager_engine.Store.Monad.pure jungle_wager_engine.Store.Rows.server_now
    jungle_wager_engine.Store.Monad.gets count jungle_wager_engine.Store.Backlog.age_at
    jungle_wager_engine.Store.Backlog.oldest jungle_wager_engine.Store.Backlog.rounded
    jungle_wager_engine.Base.◌-ℤ◌ publish_all jungle_wager_engine.Workers.Outbox.publish_one
    jungle_wager_engine.Store.Work.mark_published jungle_wager_engine.Store.Monad.modify find
    jungle_wager_engine.Domain.Id.eq_id jungle_wager_engine.Base.eq_text
    jungle_wager_engine.Store.Tables.update_where
one_left = refl

visitor_left : (backlog env (publish_all env engine 0 held claimed).1).0 ≡ ok (counted 1)
unfolding backlog jungle_wager_engine.Store.Monad.◌>>=◌ jungle_wager_engine.Store.Rows.statement
    jungle_wager_engine.Store.Monad.pure jungle_wager_engine.Store.Rows.server_now
    jungle_wager_engine.Store.Monad.gets count jungle_wager_engine.Store.Backlog.age_at publish_all
    jungle_wager_engine.Store.Backlog.oldest jungle_wager_engine.Workers.Outbox.publish_one
    jungle_wager_engine.Store.Work.mark_published jungle_wager_engine.Store.Monad.modify find
    jungle_wager_engine.Domain.Id.eq_id jungle_wager_engine.Base.eq_text
    jungle_wager_engine.Store.Tables.update_where visit any
    jungle_wager_engine.Store.Backlog.rounded jungle_wager_engine.Base.◌-ℤ◌
visitor_left = refl

one_claimed : HasOutboxIds claimed
unfolding HasEventIds
one_claimed = (tt, tt)

apart_from :
    (id : Uuid) (rows : List OutboxRow)
    → any (is_event id) rows ≡ false
    → All (λ q. eq_id id q.event.id ≡ false) rows
unfolding any
apart_from id [] free = tt
apart_from id (r ∷ rows) free = elim (Bool-cases (eq_id id r.event.id)) [
  | inl same ↦
      let e : id ≡ r.event.id = eq_id→eq id r.event.id same in
      absurd (ground (arith, e, eq_id_refl id))
  | inr apart ↦ (apart, apart_from id rows (ground arith))
]

visit-HasEventIds : (db : Db) → HasEventIds db.outbox → HasEventIds (visit db).outbox
unfolding visit HasEventIds
visit-HasEventIds db ids = elim (Bool-cases (any (is_event visitor.event.id) db.outbox)) [
  | inl taken ↦ rw taken ids
  | inr free ↦ rw free (apart_from visitor.event.id db.outbox free, ids)
]

visit_counts :
    (db : Db)
    → (count is_unpublished (visit db).outbox ≤ count is_unpublished db.outbox + 1)
      × (count is_unpublished db.outbox ≤ count is_unpublished (visit db).outbox)
unfolding visit count
visit_counts db = ground arith

-- One event is added before the first call, and none after it.
abbrev added : ℕ → ℕ
added n = if ltb n 1 then 0 else 1

at_most : (n : ℕ) → n ≤ n
at_most n = omega arith

trades : Trades engine.meanwhile added (λ n. 0)
trades = record { ids = ids_kept; adds = few_added; takes = none_taken }
  where
    ids_kept : (n : ℕ) (db : Db) → HasEventIds db.outbox → HasEventIds (visits n db).outbox
    ids_kept zero db ids = visit-HasEventIds db ids
    ids_kept (suc n) db ids = ids

    few_added :
        (n : ℕ) (db : Db)
        → count is_unpublished (visits n db).outbox + added n
          ≤ count is_unpublished db.outbox + added (n + 1)
    few_added zero db = omega (arith, (visit_counts db).0)
    few_added (suc n) db = ground (arith, at_most (count is_unpublished db.outbox + 1))

    none_taken :
        (n : ℕ) (db : Db)
        → count is_unpublished db.outbox + 0 ≤ count is_unpublished (visits n db).outbox + 0
    none_taken zero db = omega (arith, (visit_counts db).1)
    none_taken (suc n) db = at_most (count is_unpublished db.outbox + 0)

added_bounded : (n : ℕ) → added n ≤ 1
added_bounded n = ground arith

-- One event is published and another one added.
publish_all-backlog_example :
    (1 + (publish_all env engine 0 held claimed).0 + 0 ≤ 1 + 1)
    × (1 + 0 ≤ 1 + (publish_all env engine 0 held claimed).0 + 0)
publish_all-backlog_example =
    publish_all-backlog env engine added (λ n. 0) trades 0 held claimed (counted 1) (counted 1)
      one_claimed one_left visitor_left

until_wait-ends_example :
    (t : World) × (until_wait env engine 3 0 waiting_event ≡ some t)
    × (outstanding t + 0 ≤ outstanding waiting_event + 1)
unfolding count
until_wait-ends_example =
    until_wait-ends env engine added (λ n. 0) trades 1 3 0 waiting_event added_bounded one_event
      (omega arith)
