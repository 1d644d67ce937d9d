-- ===== src/Store/Backlog/Counts.antt =====
-- What an answer to a claim takes off the backlog of events.
use jungle_wager_engine.Base.{
  ℕ, ◌+◌, Bool, true, false, ◌≡◌, refl, ap, ◌∙◌, arith, List, [], ◌∷◌, All, find, Option-cases,
  some, none, Bool-cases, inl, inr,
}
use jungle_wager_engine.Domain.Errors.{ok, err, Error}
use jungle_wager_engine.Domain.Id.{Uuid, eq_id, eq_id→eq, eq_id_refl}
use jungle_wager_engine.Store.Tables.{Db, OutboxRow, update_where}
use jungle_wager_engine.Store.Monad.{Env, World, ◌>>=◌, pure, lift, raise, gets, modify, translate}
use jungle_wager_engine.Store.Monad.Upholds.{
  Upholds, Any, bind-Upholds, pure-Upholds, raise-Upholds, if-Upholds, gets-Upholds, modify-Upholds,
}
use jungle_wager_engine.Store.Rows.{statement, server_now}
use jungle_wager_engine.Store.Rows.Upheld.{statement-Upholds, server_now-Upholds}
use jungle_wager_engine.Store.Work.{marks, changed, mark_published, retry_outbox}
use jungle_wager_engine.Store.Backlog.{Backlog, backlog, count, is_unpublished}

-- The events have ids of their own.
unfoldable pub HasEventIds : List OutboxRow → Type 0
HasEventIds [] = Unit
HasEventIds (r ∷ rows) = All (λ q. eq_id r.event.id q.event.id ≡ false) rows × HasEventIds rows

-- A change that leaves the event alone.
abbrev pub KeepsEvent : (OutboxRow → OutboxRow) → Type 0
KeepsEvent f = (r : OutboxRow) → (f r).event ≡ r.event

module _ (p : OutboxRow → Bool) (f : OutboxRow → OutboxRow) (keeps : KeepsEvent f) where
  apart_kept :
      (id : Uuid) (rows : List OutboxRow)
      → All (λ q. eq_id id q.event.id ≡ false) rows
      → All (λ q. eq_id id q.event.id ≡ false) (update_where p f rows)
  unfolding update_where
  apart_kept id [] apart = tt
  apart_kept id (r ∷ rows) (a, apart) = elim (Bool-cases (p r)) [
    | inl changed_ ↦
        rw changed_ (rw (ap (λ e. eq_id id e.id) (keeps r)) a, apart_kept id rows apart)
    | inr kept_ ↦ rw kept_ (a, apart_kept id rows apart)
  ]

  pub update_where-HasEventIds :
      (rows : List OutboxRow) → HasEventIds rows → HasEventIds (update_where p f rows)
  unfolding update_where HasEventIds
  update_where-HasEventIds [] ids = tt
  update_where-HasEventIds (r ∷ rows) (apart, ids) =
      let rest = update_where-HasEventIds rows ids in
      let kept = apart_kept r.event.id rows apart in
      elim (Bool-cases (p r)) [
        | inl changed_ ↦ rw (changed_, ap (λ e. e.id) (keeps r)) (kept, rest)
        | inr kept_ ↦ rw kept_ (kept, rest)
      ]

module _ (p : OutboxRow → Bool) (f : OutboxRow → OutboxRow)
    (same : (r : OutboxRow) → (f r).published ≡ r.published) where
  pub count_unmarked :
      (rows : List OutboxRow)
      → count is_unpublished (update_where p f rows) ≡ count is_unpublished rows
  unfolding update_where count
  count_unmarked [] = refl
  count_unmarked (r ∷ rows) = ground (arith, count_unmarked rows, same r)

module _ (id token : Uuid) (f : OutboxRow → OutboxRow) where
  apart_unmarked :
      (rows : List OutboxRow)
      → All (λ q. eq_id id q.event.id ≡ false) rows
      → update_where (marks id token) f rows ≡ rows
  unfolding update_where
  apart_unmarked [] apart = refl
  apart_unmarked (r ∷ rows) (a, apart) =
      ground (arith, apart_unmarked rows apart, eq_id→eq r.event.id id, eq_id_refl id)

  -- The one event that is published is one less to publish.
  count_marked :
      (rows : List OutboxRow) (row : OutboxRow)
      → ((r : OutboxRow) → (f r).published ≡ true)
      → HasEventIds rows
      → find (marks id token) rows ≡ some row
      → count is_unpublished (update_where (marks id token) f rows) + 1 ≡ count is_unpublished rows
  unfolding update_where count find HasEventIds
  count_marked [] row publishes ids h = absurd (ground arith)
  count_marked (r ∷ rows) row publishes (apart, ids) h = elim (Bool-cases (marks id token r)) [
    | inl here ↦
        let same : r.event.id ≡ id = eq_id→eq r.event.id id (ground arith) in
        let others = apart_unmarked rows (rw⁻¹ same apart) in
        rw (here, others) (ground (arith, publishes r))
    | inr later ↦
        let rest = count_marked rows row publishes ids (ground arith) in
        rw later (omega (arith, rest))
  ]

  none_marked :
      (rows : List OutboxRow)
      → find (marks id token) rows ≡ none
      → update_where (marks id token) f rows ≡ rows
  unfolding update_where find
  none_marked [] h = refl
  none_marked (r ∷ rows) h = ground (arith, none_marked rows)

-- How many events are left to publish.
abbrev pub outstanding : World → ℕ
outstanding s = count is_unpublished s.db.outbox

abbrev pub HasOutboxIds : World → Type 0
HasOutboxIds s = HasEventIds s.db.outbox

pub backlog-outstanding :
    (env : Env) (s : World) (b : Backlog)
    → (backlog env s).0 ≡ ok b
    → b.outbox_count ≡ outstanding s
unfolding backlog ◌>>=◌ pure raise gets statement server_now
backlog-outstanding env s b h = elim (Bool-cases (env.fails s.step)) [
  | inl fails_ ↦ absurd (ground arith)
  | inr works_ ↦ ground arith
]

-- Some number of events is left to publish.
abbrev pub Leaves : ℕ → Db → Type 0
Leaves n db = HasEventIds db.outbox × (count is_unpublished db.outbox ≡ n)

module _ (env : Env) (id token : Uuid) (s : World) where
  -- A mark that is made takes one event off.
  pub mark_published-outstanding :
      HasOutboxIds s
      → (mark_published env id token s).0 ≡ ok tt
      → outstanding (mark_published env id token s).1 + 1 ≡ outstanding s
  unfolding ◌>>=◌ pure lift raise gets modify translate mark_published statement
  mark_published-outstanding ids h = elim (Option-cases (find (marks id token) s.db.outbox)) [
    | inl lost_ ↦ absurd (ground arith)
    | inr (row, held) ↦ ground (
      arith,
      count_marked id token (λ r. record r { published = true; claim = none }) s.db.outbox row
          (λ r. refl) ids held,
    )
  ]

  -- A mark that is refused changes nothing.
  pub mark_refused-outstanding :
      (e : Error)
      → (mark_published env id token s).0 ≡ err e
      → (mark_published env id token s).1.db.outbox ≡ s.db.outbox
  unfolding ◌>>=◌ pure lift raise gets modify translate mark_published statement
  mark_refused-outstanding e h = elim (Option-cases (find (marks id token) s.db.outbox)) [
    | inl lost_ ↦ ground (
      arith,
      none_marked id token (λ r. record r { published = true; claim = none }) s.db.outbox lost_,
    )
    | inr (row, held) ↦ ground arith
  ]

module _ (env : Env) (id token : Uuid) where
  pub mark_published-HasEventIds :
      Upholds (λ db. HasEventIds db.outbox) (mark_published env id token) Any
  unfolding mark_published
  mark_published-HasEventIds = bind-Upholds (statement-Upholds env) (λ _ _.
      bind-Upholds (gets-Upholds _) (λ row _.
        bind-Upholds
          (modify-Upholds _ (λ db ids. update_where-HasEventIds _ _ (λ r. refl) db.outbox ids))
          (λ _ _. if-Upholds (changed row) (λ _. pure-Upholds _ tt) (λ _. raise-Upholds _))))

  pub retry_outbox-Leaves : (delay n : ℕ) → Upholds (Leaves n) (retry_outbox env id token delay) Any
  unfolding retry_outbox
  retry_outbox-Leaves delay n = bind-Upholds (statement-Upholds env) (λ _ _.
      bind-Upholds (server_now-Upholds env) (λ _ _. bind-Upholds (gets-Upholds _) (λ row _.
        bind-Upholds
          (modify-Upholds _ (λ db (ids, same). (
            update_where-HasEventIds _ _ (λ r. refl) db.outbox ids,
            count_unmarked _ _ (λ r. refl) db.outbox ∙ same,
          )))
          (λ _ _. if-Upholds (changed row) (λ _. pure-Upholds _ tt) (λ _. raise-Upholds _)))))
