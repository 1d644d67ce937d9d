-- ===== src/Workers/Outbox/Progress.antt =====
-- An event is marked as published only after the broker has taken it.
use jungle_wager_engine.Base.{
  ℕ, ◌*◌, ◌<◌, Bool, true, false, ◌&&◌, ◌≡◌, refl, ◌∙◌, arith, List, [], ◌∷◌, any, inl, inr,
}
use jungle_wager_engine.Domain.Errors.{Result-cases, ok}
use jungle_wager_engine.Domain.Id.{Uuid, eq_id}
use jungle_wager_engine.Domain.Events.{Event}
use jungle_wager_engine.Store.Tables.{Db, OutboxRow, update_where}
use jungle_wager_engine.Store.Monad.{Env, World}
use jungle_wager_engine.Store.Monad.Upholds.{
  Upholds, Any, bind-Upholds, pure-Upholds, raise-Upholds, if-Upholds, gets-Upholds, modify-Upholds,
}
use jungle_wager_engine.Store.Rows.Upheld.{statement-Upholds, server_now-Upholds}
use jungle_wager_engine.Store.Apply.{second}
use jungle_wager_engine.Store.Work.{mark_published, retry_outbox, changed}
use jungle_wager_engine.Store.Claim.{OutboxRecord}
use jungle_wager_engine.Workers.{backoff}
use jungle_wager_engine.Workers.Outbox.{put_off, publish_one, batch_size, goes_on}

-- A row of the event that is marked as published.
abbrev pub is_published : Uuid → OutboxRow → Bool
is_published id r = eq_id r.event.id id && r.published

module _ (id : Uuid) (p : OutboxRow → Bool) (f : OutboxRow → OutboxRow)
    (keeps : (r : OutboxRow) → is_published id (f r) ≡ is_published id r) where
  any-kept :
      (rows : List OutboxRow)
      → any (is_published id) (update_where p f rows) ≡ any (is_published id) rows
  unfolding any update_where
  any-kept [] = refl
  any-kept (r ∷ rows) = ground (arith, any-kept rows, keeps r)

module _ (env : Env) (id : Uuid) (b : Bool) where
  abbrev Marked : Db → Type 0
  Marked db = any (is_published id) db.outbox ≡ b

  retry_outbox-Marked :
      (event token : Uuid) (delay : ℕ) → Upholds Marked (retry_outbox env event token delay) Any
  unfolding retry_outbox
  retry_outbox-Marked event token delay = bind-Upholds (statement-Upholds env) (λ _ _.
      bind-Upholds (server_now-Upholds env) (λ _ _. bind-Upholds (gets-Upholds _) (λ row _.
        bind-Upholds (modify-Upholds _ (λ db h. any-kept id _ _ (λ r. refl) db.outbox ∙ h))
          (λ _ _. if-Upholds (changed row) (λ _. pure-Upholds _ tt) (λ _. raise-Upholds _)))))

module _ (env : Env) (sends : Event → Bool) (draw : ℕ → ℕ) (record_ : OutboxRecord)
    (s : World) where
  -- `publishOne` reports progress only for an event that the broker has taken and the store has
  -- marked; and where the broker does not take the event, no event is marked as published that was
  -- not before.
  pub publish_one-honest :
      ((publish_one env sends draw record_ s).0 ≡ true
        → (sends record_.event ≡ true)
          × ((mark_published env record_.event.id record_.claim_token s).0 ≡ ok tt))
      × (sends record_.event ≡ false
          → (id : Uuid)
          → any (is_published id) (publish_one env sends draw record_ s).1.db.outbox
            ≡ any (is_published id) s.db.outbox)
  unfolding publish_one put_off
  publish_one-honest = (
    (λ h. elim (Result-cases (mark_published env record_.event.id record_.claim_token s).0) [
      | inl (u, good) ↦ ground arith
      | inr (e, bad) ↦ ground arith
    ]),
    (λ refused id.
        let kept =
          (retry_outbox-Marked env id (any (is_published id) s.db.outbox) record_.event.id
              record_.claim_token (backoff record_.attempts (3600 * second) draw)).after
            s refl in
        ground arith),
  )

-- A round after which `publish` goes on without waiting has published at least one event.
pub goes_on-progress :
    (configured claimed published : ℕ)
    → goes_on (batch_size configured) claimed published ≡ true
    → 0 < published
unfolding goes_on batch_size
goes_on-progress configured claimed published h = ground arith
