-- ===== src/Store/Claim/Exclusive.antt =====
-- A claimed event is nobody else's until its lease ends.
use jungle_wager_engine.Base.{
  ℕ, suc, zero, ◌+◌, ◌≤◌, Bool, true, false, ◌&&◌, not, ◌≡◌, refl, sym, ap, ◌∙◌, arith, some, List,
  [], ◌∷◌, Text, All, everywhere, pointwise, any, take, length, Bool-cases, inl, inr,
}
use jungle_wager_engine.Domain.Errors.{ok}
use jungle_wager_engine.Domain.Id.{Uuid, eq_id, eq_id_refl, eq_id→eq}
use jungle_wager_engine.Domain.Wallet.{Time}
use jungle_wager_engine.Domain.Events.{Event}
use jungle_wager_engine.Config.{max_outbox_batch}
use jungle_wager_engine.Store.Tables.{Db, Claim, OutboxRow, update_where}
use jungle_wager_engine.Store.Monad.{Env, World, ◌>>=◌, pure, raise, gets}
use jungle_wager_engine.Store.Monad.Upholds.{
  Upholds, Any, tick-Upholds, bind-Upholds, pure-Upholds, modify-Upholds,
}
use jungle_wager_engine.Store.Monad.Ends.{Ends, pure-Ends, bind-Ends, then-Ends, modify-Ends}
use jungle_wager_engine.Store.Rows.{statement, server_now}
use jungle_wager_engine.Store.Work.{whole_milliseconds}
use jungle_wager_engine.Store.Claim.Selected.{select-All, take-All}
use jungle_wager_engine.Store.Claim.{
  OutboxRecord, is_event, is_due, event_before, select, new_token, claim_events, claim_outbox,
}

-- An event that can be claimed at the time.
abbrev pub open_event : Time → Uuid → OutboxRow → Bool
open_event at id r = is_event id r && is_due at r

-- No row of the event can be claimed at the time.
abbrev pub IsHeld : Time → Uuid → Db → Type 0
IsHeld at id db = any (open_event at id) db.outbox ≡ false

abbrev claim_row : Claim → OutboxRow → OutboxRow
claim_row c row = record row { claim = some c }

claimed_not_due :
    (at : Time) (c : Claim) (row : OutboxRow) → at ≤ c.until → is_due at (claim_row c row) ≡ false
unfolding is_due
claimed_not_due at c row h = ground arith

module _ (at : Time) (id : Uuid) (c : Claim) (early : at ≤ c.until) where
  held_longer :
      (p : OutboxRow → Bool) (rows : List OutboxRow)
      → any (open_event at id) rows ≡ false
      → any (open_event at id) (update_where p (claim_row c) rows) ≡ false
  unfolding any update_where
  held_longer p [] h = refl
  held_longer p (r ∷ rows) h = ground (arith, held_longer p rows, claimed_not_due at c r early)

  held_from_now :
      (rows : List OutboxRow)
      → any (open_event at id) (update_where (is_event id) (claim_row c) rows) ≡ false
  unfolding any update_where
  held_from_now [] = refl
  held_from_now (r ∷ rows) = ground (arith, held_from_now rows, claimed_not_due at c r early)

module _ (env : Env) (skips : Uuid → Bool) (owner : Text) (until : Time) where
  -- What has been claimed stays so while more is claimed.
  claim_events-Ends :
      (at : Time) (rows : List OutboxRow) (P : Db → Type 0)
      → at ≤ until
      → ((db : Db) (id : Uuid) (token : Uuid)
          → P db
          → P (record db {
            outbox =
                update_where
                  (is_event id)
                  (claim_row (record { by = owner; token = token; until = until }))
                  db.outbox;
          }))
      → Ends P
          (claim_events env skips owner until rows)
          (λ claimed db. P db × All (λ c. IsHeld at c.event.id db) claimed)
  unfolding claim_events new_token
  claim_events-Ends at [] P early keeps = pure-Ends _ (λ db p. (p, tt))
  claim_events-Ends at (r ∷ rows) P early keeps =
      then-Ends (bind-Upholds tick-Upholds (λ n _. pure-Upholds {Q = Any} _ tt)) (λ token _.
        bind-Ends {Q = λ _ db. P db × IsHeld at r.event.id db}
          (modify-Ends _ (λ db p. (
            keeps db r.event.id token p,
            held_from_now at r.event.id (record { by = owner; token = token; until = until }) early
                db.outbox,
          )))
          (λ _.
            bind-Ends
              (claim_events-Ends at rows (λ db. P db × IsHeld at r.event.id db) early
                (λ db id token' (p, h). (
                  keeps db id token' p,
                  held_longer at r.event.id (record { by = owner; token = token'; until = until })
                      early (is_event id) db.outbox h,
                )))
              (λ claimed. pure-Ends _ (λ db ((p, h), rest). (p, (h, rest))))))

  -- The records are those of the candidates.
  claim_events-candidates :
      (Q : Event → Type 0) (rows : List OutboxRow)
      → All (λ r. Q r.event) rows
      → Upholds
          (λ _. Unit)
          (claim_events env skips owner until rows)
          (λ claimed. All (λ c. Q c.event) claimed × (length claimed ≡ length rows))
  unfolding claim_events new_token
  claim_events-candidates Q [] all = pure-Upholds _ (tt, refl)
  claim_events-candidates Q (r ∷ rows) (q, all) =
      bind-Upholds (bind-Upholds tick-Upholds (λ n _. pure-Upholds {Q = Any} _ tt)) (λ token _.
        bind-Upholds (modify-Upholds _ (λ db p. tt)) (λ _ _.
          bind-Upholds (claim_events-candidates Q rows all)
            (λ claimed (rest, long). pure-Upholds _ ((q, rest), ap (λ n. suc n) long))))

take_short : (n : ℕ) (rows : List OutboxRow) → length (take n rows) ≤ n
take_short zero rows = ground arith
take_short (suc n) [] = ground arith
take_short (suc n) (r ∷ rows) = ground (arith, take_short n rows)

-- A row that a test accepts shows that some row is accepted.
some_accepted :
    (q : OutboxRow → OutboxRow → Bool) (rows seen : List OutboxRow)
    → ((r : OutboxRow) → any (q r) rows ≡ true → any (q r) seen ≡ true)
    → All (λ r. q r r ≡ true → any (q r) seen ≡ true) rows
unfolding any
some_accepted q [] seen wider = tt
some_accepted q (r ∷ rows) seen wider =
    ((λ h. wider r (ground arith)), some_accepted q rows seen (λ x h. wider x (ground arith)))

module _ (env : Env) (skips : Uuid → Bool) (owner : Text) (limit lease : ℕ) (s : World)
    (claimed : List OutboxRecord)
    (good : (claim_outbox env skips owner limit lease s).0 ≡ ok claimed) where
  abbrev at : Time
  at = env.server_clock (s.step + 1)

  abbrev until : Time
  until = env.server_clock (s.step + 1 + 1) + whole_milliseconds lease

  abbrev candidates : List OutboxRow
  candidates =
      take limit (select event_before (λ r. is_due at r && not (skips r.event.id)) s.db.outbox)

  claim_outbox-events :
      (t : World) × (t.db ≡ s.db)
      × (claim_outbox env skips owner limit lease s
          ≡ claim_events env skips owner until candidates t)
      × (limit ≤ max_outbox_batch)
  unfolding claim_outbox statement server_now ◌>>=◌ pure raise gets
  claim_outbox-events = (record s { step = s.step + 1 + 1 + 1 }, refl, ground arith, ground arith)

  -- However many events there are, a claim of `ClaimOutbox` that goes through yields at most `limit`
  -- of them.
  pub claim_outbox-length : length claimed ≤ limit
  claim_outbox-length =
      let (t, same, run, most) = claim_outbox-events in
      let made =
        claim_events-candidates env skips owner until (λ _. Unit) candidates
          (everywhere _ candidates (λ r. tt)) in
      let (_, long) = made.returns t tt claimed (sym (ap (λ x. x.0) run) ∙ good) in
      ground (
        arith,
        take_short limit
            (select event_before (λ r. is_due at r && not (skips r.event.id)) s.db.outbox),
      )

  -- Each of them could be claimed before.
  claim_outbox-due : All (λ c. any (open_event at c.event.id) s.db.outbox ≡ true) claimed
  unfolding is_due
  claim_outbox-due =
      let (t, same, run, most) = claim_outbox-events in
      let Q : Event → Type 0 = (λ e. any (open_event at e.id) s.db.outbox ≡ true) in
      let all = some_accepted (λ r. open_event at r.event.id) s.db.outbox s.db.outbox (λ r h. h) in
      let made = claim_events-candidates env skips owner until Q candidates (
        take-All (λ r. Q r.event) limit _
          (select-All event_before (λ r. Q r.event) _ s.db.outbox
            (pointwise _ _ s.db.outbox (λ r h chosen. h (ground (arith, eq_id_refl r.event.id)))
              all))) in
      (made.returns t tt claimed (sym (ap (λ x. x.0) run) ∙ good)).0

  -- Until the lease that `ClaimOutbox` gave is over, no event that it returned can be claimed.
  pub claim_outbox-IsHeld :
      (later : Time)
      → later ≤ until
      → All (λ c. IsHeld later c.event.id (claim_outbox env skips owner limit lease s).1.db) claimed
  claim_outbox-IsHeld later early =
      let (t, same, run, most) = claim_outbox-events in
      let made =
        claim_events-Ends env skips owner until later candidates (λ _. Unit) early
          (λ db id token p. tt) in
      let held = made.well t tt claimed (sym (ap (λ x. x.0) run) ∙ good) in
      rw (ap (λ x. x.1.db) run) (held.1)

-- Two claims of `ClaimOutbox` that go through, one after the other, have no event in common, if the
-- second finds the table as the first left it, by a time of the server's at which the first lease is
-- not over; the owners, the limits and what other transactions lock are any.
pub claims_disjoint :
    (env : Env) (skips skips' : Uuid → Bool) (owner owner' : Text) (limit limit' lease lease' : ℕ)
    (s u : World) (first second : List OutboxRecord)
    → (claim_outbox env skips owner limit lease s).0 ≡ ok first
    → (claim_outbox env skips' owner' limit' lease' u).0 ≡ ok second
    → u.db ≡ (claim_outbox env skips owner limit lease s).1.db
    → env.server_clock (u.step + 1) ≤ env.server_clock (s.step + 1 + 1) + whole_milliseconds lease
    → All (λ a. All (λ b. eq_id b.event.id a.event.id ≡ false) second) first
claims_disjoint env skips skips' owner owner' limit limit' lease lease' s u first second h k same
      early =
    let now_ = env.server_clock (u.step + 1) in
    let held = claim_outbox-IsHeld env skips owner limit lease s first h now_ early in
    let due = claim_outbox-due env skips' owner' limit' lease' u second k in
    pointwise _ _ first
      (λ a not_open.
        pointwise _ _ second
          (λ b is_open. apart now_ a.event.id b.event.id u.db (rw same not_open) is_open) due)
      held
  where
    apart :
        (at : Time) (i j : Uuid) (db : Db)
        → IsHeld at i db
        → any (open_event at j) db.outbox ≡ true
        → eq_id j i ≡ false
    apart at i j db held due = elim (Bool-cases (eq_id j i)) [
      | inl same ↦
          let moved : any (open_event at i) db.outbox ≡ true =
            ap (λ x. any (open_event at x) db.outbox) (sym (eq_id→eq j i same)) ∙ due in
          absurd (ground arith)
      | inr other ↦ other
    ]
