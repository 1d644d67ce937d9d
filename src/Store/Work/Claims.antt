-- ===== src/Store/Work/Claims.antt =====
-- A claim on an outbox event is good once.
use jungle_wager_engine.Base.{
  ℕ, ◌+◌, Bool, true, false, ◌≡◌, refl, arith, none, Bool-cases, List, [], ◌∷◌, find, inl, inr, ◌⊎◌,
}
use jungle_wager_engine.Domain.Errors.{ok, err, app, claim_lost}
use jungle_wager_engine.Domain.Id.{Uuid}
use jungle_wager_engine.Store.Tables.{update_where}
use jungle_wager_engine.Store.Monad.{Env, World, gets, lift, modify, pure, raise, ◌>>=◌, translate}
use jungle_wager_engine.Store.Rows.{statement, server_now}
use jungle_wager_engine.Store.Work.{marks, mark_published, retry_outbox, whole_milliseconds}

find-update_where {ℓ} :
    {A : Type ℓ} (p : A → Bool) (f : A → A)
    → ((x : A) → p (f x) ≡ false)
    → (xs : List A) → find p (update_where p f xs) ≡ none
unfolding find update_where
find-update_where p f h [] = refl
find-update_where p f h (x ∷ xs) = ground (arith, h x, find-update_where p f h xs)

module _ (env : Env) (id token : Uuid) where
  -- With no claimed row of the token's, both answers are refused.
  lost_claim :
      (delay : ℕ) (s : World)
      → find (marks id token) s.db.outbox ≡ none
      → env.fails s.step ≡ false
      → ((mark_published env id token s).0 ≡ err (app claim_lost))
        × ((retry_outbox env id token delay s).0 ≡ err (app claim_lost))
  unfolding ◌>>=◌ pure lift raise gets modify translate mark_published retry_outbox statement
      server_now
  lost_claim delay s h f = ground arith

  marked_free :
      (s : World)
      → (mark_published env id token s).0 ≡ ok tt
      → find (marks id token) (mark_published env id token s).1.db.outbox ≡ none
  unfolding ◌>>=◌ pure lift raise gets modify translate mark_published statement
  marked_free s h = elim (Bool-cases (env.fails s.step)) [
    | inl fails ↦ absurd (ground arith)
    | inr works ↦ ground (
      arith,
      find-update_where (marks id token) (λ r. record r { published = true; claim = none })
          (λ r. ground arith) s.db.outbox,
    )
  ]

  retried_free :
      (delay : ℕ) (s : World)
      → (retry_outbox env id token delay s).0 ≡ ok tt
      → find (marks id token) (retry_outbox env id token delay s).1.db.outbox ≡ none
  unfolding ◌>>=◌ pure lift raise gets modify translate retry_outbox statement server_now
  retried_free delay s h = elim (Bool-cases (env.fails s.step)) [
    | inl fails ↦ absurd (ground arith)
    | inr works ↦
        let next = env.server_clock (s.step + 1) + whole_milliseconds delay in
        ground (
          arith,
          find-update_where (marks id token)
              (λ r. record r { attempts = r.attempts + 1; next_attempt_at = next; claim = none })
              (λ r. ground arith) s.db.outbox,
        )
  ]

  -- Once an event has been marked as published, or put back, under a claim token, neither can be
  -- done again under that token: the answer is CLAIM_LOST, unless the statement fails.
  pub claim-once :
      (delay again : ℕ) (s t : World)
      → (((mark_published env id token s).0 ≡ ok tt)
          × (t.db ≡ (mark_published env id token s).1.db))
        ⊎ (((retry_outbox env id token delay s).0 ≡ ok tt)
            × (t.db ≡ (retry_outbox env id token delay s).1.db))
      → env.fails t.step ≡ false
      → ((mark_published env id token t).0 ≡ err (app claim_lost))
        × ((retry_outbox env id token again t).0 ≡ err (app claim_lost))
  claim-once delay again s t (inl (done, here_)) f =
      lost_claim again t (rw here_ (marked_free s done)) f
  claim-once delay again s t (inr (done, here_)) f =
      lost_claim again t (rw here_ (retried_free delay s done)) f
