-- ===== src/Store/Work/Ending.antt =====
-- The last attempt at a reference ends the transaction, and stores it so.
pub mod Applied
use jungle_wager_engine.Base.{
  ℕ, ◌+◌, ◌-◌, ◌≤◌, Bool, true, false, ◌||◌, ◌&&◌, ◌≡◌, refl, sym, ap, ◌∙◌, arith, Option, none,
  some, List, [], ◌∷◌, All, Text, codes, any, find, find_holds, ltb, leb, Bool-cases, inl, inr, ℤ,
}
use jungle_wager_engine.Domain.Errors.{Result, Result-cases, ok, err}
use jungle_wager_engine.Domain.Id.{Uuid, id_string, eq_id→eq}
use jungle_wager_engine.Domain.Money.{Money}
use jungle_wager_engine.Domain.Wallet.{Time, WalletData}
use jungle_wager_engine.Domain.Wager.{
  WagerData, Status, is_terminal, is_pending_reference, fail_wager, stamped, rehydrate_wager,
}
use jungle_wager_engine.Domain.Wager.Steps.{fail_wager-Advances}
use jungle_wager_engine.Application.{AppResult}
use jungle_wager_engine.Store.Tables.{Db, WagerRow, is_wager, update_where}
use jungle_wager_engine.Store.Monad.{Env, World, Tx, ◌>>◌, ◌>>=◌, gets, modify, lift, translate}
use jungle_wager_engine.Store.Monad.Upholds.{
  Upholds, Any, pure-Upholds, raise-Upholds, if-Upholds, lift-Upholds, gets-Upholds, modify-Upholds,
  bind-Upholds, translate-Upholds,
}
use jungle_wager_engine.Store.Monad.Ends.{
  Ends, pure-Ends, then-Ends, bind-Ends, modify-Ends, fix-Ends,
}
use jungle_wager_engine.Store.Rows.{result_of, statement, server_now, scan_wager, or_no_rows}
use jungle_wager_engine.Store.Rows.Upheld.{
  Scanned, wrap-Upholds, statement-Upholds, now-Upholds, server_now-Upholds, scan_wager-Upholds,
  lock_wallet-Upholds,
}
use jungle_wager_engine.Store.Lasting.{OfWagers}
use jungle_wager_engine.Store.Lasting.Unique.{find-any}
use jungle_wager_engine.Store.Apply.{apply}
use jungle_wager_engine.Store.Apply.Upheld.{write_events-Upholds}
use jungle_wager_engine.Store.Work.{
  ReferenceClaim, is_domain, lost, attempt, claimed_row, after_row, recover, guarded_apply,
  postpone, retry_body, retry_reference,
}
use jungle_wager_engine.Store.Work.Upheld.{lost-Scanned}
use jungle_wager_engine.Store.Work.Ending.Applied.{
  IsHeld, HasStatus, HasEnded, persist_result-HasStatus, apply-HasEnded,
}
use jungle_wager_engine.Store.Process.{commit, transact}
use jungle_wager_engine.Store.Process.Upheld.{commit-Upholds}

failed-ends :
    (wg d : WagerData) (code : Text) (balance : Money) (version : ℤ) (at : Time)
    → fail_wager wg code balance version at ≡ ok d
    → is_terminal d.status ≡ true
unfolding fail_wager stamped rehydrate_wager
failed-ends wg d code balance version at h = ground arith

find-All :
    {A : Type 0} (P : A → Type 0) (p : A → Bool) (xs : List A) (x : A)
    → All P xs
    → find p xs ≡ some x
    → P x
unfolding find
find-All P p [] x all h = absurd (ground arith)
find-All P p (y ∷ xs) x (py, all) h = elim (Bool-cases (p y)) [
  | inl here ↦ let same : y ≡ x = ground arith in rw⁻¹ same py
  | inr later ↦ find-All P p xs x all (ground arith)
]

option_row :
    (found : Option WagerRow) (row : WagerRow) → or_no_rows found ≡ ok row → found ≡ some row
option_row none row h = absurd (ground arith)
option_row (some r) row h = ground arith

same_row : {found : Option WagerRow} {r q : WagerRow} → found ≡ some r → found ≡ some q → r ≡ q
same_row h k = ground (arith, h, k)

renamed :
    {P : Db → Type 0} {m : Tx AppResult} {id other : Uuid}
    → id ≡ other
    → Ends P m (HasEnded id)
    → Ends P m (HasEnded other)
renamed same ends_ = rw same at ends_

-- A change that does not touch the transactions.
module _ (p : WagerRow → Bool) (f : WagerRow → WagerRow)
    (quiet : (r : WagerRow) → (f r).wager ≡ r.wager) where
  kept-IsHeld :
      (id : Uuid) (rows : List WagerRow) → IsHeld id rows → IsHeld id (update_where p f rows)
  unfolding any update_where
  kept-IsHeld id [] held = held
  kept-IsHeld id (r ∷ rows) held = ground (arith, kept-IsHeld id rows, quiet r)

  kept-HasStatus :
      (id : Uuid) (status : Status) (rows : List WagerRow)
      → HasStatus id status rows
      → HasStatus id status (update_where p f rows)
  unfolding find update_where
  kept-HasStatus id status [] (row, there_, has) = absurd (ground arith)
  kept-HasStatus id status (r ∷ rows) (row, there_, has) = elim (Bool-cases (is_wager id r)) [
    | inl here ↦
        let same : r ≡ row = ground arith in
        elim (Bool-cases (p r)) [
          | inl changed_ ↦ (f r, ground (arith, quiet r), ground (arith, quiet r, has, same))
          | inr kept_ ↦ (r, ground arith, ground (arith, has, same))
        ]
    | inr later ↦
        let (kept, found, status_) = kept-HasStatus id status rows (row, ground arith, has) in
        (kept, ground (arith, quiet r, found), status_)
  ]

module _ (env : Env) where
  recover-HasEnded :
      (w : WalletData) (d : WagerData) (row : WagerRow)
      → Ends (OfWagers (IsHeld d.id)) (recover env w d row true) (HasEnded d.id)
  unfolding recover result_of
  recover-HasEnded w d row = then-Ends (now-Upholds env) (λ at _.
      then-Ends (lift-Upholds _) (λ failed done.
        let same : failed.id ≡ d.id = (fail_wager-Advances d failed _ _ _ at done).same.id in
        rw⁻¹ same (
          bind-Ends (persist_result-HasStatus env failed) (λ _.
            then-Ends
              (write_events-Upholds env (HasStatus failed.id failed.status) failed w none _ _ at)
              (λ _ _. pure-Ends _ (λ db has. (failed-ends d failed _ _ _ at done, has)))))))

  guarded_apply-HasEnded :
      (w : WalletData) (d : WagerData) (row : WagerRow)
      → Ends (OfWagers (IsHeld d.id)) (guarded_apply env w d row true) (HasEnded d.id)
  unfolding guarded_apply
  guarded_apply-HasEnded w d row = record {
    well = λ s p a h.
        let c = row.correlation_id in
        let k = row.causation_id in
        let s' = (apply env w d c k true s).1 in
        elim (Result-cases (apply env w d c k true s).0) [
          | inl (r, good) ↦
              let same : (guarded_apply env w d row true s).1 ≡ s' = ground arith in
              let answer : r ≡ a = ground arith in
              rw (ap (λ t. t.db) same) (rw⁻¹ answer ((apply-HasEnded env w d c k).well s p r good))
          | inr (e, bad) ↦ elim (Bool-cases (is_domain e)) [
            | inl undone ↦
                let again = record s' { db = s.db } in
                let same : guarded_apply env w d row true s
                    ≡ (do statement env; recover env w d row true) again =
                  ground arith in
                let ended = then-Ends (statement-Upholds env) (λ _ _. recover-HasEnded w d row) in
                rw (ap (λ x. x.1.db) same) (ended.well again p a (sym (ap (λ x. x.0) same) ∙ h))
            | inr broken ↦ absurd (ground arith)
          ]
        ];
  }

  postpone-HasEnded :
      (id : Uuid) (attempts : ℕ) (result : AppResult)
      → Upholds (HasEnded id result) (postpone env id attempts result) Any
  unfolding postpone
  postpone-HasEnded id attempts result =
      if-Upholds (is_pending_reference result.status)
        (λ _. bind-Upholds (statement-Upholds env) (λ _ _.
          bind-Upholds (server_now-Upholds env) (λ at _. modify-Upholds _ (λ db (ended, has).
            (ended, kept-HasStatus _ _ (λ r. refl) id result.status db.wagers has)))))
        (λ _. pure-Upholds _ tt)

  attempt-HasEnded :
      (w : WalletData) (d : WagerData) (row : WagerRow) (max_attempts ttl : ℕ)
      → max_attempts ≤ row.reference_attempts + 1
      → Ends (OfWagers (IsHeld d.id)) (attempt env w d row max_attempts ttl) (HasEnded d.id)
  unfolding attempt
  attempt-HasEnded w d row max_attempts ttl last = then-Ends (statement-Upholds env) (λ _ _.
      then-Ends (now-Upholds env) (λ since _.
        let exhausted : leb max_attempts (row.reference_attempts + 1)
              || leb ttl (since - d.created_at)
            ≡ true =
          ground arith in
        bind-Ends (rw exhausted (guarded_apply-HasEnded w d row)) (λ result.
          then-Ends (postpone-HasEnded d.id _ result) (λ _ _.
            then-Ends
              (commit-Upholds env
                (λ rows. (is_terminal result.status ≡ true) × HasStatus d.id result.status rows))
              (λ _ _. pure-Ends _ (λ db ended. ended))))))

  -- The transaction of the claim has one attempt left at most.
  abbrev pub IsLast : ReferenceClaim → ℕ → List WagerRow → Type 0
  IsLast claim max_attempts rows =
      All (λ r. is_wager claim.transaction_id r ≡ true → max_attempts ≤ r.reference_attempts + 1)
        rows

  claimed-HasEnded :
      (claim : ReferenceClaim) (w : WalletData) (max_attempts ttl : ℕ) (rows : List WagerRow)
      → IsLast claim max_attempts rows
      → Ends
          (OfWagers (λ now_. now_ ≡ rows))
          (do
            at ← server_now env
            found ← gets (λ db. find (claimed_row env claim at) db.wagers)
            d ← translate lost (scan_wager env found)
            row ← lift (or_no_rows found)
            statement env
            modify
                (after_row (λ r. record r { reference_attempts = r.reference_attempts + 1 }) d.id)
            attempt env w d row max_attempts ttl)
          (HasEnded claim.transaction_id)
  claimed-HasEnded claim w max_attempts ttl rows last = then-Ends (server_now-Upholds env) (λ at _.
      then-Ends (gets-Upholds _) (λ found (db, same, is_claimed).
        then-Ends
          (translate-Upholds {R = Scanned found} lost (scan_wager-Upholds env found)
            (lost-Scanned found))
          (λ d scanned. then-Ends (lift-Upholds _) (λ row there_.
            let claimed : find (claimed_row env claim at) rows ≡ some row =
              ap (find _) (sym same) ∙ sym is_claimed ∙ option_row found row there_ in
            let its = find_holds (claimed_row env claim at) rows row claimed in
            let named : is_wager claim.transaction_id row ≡ true = ground arith in
            let attempts = find-All _ (claimed_row env claim at) rows row last claimed named in
            let stored : scanned.stored ≡ row =
              same_row (scanned.is_row) (option_row found row there_) in
            let its_id : d.id ≡ claim.transaction_id =
              ap (λ t. t.id) scanned.wager_of
              ∙ ap (λ r. r.wager.id) stored
              ∙ eq_id→eq row.wager.id claim.transaction_id named in
            let held : IsHeld d.id rows = rw its_id (
              find-any (claimed_row env claim at) (is_wager claim.transaction_id) rows row claimed
                named) in
            then-Ends (statement-Upholds env) (λ _ _.
              bind-Ends
                (modify-Ends {Q = λ _. OfWagers (IsHeld d.id)} _
                  (λ now_ e. kept-IsHeld _ _ (λ r. refl) d.id now_.wagers (rw e held)))
                (λ _. renamed its_id (attempt-HasEnded w d row max_attempts ttl attempts)))))))

  retry_body-HasEnded :
      (claim : ReferenceClaim) (max_attempts ttl : ℕ)
      → ((db : Db)
          → IsLast claim max_attempts db.wagers
          → IsLast claim max_attempts (env.others db).wagers)
      → Ends
          (OfWagers (IsLast claim max_attempts))
          (retry_body env claim max_attempts ttl)
          (HasEnded claim.transaction_id)
  unfolding retry_body
  retry_body-HasEnded claim max_attempts ttl others =
      then-Ends
        (if-Upholds {Q = Any} (ltb max_attempts 1 || leb ttl 0) (λ _. raise-Upholds _)
          (λ _. pure-Upholds _ tt))
        (λ _ _. then-Ends (statement-Upholds env) (λ _ _.
          then-Ends (wrap-Upholds (lock_wallet-Upholds env others (id_string claim.wallet_id)))
            (λ w _.
              fix-Ends (λ db last. claimed-HasEnded claim w max_attempts ttl db.wagers last))))

  -- If the transaction of a claim has one attempt left at most, and the others keep it so, a
  -- `RetryReference` that succeeds has ended the transaction: the result's status is terminal, and
  -- the transaction's row, which is there, has that status.
  pub retry_reference-ends :
      (claim : ReferenceClaim) (max_attempts ttl : ℕ) (s : World) (result : AppResult)
      → ((db : Db)
          → IsLast claim max_attempts db.wagers
          → IsLast claim max_attempts (env.others db).wagers)
      → IsLast claim max_attempts s.db.wagers
      → (retry_reference env claim max_attempts ttl s).0 ≡ ok result
      → HasEnded claim.transaction_id result (retry_reference env claim max_attempts ttl s).1.db
  unfolding retry_reference transact
  retry_reference-ends claim max_attempts ttl s result others last h =
      let good : (retry_body env claim max_attempts ttl s).0 ≡ ok result = ground arith in
      let same : (retry_reference env claim max_attempts ttl s).1.db
          ≡ (retry_body env claim max_attempts ttl s).1.db =
        ground arith in
      rw same ((retry_body-HasEnded claim max_attempts ttl others).well s last result good)
