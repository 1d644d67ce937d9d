-- ===== src/Store/Work/Books.antt =====
-- `RetryReference` as a whole: the books after it.
use jungle_wager_engine.Base.{
  ℕ, ◌+◌, ◌-◌, Bool, true, false, ◌||◌, ◌≡◌, sym, ap, ◌∙◌, arith, some, none, Option-cases,
  Bool-cases, find, codes, ltb, leb, inl, inr, IsInt64,
}
use jungle_wager_engine.Domain.Errors.{Result-cases, ok}
use jungle_wager_engine.Domain.Id.{Uuid, id_string}
use jungle_wager_engine.Domain.Wallet.{WalletData}
use jungle_wager_engine.Domain.Wallet.Moves.{Fits}
use jungle_wager_engine.Domain.Wager.{WagerData, fail_wager, rehydrate_wager}
use jungle_wager_engine.Application.{AppResult}
use jungle_wager_engine.Store.Tables.{WagerRow, has_id}
use jungle_wager_engine.Store.Monad.{
  Env, Tx, World, gets, lift, modify, pure, raise, ◌>>=◌, ◌>>◌, translate,
}
use jungle_wager_engine.Store.Rows.{wrap, statement, now, server_now, scan_wager, lock_wallet}
use jungle_wager_engine.Store.Apply.{apply, persist_result, write_events}
use jungle_wager_engine.Store.Apply.Conserves.{IsBalanced, SameBooks, statement_books}
use jungle_wager_engine.Store.Apply.Sound.{IsSound, OthersSound, carry-Sound}
use jungle_wager_engine.Store.Lasting.Amounts.{AmountsFit, find-AmountsFit}
use jungle_wager_engine.Store.Apply.Frames.{scan_books, persist_books, write_events_books}
use jungle_wager_engine.Store.Apply.Books.{apply-IsSound}
use jungle_wager_engine.Store.Process.{transact}
use jungle_wager_engine.Store.Process.Frames.{commit_books, lock_wallet-ok}
use jungle_wager_engine.Store.Work.{
  ReferenceClaim, is_domain, recover, guarded_apply, postpone, retry_body, retry_reference,
  claimed_row, after_row, attempt,
}

module _ (env : Env) where
  recover_books :
      (w : WalletData) (d : WagerData) (row : WagerRow) (exhausted : Bool) (s : World)
      → SameBooks s (recover env w d row exhausted s).1
  unfolding ◌>>=◌ pure lift raise gets modify translate recover now statement
  recover_books w d row false s = ground arith
  recover_books w d row true s =
      let at = env.clock s.step in
      let s1 : World = record s { step = s.step + 1 } in
      elim (Result-cases
        (fail_wager d (codes "PERMANENT_PROCESSING_FAILURE") w.balance w.version at)) [
          | inl (failed, made) ↦
              let s2 = (persist_result env failed s1).1 in
              elim (Result-cases (persist_result env failed s1).0) [
                | inl (u, written) ↦
                    elim (Result-cases
                      (write_events env failed w none row.correlation_id row.causation_id at
                        s2).0) [
                          | inl (v, good) ↦ ground (
                            arith,
                            persist_books env failed s1,
                            write_events_books env failed w none row.correlation_id row.causation_id
                                at s2,
                          )
                          | inr (e, bad) ↦ ground (
                            arith,
                            persist_books env failed s1,
                            write_events_books env failed w none row.correlation_id row.causation_id
                                at s2,
                          )
                        ]
                | inr (e, bad) ↦ ground (arith, persist_books env failed s1)
              ]
          | inr (e, bad) ↦ ground arith
        ]

  postpone_books :
      (id : Uuid) (attempts : ℕ) (r : AppResult) (s : World)
      → SameBooks s (postpone env id attempts r s).1
  unfolding ◌>>=◌ pure lift raise gets modify translate postpone statement server_now
  postpone_books id attempts r s = ground arith

  guarded_apply-IsSound :
      (w : WalletData) (d : WagerData) (row : WagerRow) (exhausted : Bool) (s : World)
      (result : AppResult)
      → IsSound s.db
      → find (has_id w.id) s.db.wallets ≡ some w
      → Fits w d.money
      → (guarded_apply env w d row exhausted s).0 ≡ ok result
      → IsSound (guarded_apply env w d row exhausted s).1.db
  unfolding ◌>>=◌ pure lift raise gets modify translate guarded_apply
  guarded_apply-IsSound w d row exhausted s result b stored fits h =
      elim (Result-cases (apply env w d row.correlation_id row.causation_id exhausted s).0) [
        | inl (r, applied) ↦
            let same : (guarded_apply env w d row exhausted s).1
                ≡ (apply env w d row.correlation_id row.causation_id exhausted s).1 =
              ground arith in
            carry-Sound (ap (λ x. x.db.wallets) same) (ap (λ x. x.db.ledger) same) (
              apply-IsSound env w d row.correlation_id row.causation_id exhausted s b stored fits r
                applied)
        | inr (e, refused) ↦
            let s1 : World =
              record (apply env w d row.correlation_id row.causation_id exhausted s).1 {
                db = s.db;
              } in
            let s2 = (statement env s1).1 in
            elim (Bool-cases (is_domain e)) [
              | inl invariant ↦ elim (Result-cases (statement env s1).0) [
                | inl (u, undone) ↦
                    let same : SameBooks s (guarded_apply env w d row exhausted s).1 =
                      ground (arith, statement_books env s1, recover_books w d row exhausted s2) in
                    carry-Sound (same.0) (same.1) b
                | inr (f, failed) ↦ absurd (ground arith)
              ]
              | inr other ↦ absurd (ground arith)
            ]
      ]

  statement_db : (s : World) → (statement env s).1.db ≡ s.db
  unfolding ◌>>=◌ pure lift raise gets modify translate statement
  statement_db s = ground arith

  scan-same :
      (r : WagerRow) (s : World) (d : WagerData)
      → (scan_wager env (some r) s).0 ≡ ok d
      → d ≡ r.wager
  unfolding ◌>>=◌ pure lift raise gets modify translate scan_wager statement rehydrate_wager
  scan-same r s d h = ground arith

  -- From the claimed row on.
  abbrev from_count : WalletData → WagerData → WagerRow → ℕ → ℕ → Tx AppResult
  from_count w d row max_attempts ttl = do
    statement env
    modify (after_row (λ r. record r { reference_attempts = r.reference_attempts + 1 }) d.id)
    attempt env w d row max_attempts ttl

  from_count-IsSound :
      (w : WalletData) (d : WagerData) (row : WagerRow) (max_attempts ttl : ℕ) (s : World)
      (result : AppResult)
      → IsSound s.db
      → find (has_id w.id) s.db.wallets ≡ some w
      → Fits w d.money
      → (from_count w d row max_attempts ttl s).0 ≡ ok result
      → IsSound (from_count w d row max_attempts ttl s).1.db
  unfolding ◌>>=◌ pure lift raise gets modify translate now attempt
  from_count-IsSound w d row max_attempts ttl s result b stored fits h =
      let s1 = (statement env s).1 in
      elim (Result-cases (statement env s).0) [
        | inl (u, added) ↦
            let s2 : World = record s1 {
              db =
                  after_row (λ r. record r { reference_attempts = r.reference_attempts + 1 }) d.id
                    s1.db;
            } in
            let s3 = (statement env s2).1 in
            elim (Result-cases (statement env s2).0) [
              | inl (v, saved) ↦
                  let since = env.clock s3.step in
                  let s4 : World = record s3 { step = s3.step + 1 } in
                  let attempts = row.reference_attempts + 1 in
                  let exhausted = leb max_attempts attempts || leb ttl (since - d.created_at) in
                  let s5 = (guarded_apply env w d row exhausted s4).1 in
                  elim (Result-cases (guarded_apply env w d row exhausted s4).0) [
                    | inl (r, applied) ↦
                        let s6 = (postpone env d.id attempts r s5).1 in
                        elim (Result-cases (postpone env d.id attempts r s5).0) [
                          | inl (x, postponed) ↦
                              let before : SameBooks s s4 =
                                ground (arith, statement_books env s, statement_books env s2) in
                              let after : SameBooks s5 (from_count w d row max_attempts ttl s).1 =
                                ground
                                  (arith, postpone_books d.id attempts r s5, commit_books env s6) in
                              carry-Sound (after.0) (after.1) (
                                guarded_apply-IsSound w d row exhausted s4 r
                                  (carry-Sound (before.0) (before.1) b) (rw (before.0) stored) fits
                                  applied)
                          | inr (e, failed) ↦ absurd (ground arith)
                        ]
                    | inr (e, failed) ↦ absurd (ground arith)
                  ]
              | inr (e, failed) ↦ absurd (ground arith)
            ]
        | inr (e, failed) ↦ absurd (ground arith)
      ]

  retry_body-IsSound :
      (claim : ReferenceClaim) (max_attempts ttl : ℕ) (s : World) (result : AppResult)
      → IsSound (env.others s.db)
      → AmountsFit (env.others s.db).wagers
      → (retry_body env claim max_attempts ttl s).0 ≡ ok result
      → IsSound (retry_body env claim max_attempts ttl s).1.db
  unfolding ◌>>=◌ pure lift raise gets modify translate retry_body wrap server_now
  retry_body-IsSound claim max_attempts ttl s result sound amounts h =
      elim (Bool-cases (ltb max_attempts 1 || leb ttl 0)) [
        | inl bad ↦ absurd (ground arith)
        | inr good ↦
            let s1 = (statement env s).1 in
            elim (Result-cases (statement env s).0) [
              | inl (u, begun) ↦
                  elim (Result-cases (lock_wallet env (id_string claim.wallet_id) s1).0) [
                    | inl (w, locked) ↦
                        let s2 = (lock_wallet env (id_string claim.wallet_id) s1).1 in
                        let (others_, stored) =
                          lock_wallet-ok env (id_string claim.wallet_id) s1 w locked in
                        let at = env.server_clock s2.step in
                        let s3 : World = record s2 { step = s2.step + 1 } in
                        elim (Option-cases (find (claimed_row env claim at) s3.db.wagers)) [
                          | inl missing ↦ absurd (ground arith)
                          | inr (row, claimed) ↦
                              let s4 = (scan_wager env (some row) s3).1 in
                              elim (Result-cases (scan_wager env (some row) s3).0) [
                                | inl (d, scanned) ↦
                                    let here_ : s3.db ≡ env.others s.db =
                                      ground (arith, others_, statement_db s) in
                                    let held : find (has_id w.id) s3.db.wallets ≡ some w =
                                      ground (arith, here_, stored, statement_db s) in
                                    let same : retry_body env claim max_attempts ttl s
                                        ≡ from_count w d row max_attempts ttl s4 =
                                      ground (arith, claimed, scanned) in
                                    let (kw, kl) = scan_books env (some row) s3 in
                                    let books : IsSound s4.db =
                                      carry-Sound (kw ∙ ap (λ x. x.wallets) here_)
                                        (kl ∙ ap (λ x. x.ledger) here_) sound in
                                    let (bf, vf) =
                                      sound.in_range w.id w (
                                        ap (λ x. find (has_id w.id) x.wallets) (sym here_)
                                        ∙ held) in
                                    let mf : IsInt64 d.money.minor =
                                      rw (scan-same row s3 d scanned) (
                                        find-AmountsFit (claimed_row env claim at)
                                          (env.others s.db).wagers row amounts
                                          (ap (λ x. find (claimed_row env claim at) x.wagers)
                                              (sym here_)
                                            ∙ claimed)) in
                                    carry-Sound (ap (λ x. x.1.db.wallets) same)
                                      (ap (λ x. x.1.db.ledger) same)
                                      (from_count-IsSound w d row max_attempts ttl s4 result books
                                        (rw kw held)
                                        (record {
                                          balance_fits = bf;
                                          version_fits = vf;
                                          money_fits = mf;
                                        })
                                        (sym (ap (λ x. x.0) same) ∙ h))
                                | inr (e, failed) ↦ absurd (ground arith)
                              ]
                        ]
                    | inr (e, failed) ↦ absurd (ground arith)
                  ]
              | inr (e, failed) ↦ absurd (ground arith)
            ]
      ]

-- Whatever claim `RetryReference` is given, and however it ends, the books are sound afterwards, if
-- they were before: each wallet's balance is the sum of its ledger entries, balances and versions
-- are int64, and only stored wallets have entries. The others are taken to leave sound books sound,
-- and amounts that are int64.
pub retry_reference-IsSound :
    (env : Env) (claim : ReferenceClaim) (max_attempts ttl : ℕ) (s : World)
    → OthersSound env
    → IsSound s.db
    → AmountsFit (env.others s.db).wagers
    → IsSound (retry_reference env claim max_attempts ttl s).1.db
unfolding retry_reference transact
retry_reference-IsSound env claim max_attempts ttl s o g amounts =
    elim (Result-cases (retry_body env claim max_attempts ttl s).0) [
      | inl (result, good) ↦
          let same : (retry_reference env claim max_attempts ttl s).1
              ≡ (retry_body env claim max_attempts ttl s).1 =
            ground arith in
          carry-Sound (ap (λ x. x.db.wallets) same) (ap (λ x. x.db.ledger) same)
            (retry_body-IsSound env claim max_attempts ttl s result (o s.db g) amounts good)
      | inr (e, failed) ↦
          let same : (retry_reference env claim max_attempts ttl s).1.db ≡ env.others s.db =
            ground arith in
          carry-Sound (ap (λ x. x.wallets) same) (ap (λ x. x.ledger) same) (o s.db g)
    ]

-- Whatever claim `RetryReference` is given, and however it ends, the balance of each wallet is the
-- sum of its ledger entries afterwards, if the books were sound before. The others are taken to leave
-- sound books sound, and amounts that are int64.
pub retry_reference-IsBalanced :
    (env : Env) (claim : ReferenceClaim) (max_attempts ttl : ℕ) (s : World)
    → OthersSound env
    → IsSound s.db
    → AmountsFit (env.others s.db).wagers
    → IsBalanced (retry_reference env claim max_attempts ttl s).1.db
retry_reference-IsBalanced env claim max_attempts ttl s o g amounts =
    (retry_reference-IsSound env claim max_attempts ttl s o g amounts).balanced
