-- ===== src/Store/Process/Books.antt =====
-- `ProcessWager` as a whole: the books after it.
use jungle_wager_engine.Base.{
  ◌+◌, true, false, ◌≡◌, sym, ap, ◌∙◌, arith, some, none, Option, Option-cases, Bool-cases, find,
  inl, inr, IsInt64, eq_text,
}
use jungle_wager_engine.Domain.Errors.{Result-cases, ok}
use jungle_wager_engine.Domain.Id.{parse_id, id_string}
use jungle_wager_engine.Domain.Wallet.{WalletData}
use jungle_wager_engine.Domain.Wager.{WagerData, new_wager}
use jungle_wager_engine.Application.{Command, InboxMessage, AppResult, normalize_command}
use jungle_wager_engine.Store.Tables.{has_id}
use jungle_wager_engine.Store.Monad.{Env, World, gets, lift, modify, pure, raise, ◌>>=◌, translate}
use jungle_wager_engine.Store.Rows.{wrap, statement, now, lock_wallet, allocate_id}
use jungle_wager_engine.Store.Apply.{apply}
use jungle_wager_engine.Store.Apply.Conserves.{
  IsBalanced, SameBooks, statement_books, allocate_books,
}
use jungle_wager_engine.Store.Apply.Sound.{IsSound, OthersSound, carry-Sound}
use jungle_wager_engine.Store.Apply.Books.{apply-IsSound}
use jungle_wager_engine.Store.Process.{
  pending_wager, wager_row, find_identity, reserve_inbox, complete_inbox, insert_wager, process_new,
  process_identified, process_message, process_body, transact, process_wager,
}
use jungle_wager_engine.Store.Process.Upheld.{new_wager-money, normalize-money}
use jungle_wager_engine.Store.Process.Frames.{
  find_identity_books, reserve_inbox_books, complete_inbox_books, commit_books, commit_replay_books,
  replay_message_books, insert_wager_books, after_conflict_books, lock_wallet-ok,
}

module _ (env : Env) (sound_others : OthersSound env) (c : Command) (inbox : Option InboxMessage)
    (money_fits : IsInt64 c.money.minor) where
  -- The new transaction's own part: what it does once it has the wallet's lock.
  applied-IsSound :
      (w : WalletData) (wg : WagerData) (s t : World) (result : AppResult)
      → IsSound s.db
      → find (has_id w.id) s.db.wallets ≡ some w
      → SameBooks s t
      → wg.money ≡ c.money
      → (apply env w wg c.correlation_id c.causation_id false t).0 ≡ ok result
      → IsSound (apply env w wg c.correlation_id c.causation_id false t).1.db
  applied-IsSound w wg s t result g stored (pw, pl) m h =
      let (bf, vf) = g.in_range w.id w stored in
      apply-IsSound env w wg c.correlation_id c.causation_id false t (carry-Sound pw pl g)
        (rw pw stored)
        (record { balance_fits = bf; version_fits = vf; money_fits = rw m money_fits }) result h

  process_new-IsSound :
      (s : World) (result : AppResult)
      → IsSound s.db
      → (process_new env c inbox s).0 ≡ ok result
      → IsSound (process_new env c inbox s).1.db
  unfolding ◌>>=◌ pure lift raise gets modify translate process_new wrap now
  process_new-IsSound s result g h = elim (Result-cases (lock_wallet env c.wallet_id s).0) [
    | inl (w, locked) ↦
        let s1 = (lock_wallet env c.wallet_id s).1 in
        let (others_, stored) = lock_wallet-ok env c.wallet_id s w locked in
        let g1 : IsSound s1.db = rw others_ (sound_others s.db g) in
        elim (Bool-cases (eq_text (id_string w.player_id) c.player_id)) [
          | inl owns ↦
              let s2 = (allocate_id env s1).1 in
              elim (Result-cases (allocate_id env s1).0) [
                | inl (id, drawn) ↦ elim (Result-cases (parse_id c.player_id)) [
                  | inl (player, parsed) ↦
                      let at = env.clock s2.step in
                      let s3 : World = record s2 { step = s2.step + 1 } in
                      elim (Result-cases (new_wager (pending_wager env c w id player at))) [
                        | inl (wg, made) ↦
                            let s4 = (insert_wager env (wager_row c wg) s3).1 in
                            elim (Result-cases (insert_wager env (wager_row c wg) s3).0) [
                              | inl (true, inserted) ↦
                                  let s5 =
                                    (apply env w wg c.correlation_id c.causation_id false s4).1 in
                                  elim (Result-cases
                                    (apply env w wg c.correlation_id c.causation_id false s4).0) [
                                      | inl (r, applied) ↦
                                          let s6 = (complete_inbox env inbox wg.id s5).1 in
                                          elim (Result-cases
                                            (complete_inbox env inbox wg.id s5).0) [
                                              | inl (u, completed) ↦
                                                  let after : SameBooks s5
                                                      (process_new env c inbox s).1 =
                                                    ground (
                                                      arith,
                                                      complete_inbox_books env inbox wg.id s5,
                                                      commit_books env s6,
                                                    ) in
                                                  let before : SameBooks s1 s4 = ground (
                                                    arith,
                                                    allocate_books env s1,
                                                    insert_wager_books env (wager_row c wg) s3,
                                                  ) in
                                                  carry-Sound (after.0) (after.1) (
                                                    applied-IsSound w wg s1 s4 r g1
                                                      (rw others_ stored) before
                                                      (new_wager-money
                                                        (pending_wager env c w id player at) wg
                                                        made)
                                                      applied)
                                              | inr (e, failed) ↦ absurd (ground arith)
                                            ]
                                      | inr (e, failed) ↦ absurd (ground arith)
                                    ]
                              | inl (false, conflict) ↦
                                  let same : SameBooks s1 (process_new env c inbox s).1 = ground (
                                    arith,
                                    allocate_books env s1,
                                    insert_wager_books env (wager_row c wg) s3,
                                    after_conflict_books env c inbox s4,
                                  ) in
                                  carry-Sound (same.0) (same.1) g1
                              | inr (e, failed) ↦ absurd (ground arith)
                            ]
                        | inr (e, failed) ↦ absurd (ground arith)
                      ]
                  | inr (e, failed) ↦ absurd (ground arith)
                ]
                | inr (e, failed) ↦ absurd (ground arith)
              ]
          | inr foreign ↦ absurd (ground arith)
        ]
    | inr (e, failed) ↦ absurd (ground arith)
  ]

  process_identified-IsSound :
      (s : World) (result : AppResult)
      → IsSound s.db
      → (process_identified env c inbox s).0 ≡ ok result
      → IsSound (process_identified env c inbox s).1.db
  unfolding ◌>>=◌ pure lift raise gets modify translate process_identified
  process_identified-IsSound s result g h =
      let s1 = (find_identity env c s).1 in
      elim (Result-cases (find_identity env c s).0) [
        | inl (identity, read) ↦ elim (Option-cases identity) [
          | inl fresh ↦
              let same : process_identified env c inbox s ≡ process_new env c inbox s1 =
                ground arith in
              carry-Sound (ap (λ x. x.1.db.wallets) same) (ap (λ x. x.1.db.ledger) same) (
                process_new-IsSound s1 result
                  (let (pw, pl) = find_identity_books env c s in carry-Sound pw pl g)
                  (sym (ap (λ x. x.0) same) ∙ h))
          | inr (d, seen) ↦
              let same : SameBooks s (process_identified env c inbox s).1 =
                ground (arith, find_identity_books env c s, commit_replay_books env inbox d s1) in
              carry-Sound (same.0) (same.1) g
        ]
        | inr (e, failed) ↦ absurd (ground arith)
      ]

process_message-IsSound :
    (env : Env) (c : Command) (inbox : Option InboxMessage) (s : World) (result : AppResult)
    → OthersSound env
    → IsInt64 c.money.minor
    → IsSound s.db
    → (process_message env c inbox s).0 ≡ ok result
    → IsSound (process_message env c inbox s).1.db
unfolding ◌>>=◌ pure lift raise gets modify translate process_message
process_message-IsSound env c none s result o m g h =
    process_identified-IsSound env o c none m s result g h
process_message-IsSound env c (some message) s result o m g h =
    let s1 = (reserve_inbox env message s).1 in
    elim (Result-cases (reserve_inbox env message s).0) [
      | inl (existing, reserved) ↦ elim (Option-cases existing) [
        | inl fresh ↦
            let same : process_message env c (some message) s
                ≡ process_identified env c (some message) s1 =
              ground arith in
            carry-Sound (ap (λ x. x.1.db.wallets) same) (ap (λ x. x.1.db.ledger) same) (
              process_identified-IsSound env o c (some message) m s1 result
                (let (pw, pl) = reserve_inbox_books env message s in carry-Sound pw pl g)
                (sym (ap (λ x. x.0) same) ∙ h))
        | inr (id, seen) ↦
            let same : SameBooks s (process_message env c (some message) s).1 =
              ground (arith, reserve_inbox_books env message s, replay_message_books env c id s1) in
            carry-Sound (same.0) (same.1) g
      ]
      | inr (e, failed) ↦ absurd (ground arith)
    ]

process_body-IsSound :
    (env : Env) (c : Command) (inbox : Option InboxMessage) (s : World) (result : AppResult)
    → OthersSound env
    → IsInt64 c.money.minor
    → IsSound s.db
    → (process_body env c inbox s).0 ≡ ok result
    → IsSound (process_body env c inbox s).1.db
unfolding ◌>>=◌ pure lift raise gets modify translate process_body
process_body-IsSound env c inbox s result o m g h =
    let s1 = (statement env s).1 in
    elim (Result-cases (normalize_command c)) [
      | inl (n, normal) ↦ elim (Result-cases (statement env s).0) [
        | inl (u, begun) ↦
            let same : process_body env c inbox s ≡ process_message env n inbox s1 = ground arith in
            carry-Sound (ap (λ x. x.1.db.wallets) same) (ap (λ x. x.1.db.ledger) same) (
              process_message-IsSound env n inbox s1 result o (rw (normalize-money c n normal) m)
                (let (pw, pl) = statement_books env s in carry-Sound pw pl g)
                (sym (ap (λ x. x.0) same) ∙ h))
        | inr (e, failed) ↦ absurd (ground arith)
      ]
      | inr (e, failed) ↦ absurd (ground arith)
    ]

-- Whatever command `ProcessWager` is given, with or without a message, and however it ends, the
-- books are sound afterwards, if they were before: each wallet's balance is the sum of its ledger
-- entries, balances and versions are int64, and only stored wallets have entries. The others are
-- taken to leave sound books sound, and the command's amount to be an int64.
pub process_wager-IsSound :
    (env : Env) (c : Command) (inbox : Option InboxMessage) (s : World)
    → OthersSound env
    → IsInt64 c.money.minor
    → IsSound s.db
    → IsSound (process_wager env c inbox s).1.db
unfolding process_wager transact
process_wager-IsSound env c inbox s o m g = elim (Result-cases (process_body env c inbox s).0) [
  | inl (result, good) ↦
      let same : (process_wager env c inbox s).1 ≡ (process_body env c inbox s).1 = ground arith in
      carry-Sound (ap (λ x. x.db.wallets) same) (ap (λ x. x.db.ledger) same)
        (process_body-IsSound env c inbox s result o m g good)
  | inr (e, failed) ↦
      let same : (process_wager env c inbox s).1.db ≡ env.others s.db = ground arith in
      carry-Sound (ap (λ x. x.wallets) same) (ap (λ x. x.ledger) same) (o s.db g)
]

-- Whatever command `ProcessWager` is given, with or without a message, and however it ends, the
-- balance of each wallet is the sum of its ledger entries afterwards, if the books were sound before.
-- The others are taken to leave sound books sound, and the command's amount to be an int64.
pub process_wager-IsBalanced :
    (env : Env) (c : Command) (inbox : Option InboxMessage) (s : World)
    → OthersSound env
    → IsInt64 c.money.minor
    → IsSound s.db
    → IsBalanced (process_wager env c inbox s).1.db
process_wager-IsBalanced env c inbox s o m g = (process_wager-IsSound env c inbox s o m g).balanced
