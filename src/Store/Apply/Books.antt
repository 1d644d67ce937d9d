-- ===== src/Store/Apply/Books.antt =====
-- `apply` as a whole: the books after it.
use jungle_wager_engine.Base.{Bool, ◌+◌, ◌≡◌, ap, ◌∙◌, arith, some, inl, inr, Option, find, Text}
use jungle_wager_engine.Domain.Errors.{Result-cases, ok}
use jungle_wager_engine.Domain.Wallet.{Time, WalletData}
use jungle_wager_engine.Domain.Wallet.Moves.{Fits}
use jungle_wager_engine.Domain.Wager.{WagerData, is_pending_reference}
use jungle_wager_engine.Store.Tables.{has_id}
use jungle_wager_engine.Store.Monad.{Env, World, gets, lift, modify, pure, raise, ◌>>=◌, translate}
use jungle_wager_engine.Domain.Evaluate.{Decision, evaluate}
use jungle_wager_engine.Store.Apply.{
  Outcome, carry_out, find_reference, is_reversed, conclude, apply, expire,
}
use jungle_wager_engine.Store.Apply.Sound.{IsSound, carry-Sound, carry_out-IsSound}
use jungle_wager_engine.Store.Apply.Frames.{find_reference_books, is_reversed_books, conclude_books}
use jungle_wager_engine.Store.Rows.{now}
use jungle_wager_engine.Domain.Evaluate.Decisions.{evaluate_accepts}
use jungle_wager_engine.Application.{AppResult}
use jungle_wager_engine.Domain.Id.{eq_id→eq}
use jungle_wager_engine.Store.Apply.Conserves.{SameBooks}

module _ (env : Env) (w : WalletData) (wg : WagerData) (c k : Text) (expired : Bool) (s : World)
    (sound : IsSound s.db) (stored : find (has_id w.id) s.db.wallets ≡ some w)
    (fits : Fits w wg.money) where
  apply-lem :
      (result : AppResult)
      → (apply env w wg c k expired s).0 ≡ ok result
      → (reference : Option WagerData) × (reversed : Bool) × (decision : Decision) × (t : World)
        × (at : Time) × (o : Outcome) × SameBooks s t
        × (evaluate w wg reference reversed ≡ ok decision)
        × ((carry_out env w wg reference (expire expired decision) at t).0 ≡ ok o)
        × ((conclude env
              (is_pending_reference wg.status)
              c
              k
              at
              o
              (carry_out env w wg reference (expire expired decision) at t).1).0
            ≡ ok result)
        × ((apply env w wg c k expired s).1
            ≡ (conclude env
                (is_pending_reference wg.status)
                c
                k
                at
                o
                (carry_out env w wg reference (expire expired decision) at t).1).1)
  unfolding ◌>>=◌ pure lift raise gets modify translate apply now
  apply-lem result h =
      let s1 = (find_reference env w wg s).1 in
      elim (Result-cases (find_reference env w wg s).0) [
        | inl (reference, read) ↦
            let s2 = (is_reversed env reference s1).1 in
            elim (Result-cases (is_reversed env reference s1).0) [
              | inl (reversed, asked) ↦ elim (Result-cases (evaluate w wg reference reversed)) [
                | inl (decision, evaluated) ↦
                    let at = env.clock s2.step in
                    let t : World = record s2 { step = s2.step + 1 } in
                    elim (Result-cases
                      (carry_out env w wg reference (expire expired decision) at t).0) [
                        | inl (o, done) ↦ (
                          reference,
                          reversed,
                          decision,
                          t,
                          at,
                          o,
                          (ground (
                            arith,
                            find_reference_books env w wg s,
                            is_reversed_books env reference s1,
                          )),
                          evaluated,
                          done,
                          ground arith,
                          ground arith,
                        )
                        | inr (e, refused) ↦ absurd (ground arith)
                      ]
                | inr (e, refused) ↦ absurd (ground arith)
              ]
              | inr (e, refused) ↦ absurd (ground arith)
            ]
        | inr (e, refused) ↦ absurd (ground arith)
      ]

  pub apply-IsSound :
      (result : AppResult)
      → (apply env w wg c k expired s).0 ≡ ok result
      → IsSound (apply env w wg c k expired s).1.db
  apply-IsSound result h =
      let (reference, reversed, decision, t, at, o, (bw, bl), evaluated, done, _, same) =
        apply-lem result h in
      let (accepted, _) = evaluate_accepts w wg reference reversed evaluated in
      let u = (carry_out env w wg reference (expire expired decision) at t).1 in
      let (cw, cl) = conclude_books env (is_pending_reference wg.status) c k at o u in
      carry-Sound (ap (λ x. x.db.wallets) same ∙ cw) (ap (λ x. x.db.ledger) same ∙ cl) (
        carry_out-IsSound env w wg reference at t (carry-Sound bw bl sound) (rw bw stored)
          (eq_id→eq wg.wallet_id w.id accepted.same_wallet) fits (expire expired decision) o done)
