-- ===== src/Store/Create/Reconcile.antt =====
-- What `Reconcile` reports of a wallet's balance and its ledger.
use jungle_wager_engine.Base.{
  ◌≡◌, ap, ◌∙◌, arith, some, Option-cases, Bool-cases, find, Text, inl, inr, IsInt64, int_laws, ℤ,
  pos, ◌-ℤ◌, max_int64, min_int64, leb_ℤ, eq_ℤ, ◌&&◌,
}
use jungle_wager_engine.Domain.Errors.{Result-cases, ok}
use jungle_wager_engine.Domain.Id.{eq_id→eq, parse_id}
use jungle_wager_engine.Domain.Money.{Money, new_money, subtract}
use jungle_wager_engine.Domain.Money.Exact.{subtract-exact}
use jungle_wager_engine.Domain.Wallet.{WalletData}
use jungle_wager_engine.Store.Tables.{has_id, ledger_total, ledger_count}
use jungle_wager_engine.Store.Monad.{Env, World, gets, lift, modify, pure, raise, ◌>>=◌, translate}
use jungle_wager_engine.Store.Rows.{statement, wrap}
use jungle_wager_engine.Store.Apply.Conserves.{find-has_id}
use jungle_wager_engine.Store.Apply.Sound.{InRange}
use jungle_wager_engine.Store.Create.{Reconciliation, reconcile}

new_money-minor : (z : ℤ) (t : Text) (m : Money) → new_money z t ≡ ok m → m.minor ≡ z
unfolding new_money
new_money-minor z t m h = ground arith

subtract-minor :
    (m n d : Money)
    → IsInt64 m.minor
    → IsInt64 n.minor
    → subtract m n ≡ ok d
    → d.minor ≡ m.minor -ℤ n.minor
subtract-minor m n d a b h = ground (arith, subtract-exact m n a b)

module _ (env : Env) (id : Text) (s : World) (r : Reconciliation) where
  reconcile-found :
      (reconcile env id s).0 ≡ ok r
      → (w : WalletData) × (find (has_id w.id) s.db.wallets ≡ some w)
        × (r.wallet_id ≡ w.id)
        × IsInt64 (ledger_total w.id s.db.ledger)
        × (subtract r.stored_balance r.calculated_balance ≡ ok r.difference)
        × (r.stored_balance.minor ≡ w.balance.minor)
        × (r.calculated_balance.minor ≡ ledger_total w.id s.db.ledger)
        × (r.consistent ≡ eq_ℤ r.difference.minor (pos 0))
        × (r.checked_entries ≡ ledger_count w.id s.db.ledger)
  unfolding ◌>>=◌ pure lift raise gets modify translate reconcile wrap statement
  reconcile-found h = elim (Result-cases (parse_id id)) [
    | inl (uid, parsed) ↦ elim (Option-cases (find (has_id uid) s.db.wallets)) [
      | inl missing ↦ absurd (ground arith)
      | inr (w, there_) ↦
          let here_ : w.id ≡ uid =
            eq_id→eq w.id uid (find-has_id uid s.db.wallets {w = w} there_) in
          let total = ledger_total uid s.db.ledger in
          elim (Bool-cases (leb_ℤ min_int64 total && leb_ℤ total max_int64)) [
            | inl fits ↦ elim (Result-cases (new_money w.balance.minor w.balance.currency)) [
              | inl (stored, a) ↦ elim (Result-cases (new_money total w.balance.currency)) [
                | inl (calculated, b) ↦ elim (Result-cases (subtract stored calculated)) [
                  | inl (difference, c) ↦ (
                    w,
                    ap (λ i. find (has_id i) s.db.wallets) here_ ∙ there_,
                    ground arith,
                    grind (int_laws, here_),
                    ground arith,
                    ground (arith, new_money-minor w.balance.minor w.balance.currency stored a),
                    ground (arith, here_, new_money-minor total w.balance.currency calculated b),
                    ground arith,
                    ground (arith, here_),
                  )
                  | inr (e, failed) ↦ absurd (ground arith)
                ]
                | inr (e, failed) ↦ absurd (ground arith)
              ]
              | inr (e, failed) ↦ absurd (ground arith)
            ]
            | inr outside ↦ absurd (ground arith)
          ]
    ]
    | inr (e, failed) ↦ absurd (ground arith)
  ]

-- A reconciliation that succeeds reports of the wallet with its id: its stored balance, the total
-- and the number of its ledger entries, the exact difference of the two amounts, and consistency if
-- and only if they are equal. The stored balance is taken to be an int64.
pub reconcile-reports :
    (env : Env) (id : Text) (s : World) (r : Reconciliation)
    → InRange s.db.wallets
    → (reconcile env id s).0 ≡ ok r
    → (w : WalletData) × (find (has_id w.id) s.db.wallets ≡ some w)
      × (r.wallet_id ≡ w.id)
      × (r.stored_balance.minor ≡ w.balance.minor)
      × (r.calculated_balance.minor ≡ ledger_total w.id s.db.ledger)
      × (r.difference.minor ≡ w.balance.minor -ℤ ledger_total w.id s.db.ledger)
      × (r.consistent ≡ eq_ℤ w.balance.minor (ledger_total w.id s.db.ledger))
      × (r.checked_entries ≡ ledger_count w.id s.db.ledger)
reconcile-reports env id s r g h =
    let (w, there_, wid, fits, sub, stored, calculated, verdict_, count) =
      reconcile-found env id s r h in
    let (bf, _) = g w.id w there_ in
    let d =
      subtract-minor r.stored_balance r.calculated_balance r.difference (rw stored bf)
        (rw calculated fits) sub in
    (
      w,
      there_,
      wid,
      stored,
      calculated,
      grind (int_laws, d, stored, calculated),
      grind (int_laws, d, stored, calculated, verdict_),
      count,
    )
