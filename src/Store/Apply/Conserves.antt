-- ===== src/Store/Apply/Conserves.antt =====
-- The books balance: each wallet's stored balance is the total of its ledger entries, before and
-- after a transaction takes effect.
use jungle_wager_engine.Base.{
  true, false, ◌≡◌, refl, ◌∙◌, arith, some, List, [], ◌∷◌, inl, inr, Bool-cases, find,
}
use jungle_wager_engine.Domain.Errors.{Result-cases, ok}
use jungle_wager_engine.Domain.Id.{Uuid, eq_id, eq_id→eq, eq_id_refl}
use jungle_wager_engine.Domain.Money.{Money}
use jungle_wager_engine.Domain.Wallet.{Time, WalletData}
use jungle_wager_engine.Domain.Ledger.{Direction, LedgerData, new_ledger_entry}
use jungle_wager_engine.Domain.Ledger.Entries.{new_ledger_entry-same}
use jungle_wager_engine.Domain.Wager.{WagerData}
use jungle_wager_engine.Store.Tables.{Db, update_where, has_id, ledger_total, signed}
use jungle_wager_engine.Store.Monad.{Env, World, gets, lift, modify, pure, raise, ◌>>=◌, translate}
use jungle_wager_engine.Store.Rows.{statement, server_now, allocate_id}
use jungle_wager_engine.Store.Apply.{set_balance, entry_data, insert_ledger}

-- Every wallet's balance is its ledger's total.
abbrev pub Balanced : List WalletData → List LedgerData → Type 0
Balanced wallets ledger =
    (id : Uuid) (w : WalletData)
    → find (has_id id) wallets ≡ some w
    → w.balance.minor ≡ ledger_total id ledger

abbrev pub IsBalanced : Db → Type 0
IsBalanced db = Balanced db.wallets db.ledger

-- Equal tables balance alike.
pub carry-Balanced :
    {ws ws' : List WalletData} {ls ls' : List LedgerData}
    → ws' ≡ ws
    → ls' ≡ ls
    → Balanced ws ls
    → Balanced ws' ls'
carry-Balanced p q h id w f = h id w (rw p at f) ∙ rw q

pub find-has_id :
    (id : Uuid) (rows : List WalletData) {w : WalletData}
    → find (has_id id) rows ≡ some w
    → eq_id w.id id ≡ true
unfolding find
find-has_id id [] h = cc
find-has_id id (r ∷ rows) {w} h = ground (arith, find-has_id id rows {w = w})

module _ (w : WalletData) where
  pub find-update_self :
      (id : Uuid) (rows : List WalletData) {r : WalletData}
      → find (has_id id) rows ≡ some r
      → find (has_id id) (update_where (has_id id) (set_balance w) rows) ≡ some (set_balance w r)
  unfolding find update_where
  find-update_self id [] h = cc
  find-update_self id (x ∷ rows) {r} h = ground (arith, find-update_self id rows {r = r})

  pub find-update_ne :
      (j id : Uuid) (rows : List WalletData)
      → eq_id j id ≡ false
      → find (has_id j) (update_where (has_id id) (set_balance w) rows) ≡ find (has_id j) rows
  unfolding find update_where
  find-update_ne j id [] h = refl
  find-update_ne j id (x ∷ rows) h =
      ground (arith, find-update_ne j id rows h, eq_id→eq x.id j, eq_id→eq x.id id)

-- The database after a movement is balanced if the balance moved by the entry's signed amount.
pub movement-IsBalanced :
    (db : Db) (w w0 : WalletData) (e : LedgerData)
    → IsBalanced db
    → find (has_id w.id) db.wallets ≡ some w0
    → e.wallet_id ≡ w.id
    → w.balance.minor ≡ signed e.direction e.money.minor w0.balance.minor
    → Balanced (update_where (has_id w.id) (set_balance w) db.wallets) (e ∷ db.ledger)
unfolding ledger_total
movement-IsBalanced db w w0 e b f here_ moved j v fv = elim (Bool-cases (eq_id j w.id)) [
  | inl same ↦ ground (
    arith,
    eq_id→eq j w.id same,
    find-update_self w w.id db.wallets f,
    b w.id w0 f,
    eq_id_refl w.id,
  )
  | inr other ↦
      ground (arith, find-update_ne w j w.id db.wallets other, b j v, eq_id→eq w.id j, eq_id_refl j)
]

-- Two states with the same wallets and ledger.
abbrev pub SameBooks : World → World → Type 0
SameBooks s t = (t.db.wallets ≡ s.db.wallets) × (t.db.ledger ≡ s.db.ledger)

module _ (env : Env) where
  pub statement_books : (s : World) → SameBooks s (statement env s).1
  unfolding ◌>>=◌ pure lift raise gets modify translate statement
  statement_books s = ground arith

  pub allocate_books : (s : World) → SameBooks s (allocate_id env s).1
  unfolding ◌>>=◌ pure lift raise gets modify translate allocate_id statement
  allocate_books s = ground arith

  pub insert_ledger-ok :
      (d : WagerData) (dir : Direction) (before after : Money) (at : Time) (s : World)
      (e : LedgerData)
      → (insert_ledger env d dir before after at s).0 ≡ ok e
      → let s' = (insert_ledger env d dir before after at s).1 in
        (s'.db.wallets ≡ s.db.wallets)
        × (s'.db.ledger ≡ e ∷ s.db.ledger)
        × (e.wallet_id ≡ d.wallet_id)
        × (e.direction ≡ dir)
        × (e.money ≡ d.money)
        × (e.balance_before ≡ before)
        × (e.balance_after ≡ after)
  unfolding ◌>>=◌ pure lift raise gets modify translate insert_ledger statement server_now
  insert_ledger-ok d dir before after at s e h = elim (Result-cases (allocate_id env s).0) [
    | inl (id, drawn) ↦
        elim (Result-cases (new_ledger_entry (entry_data d dir before after at id))) [
          | inl (x, made) ↦ ground (
            arith,
            allocate_books s,
            new_ledger_entry-same (entry_data d dir before after at id) x made,
          )
          | inr (f, refused) ↦ ground arith
        ]
    | inr (f, refused) ↦ ground arith
  ]
