-- ===== src/Store/Lasting.antt =====
-- What a property of the table of transactions has to offer so that every operation of the store
-- keeps it.
pub mod Unique
pub mod Settled
pub mod Amounts
use jungle_wager_engine.Base.{Bool, true, false, ◌≡◌, List, ◌∷◌, any, find, some}
use jungle_wager_engine.Domain.Id.{Uuid}
use jungle_wager_engine.Domain.Money.{Money}
use jungle_wager_engine.Domain.Wager.{is_pending_reference}
use jungle_wager_engine.Domain.Wager.Steps.{SameIdentity}
use jungle_wager_engine.Store.Tables.{Db, WagerRow, update_where, is_wager, conflicts}

abbrev pub OfWagers : (List WagerRow → Type 0) → Db → Type 0
OfWagers T db = T db.wagers

-- A change of a row that keeps what identifies the transaction.
abbrev pub KeepsIdentity : (WagerRow → WagerRow) → Type 0
KeepsIdentity f = (r : WagerRow) → SameIdentity r.wager (f r).wager

-- A transaction's row can change, under its identity.
pub record Survives (T : List WagerRow → Type 0) (id : Uuid) : Type 0 where
  pub at :
      (f : WagerRow → WagerRow) (rows : List WagerRow)
      → KeepsIdentity f
      → T rows
      → T (update_where (is_wager id) f rows)

-- `Paid` is what is known of the amount of a new transaction.
pub record Lasting (others : Db → Db) (Paid : Money → Type 0) (T : List WagerRow → Type 0)
    : Type 0 where
  -- Others commit what keeps it.
  pub by_others : (db : Db) → T db.wagers → T (others db).wagers
  -- A new row that no stored one conflicts with can be added, and change later.
  pub grows :
      (row : WagerRow) (rows : List WagerRow)
      → Paid row.wager.money
      → any (conflicts row.wager) rows ≡ false
      → T rows
      → T (row ∷ rows) × Survives T row.wager.id
  -- Rows that wait for their reference can change.
  pub waits :
      (p : WagerRow → Bool) (f : WagerRow → WagerRow) (rows : List WagerRow)
      → KeepsIdentity f
      → ((r : WagerRow) → p r ≡ true → is_pending_reference r.wager.status ≡ true)
      → T rows
      → T (update_where p f rows)
  pub pending_survives :
      (p : WagerRow → Bool) (rows : List WagerRow) (r : WagerRow)
      → find p rows ≡ some r
      → is_pending_reference r.wager.status ≡ true
      → T rows
      → Survives T r.wager.id
