-- ===== src/Store/Monad.antt =====
-- A transaction's statements: the tables, a counter that times and identities are drawn by, and
-- failure. What was written before a failure is still there, so that a savepoint or the end of the
-- transaction undoes it explicitly.
pub mod Upholds
pub mod Ends
use jungle_wager_engine.Base.{ℕ, ◌+◌, Bool, Text}
use jungle_wager_engine.Domain.Errors.{Result, ok, err, Error}
use jungle_wager_engine.Domain.Id.{Uuid}
use jungle_wager_engine.Domain.Wallet.{Time}
use jungle_wager_engine.Application.{Command}
use jungle_wager_engine.Store.Tables.{Db}

-- What the store does not implement: the clock of the process and of the server, by the number of
-- the call, `uuidv7()`, the statements that fail for a reason of the driver's, what other
-- transactions commit while this one waits for a lock, and `PayloadHash`.
pub record Env : Type 0 where
  pub clock : ℕ → Time
  pub server_clock : ℕ → Time
  pub new_id : ℕ → Uuid
  pub fails : ℕ → Bool
  pub others : Db → Db
  pub payload_hash : Command → Text

pub record World : Type 0 where
  pub db : Db
  pub step : ℕ

abbrev pub Tx {ℓ} : Type ℓ → Type ℓ
Tx A = World → Result A × World

infixl 5 ◌>>=◌ ◌>>◌
unfoldable pub ◌>>=◌ {ℓ κ} : {A : Type ℓ} {B : Type κ} → Tx A → (A → Tx B) → Tx B
◌>>=◌ m f s = let (r, s') = m s in elim r [ ok a ↦ f a s' | err e ↦ (err e, s') ]

abbrev pub ◌>>◌ {ℓ} : {B : Type ℓ} → Tx (Unit {0}) → Tx B → Tx B
m >> k = m >>= λ _. k

module _ {ℓ} {A : Type ℓ} where
  unfoldable pub pure : A → Tx A
  pure a s = (ok a, s)

  unfoldable pub lift : Result A → Tx A
  lift r s = (r, s)

  unfoldable pub raise : Error → Tx A
  raise e s = (err e, s)

  unfoldable pub gets : (Db → A) → Tx A
  gets f s = (ok (f s.db), s)

unfoldable pub modify : (Db → Db) → Tx (Unit {0})
modify f s = (ok tt, record s { db = f s.db })

-- An error of the driver's, read as the caller means it.
unfoldable pub translate {ℓ κ} : {A : Type ℓ} {B : Type κ} → (Result A → Result B) → Tx A → Tx B
translate f m s = let (r, s') = m s in (f r, s')

-- The next number of the counter.
abbrev pub tick : Tx ℕ
tick s = (ok s.step, record s { step = s.step + 1 })

-- A chain that ends well went well at its first step.
