-- ===== src/Store/Page.antt =====
-- `Ledger` of internal/adapters/postgres/read.go: a wallet's entries by pages, newest first. A limit
-- below 1 is 0.
pub mod Order
pub mod Walk
pub mod Whole
use jungle_wager_engine.Base.{ℕ, ◌+◌, ◌&&◌, ◌||◌, none, [], Text, take, ltb, if◌then◌else◌}
use jungle_wager_engine.Domain.Errors.{app, invalid_input}
use jungle_wager_engine.Domain.Id.{eq_id, parse_id}
use jungle_wager_engine.Store.Monad.{Env, Tx, ◌>>=◌, ◌>>◌, lift, raise, gets}
use jungle_wager_engine.Store.Rows.{statement}
use jungle_wager_engine.Store.Create.{get_wallet}
use jungle_wager_engine.Store.Claim.{select}
use jungle_wager_engine.Store.Cursor.{Codec, LedgerPage, newer, is_after, place_of, fill}

-- `Ledger`
unfoldable pub ledger : Env → Codec → Text → Text → ℕ → Tx LedgerPage
ledger env codec id cursor limit = do
  uid ← lift (parse_id id)
  if ltb limit 1 || ltb 100 limit then raise (app invalid_input) else (do
    w ← get_wallet env id
    place ← lift (place_of codec id cursor)
    statement env
    rows ← gets (λ db.
        take (limit + 1) (select newer (λ e. eq_id e.wallet_id uid && is_after place e) db.ledger))
    lift (fill codec id limit [] none rows))
