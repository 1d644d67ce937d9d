-- ===== src/Domain/Ledger.antt =====
-- internal/domain/ledger.go: a ledger entry is made only if its equation balances.
pub mod Entries
use jungle_wager_engine.Base.{
  Bool, true, false, ◌||◌, not, Text, if◌then◌else◌, ℤ, pos, leb_ℤ, ltb_ℤ, eq_ℤ,
}
use jungle_wager_engine.Domain.Errors.{
  Result, ok, err, ◌>>=◌, ◌>>◌, refuse, invalid, invalid_ledger,
}
use jungle_wager_engine.Domain.Id.{Uuid, is_zero_id}
use jungle_wager_engine.Domain.Money.{Money, is_valid, add, subtract, compare_money}
use jungle_wager_engine.Domain.Wallet.{Time, is_zero_time}

-- `Direction` of internal/domain/wager.go, a string there; `other_direction` is any other text.
pub data Direction : Type 0 where
  debit_direction credit_direction no_direction : Direction
  other_direction : Text → Direction

pub record LedgerData : Type 0 where
  pub id : Uuid
  pub wallet_id : Uuid
  pub transaction_id : Uuid
  pub direction : Direction
  pub money : Money
  pub balance_before : Money
  pub balance_after : Money
  pub created_at : Time

unfoldable pub ledger_is_bad : LedgerData → Bool
ledger_is_bad d =
    is_zero_id d.id
    || is_zero_id d.wallet_id
    || is_zero_id d.transaction_id
    || is_zero_time d.created_at
    || not (is_valid d.money)
    || leb_ℤ d.money.minor (pos 0)
    || not (is_valid d.balance_before)
    || not (is_valid d.balance_after)
    || ltb_ℤ d.balance_before.minor (pos 0)
    || ltb_ℤ d.balance_after.minor (pos 0)

-- The balance that an entry must arrive at.
unfoldable pub expected_balance : Direction → Money → Money → Result Money
expected_balance debit_direction before money = subtract before money
expected_balance credit_direction before money = add before money
expected_balance _ _ _ = err (invalid invalid_ledger)

unfoldable pub new_ledger_entry : LedgerData → Result LedgerData
unfolding ledger_is_bad expected_balance
new_ledger_entry d = do
  refuse (ledger_is_bad d) (invalid invalid_ledger)
  expected ← expected_balance d.direction d.balance_before d.money
  comparison ← compare_money expected d.balance_after
  refuse (not (eq_ℤ comparison (pos 0))) (invalid invalid_ledger)
  ok d
