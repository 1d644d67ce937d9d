-- ===== src/Domain/Evaluate/Effects.antt =====
-- What a decision of `Evaluate` that neither waits nor rejects can be relied on for.
use jungle_wager_engine.Base.{
  ◌≤◌, ◌<◌, Bool, true, false, ◌≡◌, Option, some, is_empty, ◌+ℤ◌, ◌-ℤ◌, ◌<ℤ◌, IsInt64, max_int64,
}
use jungle_wager_engine.Domain.Errors.{ok}
use jungle_wager_engine.Domain.Wallet.{Time, WalletData, credit, debit}
use jungle_wager_engine.Domain.Wallet.Moves.{moved_to}
use jungle_wager_engine.Domain.Ledger.{debit_direction, credit_direction}
use jungle_wager_engine.Domain.Wager.{WagerData, is_reversal}
use jungle_wager_engine.Domain.Evaluate.{Decision, evaluate}
use jungle_wager_engine.Domain.Evaluate.Decisions.{GoesAhead, evaluate-GoesAhead}
use jungle_wager_engine.Domain.Evaluate.Safety.{
  IsReversible, Suits, reversal-IsReversible, direction-Suits, goes_ahead-debit, goes_ahead-credit,
}

module _ (wallet : WalletData) (w : WagerData) (reference : Option WagerData) (reversed : Bool)
    (decision : Decision) (decided : evaluate wallet w reference reversed ≡ ok decision)
    (goes : decision.waits ≡ false) (accepts : is_empty decision.failure_code ≡ true) where
  ahead : GoesAhead wallet w reference reversed decision.direction
  ahead = (evaluate-GoesAhead wallet w reference reversed decided goes accepts).1

  -- If `Evaluate` lets a refund or a rollback go ahead, then there is a reference, and it is
  -- another transaction of the same provider, wallet, currency and amount, settled, not reversed
  -- before, and of a kind that may be undone: a bet for a refund, a bet, a win or a refund for a
  -- rollback.
  pub evaluate-IsReversible :
      is_reversal w.kind ≡ true → (r : WagerData) × (reference ≡ some r) × IsReversible w r reversed
  evaluate-IsReversible = reversal-IsReversible wallet w reference reversed decision.direction ahead

  -- If `Evaluate` lets a transaction go ahead, its direction suits its kind: a bet debits, a win or
  -- a refund credits, a loss moves nothing, and a rollback moves against its reference.
  pub evaluate-Suits : Suits w.kind reference decision.direction
  evaluate-Suits = direction-Suits wallet w reference reversed decision.direction ahead

  -- If `Evaluate` decides to debit, the debit succeeds and takes exactly the amount off, at any
  -- time from the wallet's last change on, below the last version number, and for an int64
  -- balance and amount.
  pub evaluate-debit :
      (now : Time)
      → 0 < now
      → wallet.updated_at ≤ now
      → wallet.version <ℤ max_int64
      → IsInt64 wallet.balance.minor
      → IsInt64 w.money.minor
      → decision.direction ≡ debit_direction
      → debit wallet w.money now
        ≡ ok (moved_to wallet w.money now (wallet.balance.minor -ℤ w.money.minor))
  evaluate-debit = goes_ahead-debit wallet w reference reversed decision.direction ahead

  -- If `Evaluate` decides to credit, the credit succeeds and adds exactly the amount, with no
  -- overflow, at any time from the wallet's last change on, below the last version number, and
  -- for an int64 balance and amount.
  pub evaluate-credit :
      (now : Time)
      → 0 < now
      → wallet.updated_at ≤ now
      → wallet.version <ℤ max_int64
      → IsInt64 wallet.balance.minor
      → IsInt64 w.money.minor
      → decision.direction ≡ credit_direction
      → credit wallet w.money now
        ≡ ok (moved_to wallet w.money now (wallet.balance.minor +ℤ w.money.minor))
  evaluate-credit = goes_ahead-credit wallet w reference reversed decision.direction ahead
