-- ===== src/Domain/Evaluate.antt =====
-- `Evaluate` of internal/domain/wager.go: the financial effect of a transaction on a wallet.
pub mod Decisions
pub mod Safety
pub mod Effects
use jungle_wager_engine.Base.{
  Bool, true, false, ◌&&◌, ◌||◌, not, Option, none, some, Text, codes, is_empty, eq_text,
  if◌then◌else◌, ℤ, ltb_ℤ, eq_ℤ,
}
use jungle_wager_engine.Domain.Errors.{
  Code, Result, ok, err, panic, ◌>>=◌, ◌>>◌, refuse, invalid, invalid_wager, invalid_state,
  code_text, currency_mismatch, invalid_amount_for_kind, reference_mismatch,
  reference_not_processed, reference_already_reversed, insufficient_funds,
  insufficient_funds_for_reversal, overflow,
}
use jungle_wager_engine.Domain.Id.{Uuid, eq_id}
use jungle_wager_engine.Domain.Money.{Money, add}
use jungle_wager_engine.Domain.Wallet.{WalletData, validate_wallet}
use jungle_wager_engine.Domain.Ledger.{Direction, debit_direction, credit_direction, no_direction}
use jungle_wager_engine.Domain.Wager.{
  Kind, opening, bet, win, loss, refund, rollback, other_kind, Status, pending, pending_reference,
  processed, WagerData, is_terminal, is_opening, is_bet, is_reversal, is_processed, amount_is_bad,
  validate_wager,
}

pub record Decision : Type 0 where
  pub direction : Direction
  pub waits : Bool  -- `Pending`
  pub failure_code : Text

-- The closure `reject`: a business rejection is data.
abbrev pub rejection : Code → Decision
rejection c = record { direction = no_direction; waits = false; failure_code = code_text c }

abbrev pub waiting : Decision
waiting = record { direction = no_direction; waits = true; failure_code = codes "" }

abbrev pub effect : Direction → Decision
effect direction = record { direction = direction; waits = false; failure_code = codes "" }

-- The reference is another transaction of the same provider, player, wallet, currency and round,
-- and the one that is named.
unfoldable pub reference_differs : WagerData → WagerData → Bool
reference_differs r w =
    eq_id r.id w.id
    || not (eq_text r.provider_id w.provider_id)
    || not (eq_id r.player_id w.player_id)
    || not (eq_id r.wallet_id w.wallet_id)
    || not (eq_text r.money.currency w.money.currency)
    || not (eq_text r.round_id w.round_id)
    || not (eq_text r.external_transaction_id w.reference_external_transaction_id)

-- The kinds that a transaction of the first kind may not refer to.
unfoldable pub kind_mismatch : Kind → Kind → Bool
kind_mismatch refund bet = false
kind_mismatch refund _ = true
kind_mismatch win bet = false
kind_mismatch win _ = true
kind_mismatch rollback bet = false
kind_mismatch rollback win = false
kind_mismatch rollback refund = false
kind_mismatch rollback _ = true
kind_mismatch _ _ = false

abbrev is_open : Status → Bool
is_open pending = true
is_open pending_reference = true
is_open _ = false

-- The checks on a reference that was found; `none` means that they pass.
unfoldable pub check_reference : WagerData → WagerData → Bool → Option Decision
check_reference w r already_reversed =
    if reference_differs r w
    then some (rejection reference_mismatch)
    else if kind_mismatch w.kind r.kind
    then some (rejection reference_mismatch)
    else if is_reversal w.kind && not (eq_ℤ r.money.minor w.money.minor)
    then some (rejection reference_mismatch)
    else if is_open r.status
    then some waiting
    else if not (is_processed r.status)
    then some (rejection reference_not_processed)
    else if is_reversal w.kind && already_reversed
    then some (rejection reference_already_reversed)
    else none

unfoldable pub check_optional : WagerData → Option WagerData → Bool → Option Decision
check_optional w reference already_reversed =
    if is_empty w.reference_external_transaction_id
    then none
    else elim reference [ none ↦ some waiting | some r ↦ check_reference w r already_reversed ]

-- A rollback with no reference is a nil dereference.
unfoldable pub direction_of : Kind → Option WagerData → Result Direction
direction_of bet _ = ok debit_direction
direction_of win _ = ok credit_direction
direction_of refund _ = ok credit_direction
direction_of rollback none = err panic
direction_of rollback (some r) = ok (if is_bet r.kind then credit_direction else debit_direction)
direction_of _ _ = ok no_direction

abbrev credit_result : Result Money → Decision
credit_result (ok _) = effect credit_direction
credit_result (err _) = rejection overflow

-- The last checks, on the wallet's balance.
unfoldable pub check_funds : Money → WagerData → Direction → Decision
check_funds balance w debit_direction =
    if ltb_ℤ balance.minor w.money.minor
    then rejection
        (if is_reversal w.kind then insufficient_funds_for_reversal else insufficient_funds)
    else effect debit_direction
check_funds balance w credit_direction = credit_result (add balance w.money)
check_funds balance w direction = effect direction

-- From the reference on.
unfoldable pub decide :
    WalletData → WagerData → Option WagerData → Option Decision → Result Decision
decide wallet w reference (some decision) = ok decision
decide wallet w reference none = do
  direction ← direction_of w.kind reference
  ok (check_funds wallet.balance w direction)

-- From the currency on: the wallet and the transaction are valid, and belong together.
unfoldable pub evaluate_owned : WalletData → WagerData → Option WagerData → Bool → Result Decision
evaluate_owned wallet w reference already_reversed =
    if not (eq_text w.money.currency wallet.balance.currency)
    then ok (rejection currency_mismatch)
    else if amount_is_bad w.kind w.money.minor
    then ok (rejection invalid_amount_for_kind)
    else if is_opening w.kind
    then err (invalid invalid_wager)
    else decide wallet w reference (check_optional w reference already_reversed)

unfoldable pub evaluate : WalletData → WagerData → Option WagerData → Bool → Result Decision
evaluate wallet w reference already_reversed = do
  validate_wallet wallet
  validate_wager w
  refuse (is_terminal w.status) (invalid invalid_state)
  refuse (not (eq_id w.wallet_id wallet.id) || not (eq_id w.player_id wallet.player_id))
      (invalid invalid_wager)
  evaluate_owned wallet w reference already_reversed
