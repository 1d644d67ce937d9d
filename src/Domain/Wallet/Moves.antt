-- ===== src/Domain/Wallet/Moves.antt =====
-- What `credit` and `debit` do to a wallet.
use jungle_wager_engine.Base.{
  ◌≤◌, ◌<◌, false, ◌≡◌, arith, ℤ, pos, ◌+ℤ◌, ◌-ℤ◌, ◌≤ℤ◌, ◌<ℤ◌, IsInt64, int_laws, max_int64,
  if◌then◌else◌, eq_ℤ, add64_lem,
}
use jungle_wager_engine.Domain.Errors.{ok, err, invalid, insufficient_funds}
use jungle_wager_engine.Domain.Money.{Money, check, is_valid}
use jungle_wager_engine.Domain.Money.Exact.{add-exact, subtract-exact}
use jungle_wager_engine.Domain.Wallet.{Time, WalletData, wallet_is_bad, credit, debit}

-- The wallet after a movement to the balance `z` at `now`; an amount of zero changes nothing.
abbrev pub moved_to : WalletData → Money → Time → ℤ → WalletData
moved_to w money now z = if eq_ℤ money.minor (pos 0) then w else record w {
  balance = record { minor = z; currency = w.balance.currency };
  version = w.version +ℤ pos 1;
  updated_at = now;
}

-- What a movement asks for, whatever its direction.
pub record IsMovable (w : WalletData) (money : Money) (now : Time) : Type 0 where
  pub good : wallet_is_bad w ≡ false
  pub alike : check w.balance money ≡ ok tt
  pub nonneg : pos 0 ≤ℤ money.minor
  pub timed : 0 < now
  pub later : w.updated_at ≤ now
  pub counts : w.version <ℤ max_int64
  pub balance_fits : IsInt64 w.balance.minor
  pub money_fits : IsInt64 money.minor

module _ (w : WalletData) (money : Money) (now : Time) (m : IsMovable w money now) where
  -- A movement that is allowed and covered by the balance takes exactly its amount off.
  pub debit-exact :
      money.minor ≤ℤ w.balance.minor
      → debit w money now ≡ ok (moved_to w money now (w.balance.minor -ℤ money.minor))
  unfolding debit wallet_is_bad
  debit-exact h = grind (
    int_laws,
    subtract-exact w.balance money m.balance_fits m.money_fits,
    add64_lem w.version (pos 1),
  )

  -- A movement that is allowed and exceeds the balance is refused for insufficient funds.
  pub debit_overdraft :
      w.balance.minor <ℤ money.minor → debit w money now ≡ err (invalid insufficient_funds)
  unfolding debit
  debit_overdraft h = ground arith

  -- A movement that is allowed and stays below the greatest int64 adds exactly its amount.
  pub credit-exact :
      w.balance.minor +ℤ money.minor ≤ℤ max_int64
      → credit w money now ≡ ok (moved_to w money now (w.balance.minor +ℤ money.minor))
  unfolding credit wallet_is_bad
  credit-exact h =
      grind (
        int_laws,
        add-exact w.balance money m.balance_fits m.money_fits,
        add64_lem w.version (pos 1),
      )

-- The ranges that Go's types give for nothing: int64.
pub record Fits (w : WalletData) (money : Money) : Type 0 where
  pub balance_fits : IsInt64 w.balance.minor
  pub version_fits : IsInt64 w.version
  pub money_fits : IsInt64 money.minor

module _ (w w' : WalletData) (money : Money) (now : Time) (f : Fits w money) where
  -- A debit that goes through had an amount from zero up to the balance, and took exactly that off
  -- (an amount of zero changes nothing); balance, version and amount are taken to be int64.
  pub debit-ok :
      debit w money now ≡ ok w'
      → (w' ≡ moved_to w money now (w.balance.minor -ℤ money.minor))
        × (pos 0 ≤ℤ money.minor)
        × (money.minor ≤ℤ w.balance.minor)
  unfolding debit wallet_is_bad
  debit-ok h = grind (
    int_laws,
    subtract-exact w.balance money f.balance_fits f.money_fits,
    add64_lem w.version (pos 1),
  )

  -- A credit that goes through had an amount of at least zero and added exactly that (an amount of
  -- zero changes nothing), to an int64; balance, version and amount are taken to be int64.
  pub credit-ok :
      credit w money now ≡ ok w'
      → (w' ≡ moved_to w money now (w.balance.minor +ℤ money.minor))
        × (pos 0 ≤ℤ money.minor)
        × IsInt64 (w.balance.minor +ℤ money.minor)
  unfolding credit wallet_is_bad
  credit-ok h =
      grind (
        int_laws,
        add-exact w.balance money f.balance_fits f.money_fits,
        add64_lem w.version (pos 1),
      )

  -- A debit that goes through leaves a valid wallet, in particular one that is not overdrawn;
  -- balance, version and amount are taken to be int64.
  pub debit-IsGood : debit w money now ≡ ok w' → wallet_is_bad w' ≡ false
  unfolding debit wallet_is_bad is_valid
  debit-IsGood h = grind (int_laws, debit-ok h)
