-- ===== src/Domain/Wallet.antt =====
-- internal/domain/wallet.go. A `Wallet` is its `WalletData`; a method that mutates the receiver
-- returns the new data, so the nil receiver has no counterpart. A time is the number of nanoseconds
-- since Go's zero time, which is 0 itself; earlier instants are left out.
pub mod Moves
use jungle_wager_engine.Base.{
  ℕ, Bool, true, false, ◌||◌, not, Text, ltb, ◌==◌, if◌then◌else◌, ℤ, pos, ltb_ℤ, eq_ℤ, max_int64,
  add64,
}
use jungle_wager_engine.Domain.Errors.{
  Result, ok, err, ◌>>=◌, ◌>>◌, refuse, invalid, invalid_amount, invalid_wallet, overflow,
  insufficient_funds,
}
use jungle_wager_engine.Domain.Id.{Uuid, is_zero_id}
use jungle_wager_engine.Domain.Money.{Money, is_valid, check, add, subtract}

abbrev pub Time : Type 0
Time = ℕ

-- `IsZero`
abbrev pub is_zero_time : Time → Bool
is_zero_time t = t == 0

pub record WalletData : Type 0 where
  pub id : Uuid
  pub player_id : Uuid
  pub balance : Money
  pub version : ℤ  -- int64
  pub created_at : Time
  pub updated_at : Time

-- The condition of `validateWallet`.
unfoldable pub wallet_is_bad : WalletData → Bool
wallet_is_bad w =
    is_zero_id w.id
    || is_zero_id w.player_id
    || not (is_valid w.balance)
    || ltb_ℤ w.balance.minor (pos 0)
    || ltb_ℤ w.version (pos 1)
    || is_zero_time w.created_at
    || ltb w.updated_at w.created_at

unfoldable pub validate_wallet : WalletData → Result (Unit {0})
unfolding wallet_is_bad
validate_wallet w = refuse (wallet_is_bad w) (invalid invalid_wallet)

unfoldable pub rehydrate_wallet : WalletData → Result WalletData
unfolding validate_wallet
rehydrate_wallet w = do validate_wallet w; ok w

unfoldable pub new_wallet : WalletData → Result WalletData
unfolding rehydrate_wallet
new_wallet w = do refuse (not (eq_ℤ w.version (pos 1))) (invalid invalid_wallet); rehydrate_wallet w

-- The new balance of a movement that is not zero.
unfoldable pub next_balance : Money → Money → Bool → Result Money
next_balance balance money true = do
  refuse (ltb_ℤ balance.minor money.minor) (invalid insufficient_funds)
  subtract balance money
next_balance balance money false = add balance money

-- The movement once it is known not to be zero.
unfoldable pub shift : WalletData → Money → Time → Bool → Result WalletData
unfolding next_balance
shift w money now debit = do
  refuse (eq_ℤ w.version max_int64) (invalid overflow)
  next ← next_balance w.balance money debit
  ok (record w { balance = next; version = add64 w.version (pos 1); updated_at = now })

unfoldable pub move : WalletData → Money → Time → Bool → Result WalletData
unfolding validate_wallet shift
move w money now debit = do
  validate_wallet w
  check w.balance money
  refuse (ltb_ℤ money.minor (pos 0)) (invalid invalid_amount)
  refuse (is_zero_time now || ltb now w.updated_at) (invalid invalid_wallet)
  if eq_ℤ money.minor (pos 0) then ok w else shift w money now debit

unfoldable pub credit : WalletData → Money → Time → Result WalletData
unfolding move
credit w money now = move w money now false

unfoldable pub debit : WalletData → Money → Time → Result WalletData
unfolding move
debit w money now = move w money now true
