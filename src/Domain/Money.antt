-- ===== src/Domain/Money.antt =====
-- internal/domain/money.go: amounts in minor units and their checked arithmetic. The text forms
-- are in `Money/Parse`.
pub mod Exact
pub mod Parse
use jungle_wager_engine.Base.{
  Bool, ◌&&◌, ◌||◌, not, Text, codes, eq_text, if◌then◌else◌, ℤ, pos, negsuc, ltb_ℤ, eq_ℤ,
  max_int64, min_int64, add64, sub64,
}
use jungle_wager_engine.Domain.Errors.{
  Result, ok, err, ◌>>=◌, ◌>>◌, refuse, invalid, invalid_money, invalid_currency, overflow,
  currency_mismatch,
}

pub record Money : Type 0 where
  pub minor : ℤ  -- int64
  pub currency : Text

-- `Money{}`
abbrev pub no_money : Money
no_money = record { minor = pos 0; currency = codes "" }

unfoldable pub valid_currency : Text → Bool
valid_currency c = eq_text c (codes "BRL") || eq_text c (codes "USD") || eq_text c (codes "EUR")

unfoldable pub new_money : ℤ → Text → Result Money
new_money minor currency = do
  refuse (not (valid_currency currency)) (invalid invalid_currency)
  ok (record { minor = minor; currency = currency })

-- `Zero`
unfoldable pub zero_money : Text → Result Money
unfolding new_money
zero_money currency = new_money (pos 0) currency

-- `Valid`
unfoldable pub is_valid : Money → Bool
is_valid m = valid_currency m.currency

-- `check`: both amounts are initialized, and of one currency.
unfoldable pub check : Money → Money → Result (Unit {0})
unfolding is_valid
check m other = do
  refuse (not (is_valid m) || not (is_valid other)) (invalid invalid_money)
  refuse (not (eq_text m.currency other.currency)) (invalid currency_mismatch)

unfoldable pub add : Money → Money → Result Money
unfolding check new_money
add m other = do
  check m other
  refuse
      ((ltb_ℤ (pos 0) other.minor && ltb_ℤ (sub64 max_int64 other.minor) m.minor)
        || (ltb_ℤ other.minor (pos 0) && ltb_ℤ m.minor (sub64 min_int64 other.minor)))
      (invalid overflow)
  new_money (add64 m.minor other.minor) m.currency

unfoldable pub subtract : Money → Money → Result Money
unfolding check new_money
subtract m other = do
  check m other
  refuse
      ((ltb_ℤ (pos 0) other.minor && ltb_ℤ m.minor (add64 min_int64 other.minor))
        || (ltb_ℤ other.minor (pos 0) && ltb_ℤ (add64 max_int64 other.minor) m.minor))
      (invalid overflow)
  new_money (sub64 m.minor other.minor) m.currency

unfoldable pub negate : Money → Result Money
unfolding is_valid new_money
negate m = do
  refuse (not (is_valid m)) (invalid invalid_money)
  refuse (eq_ℤ m.minor min_int64) (invalid overflow)
  new_money (sub64 (pos 0) m.minor) m.currency

-- -1, 0 or 1
unfoldable pub compare_money : Money → Money → Result ℤ
unfolding check
compare_money m other = do
  check m other
  ok (
      if ltb_ℤ m.minor other.minor
      then negsuc 0
      else if ltb_ℤ other.minor m.minor
      then pos 1
      else pos 0)
