-- ===== src/Domain/Money/Parse/Fits.antt =====
-- A parsed amount is an int64.
use jungle_wager_engine.Base.{
  ◌≡◌, arith, int_laws, List, [], ◌∷◌, Text, IsInt64, Bool-cases, inl, inr, ltb, length, ◌++◌,
  codes,
}
use jungle_wager_engine.Domain.Errors.{ok}
use jungle_wager_engine.Domain.Money.{Money, new_money, zero_money}
use jungle_wager_engine.Domain.Money.Parse.{
  pad_fraction, minor_units, from_parts, parse_money, split_dot,
}

minor_units-IsInt64 :
    (digits currency : Text) (m : Money) → minor_units digits currency ≡ ok m → IsInt64 m.minor
unfolding minor_units new_money zero_money
minor_units-IsInt64 digits currency m h = grind int_laws

from_parts-IsInt64 :
    (parts : List Text) (currency : Text) (m : Money)
    → from_parts parts currency ≡ ok m
    → IsInt64 m.minor
unfolding from_parts
from_parts-IsInt64 [] currency m h = absurd (ground arith)
from_parts-IsInt64 (whole ∷ []) currency m h =
    minor_units-IsInt64 (whole ++ codes "00") currency m h
from_parts-IsInt64 (whole ∷ fraction ∷ []) currency m h =
    elim (Bool-cases (ltb 2 (length fraction))) [
      | inl long ↦ absurd (ground arith)
      | inr short ↦ minor_units-IsInt64 (whole ++ pad_fraction fraction) currency m (ground arith)
    ]
from_parts-IsInt64 (whole ∷ fraction ∷ more ∷ rest) currency m h = absurd (ground arith)

-- An amount that `ParseMoney` reads is an int64, whatever text it was.
pub parse_money-IsInt64 :
    (amount currency : Text) (m : Money) → parse_money amount currency ≡ ok m → IsInt64 m.minor
unfolding parse_money
parse_money-IsInt64 amount currency m h =
    from_parts-IsInt64 (split_dot amount) currency m (ground arith)
