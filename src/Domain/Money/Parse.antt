-- ===== src/Domain/Money/Parse.antt =====
-- The text form of an amount: `ParseMoney` and `String` of internal/domain/money.go. The digits of
-- a number are Go's `strconv.FormatInt`, and their value is `strconv.ParseInt`.
pub mod RoundTrip
pub mod Fits
use jungle_wager_engine.Base.{
  ℕ, zero, suc, ◌+◌, ◌*◌, ◌-◌, ◌/◌, ◌%◌, Bool, true, false, ◌&&◌, ◌||◌, not, Option, none, some,
  List, [], ◌∷◌, ◌++◌, Text, codes, is_empty, eq_text, length, any, all, ltb, leb, ◌==◌,
  if◌then◌else◌, ℤ, pos, negsuc, take, drop,
}
use jungle_wager_engine.Domain.Errors.{
  Result, ok, err, ◌>>=◌, ◌>>◌, refuse, invalid, invalid_currency, invalid_amount, invalid_scale,
  overflow,
}
use jungle_wager_engine.Domain.Money.{Money, valid_currency, new_money, zero_money, is_valid}

-- A part before the first separator and the parts after it.
abbrev cons_head : ℕ → List Text → List Text
cons_head c [] = (c ∷ []) ∷ []
cons_head c (p ∷ ps) = (c ∷ p) ∷ ps

-- `strings.Split(amount, ".")`
unfoldable pub split_dot : Text → List Text
split_dot [] = [] ∷ []
split_dot (c ∷ s) = let rest = split_dot s in if c == b'.' then [] ∷ rest else cons_head c rest

abbrev pub is_digit : ℕ → Bool
is_digit c = leb b'0' c && leb c b'9'

-- A part that is empty or has another character than a digit.
unfoldable pub part_is_bad : Text → Bool
part_is_bad part = is_empty part || not (all is_digit part)

-- `strings.TrimLeft(…, "0")`
unfoldable pub trim_zeros : Text → Text
trim_zeros [] = []
trim_zeros (c ∷ s) = if c == b'0' then trim_zeros s else c ∷ s

-- The value of decimal digits after the ones that make `n`.
unfoldable pub digits_value : ℕ → Text → ℕ
digits_value n [] = n
digits_value n (c ∷ s) = digits_value (n * 10 + (c - b'0')) s

-- Two digits from at most two.
unfoldable pub pad_fraction : Text → Text
pad_fraction (c ∷ []) = c ∷ codes "0"
pad_fraction s = s

-- The amount that the digits of both components make; 9223372036854775807 is `math.MaxInt64`.
unfoldable pub minor_units : Text → Text → Result Money
minor_units digits currency =
    let trimmed = trim_zeros digits in
    if is_empty trimmed
    then zero_money currency
    else if ltb 9223372036854775807 (digits_value 0 trimmed)
    then err (invalid overflow)
    else new_money (pos (digits_value 0 trimmed)) currency

-- What the parts of the amount make: the checks on them passed.
unfoldable pub from_parts : List Text → Text → Result Money
from_parts (whole ∷ []) currency = minor_units (whole ++ codes "00") currency
from_parts (whole ∷ fraction ∷ []) currency =
    if ltb 2 (length fraction)
    then err (invalid invalid_scale)
    else minor_units (whole ++ pad_fraction fraction) currency
from_parts _ currency = err (invalid invalid_amount)

unfoldable pub parse_money : Text → Text → Result Money
parse_money amount currency = do
  refuse (not (valid_currency currency)) (invalid invalid_currency)
  refuse (is_empty amount) (invalid invalid_amount)
  refuse (ltb 2 (length (split_dot amount))) (invalid invalid_amount)
  refuse (any part_is_bad (split_dot amount)) (invalid invalid_amount)
  from_parts (split_dot amount) currency

-- The decimal digits of a number, on fuel that exceeds it.
unfoldable pub decimal : ℕ → ℕ → Text → Text
decimal zero n s = s
decimal (suc fuel) n s =
    let rest = decimal fuel (n / 10) ((b'0' + n % 10) ∷ s) in
    if ltb n 10 then (b'0' + n) ∷ s else rest

unfoldable pub digits : ℕ → Text
digits n = decimal (n + 1) n []

-- `for len(s) < 3 { s = "0" + s }`
unfoldable pub pad : Text → Text
pad [] = codes "000"
pad (a ∷ []) = b'0' ∷ b'0' ∷ a ∷ []
pad (a ∷ b ∷ []) = b'0' ∷ a ∷ b ∷ []
pad s = s

-- A dot before the last two digits.
unfoldable pub with_point : Text → Text
with_point s = take (length s - 2) s ++ (codes "." ++ drop (length s - 2) s)

-- `String`
unfoldable pub money_string : Money → Text
money_string m = if not (is_valid m) then codes "<invalid money>" else elim m.minor [
  | pos n ↦ with_point (pad (digits n))
  | negsuc n ↦ codes "-" ++ with_point (pad (digits (n + 1)))
]
