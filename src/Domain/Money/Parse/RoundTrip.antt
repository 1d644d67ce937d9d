-- ===== src/Domain/Money/Parse/RoundTrip.antt =====
-- An amount that is printed parses to itself.
use jungle_wager_engine.Base.{
  ℕ, zero, suc, ◌+◌, ◌*◌, ◌-◌, ◌/◌, ◌%◌, ◌≤◌, ◌<◌, true, false, ◌≡◌, refl, ap, ◌∙◌, arith, inl, inr,
  Bool-cases, [], ◌∷◌, ◌++◌, Text, codes, is_empty, length, any, all, ltb, pos, take, drop,
}
use jungle_wager_engine.Domain.Errors.{ok}
use jungle_wager_engine.Domain.Money.{valid_currency, new_money, zero_money, is_valid}
use jungle_wager_engine.Domain.Money.Parse.{
  split_dot, is_digit, part_is_bad, trim_zeros, digits_value, pad_fraction, minor_units, from_parts,
  parse_money, decimal, digits, pad, with_point, money_string,
}

-- Digits hold no dot.
split_digits : (s : Text) → all is_digit s ≡ true → split_dot s ≡ s ∷ []
unfolding split_dot all
split_digits [] h = refl
split_digits (c ∷ s) h = ground (arith, split_digits s)

split_two :
    (s t : Text)
    → all is_digit s ≡ true
    → all is_digit t ≡ true
    → split_dot (s ++ (codes "." ++ t)) ≡ s ∷ (t ∷ [])
unfolding split_dot all
split_two [] t hs ht = ground (arith, split_digits t ht)
split_two (c ∷ s) t hs ht = ground (arith, split_two s t)

take-drop : (k : ℕ) (s : Text) → take k s ++ drop k s ≡ s
take-drop zero s = refl
take-drop (suc k) [] = refl
take-drop (suc k) (c ∷ s) = ap (λ t. c ∷ t) (take-drop k s)

all-take : (k : ℕ) (s : Text) → all is_digit s ≡ true → all is_digit (take k s) ≡ true
unfolding all
all-take zero s h = refl
all-take (suc k) [] h = refl
all-take (suc k) (c ∷ s) h = ground (arith, all-take k s)

all-drop : (k : ℕ) (s : Text) → all is_digit s ≡ true → all is_digit (drop k s) ≡ true
unfolding all
all-drop zero s h = h
all-drop (suc k) [] h = refl
all-drop (suc k) (c ∷ s) h = ground (arith, all-drop k s)

length-drop : (k : ℕ) (s : Text) → k ≤ length s → length (drop k s) ≡ length s - k
length-drop zero s h = omega arith
length-drop (suc k) [] h = omega arith
length-drop (suc k) (c ∷ s) h = omega (arith, length-drop k s (omega arith))

length-take : (k : ℕ) (s : Text) → k ≤ length s → length (take k s) ≡ k
length-take zero s h = refl
length-take (suc k) [] h = omega arith
length-take (suc k) (c ∷ s) h = omega (arith, length-take k s (omega arith))

-- Leading zeros have no value.
trim_zeros-value : (s : Text) → digits_value 0 (trim_zeros s) ≡ digits_value 0 s
unfolding trim_zeros digits_value
trim_zeros-value [] = refl
trim_zeros-value (c ∷ s) = ground (arith, trim_zeros-value s)

value_digit : (n : ℕ) → 0 * 10 + ((48 + n) - 48) ≡ n
value_digit n = omega arith

value_digits : (n : ℕ) → n / 10 * 10 + ((48 + n % 10) - 48) ≡ n
value_digits n = omega arith

tenth : (n : ℕ) → 10 ≤ n → n / 10 < n
tenth n h = omega arith

value_nil : (n : ℕ) → digits_value n [] ≡ n
unfolding digits_value
value_nil n = refl

decimal-value :
    (fuel n : ℕ) (s : Text) → n < fuel → digits_value 0 (decimal fuel n s) ≡ digits_value n s
unfolding decimal digits_value
decimal-value zero n s h = omega arith
decimal-value (suc fuel) n s h = elim (Bool-cases (ltb n 10)) [
  | inl small ↦ ground (arith, value_digit n, ap (λ m. digits_value m s) (value_digit n))
  | inr large ↦ ground (
    arith,
    decimal-value fuel (n / 10) ((b'0' + n % 10) ∷ s) (ground (arith, tenth n)),
    ap (λ m. digits_value m s) (value_digits n),
  )
]

decimal-digits :
    (fuel n : ℕ) (s : Text)
    → all is_digit s ≡ true
    → n < fuel
    → all is_digit (decimal fuel n s) ≡ true
unfolding decimal all
decimal-digits zero n s h l = h
decimal-digits (suc fuel) n s h l =
    ground (arith, decimal-digits fuel (n / 10) ((b'0' + n % 10) ∷ s))

pad-digits : (s : Text) → all is_digit s ≡ true → all is_digit (pad s) ≡ true
unfolding pad all
pad-digits [] h = refl
pad-digits (a ∷ []) h = ground arith
pad-digits (a ∷ b ∷ []) h = ground arith
pad-digits (a ∷ b ∷ c ∷ s) h = h

pad-value : (s : Text) → digits_value 0 (pad s) ≡ digits_value 0 s
unfolding pad digits_value
pad-value [] = refl
pad-value (a ∷ []) = refl
pad-value (a ∷ b ∷ []) = refl
pad-value (a ∷ b ∷ c ∷ s) = refl

pad-length : (s : Text) → 3 ≤ length (pad s)
unfolding pad
pad-length [] = omega arith
pad-length (a ∷ []) = omega arith
pad-length (a ∷ b ∷ []) = omega arith
pad-length (a ∷ b ∷ c ∷ s) = omega arith

empty_nil : (s : Text) → is_empty s ≡ true → s ≡ []
empty_nil [] h = refl
empty_nil (c ∷ s) h = cc

empty_append : (s t : Text) → is_empty s ≡ false → is_empty (s ++ t) ≡ false
empty_append [] t h = cc
empty_append (c ∷ s) t h = refl

-- Digits whose value fits make that value.
minor_units-value :
    (s c : Text)
    → valid_currency c ≡ true
    → digits_value 0 s ≤ 9223372036854775807
    → minor_units s c ≡ ok (record { minor = pos (digits_value 0 s); currency = c })
unfolding minor_units zero_money new_money
minor_units-value s c v h =
    ground (arith, trim_zeros-value s, empty_nil (trim_zeros s), value_nil 0)

not_empty : (s : Text) → 1 ≤ length s → is_empty s ≡ false
not_empty [] h = ground arith
not_empty (c ∷ s) h = refl

fraction_pads : (s : Text) → length s ≡ 2 → pad_fraction s ≡ s
unfolding pad_fraction
fraction_pads [] h = refl
fraction_pads (a ∷ []) h = ground arith
fraction_pads (a ∷ b ∷ s) h = refl

-- At least three digits, with a point before the last two, parse to their value.
parse-with_point :
    (s c : Text)
    → valid_currency c ≡ true
    → all is_digit s ≡ true
    → 3 ≤ length s
    → digits_value 0 s ≤ 9223372036854775807
    → parse_money (with_point s) c ≡ ok (record { minor = pos (digits_value 0 s); currency = c })
unfolding parse_money from_parts with_point any part_is_bad
parse-with_point s c v d l h =
    let whole = take (length s - 2) s in
    let fraction = drop (length s - 2) s in
    let dw = all-take (length s - 2) s d in
    let df = all-drop (length s - 2) s d in
    let lw : 1 ≤ length whole = omega (arith, length-take (length s - 2) s (omega arith)) in
    let lf : length fraction ≡ 2 = omega (arith, length-drop (length s - 2) s (omega arith)) in
    ground (
      arith,
      split_two whole fraction dw df,
      not_empty whole lw,
      not_empty fraction (omega (arith, lf)),
      empty_append whole (codes "." ++ fraction),
      fraction_pads fraction lf,
      take-drop (length s - 2) s,
      minor_units-value s c v h,
    )

-- An amount in a supported currency that is not negative and is an int64 parses to itself once it
-- is printed.
pub parse_money-money_string :
    (n : ℕ) (c : Text)
    → valid_currency c ≡ true
    → n ≤ 9223372036854775807
    → parse_money (money_string (record { minor = pos n; currency = c })) c
      ≡ ok (record { minor = pos n; currency = c })
unfolding money_string is_valid digits all
parse_money-money_string n c v h =
    let value : digits_value 0 (pad (decimal (n + 1) n [])) ≡ n =
      pad-value (decimal (n + 1) n []) ∙ decimal-value (n + 1) n [] (omega arith) ∙ value_nil n in
    ground (
      arith,
      value,
      parse-with_point (pad (decimal (n + 1) n [])) c v
          (pad-digits (decimal (n + 1) n []) (decimal-digits (n + 1) n [] refl (omega arith)))
          (pad-length (decimal (n + 1) n [])) (rw value h),
    )
