-- ===== src/Domain/Money/Exact.antt =====
-- The overflow tests of `add`, `subtract` and `negate`, which compute in `int64`, against the
-- same operations on unbounded integers with one range test on the result.
use jungle_wager_engine.Base.{
  Bool, true, ◌||◌, ◌&&◌, not, ◌≡◌, arith, ℤ, pos, ◌+ℤ◌, ◌-ℤ◌, ◌<ℤ◌, leb_ℤ, ltb_ℤ, IsInt64,
  max_int64, min_int64, int_laws, add64, sub64, add64_lem, sub64_lem, if◌then◌else◌,
}
use jungle_wager_engine.Domain.Errors.{Result, ok, err, ◌>>◌, invalid, overflow}
use jungle_wager_engine.Domain.Money.{Money, new_money, is_valid, check, add, subtract}

abbrev pub in_int64 : ℤ → Bool
in_int64 z = leb_ℤ min_int64 z && leb_ℤ z max_int64

-- An amount of `z` minor units in the currency of `m`, if `z` is an `int64`.
abbrev pub exact : Money → ℤ → Result Money
exact m z =
    if in_int64 z then ok (record { minor = z; currency = m.currency }) else err (invalid overflow)

-- The overflow test of `add` passes exactly the sums in range.
abbrev add_overflows : ℤ → ℤ → Bool
add_overflows a b =
    (ltb_ℤ (pos 0) b && ltb_ℤ (sub64 max_int64 b) a)
    || (ltb_ℤ b (pos 0) && ltb_ℤ a (sub64 min_int64 b))

abbrev sub_overflows : ℤ → ℤ → Bool
sub_overflows a b =
    (ltb_ℤ (pos 0) b && ltb_ℤ a (add64 min_int64 b))
    || (ltb_ℤ b (pos 0) && ltb_ℤ (add64 max_int64 b) a)

max_less : (b : ℤ) → pos 0 <ℤ b → IsInt64 b → sub64 max_int64 b ≡ max_int64 -ℤ b
max_less b p h = sub64_lem max_int64 b (omega int_laws)

min_less : (b : ℤ) → b <ℤ pos 0 → IsInt64 b → sub64 min_int64 b ≡ min_int64 -ℤ b
min_less b p h = sub64_lem min_int64 b (omega int_laws)

min_more : (b : ℤ) → pos 0 <ℤ b → IsInt64 b → add64 min_int64 b ≡ min_int64 +ℤ b
min_more b p h = add64_lem min_int64 b (omega int_laws)

max_more : (b : ℤ) → b <ℤ pos 0 → IsInt64 b → add64 max_int64 b ≡ max_int64 +ℤ b
max_more b p h = add64_lem max_int64 b (omega int_laws)

add_overflows_lem : (a b : ℤ) → IsInt64 a → IsInt64 b → add_overflows a b ≡ not (in_int64 (a +ℤ b))
add_overflows_lem a b ha hb = grind (int_laws, max_less b, min_less b)

sub_overflows_lem : (a b : ℤ) → IsInt64 a → IsInt64 b → sub_overflows a b ≡ not (in_int64 (a -ℤ b))
sub_overflows_lem a b ha hb = grind (int_laws, min_more b, max_more b)

new_money_lem :
    (z : ℤ) (m : Money)
    → is_valid m ≡ true
    → new_money z m.currency ≡ ok (record { minor = z; currency = m.currency })
unfolding new_money is_valid
new_money_lem z m h = rw h

-- Subject to one range test, `add` is addition on unbounded integers: for any two amounts whose
-- minor units are `int64`, the result is an error if `check` refuses the pair, else the exact sum
-- in the first amount's currency if that is an `int64`, and an overflow error if it is not.
pub add-exact :
    (m n : Money)
    → IsInt64 m.minor
    → IsInt64 n.minor
    → add m n ≡ (check m n >> exact m (m.minor +ℤ n.minor))
unfolding add
add-exact m n hm hn =
    rw (add_overflows_lem m.minor n.minor hm hn) (ground (arith, add64_lem m.minor n.minor))

-- The same of `subtract` and the exact difference: for any two amounts whose minor units are
-- `int64`, an error if `check` refuses the pair, else the exact difference in the first amount's
-- currency if that is an `int64`, and an overflow error if it is not.
pub subtract-exact :
    (m n : Money)
    → IsInt64 m.minor
    → IsInt64 n.minor
    → subtract m n ≡ (check m n >> exact m (m.minor -ℤ n.minor))
unfolding subtract
subtract-exact m n hm hn =
    rw (sub_overflows_lem m.minor n.minor hm hn) (ground (arith, sub64_lem m.minor n.minor))
