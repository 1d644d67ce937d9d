-- ===== src/Domain/Ledger/Entries.antt =====
-- An entry is made exactly when its equation holds over the integers.
use jungle_wager_engine.Base.{
  true, ◌≡◌, arith, ℤ, pos, ◌+ℤ◌, ◌≤ℤ◌, ◌<ℤ◌, IsInt64, int_laws, eq_ℤ, inl, inr,
}
use jungle_wager_engine.Domain.Errors.{Result-cases, ok}
use jungle_wager_engine.Domain.Money.{Money, compare_money}
use jungle_wager_engine.Domain.Money.Exact.{add-exact, subtract-exact}
use jungle_wager_engine.Domain.Ledger.{
  Direction, debit_direction, credit_direction, no_direction, other_direction, LedgerData,
  ledger_is_bad, expected_balance, new_ledger_entry,
}

-- An accepted entry is the data that was given.
pub new_ledger_entry-same : (d e : LedgerData) → new_ledger_entry d ≡ ok e → e ≡ d
unfolding new_ledger_entry
new_ledger_entry-same d e h = ground arith

-- The equation of an entry.
abbrev pub Balances : Direction → ℤ → ℤ → ℤ → Type 0
Balances debit_direction before amount after = before ≡ after +ℤ amount
Balances credit_direction before amount after = after ≡ before +ℤ amount
Balances _ before amount after = ⊥

compare_zero :
    (m n : Money) (c : ℤ) → compare_money m n ≡ ok c → eq_ℤ c (pos 0) ≡ true → m.minor ≡ n.minor
unfolding compare_money
compare_zero m n c h z = ground arith

expected_sound :
    (dir : Direction) (before money after expected : Money)
    → IsInt64 before.minor
    → IsInt64 money.minor
    → expected_balance dir before money ≡ ok expected
    → expected.minor ≡ after.minor
    → Balances dir before.minor money.minor after.minor
unfolding expected_balance
expected_sound debit_direction before money after expected hb hm h e =
    grind (int_laws, subtract-exact before money hb hm)
expected_sound credit_direction before money after expected hb hm h e =
    grind (int_laws, add-exact before money hb hm)
expected_sound no_direction before money after expected hb hm h e = cc
expected_sound (other_direction t) before money after expected hb hm h e = cc

-- An entry that is made satisfies its equation exactly, with a positive amount and balances that
-- are not negative: no overflow hides a wrong balance. The amount and the balance before are taken
-- to be int64.
pub new_ledger_entry-Balances :
    (d e : LedgerData)
    → IsInt64 d.money.minor
    → IsInt64 d.balance_before.minor
    → new_ledger_entry d ≡ ok e
    → (e ≡ d)
      × Balances d.direction d.balance_before.minor d.money.minor d.balance_after.minor
      × (pos 0 <ℤ d.money.minor)
      × (pos 0 ≤ℤ d.balance_before.minor)
      × (pos 0 ≤ℤ d.balance_after.minor)
unfolding new_ledger_entry ledger_is_bad
new_ledger_entry-Balances d e hm hb h =
    elim (Result-cases (expected_balance d.direction d.balance_before d.money)) [
      | inl (expected, known) ↦ elim (Result-cases (compare_money expected d.balance_after)) [
        | inl (c, compared) ↦ ground (
          arith,
          compare_zero expected d.balance_after c compared,
          expected_sound d.direction d.balance_before d.money d.balance_after expected hb hm known,
        )
        | inr (f, refused) ↦ ground arith
      ]
      | inr (f, refused) ↦ ground arith
    ]
