-- ===== src/Tests/DomainRuns.antt =====
-- Runs of the domain.
use jungle_wager_engine.Base.{
  ℕ, ◌≤◌, ◌<◌, Bool, true, false, ◌≡◌, ◌≢◌, refl, arith, Option, none, some, List, [], ◌∷◌, Text,
  codes, is_empty, ℤ, pos, ◌+ℤ◌, ◌-ℤ◌, ◌≤ℤ◌, ◌<ℤ◌, inl, inr, IsInt64, int_laws, max_int64,
  if◌then◌else◌,
}
use jungle_wager_engine.Domain.Errors.{ok, ◌>>◌}
use jungle_wager_engine.Domain.Money.{Money, add, subtract, check}
use jungle_wager_engine.Domain.Money.Exact.{add-exact, subtract-exact, exact}
use jungle_wager_engine.Domain.Wallet.{WalletData, wallet_is_bad, credit, debit}
use jungle_wager_engine.Domain.Wallet.Moves.{moved_to, IsMovable, Fits, debit-ok, credit-ok}
use jungle_wager_engine.Domain.Ledger.{new_ledger_entry, credit_direction, debit_direction}
use jungle_wager_engine.Domain.Ledger.Entries.{Balances, new_ledger_entry-Balances}
use jungle_wager_engine.Domain.Wager.{
  WagerData, processed, rejected, failed, is_terminal, is_reversal, validate_wager, transition,
  process, reject, fail_wager, result_is_bad, amount_is_bad, is_blank,
}
use jungle_wager_engine.Domain.Wager.Transitions.{IsDue, Settles, settled, process-ok}
use jungle_wager_engine.Domain.Wager.Steps.{processes, Advances, Step-Advances}
use jungle_wager_engine.Domain.Evaluate.{evaluate, effect}
use jungle_wager_engine.Domain.Evaluate.Safety.{IsReversible, Suits}
use jungle_wager_engine.Domain.Evaluate.Effects.{
  evaluate-IsReversible, evaluate-Suits, evaluate-debit, evaluate-credit,
}
use jungle_wager_engine.Tests.Data.{
  wallet, reais, new_bet, settled_bet, new_rollback, opening_entry,
}

fit_1000 : IsInt64 (pos 1000)
fit_1000 = (omega int_laws, omega int_laws)

fit_300 : IsInt64 (pos 300)
fit_300 = (omega int_laws, omega int_laws)

fit_1 : IsInt64 (pos 1)
fit_1 = (omega int_laws, omega int_laws)

fit_0 : IsInt64 (pos 0)
fit_0 = (omega int_laws, omega int_laws)

version_below : wallet.version <ℤ max_int64
version_below = omega int_laws

bet_evaluates : evaluate wallet new_bet none false ≡ ok (effect debit_direction)
unfolding evaluate jungle_wager_engine.Domain.Wallet.validate_wallet
    jungle_wager_engine.Domain.Id.is_zero_id jungle_wager_engine.Base.eq_text
    jungle_wager_engine.Domain.Money.is_valid jungle_wager_engine.Domain.Money.valid_currency
    validate_wager jungle_wager_engine.Domain.Wager.identity_is_bad
    jungle_wager_engine.Domain.Wager.external_is_bad is_blank jungle_wager_engine.Base.trim_space
    jungle_wager_engine.Domain.Id.hex_decode jungle_wager_engine.Domain.Wager.check_status
    jungle_wager_engine.Domain.Id.eq_id jungle_wager_engine.Domain.Evaluate.evaluate_owned
    jungle_wager_engine.Domain.Evaluate.decide jungle_wager_engine.Domain.Evaluate.check_optional
    jungle_wager_engine.Domain.Evaluate.direction_of jungle_wager_engine.Domain.Evaluate.check_funds
    jungle_wager_engine.Domain.Evaluate.check_reference
    jungle_wager_engine.Domain.Evaluate.kind_mismatch
    jungle_wager_engine.Domain.Evaluate.reference_differs add check
    jungle_wager_engine.Domain.Money.new_money jungle_wager_engine.Base.add64
    jungle_wager_engine.Base.sub64 jungle_wager_engine.Base.wrap64 ◌+ℤ◌ ◌-ℤ◌
bet_evaluates = refl

rollback_evaluates :
    evaluate wallet new_rollback (some settled_bet) false ≡ ok (effect credit_direction)
unfolding evaluate jungle_wager_engine.Domain.Wallet.validate_wallet
    jungle_wager_engine.Domain.Id.is_zero_id jungle_wager_engine.Base.eq_text
    jungle_wager_engine.Domain.Money.is_valid jungle_wager_engine.Domain.Money.valid_currency
    validate_wager jungle_wager_engine.Domain.Wager.identity_is_bad
    jungle_wager_engine.Domain.Wager.external_is_bad is_blank jungle_wager_engine.Base.trim_space
    jungle_wager_engine.Domain.Id.hex_decode jungle_wager_engine.Domain.Wager.check_status
    jungle_wager_engine.Domain.Id.eq_id jungle_wager_engine.Domain.Evaluate.evaluate_owned
    jungle_wager_engine.Domain.Evaluate.decide jungle_wager_engine.Domain.Evaluate.check_optional
    jungle_wager_engine.Domain.Evaluate.direction_of jungle_wager_engine.Domain.Evaluate.check_funds
    jungle_wager_engine.Domain.Evaluate.check_reference
    jungle_wager_engine.Domain.Evaluate.kind_mismatch
    jungle_wager_engine.Domain.Evaluate.reference_differs add check
    jungle_wager_engine.Domain.Money.new_money jungle_wager_engine.Base.add64
    jungle_wager_engine.Base.sub64 jungle_wager_engine.Base.wrap64 ◌+ℤ◌ ◌-ℤ◌
rollback_evaluates = refl

evaluate-IsReversible_example :
    (r : WagerData) × (some settled_bet ≡ some r) × IsReversible new_rollback r false
evaluate-IsReversible_example =
    evaluate-IsReversible wallet new_rollback (some settled_bet) false (effect credit_direction)
      rollback_evaluates refl refl refl

evaluate-Suits_example : Suits new_rollback.kind (some settled_bet) credit_direction
evaluate-Suits_example =
    evaluate-Suits wallet new_rollback (some settled_bet) false (effect credit_direction)
      rollback_evaluates refl refl

evaluate-debit_example :
    debit wallet new_bet.money 5
    ≡ ok (moved_to wallet new_bet.money 5 (wallet.balance.minor -ℤ new_bet.money.minor))
evaluate-debit_example =
    evaluate-debit wallet new_bet none false (effect debit_direction) bet_evaluates refl refl 5
      (omega arith) (omega arith) version_below fit_1000 fit_300 refl

evaluate-credit_example :
    credit wallet new_rollback.money 5
    ≡ ok (moved_to wallet new_rollback.money 5 (wallet.balance.minor +ℤ new_rollback.money.minor))
evaluate-credit_example =
    evaluate-credit wallet new_rollback (some settled_bet) false (effect credit_direction)
      rollback_evaluates refl refl 5 (omega arith) (omega arith) version_below fit_1000 fit_300 refl

fits : Fits wallet (reais 300)
fits = record { balance_fits = fit_1000; version_fits = fit_1; money_fits = fit_300 }

-- The wallet after a debit of 300.
abbrev debited : WalletData
debited = record wallet { balance = reais 700; version = pos 2; updated_at = 5 }

abbrev credited : WalletData
credited = record wallet { balance = reais 1300; version = pos 2; updated_at = 5 }

debit_runs : debit wallet (reais 300) 5 ≡ ok debited
unfolding debit jungle_wager_engine.Domain.Id.is_zero_id jungle_wager_engine.Base.eq_text
    jungle_wager_engine.Domain.Money.is_valid jungle_wager_engine.Domain.Money.valid_currency check
    subtract jungle_wager_engine.Base.add64 jungle_wager_engine.Base.wrap64 ◌+ℤ◌
    jungle_wager_engine.Base.sub64 ◌-ℤ◌
debit_runs = refl

credit_runs : credit wallet (reais 300) 5 ≡ ok credited
unfolding credit jungle_wager_engine.Domain.Id.is_zero_id jungle_wager_engine.Base.eq_text
    jungle_wager_engine.Domain.Money.is_valid jungle_wager_engine.Domain.Money.valid_currency check
    add jungle_wager_engine.Base.sub64 jungle_wager_engine.Base.wrap64 ◌-ℤ◌
    jungle_wager_engine.Base.add64 ◌+ℤ◌
credit_runs = refl

debit-ok_example :
    (debited ≡ moved_to wallet (reais 300) 5 (wallet.balance.minor -ℤ pos 300))
    × (pos 0 ≤ℤ pos 300)
    × (pos 300 ≤ℤ wallet.balance.minor)
debit-ok_example = debit-ok wallet debited (reais 300) 5 fits debit_runs

wallet_good : wallet_is_bad wallet ≡ false
unfolding wallet_is_bad jungle_wager_engine.Domain.Id.is_zero_id jungle_wager_engine.Base.eq_text
    jungle_wager_engine.Domain.Money.is_valid jungle_wager_engine.Domain.Money.valid_currency
wallet_good = refl

alike : check wallet.balance (reais 1001) ≡ ok tt
unfolding check jungle_wager_engine.Domain.Money.valid_currency jungle_wager_engine.Base.eq_text
alike = refl

fit_1001 : IsInt64 (pos 1001)
fit_1001 = (omega int_laws, omega int_laws)

movable : IsMovable wallet (reais 1001) 5
movable = record {
  good = wallet_good;
  alike = alike;
  nonneg = omega int_laws;
  timed = omega arith;
  later = omega arith;
  counts = version_below;
  balance_fits = fit_1000;
  money_fits = fit_1001;
}

add-exact_example :
    add (reais 1000) (reais 300)
    ≡ (check (reais 1000) (reais 300) >> exact (reais 1000) (pos 1000 +ℤ pos 300))
add-exact_example = add-exact (reais 1000) (reais 300) fit_1000 fit_300

entry_runs : new_ledger_entry opening_entry ≡ ok opening_entry
unfolding new_ledger_entry jungle_wager_engine.Domain.Id.is_zero_id jungle_wager_engine.Base.eq_text
    jungle_wager_engine.Domain.Money.is_valid jungle_wager_engine.Domain.Money.valid_currency add
    jungle_wager_engine.Base.sub64 jungle_wager_engine.Base.wrap64 ◌-ℤ◌
    jungle_wager_engine.Domain.Money.compare_money jungle_wager_engine.Base.add64 ◌+ℤ◌
entry_runs = refl

new_ledger_entry-Balances_example :
    (opening_entry ≡ opening_entry)
    × Balances credit_direction (pos 0) (pos 1000) (pos 1000)
    × (pos 0 <ℤ pos 1000)
    × (pos 0 ≤ℤ pos 0)
    × (pos 0 ≤ℤ pos 1000)
new_ledger_entry-Balances_example =
    new_ledger_entry-Balances opening_entry opening_entry fit_1000 fit_0 entry_runs

bet_valid : validate_wager new_bet ≡ ok tt
unfolding validate_wager jungle_wager_engine.Domain.Wager.identity_is_bad
    jungle_wager_engine.Domain.Id.is_zero_id jungle_wager_engine.Base.eq_text
    jungle_wager_engine.Domain.Money.is_valid jungle_wager_engine.Domain.Money.valid_currency
    jungle_wager_engine.Domain.Wager.external_is_bad is_blank jungle_wager_engine.Base.trim_space
    jungle_wager_engine.Domain.Id.hex_decode jungle_wager_engine.Domain.Wager.check_status
bet_valid = refl

settled_valid : validate_wager settled_bet ≡ ok tt
unfolding validate_wager jungle_wager_engine.Domain.Wager.identity_is_bad
    jungle_wager_engine.Domain.Id.is_zero_id jungle_wager_engine.Base.eq_text
    jungle_wager_engine.Domain.Money.is_valid jungle_wager_engine.Domain.Money.valid_currency
    jungle_wager_engine.Domain.Wager.external_is_bad is_blank jungle_wager_engine.Base.trim_space
    jungle_wager_engine.Domain.Id.hex_decode jungle_wager_engine.Domain.Wager.check_status
settled_valid = refl

bet-IsDue : IsDue new_bet 3
bet-IsDue = record {
  valid = bet_valid;
  unfinished = refl;
  timed = omega arith;
  later = omega arith;
}

result_good :
    result_is_bad (record new_bet { result_balance = reais 700; result_version = pos 2 }) ≡ false
unfolding result_is_bad jungle_wager_engine.Domain.Money.is_valid
    jungle_wager_engine.Domain.Money.valid_currency jungle_wager_engine.Base.eq_text
result_good = refl

bet_settles : Settles new_bet (reais 700) (pos 2) new_bet.reference_id 3
unfolding is_blank jungle_wager_engine.Base.eq_text
bet_settles = record {
  result = result_good;
  alike = refl;
  amount = refl;
  resolved = inl refl;
  unreferred = inl refl;
}

process-ok_example :
    process new_bet (reais 700) (pos 2) new_bet.reference_id 3
    ≡ ok (settled new_bet (reais 700) (pos 2) new_bet.reference_id 3)
process-ok_example =
    process-ok new_bet (reais 700) (pos 2) new_bet.reference_id 3 bet-IsDue bet_settles

code_named : is_blank (codes "OVERFLOW") ≡ false
unfolding is_blank jungle_wager_engine.Base.trim_space
code_named = refl

Step-Advances_example :
    Advances new_bet (settled new_bet (reais 700) (pos 2) new_bet.reference_id 3)
Step-Advances_example = Step-Advances (
    processes (reais 700) (pos 2) new_bet.reference_id 3
      (process-ok new_bet (reais 700) (pos 2) new_bet.reference_id 3 bet-IsDue bet_settles))

credit-ok_example :
    (credited ≡ moved_to wallet (reais 300) 5 (wallet.balance.minor +ℤ pos 300))
    × (pos 0 ≤ℤ pos 300)
    × IsInt64 (wallet.balance.minor +ℤ pos 300)
credit-ok_example = credit-ok wallet credited (reais 300) 5 fits credit_runs

subtract-exact_example :
    subtract (reais 300) (reais 1000)
    ≡ (check (reais 300) (reais 1000) >> exact (reais 300) (pos 300 -ℤ pos 1000))
subtract-exact_example = subtract-exact (reais 300) (reais 1000) fit_300 fit_1000
