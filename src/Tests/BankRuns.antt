-- ===== src/Tests/BankRuns.antt =====
-- A bet, as the bank answers it.
use jungle_wager_engine.Base.{
  ◌≡◌, refl, none, Text, codes, trim_space, trim_left, is_space, eq_text,
}
use jungle_wager_engine.Domain.Errors.{ok}
use jungle_wager_engine.Application.{normalize_command}
use jungle_wager_engine.Store.Process.{kind_of, process_wager}
use jungle_wager_engine.Store.Bank.Refined.{Refines}
use jungle_wager_engine.Store.Bank.Serving.{process_wager-Refines}
use jungle_wager_engine.Tests.Data.{
  env, command, normal_command, start, db, db-IsSound, others_sound, reais_fit,
}

command-normal : normalize_command command ≡ ok normal_command
unfolding normalize_command jungle_wager_engine.Domain.Id.parse_id jungle_wager_engine.Base.len
    eq_text jungle_wager_engine.Application.check_command
    jungle_wager_engine.Application.texts_are_bad jungle_wager_engine.Base.any
    jungle_wager_engine.Application.text_is_bad trim_space
    jungle_wager_engine.Domain.Money.new_money jungle_wager_engine.Domain.Money.valid_currency
    jungle_wager_engine.Application.kind_is_known jungle_wager_engine.Application.to_upper_rune
    jungle_wager_engine.Domain.Id.id_string
command-normal = refl

process_wager-Refines_example :
    Refines env db
      (kind_of (codes "BET"))
      command.wallet_id
      normal_command.money.minor
      (process_wager env command none start).0
      (process_wager env command none start).1.db.wallets
process_wager-Refines_example =
    process_wager-Refines env command normal_command none start others_sound db-IsSound
      command-normal reais_fit
