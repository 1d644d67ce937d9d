-- ===== src/Tests/StoreRuns.antt =====
-- Runs of the store.
use jungle_wager_engine.Base.{
  ◌+◌, ◌*◌, ltb, true, false, ◌≡◌, refl, arith, none, some, [], ◌∷◌, codes, pos, ◌-ℤ◌, ◌+ℤ◌, eq_ℤ,
  inl, inr, find, any, eq_text, len, trim_space, add64, sub64, wrap64, if◌then◌else◌,
}
use jungle_wager_engine.Domain.Errors.{ok, err, app, claim_lost, key_reused, external_reused}
use jungle_wager_engine.Domain.Id.{eq_id, parse_id, id_string, hex_decode, is_zero_id}
use jungle_wager_engine.Domain.Money.{new_money, subtract, valid_currency, is_valid}
use jungle_wager_engine.Domain.Wallet.{WalletData, validate_wallet}
use jungle_wager_engine.Domain.Wager.{WagerData, processed, validate_wager, rehydrate_wager}
use jungle_wager_engine.Application.{
  AppResult, normalize_command, check_command, texts_are_bad, text_is_bad, to_upper_rune,
  kind_is_known,
}
use jungle_wager_engine.Store.Tables.{
  WagerRow, OutboxRow, has_id, ledger_total, ledger_count, signed,
}
use jungle_wager_engine.Store.Monad.{World, gets, lift, modify, pure, raise, ◌>>=◌, translate}
use jungle_wager_engine.Store.Rows.{result_of, statement, wrap}
use jungle_wager_engine.Store.Apply.Conserves.{IsBalanced}
use jungle_wager_engine.Store.Process.{process_wager, identity_row}
use jungle_wager_engine.Store.Process.Books.{process_wager-IsBalanced}
use jungle_wager_engine.Store.Process.Replay.{process_wager-replays, reused-refused}
use jungle_wager_engine.Store.Create.{Reconciliation, reconcile}
use jungle_wager_engine.Store.Create.Reconcile.{reconcile-reports}
use jungle_wager_engine.Domain.Ledger.{debit_direction}
use jungle_wager_engine.Domain.Events.{wallet_balance_changed}
use jungle_wager_engine.Store.Apply.{second}
use jungle_wager_engine.Store.Work.{mark_published, retry_outbox, reference_delay}
use jungle_wager_engine.Store.Work.Claims.{claim-once}
use jungle_wager_engine.Store.Work.Delay.{reference_delay-doubles}
use jungle_wager_engine.Domain.Wager.{pending_reference}
use jungle_wager_engine.Store.Apply.Sound.{IsSound}
use jungle_wager_engine.Store.Work.{ReferenceClaim, retry_reference}
use jungle_wager_engine.Store.Lasting.Amounts.{AmountsFit}
use jungle_wager_engine.Store.Work.Books.{retry_reference-IsBalanced}
use jungle_wager_engine.Store.Work.Ending.Applied.{HasEnded}
use jungle_wager_engine.Store.Work.Ending.{retry_reference-ends}
use jungle_wager_engine.Tests.Data.{
  new_rollback, bytes, env, command, normal_command, wallet, wallet_id, settled_bet, start, db,
  seen, seen_row, db-IsSound, others_sound, reais, reais_fit,
}

process_wager-IsBalanced_example : IsBalanced (process_wager env command none start).1.db
process_wager-IsBalanced_example =
    process_wager-IsBalanced env command none start others_sound reais_fit db-IsSound

command_normal : normalize_command command ≡ ok normal_command
unfolding normalize_command check_command texts_are_bad text_is_bad to_upper_rune kind_is_known
    parse_id id_string len trim_space new_money valid_currency any eq_text
command_normal = refl

bet_seen : identity_row normal_command seen.db.wagers ≡ some seen_row
unfolding identity_row find eq_text
bet_seen = refl

bet_valid : validate_wager settled_bet ≡ ok tt
unfolding validate_wager jungle_wager_engine.Domain.Wager.identity_is_bad is_zero_id eq_text
    is_valid valid_currency jungle_wager_engine.Domain.Wager.external_is_bad
    jungle_wager_engine.Domain.Wager.is_blank trim_space hex_decode
    jungle_wager_engine.Domain.Wager.check_status
bet_valid = refl

wallet_valid : validate_wallet wallet ≡ ok tt
unfolding validate_wallet is_zero_id eq_text is_valid valid_currency
wallet_valid = refl

wallet_stored : find (has_id settled_bet.wallet_id) seen.db.wallets ≡ some wallet
unfolding find eq_id eq_text
wallet_stored = refl

process_wager-replays_example :
    ((process_wager env command none seen).0 ≡ ok (result_of settled_bet wallet true))
    × ((process_wager env command none seen).1.db ≡ seen.db)
process_wager-replays_example =
    process_wager-replays env command normal_command seen seen_row command_normal bet_seen bet_valid
      (λ n. refl) wallet refl refl wallet_stored wallet_valid

-- What a reconciliation of the wallet reports.
abbrev report : Reconciliation
report = record {
  wallet_id = wallet_id;
  stored_balance = reais 1000;
  calculated_balance = reais 1000;
  difference = reais 0;
  consistent = true;
  checked_entries = 1;
}

reconcile_runs : (reconcile env command.wallet_id start).0 ≡ ok report
unfolding ◌>>=◌ pure lift raise gets modify translate reconcile parse_id statement wrap find eq_id
    ledger_total ledger_count signed new_money valid_currency subtract ◌+ℤ◌ ◌-ℤ◌ len eq_text add64
    wrap64 sub64
reconcile_runs = refl

reconcile-reports_example :
    (w : WalletData) × (find (has_id w.id) start.db.wallets ≡ some w)
    × (report.wallet_id ≡ w.id)
    × (report.stored_balance.minor ≡ w.balance.minor)
    × (report.calculated_balance.minor ≡ ledger_total w.id start.db.ledger)
    × (report.difference.minor ≡ w.balance.minor -ℤ ledger_total w.id start.db.ledger)
    × (report.consistent ≡ eq_ℤ w.balance.minor (ledger_total w.id start.db.ledger))
    × (report.checked_entries ≡ ledger_count w.id start.db.ledger)
reconcile-reports_example =
    reconcile-reports env command.wallet_id start report db-IsSound.in_range reconcile_runs

-- The bet's row with the hash of another payload.
abbrev altered_row : WagerRow
altered_row = record seen_row {
  wager = record settled_bet {
    payload_hash = codes "1111111111111111111111111111111111111111111111111111111111111111";
  };
}

abbrev altered : World
altered = record { db = record db { wagers = altered_row ∷ [] }; step = 0 }

altered_seen : identity_row normal_command altered.db.wagers ≡ some altered_row
unfolding identity_row find eq_text
altered_seen = refl

altered_valid : validate_wager altered_row.wager ≡ ok tt
unfolding validate_wager jungle_wager_engine.Domain.Wager.identity_is_bad is_zero_id eq_text
    is_valid valid_currency jungle_wager_engine.Domain.Wager.external_is_bad
    jungle_wager_engine.Domain.Wager.is_blank trim_space hex_decode
    jungle_wager_engine.Domain.Wager.check_status
altered_valid = refl

hash_differs : eq_text altered_row.wager.payload_hash (env.payload_hash normal_command) ≡ false
unfolding eq_text
hash_differs = refl

reused-refused_example :
    ((process_wager env command none altered).0
      ≡ err (
          app (
            if eq_text altered_row.wager.idempotency_key normal_command.idempotency_key
            then key_reused
            else external_reused)))
    × ((process_wager env command none altered).1.db ≡ env.others altered.db)
reused-refused_example =
    reused-refused env command normal_command altered altered_row command_normal altered_seen
      altered_valid (λ n. refl) (inr hash_differs)

abbrev pub event_row : OutboxRow
event_row = record {
  event = record {
    id = bytes 50;
    aggregate_id = wallet_id;
    correlation_id = codes "c-1";
    causation_id = codes "";
    occurred_at = 3;
    payload = wallet_balance_changed (record {
      wallet_id = wallet_id;
      transaction_id = bytes 9;
      direction = debit_direction;
      money = reais 300;
      balance_before = reais 1000;
      balance_after = reais 700;
      wallet_version = pos 2;
    });
  };
  occurred_at = 3;
  attempts = 0;
  next_attempt_at = 3;
  claim = some (record { by = codes "worker"; token = bytes 51; until = 500 });
  published = false;
}

abbrev pub claimed : World
claimed = record { db = record db { outbox = event_row ∷ [] }; step = 0 }

mark_runs : (mark_published env (bytes 50) (bytes 51) claimed).0 ≡ ok tt
unfolding ◌>>=◌ pure lift raise gets modify translate mark_published statement find eq_id eq_text
mark_runs = refl

abbrev after_mark : World
after_mark = record { db = (mark_published env (bytes 50) (bytes 51) claimed).1.db; step = 7 }

claim-once_example :
    ((mark_published env (bytes 50) (bytes 51) after_mark).0 ≡ err (app claim_lost))
    × ((retry_outbox env (bytes 50) (bytes 51) 1000000 after_mark).0 ≡ err (app claim_lost))
claim-once_example =
    claim-once env (bytes 50) (bytes 51) 2000000 1000000 claimed after_mark (inl (mark_runs, refl))
      refl

reference_delay-doubles_example :
    (reference_delay 0 ≡ second)
    × (reference_delay (11 + 1) ≡ (
        if ltb (3600 * second) (2 * reference_delay 11)
        then 3600 * second
        else 2 * reference_delay 11))
reference_delay-doubles_example = reference_delay-doubles 11

-- A rollback that waits for its reference, claimed by a worker.
abbrev waiting_row : WagerRow
waiting_row = record seen_row {
  wager = record new_rollback { status = pending_reference };
  next_reference_attempt_at = some 90;
  claim = some (record { by = codes "worker"; token = bytes 51; until = 500 });
}

abbrev waiting : World
waiting = record { db = record db { wagers = waiting_row ∷ seen_row ∷ [] }; step = 0 }

waiting-IsSound : IsSound waiting.db
waiting-IsSound = record {
  balanced = db-IsSound.balanced;
  in_range = db-IsSound.in_range;
  closed = db-IsSound.closed;
}

waiting_amounts : AmountsFit (env.others waiting.db).wagers
waiting_amounts = (reais_fit, (reais_fit, tt))

abbrev claim : ReferenceClaim
claim = record { transaction_id = bytes 10; wallet_id = wallet_id; claim_token = bytes 51 }

retry_reference-IsBalanced_example :
    IsBalanced (retry_reference env claim 12 86400000000000 waiting).1.db
retry_reference-IsBalanced_example =
    retry_reference-IsBalanced env claim 12 86400000000000 waiting others_sound waiting-IsSound
      waiting_amounts

-- The bet that it takes back is stored by now.
abbrev taken_back : AppResult
taken_back = record {
  transaction_id = id_string (bytes 10);
  status = processed;
  balance = reais 1300;
  wallet_version = pos 2;
  failure_code = [];
  idempotent_replay = false;
}

last_runs : (retry_reference env claim 1 86400000000000 waiting).0 ≡ ok taken_back
unfolding retry_reference jungle_wager_engine.Store.Process.transact
    jungle_wager_engine.Store.Work.retry_body ◌>>=◌ pure statement wrap
    jungle_wager_engine.Store.Rows.lock_wallet lift parse_id len id_string eq_text modify gets
    jungle_wager_engine.Store.Rows.scan_wallet jungle_wager_engine.Base.find eq_id
    jungle_wager_engine.Domain.Wallet.rehydrate_wallet is_zero_id is_valid valid_currency
    jungle_wager_engine.Store.Rows.server_now translate jungle_wager_engine.Store.Rows.scan_wager
    rehydrate_wager validate_wager jungle_wager_engine.Domain.Wager.identity_is_bad
    jungle_wager_engine.Domain.Wager.external_is_bad jungle_wager_engine.Domain.Wager.is_blank
    trim_space jungle_wager_engine.Domain.Wager.check_status jungle_wager_engine.Store.Work.attempt
    jungle_wager_engine.Store.Rows.now jungle_wager_engine.Store.Work.guarded_apply
    jungle_wager_engine.Store.Apply.apply jungle_wager_engine.Store.Apply.find_reference
    jungle_wager_engine.Store.Tables.update_where jungle_wager_engine.Store.Apply.lock_reference
    jungle_wager_engine.Store.Apply.is_reversed jungle_wager_engine.Domain.Evaluate.evaluate
    jungle_wager_engine.Domain.Evaluate.evaluate_owned jungle_wager_engine.Domain.Evaluate.decide
    jungle_wager_engine.Domain.Evaluate.check_optional
    jungle_wager_engine.Domain.Evaluate.check_reference
    jungle_wager_engine.Domain.Evaluate.reference_differs
    jungle_wager_engine.Domain.Evaluate.kind_mismatch any
    jungle_wager_engine.Domain.Evaluate.direction_of jungle_wager_engine.Store.Apply.carry_out
    jungle_wager_engine.Store.Apply.expire jungle_wager_engine.Domain.Evaluate.check_funds
    jungle_wager_engine.Domain.Money.add sub64 wrap64 ◌-ℤ◌ jungle_wager_engine.Store.Apply.settle
    jungle_wager_engine.Store.Apply.move_by jungle_wager_engine.Domain.Wallet.credit
    jungle_wager_engine.Domain.Wager.process add64 ◌+ℤ◌
    jungle_wager_engine.Store.Apply.write_movement jungle_wager_engine.Store.Apply.write_entry
    jungle_wager_engine.Store.Apply.insert_ledger jungle_wager_engine.Store.Rows.allocate_id
    jungle_wager_engine.Domain.Ledger.new_ledger_entry
    jungle_wager_engine.Domain.Money.compare_money jungle_wager_engine.Domain.Events.new_wager_event
    jungle_wager_engine.Store.Apply.insert_event jungle_wager_engine.Store.Apply.write_balance_event
    jungle_wager_engine.Domain.Events.new_wallet_balance_changed
    jungle_wager_engine.Store.Work.postpone result_of jungle_wager_engine.Store.Process.commit
    jungle_wager_engine.Store.Apply.conclude jungle_wager_engine.Store.Apply.persist_result
    jungle_wager_engine.Store.Apply.write_events jungle_wager_engine.Store.Apply.wager_event
    jungle_wager_engine.Domain.Events.new_wager_processed
last_runs = refl

retry_reference-ends_example :
    HasEnded claim.transaction_id taken_back
      (retry_reference env claim 1 86400000000000 waiting).1.db
retry_reference-ends_example =
    retry_reference-ends env claim 1 86400000000000 waiting taken_back (λ db last. last)
      ((λ same. omega arith), ((λ same. omega arith), tt)) last_runs
