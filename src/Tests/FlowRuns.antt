-- ===== src/Tests/FlowRuns.antt =====
-- Runs that go through several parts: sequences of the store's transactions, a message, a request,
-- the claims of two workers, and an environment.
use jungle_wager_engine.Base.{
  ℕ, ◌+◌, ◌*◌, ◌≤◌, ◌<◌, Bool, true, false, ◌≡◌, ◌⊎◌, refl, arith, int_laws, Option, none, some,
  List, [], ◌∷◌, Text, codes, eq_text, is_empty, pos, IsInt64, All, any, find, trim_space,
  trim_left, is_space, len, all, if◌then◌else◌,
}
use jungle_wager_engine.Domain.Errors.{ok}
use jungle_wager_engine.Domain.Id.{
  Uuid, eq_id, hex_char, hex_decode, hex_digit, hex_encode, id_string, parse_id,
}
use jungle_wager_engine.Domain.Money.{new_money, valid_currency, zero_money}
use jungle_wager_engine.Domain.Money.Parse.{
  digits_value, from_parts, minor_units, pad_fraction, parse_money, part_is_bad, split_dot,
  trim_zeros,
}
use jungle_wager_engine.Domain.Ledger.{debit_direction}
use jungle_wager_engine.Domain.Events.{wallet_balance_changed}
use jungle_wager_engine.Application.{Command, AppResult, InboxMessage}
use jungle_wager_engine.Store.Tables.{OutboxRow, update_where}
use jungle_wager_engine.Store.Monad.{World, ◌>>=◌, pure, gets, modify}
use jungle_wager_engine.Store.Apply.Sound.{IsSound}
use jungle_wager_engine.Store.Lasting.Unique.{IsUnique}
use jungle_wager_engine.Store.Lasting.Settled.{IsStored}
use jungle_wager_engine.Store.Process.{process_wager}
use jungle_wager_engine.Store.Create.{CreateWalletCommand, create_wallet}
use jungle_wager_engine.Store.Create.Books.{create_wallet-IsSound}
use jungle_wager_engine.Store.Claim.{
  OutboxRecord, claim_outbox, claim_events, select, is_due, insert_sorted, new_token, event_before,
  id_before,
}
use jungle_wager_engine.Store.Work.{whole_milliseconds, mark_published}
use jungle_wager_engine.Store.Rows.{statement, server_now}
use jungle_wager_engine.Store.Claim.Exclusive.{claims_disjoint}
use jungle_wager_engine.Store.Runs.{
  Reaches, stays, moves, processes, creates, IsWhole, OthersWhole, Reaches-IsWhole,
  Reaches-IsStored, empty_db, empty-IsWhole,
}
use jungle_wager_engine.Store.Reversals.{IsReversedOnce, reversals}
use jungle_wager_engine.Store.Runs.Reversals.{Reaches-IsReversedOnce}
use jungle_wager_engine.Config.{Config, Surroundings, load, loaded, seconds}
use jungle_wager_engine.Config.Bounds.{IsRunnable, load-IsRunnable}
use jungle_wager_engine.Workers.Consume.{Message, Consumer, acknowledged, handle}
use jungle_wager_engine.Workers.Consume.Whole.{IsRetained, handle-acknowledges}
use jungle_wager_engine.Workers.{decode}
use jungle_wager_engine.Workers.Outbox.{publish_one}
use jungle_wager_engine.Workers.Outbox.Progress.{is_published, publish_one-honest}
use jungle_wager_engine.HttpApi.Requests.{
  Principal, pass, decoded, Request, WagerBody, read_wager, and_then, correlation_of,
  valid_correlation, authorize, bearer, nonempty, split_spaces, equal_fold, is_forbidden,
  decode_body, wager_command,
}
use jungle_wager_engine.HttpApi.Requests.Guarded.{IsAllowed, read_wager-own}
use jungle_wager_engine.HttpApi.Reads.{
  show_ledger, show_wallet, show_reconciliation, show_transaction, show_external,
}
use jungle_wager_engine.HttpApi.Reads.Silent.{reads-silent}
use jungle_wager_engine.Tests.Data.{
  bytes, env, command, hash, db, start, seen, seen_row, db-IsSound, others_sound, reais, reais_fit,
}
use jungle_wager_engine.Tests.EdgeRuns.{envelope}
use jungle_wager_engine.Tests.PageRuns.{codec}

abbrev migrated : World
migrated = record { db = empty_db; step = 0 }

abbrev new_account : CreateWalletCommand
new_account = record {
  player_id = command.player_id;
  initial_balance = reais 300;
  correlation_id = codes "c-0";
}

create_wallet-IsSound_example : IsSound (create_wallet env new_account migrated).1.db
create_wallet-IsSound_example =
    create_wallet-IsSound env new_account migrated others_sound reais_fit empty-IsWhole.sound

pub others_whole : OthersWhole env
others_whole = record { sound = λ d g. g; unique = λ d u. u; amounts = λ d a. a }

-- A wallet is made, and a bet is placed on it.
abbrev opened : World
opened = (create_wallet env new_account migrated).1

two_steps : Reaches env migrated (process_wager env command none opened).1
two_steps = moves (moves stays (creates new_account reais_fit)) (processes command none reais_fit)

Reaches-IsWhole_example : IsWhole (process_wager env command none opened).1.db
Reaches-IsWhole_example = Reaches-IsWhole env others_whole two_steps empty-IsWhole

seen-IsStored : IsStored seen_row seen.db.wagers
unfolding IsUnique any find eq_id eq_text
seen-IsStored = record { unique = (refl, tt); found = refl }

replayed : Reaches env seen (process_wager env command none seen).1
replayed = moves stays (processes command none reais_fit)

Reaches-IsStored_example : IsStored seen_row (process_wager env command none seen).1.db.wagers
Reaches-IsStored_example = Reaches-IsStored env seen_row refl (λ d g. g) replayed seen-IsStored

-- The bet is rolled back, and then once more by another command.
abbrev rollback_command : Text → Command
rollback_command key = record command {
  external_transaction_id = key;
  idempotency_key = key;
  kind = codes "rollback";
  reference_external_transaction_id = codes "t-1";
}

abbrev rolled_back : World
rolled_back = (process_wager env (rollback_command (codes "t-2")) none seen).1

twice : Reaches env seen (process_wager env (rollback_command (codes "t-3")) none rolled_back).1
twice =
    moves (moves stays (processes (rollback_command (codes "t-2")) none reais_fit))
      (processes (rollback_command (codes "t-3")) none reais_fit)

pub seen-IsReversedOnce : IsReversedOnce seen.db.wagers
unfolding IsUnique any reversals
seen-IsReversedOnce = record { unique = (refl, tt); once = λ id. ground arith }

Reaches-IsReversedOnce_example :
    IsReversedOnce (process_wager env (rollback_command (codes "t-3")) none rolled_back).1.db.wagers
Reaches-IsReversedOnce_example = Reaches-IsReversedOnce env (λ d g. g) twice seen-IsReversedOnce

abbrev pub outbox_row : OutboxRow
outbox_row = record {
  event = record {
    id = bytes 40;
    aggregate_id = bytes 1;
    correlation_id = codes "c-1";
    causation_id = codes "";
    occurred_at = 3;
    payload = wallet_balance_changed (record {
      wallet_id = bytes 1;
      transaction_id = bytes 9;
      direction = debit_direction;
      money = reais 300;
      balance_before = reais 1000;
      balance_after = reais 700;
      wallet_version = pos 2;
    });
  };
  occurred_at = 3;
  attempts = 0;
  next_attempt_at = 3;
  claim = none;
  published = false;
}

abbrev pub waiting_event : World
waiting_event = record { db = record db { outbox = outbox_row ∷ [] }; step = 0 }

abbrev pub none_locked : Uuid → Bool
none_locked id = false

abbrev pub minute : ℕ
minute = 60000000000

abbrev first_claim : List OutboxRecord
first_claim = record { event = outbox_row.event; claim_token = bytes 23; attempts = 0 } ∷ []

abbrev claimed_event : World
claimed_event = (claim_outbox env none_locked (codes "a") 10 minute waiting_event).1

first_claims : (claim_outbox env none_locked (codes "a") 10 minute waiting_event).0 ≡ ok first_claim
unfolding claim_outbox ◌>>=◌ statement pure server_now gets claim_events select is_due insert_sorted
    new_token modify update_where eq_id eq_text event_before id_before
first_claims = refl

second_claims : (claim_outbox env none_locked (codes "b") 10 minute claimed_event).0 ≡ ok []
unfolding claim_outbox ◌>>=◌ statement pure server_now gets claim_events select is_due insert_sorted
    new_token modify update_where eq_id eq_text event_before id_before
second_claims = refl

soon_enough :
    env.server_clock (claimed_event.step + 1) ≤ env.server_clock 2 + whole_milliseconds minute
unfolding claim_outbox ◌>>=◌ statement pure server_now gets claim_events select is_due insert_sorted
    new_token modify update_where eq_id eq_text event_before id_before
soon_enough = omega arith

claims_disjoint_example :
    All (λ a. All (λ (b : OutboxRecord). eq_id b.event.id a.event.id ≡ false) []) first_claim
claims_disjoint_example =
    claims_disjoint env none_locked none_locked (codes "a") (codes "b") 10 10 minute minute
      waiting_event claimed_event first_claim [] first_claims second_claims refl soon_enough

abbrev settings : Text → Text
settings key =
    if eq_text key (codes "DATABASE_URL")
    then codes "postgres://db"
    else if eq_text key (codes "OIDC_ISSUER")
    then codes "http://idp"
    else codes ""

abbrev surroundings : Surroundings
surroundings = record {
  getenv = settings;
  instance_name = some (codes "host-1");
  atoi = λ t. none;
  parse_bool = λ t. none;
  parse_duration = λ t. none;
}

-- What the two required variables give.
abbrev defaults : Config
defaults = record {
  database_url = codes "postgres://db";
  http_addr = codes ":8080";
  instance_id = codes "host-1";
  oidc_issuer = codes "http://idp";
  oidc_fetch_issuer = codes "";
  oidc_audience = codes "jungle-api";
  oidc_allow_http = false;
  aws_region = codes "us-east-1";
  sqs_endpoint = codes "";
  input_queue = codes "wager-transactions.fifo";
  output_queue = codes "wager-events.fifo";
  input_dlq = codes "wager-transactions-dlq.fifo";
  output_dlq = codes "wager-events-dlq.fifo";
  trusted_providers = codes "provider-a" ∷ codes "provider-b" ∷ [];
  concurrency = pos 4;
  publish_batch = pos 100;
  max_conns = pos 20;
  process_timeout = seconds 30;
  visibility_timeout = seconds 60;
  shutdown_timeout = seconds 45;
  lease = seconds 60;
  poll_interval = seconds 1;
  reference_ttl = seconds 86400;
  reference_max_attempts = pos 12;
}

loaded_by_default : load surroundings ≡ loaded defaults
unfolding load jungle_wager_engine.Config.◌>>=◌ jungle_wager_engine.Config.override eq_text
    jungle_wager_engine.Config.int_or jungle_wager_engine.Config.duration_or
    jungle_wager_engine.Config.check_config jungle_wager_engine.Config.unless
    jungle_wager_engine.Config.workers_are_bad jungle_wager_engine.Config.deadlines_are_bad
    jungle_wager_engine.Base.◌+ℤ◌ any jungle_wager_engine.Config.split_commas
    jungle_wager_engine.Config.env_or trim_space jungle_wager_engine.Base.add64
    jungle_wager_engine.Base.wrap64
loaded_by_default = refl

load-IsRunnable_example : IsRunnable defaults
load-IsRunnable_example = load-IsRunnable surroundings defaults loaded_by_default

abbrev pub consumer : Consumer
consumer = record {
  json = λ body. some envelope;
  inbox_hash = λ e c. ok hash;
  providers = codes "acme" ∷ [];
  deletes = λ receipt. true;
  hides = λ receipt delay. false;
  stopping = false;
  draw = λ n. 0;
}

abbrev pub message : Message
message = record { body = codes "{}"; receipt = codes "r"; receive_count = 1 }

pub start-IsWhole : IsWhole start.db
unfolding IsUnique
start-IsWhole = record { sound = db-IsSound; unique = tt; amounts = tt }

no_draw : (n : ℕ) → 0 < n → consumer.draw n < n
no_draw n h = h

handle-acknowledges_example :
    ((handle consumer env message start).0 ≡ acknowledged
      × ((c : Command) × (inbox : InboxMessage) × (result : AppResult) × (decode consumer.json
              consumer.inbox_hash message.body consumer.providers
            ≡ ok (c, inbox))
          × ((process_wager env c (some inbox) start).0 ≡ ok result)
          × ((handle consumer env message start).1 ≡ (process_wager env c (some inbox) start).1)))
    ⊎ IsRetained consumer message (handle consumer env message start).0
handle-acknowledges_example = handle-acknowledges consumer env message start no_draw

abbrev claimed_record : OutboxRecord
claimed_record = record { event = outbox_row.event; claim_token = bytes 23; attempts = 0 }

publish_one-honest_example :
    ((publish_one env (λ e. true) (λ n. 0) claimed_record claimed_event).0 ≡ true
      → (true ≡ true)
        × ((mark_published env outbox_row.event.id (bytes 23) claimed_event).0 ≡ ok tt))
    × (true ≡ false
        → (id : Uuid)
        → any
            (is_published id)
            (publish_one env (λ e. true) (λ n. 0) claimed_record claimed_event).1.db.outbox
          ≡ any (is_published id) claimed_event.db.outbox)
publish_one-honest_example =
    publish_one-honest env (λ e. true) (λ n. 0) claimed_record claimed_event

abbrev member : Principal
member = record {
  subject = codes "acme-client";
  provider_id = codes "acme";
  has_scope = λ scope. eq_text scope (codes "wager:write");
}

abbrev validate : Text → Option Principal
validate token = if eq_text token (codes "t0ken") then some member else none

abbrev request : Request WagerBody
request = record {
  correlation = codes "c-1";
  authorization = codes "Bearer t0ken";
  is_json = true;
  body = decoded (record {
    provider_id = codes "acme";
    external_transaction_id = command.external_transaction_id;
    player_id = command.player_id;
    wallet_id = command.wallet_id;
    round_id = command.round_id;
    game_id = command.game_id;
    kind = command.kind;
    amount = codes "3.00";
    currency = codes "BRL";
    reference_external_transaction_id = codes "";
  });
  idempotency_key = codes "k-1";
}

posted : read_wager validate none request ≡ pass command
unfolding read_wager and_then correlation_of valid_correlation len all any authorize bearer nonempty
    split_spaces is_space equal_fold eq_text is_forbidden decode_body wager_command trim_space
    trim_left hex_char hex_decode hex_digit hex_encode id_string parse_id digits_value from_parts
    minor_units pad_fraction parse_money part_is_bad split_dot trim_zeros new_money valid_currency
    zero_money
posted = refl

read_wager-own_example :
    (p : Principal) × IsAllowed validate (codes "wager:write") true (codes "Bearer t0ken") p
    × (codes "acme" ≡ p.provider_id)
    × (codes "k-1" ≡ codes "k-1")
    × (is_empty (trim_space (codes "k-1")) ≡ false)
    × IsInt64 (pos 300)
read_wager-own_example = read_wager-own validate none request command posted

reads-silent_example :
    ((show_ledger env codec (λ t. none) command.wallet_id (codes "") (codes "") seen).1.db
      ≡ seen.db)
    × ((show_wallet env command.wallet_id seen).1.db ≡ seen.db)
    × ((show_reconciliation env command.wallet_id seen).1.db ≡ seen.db)
    × ((show_transaction env member command.wallet_id seen).1.db ≡ seen.db)
    × ((show_external env member (codes "acme") (codes "t-1") seen).1.db ≡ seen.db)
reads-silent_example =
    reads-silent env member command.wallet_id (codes "acme") (codes "t-1") seen codec (λ t. none)
      (codes "") (codes "")
