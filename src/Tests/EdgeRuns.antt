-- ===== src/Tests/EdgeRuns.antt =====
-- Runs of the parsers, of the workers and of the HTTP answers.
use jungle_wager_engine.Base.{
  ℕ, zero, suc, ◌+◌, ◌*◌, ◌/◌, ◌^◌, ◌≤◌, ◌<◌, Bool, true, false, ◌≡◌, refl, arith, Option, none,
  some, List, [], ◌∷◌, Text, codes, is_empty, eq_text, any, ltb, if◌then◌else◌, pos, ◌⊎◌, inl, inr,
}
use jungle_wager_engine.Domain.Errors.{ok, app, not_found, error_code}
use jungle_wager_engine.Domain.Money.{valid_currency}
use jungle_wager_engine.Domain.Money.Parse.{parse_money, money_string}
use jungle_wager_engine.Domain.Money.Parse.RoundTrip.{parse_money-money_string}
use jungle_wager_engine.Application.{Command, InboxMessage}
use jungle_wager_engine.Store.Apply.{second}
use jungle_wager_engine.Workers.{backoff, decode, RequestEnvelope, consumer_name}
use jungle_wager_engine.Workers.Bounds.{backoff_bounds, decode-trusted}
use jungle_wager_engine.HttpApi.{application_error}
use jungle_wager_engine.HttpApi.Statuses.{application_error-hides}
use jungle_wager_engine.Tests.Data.{command, normal_command, hash}

brl_valid : valid_currency (codes "BRL") ≡ true
unfolding valid_currency eq_text
brl_valid = refl

parse_money-money_string_example :
    parse_money (money_string (record { minor = pos 2505; currency = codes "BRL" })) (codes "BRL")
    ≡ ok (record { minor = pos 2505; currency = codes "BRL" })
parse_money-money_string_example =
    parse_money-money_string 2505 (codes "BRL") brl_valid (omega arith)

half_draw : (n : ℕ) → 0 < n → n / 2 < n
half_draw n h = omega arith

backoff_bounds_example :
    (backoff 3 30000000000 (λ n. n / 2) ≤ 30000000000)
    × (backoff 3 30000000000 (λ n. n / 2) ≤ second * 2 ^ (if ltb 20 3 then 20 else 3))
    × (30000000000 ≤ second * 2 ^ (if ltb 20 3 then 20 else 3)
        → 30000000000 / 2 ≤ backoff 3 30000000000 (λ n. n / 2))
backoff_bounds_example = backoff_bounds 3 30000000000 (λ n. n / 2) half_draw

abbrev pub envelope : RequestEnvelope
envelope = record {
  message_id = codes "m-1";
  type = codes "WagerTransactionRequested";
  occurred_at = 7;
  request = record {
    provider_id = command.provider_id;
    external_transaction_id = command.external_transaction_id;
    idempotency_key = command.idempotency_key;
    player_id = command.player_id;
    wallet_id = command.wallet_id;
    round_id = command.round_id;
    game_id = command.game_id;
    kind = command.kind;
    amount = codes "3.00";
    currency = codes "BRL";
    reference_external_transaction_id = codes "";
  };
}

abbrev decoded_command : Command
decoded_command = record normal_command { correlation_id = codes "m-1"; causation_id = codes "m-1" }

abbrev decoded_message : InboxMessage
decoded_message = record {
  consumer_name = consumer_name;
  message_id = codes "m-1";
  payload_hash = hash;
}

decode_runs :
    decode (λ body. some envelope) (λ e c. ok hash) (codes "{}") (codes "acme" ∷ [])
    ≡ ok (decoded_command, decoded_message)
unfolding decode jungle_wager_engine.Base.len jungle_wager_engine.Base.eq_text
    jungle_wager_engine.Base.any jungle_wager_engine.Base.all jungle_wager_engine.Base.trim_space
    jungle_wager_engine.Workers.envelope_is_bad parse_money valid_currency
    jungle_wager_engine.Domain.Money.new_money jungle_wager_engine.Domain.Money.zero_money
    jungle_wager_engine.Domain.Money.Parse.split_dot
    jungle_wager_engine.Domain.Money.Parse.part_is_bad
    jungle_wager_engine.Domain.Money.Parse.from_parts
    jungle_wager_engine.Domain.Money.Parse.minor_units
    jungle_wager_engine.Domain.Money.Parse.pad_fraction
    jungle_wager_engine.Domain.Money.Parse.trim_zeros
    jungle_wager_engine.Domain.Money.Parse.digits_value
    jungle_wager_engine.Application.normalize_command jungle_wager_engine.Application.check_command
    jungle_wager_engine.Application.texts_are_bad jungle_wager_engine.Application.text_is_bad
    jungle_wager_engine.Application.to_upper_rune jungle_wager_engine.Application.kind_is_known
    jungle_wager_engine.Domain.Id.parse_id jungle_wager_engine.Domain.Id.id_string
decode_runs = refl

decode-trusted_example :
    (any (eq_text decoded_command.provider_id) (codes "acme" ∷ []) ≡ true)
    × (decoded_command.correlation_id ≡ decoded_message.message_id)
    × (decoded_command.causation_id ≡ decoded_message.message_id)
    × (is_empty decoded_message.message_id ≡ false)
decode-trusted_example =
    decode-trusted (λ body. some envelope) (λ e c. ok hash) (codes "{}") (codes "acme" ∷ [])
      decoded_command decoded_message decode_runs

application_error-hides_example :
    ((500 ≤ (application_error (app not_found)).status)
      × ((application_error (app not_found)).code ≡ codes "UNAVAILABLE"))
    ⊎ (((application_error (app not_found)).status ≤ 422)
        × ((application_error (app not_found)).code ≡ error_code (app not_found)))
application_error-hides_example = application_error-hides (app not_found)
