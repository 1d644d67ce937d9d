-- ===== src/Application.antt =====
-- internal/application: the commands that both transports share, and their canonical form.
use jungle_wager_engine.Base.{
  ℕ, ◌-◌, Bool, ◌&&◌, ◌||◌, not, [], ◌∷◌, map, Text, codes, is_empty, eq_text, len, trim_space, any,
  ltb, leb, ◌==◌, if◌then◌else◌, ℤ, pos, ltb_ℤ,
}
use jungle_wager_engine.Domain.Errors.{
  Result, ok, ◌>>=◌, ◌>>◌, refuse, app, invalid_input, app_invalid_amount, invalid_kind,
  reference_required,
}
use jungle_wager_engine.Domain.Id.{parse_id, id_string}
use jungle_wager_engine.Domain.Money.{Money, new_money}
use jungle_wager_engine.Domain.Wager.{Status}

pub record Command : Type 0 where
  pub provider_id : Text
  pub external_transaction_id : Text
  pub idempotency_key : Text
  pub player_id : Text
  pub wallet_id : Text
  pub round_id : Text
  pub game_id : Text
  pub kind : Text
  pub money : Money
  pub reference_external_transaction_id : Text
  pub correlation_id : Text
  pub causation_id : Text

pub record AppResult : Type 0 where
  pub transaction_id : Text
  pub status : Status
  pub balance : Money
  pub wallet_version : ℤ
  pub failure_code : Text
  pub idempotent_replay : Bool

pub record InboxMessage : Type 0 where
  pub consumer_name : Text
  pub message_id : Text
  pub payload_hash : Text

-- `strings.ToUpper`, as far as comparisons with ASCII words can see: the long s and the dotless i
-- have ASCII capitals, and the capitals of other characters beyond ASCII are beyond ASCII.
unfoldable pub to_upper_rune : ℕ → ℕ
to_upper_rune c =
    if leb b'a' c && leb c b'z'
    then c - 32
    else if c == 305
    then b'I'
    else if c == 383
    then b'S'
    else c

-- An identity that is empty, longer than 256 bytes, or surrounded by space.
unfoldable pub text_is_bad : Text → Bool
text_is_bad s = len s == 0 || ltb 256 (len s) || not (eq_text (trim_space s) s)

unfoldable pub kind_is_known : Text → Bool
kind_is_known k =
    eq_text k (codes "BET")
    || eq_text k (codes "WIN")
    || eq_text k (codes "LOSS")
    || eq_text k (codes "REFUND")
    || eq_text k (codes "ROLLBACK")

unfoldable pub texts_are_bad : Command → Bool
texts_are_bad c =
    any text_is_bad
      (c.provider_id ∷ c.external_transaction_id ∷ c.idempotency_key ∷ c.round_id ∷ c.game_id ∷ [])

-- The checks of `NormalizeCommand` on a command in canonical form.
unfoldable pub check_command : Command → Result (Unit {0})
check_command c = do
  refuse (texts_are_bad c) (app invalid_input)
  refuse (ltb 256 (len c.reference_external_transaction_id)) (app invalid_input)
  _ ← new_money c.money.minor c.money.currency
  refuse (ltb_ℤ c.money.minor (pos 0)) (app app_invalid_amount)
  refuse (not (kind_is_known c.kind)) (app invalid_kind)
  refuse
      ((eq_text c.kind (codes "REFUND") || eq_text c.kind (codes "ROLLBACK"))
        && is_empty c.reference_external_transaction_id)
      (app reference_required)

unfoldable pub normalize_command : Command → Result Command
normalize_command c = do
  player ← parse_id c.player_id
  wallet ← parse_id c.wallet_id
  let canonical : Command = record c {
    player_id = id_string player;
    wallet_id = id_string wallet;
    kind = map to_upper_rune c.kind;
  }
  check_command canonical
  ok (record canonical {
    correlation_id =
        if is_empty c.correlation_id then c.external_transaction_id else c.correlation_id;
  })
