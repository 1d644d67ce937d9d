-- ===== src/Domain/Wager.antt =====
-- internal/domain/wager.go up to `Fail`: a transaction's data, its validation and its transitions.
-- A `WagerTransaction` is its `WagerData`; a method that mutates the receiver returns the new data.
-- `Evaluate` is in the module of that name.
pub mod Transitions
pub mod Steps
use jungle_wager_engine.Base.{
  ℕ, Bool, true, false, ◌&&◌, ◌||◌, not, Option, none, some, Text, codes, is_empty, eq_text,
  trim_space, length, ltb, ◌==◌, if◌then◌else◌, ℤ, pos, ltb_ℤ, leb_ℤ, eq_ℤ,
}
use jungle_wager_engine.Domain.Errors.{
  Result, ok, err, ◌>>=◌, ◌>>◌, refuse, invalid, invalid_wager, invalid_state,
  invalid_amount_for_kind,
}
use jungle_wager_engine.Domain.Id.{Uuid, is_zero_id, hex_decode}
use jungle_wager_engine.Domain.Money.{Money, is_valid}
use jungle_wager_engine.Domain.Wallet.{Time, is_zero_time}

-- `Kind` and `Status` are strings in the source: the last constructor is any other text.
pub data Kind : Type 0 where
  opening bet win loss refund rollback : Kind
  other_kind : Text → Kind

pub data Status : Type 0 where
  pending pending_reference processed rejected failed : Status
  other_status : Text → Status

-- `Terminal`
abbrev pub is_terminal : Status → Bool
is_terminal processed = true
is_terminal rejected = true
is_terminal failed = true
is_terminal _ = false

abbrev pub is_opening : Kind → Bool
is_opening opening = true
is_opening _ = false

abbrev pub is_loss : Kind → Bool
is_loss loss = true
is_loss _ = false

abbrev pub is_bet : Kind → Bool
is_bet bet = true
is_bet _ = false

-- `kind == KindREFUND || kind == KindROLLBACK`
abbrev pub is_reversal : Kind → Bool
is_reversal refund = true
is_reversal rollback = true
is_reversal _ = false

unfoldable pub external_kind : Kind → Bool
external_kind opening = false
external_kind (other_kind _) = false
external_kind _ = true

abbrev pub is_pending : Status → Bool
is_pending pending = true
is_pending _ = false

abbrev pub is_pending_reference : Status → Bool
is_pending_reference pending_reference = true
is_pending_reference _ = false

abbrev pub is_processed : Status → Bool
is_processed processed = true
is_processed _ = false

pub record WagerData : Type 0 where
  pub id : Uuid
  pub wallet_id : Uuid
  pub player_id : Uuid
  pub provider_id : Text
  pub external_transaction_id : Text
  pub idempotency_key : Text
  pub payload_hash : Text
  pub round_id : Text
  pub game_id : Text
  pub kind : Kind
  pub money : Money
  pub reference_external_transaction_id : Text
  pub reference_id : Uuid
  pub status : Status
  pub failure_code : Text
  pub result_balance : Money
  pub result_version : ℤ  -- int64
  pub created_at : Time
  pub updated_at : Time
  pub completed_at : Option Time

-- `strings.TrimSpace(s) == ""`
unfoldable pub is_blank : Text → Bool
is_blank s = is_empty (trim_space s)

unfoldable pub identity_is_bad : WagerData → Bool
identity_is_bad d =
    is_zero_id d.id
    || is_zero_id d.wallet_id
    || is_zero_id d.player_id
    || not (is_valid d.money)
    || ltb_ℤ d.money.minor (pos 0)
    || is_zero_time d.created_at
    || ltb d.updated_at d.created_at

unfoldable pub opening_is_bad : WagerData → Bool
opening_is_bad d =
    leb_ℤ d.money.minor (pos 0)
    || not (is_empty d.provider_id)
    || not (is_empty d.external_transaction_id)
    || not (is_empty d.idempotency_key)
    || not (is_empty d.payload_hash)
    || not (is_empty d.round_id)
    || not (is_empty d.game_id)
    || not (is_empty d.reference_external_transaction_id)
    || not (is_zero_id d.reference_id)

-- `err != nil || len(decoded) != 32`
abbrev decoded_is_bad : Option Text → Bool
decoded_is_bad none = true
decoded_is_bad (some decoded) = not (length decoded == 32)

unfoldable pub hash_is_bad : Text → Bool
hash_is_bad hash = decoded_is_bad (hex_decode hash)

unfoldable pub external_is_bad : WagerData → Bool
unfolding external_kind hash_is_bad
external_is_bad d =
    not (external_kind d.kind)
    || is_blank d.provider_id
    || is_blank d.external_transaction_id
    || is_blank d.idempotency_key
    || is_blank d.round_id
    || is_blank d.game_id
    || hash_is_bad d.payload_hash
    || (is_reversal d.kind && is_blank d.reference_external_transaction_id)
    || ((is_bet d.kind || is_loss d.kind) && not (is_empty d.reference_external_transaction_id))

-- The amount does not suit the kind.
abbrev pub amount_is_bad : Kind → ℤ → Bool
amount_is_bad kind minor =
    (is_loss kind && not (eq_ℤ minor (pos 0))) || (not (is_loss kind) && leb_ℤ minor (pos 0))

unfoldable pub completion_is_bad : WagerData → Option Time → Bool
completion_is_bad d none = true
completion_is_bad d (some at) = ltb at d.created_at || ltb d.updated_at at

unfoldable pub result_is_bad : WagerData → Bool
result_is_bad d =
    not (is_valid d.result_balance)
    || ltb_ℤ d.result_balance.minor (pos 0)
    || ltb_ℤ d.result_version (pos 1)

unfoldable pub check_processed : WagerData → Result (Unit {0})
unfolding result_is_bad
check_processed d = do
  refuse
      (not (is_empty d.failure_code)
        || result_is_bad d
        || not (eq_text d.result_balance.currency d.money.currency))
      (invalid invalid_state)
  refuse (amount_is_bad d.kind d.money.minor) (invalid invalid_amount_for_kind)
  refuse (not (is_empty d.reference_external_transaction_id) && is_zero_id d.reference_id)
      (invalid invalid_state)

-- The checks on a transaction that ended without success.
unfoldable pub check_failure : WagerData → Result (Unit {0})
unfolding result_is_bad is_blank
check_failure d = refuse (is_blank d.failure_code || result_is_bad d) (invalid invalid_state)

abbrev is_set : Option Time → Bool
is_set none = false
is_set (some _) = true

unfoldable pub check_open : WagerData → Result (Unit {0})
check_open d =
    refuse
      (is_set d.completed_at
        || not (is_empty d.failure_code)
        || not (eq_ℤ d.result_version (pos 0))
        || is_valid d.result_balance)
      (invalid invalid_state)

-- The checks by status.
unfoldable pub check_status : Status → WagerData → Result (Unit {0})
unfolding completion_is_bad check_processed check_failure check_open
check_status pending d = check_open d
check_status pending_reference d = do
  refuse (is_empty d.reference_external_transaction_id) (invalid invalid_state)
  check_open d
check_status processed d = do
  refuse (completion_is_bad d d.completed_at) (invalid invalid_state)
  check_processed d
check_status rejected d = do
  refuse (completion_is_bad d d.completed_at) (invalid invalid_state)
  check_failure d
check_status failed d = do
  refuse (completion_is_bad d d.completed_at) (invalid invalid_state)
  check_failure d
check_status (other_status _) d = err (invalid invalid_state)

-- The checks that do not depend on the status.
unfoldable pub check_shape : WagerData → Result (Unit {0})
check_shape d = do
  refuse (identity_is_bad d) (invalid invalid_wager)
  refuse (if is_opening d.kind then opening_is_bad d else external_is_bad d) (invalid invalid_wager)

unfoldable pub validate_wager : WagerData → Result (Unit {0})
unfolding check_shape
validate_wager d = do check_shape d; check_status d.status d

unfoldable pub rehydrate_wager : WagerData → Result WagerData
rehydrate_wager d = do validate_wager d; ok d

unfoldable pub new_wager : WagerData → Result WagerData
unfolding rehydrate_wager
new_wager d = do
  refuse (is_opening d.kind) (invalid invalid_wager)
  refuse (not (is_pending d.status)) (invalid invalid_state)
  rehydrate_wager d

unfoldable pub new_opening : WagerData → Result WagerData
unfolding rehydrate_wager
new_opening d = do
  refuse (not (is_opening d.kind) || not (is_pending d.status)) (invalid invalid_wager)
  rehydrate_wager d

-- `next` after `change` and the completion time of a terminal state.
unfoldable pub stamped : WagerData → Time → WagerData
stamped next now = if is_terminal next.status then record next { completed_at = some now } else next

unfoldable pub transition : WagerData → Time → (WagerData → WagerData) → Result WagerData
unfolding stamped rehydrate_wager
transition d now change = do
  validate_wager d
  refuse (is_terminal d.status) (invalid invalid_state)
  refuse (is_zero_time now || ltb now d.updated_at) (invalid invalid_state)
  rehydrate_wager (stamped (change (record d { updated_at = now })) now)

-- `PendingReference`
unfoldable pub await_reference : WagerData → Time → Result WagerData
unfolding transition
await_reference d now = transition d now (λ next. record next { status = pending_reference })

unfoldable pub process : WagerData → Money → ℤ → Uuid → Time → Result WagerData
unfolding transition
process d balance version reference_id now = transition d now (λ next. record next {
  status = processed;
  result_balance = balance;
  result_version = version;
  reference_id = reference_id;
})

unfoldable pub reject : WagerData → Text → Money → ℤ → Time → Result WagerData
unfolding transition
reject d code balance version now = transition d now (λ next. record next {
  status = rejected;
  failure_code = code;
  result_balance = balance;
  result_version = version;
})

-- `Fail`
unfoldable pub fail_wager : WagerData → Text → Money → ℤ → Time → Result WagerData
unfolding transition
fail_wager d code balance version now = transition d now (λ next. record next {
  status = failed;
  failure_code = code;
  result_balance = balance;
  result_version = version;
})
