-- ===== src/Domain/Errors.antt =====
-- internal/domain/errors.go, and the errors of internal/application/contracts.go: every error of
-- the engine is one of these values, and `code` is the stable classification that callers read.
-- Messages are left out.
use jungle_wager_engine.Base.{Bool, true, false, ◌≡◌, refl, ◌⊎◌, inl, inr, Text, codes}

-- The `Code…` constants of the domain.
pub data Code : Type 0 where
  invalid_money invalid_currency invalid_amount invalid_scale overflow invalid_id : Code
  invalid_wallet invalid_wager invalid_state invalid_ledger invalid_event : Code
  insufficient_funds insufficient_funds_for_reversal currency_mismatch : Code
  reference_not_found reference_not_processed reference_mismatch : Code
  reference_already_reversed invalid_amount_for_kind : Code
  idempotency_key_reused external_transaction_id_reused : Code

unfoldable pub code_text : Code → Text
code_text invalid_money = codes "INVALID_MONEY"
code_text invalid_currency = codes "INVALID_CURRENCY"
code_text invalid_amount = codes "INVALID_AMOUNT"
code_text invalid_scale = codes "INVALID_SCALE"
code_text overflow = codes "OVERFLOW"
code_text invalid_id = codes "INVALID_ID"
code_text invalid_wallet = codes "INVALID_WALLET"
code_text invalid_wager = codes "INVALID_WAGER"
code_text invalid_state = codes "INVALID_STATE"
code_text invalid_ledger = codes "INVALID_LEDGER"
code_text invalid_event = codes "INVALID_EVENT"
code_text insufficient_funds = codes "INSUFFICIENT_FUNDS"
code_text insufficient_funds_for_reversal = codes "INSUFFICIENT_FUNDS_FOR_REVERSAL"
code_text currency_mismatch = codes "CURRENCY_MISMATCH"
code_text reference_not_found = codes "REFERENCE_NOT_FOUND"
code_text reference_not_processed = codes "REFERENCE_NOT_PROCESSED"
code_text reference_mismatch = codes "REFERENCE_MISMATCH"
code_text reference_already_reversed = codes "REFERENCE_ALREADY_REVERSED"
code_text invalid_amount_for_kind = codes "INVALID_AMOUNT_FOR_KIND"
code_text idempotency_key_reused = codes "IDEMPOTENCY_KEY_REUSED"
code_text external_transaction_id_reused = codes "EXTERNAL_TRANSACTION_ID_REUSED"

-- The codes that `application.Error` is built with.
pub data AppCode : Type 0 where
  not_found wallet_already_exists invalid_input invalid_kind invalid_message : AppCode
  app_invalid_amount reference_required player_mismatch inbox_message_reused : AppCode
  key_reused external_reused claim_lost invalid_cursor reconciliation_overflow : AppCode
  unavailable : AppCode

unfoldable pub app_text : AppCode → Text
app_text not_found = codes "NOT_FOUND"
app_text wallet_already_exists = codes "WALLET_ALREADY_EXISTS"
app_text invalid_input = codes "INVALID_INPUT"
app_text invalid_kind = codes "INVALID_KIND"
app_text invalid_message = codes "INVALID_MESSAGE"
app_text app_invalid_amount = codes "INVALID_AMOUNT"
app_text reference_required = codes "REFERENCE_REQUIRED"
app_text player_mismatch = codes "PLAYER_MISMATCH"
app_text inbox_message_reused = codes "INBOX_MESSAGE_REUSED"
app_text key_reused = codes "IDEMPOTENCY_KEY_REUSED"
app_text external_reused = codes "EXTERNAL_TRANSACTION_ID_REUSED"
app_text claim_lost = codes "CLAIM_LOST"
app_text invalid_cursor = codes "INVALID_CURSOR"
app_text reconciliation_overflow = codes "RECONCILIATION_OVERFLOW"
app_text unavailable = codes "UNAVAILABLE"

-- `domain` and `app` are the typed errors, also when wrapped; `no_rows` is `pgx.ErrNoRows`,
-- `wallet_key_violation` the driver's unique violation of `wallet_player_currency_key`,
-- `storage` any other error of the driver, and `panic` a nil dereference.
pub data Error : Type 0 where
  domain : Code → Error
  app : AppCode → Error
  no_rows wallet_key_violation storage panic : Error

-- A value or the error that a Go function returns in its place.
pub data Result {ℓ} (A : Type ℓ) : Type ℓ where
  err : Error → Result A
  ok : A → Result A

module _ {ℓ κ} {A : Type ℓ} {B : Type κ} where
  -- `if err != nil { return err }`
  infixl 5 ◌>>=◌
  abbrev pub ◌>>=◌ : Result A → (A → Result B) → Result B
  err e >>= next = err e
  ok a >>= next = next a

-- The same after a check, which yields nothing.
infixl 5 ◌>>◌
abbrev pub ◌>>◌ {ℓ} : {B : Type ℓ} (checked : Result (Unit {0})) (rest : Result B) → Result B
checked >> rest = checked >>= λ _. rest

-- `if bad { return err }`
abbrev pub refuse : Bool → Error → Result (Unit {0})
refuse true e = err e
refuse false e = ok tt

abbrev pub invalid : Code → Error
invalid c = domain c

-- `Code`: what a transport reports for an error.
unfoldable pub error_code : Error → Text
unfolding code_text app_text
error_code (app c) = app_text c
error_code (domain c) = code_text c
error_code _ = codes "UNAVAILABLE"

-- To split on a computed result and keep the equation.
pub Result-cases {ℓ} :
    {A : Type ℓ} (r : Result A) → ((a : A) × (r ≡ ok a)) ⊎ ((e : Error) × (r ≡ err e))
Result-cases (ok a) = inl (a, refl)
Result-cases (err e) = inr (e, refl)
