-- ===== src/HttpApi.antt =====
-- internal/adapters/httpapi/http.go: the status that an application error is answered with.
pub mod Statuses
pub mod Requests
pub mod Reads
use jungle_wager_engine.Base.{
  ℕ, Bool, true, false, ◌&&◌, ◌||◌, not, List, [], ◌∷◌, Text, codes, eq_text, any, ◌==◌,
  if◌then◌else◌,
}
use jungle_wager_engine.Domain.Errors.{Error, error_code}

-- `strings.HasPrefix`
unfoldable pub has_prefix : Text → Text → Bool
has_prefix s [] = true
has_prefix [] (c ∷ p) = false
has_prefix (a ∷ s) (c ∷ p) = (a == c) && has_prefix s p

abbrev pub is_one_of : Text → List Text → Bool
is_one_of code known = any (eq_text code) known

pub record Answer : Type 0 where
  pub status : ℕ
  pub code : Text

abbrev pub answer : ℕ → Text → Answer
answer status code = record { status = status; code = code }

-- The switch of `applicationError`.
unfoldable pub answer_of : Text → Answer
answer_of code =
    if is_one_of code (codes "REFERENCE_REQUIRED" ∷ codes "PLAYER_MISMATCH" ∷ [])
    then answer 400 code
    else if eq_text code (codes "NOT_FOUND")
    then answer 404 code
    else if is_one_of code (
        codes "WALLET_ALREADY_EXISTS"
        ∷ codes "IDEMPOTENCY_KEY_REUSED"
        ∷ codes "EXTERNAL_TRANSACTION_ID_REUSED"
        ∷ [])
    then answer 409 code
    else if eq_text code (codes "FORBIDDEN")
    then answer 403 code
    else if eq_text code (codes "UNAVAILABLE")
    then answer 503 code
    else if is_one_of code (
        codes "INSUFFICIENT_FUNDS"
        ∷ codes "INSUFFICIENT_FUNDS_FOR_REVERSAL"
        ∷ codes "CURRENCY_MISMATCH"
        ∷ codes "REFERENCE_NOT_FOUND"
        ∷ codes "REFERENCE_NOT_PROCESSED"
        ∷ codes "REFERENCE_MISMATCH"
        ∷ codes "REFERENCE_ALREADY_REVERSED"
        ∷ codes "INVALID_AMOUNT_FOR_KIND"
        ∷ [])
    then answer 422 code
    else if not (has_prefix code (codes "INVALID_")) && not (eq_text code (codes "OVERFLOW"))
    then answer 503 (codes "UNAVAILABLE")
    else answer 400 code

-- `applicationError`
unfoldable pub application_error : Error → Answer
application_error e = answer_of (error_code e)
