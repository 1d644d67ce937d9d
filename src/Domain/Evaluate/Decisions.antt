-- ===== src/Domain/Evaluate/Decisions.antt =====
-- What a decision of `evaluate` guarantees.
use jungle_wager_engine.Base.{
  [], ◌∷◌, Bool, true, false, ◌≡◌, ◌≢◌, refl, arith, none, some, Text, codes, is_empty, eq_text,
  ◌⊎◌, inl, inr, Option, Option-cases, trim_space,
}
use jungle_wager_engine.Domain.Errors.{
  Result-cases, ok, err, panic, Code, code_text, overflow, insufficient_funds,
  insufficient_funds_for_reversal, reference_mismatch, reference_not_processed,
  reference_already_reversed, currency_mismatch, invalid_amount_for_kind,
}
use jungle_wager_engine.Domain.Id.{eq_id}
use jungle_wager_engine.Domain.Wallet.{WalletData, validate_wallet, wallet_is_bad}
use jungle_wager_engine.Domain.Ledger.{Direction}
use jungle_wager_engine.Domain.Wager.{
  WagerData, is_terminal, is_blank, is_reversal, is_opening, amount_is_bad, validate_wager,
  check_shape, check_status, check_processed, check_failure, check_open, external_is_bad, Status,
}
use jungle_wager_engine.Domain.Evaluate.{
  Decision, effect, check_reference, check_optional, direction_of, check_funds, decide,
  evaluate_owned, evaluate,
}

pub code_text-nonempty : (c : Code) → is_empty (code_text c) ≡ false
unfolding code_text
code_text-nonempty c = ground arith

is_blank-nil : is_blank (codes "") ≡ true
unfolding is_blank trim_space
is_blank-nil = refl

not_blank : (s : Text) → is_blank s ≡ false → is_empty s ≡ false
not_blank [] h = ground (arith, is_blank-nil)
not_blank (c ∷ s) h = refl

-- A valid reversal names its reference.
pub reversal_refers :
    (w : WagerData)
    → validate_wager w ≡ ok tt
    → is_reversal w.kind ≡ true
    → is_empty w.reference_external_transaction_id ≡ false
unfolding validate_wager check_shape external_is_bad
reversal_refers w v r = ground (arith, not_blank w.reference_external_transaction_id)

status_no_panic : (d : WagerData) (s : Status) → check_status s d ≢ err panic
unfolding check_status check_processed check_failure check_open
status_no_panic d s h = ground arith

validate_no_panic : (d : WagerData) → validate_wager d ≢ err panic
unfolding validate_wager check_shape
validate_no_panic d h = ground (arith, status_no_panic d d.status)

-- The checks before the currency, for a decision of any kind.
pub record Accepted (wallet : WalletData) (w : WagerData) : Type 0 where
  pub wallet_good : wallet_is_bad wallet ≡ false
  pub valid : validate_wager w ≡ ok tt
  pub unfinished : is_terminal w.status ≡ false
  pub same_wallet : eq_id w.wallet_id wallet.id ≡ true
  pub same_player : eq_id w.player_id wallet.player_id ≡ true

module _ (wallet : WalletData) (w : WagerData) (reference : Option WagerData)
    (reversed : Bool) where
  pub evaluate_accepts :
      {decision : Decision}
      → evaluate wallet w reference reversed ≡ ok decision
      → Accepted wallet w × (evaluate_owned wallet w reference reversed ≡ ok decision)
  unfolding evaluate validate_wallet
  evaluate_accepts h = ground arith

  pub checked_reference :
      is_empty w.reference_external_transaction_id ≡ false
      → check_optional w reference reversed ≡ none
      → (r : WagerData) × (reference ≡ some r) × (check_reference w r reversed ≡ none)
  unfolding check_optional
  checked_reference e h = elim (Option-cases reference) [
    | inl missing ↦ ground arith
    | inr (r, found) ↦ (r, found, ground arith)
  ]

  direction_total :
      validate_wager w ≡ ok tt
      → check_optional w reference reversed ≡ none
      → direction_of w.kind reference ≢ err panic
  unfolding direction_of
  direction_total v h = ground (arith, reversal_refers w v, checked_reference)

  decide_no_panic :
      validate_wager w ≡ ok tt
      → decide wallet w reference (check_optional w reference reversed) ≢ err panic
  unfolding decide
  decide_no_panic v h = ground (arith, direction_total v)

  owned_no_panic : validate_wager w ≡ ok tt → evaluate_owned wallet w reference reversed ≢ err panic
  unfolding evaluate_owned
  owned_no_panic v h = ground (arith, decide_no_panic v)

  -- `Evaluate` never dereferences a missing reference: whatever it is called with, it does not panic.
  pub evaluate-no-panic : evaluate wallet w reference reversed ≢ err panic
  unfolding evaluate validate_wallet
  evaluate-no-panic h = ground (arith, owned_no_panic, validate_no_panic w)

  -- What a decision to go ahead rests on.
  pub record GoesAhead (dir : Direction) : Type 0 where
    pub accepted : Accepted wallet w
    pub currency : eq_text w.money.currency wallet.balance.currency ≡ true
    pub amount : amount_is_bad w.kind w.money.minor ≡ false
    pub external : is_opening w.kind ≡ false
    pub checked : check_optional w reference reversed ≡ none
    pub directed : direction_of w.kind reference ≡ ok dir
    pub funded : check_funds wallet.balance w dir ≡ effect dir

  funds_lem :
      (dir : Direction)
      → is_empty (check_funds wallet.balance w dir).failure_code ≡ true
      → check_funds wallet.balance w dir ≡ effect dir
  unfolding check_funds
  funds_lem dir h = ground (
    arith,
    code_text-nonempty overflow,
    code_text-nonempty insufficient_funds,
    code_text-nonempty insufficient_funds_for_reversal,
  )

  reference_rejects :
      {decision : Decision}
      → check_optional w reference reversed ≡ some decision
      → (decision.waits ≡ true) ⊎ (is_empty decision.failure_code ≡ false)
  unfolding check_optional check_reference
  reference_rejects h = ground (
    arith,
    code_text-nonempty reference_mismatch,
    code_text-nonempty reference_not_processed,
    code_text-nonempty reference_already_reversed,
  )

  decide_lem :
      {decision : Decision}
      → decide wallet w reference (check_optional w reference reversed) ≡ ok decision
      → decision.waits ≡ false
      → is_empty decision.failure_code ≡ true
      → (check_optional w reference reversed ≡ none)
        × (direction_of w.kind reference ≡ ok decision.direction)
        × (check_funds wallet.balance w decision.direction ≡ effect decision.direction)
        × (decision ≡ effect decision.direction)
  unfolding decide
  decide_lem {decision} h waits named = elim (Result-cases (direction_of w.kind reference)) [
    | inl (dir, directed) ↦ ground (arith, funds_lem dir, reference_rejects {decision = decision})
    | inr (e, refused) ↦ ground (arith, reference_rejects {decision = decision})
  ]

  pub evaluate-GoesAhead :
      {decision : Decision}
      → evaluate wallet w reference reversed ≡ ok decision
      → decision.waits ≡ false
      → is_empty decision.failure_code ≡ true
      → (decision ≡ effect decision.direction) × GoesAhead decision.direction
  unfolding evaluate_owned
  evaluate-GoesAhead {decision} h waits named = ground (
    arith,
    evaluate_accepts h,
    decide_lem {decision = decision},
    code_text-nonempty currency_mismatch,
    code_text-nonempty invalid_amount_for_kind,
  )
