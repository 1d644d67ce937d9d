-- ===== src/Domain/Wager/Transitions.antt =====
-- What the transitions of a transaction promise.
use jungle_wager_engine.Base.{
  ◌≤◌, ◌<◌, true, false, ◌≡◌, refl, arith, ℤ, some, Text, is_empty, eq_text, ◌⊎◌, Option,
}
use jungle_wager_engine.Domain.Errors.{ok}
use jungle_wager_engine.Domain.Id.{Uuid, is_zero_id}
use jungle_wager_engine.Domain.Money.{Money}
use jungle_wager_engine.Domain.Wallet.{Time}
use jungle_wager_engine.Domain.Wager.{
  Status, WagerData, is_terminal, is_blank, is_opening, validate_wager, transition, process, reject,
  fail_wager, result_is_bad, stamped, rehydrate_wager, check_status, completion_is_bad,
  check_failure, check_open, check_processed, check_shape, amount_is_bad, identity_is_bad,
  opening_is_bad, external_is_bad, rejected, failed, processed,
}

-- `d` at `now`, with another status and outcome.
abbrev pub ended : WagerData → Time → Status → Text → Money → ℤ → Option Time → WagerData
ended d now status code balance version at = record d {
  status = status;
  failure_code = code;
  result_balance = balance;
  result_version = version;
  updated_at = now;
  completed_at = at;
}

module _ (d : WagerData) (now : Time) (status : Status) (code : Text) (balance : Money)
    (version : ℤ) (at : Option Time) where
  opening_same : opening_is_bad (ended d now status code balance version at) ≡ opening_is_bad d
  unfolding opening_is_bad
  opening_same = refl

  external_same : external_is_bad (ended d now status code balance version at) ≡ external_is_bad d
  unfolding external_is_bad
  external_same = refl

  identity_later :
      d.updated_at ≤ now
      → identity_is_bad d ≡ false
      → identity_is_bad (ended d now status code balance version at) ≡ false
  unfolding identity_is_bad
  identity_later h = ground arith

  -- The checks on the shape do not read the outcome.
  pub shape_later :
      d.updated_at ≤ now
      → check_shape d ≡ ok tt
      → check_shape (ended d now status code balance version at) ≡ ok tt
  unfolding check_shape
  shape_later h = ground (arith, identity_later h, opening_same, external_same)

created_before : (d : WagerData) → check_shape d ≡ ok tt → d.created_at ≤ d.updated_at
unfolding check_shape identity_is_bad
created_before d h = ground arith

shape_of : (d : WagerData) → validate_wager d ≡ ok tt → check_shape d ≡ ok tt
unfolding validate_wager
shape_of d h = ground arith

-- An open transaction that is due: it is valid, not terminal, and not younger than `now`.
pub record IsDue (d : WagerData) (now : Time) : Type 0 where
  pub valid : validate_wager d ≡ ok tt
  pub unfinished : is_terminal d.status ≡ false
  pub timed : 0 < now
  pub later : d.updated_at ≤ now

completed_now :
    (d : WagerData) (now : Time) (s : Status) (c : Text) (b : Money) (v : ℤ)
    → IsDue d now
    → completion_is_bad (ended d now s c b v (some now)) (some now) ≡ false
unfolding completion_is_bad
completed_now d now s c b v h =
    ground (arith, created_before d (shape_of d h.valid), h.later, h.valid)

transition_due :
    (d : WagerData) (now : Time) (change : WagerData → WagerData)
    → IsDue d now
    → transition d now change
      ≡ rehydrate_wager (stamped (change (record d { updated_at = now })) now)
unfolding transition
transition_due d now change h = ground arith

module _ (d : WagerData) (code : Text) (balance : Money) (version : ℤ) (now : Time)
    (due : IsDue d now) (named : is_blank code ≡ false)
    (result : result_is_bad (record d { result_balance = balance; result_version = version })
      ≡ false) where
  result_same : (s : Status) → result_is_bad (ended d now s code balance version (some now)) ≡ false
  unfolding result_is_bad
  result_same s = result

  reject_checks :
      (s : Status) → check_failure (ended d now s code balance version (some now)) ≡ ok tt
  unfolding check_failure
  reject_checks s = ground (arith, named, result_same s)

  -- A rejection of a due transaction (valid, open, and not younger than `now`), with a code that is
  -- not blank and a valid result, goes through and changes only the outcome.
  pub reject-ok :
      reject d code balance version now ≡ ok (ended d now rejected code balance version (some now))
  unfolding reject stamped validate_wager check_status
  reject-ok = ground (
    arith,
    transition_due d now,
    shape_later d now rejected code balance version (some now),
    shape_of d due.valid,
    due.later,
    completed_now d now rejected code balance version due,
    reject_checks rejected,
  )

  -- A failure of a due transaction (valid, open, and not younger than `now`), with a code that is
  -- not blank and a valid result, goes through and changes only the outcome.
  pub fail_wager-ok :
      fail_wager d code balance version now
      ≡ ok (ended d now failed code balance version (some now))
  unfolding fail_wager stamped validate_wager check_status
  fail_wager-ok = ground (
    arith,
    transition_due d now,
    shape_later d now failed code balance version (some now),
    shape_of d due.valid,
    due.later,
    completed_now d now failed code balance version due,
    reject_checks failed,
  )

-- A valid transaction that is not terminal carries no outcome.
pub open_is_blank :
    (d : WagerData)
    → validate_wager d ≡ ok tt
    → is_terminal d.status ≡ false
    → (is_empty d.failure_code ≡ true) × (check_open d ≡ ok tt)
unfolding validate_wager check_status check_open
open_is_blank d v t = ground arith

-- `d` as `process` leaves it.
abbrev pub settled : WagerData → Money → ℤ → Uuid → Time → WagerData
settled d balance version reference_id now = record d {
  status = processed;
  result_balance = balance;
  result_version = version;
  reference_id = reference_id;
  updated_at = now;
  completed_at = some now;
}

module _ (d : WagerData) (balance : Money) (version : ℤ) (reference_id : Uuid) (now : Time) where
  settled_external :
      external_is_bad (settled d balance version reference_id now) ≡ external_is_bad d
  unfolding external_is_bad
  settled_external = refl

  settled_opening :
      is_zero_id reference_id ≡ true
      → opening_is_bad d ≡ false
      → opening_is_bad (settled d balance version reference_id now) ≡ false
  unfolding opening_is_bad
  settled_opening z h = ground arith

  settled_identity :
      d.updated_at ≤ now
      → identity_is_bad d ≡ false
      → identity_is_bad (settled d balance version reference_id now) ≡ false
  unfolding identity_is_bad
  settled_identity h = ground arith

  settled_result :
      result_is_bad (record d { result_balance = balance; result_version = version }) ≡ false
      → result_is_bad (settled d balance version reference_id now) ≡ false
  unfolding result_is_bad
  settled_result h = h

  settled_shape :
      (is_opening d.kind ≡ false) ⊎ (is_zero_id reference_id ≡ true)
      → d.updated_at ≤ now
      → check_shape d ≡ ok tt
      → check_shape (settled d balance version reference_id now) ≡ ok tt
  unfolding check_shape
  settled_shape z l h = ground (arith, settled_external, settled_opening, settled_identity)

  settled_completion :
      IsDue d now
      → completion_is_bad (settled d balance version reference_id now) (some now) ≡ false
  unfolding completion_is_bad
  settled_completion h = ground (arith, created_before d (shape_of d h.valid), h.later)

  -- What `process` asks of its arguments.
  pub record Settles : Type 0 where
    pub result :
        result_is_bad (record d { result_balance = balance; result_version = version }) ≡ false
    pub alike : eq_text balance.currency d.money.currency ≡ true
    pub amount : amount_is_bad d.kind d.money.minor ≡ false
    pub resolved :
        (is_empty d.reference_external_transaction_id ≡ true) ⊎ (is_zero_id reference_id ≡ false)
    pub unreferred : (is_opening d.kind ≡ false) ⊎ (is_zero_id reference_id ≡ true)

  settled_checks :
      IsDue d now → Settles → check_processed (settled d balance version reference_id now) ≡ ok tt
  unfolding check_processed
  settled_checks h s = ground (
    arith,
    settled_result s.result,
    s.alike,
    s.amount,
    s.resolved,
    open_is_blank d h.valid h.unfinished,
  )

  -- A due transaction is processed with any valid result in its currency, an amount that suits its
  -- kind, and a resolved reference where it names one.
  pub process-ok :
      IsDue d now
      → Settles
      → process d balance version reference_id now ≡ ok (settled d balance version reference_id now)
  unfolding process stamped validate_wager check_status
  process-ok h s = ground (
    arith,
    transition_due d now,
    settled_shape s.unreferred h.later (shape_of d h.valid),
    settled_completion h,
    settled_checks h s,
  )
