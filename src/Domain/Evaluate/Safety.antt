-- ===== src/Domain/Evaluate/Safety.antt =====
-- A decision to go ahead is safe: the wallet can carry it out, and a reversal undoes one settled
-- transaction once.
use jungle_wager_engine.Base.{
  ◌≤◌, ◌<◌, Bool, true, false, ◌≡◌, refl, arith, pos, none, some, eq_text→eq, eq_text_refl,
  if◌then◌else◌, ◌⊎◌, Option, ◌≤ℤ◌, ◌<ℤ◌, ◌+ℤ◌, ◌-ℤ◌, IsInt64, max_int64,
}
use jungle_wager_engine.Domain.Errors.{ok}
use jungle_wager_engine.Domain.Id.{eq_id}
use jungle_wager_engine.Domain.Money.{check}
use jungle_wager_engine.Domain.Money.Exact.{add-exact}
use jungle_wager_engine.Domain.Wallet.{Time, WalletData, wallet_is_bad, credit, debit}
use jungle_wager_engine.Domain.Wallet.Moves.{IsMovable, moved_to, debit-exact, credit-exact}
use jungle_wager_engine.Domain.Ledger.{Direction, debit_direction, credit_direction, no_direction}
use jungle_wager_engine.Domain.Wager.{
  Kind, opening, bet, win, loss, refund, rollback, other_kind, WagerData, is_bet, is_reversal,
  is_processed, validate_wager, check_shape, identity_is_bad, external_is_bad, external_kind,
}
use jungle_wager_engine.Domain.Evaluate.{
  check_reference, direction_of, check_funds, reference_differs, kind_mismatch,
}
use jungle_wager_engine.Domain.Evaluate.Decisions.{GoesAhead, reversal_refers, checked_reference}

-- What the direction of a transaction must be, given the kind of the transaction it refers to: a
-- bet takes money, a win or a refund gives it, a loss moves none, and a rollback undoes its
-- reference.
abbrev pub Undoes : Kind → Direction → Type 0
Undoes bet dir = dir ≡ credit_direction
Undoes win dir = dir ≡ debit_direction
Undoes refund dir = dir ≡ debit_direction
Undoes _ dir = ⊥

abbrev pub Suits : Kind → Option WagerData → Direction → Type 0
Suits bet reference dir = dir ≡ debit_direction
Suits win reference dir = dir ≡ credit_direction
Suits refund reference dir = dir ≡ credit_direction
Suits loss reference dir = dir ≡ no_direction
Suits rollback (some r) dir = Undoes r.kind dir
Suits _ _ dir = ⊥

undoes_lem :
    (k : Kind) (dir : Direction)
    → kind_mismatch rollback k ≡ false
    → ok (if is_bet k then credit_direction else debit_direction) ≡ ok dir
    → Undoes k dir
unfolding kind_mismatch
undoes_lem bet dir m h = ground arith
undoes_lem win dir m h = ground arith
undoes_lem refund dir m h = ground arith
undoes_lem opening dir m h = cc
undoes_lem loss dir m h = cc
undoes_lem rollback dir m h = cc
undoes_lem (other_kind t) dir m h = cc

suits_lem :
    (k : Kind) (reference : Option WagerData) (dir : Direction)
    → external_kind k ≡ true
    → direction_of k reference ≡ ok dir
    → ((r : WagerData) → k ≡ rollback → reference ≡ some r → kind_mismatch rollback r.kind ≡ false)
    → Suits k reference dir
unfolding external_kind direction_of
suits_lem bet reference dir e h c = ground arith
suits_lem win reference dir e h c = ground arith
suits_lem refund reference dir e h c = ground arith
suits_lem loss reference dir e h c = ground arith
suits_lem rollback (some r) dir e h c = undoes_lem r.kind dir (c r refl refl) h
suits_lem rollback none dir e h c = cc
suits_lem opening reference dir e h c = cc
suits_lem (other_kind t) reference dir e h c = cc

-- A settled transaction of the same provider, wallet and currency, for the same amount, that has
-- not been reversed yet.
pub record IsReversible (w r : WagerData) (reversed : Bool) : Type 0 where
  pub other : eq_id r.id w.id ≡ false
  pub same_provider : r.provider_id ≡ w.provider_id
  pub same_wallet : r.wallet_id ≡ w.wallet_id
  pub same_currency : r.money.currency ≡ w.money.currency
  pub same_amount : r.money.minor ≡ w.money.minor
  pub settled : is_processed r.status ≡ true
  pub first : reversed ≡ false
  pub kinds :
      (w.kind ≡ refund) × (r.kind ≡ bet)
      ⊎ (w.kind ≡ rollback) × ((r.kind ≡ bet) ⊎ (r.kind ≡ win) ⊎ (r.kind ≡ refund))

reference_checks :
    (w r : WagerData) (reversed : Bool)
    → check_reference w r reversed ≡ none
    → is_reversal w.kind ≡ true
    → IsReversible w r reversed
unfolding check_reference reference_differs kind_mismatch eq_id
reference_checks w r reversed h k = ground (
  arith,
  eq_text→eq r.provider_id w.provider_id,
  eq_text→eq r.wallet_id w.wallet_id,
  eq_text→eq r.money.currency w.money.currency,
)

module _ (wallet : WalletData) (w : WagerData) (reference : Option WagerData) (reversed : Bool)
    (dir : Direction) (go : GoesAhead wallet w reference reversed dir) where
  external_of : external_kind w.kind ≡ true
  unfolding check_shape external_is_bad validate_wager
  external_of = ground (arith, go.accepted.valid, go.external)

  nonneg_of : pos 0 ≤ℤ w.money.minor
  unfolding validate_wager check_shape identity_is_bad
  nonneg_of = ground (arith, go.accepted.valid)

  balance_of : pos 0 ≤ℤ wallet.balance.minor
  unfolding wallet_is_bad
  balance_of = ground (arith, go.accepted.wallet_good)

  alike_of : check wallet.balance w.money ≡ ok tt
  unfolding check validate_wager check_shape identity_is_bad wallet_is_bad
  alike_of = ground (
    arith,
    go.accepted.valid,
    go.accepted.wallet_good,
    go.currency,
    eq_text→eq w.money.currency wallet.balance.currency,
    eq_text_refl wallet.balance.currency,
  )

  found_reference :
      is_reversal w.kind ≡ true
      → (r : WagerData) × (reference ≡ some r) × (check_reference w r reversed ≡ none)
  found_reference k =
      checked_reference wallet w reference reversed (reversal_refers w go.accepted.valid k)
        go.checked

  -- A reversal that goes ahead undoes a settled transaction of the same provider, wallet, currency
  -- and amount, which has not been reversed before.
  pub reversal-IsReversible :
      is_reversal w.kind ≡ true → (r : WagerData) × (reference ≡ some r) × IsReversible w r reversed
  reversal-IsReversible k =
      let (r, found, passed) = found_reference k in
      (r, found, reference_checks w r reversed passed k)

  mismatch_of :
      (r : WagerData)
      → w.kind ≡ rollback
      → reference ≡ some r
      → kind_mismatch rollback r.kind ≡ false
  unfolding check_reference
  mismatch_of r k e = ground (arith, found_reference)

  -- The direction of a decision to go ahead suits the kind of the transaction and of its reference.
  pub direction-Suits : Suits w.kind reference dir
  direction-Suits = suits_lem w.kind reference dir external_of go.directed mismatch_of

  covered : dir ≡ debit_direction → w.money.minor ≤ℤ wallet.balance.minor
  unfolding check_funds
  covered e = ground (arith, go.funded)

  room :
      IsInt64 wallet.balance.minor
      → IsInt64 w.money.minor
      → dir ≡ credit_direction
      → wallet.balance.minor +ℤ w.money.minor ≤ℤ max_int64
  unfolding check_funds
  room hb hm e = ground (arith, go.funded, add-exact wallet.balance w.money hb hm)

  movable :
      (now : Time)
      → 0 < now
      → wallet.updated_at ≤ now
      → wallet.version <ℤ max_int64
      → IsInt64 wallet.balance.minor
      → IsInt64 w.money.minor
      → IsMovable wallet w.money now
  movable now t l v hb hm = record {
    good = go.accepted.wallet_good;
    alike = alike_of;
    nonneg = nonneg_of;
    timed = t;
    later = l;
    counts = v;
    balance_fits = hb;
    money_fits = hm;
  }

  -- A decision to debit is carried out in full: at a time that is not before the wallet's last
  -- change, and below the last version number, the wallet has the funds.
  pub goes_ahead-debit :
      (now : Time)
      → 0 < now
      → wallet.updated_at ≤ now
      → wallet.version <ℤ max_int64
      → IsInt64 wallet.balance.minor
      → IsInt64 w.money.minor
      → dir ≡ debit_direction
      → debit wallet w.money now
        ≡ ok (moved_to wallet w.money now (wallet.balance.minor -ℤ w.money.minor))
  goes_ahead-debit now t l v hb hm e =
      debit-exact wallet w.money now (movable now t l v hb hm) (covered e)

  -- A decision to credit is carried out in full, under the same conditions: there is no overflow.
  pub goes_ahead-credit :
      (now : Time)
      → 0 < now
      → wallet.updated_at ≤ now
      → wallet.version <ℤ max_int64
      → IsInt64 wallet.balance.minor
      → IsInt64 w.money.minor
      → dir ≡ credit_direction
      → credit wallet w.money now
        ≡ ok (moved_to wallet w.money now (wallet.balance.minor +ℤ w.money.minor))
  goes_ahead-credit now t l v hb hm e =
      credit-exact wallet w.money now (movable now t l v hb hm) (room hb hm e)
