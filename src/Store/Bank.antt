-- ===== src/Store/Bank.antt =====
-- What `ProcessWager` promises its callers, without tables: a bank that maps wallets to balances, and
-- answers a command by at most one movement.
pub mod Applied
pub mod Refined
pub mod Serving
use jungle_wager_engine.Base.{
  ℕ, Bool, true, false, ◌&&◌, not, ◌≡◌, refl, sym, ap, ◌∙◌, arith, Option, none, some, List, Text,
  find, Bool-cases, inl, inr, if◌then◌else◌, ℤ, ◌+ℤ◌, ◌-ℤ◌, ◌≤ℤ◌,
}
use mathlib.Core.Path.{fun_ext}
use jungle_wager_engine.Domain.Errors.{Result, ok, err, Error}
use jungle_wager_engine.Domain.Id.{Uuid, eq_id, eq_id→eq, eq_id_refl, parse_id}
use jungle_wager_engine.Domain.Wallet.{WalletData}
use jungle_wager_engine.Domain.Wager.{
  Kind, bet, win, loss, refund, rollback, processed, is_processed,
}
use jungle_wager_engine.Application.{AppResult}
use jungle_wager_engine.Store.Tables.{update_where, has_id}
use jungle_wager_engine.Store.Apply.{set_balance}
use jungle_wager_engine.Store.Apply.Conserves.{find-has_id, find-update_self, find-update_ne}

abbrev pub Bank : Type 0
Bank = Uuid → Option ℤ

-- The bank with one balance changed.
abbrev pub change : Bank → Uuid → ℤ → Bank
change bank id n other = if eq_id other id then some n else bank other

-- The kinds that may take money from a wallet, and those that may add to one.
unfoldable pub takes : Kind → Bool
takes bet = true
takes rollback = true
takes _ = false

unfoldable pub gives : Kind → Bool
gives win = true
gives refund = true
gives rollback = true
gives _ = false

-- The bank's answer to a command of a kind and an amount for a wallet, and the bank after it.
pub data Serves (kind : Kind) (wallet : Text) (amount : ℤ) (bank : Bank)
    : Result AppResult → Bank → Type 0 where
  -- An error changes nothing.
  refuses : (e : Error) → Serves kind wallet amount bank (err e) bank
  -- Nothing moves for what is answered before, rejected or waiting, or lost.
  stands :
      (r : AppResult)
      → (is_processed r.status && not r.idempotent_replay ≡ true → kind ≡ loss)
      → Serves kind wallet amount bank (ok r) bank
  -- The wallet that the command names pays the amount, which it has, and the answer is its balance.
  debits :
      (r : AppResult) (id : Uuid) (n : ℤ)
      → takes kind ≡ true
      → parse_id wallet ≡ ok id
      → bank id ≡ some n
      → amount ≤ℤ n
      → r.status ≡ processed
      → r.balance.minor ≡ n -ℤ amount
      → Serves kind wallet amount bank (ok r) (change bank id (n -ℤ amount))
  -- It receives the amount.
  credits :
      (r : AppResult) (id : Uuid) (n : ℤ)
      → gives kind ≡ true
      → parse_id wallet ≡ ok id
      → bank id ≡ some n
      → r.status ≡ processed
      → r.balance.minor ≡ n +ℤ amount
      → Serves kind wallet amount bank (ok r) (change bank id (n +ℤ amount))

abbrev balance_of : Option WalletData → Option ℤ
balance_of none = none
balance_of (some w) = some w.balance.minor

-- The bank that the table of wallets stands for.
unfoldable pub bank_of : List WalletData → Bank
bank_of wallets id = balance_of (find (has_id id) wallets)

pub bank_of-found :
    (wallets : List WalletData) (w : WalletData)
    → find (has_id w.id) wallets ≡ some w
    → bank_of wallets w.id ≡ some w.balance.minor
unfolding bank_of
bank_of-found wallets w h = ap balance_of h

-- The wallet's row is written.
pub bank_of-update :
    (wallets : List WalletData) (w w0 : WalletData)
    → find (has_id w.id) wallets ≡ some w0
    → bank_of (update_where (has_id w.id) (set_balance w) wallets)
      ≡ change (bank_of wallets) w.id w.balance.minor
unfolding bank_of
bank_of-update wallets w w0 h = fun_ext λ id. elim (Bool-cases (eq_id id w.id)) [
  | inl same ↦ ground (arith, eq_id→eq id w.id same, find-update_self w w.id wallets {r = w0} h)
  | inr other ↦ ground (arith, find-update_ne w id w.id wallets other)
]
