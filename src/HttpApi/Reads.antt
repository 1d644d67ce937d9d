-- ===== src/HttpApi/Reads.antt =====
-- The handlers of internal/adapters/httpapi/http.go that read one resource, a page of the ledger, or
-- the verdict on a wallet, after the correlation and the authorization.
pub mod Silent
use jungle_wager_engine.Base.{
  ℕ, Bool, ◌||◌, not, Option, none, some, Text, codes, eq_text, is_empty, len, ltb, if◌then◌else◌,
  ℤ, pos, negsuc,
}
use jungle_wager_engine.Domain.Errors.{Result, ok, err}
use jungle_wager_engine.Domain.Id.{parse_id, id_string}
use jungle_wager_engine.Domain.Wallet.{WalletData}
use jungle_wager_engine.Application.{AppResult}
use jungle_wager_engine.Store.Monad.{Env, World, Tx}
use jungle_wager_engine.Store.Create.{
  Reconciliation, get_wallet, get_transaction, get_external_transaction, reconcile,
}
use jungle_wager_engine.Store.Cursor.{Codec, LedgerPage}
use jungle_wager_engine.Store.Page.{ledger}
use jungle_wager_engine.HttpApi.{Answer, answer, application_error}
use jungle_wager_engine.HttpApi.Requests.{Principal}

pub data Found (A : Type 0) : Type 0 where
  refused : Answer → Found A
  shown : A → Found A

-- `writeJSON(w, 200, result)`, or `applicationError`.
unfoldable pub show_result : {A : Type 0} → Tx A → World → Found A × World
show_result m s =
    let (r, s') = m s in
    elim r [ ok a ↦ (shown a, s') | err e ↦ (refused (application_error e), s') ]

-- The identity in the path, in its canonical form.
unfoldable pub with_id :
    {A : Type 0} → Text → (Text → World → Found A × World) → World → Found A × World
with_id param next s = elim (parse_id param) [
  | ok id ↦ next (id_string id) s
  | err e ↦ (refused (application_error e), s)
]

-- The limit that a query asks for, 50 where it asks for none; `atoi` is `strconv.Atoi`.
unfoldable pub page_limit : (Text → Option ℤ) → Text → Option ℕ
page_limit atoi value = if is_empty value then some 50 else elim (atoi value) [
  | none ↦ none
  | some (negsuc n) ↦ none
  | some (pos n) ↦ if ltb n 1 || ltb 100 n then none else some n
]

module _ (env : Env) where
  -- `ledger`, from the query on
  unfoldable pub page_result : Codec → Text → Text → Option ℕ → World → Found LedgerPage × World
  page_result codec id cursor none s = (refused (answer 400 (codes "INVALID_LIMIT")), s)
  page_result codec id cursor (some limit) s =
      if ltb 1024 (len cursor)
      then (refused (answer 400 (codes "INVALID_CURSOR")), s)
      else show_result (ledger env codec id cursor limit) s

  unfoldable pub show_ledger :
      Codec → (Text → Option ℤ) → Text → Text → Text → World → Found LedgerPage × World
  show_ledger codec atoi param limit cursor =
      with_id param (λ id. page_result codec id cursor (page_limit atoi limit))

  -- `getWallet`
  unfoldable pub show_wallet : Text → World → Found WalletData × World
  show_wallet param = with_id param (λ id. show_result (get_wallet env id))

  -- `reconcile`
  unfoldable pub show_reconciliation : Text → World → Found Reconciliation × World
  show_reconciliation param = with_id param (λ id. show_result (reconcile env id))

  -- `getTransaction`, of the principal's provider
  unfoldable pub show_transaction : Principal → Text → World → Found AppResult × World
  show_transaction p param =
      with_id param (λ id. show_result (get_transaction env p.provider_id id))

  -- `getExternal`
  unfoldable pub show_external : Principal → Text → Text → World → Found AppResult × World
  show_external p provider external s =
      if not (eq_text provider p.provider_id)
      then (refused (answer 403 (codes "FORBIDDEN")), s)
      else show_result (get_external_transaction env p.provider_id external) s
