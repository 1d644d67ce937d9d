-- ===== src/HttpApi/Reads/Silent.antt =====
-- Reading changes nothing.
use jungle_wager_engine.Base.{
  Bool-cases, ℕ, ℤ, not, ◌&&◌, ◌||◌, none, some, len, ltb, ◌≡◌, refl, arith, Text, eq_text, Option,
  inl, inr, leb_ℤ, min_int64, max_int64,
}
use jungle_wager_engine.Domain.Errors.{Result-cases}
use jungle_wager_engine.Domain.Id.{parse_id, id_string}
use jungle_wager_engine.Store.Tables.{Db, WagerRow}
use jungle_wager_engine.Store.Monad.{Env, World, Tx}
use jungle_wager_engine.Store.Monad.Upholds.{
  Upholds, Any, pure-Upholds, raise-Upholds, if-Upholds, forget, lift-Upholds, gets-Upholds,
  bind-Upholds,
}
use jungle_wager_engine.Store.Rows.Upheld.{
  wrap-Upholds, statement-Upholds, scan_wallet-Upholds, scan_wager-Upholds, wallet_of-Upholds,
}
use jungle_wager_engine.Store.Create.{
  get_wallet, view_transaction, get_transaction, get_external_transaction, reconcile,
}
use jungle_wager_engine.Store.Cursor.{Codec}
use jungle_wager_engine.Store.Page.{ledger}
use jungle_wager_engine.HttpApi.Requests.{Principal}
use jungle_wager_engine.HttpApi.Reads.{
  Found, page_limit, page_result, show_ledger, show_result, with_id, show_wallet,
  show_reconciliation, show_transaction, show_external,
}

module _ (env : Env) (P : Db → Type 0) where
  get_wallet-Upholds : (id : Text) → Upholds P (get_wallet env id) Any
  unfolding get_wallet
  get_wallet-Upholds id =
      bind-Upholds (lift-Upholds _) (λ uid _.
        bind-Upholds (gets-Upholds _) (λ row _. wrap-Upholds (scan_wallet-Upholds env row)))

  view_transaction-Upholds : (row : Option WagerRow) → Upholds P (view_transaction env row) Any
  unfolding view_transaction
  view_transaction-Upholds row =
      bind-Upholds (wrap-Upholds (scan_wager-Upholds env row))
        (λ d _. bind-Upholds (wrap-Upholds (wallet_of-Upholds env d)) (λ w _. pure-Upholds _ tt))

  get_transaction-Upholds : (provider id : Text) → Upholds P (get_transaction env provider id) Any
  unfolding get_transaction
  get_transaction-Upholds provider id =
      bind-Upholds (lift-Upholds _)
        (λ uid _. bind-Upholds (gets-Upholds _) (λ row _. view_transaction-Upholds row))

  get_external_transaction-Upholds :
      (provider external : Text) → Upholds P (get_external_transaction env provider external) Any
  unfolding get_external_transaction
  get_external_transaction-Upholds provider external =
      bind-Upholds (gets-Upholds _) (λ row _. view_transaction-Upholds row)

  reconcile-Upholds : (id : Text) → Upholds P (reconcile env id) Any
  unfolding reconcile
  reconcile-Upholds id = bind-Upholds (lift-Upholds _) (λ uid _.
      bind-Upholds (statement-Upholds env) (λ _ _.
        bind-Upholds
          (wrap-Upholds (bind-Upholds (gets-Upholds _) (λ row _. forget (lift-Upholds _))))
          (λ w _. bind-Upholds (gets-Upholds _) (λ total _.
            bind-Upholds (gets-Upholds _) (λ count _.
              if-Upholds (not (leb_ℤ min_int64 total && leb_ℤ total max_int64))
                (λ _. raise-Upholds _)
                (λ _. bind-Upholds (lift-Upholds _) (λ stored _.
                  bind-Upholds (lift-Upholds _) (λ calculated _.
                    bind-Upholds (lift-Upholds _) (λ difference _. pure-Upholds _ tt)))))))))

ledger-Upholds :
    (env : Env) (P : Db → Type 0) (codec : Codec) (id cursor : Text) (limit : ℕ)
    → Upholds P (ledger env codec id cursor limit) Any
unfolding ledger
ledger-Upholds env P codec id cursor limit = bind-Upholds (lift-Upholds _) (λ uid _.
    if-Upholds (ltb limit 1 || ltb 100 limit) (λ _. raise-Upholds _)
      (λ _. bind-Upholds (get_wallet-Upholds env P id) (λ w _.
        bind-Upholds (lift-Upholds _) (λ place _.
          bind-Upholds (statement-Upholds env)
            (λ _ _. bind-Upholds (gets-Upholds _) (λ rows _. forget (lift-Upholds _)))))))

show_result-same :
    {A : Type 0} (m : Tx A) (s : World)
    → ((P : Db → Type 0) → Upholds P m Any)
    → (show_result m s).1.db ≡ s.db
unfolding show_result
show_result-same m s keeps =
    let kept : (m s).1.db ≡ s.db = (keeps (λ db. db ≡ s.db)).after s refl in
    elim (Result-cases (m s).0) [ inl (a, good) ↦ ground arith | inr (e, bad) ↦ ground arith ]

with_id-same :
    {A : Type 0} (param : Text) (next : Text → World → Found A × World) (s : World)
    → ((id : Text) → (next id s).1.db ≡ s.db)
    → (with_id param next s).1.db ≡ s.db
unfolding with_id
with_id-same param next s same = elim (Result-cases (parse_id param)) [
  | inl (id, parsed) ↦ ground (arith, same (id_string id))
  | inr (e, bad) ↦ ground arith
]

page_result-same :
    (env : Env) (codec : Codec) (id cursor : Text) (limit : Option ℕ) (s : World)
    → (page_result env codec id cursor limit s).1.db ≡ s.db
unfolding page_result
page_result-same env codec id cursor none s = refl
page_result-same env codec id cursor (some limit) s =
    let shown =
      show_result-same (ledger env codec id cursor limit) s
        (λ P. ledger-Upholds env P codec id cursor limit) in
    elim (Bool-cases (ltb 1024 (len cursor))) [ inl long ↦ ground arith | inr short ↦ ground arith ]

-- Whatever is asked for by `getWallet`, `ledger`, `reconcile`, `getTransaction` and `getExternal`,
-- and however it ends, the database is as it was.
pub reads-silent :
    (env : Env) (p : Principal) (param provider external : Text) (s : World) (codec : Codec)
    (atoi : Text → Option ℤ) (limit cursor : Text)
    → ((show_ledger env codec atoi param limit cursor s).1.db ≡ s.db)
      × ((show_wallet env param s).1.db ≡ s.db)
      × ((show_reconciliation env param s).1.db ≡ s.db)
      × ((show_transaction env p param s).1.db ≡ s.db)
      × ((show_external env p provider external s).1.db ≡ s.db)
unfolding show_ledger show_wallet show_reconciliation show_transaction show_external
reads-silent env p param provider external s codec atoi limit cursor = (
  with_id-same param _ s (λ id. page_result-same env codec id cursor (page_limit atoi limit) s),
  with_id-same param _ s
      (λ id. show_result-same (get_wallet env id) s (λ P. get_wallet-Upholds env P id)),
  with_id-same param _ s
      (λ id. show_result-same (reconcile env id) s (λ P. reconcile-Upholds env P id)),
  with_id-same param _ s (λ id.
      show_result-same (get_transaction env p.provider_id id) s
        (λ P. get_transaction-Upholds env P p.provider_id id)),
  elim (Bool-cases (eq_text provider p.provider_id)) [
    | inl own ↦
        let kept =
          show_result-same (get_external_transaction env p.provider_id external) s
            (λ P. get_external_transaction-Upholds env P p.provider_id external) in
        ground arith
    | inr foreign ↦ ground arith
  ],
)
