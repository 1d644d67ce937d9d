-- ===== src/Store/Apply/Frames.antt =====
-- The steps of `apply` other than a movement leave the wallets and the ledger alone.
use jungle_wager_engine.Base.{
  Bool, ◌&&◌, refl, arith, none, some, is_empty, inl, inr, Bool-cases, Option, find, Text,
}
use jungle_wager_engine.Domain.Errors.{Result-cases}
use jungle_wager_engine.Domain.Wallet.{Time, WalletData}
use jungle_wager_engine.Domain.Ledger.{LedgerData}
use jungle_wager_engine.Domain.Wager.{WagerData, is_pending_reference}
use jungle_wager_engine.Store.Tables.{WagerRow, is_wager, has_external}
use jungle_wager_engine.Store.Monad.{Env, World, gets, lift, modify, pure, raise, ◌>>=◌, translate}
use jungle_wager_engine.Domain.Events.{Event, EventMeta, new_wallet_balance_changed}
use jungle_wager_engine.Store.Rows.{statement, server_now, allocate_id, scan_wager, wrap}
use jungle_wager_engine.Store.Apply.{
  Outcome, lock_reference, find_reference, is_reversed, persist_result, insert_event,
  write_balance_event, write_events, conclude, wager_event,
}
use jungle_wager_engine.Store.Apply.Conserves.{SameBooks, allocate_books}

module _ (env : Env) where
  pub scan_books : (row : Option WagerRow) (s : World) → SameBooks s (scan_wager env row s).1
  unfolding ◌>>=◌ pure lift raise gets modify translate scan_wager statement
  scan_books row s = ground arith

  pub lock_reference_books :
      (w : WalletData) (r : WagerData) (s : World) → SameBooks s (lock_reference env w r s).1
  unfolding ◌>>=◌ pure lift raise gets modify translate lock_reference wrap
  lock_reference_books w r s = ground (arith, scan_books (find (is_wager r.id) s.db.wagers) s)

  pub find_reference_books :
      (w : WalletData) (d : WagerData) (s : World) → SameBooks s (find_reference env w d s).1
  unfolding ◌>>=◌ pure lift raise gets modify translate find_reference
  find_reference_books w d s = elim (Bool-cases (is_empty d.reference_external_transaction_id)) [
    | inl unreferred ↦ ground arith
    | inr refers ↦
        elim (Result-cases
          (scan_wager env
            (find (has_external d.provider_id d.reference_external_transaction_id) s.db.wagers)
            s).0) [
              | inl (r, found_it) ↦ ground (
                arith,
                scan_books
                    (find (has_external d.provider_id d.reference_external_transaction_id)
                      s.db.wagers)
                    s,
                lock_reference_books w r
                    (scan_wager env
                      (find (has_external d.provider_id d.reference_external_transaction_id)
                        s.db.wagers)
                      s).1,
              )
              | inr (e, missing) ↦ ground (
                arith,
                scan_books
                    (find (has_external d.provider_id d.reference_external_transaction_id)
                      s.db.wagers)
                    s,
              )
            ]
  ]

  pub is_reversed_books : (r : Option WagerData) (s : World) → SameBooks s (is_reversed env r s).1
  unfolding ◌>>=◌ pure lift raise gets modify translate is_reversed statement
  is_reversed_books r s = ground arith

  pub persist_books : (d : WagerData) (s : World) → SameBooks s (persist_result env d s).1
  unfolding ◌>>=◌ pure lift raise gets modify translate persist_result statement server_now
  persist_books d s = ground arith

  insert_event_books : (e : Event) (s : World) → SameBooks s (insert_event env e s).1
  unfolding ◌>>=◌ pure lift raise gets modify translate insert_event statement server_now
  insert_event_books e s = ground arith

  balance_event_books :
      (e : Option LedgerData) (m : EventMeta) (w : WalletData) (s : World)
      → SameBooks s (write_balance_event env e m w s).1
  unfolding ◌>>=◌ pure lift raise gets modify translate write_balance_event
  balance_event_books none m w s = (refl, refl)
  balance_event_books (some e) m w s = elim (Result-cases (allocate_id env s).0) [
    | inl (id, drawn) ↦
        elim (Result-cases (new_wallet_balance_changed (record m { id = id }) e w.version)) [
          | inl (ev, made) ↦
              ground (arith, allocate_books env s, insert_event_books ev (allocate_id env s).1)
          | inr (f, refused) ↦ ground (arith, allocate_books env s)
        ]
    | inr (f, refused) ↦ ground (arith, allocate_books env s)
  ]

  module _ (d : WagerData) (w : WalletData) (e : Option LedgerData) (c k : Text) (at : Time) where
    pub write_events_books : (s : World) → SameBooks s (write_events env d w e c k at s).1
    unfolding ◌>>=◌ pure lift raise gets modify translate write_events
    write_events_books s = elim (Result-cases (allocate_id env s).0) [
      | inl (id, drawn) ↦
          let s1 = (allocate_id env s).1 in
          let meta : EventMeta = record {
            id = id;
            correlation_id = c;
            causation_id = k;
            occurred_at = at;
          } in
          elim (Result-cases (wager_event env d.status meta d)) [
            | inl (ev, made) ↦
                let s2 = (insert_event env ev s1).1 in
                elim (Result-cases (insert_event env ev s1).0) [
                  | inl (u, written) ↦ ground (
                    arith,
                    allocate_books env s,
                    insert_event_books ev s1,
                    balance_event_books e meta w s2,
                  )
                  | inr (f, refused) ↦
                      ground (arith, allocate_books env s, insert_event_books ev s1)
                ]
            | inr (f, refused) ↦ ground (arith, allocate_books env s)
          ]
      | inr (f, refused) ↦ ground (arith, allocate_books env s)
    ]

  pub conclude_books :
      (p : Bool) (c k : Text) (at : Time) (o : Outcome) (s : World)
      → SameBooks s (conclude env p c k at o s).1
  unfolding ◌>>=◌ pure lift raise gets modify translate conclude
  conclude_books p c k at o s =
      let s1 = (persist_result env o.wager s).1 in
      elim (Result-cases (persist_result env o.wager s).0) [
        | inl (u, written) ↦ elim (Bool-cases (is_pending_reference o.wager.status && p)) [
          | inl again ↦ ground (arith, persist_books o.wager s)
          | inr first ↦
              elim (Result-cases (write_events env o.wager o.wallet o.entry c k at s1).0) [
                | inl (v, good) ↦ ground (
                  arith,
                  persist_books o.wager s,
                  write_events_books o.wager o.wallet o.entry c k at s1,
                )
                | inr (f, refused) ↦ ground (
                  arith,
                  persist_books o.wager s,
                  write_events_books o.wager o.wallet o.entry c k at s1,
                )
              ]
        ]
        | inr (f, refused) ↦ ground (arith, persist_books o.wager s)
      ]
