-- ===== src/Store/Apply/Balanced.antt =====
-- `apply` keeps the books balanced.
use jungle_wager_engine.Base.{
  ◌+◌, ◌≡◌, ◌≢◌, refl, sym, ap, ◌∙◌, arith, some, is_empty, ◌⊎◌, inl, inr, Bool-cases, Option,
  int_laws, find, Text,
}
use jungle_wager_engine.Domain.Errors.{Result-cases, ok}
use jungle_wager_engine.Domain.Money.{Money}
use jungle_wager_engine.Domain.Wallet.{Time, WalletData, rehydrate_wallet}
use jungle_wager_engine.Domain.Wallet.Moves.{Fits, debit-ok, credit-ok}
use jungle_wager_engine.Domain.Ledger.{
  Direction, debit_direction, credit_direction, no_direction, other_direction, LedgerData,
  new_ledger_entry, expected_balance,
}
use jungle_wager_engine.Domain.Wager.{WagerData, process}
use jungle_wager_engine.Domain.Wager.Steps.{Advances, process-Advances}
use jungle_wager_engine.Store.Tables.{update_where, has_id, signed}
use jungle_wager_engine.Store.Monad.{Env, World, gets, lift, modify, pure, raise, ◌>>=◌, translate}
use jungle_wager_engine.Domain.Evaluate.{Decision}
use jungle_wager_engine.Store.Rows.{statement, allocate_id}
use jungle_wager_engine.Store.Apply.{
  set_balance, entry_data, insert_ledger, write_entry, write_movement, move_by, settle, Outcome,
  reference_id_of, carry_out,
}
use jungle_wager_engine.Store.Apply.Conserves.{
  IsBalanced, carry-Balanced, movement-IsBalanced, insert_ledger-ok,
}

-- The balance after a movement is the one that the ledger will account for.
pub move_by-signed :
    (dir : Direction) (w w' : WalletData) (money : Money) (at : Time)
    → Fits w money
    → move_by dir w money at ≡ ok w'
    → (w'.id ≡ w.id)
      × ((dir ≡ debit_direction) ⊎ (dir ≡ credit_direction)
          → w'.balance.minor ≡ signed dir money.minor w.balance.minor)
unfolding move_by signed
move_by-signed debit_direction w w' money at f h = grind (int_laws, debit-ok w w' money at f h)
move_by-signed credit_direction w w' money at f h = grind (int_laws, credit-ok w w' money at f h)
move_by-signed no_direction w w' money at f h = ground arith
move_by-signed (other_direction t) w w' money at f h = ground arith

other_refused :
    (d : LedgerData) (e : LedgerData) (t : Text)
    → d.direction ≡ other_direction t
    → new_ledger_entry d ≢ ok e
unfolding new_ledger_entry expected_balance
other_refused d e t o h = ground arith

module _ (env : Env) where
  insert_other :
      (d : WagerData) (t : Text) (before after : Money) (at : Time) (s : World) (e : LedgerData)
      → (insert_ledger env d (other_direction t) before after at s).0 ≢ ok e
  unfolding ◌>>=◌ pure lift raise gets modify translate insert_ledger
  insert_other d t before after at s e h = elim (Result-cases (allocate_id env s).0) [
    | inl (id, drawn) ↦
        elim (Result-cases
          (new_ledger_entry (entry_data d (other_direction t) before after at id))) [
            | inl (x, made) ↦
                other_refused (entry_data d (other_direction t) before after at id) x t refl made
            | inr (f, refused) ↦ ground arith
          ]
    | inr (f, refused) ↦ ground arith
  ]

  module _ (d : WagerData) (w w0 : WalletData) (at : Time) (s : World) (balanced : IsBalanced s.db)
      (stored : find (has_id w.id) s.db.wallets ≡ some w0) (owned : d.wallet_id ≡ w.id) where
    abbrev pub updated : World
    updated = record {
      db = record s.db { wallets = update_where (has_id w.id) (set_balance w) s.db.wallets };
      step = s.step + 1;
    }

    recorded_movement :
        (dir : Direction) (e : LedgerData)
        → w.balance.minor ≡ signed dir d.money.minor w0.balance.minor
        → (insert_ledger env d dir w0.balance w.balance at updated).0 ≡ ok e
        → IsBalanced (insert_ledger env d dir w0.balance w.balance at updated).1.db
    recorded_movement dir e moved h =
        let (ws, ls, wid, de, me, _, _) =
          insert_ledger-ok env d dir w0.balance w.balance at updated e h in
        carry-Balanced ws ls
          (movement-IsBalanced s.db w w0 e balanced stored (wid ∙ owned) (rw (de, me) moved))

    pub write_entry-lem :
        (dir : Direction) (entry : Option LedgerData)
        → (write_entry env dir d w0.balance w at s).0 ≡ ok entry
        → (e : LedgerData) × ((insert_ledger env d dir w0.balance w.balance at updated).0 ≡ ok e)
          × ((write_entry env dir d w0.balance w at s).1
              ≡ (insert_ledger env d dir w0.balance w.balance at updated).1)
    unfolding ◌>>=◌ pure lift raise gets modify translate write_entry statement
    write_entry-lem dir entry h =
        elim (Result-cases (insert_ledger env d dir w0.balance w.balance at updated).0) [
          | inl (e, made) ↦ (e, made, ground arith)
          | inr (f, refused) ↦ absurd (ground arith)
        ]

    write_entry-IsBalanced :
        (dir : Direction) (entry : Option LedgerData)
        → w.balance.minor ≡ signed dir d.money.minor w0.balance.minor
        → (write_entry env dir d w0.balance w at s).0 ≡ ok entry
        → IsBalanced (write_entry env dir d w0.balance w at s).1.db
    write_entry-IsBalanced dir entry moved h =
        let (e, made, same) = write_entry-lem dir entry h in
        carry-Balanced (ap (λ t. t.db.wallets) same) (ap (λ t. t.db.ledger) same)
          (recorded_movement dir e moved made)

    pub other_entry :
        (t : Text) (entry : Option LedgerData)
        → (write_entry env (other_direction t) d w0.balance w at s).0 ≢ ok entry
    other_entry t entry h =
        let (e, made, same) = write_entry-lem (other_direction t) entry h in
        insert_other d t w0.balance w.balance at updated e made

    write_movement-IsBalanced :
        (dir : Direction) (entry : Option LedgerData)
        → ((dir ≡ debit_direction) ⊎ (dir ≡ credit_direction)
            → w.balance.minor ≡ signed dir d.money.minor w0.balance.minor)
        → (write_movement env dir d w0.balance w at s).0 ≡ ok entry
        → IsBalanced (write_movement env dir d w0.balance w at s).1.db
    unfolding ◌>>=◌ pure lift raise gets modify translate write_movement
    write_movement-IsBalanced no_direction entry moved h = balanced
    write_movement-IsBalanced debit_direction entry moved h =
        write_entry-IsBalanced debit_direction entry (moved (inl refl)) h
    write_movement-IsBalanced credit_direction entry moved h =
        write_entry-IsBalanced credit_direction entry (moved (inr refl)) h
    write_movement-IsBalanced (other_direction t) entry moved h = absurd (other_entry t entry h)

  module _ (w : WalletData) (wg : WagerData) (reference : Option WagerData) (at : Time) (s : World)
      (balanced : IsBalanced s.db) (stored : find (has_id w.id) s.db.wallets ≡ some w)
      (owned : wg.wallet_id ≡ w.id) (fits : Fits w wg.money) where
    pub settle-lem :
        (dir : Direction) (o : Outcome)
        → (settle env w wg reference dir at s).0 ≡ ok o
        → (w' : WalletData) × (d : WagerData) × (entry : Option LedgerData) × (move_by dir w
              wg.money at
            ≡ ok w')
          × (process wg w'.balance w'.version (reference_id_of reference) at ≡ ok d)
          × ((write_movement env dir d w.balance w' at s).0 ≡ ok entry)
          × ((settle env w wg reference dir at s).1
              ≡ (write_movement env dir d w.balance w' at s).1)
          × (o ≡ record { wager = d; wallet = w'; entry = entry })
    unfolding ◌>>=◌ pure lift raise gets modify translate settle rehydrate_wallet
    settle-lem dir o h = elim (Result-cases (move_by dir w wg.money at)) [
      | inl (w', moved) ↦
          elim (Result-cases (process wg w'.balance w'.version (reference_id_of reference) at)) [
            | inl (d, done) ↦ elim (Result-cases (write_movement env dir d w.balance w' at s).0) [
              | inl (entry, written) ↦
                  (w', d, entry, moved, done, written, ground arith, ground arith)
              | inr (f, refused) ↦ absurd (ground arith)
            ]
            | inr (f, refused) ↦ absurd (ground arith)
          ]
      | inr (f, refused) ↦ absurd (ground arith)
    ]

    settle-IsBalanced :
        (dir : Direction) (o : Outcome)
        → (settle env w wg reference dir at s).0 ≡ ok o
        → IsBalanced (settle env w wg reference dir at s).1.db
    settle-IsBalanced dir o h =
        let (w', d, entry, moved, done, written, same, _) = settle-lem dir o h in
        let (wid, sg) = move_by-signed dir w w' wg.money at fits moved in
        let a : Advances wg d =
          process-Advances wg d w'.balance w'.version (reference_id_of reference) at done in
        carry-Balanced (ap (λ t. t.db.wallets) same) (ap (λ t. t.db.ledger) same) (
          write_movement-IsBalanced d w' w at s balanced (rw wid stored)
            (a.same.wallet_id ∙ owned ∙ sym wid) dir entry (λ k. rw (a.same.money) (sg k)) written)

    -- Carrying out a decision keeps the books balanced.
    pub carry_out-IsBalanced :
        (decision : Decision) (o : Outcome)
        → (carry_out env w wg reference decision at s).0 ≡ ok o
        → IsBalanced (carry_out env w wg reference decision at s).1.db
    unfolding ◌>>=◌ pure lift raise gets modify translate carry_out
    carry_out-IsBalanced decision o h = elim (Bool-cases decision.waits) [
      | inl waits ↦ carry-Balanced (ground arith) (ground arith) balanced
      | inr goes ↦ elim (Bool-cases (is_empty decision.failure_code)) [
        | inl good ↦
            (let same : carry_out env w wg reference decision at s
                  ≡ settle env w wg reference decision.direction at s =
                ground arith in
              carry-Balanced (ap (λ t. t.1.db.wallets) same) (ap (λ t. t.1.db.ledger) same)
                (settle-IsBalanced decision.direction o (ap (λ t. t.0) (sym same) ∙ h)))
        | inr bad ↦ carry-Balanced (ground arith) (ground arith) balanced
      ]
    ]
