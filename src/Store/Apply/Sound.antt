-- ===== src/Store/Apply/Sound.antt =====
-- `apply` leaves sound books: balanced, and with numbers in the range of BIGINT.
use jungle_wager_engine.Base.{
  ◌≡◌, refl, sym, ap, ◌∙◌, arith, some, is_empty, inl, inr, Bool-cases, Option, int_laws, find,
  List, IsInt64, pos, add64_lem, none, [], ◌∷◌,
}
use jungle_wager_engine.Domain.Errors.{ok}
use jungle_wager_engine.Domain.Id.{Uuid, eq_id, eq_id→eq}
use jungle_wager_engine.Domain.Money.{Money}
use jungle_wager_engine.Domain.Wallet.{Time, WalletData, debit, credit}
use jungle_wager_engine.Domain.Wallet.Moves.{Fits, debit-ok, credit-ok}
use jungle_wager_engine.Domain.Ledger.{
  Direction, debit_direction, credit_direction, no_direction, other_direction, LedgerData,
}
use jungle_wager_engine.Domain.Wager.{WagerData}
use jungle_wager_engine.Domain.Wager.Steps.{Advances, process-Advances}
use jungle_wager_engine.Domain.Evaluate.{Decision}
use jungle_wager_engine.Store.Tables.{Db, update_where, has_id, ledger_total}
use jungle_wager_engine.Store.Monad.{Env, World, ◌>>=◌, lift, pure}
use jungle_wager_engine.Store.Apply.{
  set_balance, write_entry, write_movement, move_by, settle, Outcome, reference_id_of, carry_out,
}
use jungle_wager_engine.Store.Apply.Conserves.{
  IsBalanced, carry-Balanced, find-update_self, find-update_ne, insert_ledger-ok,
}
use jungle_wager_engine.Store.Apply.Balanced.{
  move_by-signed, write_entry-lem, updated, settle-lem, carry_out-IsBalanced,
}

-- The stored balances and versions are in the range of BIGINT.
abbrev pub InRange : List WalletData → Type 0
InRange wallets =
    (id : Uuid) (w : WalletData)
    → find (has_id id) wallets ≡ some w
    → IsInt64 w.balance.minor × IsInt64 w.version

-- Only stored wallets have entries that count.
abbrev pub IsClosed : List WalletData → List LedgerData → Type 0
IsClosed wallets ledger =
    (id : Uuid) → find (has_id id) wallets ≡ none → ledger_total id ledger ≡ pos 0

pub record IsSound (db : Db) : Type 0 where
  pub balanced : IsBalanced db
  pub in_range : InRange db.wallets
  pub closed : IsClosed db.wallets db.ledger

-- What the others commit leaves the books sound.
abbrev pub OthersSound : Env → Type 0
OthersSound env = (db : Db) → IsSound db → IsSound (env.others db)

-- Equal books are sound alike.
pub carry-Sound :
    {db t : Db} → t.wallets ≡ db.wallets → t.ledger ≡ db.ledger → IsSound db → IsSound t
carry-Sound pw pl g = record {
  balanced = carry-Balanced pw pl g.balanced;
  in_range = λ id w f. g.in_range id w (rw pw at f);
  closed = λ id f. rw pl (g.closed id (rw pw at f));
}

find-update_none :
    (w : WalletData) (id : Uuid) (wallets : List WalletData)
    → find (has_id id) (update_where (has_id w.id) (set_balance w) wallets) ≡ none
    → find (has_id id) wallets ≡ none
unfolding find update_where
find-update_none w id [] h = refl
find-update_none w id (x ∷ wallets) h = ground (arith, find-update_none w id wallets)

-- An entry of a stored wallet.
entry-IsClosed :
    (w w0 : WalletData) (e : LedgerData) (wallets : List WalletData) (ledger : List LedgerData)
    → IsClosed wallets ledger
    → find (has_id w.id) wallets ≡ some w0
    → e.wallet_id ≡ w.id
    → IsClosed (update_where (has_id w.id) (set_balance w) wallets) (e ∷ ledger)
unfolding ledger_total
entry-IsClosed w w0 e wallets ledger closed stored own id missing =
    let absent = find-update_none w id wallets missing in
    elim (Bool-cases (eq_id e.wallet_id id)) [
      | inl same ↦
          let here_ : find (has_id id) wallets ≡ some w0 =
            ap (λ j. find (has_id j) wallets) (sym (eq_id→eq e.wallet_id id same) ∙ own) ∙ stored in
          absurd (ground arith)
      | inr other ↦ ground (arith, closed id absent)
    ]

update-InRange :
    (w w0 : WalletData) (wallets : List WalletData)
    → InRange wallets
    → find (has_id w.id) wallets ≡ some w0
    → IsInt64 w.balance.minor × IsInt64 w.version
    → InRange (update_where (has_id w.id) (set_balance w) wallets)
update-InRange w w0 wallets ranged stored (b, v) id x f = elim (Bool-cases (eq_id id w.id)) [
  | inl same ↦
      let here_ : find (has_id w.id) (update_where (has_id w.id) (set_balance w) wallets) ≡ some x =
        ap (λ j. find (has_id j) (update_where (has_id w.id) (set_balance w) wallets))
          (sym (eq_id→eq id w.id same))
        ∙ f in
      let written = find-update_self w w.id wallets {r = w0} stored in ground arith
  | inr other ↦ ranged id x (sym (find-update_ne w id w.id wallets other) ∙ f)
]

-- A movement stays in range.
move_by-InRange :
    (dir : Direction) (w w' : WalletData) (money : Money) (at : Time)
    → Fits w money
    → move_by dir w money at ≡ ok w'
    → IsInt64 w'.balance.minor × IsInt64 w'.version
unfolding move_by debit credit
move_by-InRange debit_direction w w' money at f h =
    grind (int_laws, debit-ok w w' money at f h, add64_lem w.version (pos 1))
move_by-InRange credit_direction w w' money at f h =
    grind (int_laws, credit-ok w w' money at f h, add64_lem w.version (pos 1))
move_by-InRange no_direction w w' money at f h = ground arith
move_by-InRange (other_direction t) w w' money at f h = ground arith

module _ (env : Env) (w : WalletData) (wg : WagerData) (reference : Option WagerData) (at : Time)
    (s : World) (g : IsSound s.db) (stored : find (has_id w.id) s.db.wallets ≡ some w)
    (owned : wg.wallet_id ≡ w.id) (fits : Fits w wg.money) where
  -- The wallets once the movement is written.
  module _ (d : WagerData) (w' : WalletData) (same : w'.id ≡ w.id) (mine : d.wallet_id ≡ w.id)
      (ranged : IsInt64 w'.balance.minor × IsInt64 w'.version) where
    write_entry-Kept :
        (dir : Direction) (entry : Option LedgerData)
        → (write_entry env dir d w.balance w' at s).0 ≡ ok entry
        → InRange (write_entry env dir d w.balance w' at s).1.db.wallets
          × IsClosed
              (write_entry env dir d w.balance w' at s).1.db.wallets
              (write_entry env dir d w.balance w' at s).1.db.ledger
    write_entry-Kept dir entry h =
        let here_ : find (has_id w'.id) s.db.wallets ≡ some w = rw same stored in
        let own : d.wallet_id ≡ w'.id = mine ∙ sym same in
        let (e, made, after) = write_entry-lem env d w' w at s g.balanced here_ own dir entry h in
        let (ws, ls, wid, _, _, _, _) =
          insert_ledger-ok env d dir w.balance w'.balance at
            (updated env d w' w at s g.balanced here_ own) e made in
        let pw = ap (λ t. t.db.wallets) after ∙ ws in
        let pl = ap (λ t. t.db.ledger) after ∙ ls in
        (
          rw pw (update-InRange w' w s.db.wallets g.in_range here_ ranged),
          rw (pw, pl) (entry-IsClosed w' w e s.db.wallets s.db.ledger g.closed here_ (wid ∙ own)),
        )

    write_movement-Kept :
        (dir : Direction) (entry : Option LedgerData)
        → (write_movement env dir d w.balance w' at s).0 ≡ ok entry
        → InRange (write_movement env dir d w.balance w' at s).1.db.wallets
          × IsClosed
              (write_movement env dir d w.balance w' at s).1.db.wallets
              (write_movement env dir d w.balance w' at s).1.db.ledger
    unfolding write_movement pure
    write_movement-Kept no_direction entry h = (g.in_range, g.closed)
    write_movement-Kept debit_direction entry h = write_entry-Kept debit_direction entry h
    write_movement-Kept credit_direction entry h = write_entry-Kept credit_direction entry h
    write_movement-Kept (other_direction t) entry h = write_entry-Kept (other_direction t) entry h

  settle-Kept :
      (dir : Direction) (o : Outcome)
      → (settle env w wg reference dir at s).0 ≡ ok o
      → InRange (settle env w wg reference dir at s).1.db.wallets
        × IsClosed
            (settle env w wg reference dir at s).1.db.wallets
            (settle env w wg reference dir at s).1.db.ledger
  settle-Kept dir o h =
      let (w', d, entry, moved, done, written, same, _) =
        settle-lem env w wg reference at s g.balanced stored owned fits dir o h in
      let (wid, _) = move_by-signed dir w w' wg.money at fits moved in
      let a : Advances wg d =
        process-Advances wg d w'.balance w'.version (reference_id_of reference) at done in
      rw (ap (λ t. t.db.wallets) same, ap (λ t. t.db.ledger) same)
        (write_movement-Kept d w' wid (a.same.wallet_id ∙ owned)
          (move_by-InRange dir w w' wg.money at fits moved) dir entry written)

  carry_out-Kept :
      (decision : Decision) (o : Outcome)
      → (carry_out env w wg reference decision at s).0 ≡ ok o
      → InRange (carry_out env w wg reference decision at s).1.db.wallets
        × IsClosed
            (carry_out env w wg reference decision at s).1.db.wallets
            (carry_out env w wg reference decision at s).1.db.ledger
  unfolding ◌>>=◌ lift pure carry_out
  carry_out-Kept decision o h = elim (Bool-cases decision.waits) [
    | inl waits ↦
        let same : (carry_out env w wg reference decision at s).1.db ≡ s.db = ground arith in
        rw same (g.in_range, g.closed)
    | inr goes ↦ elim (Bool-cases (is_empty decision.failure_code)) [
      | inl good ↦
          let same : carry_out env w wg reference decision at s
              ≡ settle env w wg reference decision.direction at s =
            ground arith in
          rw (ap (λ t. t.1.db.wallets) same, ap (λ t. t.1.db.ledger) same)
            (settle-Kept decision.direction o (ap (λ t. t.0) (sym same) ∙ h))
      | inr bad ↦
          let same : (carry_out env w wg reference decision at s).1.db ≡ s.db = ground arith in
          rw same (g.in_range, g.closed)
    ]
  ]

  -- Carrying out a decision leaves sound books.
  pub carry_out-IsSound :
      (decision : Decision) (o : Outcome)
      → (carry_out env w wg reference decision at s).0 ≡ ok o
      → IsSound (carry_out env w wg reference decision at s).1.db
  carry_out-IsSound decision o h = record {
    balanced =
        carry_out-IsBalanced env w wg reference at s g.balanced stored owned fits decision o h;
    in_range = (carry_out-Kept decision o h).0;
    closed = (carry_out-Kept decision o h).1;
  }
