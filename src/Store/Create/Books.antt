-- ===== src/Store/Create/Books.antt =====
-- `CreateWallet` leaves sound books.
use jungle_wager_engine.Base.{
  false, ◌≡◌, refl, sym, ap, ◌∙◌, arith, int_laws, List, ◌∷◌, [], none, some, find, any, Bool-cases,
  inl, inr, pos, ◌≤ℤ◌, ltb_ℤ, IsInt64, if◌then◌else◌,
}
use jungle_wager_engine.Domain.Errors.{Result-cases, ok}
use jungle_wager_engine.Domain.Id.{Uuid, eq_id, eq_id→eq}
use jungle_wager_engine.Domain.Money.{Money}
use jungle_wager_engine.Domain.Wallet.{
  Time, WalletData, new_wallet, rehydrate_wallet, validate_wallet, wallet_is_bad,
}
use jungle_wager_engine.Domain.Ledger.{LedgerData, credit_direction}
use jungle_wager_engine.Domain.Wager.{WagerData}
use jungle_wager_engine.Store.Tables.{Db, WagerRow, has_id, ledger_total, signed}
use jungle_wager_engine.Store.Monad.{Env, World, Tx, ◌>>=◌, pure, gets, modify, raise}
use jungle_wager_engine.Store.Monad.Upholds.{Upholds, Any, lift-Upholds}
use jungle_wager_engine.Store.Monad.Ends.{
  Ends, pure-Ends, if-Ends, bind-Ends, then-Ends, upheld-Ends,
}
use jungle_wager_engine.Store.Rows.{statement}
use jungle_wager_engine.Store.Rows.Upheld.{statement-Upholds, now-Upholds, allocate_id-Upholds}
use jungle_wager_engine.Store.Apply.{insert_ledger}
use jungle_wager_engine.Store.Apply.Conserves.{SameBooks, insert_ledger-ok}
use jungle_wager_engine.Store.Apply.Frames.{write_events_books}
use jungle_wager_engine.Store.Apply.Sound.{IsSound, OthersSound, carry-Sound}
use jungle_wager_engine.Store.Create.{
  CreateWalletCommand, new_wallet_data, opening_data, insert_wallet, insert_opening, open_with,
  create_body, create_wallet,
}
use jungle_wager_engine.Store.Process.{commit, transact}
use jungle_wager_engine.Store.Create.Upheld.{opening-same}

-- A new wallet is stored and its opening is not.
record Opening (w : WalletData) (db : Db) : Type 0 where
  before : Db
  sound : IsSound before
  wallets : db.wallets ≡ w ∷ before.wallets
  ledger : db.ledger ≡ before.ledger
  fresh : find (has_id w.id) before.wallets ≡ none

any-find :
    (id : Uuid) (rows : List WalletData)
    → any (has_id id) rows ≡ false
    → find (has_id id) rows ≡ none
unfolding any find
any-find id [] h = refl
any-find id (x ∷ rows) h = ground (arith, any-find id rows)

module _ (w : WalletData) (ranged : IsInt64 w.balance.minor × IsInt64 w.version) (before : Db)
    (sound : IsSound before) (fresh : find (has_id w.id) before.wallets ≡ none)
    (ledger : List LedgerData)
    (total : (id : Uuid)
      → ledger_total id ledger
        ≡ (if eq_id w.id id then w.balance.minor else ledger_total id before.ledger)) where
  -- Books with the new wallet, in which its entries sum up to its balance and the others' do as before.
  opened-IsSound : IsSound (record before { wallets = w ∷ before.wallets; ledger = ledger })
  unfolding find
  opened-IsSound = record {
    balanced = λ id x f. elim (Bool-cases (eq_id w.id id)) [
      | inl new ↦ ground (arith, total id)
      | inr old ↦ ground (arith, total id, sound.balanced id x (ground arith))
    ];
    in_range = λ id x f. elim (Bool-cases (eq_id w.id id)) [
      | inl new ↦ ground arith
      | inr old ↦ sound.in_range id x (ground arith)
    ];
    closed = λ id f. elim (Bool-cases (eq_id w.id id)) [
      | inl new ↦ absurd (ground arith)
      | inr old ↦ ground (arith, total id, sound.closed id (ground arith))
    ];
  }

same-Opening : (w : WalletData) (s t : World) → SameBooks s t → Opening w s.db → Opening w t.db
same-Opening w s t (pw, pl) o = record {
  before = o.before;
  sound = o.sound;
  wallets = pw ∙ o.wallets;
  ledger = pl ∙ o.ledger;
  fresh = o.fresh;
}

-- The first entry of a wallet is a credit of its balance.
totals :
    (w : WalletData) (ledger before : List LedgerData) (e : LedgerData)
    → ledger ≡ before
    → e.wallet_id ≡ w.id
    → e.direction ≡ credit_direction
    → e.money ≡ w.balance
    → ledger_total w.id before ≡ pos 0
    → (id : Uuid)
    → ledger_total id (e ∷ ledger)
      ≡ (if eq_id w.id id then w.balance.minor else ledger_total id before)
unfolding ledger_total signed
totals w ledger before e same own de me none_yet id = elim (Bool-cases (eq_id w.id id)) [
  | inl new ↦
      let here_ : ledger_total id before ≡ pos 0 =
        ap (λ j. ledger_total j before) (sym (eq_id→eq w.id id new)) ∙ none_yet in
      grind int_laws
  | inr old ↦ ground arith
]

-- A step that leaves the books alone.
framed :
    {A : Type 0} {P : Db → Type 0} (m : Tx A)
    → ((s t : World) → SameBooks s t → P s.db → P t.db)
    → ((s : World) → SameBooks s (m s).1)
    → Upholds P m Any
framed m carry frame = record {
  after = λ s p. carry s (m s).1 (frame s) p;
  returns = λ s p a h. tt;
}

module _ (env : Env) where
  insert_wallet-ok :
      (w : WalletData) (s : World) (u : Unit {0})
      → (insert_wallet env w s).0 ≡ ok u
      → (any (has_id w.id) s.db.wallets ≡ false)
        × ((insert_wallet env w s).1.db ≡ record s.db { wallets = w ∷ s.db.wallets })
  unfolding insert_wallet statement ◌>>=◌ pure gets modify raise
  insert_wallet-ok w s u h = ground arith

  insert_wallet-Ends : (w : WalletData) → Ends IsSound (insert_wallet env w) (λ _. Opening w)
  insert_wallet-Ends w = record {
    well = λ s g u h.
        let (free, after) = insert_wallet-ok w s u h in
        record {
          before = s.db;
          sound = g;
          wallets = ap (λ db. db.wallets) after;
          ledger = ap (λ db. db.ledger) after;
          fresh = any-find w.id s.db.wallets free;
        };
  }

  insert_opening_books : (row : WagerRow) (s : World) → SameBooks s (insert_opening env row s).1
  unfolding insert_opening statement ◌>>=◌ pure gets modify raise
  insert_opening_books row s = ground arith

  insert_ledger-Ends :
      (w : WalletData) (d : WagerData) (zero_ : Money) (at : Time)
      → IsInt64 w.balance.minor × IsInt64 w.version
      → d.wallet_id ≡ w.id
      → d.money ≡ w.balance
      → Ends (Opening w) (insert_ledger env d credit_direction zero_ w.balance at) (λ _. IsSound)
  insert_ledger-Ends w d zero_ at ranged own money = record {
    well = λ s o e h.
        let (ws, ls, wid, de, me, _, _) =
          insert_ledger-ok env d credit_direction zero_ w.balance at s e h in
        carry-Sound (ws ∙ o.wallets) ls (
          opened-IsSound w ranged o.before o.sound o.fresh (e ∷ s.db.ledger) (
            totals w s.db.ledger o.before.ledger e o.ledger (wid ∙ own) de (me ∙ money)
              (o.sound.closed w.id o.fresh)));
  }

  open_with-Ends :
      (c : CreateWalletCommand) (w : WalletData) (at : Time)
      → IsInt64 w.balance.minor × IsInt64 w.version
      → c.initial_balance ≡ w.balance
      → Ends (Opening w) (open_with env c w at) (λ _. IsSound)
  unfolding open_with
  open_with-Ends c w at ranged balance = then-Ends (allocate_id-Upholds env) (λ tid _.
      then-Ends (lift-Upholds _) (λ wg made. then-Ends (lift-Upholds _) (λ d done.
        let same =
          opening-same (opening_data c tid w.id w.player_id at) wg d c.initial_balance at made
            done in
        then-Ends (framed _ (same-Opening w) (insert_opening_books _)) (λ _ _.
          then-Ends (lift-Upholds _) (λ zero_ _.
            bind-Ends
              (rw balance
                (insert_ledger-Ends w d zero_ at ranged same.wallet_id (same.money ∙ balance)))
              (λ entry. upheld-Ends (
                framed _ (λ s t (pw, pl) g. carry-Sound pw pl g)
                  (write_events_books env d w (some entry) _ _ at))))))))

  unopened-IsSound :
      (w : WalletData) (db : Db)
      → IsInt64 w.balance.minor × IsInt64 w.version
      → w.balance.minor ≡ pos 0
      → Opening w db
      → IsSound db
  unopened-IsSound w db ranged empty o = carry-Sound o.wallets o.ledger (
      opened-IsSound w ranged o.before o.sound o.fresh o.before.ledger (λ id.
        elim (Bool-cases (eq_id w.id id)) [
          | inl new ↦
              let here_ : ledger_total id o.before.ledger ≡ pos 0 =
                ap (λ j. ledger_total j o.before.ledger) (sym (eq_id→eq w.id id new))
                ∙ o.sound.closed w.id o.fresh in
              ground arith
          | inr old ↦ ground arith
        ]))

  -- A wallet that is made has the balance that was asked for, which is not negative.
  new_wallet-made :
      (data_ w : WalletData)
      → new_wallet data_ ≡ ok w
      → (w ≡ data_) × (pos 0 ≤ℤ data_.balance.minor) × (data_.version ≡ pos 1)
  unfolding new_wallet rehydrate_wallet validate_wallet wallet_is_bad
  new_wallet-made data_ w h = grind int_laws

  create_body-Ends :
      (c : CreateWalletCommand)
      → IsInt64 c.initial_balance.minor
      → Ends IsSound (create_body env c) (λ _. IsSound)
  unfolding create_body commit
  create_body-Ends c fits = then-Ends (lift-Upholds _) (λ player _.
      then-Ends (lift-Upholds _) (λ _ _. then-Ends (statement-Upholds env) (λ _ _.
        then-Ends (allocate_id-Upholds env) (λ id _. then-Ends (now-Upholds env) (λ at _.
          then-Ends (lift-Upholds _) (λ w made.
            let (is_new, nonneg, first) = new_wallet-made (new_wallet_data c id player at) w made in
            let balance : c.initial_balance ≡ w.balance = ap (λ x. x.balance) (sym is_new) in
            let ranged : IsInt64 w.balance.minor × IsInt64 w.version =
              rw is_new (fits, omega int_laws) in
            bind-Ends (insert_wallet-Ends w) (λ _.
              bind-Ends {Q = λ _. IsSound}
                (if-Ends (ltb_ℤ (pos 0) c.initial_balance.minor)
                  (λ _. open_with-Ends c w at ranged balance)
                  (λ none_. pure-Ends tt (λ db o.
                    unopened-IsSound w db ranged
                      (ap (λ m. m.minor) (sym balance) ∙ nothing c.initial_balance none_ nonneg)
                      o)))
                (λ _. then-Ends (statement-Upholds env) (λ _ _. pure-Ends w (λ db g. g))))))))))
    where
      nothing : (m : Money) → ltb_ℤ (pos 0) m.minor ≡ false → pos 0 ≤ℤ m.minor → m.minor ≡ pos 0
      nothing m h k = grind int_laws

-- However `CreateWallet` ends, the books are sound afterwards, if they were before: each wallet's
-- balance is the sum of its ledger entries, balances and versions are int64, and only stored wallets
-- have entries. The others are taken to leave sound books sound, and the initial balance to be an
-- int64.
pub create_wallet-IsSound :
    (env : Env) (c : CreateWalletCommand) (s : World)
    → OthersSound env
    → IsInt64 c.initial_balance.minor
    → IsSound s.db
    → IsSound (create_wallet env c s).1.db
unfolding create_wallet transact
create_wallet-IsSound env c s o fits g = elim (Result-cases (create_body env c s).0) [
  | inl (w, good) ↦
      let same : (create_wallet env c s).1 ≡ (create_body env c s).1 = ground arith in
      rw (ap (λ x. x.db) same) ((create_body-Ends env c fits).well s g w good)
  | inr (e, failed) ↦
      let same : (create_wallet env c s).1.db ≡ env.others s.db = ground arith in rw same (o s.db g)
]
