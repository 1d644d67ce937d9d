-- ===== src/Store/Runs.antt =====
-- The store's writing transactions in any order, each as a step of the world.
pub mod Reversals
use jungle_wager_engine.Base.{ℕ, Bool, ◌≡◌, refl, arith, Option, Text, find, List, [], true}
use jungle_wager_engine.Domain.Id.{Uuid}
use jungle_wager_engine.Domain.Money.{Money}
use jungle_wager_engine.Domain.Wager.{is_terminal}
use jungle_wager_engine.Application.{Command, InboxMessage}
use jungle_wager_engine.Store.Tables.{Db, WagerRow, ledger_total}
use jungle_wager_engine.Store.Monad.{Env, World}
use jungle_wager_engine.Store.Monad.Upholds.{
  Upholds, Any, bind-Upholds, modify-Upholds, gets-Upholds, if-Upholds, pure-Upholds, raise-Upholds,
}
use jungle_wager_engine.Store.Rows.Upheld.{statement-Upholds, server_now-Upholds}
use jungle_wager_engine.Store.Apply.Sound.{IsSound, carry-Sound}
use jungle_wager_engine.Store.Lasting.{OfWagers, Lasting}
use jungle_wager_engine.Store.Lasting.Unique.{IsUnique, IsUnique-Lasting}
use jungle_wager_engine.Store.Lasting.Settled.{IsStored, IsStored-Lasting}
use jungle_wager_engine.Store.Lasting.Amounts.{Fitting, AmountsFit, AmountsFit-Lasting}
use jungle_wager_engine.Store.Process.{process_wager}
use jungle_wager_engine.Store.Process.Upheld.{process_wager-Upholds}
use jungle_wager_engine.Store.Process.Books.{process_wager-IsSound}
use jungle_wager_engine.Store.Create.{CreateWalletCommand, create_wallet}
use jungle_wager_engine.Store.Create.Upheld.{create_wallet-Upholds}
use jungle_wager_engine.Store.Create.Books.{create_wallet-IsSound}
use jungle_wager_engine.Store.Work.{
  ReferenceClaim, retry_reference, release_claims, mark_published, retry_outbox, changed,
}
use jungle_wager_engine.Store.Claim.{claim_outbox, claim_references}
use jungle_wager_engine.Store.Claim.Upheld.{claim_outbox-Upholds, lasting_claims, free_claims}
use jungle_wager_engine.Store.Work.Upheld.{retry_reference-Upholds, release_claims-Upholds}
use jungle_wager_engine.Store.Work.Books.{retry_reference-IsSound}

-- A transaction of the store that was asked for, committed or not.
pub data Moves (env : Env) (s : World) : World → Type 0 where
  processes :
      (c : Command) (inbox : Option InboxMessage)
      → Fitting c.money
      → Moves env s (process_wager env c inbox s).1
  creates :
      (c : CreateWalletCommand) → Fitting c.initial_balance → Moves env s (create_wallet env c s).1
  retries :
      (claim : ReferenceClaim) (max_attempts ttl : ℕ)
      → Moves env s (retry_reference env claim max_attempts ttl s).1
  claims :
      (skips : Uuid → Bool) (owner : Text) (limit lease : ℕ)
      → Moves env s (claim_outbox env skips owner limit lease s).1
  takes :
      (skips : Uuid → Bool) (owner : Text) (limit lease : ℕ)
      → Moves env s (claim_references env skips owner limit lease s).1
  releases : (owner : Text) → Moves env s (release_claims env owner s).1
  publishes : (id token : Uuid) → Moves env s (mark_published env id token s).1
  delays : (id token : Uuid) (delay : ℕ) → Moves env s (retry_outbox env id token delay s).1

-- Any number of them, one after the other.
pub data Reaches (env : Env) (s : World) : World → Type 0 where
  stays : Reaches env s s
  moves : {t u : World} → Reaches env s t → Moves env t u → Reaches env s u

-- What a database of the store satisfies.
pub record IsWhole (db : Db) : Type 0 where
  pub sound : IsSound db
  pub unique : IsUnique db.wagers
  pub amounts : AmountsFit db.wagers

-- What the other processes commit leaves it so.
pub record OthersWhole (env : Env) : Type 0 where
  pub sound : (db : Db) → IsSound db → IsSound (env.others db)
  pub unique : (db : Db) → IsUnique db.wagers → IsUnique (env.others db).wagers
  pub amounts : (db : Db) → AmountsFit db.wagers → AmountsFit (env.others db).wagers

module _ (env : Env) (P : Db → Type 0)
    (reads : (db t : Db)
      → t.wallets ≡ db.wallets
      → t.ledger ≡ db.ledger
      → t.wagers ≡ db.wagers
      → P db
      → P t) where
  pub mark_published-Upholds : (id token : Uuid) → Upholds P (mark_published env id token) Any
  unfolding mark_published
  mark_published-Upholds id token = bind-Upholds (statement-Upholds env) (λ _ _.
      bind-Upholds (gets-Upholds _) (λ row _.
        bind-Upholds (modify-Upholds _ (λ db p. reads db _ refl refl refl p))
          (λ _ _. if-Upholds (changed row) (λ _. pure-Upholds _ tt) (λ _. raise-Upholds _))))

  pub retry_outbox-Upholds :
      (id token : Uuid) (delay : ℕ) → Upholds P (retry_outbox env id token delay) Any
  unfolding retry_outbox
  retry_outbox-Upholds id token delay = bind-Upholds (statement-Upholds env) (λ _ _.
      bind-Upholds (server_now-Upholds env) (λ _ _. bind-Upholds (gets-Upholds _) (λ row _.
        bind-Upholds (modify-Upholds _ (λ db p. reads db _ refl refl refl p))
          (λ _ _. if-Upholds (changed row) (λ _. pure-Upholds _ tt) (λ _. raise-Upholds _)))))

release_claims-Books : (env : Env) (owner : Text) → Upholds IsSound (release_claims env owner) Any
unfolding release_claims
release_claims-Books env owner = bind-Upholds (statement-Upholds env) (λ _ _.
    bind-Upholds (modify-Upholds _ (λ db g. carry-Sound refl refl g)) (λ _ _.
      bind-Upholds (statement-Upholds env)
        (λ _ _. modify-Upholds _ (λ db g. carry-Sound refl refl g))))

module _ (env : Env) (Paid : Money → Type 0) (fit_paid : (m : Money) → Fitting m → Paid m)
    (T : List WagerRow → Type 0) (lasts : Lasting env.others Paid T) where
  -- A lasting property holds after any step.
  Moves-Lasting : {s t : World} → Moves env s t → T s.db.wagers → T t.db.wagers
  Moves-Lasting {s} (processes c inbox fits) p =
      (process_wager-Upholds env T Paid lasts c inbox (fit_paid c.money fits)).after s p
  Moves-Lasting {s} (creates c fits) p =
      (create_wallet-Upholds env T Paid lasts c (fit_paid c.initial_balance fits)).after s p
  Moves-Lasting {s} (retries claim max_attempts ttl) p =
      (retry_reference-Upholds env T Paid lasts claim max_attempts ttl).after s p
  Moves-Lasting {s} (claims skips owner limit lease) p =
      (claim_outbox-Upholds env skips (OfWagers T) (λ db id c p. p) owner limit lease).after s p
  Moves-Lasting {s} (takes skips owner limit lease) p =
      (lasting_claims env skips Paid T lasts owner limit lease).after s p
  Moves-Lasting {s} (releases owner) p = (release_claims-Upholds env T Paid lasts owner).after s p
  Moves-Lasting {s} (publishes id token) p =
      (mark_published-Upholds env (OfWagers T) (λ db t w l same p. rw same p) id token).after s p
  Moves-Lasting {s} (delays id token delay) p =
      (retry_outbox-Upholds env (OfWagers T) (λ db t w l same p. rw same p) id token delay).after s
        p

  Reaches-Lasting : {s t : World} → Reaches env s t → T s.db.wagers → T t.db.wagers
  Reaches-Lasting stays p = p
  Reaches-Lasting (moves before last) p = Moves-Lasting last (Reaches-Lasting before p)

module _ (env : Env) (others : OthersWhole env) where
  Moves-IsSound : {s t : World} → Moves env s t → IsWhole s.db → IsSound t.db
  Moves-IsSound {s} (processes c inbox fits) g =
      process_wager-IsSound env c inbox s others.sound fits g.sound
  Moves-IsSound {s} (creates c fits) g = create_wallet-IsSound env c s others.sound fits g.sound
  Moves-IsSound {s} (retries claim max_attempts ttl) g =
      retry_reference-IsSound env claim max_attempts ttl s others.sound g.sound
        (others.amounts s.db g.amounts)
  Moves-IsSound {s} (claims skips owner limit lease) g =
      (claim_outbox-Upholds env skips IsSound (λ db id c p. carry-Sound refl refl p) owner limit
          lease).after
        s g.sound
  Moves-IsSound {s} (takes skips owner limit lease) g =
      (free_claims env skips IsSound (λ db id c p. carry-Sound refl refl p) owner limit lease).after
        s g.sound
  Moves-IsSound {s} (releases owner) g = (release_claims-Books env owner).after s g.sound
  Moves-IsSound {s} (publishes id token) g =
      (mark_published-Upholds env IsSound (λ db t w l same p. carry-Sound w l p) id token).after s
        g.sound
  Moves-IsSound {s} (delays id token delay) g =
      (retry_outbox-Upholds env IsSound (λ db t w l same p. carry-Sound w l p) id token delay).after
        s g.sound

  pub Moves-IsWhole : {s t : World} → Moves env s t → IsWhole s.db → IsWhole t.db
  Moves-IsWhole m g = record {
    sound = Moves-IsSound m g;
    unique =
        Moves-Lasting env Any (λ _ _. tt) IsUnique (IsUnique-Lasting env.others others.unique) m
          g.unique;
    amounts =
        Moves-Lasting env Fitting (λ _ f. f) AmountsFit
          (AmountsFit-Lasting env.others others.amounts) m g.amounts;
  }

  -- After any number of the store's transactions (commands, retries, new wallets, claims made or
  -- given up, events marked or delayed), in any order and however each of them ends, each wallet's balance is
  -- the sum of its ledger entries, balances, versions and amounts are int64, only stored wallets have
  -- entries, and the keys of the stored transactions are unique, if all that was so at first. The
  -- amounts asked for are taken to be int64, and the others to leave it so.
  pub Reaches-IsWhole : {s t : World} → Reaches env s t → IsWhole s.db → IsWhole t.db
  Reaches-IsWhole stays g = g
  Reaches-IsWhole (moves before last) g = Moves-IsWhole last (Reaches-IsWhole before g)

-- A transaction that has ended is final: after any number of the store's transactions, in any order
-- and however each of them ends, its id still finds the same row. The keys are taken to be unique,
-- and the others to keep them so and the row as it is.
pub Reaches-IsStored :
    (env : Env) (row : WagerRow) {s t : World}
    → is_terminal row.wager.status ≡ true
    → ((db : Db) → IsStored row db.wagers → IsStored row (env.others db).wagers)
    → Reaches env s t
    → IsStored row s.db.wagers
    → IsStored row t.db.wagers
Reaches-IsStored env row ended others path g =
    Reaches-Lasting env Any (λ _ _. tt) (IsStored row)
      (IsStored-Lasting row env.others ended others) path g

-- A store that has just been migrated.
abbrev pub empty_db : Db
empty_db = record { wallets = []; wagers = []; ledger = []; inbox = []; outbox = [] }

pub empty-IsWhole : IsWhole empty_db
unfolding find ledger_total IsUnique
empty-IsWhole = record {
  sound = record {
    balanced = λ id w f. absurd (ground arith);
    in_range = λ id w f. absurd (ground arith);
    closed = λ id f. refl;
  };
  unique = tt;
  amounts = tt;
}
