-- ===== src/Store/Monad/Upholds.antt =====
-- A small logic for a transaction's steps: what they keep of the database however they end, and what
-- they say of a result.
use jungle_wager_engine.Base.{
  Bool, true, false, ◌≡◌, refl, Option, none, some, if◌then◌else◌, arith, inl, inr,
}
use jungle_wager_engine.Domain.Errors.{Result, Result-cases, ok, err, Error}
use jungle_wager_engine.Store.Tables.{Db}
use jungle_wager_engine.Store.Monad.{
  World, Tx, ◌>>=◌, pure, lift, raise, gets, modify, translate, tick,
}

-- A step that keeps `P`, and whose result has `Q` when it starts from `P`.
pub record Upholds {A : Type 0} (P : Db → Type 0) (m : Tx A) (Q : A → Type 0) : Type 0 where
  pub after : (s : World) → P s.db → P (m s).1.db
  pub returns : (s : World) → P s.db → (a : A) → (m s).0 ≡ ok a → Q a

-- Nothing is said of a result.
abbrev pub Any : {A : Type 0} → A → Type 0
Any a = Unit

module _ {P : Db → Type 0} {A : Type 0} {Q : A → Type 0} where
  pub pure-Upholds : (a : A) → Q a → Upholds P (pure a) Q
  unfolding pure
  pure-Upholds a q = record { after = λ s p. p; returns = λ s p b h. ground arith }

  pub raise-Upholds : (e : Error) → Upholds P (raise e) Q
  unfolding raise
  raise-Upholds e = record { after = λ s p. p; returns = λ s p b h. absurd (ground arith) }

  pub if-Upholds :
      (b : Bool) {m n : Tx A}
      → (b ≡ true → Upholds P m Q)
      → (b ≡ false → Upholds P n Q)
      → Upholds P (if b then m else n) Q
  if-Upholds true u v = u refl
  if-Upholds false u v = v refl

  pub forget : {m : Tx A} → Upholds P m Q → Upholds P m Any
  forget u = record { after = u.after; returns = λ s p a h. tt }

  pub weaken : {m : Tx A} (R : A → Type 0) → Upholds P m Q → ((a : A) → Q a → R a) → Upholds P m R
  weaken R u k = record { after = u.after; returns = λ s p a h. k a (u.returns s p a h) }

module _ {P : Db → Type 0} {A : Type 0} where
  pub lift-Upholds : (r : Result A) → Upholds P (lift r) (λ a. r ≡ ok a)
  unfolding lift
  lift-Upholds r = record { after = λ s p. p; returns = λ s p a h. h }

  pub gets-Upholds : (f : Db → A) → Upholds P (gets f) (λ a. (db : Db) × P db × (a ≡ f db))
  unfolding gets
  gets-Upholds f = record { after = λ s p. p; returns = λ s p a h. (s.db, p, ground arith) }

module _ {P : Db → Type 0} where
  pub modify-Upholds : (f : Db → Db) → ((db : Db) → P db → P (f db)) → Upholds P (modify f) Any
  unfolding modify
  modify-Upholds f k = record { after = λ s p. k s.db p; returns = λ s p a h. tt }

  pub tick-Upholds : Upholds P tick Any
  tick-Upholds = record { after = λ s p. p; returns = λ s p a h. tt }

module _ {P : Db → Type 0} {A B : Type 0} {R : B → Type 0} where
  pub bind-Upholds :
      {Q : A → Type 0} {m : Tx A} {f : A → Tx B}
      → Upholds P m Q
      → ((a : A) → Q a → Upholds P (f a) R)
      → Upholds P (m >>= f) R
  unfolding ◌>>=◌
  bind-Upholds {Q} {m} {f} u v = record {
    after = λ s p. kept (m s) (u.after s p) (u.returns s p);
    returns = λ s p b h. elim (Result-cases (m s).0) [
      | inl (a, good) ↦ (v a (u.returns s p a good)).returns (m s).1 (u.after s p) b (ground arith)
      | inr (e, bad) ↦ absurd (ground arith)
    ];
  }
    where
      kept :
          (x : Result A × World)
          → P x.1.db
          → ((a : A) → x.0 ≡ ok a → Q a)
          → P (elim x.0 as (λ r. Result B × World) [ ok a ↦ f a x.1 | err e ↦ (err e, x.1) ]).1.db
      kept (ok a, s) p q = (v a (q a refl)).after s p
      kept (err e, s) p q = p

  pub translate-Upholds :
      {Q : A → Type 0} {m : Tx A} (f : Result A → Result B)
      → Upholds P m Q
      → ((r : Result A) (b : B) → ((a : A) → r ≡ ok a → Q a) → f r ≡ ok b → R b)
      → Upholds P (translate f m) R
  unfolding translate
  translate-Upholds {m = m} f u k = record {
    after = λ s p. u.after s p;
    returns = λ s p b h. k (m s).0 b (u.returns s p) h;
  }

  pub option-Upholds :
      (o : Option A) {m : Tx B} {f : A → Tx B}
      → (o ≡ none → Upholds P m R)
      → ((a : A) → o ≡ some a → Upholds P (f a) R)
      → Upholds P (elim o [ none ↦ m | some a ↦ f a ]) R
  option-Upholds none u v = u refl
  option-Upholds (some a) u v = v a refl
