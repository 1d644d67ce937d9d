-- ===== src/Store/Monad/Ends.antt =====
-- What a transaction has done when it ends well: the database may be another one then.
use jungle_wager_engine.Base.{
  Bool, true, false, ◌≡◌, refl, sym, ap, ◌∙◌, arith, inl, inr, if◌then◌else◌, Option, none, some,
}
use jungle_wager_engine.Domain.Errors.{Result-cases, ok, Error}
use jungle_wager_engine.Store.Tables.{Db}
use jungle_wager_engine.Store.Monad.{World, Tx, ◌>>=◌, pure, raise, modify}
use jungle_wager_engine.Store.Monad.Upholds.{Upholds}

pub record Ends {A : Type 0} (P : Db → Type 0) (m : Tx A) (Q : A → Db → Type 0) : Type 0 where
  pub well : (s : World) → P s.db → (a : A) → (m s).0 ≡ ok a → Q a (m s).1.db

module _ {P : Db → Type 0} {A : Type 0} {Q : A → Db → Type 0} where
  pub pure-Ends : (a : A) → ((db : Db) → P db → Q a db) → Ends P (pure a) Q
  unfolding pure
  pure-Ends a k = record {
    well = λ s p b h. let same : a ≡ b = ground arith in rw⁻¹ same (k s.db p);
  }

  pub raise-Ends : (e : Error) → Ends P (raise e) Q
  unfolding raise
  raise-Ends e = record { well = λ s p b h. absurd (ground arith) }

  pub if-Ends :
      (b : Bool) {m n : Tx A}
      → (b ≡ true → Ends P m Q)
      → (b ≡ false → Ends P n Q)
      → Ends P (if b then m else n) Q
  if-Ends true u v = u refl
  if-Ends false u v = v refl

module _ {P : Db → Type 0} {A B : Type 0} {R : B → Db → Type 0} where
  pub bind-Ends :
      {Q : A → Db → Type 0} {m : Tx A} {f : A → Tx B}
      → Ends P m Q
      → ((a : A) → Ends (Q a) (f a) R)
      → Ends P (m >>= f) R
  unfolding ◌>>=◌
  bind-Ends {Q} {m} {f} u v = record {
    well = λ s p b h. elim (Result-cases (m s).0) [
      | inl (a, good) ↦
          let same : (m >>= f) s ≡ f a (m s).1 = ground arith in
          rw (ap (λ x. x.1.db) same)
            ((v a).well (m s).1 (u.well s p a good) b (sym (ap (λ x. x.0) same) ∙ h))
      | inr (e, bad) ↦ absurd (ground arith)
    ];
  }

  -- A step that keeps what held, with what it says of its result.
  pub then-Ends :
      {Q : A → Type 0} {m : Tx A} {f : A → Tx B}
      → Upholds P m Q
      → ((a : A) → Q a → Ends P (f a) R)
      → Ends P (m >>= f) R
  unfolding ◌>>=◌
  then-Ends {Q} {m} {f} u v = record {
    well = λ s p b h. elim (Result-cases (m s).0) [
      | inl (a, good) ↦
          let same : (m >>= f) s ≡ f a (m s).1 = ground arith in
          rw (ap (λ x. x.1.db) same) (
            (v a (u.returns s p a good)).well (m s).1 (u.after s p) b
              (sym (ap (λ x. x.0) same) ∙ h))
      | inr (e, bad) ↦ absurd (ground arith)
    ];
  }

pub upheld-Ends :
    {P : Db → Type 0} {A : Type 0} {Q : A → Type 0} {m : Tx A} → Upholds P m Q → Ends P m (λ _. P)
upheld-Ends u = record { well = λ s p a h. u.after s p }

pub modify-Ends :
    {P : Db → Type 0} {Q : Unit {0} → Db → Type 0} (f : Db → Db)
    → ((db : Db) → P db → Q tt (f db))
    → Ends P (modify f) Q
unfolding modify
modify-Ends f k = record { well = λ s p a h. k s.db p }

-- More is known before.
pub from-Ends :
    {P R : Db → Type 0} {A : Type 0} {Q : A → Db → Type 0} {m : Tx A}
    → ((db : Db) → R db → P db)
    → Ends P m Q
    → Ends R m Q
from-Ends k e = record { well = λ s r a h. e.well s (k s.db r) a h }

-- The cases of an optional value.
pub option-Ends :
    {P : Db → Type 0} {A B : Type 0} {Q : B → Db → Type 0} (o : Option A) {m : Tx B} {f : A → Tx B}
    → (o ≡ none → Ends P m Q)
    → ((a : A) → o ≡ some a → Ends P (f a) Q)
    → Ends P (elim o [ none ↦ m | some a ↦ f a ]) Q
option-Ends none u v = u refl
option-Ends (some a) u v = v a refl

-- What holds of the table of transactions, whichever it is.
pub fix-Ends :
    {P : Db → Type 0} {A : Type 0} {Q : A → Db → Type 0} {m : Tx A}
    → ((db : Db) → P db → Ends (λ now_. now_.wagers ≡ db.wagers) m Q)
    → Ends P m Q
fix-Ends k = record { well = λ s p a h. (k s.db p).well s refl a h }
