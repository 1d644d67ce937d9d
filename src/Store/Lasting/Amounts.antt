-- ===== src/Store/Lasting/Amounts.antt =====
-- The stored amounts are int64.
use jungle_wager_engine.Base.{
  Bool, ◌≡◌, arith, List, [], ◌∷◌, find, some, All, IsInt64, Bool-cases, inl, inr,
}
use jungle_wager_engine.Domain.Money.{Money}
use jungle_wager_engine.Store.Tables.{Db, WagerRow, update_where}
use jungle_wager_engine.Store.Lasting.{KeepsIdentity, Lasting}

-- The amount is an int64, as Go's type has it.
abbrev pub Fitting : Money → Type 0
Fitting money = IsInt64 money.minor

abbrev pub AmountsFit : List WagerRow → Type 0
AmountsFit rows = All (λ r. Fitting r.wager.money) rows

pub find-AmountsFit :
    (p : WagerRow → Bool) (rows : List WagerRow) (r : WagerRow)
    → AmountsFit rows
    → find p rows ≡ some r
    → Fitting r.wager.money
unfolding find
find-AmountsFit p [] r fit h = absurd (ground arith)
find-AmountsFit p (x ∷ rows) r (fx, fit) h = elim (Bool-cases (p x)) [
  | inl here ↦ ground arith
  | inr later ↦ find-AmountsFit p rows r fit (ground arith)
]

update_where-AmountsFit :
    (p : WagerRow → Bool) (f : WagerRow → WagerRow) (rows : List WagerRow)
    → KeepsIdentity f
    → AmountsFit rows
    → AmountsFit (update_where p f rows)
unfolding update_where
update_where-AmountsFit p f [] keeps fit = tt
update_where-AmountsFit p f (x ∷ rows) keeps (fx, fit) =
    let same : (f x).wager.money ≡ x.wager.money = (keeps x).money in
    let rest = update_where-AmountsFit p f rows keeps fit in
    elim (Bool-cases (p x)) [
      | inl changed_ ↦ (ground arith, rest)
      | inr kept_ ↦ (ground arith, rest)
    ]

pub AmountsFit-Lasting :
    (others : Db → Db)
    → ((db : Db) → AmountsFit db.wagers → AmountsFit (others db).wagers)
    → Lasting others Fitting AmountsFit
AmountsFit-Lasting others k = record {
  by_others = k;
  grows = λ row rows paid free fit.
      ((paid, fit), record { at = λ f rows keeps v. update_where-AmountsFit _ f rows keeps v });
  waits = λ p f rows keeps w fit. update_where-AmountsFit p f rows keeps fit;
  pending_survives = λ p rows r found_ w fit. record {
    at = λ f rows keeps v. update_where-AmountsFit _ f rows keeps v;
  };
}
