-- ===== src/Store/Lasting/Unique.antt =====
-- The unique constraints of the table of transactions: its primary key, a provider's idempotency
-- keys, and a provider's external ids.
use jungle_wager_engine.Base.{
  Bool, true, false, ◌≡◌, refl, sym, arith, List, [], ◌∷◌, find, any, some, Bool-cases, inl, inr,
}
use jungle_wager_engine.Domain.Id.{eq_id_refl}
use jungle_wager_engine.Domain.Wager.{WagerData}
use jungle_wager_engine.Domain.Wager.Steps.{SameIdentity}
use jungle_wager_engine.Store.Tables.{Db, WagerRow, update_where, conflicts}
use jungle_wager_engine.Store.Monad.Upholds.{Any}
use jungle_wager_engine.Store.Lasting.{KeepsIdentity, Lasting}

-- No row conflicts with one that was there before it.
unfoldable pub IsUnique : List WagerRow → Type 0
IsUnique [] = Unit
IsUnique (r ∷ rows) = (any (conflicts r.wager) rows ≡ false) × IsUnique rows

conflicts-same :
    (d : WagerData) (r s : WagerRow) → SameIdentity r.wager s.wager → conflicts d s ≡ conflicts d r
unfolding conflicts
conflicts-same d r s i = rw (i.id, i.provider_id, i.idempotency_key, i.external_transaction_id) refl

same-conflicts : (d e : WagerData) (r : WagerRow) → SameIdentity d e → conflicts e r ≡ conflicts d r
unfolding conflicts
same-conflicts d e r i = rw (i.id, i.provider_id, i.idempotency_key, i.external_transaction_id) refl

module _ (p : WagerRow → Bool) (f : WagerRow → WagerRow) (keeps : KeepsIdentity f) where
  any-update_where :
      (d : WagerData) (rows : List WagerRow)
      → any (conflicts d) (update_where p f rows) ≡ any (conflicts d) rows
  unfolding any update_where
  any-update_where d [] = refl
  any-update_where d (r ∷ rows) =
      ground (arith, any-update_where d rows, conflicts-same d r (f r) (keeps r))

  any-same :
      (d e : WagerData) (rows : List WagerRow)
      → SameIdentity d e
      → any (conflicts e) rows ≡ any (conflicts d) rows
  unfolding any
  any-same d e [] i = refl
  any-same d e (r ∷ rows) i = ground (arith, any-same d e rows i, same-conflicts d e r i)

  pub update_where-IsUnique :
      (rows : List WagerRow) → IsUnique rows → IsUnique (update_where p f rows)
  unfolding IsUnique update_where
  update_where-IsUnique [] u = tt
  update_where-IsUnique (r ∷ rows) (alone, u) = elim (Bool-cases (p r)) [
    | inl changed_ ↦ (
      ground
          (arith, any-update_where (f r).wager rows, any-same r.wager (f r).wager rows (keeps r)),
      update_where-IsUnique rows u,
    )
    | inr kept_ ↦ (ground (arith, any-update_where r.wager rows), update_where-IsUnique rows u)
  ]

pub find-any :
    (p c : WagerRow → Bool) (rows : List WagerRow) (r : WagerRow)
    → find p rows ≡ some r
    → c r ≡ true
    → any c rows ≡ true
unfolding find any
find-any p c [] r f h = absurd (ground arith)
find-any p c (x ∷ rows) r f h = ground (arith, find-any p c rows r)

-- Stored rows that conflict with each other are one row.
pub one_row :
    (p q : WagerRow → Bool) (rows : List WagerRow) (r s : WagerRow)
    → IsUnique rows
    → find p rows ≡ some r
    → find q rows ≡ some s
    → conflicts r.wager s ≡ true
    → conflicts s.wager r ≡ true
    → r ≡ s
unfolding IsUnique find
one_row p q [] r s u f g c k = absurd (ground arith)
one_row p q (x ∷ rows) r s (alone, u) f g c k = elim (Bool-cases (p x)) [
  | inl here ↦ elim (Bool-cases (q x)) [
    | inl both ↦ ground arith
    | inr later ↦
        let first : x ≡ r = ground arith in
        let taken : any (conflicts x.wager) rows ≡ true =
          find-any q (conflicts x.wager) rows s (ground arith) (rw first c) in
        absurd (ground arith)
  ]
  | inr other ↦ elim (Bool-cases (q x)) [
    | inl here ↦
        let first : x ≡ s = ground arith in
        let taken : any (conflicts x.wager) rows ≡ true =
          find-any p (conflicts x.wager) rows r (ground arith) (rw first k) in
        absurd (ground arith)
    | inr later ↦ one_row p q rows r s u (ground arith) (ground arith) c k
  ]
]

pub is_wager-conflicts : (r s : WagerRow) → s.wager.id ≡ r.wager.id → conflicts r.wager s ≡ true
unfolding conflicts
is_wager-conflicts r s e = ground (arith, eq_id_refl r.wager.id)

-- Stored rows of one id are one row.
pub unique_id :
    (p q : WagerRow → Bool) (rows : List WagerRow) (r s : WagerRow)
    → IsUnique rows
    → find p rows ≡ some r
    → find q rows ≡ some s
    → r.wager.id ≡ s.wager.id
    → r ≡ s
unique_id p q rows r s u f g e =
    one_row p q rows r s u f g (is_wager-conflicts r s (sym e)) (is_wager-conflicts s r e)

pub IsUnique-Lasting :
    (others : Db → Db)
    → ((db : Db) → IsUnique db.wagers → IsUnique (others db).wagers)
    → Lasting others Any IsUnique
unfolding IsUnique
IsUnique-Lasting others k = record {
  by_others = k;
  grows = λ row rows paid free u.
      ((free, u), record { at = λ f rows keeps v. update_where-IsUnique _ f keeps rows v });
  waits = λ p f rows keeps w u. update_where-IsUnique p f keeps rows u;
  pending_survives = λ p rows r found_ w u. record {
    at = λ f rows keeps v. update_where-IsUnique _ f keeps rows v;
  };
}
