-- ===== src/Store/Lasting/Settled.antt =====
-- A transaction that has ended, in a table whose keys are unique.
use jungle_wager_engine.Base.{
  Bool, true, false, ◌≡◌, ◌≢◌, sym, arith, List, [], ◌∷◌, find, any, some, Bool-cases, inl, inr,
}
use jungle_wager_engine.Domain.Id.{Uuid, eq_id→eq}
use jungle_wager_engine.Domain.Wager.{Status, is_pending_reference, is_terminal}
use jungle_wager_engine.Store.Tables.{Db, WagerRow, update_where, is_wager, conflicts}
use jungle_wager_engine.Store.Monad.Upholds.{Any}
use jungle_wager_engine.Store.Lasting.{KeepsIdentity, Survives, Lasting}
use jungle_wager_engine.Store.Lasting.Unique.{
  IsUnique, update_where-IsUnique, find-any, is_wager-conflicts, unique_id,
}

-- The row is the one that its id finds.
pub record IsStored (row : WagerRow) (rows : List WagerRow) : Type 0 where
  pub unique : IsUnique rows
  pub found : find (is_wager row.wager.id) rows ≡ some row

terminal_not_pending : (s : Status) → is_terminal s ≡ true → is_pending_reference s ≡ true → ⊥
terminal_not_pending s t p = ground arith

-- A change of other rows.
find-update_where :
    (p : WagerRow → Bool) (f : WagerRow → WagerRow) (row : WagerRow) (rows : List WagerRow)
    (id : Uuid)
    → KeepsIdentity f
    → p row ≡ false
    → find (is_wager id) rows ≡ some row
    → find (is_wager id) (update_where p f rows) ≡ some row
unfolding find update_where
find-update_where p f row [] id keeps other h = absurd (ground arith)
find-update_where p f row (x ∷ rows) id keeps other h = elim (Bool-cases (is_wager id x)) [
  | inl here ↦ ground arith
  | inr later ↦
      let same : (f x).wager.id ≡ x.wager.id = (keeps x).id in
      let rest : find (is_wager id) (update_where p f rows) ≡ some row =
        find-update_where p f row rows id keeps other (ground arith) in
      elim (Bool-cases (p x)) [ inl changed_ ↦ ground arith | inr kept_ ↦ ground arith ]
]

module _ (row : WagerRow) where
  update_where-IsStored :
      (p : WagerRow → Bool) (f : WagerRow → WagerRow) (rows : List WagerRow)
      → KeepsIdentity f
      → p row ≡ false
      → IsStored row rows
      → IsStored row (update_where p f rows)
  update_where-IsStored p f rows keeps other g = record {
    unique = update_where-IsUnique p f keeps rows g.unique;
    found = find-update_where p f row rows row.wager.id keeps other g.found;
  }

  is_wager-Survives : (id : Uuid) → id ≢ row.wager.id → Survives (IsStored row) id
  is_wager-Survives id n = record {
    at = λ f rows keeps g. elim (Bool-cases (is_wager id row)) [
      | inl same ↦ absurd (n (sym (eq_id→eq row.wager.id id same)))
      | inr other ↦ update_where-IsStored (is_wager id) f rows keeps other g
    ];
  }

  grows_apart :
      (new : WagerRow) (rows : List WagerRow)
      → any (conflicts new.wager) rows ≡ false
      → IsStored row rows
      → new.wager.id ≢ row.wager.id
  grows_apart new rows free g same =
      let taken : any (conflicts new.wager) rows ≡ true =
        find-any (is_wager row.wager.id) (conflicts new.wager) rows row g.found
          (is_wager-conflicts new row (sym same)) in
      absurd (ground arith)

  grows-IsStored :
      (new : WagerRow) (rows : List WagerRow)
      → any (conflicts new.wager) rows ≡ false
      → IsStored row rows
      → IsStored row (new ∷ rows)
  unfolding IsUnique find
  grows-IsStored new rows free g = record {
    unique = (free, g.unique);
    found = elim (Bool-cases (is_wager row.wager.id new)) [
      | inl same ↦ absurd (grows_apart new rows free g (eq_id→eq new.wager.id row.wager.id same))
      | inr other ↦ ground (arith, g.found)
    ];
  }

  pub IsStored-Lasting :
      (others : Db → Db)
      → is_terminal row.wager.status ≡ true
      → ((db : Db) → IsStored row db.wagers → IsStored row (others db).wagers)
      → Lasting others Any (IsStored row)
  IsStored-Lasting others ended k = record {
    by_others = k;
    grows = λ new rows paid free g. (
      grows-IsStored new rows free g,
      is_wager-Survives new.wager.id (grows_apart new rows free g),
    );
    waits = λ p f rows keeps w g. elim (Bool-cases (p row)) [
      | inl waiting ↦ absurd (terminal_not_pending row.wager.status ended (w row waiting))
      | inr other ↦ update_where-IsStored p f rows keeps other g
    ];
    pending_survives = λ p rows r there_ waiting g. is_wager-Survives r.wager.id (λ same.
        terminal_not_pending row.wager.status ended (
          rw (sym (unique_id p (is_wager row.wager.id) rows r row g.unique there_ g.found same))
            waiting));
  }
