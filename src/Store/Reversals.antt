-- ===== src/Store/Reversals.antt =====
-- Settled reversals in the table of transactions: of each transaction there is at most one. The
-- source promises it by the test for an earlier reversal in `apply` of
-- internal/adapters/postgres/process.go, under the lock of the wallet.
pub mod Applied
pub mod Kept
pub mod Retried
use jungle_wager_engine.Base.{
  ℕ, ◌+◌, ◌≤◌, Bool, true, false, ◌&&◌, ◌≡◌, refl, sym, arith, List, [], ◌∷◌, any, find, some, All,
  Bool-cases, inl, inr, if◌then◌else◌,
}
use jungle_wager_engine.Domain.Id.{Uuid, eq_id, eq_id→eq, eq_id_refl}
use jungle_wager_engine.Domain.Wager.{WagerData, Kind, is_reversal, is_processed}
use jungle_wager_engine.Store.Tables.{WagerRow, update_where, is_wager, reverses, conflicts}
use jungle_wager_engine.Store.Lasting.{KeepsIdentity}
use jungle_wager_engine.Store.Lasting.Unique.{
  IsUnique, update_where-IsUnique, find-any, is_wager-conflicts,
}
use jungle_wager_engine.Store.Apply.{set_result}
use jungle_wager_engine.Store.Work.Upheld.{same_identity}

-- How many settled reversals of a transaction there are.
unfoldable pub reversals : Uuid → List WagerRow → ℕ
reversals id [] = 0
reversals id (r ∷ rows) = (if reverses id r then 1 else 0) + reversals id rows

pub record IsReversedOnce (rows : List WagerRow) : Type 0 where
  pub unique : IsUnique rows
  pub once : (id : Uuid) → reversals id rows ≤ 1

-- What rows have the id are of the kind.
abbrev pub Kinded : Uuid → Kind → List WagerRow → Type 0
Kinded id kind rows = All (λ r. is_wager id r ≡ true → r.wager.kind ≡ kind) rows

-- A change that does not touch the transaction.
abbrev pub IsQuiet : (WagerRow → WagerRow) → Type 0
IsQuiet f = (r : WagerRow) → (f r).wager ≡ r.wager

module _ (p : WagerRow → Bool) (f : WagerRow → WagerRow) where
  quiet-reversals :
      (id : Uuid) (rows : List WagerRow)
      → IsQuiet f
      → reversals id (update_where p f rows) ≡ reversals id rows
  unfolding reversals update_where
  quiet-reversals id [] quiet = refl
  quiet-reversals id (r ∷ rows) quiet = ground (arith, quiet-reversals id rows quiet, quiet r)

  pub update_where-Kinded :
      (id : Uuid) (kind : Kind) (rows : List WagerRow)
      → KeepsIdentity f
      → Kinded id kind rows
      → Kinded id kind (update_where p f rows)
  unfolding update_where
  update_where-Kinded id kind [] keeps k = tt
  update_where-Kinded id kind (r ∷ rows) keeps (k, ks) = (
    (λ same. elim (Bool-cases (p r)) [
      | inl changed_ ↦ ground (arith, (keeps r).id, (keeps r).kind, k)
      | inr kept_ ↦ ground (arith, k)
    ]),
    update_where-Kinded id kind rows keeps ks,
  )

unmatched :
    (d : WagerData) (rows : List WagerRow)
    → any (conflicts d) rows ≡ false
    → any (is_wager d.id) rows ≡ false
unfolding any conflicts
unmatched d [] free = refl
unmatched d (r ∷ rows) free = ground (arith, unmatched d rows)

unmatched-Kinded :
    (id : Uuid) (kind : Kind) (rows : List WagerRow)
    → any (is_wager id) rows ≡ false
    → Kinded id kind rows
unfolding any
unmatched-Kinded id kind [] free = tt
unmatched-Kinded id kind (r ∷ rows) free =
    ((λ same. ground arith), unmatched-Kinded id kind rows (ground arith))

-- A row that no stored one conflicts with.
pub added-Kinded :
    (row : WagerRow) (rows : List WagerRow)
    → any (conflicts row.wager) rows ≡ false
    → Kinded row.wager.id row.wager.kind (row ∷ rows)
added-Kinded row rows free = (
  (λ same. refl),
  unmatched-Kinded row.wager.id row.wager.kind rows (unmatched row.wager rows free),
)

renamed-Kinded :
    (x r : WagerRow) (rows : List WagerRow)
    → x ≡ r
    → Kinded x.wager.id x.wager.kind rows
    → Kinded r.wager.id r.wager.kind rows
renamed-Kinded x r rows e k = rw⁻¹ e k

-- A stored row.
pub found-Kinded :
    (p : WagerRow → Bool) (rows : List WagerRow) (r : WagerRow)
    → IsUnique rows
    → find p rows ≡ some r
    → Kinded r.wager.id r.wager.kind rows
unfolding IsUnique find
found-Kinded p [] r u h = tt
found-Kinded p (x ∷ rows) r (free, u) h = elim (Bool-cases (p x)) [
  | inl here ↦ renamed-Kinded x r (x ∷ rows) (ground arith) (added-Kinded x rows free)
  | inr later ↦ (
    (λ same.
        let taken : any (conflicts x.wager) rows ≡ true =
          find-any p (conflicts x.wager) rows r (ground arith)
            (is_wager-conflicts x r (sym (eq_id→eq x.wager.id r.wager.id same))) in
        absurd (ground arith)),
    found-Kinded p rows r u (ground arith),
  )
]

module _ (d : WagerData) (f : WagerRow → WagerRow)
    (sets : (r : WagerRow) → (f r).wager ≡ set_result d r.wager) (id : Uuid) where
  update_where-unmatched :
      (other : Uuid) (rows : List WagerRow)
      → any (is_wager id) rows ≡ false
      → reversals other (update_where (is_wager id) f rows) ≡ reversals other rows
  unfolding reversals update_where any
  update_where-unmatched other [] free = refl
  update_where-unmatched other (r ∷ rows) free = ground (arith, update_where-unmatched other rows)

  -- The change settles no reversal of `other`.
  unsettled-reversals :
      (other : Uuid) (kind : Kind) (rows : List WagerRow)
      → Kinded id kind rows
      → (eq_id d.reference_id other && (is_reversal kind && is_processed d.status)) ≡ false
      → reversals other (update_where (is_wager id) f rows) ≤ reversals other rows
  unfolding reversals update_where
  unsettled-reversals other kind [] k none_ = omega arith
  unsettled-reversals other kind (r ∷ rows) (k, ks) none_ =
      ground (arith, unsettled-reversals other kind rows ks none_, sets r, k)

  none-reversals :
      (other : Uuid) (rows : List WagerRow)
      → any (reverses other) rows ≡ false
      → reversals other rows ≡ 0
  unfolding reversals any
  none-reversals other [] free = refl
  none-reversals other (r ∷ rows) free = ground (arith, none-reversals other rows)

  first-reversal :
      (other : Uuid) (rows : List WagerRow)
      → IsUnique rows
      → any (reverses other) rows ≡ false
      → reversals other (update_where (is_wager id) f rows) ≤ 1
  unfolding reversals update_where any IsUnique
  first-reversal other [] u free = omega arith
  first-reversal other (r ∷ rows) (alone, u) free = elim (Bool-cases (is_wager id r)) [
    | inl here ↦
        let others : any (is_wager id) rows ≡ false =
          rw (sym (eq_id→eq r.wager.id id here)) (unmatched r.wager rows alone) in
        ground (arith, update_where-unmatched other rows others, none-reversals other rows)
    | inr later ↦ ground (arith, first-reversal other rows u)
  ]

  -- The transaction's result is set: if that settles a reversal, it is the first of its reference.
  pub settle-IsReversedOnce :
      (kind : Kind) (rows : List WagerRow)
      → KeepsIdentity f
      → Kinded id kind rows
      → (is_reversal kind && is_processed d.status ≡ true
          → any (reverses d.reference_id) rows ≡ false)
      → IsReversedOnce rows
      → IsReversedOnce (update_where (is_wager id) f rows)
  settle-IsReversedOnce kind rows keeps kinded free g = record {
    unique = update_where-IsUnique (is_wager id) f keeps rows g.unique;
    once = λ other.
        elim (Bool-cases
          (eq_id d.reference_id other && (is_reversal kind && is_processed d.status))) [
            | inl settles ↦
                let same : d.reference_id ≡ other = eq_id→eq d.reference_id other (ground arith) in
                first-reversal other rows g.unique (rw⁻¹ same (free (ground arith)))
            | inr quiet ↦
                ground (arith, unsettled-reversals other kind rows kinded quiet, g.once other)
          ];
  }

module _ (rows : List WagerRow) (g : IsReversedOnce rows) where
  pub quiet-IsReversedOnce :
      (p : WagerRow → Bool) (f : WagerRow → WagerRow)
      → IsQuiet f
      → IsReversedOnce (update_where p f rows)
  quiet-IsReversedOnce p f quiet = record {
    unique = update_where-IsUnique p f (λ r. rw (quiet r) (same_identity r.wager)) rows g.unique;
    once = λ id. ground (arith, quiet-reversals p f id rows quiet, g.once id);
  }

  -- A row that is added is no settled reversal yet, or not a reversal at all.
  pub added-IsReversedOnce :
      (row : WagerRow)
      → any (conflicts row.wager) rows ≡ false
      → (is_reversal row.wager.kind && is_processed row.wager.status) ≡ false
      → IsReversedOnce (row ∷ rows)
  unfolding reversals IsUnique
  added-IsReversedOnce row free open_ = record {
    unique = (free, g.unique);
    once = λ id. ground (arith, g.once id);
  }
