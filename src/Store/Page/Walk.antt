-- ===== src/Store/Page/Walk.antt =====
-- One page: the order of entries, the loop that fills the page, and what the statement is asked for.
use jungle_wager_engine.Base.{
  ℕ, zero, suc, ◌+◌, ◌≤◌, ◌<◌, true, false, ◌&&◌, not, ◌≡◌, ◌⊎◌, refl, ap, arith, Option, some,
  List, [], ◌∷◌, ◌++◌, Text, codes, All, length, length-append, take, inl, inr, Bool-cases,
}
use mathlib.Core.List.{append-nil, append_assoc}
use jungle_wager_engine.Domain.Errors.{ok}
use jungle_wager_engine.Domain.Id.{Uuid, eq_id, eq_id_refl, parse_id, id_string}
use jungle_wager_engine.Domain.Ledger.{LedgerData}
use jungle_wager_engine.Store.Claim.{id_before}
use jungle_wager_engine.Store.Cursor.{Codec, newer, is_after, read_entry, cursor_after, fill}

id_before-total : (u v : Uuid) → id_before u v ≡ false → id_before v u ≡ true
unfolding id_before
id_before-total [] v h = absurd (ground arith)
id_before-total (a ∷ u) [] h = refl
id_before-total (a ∷ u) (b ∷ v) h = ground (arith, id_before-total u v)

id_before_trans :
    (u v w : Uuid) → id_before u v ≡ true → id_before v w ≡ true → id_before u w ≡ true
unfolding id_before
id_before_trans [] v w h k = refl
id_before_trans (a ∷ u) [] w h k = absurd (ground arith)
id_before_trans (a ∷ u) (b ∷ v) [] h k = absurd (ground arith)
id_before_trans (a ∷ u) (b ∷ v) (c ∷ w) h k = ground (arith, id_before_trans u v w)

id_before-antisym : (u v : Uuid) → id_before u v ≡ true → id_before v u ≡ true → u ≡ v
unfolding id_before
id_before-antisym [] [] h k = refl
id_before-antisym [] (b ∷ v) h k = absurd (ground arith)
id_before-antisym (a ∷ u) [] h k = absurd (ground arith)
id_before-antisym (a ∷ u) (b ∷ v) h k = ground (arith, id_before-antisym u v)

pub newer-total : (a b : LedgerData) → newer a b ≡ false → newer b a ≡ true
unfolding newer
newer-total a b h = ground (arith, id_before-total b.id a.id)

pub newer_trans : (a b c : LedgerData) → newer a b ≡ true → newer b c ≡ true → newer a c ≡ true
unfolding newer
newer_trans a b c h k = ground (arith, id_before_trans c.id b.id a.id)

-- Entries of different ids are not alike in the order.
pub newer-apart : (a b : LedgerData) → eq_id a.id b.id ≡ false → newer a b && newer b a ≡ false
unfolding newer
newer-apart a b h = elim (Bool-cases (newer a b && newer b a)) [
  | inl both ↦
      let same : a.id ≡ b.id = id_before-antisym a.id b.id (ground arith) (ground arith) in
      absurd (ground (arith, eq_id_refl b.id))
  | inr apart ↦ apart
]

-- After the place of an entry is what is not before it.
pub is_after-newer : (l e : LedgerData) → is_after (some (l.created_at, l.id)) e ≡ not (newer e l)
unfolding newer is_after
is_after-newer l e = ground arith

-- The end of year 9999, in nanoseconds.
abbrev pub last_time : ℕ
last_time = 315537897600000000000

-- A row that is shown as it is stored, under a cursor that can be made.
pub record IsShown (e : LedgerData) : Type 0 where
  pub readable : read_entry e ≡ ok e
  pub canonical : parse_id (id_string e.id) ≡ ok e.id
  pub dated : 0 < e.created_at
  pub early : e.created_at < last_time

-- A short list, or one with an element after the first `n`.
pub splits :
    {A : Type 0} (n : ℕ) (xs : List A)
    → 0 < n
    → (length xs ≤ n)
      ⊎ ((init : List A) × (l : A) × (r : A) × (rest : List A) × (xs ≡ init ++ l ∷ r ∷ rest)
          × (length init + 1 ≡ n))
splits zero xs h = absurd (omega arith)
splits (suc n) [] h = inl (omega arith)
splits (suc n) (x ∷ []) h = inl (omega arith)
splits (suc zero) (x ∷ y ∷ xs) h = inr ([], x, y, xs, refl, refl)
splits (suc (suc n)) (x ∷ y ∷ xs) h = elim (splits (suc n) (y ∷ xs) (omega arith)) [
  | inl short ↦ inl (omega arith)
  | inr (init, l, r, rest, same, long) ↦
      inr (x ∷ init, l, r, rest, ap (λ t. x ∷ t) same, omega arith)
]

module _ (codec : Codec) (id : Text) (limit : ℕ) where
  pub fill_last :
      (n : ℕ) (entries : List LedgerData) (last : Option LedgerData) (rows : List LedgerData)
      → length entries + n ≡ limit
      → length rows ≤ n
      → All IsShown rows
      → fill codec id limit entries last (take (suc n) rows)
        ≡ ok (record { entries = entries ++ rows; next_cursor = codes "" })
  unfolding fill
  fill_last n entries last [] e h all = simp append-nil
  fill_last zero entries last (r ∷ rows) e h all = absurd (omega arith)
  fill_last (suc n) entries last (r ∷ rows) e h (shown, all) =
      let longer : length (entries ++ r ∷ []) + n ≡ limit =
        omega (arith, length-append entries (r ∷ [])) in
      ground (
        arith,
        shown.readable,
        fill_last n (entries ++ r ∷ []) (some r) rows longer (omega arith) all,
        append_assoc entries (r ∷ []) rows,
      )

  pub fill_more :
      (init entries : List LedgerData) (last : Option LedgerData) (l r : LedgerData)
      (rest : List LedgerData)
      → length entries + length init + 1 ≡ limit
      → All IsShown (init ++ l ∷ r ∷ rest)
      → (next : Text) → cursor_after codec id l ≡ ok next
      → fill codec id limit entries last (take (suc (suc (length init))) (init ++ l ∷ r ∷ rest))
        ≡ ok (record { entries = entries ++ (init ++ l ∷ []); next_cursor = next })
  unfolding fill
  fill_more [] entries last l r rest e (sl, (sr, all)) next made =
      ground (arith, sl.readable, sr.readable, made, length-append entries (l ∷ []))
  fill_more (x ∷ init) entries last l r rest e (sx, all) next made =
      let longer : length (entries ++ x ∷ []) + length init + 1 ≡ limit =
        omega (arith, length-append entries (x ∷ [])) in
      ground (
        arith,
        sx.readable,
        fill_more init (entries ++ x ∷ []) (some x) l r rest longer all next made,
        append_assoc entries (x ∷ []) (init ++ l ∷ []),
      )
