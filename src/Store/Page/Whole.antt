-- ===== src/Store/Page/Whole.antt =====
-- A wallet's whole ledger, by following the cursors from page to page.
use jungle_wager_engine.Base.{
  ℕ, zero, suc, ◌+◌, ◌≤◌, ◌<◌, false, ◌&&◌, not, ◌≡◌, refl, sym, ap, ◌∙◌, arith, Option, none, some,
  List, [], ◌∷◌, ◌++◌, Text, codes, All, pointwise, everywhere, length, length-append, take, find,
  len, is_empty, eq_text_refl, inl, inr, if◌then◌else◌,
}
use mathlib.Core.Path.{fun_ext}
use mathlib.Core.List.{append_assoc}
use jungle_wager_engine.Domain.Errors.{ok, err}
use jungle_wager_engine.Domain.Id.{Uuid, eq_id, parse_id, id_string}
use jungle_wager_engine.Domain.Wallet.{WalletData, Time, rehydrate_wallet}
use jungle_wager_engine.Domain.Ledger.{LedgerData}
use jungle_wager_engine.Store.Tables.{Db, has_id}
use jungle_wager_engine.Store.Monad.{Env, World, ◌>>=◌, lift, gets, raise, pure}
use jungle_wager_engine.Store.Rows.{statement, wrap, scan_wallet}
use jungle_wager_engine.Store.Create.{get_wallet}
use jungle_wager_engine.Store.Claim.{select}
use jungle_wager_engine.Store.Cursor.{
  LedgerCursor, Codec, newer, is_after, cursor_after, fill, place_of, check_cursor, unpack,
}
use jungle_wager_engine.Store.Page.{ledger}
use jungle_wager_engine.Store.Page.Order.{
  keep, keep-id, IsStrict, IsDistinct, select-All, select-IsStrict, keep-select, keep-suffix,
  All-middle,
}
use jungle_wager_engine.Store.Page.Walk.{
  newer-total, newer_trans, newer-apart, is_after-newer, last_time, IsShown, splits, fill_last,
  fill_more,
}

-- A wallet's entries, newest first.
abbrev pub history : Uuid → List LedgerData → List LedgerData
history uid entries = select newer (λ e. eq_id e.wallet_id uid) entries

-- What the pages from a cursor on hold together; none if a page is refused or the fuel runs out.
unfoldable pub follow : Env → Codec → Text → ℕ → ℕ → Text → World → Option (List LedgerData)
follow env codec id limit zero cursor s = none
follow env codec id limit (suc fuel) cursor s =
    let (r, s') = ledger env codec id cursor limit s in
    elim r [
      | err e ↦ none
      | ok page ↦
          let rest = follow env codec id limit fuel page.next_cursor s' in
          if is_empty page.next_cursor
          then some page.entries
          else elim rest [ none ↦ none | some entries ↦ some (page.entries ++ entries) ]
    ]

-- A cursor of two identities can be made, is short, and is read again as it was.
pub record IsFaithful (codec : Codec) : Type 0 where
  pub cursor :
      (c : LedgerCursor) (u v : Uuid)
      → parse_id c.wallet_id ≡ ok u
      → parse_id c.id ≡ ok v
      → c.at < last_time
      → (raw : List ℕ) × (codec.marshal c ≡ some raw)
        × (codec.decode (codec.encode raw) ≡ some raw)
        × (codec.unmarshal raw ≡ some c)
        × (len (codec.encode raw) ≤ 512)
        × (is_empty (codec.encode raw) ≡ false)

-- The entries have ids of their own.
unfoldable pub HasIds : List LedgerData → Type 0
HasIds [] = Unit
HasIds (e ∷ es) = All (λ f. eq_id e.id f.id ≡ false) es × HasIds es

HasIds-IsDistinct : (es : List LedgerData) → HasIds es → IsDistinct newer es
unfolding HasIds IsDistinct
HasIds-IsDistinct [] h = tt
HasIds-IsDistinct (e ∷ es) (apart, h) =
    (pointwise _ _ es (λ f d. newer-apart e f d) apart, HasIds-IsDistinct es h)

All-after : (firsts rest : List LedgerData) → All IsShown (firsts ++ rest) → All IsShown rest
All-after [] rest all = all
All-after (f ∷ firsts) rest (p, all) = All-after firsts rest all

module _ (env : Env) (codec : Codec) (id : Text) (uid : Uuid) (parsed : parse_id id ≡ ok uid)
    (faithful : IsFaithful codec) (calm : (n : ℕ) → env.fails n ≡ false) where
  -- The cursor after an entry names its place.
  next_cursor :
      (l : LedgerData)
      → IsShown l
      → (next : Text) × (cursor_after codec id l ≡ ok next)
        × (place_of codec id next ≡ ok (some (l.created_at, l.id)))
        × (is_empty next ≡ false)
  unfolding cursor_after place_of check_cursor unpack
  next_cursor l shown =
      let (raw, made, back, same, short, some_) =
        faithful.cursor
          (record { version = 1; wallet_id = id; id = id_string l.id; at = l.created_at }) uid l.id
          parsed shown.canonical shown.early in
      (
        codec.encode raw,
        ground arith,
        ground (arith, eq_text_refl id, shown.canonical, shown.dated),
        some_,
      )

  module _ (w : WalletData) (valid : rehydrate_wallet w ≡ ok w) (limit : ℕ) (positive : 0 < limit)
      (bounded : limit ≤ 100) where
    -- What one call shows.
    ledger-page :
        (cursor : Text) (place : Option (Time × Uuid)) (s : World)
        → find (has_id uid) s.db.wallets ≡ some w
        → place_of codec id cursor ≡ ok place
        → ((ledger env codec id cursor limit s).0
            ≡ fill codec id limit [] none (
                take
                  (limit + 1)
                  (select newer (λ e. eq_id e.wallet_id uid && is_after place e) s.db.ledger)))
          × ((ledger env codec id cursor limit s).1.db ≡ s.db)
    unfolding ledger get_wallet wrap scan_wallet statement ◌>>=◌ lift gets raise pure
    ledger-page cursor place s there_ names =
        ground (arith, parsed, calm s.step, calm (s.step + 1), valid)

    module _ (db : Db) (there_ : find (has_id uid) db.wallets ≡ some w) (ids : HasIds db.ledger)
        (shown : All IsShown db.ledger) where
      All-IsShown : All IsShown (history uid db.ledger)
      All-IsShown = select-All newer IsShown (λ e. eq_id e.wallet_id uid) db.ledger shown

      strict : IsStrict newer (history uid db.ledger)
      strict =
          select-IsStrict newer newer-total newer_trans (λ e. eq_id e.wallet_id uid) db.ledger
            (HasIds-IsDistinct db.ledger ids)

      -- A page from a place on, after which the rest is left.
      page_of :
          (cursor : Text) (place : Option (Time × Uuid)) (s : World) (rest : List LedgerData)
          → s.db ≡ db
          → place_of codec id cursor ≡ ok place
          → keep (is_after place) (history uid db.ledger) ≡ rest
          → ((ledger env codec id cursor limit s).0
              ≡ fill codec id limit [] none (take (suc limit) rest))
            × ((ledger env codec id cursor limit s).1.db ≡ db)
      page_of cursor place s rest same names kept =
          let (shows, stays) = ledger-page cursor place s (rw same there_) names in
          let chosen =
            keep-select newer newer-total newer_trans (λ e. eq_id e.wallet_id uid) (is_after place)
              db.ledger (HasIds-IsDistinct db.ledger ids) in
          let rows : select newer (λ e. eq_id e.wallet_id uid && is_after place e) s.db.ledger
              ≡ rest =
            ap (λ d. select newer (λ e. eq_id e.wallet_id uid && is_after place e) d.ledger) same
            ∙ (sym chosen ∙ kept) in
          let one_more : limit + 1 ≡ suc limit = omega arith in
          (rw (one_more, rows) at shows, stays ∙ same)

      after_prefix :
          (firsts : List LedgerData) (l : LedgerData) (rest : List LedgerData)
          → history uid db.ledger ≡ firsts ++ l ∷ rest
          → keep (is_after (some (l.created_at, l.id))) (history uid db.ledger) ≡ rest
      after_prefix firsts l rest same =
          ap (λ q. keep q (history uid db.ledger)) (fun_ext (is_after-newer l))
          ∙ (ap (keep (λ z. not (newer z l))) same
              ∙ keep-suffix newer newer-total newer_trans firsts l rest (rw same at strict))

      walk :
          (fuel : ℕ) (firsts rest : List LedgerData) (cursor : Text) (place : Option (Time × Uuid))
          (s : World)
          → s.db ≡ db
          → history uid db.ledger ≡ firsts ++ rest
          → place_of codec id cursor ≡ ok place
          → keep (is_after place) (history uid db.ledger) ≡ rest
          → length rest < fuel
          → follow env codec id limit fuel cursor s ≡ some rest
      unfolding follow
      walk zero firsts rest cursor place s same whole names kept short = absurd (omega arith)
      walk (suc fuel) firsts rest cursor place s same whole names kept short =
          let (shows, stays) = page_of cursor place s rest same names kept in
          elim (splits limit rest positive) [
            | inl fits ↦
                let filled =
                  fill_last codec id limit limit [] none rest (omega arith) fits
                    (All-after firsts rest (rw whole at All-IsShown)) in
                ground (arith, filled)
            | inr (init, l, r, more, parts, long) ↦
                let shown_rest = rw parts at (All-after firsts rest (rw whole at All-IsShown)) in
                let whole' : history uid db.ledger ≡ firsts ++ (init ++ l ∷ r ∷ more) =
                  whole ∙ ap (λ t. firsts ++ t) parts in
                let (next, made, leads, some_) =
                  next_cursor l (All-middle IsShown init l (r ∷ more) shown_rest) in
                let filled =
                  fill_more codec id limit init [] none l r more (omega arith) shown_rest next
                    made in
                let limit_is : limit ≡ suc (length init) = omega arith in
                let taken : take (suc limit) rest
                    ≡ take (suc (suc (length init))) (init ++ l ∷ r ∷ more) =
                  ap (λ t. take (suc limit) t) parts
                  ∙ ap (λ n. take (suc n) (init ++ l ∷ r ∷ more)) limit_is in
                let page = shows ∙ (ap (λ t. fill codec id limit [] none t) taken ∙ filled) in
                let further =
                  walk fuel (firsts ++ (init ++ l ∷ [])) (r ∷ more) next _
                    (ledger env codec id cursor limit s).1 stays
                    (whole'
                      ∙ (ap (λ t. firsts ++ t) (sym (append_assoc init (l ∷ []) (r ∷ more)))
                          ∙ sym (append_assoc firsts (init ++ l ∷ []) (r ∷ more))))
                    leads
                    (after_prefix (firsts ++ init) l (r ∷ more)
                      (whole' ∙ sym (append_assoc firsts init (l ∷ r ∷ more))))
                    (ground (arith, parts, length-append init (l ∷ r ∷ more))) in
                ground (arith, page, further, some_, append_assoc init (l ∷ []) (r ∷ more), parts)
          ]

-- Whoever starts without a cursor and follows the next cursors comes to an end, within as many pages
-- as there are entries and one more, and has then seen every entry of the wallet once, newest
-- first, whatever the limit from 1 to 100. No statement is taken to fail, the wallet to be stored
-- and valid, and the ledger not to change and to hold entries of different ids that can be shown;
-- and a cursor of two identities can be made, is short, and is read again as it was.
pub follow-history :
    (env : Env) (codec : Codec) (id : Text) (uid : Uuid) (w : WalletData) (limit fuel : ℕ)
    (s : World)
    → IsFaithful codec
    → ((n : ℕ) → env.fails n ≡ false)
    → parse_id id ≡ ok uid
    → find (has_id uid) s.db.wallets ≡ some w
    → rehydrate_wallet w ≡ ok w
    → 0 < limit
    → limit ≤ 100
    → HasIds s.db.ledger
    → All IsShown s.db.ledger
    → length (history uid s.db.ledger) < fuel
    → follow env codec id limit fuel (codes "") s ≡ some (history uid s.db.ledger)
unfolding place_of is_after
follow-history env codec id uid w limit fuel s faithful calm parsed there_ valid positive bounded
      ids shown enough =
    walk env codec id uid parsed faithful calm w valid limit positive bounded s.db there_ ids shown
      fuel [] (history uid s.db.ledger) (codes "") none s refl refl refl
      (keep-id (is_after none) (history uid s.db.ledger) (everywhere _ _ (λ e. refl))) enough
