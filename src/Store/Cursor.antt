-- ===== src/Store/Cursor.antt =====
-- The pages of a wallet's ledger in internal/adapters/postgres/read.go: their order, their cursors, and
-- the loop that fills one. JSON and base64 are parameters; an entry is shown as it is stored.
use jungle_wager_engine.Base.{
  ℕ, Bool, true, ◌&&◌, ◌||◌, not, Option, none, some, List, [], ◌∷◌, ◌++◌, Text, codes, is_empty,
  eq_text, len, length, ltb, ◌==◌, if◌then◌else◌,
}
use jungle_wager_engine.Domain.Errors.{Result, ok, err, ◌>>=◌, storage, panic, app, invalid_cursor}
use jungle_wager_engine.Domain.Id.{Uuid, parse_id, id_string}
use jungle_wager_engine.Domain.Money.{new_money}
use jungle_wager_engine.Domain.Wallet.{Time, is_zero_time}
use jungle_wager_engine.Domain.Ledger.{LedgerData}
use jungle_wager_engine.Store.Claim.{id_before}

pub record LedgerCursor : Type 0 where
  pub version : ℕ
  pub wallet_id : Text
  pub id : Text
  pub at : Time

pub record LedgerPage : Type 0 where
  pub entries : List LedgerData
  pub next_cursor : Text

-- `json.Marshal`, `json.Unmarshal` and `base64.RawURLEncoding`
pub record Codec : Type 0 where
  pub marshal : LedgerCursor → Option (List ℕ)
  pub unmarshal : List ℕ → Option LedgerCursor
  pub encode : List ℕ → Text
  pub decode : Text → Option (List ℕ)

-- `ORDER BY created_at DESC,id DESC`
unfoldable pub newer : LedgerData → LedgerData → Bool
newer a b = ltb b.created_at a.created_at || ((a.created_at == b.created_at) && id_before b.id a.id)

-- `$2::timestamptz IS NULL OR (created_at,id)<($2,$3::uuid)`
unfoldable pub is_after : Option (Time × Uuid) → LedgerData → Bool
is_after none e = true
is_after (some (at, id)) e =
    ltb e.created_at at || ((e.created_at == at) && not (id_before id e.id))

-- The entry of a row, which has one currency.
unfoldable pub read_entry : LedgerData → Result LedgerData
read_entry e = do
  money ← new_money e.money.minor e.money.currency
  before ← new_money e.balance_before.minor e.money.currency
  after ← new_money e.balance_after.minor e.money.currency
  ok (record e { money = money; balance_before = before; balance_after = after })

module _ (codec : Codec) (id : Text) where
  -- The place that a decoded cursor names.
  unfoldable pub check_cursor : Option LedgerCursor → Result (Option (Time × Uuid))
  check_cursor none = err (app invalid_cursor)
  check_cursor (some c) =
      if not (c.version == 1) || not (eq_text c.wallet_id id) || is_zero_time c.at
      then err (app invalid_cursor)
      else elim (parse_id c.id) [
        | err e ↦ err (app invalid_cursor)
        | ok entry ↦ ok (some (c.at, entry))
      ]

  unfoldable pub unpack : Option (List ℕ) → Option LedgerCursor
  unpack none = none
  unpack (some raw) = codec.unmarshal raw

  unfoldable pub place_of : Text → Result (Option (Time × Uuid))
  place_of cursor =
      if is_empty cursor
      then ok none
      else if ltb 512 (len cursor)
      then err (app invalid_cursor)
      else check_cursor (unpack (codec.decode cursor))

  -- The cursor after an entry.
  unfoldable pub cursor_after : LedgerData → Result Text
  cursor_after last =
      elim (codec.marshal
        (record { version = 1; wallet_id = id; id = id_string last.id; at = last.created_at })) [
          | none ↦ err storage
          | some raw ↦ ok (codec.encode raw)
        ]

  -- The loop over the rows, after the entries that are on the page, of which the last is given: one
  -- row more than the limit makes a next cursor.
  unfoldable pub fill :
      ℕ → List LedgerData → Option LedgerData → List LedgerData → Result LedgerPage
  fill limit entries last [] = ok (record { entries = entries; next_cursor = codes "" })
  fill limit entries last (row ∷ rows) = do
    e ← read_entry row
    if length entries == limit
        then elim last [
          | none ↦ err panic
          | some l ↦ (do
            next ← cursor_after l
            ok (record { entries = entries; next_cursor = next }))
        ]
        else fill limit (entries ++ e ∷ []) (some e) rows
