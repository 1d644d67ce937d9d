-- ===== src/Tests/PageRuns.antt =====
-- The pages of a ledger of three entries, two on each page.
use jungle_wager_engine.Base.{
  ℕ, ◌+◌, ◌<◌, ◌≡◌, refl, arith, Option, none, some, List, [], ◌∷◌, ◌++◌, Text, codes, length, take,
  drop, find, len, All, eq_text,
}
use jungle_wager_engine.Domain.Errors.{ok}
use jungle_wager_engine.Domain.Id.{Uuid, parse_id, eq_id, id_string}
use jungle_wager_engine.Domain.Wallet.{rehydrate_wallet}
use jungle_wager_engine.Domain.Ledger.{LedgerData}
use jungle_wager_engine.Store.Monad.{World}
use jungle_wager_engine.Domain.Money.{new_money, valid_currency}
use jungle_wager_engine.Store.Tables.{has_id}
use jungle_wager_engine.Store.Claim.{select, insert_sorted, id_before}
use jungle_wager_engine.Store.Cursor.{LedgerCursor, Codec, newer, read_entry}
use jungle_wager_engine.Store.Page.Walk.{IsShown}
use jungle_wager_engine.Store.Page.Whole.{follow, history, IsFaithful, HasIds, follow-history}
use jungle_wager_engine.Tests.Data.{bytes, env, wallet, wallet_id, db, opening_entry}

-- A code that puts the version, the time and the length of the first identity before both.
abbrev write_cursor : LedgerCursor → List ℕ
write_cursor c = c.version ∷ c.at ∷ length c.wallet_id ∷ (c.wallet_id ++ c.id)

abbrev read_cursor : List ℕ → Option LedgerCursor
read_cursor (version ∷ at ∷ n ∷ rest) =
    some (record { version = version; wallet_id = take n rest; id = drop n rest; at = at })
read_cursor _ = none

abbrev pub codec : Codec
codec = record {
  marshal = λ c. some (write_cursor c);
  unmarshal = read_cursor;
  encode = λ raw. raw;
  decode = λ text. some text;
}

len-append : (s t : Text) → len (s ++ t) ≡ len s + len t
unfolding len
len-append [] t = omega arith
len-append (x ∷ s) t = omega (arith, len-append s t)

take_first : (s t : Text) → take (length s) (s ++ t) ≡ s
take_first [] t = refl
take_first (x ∷ s) t = ground (arith, take_first s t)

drop_first : (s t : Text) → drop (length s) (s ++ t) ≡ t
drop_first [] t = refl
drop_first (x ∷ s) t = drop_first s t

parse_id-len : (s : Text) (u : Uuid) → parse_id s ≡ ok u → len s ≡ 36
unfolding parse_id
parse_id-len s u h = ground arith

codec-IsFaithful : IsFaithful codec
unfolding len
codec-IsFaithful = record {
  cursor = λ c u v pw pi early. (
    write_cursor c,
    refl,
    refl,
    ground (arith, take_first c.wallet_id c.id, drop_first c.wallet_id c.id),
    ground
        (arith, len-append c.wallet_id c.id, parse_id-len c.wallet_id u pw, parse_id-len c.id v pi),
    refl,
  );
}

abbrev entry : ℕ → ℕ → LedgerData
entry id at = record opening_entry { id = bytes id; created_at = at }

-- Two of the entries have one time, and one is another wallet's.
abbrev pub long_ledger : World
long_ledger = record {
  db = record db {
    ledger = entry 5 2 ∷ record (entry 8 3) { wallet_id = bytes 30 } ∷ entry 6 4 ∷ entry 7 4 ∷ [];
  };
  step = 0;
}

entries-IsShown : All IsShown long_ledger.db.ledger
unfolding read_entry new_money valid_currency eq_text parse_id len id_string
entries-IsShown = (shown_5, (shown_8, (shown_6, (shown_7, tt))))
  where
    shown_5 : IsShown (entry 5 2)
    shown_5 = record { readable = refl; canonical = refl; dated = omega arith; early = omega arith }

    shown_8 : IsShown (record (entry 8 3) { wallet_id = bytes 30 })
    shown_8 = record { readable = refl; canonical = refl; dated = omega arith; early = omega arith }

    shown_6 : IsShown (entry 6 4)
    shown_6 = record { readable = refl; canonical = refl; dated = omega arith; early = omega arith }

    shown_7 : IsShown (entry 7 4)
    shown_7 = record { readable = refl; canonical = refl; dated = omega arith; early = omega arith }

entries-HasIds : HasIds long_ledger.db.ledger
unfolding HasIds eq_id eq_text
entries-HasIds = ((refl, (refl, (refl, tt))), ((refl, (refl, tt)), ((refl, tt), (tt, tt))))

stored_wallet : find (has_id wallet_id) long_ledger.db.wallets ≡ some wallet
unfolding find eq_id eq_text
stored_wallet = refl

three_entries : history wallet_id long_ledger.db.ledger ≡ entry 7 4 ∷ entry 6 4 ∷ entry 5 2 ∷ []
unfolding select insert_sorted newer id_before eq_id eq_text
three_entries = refl

short_history : length (history wallet_id long_ledger.db.ledger) < 4
short_history = rw three_entries (omega arith)

valid_wallet : rehydrate_wallet wallet ≡ ok wallet
unfolding rehydrate_wallet jungle_wager_engine.Domain.Id.is_zero_id eq_text
    jungle_wager_engine.Domain.Money.is_valid valid_currency
valid_wallet = refl

parsed_id : parse_id (codes "01010101-0101-0101-0101-010101010101") ≡ ok wallet_id
unfolding parse_id len eq_text
parsed_id = refl

-- Two pages show the three entries of the wallet.
follow-history_example :
    follow env codec (codes "01010101-0101-0101-0101-010101010101") 2 4 (codes "") long_ledger
    ≡ some (history wallet_id long_ledger.db.ledger)
follow-history_example =
    follow-history env codec (codes "01010101-0101-0101-0101-010101010101") wallet_id wallet 2 4
      long_ledger codec-IsFaithful (λ n. refl) parsed_id stored_wallet valid_wallet (omega arith)
      (omega arith) entries-HasIds entries-IsShown short_history
