-- ===== src/Store/Process.antt =====
-- `ProcessWager` of internal/adapters/postgres/process.go: one transaction that recognizes a command
-- it has seen before, or applies it.
pub mod Upheld
pub mod Frames
pub mod Books
pub mod Replay
use jungle_wager_engine.Base.{
  ℕ, ◌+◌, Bool, true, false, ◌&&◌, ◌||◌, not, Option, none, some, List, [], ◌∷◌, ◌++◌, Text, codes,
  is_empty, eq_text, find, any, length, ◌==◌, if◌then◌else◌, ℤ, pos, Option-cases,
}
use jungle_wager_engine.Domain.Errors.{
  Result, ok, err, Error, no_rows, app, storage, invalid_input, inbox_message_reused, unavailable,
  player_mismatch, key_reused, external_reused,
}
use jungle_wager_engine.Domain.Id.{Uuid, eq_id, zero_id, parse_id, id_string, hex_decode}
use jungle_wager_engine.Domain.Money.{Money, no_money}
use jungle_wager_engine.Domain.Wallet.{Time, WalletData}
use jungle_wager_engine.Domain.Wager.{
  Kind, bet, win, loss, refund, rollback, other_kind, pending, WagerData, new_wager,
}
use jungle_wager_engine.Application.{Command, AppResult, InboxMessage, normalize_command}
use jungle_wager_engine.Store.Tables.{
  Db, WagerRow, InboxRow, update_where, has_id, is_wager, has_key, has_external, is_message,
  conflicts,
}
use jungle_wager_engine.Store.Monad.{
  Env, World, Tx, ◌>>=◌, ◌>>◌, pure, lift, raise, gets, modify, translate,
}
use jungle_wager_engine.Store.Rows.{
  db_error, wrap, statement, now, allocate_id, scan_wager, wallet_of, lock_wallet, result_of,
}
use jungle_wager_engine.Store.Apply.{apply, found}

-- `domain.Kind(c.Kind)`
unfoldable pub kind_of : Text → Kind
kind_of k =
    if eq_text k (codes "BET")
    then bet
    else if eq_text k (codes "WIN")
    then win
    else if eq_text k (codes "LOSS")
    then loss
    else if eq_text k (codes "REFUND")
    then refund
    else if eq_text k (codes "ROLLBACK")
    then rollback
    else other_kind k

-- `UNION ALL … ORDER BY preference LIMIT 1`: the row of the key before that of the external id.
unfoldable pub identity_row : Command → List WagerRow → Option WagerRow
identity_row c rows = elim (find (has_key c.provider_id c.idempotency_key) rows) [
  | some r ↦ some r
  | none ↦ find (has_external c.provider_id c.external_transaction_id) rows
]

-- Whether a stored transaction is the one that the command asks for.
unfoldable pub check_identity : Command → Text → WagerData → Result (Option WagerData)
check_identity c hash d =
    if not (eq_text d.idempotency_key c.idempotency_key)
    then err (app external_reused)
    else if not (eq_text d.payload_hash hash)
    then err (app key_reused)
    else ok (some d)

-- The answer to a message that was recorded before.
unfoldable pub recorded : InboxMessage → InboxRow → Result (Option Uuid)
recorded m row =
    if not (eq_text row.payload_hash m.payload_hash)
    then err (app inbox_message_reused)
    else elim row.completed [ none ↦ err (app unavailable) | some id ↦ ok (some id) ]

abbrev digest_is_bad : Option Text → Bool
digest_is_bad none = true
digest_is_bad (some hash) = not (length hash == 32)

unfoldable pub message_is_bad : InboxMessage → Bool
message_is_bad m =
    digest_is_bad (hex_decode m.payload_hash) || is_empty m.consumer_name || is_empty m.message_id

-- The transaction that `ProcessWager` builds for a command.
abbrev pub pending_wager : Env → Command → WalletData → Uuid → Uuid → Time → WagerData
pending_wager env c w id player at = record {
  id = id;
  wallet_id = w.id;
  player_id = player;
  provider_id = c.provider_id;
  external_transaction_id = c.external_transaction_id;
  idempotency_key = c.idempotency_key;
  payload_hash = env.payload_hash c;
  round_id = c.round_id;
  game_id = c.game_id;
  kind = kind_of c.kind;
  money = c.money;
  reference_external_transaction_id = c.reference_external_transaction_id;
  reference_id = zero_id;
  status = pending;
  failure_code = codes "";
  result_balance = no_money;
  result_version = pos 0;
  created_at = at;
  updated_at = at;
  completed_at = none;
}

abbrev pub wager_row : Command → WagerData → WagerRow
wager_row c d = record {
  wager = d;
  correlation_id = c.correlation_id;
  causation_id = c.causation_id;
  reference_attempts = 0;
  next_reference_attempt_at = none;
  claim = none;
}

module _ (env : Env) where
  unfoldable pub find_identity : Command → Tx (Option WagerData)
  find_identity c = do
    row ← gets (λ db. identity_row c db.wagers)
    scanned ← translate found (scan_wager env row)
    elim scanned [ none ↦ pure none | some d ↦ lift (check_identity c (env.payload_hash c) d) ]

  -- `INSERT INTO inbox … ON CONFLICT DO NOTHING`, and what it finds there.
  unfoldable pub reserve_inbox : InboxMessage → Tx (Option Uuid)
  reserve_inbox m = if message_is_bad m then raise (app invalid_input) else (do
    statement env
    row ← gets (λ db. find (is_message m.consumer_name m.message_id) db.inbox)
    elim row [
      | none ↦ (do
        modify (λ db. record db {
          inbox =
              record {
                consumer_name = m.consumer_name;
                message_id = m.message_id;
                payload_hash = m.payload_hash;
                completed = none;
              }
              ∷ db.inbox;
        })
        pure none)
      | some r ↦ (do statement env; lift (recorded m r))
    ])

  abbrev complete_row : Uuid → InboxRow → InboxRow
  complete_row id row = record row {
    completed = elim row.completed [ none ↦ some id | some old ↦ some old ];
  }

  unfoldable pub complete_inbox : Option InboxMessage → Uuid → Tx (Unit {0})
  complete_inbox none id = pure tt
  complete_inbox (some m) id = do
    statement env
    modify (λ db. record db {
      inbox = update_where (is_message m.consumer_name m.message_id) (complete_row id) db.inbox;
    })

  -- The last statement of a transaction that takes effect.
  unfoldable pub commit : Tx (Unit {0})
  commit = statement env

  unfoldable pub commit_replay : Option InboxMessage → WagerData → Tx AppResult
  commit_replay inbox d = do
    w ← wrap (wallet_of env d)
    complete_inbox inbox d.id
    commit
    pure (result_of d w true)

  -- A message that was completed before is answered by its transaction, to its own provider.
  unfoldable pub replay_message : Command → Uuid → Tx AppResult
  replay_message c id = do
    row ← gets (λ db. find (is_wager id) db.wagers)
    d ← wrap (scan_wager env row)
    if not (eq_text d.provider_id c.provider_id)
        then raise (app inbox_message_reused)
        else (do w ← wrap (wallet_of env d); commit; pure (result_of d w true))

  -- `INSERT INTO wager_transaction … ON CONFLICT DO NOTHING`: whether the row went in.
  unfoldable pub insert_wager : WagerRow → Tx Bool
  insert_wager row = do
    statement env
    taken ← gets (λ db. any (conflicts row.wager) db.wagers)
    if taken
        then pure false
        else (do modify (λ db. record db { wagers = row ∷ db.wagers }); pure true)

  -- After a conflict: the winner's transaction, seen by a fresh snapshot.
  unfoldable pub after_conflict : Command → Option InboxMessage → Tx AppResult
  after_conflict c inbox = do
    identity ← find_identity c
    elim identity [ none ↦ raise (app unavailable) | some d ↦ commit_replay inbox d ]

  -- A command that is new, from the wallet's lock on.
  unfoldable pub process_new : Command → Option InboxMessage → Tx AppResult
  process_new c inbox = do
    w ← wrap (lock_wallet env c.wallet_id)
    if not (eq_text (id_string w.player_id) c.player_id) then raise (app player_mismatch) else (do
      id ← allocate_id env
      player ← lift (parse_id c.player_id)
      at ← now env
      wg ← lift (new_wager (pending_wager env c w id player at))
      inserted ← insert_wager (wager_row c wg)
      if not inserted then after_conflict c inbox else (do
        result ← apply env w wg c.correlation_id c.causation_id false
        complete_inbox inbox wg.id
        commit
        pure result))

  unfoldable pub process_identified : Command → Option InboxMessage → Tx AppResult
  process_identified c inbox = do
    identity ← find_identity c
    elim identity [ none ↦ process_new c inbox | some d ↦ commit_replay inbox d ]

  unfoldable pub process_message : Command → Option InboxMessage → Tx AppResult
  process_message c none = process_identified c none
  process_message c (some m) = do
    existing ← reserve_inbox m
    elim existing [ none ↦ process_identified c (some m) | some id ↦ replay_message c id ]

  -- The body of `ProcessWager`; the statement is `BeginTx`.
  unfoldable pub process_body : Command → Option InboxMessage → Tx AppResult
  process_body command inbox = do
    c ← lift (normalize_command command)
    statement env
    process_message c inbox

-- What a transaction leaves: its writes if it ends well, else those of the others alone
-- (`defer tx.Rollback`).
unfoldable pub transact {ℓ} : {A : Type ℓ} → Env → Tx A → World → Result A × World
transact env m s =
    let (r, s') = m s in
    elim r [ ok a ↦ (ok a, s') | err e ↦ (err e, record s' { db = env.others s.db }) ]

unfoldable pub process_wager :
    Env → Command → Option InboxMessage → World → Result AppResult × World
process_wager env c inbox = transact env (process_body env c inbox)
