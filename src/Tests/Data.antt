-- ===== src/Tests/Data.antt =====
-- The wallet, the commands and the environment that the runs share.
use jungle_wager_engine.Base.{
  ℕ, ◌+◌, false, ◌≡◌, arith, none, some, [], ◌∷◌, Text, codes, pos, find, IsInt64, int_laws, ◌+ℤ◌,
}
use jungle_wager_engine.Domain.Id.{eq_id→eq, Uuid, zero_id}
use jungle_wager_engine.Domain.Money.{Money, no_money}
use jungle_wager_engine.Domain.Wallet.{WalletData}
use jungle_wager_engine.Domain.Ledger.{LedgerData, credit_direction}
use jungle_wager_engine.Domain.Wager.{WagerData, bet, rollback, pending, processed, Status, Kind}
use jungle_wager_engine.Application.{Command}
use jungle_wager_engine.Store.Tables.{Db, WagerRow, has_id, ledger_total, signed}
use jungle_wager_engine.Store.Monad.{Env, World}
use jungle_wager_engine.Store.Apply.Sound.{IsSound, OthersSound}

abbrev pub bytes : ℕ → Uuid
bytes b = b ∷ b ∷ b ∷ b ∷ b ∷ b ∷ b ∷ b ∷ b ∷ b ∷ b ∷ b ∷ b ∷ b ∷ b ∷ b ∷ []

abbrev pub wallet_id : Uuid
wallet_id = bytes 1

abbrev pub player_id : Uuid
player_id = bytes 2

abbrev pub reais : ℕ → Money
reais n = record { minor = pos n; currency = codes "BRL" }

abbrev pub wallet : WalletData
wallet = record {
  id = wallet_id;
  player_id = player_id;
  balance = reais 1000;
  version = pos 1;
  created_at = 1;
  updated_at = 1;
}

-- A SHA-256 hash in hexadecimal.
abbrev pub hash : Text
hash = codes "0000000000000000000000000000000000000000000000000000000000000000"

abbrev pub wager_of : ℕ → Kind → Text → Status → WagerData
wager_of id kind reference status = record {
  id = bytes id;
  wallet_id = wallet_id;
  player_id = player_id;
  provider_id = codes "acme";
  external_transaction_id = codes "t-1";
  idempotency_key = codes "k-1";
  payload_hash = hash;
  round_id = codes "r-1";
  game_id = codes "g-1";
  kind = kind;
  money = reais 300;
  reference_external_transaction_id = reference;
  reference_id = zero_id;
  status = status;
  failure_code = codes "";
  result_balance = no_money;
  result_version = pos 0;
  created_at = 2;
  updated_at = 2;
  completed_at = none;
}

abbrev pub new_bet : WagerData
new_bet = wager_of 9 bet (codes "") pending

-- The bet once it is settled.
abbrev pub settled_bet : WagerData
settled_bet = record (wager_of 9 bet (codes "") processed) {
  result_balance = reais 700;
  result_version = pos 2;
  updated_at = 3;
  completed_at = some 3;
}

abbrev pub new_rollback : WagerData
new_rollback = record (wager_of 10 rollback (codes "t-1") pending) {
  external_transaction_id = codes "t-2";
  idempotency_key = codes "k-2";
}

abbrev pub command : Command
command = record {
  provider_id = codes "acme";
  external_transaction_id = codes "t-1";
  idempotency_key = codes "k-1";
  player_id = codes "02020202-0202-0202-0202-020202020202";
  wallet_id = codes "01010101-0101-0101-0101-010101010101";
  round_id = codes "r-1";
  game_id = codes "g-1";
  kind = codes "bet";
  money = reais 300;
  reference_external_transaction_id = codes "";
  correlation_id = codes "c-1";
  causation_id = codes "";
}

abbrev pub normal_command : Command
normal_command = record command { kind = codes "BET" }

abbrev pub env : Env
env = record {
  clock = λ n. 100;
  server_clock = λ n. 100 + n;
  new_id = λ n. bytes (n + 20);
  fails = λ n. false;
  others = λ db. db;
  payload_hash = λ c. hash;
}

abbrev pub opening_entry : LedgerData
opening_entry = record {
  id = bytes 3;
  wallet_id = wallet_id;
  transaction_id = bytes 4;
  direction = credit_direction;
  money = reais 1000;
  balance_before = reais 0;
  balance_after = reais 1000;
  created_at = 1;
}

abbrev pub db : Db
db = record {
  wallets = wallet ∷ [];
  wagers = [];
  ledger = opening_entry ∷ [];
  inbox = [];
  outbox = [];
}

abbrev pub start : World
start = record { db = db; step = 0 }

abbrev pub seen_row : WagerRow
seen_row = record {
  wager = settled_bet;
  correlation_id = codes "c-1";
  causation_id = codes "";
  reference_attempts = 0;
  next_reference_attempt_at = none;
  claim = none;
}

abbrev pub seen : World
seen = record { db = record db { wagers = seen_row ∷ [] }; step = 0 }

found_wallet : (id : Uuid) (w : WalletData) → find (has_id id) (wallet ∷ []) ≡ some w → w ≡ wallet
unfolding find
found_wallet id w h = ground arith

pub db-IsSound : IsSound db
unfolding find ledger_total signed ◌+ℤ◌
db-IsSound = record {
  balanced = λ id w h. ground (arith, eq_id→eq wallet_id id);
  in_range = λ id w h. rw (found_wallet id w h) (omega int_laws, omega int_laws);
  closed = λ id h. ground arith;
}

pub others_sound : OthersSound env
others_sound d sound = sound

pub reais_fit : IsInt64 (pos 300)
reais_fit = omega int_laws
