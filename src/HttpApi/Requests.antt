-- ===== src/HttpApi/Requests.antt =====
-- The handlers of internal/adapters/httpapi/http.go that write, from the headers on. The JSON
-- decoder, the media type's parser, the validation of a token and the random correlation are
-- parameters; a reply is its status with a code or a result.
pub mod Guarded
use jungle_wager_engine.Base.{
  ℕ, ◌+◌, Bool, true, false, ◌&&◌, ◌||◌, not, Option, none, some, List, [], ◌∷◌, Text, codes,
  is_empty, eq_text, len, length, all, any, trim_space, is_space, ltb, leb, ◌==◌, if◌then◌else◌,
}
use jungle_wager_engine.Domain.Errors.{Result, ok, err}
use jungle_wager_engine.Domain.Id.{parse_id, id_string}
use jungle_wager_engine.Domain.Money.{Money}
use jungle_wager_engine.Domain.Money.Parse.{parse_money}
use jungle_wager_engine.Domain.Wallet.{WalletData}
use jungle_wager_engine.Domain.Wager.{Status, pending, pending_reference, rejected, failed}
use jungle_wager_engine.Application.{Command, AppResult}
use jungle_wager_engine.Store.Monad.{Env, World}
use jungle_wager_engine.Store.Process.{process_wager}
use jungle_wager_engine.Store.Create.{CreateWalletCommand, create_wallet}
use jungle_wager_engine.HttpApi.{Answer, answer, application_error}

-- `validCorrelation`
abbrev is_correlation_rune : ℕ → Bool
is_correlation_rune c =
    (leb 97 c && leb c 122)
    || (leb 65 c && leb c 90)
    || (leb 48 c && leb c 57)
    || any (λ d. d == c) (codes "-_.:")

unfoldable pub valid_correlation : Text → Bool
valid_correlation value = not (ltb 128 (len value)) && all is_correlation_rune value

-- `strings.Fields`
unfoldable pub split_spaces : Text → List Text
split_spaces [] = [] ∷ []
split_spaces (c ∷ s) =
    let rest = split_spaces s in
    if is_space c then [] ∷ rest else elim rest [ [] ↦ (c ∷ []) ∷ [] | p ∷ ps ↦ (c ∷ p) ∷ ps ]

unfoldable pub nonempty : List Text → List Text
nonempty [] = []
nonempty (p ∷ ps) = let rest = nonempty ps in if is_empty p then rest else p ∷ rest

-- `strings.EqualFold` with an ASCII word.
abbrev lower : ℕ → ℕ
lower c = if leb 65 c && leb c 90 then c + 32 else c

unfoldable pub equal_fold : Text → Text → Bool
equal_fold [] [] = true
equal_fold (a ∷ s) (b ∷ t) = (lower a == lower b) && equal_fold s t
equal_fold _ _ = false

pub record Principal : Type 0 where
  pub subject : Text
  pub provider_id : Text
  pub has_scope : Text → Bool

-- What a guard does with a request.
pub data Guard (A : Type 0) : Type 0 where
  stop : Answer → Guard A
  pass : A → Guard A

unfoldable pub bearer : List Text → Option Text
bearer (scheme ∷ token ∷ []) = if equal_fold scheme (codes "Bearer") then some token else none
bearer _ = none

-- The scope, and whether the operation is a provider's.
unfoldable pub is_forbidden : Text → Bool → Principal → Bool
is_forbidden scope provider_required p =
    not (p.has_scope scope)
    || (provider_required && is_empty p.provider_id)
    || (not provider_required && not (is_empty p.provider_id))

unfoldable pub authorize : (Text → Option Principal) → Text → Bool → Text → Guard Principal
authorize validate scope provider_required header = elim (bearer (nonempty (split_spaces header))) [
  | none ↦ stop (answer 401 (codes "UNAUTHENTICATED"))
  | some token ↦ elim (validate token) [
    | none ↦ stop (answer 401 (codes "UNAUTHENTICATED"))
    | some p ↦
        if is_forbidden scope provider_required p
        then stop (answer 403 (codes "FORBIDDEN"))
        else pass p
  ]
]

-- What the decoder makes of a body.
pub data Decoded (A : Type 0) : Type 0 where
  too_large : Decoded A
  malformed : Decoded A
  decoded : A → Decoded A

-- `decode` with `decodeError`; the first argument is whether the media type is JSON.
unfoldable pub decode_body : {A : Type 0} → Bool → Decoded A → Guard A
decode_body false body = stop (answer 415 (codes "INVALID_CONTENT_TYPE"))
decode_body true too_large = stop (answer 413 (codes "BODY_TOO_LARGE"))
decode_body true malformed = stop (answer 400 (codes "INVALID_JSON"))
decode_body true (decoded a) = pass a

-- The correlation of `requestContext`; `fresh` is the random one.
unfoldable pub correlation_of : Option Text → Text → Guard Text
correlation_of fresh header =
    if is_empty header
    then elim fresh [ none ↦ stop (answer 503 (codes "UNAVAILABLE")) | some id ↦ pass id ]
    else if valid_correlation header
    then pass header
    else stop (answer 400 (codes "INVALID_CORRELATION_ID"))

pub record WagerBody : Type 0 where
  pub provider_id : Text
  pub external_transaction_id : Text
  pub player_id : Text
  pub wallet_id : Text
  pub round_id : Text
  pub game_id : Text
  pub kind : Text
  pub amount : Text
  pub currency : Text
  pub reference_external_transaction_id : Text

pub record WalletBody : Type 0 where
  pub player_id : Text
  pub amount : Text
  pub currency : Text

pub data Reply : Type 0 where
  failure : Answer → Reply
  wager_reply : ℕ → AppResult → Reply
  wallet_reply : ℕ → WalletData → Reply

-- The status of a result.
unfoldable pub wager_status : AppResult → ℕ
wager_status r = if r.idempotent_replay then 200 else elim r.status [
  | pending_reference ↦ 202
  | pending ↦ 202
  | rejected ↦ 422
  | failed ↦ 503
  | _ ↦ 201
]

-- `result, err := …; if err != nil { a.applicationError(…) }`
abbrev or_fail : {A B : Type 0} → Result A → (A → Guard B) → Guard B
or_fail (ok a) next = next a
or_fail (err e) next = stop (application_error e)

-- The command that `processWager` makes of a body.
unfoldable pub wager_command : Principal → Text → Text → WagerBody → Guard Command
wager_command p key correlation body =
    if not (eq_text body.provider_id p.provider_id)
    then stop (answer 403 (codes "FORBIDDEN"))
    else if is_empty (trim_space key) || ltb 256 (len key)
    then stop (answer 400 (codes "INVALID_IDEMPOTENCY_KEY"))
    else or_fail (parse_id body.wallet_id) (λ wallet. or_fail (parse_id body.player_id) (λ player.
      or_fail (parse_money body.amount body.currency) (λ money. pass (record {
        provider_id = p.provider_id;
        external_transaction_id = body.external_transaction_id;
        idempotency_key = key;
        player_id = id_string player;
        wallet_id = id_string wallet;
        round_id = body.round_id;
        game_id = body.game_id;
        kind = body.kind;
        money = money;
        reference_external_transaction_id = body.reference_external_transaction_id;
        correlation_id = correlation;
        causation_id = codes "";
      }))))

-- The command that `createWallet` makes of a body.
unfoldable pub wallet_command : Text → WalletBody → Guard CreateWalletCommand
wallet_command correlation body = or_fail (parse_id body.player_id) (λ player.
    or_fail (parse_money body.amount body.currency) (λ money. pass (record {
      player_id = id_string player;
      initial_balance = money;
      correlation_id = correlation;
    })))

-- The next guard, unless one has answered.
unfoldable pub and_then : {A B : Type 0} → Guard A → (A → Guard B) → Guard B
and_then (stop a) next = stop a
and_then (pass a) next = next a

-- A request as the handlers read it.
pub record Request (Body : Type 0) : Type 0 where
  pub correlation : Text
  pub authorization : Text
  pub is_json : Bool
  pub body : Decoded Body
  pub idempotency_key : Text

module _ (validate : Text → Option Principal) (fresh : Option Text) where
  -- The guards of `POST /wagering/transactions`, in their order.
  unfoldable pub read_wager : Request WagerBody → Guard Command
  read_wager r = and_then (correlation_of fresh r.correlation) (λ correlation.
      and_then (authorize validate (codes "wager:write") true r.authorization) (λ p.
        and_then (decode_body r.is_json r.body)
          (λ body. wager_command p r.idempotency_key correlation body)))

  -- The guards of `POST /wallets`.
  unfoldable pub read_wallet : Request WalletBody → Guard CreateWalletCommand
  read_wallet r = and_then (correlation_of fresh r.correlation) (λ correlation.
      and_then (authorize validate (codes "wallet:write") false r.authorization)
        (λ p. and_then (decode_body r.is_json r.body) (λ body. wallet_command correlation body)))

  module _ (env : Env) where
    unfoldable pub post_wager : Request WagerBody → World → Reply × World
    post_wager r s = elim (read_wager r) [
      | stop a ↦ (failure a, s)
      | pass c ↦
          let (x, s') = process_wager env c none s in
          elim x [
            | ok result ↦ (wager_reply (wager_status result) result, s')
            | err e ↦ (failure (application_error e), s')
          ]
    ]

    unfoldable pub post_wallet : Request WalletBody → World → Reply × World
    post_wallet r s = elim (read_wallet r) [
      | stop a ↦ (failure a, s)
      | pass c ↦
          let (x, s') = create_wallet env c s in
          elim x [ ok w ↦ (wallet_reply 201 w, s') | err e ↦ (failure (application_error e), s') ]
    ]
