-- ===== src/HttpApi/Requests/Guarded.antt =====
-- What a request must bring before the store is asked to write.
use jungle_wager_engine.Base.{
  Bool, true, false, ◌≡◌, ◌⊎◌, refl, ap, arith, Option, Option-cases, none, some, Text, codes,
  is_empty, trim_space, inl, inr, IsInt64, Bool-cases,
}
use jungle_wager_engine.Domain.Errors.{Result-cases}
use jungle_wager_engine.Domain.Id.{parse_id}
use jungle_wager_engine.Domain.Money.Parse.{parse_money}
use jungle_wager_engine.Domain.Money.Parse.Fits.{parse_money-IsInt64}
use jungle_wager_engine.Application.{Command}
use jungle_wager_engine.Store.Monad.{Env, World}
use jungle_wager_engine.Store.Process.{process_wager}
use jungle_wager_engine.Store.Create.{CreateWalletCommand, create_wallet}
use jungle_wager_engine.Store.Runs.{IsWhole, OthersWhole, processes, creates, Moves-IsWhole}
use jungle_wager_engine.HttpApi.{Answer}
use jungle_wager_engine.HttpApi.Requests.{
  Principal, Guard, stop, pass, split_spaces, nonempty, bearer, is_forbidden, authorize,
  decode_body, correlation_of, WagerBody, WalletBody, wager_command, wallet_command, and_then,
  Request, read_wager, post_wager, read_wallet, post_wallet,
}

Guard-cases : {A : Type 0} (g : Guard A) → ((a : Answer) × (g ≡ stop a)) ⊎ ((a : A) × (g ≡ pass a))
Guard-cases (stop a) = inl (a, refl)
Guard-cases (pass a) = inr (a, refl)

and_then-pass :
    {A B : Type 0} (g : Guard A) (next : A → Guard B) (b : B)
    → and_then g next ≡ pass b
    → (a : A) × (g ≡ pass a) × (next a ≡ pass b)
unfolding and_then
and_then-pass (stop a) next b h = absurd (ground arith)
and_then-pass (pass a) next b h = (a, refl, h)

-- The header names a token that is valid, for a principal that may do what the scope says.
pub record IsAllowed (validate : Text → Option Principal) (scope : Text) (required : Bool)
    (header : Text) (p : Principal) : Type 0 where
  pub token : Text
  pub bears : bearer (nonempty (split_spaces header)) ≡ some token
  pub valid : validate token ≡ some p
  pub permitted : is_forbidden scope required p ≡ false

authorize-IsAllowed :
    (validate : Text → Option Principal) (scope : Text) (required : Bool) (header : Text)
    (p : Principal)
    → authorize validate scope required header ≡ pass p
    → IsAllowed validate scope required header p
unfolding authorize
authorize-IsAllowed validate scope required header p h =
    elim (Option-cases (bearer (nonempty (split_spaces header)))) [
      | inl missing ↦ absurd (ground arith)
      | inr (token, bears) ↦ elim (Option-cases (validate token)) [
        | inl invalid_ ↦ absurd (ground arith)
        | inr (q, valid) ↦ elim (Bool-cases (is_forbidden scope required q)) [
          | inl forbidden ↦ absurd (ground arith)
          | inr permitted ↦
              let same : q ≡ p = ground arith in
              record {
                token = token;
                bears = bears;
                valid = rw⁻¹ same valid;
                permitted = rw⁻¹ same permitted;
              }
        ]
      ]
    ]

wager_command-made :
    (p : Principal) (key correlation : Text) (body : WagerBody) (c : Command)
    → wager_command p key correlation body ≡ pass c
    → (c.provider_id ≡ p.provider_id)
      × (c.idempotency_key ≡ key)
      × (is_empty (trim_space key) ≡ false)
      × IsInt64 c.money.minor
unfolding wager_command
wager_command-made p key correlation body c h = elim (Result-cases (parse_id body.wallet_id)) [
  | inl (wallet, w) ↦ elim (Result-cases (parse_id body.player_id)) [
    | inl (player, q) ↦ elim (Result-cases (parse_money body.amount body.currency)) [
      | inl (money, m) ↦ ground (arith, parse_money-IsInt64 body.amount body.currency money m)
      | inr (e, bad) ↦ ground arith
    ]
    | inr (e, bad) ↦ ground arith
  ]
  | inr (e, bad) ↦ ground arith
]

wallet_command-IsInt64 :
    (correlation : Text) (body : WalletBody) (c : CreateWalletCommand)
    → wallet_command correlation body ≡ pass c
    → IsInt64 c.initial_balance.minor
unfolding wallet_command
wallet_command-IsInt64 correlation body c h = elim (Result-cases (parse_id body.player_id)) [
  | inl (player, q) ↦ elim (Result-cases (parse_money body.amount body.currency)) [
    | inl (money, m) ↦ ground (arith, parse_money-IsInt64 body.amount body.currency money m)
    | inr (e, bad) ↦ ground arith
  ]
  | inr (e, bad) ↦ ground arith
]

module _ (validate : Text → Option Principal) (fresh : Option Text) where
  -- A request whose command reaches the store bears a valid token with the scope `wager:write` of
  -- a principal with a provider, and the command is that provider's own, with an idempotency key
  -- that is not blank and an amount that is an int64.
  pub read_wager-own :
      (r : Request WagerBody) (c : Command)
      → read_wager validate fresh r ≡ pass c
      → (p : Principal) × IsAllowed validate (codes "wager:write") true r.authorization p
        × (c.provider_id ≡ p.provider_id)
        × (c.idempotency_key ≡ r.idempotency_key)
        × (is_empty (trim_space r.idempotency_key) ≡ false)
        × IsInt64 c.money.minor
  unfolding read_wager
  read_wager-own r c h =
      let (correlation, _, h1) = and_then-pass (correlation_of fresh r.correlation) _ c h in
      let (p, allowed, h2) =
        and_then-pass (authorize validate (codes "wager:write") true r.authorization) _ c h1 in
      let (body, _, h3) = and_then-pass (decode_body r.is_json r.body) _ c h2 in
      let (own, keyed, filled, fits) =
        wager_command-made p r.idempotency_key correlation body c h3 in
      (p, authorize-IsAllowed validate _ _ r.authorization p allowed, own, keyed, filled, fits)

  read_wallet-IsInt64 :
      (r : Request WalletBody) (c : CreateWalletCommand)
      → read_wallet validate fresh r ≡ pass c
      → IsInt64 c.initial_balance.minor
  unfolding read_wallet
  read_wallet-IsInt64 r c h =
      let (correlation, _, h1) = and_then-pass (correlation_of fresh r.correlation) _ c h in
      let (p, allowed, h2) =
        and_then-pass (authorize validate (codes "wallet:write") false r.authorization) _ c h1 in
      let (body, _, h3) = and_then-pass (decode_body r.is_json r.body) _ c h2 in
      wallet_command-IsInt64 correlation body c h3

  module _ (env : Env) (others : OthersWhole env) (s : World) (g : IsWhole s.db) where
    -- Whatever is posted, the store satisfies after it what it satisfied before: sound books, unique
    -- keys, and int64 amounts. The others are taken to leave it so.
    pub post_wager-IsWhole :
        (r : Request WagerBody) → IsWhole (post_wager validate fresh env r s).1.db
    unfolding post_wager
    post_wager-IsWhole r = elim (Guard-cases (read_wager validate fresh r)) [
      | inl (a, stopped) ↦
          let same : (post_wager validate fresh env r s).1 ≡ s = ground arith in
          rw (ap (λ t. t.db) same) g
      | inr (c, passed) ↦
          let (p, allowed, own, keyed, filled, fits) = read_wager-own r c passed in
          let same : (post_wager validate fresh env r s).1 ≡ (process_wager env c none s).1 =
            elim (Result-cases (process_wager env c none s).0) [
              | inl (result, good) ↦ ground arith
              | inr (e, bad) ↦ ground arith
            ] in
          rw (ap (λ t. t.db) same) (Moves-IsWhole env others (processes c none fits) g)
    ]

    -- The same of a request for a new wallet.
    pub post_wallet-IsWhole :
        (r : Request WalletBody) → IsWhole (post_wallet validate fresh env r s).1.db
    unfolding post_wallet
    post_wallet-IsWhole r = elim (Guard-cases (read_wallet validate fresh r)) [
      | inl (a, stopped) ↦
          let same : (post_wallet validate fresh env r s).1 ≡ s = ground arith in
          rw (ap (λ t. t.db) same) g
      | inr (c, passed) ↦
          let fits = read_wallet-IsInt64 r c passed in
          let same : (post_wallet validate fresh env r s).1 ≡ (create_wallet env c s).1 =
            elim (Result-cases (create_wallet env c s).0) [
              | inl (w, good) ↦ ground arith
              | inr (e, bad) ↦ ground arith
            ] in
          rw (ap (λ t. t.db) same) (Moves-IsWhole env others (creates c fits) g)
    ]
