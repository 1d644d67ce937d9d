-- ===== src/Auth/Trusted.antt =====
-- A token is trusted by a key of the provider's that is strong and was fetched recently.
use jungle_wager_engine.Base.{
  ℕ, ◌≤◌, ◌<◌, Bool, true, false, ◌≡◌, ◌⊎◌, refl, arith, Option, none, some, List, [], ◌∷◌, Text,
  is_empty, all, Bool-cases, Option-cases, inl, inr,
}
use jungle_wager_engine.HttpApi.Requests.{Principal}
use jungle_wager_engine.Auth.{
  Header, AccessClaims, AuthConfig, Url, PublicKey, Jwk, Discovery, Provider, Verifier, new_config,
  find_key, is_strong, strong_key, public_key, add_keys, usable_keys, keys_at, fetch_keys, refresh,
  is_fresh, reload, key, token_is_bad, kid_is_bad, principal_of, accept, identify, check_signed,
  check_header, validate,
}

-- The keys are strong.
abbrev pub all_strong : List (Text × PublicKey) → Bool
all_strong keys = all (λ entry. is_strong entry.1) keys

find_key-is_strong :
    (kid : Text) (keys : List (Text × PublicKey)) (k : PublicKey)
    → all_strong keys ≡ true
    → find_key kid keys ≡ some k
    → is_strong k ≡ true
unfolding find_key all
find_key-is_strong kid [] k h e = ground arith
find_key-is_strong kid ((name, k') ∷ keys) k h e = grind (arith, find_key-is_strong kid keys k)

strong_key-is_strong : (n e : List ℕ) (k : PublicKey) → strong_key n e ≡ some k → is_strong k ≡ true
unfolding strong_key
strong_key-is_strong n e k h = ground arith

module _ (base64 : Text → Option (List ℕ)) where
  public_key-is_strong :
      (j : Jwk) (k : PublicKey) → public_key base64 j ≡ some k → is_strong k ≡ true
  unfolding public_key
  public_key-is_strong j k h = grind (arith, strong_key-is_strong)

  add_keys-all_strong :
      (keys : List (Text × PublicKey)) (set : List Jwk) (keys' : List (Text × PublicKey))
      → all_strong keys ≡ true
      → add_keys base64 keys set ≡ some keys'
      → all_strong keys' ≡ true
  unfolding add_keys all
  add_keys-all_strong keys [] keys' h e = ground arith
  add_keys-all_strong keys (j ∷ set) keys' h e = elim (Option-cases (public_key base64 j)) [
    | inl e1 ↦ ground (arith, add_keys-all_strong keys set keys' h)
    | inr (k, e1) ↦
        ground
          (arith, public_key-is_strong j k e1, add_keys-all_strong ((j.kid, k) ∷ keys) set keys')
  ]

usable_keys-some :
    (o : Option (List (Text × PublicKey))) (keys : List (Text × PublicKey))
    → usable_keys o ≡ some keys
    → o ≡ some keys
unfolding usable_keys
usable_keys-some none keys h = h
usable_keys-some (some []) keys h = ground arith
usable_keys-some (some (k ∷ ks)) keys h = h

added-all_strong :
    (base64 : Text → Option (List ℕ)) (set : List Jwk) (keys : List (Text × PublicKey))
    → usable_keys (add_keys base64 [] set) ≡ some keys
    → all_strong keys ≡ true
unfolding all
added-all_strong base64 set keys h =
    add_keys-all_strong base64 [] set keys refl (usable_keys-some _ keys h)

module _ (p : Provider) where
  keys_at-all_strong :
      (d : Discovery) (keys : List (Text × PublicKey))
      → keys_at p d ≡ some keys
      → all_strong keys ≡ true
  unfolding keys_at all
  keys_at-all_strong d keys h = grind (arith, added-all_strong)

  fetch_keys-all_strong :
      (keys : List (Text × PublicKey)) → fetch_keys p ≡ some keys → all_strong keys ≡ true
  unfolding fetch_keys
  fetch_keys-all_strong keys h = grind (arith, keys_at-all_strong)

  reload-trusts :
      (kid : Text) (v : Verifier)
      → all_strong v.keys ≡ true
      → p.now ≤ p.answered
      → 0 < p.config.cache_ttl
      → (all_strong (reload p kid v).1.keys ≡ true)
        × ((k : PublicKey)
            → (reload p kid v).0 ≡ some k
            → (find_key kid (reload p kid v).1.keys ≡ some k)
              × (is_fresh p (reload p kid v).1 ≡ true))
  unfolding reload refresh is_fresh
  reload-trusts kid v h order positive = elim (Option-cases (fetch_keys p)) [
    | inl e ↦ (ground arith, λ k e1. (ground arith, ground arith))
    | inr (keys, e) ↦
        let strong = fetch_keys-all_strong keys e in
        (ground arith, λ k e1. (ground arith, ground arith))
  ]

  key-trusts :
      (kid : Text) (v : Verifier)
      → all_strong v.keys ≡ true
      → p.now ≤ p.answered
      → 0 < p.config.cache_ttl
      → (all_strong (key p kid v).1.keys ≡ true)
        × ((k : PublicKey)
            → (key p kid v).0 ≡ some k
            → (find_key kid (key p kid v).1.keys ≡ some k) × (is_fresh p (key p kid v).1 ≡ true))
  unfolding key
  key-trusts kid v h order positive =
      let (kept, trusted) = reload-trusts kid v h order positive in
      (ground arith, λ k e. (ground (arith, trusted k), ground (arith, trusted k)))

new_config-lasts :
    (parse : Text → Option Url) (c kept : AuthConfig)
    → new_config parse c ≡ some kept
    → 0 < kept.cache_ttl
unfolding new_config
new_config-lasts parse c kept h = ground arith

-- What vouches for a principal: a strong key that the token names, that is held and was fetched
-- recently, and claims that this key signs, with a subject.
pub record IsVouched (p : Provider) (raw : Text) (principal : Principal) (v : Verifier)
    : Type 0 where
  pub header : Header
  pub kid : Text
  pub signer : PublicKey
  pub claims : AccessClaims
  pub header_read : p.read_header raw ≡ some header
  pub kid_read : header.kid ≡ some kid
  pub by_rs256 : header.is_rs256 ≡ true
  pub held : find_key kid v.keys ≡ some signer
  pub strong : is_strong signer ≡ true
  pub recent : is_fresh p v ≡ true
  pub signed : p.read_claims signer raw ≡ some claims
  pub named : is_empty claims.subject ≡ false
  pub same : principal ≡ principal_of p claims

module _ (p : Provider) (raw : Text) (v : Verifier) (h : all_strong v.keys ≡ true)
    (order : p.now ≤ p.answered) (positive : 0 < p.config.cache_ttl) where
  check_signed-IsVouched :
      (header : Header) (kid : Text)
      → p.read_header raw ≡ some header
      → header.kid ≡ some kid
      → (all_strong (check_signed p raw header kid v).1.keys ≡ true)
        × ((principal : Principal)
            → (check_signed p raw header kid v).0 ≡ some principal
            → IsVouched p raw principal (check_signed p raw header kid v).1)
  unfolding check_signed kid_is_bad identify accept
  check_signed-IsVouched header kid e1 e2 =
      let (kept, trusts) = key-trusts p kid v h order positive in
      (
        ground arith,
        λ principal e. elim (Option-cases (key p kid v).0) [
          | inl none_held ↦ ground arith
          | inr (k, found) ↦
              let (held, recent) = trusts k found in
              elim (Option-cases (p.read_claims k raw)) [
                | inl e3 ↦ ground arith
                | inr (claims, e3) ↦ record {
                  header = header;
                  kid = kid;
                  signer = k;
                  claims = claims;
                  header_read = e1;
                  kid_read = e2;
                  by_rs256 = ground arith;
                  held = ground arith;
                  strong = find_key-is_strong kid _ k kept held;
                  recent = ground arith;
                  signed = e3;
                  named = ground arith;
                  same = ground arith;
                }
              ]
        ],
      )

module _ (p : Provider) (raw : Text) (v : Verifier) (parse : Text → Option Url)
    (c : AuthConfig) where
  validate-vouches :
      new_config parse c ≡ some p.config
      → all_strong v.keys ≡ true
      → p.now ≤ p.answered
      → (all_strong (validate p raw v).1.keys ≡ true)
        × ((principal : Principal)
            → (validate p raw v).0 ≡ some principal
            → IsVouched p raw principal (validate p raw v).1)
  unfolding validate check_header check_signed kid_is_bad
  validate-vouches made h order = elim (Bool-cases (token_is_bad p raw)) [
    | inl bad ↦ (ground arith, λ principal e. ground arith)
    | inr good ↦ elim (Option-cases (p.read_header raw)) [
      | inl none_read ↦ (ground arith, λ principal e. ground arith)
      | inr (header, e1) ↦ elim (Option-cases header.kid) [
        | inl no_kid ↦ (ground arith, λ principal e. ground arith)
        | inr (kid, e2) ↦
            rw (good, e1, e2)
              (check_signed-IsVouched p raw v h order (new_config-lasts parse c p.config made)
                header kid e1 e2)
      ]
    ]
  ]

  -- With a configuration that `New` accepts, strong keys at hand and a clock that does not go
  -- back, `Validate` leaves strong keys; and it returns no principal, or one that is vouched for by
  -- a strong key that the token names, held and fetched within the keys' lifetime, whose method is
  -- RS256, and by claims that this key signs, with a subject.
  pub validate-IsVouched :
      new_config parse c ≡ some p.config
      → all_strong v.keys ≡ true
      → p.now ≤ p.answered
      → (all_strong (validate p raw v).1.keys ≡ true)
        × (((validate p raw v).0 ≡ none)
            ⊎ ((principal : Principal) × ((validate p raw v).0 ≡ some principal)
                × IsVouched p raw principal (validate p raw v).1))
  validate-IsVouched made h order =
      let (strong, vouches) = validate-vouches made h order in
      (
        strong,
        elim (Option-cases (validate p raw v).0) [
          | inl e ↦ inl e
          | inr (principal, e) ↦ inr (principal, e, vouches principal e)
        ],
      )
