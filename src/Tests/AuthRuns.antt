-- ===== src/Tests/AuthRuns.antt =====
-- A run of the verification of a token that has to fetch the keys first.
use jungle_wager_engine.Base.{
  ℕ, zero, suc, ◌≡◌, ◌⊎◌, refl, true, false, Option, none, some, List, [], ◌∷◌, Text, codes,
  eq_text, if◌then◌else◌, all, len, arith,
}
use jungle_wager_engine.HttpApi.{has_prefix}
use jungle_wager_engine.HttpApi.Requests.{Principal}
use jungle_wager_engine.Auth.{
  AccessClaims, Jwk, AuthConfig, Url, Provider, Verifier, new_config, completed, validate,
  trim_slashes, token_is_bad, check_header, check_signed, kid_is_bad, identify, key, find_key,
  reload, refresh, fetch_keys, get, read_body, keys_at, accept, add_keys, bytes_value,
  is_for_signing, is_fresh, is_strong, public_key, strong_key, usable_keys, principal_of,
  trim_left_slashes, address_is_bad,
}
use jungle_wager_engine.Auth.Trusted.{IsVouched, all_strong, validate-IsVouched}

abbrev issuer_url : Text
issuer_url = codes "https://id.example"

abbrev given : AuthConfig
given = record {
  issuer = codes "https://id.example/";
  fetch_issuer = [];
  audience = codes "wagers";
  allow_insecure_http = false;
  cache_ttl = 0;
}

abbrev kept : AuthConfig
kept = record {
  issuer = issuer_url;
  fetch_issuer = issuer_url;
  audience = codes "wagers";
  allow_insecure_http = false;
  cache_ttl = 300000000000;
}

abbrev parse_url : Text → Option Url
parse_url address = some (record {
  scheme = codes "https";
  host = codes "id.example";
  has_user = false;
  raw_query = [];
  fragment = [];
})

abbrev times : ℕ → ℕ → List ℕ
times zero b = []
times (suc n) b = b ∷ times n b

abbrev document_key : Jwk
document_key = record {
  kty = codes "RSA";
  kid = codes "k1";
  use_ = codes "sig";
  alg = codes "RS256";
  n = codes "modulus";
  e = codes "AQAB";
}

abbrev web_claims : AccessClaims
web_claims = record {
  subject = codes "acme-client";
  provider_id = codes "acme";
  scope = codes "wager:write wager:read";
}

abbrev provider : Provider
provider = record {
  config = kept;
  read_header = λ raw. some (record { kid = some (codes "k1"); is_rs256 = true });
  read_claims = λ k raw. some web_claims;
  send = λ address. some (record { status = 200; body = some [] });
  read_discovery =
      λ body. some (record { issuer = issuer_url; jwks_uri = codes "https://id.example/keys" });
  read_keys = λ body. some (document_key ∷ []);
  base64 = λ s. if eq_text s (codes "AQAB") then some (1 ∷ 0 ∷ 1 ∷ []) else some (times 256 255);
  now = 7000000000;
  answered = 7100000000;
}

abbrev unloaded : Verifier
unloaded = record { keys = []; loaded_at = 0; last_attempt = 0 }

given-kept : new_config parse_url given ≡ some provider.config
unfolding new_config completed trim_slashes trim_left_slashes address_is_bad eq_text
given-kept = refl

validate-IsVouched_example :
    (all_strong (validate provider (codes "t0ken") unloaded).1.keys ≡ true)
    × (((validate provider (codes "t0ken") unloaded).0 ≡ none)
        ⊎ ((principal : Principal) × ((validate provider (codes "t0ken") unloaded).0
              ≡ some principal)
            × IsVouched provider
                (codes "t0ken")
                principal
                (validate provider (codes "t0ken") unloaded).1))
unfolding all
validate-IsVouched_example =
    validate-IsVouched provider (codes "t0ken") unloaded parse_url given given-kept refl
      (omega arith)

-- The token is accepted once the keys are there.
first_accepted :
    (validate provider (codes "t0ken") unloaded).0 ≡ some (principal_of provider web_claims)
unfolding validate token_is_bad len check_header check_signed kid_is_bad identify key find_key
    reload refresh fetch_keys get read_body keys_at eq_text has_prefix accept add_keys bytes_value
    is_for_signing is_fresh is_strong public_key strong_key usable_keys
first_accepted = refl
