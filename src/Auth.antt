-- ===== src/Auth.antt =====
-- internal/adapters/auth/oidc.go: the keys of the identity provider, kept and fetched again, and
-- what a token's principal is. The parser of tokens, the check of a signature with the registered
-- claims, base64, JSON and the HTTP client are parameters.
pub mod Trusted
use jungle_wager_engine.Base.{
  ℕ, ◌+◌, ◌-◌, ◌*◌, ◌%◌, ◌^◌, Bool, true, false, ◌&&◌, ◌||◌, not, Option, none, some, List, [], ◌∷◌,
  ◌++◌, Text, codes, is_empty, eq_text, len, length, any, ltb, leb, ◌==◌, if◌then◌else◌, drop,
}
use mathlib.Core.List.{reverse}
use jungle_wager_engine.HttpApi.{has_prefix}
use jungle_wager_engine.HttpApi.Requests.{Principal, split_spaces, nonempty}

-- `jwt.Token`, as far as it is read before its signature: the key's identity where it is a text,
-- and whether the method is RS256.
pub record Header : Type 0 where
  pub kid : Option Text
  pub is_rs256 : Bool

-- `accessClaims`
pub record AccessClaims : Type 0 where
  pub subject : Text
  pub provider_id : Text
  pub scope : Text

-- `rsa.PublicKey`
pub record PublicKey : Type 0 where
  pub modulus : ℕ
  pub exponent : ℕ

-- A key of the provider's document.
pub record Jwk : Type 0 where
  pub kty : Text
  pub kid : Text
  pub use_ : Text
  pub alg : Text
  pub n : Text
  pub e : Text

pub record Discovery : Type 0 where
  pub issuer : Text
  pub jwks_uri : Text

-- `http.Response`, none where its body cannot be read.
pub record Response : Type 0 where
  pub status : ℕ
  pub body : Option (List ℕ)

pub record AuthConfig : Type 0 where
  pub issuer : Text
  pub fetch_issuer : Text
  pub audience : Text
  pub allow_insecure_http : Bool
  pub cache_ttl : ℕ

-- `url.URL`, as far as `New` reads it.
pub record Url : Type 0 where
  pub scheme : Text
  pub host : Text
  pub has_user : Bool
  pub raw_query : Text
  pub fragment : Text

unfoldable pub trim_left_slashes : Text → Text
trim_left_slashes [] = []
trim_left_slashes (c ∷ s) = let rest = trim_left_slashes s in if c == 47 then rest else c ∷ s

-- `strings.TrimRight(…, "/")`
unfoldable pub trim_slashes : Text → Text
trim_slashes s = reverse (trim_left_slashes (reverse s))

unfoldable pub address_is_bad : Bool → Option Url → Bool
address_is_bad insecure none = true
address_is_bad insecure (some u) =
    is_empty u.host
    || u.has_user
    || not (is_empty u.raw_query)
    || not (is_empty u.fragment)
    || (not (eq_text u.scheme (codes "https")) && not (insecure && eq_text u.scheme (codes "http")))

-- The configuration with the issuers and the lifetime of keys that `New` fills in.
unfoldable pub completed : AuthConfig → AuthConfig
completed c =
    let issuer = trim_slashes c.issuer in
    record c {
      issuer = issuer;
      fetch_issuer = trim_slashes (if is_empty c.fetch_issuer then issuer else c.fetch_issuer);
      cache_ttl = if c.cache_ttl == 0 then 300000000000 else c.cache_ttl;
    }

-- `New`, for the configuration that the verifier keeps: none is an error.
unfoldable pub new_config : (Text → Option Url) → AuthConfig → Option AuthConfig
new_config parse c =
    let c' = completed c in
    if is_empty c.audience
    then none
    else if address_is_bad c.allow_insecure_http (parse c'.issuer)
    then none
    else if address_is_bad c.allow_insecure_http (parse c'.fetch_issuer)
    then none
    else if ltb c'.cache_ttl 1000000000
    then none
    else some c'

-- The calls of libraries, and the time at which `Validate` is called and at which the provider has
-- answered, in nanoseconds.
pub record Provider : Type 0 where
  pub config : AuthConfig
  pub read_header : Text → Option Header
  pub read_claims : PublicKey → Text → Option AccessClaims
  pub send : Text → Option Response
  pub read_discovery : List ℕ → Option Discovery
  pub read_keys : List ℕ → Option (List Jwk)
  pub base64 : Text → Option (List ℕ)
  pub now : ℕ
  pub answered : ℕ

-- `Verifier`: what it keeps between calls.
pub record Verifier : Type 0 where
  pub keys : List (Text × PublicKey)
  pub loaded_at : ℕ
  pub last_attempt : ℕ

-- `v.keys[kid]`
unfoldable pub find_key : Text → List (Text × PublicKey) → Option PublicKey
find_key kid [] = none
find_key kid ((name, k) ∷ keys) =
    let rest = find_key kid keys in if eq_text kid name then some k else rest

-- `new(big.Int).SetBytes`, after the bytes that make `n`
unfoldable pub bytes_value : ℕ → List ℕ → ℕ
bytes_value n [] = n
bytes_value n (b ∷ s) = bytes_value (n * 256 + b) s

unfoldable pub is_for_signing : Jwk → Bool
is_for_signing k =
    eq_text k.kty (codes "RSA")
    && not (is_empty k.kid)
    && (is_empty k.use_ || eq_text k.use_ (codes "sig"))
    && (is_empty k.alg || eq_text k.alg (codes "RS256"))

-- An odd exponent from 3 to 2147483647 and at least 2048 bits of modulus.
unfoldable pub is_strong : PublicKey → Bool
is_strong k =
    not (ltb k.exponent 3)
    && not (ltb 2147483647 k.exponent)
    && not (k.exponent % 2 == 0)
    && not (ltb k.modulus (2 ^ 2047))

unfoldable pub strong_key : List ℕ → List ℕ → Option PublicKey
strong_key n e =
    let k : PublicKey = record { modulus = bytes_value 0 n; exponent = bytes_value 0 e } in
    if length e == 0 || ltb 4 (length e) then none else if is_strong k then some k else none

module _ (base64 : Text → Option (List ℕ)) where
  -- The key that an element of the document makes, none where the loop passes it over.
  unfoldable pub public_key : Jwk → Option PublicKey
  public_key k = if not (is_for_signing k) then none else elim (base64 k.n) [
    | none ↦ none
    | some n ↦ elim (base64 k.e) [ none ↦ none | some e ↦ strong_key n e ]
  ]

  -- The loop over the document, none where a key's identity is there twice.
  unfoldable pub add_keys : List (Text × PublicKey) → List Jwk → Option (List (Text × PublicKey))
  add_keys keys [] = some keys
  add_keys keys (k ∷ set) = elim (public_key k) [
    | none ↦ add_keys keys set
    | some key ↦ elim (find_key k.kid keys) [
      | none ↦ add_keys ((k.kid, key) ∷ keys) set
      | some _ ↦ none
    ]
  ]

-- `len(keys) == 0`
unfoldable pub usable_keys : Option (List (Text × PublicKey)) → Option (List (Text × PublicKey))
usable_keys (some (k ∷ keys)) = some (k ∷ keys)
usable_keys _ = none

unfoldable pub read_body : {A : Type 0} → (List ℕ → Option A) → Option (List ℕ) → Option A
read_body unmarshal none = none
read_body unmarshal (some body) = if ltb 1048576 (length body) then none else unmarshal body

module _ (p : Provider) where
  -- `get`
  unfoldable pub get : {A : Type 0} → (List ℕ → Option A) → Text → Option A
  get unmarshal address = elim (p.send address) [
    | none ↦ none
    | some response ↦ if response.status == 200 then read_body unmarshal response.body else none
  ]

  -- The keys at the location that the discovery document names.
  unfoldable pub keys_at : Discovery → Option (List (Text × PublicKey))
  keys_at d =
      if not (eq_text d.issuer p.config.issuer)
      then none
      else if not (has_prefix d.jwks_uri (p.config.issuer ++ codes "/"))
      then none
      else elim (get p.read_keys
          (p.config.fetch_issuer ++ drop (length p.config.issuer) d.jwks_uri)) [
            | none ↦ none
            | some set ↦ usable_keys (add_keys p.base64 [] set)
          ]

  unfoldable pub fetch_keys : Option (List (Text × PublicKey))
  fetch_keys =
      elim (get p.read_discovery
        (p.config.fetch_issuer ++ codes "/.well-known/openid-configuration")) [
          | none ↦ none
          | some d ↦ keys_at d
        ]

  -- `refresh`, and whether it has succeeded
  unfoldable pub refresh : Verifier → Bool × Verifier
  refresh v = elim fetch_keys [
    | none ↦ (false, record v { last_attempt = p.now })
    | some keys ↦ (true, record { keys = keys; loaded_at = p.answered; last_attempt = p.now })
  ]

  -- `time.Since(v.loadedAt) < v.config.CacheTTL`
  unfoldable pub is_fresh : Verifier → Bool
  is_fresh v = ltb (p.now - v.loaded_at) p.config.cache_ttl

  unfoldable pub reload : Text → Verifier → Option PublicKey × Verifier
  reload kid v =
      if ltb (p.now - v.last_attempt) 1000000000
      then (none, v)
      else let (good, v') = refresh v in (if good then find_key kid v'.keys else none, v')

  -- `key`
  unfoldable pub key : Text → Verifier → Option PublicKey × Verifier
  key kid v = elim (find_key kid v.keys) [
    | none ↦ reload kid v
    | some k ↦ if is_fresh v then (some k, v) else reload kid v
  ]

  -- `len(raw) == 0 || len(raw) > 8192`
  unfoldable pub token_is_bad : Text → Bool
  token_is_bad raw = len raw == 0 || ltb 8192 (len raw)

  -- The test of the key function, without the key.
  unfoldable pub kid_is_bad : Header → Text → Bool
  kid_is_bad h kid = is_empty kid || ltb 256 (len kid) || not h.is_rs256

  unfoldable pub principal_of : AccessClaims → Principal
  principal_of c = record {
    subject = c.subject;
    provider_id = c.provider_id;
    has_scope = λ scope. any (eq_text scope) (nonempty (split_spaces c.scope));
  }

  unfoldable pub accept : Option AccessClaims → Option Principal
  accept none = none
  accept (some c) = if is_empty c.subject then none else some (principal_of c)

  unfoldable pub identify : Text → Option PublicKey → Option Principal
  identify raw none = none
  identify raw (some k) = accept (p.read_claims k raw)

  -- The key function and what follows it, for a token with a key's identity.
  unfoldable pub check_signed : Text → Header → Text → Verifier → Option Principal × Verifier
  check_signed raw h kid v =
      if kid_is_bad h kid then (none, v) else let (k, v') = key kid v in (identify raw k, v')

  unfoldable pub check_header : Text → Option Header → Verifier → Option Principal × Verifier
  check_header raw none v = (none, v)
  check_header raw (some h) v = elim h.kid [
    | none ↦ (none, v)
    | some kid ↦ check_signed raw h kid v
  ]

  -- `Validate`
  unfoldable pub validate : Text → Verifier → Option Principal × Verifier
  validate raw v = if token_is_bad raw then (none, v) else check_header raw (p.read_header raw) v
