-- ===== src/Config.antt =====
-- internal/platform/config/config.go: the settings of a process, read from its environment.
-- Durations are in nanoseconds. `os.Getenv`, the host's name with the process's number, and the
-- parsers of the packages strconv and time are parameters. The source ranges over a map, in no
-- fixed order; the order here is the one in which the map is written.
pub mod Bounds
use jungle_wager_engine.Base.{
  ℕ, ◌+◌, ◌*◌, ◌%◌, Bool, true, false, ◌||◌, ◌&&◌, not, Option, none, some, List, [], ◌∷◌, Text,
  codes, is_empty, eq_text, trim_space, any, ◌==◌, if◌then◌else◌, ℤ, pos, negsuc, ◌+ℤ◌, add64,
  ltb_ℤ, leb_ℤ,
}

-- `application.MaxOutboxBatch`
abbrev pub max_outbox_batch : ℕ
max_outbox_batch = 100

pub record Config : Type 0 where
  pub database_url : Text
  pub http_addr : Text
  pub instance_id : Text
  pub oidc_issuer : Text
  pub oidc_fetch_issuer : Text
  pub oidc_audience : Text
  pub oidc_allow_http : Bool
  pub aws_region : Text
  pub sqs_endpoint : Text
  pub input_queue : Text
  pub output_queue : Text
  pub input_dlq : Text
  pub output_dlq : Text
  pub trusted_providers : List Text
  pub concurrency : ℤ
  pub publish_batch : ℤ
  pub max_conns : ℤ
  pub process_timeout : ℤ
  pub visibility_timeout : ℤ
  pub shutdown_timeout : ℤ
  pub lease : ℤ
  pub poll_interval : ℤ
  pub reference_ttl : ℤ
  pub reference_max_attempts : ℤ

pub data ConfigError : Type 0 where
  no_hostname : ConfigError
  unreadable : Text → ConfigError  -- a variable that does not parse
  required : ConfigError
  worker_bounds : ConfigError
  batch_bounds : ConfigError
  connection_bounds : ConfigError
  deadlines : ConfigError
  visibility : ConfigError
  providers : ConfigError

pub data Loaded (A : Type 0) : Type 0 where
  refused : ConfigError → Loaded A
  loaded : A → Loaded A

infixl 5 ◌>>=◌ ◌>>◌
unfoldable pub ◌>>=◌ : {A B : Type 0} → Loaded A → (A → Loaded B) → Loaded B
refused e >>= next = refused e
loaded a >>= next = next a

abbrev pub ◌>>◌ : {B : Type 0} → Loaded (Unit {0}) → Loaded B → Loaded B
checked >> rest = checked >>= λ _. rest

unfoldable pub unless : Bool → ConfigError → Loaded (Unit {0})
unless true e = refused e
unless false e = loaded tt

-- What the process reads of its surroundings.
pub record Surroundings : Type 0 where
  pub getenv : Text → Text
  pub instance_name : Option Text  -- the host's name and the process's number
  pub atoi : Text → Option ℤ
  pub parse_bool : Text → Option Bool
  pub parse_duration : Text → Option ℤ

-- Whole seconds, in nanoseconds.
abbrev pub seconds : ℕ → ℤ
seconds n = pos (n * 1000000000)

-- `strings.Split(s, ",")`
unfoldable pub split_commas : Text → List Text
split_commas [] = [] ∷ []
split_commas (c ∷ s) =
    let rest = split_commas s in
    if c == 44 then [] ∷ rest else elim rest [ [] ↦ (c ∷ []) ∷ [] | p ∷ ps ↦ (c ∷ p) ∷ ps ]

-- `d % time.Second != 0`
abbrev is_fractional : ℤ → Bool
is_fractional (pos n) = not (n % 1000000000 == 0)
is_fractional (negsuc n) = not ((n + 1) % 1000000000 == 0)

abbrev is_padded : Text → Bool
is_padded p = is_empty p || not (eq_text (trim_space p) p)

unfoldable pub workers_are_bad : Config → Bool
workers_are_bad c =
    ltb_ℤ c.concurrency (pos 1)
    || ltb_ℤ (pos 10) c.concurrency
    || ltb_ℤ c.reference_max_attempts (pos 1)
    || leb_ℤ c.process_timeout (pos 0)
    || leb_ℤ c.poll_interval (pos 0)
    || leb_ℤ c.reference_ttl (pos 0)

-- Durations are int64, and their sum wraps.
unfoldable pub deadlines_are_bad : Config → Bool
deadlines_are_bad c =
    leb_ℤ c.visibility_timeout (add64 c.process_timeout (seconds 10))
    || leb_ℤ c.visibility_timeout c.shutdown_timeout
    || leb_ℤ c.shutdown_timeout c.process_timeout
    || ltb_ℤ c.lease (add64 c.process_timeout (seconds 10))

-- The checks at the end of `Load`.
unfoldable pub check_config : Config → Loaded Config
check_config c = do
  unless (is_empty c.database_url || is_empty c.oidc_issuer) required
  unless (workers_are_bad c) worker_bounds
  unless (ltb_ℤ c.publish_batch (pos 1) || ltb_ℤ (pos max_outbox_batch) c.publish_batch)
      batch_bounds
  unless (ltb_ℤ c.max_conns (pos 2) || ltb_ℤ (pos 50) c.max_conns) connection_bounds
  unless (deadlines_are_bad c) deadlines
  unless (is_fractional c.visibility_timeout || ltb_ℤ (seconds 43200) c.visibility_timeout)
      visibility
  unless (any is_padded c.trusted_providers) providers
  loaded c

-- A variable that is set and parses replaces the default.
unfoldable pub override : {A : Type 0} → Text → Text → (Text → Option A) → A → Loaded A
override key raw parse default =
    if is_empty raw
    then loaded default
    else elim (parse raw) [ none ↦ refused (unreadable key) | some a ↦ loaded a ]

module _ (sur : Surroundings) where
  -- `env`
  unfoldable pub env_or : Text → Text → Text
  env_or key fallback = if is_empty (sur.getenv key) then fallback else sur.getenv key

  unfoldable pub int_or : Text → ℕ → Loaded ℤ
  int_or key default = override key (sur.getenv key) sur.atoi (pos default)

  unfoldable pub duration_or : Text → ℕ → Loaded ℤ
  duration_or key default = override key (sur.getenv key) sur.parse_duration (seconds default)

  abbrev named : Loaded Text
  named = elim sur.instance_name [ none ↦ refused no_hostname | some name ↦ loaded name ]

  -- `Load`
  unfoldable pub load : Loaded Config
  load = do
    name ← named
    allow ←
        override (codes "OIDC_ALLOW_INSECURE_HTTP") (sur.getenv (codes "OIDC_ALLOW_INSECURE_HTTP"))
          sur.parse_bool false
    concurrency ← int_or (codes "WORKER_CONCURRENCY") 4
    batch ← int_or (codes "OUTBOX_PUBLISH_BATCH") 100
    conns ← int_or (codes "DB_MAX_CONNS") 20
    attempts ← int_or (codes "REFERENCE_MAX_ATTEMPTS") 12
    process ← duration_or (codes "PROCESS_TIMEOUT") 30
    visible ← duration_or (codes "SQS_VISIBILITY_TIMEOUT") 60
    shutdown ← duration_or (codes "SHUTDOWN_TIMEOUT") 45
    lease ← duration_or (codes "CLAIM_LEASE") 60
    poll ← duration_or (codes "POLL_INTERVAL") 1
    ttl ← duration_or (codes "REFERENCE_TTL") 86400
    check_config (record {
      database_url = sur.getenv (codes "DATABASE_URL");
      http_addr = env_or (codes "HTTP_ADDR") (codes ":8080");
      instance_id = env_or (codes "INSTANCE_ID") name;
      oidc_issuer = sur.getenv (codes "OIDC_ISSUER");
      oidc_fetch_issuer = sur.getenv (codes "OIDC_FETCH_ISSUER");
      oidc_audience = env_or (codes "OIDC_AUDIENCE") (codes "jungle-api");
      oidc_allow_http = allow;
      aws_region = env_or (codes "AWS_REGION") (codes "us-east-1");
      sqs_endpoint = sur.getenv (codes "SQS_ENDPOINT");
      input_queue = env_or (codes "SQS_INPUT_QUEUE") (codes "wager-transactions.fifo");
      output_queue = env_or (codes "SQS_OUTPUT_QUEUE") (codes "wager-events.fifo");
      input_dlq = env_or (codes "SQS_INPUT_DLQ") (codes "wager-transactions-dlq.fifo");
      output_dlq = env_or (codes "SQS_OUTPUT_DLQ") (codes "wager-events-dlq.fifo");
      trusted_providers =
          split_commas (env_or (codes "SQS_TRUSTED_PROVIDERS") (codes "provider-a,provider-b"));
      concurrency = concurrency;
      publish_batch = batch;
      max_conns = conns;
      process_timeout = process;
      visibility_timeout = visible;
      shutdown_timeout = shutdown;
      lease = lease;
      poll_interval = poll;
      reference_ttl = ttl;
      reference_max_attempts = attempts;
    })
