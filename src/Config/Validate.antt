-- ===== src/Config/Validate.antt =====
-- internal/config/validate.go and the fields of config.go that it reads. Numbers, durations and
-- sizes are int64 values as bit patterns (an int32 with its sign extended). A problem is the name of
-- its setting; the wording of the messages is left out, and where the code ranges over a map the
-- problems stand in the order in which the map is written.
pub mod Accepted
use imapped.Base.{
  ℕ, ◌*◌, ◌^◌, Bool, true, false, not, ◌&&◌, ◌||◌, Option, none, some, List, [], ◌∷◌, any, concat,
  is_empty, length, ltb, ◌==◌, select, map, if◌then◌else◌,
}
use imapped.Base.Int64
use imapped.Base.Text
use imapped.Base.Text.{Text, codes}

pub record Imap : Type 0 where
  pub plaintext_bind : Text
  pub tls_bind : Text
  pub tls_cert_path : Text
  pub tls_key_path : Text

pub record Http : Type 0 where
  pub bind : Text
  pub metrics_bind : Text

pub record Db : Type 0 where
  pub url : Text
  pub max_conns : ℕ
  pub min_conns : ℕ
  pub connect_timeout : ℕ

pub record Storage : Type 0 where
  pub path : Text
  pub s3_endpoint : Text
  pub s3_bucket : Text
  pub s3_access_key_id : Text
  pub s3_secret_key : Text

pub record Upstream : Type 0 where
  pub dial_timeout : ℕ
  pub tls_handshake_timeout : ℕ
  pub greeting_timeout : ℕ
  pub io_idle_timeout : ℕ
  pub command_timeout : ℕ
  pub fetch_metadata_timeout : ℕ
  pub fetch_body_timeout : ℕ
  pub retry_max_attempts : ℕ
  pub retry_base_delay : ℕ
  pub retry_max_delay : ℕ
  pub insecure_skip_verify : Bool

pub record Sync : Type 0 where
  pub enabled : Bool
  pub interval : ℕ
  pub accounts_concurrent : ℕ
  pub connections_per_account : ℕ
  pub metadata_batch_messages : ℕ
  pub body_batch_bytes : ℕ
  pub body_batch_max_msgs : ℕ
  pub body_max_inline_bytes : ℕ
  pub body_max_attempts : ℕ
  pub deletion_scan_every : ℕ
  pub max_run_duration : ℕ
  pub claim_reap_after : ℕ
  pub heartbeat_interval : ℕ

pub record Config : Type 0 where
  pub app_env : Text
  pub log_level : Text
  pub log_format : Text
  pub encryption_master_key : Text
  pub imap : Imap
  pub http : Http
  pub db : Db
  pub storage : Storage
  pub upstream : Upstream
  pub sync : Sync
  pub web_enabled : Bool
  pub web_session_ttl : ℕ
  pub search_backend : Text
  pub search_max_indexed_body_bytes : ℕ
  pub max_message_size : ℕ
  pub bootstrap_email : Text
  pub bootstrap_password : Text

-- time.Second
abbrev pub second : ℕ
second = 1000000000

-- What Default sets for the upstream connection and for the syncer.
abbrev pub default_upstream : Upstream
default_upstream = record {
  dial_timeout = 10 * second;
  tls_handshake_timeout = 10 * second;
  greeting_timeout = 15 * second;
  io_idle_timeout = 60 * second;
  command_timeout = 30 * second;
  fetch_metadata_timeout = 600 * second;
  fetch_body_timeout = 600 * second;
  retry_max_attempts = 6;
  retry_base_delay = second;
  retry_max_delay = 300 * second;
  insecure_skip_verify = false;
}

abbrev pub default_sync : Sync
default_sync = record {
  enabled = true;
  interval = 900 * second;
  accounts_concurrent = 4;
  connections_per_account = 4;
  metadata_batch_messages = 500;
  body_batch_bytes = 4 * 2 ^ 20;
  body_batch_max_msgs = 50;
  body_max_inline_bytes = 32 * 2 ^ 20;
  body_max_attempts = 5;
  deletion_scan_every = 10;
  max_run_duration = 7200 * second;
  claim_reap_after = 900 * second;
  heartbeat_interval = 15 * second;
}

-- net.SplitHostPort, net.ParseIP and os.Stat.
pub record Platform : Type 0 where
  pub split_host_port : Text → Option (Text × Text)
  pub is_ip : Text → Bool
  pub has_file : Text → Bool

abbrev pub example_master_key : Text
example_master_key = codes "change-me-32-bytes-minimum-secret"

abbrev pub Problems : Type 0
Problems = List Text

-- `add`, under its condition.
unfoldable pub problem : Bool → Text → Problems
problem true name = name ∷ []
problem false name = []

-- A row of `if` statements, each with the problem that it adds.
unfoldable pub raise : List (Bool × Text) → Problems
raise [] = []
raise ((found, name) ∷ checks) = if found then name ∷ raise checks else raise checks

abbrev pub one_of : List Text → Text → Bool
one_of names t = any (Text.same t) names

-- IsProduction
unfoldable pub is_production : Config → Bool
is_production c = Text.same c.app_env (codes "production")

-- UseS3
unfoldable pub use_s3 : Config → Bool
use_s3 c = not (is_empty c.storage.s3_bucket) && not (is_empty c.storage.s3_endpoint)

abbrev pub names_checks : Config → List (Bool × Text)
names_checks c =
    (
      not (one_of (codes "development" ∷ codes "staging" ∷ codes "production" ∷ []) c.app_env),
      codes "app_env",
    )
    ∷ (
      not (
          one_of (codes "debug" ∷ codes "info" ∷ codes "warn" ∷ codes "error" ∷ [])
            (Text.to_lower c.log_level)),
      codes "log_level",
    )
    ∷ (
      not (one_of (codes "json" ∷ codes "text" ∷ []) (Text.to_lower c.log_format)),
      codes "log_format",
    )
    ∷ []

unfoldable pub check_names : Config → Problems
unfolding raise
check_names c = raise (names_checks c)

abbrev pub db_checks : Db → List (Bool × Text)
db_checks db =
    (is_empty db.url, codes "db.url")
    ∷ (Int64.lt db.max_conns 1, codes "db.max_conns")
    ∷ (Int64.lt db.min_conns 0 || Int64.lt db.max_conns db.min_conns, codes "db.min_conns")
    ∷ []

unfoldable pub check_db : Db → Problems
unfolding raise
check_db db = raise (db_checks db)

unfoldable pub check_key : Bool → Text → Problems
unfolding problem
check_key production key =
    if is_empty key
    then problem production (codes "encryption_master_key")
    else problem (ltb (length key) 32 || Text.same key example_master_key && production)
        (codes "encryption_master_key")

abbrev is_garbage : ℕ → Bool
is_garbage c = any (λ g. c == g) (b' ' ∷ 9 ∷ b'/' ∷ [])

unfoldable pub validate_bind : Platform → Text → Text → Problems
unfolding problem
validate_bind platform name value =
    if is_empty value then [] else elim (platform.split_host_port value) [
      | none ↦ name ∷ []
      | some (host, port) ↦
          problem
            (is_empty port
              || not (is_empty host) && not (platform.is_ip host) && any is_garbage host)
            name
    ]

unfoldable pub check_listeners : Platform → Imap → Http → Problems
unfolding problem validate_bind
check_listeners platform imap http = concat (
    validate_bind platform (codes "imap.plaintext_bind") imap.plaintext_bind
    ∷ validate_bind platform (codes "imap.tls_bind") imap.tls_bind
    ∷ validate_bind platform (codes "http.bind") http.bind
    ∷ validate_bind platform (codes "http.metrics_bind") http.metrics_bind
    ∷ problem (is_empty imap.plaintext_bind && is_empty imap.tls_bind && is_empty http.bind)
        (codes "listeners")
    ∷ [])

unfoldable pub check_tls : Platform → Imap → Problems
unfolding problem
check_tls platform imap =
    if is_empty imap.tls_bind
    then []
    else if is_empty imap.tls_cert_path || is_empty imap.tls_key_path
    then codes "imap.tls_bind" ∷ []
    else concat (
        problem (not (platform.has_file imap.tls_cert_path)) (codes "imap.tls_cert_path")
        ∷ problem (not (platform.has_file imap.tls_key_path)) (codes "imap.tls_key_path")
        ∷ [])

abbrev pub s3_fields : Storage → List Text
s3_fields s = s.s3_endpoint ∷ s.s3_bucket ∷ s.s3_access_key_id ∷ s.s3_secret_key ∷ []

abbrev pub storage_checks : Storage → List (Bool × Text)
storage_checks s =
    let set = select (λ v. not (is_empty v)) (s3_fields s) in
    let missing = select is_empty (s3_fields s) in
    (not (is_empty set) && not (is_empty missing), codes "storage")
    ∷ (is_empty set && is_empty s.path, codes "storage.path")
    ∷ []

unfoldable pub check_storage : Storage → Problems
unfolding raise
check_storage s = raise (storage_checks s)

abbrev pub timeouts : Config → List (Text × ℕ)
timeouts c =
    (codes "upstream.dial_timeout", c.upstream.dial_timeout)
    ∷ (codes "upstream.tls_handshake_timeout", c.upstream.tls_handshake_timeout)
    ∷ (codes "upstream.greeting_timeout", c.upstream.greeting_timeout)
    ∷ (codes "upstream.io_idle_timeout", c.upstream.io_idle_timeout)
    ∷ (codes "upstream.command_timeout", c.upstream.command_timeout)
    ∷ (codes "upstream.fetch_metadata_timeout", c.upstream.fetch_metadata_timeout)
    ∷ (codes "upstream.fetch_body_timeout", c.upstream.fetch_body_timeout)
    ∷ (codes "sync.max_run_duration", c.sync.max_run_duration)
    ∷ (codes "sync.claim_reap_after", c.sync.claim_reap_after)
    ∷ (codes "sync.heartbeat_interval", c.sync.heartbeat_interval)
    ∷ (codes "db.connect_timeout", c.db.connect_timeout)
    ∷ []

-- A timeout that is not greater than zero would wait for ever.
abbrev pub is_endless : Text × ℕ → Bool × Text
is_endless (name, d) = (Int64.le d 0, name)

unfoldable pub check_timeouts : Config → Problems
unfolding raise
check_timeouts c = raise (map is_endless (timeouts c))

abbrev pub sync_checks : Sync → List (Bool × Text)
sync_checks s =
    (Int64.lt s.accounts_concurrent 1, codes "sync.accounts_concurrent")
    ∷ (
      Int64.lt s.connections_per_account 1 || Int64.lt 16 s.connections_per_account,
      codes "sync.connections_per_account",
    )
    ∷ (Int64.lt s.metadata_batch_messages 1, codes "sync.metadata_batch_messages")
    ∷ (Int64.lt s.body_batch_max_msgs 1, codes "sync.body_batch_max_msgs")
    ∷ (Int64.lt s.body_batch_bytes 1, codes "sync.body_batch_bytes")
    ∷ (Int64.lt s.body_max_attempts 1, codes "sync.body_max_attempts")
    ∷ (Int64.lt s.deletion_scan_every 1, codes "sync.deletion_scan_every")
    ∷ (s.enabled && Int64.le s.interval 0, codes "sync.interval")
    ∷ (
      Int64.lt 0 s.heartbeat_interval
          && Int64.lt 0 s.max_run_duration
          && Int64.le s.max_run_duration s.heartbeat_interval,
      codes "sync.heartbeat_interval",
    )
    ∷ []

unfoldable pub check_sync : Sync → Problems
unfolding raise
check_sync s = raise (sync_checks s)

abbrev pub retry_checks : Upstream → List (Bool × Text)
retry_checks u =
    (Int64.lt u.retry_max_attempts 1, codes "upstream.retry_max_attempts")
    ∷ (Int64.lt u.retry_max_delay u.retry_base_delay, codes "upstream.retry_base_delay")
    ∷ []

unfoldable pub check_retry : Upstream → Problems
unfolding raise
check_retry u = raise (retry_checks u)

abbrev pub limits_checks : Config → List (Bool × Text)
limits_checks c =
    (Int64.lt c.max_message_size 1, codes "limits.max_message_size")
    ∷ (Int64.lt c.max_message_size c.sync.body_max_inline_bytes, codes "sync.body_max_inline_bytes")
    ∷ (not (Text.same c.search_backend (codes "postgres")), codes "search.backend")
    ∷ (Int64.lt c.search_max_indexed_body_bytes 1, codes "search.max_indexed_body_bytes")
    ∷ []

unfoldable pub check_limits : Config → Problems
unfolding raise
check_limits c = raise (limits_checks c)

abbrev pub web_checks : Config → List (Bool × Text)
web_checks c =
    (c.web_enabled && is_empty c.http.bind, codes "web.enabled")
    ∷ (Int64.le c.web_session_ttl 0, codes "web.session_ttl")
    ∷ (not (is_empty c.bootstrap_email) && is_empty c.bootstrap_password, codes "bootstrap.email")
    ∷ (
      not (is_empty c.bootstrap_password) && is_empty c.bootstrap_email,
      codes "bootstrap.password",
    )
    ∷ []

unfoldable pub check_web : Config → Problems
unfolding raise
check_web c = raise (web_checks c)

abbrev pub reports : Platform → Config → List Problems
reports platform c =
    check_names c
    ∷ check_db c.db
    ∷ check_key (is_production c) c.encryption_master_key
    ∷ check_listeners platform c.imap c.http
    ∷ check_tls platform c.imap
    ∷ check_storage c.storage
    ∷ problem (c.upstream.insecure_skip_verify && is_production c)
        (codes "upstream.insecure_skip_verify")
    ∷ check_timeouts c
    ∷ check_sync c.sync
    ∷ check_retry c.upstream
    ∷ check_limits c
    ∷ check_web c
    ∷ []

-- Every problem of the configuration, in the order of the checks; none is no error.
unfoldable pub validate : Platform → Config → Problems
validate platform c = concat (reports platform c)
