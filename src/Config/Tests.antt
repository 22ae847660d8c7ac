-- ===== src/Config/Tests.antt =====
-- The default configuration with a database, one that is refused, and an instance of the theorem.
use imapped.Base.{◌*◌, ◌^◌, ◌≡◌, refl, true, false, some, List, [], ◌∷◌, arith}
use imapped.Base.Int64
use imapped.Base.Text
use imapped.Base.Text.{Text, codes}
use imapped.Config.Validate.{
  Storage, Config, Platform, second, default_upstream, default_sync, validate, raise, validate_bind,
  check_names, check_db, check_key, check_listeners, check_tls, check_storage, check_timeouts,
  check_sync, check_retry, check_limits, check_web, problem, is_production,
}
use imapped.Upstream.Errors.{ok}
use imapped.Config.Load.{
  Dict, Fields, end, leaf, section, Knob, walk_fields, build_environment, env_vars_present,
  provenance, default, file, env, Reader, decoded, load,
}
use imapped.Config.Load.Provenance.{Distinct, AllDescribe, provenance-described}
use imapped.Config.Validate.Accepted.{IsTyped, Accepted, validate-Accepted}

-- Every address has a port, and no certificate is there.
abbrev platform : Platform
platform = record {
  split_host_port = λ t. some (codes "0.0.0.0", codes "1143");
  is_ip = λ t. true;
  has_file = λ t. false;
}

abbrev local_storage : Storage
local_storage = record {
  path = codes "./data/blob";
  s3_endpoint = [];
  s3_bucket = [];
  s3_access_key_id = [];
  s3_secret_key = [];
}

abbrev config : Config
config = record {
  app_env = codes "development";
  log_level = codes "info";
  log_format = codes "json";
  encryption_master_key = [];
  imap = record {
    plaintext_bind = codes "0.0.0.0:1143";
    tls_bind = [];
    tls_cert_path = [];
    tls_key_path = [];
  };
  http = record { bind = codes "0.0.0.0:8080"; metrics_bind = [] };
  db = record {
    url = codes "postgres://";
    max_conns = 20;
    min_conns = 2;
    connect_timeout = 10 * second;
  };
  storage = local_storage;
  upstream = default_upstream;
  sync = default_sync;
  web_enabled = true;
  web_session_ttl = 2592000 * second;
  search_backend = codes "postgres";
  search_max_indexed_body_bytes = 900000;
  max_message_size = 100 * 2 ^ 20;
  bootstrap_email = [];
  bootstrap_password = [];
}

default_accepted : validate platform config ≡ []
unfolding validate raise validate_bind check_names check_db check_key check_listeners check_tls
    check_storage check_timeouts check_sync check_retry check_limits check_web problem is_production
    Text.same Text.to_lower Int64.lt Int64.le
default_accepted = refl

-- Two settings of S3 out of four, and a certificate that is not there.
abbrev half_configured : Config
half_configured = record config {
  storage = record local_storage { s3_bucket = codes "b"; s3_endpoint = codes "e" };
  imap = record {
    plaintext_bind = [];
    tls_bind = codes ":993";
    tls_cert_path = codes "c";
    tls_key_path = codes "k";
  };
}

both_refused :
    validate platform half_configured
    ≡ codes "imap.tls_cert_path" ∷ codes "imap.tls_key_path" ∷ codes "storage" ∷ []
unfolding validate raise validate_bind check_names check_db check_key check_listeners check_tls
    check_storage check_timeouts check_sync check_retry check_limits check_web problem is_production
    Text.same Text.to_lower Int64.lt Int64.le
both_refused = refl

config-IsTyped : IsTyped config
config-IsTyped = record {
  times = omega arith;
  accounts = omega arith;
  connections = omega arith;
  metadata_batch = omega arith;
  batch_messages = omega arith;
  batch_bytes = omega arith;
  attempts = omega arith;
}

validate-Accepted_example : Accepted config
validate-Accepted_example = validate-Accepted platform config config-IsTyped default_accepted

-- Three fields; the file sets the first two, and the deprecated name of the second one is set too.
abbrev fields : Fields
fields = leaf (codes "app_env") (codes "APP_ENV") (
    section (codes "storage") []
      (leaf (codes "s3_bucket") (codes "S3_BUCKET,required")
        (leaf (codes "path") (codes "OBJECT_STORE_PATH") end))
      end)

abbrev reader : Reader Unit
reader = record {
  has_file = λ path. Text.same path (codes "/etc/imapped/config.toml");
  decode_file = λ path c. decoded c (codes "app_env" ∷ codes "storage.s3_bucket" ∷ []);
  parse_env = λ environ c. ok c;
}

abbrev entries : List Text
entries = codes "HOME=/root" ∷ codes "R2_BUCKET=mail" ∷ []

loads :
    load reader fields tt [] [] entries
    ≡ ok (record {
      config = tt;
      fields =
          (record {
            toml_path = codes "app_env";
            env_var = codes "APP_ENV";
            source = file;
            secret = false;
          })
          ∷ (record {
            toml_path = codes "storage.s3_bucket";
            env_var = codes "R2_BUCKET";
            source = env;
            secret = false;
          })
          ∷ (record {
            toml_path = codes "storage.path";
            env_var = codes "OBJECT_STORE_PATH";
            source = default;
            secret = false;
          })
          ∷ [];
      file_path = codes "/etc/imapped/config.toml";
      file_loaded = true;
    })
unfolding load Text.same
loads = refl

abbrev knobs : List Knob
knobs = walk_fields [] fields

abbrev environment : Dict × Dict
environment = build_environment entries

knobs-Distinct : Distinct knobs
unfolding walk_fields Text.same
knobs-Distinct = ((refl, (refl, tt)), ((refl, tt), (tt, tt)))

provenance-described_example :
    AllDescribe [] environment.0 environment.1 knobs
      (provenance [] (env_vars_present environment.0 environment.1 knobs []) knobs)
provenance-described_example =
    provenance-described environment.0 environment.1 [] knobs knobs-Distinct
