-- ===== src/Config/Validate/Accepted.antt =====
-- What holds of a configuration that Validate accepts.
use imapped.Base.{
  ℕ, ◌≤◌, ◌<◌, ◌≡◌, refl, sym, ◌∙◌, subst, Bool, true, false, not, ◌&&◌, ◌||◌, List, [], ◌∷◌, ◌++◌,
  ◌⊎◌, inl, inr, map, concat, is_empty, length, All, arith, ltb, select,
}
use imapped.Base.Int64
use imapped.Base.Int64.{two63, two64}
use imapped.Base.Text
use imapped.Base.Text.{Text, codes}
use imapped.Config.Validate.{
  Storage, Sync, Config, Platform, problem, is_production, use_s3, raise, storage_checks,
  sync_checks, is_endless, reports, s3_fields, example_master_key, timeouts, check_storage,
  check_key, check_sync, check_timeouts, validate,
}

nil-append : {A : Type 0} (xs ys : List A) → xs ++ ys ≡ [] → (xs ≡ []) × (ys ≡ [])
nil-append [] ys h = (refl, h)
nil-append (x ∷ xs) ys h = cc

nil-concat : {A : Type 0} (xss : List (List A)) → concat xss ≡ [] → All (λ xs. xs ≡ []) xss
nil-concat [] h = tt
nil-concat (xs ∷ xss) h = let r = nil-append xs (concat xss) h in (r.0, nil-concat xss r.1)

problem-nil : (b : Bool) (name : Text) → problem b name ≡ [] → b ≡ false
unfolding problem
problem-nil true name h = cc
problem-nil false name h = refl

-- An int64 that is at least 1.
abbrev pub IsPositive : ℕ → Type 0
IsPositive n = (0 < n) × (n < two63)

not_lt_one : (n : ℕ) → n < two64 → Int64.lt n 1 ≡ false → IsPositive n
unfolding Int64.lt
not_lt_one n r h = ground arith

not_le_zero : (n : ℕ) → n < two64 → Int64.le n 0 ≡ false → IsPositive n
unfolding Int64.le
not_le_zero n r h = ground arith

not_le-lt : (a b : ℕ) → a < two63 → b < two63 → Int64.le a b ≡ false → b < a
unfolding Int64.le
not_le-lt a b p q h = ground arith

-- The object store: S3 with all of its settings, or a local path with none of them.
abbrev pub StorageFits : Storage → Bool → Type 0
StorageFits s s3 =
    ((s3 ≡ true) × All (λ v. is_empty v ≡ false) (s3_fields s))
    ⊎ ((s3 ≡ false) × All (λ v. is_empty v ≡ true) (s3_fields s) × (is_empty s.path ≡ false))

raise-nil : (checks : List (Bool × Text)) → raise checks ≡ [] → All (λ k. k.0 ≡ false) checks
unfolding raise
raise-nil [] h = tt
raise-nil ((true, name) ∷ checks) h = cc
raise-nil ((false, name) ∷ checks) h = (refl, raise-nil checks h)

-- Four settings of which not some are set and some missing: all or none.
complete_or_empty :
    (a b c d p : Text)
    → let values = a ∷ b ∷ c ∷ d ∷ [] in
      (not (is_empty (select (λ v. not (is_empty v)) values))
          && not (is_empty (select is_empty values)))
        ≡ false
      → (is_empty (select (λ v. not (is_empty v)) values) && is_empty p) ≡ false
      → ((not (is_empty b) && not (is_empty a)) ≡ true) × All (λ v. is_empty v ≡ false) values
        ⊎ ((not (is_empty b) && not (is_empty a)) ≡ false)
          × All (λ v. is_empty v ≡ true) values
          × (is_empty p ≡ false)
complete_or_empty [] [] [] [] p h k = inr (refl, (refl, (refl, (refl, (refl, tt)))), k)
complete_or_empty (w ∷ a) (x ∷ b) (y ∷ c) (z ∷ d) p h k =
    inl (refl, (refl, (refl, (refl, (refl, tt)))))
complete_or_empty a b c d p h k = cc

check_storage-fits : (c : Config) → check_storage c.storage ≡ [] → StorageFits c.storage (use_s3 c)
unfolding check_storage use_s3
check_storage-fits c h =
    let s = c.storage in
    let r = raise-nil (storage_checks s) h in
    complete_or_empty s.s3_endpoint s.s3_bucket s.s3_access_key_id s.s3_secret_key s.path r.0 r.1.0

times-IsPositive :
    (ts : List (Text × ℕ))
    → All (λ t. t.1 < two64) ts
    → All (λ k. k.0 ≡ false) (map is_endless ts)
    → All (λ t. IsPositive t.1) ts
times-IsPositive [] r h = tt
times-IsPositive ((name, d) ∷ ts) r h = (not_le_zero d r.0 h.0, times-IsPositive ts r.1 h.1)

-- The counts and sizes that the syncer works with, and the heartbeat.
pub record SyncFits (s : Sync) : Type 0 where
  pub accounts : IsPositive s.accounts_concurrent
  pub connections : (0 < s.connections_per_account) × (s.connections_per_account ≤ 16)
  pub metadata_batch : IsPositive s.metadata_batch_messages
  pub batch_messages : IsPositive s.body_batch_max_msgs
  pub batch_bytes : IsPositive s.body_batch_bytes
  pub attempts : IsPositive s.body_max_attempts

-- The numbers are int64 values.
pub record IsTyped (c : Config) : Type 0 where
  pub times : All (λ t. t.1 < two64) (timeouts c)
  pub accounts : c.sync.accounts_concurrent < two64
  pub connections : c.sync.connections_per_account < two64
  pub metadata_batch : c.sync.metadata_batch_messages < two64
  pub batch_messages : c.sync.body_batch_max_msgs < two64
  pub batch_bytes : c.sync.body_batch_bytes < two64
  pub attempts : c.sync.body_max_attempts < two64

connections-fit : (n : ℕ) → n < two64 → (Int64.lt n 1 || Int64.lt 16 n) ≡ false → (0 < n) × (n ≤ 16)
unfolding Int64.lt
connections-fit n r h = ground arith

check_sync-fits : (c : Config) → IsTyped c → check_sync c.sync ≡ [] → SyncFits c.sync
unfolding check_sync
check_sync-fits c t h =
    let r = raise-nil (sync_checks c.sync) h in
    record {
      accounts = not_lt_one c.sync.accounts_concurrent t.accounts r.0;
      connections = connections-fit c.sync.connections_per_account t.connections r.1.0;
      metadata_batch = not_lt_one c.sync.metadata_batch_messages t.metadata_batch r.1.1.0;
      batch_messages = not_lt_one c.sync.body_batch_max_msgs t.batch_messages r.1.1.1.0;
      batch_bytes = not_lt_one c.sync.body_batch_bytes t.batch_bytes r.1.1.1.1.0;
      attempts = not_lt_one c.sync.body_max_attempts t.attempts r.1.1.1.1.1.0;
    }

-- In production the key is long enough and not the published one, and certificates are checked.
abbrev pub IsSecret : Config → Type 0
IsSecret c =
    is_production c ≡ true
    → (32 ≤ length c.encryption_master_key)
      × (Text.same c.encryption_master_key example_master_key ≡ false)
      × (c.upstream.insecure_skip_verify ≡ false)

check_key-secret :
    (key : Text)
    → check_key true key ≡ []
    → (32 ≤ length key) × (Text.same key example_master_key ≡ false)
unfolding check_key problem
check_key-secret [] h = cc
check_key-secret (k ∷ key) h =
    let e =
      problem-nil (ltb (length (k ∷ key)) 32 || Text.same (k ∷ key) example_master_key && true)
        (codes "encryption_master_key") h in
    ground arith

heartbeat-lt :
    (beat run : ℕ)
    → IsPositive beat
    → IsPositive run
    → (Int64.lt 0 beat && Int64.lt 0 run && Int64.le run beat) ≡ false
    → beat < run
unfolding Int64.lt Int64.le
heartbeat-lt beat run p q h = ground arith

verified : (a b : Bool) → (a && b) ≡ false → b ≡ true → a ≡ false
verified true b h e = sym e ∙ h
verified false b h e = refl

pub record Accepted (c : Config) : Type 0 where
  pub storage : StorageFits c.storage (use_s3 c)
  pub times : All (λ t. IsPositive t.1) (timeouts c)
  pub heartbeat : c.sync.heartbeat_interval < c.sync.max_run_duration
  pub sync : SyncFits c.sync
  pub secret : IsSecret c

-- A configuration that Validate accepts keeps bodies in S3 with all of its settings or under a local
-- path with none of them; each of the eleven durations that it checks (of the upstream connection, of
-- a run, its heartbeat and its claims, and of the connection to the database) is positive, and the
-- heartbeat comes sooner than the end of a run; the counts of the syncer are at least one, with at most sixteen connections; and in
-- production the master key has 32 bytes, is not the example, and certificates are checked.
pub validate-Accepted :
    (platform : Platform) (c : Config) → IsTyped c → validate platform c ≡ [] → Accepted c
unfolding validate check_timeouts check_sync
validate-Accepted platform c t h =
    let r = nil-concat (reports platform c) h in
    let times =
      times-IsPositive (timeouts c) t.times
        (raise-nil (map is_endless (timeouts c)) r.1.1.1.1.1.1.1.0) in
    record {
      storage = check_storage-fits c r.1.1.1.1.1.0;
      times = times;
      heartbeat =
          heartbeat-lt c.sync.heartbeat_interval c.sync.max_run_duration times.1.1.1.1.1.1.1.1.1.0
            times.1.1.1.1.1.1.1.0
            (raise-nil (sync_checks c.sync) r.1.1.1.1.1.1.1.1.0).1.1.1.1.1.1.1.1.0;
      sync = check_sync-fits c t r.1.1.1.1.1.1.1.1.0;
      secret = λ prod.
          let key =
            check_key-secret c.encryption_master_key
              (subst (λ b. check_key b c.encryption_master_key ≡ []) prod r.1.1.0) in
          (
            key.0,
            key.1,
            verified c.upstream.insecure_skip_verify (is_production c)
                (problem-nil (c.upstream.insecure_skip_verify && is_production c)
                  (codes "upstream.insecure_skip_verify") r.1.1.1.1.1.1.0)
                prod,
          );
    }
