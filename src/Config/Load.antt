-- ===== src/Config/Load.antt =====
-- internal/config/load.go: defaults, then a file, then the environment, and where each value came
-- from. Decoding TOML, parsing the environment into the structure and rendering a value are
-- parameters; the tags of the structure, which the code reads by reflection, are the type Fields.
pub mod Provenance
use imapped.Base.{
  ℕ, Bool, true, false, not, ◌&&◌, ◌||◌, Option, none, some, List, [], ◌∷◌, ◌++◌, any, is_empty,
  map, ◌==◌, leb, if◌then◌else◌, reverse, ◌-◌,
}
use imapped.Base.Text
use imapped.Base.Text.{Text, codes}
use imapped.Upstream.Errors.{Error, wrap, Result, ok, err}

-- A Go map keyed by strings: the first pair of a key counts.
abbrev pub Dict : Type 0
Dict = List (Text × Text)

unfoldable pub value_of : Text → Dict → Option Text
value_of k [] = none
value_of k ((j, v) ∷ d) = if Text.same j k then some v else value_of k d

-- strings.Cut(entry, "=")
unfoldable pub cut_equals : Text → Option (Text × Text)
cut_equals [] = none
cut_equals (c ∷ s) =
    let rest = cut_equals s in
    if c == b'=' then some ([], s) else elim rest [ none ↦ none | some (k, v) ↦ some (c ∷ k, v) ]

-- The read_entries of the process environment: a later entry overrides an earlier one.
unfoldable pub read_entries : List Text → Dict → Dict
unfolding cut_equals
read_entries [] d = d
read_entries (entry ∷ entries) d = elim (cut_equals entry) [
  | none ↦ read_entries entries d
  | some (k, v) ↦ read_entries entries ((k, v) ∷ d)
]

abbrev pub env_aliases : List (Text × List Text)
env_aliases =
    (codes "S3_ENDPOINT", codes "R2_ENDPOINT" ∷ [])
    ∷ (codes "S3_BUCKET", codes "R2_BUCKET" ∷ [])
    ∷ (codes "S3_ACCESS_KEY_ID", codes "R2_ACCESS_KEY_ID" ∷ [])
    ∷ (codes "S3_SECRET_ACCESS_KEY", codes "R2_SECRET_ACCESS_KEY" ∷ [])
    ∷ (codes "S3_REGION", codes "R2_REGION" ∷ [])
    ∷ []

-- The first deprecated name that is set, with its value.
unfoldable pub first_set : List Text → Dict → Option (Text × Text)
unfolding value_of
first_set [] d = none
first_set (name ∷ names) d = elim (value_of name d) [
  | none ↦ first_set names d
  | some v ↦ some (name, v)
]

-- The loop over the aliases: the environment, and which alias stood in for a canonical name. No
-- canonical name is an alias, so the order of the loop has no effect.
unfoldable pub resolve_aliases : List (Text × List Text) → Dict × Dict → Dict × Dict
unfolding first_set value_of
resolve_aliases [] r = r
resolve_aliases ((canonical, legacy) ∷ aliases) (env, used) = elim (value_of canonical env) [
  | some v ↦ resolve_aliases aliases (env, used)
  | none ↦ elim (first_set legacy env) [
    | none ↦ resolve_aliases aliases (env, used)
    | some (name, v) ↦ resolve_aliases aliases ((canonical, v) ∷ env, (canonical, name) ∷ used)
  ]
]

unfoldable pub build_environment : List Text → Dict × Dict
unfolding read_entries resolve_aliases
build_environment entries = resolve_aliases env_aliases (read_entries entries [], [])

-- A structure's fields with their tags `toml` and `env`; a section is a structure itself.
pub data Fields : Type 0 where
  end : Fields
  leaf : Text → Text → Fields → Fields
  section : Text → Text → Fields → Fields → Fields

pub record Knob : Type 0 where
  pub path : Text
  pub env_vars : List Text

abbrev upper : ℕ → ℕ
upper c = if leb b'a' c && leb c b'z' then c - 32 else c

abbrev is_blank : ℕ → Bool
is_blank c = c == b' ' || c == 9 || c == 10 || c == 13

abbrev trim_start : Text → Text
trim_start [] = []
trim_start (c ∷ s) = if is_blank c then trim_start s else c ∷ s

abbrev trim_space : Text → Text
trim_space s = reverse (trim_start (reverse (trim_start s)))

-- strings.Split(s, ","), which gives at least one part.
unfoldable pub split_commas : Text → Text × List Text
split_commas [] = ([], [])
split_commas (c ∷ s) =
    let rest = split_commas s in if c == b',' then ([], rest.0 ∷ rest.1) else (c ∷ rest.0, rest.1)

-- The parts that are variables: option words are not in capitals.
unfoldable pub variables : List Text → List Text
variables [] = []
variables (part ∷ parts) =
    let name = trim_space part in
    let rest = variables parts in
    if is_empty name || not (Text.same (map upper name) name) then rest else name ∷ rest

unfoldable pub env_names : Text → List Text
unfolding variables split_commas
env_names tag = if is_empty tag then [] else variables ((split_commas tag).0 ∷ (split_commas tag).1)

abbrev is_skipped : Text → Bool
is_skipped tag = is_empty tag || Text.same tag (codes "-")

unfoldable pub path_of : Text → Text → Text
unfolding split_commas
path_of prefix tag =
    if is_empty prefix then (split_commas tag).0 else prefix ++ b'.' ∷ (split_commas tag).0

unfoldable pub walk_fields : Text → Fields → List Knob
unfolding path_of env_names
walk_fields prefix end = []
walk_fields prefix (leaf toml env rest) =
    let others = walk_fields prefix rest in
    if is_skipped toml
    then others
    else (record { path = path_of prefix toml; env_vars = env_names env }) ∷ others
walk_fields prefix (section toml env inner rest) =
    let others = walk_fields prefix rest in
    let below = walk_fields (path_of prefix toml) inner in
    if is_skipped toml
    then others
    else if is_empty env
    then below ++ others
    else (record { path = path_of prefix toml; env_vars = env_names env }) ∷ others

-- The variable that the operator set for a field, if any.
unfoldable pub set_variable : Dict → Dict → List Text → Option Text
unfolding value_of
set_variable environ used [] = none
set_variable environ used (name ∷ names) = elim (value_of name environ) [
  | none ↦ set_variable environ used names
  | some v ↦ elim (value_of name used) [ none ↦ some name | some alias ↦ some alias ]
]

unfoldable pub env_vars_present : Dict → Dict → List Knob → Dict → Dict
unfolding set_variable
env_vars_present environ used [] present = present
env_vars_present environ used (k ∷ knobs) present = elim (set_variable environ used k.env_vars) [
  | none ↦ env_vars_present environ used knobs present
  | some name ↦ env_vars_present environ used knobs ((k.path, name) ∷ present)
]

pub data Source : Type 0 where
  default file env : Source

-- A row of the settings page, without its rendered value.
pub record Field : Type 0 where
  pub toml_path : Text
  pub env_var : Text
  pub source : Source
  pub secret : Bool

abbrev pub secret_paths : List Text
secret_paths =
    codes "encryption_master_key"
    ∷ codes "db.url"
    ∷ codes "storage.s3_secret_access_key"
    ∷ codes "storage.s3_access_key_id"
    ∷ codes "bootstrap.password"
    ∷ []

abbrev pub contains : List Text → Text → Bool
contains names t = any (Text.same t) names

abbrev pub first_or_empty : List Text → Text
first_or_empty [] = []
first_or_empty (name ∷ names) = name

unfoldable pub field_of : List Text → Dict → Knob → Field
unfolding value_of
field_of file_keys env_set k = record {
  toml_path = k.path;
  env_var = elim (value_of k.path env_set) [ none ↦ first_or_empty k.env_vars | some name ↦ name ];
  source = elim (value_of k.path env_set) [
    | none ↦ if contains file_keys k.path then file else default
    | some name ↦ env
  ];
  secret = contains secret_paths k.path;
}

unfoldable pub provenance : List Text → Dict → List Knob → List Field
unfolding field_of
provenance file_keys env_set knobs = map (field_of file_keys env_set) knobs

-- What reading the file gave: os.IsNotExist, another error, or the keys that the file defines.
pub data Decoded (C : Type 0) : Type 0 where
  missing : Error → Decoded C
  broken : Error → Decoded C
  decoded : C → List Text → Decoded C

pub record Reader (C : Type 0) : Type 0 where
  pub has_file : Text → Bool
  pub decode_file : Text → C → Decoded C
  pub parse_env : Dict → C → Result C

-- `env_config` is the variable IMAPPED_CONFIG. The flag says that the file must be there.
unfoldable pub choose_path : (Text → Bool) → Text → Text → Text × Bool
choose_path has_file explicit env_config =
    if not (is_empty explicit)
    then (explicit, true)
    else if not (is_empty env_config)
    then (env_config, true)
    else if has_file (codes "./imapped.toml")
    then (codes "./imapped.toml", false)
    else if has_file (codes "/etc/imapped/config.toml")
    then (codes "/etc/imapped/config.toml", false)
    else ([], false)

pub record Loaded (C : Type 0) : Type 0 where
  pub config : C
  pub fields : List Field
  pub file_path : Text
  pub file_loaded : Bool

module _ {C : Type 0} (reader : Reader C) (fields : Fields) where
  -- The configuration behind the file, with the keys of the file if one was read.
  unfoldable pub read_file : Text → Bool → C → Result (C × Option (List Text))
  read_file path must_exist config =
      if is_empty path then ok (config, none) else elim (reader.decode_file path config) [
        | missing e ↦ if must_exist then err e else ok (config, none)
        | broken e ↦ err e
        | decoded c keys ↦ ok (c, some keys)
      ]

  abbrev pub keys_of : Option (List Text) → List Text
  keys_of none = []
  keys_of (some keys) = keys

  unfoldable pub finish_load : Text → List Text → C × Option (List Text) → Result (Loaded C)
  unfolding provenance env_vars_present walk_fields build_environment
  finish_load path entries (config, keys) =
      let e = build_environment entries in
      let knobs = walk_fields [] fields in
      elim (reader.parse_env e.0 config) [
        | err x ↦ err (wrap (codes "reading configuration from environment: ") x [])
        | ok c ↦ ok (record {
          config = c;
          fields = provenance (keys_of keys) (env_vars_present e.0 e.1 knobs []) knobs;
          file_path = elim keys [ none ↦ [] | some ks ↦ path ];
          file_loaded = elim keys [ none ↦ false | some ks ↦ true ];
        })
      ]

  unfoldable pub load : C → Text → Text → List Text → Result (Loaded C)
  unfolding choose_path read_file finish_load
  load defaults explicit env_config entries =
      let (path, must_exist) = choose_path reader.has_file explicit env_config in
      elim (read_file path must_exist defaults) [
        | err e ↦ err e
        | ok r ↦ finish_load path entries r
      ]
