-- ===== src/Config/Load/Provenance.antt =====
-- Where each value came from.
use imapped.Base.{
  ◌≡◌, refl, ap, ◌∙◌, false, none, some, List, [], ◌∷◌, map, All, Option-cases, inl, inr,
  if◌then◌else◌, arith, ◌++◌, ◌⊎◌, Option, sym, subst,
}
use imapped.Base.Text
use imapped.Base.Text.{Text, same-eq, same_refl}
use imapped.Config.Load.{
  Dict, value_of, Knob, set_variable, env_vars_present, Field, field_of, provenance, secret_paths,
  contains, first_or_empty, env, file, default,
}

-- No two fields have a path.
abbrev pub Distinct : List Knob → Type 0
Distinct [] = Unit
Distinct (k ∷ knobs) = All (λ j. Text.same j.path k.path ≡ false) knobs × Distinct knobs

-- A field as the function of its variables that are set.
unfoldable described : List Text → Dict → Dict → Knob → Field
described file_keys environ used k = elim (set_variable environ used k.env_vars) [
  | some name ↦ record {
    toml_path = k.path;
    env_var = name;
    source = env;
    secret = contains secret_paths k.path;
  }
  | none ↦ record {
    toml_path = k.path;
    env_var = first_or_empty k.env_vars;
    source = if contains file_keys k.path then file else default;
    secret = contains secret_paths k.path;
  }
]

same-false_sym : (a b : Text) → Text.same a b ≡ false → Text.same b a ≡ false
same-false_sym a b h = ground (arith, same-eq b a, same_refl a)

module _ (environ used : Dict) where
  value_of-present :
      (p : Text) (knobs : List Knob) (d : Dict)
      → All (λ k. Text.same k.path p ≡ false) knobs
      → value_of p (env_vars_present environ used knobs d) ≡ value_of p d
  unfolding env_vars_present value_of
  value_of-present p [] d h = refl
  value_of-present p (k ∷ knobs) d h = elim (Option-cases (set_variable environ used k.env_vars)) [
    | inl e ↦ rw (e, env_vars_present) (value_of-present p knobs d h.1)
    | inr (name, e) ↦
        rw (e, env_vars_present) (value_of-present p knobs ((k.path, name) ∷ d) h.1 ∙ rw h.0 refl)
  ]

  abbrev Unset : Dict → List Knob → Type 0
  Unset d knobs = All (λ k. value_of k.path d ≡ none) knobs

  Unset-extend :
      (k : Knob) (name : Text) (knobs : List Knob) (d : Dict)
      → All (λ j. Text.same j.path k.path ≡ false) knobs
      → Unset d knobs
      → Unset ((k.path, name) ∷ d) knobs
  unfolding value_of
  Unset-extend k name [] d h u = tt
  Unset-extend k name (j ∷ knobs) d h u =
      (rw (same-false_sym j.path k.path h.0) u.0, Unset-extend k name knobs d h.1 u.1)

  found_self :
      (k : Knob) (name : Text) (d : Dict) → value_of k.path ((k.path, name) ∷ d) ≡ some name
  unfolding value_of
  found_self k name d = rw (same_refl k.path) refl

  skip_unset :
      (k : Knob) (knobs : List Knob) (d : Dict)
      → set_variable environ used k.env_vars ≡ none
      → env_vars_present environ used (k ∷ knobs) d ≡ env_vars_present environ used knobs d
  unfolding env_vars_present
  skip_unset k knobs d e = rw (e, env_vars_present) refl

  note_set :
      (k : Knob) (name : Text) (knobs : List Knob) (d : Dict)
      → set_variable environ used k.env_vars ≡ some name
      → env_vars_present environ used (k ∷ knobs) d
        ≡ env_vars_present environ used knobs ((k.path, name) ∷ d)
  unfolding env_vars_present
  note_set k name knobs d e = rw (e, env_vars_present) refl

  module _ (file_keys : List Text) where
    field_of-set :
        (k : Knob) (name : Text) (present : Dict)
        → value_of k.path present ≡ some name
        → set_variable environ used k.env_vars ≡ some name
        → field_of file_keys present k ≡ described file_keys environ used k
    unfolding field_of described
    field_of-set k name present h e = rw (h, e, field_of, described) refl

    field_of-unset :
        (k : Knob) (present : Dict)
        → value_of k.path present ≡ none
        → set_variable environ used k.env_vars ≡ none
        → field_of file_keys present k ≡ described file_keys environ used k
    unfolding field_of described
    field_of-unset k present h e = rw (h, e, field_of, described) refl

    fields-described :
        (knobs : List Knob) (d : Dict)
        → Distinct knobs
        → Unset d knobs
        → map (field_of file_keys (env_vars_present environ used knobs d)) knobs
          ≡ map (described file_keys environ used) knobs
    fields-described [] d h u = refl
    fields-described (k ∷ knobs) d h u =
        elim (Option-cases (set_variable environ used k.env_vars)) [
          | inl e ↦
              let present = env_vars_present environ used knobs d in
              let gone = value_of-present k.path knobs d h.0 ∙ u.0 in
              ap (λ x. map (field_of file_keys x) (k ∷ knobs)) (skip_unset k knobs d e)
              ∙ ap (λ f. f ∷ map (field_of file_keys present) knobs)
                  (field_of-unset k present gone e)
              ∙ ap (◌∷◌ (described file_keys environ used k)) (fields-described knobs d h.1 u.1)
          | inr (name, e) ↦
              let d' : Dict = (k.path, name) ∷ d in
              let present = env_vars_present environ used knobs d' in
              let found = value_of-present k.path knobs d' h.0 ∙ found_self k name d in
              ap (λ x. map (field_of file_keys x) (k ∷ knobs)) (note_set k name knobs d e)
              ∙ ap (λ f. f ∷ map (field_of file_keys present) knobs)
                  (field_of-set k name present found e)
              ∙ ap (◌∷◌ (described file_keys environ used k))
                  (fields-described knobs d' h.1 (Unset-extend k name knobs d h.0 u.1))
        ]

    none_set : (knobs : List Knob) → Unset [] knobs
    unfolding value_of
    none_set [] = tt
    none_set (k ∷ knobs) = (refl, none_set knobs)

-- The variable has a value, which may be the empty text.
abbrev pub HasValue : Dict → Text → Text → Type 0
HasValue environ name v = value_of name environ ≡ some v

-- The name that the operator used for a variable: the deprecated one, if the value came from it.
abbrev pub operators_name : Dict → Text → Text
operators_name used name = elim (value_of name used) [ none ↦ name | some alias ↦ alias ]

-- A field of the settings page: the environment if one of the field's variables is set, with the name
-- of the first one, else the file if it has the field's key, else the default.
abbrev pub Describes : List Text → Dict → Dict → Knob → Field → Type 0
Describes file_keys environ used k f =
    (f.toml_path ≡ k.path)
    × (f.secret ≡ contains secret_paths k.path)
    × (((before : List Text) × (name : Text) × (after : List Text) × (v : Text) × (k.env_vars
            ≡ before ++ name ∷ after)
          × All (λ n. value_of n environ ≡ none) before
          × HasValue environ name v
          × (f.source ≡ env)
          × (f.env_var ≡ operators_name used name))
        ⊎ (All (λ n. value_of n environ ≡ none) k.env_vars
            × (f.source ≡ (if contains file_keys k.path then file else default))
            × (f.env_var ≡ first_or_empty k.env_vars)))

abbrev pub AllDescribe : List Text → Dict → Dict → List Knob → List Field → Type 0
AllDescribe file_keys environ used [] [] = Unit
AllDescribe file_keys environ used [] (f ∷ fs) = ⊥
AllDescribe file_keys environ used (k ∷ ks) [] = ⊥
AllDescribe file_keys environ used (k ∷ ks) (f ∷ fs) =
    Describes file_keys environ used k f × AllDescribe file_keys environ used ks fs

-- The variables, up to the first one that is set.
abbrev Search : Dict → Dict → List Text → Option Text → Type 0
Search environ used names none = All (λ n. value_of n environ ≡ none) names
Search environ used names (some shown) =
    (before : List Text) × (name : Text) × (after : List Text) × (v : Text) × (names
      ≡ before ++ name ∷ after)
    × All (λ n. value_of n environ ≡ none) before
    × HasValue environ name v
    × (shown ≡ operators_name used name)

set_variable-Search :
    (environ used : Dict) (names : List Text)
    → Search environ used names (set_variable environ used names)
unfolding set_variable
set_variable-Search environ used [] = tt
set_variable-Search environ used (name ∷ names) = elim (Option-cases (value_of name environ)) [
  | inl e ↦
      rw (e, set_variable)
        (unset_first (set_variable environ used names) e (set_variable-Search environ used names))
  | inr (v, e) ↦ elim (Option-cases (value_of name used)) [
    | inl k ↦
        rw (e, set_variable) (rw (k) ([], name, names, v, refl, tt, e, rw (k, operators_name) refl))
    | inr (a, k) ↦
        rw (e, set_variable) (rw (k) ([], name, names, v, refl, tt, e, rw (k, operators_name) refl))
  ]
]
  where
    unset_first :
        (o : Option Text)
        → value_of name environ ≡ none
        → Search environ used names o
        → Search environ used (name ∷ names) o
    unset_first none e h = (e, h)
    unset_first (some shown) e (before, n, after, v, eq, unset, found, same) =
        (name ∷ before, n, after, v, ap (◌∷◌ name) eq, (e, unset), found, same)

described-Describes :
    (file_keys : List Text) (environ used : Dict) (k : Knob)
    → Describes file_keys environ used k (described file_keys environ used k)
unfolding described
described-Describes file_keys environ used k =
    go (set_variable environ used k.env_vars) refl (set_variable-Search environ used k.env_vars)
  where
    go :
        (o : Option Text)
        → set_variable environ used k.env_vars ≡ o
        → Search environ used k.env_vars (set_variable environ used k.env_vars)
        → Describes file_keys environ used k (described file_keys environ used k)
    go none e h =
        rw (e, described) (refl, refl, inr (subst (Search environ used k.env_vars) e h, refl, refl))
    go (some shown) e h =
        let (before, n, after, v, eq, unset, found, same) =
          subst (Search environ used k.env_vars) e h in
        rw (e, described) (refl, refl, inl (before, n, after, v, eq, unset, found, refl, same))

all-Describe :
    (file_keys : List Text) (environ used : Dict) (knobs : List Knob)
    → AllDescribe file_keys environ used knobs (map (described file_keys environ used) knobs)
all-Describe file_keys environ used [] = tt
all-Describe file_keys environ used (k ∷ knobs) =
    (described-Describes file_keys environ used k, all-Describe file_keys environ used knobs)

-- Where no two fields have a path, the settings page names as the source of each field the environment
-- if one of the field's variables is set, be it to the empty text, with the name of the first such
-- variable or the deprecated name that its value came from; else the file if it has the field's key,
-- else the default. The value that takes effect is not part of this.
pub provenance-described :
    (environ used : Dict) (file_keys : List Text) (knobs : List Knob)
    → Distinct knobs
    → AllDescribe file_keys environ used knobs
        (provenance file_keys (env_vars_present environ used knobs []) knobs)
unfolding provenance
provenance-described environ used file_keys knobs h =
    subst (AllDescribe file_keys environ used knobs)
      (sym (
        fields-described environ used file_keys knobs [] h (none_set environ used file_keys knobs)))
      (all-Describe file_keys environ used knobs)
