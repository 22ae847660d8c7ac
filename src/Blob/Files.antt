-- ===== src/Blob/Files.antt =====
-- internal/blob/fsstore.go: the store on a file system. The objects are files, by their path below
-- the root; what the operating system answers and the hash are parameters. Temporary files, whose
-- names no key has, are left out.
pub mod Locations
pub mod Ranges
pub mod Simulates
use imapped.Base.{
  ℕ, Bool, true, false, Option, none, some, List, [], ◌∷◌, ◌++◌, length, take, drop, if◌then◌else◌,
}
use imapped.Base.Int64
use imapped.Base.Text.{Text, codes}
use imapped.Upstream.Errors.{Error, leaf, wrap, plain, Result, ok, err}
use imapped.Blob.Keys.{Info, valid_type, valid_key, new_key, key_type, key_digest, cut_slash}
use imapped.Blob.Memory.{
  Objects, lookup, assign, delete, not_found, bad_type, beside, bad_digest, info_of,
}

-- The calls of the operating system that may fail.
pub data OsCall : Type 0 where
  create_temp copy sync close_temp mkdir rename open_file seek stat_file remove_file : OsCall

pub record Os (W : Type 0) : Type 0 where
  pub os_err : OsCall → W → Option Error × W

abbrev pub invalid_key : Text → Error
invalid_key k = leaf plain (codes "blob: invalid key " ++ k)

-- The part of a key behind its type.
unfoldable pub hex_part : Text → Text
hex_part k = elim (cut_slash k).1 [ none ↦ [] | some s ↦ s ]

-- The file of a valid key: type, two levels of directories, and the digest.
unfoldable pub location : Text → Text
unfolding hex_part
location k =
    let h = hex_part k in key_type k ++ b'/' ∷ (take 2 h ++ b'/' ∷ (take 2 (drop 2 h) ++ b'/' ∷ h))

unfoldable pub path : Text → Result Text
unfolding location
path k = if valid_key k then ok (location k) else err (invalid_key k)

module _ {W : Type 0} (os : Os W) where
  open os use {os_err}

  -- A call that ends the method when it fails.
  unfoldable pub guarded :
      {A B : Type 0} → OsCall → Text → B → W → (W → Result A × B × W) → Result A × B × W
  guarded call text s w k =
      let r = os_err call w in elim r.0 [ some e ↦ (err (wrap text e []), s, r.1) | none ↦ k r.1 ]

  module _ (sum256 : List ℕ → List ℕ) where
    unfoldable pub move_into_place :
        Option Error → Text → List ℕ → Objects → W → Result Info × Objects × W
    unfolding guarded path assign info_of
    move_into_place ctx_err t data' s w = elim (path (new_key t (sum256 data'))) [
      | err e ↦ (err e, s, w)
      | ok dest ↦ guarded mkdir (codes "creating blob directory: ") s w λ v.
          guarded rename (codes "storing blob: ") s v
            λ u. (beside ctx_err (info_of sum256 t data'), assign dest data' s, u)
    ]

    unfoldable pub put :
        Option Error → Text → Result (List ℕ) → Objects → W → Result Info × Objects × W
    unfolding move_into_place
    put ctx_err t r s w = elim (valid_type t) [
      | false ↦ (err (bad_type t), s, w)
      | true ↦ guarded create_temp (codes "creating temporary blob: ") s w λ v. elim r [
        | err e ↦ (err (wrap (codes "writing blob: ") e []), s, v)
        | ok data' ↦ guarded copy (codes "writing blob: ") s v λ x.
            guarded sync (codes "flushing blob: ") s x λ y.
              guarded close_temp (codes "closing blob: ") s y
                λ z. move_into_place ctx_err t data' s z
      ]
    ]

  -- The file of a key, opened or looked at by a call that may fail.
  unfoldable pub found_by :
      OsCall → Text → Text → Objects → W → (List ℕ → W → Result (List ℕ) × W) → Result (List ℕ) × W
  unfolding path
  found_by call text k s w f = elim (path k) [
    | err e ↦ (err e, w)
    | ok place ↦ elim (lookup place s) [
      | none ↦ (err (not_found k), w)
      | some data' ↦
          let r = os_err call w in
          elim r.0 [
            | some e ↦ (err (wrap (text ++ (k ++ codes ": ")) e []), r.1)
            | none ↦ f data' r.1
          ]
    ]
  ]

  unfoldable pub get : Option Error → Text → Objects → W → Result (List ℕ) × W
  unfolding found_by
  get ctx_err k s w =
      found_by open_file (codes "opening blob ") k s w λ data' v. (beside ctx_err data', v)

  -- A seek behind the end leaves nothing to read.
  unfoldable pub get_range : Option Error → Text → ℕ → ℕ → Objects → W → Result (List ℕ) × W
  unfolding get
  get_range ctx_err k offset count s w =
      let r = get ctx_err k s w in
      elim r.0 [
        | err e ↦ (err e, r.1)
        | ok data' ↦
            let p = if Int64.lt 0 offset then os_err seek r.1 else (none, r.1) in
            elim p.0 [
              | some e ↦ (err (wrap (codes "seeking in blob " ++ (k ++ codes ": ")) e []), p.1)
              | none ↦
                  let tail = if Int64.lt 0 offset then drop offset data' else data' in
                  (ok (if Int64.le count 0 then tail else take count tail), p.1)
            ]
      ]

  -- Removing a file that is not there is no error.
  unfoldable pub remove : Option Error → Text → Objects → W → Option Error × Objects × W
  unfolding path delete
  remove ctx_err k s w = elim (path k) [
    | err e ↦ (some e, s, w)
    | ok place ↦
        let r = os_err remove_file w in
        elim r.0 [
          | some e ↦ (some (wrap (codes "deleting blob " ++ (k ++ codes ": ")) e []), s, r.1)
          | none ↦ (ctx_err, delete place s, r.1)
        ]
  ]
