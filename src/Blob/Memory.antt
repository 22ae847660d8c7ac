-- ===== src/Blob/Memory.antt =====
-- internal/blob/memstore.go: the store in memory. The hash and the context are parameters; the lock
-- makes each method's use of the map one step.
use imapped.Base.{
  ℕ, true, false, ◌&&◌, Option, none, some, List, [], ◌∷◌, ◌++◌, ltb, length, take, drop, select,
  not, if◌then◌else◌,
}
use imapped.Base.Int64
use imapped.Base.Text
use imapped.Base.Text.{Text, codes}
use imapped.Upstream.Errors.{Error, leaf, wrap, plain, Result, ok, err}
use imapped.Blob.Keys.{Info, valid_type, new_key, key_digest}

-- The map of a MemStore.
abbrev pub Objects : Type 0
Objects = List (Text × List ℕ)

unfoldable pub lookup : Text → Objects → Option (List ℕ)
lookup k [] = none
lookup k ((j, data') ∷ s) = if Text.same j k then some data' else lookup k s

-- delete(s.objects, key)
unfoldable pub delete : Text → Objects → Objects
delete k s = select (λ o. not (Text.same o.0 k)) s

-- s.objects[key] = data
unfoldable pub assign : Text → List ℕ → Objects → Objects
unfolding delete
assign k data' s = (k, data') ∷ delete k s

abbrev pub not_found : Text → Error
not_found k = wrap [] (leaf plain (codes "blob not found")) (codes ": " ++ k)

abbrev pub bad_type : Text → Error
bad_type t = leaf plain (codes "blob: invalid object type " ++ t)

-- A value beside ctx.Err(): Go returns both, and a caller reads the value only without an error.
abbrev pub beside : {A : Type 0} → Option Error → A → Result A
beside none a = ok a
beside (some e) a = err e

module _ (sum256 : List ℕ → List ℕ) where
  unfoldable pub info_of : Text → List ℕ → Info
  info_of t data' = record {
    key = new_key t (sum256 data');
    size = length data';
    sha256 = sum256 data';
  }

  -- `r` is what reading to the end yields.
  unfoldable pub put : Option Error → Text → Result (List ℕ) → Objects → Result Info × Objects
  unfolding info_of assign
  put ctx_err t r s = elim (valid_type t) [
    | false ↦ (err (bad_type t), s)
    | true ↦ elim r [
      | err e ↦ (err (wrap (codes "reading blob: ") e []), s)
      | ok data' ↦ (beside ctx_err (info_of t data'), assign (new_key t (sum256 data')) data' s)
    ]
  ]

unfoldable pub get : Option Error → Text → Objects → Result (List ℕ)
get ctx_err k s = elim (lookup k s) [ none ↦ err (not_found k) | some data' ↦ beside ctx_err data' ]

-- The bytes of a range, for an offset that is not negative: a negative one panics.
unfoldable pub slice : ℕ → ℕ → List ℕ → List ℕ
slice offset count data' =
    let size = length data' in
    let tail = drop (if ltb size offset then size else offset) data' in
    if Int64.lt 0 count && Int64.lt count (length tail) then take count tail else tail

unfoldable pub get_range : Option Error → Text → ℕ → ℕ → Objects → Result (List ℕ)
unfolding slice
get_range ctx_err k offset count s = elim (lookup k s) [
  | none ↦ err (not_found k)
  | some data' ↦ beside ctx_err (slice offset count data')
]

-- hex.DecodeString's error
abbrev pub bad_digest : Error
bad_digest = leaf plain (codes "encoding/hex")

unfoldable pub stat : Option Error → Text → Objects → Result Info
stat ctx_err k s = elim (lookup k s) [
  | none ↦ err (not_found k)
  | some data' ↦ elim (key_digest k) [
    | none ↦ err bad_digest
    | some digest ↦ beside ctx_err (record { key = k; size = length data'; sha256 = digest })
  ]
]

unfoldable pub remove : Option Error → Text → Objects → Option Error × Objects
unfolding delete
remove ctx_err k s = (ctx_err, delete k s)
