-- ===== src/Blob/Files/Simulates.antt =====
-- internal/blob: a file system that does not fail serves what the memory serves.
use imapped.Base.{
  ℕ, ◌<◌, ◌≡◌, refl, ap, sym, subst, ◌∙◌, inl, inr, true, Option, none, some, List, [], ◌∷◌, arith,
  length, All, Bool-cases, Option-cases,
}
use imapped.Base.Int64
use imapped.Base.Int64.{two63}
use imapped.Base.Text
use imapped.Base.Text.{Text, same-eq, same_refl}
use imapped.Upstream.Errors.{Error, Result, ok, err}
use imapped.Blob.Keys.{Info, IsByte, valid_type, valid_key, new_key, new_key-valid}
use imapped.Blob.Files.Locations.{
  lookup-delete, lookup-assign, Represents, assign-Represents, delete-Represents,
}
use imapped.Blob.Files.Ranges.{slice_same}
use imapped.Blob.Memory
use imapped.Blob.Memory.{Objects, lookup, assign, delete, beside, info_of}
use imapped.Blob.Files.{
  OsCall, create_temp, copy, sync, close_temp, mkdir, rename, open_file, seek, remove_file, Os,
  path, guarded, move_into_place, put, found_by, get, get_range, remove,
}

module _ {W : Type 0} (os : Os W) (quiet : (c : OsCall) (w : W) → (os.os_err c w).0 ≡ none) where
  -- The same answer, and stores that still hold the same.
  abbrev Agree : {A : Type 0} → A × Objects × W → A × Objects → Type 0
  Agree r q = (r.0 ≡ q.0) × Represents r.1 q.1

  module _ (sum256 : List ℕ → List ℕ) (bytes : (d : List ℕ) → All IsByte (sum256 d))
      (size : (d : List ℕ) → length (sum256 d) ≡ 32) where
    moved :
        (ctx_err : Option Error) (t : Text) (d : List ℕ) (files s : Objects) (w : W)
        → valid_type t ≡ true
        → Represents files s
        → Agree
            (move_into_place os sum256 ctx_err t d files w)
            (beside ctx_err (info_of sum256 t d), assign (new_key t (sum256 d)) d s)
    unfolding move_into_place path guarded
    moved ctx_err t d files s w v h =
        let k = new_key t (sum256 d) in
        let u = new_key-valid t (sum256 d) v (bytes d) (size d) in
        rw (u, move_into_place)
          (rw (quiet mkdir w, guarded)
            (rw (quiet rename (os.os_err mkdir w).1, guarded)
              (refl, assign-Represents k d files s u h)))

    put-simulates :
        (ctx_err : Option Error) (t : Text) (d : List ℕ) (files s : Objects) (w : W)
        → valid_type t ≡ true
        → Represents files s
        → Agree (put os sum256 ctx_err t (ok d) files w) (Memory.put sum256 ctx_err t (ok d) s)
    unfolding put Memory.put guarded
    put-simulates ctx_err t d files s w v h =
        let x = (os.os_err create_temp w).1 in
        let y = (os.os_err copy x).1 in
        let z = (os.os_err sync y).1 in
        rw (v, put, Memory.put)
          (rw (quiet create_temp w, guarded)
            (rw (quiet copy x, guarded)
              (rw (quiet sync y, guarded)
                (rw (quiet close_temp z, guarded)
                  (moved ctx_err t d files s (os.os_err close_temp z).1 v h)))))

  get-simulates :
      (ctx_err : Option Error) (k : Text) (files s : Objects) (w : W)
      → valid_key k ≡ true
      → Represents files s
      → (get os ctx_err k files w).0 ≡ Memory.get ctx_err k s
  unfolding get Memory.get found_by path
  get-simulates ctx_err k files s w v h = elim (Option-cases (lookup k s)) [
    | inl e ↦ rw (v, get, found_by) (rw (h k v, found_by) (rw (e, Memory.get) refl))
    | inr e ↦
        rw (v, get, found_by)
          (rw (h k v, found_by) (rw (e.1, Memory.get) (rw (quiet open_file w) refl)))
  ]

  get_range-simulates :
      (ctx_err : Option Error) (k : Text) (offset count : ℕ) (files s : Objects) (w : W)
      → valid_key k ≡ true
      → Represents files s
      → offset < two63
      → ((d : List ℕ) → lookup k s ≡ some d → length d < two63)
      → (get_range os ctx_err k offset count files w).0 ≡ Memory.get_range ctx_err k offset count s
  unfolding get_range Memory.get_range Memory.get
  get_range-simulates none k offset count files s w v h o l =
      let g = get-simulates none k files s w v h in
      elim (Option-cases (lookup k s)) [
        | inl e ↦
            let q : (get os none k files w).0 ≡ err (Memory.not_found k) =
              g ∙ rw (e, Memory.get) refl in
            rw (q, get_range) (rw (e, Memory.get_range) refl)
        | inr e ↦
            let q : (get os none k files w).0 ≡ ok e.0 = g ∙ rw (e.1, Memory.get) refl in
            let same = ap ok (sym (slice_same offset count e.0 o (l e.0 e.1))) in
            elim (Bool-cases (Int64.lt 0 offset)) [
              | inl b ↦
                  rw (q, get_range)
                    (rw (e.1, Memory.get_range)
                      (rw b (rw (quiet seek (get os none k files w).1) same)))
              | inr b ↦ rw (q, get_range) (rw (e.1, Memory.get_range) (rw b same))
            ]
      ]
  get_range-simulates (some x) k offset count files s w v h o l =
      let g = get-simulates (some x) k files s w v h in
      elim (Option-cases (lookup k s)) [
        | inl e ↦
            let q : (get os (some x) k files w).0 ≡ err (Memory.not_found k) =
              g ∙ rw (e, Memory.get) refl in
            rw (q, get_range) (rw (e, Memory.get_range) refl)
        | inr e ↦
            let q : (get os (some x) k files w).0 ≡ err x = g ∙ rw (e.1, Memory.get) refl in
            rw (q, get_range) (rw (e.1, Memory.get_range) refl)
      ]

  remove-simulates :
      (ctx_err : Option Error) (k : Text) (files s : Objects) (w : W)
      → valid_key k ≡ true
      → Represents files s
      → Agree (remove os ctx_err k files w) (Memory.remove ctx_err k s)
  unfolding remove Memory.remove path
  remove-simulates ctx_err k files s w v h =
      rw (v, remove) (rw (quiet remove_file w) (refl, delete-Represents k files s v h))

-- What a client asks of a store, and what it gets.
pub data Request : Type 0 where
  puts : Text → List ℕ → Request
  gets : Text → Request
  gets_range : Text → ℕ → ℕ → Request
  removes : Text → Request

pub data Answer : Type 0 where
  stored : Result Info → Answer
  read : Result (List ℕ) → Answer
  removed : Option Error → Answer

-- Requests with types and keys that the package makes, and lengths that an int64 holds.
abbrev pub IsProper : Request → Type 0
IsProper (puts t d) = (valid_type t ≡ true) × (length d < two63)
IsProper (gets k) = valid_key k ≡ true
IsProper (gets_range k offset count) = (valid_key k ≡ true) × (offset < two63)
IsProper (removes k) = valid_key k ≡ true

module _ (sum256 : List ℕ → List ℕ) (ctx_err : Option Error) where
  unfoldable pub memory_answers : List Request → Objects → List Answer
  memory_answers [] s = []
  memory_answers (puts t d ∷ rs) s =
      let r = Memory.put sum256 ctx_err t (ok d) s in stored r.0 ∷ memory_answers rs r.1
  memory_answers (gets k ∷ rs) s = read (Memory.get ctx_err k s) ∷ memory_answers rs s
  memory_answers (gets_range k offset count ∷ rs) s =
      read (Memory.get_range ctx_err k offset count s) ∷ memory_answers rs s
  memory_answers (removes k ∷ rs) s =
      let r = Memory.remove ctx_err k s in removed r.0 ∷ memory_answers rs r.1

  unfoldable pub file_answers : {W : Type 0} → Os W → List Request → Objects → W → List Answer
  file_answers os [] s w = []
  file_answers os (puts t d ∷ rs) s w =
      let r = put os sum256 ctx_err t (ok d) s w in stored r.0 ∷ file_answers os rs r.1 r.2
  file_answers os (gets k ∷ rs) s w =
      let r = get os ctx_err k s w in read r.0 ∷ file_answers os rs s r.1
  file_answers os (gets_range k offset count ∷ rs) s w =
      let r = get_range os ctx_err k offset count s w in read r.0 ∷ file_answers os rs s r.1
  file_answers os (removes k ∷ rs) s w =
      let r = remove os ctx_err k s w in removed r.0 ∷ file_answers os rs r.1 r.2

abbrev IsShort : Objects → Type 0
IsShort s = (k : Text) (d : List ℕ) → lookup k s ≡ some d → length d < two63

assign-IsShort :
    (k : Text) (d : List ℕ) (s : Objects) → length d < two63 → IsShort s → IsShort (assign k d s)
assign-IsShort k d s n h j x e = elim (Bool-cases (Text.same k j)) [
  | inl q ↦
      let same : some d ≡ some x = sym (lookup-assign k j d s ∙ rw q refl) ∙ e in
      ground (arith, same, n)
  | inr q ↦ h j x (sym (lookup-assign k j d s ∙ rw q refl) ∙ e)
]

delete-IsShort : (k : Text) (s : Objects) → IsShort s → IsShort (delete k s)
delete-IsShort k s h j x e = elim (Bool-cases (Text.same k j)) [
  | inl q ↦ let same : none ≡ some x = sym (lookup-delete k j s ∙ rw q refl) ∙ e in cc
  | inr q ↦ h j x (sym (lookup-delete k j s ∙ rw q refl) ∙ e)
]

put_valid :
    (sum256 : List ℕ → List ℕ) (ctx_err : Option Error) (t : Text) (d : List ℕ) (s : Objects)
    → valid_type t ≡ true
    → (Memory.put sum256 ctx_err t (ok d) s).1 ≡ assign (new_key t (sum256 d)) d s
unfolding Memory.put
put_valid sum256 ctx_err t d s v = rw (v, Memory.put) refl

module _ {W : Type 0} (os : Os W) (quiet : (c : OsCall) (w : W) → (os.os_err c w).0 ≡ none)
    (sum256 : List ℕ → List ℕ) (bytes : (d : List ℕ) → All IsByte (sum256 d))
    (size : (d : List ℕ) → length (sum256 d) ≡ 32) (ctx_err : Option Error) where
  answers_from :
      (rs : List Request) (files s : Objects) (w : W)
      → All IsProper rs
      → Represents files s
      → IsShort s
      → file_answers sum256 ctx_err os rs files w ≡ memory_answers sum256 ctx_err rs s
  unfolding file_answers memory_answers Memory.remove
  answers_from [] files s w p h l = refl
  answers_from (puts t d ∷ rs) files s w p h l =
      let (a, b) = put-simulates os quiet sum256 bytes size ctx_err t d files s w p.0.0 h in
      let r = put os sum256 ctx_err t (ok d) files w in
      rw a (
        ap (◌∷◌ (stored (Memory.put sum256 ctx_err t (ok d) s).0)) (
          answers_from rs r.1 (Memory.put sum256 ctx_err t (ok d) s).1 r.2 p.1 b (
            subst IsShort (sym (put_valid sum256 ctx_err t d s p.0.0))
              (assign-IsShort (new_key t (sum256 d)) d s p.0.1 l))))
  answers_from (gets k ∷ rs) files s w p h l =
      rw (get-simulates os quiet ctx_err k files s w p.0 h) (
        ap (◌∷◌ (read (Memory.get ctx_err k s)))
          (answers_from rs files s (get os ctx_err k files w).1 p.1 h l))
  answers_from (gets_range k offset count ∷ rs) files s w p h l =
      rw (get_range-simulates os quiet ctx_err k offset count files s w p.0.0 h p.0.1 (l k)) (
        ap (◌∷◌ (read (Memory.get_range ctx_err k offset count s)))
          (answers_from rs files s (get_range os ctx_err k offset count files w).1 p.1 h l))
  answers_from (removes k ∷ rs) files s w p h l =
      let (a, b) = remove-simulates os quiet ctx_err k files s w p.0 h in
      let r = remove os ctx_err k files w in
      rw a (
        ap (◌∷◌ (removed (Memory.remove ctx_err k s).0))
          (answers_from rs r.1 (Memory.remove ctx_err k s).1 r.2 p.1 b (delete-IsShort k s l)))

-- On a file system that does not fail, FSStore answers any sequence of requests as MemStore does,
-- when both start empty, the hash yields 32 bytes, and types, keys, offsets and lengths are valid.
pub file_answers-simulate :
    {W : Type 0} (os : Os W) (sum256 : List ℕ → List ℕ) (ctx_err : Option Error) (rs : List Request)
    (w : W)
    → ((c : OsCall) (w : W) → (os.os_err c w).0 ≡ none)
    → ((d : List ℕ) → All IsByte (sum256 d) × (length (sum256 d) ≡ 32))
    → All IsProper rs
    → file_answers sum256 ctx_err os rs [] w ≡ memory_answers sum256 ctx_err rs []
unfolding lookup
file_answers-simulate os sum256 ctx_err rs w quiet digest p =
    answers_from os quiet sum256 (λ d. (digest d).0) (λ d. (digest d).1) ctx_err rs [] [] w p
      (λ k v. refl) (λ k d e. let q : none ≡ some d = e in cc)
