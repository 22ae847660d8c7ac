-- ===== src/Blob/Files/Locations.antt =====
-- internal/blob/fsstore.go: every valid key has a file of its own, so the files can hold what a map
-- of keys holds.
use imapped.Base.{
  ℕ, ◌+◌, ◌*◌, ◌≤◌, ◌≡◌, refl, ap, sym, subst, ◌∙◌, inl, inr, true, false, none, some, List, [],
  ◌∷◌, ◌++◌, arith, ◌==◌, length, take, drop, if◌then◌else◌, Bool-cases, Option-cases,
}
use imapped.Base.Text
use imapped.Base.Text.{Text, same-eq, same_refl}
use imapped.Blob.Keys.{
  valid_type, valid_key, key_type, cut_slash, hex_decode, hex_value, key_parts, cut-new_key,
  valid_type-no_slash,
}
use imapped.Blob.Memory.{Objects, lookup, assign, delete}
use imapped.Blob.Files.{hex_part, location}

same_sym : (a b : Text) → Text.same a b ≡ Text.same b a
unfolding Text.same
same_sym [] [] = refl
same_sym [] (b ∷ bs) = refl
same_sym (a ∷ as') [] = refl
same_sym (a ∷ as') (b ∷ bs) = ground (arith, same_sym as' bs)

pub lookup-delete :
    (k j : Text) (s : Objects)
    → lookup j (delete k s) ≡ (if Text.same k j then none else lookup j s)
unfolding lookup delete
lookup-delete k j [] = ground arith
lookup-delete k j ((i, d) ∷ s) =
    ground
      (arith, lookup-delete k j s, same-eq i k, same-eq i j, same-eq k j, same_refl k, same_refl j)

pub lookup-assign :
    (k j : Text) (d : List ℕ) (s : Objects)
    → lookup j (assign k d s) ≡ (if Text.same k j then some d else lookup j s)
unfolding lookup assign
lookup-assign k j d s = ground (arith, lookup-delete k j s)

cut_slash-joins : (k t s : Text) → cut_slash k ≡ (t, some s) → t ++ 47 ∷ s ≡ k
unfolding cut_slash
cut_slash-joins [] t s h = let k : none ≡ some s = ap (λ x. x.1) h in cc
cut_slash-joins (c ∷ k) t s h = elim (Bool-cases (c == 47)) [
  | inl e ↦
      let q : cut_slash (c ∷ k) ≡ ([], some k) = rw (e, cut_slash) refl in
      let first : [] ≡ t = ap (λ x. x.0) (sym q ∙ h) in
      let second : some k ≡ some s = ap (λ x. x.1) (sym q ∙ h) in
      subst (λ x. x ++ 47 ∷ s ≡ c ∷ k) first (ground (arith, second, e))
  | inr e ↦
      let rest = cut_slash k in
      let q : cut_slash (c ∷ k) ≡ (c ∷ rest.0, rest.1) = rw (e, cut_slash) refl in
      let first : c ∷ rest.0 ≡ t = ap (λ x. x.0) (sym q ∙ h) in
      let second : rest.1 ≡ some s = ap (λ x. x.1) (sym q ∙ h) in
      subst (λ x. x ++ 47 ∷ s ≡ c ∷ k) first
        (ap (◌∷◌ c) (cut_slash-joins k rest.0 s (ap (λ x. (rest.0, x)) second)))
]

-- What a valid key is made of.
record Parts (k : Text) : Type 0 where
  t : Text
  h : Text
  cut : cut_slash k ≡ (t, some h)
  typed : valid_type t ≡ true
  long : 4 ≤ length h

hex_decode-length : (h : Text) (bs : List ℕ) → hex_decode h ≡ some bs → length h ≡ 2 * length bs
unfolding hex_decode
hex_decode-length [] bs e = ground (arith, e)
hex_decode-length (c ∷ []) bs e = let k : none ≡ some bs = e in cc
hex_decode-length (c ∷ d ∷ h) bs e = elim (Option-cases (hex_value c)) [
  | inl n ↦ let k : none ≡ some bs = sym (rw (n, hex_decode) refl) ∙ e in cc
  | inr m ↦ elim (Option-cases (hex_value d)) [
    | inl n ↦ let k : none ≡ some bs = sym (rw (m.1, hex_decode) (rw n refl)) ∙ e in cc
    | inr n ↦ elim (Option-cases (hex_decode h)) [
      | inl r ↦ let k : none ≡ some bs = sym (rw (m.1, hex_decode) (rw n.1 (rw r refl))) ∙ e in cc
      | inr r ↦
          let k : some ((16 * m.0 + n.0) ∷ r.0) ≡ some bs =
            sym (rw (m.1, hex_decode) (rw n.1 (rw r.1 refl))) ∙ e in
          ground (arith, k, hex_decode-length h r.0 r.1)
    ]
  ]
]

valid-Parts : (k : Text) → valid_key k ≡ true → Parts k
unfolding valid_key valid_type key_type Text.same
valid-Parts k v = elim (Option-cases (cut_slash k).1) [
  | inl n ↦
      let untyped : key_type k ≡ [] = rw (n, key_type) refl in
      let q : valid_type (key_type k) ≡ false = rw untyped refl in
      let r : true ≡ false = ground (arith, v, q) in cc
  | inr n ↦
      let cut : cut_slash k ≡ ((cut_slash k).0, some n.0) = ap (λ x. ((cut_slash k).0, x)) n.1 in
      let (a, b) = key_parts k (cut_slash k).0 n.0 cut in
      elim (Option-cases (hex_decode n.0)) [
        | inl e ↦ let r : true ≡ false = ground (arith, v, b ∙ e) in cc
        | inr e ↦ record {
          t = (cut_slash k).0;
          h = n.0;
          cut = cut;
          typed = ground (arith, v, a);
          long = ground (arith, v, b ∙ e.1, hex_decode-length n.0 e.0 e.1);
        }
      ]
]

drop_levels :
    (h : Text) → 4 ≤ length h → drop 6 (take 2 h ++ 47 ∷ (take 2 (drop 2 h) ++ 47 ∷ h)) ≡ h
drop_levels [] n = ground (arith, n)
drop_levels (a ∷ []) n = ground (arith, n)
drop_levels (a ∷ b ∷ []) n = ground (arith, n)
drop_levels (a ∷ b ∷ c ∷ []) n = ground (arith, n)
drop_levels (a ∷ b ∷ c ∷ d ∷ h) n = refl

-- The key of a file.
key_of : Text → Text
key_of place = elim (cut_slash place).1 [
  | none ↦ []
  | some s ↦ (cut_slash place).0 ++ 47 ∷ drop 6 s
]

key_of-cut : (place t s : Text) → cut_slash place ≡ (t, some s) → key_of place ≡ t ++ 47 ∷ drop 6 s
unfolding key_of
key_of-cut place t s c =
    rw (ap (λ x. x.1) c, key_of) (ap (λ x. x ++ 47 ∷ drop 6 s) (ap (λ x. x.0) c))

hex_part-cut : (k t s : Text) → cut_slash k ≡ (t, some s) → hex_part k ≡ s
unfolding hex_part
hex_part-cut k t s c = rw (ap (λ x. x.1) c, hex_part) refl

key_of-location : (k : Text) → valid_key k ≡ true → key_of (location k) ≡ k
unfolding location
key_of-location k v =
    let p = valid-Parts k v in
    let levels = take 2 p.h ++ 47 ∷ (take 2 (drop 2 p.h) ++ 47 ∷ p.h) in
    let place : location k ≡ p.t ++ 47 ∷ levels =
      rw ((key_parts k p.t p.h p.cut).0, hex_part-cut k p.t p.h p.cut, location) refl in
    ap key_of place
    ∙ (key_of-cut (p.t ++ 47 ∷ levels) p.t levels
          (cut-new_key p.t levels (valid_type-no_slash p.t p.typed))
        ∙ (ap (λ x. p.t ++ 47 ∷ x) (drop_levels p.h p.long) ∙ cut_slash-joins k p.t p.h p.cut))

pub location-same :
    (j k : Text)
    → valid_key j ≡ true
    → valid_key k ≡ true
    → Text.same (location j) (location k) ≡ Text.same j k
location-same j k v u = elim (Bool-cases (Text.same j k)) [
  | inl e ↦ rw (same-eq j k e) (same_refl (location k) ∙ sym (same_refl k))
  | inr e ↦ elim (Bool-cases (Text.same (location j) (location k))) [
    | inr n ↦ n ∙ sym e
    | inl n ↦
        let q : j ≡ k =
          sym (key_of-location j v)
          ∙ (ap key_of (same-eq (location j) (location k) n) ∙ key_of-location k u) in
        ground (arith, e, n, q, same_refl k)
  ]
]

-- The files hold what the memory holds, under the file names of valid keys.
abbrev pub Represents : Objects → Objects → Type 0
Represents files s = (k : Text) → valid_key k ≡ true → lookup (location k) files ≡ lookup k s

pub assign-Represents :
    (k : Text) (d : List ℕ) (files s : Objects)
    → valid_key k ≡ true
    → Represents files s
    → Represents (assign (location k) d files) (assign k d s)
assign-Represents k d files s v h j u =
    lookup-assign (location k) (location j) d files
    ∙ (rw (location-same k j v u) (ap (λ x. if Text.same k j then some d else x) (h j u))
        ∙ sym (lookup-assign k j d s))

pub delete-Represents :
    (k : Text) (files s : Objects)
    → valid_key k ≡ true
    → Represents files s
    → Represents (delete (location k) files) (delete k s)
delete-Represents k files s v h j u =
    lookup-delete (location k) (location j) files
    ∙ (rw (location-same k j v u) (ap (λ x. if Text.same k j then none else x) (h j u))
        ∙ sym (lookup-delete k j s))
