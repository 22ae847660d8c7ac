-- ===== src/Blob/Keys.antt =====
-- internal/blob/blob.go: object types, keys, and the digests in them.
use imapped.Base.{
  ℕ, ◌+◌, ◌-◌, ◌*◌, ◌/◌, ◌%◌, ◌<◌, ◌≡◌, refl, ap, ◌∙◌, sym, subst, inl, inr, Bool-cases, Bool, true,
  false, ◌&&◌, ◌||◌, Option, none, some, List, [], ◌∷◌, ◌++◌, arith, leb, ltb, ◌==◌, length, All,
  if◌then◌else◌,
}
use imapped.Base.Text
use imapped.Base.Text.{Text, codes, same-eq}

abbrev pub rfc822 : Text
rfc822 = codes "rfc822"

abbrev pub mime_part : Text
mime_part = codes "mime_part"

-- Type.Valid
unfoldable pub valid_type : Text → Bool
valid_type t = Text.same t rfc822 || Text.same t mime_part

-- encoding/hex
unfoldable pub hex_digit : ℕ → ℕ
hex_digit n = if ltb n 10 then n + b'0' else n + 87

unfoldable pub hex_encode : List ℕ → Text
unfolding hex_digit
hex_encode [] = []
hex_encode (b ∷ bs) = hex_digit (b / 16) ∷ hex_digit (b % 16) ∷ hex_encode bs

unfoldable pub hex_value : ℕ → Option ℕ
hex_value c =
    if leb b'0' c && leb c b'9'
    then some (c - b'0')
    else if leb b'a' c && leb c b'f'
    then some (c - 87)
    else if leb b'A' c && leb c b'F'
    then some (c - 55)
    else none

unfoldable pub hex_decode : Text → Option (List ℕ)
unfolding hex_value
hex_decode [] = some []
hex_decode (c ∷ []) = none
hex_decode (c ∷ d ∷ s) =
    let rest = hex_decode s in
    elim (hex_value c) [
      | none ↦ none
      | some m ↦ elim (hex_value d) [
        | none ↦ none
        | some n ↦ elim rest [ none ↦ none | some bs ↦ some ((16 * m + n) ∷ bs) ]
      ]
    ]

-- strings.Cut at the first slash; without one there is no second part.
unfoldable pub cut_slash : Text → Text × Option Text
cut_slash [] = ([], none)
cut_slash (c ∷ s) =
    let rest = cut_slash s in if c == b'/' then ([], some s) else (c ∷ rest.0, rest.1)

unfoldable pub new_key : Text → List ℕ → Text
new_key t digest = t ++ b'/' ∷ hex_encode digest

unfoldable pub key_type : Text → Text
key_type k = elim (cut_slash k).1 [ none ↦ [] | some s ↦ (cut_slash k).0 ]

unfoldable pub key_digest : Text → Option (List ℕ)
key_digest k = elim (cut_slash k).1 [ none ↦ none | some s ↦ hex_decode s ]

unfoldable pub valid_key : Text → Bool
unfolding key_type key_digest valid_type
valid_key k =
    valid_type (key_type k)
    && elim (key_digest k) [ none ↦ false | some digest ↦ length digest == 32 ]

-- Info
pub record Info : Type 0 where
  pub key : Text
  pub size : ℕ
  pub sha256 : List ℕ

abbrev pub IsByte : ℕ → Type 0
IsByte b = b < 256

nibble_reads : (n : ℕ) → n < 16 → hex_value (hex_digit n) ≡ some n
unfolding hex_value hex_digit
nibble_reads n h = ground (arith, h)

pub hex_decode-hex_encode : (bs : List ℕ) → All IsByte bs → hex_decode (hex_encode bs) ≡ some bs
unfolding hex_encode hex_decode
hex_decode-hex_encode [] h = refl
hex_decode-hex_encode (b ∷ bs) h =
    rw
      (
        hex_encode,
        hex_decode,
        nibble_reads (b / 16) (omega (arith, h.0)),
        nibble_reads (b % 16) (omega arith),
        hex_decode-hex_encode bs h.1,
      )
      (ap (λ n. some (n ∷ bs)) (omega arith))

pub cut-new_key :
    (t s : Text) → All (λ c. (c == b'/') ≡ false) t → cut_slash (t ++ b'/' ∷ s) ≡ (t, some s)
unfolding cut_slash
cut-new_key [] s h = refl
cut-new_key (c ∷ t) s h = rw (h.0, cut-new_key t s h.1) refl

pub valid_type-no_slash : (t : Text) → valid_type t ≡ true → All (λ c. (c == b'/') ≡ false) t
unfolding valid_type
valid_type-no_slash t h = elim (Bool-cases (Text.same t rfc822)) [
  | inl e ↦
      subst (All λ c. (c == b'/') ≡ false) (sym (same-eq t rfc822 e))
        (refl, (refl, (refl, (refl, (refl, (refl, tt))))))
  | inr e ↦
      subst (All λ c. (c == b'/') ≡ false) (sym (same-eq t mime_part (ground (arith, h, e))))
        (refl, (refl, (refl, (refl, (refl, (refl, (refl, (refl, (refl, tt)))))))))
]

pub key_parts :
    (k t s : Text) → cut_slash k ≡ (t, some s) → (key_type k ≡ t) × (key_digest k ≡ hex_decode s)
unfolding key_type key_digest
key_parts k t s c =
    (rw (ap (λ x. x.1) c, key_type) (ap (λ x. x.0) c), rw (ap (λ x. x.1) c, key_digest) refl)

pub cut-key :
    (t : Text) (digest : List ℕ)
    → valid_type t ≡ true
    → cut_slash (new_key t digest) ≡ (t, some (hex_encode digest))
unfolding new_key
cut-key t digest h = cut-new_key t (hex_encode digest) (valid_type-no_slash t h)

-- A key of a valid type and of a digest's bytes gives both of them back.
pub new_key-reads :
    (t : Text) (digest : List ℕ)
    → valid_type t ≡ true
    → All IsByte digest
    → (key_type (new_key t digest) ≡ t) × (key_digest (new_key t digest) ≡ some digest)
new_key-reads t digest h k =
    let (a, b) = key_parts (new_key t digest) t (hex_encode digest) (cut-key t digest h) in
    (a, b ∙ hex_decode-hex_encode digest k)

pub new_key-valid :
    (t : Text) (digest : List ℕ)
    → valid_type t ≡ true
    → All IsByte digest
    → length digest ≡ 32
    → valid_key (new_key t digest) ≡ true
unfolding valid_key
new_key-valid t digest h k n =
    let (a, b) = new_key-reads t digest h k in rw (a, b, h) (ground (arith, n))
