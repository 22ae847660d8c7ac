-- ===== src/Imapsrv/Sections/Parts.antt =====
-- Parts of a message.
use imapped.Base.{
  ℕ, zero, suc, ◌+◌, ◌≤◌, ◌<◌, ◌≡◌, refl, sym, ◌∙◌, ap, inl, inr, ◌&&◌, List, [], ◌∷◌, ◌++◌, arith,
  ltb, leb, take, drop, length, take-append-drop, drop-add, Bool-cases, Option-cases, append-nil,
  leb→le,
}
use native.Mathlib.Nat.{zero-add, suc-add}
use imapped.Base.Text
use imapped.Base.Text.{Text}
use imapped.Imapsrv.Sections.{crlf, header_bytes, text_bytes, apply_partial}

-- The header and the text of a message are the message, with CRLF line ends or bare ones or no
-- blank line at all.
header_bytes-append-text_bytes : (raw : Text) → header_bytes raw ++ text_bytes raw ≡ raw
unfolding header_bytes text_bytes
header_bytes-append-text_bytes raw = elim (Option-cases (Text.index raw (crlf ++ crlf))) [
  | inl e ↦ elim (Option-cases (Text.index raw (10 ∷ 10 ∷ []))) [
    | inl k ↦ rw (e, header_bytes, text_bytes) (rw k (append-nil raw))
    | inr k ↦ rw (e, header_bytes, text_bytes) (rw k.1 (take-append-drop (k.0 + 2) raw))
  ]
  | inr e ↦ rw (e.1, header_bytes, text_bytes) (take-append-drop (e.0 + 4) raw)
]

drop-length : (xs : List ℕ) (n : ℕ) → length xs ≤ n → drop n xs ≡ []
drop-length [] zero h = refl
drop-length [] (suc n) h = refl
drop-length (x ∷ xs) zero h = ground (arith, h)
drop-length (x ∷ xs) (suc n) h = drop-length xs n (omega (arith, h))

take-length : (xs : List ℕ) (n : ℕ) → length xs ≤ n → take n xs ≡ xs
take-length [] zero h = refl
take-length [] (suc n) h = refl
take-length (x ∷ xs) zero h = ground (arith, h)
take-length (x ∷ xs) (suc n) h = ap (◌∷◌ x) (take-length xs n (omega (arith, h)))

take-empty : (n : ℕ) → take {A = ℕ} n [] ≡ []
take-empty zero = refl
take-empty (suc n) = refl

apply_partial-take :
    (content : List ℕ) (offset size : ℕ)
    → 0 < size
    → apply_partial content offset size ≡ take size (drop offset content)
unfolding apply_partial
apply_partial-take content offset size h = elim (Bool-cases (leb (length content) offset)) [
  | inl e ↦
      rw (e, apply_partial)
        (sym (ap (take size) (drop-length content offset (leb→le _ _ e)) ∙ take-empty size))
  | inr e ↦ elim (Bool-cases (ltb 0 size && ltb size (length (drop offset content)))) [
    | inl k ↦ rw (e, apply_partial) (rw k refl)
    | inr k ↦
        rw (e, apply_partial)
          (rw k (sym (take-length (drop offset content) size (ground (arith, k, h)))))
  ]
]

take-add : (n m : ℕ) (xs : List ℕ) → take n xs ++ take m (drop n xs) ≡ take (n + m) xs
take-add zero m xs = rw zero-add refl
take-add (suc n) m [] = rw suc-add (take-empty m)
take-add (suc n) m (x ∷ xs) = rw suc-add (ap (◌∷◌ x) (take-add n m xs))

-- Two adjoining byte ranges of a section are the range from the first one's start to the second
-- one's end, also past the end of the content: a client that reads in pieces gets the content.
apply_partial-append :
    (content : List ℕ) (offset n m : ℕ)
    → 0 < n
    → 0 < m
    → apply_partial content offset n ++ apply_partial content (offset + n) m
      ≡ apply_partial content offset (n + m)
apply_partial-append content offset n m h k = rw (apply_partial-take content offset n h) (
    rw (apply_partial-take content (offset + n) m k) (
      rw (apply_partial-take content offset (n + m) (omega (arith, h)))
        (rw (sym (drop-add offset n content)) (take-add n m (drop offset content)))))
