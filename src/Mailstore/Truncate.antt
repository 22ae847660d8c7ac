-- ===== src/Mailstore/Truncate.antt =====
-- internal/mailstore/parse.go: previews cut between characters.
use native.Mathlib.Nat.{zero-add, suc-add}
use imapped.Base.{
  ℕ, zero, suc, ◌+◌, ◌-◌, ◌/◌, ◌<◌, ◌≤◌, ◌≡◌, refl, ap, ◌∙◌, sym, subst, inl, inr, Bool-cases, Bool,
  true, false, not, List, [], ◌∷◌, ◌++◌, arith, leb, ◌==◌, length, take, concat, All, Bool-cases,
  leb→le, leb→lt, length-append, if◌then◌else◌,
}

-- The two high bits of a byte that only continues a character are 10.
unfoldable pub utf8_start : ℕ → Bool
utf8_start b = not ((b / 64) == 2)

-- utf8Start(s[c]), of a place inside s.
unfoldable pub starts_at : List ℕ → ℕ → Bool
starts_at [] c = false
starts_at (b ∷ s) zero = utf8_start b
starts_at (b ∷ s) (suc c) = starts_at s c

-- The loop that moves the cut back.
unfoldable pub cut_back : List ℕ → ℕ → ℕ
cut_back s zero = zero
cut_back s (suc c) = let earlier = cut_back s c in if starts_at s (suc c) then suc c else earlier

unfoldable pub truncate : List ℕ → ℕ → List ℕ
truncate s n = if leb (length s) n then s else take (cut_back s n) s

-- A character: a byte that starts one, and bytes that continue it.
abbrev pub IsCharacter : List ℕ → Type 0
IsCharacter [] = ⊥
IsCharacter (b ∷ s) = (utf8_start b ≡ true) × All (λ c. utf8_start c ≡ false) s

-- The first characters that have room in n bytes together.
unfoldable pub fitting : ℕ → List (List ℕ) → List (List ℕ)
fitting n [] = []
fitting n (c ∷ cs) =
    let rest = fitting (n - length c) cs in if leb (length c) n then c ∷ rest else []

starts_at-append : (c s : List ℕ) (m : ℕ) → starts_at (c ++ s) (length c + m) ≡ starts_at s m
unfolding starts_at
starts_at-append [] s m = rw zero-add refl
starts_at-append (b ∷ c) s m = rw suc-add (starts_at-append c s m)

starts_at-continued :
    (c s : List ℕ) (m : ℕ)
    → m < length c
    → All (λ b. utf8_start b ≡ false) c
    → starts_at (c ++ s) m ≡ false
unfolding starts_at
starts_at-continued [] s m lt p = absurd (omega arith)
starts_at-continued (b ∷ c) s zero lt p = p.0
starts_at-continued (b ∷ c) s (suc m) lt p = starts_at-continued c s m (omega arith) p.1

cut_back-within : (c s : List ℕ) (m : ℕ) → IsCharacter c → m < length c → cut_back (c ++ s) m ≡ 0
unfolding cut_back starts_at
cut_back-within c s zero p lt = refl
cut_back-within [] s (suc m) p lt = absurd p
cut_back-within (b ∷ c) s (suc m) p lt =
    rw (starts_at-continued c s m (omega arith) p.1) (cut_back-within (b ∷ c) s m p (omega arith))

cut_back-stops : (s : List ℕ) (c : ℕ) → starts_at s c ≡ true → cut_back s c ≡ c
unfolding cut_back
cut_back-stops s zero h = refl
cut_back-stops s (suc c) h = rw (h) refl

cut_back-goes_on :
    (s : List ℕ) (k c : ℕ) → k ≡ suc c → starts_at s k ≡ false → cut_back s k ≡ cut_back s c
unfolding cut_back
cut_back-goes_on s k c e h = rw (e, subst (λ x. starts_at s x ≡ false) e h) refl

-- Where another character follows, the cut does not go back past the end of the first.
cut_back-past :
    (c : List ℕ) (b : ℕ) (s : List ℕ) (m : ℕ)
    → utf8_start b ≡ true
    → cut_back (c ++ b ∷ s) (length c + m) ≡ length c + cut_back (b ∷ s) m
unfolding cut_back starts_at
cut_back-past c b s zero p =
    cut_back-stops (c ++ b ∷ s) (length c + 0) (starts_at-append c (b ∷ s) 0 ∙ p)
cut_back-past c b s (suc m) p =
    let here = starts_at-append c (b ∷ s) (suc m) in
    elim (Bool-cases (starts_at (b ∷ s) (suc m))) [
      | inl h ↦
          cut_back-stops (c ++ b ∷ s) (length c + suc m) (here ∙ h)
          ∙ sym (ap (◌+◌ (length c)) (cut_back-stops (b ∷ s) (suc m) h))
      | inr h ↦
          cut_back-goes_on (c ++ b ∷ s) (length c + suc m) (length c + m) (omega arith) (here ∙ h)
          ∙ cut_back-past c b s m p
          ∙ sym (ap (◌+◌ (length c)) (cut_back-goes_on (b ∷ s) (suc m) m refl h))
    ]

take-append : (c s : List ℕ) (m : ℕ) → take (length c + m) (c ++ s) ≡ c ++ take m s
take-append [] s m = rw zero-add refl
take-append (b ∷ c) s m = rw suc-add (ap (◌∷◌ b) (take-append c s m))

le→leb : (a b : ℕ) → a ≤ b → leb a b ≡ true
le→leb a b h = ground arith

lt→leb : (a b : ℕ) → b < a → leb a b ≡ false
lt→leb a b h = ground arith

truncate-past :
    (c : List ℕ) (b : ℕ) (s : List ℕ) (m : ℕ)
    → utf8_start b ≡ true
    → truncate (c ++ b ∷ s) (length c + m) ≡ c ++ truncate (b ∷ s) m
unfolding truncate
truncate-past c b s m p =
    let long = length-append c (b ∷ s) in
    elim (Bool-cases (leb (length (b ∷ s)) m)) [
      | inl h ↦
          let room = leb→le (length (b ∷ s)) m h in
          rw (h, le→leb (length (c ++ b ∷ s)) (length c + m) (omega (arith, long, room))) refl
      | inr h ↦
          let more = leb→lt (length (b ∷ s)) m h in
          rw
            (
              h,
              lt→leb (length (c ++ b ∷ s)) (length c + m) (omega (arith, long, more)),
              cut_back-past c b s m p,
              take-append c (b ∷ s) (cut_back (b ∷ s) m),
            )
            refl
    ]

truncate-within : (c s : List ℕ) (n : ℕ) → IsCharacter c → n < length c → truncate (c ++ s) n ≡ []
unfolding truncate
truncate-within c s n p lt =
    rw (lt→leb (length (c ++ s)) n (omega (arith, length-append c s)), cut_back-within c s n p lt)
      refl

truncate-all : (s : List ℕ) (n : ℕ) → length s ≤ n → truncate s n ≡ s
unfolding truncate
truncate-all s n le = rw (le→leb (length s) n le) refl

-- When the first character has room, the rest is cut to what is left.
truncate-first :
    (c : List ℕ) (cs : List (List ℕ)) (m : ℕ)
    → All IsCharacter cs
    → truncate (c ++ concat cs) (length c + m) ≡ c ++ truncate (concat cs) m
truncate-first c [] m p =
    truncate-all (c ++ []) (length c + m) (omega (arith, length-append c []))
    ∙ ap (◌++◌ c) (sym (truncate-all [] m (omega arith)))
truncate-first c ([] ∷ cs) m p = absurd p.0
truncate-first c ((b ∷ d) ∷ cs) m p = truncate-past c b (d ++ concat cs) m p.0.0

-- A text of whole characters is cut to the first of them that have room in n bytes together.
pub truncate-fits :
    (cs : List (List ℕ)) (n : ℕ)
    → All IsCharacter cs
    → truncate (concat cs) n ≡ concat (fitting n cs)
unfolding fitting
truncate-fits [] n p = truncate-all [] n (omega arith)
truncate-fits (c ∷ cs) n p = elim (Bool-cases (leb (length c) n)) [
  | inl h ↦
      let room = leb→le (length c) n h in
      rw (h) (
        ap (truncate (c ++ concat cs)) (omega (arith, room))
        ∙ truncate-first c cs (n - length c) p.1
        ∙ ap (◌++◌ c) (truncate-fits cs (n - length c) p.1))
  | inr h ↦ rw (h) (truncate-within c (concat cs) n p.0 (leb→lt (length c) n h))
]
