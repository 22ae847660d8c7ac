-- ===== src/Imapsrv/Listing/Levels.antt =====
-- internal/imapsrv/list.go: what a pattern with `%` and no other wildcard lists.
use imapped.Base.{
  ℕ, ◌≡◌, ◌↔◌, refl, sym, subst, inl, inr, Bool, true, false, ◌&&◌, ◌||◌, some, [], ◌∷◌, map, arith,
  ◌==◌, if◌then◌else◌, length, any, All, Bool-cases,
}
use imapped.Base.Text
use imapped.Base.Text.{Text, codes}
use imapped.Imapsrv.Listing.{
  Term, star, literal, terms, starred, matches_terms, path_match, percent_to_star, slashes,
  match_pattern,
}

-- RFC 9051, 6.3.9: a `%` stands for any characters but the hierarchy separator.
pub data Lists : Text → Text → Type 0 where
  nothing_left : Lists [] []
  same_character : {c : ℕ} {p s : Text} → (c == b'%') ≡ false → Lists p s → Lists (c ∷ p) (c ∷ s)
  level_ends : {p s : Text} → Lists p s → Lists (b'%' ∷ p) s
  level_goes_on :
      {c : ℕ} {p s : Text} → (c == b'/') ≡ false → Lists (b'%' ∷ p) s → Lists (b'%' ∷ p) (c ∷ s)

-- Characters that are not special to path.Match.
abbrev pub IsPlain : ℕ → Type 0
IsPlain c = (c == b'*' || (c == b'?' || (c == b'\\' || c == b'['))) ≡ false

abbrev term_of : ℕ → Term
term_of c = if c == b'%' then star else literal c

terms_of_plain :
    (p : Text)
    → All IsPlain p
    → terms (length (percent_to_star p)) (percent_to_star p) ≡ some (map term_of p)
unfolding terms percent_to_star
terms_of_plain [] h = refl
terms_of_plain (c ∷ p) h = elim (Bool-cases (c == b'%')) [
  | inl e ↦ rw (e, terms, percent_to_star) (rw (terms_of_plain p h.1) refl)
  | inr e ↦
      let a : (c == b'*') ≡ false = ground (arith, h.0) in
      let b : (c == b'?') ≡ false = ground (arith, h.0) in
      let d : (c == b'\\') ≡ false = ground (arith, h.0) in
      let f : (c == b'[') ≡ false = ground (arith, h.0) in
      rw (e, terms, percent_to_star) (rw a (rw b (rw d (rw f (rw (terms_of_plain p h.1) refl)))))
]

Lists-slashes : {p s : Text} → Lists p s → slashes s ≡ slashes p
Lists-slashes nothing_left = refl
Lists-slashes (same_character {c} e l) = ground (arith, Lists-slashes l)
Lists-slashes (level_ends l) = Lists-slashes l
Lists-slashes (level_goes_on e l) = ground (arith, e, Lists-slashes l)

starred_sound :
    (p s : Text)
    → ((t : Text) → matches_terms (map term_of p) t ≡ true → Lists p t)
    → starred (matches_terms (map term_of p)) s ≡ true
    → Lists (b'%' ∷ p) s
unfolding starred
starred_sound p [] f h = level_ends (f [] h)
starred_sound p (c ∷ s) f h = elim (Bool-cases (matches_terms (map term_of p) (c ∷ s))) [
  | inl e ↦ level_ends (f (c ∷ s) e)
  | inr e ↦ level_goes_on (ground (arith, e, h)) (starred_sound p s f (ground (arith, e, h)))
]

literal_sound :
    (d : ℕ) (p s : Text)
    → (d == b'%') ≡ false
    → ((t : Text) → matches_terms (map term_of p) t ≡ true → Lists p t)
    → matches_terms (literal d ∷ map term_of p) s ≡ true
    → Lists (d ∷ p) s
unfolding matches_terms
literal_sound d p [] e f h = cc
literal_sound d p (c ∷ s) e f h =
    let same : c ≡ d = ground (arith, h) in
    subst (λ x. Lists (d ∷ p) (x ∷ s)) (sym same) (same_character e (f s (ground (arith, h))))

sound : (p s : Text) → matches_terms (map term_of p) s ≡ true → Lists p s
unfolding matches_terms
sound [] [] h = nothing_left
sound [] (c ∷ s) h = cc
sound (d ∷ p) s h = elim (Bool-cases (d == b'%')) [
  | inl e ↦
      let percent : d ≡ b'%' = ground (arith, e) in
      subst (λ x. Lists (x ∷ p) s) (sym percent) (starred_sound p s (sound p) (rw e at h))
  | inr e ↦ literal_sound d p s e (sound p) (rw e at h)
]

starred_here : (f : Text → Bool) (s : Text) → f s ≡ true → starred f s ≡ true
unfolding starred
starred_here f [] h = h
starred_here f (c ∷ s) h = ground (arith, h)

complete : {p s : Text} → Lists p s → matches_terms (map term_of p) s ≡ true
unfolding matches_terms starred
complete nothing_left = refl
complete (same_character {c} {p} {s} e l) = rw e (ground (arith, complete l))
complete (level_ends {p} {s} l) = starred_here (matches_terms (map term_of p)) s (complete l)
complete (level_goes_on {c} {p} {s} e l) = ground (arith, e, complete l)

no_star : (p : Text) → All IsPlain p → any (λ c. c == b'*') p ≡ false
no_star [] h = refl
no_star (c ∷ p) h = ground (arith, h.0, no_star p h.1)

has_wildcard :
    (p : Text) → any (λ c. c == b'%') p ≡ true → any (λ c. c == b'*' || c == b'%') p ≡ true
has_wildcard [] k = k
has_wildcard (c ∷ p) k = ground (arith, k, has_wildcard p)

not_star : (p : Text) → All IsPlain p → Text.same p (codes "*") ≡ false
unfolding Text.same
not_star [] h = refl
not_star (c ∷ p) h = ground (arith, h.0)

path_match-terms :
    (name pattern : Text)
    → All IsPlain pattern
    → path_match (percent_to_star pattern) name ≡ matches_terms (map term_of pattern) name
unfolding path_match
path_match-terms name pattern h = rw (terms_of_plain pattern h, path_match) refl

match_pattern-terms :
    (name pattern : Text)
    → All IsPlain pattern
    → any (λ c. c == b'%') pattern ≡ true
    → match_pattern name pattern
      ≡ (matches_terms (map term_of pattern) name && slashes name == slashes pattern)
unfolding match_pattern
match_pattern-terms name pattern h k =
    rw (not_star pattern h, match_pattern)
      (rw (has_wildcard pattern k)
        (rw (no_star pattern h) (rw (path_match-terms name pattern h) refl)))

-- A pattern with a percent sign, and with no other character that path.Match treats specially,
-- lists a name if and only if the name arises from it by replacing each percent sign by characters
-- other than the hierarchy separator.
pub match_pattern-Lists :
    (name pattern : Text)
    → All IsPlain pattern
    → any (λ c. c == b'%') pattern ≡ true
    → (match_pattern name pattern ≡ true) ↔ Lists pattern name
match_pattern-Lists name pattern h k =
    let same = match_pattern-terms name pattern h k in
    (
      λ m. sound pattern name (ground (arith, m, same)),
      λ l. ground (arith, same, complete l, Lists-slashes l),
    )
