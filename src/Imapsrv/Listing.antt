-- ===== src/Imapsrv/Listing.antt =====
-- internal/imapsrv/list.go: the patterns of LIST. path.Match is translated from its documentation:
-- `*` and `?` stop at a slash, `[` opens a class, a backslash quotes, and a malformed pattern is an
-- error, which the callers take for no match. A character is a byte here.
pub mod Levels
mod Tests
use imapped.Base.{
  ℕ, zero, suc, ◌+◌, Bool, true, false, ◌&&◌, ◌||◌, not, Option, none, some, List, [], ◌∷◌, ◌++◌,
  map, leb, ◌==◌, if◌then◌else◌, length, is_empty, any, count, reverse,
}
use imapped.Base.Text
use imapped.Base.Text.{Text, codes}

-- A range of a class, and the terms of a pattern.
pub data Term : Type 0 where
  star any_one : Term
  literal : ℕ → Term
  one_of : Bool → List (ℕ × ℕ) → Term

-- One end of a range: a character, or one behind a backslash; `-`, `]` and the end are errors.
abbrev range_end : Text → Option (ℕ × Text)
range_end [] = none
range_end (c ∷ s) =
    if c == b'\\'
    then elim s [ [] ↦ none | ◌∷◌ d t ↦ some (d, t) ]
    else if c == b'-' || c == b']'
    then none
    else some (c, s)

-- The ranges up to the bracket; at least one must stand before it.
unfoldable pub class_ranges : ℕ → Text → List (ℕ × ℕ) → Option (List (ℕ × ℕ) × Text)
class_ranges zero s done = none
class_ranges (suc fuel) [] done = none
class_ranges (suc fuel) (c ∷ s) done =
    if c == b']' && not (is_empty done) then some (done, s) else elim (range_end (c ∷ s)) [
      | none ↦ none
      | some low ↦ elim low.1 [
        | [] ↦ none
        | ◌∷◌ d t ↦
            if d == b'-'
            then elim (range_end t) [
              | none ↦ none
              | some high ↦ class_ranges fuel high.1 ((low.0, high.0) ∷ done)
            ]
            else class_ranges fuel low.1 ((low.0, low.0) ∷ done)
      ]
    ]

abbrev prepend : Term → Option (List Term) → Option (List Term)
prepend t none = none
prepend t (some ts) = some (t ∷ ts)

-- The fuel is the length of the pattern; each round uses up a character.
unfoldable pub terms : ℕ → Text → Option (List Term)
unfolding class_ranges
terms zero [] = some []
terms zero (c ∷ s) = none
terms (suc fuel) [] = some []
terms (suc fuel) (c ∷ s) =
    let rest = terms fuel s in
    if c == b'*'
    then prepend star rest
    else if c == b'?'
    then prepend any_one rest
    else if c == b'\\'
    then elim s [ [] ↦ none | ◌∷◌ d r ↦ prepend (literal d) (terms fuel r) ]
    else if c == b'['
    then (let negated : Bool = elim s [ [] ↦ false | ◌∷◌ d r ↦ d == b'^' ] in
        let inside : Text = elim s [ [] ↦ [] | ◌∷◌ d r ↦ if d == b'^' then r else d ∷ r ] in
        elim (class_ranges fuel inside []) [
          | none ↦ none
          | some x ↦ prepend (one_of negated x.0) (terms fuel x.1)
        ])
    else prepend (literal c) rest

abbrev in_class : List (ℕ × ℕ) → ℕ → Bool
in_class ranges c = any (λ r. leb r.0 c && leb c r.1) ranges

-- A star in front of the rest of a pattern.
unfoldable pub starred : (Text → Bool) → Text → Bool
starred rest [] = rest []
starred rest (c ∷ s) = rest (c ∷ s) || (not (c == b'/') && starred rest s)

unfoldable pub matches_terms : List Term → Text → Bool
unfolding starred
matches_terms [] s = is_empty s
matches_terms (star ∷ ts) s = starred (matches_terms ts) s
matches_terms (any_one ∷ ts) [] = false
matches_terms (any_one ∷ ts) (c ∷ s) = not (c == b'/') && matches_terms ts s
matches_terms (literal d ∷ ts) [] = false
matches_terms (literal d ∷ ts) (c ∷ s) = c == d && matches_terms ts s
matches_terms (one_of negated ranges ∷ ts) [] = false
matches_terms (one_of negated ranges ∷ ts) (c ∷ s) =
    (if negated then not (in_class ranges c) else in_class ranges c) && matches_terms ts s

-- path.Match, with an error as false.
unfoldable pub path_match : Text → Text → Bool
unfolding terms matches_terms
path_match pattern name = elim (terms (length pattern) pattern) [
  | none ↦ false
  | some ts ↦ matches_terms ts name
]

-- strings.ReplaceAll pattern "%" "*"
unfoldable pub percent_to_star : Text → Text
percent_to_star = map λ c. if c == b'%' then b'*' else c

abbrev pub slashes : Text → ℕ
slashes = count λ c. c == b'/'

unfoldable pub match_pattern : Text → Text → Bool
unfolding path_match percent_to_star
match_pattern name pattern =
    if Text.same pattern (codes "*")
    then true
    else if not (any (λ c. c == b'*' || c == b'%') pattern)
    then Text.equal_fold name pattern
    else if not (any (λ c. c == b'*') pattern)
    then path_match (percent_to_star pattern) name && slashes name == slashes pattern
    else path_match pattern name

-- strings.TrimSuffix ref "/"
abbrev trim_slash : Text → Text
trim_slash [] = []
trim_slash (c ∷ s) = if c == b'/' && is_empty s then [] else c ∷ trim_slash s

unfoldable pub matches_any : Text → Text → List Text → Bool
unfolding match_pattern
matches_any name ref patterns =
    let full = if is_empty ref then name else trim_slash ref ++ b'/' ∷ name in
    any (match_pattern full) patterns
