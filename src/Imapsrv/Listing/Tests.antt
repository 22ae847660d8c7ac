-- ===== src/Imapsrv/Listing/Tests.antt =====
-- Patterns of LIST, and an instance of the theorem about them.
use imapped.Base.{◌≡◌, ◌↔◌, refl, true, false, [], ◌∷◌}
use imapped.Base.Text
use imapped.Base.Text.{codes}
use imapped.Imapsrv.Listing.{match_pattern, matches_any}
use imapped.Imapsrv.Listing.Levels.{Lists, match_pattern-Lists}

-- One level, and not the next one.
one_level : match_pattern (codes "Work/2024") (codes "Work/%") ≡ true
unfolding match_pattern Text.same
one_level = refl

not_two : match_pattern (codes "Work/2024") (codes "%") ≡ false
unfolding match_pattern Text.same
not_two = refl

match_pattern-Lists_example :
    (match_pattern (codes "Work/2024") (codes "Work/%") ≡ true)
    ↔ Lists (codes "Work/%") (codes "Work/2024")
match_pattern-Lists_example =
    match_pattern-Lists (codes "Work/2024") (codes "Work/%")
      (refl, (refl, (refl, (refl, (refl, (refl, tt)))))) refl

-- A star that is not alone does not match a separator.
star_stops : match_pattern (codes "Work/2024") (codes "W*") ≡ false
unfolding match_pattern Text.same
star_stops = refl

-- A bracket of a mailbox name is read as a class of characters.
bracket_is_class : match_pattern (codes "[Gmail]/Sent") (codes "[Gmail]/%") ≡ false
unfolding match_pattern Text.same
bracket_is_class = refl

-- With a reference, the names are those below it with the reference in front once more.
reference_twice : matches_any (codes "Work/2024") (codes "Work/") (codes "2024" ∷ []) ≡ false
unfolding matches_any Text.same Text.equal_fold
reference_twice = refl
