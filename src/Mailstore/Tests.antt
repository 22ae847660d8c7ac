-- ===== src/Mailstore/Tests.antt =====
-- Text with characters of one, two and three bytes, cut.
use imapped.Base.{◌≡◌, refl, List, [], ◌∷◌, ℕ, concat}
use imapped.Base.Text
use imapped.Base.Text.{codes}
use imapped.Mailstore.Markup.{
  strip_html, make_preview, strip_loop, strip_step, skip_step, text_step, decode_entities,
  replace_entities, entity, join_fields,
}
use imapped.Mailstore.Truncate.{truncate, fitting, utf8_start, starts_at, cut_back, truncate-fits}

abbrev characters : List (List ℕ)
characters = (72 ∷ []) ∷ (195 ∷ 169 ∷ []) ∷ (226 ∷ 130 ∷ 172 ∷ []) ∷ (33 ∷ []) ∷ []

-- The third character would end at the sixth byte.
cut_at_five : truncate (concat characters) 5 ≡ 72 ∷ 195 ∷ 169 ∷ []
unfolding truncate cut_back starts_at utf8_start
cut_at_five = refl

no_cut : truncate (concat characters) 7 ≡ concat characters
unfolding truncate cut_back starts_at utf8_start
no_cut = refl

truncate-fits_example : truncate (concat characters) 5 ≡ concat (fitting 5 characters)
unfolding utf8_start
truncate-fits_example =
    truncate-fits characters 5
      ((refl, tt), ((refl, (refl, tt)), ((refl, (refl, (refl, tt))), ((refl, tt), tt))))

-- A script in capitals and the tags are left out, and an entity is decoded once.
readable :
    strip_html (codes "<p>A &amp;lt; B</p>\n<SCRIPT>x > 1</Script><b>C</b>") ≡ codes "A &lt; B C"
unfolding strip_html strip_loop strip_step skip_step text_step decode_entities replace_entities
    entity join_fields Text.has_prefix Text.to_lower
readable = refl

-- A script that is not closed takes the rest of the text.
unclosed : strip_html (codes "A<script src=x>B") ≡ codes "A"
unfolding strip_html strip_loop strip_step skip_step text_step decode_entities replace_entities
    entity join_fields Text.has_prefix Text.to_lower
unclosed = refl

one_line : make_preview (codes " Dear  J,\n\nyes ") ≡ codes "Dear J, yes"
unfolding make_preview join_fields truncate
one_line = refl
