-- ===== src/Mailstore/Markup.antt =====
-- internal/mailstore/parse.go: the readable text of an HTML body, and previews. A blank is a byte of
-- ASCII.
use imapped.Base.{
  ℕ, zero, suc, ◌-◌, Bool, true, false, Option, none, some, [], ◌∷◌, ◌++◌, ◌==◌, if◌then◌else◌,
  is_empty, length,
}
use imapped.Base.Text
use imapped.Base.Text.{Text, codes}
use imapped.Imapsrv.Sections.{is_space}
use imapped.Mailstore.Truncate.{truncate}

-- The variables of the loop, and how many bytes the jump behind a closing tag has left.
pub record Strip : Type 0 where
  pub in_tag : Bool
  pub skip_until : Text
  pub jump : ℕ

-- strings.HasPrefix of the lower-case text
abbrev opens : Text → Text → Bool
opens html tag = Text.has_prefix (Text.to_lower html) tag

-- Bytes that stand inside `until`.
unfoldable pub skip_step : Strip → Text → Strip
skip_step st html =
    if opens html st.skip_until
    then record st { skip_until = []; jump = length st.skip_until - 1 }
    else st

unfoldable pub text_step : Strip → ℕ → Text → Strip × Text
text_step st c s =
    if c == b'<'
    then (if opens (c ∷ s) (codes "<script")
        then (record st { skip_until = codes "</script>" }, [])
        else if opens (c ∷ s) (codes "<style")
        then (record st { skip_until = codes "</style>" }, [])
        else (record st { in_tag = true }, []))
    else if c == b'>'
    then (record st { in_tag = false }, 32 ∷ [])
    else (st, if st.in_tag then [] else c ∷ [])

-- The state behind a byte, and what is written for it.
unfoldable pub strip_step : Strip → ℕ → Text → Strip × Text
unfolding skip_step text_step
strip_step st c s = elim st.jump [
  | suc n ↦ (record st { jump = n }, [])
  | zero ↦ if is_empty st.skip_until then text_step st c s else (skip_step st (c ∷ s), [])
]

unfoldable pub strip_loop : Strip → Text → Text
unfolding strip_step
strip_loop st [] = []
strip_loop st (c ∷ s) = let r = strip_step st c s in r.1 ++ strip_loop r.0 s

-- A byte of the result, the entity's or the one that stands there, and the bytes to jump over.
unfoldable pub entity : Text → Option (ℕ × ℕ)
entity s =
    if Text.has_prefix s (codes "&nbsp;")
    then some (32, 5)
    else if Text.has_prefix s (codes "&amp;")
    then some (38, 4)
    else if Text.has_prefix s (codes "&lt;")
    then some (60, 3)
    else if Text.has_prefix s (codes "&gt;")
    then some (62, 3)
    else if Text.has_prefix s (codes "&quot;")
    then some (34, 5)
    else if Text.has_prefix s (codes "&#39;")
    then some (39, 4)
    else if Text.has_prefix s (codes "&apos;")
    then some (39, 5)
    else none

unfoldable pub replace_entities : ℕ → Text → Text
unfolding entity
replace_entities jump [] = []
replace_entities (suc n) (c ∷ s) = replace_entities n s
replace_entities zero (c ∷ s) = elim (entity (c ∷ s)) [
  | none ↦ c ∷ replace_entities 0 s
  | some x ↦ x.0 ∷ replace_entities x.1 s
]

unfoldable pub decode_entities : Text → Text
unfolding replace_entities
decode_entities = replace_entities 0

-- strings.Join (strings.Fields s) " ": `blank` says that a blank stands in front of the rest, `begun`
-- that a word has been written.
unfoldable pub join_fields : Bool → Bool → Text → Text
join_fields blank begun [] = []
join_fields blank begun (c ∷ s) =
    let over = join_fields true begun s in
    let rest = join_fields false true s in
    if is_space c
    then over
    else if blank
    then (if begun then 32 ∷ c ∷ rest else c ∷ rest)
    else c ∷ rest

unfoldable pub strip_html : Text → Text
unfolding strip_loop decode_entities join_fields
strip_html html =
    join_fields true false
      (decode_entities (strip_loop (record { in_tag = false; skip_until = []; jump = 0 }) html))

unfoldable pub make_preview : Text → Text
unfolding join_fields truncate
make_preview body = truncate (join_fields true false body) 300
