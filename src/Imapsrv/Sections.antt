-- ===== src/Imapsrv/Sections.antt =====
-- internal/imapsrv/fetch.go: what a FETCH of a section serves. Contents are lists of bytes; the form
-- of a date (time.Format) is a parameter.
pub mod Parts
use imapped.Base.{
  ℕ, zero, suc, ◌+◌, ◌-◌, Bool, true, false, ◌&&◌, ◌||◌, not, Option, none, some, List, [], ◌∷◌,
  ◌++◌, ltb, leb, ◌==◌, if◌then◌else◌, take, drop, length, any, is_empty, reverse,
}
use imapped.Base.Text
use imapped.Base.Text.{Text, codes}

abbrev pub crlf : Text
crlf = 13 ∷ 10 ∷ []

unfoldable pub apply_partial : List ℕ → ℕ → ℕ → List ℕ
apply_partial content offset size =
    if leb (length content) offset
    then []
    else let rest = drop offset content in
      if ltb 0 size && ltb size (length rest) then take size rest else rest

-- headerBytes
unfoldable pub header_bytes : Text → Text
header_bytes raw = elim (Text.index raw (crlf ++ crlf)) [
  | some i ↦ take (i + 4) raw
  | none ↦ elim (Text.index raw (10 ∷ 10 ∷ [])) [ some i ↦ take (i + 2) raw | none ↦ raw ]
]

-- textBytes
unfoldable pub text_bytes : Text → Text
text_bytes raw = elim (Text.index raw (crlf ++ crlf)) [
  | some i ↦ drop (i + 4) raw
  | none ↦ elim (Text.index raw (10 ∷ 10 ∷ [])) [ some i ↦ drop (i + 2) raw | none ↦ [] ]
]

-- What the store knows of a message (store.MessageSummary). A zero date counts as none.
pub record Summary : Type 0 where
  pub mailbox_message_id : ℕ
  pub local_uid : ℕ
  pub upstream_uid : ℕ
  pub flags : List Text
  pub size : ℕ
  pub subject : Text
  pub message_id_hdr : Text
  pub from : List Text
  pub to : List Text
  pub cc : List Text
  pub preview : Text
  pub sent_date : Option ℕ
  pub internal_date : Option ℕ
  pub body_state : Text

abbrev pub join : Text → List Text → Text
join sep [] = []
join sep (t ∷ ts) = elim ts [ [] ↦ t | u ∷ us ↦ t ++ (sep ++ join sep ts) ]

unfoldable pub header_date : Summary → Option ℕ
header_date m = elim m.sent_date [ some d ↦ some d | none ↦ m.internal_date ]

abbrev pub has_suffix : Text → Text → Bool
has_suffix s p = Text.has_prefix (reverse s) (reverse p)

unfoldable pub angled : Text → Text
angled id =
    if Text.has_prefix id (codes "<") && has_suffix id (codes ">")
    then id
    else codes "<" ++ (id ++ codes ">")

abbrev pub address_line : Text → List Text → Text
address_line name values =
    if is_empty values then [] else name ++ (codes ": " ++ (join (codes ", ") values ++ crlf))

unfoldable pub synthesise_header : (ℕ → Text) → Summary → Text
unfolding header_date angled
synthesise_header format m =
    address_line (codes "From") m.from
    ++ (address_line (codes "To") m.to
        ++ (address_line (codes "Cc") m.cc
            ++ ((if is_empty m.subject then [] else codes "Subject: " ++ (m.subject ++ crlf))
                ++ ((if is_empty m.message_id_hdr
                      then []
                      else codes "Message-ID: " ++ (angled m.message_id_hdr ++ crlf))
                    ++ ((elim (header_date m) [
                      | none ↦ []
                      | some d ↦ codes "Date: " ++ (format d ++ crlf)
                    ])
                        ++ (codes "X-Imapped-Body-State: " ++ (m.body_state ++ (crlf ++ crlf))))))))

-- strings.Split s "\r\n"; the text so far of the current line is reversed.
unfoldable pub split_lines : Text → Text → List Text
split_lines line [] = reverse line ∷ []
split_lines line (c ∷ []) = reverse (c ∷ line) ∷ []
split_lines line (c ∷ d ∷ s) =
    let after = split_lines [] s in
    let on = split_lines (c ∷ line) (d ∷ s) in
    if c == 13 && d == 10 then reverse line ∷ after else on

-- The text before the first colon, when there is one.
unfoldable pub cut_colon : Text → Option Text
cut_colon [] = none
cut_colon (c ∷ s) =
    let rest = cut_colon s in
    if c == b':' then some [] else elim rest [ none ↦ none | some t ↦ some (c ∷ t) ]

abbrev pub is_space : ℕ → Bool
is_space c = c == 32 || (leb 9 c && leb c 13)

abbrev pub trim_left : Text → Text
trim_left [] = []
trim_left (c ∷ s) = if is_space c then trim_left s else c ∷ s

-- strings.TrimSpace
abbrev pub trim_space : Text → Text
trim_space s = reverse (trim_left (reverse (trim_left s)))

abbrev pub continues : Text → Bool
continues [] = false
continues (c ∷ s) = c == 32 || c == 9

abbrev pub differs : Bool → Bool → Bool
differs true b = not b
differs false b = b

-- The loop over the lines; `keep` says whether the current field is kept.
unfoldable pub select_lines : List Text → Bool → Bool → List Text → Text
unfolding cut_colon
select_lines fields exclude keep [] = []
select_lines fields exclude keep (line ∷ lines) =
    if is_empty line
    then select_lines fields exclude keep lines
    else if continues line
    then if keep
      then line ++ (crlf ++ select_lines fields exclude keep lines)
      else select_lines fields exclude keep lines
    else elim (cut_colon line) [
      | none ↦ select_lines fields exclude keep lines
      | some name ↦
          let wanted =
            any (λ f. Text.same (Text.to_lower f) (Text.to_lower (trim_space name))) fields in
          if differs wanted exclude
          then line ++ (crlf ++ select_lines fields exclude true lines)
          else select_lines fields exclude false lines
    ]

unfoldable pub select_header_fields : Text → List Text → Bool → Text
unfolding select_lines split_lines
select_header_fields header fields exclude =
    select_lines fields exclude false (split_lines [] header) ++ crlf

pub data Specifier : Type 0 where
  whole header text mime : Specifier

pub record Section : Type 0 where
  pub specifier : Specifier
  pub header_fields : List Text
  pub header_fields_not : List Text
  pub partial : Option (ℕ × ℕ)

-- The content that writeSection sends.
unfoldable pub section_content : (ℕ → Text) → Section → Text → Summary → Text
unfolding header_bytes text_bytes synthesise_header select_header_fields apply_partial
section_content format section raw summary =
    let headers = header_bytes raw in
    let block = if is_empty headers then synthesise_header format summary else headers in
    let content : Text = elim section.specifier [
      | whole ↦ raw
      | mime ↦ raw
      | text ↦ text_bytes raw
      | header ↦
          if not (is_empty section.header_fields)
          then select_header_fields block section.header_fields false
          else if not (is_empty section.header_fields_not)
          then select_header_fields block section.header_fields_not true
          else block
    ] in
    elim section.partial [ none ↦ content | some r ↦ apply_partial content r.0 r.1 ]
