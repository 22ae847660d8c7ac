-- ===== src/Syncer/Headers/Quoting.antt =====
-- Display names in stored addresses.
use imapped.Base.{
  ℕ, ◌≡◌, refl, ap, inl, inr, Bool, true, false, ◌||◌, Option, none, some, [], ◌∷◌, ◌++◌, arith,
  ◌==◌, if◌then◌else◌, any, Bool-cases, append_assoc,
}
use imapped.Base.Text.{Text}
use imapped.Syncer.Headers.{is_special, escape, quote_display_name}

abbrev pub and_then : ℕ → Option (Text × Text) → Option (Text × Text)
and_then c none = none
and_then c (some r) = some (c ∷ r.0, r.1)

-- A quoted string of RFC 5322 after its opening quote, or after a backslash in it: what it stands
-- for, and what follows it.
abbrev pub read_quoted : Bool → Text → Option (Text × Text)
read_quoted escaped [] = none
read_quoted true (c ∷ cs) = and_then c (read_quoted false cs)
read_quoted false (c ∷ cs) =
    let next = read_quoted true cs in
    let plain = and_then c (read_quoted false cs) in
    if c == 34 then some ([], cs) else if c == 92 then next else plain

abbrev pub read_string : Text → Option (Text × Text)
read_string [] = none
read_string (c ∷ cs) = if c == 34 then read_quoted false cs else none

read_quoted-escape :
    (name rest : Text) → read_quoted false (escape name ++ 34 ∷ rest) ≡ some (name, rest)
read_quoted-escape [] rest = refl
read_quoted-escape (c ∷ cs) rest = elim (Bool-cases (c == 92 || c == 34)) [
  | inl e ↦ rw e (rw (read_quoted-escape cs rest) refl)
  | inr e ↦
      rw e (
        ground (arith, e, read_quoted-escape cs rest, ap (and_then c) (read_quoted-escape cs rest)))
]

-- A display name with special characters is stored as a quoted string that a mail client reads
-- back as the same name, whatever quotes and backslashes are in it and whatever follows it.
pub quote_display_name-reads :
    (name rest : Text)
    → any is_special name ≡ true
    → read_string (quote_display_name name ++ rest) ≡ some (name, rest)
unfolding quote_display_name
quote_display_name-reads name rest h =
    rw h (rw (append_assoc (escape name) (34 ∷ []) rest) (read_quoted-escape name rest))
