-- ===== src/Imapsrv/Addresses.antt =====
-- internal/imapsrv/list.go: the addresses of an envelope, from the strings that are stored.
pub mod Displayed
mod Tests
use imapped.Base.{
  ℕ, zero, suc, ◌+◌, ◌-◌, Bool, true, false, Option, none, some, List, [], ◌∷◌, map, ltb, ◌==◌,
  take, drop, if◌then◌else◌,
}
use imapped.Base.Text.{Text}
use imapped.Imapsrv.Sections.{trim_space}

-- imap.Address
pub record Address : Type 0 where
  pub name : Text
  pub mailbox : Text
  pub host : Text

-- strings.LastIndex, of one character
unfoldable pub last_index : ℕ → Text → Option ℕ
last_index c [] = none
last_index c (d ∷ s) = elim (last_index c s) [
  | some i ↦ some (suc i)
  | none ↦ if d == c then some 0 else none
]

abbrev bare : Text → Text × Text
bare value = ([], trim_space value)

unfoldable pub split_address : Text → Text × Text
unfolding last_index
split_address value = elim (last_index b'<' value) [
  | none ↦ bare value
  | some start ↦ elim (last_index b'>' value) [
    | none ↦ bare value
    | some stop ↦
        if ltb start stop
        then (trim_space (take start value), take (stop - suc start) (drop (suc start) value))
        else bare value
  ]
]

-- strings.Cut(addr, "@"); without the sign everything is the mailbox.
unfoldable pub cut_at : Text → Text × Text
cut_at [] = ([], [])
cut_at (c ∷ s) = let rest = cut_at s in if c == b'@' then ([], s) else (c ∷ rest.0, rest.1)

unfoldable pub to_address : Text → Address
unfolding split_address cut_at
to_address value =
    let a = split_address value in
    let m = cut_at a.1 in record { name = a.0; mailbox = m.0; host = m.1 }

unfoldable pub to_addresses : List Text → List Address
unfolding to_address
to_addresses = map to_address
