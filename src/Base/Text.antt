-- ===== src/Base/Text.antt =====
-- Text as the list of its bytes, with the functions of Go's `strings` package that the program uses.
-- Case folding is that of ASCII, which covers the names of flags, mailboxes and header fields.
use Prim.Native.Nat.{ℕ, zero, suc, ◌+◌, ◌/◌, ◌%◌}
use Prim.Native.Char.{code}
use Prim.Native.String.{String}
use mathlib.Core.Bool.{Bool, true, false, ◌&&◌}
use mathlib.Core.Path.{◌≡◌, refl}
use mathlib.Core.List.{List, [], ◌∷◌, ◌++◌, map}
use mathlib.Core.Option
use mathlib.Core.Option.{Option, none, some}
use native.Mathlib.Omega.{arith}
use imapped.Base.Tests.{leb, ltb, ◌==◌, if◌then◌else◌}

abbrev pub Text : Type 0
Text = List ℕ

-- The bytes of a literal in ASCII. `String` has its own `[]` and `∷`.
abbrev pub codes : String → Text
codes String.[] = []
codes (String.◌∷◌ c s) = code c ∷ codes s

unfoldable pub same : Text → Text → Bool
same [] [] = true
same [] (b ∷ bs) = false
same (a ∷ as') [] = false
same (a ∷ as') (b ∷ bs) = a == b && same as' bs

unfoldable pub lower : ℕ → ℕ
lower c = if leb b'A' c && leb c b'Z' then c + 32 else c

-- strings.ToLower
unfoldable pub to_lower : Text → Text
unfolding lower
to_lower s = map lower s

-- strings.EqualFold
unfoldable pub equal_fold : Text → Text → Bool
unfolding lower
equal_fold [] [] = true
equal_fold [] (b ∷ bs) = false
equal_fold (a ∷ as') [] = false
equal_fold (a ∷ as') (b ∷ bs) = lower a == lower b && equal_fold as' bs

-- strings.HasPrefix s p
unfoldable pub has_prefix : Text → Text → Bool
has_prefix s [] = true
has_prefix [] (b ∷ bs) = false
has_prefix (a ∷ as') (b ∷ bs) = a == b && has_prefix as' bs

-- strings.Index: where the pattern first stands.
unfoldable pub index : Text → Text → Option ℕ
unfolding has_prefix
index [] p = if has_prefix [] p then some 0 else none
index (c ∷ s) p =
    let rest = index s p in if has_prefix (c ∷ s) p then some 0 else Option.map suc rest

unfoldable pub contains : Text → Text → Bool
unfolding index
contains s p = elim (index s p) [ none ↦ false | some i ↦ true ]

-- A number in decimal (the %d of fmt). The fuel is at least the number of digits.
unfoldable pub decimal_fuel : ℕ → ℕ → Text
decimal_fuel zero n = []
decimal_fuel (suc fuel) n =
    let rest = decimal_fuel fuel (n / 10) in
    if ltb n 10 then (48 + n) ∷ [] else rest ++ (48 + n % 10) ∷ []

unfoldable pub decimal : ℕ → Text
unfolding decimal_fuel
decimal n = decimal_fuel (suc n) n

pub same-eq : (a b : Text) → same a b ≡ true → a ≡ b
unfolding same
same-eq [] [] h = refl
same-eq [] (b ∷ bs) h = cc
same-eq (a ∷ as') [] h = cc
same-eq (a ∷ as') (b ∷ bs) h = ground (arith, same-eq as' bs)

pub same_refl : (a : Text) → same a a ≡ true
unfolding same
same_refl [] = refl
same_refl (a ∷ as') = ground (arith, same_refl as')

pub equal_fold_refl : (a : Text) → equal_fold a a ≡ true
unfolding equal_fold
equal_fold_refl [] = refl
equal_fold_refl (a ∷ as') = ground (arith, equal_fold_refl as')

pub equal_fold_sym : (a b : Text) → equal_fold a b ≡ equal_fold b a
unfolding equal_fold
equal_fold_sym [] [] = refl
equal_fold_sym [] (b ∷ bs) = refl
equal_fold_sym (a ∷ as') [] = refl
equal_fold_sym (a ∷ as') (b ∷ bs) = ground (arith, equal_fold_sym as' bs)

pub equal_fold_trans :
    (a b c : Text) → equal_fold a b ≡ true → equal_fold b c ≡ true → equal_fold a c ≡ true
unfolding equal_fold
equal_fold_trans [] [] c h k = k
equal_fold_trans [] (b ∷ bs) c h k = cc
equal_fold_trans (a ∷ as') [] c h k = cc
equal_fold_trans (a ∷ as') (b ∷ bs) [] h k = cc
equal_fold_trans (a ∷ as') (b ∷ bs) (c ∷ cs) h k = ground (arith, equal_fold_trans as' bs cs)
