-- ===== src/Syncer/NumSets.antt =====
-- The message sets of the vendored IMAP library (third_party/go-imap/numset.go), as the interface
-- that the planner and the server session use. The laws are those of its documentation: AddNum and
-- AddRange insert, Contains answers for numbers that are not zero ("0 represents *").
use imapped.Base.{
  ℕ, ◌≤◌, ◌<◌, ◌≡◌, refl, Bool, true, false, ◌||◌, ◌&&◌, List, [], ◌∷◌, arith, leb, ◌==◌, any,
}

pub record NumSets : Type 1 where
  pub Set : Type 0
  pub empty : Set
  pub add_num : Set → ℕ → Set
  pub add_range : Set → ℕ → ℕ → Set
  pub contains : Set → ℕ → Bool
  pub contains-empty : (u : ℕ) → contains empty u ≡ false
  pub contains-add_num :
      (s : Set) (a u : ℕ) → 0 < a → 0 < u → contains (add_num s a) u ≡ (contains s u || a == u)
  pub contains-add_range :
      (s : Set) (a b u : ℕ)
      → 0 < a
      → a ≤ b
      → 0 < u
      → contains (add_range s a b) u ≡ (contains s u || (leb a u && leb u b))

-- Sets as lists of ranges, which meet the laws.
abbrev pub list_contains : List (ℕ × ℕ) → ℕ → Bool
list_contains rs u = any (λ r. leb r.0 u && leb u r.1) rs

pub or_comm : (a b : Bool) → (a || b) ≡ (b || a)
or_comm true true = refl
or_comm true false = refl
or_comm false true = refl
or_comm false false = refl

pub between_self : (a u : ℕ) (c : Bool) → ((leb a u && leb u a) || c) ≡ (c || a == u)
between_self a u c = ground arith

abbrev pub range_lists : NumSets
range_lists = record {
  Set = List (ℕ × ℕ);
  empty = [];
  add_num = λ s a. (a, a) ∷ s;
  add_range = λ s a b. (a, b) ∷ s;
  contains = list_contains;
  contains-empty = λ u. refl;
  contains-add_num = λ s a u p q. between_self a u (list_contains s u);
  contains-add_range = λ s a b u p q r. or_comm (leb a u && leb u b) (list_contains s u);
}
