-- ===== src/Store/Keys.antt =====
-- Rows found again by their keys.
use imapped.Base.{
  ℕ, zero, suc, ◌≤◌, ◌≡◌, refl, inl, inr, Bool, true, false, ◌&&◌, List, [], ◌∷◌, map, take, arith,
  ◌==◌, if◌then◌else◌, select, count, All, All-imp, Bool-cases,
}
use imapped.Store.Sql.{member}

-- The number of rows with an id that pass a test, and of all rows with that id.
pub fewer :
    {A : Type 0} (key : A → ℕ) (p : A → Bool) (i : ℕ) (rows : List A)
    → count (λ a. key a == i && p a) rows ≤ count (λ a. key a == i) rows
fewer key p i [] = omega arith
fewer key p i (a ∷ rows) = ground (arith, fewer key p i rows)

abbrev pub IsOutdone : {A : Type 0} → (A → ℕ) → (A → Bool) → List A → A → Type 0
IsOutdone key p rows a =
    p a ≡ false → suc (count (λ b. key b == key a && p b) rows) ≤ count (λ b. key b == key a) rows

pub others-IsOutdone :
    {A : Type 0} (key : A → ℕ) (p : A → Bool) (rows : List A) → All (IsOutdone key p rows) rows
others-IsOutdone key p [] = tt
others-IsOutdone key p (a ∷ rows) = (
  (λ k. ground (arith, k, fewer key p (key a) rows)),
  All-imp (IsOutdone key p rows) (IsOutdone key p (a ∷ rows)) (λ b h k. ground (arith, h k)) rows
      (others-IsOutdone key p rows),
)

pub member-map :
    {A : Type 0} (key : A → ℕ) (i : ℕ) (rows : List A)
    → member i (map key rows) ≡ true
    → 1 ≤ count (λ a. key a == i) rows
member-map key i [] h = cc
member-map key i (a ∷ rows) h = ground (arith, h, member-map key i rows)

pub count-take :
    {A : Type 0} (q : A → Bool) (n : ℕ) (rows : List A) → count q (take n rows) ≤ count q rows
count-take q zero rows = omega arith
count-take q (suc n) [] = omega arith
count-take q (suc n) (a ∷ rows) = ground (arith, count-take q n rows)

pub count-both :
    {A : Type 0} (q p : A → Bool) (rows : List A)
    → count q (select p rows) ≡ count (λ a. q a && p a) rows
count-both q p [] = refl
count-both q p (a ∷ rows) = ground (arith, count-both q p rows)

pub All-filter :
    {A : Type 0} (P : A → Type 0) (p : A → Bool) (rows : List A)
    → All P rows
    → All P (select p rows)
All-filter P p [] h = tt
All-filter P p (a ∷ rows) h = elim (Bool-cases (p a)) [
  | inl e ↦ rw e (h.0, All-filter P p rows h.1)
  | inr e ↦ rw e (All-filter P p rows h.1)
]

pub select-ext :
    {A : Type 0} (f g : A → Bool) (rows : List A)
    → All (λ a. f a ≡ g a) rows
    → select f rows ≡ select g rows
select-ext f g [] h = refl
select-ext f g (a ∷ rows) h = rw h.0 (rw (select-ext f g rows h.1) refl)

selected-member :
    {A : Type 0} (key : A → ℕ) (p : A → Bool) (rows : List A)
    → All (λ a. p a ≡ true → member (key a) (map key (select p rows)) ≡ true) rows
selected-member {A} key p [] = tt
selected-member {A} key p (b ∷ rows) = (
  (λ h. rw h (ground arith)),
  All-imp _ _ (λ a h k. step (p b) a (h k)) rows (selected-member key p rows),
)
  where
    step :
        (c : Bool) (a : A)
        → member (key a) (map key (select p rows)) ≡ true
        → member (key a) (map key (if c then b ∷ select p rows else select p rows)) ≡ true
    step true a h = ground (arith, h)
    step false a h = h

All-both :
    {A : Type 0} (f g : A → Bool) (xs : List A)
    → All (λ a. f a ≡ true → g a ≡ true) xs
    → All (λ a. g a ≡ true → f a ≡ true) xs
    → All (λ a. f a ≡ g a) xs
All-both f g [] h k = tt
All-both f g (x ∷ xs) h k = (ground (arith, h.0, k.0), All-both f g xs h.1 k.1)

-- When the keys are different, the rows whose key is among those of the selected rows are the
-- selected rows.
pub member-select :
    {A : Type 0} (key : A → ℕ) (p : A → Bool) (rows : List A)
    → ((i : ℕ) → count (λ a. key a == i) rows ≤ 1)
    → All (λ a. member (key a) (map key (select p rows)) ≡ p a) rows
member-select key p rows u =
    All-both (λ a. member (key a) (map key (select p rows))) p rows
      (All-imp (IsOutdone key p rows) _
        (λ a h m. elim (Bool-cases (p a)) [
          | inl e ↦ e
          | inr e ↦ ground (
            arith,
            h e,
            u (key a),
            member-map key (key a) (select p rows) m,
            count-both (λ b. key b == key a) p rows,
          )
        ])
        rows (others-IsOutdone key p rows))
      (selected-member key p rows)
