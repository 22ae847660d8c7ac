-- ===== src/Store/Sql.antt =====
-- What the statements of internal/store share: UPDATE with WHERE, and ORDER BY with LIMIT.
use imapped.Base.{
  ◌/◌, ◌%◌, ◌^◌, ◌*◌, ℕ, zero, suc, ◌+◌, ◌≤◌, ◌≡◌, refl, inl, inr, Bool, true, false, Option, none,
  some, List, [], ◌∷◌, ◌++◌, map, arith, ◌==◌, if◌then◌else◌, select, any, count, take, All,
  Bool-cases,
}

module _ {ℓ} {A : Type ℓ} where
  -- UPDATE ... SET ... WHERE ...
  abbrev pub update_where : (A → Bool) → (A → A) → List A → List A
  update_where p f = map λ r. if p r then f r else r

  -- ORDER BY: `before a b` says that the row `a` comes ahead of `b`; rows that tie stay in order.
  unfoldable pub insert_row : (A → A → Bool) → A → List A → List A
  insert_row before a [] = a ∷ []
  insert_row before a (b ∷ rows) =
      let rest = insert_row before a rows in if before b a then b ∷ rest else a ∷ b ∷ rows

  unfoldable pub order_by : (A → A → Bool) → List A → List A
  unfolding insert_row
  order_by before [] = []
  order_by before (a ∷ rows) = insert_row before a (order_by before rows)

  pub count-insert_row :
      (p : A → Bool) (before : A → A → Bool) (a : A) (rows : List A)
      → count p (insert_row before a rows) ≡ count p (a ∷ rows)
  unfolding insert_row
  count-insert_row p before a [] = refl
  count-insert_row p before a (b ∷ rows) = ground (arith, count-insert_row p before a rows)

  pub count-order_by :
      (p : A → Bool) (before : A → A → Bool) (rows : List A)
      → count p (order_by before rows) ≡ count p rows
  unfolding order_by
  count-order_by p before [] = refl
  count-order_by p before (a ∷ rows) =
      ground
        (arith, count-insert_row p before a (order_by before rows), count-order_by p before rows)

  pub All-insert_row {κ} :
      (P : A → Type κ) (before : A → A → Bool) (a : A) (rows : List A)
      → P a
      → All P rows
      → All P (insert_row before a rows)
  unfolding insert_row
  All-insert_row P before a [] h k = (h, tt)
  All-insert_row P before a (b ∷ rows) h k = elim (Bool-cases (before b a)) [
    | inl e ↦ rw e (k.0, All-insert_row P before a rows h k.1)
    | inr e ↦ rw e (h, k)
  ]

  pub All-order_by {κ} :
      (P : A → Type κ) (before : A → A → Bool) (rows : List A)
      → All P rows
      → All P (order_by before rows)
  unfolding order_by
  All-order_by P before [] h = tt
  All-order_by P before (a ∷ rows) h =
      All-insert_row P before a (order_by before rows) h.0 (All-order_by P before rows h.1)

  pub All-select : (p : A → Bool) (rows : List A) → All (λ r. p r ≡ true) (select p rows)
  All-select p [] = tt
  All-select p (a ∷ rows) = elim (Bool-cases (p a)) [
    | inl e ↦ rw e (e, All-select p rows)
    | inr e ↦ rw e (All-select p rows)
  ]

  pub All-take {κ} : (P : A → Type κ) (n : ℕ) (rows : List A) → All P rows → All P (take n rows)
  All-take P zero rows h = tt
  All-take P (suc n) [] h = tt
  All-take P (suc n) (a ∷ rows) h = (h.0, All-take P n rows h.1)

abbrev pub member : ℕ → List ℕ → Bool
member a = any (λ b. b == a)

abbrev pub is_some {ℓ} : {A : Type ℓ} → Option A → Bool
is_some none = false
is_some (some a) = true

abbrev pub head_of {ℓ} : {A : Type ℓ} → List A → Option A
head_of [] = none
head_of (a ∷ as') = some a

-- byte(n >> (8 * i))
abbrev pub nth_byte : ℕ → ℕ → ℕ
nth_byte n i = n / 2 ^ (8 * i) % 256

pub All-map :
    {A B : Type 0} (P : B → Type 0) (f : A → B) (xs : List A)
    → All (λ a. P (f a)) xs
    → All P (map f xs)
All-map P f [] h = tt
All-map P f (x ∷ xs) h = (h.0, All-map P f xs h.1)

pub count-update :
    {A : Type 0} (p q r : A → Bool) (f : A → A)
    → ((a : A) → p (if q a then f a else a) ≡ r a)
    → (rows : List A) → count p (update_where q f rows) ≡ count r rows
count-update p q r f h [] = refl
count-update p q r f h (a ∷ rows) = rw (h a) (rw (count-update p q r f h rows) refl)

pub count-none : {A : Type 0} (rows : List A) → count (λ a. false) rows ≡ 0
count-none [] = refl
count-none (a ∷ rows) = count-none rows

pub count-any : {A : Type 0} (p : A → Bool) (rows : List A) → any p rows ≡ false → count p rows ≡ 0
count-any p [] h = refl
count-any p (a ∷ rows) h = ground (arith, count-any p rows, h)

pub count-append :
    {A : Type 0} (p : A → Bool) (xs ys : List A) → count p (xs ++ ys) ≡ count p xs + count p ys
count-append p [] ys = omega arith
count-append p (x ∷ xs) ys = ground (arith, count-append p xs ys)

-- Rows that a statement has claimed by their keys do not satisfy a test that no claimed row passes.
pub claimed-All :
    {A : Type 0} (key : A → ℕ) (ids : List ℕ) (f : A → A) (p : A → Bool)
    → ((a : A) → p (f a) ≡ false)
    → (rows : List A)
    → All
        (λ a. member (key a) ids ≡ false)
        (select p (update_where (λ a. member (key a) ids) f rows))
claimed-All key ids f p h [] = tt
claimed-All key ids f p h (a ∷ rows) = elim (Bool-cases (member (key a) ids)) [
  | inl e ↦ rw e (rw (h a) (claimed-All key ids f p h rows))
  | inr e ↦ elim (Bool-cases (p a)) [
    | inl k ↦ rw e (rw k (e, claimed-All key ids f p h rows))
    | inr k ↦ rw e (rw k (claimed-All key ids f p h rows))
  ]
]

pub count-select :
    {A : Type 0} (p q : A → Bool) (rows : List A) → count p (select q rows) ≤ count p rows
count-select p q [] = omega arith
count-select p q (a ∷ rows) = ground (arith, count-select p q rows)

-- An UPDATE that keeps what a test reads keeps how many rows pass it.
pub count-kept :
    {A : Type 0} (q p : A → Bool) (f : A → A)
    → ((a : A) → q (f a) ≡ q a)
    → (rows : List A) → count q (update_where p f rows) ≡ count q rows
count-kept q p f h rows =
    count-update q p q f
      (λ a. elim (Bool-cases (p a)) [ inl e ↦ rw e (rw (h a) refl) | inr e ↦ rw e refl ]) rows

-- An UPDATE of other rows keeps the rows that pass a test.
pub select-update :
    {A : Type 0} (p q : A → Bool) (f : A → A)
    → ((a : A) → q a ≡ true → (p a ≡ false) × (p (f a) ≡ false))
    → (rows : List A) → select p (update_where q f rows) ≡ select p rows
select-update p q f h [] = refl
select-update p q f h (a ∷ rows) = elim (Bool-cases (q a)) [
  | inl e ↦ rw (e, (h a e).0, (h a e).1) (select-update p q f h rows)
  | inr e ↦ rw (e, select-update p q f h rows) refl
]
