-- ===== src/Syncer/Priority/Order.antt =====
-- The order of prioritise: by rank, and stable.
use imapped.Base.{
  ℕ, ◌≤◌, ◌≡◌, refl, sym, ◌∙◌, ap, inl, inr, Bool, false, List, [], ◌∷◌, ◌++◌, arith, ltb, ◌==◌,
  select, All, All-imp, All-append, Bool-cases, reverse, append_assoc, append-nil,
}
use mathlib.Core.List.{reverse-cons, reverse-reverse}
use imapped.Syncer.Priority.{MailboxInfo, rank, sink, sort_onto, prioritise}

abbrev pub has_rank : ℕ → MailboxInfo → Bool
has_rank r b = rank b == r

-- Each mailbox's rank is at most those of the ones that follow it.
abbrev pub IsSorted : List MailboxInfo → Type 0
IsSorted [] = Unit
IsSorted (b ∷ boxes) = All (λ c. rank b ≤ rank c) boxes × IsSorted boxes

-- Listed from the right.
abbrev IsFalling : List MailboxInfo → Type 0
IsFalling [] = Unit
IsFalling (b ∷ boxes) = All (λ c. rank c ≤ rank b) boxes × IsFalling boxes

select-sink :
    (r : ℕ) (b : MailboxInfo) (before : List MailboxInfo)
    → select (has_rank r) (sink b before) ≡ select (has_rank r) (b ∷ before)
unfolding sink
select-sink r b [] = refl
select-sink r b (c ∷ before) =
    let rest = select-sink r b before in
    elim (Bool-cases (ltb (rank b) (rank c))) [
      | inl e ↦ elim (Bool-cases (rank c == r)) [
        | inl k ↦
            let other : (rank b == r) ≡ false = ground (arith, e, k) in
            rw e (rw k (rw other (ap (◌∷◌ c) (rest ∙ rw other refl))))
        | inr k ↦ rw e (rw k rest)
      ]
      | inr e ↦ rw e refl
    ]

All-sink :
    (n : ℕ) (b : MailboxInfo) (before : List MailboxInfo)
    → rank b ≤ n
    → All (λ c. rank c ≤ n) before
    → All (λ c. rank c ≤ n) (sink b before)
unfolding sink
All-sink n b [] h k = (h, tt)
All-sink n b (c ∷ before) h k = elim (Bool-cases (ltb (rank b) (rank c))) [
  | inl e ↦ rw e (k.0, All-sink n b before h k.1)
  | inr e ↦ rw e (h, k)
]

sink-IsFalling :
    (b : MailboxInfo) (before : List MailboxInfo) → IsFalling before → IsFalling (sink b before)
unfolding sink
sink-IsFalling b [] h = (tt, tt)
sink-IsFalling b (c ∷ before) h = elim (Bool-cases (ltb (rank b) (rank c))) [
  | inl e ↦ rw e (All-sink (rank c) b before (ground (arith, e)) h.0, sink-IsFalling b before h.1)
  | inr e ↦ rw e ((ground (arith, e), All-imp _ _ (λ d k. ground (arith, k, e)) before h.0), h)
]

sort_onto-IsFalling :
    (before boxes : List MailboxInfo) → IsFalling before → IsFalling (sort_onto before boxes)
unfolding sort_onto
sort_onto-IsFalling before [] h = h
sort_onto-IsFalling before (b ∷ boxes) h =
    sort_onto-IsFalling (sink b before) boxes (sink-IsFalling b before h)

select-append :
    (p : MailboxInfo → Bool) (xs ys : List MailboxInfo)
    → select p (xs ++ ys) ≡ select p xs ++ select p ys
select-append p [] ys = refl
select-append p (x ∷ xs) ys = elim (Bool-cases (p x)) [
  | inl e ↦ rw e (ap (◌∷◌ x) (select-append p xs ys))
  | inr e ↦ rw e (select-append p xs ys)
]

select-reverse :
    (p : MailboxInfo → Bool) (xs : List MailboxInfo) → select p (reverse xs) ≡ reverse (select p xs)
select-reverse p [] = refl
select-reverse p (x ∷ xs) = rw (reverse-cons x xs) (
    select-append p (reverse xs) (x ∷ []) ∙ elim (Bool-cases (p x)) [
      | inl e ↦
          rw e (rw (reverse-cons x (select p xs)) (ap (λ l. l ++ x ∷ []) (select-reverse p xs)))
      | inr e ↦ rw e (append-nil (select p (reverse xs)) ∙ select-reverse p xs)
    ])

select-sort_onto :
    (r : ℕ) (before boxes : List MailboxInfo)
    → select (has_rank r) (sort_onto before boxes)
      ≡ reverse (select (has_rank r) boxes) ++ select (has_rank r) before
unfolding sort_onto
select-sort_onto r before [] = refl
select-sort_onto r before (b ∷ boxes) =
    select-sort_onto r (sink b before) boxes
    ∙ rw (select-sink r b before) (elim (Bool-cases (rank b == r)) [
      | inl e ↦ rw e (
          rw (reverse-cons b (select (has_rank r) boxes))
            (sym (append_assoc (reverse (select (has_rank r) boxes)) (b ∷ []) _)))
      | inr e ↦ rw e refl
    ])

IsSorted-append :
    (xs : List MailboxInfo) (b : MailboxInfo)
    → IsSorted xs
    → All (λ c. rank c ≤ rank b) xs
    → IsSorted (xs ++ b ∷ [])
IsSorted-append [] b h k = (tt, tt)
IsSorted-append (x ∷ xs) b h k =
    (All-append (λ c. rank x ≤ rank c) xs (b ∷ []) h.0 (k.0, tt), IsSorted-append xs b h.1 k.1)

All-reverse : (P : MailboxInfo → Type 0) (xs : List MailboxInfo) → All P xs → All P (reverse xs)
All-reverse P [] h = tt
All-reverse P (x ∷ xs) h =
    rw (reverse-cons x xs) (All-append P (reverse xs) (x ∷ []) (All-reverse P xs h.1) (h.0, tt))

reverse-IsSorted : (xs : List MailboxInfo) → IsFalling xs → IsSorted (reverse xs)
reverse-IsSorted [] h = tt
reverse-IsSorted (x ∷ xs) h = rw (reverse-cons x xs) (
    IsSorted-append (reverse xs) x (reverse-IsSorted xs h.1)
      (All-reverse (λ c. rank c ≤ rank x) xs h.0))

-- The mailboxes come out by rank, and those of each rank are the ones that went in, in the order in
-- which they went in: the sort loses and repeats none and is stable.
pub prioritise-IsSorted :
    (boxes : List MailboxInfo)
    → IsSorted (prioritise boxes)
      × ((r : ℕ) → select (has_rank r) (prioritise boxes) ≡ select (has_rank r) boxes)
unfolding prioritise
prioritise-IsSorted boxes = (
  reverse-IsSorted (sort_onto [] boxes) (sort_onto-IsFalling [] boxes tt),
  λ r.
      select-reverse (has_rank r) (sort_onto [] boxes)
      ∙ ap reverse (select-sort_onto r [] boxes ∙ append-nil (reverse (select (has_rank r) boxes)))
      ∙ reverse-reverse (select (has_rank r) boxes),
)
