-- ===== src/Syncer/Planner/Ranges/Chunks.antt =====
-- What the chunks of UIDs cover.
use imapped.Base.{
  ℕ, zero, suc, ◌+◌, ◌-◌, ◌≤◌, ◌<◌, ◌≡◌, refl, sym, ap, ◌∙◌, inl, inr, ◌||◌, List, [], ◌∷◌, ◌++◌,
  arith, ltb, ◌==◌, if◌then◌else◌, Bool-cases, length, take, drop, concat, any, All, min, max, map,
  take-append-drop, length-take, length-drop, drop-add, take-min, ltb→le, ltb→lt, or_false,
  or_assoc, any-append, All-concat,
}
use imapped.Base.Int64
use imapped.Base.Int64.{two63}
use imapped.Syncer.NumSets.{NumSets}
use imapped.Syncer.Planner.Ranges.{add_nums, slices, metadata_slices, plan_metadata_chunks}

-- One slice of the loop is the next `size` elements.
slice-take :
    (uids : List ℕ) (size start : ℕ)
    → take (min (start + size) (length uids) - start) (drop start uids)
      ≡ take size (drop start uids)
slice-take uids size start =
    ap (λ n. take n (drop start uids)) (omega (arith, length-drop {0} start uids))
    ∙ take-min size (drop start uids)

drop_all : (start : ℕ) (uids : List ℕ) → length uids ≤ start → drop start uids ≡ []
drop_all zero [] h = refl
drop_all (suc n) [] h = refl
drop_all zero (x ∷ xs) h = absurd (omega arith)
drop_all (suc n) (x ∷ xs) h = drop_all n xs (omega arith)

concat-slices :
    (fuel : ℕ) (uids : List ℕ) (size start : ℕ)
    → 0 < size
    → length uids < fuel + start
    → concat (slices fuel uids size start) ≡ drop start uids
unfolding slices
concat-slices zero uids size start h k = sym (drop_all start uids (omega arith))
concat-slices (suc fuel) uids size start h k = elim (Bool-cases (ltb start (length uids))) [
  | inl e ↦ rw e (
      rw (slice-take uids size start) (
        rw (concat-slices fuel uids size (start + size) h (omega arith)) (
          ap (◌++◌ (take size (drop start uids))) (sym (drop-add start size uids))
          ∙ take-append-drop size (drop start uids))))
  | inr e ↦ rw e (sym (drop_all start uids (ltb→le _ _ e)))
]

abbrev slice_size : ℕ → ℕ
slice_size size = if Int64.lt size 1 then 1 else size

slice_size_pos : (size : ℕ) → size < two63 → (0 < slice_size size) × (slice_size size ≡ max 1 size)
slice_size_pos size h = ground (arith, Int64.lt_small size 1)

slices-All :
    (fuel : ℕ) (uids : List ℕ) (size start : ℕ)
    → 0 < size
    → All (λ c. (0 < length c) × (length c ≤ size)) (slices fuel uids size start)
unfolding slices
slices-All zero uids size start h = tt
slices-All (suc fuel) uids size start h = elim (Bool-cases (ltb start (length uids))) [
  | inl e ↦ rw e (
    (
      omega (
        arith,
        ltb→lt start (length uids) e,
        length-take {0} (min (start + size) (length uids) - start) (drop start uids),
        length-drop {0} start uids,
      ),
      omega (arith, length-take {0} (min (start + size) (length uids) - start) (drop start uids)),
    ),
    slices-All fuel uids size (start + size) h,
  )
  | inr e ↦ rw e tt
]

-- The slices of PlanMetadataChunks, end to end, are the UIDs that went in, in order; each is
-- nonempty and has at most `size` of them, a size below 1 being read as 1.
metadata_slices-partition :
    (uids : List ℕ) (size : ℕ)
    → size < two63
    → (concat (metadata_slices uids size) ≡ uids)
      × All (λ c. (0 < length c) × (length c ≤ max 1 size)) (metadata_slices uids size)
unfolding metadata_slices
metadata_slices-partition [] size h = (refl, tt)
metadata_slices-partition (u ∷ us) size h =
    let p = slice_size_pos size h in
    (
      concat-slices (suc (length (u ∷ us))) (u ∷ us) (slice_size size) 0 p.0 (omega arith),
      rw (← p.1) (slices-All (suc (length (u ∷ us))) (u ∷ us) (slice_size size) 0 p.0),
    )

module _ (sets : NumSets) where
  open sets use {Set, empty, add_num, contains, contains-empty, contains-add_num}

  pub contains-add_nums :
      (s : Set) (us : List ℕ) (u : ℕ)
      → 0 < u
      → All (λ a. 0 < a) us
      → contains (add_nums sets s us) u ≡ (contains s u || any (λ a. a == u) us)
  unfolding add_nums
  contains-add_nums s [] u h k = sym (or_false (contains s u))
  contains-add_nums s (a ∷ us) u h k =
      contains-add_nums (add_num s a) us u h k.1
      ∙ ap (λ b. b || any (λ c. c == u) us) (contains-add_num s a u k.0 h)
      ∙ sym (or_assoc (contains s u) (a == u) (any (λ c. c == u) us))

  any-contains :
      (us : List (List ℕ)) (u : ℕ)
      → 0 < u
      → All (All (λ a. 0 < a)) us
      → any (λ s. contains s u) (map (add_nums sets empty) us) ≡ any (λ a. a == u) (concat us)
  any-contains [] u h k = refl
  any-contains (c ∷ us) u h k = rw (any-append (λ a. a == u) c (concat us)) (
      rw (any-contains us u h k.1) (
        ap (λ b. b || any (λ a. a == u) (concat us))
          (contains-add_nums empty c u h k.0
            ∙ ap (λ b. b || any (λ a. a == u) c) (contains-empty u))))

  -- The sets of PlanMetadataChunks together ask for exactly the UIDs that were given.
  pub plan_metadata_chunks-cover :
      (uids : List ℕ) (size u : ℕ)
      → size < two63
      → 0 < u
      → All (λ a. 0 < a) uids
      → any (λ s. contains s u) (plan_metadata_chunks sets uids size) ≡ any (λ a. a == u) uids
  unfolding plan_metadata_chunks
  plan_metadata_chunks-cover uids size u h k p =
      let e = (metadata_slices-partition uids size h).0 in
      any-contains (metadata_slices uids size) u k (All-concat _ _ (rw e p))
      ∙ ap (any (λ a. a == u)) e
