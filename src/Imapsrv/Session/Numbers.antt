-- ===== src/Imapsrv/Session/Numbers.antt =====
-- Sequence numbers and UIDs of the selected mailbox.
use imapped.Base.{
  ℕ, suc, ◌≤◌, ◌<◌, ◌≡◌, refl, sym, ◌∙◌, ap, Bool, true, false, ◌||◌, List, [], ◌∷◌, map, arith,
  leb, ◌==◌, if◌then◌else◌, select, count, All, All-imp,
}
use imapped.Store.Sql.{member, All-map}
use imapped.Store.Keys.{All-filter, select-ext, member-select}
use imapped.Store.Tables.{Mailbox}
use imapped.Syncer.NumSets.{NumSets}
use imapped.Syncer.Planner.Ranges.{add_nums}
use imapped.Syncer.Planner.Ranges.Chunks.{contains-add_nums}
use imapped.Imapsrv.Sections.{Summary}
use imapped.Imapsrv.Search.{Criteria, matches_criteria}
use imapped.Imapsrv.Session.{
  Session, Reply, done, refused, fails, NumSet, number_from, resolve, found, answer, search,
  require_mailbox,
}

module _ (sets : NumSets) where
  open sets use {contains, empty, contains-empty}

  resolved :
      {A : Type 0} (key : A → ℕ) (p : A → Bool) (rows : List A)
      → All (λ a. 0 < key a) rows
      → ((i : ℕ) → count (λ a. key a == i) rows ≤ 1)
      → select (λ a. contains (add_nums sets empty (map key (select p rows))) (key a)) rows
        ≡ select p rows
  resolved key p rows h u =
      let nums = map key (select p rows) in
      let positive : All (λ n. 0 < n) nums =
        All-map (λ n. 0 < n) key (select p rows) (All-filter (λ a. 0 < key a) p rows h) in
      select-ext (λ a. contains (add_nums sets empty nums) (key a)) (λ a. member (key a) nums) rows
        (All-imp (λ a. 0 < key a) _
          (λ a k.
            contains-add_nums sets empty nums (key a) k positive
            ∙ ap (λ b. b || member (key a) nums) (contains-empty (key a)))
          rows h)
      ∙ select-ext (λ a. member (key a) nums) p rows (member-select key p rows u)

number_from_positive : (n : ℕ) (ms : List Summary) → All (λ x. 0 < x.0) (number_from (suc n) ms)
unfolding number_from
number_from_positive n [] = tt
number_from_positive n (m ∷ ms) = (omega arith, number_from_positive (suc n) ms)

number_from_unique :
    (n i : ℕ) (ms : List Summary)
    → count (λ x. x.0 == i) (number_from n ms) ≤ (if leb n i then 1 else 0)
unfolding number_from
number_from_unique n i [] = omega arith
number_from_unique n i (m ∷ ms) = ground (arith, number_from_unique (suc n) i ms)

number_from-count :
    (n i : ℕ) (ms : List Summary)
    → count (λ x. x.1.local_uid == i) (number_from n ms) ≡ count (λ m. m.local_uid == i) ms
unfolding number_from
number_from-count n i [] = refl
number_from-count n i (m ∷ ms) = ground (arith, number_from-count (suc n) i ms)

number_from-All :
    (n : ℕ) (ms : List Summary)
    → All (λ m. 0 < m.local_uid) ms
    → All (λ x. 0 < x.1.local_uid) (number_from n ms)
unfolding number_from
number_from-All n [] h = tt
number_from-All n (m ∷ ms) h = (h.0, number_from-All (suc n) ms h.1)

search-answer :
    (sets : NumSets) (by_uid : Bool) (c : Criteria sets.Set) (s : Session) (set : NumSet sets.Set)
    → search sets by_uid c s ≡ done set
    → answer sets by_uid c s ≡ set
unfolding search
search-answer sets by_uid c s set = go (require_mailbox s)
  where
    reply_of : NumSet sets.Set → Reply (NumSet sets.Set) → NumSet sets.Set
    reply_of t (done a) = a
    reply_of t (refused r) = t
    reply_of t (fails e) = t

    go :
        (r : Reply (ℕ × Mailbox))
        → elim r as (λ r. Reply (NumSet sets.Set)) [
          | refused r ↦ refused r
          | fails e ↦ fails e
          | done x ↦ done (answer sets by_uid c s)
        ]
          ≡ done set
        → answer sets by_uid c s ≡ set
    go (done x) k = ap (reply_of set) k
    go (refused r) k = cc
    go (fails e) k = cc

resolve-answer :
    (sets : NumSets) (by_uid : Bool) (c : Criteria sets.Set) (s : Session)
    → All (λ m. 0 < m.local_uid) s.snapshot
    → ((i : ℕ) → count (λ m. m.local_uid == i) s.snapshot ≤ 1)
    → resolve sets (answer sets by_uid c s) s ≡ found sets c s
unfolding resolve answer found
resolve-answer sets true c s h u =
    resolved sets (λ x. x.1.local_uid) (λ x. matches_criteria sets x.1 x.0 c)
      (number_from 1 s.snapshot) (number_from-All 1 s.snapshot h)
      (λ i. ground (arith, number_from-count 1 i s.snapshot, u i))
resolve-answer sets false c s h u =
    resolved sets (λ x. x.0) (λ x. matches_criteria sets x.1 x.0 c) (number_from 1 s.snapshot)
      (number_from_positive 0 s.snapshot) (λ i. ground (arith, number_from_unique 1 i s.snapshot))

-- What SEARCH or UID SEARCH answers, used in a FETCH or STORE on the same snapshot, stands for
-- exactly the messages that matched, in their order, with their sequence numbers, when the UIDs of
-- the snapshot are positive and different.
pub resolve-search :
    (sets : NumSets) (by_uid : Bool) (c : Criteria sets.Set) (s : Session) (set : NumSet sets.Set)
    → All (λ m. 0 < m.local_uid) s.snapshot
    → ((i : ℕ) → count (λ m. m.local_uid == i) s.snapshot ≤ 1)
    → search sets by_uid c s ≡ done set
    → resolve sets set s ≡ found sets c s
resolve-search sets by_uid c s set h u k =
    ap (λ t. resolve sets t s) (sym (search-answer sets by_uid c s set k))
    ∙ resolve-answer sets by_uid c s h u
