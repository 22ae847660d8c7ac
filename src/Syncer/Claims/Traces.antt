-- ===== src/Syncer/Claims/Traces.antt =====
-- What the calls on the claim table promise, in any order.
use imapped.Base.{ℕ, ◌+◌, ◌≤◌, ◌≡◌, true, none, some, List, [], ◌∷◌, arith, if◌then◌else◌}
use imapped.Syncer.Claims.{
  PendingBody, ClaimKey, ClaimTable, same_key, find, delete, assign, remember, take_claim, Call,
  remembers, takes, granted, mentions, remembered,
}

key-eq : (a b : ClaimKey) → same_key a b ≡ true → a ≡ b
unfolding same_key
key-eq a b h = ground arith

same_key_refl : (a : ClaimKey) → same_key a a ≡ true
unfolding same_key
same_key_refl a = ground arith

find-delete :
    (k j : ClaimKey) (t : ClaimTable)
    → find j (delete k t) ≡ (if same_key k j then none else find j t)
unfolding find delete
find-delete k j [] = ground arith
find-delete k j ((i, c) ∷ t) =
    ground (arith, find-delete k j t, key-eq i k, key-eq i j, key-eq k j, same_key_refl k)

find-assign :
    (k j : ClaimKey) (c : PendingBody) (t : ClaimTable)
    → find j (assign k c t) ≡ (if same_key k j then some c else find j t)
unfolding find assign
find-assign k j c t = ground (arith, find-delete k j t)

-- A claim that was taken is gone, and no other claim is touched.
pub take_claim_lem :
    (m u : ℕ) (j : ClaimKey) (t : ClaimTable)
    → let k : ClaimKey = record { mailbox_id = m; uid = u } in
      ((take_claim m u t).0 ≡ find k t)
      × (find j (take_claim m u t).1 ≡ (if same_key k j then none else find j t))
unfolding take_claim
take_claim_lem m u j t =
    let k : ClaimKey = record { mailbox_id = m; uid = u } in
    (ground (arith, find-delete k j t, key-eq k j), ground (arith, find-delete k j t, key-eq k j))

-- 1 if the key has a claim.
abbrev pub present : ClaimKey → ClaimTable → ℕ
present k t = elim (find k t) [ none ↦ 0 | some c ↦ 1 ]

present-remember :
    (k : ClaimKey) (m : ℕ) (cs : List (ℕ × PendingBody)) (t : ClaimTable)
    → present k (remember m cs t) ≤ mentions k m cs + present k t
unfolding remember mentions
present-remember k m [] t = omega arith
present-remember k m ((u, c) ∷ cs) t = ground (
  arith,
  find-assign (record { mailbox_id = m; uid = u }) k c t,
  present-remember k m cs (assign (record { mailbox_id = m; uid = u }) c t),
)

-- In any interleaving of the calls of producers and workers, a key is handed out at most as often
-- as it was remembered, the claim that the table started with counted: no UID is processed twice on
-- one claim.
pub granted-le-remembered :
    (k : ClaimKey) (calls : List Call) (t : ClaimTable)
    → granted k calls t ≤ remembered k calls + present k t
unfolding granted remembered
granted-le-remembered k [] t = omega arith
granted-le-remembered k (remembers m cs ∷ calls) t =
    omega (arith, granted-le-remembered k calls (remember m cs t), present-remember k m cs t)
granted-le-remembered k (takes m u ∷ calls) t =
    let j : ClaimKey = record { mailbox_id = m; uid = u } in
    let (got, left) = take_claim_lem m u k t in
    ground (arith, got, left, key-eq j k, granted-le-remembered k calls (take_claim m u t).1)
