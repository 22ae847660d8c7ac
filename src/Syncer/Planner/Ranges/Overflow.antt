-- ===== src/Syncer/Planner/Ranges/Overflow.antt =====
-- ChunkUIDRange: its ranges tile what it was asked for, unless the end of a chunk passes the top of
-- the UID space.
use imapped.Base.{ℕ, zero, suc, ◌+◌, ◌-◌, ◌%◌, ◌≤◌, ◌<◌, ◌≡◌, refl, none, List, [], ◌∷◌, arith}
use imapped.Syncer.Planner.Ranges.{chunk_end, chunk_loop, chunk_ranges, two32}

-- The ranges follow one another from `lo` to `hi`, each with at most `k` UIDs.
abbrev pub Tiles : ℕ → ℕ → ℕ → List (ℕ × ℕ) → Type 0
Tiles lo hi k [] = ⊥
Tiles lo hi k ((a, b) ∷ []) = (a ≡ lo) × (a ≤ b) × (b < a + k) × (b ≡ hi)
Tiles lo hi k ((a, b) ∷ r ∷ rs) = (a ≡ lo) × (a ≤ b) × (b < a + k) × Tiles (b + 1) hi k (r ∷ rs)

odd_step :
    (from step : ℕ)
    → from % 2 ≡ 1
    → step % 2 ≡ 0
    → (chunk_end from (two32 - 1) step % 2 ≡ 0) × ((from + step) % two32 % 2 ≡ 1)
unfolding chunk_end
odd_step from step a b = ground arith

loop_endless :
    (fuel from step : ℕ)
    → from % 2 ≡ 1
    → step % 2 ≡ 0
    → from < two32
    → chunk_loop fuel from (two32 - 1) step ≡ none
unfolding chunk_loop
loop_endless zero from step a b c = refl
loop_endless (suc fuel) from step a b c =
    let (even, odd) = odd_step from step a b in
    ground (arith, loop_endless fuel ((from + step) % two32) step odd b (omega arith))

-- Up to the highest UID, with an even chunk size and an odd start, the loop of ChunkUIDRange never
-- ends: the end of a chunk wraps past 2 ^ 32 - 1 instead of stopping there, whatever the fuel.
pub chunk_ranges_endless :
    (fuel start chunk : ℕ)
    → start % 2 ≡ 1
    → chunk % 2 ≡ 0
    → start < two32
    → chunk_ranges fuel start (two32 - 1) chunk ≡ none
unfolding chunk_ranges
chunk_ranges_endless fuel start chunk a b c =
    loop_endless fuel start (chunk % two32) a (omega arith) c
