-- ===== src/Syncer/Planner/Ranges.antt =====
-- internal/syncer/planner.go: UIDSet, UIDRange, ChunkUIDRange and PlanMetadataChunks.
pub mod Chunks
pub mod Overflow
use imapped.Base.{
  ℕ, zero, suc, ◌+◌, ◌-◌, ◌%◌, ◌≡◌, Bool, ◌||◌, Option, none, some, List, [], ◌∷◌, ◌++◌, ltb, leb,
  ◌==◌, if◌then◌else◌, length, is_empty, take, drop, map, min,
}
use mathlib.Core.Option
use imapped.Base.Int64
use imapped.Syncer.NumSets.{NumSets}
use imapped.Syncer.Planner.{SizedUid}

-- UIDs are uint32.
abbrev pub two32 : ℕ
two32 = 0x100000000

module _ (sets : NumSets) where
  open sets use {Set, empty, add_num, add_range}

  unfoldable pub add_nums : Set → List ℕ → Set
  add_nums s [] = s
  add_nums s (u ∷ us) = add_nums (add_num s u) us

  unfoldable pub uid_set : List SizedUid → Set
  unfolding add_nums
  uid_set batch = add_nums empty (map (λ m. m.uid) batch)

  -- The end 0 stands for "*".
  unfoldable pub uid_range : ℕ → Set
  uid_range start = add_range empty start 0

-- `from + imap.UID(chunk) - 1`, cut down to `end`.
unfoldable pub chunk_end : ℕ → ℕ → ℕ → ℕ
chunk_end from last step =
    let to = (from + step + (two32 - 1)) % two32 in if ltb last to then last else to

-- The loop of ChunkUIDRange, with the range of each set before the set is built; `none` means that
-- the fuel ran out. `step` is the chunk size as a UID.
unfoldable pub chunk_loop : ℕ → ℕ → ℕ → ℕ → Option (List (ℕ × ℕ))
chunk_loop zero from last step = none
chunk_loop (suc fuel) from last step =
    let to = chunk_end from last step in
    let rest = chunk_loop fuel ((from + step) % two32) last step in
    if leb from last
    then (if to == last then some ((from, to) ∷ []) else Option.map (◌∷◌ (from, to)) rest)
    else some []

unfoldable pub chunk_ranges : ℕ → ℕ → ℕ → ℕ → Option (List (ℕ × ℕ))
chunk_ranges fuel start last chunk = chunk_loop fuel start last (chunk % two32)

module _ (sets : NumSets) where
  open sets use {Set, empty, add_range}

  unfoldable pub chunk_uid_range : ℕ → ℕ → ℕ → ℕ → Option (List Set)
  unfolding uid_range
  chunk_uid_range fuel start last chunk =
      if Int64.lt chunk 1 || ltb last start
      then some (uid_range sets start ∷ [])
      else elim (chunk_ranges fuel start last chunk) [
        | none ↦ none
        | some rs ↦ some (map (λ r. add_range empty r.0 r.1) rs)
      ]

-- The slices that PlanMetadataChunks turns into sets, from index `start` on.
unfoldable pub slices : ℕ → List ℕ → ℕ → ℕ → List (List ℕ)
slices zero uids size start = []
slices (suc fuel) uids size start =
    let end = min (start + size) (length uids) in
    let rest = slices fuel uids size (start + size) in
    if ltb start (length uids) then take (end - start) (drop start uids) ∷ rest else []

unfoldable pub metadata_slices : List ℕ → ℕ → List (List ℕ)
unfolding slices
metadata_slices uids size =
    if is_empty uids
    then []
    else slices (suc (length uids)) uids (if Int64.lt size 1 then 1 else size) 0

module _ (sets : NumSets) where
  open sets use {Set, empty}

  unfoldable pub plan_metadata_chunks : List ℕ → ℕ → List Set
  unfolding metadata_slices add_nums
  plan_metadata_chunks uids size = map (add_nums sets empty) (metadata_slices uids size)
